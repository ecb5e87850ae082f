-- ===== src/Build/ProgramBuilder/Tests.antt =====
-- A small program with a trait and a vtable, and the theorem at it.
use minirust.Prelude.{◌≡◌, refl, [], ◌∷◌, Option, some, none, ◌>>=◌}
use minirust.Build.FunctionBuilder as F
use minirust.Build.FunctionBuilder.{FunctionBuilder}
use minirust.Build.FunctionBuilder.Terminators as M
use minirust.Build.FunctionBuilder.Methods.{return_-Does}
use minirust.Build.ProgramBuilder.{
  ProgramBuilder, TraitBuilder, VTableBuilder, new, finish_program, finish_function, finish_trait,
  add_method, finish_vtable,
}
use minirust.Build.ProgramBuilder.Laws.{
  done, step, function, trait_, vtable, AllImplement, AllClosed, finish_program-IsValid,
}

abbrev get_or {ℓ} : {A : Type ℓ} → A → Option A → A
get_or d none = d
get_or d (some a) = a

-- fn f0() { return }
new_fn : FunctionBuilder
unfolding F.new
new_fn =
    get_or
      (record {
        name = 0;
        locals = [];
        args = [];
        blocks = [];
        start = 0;
        ret = none;
        cur_block = none;
        next_block = 0;
        next_local = 0;
      })
      (F.new 0)

returned : FunctionBuilder
unfolding new_fn M.return_ F.finish_block
returned = get_or new_fn (M.return_ new_fn)

-- The builder of the one trait, which has one method
trait_builder : TraitBuilder
trait_builder = record { name = 0; next_method = 1; method_names = 0 ∷ [] }

vtable_builder : VTableBuilder
unfolding add_method
vtable_builder =
    add_method 0 0 (record { trait_name = 0; name = 0; size = 4; align = 4; methods = [] })

with_fn : ProgramBuilder
unfolding returned finish_function F.finish_function
with_fn = get_or new (finish_function returned new >>= λ r. some r.1)

with_trait : ProgramBuilder
unfolding with_fn finish_trait trait_builder
with_trait = get_or new (finish_trait trait_builder with_fn >>= λ r. some r.1)

with_vtable : ProgramBuilder
unfolding with_trait finish_vtable vtable_builder
with_vtable = get_or new (finish_vtable vtable_builder with_trait >>= λ r. some r.1)

new-new_fn : F.new 0 ≡ some new_fn
unfolding new_fn
new-new_fn = refl

return_-returned : M.return_ new_fn ≡ some returned
unfolding returned
return_-returned = refl

finish_function-with_fn : finish_function returned new ≡ some (0, with_fn)
unfolding with_fn
finish_function-with_fn = refl

finish_trait-with_trait : finish_trait trait_builder with_fn ≡ some (0, with_trait)
unfolding with_trait
finish_trait-with_trait = refl

finish_vtable-with_vtable : finish_vtable vtable_builder with_trait ≡ some (0, with_vtable)
unfolding with_vtable
finish_vtable-with_vtable = refl

-- A vtable without the method is refused.
finish_vtable_incomplete :
    finish_vtable
      (record { trait_name = 0; name = 0; size = 4; align = 4; methods = [] })
      with_trait
    ≡ none
unfolding finish_vtable with_trait
finish_vtable_incomplete = refl

finish_program-IsValid_example :
    AllImplement (finish_program with_vtable 0).traits (finish_program with_vtable 0).vtables
    × AllClosed (finish_program with_vtable 0).functions
finish_program-IsValid_example = finish_program-IsValid with_vtable 0 (
    step
      (step
        (step done (
          function 0 0 new_fn returned new-new_fn (return_-Does new_fn returned return_-returned)
            finish_function-with_fn))
        (trait_ trait_builder 0 finish_trait-with_trait))
      (vtable vtable_builder 0 finish_vtable-with_vtable))
