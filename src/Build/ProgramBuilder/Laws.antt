-- ===== src/Build/ProgramBuilder/Laws.antt =====
-- build/mod.rs: the steps of clients of the program builder, and its invariant.
use minirust.Prelude.{
  ℕ, ◌≡◌, ap, subst, true, List, [], ◌∷◌, some, >>=-eq-some, some_inj, unless-eq-some, if-eq-some,
  get, keys, contains_key, contains_key-get, try_insert, same_set, arith,
}
use minirust.Lang.Types.{TraitName}
use minirust.Lang.Syntax.{FnName, TraitMethodName, PlaceExpr, Function, VTable, VTableName}
use minirust.Build.Types.{TypeConv}
use minirust.Build.FunctionBuilder as F
use minirust.Build.FunctionBuilder.{FunctionBuilder}
use minirust.Build.FunctionBuilder.Reach.{Reach}
use minirust.Build.FunctionBuilder.Closed.{IsClosed, finish_function-IsClosed}
use minirust.Build.ProgramBuilder.{
  ProgramBuilder, VTableBuilder, TraitBuilder, new, finish_program, declare_function,
  finish_function, declare_vtable, to_vtable, finish_vtable, declare_trait, finish_trait,
  declare_global_zero_initialized,
}

-- A vtable has the methods of its trait, which is declared.
abbrev pub Implements : List (TraitName × List TraitMethodName) → VTable → Type 0
Implements traits v =
    (methods : List TraitMethodName) × (get traits v.trait_name ≡ some methods)
    × (same_set methods (keys v.methods) ≡ true)

abbrev pub AllImplement :
    List (TraitName × List TraitMethodName) → List (VTableName × VTable) → Type 0
AllImplement traits [] = Unit
AllImplement traits ((_, v) ∷ vtables) = Implements traits v × AllImplement traits vtables

abbrev pub AllClosed : List (FnName × Function) → Type 0
AllClosed [] = Unit
AllClosed ((_, f) ∷ functions) = IsClosed f × AllClosed functions

pub record IsValid (pb : ProgramBuilder) : Type 0 where
  pub vtables : AllImplement pb.traits pb.vtables
  pub functions : AllClosed pb.functions

-- A step is a call of a method that returns. A function builder that is finished comes from a new
-- one by its own methods; the builders of vtables and traits can be anything.
pub data Step : ProgramBuilder → ProgramBuilder → Type 0 where
  start_function :
      {pb pb' : ProgramBuilder} (fb : FunctionBuilder)
      → declare_function pb ≡ some (fb, pb')
      → Step pb pb'
  function :
      {pb pb' : ProgramBuilder} (n name : FnName) (fb₀ fb : FunctionBuilder)
      → F.new n ≡ some fb₀
      → Reach fb₀ fb
      → finish_function fb pb ≡ some (name, pb')
      → Step pb pb'
  start_vtable :
      {pb pb' : ProgramBuilder} (t : TraitName) (size align : ℕ) (v : VTableBuilder)
      → declare_vtable t size align pb ≡ some (v, pb')
      → Step pb pb'
  vtable :
      {pb pb' : ProgramBuilder} (v : VTableBuilder) (name : VTableName)
      → finish_vtable v pb ≡ some (name, pb')
      → Step pb pb'
  start_trait :
      {pb pb' : ProgramBuilder} (t : TraitBuilder) → declare_trait pb ≡ some (t, pb') → Step pb pb'
  trait_ :
      {pb pb' : ProgramBuilder} (t : TraitBuilder) (name : TraitName)
      → finish_trait t pb ≡ some (name, pb')
      → Step pb pb'
  global :
      {pb pb' : ProgramBuilder} (t : TypeConv) (p : PlaceExpr)
      → declare_global_zero_initialized t pb ≡ some (p, pb')
      → Step pb pb'

pub data Steps : ProgramBuilder → ProgramBuilder → Type 0 where
  done : {pb : ProgramBuilder} → Steps pb pb
  step : {a b c : ProgramBuilder} → Steps a b → Step b c → Steps a c

-- A new entry hides no other.
get-try_insert :
    {V : Type 0} (m m' : List (ℕ × V)) (k j : ℕ) (v w : V)
    → try_insert m k v ≡ some m'
    → get m j ≡ some w
    → get m' j ≡ some w
get-try_insert m m' k j v w h e = ground (arith, contains_key-get m j w)

AllImplement-try_insert :
    (traits traits' : List (TraitName × List TraitMethodName)) (k : TraitName)
    (methods : List TraitMethodName) (vtables : List (VTableName × VTable))
    → try_insert traits k methods ≡ some traits'
    → AllImplement traits vtables
    → AllImplement traits' vtables
AllImplement-try_insert traits traits' k methods [] h all = tt
AllImplement-try_insert traits traits' k methods ((_, v) ∷ vtables) h ((ms, e, same), all) = (
  (ms, get-try_insert traits traits' k v.trait_name methods ms h e, same),
  AllImplement-try_insert traits traits' k methods vtables h all,
)

-- A step that leaves functions, vtables and traits alone
IsValid-same :
    (pb pb' : ProgramBuilder)
    → (pb.functions ≡ pb'.functions) × (pb.vtables ≡ pb'.vtables) × (pb.traits ≡ pb'.traits)
    → IsValid pb
    → IsValid pb'
IsValid-same pb pb' (ef, ev, et) valid = record {
  vtables = rw (← ev, ← et) valid.vtables;
  functions = rw (← ef) valid.functions;
}

finish_function-IsValid :
    (fb₀ fb : FunctionBuilder) (n name : FnName) (pb pb' : ProgramBuilder)
    → F.new n ≡ some fb₀
    → Reach fb₀ fb
    → finish_function fb pb ≡ some (name, pb')
    → IsValid pb
    → IsValid pb'
unfolding finish_function
finish_function-IsValid fb₀ fb n name pb pb' e r h valid =
    let (f, e₁, h₁) = >>=-eq-some (F.finish_function fb) _ h in
    let (fs, e₂, h₂) = >>=-eq-some (try_insert pb.functions fb.name f) _ h₁ in
    let (_, e₃) = unless-eq-some (contains_key pb.functions fb.name) e₂ in
    let eq = ap (λ (r : FnName × ProgramBuilder). r.1) (some_inj h₂) in
    subst IsValid eq (record {
      vtables = valid.vtables;
      functions =
          subst AllClosed (some_inj e₃)
            (finish_function-IsClosed n fb₀ fb f e r e₁, valid.functions);
    })

finish_vtable-IsValid :
    (v : VTableBuilder) (name : VTableName) (pb pb' : ProgramBuilder)
    → finish_vtable v pb ≡ some (name, pb')
    → IsValid pb
    → IsValid pb'
unfolding finish_vtable
finish_vtable-IsValid v name pb pb' h valid =
    let (ms, e₁, h₁) = >>=-eq-some (get pb.traits v.trait_name) _ h in
    let (same, h₂) = if-eq-some (same_set ms (keys v.methods)) h₁ in
    let (vs, e₂, h₃) = >>=-eq-some (try_insert pb.vtables v.name (to_vtable v)) _ h₂ in
    let (_, e₃) = unless-eq-some (contains_key pb.vtables v.name) e₂ in
    let eq = ap (λ (r : VTableName × ProgramBuilder). r.1) (some_inj h₃) in
    subst IsValid eq (record {
      vtables = subst (AllImplement pb.traits) (some_inj e₃) ((ms, e₁, same), valid.vtables);
      functions = valid.functions;
    })

finish_trait-IsValid :
    (t : TraitBuilder) (name : TraitName) (pb pb' : ProgramBuilder)
    → finish_trait t pb ≡ some (name, pb')
    → IsValid pb
    → IsValid pb'
unfolding finish_trait
finish_trait-IsValid t name pb pb' h valid =
    let (traits, e₁, h₁) = >>=-eq-some (try_insert pb.traits t.name t.method_names) _ h in
    let eq = ap (λ (r : TraitName × ProgramBuilder). r.1) (some_inj h₁) in
    subst IsValid eq (record {
      vtables =
          AllImplement-try_insert pb.traits traits t.name t.method_names pb.vtables e₁
            valid.vtables;
      functions = valid.functions;
    })

Step-IsValid : {pb pb' : ProgramBuilder} → Step pb pb' → IsValid pb → IsValid pb'
unfolding declare_function declare_vtable declare_trait declare_global_zero_initialized
Step-IsValid {pb} {pb'} (start_function fb h) valid = IsValid-same pb pb' (ground arith) valid
Step-IsValid {pb} {pb'} (function n name fb₀ fb e r h) valid =
    finish_function-IsValid fb₀ fb n name pb pb' e r h valid
Step-IsValid {pb} {pb'} (start_vtable t size align v h) valid =
    IsValid-same pb pb' (ground arith) valid
Step-IsValid {pb} {pb'} (vtable v name h) valid = finish_vtable-IsValid v name pb pb' h valid
Step-IsValid {pb} {pb'} (start_trait t h) valid = IsValid-same pb pb' (ground arith) valid
Step-IsValid {pb} {pb'} (trait_ t name h) valid = finish_trait-IsValid t name pb pb' h valid
Step-IsValid {pb} {pb'} (global t p h) valid = IsValid-same pb pb' (ground arith) valid

Steps-IsValid : {pb pb' : ProgramBuilder} → Steps pb pb' → IsValid pb → IsValid pb'
Steps-IsValid done valid = valid
Steps-IsValid (step r s) valid = Step-IsValid s (Steps-IsValid r valid)

-- Of each program that a client finishes, all vtables have just the methods of their traits, which
-- are declared, and all functions have their start blocks and the blocks that they jump to.
pub finish_program-IsValid :
    (pb : ProgramBuilder) (start : FnName)
    → Steps new pb
    → AllImplement (finish_program pb start).traits (finish_program pb start).vtables
      × AllClosed (finish_program pb start).functions
unfolding finish_program
finish_program-IsValid pb start steps =
    let valid = Steps-IsValid steps (record { vtables = tt; functions = tt }) in
    (valid.vtables, valid.functions)
