-- ===== src/Minimize/Program/Complete.antt =====
-- program.rs: the program that `translate` returns.
use minirust.Prelude.{
  ℕ, zero, suc, ◌<◌, ◌^◌, length, ◌==◌, Bool-cases, ◌≡◌, refl, sym, ◌∙◌, subst, true, List, [], ◌∷◌,
  Option, some, get, contains_key, get-insert, arith, inl, inr, Option-cases, >>=-eq-some, some_inj,
}
use mathlib.Core.List.{Permᴰ}
use minirust.Lang.Syntax.{FnName, VTableName, TraitMethodName, VTable, Function, Program}
use minirust.Minimize.Program.{Ctxt, Rustc}
use minirust.Minimize.Program.Translate.{
  DataLayout, empty_ctxt, new_ctxt, mk_start_fn, find_unimplemented, find_instance, add_function,
  translate_loop, start_name, to_program, with_entry, translate,
}
use minirust.Minimize.Program.Inv.{has_value, Inv, Later, Later-refl, Later-trans}
use minirust.Minimize.Program.Uses.{
  Uses, Uses-Inv, IsNamed-below, has_value-Perm, find_unimplemented-none, find_unimplemented-some,
  add_function-Inv, add_function-Later, new_ctxt-eq,
}

-- The context that `translate` starts with
pub with_entry-Inv : (q : Rustc) → Inv (with_entry q empty_ctxt)
with_entry-Inv q = record {
  names = (refl, refl, tt);
  functions = λ n h. cc;
  vtables = λ n v h. cc;
  trait_names = λ t n h. cc;
  vtable_names = λ ty t n h. cc;
}

-- A context all of whose names have functions
pub record IsDone (c d : Ctxt) : Type 0 where
  pub later : Later c d
  pub inv : Inv d
  pub implemented :
      (n : FnName) → has_value d.fn_name_map n ≡ true → contains_key d.functions n ≡ true

-- The program has the function of that name that was made.
abbrev pub IsKept : List (FnName × Function) → Program → FnName → Type 0
IsKept made p n = (f : Function) × (get made n ≡ some f) × (get p.functions n ≡ some f)

-- A program with its start function, and with function 0 and those that its vtables name as they were
-- made
pub record IsWhole (made : List (FnName × Function)) (p : Program) : Type 0 where
  pub start : get p.functions p.start ≡ some (mk_start_fn 0)
  pub entry : IsKept made p 0
  pub traits :
      (n : VTableName) (v : VTable)
      → get p.vtables n ≡ some v
      → contains_key p.traits v.trait_name ≡ true
  pub methods :
      (n : VTableName) (v : VTable) (m : TraitMethodName) (f : FnName)
      → get p.vtables n ≡ some v
      → get v.methods m ≡ some f
      → IsKept made p f

contains_key-eq-true :
    (functions : List (FnName × Function)) (n : FnName)
    → contains_key functions n ≡ true
    → (f : Function) × (get functions n ≡ some f)
contains_key-eq-true [] n h = cc
contains_key-eq-true ((k, f) ∷ functions) n h = elim (Bool-cases (k == n)) [
  | inl e ↦ (f, rw e refl)
  | inr e ↦ rw e (contains_key-eq-true functions n (rw e at h))
]

to_program-IsWhole :
    (d : Ctxt)
    → Inv d
    → length d.fn_name_map < 2 ^ 32
    → ((n : FnName) → has_value d.fn_name_map n ≡ true → contains_key d.functions n ≡ true)
    → has_value d.fn_name_map 0 ≡ true
    → IsWhole d.functions (to_program d)
to_program-IsWhole d inv few implemented has₀ =
    let kept = λ (n : FnName) (named : has_value d.fn_name_map n ≡ true).
      keeps n named (contains_key-eq-true d.functions n (implemented n named)) in
    record {
      start = ground (arith, get-insert d.functions (start_name d) (start_name d) (mk_start_fn 0));
      entry = kept 0 has₀;
      traits = λ n v h. (inv.vtables n v h).trait_;
      methods = λ n v m f h k. kept f ((inv.vtables n v h).methods m f k);
    }
  where
    -- The name of the start function is a new one.
    keeps :
        (n : FnName)
        → has_value d.fn_name_map n ≡ true
        → (f : Function) × (get d.functions n ≡ some f)
        → IsKept d.functions (to_program d) n
    keeps n named (f, e) =
        let below = IsNamed-below d.fn_name_map n inv.names (omega arith) named in
        let new : start_name d ≡ length d.fn_name_map = omega arith in
        (f, e, ground (arith, get-insert d.functions (start_name d) n (mk_start_fn 0)))

module _ (q : Rustc) (iter : List (ℕ × FnName) → List (ℕ × FnName))
    (iter-Perm : (m : List (ℕ × FnName)) → Permᴰ (iter m) m)
    (translate_fn : ℕ → Ctxt → Option (Function × Ctxt))
    (translate_fn-Uses : (i : ℕ) (c : Ctxt) (r : Function × Ctxt)
      → translate_fn i c ≡ some r
      → Uses q c r.1) where
  pub translate_loop-IsDone :
      (fuel : ℕ) (c d : Ctxt)
      → translate_loop iter translate_fn fuel c ≡ some d
      → Inv c
      → IsDone c d
  unfolding translate_loop
  translate_loop-IsDone zero c d h inv = cc
  translate_loop-IsDone (suc fuel) c d h inv =
      elim (Option-cases (find_unimplemented (iter c.fn_name_map) c.functions)) [
        | inl e ↦ subst (IsDone c) (some_inj (rw (translate_loop, e) at h)) (record {
          later = Later-refl c;
          inv = inv;
          implemented = λ n k.
              find_unimplemented-none (iter c.fn_name_map) c.functions n e
                (has_value-Perm (iter c.fn_name_map) c.fn_name_map n (iter-Perm c.fn_name_map) ∙ k);
        })
        | inr (n, e) ↦
            let (i, _, h₁) =
              >>=-eq-some (find_instance (iter c.fn_name_map) n) _ (rw (translate_loop, e) at h) in
            let (r, e₂, h₂) = >>=-eq-some (translate_fn i c) _ h₁ in
            let (later, inv₁) = Uses-Inv (translate_fn-Uses i c r e₂) inv in
            let has =
              sym (has_value-Perm (iter c.fn_name_map) c.fn_name_map n (iter-Perm c.fn_name_map))
              ∙ (find_unimplemented-some (iter c.fn_name_map) c.functions n e).0 in
            let rest =
              translate_loop-IsDone fuel (add_function n r.0 r.1) d h₂
                (add_function-Inv n r.0 r.1 (later.names n has) inv₁) in
            record {
              later = Later-trans c r.1 d later (
                  Later-trans r.1 (add_function n r.0 r.1) d (add_function-Later n r.0 r.1)
                    rest.later);
              inv = rest.inv;
              implemented = rest.implemented;
            }
      ]

  -- If the translation of a function changes the context only by asking for names and in its caches,
  -- and fewer than 2 ^ 32 names are asked for, then of each program that `translate` returns, from a
  -- new context, the start function is the one that calls function 0, function 0 and all functions of
  -- each vtable are there, as the loop has made them, and the trait of each vtable is there.
  pub translate-IsWhole :
      (fuel : ℕ) (dl : DataLayout) (c d : Ctxt) (p : Program)
      → new_ctxt dl ≡ some c
      → translate_loop iter translate_fn fuel (with_entry q c) ≡ some d
      → length d.fn_name_map < 2 ^ 32
      → translate iter translate_fn fuel q c ≡ some p
      → IsWhole d.functions p
  unfolding translate
  translate-IsWhole fuel dl c d p new looped few h =
      let e = new_ctxt-eq dl c new in
      let made : some (to_program d) ≡ some p = rw (translate, looped) at h in
      let done =
        translate_loop-IsDone fuel (with_entry q c) d looped
          (subst (λ x. Inv (with_entry q x)) e (with_entry-Inv q)) in
      let has₀ =
        done.later.names 0
          (subst (λ (x : Ctxt). has_value (with_entry q x).fn_name_map 0 ≡ true) e refl) in
      subst (IsWhole d.functions) (some_inj made)
        (to_program-IsWhole d done.inv few done.implemented has₀)
