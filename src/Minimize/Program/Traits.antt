-- ===== src/Minimize/Program/Traits.antt =====
-- vtable.rs: the methods of a vtable and the names of traits, on the invariant of the context.
use minirust.Prelude.{
  ℕ, ◌+◌, ◌≡◌, refl, subst, true, List, [], ◌∷◌, some, length, get, insert, contains_key,
  contains_key-insert, get-insert, arith, inl, inr, Option-cases, >>=-eq-some, some_inj, if-eq-some,
}
use minirust.Lang.Types.{TraitName}
use minirust.Lang.Syntax.{FnName, TraitMethodName}
use minirust.Minimize.Program.{
  Ctxt, Rustc, VtblEntry, as_u32, get_fn_name, vtable_methods, generate_trait, new_trait,
  get_trait_name,
}
use minirust.Minimize.Program.Inv.{
  has_value, has_value-get, Inv, Later, Later-refl, Later-trans, IsComplete-Later,
  get_fn_name-Later, get_fn_name-Inv, get_fn_name-get,
}

-- A step of the context that returns a value with a property
pub record Advances {A : Type 0} (Good : A → Ctxt → Type 0) (c : Ctxt) (r : A × Ctxt) : Type 0 where
  pub later : Later c r.1
  pub inv : Inv r.1
  pub good : Good r.0 r.1

-- All functions that the entries name have names in the context.
abbrev pub MethodsNamed : List (TraitMethodName × FnName) → Ctxt → Type 0
MethodsNamed methods c =
    (m : TraitMethodName) (f : FnName) → get methods m ≡ some f → has_value c.fn_name_map f ≡ true

get_fn_name-MethodsNamed :
    (key m : ℕ) (methods : List (TraitMethodName × FnName)) (c : Ctxt)
    → MethodsNamed methods c
    → MethodsNamed (insert methods m (get_fn_name key c).0) (get_fn_name key c).1
get_fn_name-MethodsNamed key m methods c named j f h =
    let has =
      has_value-get (get_fn_name key c).1.fn_name_map key (get_fn_name key c).0
        (get_fn_name-get key c) in
    let later = (get_fn_name-Later key c).names f in
    let old = named j f in ground (arith, get-insert methods m j (get_fn_name key c).0)

pub vtable_methods-Advances :
    (q : Rustc) (ty idx : ℕ) (entries : List VtblEntry) (methods : List (TraitMethodName × FnName))
    (c : Ctxt)
    → MethodsNamed methods c
    → Inv c
    → Advances MethodsNamed c (vtable_methods q ty idx entries methods c)
unfolding vtable_methods
vtable_methods-Advances q ty idx [] methods c named inv = record {
  later = Later-refl c;
  inv = inv;
  good = named;
}
vtable_methods-Advances q ty idx (VtblEntry.method func ∷ entries) methods c named inv =
    let r = get_fn_name func c in
    let rest =
      vtable_methods-Advances q ty (idx + 1) entries (insert methods (as_u32 idx) r.0) r.1
        (get_fn_name-MethodsNamed func (as_u32 idx) methods c named) (get_fn_name-Inv func c inv) in
    record {
      later = Later-trans c r.1 _ (get_fn_name-Later func c) rest.later;
      inv = rest.inv;
      good = rest.good;
    }
vtable_methods-Advances q ty idx (VtblEntry.metadata_drop_in_place ∷ entries) methods c named inv =
    let func = q.resolve_drop_in_place ty in
    let r = get_fn_name func c in
    let rest =
      vtable_methods-Advances q ty (idx + 1) entries
        (insert methods (as_u32 q.drop_in_place_slot) r.0) r.1
        (get_fn_name-MethodsNamed func (as_u32 q.drop_in_place_slot) methods c named)
        (get_fn_name-Inv func c inv) in
    record {
      later = Later-trans c r.1 _ (get_fn_name-Later func c) rest.later;
      inv = rest.inv;
      good = rest.good;
    }
vtable_methods-Advances q ty idx (VtblEntry.other ∷ entries) methods c named inv =
    vtable_methods-Advances q ty (idx + 1) entries methods c named inv

abbrev pub IsDeclared : TraitName → Ctxt → Type 0
IsDeclared n c = contains_key c.traits n ≡ true

-- The context once a trait has its name and methods
abbrev with_trait : ℕ → List TraitMethodName → Ctxt → Ctxt
with_trait trait_ methods c = record c {
  traits = insert c.traits (as_u32 (length c.trait_map)) methods;
  trait_map = (trait_, as_u32 (length c.trait_map)) ∷ c.trait_map;
}

with_trait-Later :
    (trait_ : ℕ) (methods : List TraitMethodName) (c : Ctxt) → Later c (with_trait trait_ methods c)
with_trait-Later trait_ methods c = record {
  names = λ n k. k;
  keys = λ k n g. g;
  traits =
      λ n k. ground (arith, contains_key-insert c.traits (as_u32 (length c.trait_map)) n methods);
  functions = λ n k. k;
  new_names = [];
  extends = refl;
}

with_trait-Advances :
    (trait_ : ℕ) (methods : List TraitMethodName) (c : Ctxt)
    → Inv c
    → Advances IsDeclared c (as_u32 (length c.trait_map), with_trait trait_ methods c)
with_trait-Advances trait_ methods c inv =
    let fresh = as_u32 (length c.trait_map) in
    let later = with_trait-Later trait_ methods c in
    let self : contains_key (insert c.traits fresh methods) fresh ≡ true =
      ground (arith, contains_key-insert c.traits fresh fresh methods) in
    record {
      later = later;
      inv = record {
        names = inv.names;
        functions = inv.functions;
        vtables =
            λ n v k. IsComplete-Later c (with_trait trait_ methods c) v later (inv.vtables n v k);
        trait_names = λ t n k. ground (arith, inv.trait_names t n, later.traits n);
        vtable_names = inv.vtable_names;
      };
      good = self;
    }

new_trait-Advances :
    (q : Rustc) (obj trait_ : ℕ) (c : Ctxt) (r : TraitName × Ctxt)
    → new_trait q obj trait_ c ≡ some r
    → Inv c
    → Advances IsDeclared c r
unfolding new_trait
new_trait-Advances q obj trait_ c r h inv =
    let (ms, _, h₁) = >>=-eq-some (generate_trait q obj) _ h in
    subst (Advances IsDeclared c) (some_inj h₁) (with_trait-Advances trait_ ms c inv)

pub get_trait_name-Advances :
    (q : Rustc) (obj : ℕ) (c : Ctxt) (r : TraitName × Ctxt)
    → get_trait_name q obj c ≡ some r
    → Inv c
    → Advances IsDeclared c r
unfolding get_trait_name
get_trait_name-Advances q obj c r h inv =
    let (kind, _, h₁) = >>=-eq-some (q.dynamic obj) _ h in
    elim (Option-cases (get c.trait_map kind.0)) [
      | inr (n, e) ↦
          let (known, h₂) = if-eq-some (contains_key c.traits n) (rw e at h₁) in
          subst (Advances IsDeclared c) (some_inj h₂)
            (record { later = Later-refl c; inv = inv; good = known })
      | inl e ↦ new_trait-Advances q obj kind.0 c r (rw e at h₁) inv
    ]
