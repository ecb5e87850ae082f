-- ===== src/Minimize/Program/VTables.antt =====
-- vtable.rs: vtables, on the invariant of the context.
use minirust.Prelude.{
  ℕ, ◌≡◌, subst, Bool, true, false, List, [], some, length, get, contains_key, contains_key-insert,
  get-insert, ◌==◌, arith, if◌then◌else◌, inl, inr, Option-cases, >>=-eq-some, some_inj, if-eq-some,
}
use minirust.Lang.Syntax.{VTableName, VTable}
use minirust.Minimize.Program.{
  Ctxt, Rustc, VtblEntry, as_u32, get_pair, vtable_methods, get_trait_name, generate_vtable,
  add_vtable, new_vtable, get_vtable,
}
use minirust.Minimize.Program.Traits.{
  Advances, MethodsNamed, vtable_methods-Advances, get_trait_name-Advances,
}
use minirust.Minimize.Program.Inv.{Inv, Later-refl, Later-trans, IsComplete}

abbrev IsCompleteIn : VTable → Ctxt → Type 0
IsCompleteIn v c = IsComplete c v

-- The methods of a vtable, or none without a principal trait
pub filled-Advances :
    (q : Rustc) (ty : ℕ) (principal : Bool) (entries : List VtblEntry) (c : Ctxt)
    → Inv c
    → Advances MethodsNamed c (if principal then vtable_methods q ty 0 entries [] c else ([], c))
filled-Advances q ty true entries c inv =
    vtable_methods-Advances q ty 0 entries [] c (λ m f h. cc) inv
filled-Advances q ty false entries c inv = record {
  later = Later-refl c;
  inv = inv;
  good = λ m f h. cc;
}

generate_vtable-Advances :
    (q : Rustc) (ty obj : ℕ) (c : Ctxt) (r : VTable × Ctxt)
    → generate_vtable q ty obj c ≡ some r
    → Inv c
    → Advances IsCompleteIn c r
unfolding generate_vtable
generate_vtable-Advances q ty obj c r h inv =
    let (kind, _, h₁) = >>=-eq-some (q.dynamic obj) _ h in
    let (_, h₂) = if-eq-some kind.1 h₁ in
    let (layout, _, h₃) = >>=-eq-some (q.size_and_align ty) _ h₂ in
    let filled = filled-Advances q ty (q.has_principal kind.0) (q.vtable_entries ty kind.0) c inv in
    let (named, e, h₄) = >>=-eq-some (get_trait_name q obj _) _ h₃ in
    let declared = get_trait_name-Advances q obj _ named e filled.inv in
    subst (Advances IsCompleteIn c) (some_inj h₄) (record {
      later = Later-trans c _ named.1 filled.later declared.later;
      inv = declared.inv;
      good = record {
        trait_ = declared.good;
        methods = λ m f k. declared.later.names f (filled.good m f k);
      };
    })

abbrev pub IsKnown : VTableName → Ctxt → Type 0
IsKnown n c = contains_key c.vtables n ≡ true

add_vtable-Inv :
    (ty trait_ fresh : ℕ) (v : VTable) (c : Ctxt)
    → Inv c
    → IsComplete c v
    → Inv (add_vtable ty trait_ fresh v c)
add_vtable-Inv ty trait_ fresh v c inv complete = record {
  names = inv.names;
  functions = inv.functions;
  vtables = λ n w k. added n w (fresh == n) (rw (get-insert c.vtables fresh n v) at k);
  trait_names = inv.trait_names;
  vtable_names =
      λ t u n k. ground (arith, inv.vtable_names t u n, contains_key-insert c.vtables fresh n v);
}
  where
    same : (w : VTable) → IsComplete c w → IsComplete (add_vtable ty trait_ fresh v c) w
    same w k = record { trait_ = k.trait_; methods = k.methods }

    added :
        (n : VTableName) (w : VTable) (b : Bool)
        → (if b then some v else get c.vtables n) ≡ some w
        → IsComplete (add_vtable ty trait_ fresh v c) w
    added n w true k =
        subst (IsComplete (add_vtable ty trait_ fresh v c)) (some_inj k) (same v complete)
    added n w false k = same w (inv.vtables n w k)

new_vtable-Advances :
    (q : Rustc) (ty obj trait_ : ℕ) (c : Ctxt) (r : VTableName × Ctxt)
    → new_vtable q ty obj trait_ c ≡ some r
    → Inv c
    → Advances IsKnown c r
unfolding new_vtable
new_vtable-Advances q ty obj trait_ c r h inv =
    let (made, e, h₁) = >>=-eq-some (generate_vtable q ty obj c) _ h in
    let step = generate_vtable-Advances q ty obj c made e inv in
    let fresh = as_u32 (length c.vtable_map) in
    subst (Advances IsKnown c) (some_inj h₁) (record {
      later = record {
        names = step.later.names;
        keys = step.later.keys;
        traits = step.later.traits;
        functions = step.later.functions;
        new_names = step.later.new_names;
        extends = step.later.extends;
      };
      inv = add_vtable-Inv ty trait_ fresh made.0 made.1 step.inv step.good;
      good = ground (arith, contains_key-insert made.1.vtables fresh fresh made.0);
    })

pub get_vtable-Advances :
    (q : Rustc) (ty obj : ℕ) (c : Ctxt) (r : VTableName × Ctxt)
    → get_vtable q ty obj c ≡ some r
    → Inv c
    → Advances IsKnown c r
unfolding get_vtable
get_vtable-Advances q ty obj c r h inv =
    let (kind, _, h₁) = >>=-eq-some (q.dynamic obj) _ h in
    let (_, h₂) = if-eq-some kind.1 h₁ in
    elim (Option-cases (get_pair c.vtable_map ty kind.0)) [
      | inr (n, e) ↦
          let (known, h₃) = if-eq-some (contains_key c.vtables n) (rw e at h₂) in
          subst (Advances IsKnown c) (some_inj h₃)
            (record { later = Later-refl c; inv = inv; good = known })
      | inl e ↦ new_vtable-Advances q ty obj kind.0 c r (rw e at h₂) inv
    ]
