-- ===== src/Minimize/Program/Asks.antt =====
-- program.rs, vtable.rs: names and vtables that are asked for in a well-formed context.
use minirust.Prelude.{
  ℕ, ◌+◌, ◌≡◌, refl, Bool, true, false, sym, subst, Option, List, [], ◌∷◌, some, ◌>>=◌, get, insert,
  contains, if◌then◌else◌, arith, inl, inr, Option-cases, length,
}
use minirust.Lang.Types.{TraitName}
use minirust.Lang.Syntax.{FnName, VTableName, TraitMethodName, VTable}
use minirust.Minimize.Program.{
  Ctxt, Rustc, VtblEntry, as_u32, get_fn_name, vtable_methods, generate_trait, new_trait,
  get_trait_name, generate_vtable, new_vtable, get_vtable, get_pair, add_vtable,
}
use minirust.Minimize.Program.Inv.{Inv}
use minirust.Minimize.Program.VTables.{filled-Advances}
use minirust.Minimize.Program.Total.{keys_in}

bind-eq {ℓ κ} :
    {A : Type ℓ} {B : Type κ} (o : Option A) (f : A → Option B) {a : A} {b : B}
    → o ≡ some a
    → f a ≡ some b
    → (o >>= f) ≡ some b
bind-eq o f e h = rw e h

module _ (q : Rustc) (u : List ℕ) where
  pub get_fn_name-keys_in :
      (key : ℕ) (c : Ctxt)
      → contains u key ≡ true
      → keys_in u c.fn_name_map ≡ true
      → keys_in u (get_fn_name key c).1.fn_name_map ≡ true
  unfolding get_fn_name
  get_fn_name-keys_in key c has h = elim (Option-cases (get c.fn_name_map key)) [
    | inl e ↦ ground arith
    | inr (n, e) ↦ ground arith
  ]

  -- The instances of the methods are in the list.
  abbrev pub EntriesIn : ℕ → List VtblEntry → Type 0
  EntriesIn ty [] = Unit
  EntriesIn ty (VtblEntry.method func ∷ entries) = (contains u func ≡ true) × EntriesIn ty entries
  EntriesIn ty (VtblEntry.metadata_drop_in_place ∷ entries) =
      (contains u (q.resolve_drop_in_place ty) ≡ true) × EntriesIn ty entries
  EntriesIn ty (VtblEntry.other ∷ entries) = EntriesIn ty entries

  vtable_methods-keys_in :
      (ty idx : ℕ) (entries : List VtblEntry) (methods : List (TraitMethodName × FnName)) (c : Ctxt)
      → EntriesIn ty entries
      → keys_in u c.fn_name_map ≡ true
      → keys_in u (vtable_methods q ty idx entries methods c).1.fn_name_map ≡ true
  unfolding vtable_methods
  vtable_methods-keys_in ty idx [] methods c es h = h
  vtable_methods-keys_in ty idx (VtblEntry.method func ∷ entries) methods c (e, es) h =
      vtable_methods-keys_in ty (idx + 1) entries _ (get_fn_name func c).1 es
        (get_fn_name-keys_in func c e h)
  vtable_methods-keys_in ty idx (VtblEntry.metadata_drop_in_place ∷ entries) methods c (e, es) h =
      vtable_methods-keys_in ty (idx + 1) entries _ (get_fn_name (q.resolve_drop_in_place ty) c).1
        es (get_fn_name-keys_in (q.resolve_drop_in_place ty) c e h)
  vtable_methods-keys_in ty idx (VtblEntry.other ∷ entries) methods c es h =
      vtable_methods-keys_in ty (idx + 1) entries methods c es h

  generate_trait-total :
      (obj : ℕ) (kind : ℕ × Bool)
      → q.dynamic obj ≡ some kind
      → (methods : List TraitMethodName) × (generate_trait q obj ≡ some methods)
  unfolding generate_trait
  generate_trait-total obj kind e = (_, bind-eq (q.dynamic obj) _ e refl)

  get_trait_name-total :
      (obj : ℕ) (kind : ℕ × Bool) (c : Ctxt)
      → q.dynamic obj ≡ some kind
      → Inv c
      → (r : TraitName × Ctxt) × (get_trait_name q obj c ≡ some r)
        × (r.1.fn_name_map ≡ c.fn_name_map)
  unfolding get_trait_name new_trait
  get_trait_name-total obj kind c e inv = elim (Option-cases (get c.trait_map kind.0)) [
    | inl new ↦
        let (methods, made) = generate_trait-total obj kind e in
        let fresh = as_u32 (length c.trait_map) in
        (
          (
            fresh,
            record c {
              traits = insert c.traits fresh methods;
              trait_map = (kind.0, fresh) ∷ c.trait_map;
            },
          ),
          bind-eq (q.dynamic obj) _ e (rw new (bind-eq (generate_trait q obj) _ made refl)),
          refl,
        )
    | inr (n, known) ↦ (
      (n, c),
      bind-eq (q.dynamic obj) _ e (rw (known, inv.trait_names kind.0 n known) refl),
      refl,
    )
  ]

  -- The methods of a vtable, or none without a principal trait
  abbrev methods_of : ℕ → Bool → List VtblEntry → Ctxt → List (TraitMethodName × FnName) × Ctxt
  methods_of ty principal entries c =
      if principal then vtable_methods q ty 0 entries [] c else ([], c)

  methods_of-keys_in :
      (ty : ℕ) (principal : Bool) (entries : List VtblEntry) (c : Ctxt)
      → EntriesIn ty entries
      → keys_in u c.fn_name_map ≡ true
      → keys_in u (methods_of ty principal entries c).1.fn_name_map ≡ true
  methods_of-keys_in ty true entries c es h = vtable_methods-keys_in ty 0 entries [] c es h
  methods_of-keys_in ty false entries c es h = h

  generate_vtable-total :
      (ty obj t : ℕ) (layout : ℕ × ℕ) (c : Ctxt)
      → q.dynamic obj ≡ some (t, true)
      → q.size_and_align ty ≡ some layout
      → EntriesIn ty (q.vtable_entries ty t)
      → Inv c
      → keys_in u c.fn_name_map ≡ true
      → (r : VTable × Ctxt) × (generate_vtable q ty obj c ≡ some r)
        × (keys_in u r.1.fn_name_map ≡ true)
  unfolding generate_vtable
  generate_vtable-total ty obj t layout c e sized es inv keys =
      let principal = q.has_principal t in
      let entries = q.vtable_entries ty t in
      let filled = methods_of ty principal entries c in
      let inv₁ = (filled-Advances q ty principal entries c inv).inv in
      let (named, e₁, same) = get_trait_name-total obj (t, true) filled.1 e inv₁ in
      (
        (
          record { trait_name = named.0; size = layout.0; align = layout.1; methods = filled.0 },
          named.1,
        ),
        bind-eq (q.dynamic obj) _ e (
            bind-eq (q.size_and_align ty) _ sized
              (bind-eq (get_trait_name q obj filled.1) _ e₁ refl)),
        subst (λ m. keys_in u m ≡ true) (sym same)
            (methods_of-keys_in ty principal entries c es keys),
      )

  -- A vtable is made in any well-formed context, and names only instances in the list.
  pub get_vtable-total :
      (ty obj t : ℕ) (layout : ℕ × ℕ) (c : Ctxt)
      → q.dynamic obj ≡ some (t, true)
      → q.size_and_align ty ≡ some layout
      → EntriesIn ty (q.vtable_entries ty t)
      → Inv c
      → keys_in u c.fn_name_map ≡ true
      → (r : VTableName × Ctxt) × (get_vtable q ty obj c ≡ some r)
        × (keys_in u r.1.fn_name_map ≡ true)
  unfolding get_vtable new_vtable
  get_vtable-total ty obj t layout c e sized es inv keys =
      elim (Option-cases (get_pair c.vtable_map ty t)) [
        | inr (n, known) ↦ (
          (n, c),
          bind-eq (q.dynamic obj) _ e (rw (known, inv.vtable_names ty t n known) refl),
          keys,
        )
        | inl new ↦
            let (made, e₁, keys₁) = generate_vtable-total ty obj t layout c e sized es inv keys in
            let fresh = as_u32 (length c.vtable_map) in
            (
              (fresh, add_vtable ty t fresh made.0 made.1),
              bind-eq (q.dynamic obj) _ e (rw new (bind-eq (generate_vtable q ty obj c) _ e₁ refl)),
              keys₁,
            )
      ]
