-- ===== src/Minimize/Types/Fuel.antt =====
-- ty.rs: how much fuel the translation of a type needs.
use minirust.Prelude.{
  ℕ, zero, suc, ◌+◌, ◌<◌, ◌≡◌, refl, subst, some_inj, List, [], ◌∷◌, ◌++◌, Option, none, some,
  ◌>>=◌, get_elem?, get, arith, Option-cases, inl, inr,
}
use minirust.Lang.Types.{IntType}
use minirust.Minimize.Program.{Rustc, Ctxt}
use minirust.Minimize.Rust.{VariantDef, TyKind, RsVariants, single, multiple, RsLayout, RsTypes}
use minirust.Minimize.Enums.{
  Translator, Tagging, Parts, expect_int, translate_align, translate_fields,
  translate_adt_variant_fields, add_variant, translate_variants, tagging_of, single_variant,
  multiple_variants, enum_variants, translate_enum,
}
use minirust.Minimize.Types.{translate_non_enum_adt, translate_kind, translate_ty}

bind_congr {ℓ κ} :
    {A : Type ℓ} {B : Type κ} (o : Option A) (f g : A → Option B)
    → ((a : A) → f a ≡ g a)
    → (o >>= f) ≡ (o >>= g)
bind_congr none f g h = refl
bind_congr (some a) f g h = h a

-- Two translators agree on the types of a list.
unfoldable pub Agree : Translator → Translator → List ℕ → Type 0
Agree f g [] = Unit
Agree f g (ty ∷ tys) = ((c : Ctxt) → f ty c ≡ g ty c) × Agree f g tys

Agree-append :
    (f g : Translator) (xs ys : List ℕ) → Agree f g (xs ++ ys) → Agree f g xs × Agree f g ys
unfolding Agree
Agree-append f g [] ys h = (tt, h)
Agree-append f g (x ∷ xs) ys (e, h) = let (a, b) = Agree-append f g xs ys h in ((e, a), b)

-- The types of the fields of all variants
abbrev pub variant_fields : List VariantDef → List ℕ
variant_fields [] = []
variant_fields (def ∷ defs) = def.fields ++ variant_fields defs

abbrev pub tag_types : RsVariants → List ℕ
tag_types (single _) = []
tag_types (multiple tag _ _ _) = tag.int_ty ∷ []

-- The types that the translation of a type goes into
unfoldable pub components : RsTypes → ℕ → TyKind → List ℕ
components q ty (TyKind.tuple ts) = ts
components q ty (TyKind.struct variant) = variant.fields
components q ty (TyKind.union variant) = variant.fields
components q ty (TyKind.enum defs) =
    q.discriminant_ty ty ∷ (tag_types (q.layout_of ty).variants ++ variant_fields defs)
components q ty (TyKind.array elem_ty _) = elem_ty ∷ []
components q ty (TyKind.slice elem_ty) = elem_ty ∷ []
components q ty _ = []

module _ (f g : Translator) where
  translate_fields-Agree :
      (offsets : List ℕ) (i : ℕ) (tys : List ℕ) (c : Ctxt)
      → Agree f g tys
      → translate_fields f offsets i tys c ≡ translate_fields g offsets i tys c
  unfolding translate_fields Agree
  translate_fields-Agree offsets i [] c h = refl
  translate_fields-Agree offsets i (ty ∷ tys) c (e, h) = rw (e c) (
      bind_congr (g ty c) _ _ λ x.
        bind_congr (get_elem? offsets i) _ _
          λ o. rw (translate_fields-Agree offsets (i + 1) tys x.1 h) refl)

  translate_variants-Agree :
      (q : RsTypes) (t : Tagging) (shapes : List (List ℕ)) (i : ℕ) (defs : List VariantDef)
      (parts : Parts) (c : Ctxt)
      → Agree f g (variant_fields defs)
      → translate_variants q f t shapes i defs parts c
        ≡ translate_variants q g t shapes i defs parts c
  unfolding translate_variants translate_adt_variant_fields
  translate_variants-Agree q t shapes i [] parts c h = refl
  translate_variants-Agree q t shapes i (def ∷ defs) parts c h =
      let (here, later) = Agree-append f g def.fields (variant_fields defs) h in
      bind_congr (get_elem? shapes i) _ _ λ shape.
        rw (translate_fields-Agree shape 0 def.fields c here) (
          bind_congr (translate_fields g shape 0 def.fields c) _ _ λ x.
            bind_congr (add_variant q t i def.discr x.0 parts) _ _
              λ parts₁. translate_variants-Agree q t shapes (i + 1) defs parts₁ x.1 later)

  get_elem?-Agree :
      (defs : List VariantDef) (i : ℕ) (def : VariantDef)
      → get_elem? defs i ≡ some def
      → Agree f g (variant_fields defs)
      → Agree f g def.fields
  get_elem?-Agree [] i def e h = cc
  get_elem?-Agree (d ∷ defs) zero def e h =
      subst (λ x. Agree f g x.fields) (some_inj e)
        (Agree-append f g d.fields (variant_fields defs) h).0
  get_elem?-Agree (d ∷ defs) (suc i) def e h =
      get_elem?-Agree defs i def e (Agree-append f g d.fields (variant_fields defs) h).1

  single_variant-Agree :
      (layout : RsLayout) (defs : List VariantDef) (index align : ℕ) (c : Ctxt)
      → Agree f g (variant_fields defs)
      → single_variant f layout defs index align c ≡ single_variant g layout defs index align c
  unfolding single_variant translate_adt_variant_fields
  single_variant-Agree layout defs index align c h = elim (Option-cases (get_elem? defs index)) [
    | inl e ↦ rw e refl
    | inr (def, e) ↦
        rw
          (
            e,
            translate_fields-Agree layout.offsets 0 def.fields c
                (get_elem?-Agree defs index def e h),
          )
          refl
  ]

  enum_variants-Agree :
      (q : RsTypes) (layout : RsLayout) (defs : List VariantDef) (align : ℕ) (dty : IntType)
      (variants : RsVariants) (c : Ctxt)
      → Agree f g (tag_types variants ++ variant_fields defs)
      → enum_variants q f layout defs align dty variants c
        ≡ enum_variants q g layout defs align dty variants c
  unfolding enum_variants multiple_variants Agree
  enum_variants-Agree q layout defs align dty (single index) c h =
      single_variant-Agree layout defs index align c h
  enum_variants-Agree q layout defs align dty (multiple tag encoding tag_field shapes) c (e, h) =
      bind_congr (get_elem? layout.offsets tag_field) _ _ λ offset. rw (e c) (
        bind_congr (g tag.int_ty c) _ _ λ x. bind_congr (expect_int x.0) _ _ λ tag_ty.
          rw
            (translate_variants-Agree q (tagging_of layout align dty offset tag_ty encoding) shapes
              0 defs _ x.1 h)
            refl)

  translate_enum-Agree :
      (q : RsTypes) (ty : ℕ) (defs : List VariantDef) (c : Ctxt)
      → Agree f g (components q ty (TyKind.enum defs))
      → translate_enum q f ty defs c ≡ translate_enum q g ty defs c
  unfolding translate_enum components Agree
  translate_enum-Agree q ty defs c (e, h) =
      bind_congr (translate_align (q.layout_of ty).align) _ _ λ align. rw (e c) (
        bind_congr (g (q.discriminant_ty ty) c) _ _ λ x. bind_congr (expect_int x.0) _ _ λ dty.
          rw (enum_variants-Agree q (q.layout_of ty) defs align dty (q.layout_of ty).variants x.1 h)
            refl)

  translate_kind-Agree :
      (r : Rustc) (q : RsTypes) (ty : ℕ) (kind : TyKind) (c : Ctxt)
      → Agree f g (components q ty kind)
      → translate_kind r q f ty kind c ≡ translate_kind r q g ty kind c
  unfolding translate_kind components Agree translate_non_enum_adt translate_adt_variant_fields
  translate_kind-Agree r q ty TyKind.bool c h = refl
  translate_kind-Agree r q ty TyKind.never c h = refl
  translate_kind-Agree r q ty TyKind.str c h = refl
  translate_kind-Agree r q ty TyKind.fn_ptr c h = refl
  translate_kind-Agree r q ty (TyKind.int _) c h = refl
  translate_kind-Agree r q ty (TyKind.uint _) c h = refl
  translate_kind-Agree r q ty (TyKind.tuple ts) c h =
      bind_congr (translate_align (q.layout_of ty).align) _ _
        λ align. rw (translate_fields-Agree (q.layout_of ty).offsets 0 ts c h) refl
  translate_kind-Agree r q ty (TyKind.box _) c h = refl
  translate_kind-Agree r q ty (TyKind.struct variant) c h =
      rw (translate_fields-Agree (q.layout_of ty).offsets 0 variant.fields c h) refl
  translate_kind-Agree r q ty (TyKind.union variant) c h =
      rw (translate_fields-Agree (q.layout_of ty).offsets 0 variant.fields c h) refl
  translate_kind-Agree r q ty (TyKind.enum defs) c h = translate_enum-Agree q ty defs c h
  translate_kind-Agree r q ty (TyKind.ref _ _) c h = refl
  translate_kind-Agree r q ty (TyKind.raw_ptr _) c h = refl
  translate_kind-Agree r q ty (TyKind.slice _) c (e, h) = rw (e c) refl
  translate_kind-Agree r q ty (TyKind.array _ _) c (e, h) = rw (e c) refl
  translate_kind-Agree r q ty TyKind.dynamic c h = refl
  translate_kind-Agree r q ty TyKind.other c h = refl

-- Each type of a list has a rank below a bound.
unfoldable pub RanksBelow : (ℕ → ℕ) → ℕ → List ℕ → Type 0
RanksBelow rank n [] = Unit
RanksBelow rank n (ty ∷ tys) = (rank ty < n) × RanksBelow rank n tys

same_round :
    (r : Rustc) (q : RsTypes) (m n ty : ℕ) (c : Ctxt)
    → Agree (translate_ty r q m) (translate_ty r q n) (components q ty (q.kind ty))
    → translate_ty r q (suc m) ty c ≡ translate_ty r q (suc n) ty c
unfolding translate_ty
same_round r q m n ty c h = elim (Option-cases (get c.ty_cache ty)) [
  | inl e ↦
      rw
        (
          translate_ty,
          e,
          translate_kind-Agree (translate_ty r q m) (translate_ty r q n) r q ty (q.kind ty) c h,
        )
        refl
  | inr (t, e) ↦ rw (translate_ty, e) refl
]

Agree-below :
    (f g : Translator) (rank : ℕ → ℕ) (n : ℕ) (tys : List ℕ)
    → ((ty : ℕ) (c : Ctxt) → rank ty < n → f ty c ≡ g ty c)
    → RanksBelow rank n tys
    → Agree f g tys
unfolding Agree RanksBelow
Agree-below f g rank n [] same h = tt
Agree-below f g rank n (ty ∷ tys) same (lt, h) =
    (λ c. same ty c lt, Agree-below f g rank n tys same h)

-- If the types that a type is made of have a lower rank than it, which is so for types of finite size,
-- then from one round more than the rank of a type on, more rounds do not change what translate_ty
-- answers for it: it does not come to the end of its fuel.
pub translate_ty_fuel :
    (r : Rustc) (q : RsTypes) (rank : ℕ → ℕ)
    → ((ty : ℕ) → RanksBelow rank (rank ty) (components q ty (q.kind ty)))
    → (fuel more ty : ℕ) (c : Ctxt) → rank ty < fuel
    → translate_ty r q (fuel + more) ty c ≡ translate_ty r q fuel ty c
translate_ty_fuel r q rank finite zero more ty c enough = absurd (omega arith)
translate_ty_fuel r q rank finite (suc fuel) more ty c enough =
    let step : suc fuel + more ≡ suc (fuel + more) = omega arith in
    rw step (
      same_round r q (fuel + more) fuel ty c (
        Agree-below _ _ rank (rank ty) (components q ty (q.kind ty))
          (λ ty' c' lt. translate_ty_fuel r q rank finite fuel more ty' c' (omega arith))
          (finite ty)))
