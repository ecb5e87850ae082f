-- ===== src/Minimize/Types/Kept.antt =====
-- ty.rs, enums.rs: the translation of types asks for names of traits and fills its cache.
use minirust.Prelude.{
  ℕ, zero, suc, ◌+◌, ◌≡◌, refl, subst, List, [], ◌∷◌, some_inj, Option-cases, inl, inr, get,
  get_elem?,
}
use minirust.Lang.Types.{IntType}
use minirust.Prelude.Int.{pos}
use minirust.Lang.Types.{Discriminator}
use minirust.Build.Types.{size, align, enum_ty, u8}
use minirust.Minimize.Program.{Rustc, Ctxt, get_trait_name}
use minirust.Minimize.Program.Uses.{Uses}
use minirust.Minimize.Program.Kept.{
  ctxt_of, Kept, done-Kept, none-Kept, bind-Kept, pure-Kept, if-Kept,
}
use minirust.Minimize.Rust.{VariantDef, TyKind, RsVariants, single, multiple, RsLayout, RsTypes}
use minirust.Minimize.Enums.{
  expect_int, int_from_bits, Translator, Tagging, Parts, translate_fields,
  translate_adt_variant_fields, translate_variants, single_variant, multiple_variants,
  enum_variants, translate_enum, discriminant_for_variant,
}
use minirust.Minimize.Types.{
  unsized_layout, pointee_info_of, translate_non_enum_adt, translate_kind, translate_ty,
}

module _ (r : Rustc) (q : RsTypes) where
  get_trait_name-Kept : (obj : ℕ) (cx : Ctxt) → Kept r ctxt_of cx (get_trait_name r obj cx)
  get_trait_name-Kept obj cx = record { keeps = λ p h. Uses.trait_name obj p h }

  unsized_layout-Kept :
      (ty : ℕ) (cx : Ctxt) (kind : TyKind)
      → q.kind ty ≡ kind
      → Kept r ctxt_of cx (unsized_layout r q ty cx)
  unfolding unsized_layout
  unsized_layout-Kept ty cx (TyKind.slice elem_ty) e =
      rw (unsized_layout, e) (pure-Kept _ λ align. done-Kept ctxt_of _)
  unsized_layout-Kept ty cx TyKind.str e = rw (unsized_layout, e) (done-Kept ctxt_of _)
  unsized_layout-Kept ty cx TyKind.dynamic e =
      rw (unsized_layout, e) (bind-Kept (get_trait_name-Kept ty cx) λ p. done-Kept ctxt_of _)
  unsized_layout-Kept ty cx kind e = rw (unsized_layout, e) none-Kept

  pointee_info_of-Kept : (ty : ℕ) (cx : Ctxt) → Kept r ctxt_of cx (pointee_info_of r q ty cx)
  unfolding pointee_info_of
  pointee_info_of-Kept ty cx =
      bind-Kept
        (if-Kept (q.layout_of ty).is_sized (pure-Kept _ λ align. done-Kept ctxt_of _)
          (unsized_layout-Kept ty cx (q.kind ty) refl))
        λ p. done-Kept ctxt_of _

  module _ (translate : Translator)
      (known : (ty : ℕ) (cx : Ctxt) → Kept r ctxt_of cx (translate ty cx)) where
    translate_fields-Kept :
        (offsets : List ℕ) (i : ℕ) (fields : List ℕ) (cx : Ctxt)
        → Kept r ctxt_of cx (translate_fields translate offsets i fields cx)
    unfolding translate_fields
    translate_fields-Kept offsets i [] cx = done-Kept ctxt_of _
    translate_fields-Kept offsets i (field ∷ fields) cx = bind-Kept (known field cx) λ p.
        pure-Kept _ λ offset.
          bind-Kept (translate_fields-Kept offsets (i + 1) fields p.1) λ p₁. done-Kept ctxt_of _

    variant_fields-Kept :
        (shape : List ℕ) (def : VariantDef) (cx : Ctxt)
        → Kept r ctxt_of cx (translate_adt_variant_fields translate shape def cx)
    unfolding translate_adt_variant_fields
    variant_fields-Kept shape def cx = translate_fields-Kept shape 0 def.fields cx

    translate_variants-Kept :
        (t : Tagging) (shapes : List (List ℕ)) (i : ℕ) (defs : List VariantDef) (parts : Parts)
        (cx : Ctxt)
        → Kept r ctxt_of cx (translate_variants q translate t shapes i defs parts cx)
    unfolding translate_variants
    translate_variants-Kept t shapes i [] parts cx = done-Kept ctxt_of _
    translate_variants-Kept t shapes i (def ∷ defs) parts cx = pure-Kept _ λ shape.
        bind-Kept (variant_fields-Kept shape def cx)
          λ p. pure-Kept _ λ parts₁. translate_variants-Kept t shapes (i + 1) defs parts₁ p.1

    enum_variants-Kept :
        (layout : RsLayout) (defs : List VariantDef) (align : ℕ) (dty : IntType)
        (variants : RsVariants) (cx : Ctxt)
        → Kept r ctxt_of cx (enum_variants q translate layout defs align dty variants cx)
    unfolding enum_variants single_variant multiple_variants
    enum_variants-Kept layout defs align dty (single index) cx =
        pure-Kept _
          λ def. bind-Kept (variant_fields-Kept layout.offsets def cx) λ p. done-Kept ctxt_of _
    enum_variants-Kept layout defs align dty (multiple tag encoding tag_field shapes) cx =
        pure-Kept _ λ offset. bind-Kept (known tag.int_ty cx) λ p. pure-Kept _ λ tag_ty.
          bind-Kept (translate_variants-Kept _ shapes 0 defs _ p.1)
            λ p₁. pure-Kept _ λ f. done-Kept ctxt_of _

    translate_enum-Kept :
        (ty : ℕ) (defs : List VariantDef) (cx : Ctxt)
        → Kept r ctxt_of cx (translate_enum q translate ty defs cx)
    unfolding translate_enum
    translate_enum-Kept ty defs cx = pure-Kept _ λ align.
        bind-Kept (known (q.discriminant_ty ty) cx) λ p. pure-Kept _ λ dty.
          bind-Kept
            (enum_variants-Kept (q.layout_of ty) defs align dty (q.layout_of ty).variants p.1)
            λ p₁. done-Kept ctxt_of _

    non_enum_adt-Kept :
        (ty : ℕ) (def : VariantDef) (cx : Ctxt)
        → Kept r ctxt_of cx (translate_non_enum_adt r q translate ty def cx)
    unfolding translate_non_enum_adt
    non_enum_adt-Kept ty def cx =
        bind-Kept (variant_fields-Kept (q.layout_of ty).offsets def cx)
          λ p. pure-Kept _ λ align. done-Kept ctxt_of _

    translate_kind-Kept :
        (ty : ℕ) (kind : TyKind) (cx : Ctxt)
        → Kept r ctxt_of cx (translate_kind r q translate ty kind cx)
    unfolding translate_kind
    translate_kind-Kept ty TyKind.bool cx = done-Kept ctxt_of _
    translate_kind-Kept ty (TyKind.int sz) cx = done-Kept ctxt_of _
    translate_kind-Kept ty (TyKind.uint sz) cx = done-Kept ctxt_of _
    translate_kind-Kept ty (TyKind.tuple ts) cx = pure-Kept _ λ align.
        bind-Kept (translate_fields-Kept (q.layout_of ty).offsets 0 ts cx) λ p. done-Kept ctxt_of _
    translate_kind-Kept ty (TyKind.box boxed) cx =
        bind-Kept (pointee_info_of-Kept boxed cx) λ p. done-Kept ctxt_of _
    translate_kind-Kept ty (TyKind.struct def) cx =
        bind-Kept (non_enum_adt-Kept ty def cx) λ p. done-Kept ctxt_of _
    translate_kind-Kept ty (TyKind.union def) cx =
        bind-Kept (non_enum_adt-Kept ty def cx) λ p. pure-Kept _ λ chunks. done-Kept ctxt_of _
    translate_kind-Kept ty (TyKind.enum defs) cx = translate_enum-Kept ty defs cx
    translate_kind-Kept ty (TyKind.ref target mutbl) cx =
        bind-Kept (pointee_info_of-Kept target cx) λ p. done-Kept ctxt_of _
    translate_kind-Kept ty (TyKind.raw_ptr target) cx =
        bind-Kept (pointee_info_of-Kept target cx) λ p. done-Kept ctxt_of _
    translate_kind-Kept ty (TyKind.array elem_ty count) cx =
        bind-Kept (known elem_ty cx) λ p. done-Kept ctxt_of _
    translate_kind-Kept ty TyKind.fn_ptr cx = done-Kept ctxt_of _
    translate_kind-Kept ty TyKind.never cx = pure-Kept (size (pos 0)) λ sz.
        pure-Kept (align 1)
          λ al. pure-Kept (enum_ty u8 [] Discriminator.invalid sz al) λ never. done-Kept ctxt_of _
    translate_kind-Kept ty (TyKind.slice elem_ty) cx =
        bind-Kept (known elem_ty cx) λ p. done-Kept ctxt_of _
    translate_kind-Kept ty TyKind.str cx = done-Kept ctxt_of _
    translate_kind-Kept ty TyKind.dynamic cx =
        bind-Kept (get_trait_name-Kept ty cx) λ p. done-Kept ctxt_of _
    translate_kind-Kept ty TyKind.other cx = none-Kept

    pub discriminant_for_variant-Kept :
        (ty variant_idx : ℕ) (cx : Ctxt) (kind : TyKind)
        → q.kind ty ≡ kind
        → Kept r ctxt_of cx (discriminant_for_variant q translate ty variant_idx cx)
    unfolding discriminant_for_variant
    discriminant_for_variant-Kept ty variant_idx cx (TyKind.enum defs) e =
        rw (discriminant_for_variant, e)
          (bind-Kept (known (q.discriminant_ty ty) cx) λ p. pure-Kept (expect_int p.0) λ dty.
            pure-Kept (get_elem? defs variant_idx) λ (def : VariantDef).
              pure-Kept (int_from_bits q def.discr dty) λ d. done-Kept ctxt_of (d, p.1))
    discriminant_for_variant-Kept ty variant_idx cx kind e =
        rw (discriminant_for_variant, e) none-Kept

  pub translate_ty-Kept :
      (fuel ty : ℕ) (cx : Ctxt) → Kept r ctxt_of cx (translate_ty r q fuel ty cx)
  unfolding translate_ty
  translate_ty-Kept zero ty cx = none-Kept
  translate_ty-Kept (suc fuel) ty cx = elim (Option-cases (get cx.ty_cache ty)) [
    | inl e ↦
        rw (translate_ty, e)
          (bind-Kept
            (translate_kind-Kept (translate_ty r q fuel) (translate_ty-Kept fuel) ty (q.kind ty) cx)
            λ p. record {
              keeps = λ x h.
                  subst (λ y. Uses r p.1 (ctxt_of y)) (some_inj h)
                    (Uses.caches p.1.alloc_map p.1.globals _);
            })
    | inr (t, e) ↦ rw (translate_ty, e) (done-Kept ctxt_of _)
  ]
