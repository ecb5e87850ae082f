-- ===== src/Minimize/Types.antt =====
-- tooling/minimize/src/ty.rs: the translation of types, through a cache.
-- It runs on fuel, a round for each type that it goes into: `none` is a panic or the end of the fuel.
pub mod Kept
pub mod Cache
pub mod Fuel
mod Tests
use minirust.Prelude.{
  ℕ, zero, suc, Bool, true, false, not, List, [], Option, none, some, ◌>>=◌, get, insert,
  if◌then◌else◌,
}
use minirust.Prelude.Int.{pos}
use minirust.Lang.Types.{
  signed, unsigned, Mutability, mutable, immutable, LayoutStrategy, sized, PointeeInfo, PtrType, Ty,
  Discriminator,
}
use minirust.Lang.Layout.{layout_meta_kind}
use minirust.Lang.Syntax.{CallingConvention}
use minirust.Build.Types.{tuple_ty, to_fields, enum_ty, u8, size, align}
use minirust.Minimize.Chunks.{calc_chunks}
use minirust.Minimize.Program.{Rustc, Ctxt, get_trait_name}
use minirust.Minimize.Rust.{VariantDef, TyKind, RsTypes}
use minirust.Minimize.Enums.{
  Translator, translate_size, translate_align, translate_fields, translate_adt_variant_fields,
  translate_enum,
}

unfoldable pub translate_mutbl : Bool → Mutability
translate_mutbl true = mutable
translate_mutbl false = immutable

-- `rs::Conv`
pub data Conv : Type 0 where
  c rust other : Conv

unfoldable pub translate_calling_convention : Conv → Option CallingConvention
translate_calling_convention Conv.c = some CallingConvention.c
translate_calling_convention Conv.rust = some CallingConvention.rust
translate_calling_convention Conv.other = none

module _ (r : Rustc) (q : RsTypes) where
  -- The layout of a pointee that has no size
  unfoldable pub unsized_layout : ℕ → Ctxt → Option (LayoutStrategy × Ctxt)
  unsized_layout ty cx = elim (q.kind ty) [
    | TyKind.slice elem_ty ↦ (do
      let elem_layout = q.layout_of elem_ty
      align ← translate_align elem_layout.align
      some (LayoutStrategy.slice (translate_size elem_layout.size) align, cx))
    | TyKind.str ↦ some (LayoutStrategy.slice 1 1, cx)
    | TyKind.dynamic ↦ (do
      (trait_name, cx₁) ← get_trait_name r ty cx
      some (LayoutStrategy.trait_object trait_name, cx₁))
    | _ ↦ none
  ]

  unfoldable pub pointee_info_of : ℕ → Ctxt → Option (PointeeInfo × Ctxt)
  pointee_info_of ty cx = do
    let rs_layout = q.layout_of ty
    (strategy, cx₁) ←
        if rs_layout.is_sized
        then (do
          align ← translate_align rs_layout.align
          some (sized (translate_size rs_layout.size) align, cx))
        else unsized_layout ty cx
    some (
      record {
        layout = strategy;
        inhabited = not rs_layout.is_uninhabited;
        freeze = q.is_freeze ty;
        unpin = q.is_unpin ty;
      },
      cx₁,
    )

  -- `translate_non_enum_adt`
  unfoldable pub translate_non_enum_adt :
      Translator → ℕ → VariantDef → Ctxt → Option ((List (ℕ × Ty) × (ℕ × ℕ)) × Ctxt)
  translate_non_enum_adt translate ty variant cx = do
    let rs_layout = q.layout_of ty
    (fields, cx₁) ← translate_adt_variant_fields translate rs_layout.offsets variant cx
    align ← translate_align rs_layout.align
    some ((fields, (translate_size rs_layout.size, align)), cx₁)

  -- The match of `translate_ty` on the kind
  unfoldable pub translate_kind : Translator → ℕ → TyKind → Ctxt → Option (Ty × Ctxt)
  translate_kind translate ty TyKind.bool cx = some (Ty.bool, cx)
  translate_kind translate ty (TyKind.int sz) cx =
      some (Ty.int (record { signed = signed; size = translate_size sz }), cx)
  translate_kind translate ty (TyKind.uint sz) cx =
      some (Ty.int (record { signed = unsigned; size = translate_size sz }), cx)
  translate_kind translate ty (TyKind.tuple ts) cx = do
    let rs_layout = q.layout_of ty
    align ← translate_align rs_layout.align
    (fields, cx₁) ← translate_fields translate rs_layout.offsets 0 ts cx
    some (tuple_ty fields (translate_size rs_layout.size) align, cx₁)
  translate_kind translate ty (TyKind.box boxed) cx = do
    (pointee, cx₁) ← pointee_info_of boxed cx
    some (Ty.ptr (PtrType.box pointee), cx₁)
  translate_kind translate ty (TyKind.struct variant) cx = do
    ((fields, (size, align)), cx₁) ← translate_non_enum_adt translate ty variant cx
    some (tuple_ty fields size align, cx₁)
  translate_kind translate ty (TyKind.union variant) cx = do
    ((fields, (size, align)), cx₁) ← translate_non_enum_adt translate ty variant cx
    chunks ← calc_chunks (to_fields fields) size
    some (Ty.union (to_fields fields) chunks size align, cx₁)
  translate_kind translate ty (TyKind.enum defs) cx = translate_enum q translate ty defs cx
  translate_kind translate ty (TyKind.ref target mutbl) cx = do
    (pointee, cx₁) ← pointee_info_of target cx
    some (Ty.ptr (PtrType.ref (translate_mutbl mutbl) pointee), cx₁)
  translate_kind translate ty (TyKind.raw_ptr target) cx = do
    (pointee, cx₁) ← pointee_info_of target cx
    some (Ty.ptr (PtrType.raw (layout_meta_kind pointee.layout)), cx₁)
  translate_kind translate ty (TyKind.array elem_ty count) cx = do
    (elem, cx₁) ← translate elem_ty cx
    some (Ty.array elem (pos count), cx₁)
  translate_kind translate ty TyKind.fn_ptr cx = some (Ty.ptr PtrType.fn_ptr, cx)
  translate_kind translate ty TyKind.never cx = do
    sz ← size (pos 0)
    al ← align 1
    never ← enum_ty u8 [] Discriminator.invalid sz al
    some (never, cx)
  translate_kind translate ty (TyKind.slice elem_ty) cx = do
    (elem, cx₁) ← translate elem_ty cx
    some (Ty.slice elem, cx₁)
  translate_kind translate ty TyKind.str cx =
      some (Ty.slice (Ty.int (record { signed = unsigned; size = 1 })), cx)
  translate_kind translate ty TyKind.dynamic cx = do
    (trait_name, cx₁) ← get_trait_name r ty cx
    some (Ty.trait_object trait_name, cx₁)
  translate_kind translate ty TyKind.other cx = none

  unfoldable pub translate_ty : ℕ → ℕ → Ctxt → Option (Ty × Ctxt)
  translate_ty zero ty cx = none
  translate_ty (suc fuel) ty cx = elim (get cx.ty_cache ty) [
    | some mini_ty ↦ some (mini_ty, cx)
    | none ↦ (do
      (mini_ty, cx₁) ← translate_kind (translate_ty fuel) ty (q.kind ty) cx
      some (mini_ty, record cx₁ { ty_cache = insert cx₁.ty_cache ty mini_ty }))
  ]
