-- ===== src/Minimize/Chunks/Thin.antt =====
-- chunks.rs, spec/lang/types.md: types without wide pointers, whose data is what chunks.rs marks.
use minirust.Prelude.{ℕ, ◌≡◌, refl, true, false, none, some, ◌>>=◌, ap}
use mathlib.Core.Path.{fun_ext}
use minirust.Prelude.Int.{pos_part}
use minirust.Lang.Types.{
  PtrType, Ty, Fields, no_fields, field, no_tail, tail, Variants, no_variants, variant,
}
use minirust.Lang.Layout.{x86_64, layout, expect_size, ptr_meta_kind, is_thin}
use minirust.Minimize.Chunks.{elem_size}
use minirust.Minimize.Chunks.Mark.{elems_use, uses, fields_use, variants_use, marked_bytes}
use minirust.Minimize.Chunks.Fits.{ElemsFit, Fits, FieldsFit, VariantsFit}

-- The bytes of data of a pointer, which are all that its layout has
unfoldable pub data_bytes : PtrType → ℕ
data_bytes p = elim (do strategy ← layout x86_64 (Ty.ptr p); expect_size strategy) [
  | some n ↦ n
  | none ↦ 0
]

-- No pointer inside a type has metadata.
unfoldable mutual
  pub IsThin : Ty → Type 0
  IsThin (Ty.ptr p) = is_thin (ptr_meta_kind p) ≡ true
  IsThin (Ty.tuple sized_fields _ _) = FieldsThin sized_fields
  IsThin (Ty.array elem _) = IsThin elem
  IsThin (Ty.enum variants _ _ _ _) = VariantsThin variants
  IsThin _ = Unit

  pub FieldsThin : Fields → Type 0
  FieldsThin no_fields = Unit
  FieldsThin (field _ ty fields) = IsThin ty × FieldsThin fields

  pub VariantsThin : Variants → Type 0
  VariantsThin no_variants = Unit
  VariantsThin (variant _ ty _ variants) = IsThin ty × VariantsThin variants

data_bytes-thin : (p : PtrType) → is_thin (ptr_meta_kind p) ≡ true → data_bytes p ≡ 8
unfolding data_bytes layout
data_bytes-thin p h = rw (data_bytes, h) refl

pub data_bytes-wide : (p : PtrType) → is_thin (ptr_meta_kind p) ≡ false → data_bytes p ≡ 16
unfolding data_bytes layout
data_bytes-wide p h = rw (data_bytes, h) refl

mutual
  unfolding uses IsThin

  pub uses-data : (ty : Ty) → IsThin ty → uses marked_bytes ty ≡ uses data_bytes ty
  uses-data (Ty.int _) h = refl
  uses-data Ty.bool h = refl
  uses-data (Ty.ptr p) h = fun_ext λ i. rw (data_bytes-thin p h) refl
  uses-data (Ty.tuple sized_fields _ _) h = fun_ext λ i. fields_use-data sized_fields h i
  uses-data (Ty.union _ _ _ _) h = refl
  uses-data (Ty.array elem count) h =
      fun_ext λ i. ap (λ u. elems_use (pos_part count) 0 (elem_size elem) u i) (uses-data elem h)
  uses-data (Ty.enum variants _ _ _ _) h = fun_ext λ i. rw (variants_use-data variants h i) refl
  uses-data (Ty.slice _) h = refl
  uses-data (Ty.trait_object _) h = refl

  pub fields_use-data :
      (fields : Fields)
      → FieldsThin fields
      → (i : ℕ) → fields_use marked_bytes fields i ≡ fields_use data_bytes fields i
  fields_use-data no_fields h i = refl
  fields_use-data (field offset ty fields) (h, hs) i =
      rw (uses-data ty h, fields_use-data fields hs i) refl

  variants_use-data :
      (variants : Variants)
      → VariantsThin variants
      → (i : ℕ) → variants_use marked_bytes variants i ≡ variants_use data_bytes variants i
  variants_use-data no_variants h i = refl
  variants_use-data (variant _ ty _ variants) (h, hs) i =
      rw (uses-data ty h, variants_use-data variants hs i) refl

mutual
  unfolding Fits IsThin

  Fits-data : (ty : Ty) → IsThin ty → Fits marked_bytes ty ≡ Fits data_bytes ty
  Fits-data (Ty.int _) h = refl
  Fits-data Ty.bool h = refl
  Fits-data (Ty.ptr p) h = fun_ext λ n. rw (data_bytes-thin p h) refl
  Fits-data (Ty.tuple sized_fields _ no_tail) h = FieldsFit-data sized_fields h
  Fits-data (Ty.tuple _ _ (tail _)) h = refl
  Fits-data (Ty.union _ _ _ _) h = refl
  Fits-data (Ty.array elem count) h =
      ap (λ P n. ElemsFit (pos_part count) 0 (elem_size elem) P n) (Fits-data elem h)
  Fits-data (Ty.enum variants _ _ _ _) h = fun_ext λ n. rw (VariantsFit-data variants h) refl
  Fits-data (Ty.slice _) h = refl
  Fits-data (Ty.trait_object _) h = refl

  pub FieldsFit-data :
      (fields : Fields)
      → FieldsThin fields
      → FieldsFit marked_bytes fields ≡ FieldsFit data_bytes fields
  FieldsFit-data no_fields h = refl
  FieldsFit-data (field offset ty fields) (h, hs) =
      fun_ext λ n. rw (Fits-data ty h, FieldsFit-data fields hs) refl

  VariantsFit-data :
      (variants : Variants)
      → VariantsThin variants
      → VariantsFit marked_bytes variants ≡ VariantsFit data_bytes variants
  VariantsFit-data no_variants h = refl
  VariantsFit-data (variant _ ty tagger variants) (h, hs) =
      fun_ext λ n. rw (Fits-data ty h, VariantsFit-data variants hs) refl
