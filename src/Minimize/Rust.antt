-- ===== src/Minimize/Rust.antt =====
-- What the translator of types (tooling/minimize/src/ty.rs and enums.rs) asks rustc and libspecr,
-- which are not part of the program. A type of rustc is a number; its kind and its layout are answers.
use minirust.Prelude.{ℕ, Bool, List}
use minirust.Prelude.Int.{ℤ}
use minirust.Lang.Types.{Signedness}

-- `rs::VariantDef`: the types of its fields, normalized, and the bits of its discriminant
pub record VariantDef : Type 0 where
  pub fields : List ℕ
  pub discr : ℕ

-- `rs::TyKind`, with `rs::AdtDef` opened. A size in bytes stands for a size of integers.
pub data TyKind : Type 0 where
  bool never str fn_ptr : TyKind
  int uint : ℕ → TyKind
  tuple : List ℕ → TyKind
  box : ℕ → TyKind
  struct union : VariantDef → TyKind
  enum : List VariantDef → TyKind
  ref : ℕ → Bool → TyKind
  raw_ptr slice : ℕ → TyKind
  array : ℕ → ℕ → TyKind
  dynamic : TyKind
  other : TyKind

-- `rs::TagEncoding`: the index of the untagged variant, the index of the first tagged one and the
-- tag that stands for it
pub data TagEncoding : Type 0 where
  direct : TagEncoding
  niche : ℕ → ℕ → ℕ → TagEncoding

-- `rs::Scalar`, of a tag: its integer type, its size in bytes and its valid range
pub record Tag : Type 0 where
  pub int_ty : ℕ
  pub size : ℕ
  pub valid_start : ℕ
  pub valid_end : ℕ

-- `rs::Variants`; the last list has the offsets of the fields of each variant
pub data RsVariants : Type 0 where
  single : ℕ → RsVariants
  multiple : Tag → TagEncoding → ℕ → List (List ℕ) → RsVariants

-- `rs::Layout`
pub record RsLayout : Type 0 where
  pub size : ℕ
  pub align : ℕ
  pub offsets : List ℕ
  pub is_sized : Bool
  pub is_uninhabited : Bool
  pub variants : RsVariants

pub record RsTypes : Type 0 where
  pub kind : ℕ → TyKind
  pub layout_of : ℕ → RsLayout
  pub is_freeze : ℕ → Bool
  pub is_unpin : ℕ → Bool
  pub discriminant_ty : ℕ → ℕ
  -- `rs::Size::truncate`, `sign_extend` and the bounds of a size, given its bits
  pub truncate : ℕ → ℕ → ℕ
  pub sign_extend : ℕ → ℕ → ℕ
  pub signed_int_min : ℕ → ℤ
  pub signed_int_max : ℕ → ℤ
  pub unsigned_int_max : ℕ → ℤ
  -- `Int::bring_in_bounds`, given the size in bytes
  pub bring_in_bounds : Signedness → ℕ → ℤ → ℤ
