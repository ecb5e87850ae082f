-- ===== src/Lang/Types.antt =====
-- spec/lang/types.md and spec/mem/pointer.md: the types of MiniRust.
-- A `Size`, an `Offset` and an `Align` are their numbers of bytes, a `Name` is its internal number.
-- The lists and optional types inside a type are data types of the same block.
use minirust.Prelude.{ℕ, Bool, List, Option}
use minirust.Prelude.Int.{ℤ}

abbrev pub TraitName : Type 0
TraitName = ℕ

pub data Signedness : Type 0 where
  signed unsigned : Signedness

pub data Mutability : Type 0 where
  mutable immutable : Mutability

pub record IntType : Type 0 where
  pub signed : Signedness
  pub size : ℕ

pub data PointerMetaKind : Type 0 where
  none element_count : PointerMetaKind
  vtable_pointer : TraitName → PointerMetaKind

pub record TupleHeadLayout : Type 0 where
  pub end : ℕ
  pub align : ℕ
  pub packed_align : Option ℕ

pub data LayoutStrategy : Type 0 where
  sized : ℕ → ℕ → LayoutStrategy
  slice : ℕ → ℕ → LayoutStrategy
  trait_object : TraitName → LayoutStrategy
  tuple : TupleHeadLayout → LayoutStrategy → LayoutStrategy

pub record PointeeInfo : Type 0 where
  pub layout : LayoutStrategy
  pub inhabited : Bool
  pub freeze : Bool
  pub unpin : Bool

pub data PtrType : Type 0 where
  ref : Mutability → PointeeInfo → PtrType
  box : PointeeInfo → PtrType
  raw : PointerMetaKind → PtrType
  fn_ptr : PtrType
  vtable_ptr : TraitName → PtrType

-- The children of a branch map the values of a range, its end excluded.
mutual
  pub data Discriminator : Type 0 where
    known : ℤ → Discriminator
    invalid : Discriminator
    branch : ℕ → IntType → Discriminator → Children → Discriminator

  pub data Children : Type 0 where
    no_children : Children
    child : ℤ → ℤ → Discriminator → Children → Children

-- `Map<Offset, (IntType, Int)>`
abbrev pub Tagger : Type 0
Tagger = List (ℕ × (IntType × ℤ))

mutual
  pub data Ty : Type 0 where
    int : IntType → Ty
    bool : Ty
    ptr : PtrType → Ty
    tuple : Fields → TupleHeadLayout → Tail → Ty
    array : Ty → ℤ → Ty
    slice : Ty → Ty
    union : Fields → List (ℕ × ℕ) → ℕ → ℕ → Ty
    enum : Variants → IntType → Discriminator → ℕ → ℕ → Ty
    trait_object : TraitName → Ty

  -- `List<(Offset, Type)>`
  pub data Fields : Type 0 where
    no_fields : Fields
    field : ℕ → Ty → Fields → Fields

  -- `Option<Type>`, the unsized field of a tuple
  pub data Tail : Type 0 where
    no_tail : Tail
    tail : Ty → Tail

  -- `Map<Int, Variant>`: the discriminant, the type and the tagger of each variant
  pub data Variants : Type 0 where
    no_variants : Variants
    variant : ℤ → Ty → Tagger → Variants → Variants
