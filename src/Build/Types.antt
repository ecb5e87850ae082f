-- ===== src/Build/Types.antt =====
-- build/ty.rs, build/ty_conv.rs and the sizes of build/mod.rs: types, and the types of Rust's types.
-- A generic argument `T: TypeConv` is a value of the record `TypeConv`; `none` is a panic.
use minirust.Prelude.{
  ℕ, Bool, true, ◌&&◌, List, [], ◌∷◌, Option, none, some, ◌>>=◌, if◌then◌else◌, insert,
}
use minirust.Prelude.Int.{ℤ, pos, ◌==ℤ◌}
use minirust.Lang.Types.{
  TraitName, Signedness, signed, unsigned, Mutability, mutable, immutable, IntType, PointerMetaKind,
  LayoutStrategy, PointeeInfo, PtrType, Ty, Fields, no_fields, no_tail, Variants, no_variants,
  Tagger, Discriminator, Children, no_children, child,
}
use minirust.Lang.Layout.{x86_64, align_from_bytes, layout, meta_kind, expect_size, expect_align}

unfoldable pub align : ℕ → Option ℕ
unfolding align_from_bytes
align bytes = align_from_bytes bytes

unfoldable pub size : ℤ → Option ℕ
size (pos bytes) = some bytes
size _ = none

unfoldable pub offset : ℤ → Option ℕ
unfolding size
offset bytes = size bytes

unfoldable pub int_ty : Signedness → ℕ → Ty
int_ty s n = Ty.int (record { signed = s; size = n })

unfoldable pub bool_ty : Ty
bool_ty = Ty.bool

unfoldable pub ref_ty : PointeeInfo → Ty
ref_ty pointee = Ty.ptr (PtrType.ref immutable pointee)

unfoldable pub ref_mut_ty : PointeeInfo → Ty
ref_mut_ty pointee = Ty.ptr (PtrType.ref mutable pointee)

unfoldable pub ref_ty_default_markers_for : Ty → Option Ty
unfolding ref_ty
ref_ty_default_markers_for ty = do
  l ← layout x86_64 ty
  some (ref_ty (record { layout = l; inhabited = true; freeze = true; unpin = true }))

unfoldable pub ref_mut_ty_default_markers_for : Ty → Option Ty
unfolding ref_mut_ty
ref_mut_ty_default_markers_for ty = do
  l ← layout x86_64 ty
  some (ref_mut_ty (record { layout = l; inhabited = true; freeze = true; unpin = true }))

unfoldable pub box_ty : PointeeInfo → Ty
box_ty pointee = Ty.ptr (PtrType.box pointee)

unfoldable pub raw_ptr_ty : PointerMetaKind → Ty
raw_ptr_ty kind = Ty.ptr (PtrType.raw kind)

unfoldable pub raw_void_ptr_ty : Ty
unfolding raw_ptr_ty
raw_void_ptr_ty = raw_ptr_ty PointerMetaKind.none

abbrev pub to_fields : List (ℕ × Ty) → Fields
to_fields [] = no_fields
to_fields ((o, ty) ∷ fs) = Fields.field o ty (to_fields fs)

unfoldable pub tuple_ty : List (ℕ × Ty) → ℕ → ℕ → Ty
tuple_ty fs size align =
    Ty.tuple (to_fields fs) (record { end = size; align = align; packed_align = none }) no_tail

unfoldable pub unsized_tuple_ty : List (ℕ × Ty) → Ty → ℕ → ℕ → Option ℕ → Ty
unsized_tuple_ty fs unsized end align packed =
    Ty.tuple (to_fields fs) (record { end = end; align = align; packed_align = packed })
      (minirust.Lang.Types.Tail.tail unsized)

unfoldable pub union_ty : List (ℕ × Ty) → ℕ → ℕ → Ty
union_ty fs size align = Ty.union (to_fields fs) ((0, size) ∷ []) size align

unfoldable pub array_ty : Ty → ℤ → Ty
array_ty elem count = Ty.array elem count

unfoldable pub slice_ty : Ty → Ty
slice_ty elem = Ty.slice elem

unfoldable pub trait_object_ty : TraitName → Ty
trait_object_ty name = Ty.trait_object name

-- `iter().copied().collect()` into a map of taggers: a later entry replaces an earlier one.
abbrev pub collect : List (ℕ × (IntType × ℤ)) → Tagger → Tagger
collect [] m = m
collect ((o, v) ∷ vs) m = collect vs (insert m o v)

unfoldable pub enum_variant : Ty → List (ℕ × (IntType × ℤ)) → Ty × Tagger
enum_variant ty tagger = (ty, collect tagger [])

abbrev pub insert_variant : ℤ → Ty → Tagger → Variants → Variants
insert_variant d ty tg no_variants = Variants.variant d ty tg no_variants
insert_variant d ty tg (Variants.variant e uy ug rest) =
    if d ==ℤ e
    then Variants.variant d ty tg rest
    else Variants.variant e uy ug (insert_variant d ty tg rest)

abbrev pub collect_variants : List (ℤ × (Ty × Tagger)) → Variants → Variants
collect_variants [] m = m
collect_variants ((d, (ty, tg)) ∷ vs) m = collect_variants vs (insert_variant d ty tg m)

-- `trait TypeConv`
pub record TypeConv : Type 0 where
  pub get_type : Ty
  pub freeze : Bool
  pub unpin : Bool

abbrev pub conv : Ty → TypeConv
conv ty = record { get_type = ty; freeze = true; unpin = true }

unfoldable pub enum_ty : TypeConv → List (ℤ × (Ty × Tagger)) → Discriminator → ℕ → ℕ → Option Ty
enum_ty t variants discriminator size align = elim t.get_type [
  | Ty.int ity ↦ some (Ty.enum (collect_variants variants no_variants) ity discriminator size align)
  | _ ↦ none
]

unfoldable pub discriminator_invalid : Discriminator
discriminator_invalid = Discriminator.invalid

unfoldable pub discriminator_known : ℤ → Discriminator
discriminator_known discriminant = Discriminator.known discriminant

abbrev pub insert_child : ℤ → ℤ → Discriminator → Children → Children
insert_child a b d no_children = child a b d no_children
insert_child a b d (child a' b' d' rest) =
    if a ==ℤ a' && b ==ℤ b' then child a b d rest else child a' b' d' (insert_child a b d rest)

abbrev pub collect_children : List ((ℤ × ℤ) × Discriminator) → Children → Children
collect_children [] m = m
collect_children (((a, b), d) ∷ cs) m = collect_children cs (insert_child a b d m)

unfoldable pub discriminator_branch :
    TypeConv → ℕ → Discriminator → List ((ℤ × ℤ) × Discriminator) → Option Discriminator
discriminator_branch t offset fallback children = elim t.get_type [
  | Ty.int ity ↦
      some (Discriminator.branch offset ity fallback (collect_children children no_children))
  | _ ↦ none
]

abbrev pub uint : ℕ → TypeConv
uint n = conv (Ty.int (record { signed = unsigned; size = n }))

abbrev pub sint : ℕ → TypeConv
sint n = conv (Ty.int (record { signed = signed; size = n }))

-- The implementations of `TypeConv`
abbrev pub u8 : TypeConv
u8 = uint 1

abbrev pub u16 : TypeConv
u16 = uint 2

abbrev pub u32 : TypeConv
u32 = uint 4

abbrev pub u64 : TypeConv
u64 = uint 8

abbrev pub u128 : TypeConv
u128 = uint 16

abbrev pub i8 : TypeConv
i8 = sint 1

abbrev pub i16 : TypeConv
i16 = sint 2

abbrev pub i32 : TypeConv
i32 = sint 4

abbrev pub i64 : TypeConv
i64 = sint 8

abbrev pub i128 : TypeConv
i128 = sint 16

abbrev pub usize : TypeConv
usize = uint x86_64.ptr_size

abbrev pub isize : TypeConv
isize = sint x86_64.ptr_size

unfoldable pub bool : TypeConv
unfolding bool_ty
bool = conv bool_ty

-- `()`
unfoldable pub unit_conv : TypeConv
unfolding tuple_ty
unit_conv = conv (tuple_ty [] 0 1)

-- `*const T` and `*mut T`
unfoldable pub raw_ptr : TypeConv → TypeConv
unfolding raw_ptr_ty meta_kind
raw_ptr t = conv (raw_ptr_ty (meta_kind t.get_type))

unfoldable pub get_layout : TypeConv → Option LayoutStrategy
get_layout t = layout x86_64 t.get_type

unfoldable pub get_size : TypeConv → Option ℕ
get_size t = do l ← layout x86_64 t.get_type; expect_size l

unfoldable pub get_align : TypeConv → Option ℕ
get_align t = do l ← layout x86_64 t.get_type; expect_align l

-- `&T` and `&mut T`
unfoldable pub ref : TypeConv → Option TypeConv
unfolding get_layout ref_ty
ref t = do
  l ← get_layout t
  some (conv (ref_ty (record { layout = l; inhabited = true; freeze = t.freeze; unpin = t.unpin })))

unfoldable pub ref_mut : TypeConv → Option TypeConv
unfolding get_layout ref_mut_ty
ref_mut t = do
  l ← get_layout t
  some (
      conv
        (ref_mut_ty (record { layout = l; inhabited = true; freeze = t.freeze; unpin = t.unpin })))

-- `[T; N]` and `[T]`
unfoldable pub array : TypeConv → ℕ → TypeConv
unfolding array_ty
array t n = conv (array_ty t.get_type (pos n))

unfoldable pub slice : TypeConv → TypeConv
unfolding slice_ty
slice t = conv (slice_ty t.get_type)
