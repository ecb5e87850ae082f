-- ===== src/Lang/Layout.antt =====
-- spec/lang/types.md, spec/prelude/target.md: the target, and sizes and alignments of types.
-- `none` is a panic, of `expect_size` and `expect_align` on an unsized type and of
-- `Align::from_bytes(..).unwrap()` on a number that is no power of two.
use minirust.Prelude.{
  ℕ, zero, suc, ◌+◌, ◌-◌, ◌*◌, ◌/◌, ◌%◌, min, Bool, true, false, Option, none, some, if◌then◌else◌,
  ◌==◌, ◌>>=◌,
}
use minirust.Prelude.Int.{ℤ, pos, negsuc}
use minirust.Lang.Types.{
  IntType, PointerMetaKind, element_count, vtable_pointer, TupleHeadLayout, LayoutStrategy, sized,
  PtrType, ref, box, raw, fn_ptr, vtable_ptr, Tail, no_tail, tail, Ty,
}

-- `trait Target`, as far as layouts go
pub record Target : Type 0 where
  pub ptr_size : ℕ
  pub ptr_align : ℕ
  pub int_max_align : ℕ

abbrev pub x86_64 : Target
x86_64 = record { ptr_size = 8; ptr_align = 8; int_max_align = 16 }

-- Whether a number is 2 ^ k for a k below the fuel.
unfoldable pub is_power_of_two : ℕ → ℕ → Bool
is_power_of_two zero n = false
is_power_of_two (suc fuel) n =
    let rest = is_power_of_two fuel (n / 2) in
    if n == 1 then true else if n % 2 == 0 then rest else false

-- `Align::from_bytes`, of a number below 2 ^ 64
unfoldable pub align_from_bytes : ℕ → Option ℕ
unfolding is_power_of_two
align_from_bytes n = if n == 0 then none else if is_power_of_two 64 n then some n else none

-- `Size::align_to`: up to a multiple of the alignment
unfoldable pub align_to : ℕ → ℕ → ℕ
align_to size align = (size + (align - 1)) / align * align

-- `Size * Int`: a size is not negative.
unfoldable pub scale : ℕ → ℤ → Option ℕ
scale size (pos n) = some (size * n)
scale size (negsuc n) = if size == 0 then some 0 else none

unfoldable pub int_align : Target → IntType → Option ℕ
unfolding align_from_bytes
int_align t ity = do natural ← align_from_bytes ity.size; some (min natural t.int_max_align)

abbrev pub expect_size : LayoutStrategy → Option ℕ
expect_size (sized size _) = some size
expect_size _ = none

abbrev pub expect_align : LayoutStrategy → Option ℕ
expect_align (sized _ align) = some align
expect_align _ = none

-- `LayoutStrategy::meta_kind`
unfoldable pub layout_meta_kind : LayoutStrategy → PointerMetaKind
layout_meta_kind (sized _ _) = PointerMetaKind.none
layout_meta_kind (LayoutStrategy.slice _ _) = element_count
layout_meta_kind (LayoutStrategy.trait_object name) = vtable_pointer name
layout_meta_kind (LayoutStrategy.tuple _ rest) = layout_meta_kind rest

-- `PtrType::meta_kind`
unfoldable pub ptr_meta_kind : PtrType → PointerMetaKind
unfolding layout_meta_kind
ptr_meta_kind (ref _ pointee) = layout_meta_kind pointee.layout
ptr_meta_kind (box pointee) = layout_meta_kind pointee.layout
ptr_meta_kind (raw kind) = kind
ptr_meta_kind fn_ptr = PointerMetaKind.none
ptr_meta_kind (vtable_ptr _) = PointerMetaKind.none

abbrev pub head_size : TupleHeadLayout → ℕ
unfolding align_to
head_size head = align_to head.end head.align

abbrev pub is_thin : PointerMetaKind → Bool
is_thin PointerMetaKind.none = true
is_thin _ = false

unfoldable mutual
  -- `Type::layout`
  pub layout : Target → Ty → Option LayoutStrategy
  layout t (Ty.int ity) = do align ← int_align t ity; some (sized ity.size align)
  layout t Ty.bool = some (sized 1 1)
  layout t (Ty.ptr p) = some (
      if is_thin (ptr_meta_kind p)
      then sized t.ptr_size t.ptr_align
      else sized (2 * t.ptr_size) t.ptr_align)
  layout t (Ty.union _ _ size align) = some (sized size align)
  layout t (Ty.enum _ _ _ size align) = some (sized size align)
  layout t (Ty.tuple _ head rest) = tail_layout t head rest
  layout t (Ty.array elem count) = do
    strategy ← layout t elem
    elem_size ← expect_size strategy
    size ← scale elem_size count
    align ← expect_align strategy
    some (sized size align)
  layout t (Ty.slice elem) = do
    strategy ← layout t elem
    size ← expect_size strategy
    align ← expect_align strategy
    some (LayoutStrategy.slice size align)
  layout t (Ty.trait_object name) = some (LayoutStrategy.trait_object name)

  pub tail_layout : Target → TupleHeadLayout → Tail → Option LayoutStrategy
  tail_layout t head no_tail = some (sized (head_size head) head.align)
  tail_layout t head (tail ty) = do rest ← layout t ty; some (LayoutStrategy.tuple head rest)

unfoldable mutual
  -- `Type::meta_kind`
  pub meta_kind : Ty → PointerMetaKind
  meta_kind (Ty.slice _) = element_count
  meta_kind (Ty.trait_object name) = vtable_pointer name
  meta_kind (Ty.tuple _ _ rest) = tail_meta_kind rest
  meta_kind _ = PointerMetaKind.none

  pub tail_meta_kind : Tail → PointerMetaKind
  tail_meta_kind no_tail = PointerMetaKind.none
  tail_meta_kind (tail ty) = meta_kind ty
