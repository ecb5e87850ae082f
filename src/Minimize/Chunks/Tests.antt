-- ===== src/Minimize/Chunks/Tests.antt =====
-- The chunks of small unions, and the theorems at them.
use minirust.Prelude.{
  ℕ, ◌≡◌, ◌↔◌, refl, true, false, List, [], ◌∷◌, none, some, length, get_or, ◌||◌, arith,
}
use minirust.Prelude.Int.{pos}
use minirust.Lang.Types.{
  PointerMetaKind, PtrType, Ty, Fields, no_fields, field, no_tail, unsigned, known, branch,
  no_children, no_variants, variant,
}
use minirust.Lang.Layout.{layout, ptr_meta_kind, is_thin}
use minirust.Minimize.Chunks.{
  calc_chunks, mark_used_bytes, at_offset, mark_size, mark_elems, mark_tagger, mark_discriminator,
  scan,
}
use minirust.Minimize.Chunks.Scan.{covers, Separated}
use minirust.Minimize.Chunks.Mark.{uses, fields_use}
use minirust.Minimize.Chunks.Laws.{calc_chunks-covers, calc_chunks-Separated, mark_used_bytes-uses}
use minirust.Minimize.Chunks.Fits.{FieldsFit}
use minirust.Minimize.Chunks.Thin.{data_bytes, IsThin, FieldsThin}
use minirust.Minimize.Chunks.Total.{calc_chunks-total}
use minirust.Minimize.Chunks.Wide.{calc_chunks_wide}

abbrev u8 : Ty
u8 = Ty.int (record { signed = unsigned; size = 1 })

abbrev u16 : Ty
u16 = Ty.int (record { signed = unsigned; size = 2 })

-- An enum whose tag is the byte after the `u16` of its one variant
abbrev tagged : Ty
tagged =
    Ty.enum
      (variant (pos 0)
        (Ty.tuple (field 0 u16 no_fields) (record { end = 4; align = 2; packed_align = none })
          no_tail)
        ((2, (record { signed = unsigned; size = 1 }, pos 0)) ∷ []) no_variants)
      (record { signed = unsigned; size = 1 })
      (branch 2 (record { signed = unsigned; size = 1 }) (known (pos 0)) no_children) 4 2

-- union { a: u8 at 0, b: [u16; 2] at 2, c: tagged at 8 }
abbrev sample : Fields
sample = field 0 u8 (field 2 (Ty.array u16 (pos 2)) (field 8 tagged no_fields))

sample_chunks : calc_chunks sample 12 ≡ some ((0, 1) ∷ (2, 4) ∷ (8, 3) ∷ [])
unfolding calc_chunks mark_used_bytes at_offset mark_size mark_elems mark_tagger mark_discriminator
    scan layout minirust.Lang.Layout.int_align minirust.Lang.Layout.scale
sample_chunks = refl

-- A union that is too small for a field is refused.
sample_too_small : calc_chunks sample 10 ≡ none
unfolding calc_chunks mark_used_bytes at_offset mark_size mark_elems mark_tagger mark_discriminator
    scan layout minirust.Lang.Layout.int_align minirust.Lang.Layout.scale
sample_too_small = refl

sample-FieldsThin : FieldsThin sample
unfolding FieldsThin
sample-FieldsThin = (tt, (tt, (((tt, tt), tt), tt)))

u16-IsThin : IsThin u16
unfolding IsThin
u16-IsThin = tt

-- union { a: *const [T] }: the length of the slice is in no chunk.
abbrev wide : PtrType
wide = PtrType.raw PointerMetaKind.element_count

wide_chunks : calc_chunks (field 0 (Ty.ptr wide) no_fields) 16 ≡ some ((0, 8) ∷ [])
unfolding calc_chunks mark_used_bytes at_offset mark_size scan
wide_chunks = refl

wide_meta : is_thin (ptr_meta_kind wide) ≡ false
unfolding ptr_meta_kind
wide_meta = refl

calc_chunks_wide_example :
    (covers ((0, 8) ∷ []) 11 ≡ false)
    × (fields_use data_bytes (field 0 (Ty.ptr wide) no_fields) 11 ≡ true)
calc_chunks_wide_example =
    calc_chunks_wide wide 0 16 ((0, 8) ∷ []) 11 wide_meta wide_chunks (omega arith) (omega arith)

calc_chunks-covers_example :
    covers ((0, 1) ∷ (2, 4) ∷ (8, 3) ∷ []) 3 ≡ fields_use data_bytes sample 3
calc_chunks-covers_example =
    calc_chunks-covers sample 12 ((0, 1) ∷ (2, 4) ∷ (8, 3) ∷ []) 3 sample-FieldsThin sample_chunks

calc_chunks-Separated_example : Separated 0 12 ((0, 1) ∷ (2, 4) ∷ (8, 3) ∷ [])
calc_chunks-Separated_example =
    calc_chunks-Separated sample 12 ((0, 1) ∷ (2, 4) ∷ (8, 3) ∷ []) sample_chunks

calc_chunks-total_example :
    ((chunks : List (ℕ × ℕ)) × (calc_chunks sample 10 ≡ some chunks))
    ↔ FieldsFit data_bytes sample 10
calc_chunks-total_example = calc_chunks-total sample 10 sample-FieldsThin

u16_marked : mark_used_bytes u16 (false ∷ false ∷ false ∷ []) ≡ some (true ∷ true ∷ false ∷ [])
unfolding mark_used_bytes mark_size
u16_marked = refl

mark_used_bytes-uses_example :
    (length (true ∷ true ∷ false ∷ []) ≡ 3)
    × (get_or (true ∷ true ∷ false ∷ []) 1 false
        ≡ (get_or (false ∷ false ∷ false ∷ []) 1 false || uses data_bytes u16 1))
mark_used_bytes-uses_example =
    mark_used_bytes-uses u16 (false ∷ false ∷ false ∷ []) (true ∷ true ∷ false ∷ []) 1 u16-IsThin
      u16_marked
