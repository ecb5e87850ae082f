-- ===== src/Minimize/Chunks.antt =====
-- tooling/minimize/src/chunks.rs: which bytes of a union hold data, as a list of chunks.
-- `none` is a panic: an index out of bounds, an unsized type, a layout that does not exist.
pub mod Slice
pub mod Scan
pub mod Mark
pub mod Returns
pub mod Fits
pub mod Thin
pub mod Laws
pub mod Total
pub mod Wide
mod Tests
use minirust.Prelude.{
  ℕ, zero, suc, ◌+◌, ◌-◌, ◌*◌, Bool, true, false, List, [], ◌∷◌, ◌++◌, Option, none, some, ◌>>=◌,
  length, set, replicate, ltb, if◌then◌else◌,
}
use minirust.Prelude.Int.{pos_part}
use minirust.Lang.Types.{
  Ty, Fields, no_fields, field, Tail, no_tail, tail, Variants, no_variants, variant, Tagger,
  Discriminator, known, invalid, branch, Children, no_children, child,
}
use minirust.Lang.Layout.{x86_64, layout, expect_size}

-- What is done to `&mut markers[offset..]`: the bytes before stay, and an offset past the end panics.
unfoldable pub at_offset : ℕ → (List Bool → Option (List Bool)) → List Bool → Option (List Bool)
at_offset zero f markers = f markers
at_offset (suc offset) f [] = none
at_offset (suc offset) f (b ∷ markers) = do rest ← at_offset offset f markers; some (b ∷ rest)

-- The rounds of `mark_size` that are left, from index `i` on.
unfoldable pub mark_size_loop : ℕ → ℕ → List Bool → Option (List Bool)
mark_size_loop zero i markers = some markers
mark_size_loop (suc rounds) i markers =
    let rest = mark_size_loop rounds (i + 1) (set markers i true) in
    if ltb i (length markers) then rest else none

unfoldable pub mark_size : ℕ → List Bool → Option (List Bool)
unfolding mark_size_loop
mark_size size = mark_size_loop size 0

unfoldable mutual
  pub mark_discriminator : Discriminator → List Bool → Option (List Bool)
  mark_discriminator (known _) markers = some markers
  mark_discriminator invalid markers = some markers
  mark_discriminator (branch offset value_type fallback children) markers = do
    m₁ ← at_offset offset (mark_size value_type.size) markers
    m₂ ← mark_discriminator fallback m₁
    mark_children children m₂

  pub mark_children : Children → List Bool → Option (List Bool)
  mark_children no_children markers = some markers
  mark_children (child _ _ result rest) markers = do
    m₁ ← mark_discriminator result markers
    mark_children rest m₁

unfoldable pub mark_tagger : Tagger → List Bool → Option (List Bool)
mark_tagger [] markers = some markers
mark_tagger ((offset, (ity, _)) ∷ tagger) markers = do
  m₁ ← at_offset offset (mark_size ity.size) markers
  mark_tagger tagger m₁

unfoldable pub mark_chunks : List (ℕ × ℕ) → List Bool → Option (List Bool)
mark_chunks [] markers = some markers
mark_chunks ((offset, len) ∷ chunks) markers = do
  m₁ ← at_offset offset (mark_size len) markers
  mark_chunks chunks m₁

-- The rounds that are left for the elements of an array, from the `i`-th on. The size of an element
-- is looked up in each round.
unfoldable pub mark_elems :
    ℕ → ℕ → Option ℕ → (List Bool → Option (List Bool)) → List Bool → Option (List Bool)
mark_elems zero i elem_size f markers = some markers
mark_elems (suc rounds) i elem_size f markers = do
  size ← elem_size
  m₁ ← at_offset (i * size) f markers
  mark_elems rounds (i + 1) elem_size f m₁

abbrev pub elem_size : Ty → Option ℕ
elem_size elem = do strategy ← layout x86_64 elem; expect_size strategy

unfoldable mutual
  pub mark_used_bytes : Ty → List Bool → Option (List Bool)
  mark_used_bytes (Ty.int ity) markers = mark_size ity.size markers
  mark_used_bytes Ty.bool markers = mark_size 1 markers
  mark_used_bytes (Ty.ptr _) markers = mark_size x86_64.ptr_size markers
  mark_used_bytes (Ty.tuple sized_fields _ no_tail) markers = mark_fields sized_fields markers
  mark_used_bytes (Ty.tuple sized_fields _ (tail _)) markers = none
  mark_used_bytes (Ty.union _ chunks _ _) markers = mark_chunks chunks markers
  mark_used_bytes (Ty.array elem count) markers =
      mark_elems (pos_part count) 0 (elem_size elem) (mark_used_bytes elem) markers
  mark_used_bytes (Ty.enum variants _ discriminator _ _) markers = do
    m₁ ← mark_variants variants markers
    mark_discriminator discriminator m₁
  mark_used_bytes (Ty.slice _) markers = none
  mark_used_bytes (Ty.trait_object _) markers = none

  pub mark_fields : Fields → List Bool → Option (List Bool)
  mark_fields no_fields markers = some markers
  mark_fields (field offset ty fields) markers = do
    m₁ ← at_offset offset (mark_used_bytes ty) markers
    mark_fields fields m₁

  pub mark_variants : Variants → List Bool → Option (List Bool)
  mark_variants no_variants markers = some markers
  mark_variants (variant _ ty tagger variants) markers = do
    m₁ ← mark_used_bytes ty markers
    m₂ ← mark_tagger tagger m₁
    mark_variants variants m₂

-- One round of the loop over the markers: the chunks so far and `current_chunk_start`.
unfoldable pub scan_step : ℕ → Bool → Option ℕ → List (ℕ × ℕ) → Option ℕ × List (ℕ × ℕ)
scan_step i true none chunks = (some i, chunks)
scan_step i false (some s) chunks = (none, chunks ++ (s, i - s) ∷ [])
scan_step i _ start chunks = (start, chunks)

unfoldable pub scan : ℕ → Option ℕ → List (ℕ × ℕ) → List Bool → List (ℕ × ℕ)
unfolding scan_step
scan i start chunks [] = chunks
scan i start chunks (b ∷ markers) =
    let next = scan_step i b start chunks in scan (i + 1) next.0 next.1 markers

unfoldable pub calc_chunks : Fields → ℕ → Option (List (ℕ × ℕ))
calc_chunks fields size = do
  markers ← mark_fields fields (replicate size false)
  some (scan 0 none [] (markers ++ false ∷ []))
