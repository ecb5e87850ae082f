-- ===== src/Minimize/Chunks/Mark.antt =====
-- chunks.rs: which bytes of a type hold data, said without markers, and the markers.
use minirust.Prelude.{
  ℕ, zero, suc, ◌+◌, ◌-◌, ◌*◌, Bool, false, ◌&&◌, ◌||◌, List, [], ◌∷◌, Option, none, some, ltb, leb,
}
use minirust.Prelude.Int.{pos_part}
use minirust.Lang.Types.{
  PtrType, Ty, Fields, no_fields, field, no_tail, tail, Variants, no_variants, variant, Tagger,
  Discriminator, known, invalid, branch, Children, no_children, child,
}
use minirust.Minimize.Chunks.{
  mark_discriminator, mark_children, mark_tagger, mark_chunks, mark_elems, elem_size,
  mark_used_bytes, mark_fields, mark_variants,
}
use minirust.Minimize.Chunks.Slice.{Marks, Marks-none, Marks-seq, Marks-at_offset, Marks-mark_size}

-- Byte `i` lies in the part at `offset` where `u` holds.
abbrev pub shifted : ℕ → (ℕ → Bool) → ℕ → Bool
shifted offset u i = leb offset i && u (i - offset)

mutual
  pub discriminator_uses : Discriminator → ℕ → Bool
  discriminator_uses (known _) i = false
  discriminator_uses invalid i = false
  discriminator_uses (branch offset ity fallback children) i =
      shifted offset (λ j. ltb j ity.size) i
      || (discriminator_uses fallback i || children_use children i)

  pub children_use : Children → ℕ → Bool
  children_use no_children i = false
  children_use (child _ _ result rest) i = discriminator_uses result i || children_use rest i

pub tagger_uses : Tagger → ℕ → Bool
tagger_uses [] i = false
tagger_uses ((offset, (ity, _)) ∷ tagger) i =
    shifted offset (λ j. ltb j ity.size) i || tagger_uses tagger i

pub chunks_use : List (ℕ × ℕ) → ℕ → Bool
chunks_use [] i = false
chunks_use ((offset, len) ∷ chunks) i = shifted offset (λ j. ltb j len) i || chunks_use chunks i

-- One of the elements from the `k`-th on, `rounds` of them, uses the byte.
pub elems_use : ℕ → ℕ → Option ℕ → (ℕ → Bool) → ℕ → Bool
elems_use zero k size u i = false
elems_use (suc rounds) k none u i = false
elems_use (suc rounds) k (some size) u i =
    shifted (k * size) u i || elems_use rounds (k + 1) (some size) u i

-- Whether byte `i` holds data of a type, where a pointer has so many bytes of data
module _ (ptr_bytes : PtrType → ℕ) where
  unfoldable mutual
    pub uses : Ty → ℕ → Bool
    uses (Ty.int ity) i = ltb i ity.size
    uses Ty.bool i = ltb i 1
    uses (Ty.ptr p) i = ltb i (ptr_bytes p)
    uses (Ty.tuple sized_fields _ _) i = fields_use sized_fields i
    uses (Ty.union _ chunks _ _) i = chunks_use chunks i
    uses (Ty.array elem count) i = elems_use (pos_part count) 0 (elem_size elem) (uses elem) i
    uses (Ty.enum variants _ discriminator _ _) i =
        variants_use variants i || discriminator_uses discriminator i
    uses (Ty.slice _) i = false
    uses (Ty.trait_object _) i = false

    pub fields_use : Fields → ℕ → Bool
    fields_use no_fields i = false
    fields_use (field offset ty fields) i = shifted offset (uses ty) i || fields_use fields i

    pub variants_use : Variants → ℕ → Bool
    variants_use no_variants i = false
    variants_use (variant _ ty tagger variants) i =
        uses ty i || (tagger_uses tagger i || variants_use variants i)

-- The bytes that are marked of a pointer
abbrev pub marked_bytes : PtrType → ℕ
marked_bytes p = 8

-- A function that always panics marks whatever is claimed.
Marks-panic : {u : ℕ → Bool} → Marks (λ m. none) u
Marks-panic = record { keeps = λ m m' h. cc; marks = λ m m' i h. cc }

mutual
  unfolding mark_discriminator discriminator_uses

  pub Marks-discriminator :
      (d : Discriminator) → Marks (mark_discriminator d) (discriminator_uses d)
  Marks-discriminator (known _) = Marks-none
  Marks-discriminator invalid = Marks-none
  Marks-discriminator (branch offset ity fallback children) =
      Marks-seq (Marks-at_offset (Marks-mark_size ity.size) offset)
        (Marks-seq (Marks-discriminator fallback) (Marks-children children))

  pub Marks-children : (c : Children) → Marks (mark_children c) (children_use c)
  Marks-children no_children = Marks-none
  Marks-children (child _ _ result rest) =
      Marks-seq (Marks-discriminator result) (Marks-children rest)

pub Marks-tagger : (t : Tagger) → Marks (mark_tagger t) (tagger_uses t)
unfolding mark_tagger tagger_uses
Marks-tagger [] = Marks-none
Marks-tagger ((offset, (ity, _)) ∷ t) =
    Marks-seq (Marks-at_offset (Marks-mark_size ity.size) offset) (Marks-tagger t)

pub Marks-chunks : (c : List (ℕ × ℕ)) → Marks (mark_chunks c) (chunks_use c)
unfolding mark_chunks chunks_use
Marks-chunks [] = Marks-none
Marks-chunks ((offset, len) ∷ c) =
    Marks-seq (Marks-at_offset (Marks-mark_size len) offset) (Marks-chunks c)

pub Marks-elems :
    (rounds k : ℕ) (size : Option ℕ) {f : List Bool → Option (List Bool)} {u : ℕ → Bool}
    → Marks f u
    → Marks (mark_elems rounds k size f) (elems_use rounds k size u)
unfolding mark_elems elems_use
Marks-elems zero k size hf = Marks-none
Marks-elems (suc rounds) k none hf = Marks-panic
Marks-elems (suc rounds) k (some size) hf =
    Marks-seq (Marks-at_offset hf (k * size)) (Marks-elems rounds (k + 1) (some size) hf)

mutual
  unfolding mark_used_bytes uses

  pub Marks-used_bytes : (ty : Ty) → Marks (mark_used_bytes ty) (uses marked_bytes ty)
  Marks-used_bytes (Ty.int ity) = Marks-mark_size ity.size
  Marks-used_bytes Ty.bool = Marks-mark_size 1
  Marks-used_bytes (Ty.ptr _) = Marks-mark_size 8
  Marks-used_bytes (Ty.tuple sized_fields _ no_tail) = Marks-fields sized_fields
  Marks-used_bytes (Ty.tuple sized_fields _ (tail _)) = Marks-panic
  Marks-used_bytes (Ty.union _ chunks _ _) = Marks-chunks chunks
  Marks-used_bytes (Ty.array elem count) =
      Marks-elems (pos_part count) 0 (elem_size elem) (Marks-used_bytes elem)
  Marks-used_bytes (Ty.enum variants _ discriminator _ _) =
      Marks-seq (Marks-variants variants) (Marks-discriminator discriminator)
  Marks-used_bytes (Ty.slice _) = Marks-panic
  Marks-used_bytes (Ty.trait_object _) = Marks-panic

  pub Marks-fields : (fields : Fields) → Marks (mark_fields fields) (fields_use marked_bytes fields)
  Marks-fields no_fields = Marks-none
  Marks-fields (field offset ty fields) =
      Marks-seq (Marks-at_offset (Marks-used_bytes ty) offset) (Marks-fields fields)

  pub Marks-variants :
      (variants : Variants) → Marks (mark_variants variants) (variants_use marked_bytes variants)
  Marks-variants no_variants = Marks-none
  Marks-variants (variant _ ty tagger variants) =
      Marks-seq (Marks-used_bytes ty) (Marks-seq (Marks-tagger tagger) (Marks-variants variants))
