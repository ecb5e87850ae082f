-- ===== src/Minimize/Chunks/Fits.antt =====
-- chunks.rs: the types that fit into a number of bytes, and the panics of the marking functions.
use minirust.Prelude.{
  ℕ, zero, suc, ◌+◌, ◌-◌, ◌*◌, ◌≤◌, Bool, List, [], ◌∷◌, Option, none, some, leb, ◌&&◌, ltb,
}
use minirust.Prelude.Int.{pos_part}
use minirust.Lang.Types.{
  PtrType, Ty, Fields, no_fields, field, no_tail, tail, Variants, no_variants, variant, Tagger,
  Discriminator, known, invalid, branch, Children, no_children, child,
}
use minirust.Minimize.Chunks.{
  at_offset, mark_size, mark_discriminator, mark_children, mark_tagger, mark_chunks, mark_elems,
  elem_size, mark_used_bytes, mark_fields, mark_variants,
}
use minirust.Minimize.Chunks.Slice.{Marks, Marks-at_offset, Marks-mark_size}
use minirust.Minimize.Chunks.Mark.{
  marked_bytes, Marks-tagger, Marks-discriminator, Marks-used_bytes, Marks-variants,
}
use minirust.Minimize.Chunks.Returns.{
  FitsAt, Returns, Returns-some, Returns-panic, Returns-seq, Returns-at_offset, Returns-mark_size,
  Returns-part,
}

mutual
  pub DiscriminatorFits : Discriminator → ℕ → Type 0
  DiscriminatorFits (known _) n = Unit
  DiscriminatorFits invalid n = Unit
  DiscriminatorFits (branch offset ity fallback children) n =
      FitsAt offset (λ k. ity.size ≤ k) n × (DiscriminatorFits fallback n × ChildrenFit children n)

  pub ChildrenFit : Children → ℕ → Type 0
  ChildrenFit no_children n = Unit
  ChildrenFit (child _ _ result rest) n = DiscriminatorFits result n × ChildrenFit rest n

abbrev pub TaggerFits : Tagger → ℕ → Type 0
TaggerFits [] n = Unit
TaggerFits ((offset, (ity, _)) ∷ tagger) n =
    FitsAt offset (λ k. ity.size ≤ k) n × TaggerFits tagger n

abbrev pub ChunksFit : List (ℕ × ℕ) → ℕ → Type 0
ChunksFit [] n = Unit
ChunksFit ((offset, len) ∷ chunks) n = FitsAt offset (λ k. len ≤ k) n × ChunksFit chunks n

abbrev pub ElemsFit : ℕ → ℕ → Option ℕ → (ℕ → Type 0) → ℕ → Type 0
ElemsFit zero k size P n = Unit
ElemsFit (suc rounds) k none P n = ⊥
ElemsFit (suc rounds) k (some size) P n =
    FitsAt (k * size) P n × ElemsFit rounds (k + 1) (some size) P n

module _ (ptr_bytes : PtrType → ℕ) where
  -- A sized type whose data lies within `n` bytes
  unfoldable mutual
    pub Fits : Ty → ℕ → Type 0
    Fits (Ty.int ity) n = ity.size ≤ n
    Fits Ty.bool n = 1 ≤ n
    Fits (Ty.ptr p) n = ptr_bytes p ≤ n
    Fits (Ty.tuple sized_fields _ no_tail) n = FieldsFit sized_fields n
    Fits (Ty.tuple _ _ (tail _)) n = ⊥
    Fits (Ty.union _ chunks _ _) n = ChunksFit chunks n
    Fits (Ty.array elem count) n = ElemsFit (pos_part count) 0 (elem_size elem) (Fits elem) n
    Fits (Ty.enum variants _ discriminator _ _) n =
        VariantsFit variants n × DiscriminatorFits discriminator n
    Fits (Ty.slice _) n = ⊥
    Fits (Ty.trait_object _) n = ⊥

    pub FieldsFit : Fields → ℕ → Type 0
    FieldsFit no_fields n = Unit
    FieldsFit (field offset ty fields) n = FitsAt offset (Fits ty) n × FieldsFit fields n

    pub VariantsFit : Variants → ℕ → Type 0
    VariantsFit no_variants n = Unit
    VariantsFit (variant _ ty tagger variants) n =
        Fits ty n × (TaggerFits tagger n × VariantsFit variants n)

Marks-part :
    (offset size : ℕ)
    → Marks (at_offset offset (mark_size size)) (λ i. leb offset i && ltb (i - offset) size)
Marks-part offset size = Marks-at_offset (Marks-mark_size size) offset

mutual
  unfolding mark_discriminator DiscriminatorFits

  Returns-discriminator : (d : Discriminator) → Returns (mark_discriminator d) (DiscriminatorFits d)
  Returns-discriminator (known _) = Returns-some
  Returns-discriminator invalid = Returns-some
  Returns-discriminator (branch offset ity fallback children) =
      Returns-seq (Returns-part offset ity.size) (Marks-part offset ity.size) (
        Returns-seq (Returns-discriminator fallback) (Marks-discriminator fallback)
          (Returns-children children))

  Returns-children : (c : Children) → Returns (mark_children c) (ChildrenFit c)
  Returns-children no_children = Returns-some
  Returns-children (child _ _ result rest) =
      Returns-seq (Returns-discriminator result) (Marks-discriminator result)
        (Returns-children rest)

Returns-tagger : (t : Tagger) → Returns (mark_tagger t) (TaggerFits t)
unfolding mark_tagger
Returns-tagger [] = Returns-some
Returns-tagger ((offset, (ity, _)) ∷ t) =
    Returns-seq (Returns-part offset ity.size) (Marks-part offset ity.size) (Returns-tagger t)

Returns-chunks : (c : List (ℕ × ℕ)) → Returns (mark_chunks c) (ChunksFit c)
unfolding mark_chunks
Returns-chunks [] = Returns-some
Returns-chunks ((offset, len) ∷ c) =
    Returns-seq (Returns-part offset len) (Marks-part offset len) (Returns-chunks c)

Returns-elems :
    (rounds k : ℕ) (size : Option ℕ) {f : List Bool → Option (List Bool)} {u : ℕ → Bool}
    {P : ℕ → Type 0}
    → Returns f P
    → Marks f u
    → Returns (mark_elems rounds k size f) (ElemsFit rounds k size P)
unfolding mark_elems
Returns-elems zero k size hf mf = Returns-some
Returns-elems (suc rounds) k none hf mf = Returns-panic
Returns-elems (suc rounds) k (some size) hf mf =
    Returns-seq (Returns-at_offset hf (k * size)) (Marks-at_offset mf (k * size))
      (Returns-elems rounds (k + 1) (some size) hf mf)

mutual
  unfolding mark_used_bytes Fits

  Returns-used_bytes : (ty : Ty) → Returns (mark_used_bytes ty) (Fits marked_bytes ty)
  Returns-used_bytes (Ty.int ity) = Returns-mark_size ity.size
  Returns-used_bytes Ty.bool = Returns-mark_size 1
  Returns-used_bytes (Ty.ptr _) = Returns-mark_size 8
  Returns-used_bytes (Ty.tuple sized_fields _ no_tail) = Returns-fields sized_fields
  Returns-used_bytes (Ty.tuple _ _ (tail _)) = Returns-panic
  Returns-used_bytes (Ty.union _ chunks _ _) = Returns-chunks chunks
  Returns-used_bytes (Ty.array elem count) =
      Returns-elems (pos_part count) 0 (elem_size elem) (Returns-used_bytes elem)
        (Marks-used_bytes elem)
  Returns-used_bytes (Ty.enum variants _ discriminator _ _) =
      Returns-seq (Returns-variants variants) (Marks-variants variants)
        (Returns-discriminator discriminator)
  Returns-used_bytes (Ty.slice _) = Returns-panic
  Returns-used_bytes (Ty.trait_object _) = Returns-panic

  pub Returns-fields :
      (fields : Fields) → Returns (mark_fields fields) (FieldsFit marked_bytes fields)
  Returns-fields no_fields = Returns-some
  Returns-fields (field offset ty fields) =
      Returns-seq (Returns-at_offset (Returns-used_bytes ty) offset)
        (Marks-at_offset (Marks-used_bytes ty) offset) (Returns-fields fields)

  Returns-variants :
      (variants : Variants) → Returns (mark_variants variants) (VariantsFit marked_bytes variants)
  Returns-variants no_variants = Returns-some
  Returns-variants (variant _ ty tagger variants) =
      Returns-seq (Returns-used_bytes ty) (Marks-used_bytes ty)
        (Returns-seq (Returns-tagger tagger) (Marks-tagger tagger) (Returns-variants variants))
