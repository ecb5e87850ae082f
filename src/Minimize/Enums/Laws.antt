-- ===== src/Minimize/Enums/Laws.antt =====
-- enums.rs: what the discriminator of a translated enum answers for each tag.
use minirust.Prelude.{
  ℕ, ◌≡◌, refl, sym, subst, ◌∙◌, ap, Bool, true, false, List, Option, none, some, some_inj,
  >>=-eq-some, get_elem?, if◌then◌else◌, inl, inr,
}
use minirust.Prelude.Int.{ℤ, pos, ltb_ℤ}
use minirust.Lang.Types.{IntType, Ty, Variants, no_variants, Discriminator, Children, no_children}
use minirust.Lang.Discriminants.{decode_discriminant, decode_children}
use minirust.Minimize.Program.{Ctxt}
use minirust.Minimize.Rust.{
  VariantDef, TagEncoding, direct, niche, Tag, multiple, RsLayout, RsTypes,
}
use minirust.Minimize.Enums.{
  int_from_bits, Translator, Tagging, expect_int, tag_min, tag_max, fallback_of, tagging_of,
  multiple_variants, enum_variants, translate_variants, translate_enum, translate_align,
}
use minirust.Minimize.Enums.Decode.{
  KnowsTags, tag_lookup, or_else, find_tagged, encoding-cases, decode_children-KnowsTags,
  translate_variants-branches,
}
use minirust.Minimize.Enums.Tags.{is_valid, decode-add_invalid_tags}

-- Whether a tag is in the valid range of the layout.
unfoldable pub valid_tag : RsTypes → Tagging → Tag → ℤ → Bool
valid_tag q t tag v = elim (int_from_bits q tag.valid_start t.tag_ty) [
  | none ↦ false
  | some start ↦ elim (int_from_bits q tag.valid_end t.tag_ty) [
    | none ↦ false
    | some end ↦ is_valid start end v
  ]
]

-- The discriminant behind a tag that is no variant's
unfoldable pub untagged_discriminant : RsTypes → Tagging → Tag → ℤ → Option ℤ
untagged_discriminant q t tag v = elim t.encoding [
  | direct ↦ none
  | niche untagged_variant _ _ ↦ if valid_tag q t tag v then some (pos untagged_variant) else none
]

-- The tag lies in the range of its type.
unfoldable pub IsTag : RsTypes → Tagging → Tag → ℤ → Type 0
IsTag q t tag v =
    (ltb_ℤ v (tag_min q t.tag_ty tag.size) ≡ false)
    × (ltb_ℤ (tag_max q t.tag_ty tag.size) v ≡ false)

pub untagged_discriminant-niche :
    (q : RsTypes) (t : Tagging) (tag : Tag) (u s n : ℕ) (v : ℤ)
    → t.encoding ≡ niche u s n
    → untagged_discriminant q t tag v ≡ (if valid_tag q t tag v then some (pos u) else none)
unfolding untagged_discriminant valid_tag
untagged_discriminant-niche q t tag u s n v e = rw (untagged_discriminant, e) refl

or_else_none : (x : Option ℤ) → or_else x none ≡ x
or_else_none none = refl
or_else_none (some d) = refl

fallback_of-decode :
    (q : RsTypes) (t : Tagging) (tag : Tag) (branches branches' : Children)
    (fallback : Discriminator) (accessor : ℕ → IntType → Option ℤ) (v : ℤ)
    → fallback_of q t tag branches ≡ some (fallback, branches')
    → KnowsTags branches
    → IsTag q t tag v
    → ((d : ℤ) → tag_lookup branches v ≡ some d → valid_tag q t tag v ≡ true)
    → decode_children accessor v branches' (decode_discriminant accessor fallback)
      ≡ or_else (tag_lookup branches v) (untagged_discriminant q t tag v)
unfolding fallback_of untagged_discriminant valid_tag decode_discriminant IsTag
fallback_of-decode q t tag branches branches' fallback accessor v h k (low, high) valid =
    elim (encoding-cases t.encoding) [
      | inl e ↦
          subst
            (λ p.
              decode_children accessor v p.1 (decode_discriminant accessor p.0)
              ≡ or_else (tag_lookup branches v) (untagged_discriminant q t tag v))
            (some_inj (rw e at h))
            (rw (untagged_discriminant, e) (decode_children-KnowsTags accessor v branches none k))
      | inr (u, s, n, e) ↦
          let (start, first, h₁) =
            >>=-eq-some (int_from_bits q tag.valid_start t.tag_ty) _ (rw e at h) in
          let (end, last, h₂) = >>=-eq-some (int_from_bits q tag.valid_end t.tag_ty) _ h₁ in
          subst
            (λ p.
              decode_children accessor v p.1 (decode_discriminant accessor p.0)
              ≡ or_else (tag_lookup branches v) (untagged_discriminant q t tag v))
            (some_inj h₂)
            (rw (untagged_discriminant, e, valid_tag, first, last)
              (decode-add_invalid_tags accessor v (pos u) (tag_min q t.tag_ty tag.size)
                (tag_max q t.tag_ty tag.size) start end branches k low high
                (λ d f. rw (valid_tag, first, last) at (valid d f))))
    ]

empty-KnowsTags : KnowsTags no_children
unfolding KnowsTags
empty-KnowsTags = tt

empty_lookup : (v : ℤ) → tag_lookup no_children v ≡ none
unfolding tag_lookup
empty_lookup v = refl

discriminator_of : Ty → Discriminator
discriminator_of (Ty.enum _ _ discriminator _ _) = discriminator
discriminator_of _ = Discriminator.invalid

branch-decode :
    (accessor : ℕ → IntType → Option ℤ) (offset : ℕ) (ity : IntType) (fallback : Discriminator)
    (branches : Children) (v : ℤ)
    → accessor offset ity ≡ some v
    → decode_discriminant accessor (Discriminator.branch offset ity fallback branches)
      ≡ decode_children accessor v branches (decode_discriminant accessor fallback)
unfolding decode_discriminant
branch-decode accessor offset ity fallback branches v read = rw read refl

module _ (q : RsTypes) (translate : Translator) (layout : RsLayout) (defs : List VariantDef) where
  multiple_variants-decode :
      (align : ℕ) (discriminant_ty : IntType) (tag : Tag) (encoding : TagEncoding) (tag_field : ℕ)
      (shapes : List (List ℕ)) (c c₁ c' : Ctxt) (offset : ℕ) (tag_ty : IntType) (vs : Variants)
      (discriminator : Discriminator) (accessor : ℕ → IntType → Option ℤ) (v : ℤ)
      → multiple_variants q translate layout defs align discriminant_ty tag encoding tag_field
          shapes c
        ≡ some ((vs, discriminator), c')
      → get_elem? layout.offsets tag_field ≡ some offset
      → translate tag.int_ty c ≡ some (Ty.int tag_ty, c₁)
      → accessor offset tag_ty ≡ some v
      → let t = tagging_of layout align discriminant_ty offset tag_ty encoding in
        IsTag q t tag v
        → ((d : ℤ) → find_tagged q t 0 defs v ≡ some d → valid_tag q t tag v ≡ true)
        → decode_discriminant accessor discriminator
          ≡ or_else (find_tagged q t 0 defs v) (untagged_discriminant q t tag v)
  unfolding multiple_variants expect_int decode_discriminant
  multiple_variants-decode align dty tag encoding tag_field shapes c c₁ c' offset tag_ty vs disc
        accessor v h at_offset typed read is valid =
      let t = tagging_of layout align dty offset tag_ty encoding in
      let ((parts, c₂), made, h₁) =
        >>=-eq-some (translate_variants q translate t shapes 0 defs (no_variants, no_children) c₁) _
          (rw (at_offset, typed) at h) in
      let ((fallback, branches), fell, h₂) = >>=-eq-some (fallback_of q t tag parts.1) _ h₁ in
      let (k, found) =
        translate_variants-branches q translate t shapes 0 defs (no_variants, no_children) parts c₁
          c₂ v made empty-KnowsTags in
      let same : tag_lookup parts.1 v ≡ find_tagged q t 0 defs v =
        found
        ∙ (ap (or_else (find_tagged q t 0 defs v)) (empty_lookup v)
            ∙ or_else_none (find_tagged q t 0 defs v)) in
      subst
        (λ p.
          decode_discriminant accessor p.0.1
          ≡ or_else (find_tagged q t 0 defs v) (untagged_discriminant q t tag v))
        (some_inj h₂)
        (branch-decode accessor offset tag_ty fallback branches v read
          ∙ (fallback_of-decode q t tag parts.1 branches fallback accessor v fell k is
                (λ d e. valid d (sym same ∙ e))
              ∙ ap (λ x. or_else x (untagged_discriminant q t tag v)) same))

module _ (q : RsTypes) (translate : Translator) (defs : List VariantDef) where
  -- A tag in the range of its type, read from a value of a translated enum with more variants than
  -- one, is decoded to the discriminant of the last variant that has the tag. If no variant has
  -- it, it is invalid where tags are the discriminants themselves; else it is the discriminant of
  -- the untagged variant exactly if it lies in the valid range of the layout. This holds if no tag
  -- of a variant lies outside that range.
  pub translate_enum-decode :
      (ty : ℕ) (tag : Tag) (encoding : TagEncoding) (tag_field : ℕ) (shapes : List (List ℕ))
      (c c₁ c₂ c' : Ctxt) (offset align align' size : ℕ) (discriminant_ty ity tag_ty : IntType)
      (vs : Variants) (discriminator : Discriminator) (accessor : ℕ → IntType → Option ℤ) (v : ℤ)
      → (q.layout_of ty).variants ≡ multiple tag encoding tag_field shapes
      → translate_enum q translate ty defs c ≡ some (Ty.enum vs ity discriminator size align', c')
      → translate_align (q.layout_of ty).align ≡ some align
      → translate (q.discriminant_ty ty) c ≡ some (Ty.int discriminant_ty, c₁)
      → translate tag.int_ty c₁ ≡ some (Ty.int tag_ty, c₂)
      → get_elem? (q.layout_of ty).offsets tag_field ≡ some offset
      → accessor offset tag_ty ≡ some v
      → IsTag q (tagging_of (q.layout_of ty) align discriminant_ty offset tag_ty encoding) tag v
      → ((d : ℤ)
          → find_tagged q
              (tagging_of (q.layout_of ty) align discriminant_ty offset tag_ty encoding)
              0
              defs
              v
            ≡ some d
          → valid_tag q
              (tagging_of (q.layout_of ty) align discriminant_ty offset tag_ty encoding)
              tag
              v
            ≡ true)
      → decode_discriminant accessor discriminator
        ≡ or_else
            (find_tagged q
              (tagging_of (q.layout_of ty) align discriminant_ty offset tag_ty encoding)
              0
              defs
              v)
            (untagged_discriminant q
              (tagging_of (q.layout_of ty) align discriminant_ty offset tag_ty encoding)
              tag
              v)
  unfolding translate_enum enum_variants expect_int discriminator_of multiple_variants
  translate_enum-decode ty tag encoding tag_field shapes c c₁ c₂ c' offset align align' size dty ity
        tag_ty vs disc accessor v many h aligned discr typed at_offset read is valid =
      let (((vs', disc'), c₃), made, rest) =
        >>=-eq-some
          (multiple_variants q translate (q.layout_of ty) defs align dty tag encoding tag_field
            shapes c₁)
          _ (rw (aligned, discr, many) at h) in
      let eq : disc' ≡ disc = ap (λ p. discriminator_of p.0) (some_inj rest) in
      subst
        (λ d.
          decode_discriminant accessor d
          ≡ or_else
              (find_tagged q (tagging_of (q.layout_of ty) align dty offset tag_ty encoding) 0 defs
                v)
              (untagged_discriminant q
                (tagging_of (q.layout_of ty) align dty offset tag_ty encoding) tag v))
        eq
        (multiple_variants-decode q translate (q.layout_of ty) defs align dty tag encoding tag_field
          shapes c₁ c₂ c₃ offset tag_ty vs' disc' accessor v made at_offset typed read is valid)
