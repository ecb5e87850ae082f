-- ===== src/Minimize/Enums/Roundtrip.antt =====
-- enums.rs: what a variant of a translated enum writes as its tag is read as its discriminant.
use minirust.Prelude.{
  ℕ, ◌+◌, ◌≡◌, refl, sym, ◌∙◌, ap, subst, true, List, [], Option, none, some, some_inj, >>=-eq-some,
  get_elem?, if◌then◌else◌, ◌==◌, arith,
}
use minirust.Prelude.Int.{ℤ, pos}
use minirust.Lang.Types.{IntType, Ty, Variants, no_variants, Discriminator, no_children}
use minirust.Lang.Discriminants.{decode_discriminant}
use minirust.Minimize.Program.{Ctxt}
use minirust.Minimize.Rust.{VariantDef, TagEncoding, niche, Tag, multiple, RsTypes}
use minirust.Minimize.Enums.{
  int_from_bits, Translator, Tagging, Parts, expect_int, tagging_of, multiple_variants,
  enum_variants, translate_variants, translate_enum, translate_align, fallback_of,
}
use minirust.Minimize.Enums.Decode.{tag_of, find_tagged, or_else}
use minirust.Minimize.Enums.Laws.{
  valid_tag, untagged_discriminant, untagged_discriminant-niche, IsTag, translate_enum-decode,
}
use minirust.Minimize.Enums.Described.{
  tagger_of, documented_tag, number_of, AreIndices, tag_of-documented, find_tagged-none,
}
use minirust.Minimize.Enums.Taggers.{translate_variants-one, tagger_with}

variants_of : Ty → Variants
variants_of (Ty.enum vs _ _ _ _) = vs
variants_of _ = no_variants

==-refl : (u : ℕ) → (u == u) ≡ true
==-refl u = ground arith

zero_add : (j : ℕ) → 0 + j ≡ j
zero_add j = omega arith

module _ (q : RsTypes) (translate : Translator) (defs : List VariantDef) (ty : ℕ) (tag : Tag)
    (encoding : TagEncoding) (tag_field : ℕ) (shapes : List (List ℕ)) (c c₁ c₂ c' : Ctxt)
    (offset align align' size : ℕ) (discriminant_ty ity tag_ty : IntType) (vs : Variants)
    (discriminator : Discriminator)
    (many : (q.layout_of ty).variants ≡ multiple tag encoding tag_field shapes)
    (translated : translate_enum q translate ty defs c
      ≡ some (Ty.enum vs ity discriminator size align', c'))
    (aligned : translate_align (q.layout_of ty).align ≡ some align)
    (discr : translate (q.discriminant_ty ty) c ≡ some (Ty.int discriminant_ty, c₁))
    (typed : translate tag.int_ty c₁ ≡ some (Ty.int tag_ty, c₂))
    (at_offset : get_elem? (q.layout_of ty).offsets tag_field ≡ some offset)
    (indices : AreIndices encoding defs) where
  abbrev tagging : Tagging
  tagging = tagging_of (q.layout_of ty) align discriminant_ty offset tag_ty encoding

  abbrev documented : ℕ → VariantDef → Option (ℤ × ℤ)
  documented i def = documented_tag q discriminant_ty tag_ty encoding i def.discr

  abbrev number : ℕ → VariantDef → Option ℤ
  number i def = number_of q discriminant_ty tag_ty encoding i def.discr

  -- No other variant has this.
  abbrev IsOnly : ℕ → (ℕ → VariantDef → Type 0) → Type 0
  IsOnly i P = (j : ℕ) (other : VariantDef) → get_elem? defs j ≡ some other → P j other → j ≡ i

  -- The loop over the variants, and that the variants of the enum come from it
  translate_enum-variants :
      (parts : Parts) × (c₃ : Ctxt) × (translate_variants q translate tagging shapes 0 defs
          (no_variants, no_children)
          c₂
        ≡ some (parts, c₃))
      × (parts.0 ≡ vs)
  unfolding translate_enum enum_variants multiple_variants expect_int variants_of
  translate_enum-variants =
      let (((vs', disc'), c₃), made, rest) =
        >>=-eq-some
          (multiple_variants q translate (q.layout_of ty) defs align discriminant_ty tag encoding
            tag_field shapes c₁)
          _ (rw (aligned, discr, many) at translated) in
      let ((parts, c₄), made', h₁) =
        >>=-eq-some
          (translate_variants q translate tagging shapes 0 defs (no_variants, no_children) c₂) _
          (rw (at_offset, typed) at made) in
      let ((fallback, branches), _, h₂) = >>=-eq-some (fallback_of q tagging tag parts.1) _ h₁ in
      (parts, c₄, made', ap (λ p. p.0.0) (some_inj h₂) ∙ ap (λ p. variants_of p.0) (some_inj rest))

  -- The tagger of the one variant that has a discriminant
  translate_enum-tagger :
      (i : ℕ) (def : VariantDef) (d : ℤ)
      → get_elem? defs i ≡ some def
      → number i def ≡ some d
      → IsOnly i (λ j other. number j other ≡ some d)
      → tagger_of vs d ≡ some (tagger_with offset tag_ty (documented i def))
  translate_enum-tagger i def d at num one =
      let (parts, c₃, made, eq) = translate_enum-variants in
      subst (λ w. tagger_of w d ≡ some (tagger_with offset tag_ty (documented i def))) eq
        (translate_variants-one q tagging translate encoding refl shapes defs indices d 0 i def defs
            (no_variants, no_children) parts c₂ c₃
            (λ j other found. subst (λ n. get_elem? defs n ≡ some other) (sym (zero_add j)) found)
            made at (subst (λ n. number n def ≡ some d) (sym (zero_add i)) num)
            (λ j other found e.
              one j other found (subst (λ n. number n other ≡ some d) (zero_add j) e))
          ∙ ap (λ n. some (tagger_with offset tag_ty (documented n def))) (zero_add i))

  -- The tag of a variant, written as it documents, is found.
  tag_of-found :
      (j : ℕ) (other : VariantDef) (o : Option (ℤ × ℤ))
      → get_elem? defs j ≡ some other
      → tag_of q tagging (0 + j) other.discr ≡ o
      → documented j other ≡ o
  tag_of-found j other o found e =
      sym (tag_of-documented q tagging encoding defs j other refl indices found)
      ∙ (sym (ap (λ n. tag_of q tagging n other.discr) (zero_add j)) ∙ e)

  -- A value of a translated enum with a niche, whose tag is no variant's by the rule that rustc
  -- documents, is decoded to the discriminant of the untagged variant if the tag lies in the valid
  -- range of the layout, and else is invalid; and the untagged variant writes no tag. This holds if
  -- the discriminants are the indices of the variants, no other variant has the discriminant of the
  -- untagged one, and the tag lies in the range of its type.
  pub translate_enum-untagged :
      (u s n : ℕ) (def : VariantDef) (v : ℤ) (accessor : ℕ → IntType → Option ℤ)
      → encoding ≡ niche u s n
      → get_elem? defs u ≡ some def
      → int_from_bits q def.discr discriminant_ty ≡ some (pos u)
      → IsOnly u (λ j other. number j other ≡ some (pos u))
      → ((j : ℕ) (other : VariantDef) (e : ℤ)
          → get_elem? defs j ≡ some other
          → documented j other ≡ some (v, e)
          → ⊥)
      → accessor offset tag_ty ≡ some v
      → IsTag q tagging tag v
      → (tagger_of vs (pos u) ≡ some [])
        × (decode_discriminant accessor discriminator
            ≡ (if valid_tag q tagging tag v then some (pos u) else none))
  translate_enum-untagged u s n def v accessor e at bits one_number other read is =
      let known : number_of q discriminant_ty tag_ty (niche u s n) u def.discr ≡ some (pos u) =
        rw (==-refl u) bits in
      let untagged : documented_tag q discriminant_ty tag_ty (niche u s n) u def.discr ≡ none =
        rw (==-refl u) refl in
      let absent : find_tagged q tagging 0 defs v ≡ none =
        find_tagged-none q tagging v defs 0
          (λ j def' d found t. other j def' d found (tag_of-found j def' (some (v, d)) found t)) in
      (
        translate_enum-tagger u def (pos u) at
              (subst (λ k. number_of q discriminant_ty tag_ty k u def.discr ≡ some (pos u)) (sym e)
                known)
              one_number
            ∙ (ap
                  (λ k. some (
                    tagger_with offset tag_ty
                      (documented_tag q discriminant_ty tag_ty k u def.discr)))
                  e
                ∙ ap (λ o. some (tagger_with offset tag_ty o)) untagged),
        translate_enum-decode q translate defs ty tag encoding tag_field shapes c c₁ c₂ c' offset
              align align' size discriminant_ty ity tag_ty vs discriminator accessor v many
              translated aligned discr typed at_offset read is
              (λ d found. let wrong = sym absent ∙ found in cc)
            ∙ (ap (λ o. or_else o (untagged_discriminant q tagging tag v)) absent
                ∙ untagged_discriminant-niche q tagging tag u s n v e),
      )
