-- ===== src/Minimize/Enums/Taggers.antt =====
-- enums.rs: the taggers of the translated variants.
use minirust.Prelude.{
  ℕ, zero, suc, ◌+◌, ◌≡◌, refl, sym, ◌∙◌, ap, subst, true, false, List, [], ◌∷◌, Option, none, some,
  some_inj, >>=-eq-some, get_elem?, if◌then◌else◌, ◌==◌, Bool-cases, inl, inr, arith,
}
use minirust.Prelude.Int.{ℤ, ◌==ℤ◌}
use minirust.Lang.Types.{IntType, Ty, Tagger, Variants, no_variants, variant}
use minirust.Build.Types.{insert_variant, tuple_ty}
use minirust.Minimize.Program.{Ctxt}
use minirust.Minimize.Rust.{VariantDef, TagEncoding, direct, niche, RsTypes}
use minirust.Minimize.Enums.{
  int_from_bits, Translator, Tagging, Parts, niche_tag, add_tagged, add_untagged, add_variant,
  translate_variants, translate_adt_variant_fields,
}
use minirust.Minimize.Enums.Decode.{==ℤ-eq, ==ℤ-refl}
use minirust.Minimize.Enums.Described.{
  tagger_of, documented_tag, number_of, AreIndices, shift, k_zero,
}

tagger_of-insert_variant :
    (d e : ℤ) (ty : Ty) (tg : Tagger) (vs : Variants)
    → tagger_of (insert_variant e ty tg vs) d ≡ (if e ==ℤ d then some tg else tagger_of vs d)
tagger_of-insert_variant d e ty tg no_variants = refl
tagger_of-insert_variant d e ty tg (variant f uy ug vs) =
    ground (arith, tagger_of-insert_variant d e ty tg vs)

differ : (a b : ℤ) → (a ≡ b → ⊥) → (a ==ℤ b) ≡ false
differ a b h = elim (Bool-cases (a ==ℤ b)) [ inl e ↦ absurd (h (==ℤ-eq a b e)) | inr e ↦ e ]

chosen : (a b : ℤ) (x y : Option Tagger) → a ≡ b → (if a ==ℤ b then x else y) ≡ x
chosen a b x y e = rw (e, ==ℤ-refl b) refl

-- The tagger of a variant with such a tag, at an offset
abbrev pub tagger_with : ℕ → IntType → Option (ℤ × ℤ) → Tagger
tagger_with offset tag_ty none = []
tagger_with offset tag_ty (some (x, _)) = (offset, (tag_ty, x)) ∷ []

module _ (q : RsTypes) (t : Tagging) where
  abbrev tagger_made : TagEncoding → ℕ → ℕ → Tagger
  tagger_made encoding i discr =
      tagger_with t.tag_offset t.tag_ty
        (documented_tag q t.discriminant_ty t.tag_ty encoding i discr)

  abbrev number : TagEncoding → ℕ → ℕ → Option ℤ
  number encoding i discr = number_of q t.discriminant_ty t.tag_ty encoding i discr

  -- A variant is inserted with its discriminant and the tagger for its tag.
  abbrev IsInserted : TagEncoding → ℕ → ℕ → Variants → Variants → Type 0
  IsInserted encoding i discr vs vs' =
      (d : ℤ) × (ty : Ty) × (number encoding i discr ≡ some d)
      × (vs' ≡ insert_variant d ty (tagger_made encoding i discr) vs)

  direct-IsInserted :
      (i discr : ℕ) (d : ℤ) (fields : List (ℕ × Ty)) (parts parts' : Parts)
      → int_from_bits q discr t.discriminant_ty ≡ some d
      → add_tagged t d d fields parts ≡ parts'
      → IsInserted direct i discr parts.0 parts'.0
  unfolding add_tagged
  direct-IsInserted i discr d fields parts parts' bits e =
      (d, tuple_ty fields t.size t.align, bits, rw bits (sym (ap (λ (p : Parts). p.0) e)))

  untagged-IsInserted :
      (u first start i discr : ℕ) (d : ℤ) (fields : List (ℕ × Ty)) (parts parts' : Parts)
      → (u == i) ≡ true
      → int_from_bits q discr t.discriminant_ty ≡ some d
      → add_untagged t d fields parts ≡ parts'
      → IsInserted (niche u first start) i discr parts.0 parts'.0
  unfolding add_untagged
  untagged-IsInserted u first start i discr d fields parts parts' same bits e =
      (d, tuple_ty fields t.size t.align, rw same bits, rw same (sym (ap (λ (p : Parts). p.0) e)))

  niche-IsInserted :
      (u first start i discr : ℕ) (d : ℤ) (fields : List (ℕ × Ty)) (parts parts' : Parts)
      → (u == i) ≡ false
      → int_from_bits q i t.tag_ty ≡ some d
      → add_tagged t d (niche_tag q t.tag_ty d first start) fields parts ≡ parts'
      → IsInserted (niche u first start) i discr parts.0 parts'.0
  unfolding add_tagged niche_tag
  niche-IsInserted u first start i discr d fields parts parts' other bits e = (
    d,
    tuple_ty fields t.size t.align,
    rw other bits,
    rw (other, bits) (sym (ap (λ (p : Parts). p.0) e)),
  )

  add_variant-IsInserted :
      (encoding : TagEncoding) (defs : List VariantDef) (i : ℕ) (def : VariantDef) (at : ℕ)
      (fields : List (ℕ × Ty)) (parts parts' : Parts)
      → t.encoding ≡ encoding
      → AreIndices encoding defs
      → get_elem? defs at ≡ some def
      → at ≡ i
      → add_variant q t i def.discr fields parts ≡ some parts'
      → IsInserted encoding i def.discr parts.0 parts'.0
  unfolding add_variant
  add_variant-IsInserted direct defs i def at fields parts parts' e indices found same h =
      let (d, bits, rest) = >>=-eq-some (int_from_bits q def.discr t.discriminant_ty) _ h in
      direct-IsInserted i def.discr d fields parts parts' bits (some_inj (rw e at rest))
  add_variant-IsInserted (niche u first start) defs i def at fields parts parts' e indices found
        same h =
      let (d, bits, rest) = >>=-eq-some (int_from_bits q def.discr t.discriminant_ty) _ h in
      elim (Bool-cases (u == i)) [
        | inl untagged ↦
            untagged-IsInserted u first start i def.discr d fields parts parts' untagged bits
              (some_inj (rw (e, untagged) at rest))
        | inr tagged ↦
            let (d', bits', rest') =
              >>=-eq-some (int_from_bits q def.discr t.tag_ty) _ (rw (e, tagged) at rest) in
            niche-IsInserted u first start i def.discr d' fields parts parts' tagged
              (subst (λ n. int_from_bits q n t.tag_ty ≡ some d') (indices at def found ∙ same)
                bits')
              (some_inj rest')
      ]

  module _ (translate : Translator) (encoding : TagEncoding) (known : t.encoding ≡ encoding)
      (shapes : List (List ℕ)) (all : List VariantDef) (indices : AreIndices encoding all)
      (d : ℤ) where
    -- The variants from the index `k` on are those of the enum.
    abbrev IsRest : ℕ → List VariantDef → Type 0
    IsRest k defs =
        (j : ℕ) (def : VariantDef) → get_elem? defs j ≡ some def → get_elem? all (k + j) ≡ some def

    IsRest-next :
        (k : ℕ) (def : VariantDef) (defs : List VariantDef)
        → IsRest k (def ∷ defs)
        → IsRest (k + 1) defs
    IsRest-next k def defs rest j def' at =
        subst (λ m. get_elem? all m ≡ some def') (sym (shift k j)) (rest (suc j) def' at)

    -- Variants with other discriminants leave the tagger of one.
    translate_variants-tagger :
        (k : ℕ) (defs : List VariantDef) (parts parts' : Parts) (c c' : Ctxt)
        → IsRest k defs
        → translate_variants q translate t shapes k defs parts c ≡ some (parts', c')
        → ((j : ℕ) (def : VariantDef)
            → get_elem? defs j ≡ some def
            → number encoding (k + j) def.discr ≡ some d
            → ⊥)
        → tagger_of parts'.0 d ≡ tagger_of parts.0 d
    unfolding translate_variants
    translate_variants-tagger k [] parts parts' c c' rest h other =
        ap (λ (p : Parts × Ctxt). tagger_of p.0.0 d) (sym (some_inj h))
    translate_variants-tagger k (def ∷ defs) parts parts' c c' rest h other =
        let (shape, _, h₁) = >>=-eq-some (get_elem? shapes k) _ h in
        let ((fields, c₁), _, h₂) =
          >>=-eq-some (translate_adt_variant_fields translate shape def c) _ h₁ in
        let (parts₁, added, h₃) = >>=-eq-some (add_variant q t k def.discr fields parts) _ h₂ in
        let (e, ty, n, made) =
          add_variant-IsInserted encoding all k def (k + 0) fields parts parts₁ known indices
            (rest 0 def refl) (k_zero k) added in
        let differs = differ e d (λ same. other 0 def refl (
          subst (λ l. number encoding l def.discr ≡ some d) (sym (k_zero k)) (n ∙ ap some same))) in
        translate_variants-tagger (k + 1) defs parts₁ parts' c₁ c' (IsRest-next k def defs rest) h₃
          (λ j def' at m.
            other (suc j) def' at
              (subst (λ l. number encoding l def'.discr ≡ some d) (shift k j) m))
        ∙ (ap (λ vs. tagger_of vs d) made
            ∙ (tagger_of-insert_variant d e ty (tagger_made encoding k def.discr) parts.0
                ∙ rw differs refl))

    -- The tagger of the one variant that has a discriminant
    pub translate_variants-one :
        (k i : ℕ) (def : VariantDef) (defs : List VariantDef) (parts parts' : Parts) (c c' : Ctxt)
        → IsRest k defs
        → translate_variants q translate t shapes k defs parts c ≡ some (parts', c')
        → get_elem? defs i ≡ some def
        → number encoding (k + i) def.discr ≡ some d
        → ((j : ℕ) (def' : VariantDef)
            → get_elem? defs j ≡ some def'
            → number encoding (k + j) def'.discr ≡ some d
            → j ≡ i)
        → tagger_of parts'.0 d ≡ some (tagger_made encoding (k + i) def.discr)
    unfolding translate_variants
    translate_variants-one k i def [] parts parts' c c' rest h at num one = cc
    translate_variants-one k zero def (def₀ ∷ defs) parts parts' c c' rest h at num one =
        let (shape, _, h₁) = >>=-eq-some (get_elem? shapes k) _ h in
        let ((fields, c₁), _, h₂) =
          >>=-eq-some (translate_adt_variant_fields translate shape def₀ c) _ h₁ in
        let (parts₁, added, h₃) = >>=-eq-some (add_variant q t k def₀.discr fields parts) _ h₂ in
        let (e, ty, n, made) =
          add_variant-IsInserted encoding all k def₀ (k + 0) fields parts parts₁ known indices
            (rest 0 def₀ refl) (k_zero k) added in
        let same =
          subst (λ (v : VariantDef). number encoding (k + 0) v.discr ≡ some d) (sym (some_inj at))
            num in
        let num₀ = subst (λ l. number encoding l def₀.discr ≡ some d) (k_zero k) same in
        let keeps =
          translate_variants-tagger (k + 1) defs parts₁ parts' c₁ c' (IsRest-next k def₀ defs rest)
            h₃
            (λ j def' at' m.
              let wrong =
                one (suc j) def' at'
                  (subst (λ l. number encoding l def'.discr ≡ some d) (shift k j) m) in
              absurd (omega arith)) in
        let found =
          ap (λ vs. tagger_of vs d) made
          ∙ (tagger_of-insert_variant d e ty (tagger_made encoding k def₀.discr) parts.0
              ∙ chosen e d (some (tagger_made encoding k def₀.discr)) (tagger_of parts.0 d)
                  (some_inj (sym n ∙ num₀))) in
        keeps
        ∙ (found
            ∙ (ap (λ l. some (tagger_made encoding l def₀.discr)) (sym (k_zero k))
                ∙ ap (λ (v : VariantDef). some (tagger_made encoding (k + 0) v.discr))
                    (some_inj at)))
    translate_variants-one k (suc i) def (def₀ ∷ defs) parts parts' c c' rest h at num one =
        let (shape, _, h₁) = >>=-eq-some (get_elem? shapes k) _ h in
        let ((fields, c₁), _, h₂) =
          >>=-eq-some (translate_adt_variant_fields translate shape def₀ c) _ h₁ in
        let (parts₁, added, h₃) = >>=-eq-some (add_variant q t k def₀.discr fields parts) _ h₂ in
        translate_variants-one (k + 1) i def defs parts₁ parts' c₁ c' (IsRest-next k def₀ defs rest)
          h₃ at (subst (λ l. number encoding l def.discr ≡ some d) (sym (shift k i)) num)
          (λ j def' at' m.
            let same =
              one (suc j) def' at'
                (subst (λ l. number encoding l def'.discr ≡ some d) (shift k j) m) in
            omega arith)
        ∙ ap (λ l. some (tagger_made encoding l def.discr)) (shift k i)
