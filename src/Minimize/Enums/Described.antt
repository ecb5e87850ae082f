-- ===== src/Minimize/Enums/Described.antt =====
-- enums.rs: the tags and the discriminants of variants, as rustc documents them.
use minirust.Prelude.{
  ℕ, zero, suc, ◌+◌, ◌≡◌, refl, sym, ◌∙◌, ap, subst, List, [], ◌∷◌, Option, none, some, some_inj,
  ◌>>=◌, >>=-eq-some, get_elem?, if◌then◌else◌, ◌==◌, Bool-cases, inl, inr, arith,
}
use minirust.Prelude.Int.{ℤ, pos, ◌+ℤ◌, ◌-ℤ◌, ◌==ℤ◌}
use minirust.Lang.Types.{IntType, Tagger, Variants, no_variants, variant}
use minirust.Minimize.Rust.{VariantDef, TagEncoding, direct, niche, RsTypes}
use minirust.Minimize.Enums.{int_from_bits, Tagging, niche_tag}
use minirust.Minimize.Enums.Decode.{tag_of, tagged_here, find_tagged, ==ℤ-eq, ==ℤ-refl}

-- The tagger of the variant with a discriminant
abbrev pub tagger_of : Variants → ℤ → Option Tagger
tagger_of no_variants d = none
tagger_of (variant e _ tagger variants) d = if e ==ℤ d then some tagger else tagger_of variants d

module _ (q : RsTypes) (discriminant_ty tag_ty : IntType) where
  -- The tag of the variant with an index, if it has one, and its discriminant. The tag is the
  -- discriminant, or lies as far from the first niche as the variant from the first one that has a
  -- niche, in the range of the type of tags.
  abbrev pub documented_tag : TagEncoding → ℕ → ℕ → Option (ℤ × ℤ)
  documented_tag direct i discr = do d ← int_from_bits q discr discriminant_ty; some (d, d)
  documented_tag (niche untagged first niche_start) i discr = if untagged == i then none else (do
    d ← int_from_bits q i tag_ty
    some (q.bring_in_bounds tag_ty.signed tag_ty.size (d -ℤ pos first +ℤ pos niche_start), d))

  -- The discriminant of the variant, as a number
  abbrev pub number_of : TagEncoding → ℕ → ℕ → Option ℤ
  number_of direct i discr = int_from_bits q discr discriminant_ty
  number_of (niche untagged _ _) i discr =
      if untagged == i then int_from_bits q discr discriminant_ty else int_from_bits q i tag_ty

-- Only enums without niches have discriminants that are not the indices of their variants.
abbrev pub AreIndices : TagEncoding → List VariantDef → Type 0
AreIndices direct defs = Unit
AreIndices (niche _ _ _) defs =
    (i : ℕ) (def : VariantDef) → get_elem? defs i ≡ some def → def.discr ≡ i

pub documented-number :
    (q : RsTypes) (discriminant_ty tag_ty : IntType) (encoding : TagEncoding) (i discr : ℕ)
    (x d : ℤ)
    → documented_tag q discriminant_ty tag_ty encoding i discr ≡ some (x, d)
    → number_of q discriminant_ty tag_ty encoding i discr ≡ some d
documented-number q discriminant_ty tag_ty direct i discr x d h =
    let (e, bits, rest) = >>=-eq-some (int_from_bits q discr discriminant_ty) _ h in
    bits ∙ ap (λ p. some p.1) (some_inj rest)
documented-number q discriminant_ty tag_ty (niche u first start) i discr x d h =
    elim (Bool-cases (u == i)) [
      | inl same ↦ let wrong = rw same at h in cc
      | inr other ↦
          let (e, bits, rest) = >>=-eq-some (int_from_bits q i tag_ty) _ (rw other at h) in
          rw other (bits ∙ ap (λ p. some p.1) (some_inj rest))
    ]

pub tag_of-documented :
    (q : RsTypes) (t : Tagging) (encoding : TagEncoding) (defs : List VariantDef) (i : ℕ)
    (def : VariantDef)
    → t.encoding ≡ encoding
    → AreIndices encoding defs
    → get_elem? defs i ≡ some def
    → tag_of q t i def.discr ≡ documented_tag q t.discriminant_ty t.tag_ty encoding i def.discr
unfolding tag_of niche_tag
tag_of-documented q t direct defs i def e indices at = rw (tag_of, e) refl
tag_of-documented q t (niche u first start) defs i def e indices at =
    rw (tag_of, e, indices i def at) refl

tagged_here-none :
    (o : Option (ℤ × ℤ)) (x : ℤ) → ((d : ℤ) → o ≡ some (x, d) → ⊥) → tagged_here o x ≡ none
tagged_here-none none x h = refl
tagged_here-none (some (y, d)) x h = elim (Bool-cases (y ==ℤ x)) [
  | inl e ↦ absurd (h d (ap (λ z. some (z, d)) (==ℤ-eq y x e)))
  | inr e ↦ rw e refl
]

pub shift : (k j : ℕ) → k + 1 + j ≡ k + suc j
shift k j = omega arith

pub k_zero : (k : ℕ) → k + 0 ≡ k
k_zero k = omega arith

module _ (q : RsTypes) (t : Tagging) (x : ℤ) where
  -- No variant from the index `k` on has the tag.
  pub find_tagged-none :
      (defs : List VariantDef) (k : ℕ)
      → ((j : ℕ) (def : VariantDef) (d : ℤ)
          → get_elem? defs j ≡ some def
          → tag_of q t (k + j) def.discr ≡ some (x, d)
          → ⊥)
      → find_tagged q t k defs x ≡ none
  unfolding find_tagged
  find_tagged-none [] k h = refl
  find_tagged-none (def ∷ defs) k h =
      let rest = find_tagged-none defs (k + 1) (λ j def' d at e.
        h (suc j) def' d at (subst (λ m. tag_of q t m def'.discr ≡ some (x, d)) (shift k j) e)) in
      rw
        (
          find_tagged,
          rest,
          tagged_here-none (tag_of q t k def.discr) x (λ d e.
              h 0 def d refl
                (subst (λ m. tag_of q t m def.discr ≡ some (x, d)) (sym (k_zero k)) e)),
        )
        refl

  -- One variant has the tag.
  pub find_tagged-one :
      (defs : List VariantDef) (k i : ℕ) (def : VariantDef) (d : ℤ)
      → get_elem? defs i ≡ some def
      → tag_of q t (k + i) def.discr ≡ some (x, d)
      → ((j : ℕ) (def' : VariantDef) (d' : ℤ)
          → get_elem? defs j ≡ some def'
          → tag_of q t (k + j) def'.discr ≡ some (x, d')
          → j ≡ i)
      → find_tagged q t k defs x ≡ some d
  unfolding find_tagged
  find_tagged-one [] k i def d at h one = cc
  find_tagged-one (def₀ ∷ defs) k zero def d at h one =
      let rest = find_tagged-none defs (k + 1) (λ j def' d' at' e.
        let wrong =
          one (suc j) def' d' at'
            (subst (λ m. tag_of q t m def'.discr ≡ some (x, d')) (shift k j) e) in
        absurd (omega arith)) in
      let here : tag_of q t k def₀.discr ≡ some (x, d) =
        subst (λ (v : VariantDef). tag_of q t k v.discr ≡ some (x, d)) (sym (some_inj at))
          (subst (λ m. tag_of q t m def.discr ≡ some (x, d)) (k_zero k) h) in
      rw (find_tagged, rest, here, ==ℤ-refl x) refl
  find_tagged-one (def₀ ∷ defs) k (suc i) def d at h one =
      let rest =
        find_tagged-one defs (k + 1) i def d at
          (subst (λ m. tag_of q t m def.discr ≡ some (x, d)) (sym (shift k i)) h)
          (λ j def' d' at' e.
            let same =
              one (suc j) def' d' at'
                (subst (λ m. tag_of q t m def'.discr ≡ some (x, d')) (shift k j) e) in
            omega arith) in
      rw (find_tagged, rest) refl
