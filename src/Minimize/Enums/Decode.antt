-- ===== src/Minimize/Enums/Decode.antt =====
-- enums.rs: the discriminator of an enum finds the variants by their tags.
use minirust.Prelude.{
  ℕ, ◌+◌, ◌≡◌, refl, sym, subst, ◌⊎◌, ◌∙◌, ap, Bool, true, false, ◌&&◌, List, [], ◌∷◌, Option, none,
  some, some_inj, ◌>>=◌, >>=-eq-some, get_elem?, if◌then◌else◌, ◌==◌, arith, Bool-cases, inl, inr,
}
use minirust.Prelude.Int.{ℤ, pos, ◌+ℤ◌, ◌==ℤ◌}
use minirust.Lang.Types.{IntType, Ty, Discriminator, Children, no_children, child}
use minirust.Lang.Discriminants.{in_range, decode_children}
use minirust.Build.Types.{insert_child}
use minirust.Minimize.Program.{Ctxt}
use minirust.Minimize.Rust.{VariantDef, TagEncoding, direct, niche, RsTypes}
use minirust.Minimize.Enums.{
  int_from_bits, Translator, Tagging, Parts, add_tagged, add_untagged, niche_tag, add_variant,
  translate_variants, translate_adt_variant_fields,
}

pub unit_range : (t v : ℤ) → in_range t (t +ℤ pos 1) v ≡ (t ==ℤ v)
unfolding ◌+ℤ◌
unit_range t v = ground arith

pub ==ℤ-eq : (a b : ℤ) → (a ==ℤ b) ≡ true → a ≡ b
==ℤ-eq a b h = ground arith

pub ==ℤ-refl : (a : ℤ) → (a ==ℤ a) ≡ true
==ℤ-refl a = ground arith

-- All branches know a variant by one tag.
unfoldable pub KnowsTags : Children → Type 0
KnowsTags no_children = Unit
KnowsTags (child a b (Discriminator.known d) branches) = (b ≡ a +ℤ pos 1) × KnowsTags branches
KnowsTags (child _ _ _ _) = ⊥

-- The discriminant behind a tag
unfoldable pub tag_lookup : Children → ℤ → Option ℤ
tag_lookup no_children v = none
tag_lookup (child a b (Discriminator.known d) branches) v =
    if a ==ℤ v then some d else tag_lookup branches v
tag_lookup (child _ _ _ branches) v = tag_lookup branches v

abbrev pub or_else : Option ℤ → Option ℤ → Option ℤ
or_else (some d) other = some d
or_else none other = other

insert_child-KnowsTags :
    (t d : ℤ) (branches : Children)
    → KnowsTags branches
    → KnowsTags (insert_child t (t +ℤ pos 1) (Discriminator.known d) branches)
unfolding KnowsTags
insert_child-KnowsTags t d no_children k = (refl, tt)
insert_child-KnowsTags t d (child a b (Discriminator.known e) branches) (eq, k) =
    elim (Bool-cases (t ==ℤ a && (t +ℤ pos 1) ==ℤ b)) [
      | inl same ↦ rw same (refl, k)
      | inr other ↦ rw other (eq, insert_child-KnowsTags t d branches k)
    ]
insert_child-KnowsTags t d (child a b Discriminator.invalid branches) k = absurd k
insert_child-KnowsTags t d (child a b (Discriminator.branch _ _ _ _) branches) k = absurd k

if_again :
    (b : Bool) (x y z : Option ℤ) → (if b then x else z) ≡ (if b then x else if b then y else z)
if_again true x y z = refl
if_again false x y z = refl

if_comm :
    (b c : Bool) (x y z : Option ℤ)
    → (b ≡ true → c ≡ true → ⊥)
    → (if b then y else if c then x else z) ≡ (if c then x else if b then y else z)
if_comm true true x y z h = absurd (h refl refl)
if_comm true false x y z h = refl
if_comm false c x y z h = refl

ne : (a t v : ℤ) → (a ==ℤ v) ≡ true → (t ==ℤ v) ≡ true → (t ==ℤ a) ≡ false → ⊥
ne a t v p q other = (let e = ==ℤ-eq a v p in let f = ==ℤ-eq t v q in let r = ==ℤ-refl v in cc)

if_or_else :
    (b : Bool) (x fallback : Option ℤ) (d : ℤ)
    → (if b then some d else or_else x fallback) ≡ or_else (if b then some d else x) fallback
if_or_else true x fallback d = refl
if_or_else false x fallback d = refl

tag_lookup-insert_child :
    (t d v : ℤ) (branches : Children)
    → KnowsTags branches
    → tag_lookup (insert_child t (t +ℤ pos 1) (Discriminator.known d) branches) v
      ≡ (if t ==ℤ v then some d else tag_lookup branches v)
unfolding KnowsTags tag_lookup
tag_lookup-insert_child t d v no_children k = refl
tag_lookup-insert_child t d v (child a b (Discriminator.known e) branches) (eq, k) =
    elim (Bool-cases (t ==ℤ a)) [
      | inl same ↦
          let found : ((t ==ℤ a) && ((t +ℤ pos 1) ==ℤ b)) ≡ true =
            rw (eq, ==ℤ-eq t a same, ==ℤ-refl a, ==ℤ-refl (a +ℤ pos 1)) refl in
          rw (found, sym (==ℤ-eq t a same)) (if_again (t ==ℤ v) _ _ _)
      | inr other ↦
          rw (other, tag_lookup-insert_child t d v branches k)
            (if_comm (a ==ℤ v) (t ==ℤ v) _ _ _ (λ p q. ne a t v p q other))
    ]
tag_lookup-insert_child t d v (child a b Discriminator.invalid branches) k = absurd k
tag_lookup-insert_child t d v (child a b (Discriminator.branch _ _ _ _) branches) k = absurd k

pub decode_children-KnowsTags :
    (accessor : ℕ → IntType → Option ℤ) (v : ℤ) (branches : Children) (fallback : Option ℤ)
    → KnowsTags branches
    → decode_children accessor v branches fallback ≡ or_else (tag_lookup branches v) fallback
unfolding KnowsTags tag_lookup decode_children
decode_children-KnowsTags accessor v no_children fallback k = refl
decode_children-KnowsTags accessor v (child a b (Discriminator.known e) branches) fallback (eq, k) =
    rw (eq, unit_range a v, decode_children-KnowsTags accessor v branches fallback k)
      (if_or_else (a ==ℤ v) _ _ _)
decode_children-KnowsTags accessor v (child a b Discriminator.invalid branches) fallback k =
    absurd k
decode_children-KnowsTags accessor v (child a b (Discriminator.branch _ _ _ _) branches) fallback
      k =
    absurd k

if_or_else_none :
    (b : Bool) (x : Option ℤ) (d : ℤ)
    → (if b then some d else x) ≡ or_else (if b then some d else none) x
if_or_else_none true x d = refl
if_or_else_none false x d = refl

-- The tag of a variant, if it has one, and its discriminant
unfoldable pub tag_of : RsTypes → Tagging → ℕ → ℕ → Option (ℤ × ℤ)
tag_of q t variant_idx discr = elim t.encoding [
  | direct ↦ (do d ← int_from_bits q discr t.discriminant_ty; some (d, d))
  | niche untagged_variant niche_variants_start niche_start ↦
      if untagged_variant == variant_idx then none else (do
        d ← int_from_bits q discr t.tag_ty
        some (niche_tag q t.tag_ty d niche_variants_start niche_start, d))
]

-- What one variant does to the branches
abbrev pub tagged_here : Option (ℤ × ℤ) → ℤ → Option ℤ
tagged_here none v = none
tagged_here (some (tag, d)) v = if tag ==ℤ v then some d else none

-- The discriminant of the last variant that has the tag `v`, from the index `i` on
unfoldable pub find_tagged : RsTypes → Tagging → ℕ → List VariantDef → ℤ → Option ℤ
find_tagged q t i [] v = none
find_tagged q t i (variant ∷ variants) v =
    or_else (find_tagged q t (i + 1) variants v) (tagged_here (tag_of q t i variant.discr) v)

add_tagged-branches :
    (t : Tagging) (d tag v : ℤ) (fields : List (ℕ × Ty)) (parts : Parts)
    → KnowsTags parts.1
    → KnowsTags (add_tagged t d tag fields parts).1
      × (tag_lookup (add_tagged t d tag fields parts).1 v
          ≡ or_else (if tag ==ℤ v then some d else none) (tag_lookup parts.1 v))
unfolding add_tagged
add_tagged-branches t d tag v fields parts k = (
  insert_child-KnowsTags tag d parts.1 k,
  tag_lookup-insert_child tag d v parts.1 k ∙ if_or_else_none (tag ==ℤ v) (tag_lookup parts.1 v) d,
)

pub encoding-cases :
    (e : TagEncoding) → (e ≡ direct) ⊎ ((u : ℕ) × (start : ℕ) × (tag : ℕ) × (e ≡ niche u start tag))
encoding-cases direct = inl refl
encoding-cases (niche u start tag) = inr (u, start, tag, refl)

add_variant-branches :
    (q : RsTypes) (t : Tagging) (i discr : ℕ) (fields : List (ℕ × Ty)) (parts parts' : Parts)
    (v : ℤ)
    → add_variant q t i discr fields parts ≡ some parts'
    → KnowsTags parts.1
    → KnowsTags parts'.1
      × (tag_lookup parts'.1 v
          ≡ or_else (tagged_here (tag_of q t i discr) v) (tag_lookup parts.1 v))
unfolding add_variant tag_of add_untagged add_tagged
add_variant-branches q t i discr fields parts parts' v h k =
    let (d, bits, rest) = >>=-eq-some (int_from_bits q discr t.discriminant_ty) _ h in
    elim (encoding-cases t.encoding) [
      | inl e ↦
          subst
            (λ p.
              KnowsTags p.1
              × (tag_lookup p.1 v
                  ≡ or_else (tagged_here (tag_of q t i discr) v) (tag_lookup parts.1 v)))
            (some_inj (rw e at rest))
            (rw (tag_of, e, bits) (add_tagged-branches t d d v fields parts k))
      | inr (u, start, tag, e) ↦ elim (Bool-cases (u == i)) [
        | inl untagged ↦
            subst
              (λ p.
                KnowsTags p.1
                × (tag_lookup p.1 v
                    ≡ or_else (tagged_here (tag_of q t i discr) v) (tag_lookup parts.1 v)))
              (some_inj (rw (e, untagged) at rest)) (rw (tag_of, e, untagged) (k, refl))
        | inr tagged ↦
            let (d', bits', rest') =
              >>=-eq-some (int_from_bits q discr t.tag_ty) _ (rw (e, tagged) at rest) in
            subst
              (λ p.
                KnowsTags p.1
                × (tag_lookup p.1 v
                    ≡ or_else (tagged_here (tag_of q t i discr) v) (tag_lookup parts.1 v)))
              (some_inj rest')
              (rw (tag_of, e, tagged, bits')
                (add_tagged-branches t d' (niche_tag q t.tag_ty d' start tag) v fields parts k))
      ]
    ]

or_else_assoc : (a b c : Option ℤ) → or_else (or_else a b) c ≡ or_else a (or_else b c)
or_else_assoc none b c = refl
or_else_assoc (some d) b c = refl

pub translate_variants-branches :
    (q : RsTypes) (translate : Translator) (t : Tagging) (shapes : List (List ℕ)) (i : ℕ)
    (variants : List VariantDef) (parts parts' : Parts) (c c' : Ctxt) (v : ℤ)
    → translate_variants q translate t shapes i variants parts c ≡ some (parts', c')
    → KnowsTags parts.1
    → KnowsTags parts'.1
      × (tag_lookup parts'.1 v ≡ or_else (find_tagged q t i variants v) (tag_lookup parts.1 v))
unfolding translate_variants find_tagged
translate_variants-branches q translate t shapes i [] parts parts' c c' v h k =
    subst (λ p. KnowsTags p.0.1 × (tag_lookup p.0.1 v ≡ tag_lookup parts.1 v)) (some_inj h)
      (k, refl)
translate_variants-branches q translate t shapes i (variant ∷ variants) parts parts' c c' v h k =
    let (shape, _, h₁) = >>=-eq-some (get_elem? shapes i) _ h in
    let ((fields, c₁), _, h₂) =
      >>=-eq-some (translate_adt_variant_fields translate shape variant c) _ h₁ in
    let (parts₁, added, h₃) = >>=-eq-some (add_variant q t i variant.discr fields parts) _ h₂ in
    let (k₁, e₁) = add_variant-branches q t i variant.discr fields parts parts₁ v added k in
    let (k', e') =
      translate_variants-branches q translate t shapes (i + 1) variants parts₁ parts' c₁ c' v h₃
        k₁ in
    (
      k',
      e'
          ∙ (ap (or_else (find_tagged q t (i + 1) variants v)) e₁
              ∙ sym (
                  or_else_assoc (find_tagged q t (i + 1) variants v)
                    (tagged_here (tag_of q t i variant.discr) v) (tag_lookup parts.1 v))),
    )
