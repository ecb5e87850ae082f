-- ===== src/Minimize/Enums/Tags.antt =====
-- enums.rs: the discriminator of an enum tells the tags of variants, other valid tags and invalid tags
-- apart.
use minirust.Prelude.{
  ℕ, ◌≡◌, refl, sym, ◌∙◌, Bool, true, false, not, ◌&&◌, ◌||◌, Option, none, some, if◌then◌else◌,
  arith, Bool-cases, inl, inr,
}
use minirust.Prelude.Int.{ℤ, pos, ◌+ℤ◌, ltb_ℤ, ◌==ℤ◌}
use minirust.Lang.Types.{IntType, Discriminator, Children, no_children, child}
use minirust.Lang.Discriminants.{in_range, decode_discriminant, decode_children}
use minirust.Build.Types.{insert_child}
use minirust.Minimize.Enums.{add_invalid, add_invalid_tags}
use minirust.Minimize.Enums.Decode.{
  KnowsTags, tag_lookup, or_else, unit_range, decode_children-KnowsTags,
}

-- Whether a branch is for a value.
abbrev pub covers : Children → ℤ → Bool
covers no_children v = false
covers (child a b _ branches) v = in_range a b v || covers branches v

same_range : (a b a' b' v : ℤ) → (a ==ℤ a' && b ==ℤ b') ≡ true → in_range a b v ≡ in_range a' b' v
same_range a b a' b' v h = ground arith

covers-insert_child :
    (a b v : ℤ) (d : Discriminator) (branches : Children)
    → covers (insert_child a b d branches) v ≡ (in_range a b v || covers branches v)
covers-insert_child a b v d no_children = refl
covers-insert_child a b v d (child a' b' d' branches) = elim (Bool-cases (a ==ℤ a' && b ==ℤ b')) [
  | inl same ↦
      rw (same, sym (same_range a b a' b' v same)) (or_again (in_range a b v) (covers branches v))
  | inr other ↦
      rw (other, covers-insert_child a b v d branches)
        (or_swap (in_range a' b' v) (in_range a b v) (covers branches v))
]
  where
    or_again : (x y : Bool) → (x || y) ≡ (x || (x || y))
    or_again true y = refl
    or_again false y = refl

    or_swap : (x y z : Bool) → (x || (y || z)) ≡ (y || (x || z))
    or_swap true true z = refl
    or_swap true false z = refl
    or_swap false y z = refl

module _ (accessor : ℕ → IntType → Option ℤ) (v : ℤ) (fallback : Option ℤ) where
  -- A range without the value makes no difference.
  decode-insert_other :
      (a b : ℤ) (branches : Children)
      → in_range a b v ≡ false
      → decode_children accessor v (insert_child a b Discriminator.invalid branches) fallback
        ≡ decode_children accessor v branches fallback
  unfolding decode_children
  decode-insert_other a b no_children out = rw out refl
  decode-insert_other a b (child a' b' d' branches) out = elim (Bool-cases (a ==ℤ a' && b ==ℤ b')) [
    | inl same ↦ rw (same, out, sym (same_range a b a' b' v same) ∙ out) refl
    | inr other ↦ rw (other, decode-insert_other a b branches out) refl
  ]

  -- A range of invalid values, of which no other branch is for this one
  decode-insert_invalid :
      (a b : ℤ) (branches : Children)
      → in_range a b v ≡ true
      → covers branches v ≡ false
      → decode_children accessor v (insert_child a b Discriminator.invalid branches) fallback ≡ none
  unfolding decode_children decode_discriminant
  decode-insert_invalid a b no_children inside free = rw inside refl
  decode-insert_invalid a b (child a' b' d' branches) inside free =
      elim (Bool-cases (a ==ℤ a' && b ==ℤ b')) [
        | inl same ↦ rw (same, inside) refl
        | inr other ↦
            rw (other, or_left (in_range a' b' v) _ free)
              (decode-insert_invalid a b branches inside (or_right (in_range a' b' v) _ free))
      ]
    where
      or_left : (x y : Bool) → (x || y) ≡ false → x ≡ false
      or_left true y h = cc
      or_left false y h = refl

      or_right : (x y : Bool) → (x || y) ≡ false → y ≡ false
      or_right true y h = cc
      or_right false y h = h

  decode-add_invalid :
      (flag : Bool) (a b : ℤ) (branches : Children)
      → (flag ≡ false → in_range a b v ≡ false)
      → (in_range a b v ≡ true → covers branches v ≡ false)
      → decode_children accessor v (add_invalid flag a b branches) fallback
        ≡ (if in_range a b v then none else decode_children accessor v branches fallback)
  decode-add_invalid true a b branches empty free = elim (Bool-cases (in_range a b v)) [
    | inl inside ↦ rw inside (decode-insert_invalid a b branches inside (free inside))
    | inr out ↦ rw out (decode-insert_other a b branches out)
  ]
  decode-add_invalid false a b branches empty free = rw (empty refl) refl

covers-add_invalid :
    (flag : Bool) (a b v : ℤ) (branches : Children)
    → covers branches v ≡ false
    → in_range a b v ≡ false
    → covers (add_invalid flag a b branches) v ≡ false
covers-add_invalid true a b v branches free out =
    rw (covers-insert_child a b v Discriminator.invalid branches, out, free) refl
covers-add_invalid false a b v branches free out = free

-- No branch is for a tag that is not found.
covers-KnowsTags :
    (v : ℤ) (branches : Children)
    → KnowsTags branches
    → tag_lookup branches v ≡ none
    → covers branches v ≡ false
unfolding KnowsTags tag_lookup
covers-KnowsTags v no_children k h = refl
covers-KnowsTags v (child a b (Discriminator.known e) branches) (eq, k) h =
    elim (Bool-cases (a ==ℤ v)) [
      | inl same ↦ absurd (let l = rw same at h in cc)
      | inr other ↦ rw (eq, unit_range a v, other) (covers-KnowsTags v branches k (rw other at h))
    ]
covers-KnowsTags v (child a b Discriminator.invalid branches) k h = absurd k
covers-KnowsTags v (child a b (Discriminator.branch _ _ _ _) branches) k h = absurd k

-- Whether a value is in a valid range, which may wrap around.
unfoldable pub is_valid : ℤ → ℤ → ℤ → Bool
is_valid start end v =
    if ltb_ℤ end start
    then not (ltb_ℤ end v) || not (ltb_ℤ v start)
    else not (ltb_ℤ v start) && not (ltb_ℤ end v)

module _ (start end v : ℤ) where
  wrap_range : ltb_ℤ end start ≡ true → in_range (end +ℤ pos 1) start v ≡ not (is_valid start end v)
  unfolding ◌+ℤ◌ is_valid
  wrap_range h = ground arith

  wrap_empty : ltb_ℤ (end +ℤ pos 1) start ≡ false → in_range (end +ℤ pos 1) start v ≡ false
  unfolding ◌+ℤ◌
  wrap_empty h = ground arith

  module _ (min max : ℤ) (low : ltb_ℤ v min ≡ false) (high : ltb_ℤ max v ≡ false) where
    above : in_range (end +ℤ pos 1) (max +ℤ pos 1) v ≡ ltb_ℤ end v
    unfolding ◌+ℤ◌
    above = ground arith

    below : in_range min start v ≡ ltb_ℤ v start
    below = ground arith

    above_empty : ltb_ℤ end max ≡ false → ltb_ℤ end v ≡ false
    above_empty h = ground arith

    below_empty : ltb_ℤ min start ≡ false → ltb_ℤ v start ≡ false
    below_empty h = ground arith

    straight_valid :
        ltb_ℤ end start ≡ false → is_valid start end v ≡ (not (ltb_ℤ v start) && not (ltb_ℤ end v))
    unfolding is_valid
    straight_valid h = rw h refl

    apart : ltb_ℤ end start ≡ false → ltb_ℤ v start ≡ true → ltb_ℤ end v ≡ false
    apart h k = ground arith

if_not :
    (b : Bool) (x : Option ℤ) (u : ℤ)
    → ((d : ℤ) → x ≡ some d → b ≡ true)
    → (if not b then none else or_else x (some u)) ≡ or_else x (if b then some u else none)
if_not true x u h = refl
if_not false none u h = refl
if_not false (some d) u h = absurd (let k = h d refl in cc)

if_two :
    (b c : Bool) (x : Option ℤ) (u : ℤ)
    → ((d : ℤ) → x ≡ some d → (not b && not c) ≡ true)
    → (if b then none else if c then none else or_else x (some u))
      ≡ or_else x (if not b && not c then some u else none)
if_two true c none u h = refl
if_two true c (some d) u h = absurd (let k = h d refl in cc)
if_two false true none u h = refl
if_two false true (some d) u h = absurd (let k = h d refl in cc)
if_two false false x u h = refl

not_found : (b : Bool) (x : Option ℤ) → ((d : ℤ) → x ≡ some d → b ≡ true) → b ≡ false → x ≡ none
not_found b none h e = refl
not_found b (some d) h e = absurd (let k = h d refl in cc)

not-true : {b : Bool} → not b ≡ true → b ≡ false
not-true {b = true} h = cc
not-true {b = false} h = refl

left_out : (b c : Bool) → b ≡ true → (not b && not c) ≡ false
left_out true c h = refl
left_out false c h = cc

right_out : (b c : Bool) → c ≡ true → (not b && not c) ≡ false
right_out true c h = refl
right_out false true h = refl
right_out false false h = cc

-- With the branches for invalid tags, a discriminator tells valid tags from invalid ones.
pub decode-add_invalid_tags :
    (accessor : ℕ → IntType → Option ℤ) (v u min max start end : ℤ) (branches : Children)
    → KnowsTags branches
    → ltb_ℤ v min ≡ false
    → ltb_ℤ max v ≡ false
    → ((d : ℤ) → tag_lookup branches v ≡ some d → is_valid start end v ≡ true)
    → decode_children accessor v (add_invalid_tags min max start end branches) (some u)
      ≡ or_else (tag_lookup branches v) (if is_valid start end v then some u else none)
unfolding add_invalid_tags
decode-add_invalid_tags accessor v u min max start end branches k low high tagged =
    let known = decode_children-KnowsTags accessor v branches (some u) k in
    elim (Bool-cases (ltb_ℤ end start)) [
      | inl wraps ↦
          rw
            (
              wraps,
              decode-add_invalid accessor v (some u) (ltb_ℤ (end +ℤ pos 1) start) (end +ℤ pos 1)
                  start branches (wrap_empty start end v)
                  (λ inside. covers-KnowsTags v branches k (
                    not_found (is_valid start end v) (tag_lookup branches v) tagged
                      (not-true (sym (wrap_range start end v wraps) ∙ inside)))),
              wrap_range start end v wraps,
              known,
            )
            (if_not (is_valid start end v) (tag_lookup branches v) u tagged)
      | inr straight ↦
          let valid = straight_valid start end v min max low high straight in
          let over = above start end v min max low high in
          let under = below start end v min max low high in
          let free = λ (e : (not (ltb_ℤ v start) && not (ltb_ℤ end v)) ≡ false).
            covers-KnowsTags v branches k
              (not_found (is_valid start end v) (tag_lookup branches v) tagged (valid ∙ e)) in
          rw
            (
              straight,
              decode-add_invalid accessor v (some u) (ltb_ℤ min start) min start
                  (add_invalid (ltb_ℤ end max) (end +ℤ pos 1) (max +ℤ pos 1) branches)
                  (λ e. under ∙ below_empty start end v min max low high e)
                  (λ inside.
                    covers-add_invalid (ltb_ℤ end max) (end +ℤ pos 1) (max +ℤ pos 1) v branches
                      (free (left_out (ltb_ℤ v start) (ltb_ℤ end v) (sym under ∙ inside)))
                      (over ∙ apart start end v min max low high straight (sym under ∙ inside))),
              decode-add_invalid accessor v (some u) (ltb_ℤ end max) (end +ℤ pos 1) (max +ℤ pos 1)
                  branches (λ e. over ∙ above_empty start end v min max low high e)
                  (λ inside. free (right_out (ltb_ℤ v start) (ltb_ℤ end v) (sym over ∙ inside))),
              under,
              over,
              known,
              valid,
            )
            (if_two (ltb_ℤ v start) (ltb_ℤ end v) (tag_lookup branches v) u
              (λ d e. sym valid ∙ tagged d e))
    ]
