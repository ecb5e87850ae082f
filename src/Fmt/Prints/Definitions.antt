-- ===== src/Fmt/Prints/Definitions.antt =====
-- ty.rs: the definitions of composite types, and the loop that prints them all.
use minirust.Prelude.{ℕ, ◌≡◌, refl, true, List, [], ◌∷◌, some}
use minirust.Prelude.Int.{ℤ}
use minirust.Lang.Types.{
  LayoutStrategy, IntType, Ty, Fields, no_fields, Tail, no_tail, tail, Variants, no_variants,
}
use minirust.Fmt.Text.{Text, ◌⧺◌, codes, fmt_nat, fmt_int}
use minirust.Fmt.Types.{
  CompTypes, to_string, fmt_int_type, fmt_layout_strategy, fmt_comptype_index, fmt_type,
}
use minirust.Fmt.CompTypes.{
  fmt_comptype_fields, fmt_comptype_chunks, fmt_tail, fmt_variants, keyword, fmt_comptype_body,
  fmt_comptype, parts, field_parts, tail_parts, variant_parts,
}
use minirust.Fmt.Meets.{met, All, Meets}
use minirust.Fmt.Prints.{Prints, Prints-some, Prints-bind, fmt_type-Meets}
use minirust.Fmt.Universe.{
  IsComposite, HasLayout, IsWithin, All-append, met-All, IsWithin-met, IsWithin-IsComposite,
  layout-HasLayout, root-IsWithin,
}
use minirust.Fmt.Brackets.{
  IsBalanced, scan, scan-append, append-IsBalanced, is_plain-IsBalanced, fmt_nat-IsBalanced,
  fmt_int-IsBalanced,
}
use minirust.Fmt.Brackets.Pieces.{
  fmt_type-IsBalanced, fmt_int_type-IsBalanced, fmt_layout_strategy-IsBalanced,
  fmt_comptype_index-IsBalanced,
}

field-IsBalanced :
    (n : ℕ) (s t : Text)
    → IsBalanced s
    → IsBalanced t
    → IsBalanced (codes "  at byte " ⧺ fmt_nat n ⧺ codes ": " ⧺ s ⧺ codes ",\n" ⧺ t)
unfolding IsBalanced scan
field-IsBalanced n s t h k stack = simp (scan-append, fmt_nat-IsBalanced, h, k)

fields-IsBalanced : (fs : Fields) (cs : CompTypes) → IsBalanced (fmt_comptype_fields fs cs).0
unfolding fmt_comptype_fields
fields-IsBalanced no_fields cs = is_plain-IsBalanced [] refl
fields-IsBalanced (Fields.field offset f fs) cs =
    field-IsBalanced offset (to_string (fmt_type f cs).0)
      (fmt_comptype_fields fs (fmt_type f cs).1).0 (fmt_type-IsBalanced f cs)
      (fields-IsBalanced fs (fmt_type f cs).1)

chunks-IsBalanced : (chunks : List (ℕ × ℕ)) → IsBalanced (fmt_comptype_chunks chunks)
unfolding fmt_comptype_chunks IsBalanced scan
chunks-IsBalanced [] stack = refl
chunks-IsBalanced ((offset, size) ∷ chunks) stack =
    simp (scan-append, fmt_nat-IsBalanced, chunks-IsBalanced chunks)

tail-IsBalanced : (rest : Tail) (cs : CompTypes) → IsBalanced (fmt_tail rest cs).0
unfolding fmt_tail IsBalanced scan
tail-IsBalanced no_tail cs stack = refl
tail-IsBalanced (tail ty) cs stack = simp (scan-append, fmt_type-IsBalanced ty cs)

variant-IsBalanced :
    (i : ℤ) (s t : Text)
    → IsBalanced s
    → IsBalanced t
    → IsBalanced (codes "  Variant " ⧺ fmt_int i ⧺ codes ": " ⧺ s ⧺ codes "\n" ⧺ t)
unfolding IsBalanced scan
variant-IsBalanced i s t h k stack = simp (scan-append, fmt_int-IsBalanced, h, k)

variants-IsBalanced : (vs : Variants) (cs : CompTypes) → IsBalanced (fmt_variants vs cs).0
unfolding fmt_variants
variants-IsBalanced no_variants cs = is_plain-IsBalanced [] refl
variants-IsBalanced (Variants.variant i ty _ vs) cs =
    variant-IsBalanced i (to_string (fmt_type ty cs).0) (fmt_variants vs (fmt_type ty cs).1).0
      (fmt_type-IsBalanced ty cs) (variants-IsBalanced vs (fmt_type ty cs).1)

discriminant-IsBalanced :
    (ity : IntType) (t : Text)
    → IsBalanced t
    → IsBalanced (codes "  Discriminant: " ⧺ fmt_int_type ity ⧺ codes "\n" ⧺ t)
unfolding IsBalanced scan
discriminant-IsBalanced ity t h stack = simp (scan-append, fmt_int_type-IsBalanced ity, h)

keyword-total : (t : Ty) → IsComposite t → (s : Text) × (keyword t ≡ some s) × IsBalanced s
unfolding keyword IsComposite
keyword-total (Ty.tuple _ _ _) c = (codes "tuple", refl, is_plain-IsBalanced (codes "tuple") refl)
keyword-total (Ty.union _ _ _ _) c = (codes "union", refl, is_plain-IsBalanced (codes "union") refl)
keyword-total (Ty.enum _ _ _ _ _) c = (codes "enum", refl, is_plain-IsBalanced (codes "enum") refl)
keyword-total (Ty.int _) c = absurd c
keyword-total (Ty.ptr _) c = absurd c
keyword-total Ty.bool c = absurd c
keyword-total (Ty.array _ _) c = absurd c
keyword-total (Ty.slice _) c = absurd c
keyword-total (Ty.trait_object _) c = absurd c

comptype-IsBalanced :
    (kind body : Text) (i : ℕ) (l : LayoutStrategy)
    → IsBalanced kind
    → IsBalanced body
    → IsBalanced (
        kind
        ⧺ codes " "
        ⧺ fmt_comptype_index i
        ⧺ codes " ("
        ⧺ fmt_layout_strategy l
        ⧺ codes ") {\n"
        ⧺ body
        ⧺ codes "}\n\n")
unfolding IsBalanced scan
comptype-IsBalanced kind body i l h k stack =
    simp (scan-append, fmt_comptype_index-IsBalanced i, fmt_layout_strategy-IsBalanced l, h, k)

-- The types that are met lie in a list `u`.
module _ (u : CompTypes) where
  abbrev In : Ty → Type 0
  In p = met u p ≡ true

  fields-Meets :
      (fs : Fields) (cs : CompTypes)
      → All In (field_parts fs)
      → Meets (IsWithin u) cs (fmt_comptype_fields fs cs).1
  unfolding fmt_comptype_fields field_parts All
  fields-Meets no_fields cs a = Meets.here
  fields-Meets (Fields.field _ f fs) cs a =
      let (b, c) = All-append In (parts f) (field_parts fs) a in
      Meets.next (fmt_type-Meets (IsWithin u) f cs (root-IsWithin u f b))
        (fields-Meets fs (fmt_type f cs).1 c)

  tail-Meets :
      (rest : Tail) (cs : CompTypes)
      → All In (tail_parts rest)
      → Meets (IsWithin u) cs (fmt_tail rest cs).1
  unfolding fmt_tail tail_parts All
  tail-Meets no_tail cs a = Meets.here
  tail-Meets (tail ty) cs a = fmt_type-Meets (IsWithin u) ty cs (root-IsWithin u ty a)

  variants-Meets :
      (vs : Variants) (cs : CompTypes)
      → All In (variant_parts vs)
      → Meets (IsWithin u) cs (fmt_variants vs cs).1
  unfolding fmt_variants variant_parts All
  variants-Meets no_variants cs a = Meets.here
  variants-Meets (Variants.variant _ ty _ vs) cs a =
      let (b, c) = All-append In (parts ty) (variant_parts vs) a in
      Meets.next (fmt_type-Meets (IsWithin u) ty cs (root-IsWithin u ty b))
        (variants-Meets vs (fmt_type ty cs).1 c)

  fmt_comptype_body-Prints :
      (t : Ty) (cs : CompTypes)
      → IsWithin u t
      → Prints (IsWithin u) IsBalanced cs (fmt_comptype_body t cs)
  unfolding fmt_comptype_body IsWithin IsComposite parts All
  fmt_comptype_body-Prints (Ty.tuple fs head rest) cs (_, (_, a)) =
      let (b, c) = All-append In (field_parts fs) (tail_parts rest) a in
      Prints-some (IsWithin u) _ cs _ _
        (Meets.next (fields-Meets fs cs b) (tail-Meets rest (fmt_comptype_fields fs cs).1 c))
        (append-IsBalanced _ _ (fields-IsBalanced fs cs)
          (tail-IsBalanced rest (fmt_comptype_fields fs cs).1))
  fmt_comptype_body-Prints (Ty.union fs chunks _ _) cs (_, (_, a)) =
      Prints-some (IsWithin u) _ cs _ _ (fields-Meets fs cs a)
        (append-IsBalanced _ _ (fields-IsBalanced fs cs) (chunks-IsBalanced chunks))
  fmt_comptype_body-Prints (Ty.enum vs ity _ _ _) cs (_, (_, a)) =
      Prints-some (IsWithin u) _ cs _ _ (variants-Meets vs cs a)
        (discriminant-IsBalanced ity _ (variants-IsBalanced vs cs))
  fmt_comptype_body-Prints (Ty.int _) cs h = absurd h.0
  fmt_comptype_body-Prints (Ty.ptr _) cs h = absurd h.0
  fmt_comptype_body-Prints Ty.bool cs h = absurd h.0
  fmt_comptype_body-Prints (Ty.array _ _) cs h = absurd h.0
  fmt_comptype_body-Prints (Ty.slice _) cs h = absurd h.0
  fmt_comptype_body-Prints (Ty.trait_object _) cs h = absurd h.0

  module _ (laid_out : All HasLayout u) where
    pub fmt_comptype-Prints :
        (i : ℕ) (t : Ty) (cs : CompTypes)
        → IsWithin u t
        → Prints (IsWithin u) IsBalanced cs (fmt_comptype i t cs)
    unfolding fmt_comptype
    fmt_comptype-Prints i t cs w =
        let (kind, named, k) = keyword-total t (IsWithin-IsComposite u t w) in
        let (l, laid) = layout-HasLayout t (met-All HasLayout u t (IsWithin-met u t w) laid_out) in
        rw (named, laid)
          (Prints-bind (IsWithin u) _ _ _ _ _ (fmt_comptype_body-Prints t cs w) λ body ds b.
            Prints-some (IsWithin u) _ ds ds _ Meets.here (comptype-IsBalanced kind body i l k b))
