-- ===== src/Fmt/Prints/Loop.antt =====
-- ty.rs: the loop that prints composite types until no new one is met.
use minirust.Prelude.{
  ℕ, zero, suc, ◌+◌, ◌<◌, ◌≤◌, ◌≡◌, refl, List, [], ◌∷◌, some, length, get_elem?, arith,
  Option-cases, inl, inr, length-append, some_inj, subst,
}
use minirust.Lang.Types.{Ty}
use minirust.Fmt.Text.{Text, ◌⧺◌}
use minirust.Fmt.Types.{CompTypes}
use minirust.Fmt.CompTypes.{fmt_comptypes_from, fmt_comptypes, all_parts}
use minirust.Fmt.Meets.{IsUnique, All, Meets, Meets-IsUnique, Meets-All, Meets-Extends, Extends}
use minirust.Fmt.Prints.{Prints}
use minirust.Fmt.Prints.Definitions.{fmt_comptype-Prints}
use minirust.Fmt.Universe.{
  IsComposite, HasLayout, HasLayouts, IsWithin, length-IsUnique, IsWithin-met, All-map,
  All-IsWithin, all_parts-All,
}
use minirust.Fmt.Brackets.{IsBalanced, append-IsBalanced, is_plain-IsBalanced}

get_elem?-All :
    (P : Ty → Type 0) (cs : CompTypes) (i : ℕ) (t : Ty) → get_elem? cs i ≡ some t → All P cs → P t
unfolding All
get_elem?-All P [] i t e a = cc
get_elem?-All P (x ∷ cs) zero t e (p, a) = subst P (some_inj e) p
get_elem?-All P (x ∷ cs) (suc i) t e (p, a) = get_elem?-All P cs i t e a

get_elem?_lt : {A : Type 0} (cs : List A) (i : ℕ) (t : A) → get_elem? cs i ≡ some t → i < length cs
get_elem?_lt [] i t e = cc
get_elem?_lt (x ∷ cs) zero t e = omega arith
get_elem?_lt (x ∷ cs) (suc i) t e = let k = get_elem?_lt cs i t e in omega arith

length-Meets : {P : Ty → Type 0} {cs ds : CompTypes} → Meets P cs ds → length cs ≤ length ds
unfolding Extends
length-Meets {cs = cs} m =
    let (more, e) = Meets-Extends m in let k = length-append cs more in rw e (omega arith)

module _ (u : CompTypes) (laid_out : All HasLayout u) where
  length_bound : (cs : CompTypes) → IsUnique cs → All (IsWithin u) cs → length cs ≤ length u
  length_bound cs unique a = length-IsUnique u cs unique (All-map _ _ (IsWithin-met u) cs a)

  -- A round for each type of `u` that is not yet printed, and one to see the end, are enough.
  pub fmt_comptypes_from-Prints :
      (fuel i : ℕ) (cs : CompTypes)
      → IsUnique cs
      → All (IsWithin u) cs
      → i ≤ length cs
      → length u < fuel + i
      → Prints (IsWithin u) IsBalanced cs (fmt_comptypes_from fuel i cs)
  unfolding fmt_comptypes_from Prints
  fmt_comptypes_from-Prints zero i cs unique a le enough =
      absurd (let k = length_bound cs unique a in omega arith)
  fmt_comptypes_from-Prints (suc fuel) i cs unique a le enough =
      elim (Option-cases (get_elem? cs i)) [
        | inl e ↦ ([], cs, rw (fmt_comptypes_from, e) refl, Meets.here, is_plain-IsBalanced [] refl)
        | inr (c, e) ↦
            let (s, ds, printed, m, b) =
              fmt_comptype-Prints u laid_out i c cs (get_elem?-All (IsWithin u) cs i c e a) in
            let more = length-Meets m in
            let lt = get_elem?_lt cs i c e in
            let (rest, es, looped, n, d) =
              fmt_comptypes_from-Prints fuel (suc i) ds (Meets-IsUnique m unique)
                (Meets-All (IsWithin u) m a) (omega arith) (omega arith) in
            (
              s ⧺ rest,
              es,
              rw (fmt_comptypes_from, e, printed, looped) refl,
              Meets.next m n,
              append-IsBalanced s rest b d,
            )
      ]

-- From a list of different composite types that have layouts, as have the composite types in them,
-- the loop of fmt_comptypes ends and prints a text that closes the brackets that it opens.
pub fmt_comptypes-total :
    (cs : CompTypes)
    → IsUnique cs
    → All IsComposite cs
    → All HasLayouts cs
    → (s : Text) × (fmt_comptypes cs ≡ some s) × IsBalanced s
unfolding fmt_comptypes Prints
fmt_comptypes-total cs unique composite laid_out =
    let (s, ds, e, m, b) =
      fmt_comptypes_from-Prints (all_parts cs) (all_parts-All cs laid_out)
        (suc (length (all_parts cs))) 0 cs unique (All-IsWithin cs composite) (omega arith)
        (omega arith) in
    (s, rw e refl, b)
