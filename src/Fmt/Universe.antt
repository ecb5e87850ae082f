-- ===== src/Fmt/Universe.antt =====
-- ty.rs: the composite types that the printer can meet are among finitely many.
use minirust.Prelude.{
  suc, ◌≤◌, ◌≡◌, refl, sym, subst, true, false, List, [], ◌∷◌, ◌++◌, some, if◌then◌else◌, length,
  arith, Bool-cases, inl, inr,
}
use minirust.Lang.Types.{LayoutStrategy, Ty}
use minirust.Lang.Layout.{x86_64, layout}
use minirust.Fmt.Types.{CompTypes, same_ty}
use minirust.Fmt.CompTypes.{parts, all_parts}
use minirust.Fmt.Meets.{same_ty-eq, same_ty_refl, same_ty_comm, met, IsUnique, All}
use minirust.Fmt.Printable.{RootIs}

-- Tuples, unions and enums
unfoldable pub IsComposite : Ty → Type 0
IsComposite (Ty.tuple _ _ _) = Unit
IsComposite (Ty.union _ _ _ _) = Unit
IsComposite (Ty.enum _ _ _ _ _) = Unit
IsComposite _ = ⊥

-- The type has a layout for the target that the printer takes.
unfoldable pub HasLayout : Ty → Type 0
HasLayout t = (l : LayoutStrategy) × (layout x86_64 t ≡ some l)

-- All composite types in a type have layouts.
unfoldable pub HasLayouts : Ty → Type 0
HasLayouts t = All HasLayout (parts t)

-- A composite type, with its parts in `u`
unfoldable pub IsWithin : CompTypes → Ty → Type 0
IsWithin u t = IsComposite t × All (λ p. met u p ≡ true) (parts t)

pub IsWithin-IsComposite : (u : CompTypes) (t : Ty) → IsWithin u t → IsComposite t
unfolding IsWithin
IsWithin-IsComposite u t w = w.0

pub layout-HasLayout : (t : Ty) → HasLayout t → (l : LayoutStrategy) × (layout x86_64 t ≡ some l)
unfolding HasLayout
layout-HasLayout t h = h

remove : CompTypes → Ty → CompTypes
remove [] t = []
remove (x ∷ u) t = if same_ty x t then u else x ∷ remove u t

length-remove : (u : CompTypes) (t : Ty) → met u t ≡ true → suc (length (remove u t)) ≡ length u
unfolding remove met
length-remove [] t h = cc
length-remove (x ∷ u) t h = ground (arith, length-remove u t)

met-remove :
    (u : CompTypes) (t p : Ty) → same_ty t p ≡ false → met u p ≡ true → met (remove u t) p ≡ true
unfolding remove met
met-remove [] t p ne h = cc
met-remove (x ∷ u) t p ne h = elim (Bool-cases (same_ty x t)) [
  | inl e ↦
      rw (remove, e)
        (let k = same_ty-eq x t e in
          let ne' = subst (λ y. same_ty y p ≡ false) (sym k) ne in rw (met, ne') at h)
  | inr e ↦ rw (remove, e) (ground (arith, met-remove u t p ne))
]

members-remove :
    (u cs : CompTypes) (t : Ty)
    → met cs t ≡ false
    → All (λ p. met u p ≡ true) cs
    → All (λ p. met (remove u t) p ≡ true) cs
unfolding All met
members-remove u [] t new a = tt
members-remove u (x ∷ cs) t new (h, a) =
    (met-remove u t x (same_ty_comm x t (ground arith)) h, members-remove u cs t (ground arith) a)

-- Different types in a list are no more than it is long.
pub length-IsUnique :
    (u cs : CompTypes) → IsUnique cs → All (λ p. met u p ≡ true) cs → length cs ≤ length u
unfolding IsUnique All
length-IsUnique u [] unique a = omega arith
length-IsUnique u (t ∷ cs) (new, unique) (h, a) =
    let rest = length-IsUnique (remove u t) cs unique (members-remove u cs t new a) in
    let one = length-remove u t h in omega arith

module _ (P : Ty → Type 0) where
  pub All-append : (xs ys : List Ty) → All P (xs ++ ys) → All P xs × All P ys
  unfolding All
  All-append [] ys a = (tt, a)
  All-append (x ∷ xs) ys (p, a) = let (b, c) = All-append xs ys a in ((p, b), c)

  pub append-All : (xs ys : List Ty) → All P xs → All P ys → All P (xs ++ ys)
  unfolding All
  append-All [] ys a b = b
  append-All (x ∷ xs) ys (p, a) b = (p, append-All xs ys a b)

-- What holds of all types of a list holds of one that is met in it.
pub met-All : (P : Ty → Type 0) (u : CompTypes) (t : Ty) → met u t ≡ true → All P u → P t
unfolding met All
met-All P [] t h a = cc
met-All P (x ∷ u) t h (p, a) = elim (Bool-cases (same_ty x t)) [
  | inl e ↦ subst P (same_ty-eq x t e) p
  | inr e ↦ met-All P u t (ground arith) a
]

-- A composite type is one of its parts.
parts-self : (P : Ty → Type 0) (t : Ty) → IsComposite t → All P (parts t) → P t
unfolding IsComposite parts All
parts-self P (Ty.tuple _ _ _) c a = a.0
parts-self P (Ty.union _ _ _ _) c a = a.0
parts-self P (Ty.enum _ _ _ _ _) c a = a.0
parts-self P (Ty.int _) c a = absurd c
parts-self P (Ty.ptr _) c a = absurd c
parts-self P Ty.bool c a = absurd c
parts-self P (Ty.array _ _) c a = absurd c
parts-self P (Ty.slice _) c a = absurd c
parts-self P (Ty.trait_object _) c a = absurd c

pub IsWithin-met : (u : CompTypes) (t : Ty) → IsWithin u t → met u t ≡ true
unfolding IsWithin
IsWithin-met u t (c, a) = parts-self (λ p. met u p ≡ true) t c a

-- The composite type that is met in a type whose parts lie in `u`
pub root-IsWithin :
    (u : CompTypes) (t : Ty) → All (λ p. met u p ≡ true) (parts t) → RootIs (IsWithin u) t
unfolding RootIs IsWithin parts IsComposite
root-IsWithin u (Ty.tuple _ _ _) a = (tt, a)
root-IsWithin u (Ty.union _ _ _ _) a = (tt, a)
root-IsWithin u (Ty.enum _ _ _ _ _) a = (tt, a)
root-IsWithin u (Ty.array elem _) a = root-IsWithin u elem a
root-IsWithin u (Ty.slice elem) a = root-IsWithin u elem a
root-IsWithin u (Ty.int _) a = tt
root-IsWithin u (Ty.ptr _) a = tt
root-IsWithin u Ty.bool a = tt
root-IsWithin u (Ty.trait_object _) a = tt

met_append_left : (u v : CompTypes) (p : Ty) → met u p ≡ true → met (u ++ v) p ≡ true
unfolding met
met_append_left [] v p h = cc
met_append_left (x ∷ u) v p h = ground (arith, met_append_left u v p)

met_append_right : (u v : CompTypes) (p : Ty) → met v p ≡ true → met (u ++ v) p ≡ true
unfolding met
met_append_right [] v p h = h
met_append_right (x ∷ u) v p h = ground (arith, met_append_right u v p)

module _ (P Q : Ty → Type 0) (f : (t : Ty) → P t → Q t) where
  pub All-map : (xs : List Ty) → All P xs → All Q xs
  unfolding All
  All-map [] a = tt
  All-map (x ∷ xs) (p, a) = (f x p, All-map xs a)

All-met : (u : CompTypes) → All (λ p. met u p ≡ true) u
unfolding All met
All-met [] = tt
All-met (x ∷ u) = (
  rw (met, same_ty_refl x) refl,
  All-map _ _ (λ p h. met_append_right (x ∷ []) u p h) u (All-met u),
)

-- The types of a list lie within all their parts.
pub All-IsWithin : (cs : CompTypes) → All IsComposite cs → All (IsWithin (all_parts cs)) cs
unfolding all_parts All IsWithin
All-IsWithin [] a = tt
All-IsWithin (t ∷ cs) (c, a) = (
  (
    c,
    All-map _ _ (λ p h. met_append_left (parts t) (all_parts cs) p h) (parts t) (All-met (parts t)),
  ),
  All-map _ _
      (λ p h.
        (h.0, All-map _ _ (λ q k. met_append_right (parts t) (all_parts cs) q k) (parts p) h.1))
      cs (All-IsWithin cs a),
)

pub all_parts-All : (cs : CompTypes) → All HasLayouts cs → All HasLayout (all_parts cs)
unfolding all_parts All HasLayouts
all_parts-All [] a = tt
all_parts-All (t ∷ cs) (h, a) = append-All HasLayout (parts t) (all_parts cs) h (all_parts-All cs a)
