-- ===== src/Fmt/Meets.antt =====
-- ty.rs: how the list of composite types changes, one met type after the other.
use minirust.Prelude.{
  zero, suc, ℕ, ◌≡◌, refl, ap, subst, some_inj, Bool, true, false, ◌||◌, [], ◌∷◌, ◌++◌, none, some,
  length, get_elem?, arith, append_assoc, ◌∙◌, Bool-cases, inl, inr, Option-cases,
}
use minirust.Lang.Types.{Ty}
use minirust.Fmt.Types.{CompTypes, is_yes, Ty-discrete, same_ty, position, get_comptype_index}

is_yes-eq {ℓ} : {A : Type ℓ} (d : Dec A) → is_yes d ≡ true → A
is_yes-eq (yes a) h = a
is_yes-eq (no _) h = cc

is_yes-true {ℓ} : {A : Type ℓ} (d : Dec A) → A → is_yes d ≡ true
is_yes-true (yes _) a = refl
is_yes-true (no f) a = absurd (f a)

pub same_ty-eq : (x y : Ty) → same_ty x y ≡ true → x ≡ y
unfolding same_ty
same_ty-eq x y h = is_yes-eq (Ty-discrete x y) h

pub same_ty_refl : (x : Ty) → same_ty x x ≡ true
unfolding same_ty
same_ty_refl x = is_yes-true (Ty-discrete x x) refl

pub same_ty_comm : (x y : Ty) → same_ty x y ≡ false → same_ty y x ≡ false
same_ty_comm x y h = elim (Bool-cases (same_ty y x)) [
  | inr e ↦ e
  | inl e ↦ absurd (let k = same_ty-eq y x e in let r = same_ty_refl x in cc)
]

-- Whether a type is in a list.
unfoldable pub met : CompTypes → Ty → Bool
met [] t = false
met (x ∷ xs) t = same_ty x t || met xs t

-- No type stands twice in a list.
unfoldable pub IsUnique : CompTypes → Type 0
unfolding met
IsUnique [] = Unit
IsUnique (x ∷ xs) = (met xs x ≡ false) × IsUnique xs

pub position-none : (t : Ty) (cs : CompTypes) → position t cs ≡ none → met cs t ≡ false
unfolding position met
position-none t [] h = refl
position-none t (x ∷ xs) h = elim (Bool-cases (same_ty x t)) [
  | inl e ↦ (let k = rw e at h in cc)
  | inr e ↦ elim (Option-cases (position t xs)) [
    | inl n ↦ rw e (position-none t xs n)
    | inr (i, found) ↦ (let k = rw (e, found) at h in cc)
  ]
]

pub position-some :
    (t : Ty) (cs : CompTypes) (i : ℕ) → position t cs ≡ some i → get_elem? cs i ≡ some t
unfolding position
position-some t [] i h = cc
position-some t (x ∷ xs) i h = elim (Bool-cases (same_ty x t)) [
  | inl e ↦
      subst (λ j. get_elem? (x ∷ xs) j ≡ some t) (some_inj (rw e at h)) (ap some (same_ty-eq x t e))
  | inr e ↦ elim (Option-cases (position t xs)) [
    | inl n ↦ (let k = rw (e, n) at h in cc)
    | inr (j, found) ↦
        subst (λ j. get_elem? (x ∷ xs) j ≡ some t) (some_inj (rw (e, found) at h))
          (position-some t xs j found)
  ]
]

met-append : (cs ds : CompTypes) (t : Ty) → met (cs ++ ds) t ≡ (met cs t || met ds t)
unfolding met
met-append [] ds t = refl
met-append (x ∷ xs) ds t = ground (arith, met-append xs ds t)

append-IsUnique :
    (cs : CompTypes) (t : Ty) → met cs t ≡ false → IsUnique cs → IsUnique (cs ++ t ∷ [])
unfolding IsUnique
append-IsUnique [] t new u = (refl, tt)
append-IsUnique (x ∷ xs) t new (once, u) = (
  rw (met-append xs (t ∷ []) x, once) (ground (arith, same_ty_comm x t)),
  append-IsUnique xs t (ground arith) u,
)

get_elem?-last : (cs : CompTypes) (t : Ty) → get_elem? (cs ++ t ∷ []) (length cs) ≡ some t
get_elem?-last [] t = refl
get_elem?-last (x ∷ xs) t = get_elem?-last xs t

-- The printer meets types that are `P`.
pub data Meets (P : Ty → Type 0) : CompTypes → CompTypes → Type 0 where
  here : {cs : CompTypes} → Meets P cs cs
  next : {a b c : CompTypes} → Meets P a b → Meets P b c → Meets P a c
  meet : {cs : CompTypes} (t : Ty) → P t → Meets P cs (get_comptype_index t cs).1

pub get_comptype_index-IsUnique :
    (t : Ty) (cs : CompTypes) → IsUnique cs → IsUnique (get_comptype_index t cs).1
unfolding get_comptype_index
get_comptype_index-IsUnique t cs u = elim (Option-cases (position t cs)) [
  | inl n ↦ rw (get_comptype_index, n) (append-IsUnique cs t (position-none t cs n) u)
  | inr (i, found) ↦ rw (get_comptype_index, found) u
]

pub Meets-IsUnique :
    {P : Ty → Type 0} {cs ds : CompTypes} → Meets P cs ds → IsUnique cs → IsUnique ds
Meets-IsUnique Meets.here u = u
Meets-IsUnique (Meets.next m n) u = Meets-IsUnique n (Meets-IsUnique m u)
Meets-IsUnique (Meets.meet {cs = cs} t p) u = get_comptype_index-IsUnique t cs u

-- A list goes on as another.
unfoldable pub Extends : CompTypes → CompTypes → Type 0
Extends cs ds = (more : CompTypes) × (ds ≡ cs ++ more)

append_nil : (cs : CompTypes) → cs ≡ cs ++ []
append_nil [] = refl
append_nil (x ∷ xs) = ap (λ r. x ∷ r) (append_nil xs)

pub Meets-Extends : {P : Ty → Type 0} {cs ds : CompTypes} → Meets P cs ds → Extends cs ds
unfolding Extends get_comptype_index
Meets-Extends (Meets.here {cs = cs}) = ([], append_nil cs)
Meets-Extends (Meets.next {a = a} m n) =
    let (xs, e) = Meets-Extends m in
    let (ys, k) = Meets-Extends n in (xs ++ ys, k ∙ (ap (λ r. r ++ ys) e ∙ append_assoc a xs ys))
Meets-Extends (Meets.meet {cs = cs} t p) = elim (Option-cases (position t cs)) [
  | inl n ↦ (t ∷ [], rw (get_comptype_index, n) refl)
  | inr (i, found) ↦ ([], rw (get_comptype_index, found) (append_nil cs))
]

unfoldable pub All : (Ty → Type 0) → CompTypes → Type 0
All P [] = Unit
All P (x ∷ xs) = P x × All P xs

append-All : (P : Ty → Type 0) (cs : CompTypes) (t : Ty) → All P cs → P t → All P (cs ++ t ∷ [])
unfolding All
append-All P [] t a p = (p, tt)
append-All P (x ∷ xs) t (q, a) p = (q, append-All P xs t a p)

pub Meets-All : (P : Ty → Type 0) {cs ds : CompTypes} → Meets P cs ds → All P cs → All P ds
unfolding get_comptype_index
Meets-All P Meets.here a = a
Meets-All P (Meets.next m n) a = Meets-All P n (Meets-All P m a)
Meets-All P (Meets.meet {cs = cs} t p) a = elim (Option-cases (position t cs)) [
  | inl n ↦ rw (get_comptype_index, n) (append-All P cs t a p)
  | inr (i, found) ↦ rw (get_comptype_index, found) a
]

-- The index that is printed is the type's.
pub get_comptype_index-get :
    (t : Ty) (cs : CompTypes)
    → get_elem? (get_comptype_index t cs).1 (get_comptype_index t cs).0 ≡ some t
unfolding get_comptype_index
get_comptype_index-get t cs = elim (Option-cases (position t cs)) [
  | inl n ↦ rw (get_comptype_index, n) (get_elem?-last cs t)
  | inr (i, found) ↦ rw (get_comptype_index, found) (position-some t cs i found)
]

pub get_elem?-append :
    (cs ds : CompTypes) (i : ℕ) (t : Ty) → get_elem? cs i ≡ some t → get_elem? (cs ++ ds) i ≡ some t
get_elem?-append [] ds i t e = cc
get_elem?-append (x ∷ cs) ds zero t e = e
get_elem?-append (x ∷ cs) ds (suc i) t e = get_elem?-append cs ds i t e
