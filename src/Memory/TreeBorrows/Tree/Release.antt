-- ===== src/Memory/TreeBorrows/Tree/Release.antt =====
-- tree.md: the end of a protector.
use minirust.Prelude.{
  ℕ, zero, suc, ◌+◌, ◌≤◌, ◌<◌, ◌≡◌, refl, ◌∙◌, ap, Bool, false, List, [], ◌∷◌, Option, length,
  arith, Bool-cases, inl, inr,
}
use minirust.Memory.Outcome.{Outcome, NoPanic, NoPanic-bind}
use minirust.Memory.TreeBorrows.{
  LocationState, is_protected, is_accessed, NodeRelation, location_transition,
}
use minirust.Memory.TreeBorrows.States.{IsAllowed, location_transition-IsAllowed}
use minirust.Memory.TreeBorrows.Tree.{
  Node, node, Nodes, no_nodes, first, mutate_at, relation_of, sub_path, is_here, release_kind,
  release_locations, release_protector, release_children,
}
use minirust.Memory.TreeBorrows.Tree.Ranges.{All}
use minirust.Memory.TreeBorrows.Tree.Access.{IsWellFormed, AllWellFormed}

-- The states, as many as before, are allowed.
abbrev AreAllowed : Bool → ℕ → List LocationState → Type 0
AreAllowed p size states = All (IsAllowed p) states × (length states ≡ size)

mutate_at-AreAllowed :
    (p : Bool) (f : LocationState → Outcome LocationState) (i size : ℕ)
    (states : List LocationState)
    → ((s : LocationState) → IsAllowed p s → NoPanic (IsAllowed p) (f s))
    → i < size
    → AreAllowed p size states
    → NoPanic (AreAllowed p size) (mutate_at states i f)
unfolding mutate_at
mutate_at-AreAllowed p f i size [] keep fits (all, len) = absurd (omega arith)
mutate_at-AreAllowed p f zero size (s ∷ states) keep fits ((good, all), len) =
    NoPanic-bind _ _ (f s) _ (keep s good) (λ s₁ good₁. ((good₁, all), len))
mutate_at-AreAllowed p f (suc i) size (s ∷ states) keep fits ((good, all), len) =
    NoPanic-bind _ _ (mutate_at states i f) _
      (mutate_at-AreAllowed p f i (length states) states keep (omega arith) (all, refl))
      (λ states₁ (all₁, len₁). ((good, all₁), ap suc len₁ ∙ len))

release_locations-AreAllowed :
    (r : NodeRelation) (p : Bool) (offset size : ℕ) (ls states : List LocationState)
    → offset + length ls ≤ size
    → AreAllowed p size states
    → NoPanic (AreAllowed p size) (release_locations r p offset ls states)
unfolding release_locations
release_locations-AreAllowed r p offset size [] states fits all = all
release_locations-AreAllowed r p offset size (l ∷ ls) states fits all =
    elim (Bool-cases (is_accessed l.accessed)) [
      | inl e ↦ rw e (
          NoPanic-bind _ _
            (mutate_at states offset (location_transition (release_kind l.permission) r p)) _
            (mutate_at-AreAllowed p (location_transition (release_kind l.permission) r p) offset
              size states (location_transition-IsAllowed (release_kind l.permission) r p)
              (omega arith) all)
            (λ states₁ all₁.
              release_locations-AreAllowed r p (suc offset) size ls states₁ (omega arith) all₁))
      | inr e ↦
          rw e (release_locations-AreAllowed r p (suc offset) size ls states (omega arith) all)
    ]

All-unprotected : (states : List LocationState) → All (IsAllowed false) states
All-unprotected [] = tt
All-unprotected (s ∷ states) = (refl, All-unprotected states)

mutual
  unfolding release_protector IsWellFormed

  release :
      (path : Option (List ℕ)) (ls : List LocationState) (size : ℕ) (t : Node)
      → length ls ≤ size
      → IsWellFormed size t
      → NoPanic (IsWellFormed size) (release_protector path ls t)
  release path ls size (node children states p) fits (len, all, below) =
      elim (Bool-cases (is_here path)) [
        | inl e ↦ rw e (len, All-unprotected states, below)
        | inr e ↦ rw e (
            NoPanic-bind _ _ (release_locations (relation_of path) (is_protected p) 0 ls states) _
              (release_locations-AreAllowed (relation_of path) (is_protected p) 0 size ls states
                (omega arith) (all, len))
              (λ states₁ (all₁, len₁).
                NoPanic-bind _ _ (release_children path 0 ls children) _
                  (release_all path 0 ls size children fits below)
                  (λ children₁ below₁. (len₁, all₁, below₁))))
      ]

  release_all :
      (path : Option (List ℕ)) (i : ℕ) (ls : List LocationState) (size : ℕ) (ts : Nodes)
      → length ls ≤ size
      → AllWellFormed size ts
      → NoPanic (AllWellFormed size) (release_children path i ls ts)
  release_all path i ls size no_nodes fits all = tt
  release_all path i ls size (first t ts) fits (h, all) =
      NoPanic-bind _ _ (release_protector (sub_path path i) ls t) _
        (release (sub_path path i) ls size t fits h)
        (λ t₁ h₁.
          NoPanic-bind _ _ (release_children path (suc i) ls ts) _
            (release_all path (suc i) ls size ts fits all) (λ ts₁ all₁. (h₁, all₁)))

-- The end of a protector does not panic on a well-formed tree, and unless it is undefined behaviour
-- the tree is well-formed after it, where the protected node has no more states than the allocation.
pub release_protector-IsWellFormed :
    (path : Option (List ℕ)) (ls : List LocationState) (size : ℕ) (t : Node)
    → length ls ≤ size
    → IsWellFormed size t
    → NoPanic (IsWellFormed size) (release_protector path ls t)
release_protector-IsWellFormed path ls size t fits h = release path ls size t fits h
