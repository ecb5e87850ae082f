-- ===== src/Memory/TreeBorrows/Tree/Access.antt =====
-- tree.md: well-formed trees, and accesses of them.
use minirust.Prelude.{ℕ, suc, ◌+◌, ◌≤◌, ◌≡◌, refl, sym, ◌∙◌, subst, List, Option, length, arith}
use minirust.Memory.Outcome.{ok, >>=-eq-ok, ok_inj, NoPanic, NoPanic-bind}
use minirust.Memory.TreeBorrows.{
  LocationState, Protected, is_protected, NodeRelation, AccessKind, location_transition,
}
use minirust.Memory.TreeBorrows.States.{
  IsAllowed, location_transition-IsAllowed, location_transition-again,
}
use minirust.Memory.TreeBorrows.Tree.{
  Node, node, Nodes, no_nodes, first, node_transition, relation_of, sub_path, access,
  access_children,
}
use minirust.Memory.TreeBorrows.Tree.Ranges.{All, mutate_range_eq, update-again, update-All}

-- Each node has a state for each location, which is allowed under its protector.
unfoldable mutual
  pub IsWellFormed : ℕ → Node → Type 0
  IsWellFormed size (node children states protected) =
      (length states ≡ size)
      × All (IsAllowed (is_protected protected)) states
      × AllWellFormed size children

  pub AllWellFormed : ℕ → Nodes → Type 0
  AllWellFormed size no_nodes = Unit
  AllWellFormed size (first child children) = IsWellFormed size child × AllWellFormed size children

node_transition-NoPanic :
    (r : NodeRelation) (k : AccessKind) (o n : ℕ) (p : Protected) (states : List LocationState)
    → All (IsAllowed (is_protected p)) states
    → o + n ≤ length states
    → NoPanic
        (λ ys. All (IsAllowed (is_protected p)) ys × (length ys ≡ length states))
        (node_transition r k o n p states)
unfolding node_transition
node_transition-NoPanic r k o n p states all fits =
    rw (mutate_range_eq n o (location_transition k r (is_protected p)) states) (
      update-All (IsAllowed (is_protected p)) o n (location_transition k r (is_protected p)) states
        (location_transition-IsAllowed k r (is_protected p)) all fits)

mutual
  unfolding access IsWellFormed

  access-NoPanic :
      (path : Option (List ℕ)) (k : AccessKind) (o n size : ℕ) (t : Node)
      → o + n ≤ size
      → IsWellFormed size t
      → NoPanic (IsWellFormed size) (access path k o n t)
  access-NoPanic path k o n size (node children states p) fits (len, all, below) =
      NoPanic-bind _ _ (node_transition (relation_of path) k o n p states) _
        (node_transition-NoPanic (relation_of path) k o n p states all (omega arith))
        (λ states₁ (all₁, e).
          NoPanic-bind _ _ (access_children path 0 k o n children) _
            (access_children-NoPanic path 0 k o n size children fits below)
            (λ children₁ below₁. (e ∙ len, all₁, below₁)))

  access_children-NoPanic :
      (path : Option (List ℕ)) (i : ℕ) (k : AccessKind) (o n size : ℕ) (ts : Nodes)
      → o + n ≤ size
      → AllWellFormed size ts
      → NoPanic (AllWellFormed size) (access_children path i k o n ts)
  access_children-NoPanic path i k o n size no_nodes fits all = tt
  access_children-NoPanic path i k o n size (first t ts) fits (h, all) =
      NoPanic-bind _ _ (access (sub_path path i) k o n t) _
        (access-NoPanic (sub_path path i) k o n size t fits h)
        (λ t₁ h₁.
          NoPanic-bind _ _ (access_children path (suc i) k o n ts) _
            (access_children-NoPanic path (suc i) k o n size ts fits all) (λ ts₁ all₁. (h₁, all₁)))

-- An access within an allocation, along any path, of a tree that is well-formed does not panic, and
-- unless it is undefined behaviour the tree is well-formed after it.
pub access-IsWellFormed :
    (path : Option (List ℕ)) (k : AccessKind) (o n size : ℕ) (t : Node)
    → o + n ≤ size
    → IsWellFormed size t
    → NoPanic (IsWellFormed size) (access path k o n t)
access-IsWellFormed path k o n size t fits h = access-NoPanic path k o n size t fits h

node_transition-again :
    (r : NodeRelation) (k : AccessKind) (o n : ℕ) (p : Protected) (xs ys : List LocationState)
    → node_transition r k o n p xs ≡ ok ys
    → node_transition r k o n p ys ≡ ok ys
unfolding node_transition
node_transition-again r k o n p xs ys h =
    let f = location_transition k r (is_protected p) in
    mutate_range_eq n o f ys
    ∙ update-again o n f xs ys (location_transition-again k r (is_protected p))
        (sym (mutate_range_eq n o f xs) ∙ h)

mutual
  unfolding access

  again :
      (path : Option (List ℕ)) (k : AccessKind) (o n : ℕ) (t u : Node)
      → access path k o n t ≡ ok u
      → access path k o n u ≡ ok u
  again path k o n (node children states p) u h =
      let (states₁, e, h₁) = >>=-eq-ok (node_transition (relation_of path) k o n p states) _ h in
      let (children₁, e₁, h₂) = >>=-eq-ok (access_children path 0 k o n children) _ h₁ in
      let same = node_transition-again (relation_of path) k o n p states states₁ e in
      let below = again_children path 0 k o n children children₁ e₁ in
      subst (λ v. access path k o n v ≡ ok v) (ok_inj h₂) (rw (same, below) refl)

  again_children :
      (path : Option (List ℕ)) (i : ℕ) (k : AccessKind) (o n : ℕ) (ts us : Nodes)
      → access_children path i k o n ts ≡ ok us
      → access_children path i k o n us ≡ ok us
  again_children path i k o n no_nodes us h =
      subst (λ v. access_children path i k o n v ≡ ok v) (ok_inj h) refl
  again_children path i k o n (first t ts) us h =
      let (t₁, e, h₁) = >>=-eq-ok (access (sub_path path i) k o n t) _ h in
      let (ts₁, e₁, h₂) = >>=-eq-ok (access_children path (suc i) k o n ts) _ h₁ in
      let same = again (sub_path path i) k o n t t₁ e in
      let below = again_children path (suc i) k o n ts ts₁ e₁ in
      subst (λ v. access_children path i k o n v ≡ ok v) (ok_inj h₂) (rw (same, below) refl)

-- An access that has succeeded succeeds again at once, and then changes nothing.
pub access_again :
    (path : Option (List ℕ)) (k : AccessKind) (o n : ℕ) (t u : Node)
    → access path k o n t ≡ ok u
    → access path k o n u ≡ ok u
access_again path k o n t u h = again path k o n t u h
