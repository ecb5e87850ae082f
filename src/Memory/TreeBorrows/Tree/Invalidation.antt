-- ===== src/Memory/TreeBorrows/Tree/Invalidation.antt =====
-- tree.md: writes, and later accesses through other nodes.
use minirust.Prelude.{
  ℕ, ◌≡◌, ◌≢◌, refl, Bool, true, false, List, [], ◌∷◌, Option, some, ==_iff, arith,
}
use minirust.Memory.Outcome.{ok}
use minirust.Memory.TreeBorrows.{
  Permission, LocationState, NodeRelation, AccessKind, location_transition,
}
use minirust.Memory.TreeBorrows.States.{foreign_write_disables, disabled_stays, disabled-child}
use minirust.Memory.TreeBorrows.Tree.{Node, access}
use minirust.Memory.TreeBorrows.Tree.Ranges.{act, touches}
use minirust.Memory.TreeBorrows.Tree.Locality.{state_at, relation_at, access-state}

-- Any number of successful accesses
pub data Accesses : Node → Node → Type 0 where
  done : {t : Node} → Accesses t t
  step :
      {t u v : Node} (path : Option (List ℕ)) (k : AccessKind) (o n : ℕ)
      → Accesses t u
      → access path k o n u ≡ ok v
      → Accesses t v

abbrev IsDisabledAt : List ℕ → ℕ → Node → Type 0
IsDisabledAt q l t =
    (s : Bool × LocationState) × (state_at q l t ≡ some s) × (s.1.permission ≡ Permission.disabled)

-- Whether the location is touched or not
act-disabled :
    (b : Bool) (k : AccessKind) (r : NodeRelation) (p : Bool) (s t : LocationState)
    → s.permission ≡ Permission.disabled
    → act b (location_transition k r p) s ≡ ok t
    → t.permission ≡ Permission.disabled
act-disabled true k r p s t e h = disabled_stays k r p s t e h
act-disabled false k r p s t e h = ground arith

Accesses-IsDisabledAt :
    {t u : Node} (q : List ℕ) (l : ℕ) → Accesses t u → IsDisabledAt q l t → IsDisabledAt q l u
Accesses-IsDisabledAt q l done d = d
Accesses-IsDisabledAt q l (step {u = u} {v = v} path k o n before h) d =
    let (s, found, e) = Accesses-IsDisabledAt q l before d in
    let (s', a, found') = access-state path k o n u v q l s h found in
    ((s.0, s'), found', act-disabled (touches o n l) k (relation_at path q) s.0 s.1 s' e a)

relation_at_self : (q : List ℕ) → relation_at (some q) q ≡ NodeRelation.child
relation_at_self [] = refl
relation_at_self (j ∷ q) = rw ((==_iff j j).1 refl) (relation_at_self q)

-- A successful write along one path takes location `l` away from each node that is not on this path
-- and whose permission there is not `ReservedIM`: after any further accesses, no access of the
-- location through that node succeeds.
pub write_invalidates :
    (path : Option (List ℕ)) (o n : ℕ) (t u v w : Node) (q : List ℕ) (l : ℕ)
    (s : Bool × LocationState) (k : AccessKind) (o' n' : ℕ)
    → access path AccessKind.write o n t ≡ ok u
    → touches o n l ≡ true
    → relation_at path q ≡ NodeRelation.foreign
    → state_at q l t ≡ some s
    → s.1.permission ≢ Permission.reserved_im
    → Accesses u v
    → touches o' n' l ≡ true
    → ¬ (access (some q) k o' n' v ≡ ok w)
write_invalidates path o n t u v w q l s k o' n' h reached foreign found ne later reached' h' =
    let (s₁, a, found₁) = access-state path AccessKind.write o n t u q l s h found in
    let disabled = foreign_write_disables s.0 s.1 s₁ ne (rw (reached, foreign) at a) in
    let (s₂, found₂, e) = Accesses-IsDisabledAt q l later ((s.0, s₁), found₁, disabled) in
    let (s₃, b, _) = access-state (some q) k o' n' v w q l s₂ h' found₂ in
    let refused = disabled-child k s₂.0 s₂.1 e in
    let succeeds = rw (reached', relation_at_self q) at b in cc
