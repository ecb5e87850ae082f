-- ===== src/Memory/TreeBorrows/Tree/Reads.antt =====
-- tree.md: the order of read accesses.
use minirust.Prelude.{ℕ, suc, ◌≡◌, refl, sym, ◌∙◌, ap, List, Option}
use minirust.Memory.Outcome.{ok, >>=-eq-ok, ok_inj}
use minirust.Memory.TreeBorrows.{
  LocationState, Protected, is_protected, NodeRelation, AccessKind, location_transition,
}
use minirust.Memory.TreeBorrows.States.{location_transition-reads}
use minirust.Memory.TreeBorrows.Tree.{
  Node, node, Nodes, no_nodes, first, node_transition, relation_of, sub_path, access,
  access_children,
}
use minirust.Memory.TreeBorrows.Tree.Ranges.{mutate_range_eq, update-commute}

node_transition-reads :
    (r q : NodeRelation) (o n o' n' : ℕ) (p : Protected) (xs ys zs : List LocationState)
    → node_transition r AccessKind.read o n p xs ≡ ok ys
    → node_transition q AccessKind.read o' n' p ys ≡ ok zs
    → (ws : List LocationState) × (node_transition q AccessKind.read o' n' p xs ≡ ok ws)
      × (node_transition r AccessKind.read o n p ws ≡ ok zs)
unfolding node_transition
node_transition-reads r q o n o' n' p xs ys zs h k =
    let f = location_transition AccessKind.read r (is_protected p) in
    let g = location_transition AccessKind.read q (is_protected p) in
    let (ws, a, b) =
      update-commute o n o' n' f g xs ys zs (location_transition-reads r q (is_protected p))
        (sym (mutate_range_eq n o f xs) ∙ h) (sym (mutate_range_eq n' o' g ys) ∙ k) in
    (ws, mutate_range_eq n' o' g xs ∙ a, mutate_range_eq n o f ws ∙ b)

module _ (o n o' n' : ℕ) where
  mutual
    unfolding access

    reads :
        (path path' : Option (List ℕ)) (t u v : Node)
        → access path AccessKind.read o n t ≡ ok u
        → access path' AccessKind.read o' n' u ≡ ok v
        → (w : Node) × (access path' AccessKind.read o' n' t ≡ ok w)
          × (access path AccessKind.read o n w ≡ ok v)
    reads path path' (node children states p) u v h k =
        let r = relation_of path in
        let q = relation_of path' in
        let (ys, e, h₁) = >>=-eq-ok (node_transition r AccessKind.read o n p states) _ h in
        let (cs, e₁, h₂) = >>=-eq-ok (access_children path 0 AccessKind.read o n children) _ h₁ in
        let k₀ = ap (access path' AccessKind.read o' n') (ok_inj h₂) ∙ k in
        let (zs, d, k₁) = >>=-eq-ok (node_transition q AccessKind.read o' n' p ys) _ k₀ in
        let (ds, d₁, k₂) = >>=-eq-ok (access_children path' 0 AccessKind.read o' n' cs) _ k₁ in
        let (ws, a, b) = node_transition-reads r q o n o' n' p states ys zs e d in
        let (es, a₁, b₁) = reads_children path path' 0 children cs ds e₁ d₁ in
        (node es ws p, rw (a, a₁) refl, rw (b, b₁) k₂)

    reads_children :
        (path path' : Option (List ℕ)) (i : ℕ) (ts us vs : Nodes)
        → access_children path i AccessKind.read o n ts ≡ ok us
        → access_children path' i AccessKind.read o' n' us ≡ ok vs
        → (ws : Nodes) × (access_children path' i AccessKind.read o' n' ts ≡ ok ws)
          × (access_children path i AccessKind.read o n ws ≡ ok vs)
    reads_children path path' i no_nodes us vs h k =
        (no_nodes, refl, ap (access_children path' i AccessKind.read o' n') (ok_inj h) ∙ k)
    reads_children path path' i (first t ts) us vs h k =
        let (t₁, e, h₁) = >>=-eq-ok (access (sub_path path i) AccessKind.read o n t) _ h in
        let (ts₁, e₁, h₂) = >>=-eq-ok (access_children path (suc i) AccessKind.read o n ts) _ h₁ in
        let k₀ = ap (access_children path' i AccessKind.read o' n') (ok_inj h₂) ∙ k in
        let (t₂, d, k₁) = >>=-eq-ok (access (sub_path path' i) AccessKind.read o' n' t₁) _ k₀ in
        let (ts₂, d₁, k₂) =
          >>=-eq-ok (access_children path' (suc i) AccessKind.read o' n' ts₁) _ k₁ in
        let (w, a, b) = reads (sub_path path i) (sub_path path' i) t t₁ t₂ e d in
        let (ws, a₁, b₁) = reads_children path path' (suc i) ts ts₁ ts₂ e₁ d₁ in
        (first w ws, rw (a, a₁) refl, rw (b, b₁) k₂)

-- Two reads of any places along any paths that succeed one after the other succeed in the other order
-- too, and leave the same tree.
pub access-reads :
    (o n o' n' : ℕ) (path path' : Option (List ℕ)) (t u v : Node)
    → access path AccessKind.read o n t ≡ ok u
    → access path' AccessKind.read o' n' u ≡ ok v
    → (w : Node) × (access path' AccessKind.read o' n' t ≡ ok w)
      × (access path AccessKind.read o n w ≡ ok v)
access-reads o n o' n' path path' t u v h k = reads o n o' n' path path' t u v h k
