-- ===== src/Memory/TreeBorrows/Tree/Locality.antt =====
-- tree.md: what an access does to one location of one node.
use minirust.Prelude.{
  ℕ, zero, suc, ◌+◌, ◌==◌, ◌&&◌, true, false, if◌then◌else◌, ◌≡◌, refl, sym, ◌∙◌, subst, Bool, List,
  [], ◌∷◌, Option, none, some, some_inj, get_elem?, arith, Option-cases, inl, inr,
}
use minirust.Memory.Outcome.{ok, >>=-eq-ok, ok_inj}
use minirust.Memory.TreeBorrows.{
  LocationState, Protected, is_protected, NodeRelation, AccessKind, location_transition,
}
use minirust.Memory.TreeBorrows.Tree.{
  Node, node, Nodes, no_nodes, first, node_transition, relation_of, sub_path, access,
  access_children,
}
use minirust.Memory.TreeBorrows.Tree.Ranges.{mutate_range_eq, act, touches, get_elem?-update}

abbrev with_protected : Bool → Option LocationState → Option (Bool × LocationState)
with_protected p none = none
with_protected p (some s) = some (p, s)

-- The state of location `l` of the node under a path, and whether the node is protected
unfoldable mutual
  pub state_at : List ℕ → ℕ → Node → Option (Bool × LocationState)
  state_at [] l (node ts states p) = with_protected (is_protected p) (get_elem? states l)
  state_at (j ∷ q) l (node ts states p) = child_state_at j q l ts

  pub child_state_at : ℕ → List ℕ → ℕ → Nodes → Option (Bool × LocationState)
  child_state_at j q l no_nodes = none
  child_state_at zero q l (first t ts) = state_at q l t
  child_state_at (suc j) q l (first t ts) = child_state_at j q l ts

-- Whether a path is a prefix of another.
abbrev pub is_prefix : List ℕ → List ℕ → Bool
is_prefix [] p = true
is_prefix (j ∷ q) [] = false
is_prefix (j ∷ q) (i ∷ p) = j == i && is_prefix q p

-- How an access along a path, or along none, relates to the node under another: it is a child access
-- if the other is a prefix of the path.
abbrev pub relation_at : Option (List ℕ) → List ℕ → NodeRelation
relation_at none q = NodeRelation.foreign
relation_at (some p) q = if is_prefix q p then NodeRelation.child else NodeRelation.foreign

-- The relation that an access has found when it comes to a node
abbrev walked : Option (List ℕ) → List ℕ → NodeRelation
walked path [] = relation_of path
walked path (j ∷ q) = walked (sub_path path j) q

walked-relation_at : (path : Option (List ℕ)) (q : List ℕ) → walked path q ≡ relation_at path q
walked-relation_at none [] = refl
walked-relation_at (some p) [] = refl
walked-relation_at none (j ∷ q) = walked-relation_at none q
walked-relation_at (some []) (j ∷ q) = walked-relation_at none q
walked-relation_at (some (i ∷ p)) (j ∷ q) =
    ground (arith, walked-relation_at (some p) q, walked-relation_at none q)

-- What an access with a relation to a node makes of a state of it, and that it is found there
abbrev pub Follows :
    NodeRelation
    → AccessKind
    → ℕ
    → ℕ
    → ℕ
    → Bool × LocationState
    → Option (Bool × LocationState)
    → Type 0
Follows relation k o n l s after =
    (s' : LocationState) × (act (touches o n l) (location_transition k relation s.0) s.1 ≡ ok s')
    × (after ≡ some (s.0, s'))

node_transition-state :
    (path : Option (List ℕ)) (k : AccessKind) (o n : ℕ) (p : Protected) (xs ys : List LocationState)
    (l : ℕ) (s : Bool × LocationState)
    → node_transition (relation_of path) k o n p xs ≡ ok ys
    → with_protected (is_protected p) (get_elem? xs l) ≡ some s
    → Follows (relation_of path) k o n l s (with_protected (is_protected p) (get_elem? ys l))
unfolding node_transition state_at
node_transition-state path k o n p xs ys l s h e =
    let f = location_transition k (relation_of path) (is_protected p) in
    elim (Option-cases (get_elem? xs l)) [
      | inl new ↦ absurd (let c = rw new at e in cc)
      | inr (x, found) ↦
          let (y, a, b) =
            get_elem?-update o n f xs ys l x (sym (mutate_range_eq n o f xs) ∙ h) found in
          subst
            (λ r.
              Follows (relation_of path) k o n l r
                (with_protected (is_protected p) (get_elem? ys l)))
            (some_inj (rw found at e)) (y, a, rw b refl)
    ]

mutual
  unfolding access state_at

  state :
      (path : Option (List ℕ)) (k : AccessKind) (o n : ℕ) (t u : Node) (q : List ℕ) (l : ℕ)
      (s : Bool × LocationState)
      → access path k o n t ≡ ok u
      → state_at q l t ≡ some s
      → Follows (walked path q) k o n l s (state_at q l u)
  state path k o n (node ts states p) u [] l s h e =
      let (ys, e₁, h₁) = >>=-eq-ok (node_transition (relation_of path) k o n p states) _ h in
      let (us, _, h₂) = >>=-eq-ok (access_children path 0 k o n ts) _ h₁ in
      subst (λ v. Follows (relation_of path) k o n l s (state_at [] l v)) (ok_inj h₂)
        (node_transition-state path k o n p states ys l s e₁ e)
  state path k o n (node ts states p) u (j ∷ q) l s h e =
      let (ys, _, h₁) = >>=-eq-ok (node_transition (relation_of path) k o n p states) _ h in
      let (us, e₁, h₂) = >>=-eq-ok (access_children path 0 k o n ts) _ h₁ in
      subst (λ v. Follows (walked path (j ∷ q)) k o n l s (state_at (j ∷ q) l v)) (ok_inj h₂)
        (subst (λ m. Follows (walked (sub_path path m) q) k o n l s (child_state_at j q l us))
          (omega arith) (child_state path 0 k o n ts us j q l s e₁ e))

  child_state :
      (path : Option (List ℕ)) (i : ℕ) (k : AccessKind) (o n : ℕ) (ts us : Nodes) (j : ℕ)
      (q : List ℕ) (l : ℕ) (s : Bool × LocationState)
      → access_children path i k o n ts ≡ ok us
      → child_state_at j q l ts ≡ some s
      → Follows (walked (sub_path path (i + j)) q) k o n l s (child_state_at j q l us)
  child_state path i k o n no_nodes us j q l s h e = cc
  child_state path i k o n (first t ts) us zero q l s h e =
      let (t₁, e₁, h₁) = >>=-eq-ok (access (sub_path path i) k o n t) _ h in
      let (ts₁, _, h₂) = >>=-eq-ok (access_children path (suc i) k o n ts) _ h₁ in
      let same : i ≡ i + 0 = omega arith in
      subst (λ v. Follows (walked (sub_path path (i + 0)) q) k o n l s (child_state_at zero q l v))
        (ok_inj h₂)
        (subst (λ m. Follows (walked (sub_path path m) q) k o n l s (state_at q l t₁)) same
          (state (sub_path path i) k o n t t₁ q l s e₁ e))
  child_state path i k o n (first t ts) us (suc j) q l s h e =
      let (t₁, _, h₁) = >>=-eq-ok (access (sub_path path i) k o n t) _ h in
      let (ts₁, e₁, h₂) = >>=-eq-ok (access_children path (suc i) k o n ts) _ h₁ in
      let same : suc i + j ≡ i + suc j = omega arith in
      subst
        (λ v.
          Follows (walked (sub_path path (i + suc j)) q) k o n l s (child_state_at (suc j) q l v))
        (ok_inj h₂)
        (subst (λ m. Follows (walked (sub_path path m) q) k o n l s (child_state_at j q l ts₁)) same
          (child_state path (suc i) k o n ts ts₁ j q l s e₁ e))

-- A successful access takes each location of each node by the state machine, if the location lies in
-- the range of the access, and else leaves it: as a child access exactly if the path of the node is
-- a prefix of the path of the access.
pub access-state :
    (path : Option (List ℕ)) (k : AccessKind) (o n : ℕ) (t u : Node) (q : List ℕ) (l : ℕ)
    (s : Bool × LocationState)
    → access path k o n t ≡ ok u
    → state_at q l t ≡ some s
    → Follows (relation_at path q) k o n l s (state_at q l u)
access-state path k o n t u q l s h e =
    subst (λ r. Follows r k o n l s (state_at q l u)) (walked-relation_at path q)
      (state path k o n t u q l s h e)
