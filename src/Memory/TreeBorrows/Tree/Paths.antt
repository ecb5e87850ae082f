-- ===== src/Memory/TreeBorrows/Tree/Paths.antt =====
-- tree.md: nodes under their paths, added nodes, and strong protectors.
use minirust.Prelude.{
  ℕ, zero, suc, ◌≡◌, refl, sym, ◌∙◌, ap, subst, true, false, List, [], ◌∷◌, ◌++◌, ◌↔◌, arith,
  Bool-cases, inl, inr,
}
use minirust.Memory.Outcome.{ok, >>=-eq-ok, ok_inj}
use minirust.Memory.TreeBorrows.{LocationState, Protected}
use minirust.Memory.TreeBorrows.Tree.{
  Node, node, Nodes, no_nodes, first, is_leaf, access_node, access_child, count, push, push_child,
  add_node, get_node, contains_strong_protector, any_strong_protector,
}

-- The closure of `get_node`
abbrev itself : Node → Node × Node
itself n = (n, n)

access_child-push :
    (ts : Nodes) (c : Node) → access_child (count ts) [] itself (push ts c) ≡ ok (c, push ts c)
unfolding access_node
access_child-push no_nodes c = refl
access_child-push (first t ts) c = rw (access_child-push ts c) refl

is_leaf-push : (ts : Nodes) (c : Node) → is_leaf (push ts c) ≡ false
is_leaf-push no_nodes c = refl
is_leaf-push (first t ts) c = refl

-- The node under the path, with the index of the new one
abbrev Found : List ℕ → Node → ℕ × Node → Type 0
Found path c r = (v : Node) × (access_node (path ++ r.0 ∷ []) itself r.1 ≡ ok (c, v))

abbrev FoundChild : ℕ → List ℕ → Node → ℕ × Nodes → Type 0
FoundChild j path c r =
    (vs : Nodes) × (access_child j (path ++ r.0 ∷ []) itself r.1 ≡ ok (c, vs))
    × (is_leaf r.1 ≡ false)

mutual
  unfolding access_node

  added :
      (path : List ℕ) (c t : Node) (r : ℕ × Node)
      → access_node path (push_child c) t ≡ ok r
      → Found path c r
  added [] c (node ts states p) r h =
      subst (Found [] c) (ok_inj h)
        (node (push ts c) states p, rw (is_leaf-push ts c, access_child-push ts c) refl)
  added (j ∷ path) c (node ts states p) r h = elim (Bool-cases (is_leaf ts)) [
    | inl e ↦ absurd (let k = rw e at h in cc)
    | inr e ↦
        let (q, e₁, h₁) = >>=-eq-ok (access_child j path (push_child c) ts) _ (rw e at h) in
        let (vs, k, full) = added_child j path c ts q e₁ in
        subst (Found (j ∷ path) c) (ok_inj h₁) (node vs states p, rw (full, k) refl)
  ]

  added_child :
      (j : ℕ) (path : List ℕ) (c : Node) (ts : Nodes) (r : ℕ × Nodes)
      → access_child j path (push_child c) ts ≡ ok r
      → FoundChild j path c r
  added_child j path c no_nodes r h = cc
  added_child zero path c (first t ts) r h =
      let (q, e, h₁) = >>=-eq-ok (access_node path (push_child c) t) _ h in
      let (v, k) = added path c t q e in
      subst (FoundChild zero path c) (ok_inj h₁) (first v ts, rw k refl, refl)
  added_child (suc j) path c (first t ts) r h =
      let (q, e, h₁) = >>=-eq-ok (access_child j path (push_child c) ts) _ h in
      let (vs, k, full) = added_child j path c ts q e in
      subst (FoundChild (suc j) path c) (ok_inj h₁) (first t vs, rw k refl, refl)

-- The path that `add_node` returns leads to the added node.
pub get_node-add_node :
    (parent path : List ℕ) (child t u : Node)
    → add_node parent child t ≡ ok (path, u)
    → get_node path u ≡ ok child
unfolding add_node get_node
get_node-add_node parent path child t u h =
    let (r, e, h₁) = >>=-eq-ok (access_node parent (push_child child) t) _ h in
    let (v, k) = added parent child t r e in
    subst (λ (x : List ℕ × Node). get_node x.0 x.1 ≡ ok child) (ok_inj h₁) (rw k refl)

abbrev pub protected_of : Node → Protected
protected_of (node children states p) = p

-- A node with a strong protector under some path
abbrev Strong : Node → Type 0
Strong t =
    (path : List ℕ) × (n : Node) × (v : Node) × (access_node path itself t ≡ ok (n, v))
    × (protected_of n ≡ Protected.strong)

abbrev StrongChild : Nodes → Type 0
StrongChild ts =
    (j : ℕ) × (path : List ℕ) × (n : Node) × (vs : Nodes) × (access_child j path itself ts
      ≡ ok (n, vs))
    × (protected_of n ≡ Protected.strong)
    × (is_leaf ts ≡ false)

mutual
  unfolding access_node contains_strong_protector

  Strong-path : (t : Node) → contains_strong_protector t ≡ true → Strong t
  Strong-path (node ts states Protected.strong) h =
      ([], node ts states Protected.strong, node ts states Protected.strong, refl, refl)
  Strong-path (node ts states Protected.weak) h =
      let (j, path, n, vs, k, e, full) = StrongChild-path ts h in
      (j ∷ path, n, node vs states Protected.weak, rw (full, k) refl, e)
  Strong-path (node ts states Protected.no) h =
      let (j, path, n, vs, k, e, full) = StrongChild-path ts h in
      (j ∷ path, n, node vs states Protected.no, rw (full, k) refl, e)

  StrongChild-path : (ts : Nodes) → any_strong_protector ts ≡ true → StrongChild ts
  StrongChild-path no_nodes h = cc
  StrongChild-path (first t ts) h = elim (Bool-cases (contains_strong_protector t)) [
    | inl e ↦
        let (path, n, v, k, strong) = Strong-path t e in
        (zero, path, n, first v ts, rw k refl, strong, refl)
    | inr e ↦
        let (j, path, n, vs, k, strong, full) = StrongChild-path ts (rw e at h) in
        (suc j, path, n, first t vs, rw k refl, strong, refl)
  ]

here :
    (ts : Nodes) (states : List LocationState) (p : Protected)
    → p ≡ Protected.strong
    → contains_strong_protector (node ts states p) ≡ true
unfolding contains_strong_protector
here ts states Protected.strong e = refl
here ts states Protected.weak e = cc
here ts states Protected.no e = cc

below :
    (ts : Nodes) (states : List LocationState) (p : Protected)
    → any_strong_protector ts ≡ true
    → contains_strong_protector (node ts states p) ≡ true
unfolding contains_strong_protector
below ts states Protected.strong e = refl
below ts states Protected.weak e = e
below ts states Protected.no e = e

mutual
  unfolding access_node contains_strong_protector

  strong_found :
      (path : List ℕ) (t : Node) (r : Node × Node)
      → access_node path itself t ≡ ok r
      → protected_of r.0 ≡ Protected.strong
      → contains_strong_protector t ≡ true
  strong_found [] (node ts states p) r h e =
      here ts states p
        (subst (λ (x : Node × Node). protected_of x.0 ≡ Protected.strong) (sym (ok_inj h)) e)
  strong_found (j ∷ path) (node ts states p) r h e = elim (Bool-cases (is_leaf ts)) [
    | inl leaf ↦ absurd (let k = rw leaf at h in cc)
    | inr full ↦
        let (q, e₁, h₁) = >>=-eq-ok (access_child j path itself ts) _ (rw full at h) in
        below ts states p (
          strong_found_child j path ts q e₁
            (subst (λ (x : Node × Node). protected_of x.0 ≡ Protected.strong) (sym (ok_inj h₁)) e))
  ]

  strong_found_child :
      (j : ℕ) (path : List ℕ) (ts : Nodes) (r : Node × Nodes)
      → access_child j path itself ts ≡ ok r
      → protected_of r.0 ≡ Protected.strong
      → any_strong_protector ts ≡ true
  strong_found_child j path no_nodes r h e = cc
  strong_found_child zero path (first t ts) r h e =
      let (q, e₁, h₁) = >>=-eq-ok (access_node path itself t) _ h in
      let k =
        strong_found path t q e₁
          (subst (λ (x : Node × Nodes). protected_of x.0 ≡ Protected.strong) (sym (ok_inj h₁)) e) in
      rw k refl
  strong_found_child (suc j) path (first t ts) r h e =
      let (q, e₁, h₁) = >>=-eq-ok (access_child j path itself ts) _ h in
      let k =
        strong_found_child j path ts q e₁
          (subst (λ (x : Node × Nodes). protected_of x.0 ≡ Protected.strong) (sym (ok_inj h₁)) e) in
      ground arith

-- `contains_strong_protector` answers yes exactly if a path leads to a strongly protected node.
pub contains_strong_protector_iff :
    (t : Node)
    → (contains_strong_protector t ≡ true) ↔ (
        (path : List ℕ) × (n : Node) × (get_node path t ≡ ok n)
        × (protected_of n ≡ Protected.strong))
unfolding get_node
contains_strong_protector_iff t = (
  λ h. let (path, n, v, k, e) = Strong-path t h in (path, n, rw k refl, e),
  λ (path, n, h, e).
      let (r, e₁, h₁) = >>=-eq-ok (access_node path itself t) _ h in
      strong_found path t r e₁ (ap protected_of (ok_inj h₁) ∙ e),
)
