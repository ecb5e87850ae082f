-- ===== src/Memory/TreeBorrows/Tree.antt =====
-- spec/mem/tree_borrows/tree.md: the tree of an allocation, and what accesses do to it.
-- A path is a list of indices of children, from the root on.
pub mod Ranges
pub mod Access
pub mod Reads
pub mod Release
pub mod Paths
pub mod Locality
pub mod Invalidation
mod Tests
use minirust.Prelude.{
  ℕ, zero, suc, ◌+◌, Bool, true, false, ◌||◌, List, [], ◌∷◌, ◌++◌, Option, none, some, length,
  if◌then◌else◌, ◌==◌,
}
use minirust.Memory.Outcome.{Outcome, ok, ub, panics, ◌>>=◌}
use minirust.Memory.TreeBorrows.{
  Permission, Accessed, LocationState, Protected, is_protected, is_accessed, NodeRelation,
  AccessKind, location_transition,
}

mutual
  pub data Node : Type 0 where
    node : Nodes → List LocationState → Protected → Node

  -- `List<Node>`
  pub data Nodes : Type 0 where
    no_nodes : Nodes
    first : Node → Nodes → Nodes

-- `List::mutate_at`, of a function that may fail: a panic out of bounds.
unfoldable pub mutate_at {ℓ} : {A : Type ℓ} → List A → ℕ → (A → Outcome A) → Outcome (List A)
mutate_at [] i f = panics
mutate_at (x ∷ xs) zero f = do y ← f x; ok (y ∷ xs)
mutate_at (x ∷ xs) (suc i) f = do ys ← mutate_at xs i f; ok (x ∷ ys)

-- The rounds of the loop of `Node::transition` that are left, from `offset` on.
unfoldable pub mutate_range {ℓ} : {A : Type ℓ} → ℕ → ℕ → (A → Outcome A) → List A → Outcome (List A)
unfolding mutate_at
mutate_range zero offset f states = ok states
mutate_range (suc rounds) offset f states = do
  states₁ ← mutate_at states offset f
  mutate_range rounds (suc offset) f states₁

-- `Node::transition`, on the states of a node
unfoldable pub node_transition :
    NodeRelation
    → AccessKind
    → ℕ
    → ℕ
    → Protected
    → List LocationState
    → Outcome (List LocationState)
unfolding mutate_range location_transition
node_transition node_relation access_kind offset_in_alloc size protected states =
    mutate_range size offset_in_alloc
      (location_transition access_kind node_relation (is_protected protected)) states

abbrev pub relation_of : Option (List ℕ) → NodeRelation
relation_of (some path) = NodeRelation.child
relation_of none = NodeRelation.foreign

-- The rest of the path, for a child that it starts with.
abbrev pub sub_path : Option (List ℕ) → ℕ → Option (List ℕ)
sub_path (some (head ∷ tail)) child_id = if head == child_id then some tail else none
sub_path (some []) child_id = none
sub_path none child_id = none

unfoldable mutual
  unfolding node_transition

  pub access : Option (List ℕ) → AccessKind → ℕ → ℕ → Node → Outcome Node
  access path access_kind offset_in_alloc size (node children states protected) = do
    states₁ ← node_transition (relation_of path) access_kind offset_in_alloc size protected states
    children₁ ← access_children path 0 access_kind offset_in_alloc size children
    ok (node children₁ states₁ protected)

  -- The loop over the children, from `child_id` on
  pub access_children : Option (List ℕ) → ℕ → AccessKind → ℕ → ℕ → Nodes → Outcome Nodes
  access_children path child_id access_kind offset_in_alloc size no_nodes = ok no_nodes
  access_children path child_id access_kind offset_in_alloc size (first child children) = do
    child₁ ← access (sub_path path child_id) access_kind offset_in_alloc size child
    children₁ ← access_children path (suc child_id) access_kind offset_in_alloc size children
    ok (first child₁ children₁)

abbrev pub is_leaf : Nodes → Bool
is_leaf no_nodes = true
is_leaf (first _ _) = false

-- `Node::access_node`, with what `f` returns beside the new node
unfoldable mutual
  pub access_node {ℓ} : {O : Type ℓ} → List ℕ → (Node → O × Node) → Node → Outcome (O × Node)
  access_node [] f self = ok (f self)
  access_node (sub_root_id ∷ path) f (node children states protected) =
      let rest = access_child sub_root_id path f children in
      if is_leaf children
      then panics
      else (do (o, children₁) ← rest; ok (o, node children₁ states protected))

  -- `self.children.mutate_at(sub_root_id, ..)`
  pub access_child {ℓ} : {O : Type ℓ} → ℕ → List ℕ → (Node → O × Node) → Nodes → Outcome (O × Nodes)
  access_child sub_root_id path f no_nodes = panics
  access_child zero path f (first child children) = do
    (o, child₁) ← access_node path f child
    ok (o, first child₁ children)
  access_child (suc i) path f (first child children) = do
    (o, children₁) ← access_child i path f children
    ok (o, first child children₁)

abbrev pub count : Nodes → ℕ
count no_nodes = 0
count (first child children) = suc (count children)

-- `children.push(child)`
abbrev pub push : Nodes → Node → Nodes
push no_nodes c = first c no_nodes
push (first child children) c = first child (push children c)

-- The closure of `add_node`
abbrev pub push_child : Node → Node → ℕ × Node
push_child child (node children states protected) =
    (count children, node (push children child) states protected)

unfoldable pub add_node : List ℕ → Node → Node → Outcome (List ℕ × Node)
unfolding access_node access_child
add_node parent_path child self = do
  (child_idx, self₁) ← access_node parent_path (push_child child) self
  ok (parent_path ++ child_idx ∷ [], self₁)

unfoldable pub get_node : List ℕ → Node → Outcome Node
unfolding access_node access_child
get_node path self = do (found, self₁) ← access_node path (λ n. (n, n)) self; ok found

unfoldable mutual
  pub contains_strong_protector : Node → Bool
  contains_strong_protector (node children states Protected.strong) = true
  contains_strong_protector (node children states _) = any_strong_protector children

  pub any_strong_protector : Nodes → Bool
  any_strong_protector no_nodes = false
  any_strong_protector (first child children) =
      contains_strong_protector child || any_strong_protector children

-- The kind of the access at the end of a protector
abbrev pub release_kind : Permission → AccessKind
release_kind Permission.active = AccessKind.write
release_kind _ = AccessKind.read

-- The loop of `release_protector` over the locations of the protected node, from `offset` on
unfoldable pub release_locations :
    NodeRelation → Bool → ℕ → List LocationState → List LocationState → Outcome (List LocationState)
unfolding mutate_at location_transition
release_locations node_relation protected offset [] states = ok states
release_locations node_relation protected offset (l ∷ location_states) states =
    if is_accessed l.accessed
    then (do
      states₁ ←
          mutate_at states offset
            (location_transition (release_kind l.permission) node_relation protected)
      release_locations node_relation protected (suc offset) location_states states₁)
    else release_locations node_relation protected (suc offset) location_states states

abbrev pub is_here : Option (List ℕ) → Bool
is_here (some []) = true
is_here _ = false

unfoldable mutual
  unfolding release_locations

  pub release_protector : Option (List ℕ) → List LocationState → Node → Outcome Node
  release_protector path location_states (node children states protected) =
      let below = release_children path 0 location_states children in
      if is_here path then ok (node children states Protected.no) else (do
        states₁ ←
            release_locations (relation_of path) (is_protected protected) 0 location_states states
        children₁ ← below
        ok (node children₁ states₁ protected))

  pub release_children : Option (List ℕ) → ℕ → List LocationState → Nodes → Outcome Nodes
  release_children path child_id location_states no_nodes = ok no_nodes
  release_children path child_id location_states (first child children) = do
    child₁ ← release_protector (sub_path path child_id) location_states child
    children₁ ← release_children path (suc child_id) location_states children
    ok (first child₁ children₁)
