-- ===== src/Memory/TreeBorrows/Tree/Tests.antt =====
-- A tree of two reborrows of two locations, and the theorems at it.
use minirust.Prelude.{ℕ, ◌≡◌, ◌↔◌, refl, true, false, List, [], ◌∷◌, Option, some, arith}
use minirust.Lang.Types.{Mutability, PtrType, LayoutStrategy}
use minirust.Memory.TreeBorrows.Retag.{Fits, ptr_permissions, ptr_permissions-Fits}
use minirust.Memory.Outcome.{Outcome, ok, ub, NoPanic}
use minirust.Memory.TreeBorrows.{
  NodeRelation, Permission, Accessed, LocationState, Protected, AccessKind, new_list,
}
use minirust.Memory.TreeBorrows.Tree.{
  Node, node, no_nodes, first, access, add_node, get_node, contains_strong_protector,
  release_protector,
}
use minirust.Memory.TreeBorrows.Tree.Access.{IsWellFormed, access-IsWellFormed, access_again}
use minirust.Memory.TreeBorrows.Tree.Reads.{access-reads}
use minirust.Memory.TreeBorrows.Tree.Release.{release_protector-IsWellFormed}
use minirust.Memory.TreeBorrows.Tree.Paths.{
  protected_of, get_node-add_node, contains_strong_protector_iff,
}
use minirust.Memory.TreeBorrows.Tree.Locality.{state_at, Follows, access-state}
use minirust.Memory.TreeBorrows.Tree.Invalidation.{Accesses, write_invalidates}

abbrev borrow : Protected → Node
borrow p = node no_nodes (new_list (Permission.reserved false) 2) p

-- The first reborrow is protected.
abbrev tree : Node
tree =
    node (first (borrow Protected.strong) (first (borrow Protected.no) no_nodes))
      (new_list Permission.active 2) Protected.no

abbrev left : Option (List ℕ)
left = some (0 ∷ [])

abbrev right : Option (List ℕ)
right = some (1 ∷ [])

tree-IsWellFormed : IsWellFormed 2 tree
unfolding IsWellFormed
tree-IsWellFormed = (
  refl,
  (refl, (refl, tt)),
  ((refl, (refl, (refl, tt)), tt), ((refl, (refl, (refl, tt)), tt), tt)),
)

access-IsWellFormed_example : NoPanic (IsWellFormed 2) (access left AccessKind.write 0 1 tree)
access-IsWellFormed_example =
    access-IsWellFormed left AccessKind.write 0 1 2 tree (omega arith) tree-IsWellFormed

abbrev after : Outcome Node → Node
after (ok t) = t
after ub = tree
after Outcome.panics = tree

unfoldable written : Node
unfolding access
written = after (access left AccessKind.write 0 1 tree)

access-written : access left AccessKind.write 0 1 tree ≡ ok written
unfolding written
access-written = refl

access_again_example : access left AccessKind.write 0 1 written ≡ ok written
access_again_example = access_again left AccessKind.write 0 1 tree written access-written

unfoldable once : Node
unfolding access
once = after (access left AccessKind.read 0 1 tree)

unfoldable twice : Node
unfolding once
twice = after (access right AccessKind.read 0 2 once)

access-once : access left AccessKind.read 0 1 tree ≡ ok once
unfolding once
access-once = refl

access-twice : access right AccessKind.read 0 2 once ≡ ok twice
unfolding twice
access-twice = refl

access-reads_example :
    (w : Node) × (access right AccessKind.read 0 2 tree ≡ ok w)
    × (access left AccessKind.read 0 1 w ≡ ok twice)
access-reads_example = access-reads 0 1 0 2 left right tree once twice access-once access-twice

abbrev fresh : LocationState
fresh = record { accessed = Accessed.no; permission = Permission.reserved false }

state_at-right : state_at (1 ∷ []) 0 tree ≡ some (false, fresh)
unfolding state_at
state_at-right = refl

access-state_example :
    Follows NodeRelation.foreign AccessKind.write 0 1 0 (false, fresh) (state_at (1 ∷ []) 0 written)
access-state_example =
    access-state left AccessKind.write 0 1 tree written (1 ∷ []) 0 (false, fresh) access-written
      state_at-right

-- After a write on the left, no read on the right of the location succeeds, whatever it would give.
write_invalidates_example : ¬ (access right AccessKind.read 0 1 written ≡ ok written)
write_invalidates_example =
    write_invalidates left 0 1 tree written written written (1 ∷ []) 0 (false, fresh)
      AccessKind.read 0 1 access-written refl refl state_at-right (λ e. cc) Accesses.done refl

-- A read on the right of the other location still succeeds.
other_location : (access right AccessKind.read 1 1 written ≡ ub) → ⊥
unfolding written
other_location e = cc

release_protector-IsWellFormed_example :
    NoPanic (IsWellFormed 2) (release_protector left (new_list (Permission.reserved false) 2) tree)
release_protector-IsWellFormed_example =
    release_protector-IsWellFormed left (new_list (Permission.reserved false) 2) 2 tree
      (omega arith) tree-IsWellFormed

unfoldable grown : Node
unfolding add_node
grown = after (elim (add_node (1 ∷ []) (borrow Protected.weak) tree) [
  | ok r ↦ ok r.1
  | ub ↦ ub
  | Outcome.panics ↦ ub
])

add_node-grown : add_node (1 ∷ []) (borrow Protected.weak) tree ≡ ok (1 ∷ 0 ∷ [], grown)
unfolding grown
add_node-grown = refl

get_node-add_node_example : get_node (1 ∷ 0 ∷ []) grown ≡ ok (borrow Protected.weak)
get_node-add_node_example =
    get_node-add_node (1 ∷ []) (1 ∷ 0 ∷ []) (borrow Protected.weak) tree grown add_node-grown

contains_strong_protector_iff_example : (contains_strong_protector tree ≡ true) ↔ (
    (path : List ℕ) × (n : Node) × (get_node path tree ≡ ok n)
    × (protected_of n ≡ Protected.strong))
contains_strong_protector_iff_example = contains_strong_protector_iff tree

-- A mutable reference at the entry of a function
abbrev entry_ref : PtrType
entry_ref =
    PtrType.ref Mutability.mutable
      (record { layout = LayoutStrategy.sized 2 1; inhabited = true; freeze = false; unpin = true })

ptr_permissions-Fits_example : NoPanic Fits (ptr_permissions entry_ref true)
ptr_permissions-Fits_example = ptr_permissions-Fits entry_ref true
