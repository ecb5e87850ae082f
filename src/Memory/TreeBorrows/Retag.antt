-- ===== src/Memory/TreeBorrows/Retag.antt =====
-- spec/mem/tree_borrows/memory.md: which permission and protector a retag gives a new node.
use minirust.Prelude.{
  ℕ, zero, suc, ◌≡◌, refl, Bool, true, false, not, ◌&&◌, Option, none, some, length, Bool-cases,
  inl, inr, if◌then◌else◌, arith,
}
use minirust.Lang.Types.{Mutability, PointeeInfo, PtrType, LayoutStrategy}
use minirust.Memory.Outcome.{Outcome, ok, ub, panics, ◌>>=◌, NoPanic}
use minirust.Memory.TreeBorrows.{Permission, Protected, is_protected, default, new_list}
use minirust.Memory.TreeBorrows.States.{IsAllowed}
use minirust.Memory.TreeBorrows.Tree.{Node, node, no_nodes}
use minirust.Memory.TreeBorrows.Tree.Ranges.{All}
use minirust.Memory.TreeBorrows.Tree.Access.{IsWellFormed}

abbrev pub protector : Bool → Protected → Protected
protector fn_entry p = if fn_entry then p else Protected.no

abbrev pub is_mutable : Mutability → Bool
is_mutable Mutability.mutable = true
is_mutable Mutability.immutable = false

-- The result is none if no reborrow shall happen.
unfoldable pub ptr_permissions :
    PtrType → Bool → Outcome (Option (Permission × LayoutStrategy × Protected))
unfolding default
ptr_permissions (PtrType.ref mutbl pointee) fn_entry =
    if not pointee.freeze && not (is_mutable mutbl)
    then ok none
    else if not pointee.unpin && is_mutable mutbl
    then ok none
    else (do
      permission ← default mutbl pointee (protector fn_entry Protected.strong)
      ok (some (permission, pointee.layout, protector fn_entry Protected.strong)))
ptr_permissions (PtrType.box pointee) fn_entry = do
  permission ← default Mutability.mutable pointee (protector fn_entry Protected.weak)
  ok (some (permission, pointee.layout, protector fn_entry Protected.weak))
ptr_permissions _ fn_entry = ok none

-- The node that `reborrow` adds
abbrev pub new_child : Permission → Protected → ℕ → Node
new_child permission protected size = node no_nodes (new_list permission size) protected

-- What a retag asks for: a node that is well-formed in an allocation of any size
abbrev pub Fits : Option (Permission × LayoutStrategy × Protected) → Type 0
Fits none = Unit
Fits (some (permission, layout, protected)) =
    (size : ℕ) → IsWellFormed size (new_child permission protected size)

length-new_list : (permission : Permission) (size : ℕ) → length (new_list permission size) ≡ size
length-new_list permission zero = refl
length-new_list permission (suc size) = rw (length-new_list permission size) refl

-- Only these permissions are not allowed under a protector.
abbrev is_new : Permission → Protected → Bool
is_new Permission.reserved_im protected = not (is_protected protected)
is_new _ protected = true

All-new_list :
    (permission : Permission) (protected : Protected) (size : ℕ)
    → is_new permission protected ≡ true
    → All (IsAllowed (is_protected protected)) (new_list permission size)
All-new_list permission protected zero h = tt
All-new_list permission protected (suc size) h =
    (ground arith, All-new_list permission protected size h)

new_child-IsWellFormed :
    (permission : Permission) (protected : Protected) (size : ℕ)
    → is_new permission protected ≡ true
    → IsWellFormed size (new_child permission protected size)
unfolding IsWellFormed
new_child-IsWellFormed permission protected size h =
    (length-new_list permission size, All-new_list permission protected size h, tt)

-- The same of a result
abbrev is_new_result : Option (Permission × LayoutStrategy × Protected) → Bool
is_new_result none = true
is_new_result (some (permission, _, protected)) = is_new permission protected

default-new :
    (mutbl : Mutability) (pointee : PointeeInfo) (protected : Protected)
    → (not pointee.freeze && not (is_mutable mutbl)) ≡ false
    → NoPanic (λ permission. is_new permission protected ≡ true) (default mutbl pointee protected)
unfolding default
default-new Mutability.mutable pointee protected h = ground arith
default-new Mutability.immutable pointee protected h = ground arith

new_result-Fits :
    (r : Option (Permission × LayoutStrategy × Protected)) → is_new_result r ≡ true → Fits r
new_result-Fits none h = tt
new_result-Fits (some (permission, layout, protected)) h =
    λ size. new_child-IsWellFormed permission protected size h

-- The result that asks for a node
asked :
    (o : Outcome Permission) (layout : LayoutStrategy) (protected : Protected)
    → NoPanic (λ permission. is_new permission protected ≡ true) o
    → NoPanic Fits (o >>= λ permission. ok (some (permission, layout, protected)))
asked (ok permission) layout protected h = new_result-Fits (some (permission, layout, protected)) h
asked ub layout protected h = tt
asked panics layout protected h = h

-- `ptr_permissions` does not panic, and a node that is added with the permission and the protector
-- that it gives is well-formed, in an allocation of any size.
pub ptr_permissions-Fits :
    (ptr_type : PtrType) (fn_entry : Bool) → NoPanic Fits (ptr_permissions ptr_type fn_entry)
unfolding ptr_permissions
ptr_permissions-Fits (PtrType.ref mutbl pointee) fn_entry =
    elim (Bool-cases (not pointee.freeze && not (is_mutable mutbl))) [
      | inl e ↦ rw e tt
      | inr e ↦ elim (Bool-cases (not pointee.unpin && is_mutable mutbl)) [
        | inl k ↦ rw (e, k) tt
        | inr k ↦
            rw (e, k)
              (asked (default mutbl pointee (protector fn_entry Protected.strong)) pointee.layout
                (protector fn_entry Protected.strong)
                (default-new mutbl pointee (protector fn_entry Protected.strong) e))
      ]
    ]
ptr_permissions-Fits (PtrType.box pointee) fn_entry =
    asked (default Mutability.mutable pointee (protector fn_entry Protected.weak)) pointee.layout
      (protector fn_entry Protected.weak)
      (default-new Mutability.mutable pointee (protector fn_entry Protected.weak) (ground arith))
ptr_permissions-Fits (PtrType.raw meta) fn_entry = tt
ptr_permissions-Fits PtrType.fn_ptr fn_entry = tt
ptr_permissions-Fits (PtrType.vtable_ptr t) fn_entry = tt
