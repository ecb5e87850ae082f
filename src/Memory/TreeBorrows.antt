-- ===== src/Memory/TreeBorrows.antt =====
-- spec/mem/tree_borrows/state_machine.md: the state machine of one location of one node.
pub mod States
pub mod Tree
pub mod Retag
use minirust.Prelude.{Bool, true, false, not, ◌&&◌, ℕ, zero, suc, List, [], ◌∷◌, if◌then◌else◌}
use minirust.Lang.Types.{Mutability, PointeeInfo}
use minirust.Memory.Outcome.{Outcome, ok, ub, panics, ◌>>=◌}

-- `conflicted` says whether there was a foreign read.
pub data Permission : Type 0 where
  reserved : Bool → Permission
  reserved_im active frozen disabled : Permission

pub data Accessed : Type 0 where
  yes no : Accessed

pub record LocationState : Type 0 where
  pub accessed : Accessed
  pub permission : Permission

-- tree.md
pub data Protected : Type 0 where
  strong weak no : Protected

abbrev pub is_protected : Protected → Bool
is_protected Protected.no = false
is_protected _ = true

pub data NodeRelation : Type 0 where
  child foreign : NodeRelation

pub data AccessKind : Type 0 where
  read write : AccessKind

-- `Permission::default`
unfoldable pub default : Mutability → PointeeInfo → Protected → Outcome Permission
default Mutability.mutable pointee protected =
    if not pointee.freeze && not (is_protected protected)
    then ok Permission.reserved_im
    else ok (Permission.reserved false)
default Mutability.immutable pointee protected =
    if pointee.freeze then ok Permission.frozen else panics

unfoldable pub child_read : Permission → Outcome Permission
child_read Permission.disabled = ub
child_read perm = ok perm

unfoldable pub child_write : Permission → Bool → Outcome Permission
child_write (Permission.reserved true) true = ub
child_write Permission.frozen protected = ub
child_write Permission.disabled protected = ub
child_write _ protected = ok Permission.active

unfoldable pub foreign_read : Permission → Bool → Outcome Permission
foreign_read Permission.active true = ok Permission.disabled
foreign_read (Permission.reserved _) true = ok (Permission.reserved true)
foreign_read Permission.active false = ok Permission.frozen
foreign_read perm protected = ok perm

unfoldable pub foreign_write : Permission → Outcome Permission
foreign_write Permission.reserved_im = ok Permission.reserved_im
foreign_write _ = ok Permission.disabled

-- `Permission::transition`
unfoldable pub permission_transition :
    Permission → AccessKind → NodeRelation → Bool → Outcome Permission
unfolding child_read child_write foreign_read foreign_write
permission_transition perm AccessKind.read NodeRelation.child protected = child_read perm
permission_transition perm AccessKind.write NodeRelation.child protected =
    child_write perm protected
permission_transition perm AccessKind.read NodeRelation.foreign protected =
    foreign_read perm protected
permission_transition perm AccessKind.write NodeRelation.foreign protected = foreign_write perm

-- `Accessed::transition`
abbrev pub accessed_transition : Accessed → NodeRelation → Accessed
accessed_transition accessed NodeRelation.foreign = accessed
accessed_transition accessed NodeRelation.child = Accessed.yes

-- `LocationState::new_list`
abbrev pub new_list : Permission → ℕ → List LocationState
new_list permission zero = []
new_list permission (suc len) =
    record { accessed = Accessed.no; permission = permission } ∷ new_list permission len

abbrev pub is_disabled : Permission → Bool
is_disabled Permission.disabled = true
is_disabled _ = false

abbrev pub is_accessed : Accessed → Bool
is_accessed Accessed.yes = true
is_accessed Accessed.no = false

-- What is reported when a protected and accessed location becomes disabled, from its old permission
unfoldable pub report_disabled : Permission → Outcome LocationState
report_disabled Permission.disabled = panics
report_disabled Permission.reserved_im = panics
report_disabled _ = ub

-- The end of `LocationState::transition`: protected nodes may never become disabled and accessed.
unfoldable pub check_protected : Permission → Bool → LocationState → Outcome LocationState
unfolding report_disabled
check_protected old_perm protected state =
    if is_disabled state.permission && protected && is_accessed state.accessed
    then report_disabled old_perm
    else ok state

-- `LocationState::transition`
unfoldable pub location_transition :
    AccessKind → NodeRelation → Bool → LocationState → Outcome LocationState
unfolding permission_transition check_protected
location_transition access_kind node_relation protected state = do
  permission ← permission_transition state.permission access_kind node_relation protected
  check_protected state.permission protected (record {
    accessed = accessed_transition state.accessed node_relation;
    permission = permission;
  })
