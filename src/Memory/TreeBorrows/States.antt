-- ===== src/Memory/TreeBorrows/States.antt =====
-- state_machine.md: states and transitions of one location.
use minirust.Prelude.{◌≡◌, ◌≢◌, Bool, true, false, not, arith}
use minirust.Memory.Outcome.{ok, ub, ◌>>=◌, NoPanic}
use minirust.Memory.TreeBorrows.{
  Permission, LocationState, NodeRelation, AccessKind, is_accessed, location_transition,
}

-- No protected location is disabled and accessed, or has the permission `ReservedIM`.
abbrev pub is_allowed : Bool → LocationState → Bool
is_allowed false s = true
is_allowed true s = elim s.permission [
  | Permission.reserved_im ↦ false
  | Permission.disabled ↦ not (is_accessed s.accessed)
  | _ ↦ true
]

abbrev pub IsAllowed : Bool → LocationState → Type 0
IsAllowed protected s = is_allowed protected s ≡ true

pub location_transition-IsAllowed :
    (k : AccessKind) (r : NodeRelation) (p : Bool) (s : LocationState)
    → IsAllowed p s
    → NoPanic (IsAllowed p) (location_transition k r p s)
unfolding location_transition
location_transition-IsAllowed AccessKind.read NodeRelation.child p s h = ground arith
location_transition-IsAllowed AccessKind.read NodeRelation.foreign p s h = ground arith
location_transition-IsAllowed AccessKind.write NodeRelation.child p s h = ground arith
location_transition-IsAllowed AccessKind.write NodeRelation.foreign p s h = ground arith

pub location_transition-again :
    (k : AccessKind) (r : NodeRelation) (p : Bool) (s t : LocationState)
    → location_transition k r p s ≡ ok t
    → location_transition k r p t ≡ ok t
unfolding location_transition
location_transition-again AccessKind.read NodeRelation.child p s t h = ground arith
location_transition-again AccessKind.read NodeRelation.foreign p s t h = ground arith
location_transition-again AccessKind.write NodeRelation.child p s t h = ground arith
location_transition-again AccessKind.write NodeRelation.foreign p s t h = ground arith

-- Two reads, in either order
pub location_transition-reads :
    (r q : NodeRelation) (p : Bool) (s u : LocationState)
    → (location_transition AccessKind.read r p s >>= location_transition AccessKind.read q p) ≡ ok u
    → (location_transition AccessKind.read q p s >>= location_transition AccessKind.read r p) ≡ ok u
unfolding location_transition
location_transition-reads NodeRelation.child NodeRelation.child p s u h = h
location_transition-reads NodeRelation.child NodeRelation.foreign p s u h = ground arith
location_transition-reads NodeRelation.foreign NodeRelation.child p s u h = ground arith
location_transition-reads NodeRelation.foreign NodeRelation.foreign p s u h = h

-- A foreign write disables, but for `ReservedIM`.
pub foreign_write_disables :
    (p : Bool) (s t : LocationState)
    → s.permission ≢ Permission.reserved_im
    → location_transition AccessKind.write NodeRelation.foreign p s ≡ ok t
    → t.permission ≡ Permission.disabled
unfolding location_transition
foreign_write_disables p s t ne h = ground arith

-- What is disabled stays so, and a child access of it is undefined behaviour.
pub disabled_stays :
    (k : AccessKind) (r : NodeRelation) (p : Bool) (s t : LocationState)
    → s.permission ≡ Permission.disabled
    → location_transition k r p s ≡ ok t
    → t.permission ≡ Permission.disabled
unfolding location_transition
disabled_stays AccessKind.read NodeRelation.child p s t e h = ground arith
disabled_stays AccessKind.read NodeRelation.foreign p s t e h = ground arith
disabled_stays AccessKind.write NodeRelation.child p s t e h = ground arith
disabled_stays AccessKind.write NodeRelation.foreign p s t e h = ground arith

pub disabled-child :
    (k : AccessKind) (p : Bool) (s : LocationState)
    → s.permission ≡ Permission.disabled
    → location_transition k NodeRelation.child p s ≡ ub
unfolding location_transition
disabled-child AccessKind.read p s e = ground arith
disabled-child AccessKind.write p s e = ground arith
