-- ===== src/Memory/Basic/Tests.antt =====
-- An allocation of the heap that is written, read and freed, and the theorems at it.
use minirust.Prelude.{◌≡◌, refl, true, Bool, List, [], ◌∷◌, none, some}
use minirust.Lang.Layout.{x86_64}
use minirust.Memory.Outcome.{Outcome, ok, ub}
use minirust.Memory.Basic.{
  AbstractByte, uninit, init, AllocationKind, ThinPointer, AllocId, Allocation, allocate,
  deallocate, check_ptr, store, load,
}
use minirust.Memory.Basic.Bytes.{NoExtra, no_extra, load-store}
use minirust.Memory.Basic.Changes.{Step, Steps}
use minirust.Memory.Basic.Dead.{use_after_free}
use minirust.Memory.Basic.Disjoint.{IsDisjoint, space, Steps-IsDisjoint}

abbrev Memory : Type 0
Memory = List (Allocation NoExtra NoExtra)

abbrev ptr : ThinPointer (AllocId × NoExtra)
ptr = record { addr = 16; provenance = some (0, tt) }

abbrev block : Bool → List (AbstractByte (AllocId × NoExtra)) → Allocation NoExtra NoExtra
block live bytes = record {
  data_ = bytes;
  addr = 16;
  align = 4;
  kind = AllocationKind.heap;
  live = live;
  extra = tt;
}

abbrev allocated : Memory
allocated = block true (uninit ∷ uninit ∷ uninit ∷ uninit ∷ []) ∷ []

abbrev bytes : List (AbstractByte (AllocId × NoExtra))
bytes = init 7 none ∷ init 9 none ∷ []

abbrev stored : Memory
stored = block true (init 7 none ∷ init 9 none ∷ uninit ∷ uninit ∷ []) ∷ []

abbrev freed : Memory
freed = block Bool.false (init 7 none ∷ init 9 none ∷ uninit ∷ uninit ∷ []) ∷ []

allocate-allocated : allocate x86_64 AllocationKind.heap 4 4 tt tt 16 [] ≡ ok (ptr, allocated)
unfolding allocate
allocate-allocated = refl

store-stored : store ptr bytes 4 no_extra allocated ≡ ok stored
unfolding store
store-stored = refl

-- What the handler of a deallocation does without extra data
abbrev keep : NoExtra → NoExtra → Outcome NoExtra
keep e p = ok e

deallocate-freed : deallocate ptr AllocationKind.heap 4 4 keep stored ≡ ok freed
unfolding deallocate
deallocate-freed = refl

load-store_example : load ptr 2 4 no_extra stored ≡ ok (bytes, stored)
load-store_example = load-store ptr bytes 4 allocated stored store-stored

use_after_free_example :
    (load ptr 1 4 no_extra freed ≡ ub)
    × (store ptr bytes 4 no_extra freed ≡ ub)
    × (check_ptr ptr 1 freed ≡ ub)
    × (deallocate ptr AllocationKind.stack 4 4 keep freed ≡ ub)
use_after_free_example =
    use_after_free x86_64 ptr ptr 0 tt tt AllocationKind.heap AllocationKind.stack 4 4 4 4 0 keep
      keep (init 9 none ∷ []) (init 7 none) 4 no_extra stored freed freed refl deallocate-freed
      Steps.done refl

Steps-IsDisjoint_example : IsDisjoint (space x86_64) stored
Steps-IsDisjoint_example = Steps-IsDisjoint {t = x86_64} (
    Steps.step
      (Steps.step Steps.done (
        Step.by_allocate AllocationKind.heap 4 4 tt tt 16 (ptr, allocated) refl allocate-allocated))
      (Step.by_store ptr bytes 4 no_extra store-stored))
