-- ===== src/Memory/Basic.antt =====
-- spec/mem/basic.md, spec/mem/interface.md: allocations, loads and stores of the basic memory model.
-- A pointer and an allocation hold extra data, for models that are built on this one. An address is
-- not negative. The address of a new allocation is the choice of the machine: an argument here.
pub mod Bytes
pub mod Changes
pub mod Dead
pub mod Disjoint
mod Tests
use minirust.Prelude.{
  ℕ, zero, suc, ◌+◌, ◌-◌, ◌*◌, ◌%◌, ◌^◌, Bool, true, false, not, ◌&&◌, ◌||◌, List, [], ◌∷◌, ◌++◌,
  Option, none, some, length, get_elem?, set, replicate, ltb, leb, ◌==◌, if◌then◌else◌,
}
use minirust.Lang.Layout.{Target}
use minirust.Memory.Outcome.{Outcome, ok, ub, panics, ◌>>=◌}

-- interface.md
pub data AbstractByte (Provenance : Type 0) : Type 0 where
  uninit : AbstractByte Provenance
  init : ℕ → Option Provenance → AbstractByte Provenance

pub data AllocationKind : Type 0 where
  stack heap global function vtable : AllocationKind

abbrev pub same_kind : AllocationKind → AllocationKind → Bool
same_kind AllocationKind.stack AllocationKind.stack = true
same_kind AllocationKind.heap AllocationKind.heap = true
same_kind AllocationKind.global AllocationKind.global = true
same_kind AllocationKind.function AllocationKind.function = true
same_kind AllocationKind.vtable AllocationKind.vtable = true
same_kind _ _ = false

-- pointer.md
pub record ThinPointer (Provenance : Type 0) : Type 0 where
  pub addr : ℕ
  pub provenance : Option Provenance

abbrev pub AllocId : Type 0
AllocId = ℕ

pub record Allocation (ProvExtra AllocExtra : Type 0) : Type 0 where
  pub data_ : List (AbstractByte (AllocId × ProvExtra))
  pub addr : ℕ
  pub align : ℕ
  pub kind : AllocationKind
  pub live : Bool
  pub extra : AllocExtra

-- The conditions on the size of an allocation and the address at its end
abbrev pub valid_size : Target → ℕ → Bool
valid_size t size = ltb size (2 ^ (8 * t.ptr_size - 1))

-- `List::write_subslice_at_index`
unfoldable pub write_at : {A : Type 0} → List A → ℕ → List A → Outcome (List A)
write_at xs zero [] = ok xs
write_at [] zero (y ∷ ys) = panics
write_at [] (suc i) ys = panics
write_at (x ∷ xs) zero (y ∷ ys) = do rest ← write_at xs zero ys; ok (y ∷ rest)
write_at (x ∷ xs) (suc i) ys = do rest ← write_at xs i ys; ok (x ∷ rest)

-- `List::subslice_with_length`
unfoldable pub slice : {A : Type 0} → List A → ℕ → ℕ → Outcome (List A)
slice xs zero zero = ok []
slice [] zero (suc len) = panics
slice [] (suc i) len = panics
slice (x ∷ xs) zero (suc len) = do rest ← slice xs zero len; ok (x ∷ rest)
slice (x ∷ xs) (suc i) len = slice xs i len

-- `throw_ub!` unless the condition holds
abbrev pub demand {ℓ} : {A : Type ℓ} → Bool → Outcome A → Outcome A
demand c rest = if c then rest else ub

module _ {P E : Type 0} where
  abbrev pub overlaps : Allocation P E → ℕ → ℕ → Bool
  overlaps a other_addr other_size =
      if leb (a.addr + length a.data_) other_addr || leb (other_addr + other_size) a.addr
      then a.addr == other_addr
      else true

  abbrev pub any_overlaps : List (Allocation P E) → ℕ → ℕ → Bool
  any_overlaps [] addr size = false
  any_overlaps (a ∷ allocations) addr size =
      (a.live && overlaps a addr size) || any_overlaps allocations addr size

  -- Whether the machine can pick an address.
  abbrev pub is_choice : Target → List (Allocation P E) → ℕ → ℕ → ℕ → Bool
  is_choice t allocations size align addr =
      not (addr == 0)
      && addr % align == 0
      && ltb (addr + size) (2 ^ (8 * t.ptr_size))
      && not (any_overlaps allocations addr size)

  -- At the address that is picked
  unfoldable pub allocate :
      Target
      → AllocationKind
      → ℕ
      → ℕ
      → P
      → E
      → ℕ
      → List (Allocation P E)
      → Outcome (ThinPointer (AllocId × P) × List (Allocation P E))
  allocate t kind size align prov_extra alloc_extra addr allocations =
      if valid_size t size
      then ok (
        record { addr = addr; provenance = some (length allocations, prov_extra) },
        allocations
            ++ record {
              data_ = replicate size AbstractByte.uninit;
              addr = addr;
              align = align;
              kind = kind;
              live = true;
              extra = alloc_extra;
            }
              ∷ [],
      )
      else ub

  -- `self.allocations[id.0]`
  abbrev pub lookup : List (Allocation P E) → AllocId → Outcome (Allocation P E)
  lookup allocations id = elim (get_elem? allocations id) [ some a ↦ ok a | none ↦ panics ]

  unfoldable pub deallocate :
      ThinPointer (AllocId × P)
      → AllocationKind
      → ℕ
      → ℕ
      → (E → P → Outcome E)
      → List (Allocation P E)
      → Outcome (List (Allocation P E))
  deallocate ptr kind size align handle_extra allocations = elim ptr.provenance [
    | none ↦ ub
    | some (id, prov_extra) ↦ do
      a ← lookup allocations id
      demand a.live (
          demand (ptr.addr == a.addr) (
            demand (same_kind kind a.kind) (
              demand (size == length a.data_) (
                demand (align == a.align) (do
                  extra ← handle_extra a.extra prov_extra
                  ok (set allocations id (record a { extra = extra; live = false })))))))
  ]

  -- `check_ptr` of an access that is not of size zero
  unfoldable pub check_access :
      ThinPointer (AllocId × P) → ℕ → List (Allocation P E) → Outcome (AllocId × P × ℕ)
  check_access ptr len allocations = elim ptr.provenance [
    | none ↦ ub
    | some (id, prov_extra) ↦ do
      a ← lookup allocations id
      demand a.live (
          demand (leb a.addr ptr.addr && leb (ptr.addr - a.addr + len) (length a.data_))
            (ok (id, prov_extra, ptr.addr - a.addr)))
  ]

  unfoldable pub check_ptr :
      ThinPointer (AllocId × P) → ℕ → List (Allocation P E) → Outcome (Option (AllocId × P × ℕ))
  unfolding check_access
  check_ptr ptr len allocations =
      if len == 0 then ok none else (do r ← check_access ptr len allocations; ok (some r))

  unfoldable pub store :
      ThinPointer (AllocId × P)
      → List (AbstractByte (AllocId × P))
      → ℕ
      → (E → P → ℕ → Outcome E)
      → List (Allocation P E)
      → Outcome (List (Allocation P E))
  unfolding check_ptr write_at
  store ptr bytes align handle_extra allocations = demand (ptr.addr % align == 0) (do
    checked ← check_ptr ptr (length bytes) allocations
    elim checked [
      | none ↦ ok allocations
      | some (id, prov_extra, offset) ↦ do
        a ← lookup allocations id
        extra ← handle_extra a.extra prov_extra offset
        written ← write_at a.data_ offset bytes
        ok (set allocations id (record a { extra = extra; data_ = written }))
    ])

  unfoldable pub load :
      ThinPointer (AllocId × P)
      → ℕ
      → ℕ
      → (E → P → ℕ → Outcome E)
      → List (Allocation P E)
      → Outcome (List (AbstractByte (AllocId × P)) × List (Allocation P E))
  unfolding check_ptr slice
  load ptr len align handle_extra allocations = demand (ptr.addr % align == 0) (do
    checked ← check_ptr ptr len allocations
    elim checked [
      | none ↦ ok ([], allocations)
      | some (id, prov_extra, offset) ↦ do
        a ← lookup allocations id
        extra ← handle_extra a.extra prov_extra offset
        bytes ← slice a.data_ offset len
        ok (bytes, set allocations id (record a { extra = extra }))
    ])

  -- Whether an allocation of the heap is left, which `leak_check` reports.
  abbrev pub has_leak : List (Allocation P E) → Bool
  has_leak [] = false
  has_leak (a ∷ allocations) =
      (a.live && same_kind a.kind AllocationKind.heap) || has_leak allocations
