-- ===== src/Memory/Basic/Changes.antt =====
-- basic.md: the steps of a memory, and what each changes.
use minirust.Prelude.{
  ℕ, ◌%◌, ◌≡◌, refl, ap, true, false, List, some, length, get_elem?, set, ◌==◌, Option-cases, ◌⊎◌,
  inl, inr,
}
use minirust.Lang.Layout.{Target}
use minirust.Memory.Outcome.{Outcome, ok, >>=-eq-ok, ok_inj}
use minirust.Memory.Basic.{
  AbstractByte, AllocationKind, ThinPointer, AllocId, Allocation, same_kind, write_at, slice,
  lookup, allocate, is_choice, deallocate, check_ptr, store, load,
}
use minirust.Memory.Basic.Bytes.{demand-eq-ok, lookup-get, length-write_at}

module _ {P E : Type 0} where
  -- An allocation stays where it is, as long as it is, and does not come back to life.
  pub record Keeps (a b : Allocation P E) : Type 0 where
    pub live : b.live ≡ true → a.live ≡ true
    pub addr : b.addr ≡ a.addr
    pub size : length b.data_ ≡ length a.data_
    pub align : b.align ≡ a.align

  -- What is left of an operation: nothing changes, or one allocation does.
  unfoldable pub Changes : List (Allocation P E) → List (Allocation P E) → Type 0
  Changes m m' =
      (m ≡ m')
      ⊎ ((id : AllocId) × (a : Allocation P E) × (b : Allocation P E) × (get_elem? m id ≡ some a)
          × (set m id b ≡ m')
          × Keeps a b)

  -- A step of the memory: any operation that succeeds, with any data and handlers
  pub data Step (t : Target) : List (Allocation P E) → List (Allocation P E) → Type 0 where
    by_allocate :
        {m : List (Allocation P E)} (kind : AllocationKind) (size align : ℕ) (p : P) (e : E)
        (addr : ℕ) (r : ThinPointer (AllocId × P) × List (Allocation P E))
        → is_choice t m size align addr ≡ true
        → allocate t kind size align p e addr m ≡ ok r
        → Step t m r.1
    by_deallocate :
        {m m' : List (Allocation P E)} (ptr : ThinPointer (AllocId × P)) (kind : AllocationKind)
        (size align : ℕ) (handle : E → P → Outcome E)
        → deallocate ptr kind size align handle m ≡ ok m'
        → Step t m m'
    by_store :
        {m m' : List (Allocation P E)} (ptr : ThinPointer (AllocId × P))
        (bytes : List (AbstractByte (AllocId × P))) (align : ℕ) (handle : E → P → ℕ → Outcome E)
        → store ptr bytes align handle m ≡ ok m'
        → Step t m m'
    by_load :
        {m : List (Allocation P E)} (ptr : ThinPointer (AllocId × P)) (len align : ℕ)
        (handle : E → P → ℕ → Outcome E)
        (r : List (AbstractByte (AllocId × P)) × List (Allocation P E))
        → load ptr len align handle m ≡ ok r
        → Step t m r.1

  pub data Steps (t : Target) : List (Allocation P E) → List (Allocation P E) → Type 0 where
    done : {m : List (Allocation P E)} → Steps t m m
    step : {a b c : List (Allocation P E)} → Steps t a b → Step t b c → Steps t a c

  pub deallocate-Changes :
      (ptr : ThinPointer (AllocId × P)) (kind : AllocationKind) (size align : ℕ)
      (handle : E → P → Outcome E) (m m' : List (Allocation P E))
      → deallocate ptr kind size align handle m ≡ ok m'
      → (q : AllocId × P) × (a : Allocation P E) × (b : Allocation P E) × (ptr.provenance ≡ some q)
        × (get_elem? m q.0 ≡ some a)
        × (set m q.0 b ≡ m')
        × Keeps a b
        × (b.live ≡ false)
  unfolding deallocate
  deallocate-Changes ptr kind size align handle m m' h = elim (Option-cases ptr.provenance) [
    | inl e ↦ absurd (let k = rw (deallocate, e) at h in cc)
    | inr (q, e) ↦
        let (a, e₁, h₁) = >>=-eq-ok (lookup m q.0) _ (rw (deallocate, e) at h) in
        let (_, h₂) = demand-eq-ok a.live h₁ in
        let (_, h₃) = demand-eq-ok (ptr.addr == a.addr) h₂ in
        let (_, h₄) = demand-eq-ok (same_kind kind a.kind) h₃ in
        let (_, h₅) = demand-eq-ok (size == length a.data_) h₄ in
        let (_, h₆) = demand-eq-ok (align == a.align) h₅ in
        let (extra, _, h₇) = >>=-eq-ok (handle a.extra q.1) _ h₆ in
        (
          q,
          a,
          record a { extra = extra; live = false },
          e,
          lookup-get m q.0 a e₁,
          ok_inj h₇,
          record { live = λ l. cc; addr = refl; size = refl; align = refl },
          refl,
        )
  ]

  pub store-Changes :
      (ptr : ThinPointer (AllocId × P)) (bytes : List (AbstractByte (AllocId × P))) (align : ℕ)
      (handle : E → P → ℕ → Outcome E) (m m' : List (Allocation P E))
      → store ptr bytes align handle m ≡ ok m'
      → Changes m m'
  unfolding store Changes
  store-Changes ptr bytes align handle m m' h =
      let (_, h₁) = demand-eq-ok (ptr.addr % align == 0) h in
      let (c, _, h₂) = >>=-eq-ok (check_ptr ptr (length bytes) m) _ h₁ in
      elim (Option-cases c) [
        | inl e ↦ inl (ok_inj (rw e at h₂))
        | inr (r, e) ↦
            let (a, e₁, h₃) = >>=-eq-ok (lookup m r.0) _ (rw e at h₂) in
            let (extra, _, h₄) = >>=-eq-ok (handle a.extra r.1 r.2) _ h₃ in
            let (written, w, h₅) = >>=-eq-ok (write_at a.data_ r.2 bytes) _ h₄ in
            inr (
              r.0,
              a,
              record a { extra = extra; data_ = written },
              lookup-get m r.0 a e₁,
              ok_inj h₅,
              record {
                live = λ l. l;
                addr = refl;
                size = length-write_at a.data_ r.2 bytes written w;
                align = refl;
              },
            )
      ]

  pub load-Changes :
      (ptr : ThinPointer (AllocId × P)) (len align : ℕ) (handle : E → P → ℕ → Outcome E)
      (m : List (Allocation P E)) (q : List (AbstractByte (AllocId × P)) × List (Allocation P E))
      → load ptr len align handle m ≡ ok q
      → Changes m q.1
  unfolding load Changes
  load-Changes ptr len align handle m q h =
      let (_, h₁) = demand-eq-ok (ptr.addr % align == 0) h in
      let (c, _, h₂) = >>=-eq-ok (check_ptr ptr len m) _ h₁ in
      elim (Option-cases c) [
        | inl e ↦ inl (
            ap (λ (x : List (AbstractByte (AllocId × P)) × List (Allocation P E)). x.1)
              (ok_inj (rw e at h₂)))
        | inr (r, e) ↦
            let (a, e₁, h₃) = >>=-eq-ok (lookup m r.0) _ (rw e at h₂) in
            let (extra, _, h₄) = >>=-eq-ok (handle a.extra r.1 r.2) _ h₃ in
            let (bytes, _, h₅) = >>=-eq-ok (slice a.data_ r.2 len) _ h₄ in
            inr (
              r.0,
              a,
              record a { extra = extra },
              lookup-get m r.0 a e₁,
              ap (λ (x : List (AbstractByte (AllocId × P)) × List (Allocation P E)). x.1)
                  (ok_inj h₅),
              record { live = λ l. l; addr = refl; size = refl; align = refl },
            )
      ]
