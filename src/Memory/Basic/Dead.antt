-- ===== src/Memory/Basic/Dead.antt =====
-- basic.md: allocations that are gone.
use minirust.Prelude.{
  ℕ, zero, suc, length, ◌%◌, ◌≡◌, refl, sym, ◌∙◌, ap, subst, false, List, [], ◌∷◌, ◌++◌, some,
  some_inj, get_elem?, get_elem?-set_ne, ◌==◌, ==_iff, arith, Bool-cases, inl, inr,
}
use minirust.Lang.Layout.{Target}
use minirust.Memory.Outcome.{Outcome, ok, ub, ok_inj}
use minirust.Memory.Basic.{
  AbstractByte, lookup, load, store, AllocationKind, ThinPointer, AllocId, Allocation, allocate,
  deallocate, check_access, check_ptr,
}
use minirust.Memory.Basic.Bytes.{demand-eq-ok, get-lookup, get-set}
use minirust.Memory.Basic.Changes.{
  Changes, Step, Steps, deallocate-Changes, store-Changes, load-Changes,
}

module _ {P E : Type 0} where
  pub IsDead : AllocId → List (Allocation P E) → Type 0
  IsDead id m = (a : Allocation P E) × (get_elem? m id ≡ some a) × (a.live ≡ false)

  Changes-IsDead :
      (id : AllocId) (m m' : List (Allocation P E)) → Changes m m' → IsDead id m → IsDead id m'
  unfolding Changes IsDead
  Changes-IsDead id m m' (inl e) d = subst (IsDead id) e d
  Changes-IsDead id m m' (inr (j, a, b, found, e, keeps)) (c, dead, gone) =
      subst (IsDead id) e (elim (Bool-cases (j == id)) [
        | inl same ↦
            let eq = (==_iff j id).0 same in
            let one = some_inj (sym (rw eq at found) ∙ dead) in
            elim (Bool-cases b.live) [
              | inl alive ↦ absurd (
                  let k = keeps.live alive in let l = ap (λ (x : Allocation P E). x.live) one in cc)
              | inr off ↦ (b, rw eq (get-set m id a b (rw eq at found)), off)
            ]
        | inr other ↦
            (c, get_elem?-set_ne m b (λ eq. let k = (==_iff j id).1 eq in cc) ∙ dead, gone)
      ])

  get_elem?-append :
      (m l : List (Allocation P E)) (id : AllocId) (a : Allocation P E)
      → get_elem? m id ≡ some a
      → get_elem? (m ++ l) id ≡ some a
  get_elem?-append [] l id a h = cc
  get_elem?-append (x ∷ m) l zero a h = h
  get_elem?-append (x ∷ m) l (suc id) a h = get_elem?-append m l id a h

  Step-IsDead :
      {t : Target} (id : AllocId) {m m' : List (Allocation P E)}
      → Step t m m'
      → IsDead id m
      → IsDead id m'
  unfolding Changes IsDead allocate
  Step-IsDead id {m} (Step.by_allocate kind size align p e addr r choice h) (c, dead, gone) =
      let (_, h₁) = demand-eq-ok _ h in
      (
        c,
        subst (λ (x : ThinPointer (AllocId × P) × List (Allocation P E)). get_elem? x.1 id ≡ some c)
            (ok_inj h₁) (get_elem?-append m _ id c dead),
        gone,
      )
  Step-IsDead id {m} {m'} (Step.by_deallocate ptr kind size align handle h) d =
      let (q, a, b, _, found, e, keeps, off) =
        deallocate-Changes ptr kind size align handle m m' h in
      Changes-IsDead id m m' (inr (q.0, a, b, found, e, keeps)) d
  Step-IsDead id {m} {m'} (Step.by_store ptr bytes align handle h) d =
      Changes-IsDead id m m' (store-Changes ptr bytes align handle m m' h) d
  Step-IsDead id {m} (Step.by_load ptr len align handle r h) d =
      Changes-IsDead id m r.1 (load-Changes ptr len align handle m r h) d

  Steps-IsDead :
      {t : Target} (id : AllocId) {m m' : List (Allocation P E)}
      → Steps t m m'
      → IsDead id m
      → IsDead id m'
  Steps-IsDead id Steps.done d = d
  Steps-IsDead id (Steps.step before s) d = Step-IsDead id s (Steps-IsDead id before d)

  check_ptr-dead :
      (q : ThinPointer (AllocId × P)) (id : AllocId) (p : P) (n : ℕ) (m : List (Allocation P E))
      (a : Allocation P E)
      → q.provenance ≡ some (id, p)
      → lookup m id ≡ ok a
      → a.live ≡ false
      → check_ptr q (suc n) m ≡ ub
  unfolding check_ptr check_access
  check_ptr-dead q id p n m a e looked gone =
      rw (check_ptr, check_access, e, looked, gone) (ground arith)

  -- What the check of the pointer refuses, a load and a store refuse.
  load-ub :
      (q : ThinPointer (AllocId × P)) (n at : ℕ) (on_access : E → P → ℕ → Outcome E)
      (m : List (Allocation P E))
      → check_ptr q n m ≡ ub
      → load q n at on_access m ≡ ub
  unfolding load
  load-ub q n at on_access m h = elim (Bool-cases (q.addr % at == 0)) [
    | inl e ↦ rw (load, e, h) refl
    | inr e ↦ rw (load, e) refl
  ]

  store-ub :
      (q : ThinPointer (AllocId × P)) (bytes : List (AbstractByte (AllocId × P))) (at : ℕ)
      (on_access : E → P → ℕ → Outcome E) (m : List (Allocation P E))
      → check_ptr q (length bytes) m ≡ ub
      → store q bytes at on_access m ≡ ub
  unfolding store
  store-ub q bytes at on_access m h = elim (Bool-cases (q.addr % at == 0)) [
    | inl e ↦ rw (store, e, h) refl
    | inr e ↦ rw (store, e) refl
  ]

  -- Once an allocation is deallocated, and after any further operations, with any handlers of extra
  -- data, each load and each store of a byte or more through a pointer to it is undefined behaviour,
  -- as is the check of such a pointer, and so is deallocating it again.
  pub use_after_free :
      (t : Target) (ptr q : ThinPointer (AllocId × P)) (id : AllocId) (p p' : P)
      (kind kind' : AllocationKind) (size align size' align' len : ℕ)
      (handle handle' : E → P → Outcome E) (bytes : List (AbstractByte (AllocId × P)))
      (byte : AbstractByte (AllocId × P)) (at : ℕ) (on_access : E → P → ℕ → Outcome E)
      (m m₁ m₂ : List (Allocation P E))
      → ptr.provenance ≡ some (id, p)
      → deallocate ptr kind size align handle m ≡ ok m₁
      → Steps t m₁ m₂
      → q.provenance ≡ some (id, p')
      → (load q (suc len) at on_access m₂ ≡ ub)
        × (store q (byte ∷ bytes) at on_access m₂ ≡ ub)
        × (check_ptr q (suc len) m₂ ≡ ub)
        × (deallocate q kind' size' align' handle' m₂ ≡ ub)
  unfolding IsDead deallocate
  use_after_free t ptr q id p p' kind kind' size align size' align' len handle handle' bytes byte at
        on_access m m₁ m₂ e h steps e' =
      let (r, a, b, prov, found, change, _, off) =
        deallocate-Changes ptr kind size align handle m m₁ h in
      let same = ap (λ (x : AllocId × P). x.0) (some_inj (sym prov ∙ e)) in
      let dead =
        subst (λ i. IsDead i m₁) same
          (b, subst (λ l. get_elem? l r.0 ≡ some b) change (get-set m r.0 a b found), off) in
      let (c, still, gone) = Steps-IsDead id steps dead in
      let looked = get-lookup m₂ id c still in
      let dead_ptr = λ (n : ℕ). check_ptr-dead q id p' n m₂ c e' looked gone in
      (
        load-ub q (suc len) at on_access m₂ (dead_ptr len),
        store-ub q (byte ∷ bytes) at on_access m₂ (dead_ptr (length bytes)),
        dead_ptr len,
        rw (deallocate, e', looked, gone) refl,
      )
