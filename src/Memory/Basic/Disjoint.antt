-- ===== src/Memory/Basic/Disjoint.antt =====
-- basic.md: where live allocations lie.
use minirust.Prelude.{
  ℕ, zero, suc, ◌+◌, ◌*◌, ◌%◌, ◌^◌, ◌≤◌, ◌<◌, ◌≡◌, ◌≢◌, refl, sym, ◌∙◌, ap, subst, Bool, true,
  false, not, ◌&&◌, ◌||◌, List, [], ◌∷◌, ◌++◌, some, some_inj, length, length-replicate, get_elem?,
  get_elem?-set_ne, set, replicate, ltb, leb, ◌==◌, ==_iff, arith, Bool-cases, ◌⊎◌, inl, inr,
}
use minirust.Lang.Layout.{Target}
use minirust.Memory.Outcome.{ok_inj}
use minirust.Memory.Basic.{
  uninit, ThinPointer, AllocId, Allocation, overlaps, any_overlaps, is_choice, allocate,
}
use minirust.Memory.Basic.Bytes.{demand-eq-ok, get-set}
use minirust.Memory.Basic.Changes.{
  Keeps, Changes, Step, Steps, deallocate-Changes, store-Changes, load-Changes,
}

or_false : (b c : Bool) → (b || c) ≡ false → (b ≡ false) × (c ≡ false)
or_false true c h = cc
or_false false c h = (refl, h)

and_false : (b c : Bool) → (b && c) ≡ false → b ≡ true → c ≡ false
and_false true c h e = h
and_false false c h e = cc

and_true : (b c : Bool) → (b && c) ≡ true → (b ≡ true) × (c ≡ true)
and_true true c h = (refl, h)
and_true false c h = cc

not-true : (b : Bool) → not b ≡ true → b ≡ false
not-true true h = cc
not-true false h = refl

-- The end of the address space
abbrev pub space : Target → ℕ
space t = 2 ^ (8 * t.ptr_size)

module _ {P E : Type 0} where
  -- Where an allocation lies
  abbrev is_placed : ℕ → Allocation P E → Bool
  is_placed end a = not (a.addr == 0) && a.addr % a.align == 0 && ltb (a.addr + length a.data_) end

  abbrev is_placed_at : Allocation P E → ℕ → ℕ → Bool
  is_placed_at a size end = not (a.addr == 0) && a.addr % a.align == 0 && ltb (a.addr + size) end

  -- Live allocations lie where `is_placed` says, and different ones do not overlap in the sense of the
  -- machine.
  record Inv (end : ℕ) (m : List (Allocation P E)) : Type 0 where
    pub placed :
        (i : AllocId) (a : Allocation P E)
        → get_elem? m i ≡ some a
        → a.live ≡ true
        → is_placed end a ≡ true
    pub apart :
        (i j : AllocId) (a b : Allocation P E)
        → get_elem? m i ≡ some a
        → get_elem? m j ≡ some b
        → i ≢ j
        → a.live ≡ true
        → b.live ≡ true
        → overlaps a b.addr (length b.data_) ≡ false

  overlaps_sym :
      (a b : Allocation P E)
      → overlaps a b.addr (length b.data_) ≡ overlaps b a.addr (length a.data_)
  overlaps_sym a b = ground arith

  get_elem?-push :
      (m : List (Allocation P E)) (x a : Allocation P E) (i : AllocId)
      → get_elem? (m ++ x ∷ []) i ≡ some a
      → (get_elem? m i ≡ some a) ⊎ ((i ≡ length m) × (a ≡ x))
  get_elem?-push [] x a zero h = inr (refl, sym (some_inj h))
  get_elem?-push [] x a (suc i) h = cc
  get_elem?-push (y ∷ m) x a zero h = inl h
  get_elem?-push (y ∷ m) x a (suc i) h = elim (get_elem?-push m x a i h) [
    | inl e ↦ inl e
    | inr (e, f) ↦ inr (ap suc e, f)
  ]

  any_overlaps-get :
      (m : List (Allocation P E)) (addr size : ℕ) (i : AllocId) (a : Allocation P E)
      → any_overlaps m addr size ≡ false
      → get_elem? m i ≡ some a
      → a.live ≡ true
      → overlaps a addr size ≡ false
  any_overlaps-get [] addr size i a h e l = cc
  any_overlaps-get (x ∷ m) addr size zero a h e l =
      let same = some_inj e in
      subst (λ y. overlaps y addr size ≡ false) same
        (and_false x.live _ (or_false _ (any_overlaps m addr size) h).0
          (ap (λ (y : Allocation P E). y.live) same ∙ l))
  any_overlaps-get (x ∷ m) addr size (suc i) a h e l =
      any_overlaps-get m addr size i a (or_false _ (any_overlaps m addr size) h).1 e l

  push-Inv :
      (end : ℕ) (m : List (Allocation P E)) (x : Allocation P E)
      → is_placed end x ≡ true
      → any_overlaps m x.addr (length x.data_) ≡ false
      → Inv end m
      → Inv end (m ++ x ∷ [])
  push-Inv end m x fits free d = record {
    placed = λ i a h l. elim (get_elem?-push m x a i h) [
      | inl e ↦ d.placed i a e l
      | inr (_, e) ↦ rw e fits
    ];
    apart = λ i j a b h k ne l l'. elim (get_elem?-push m x a i h) [
      | inl e ↦ elim (get_elem?-push m x b j k) [
        | inl f ↦ d.apart i j a b e f ne l l'
        | inr (_, f) ↦ rw f (any_overlaps-get m x.addr (length x.data_) i a free e l)
      ]
      | inr (at, e) ↦ elim (get_elem?-push m x b j k) [
        | inl f ↦ overlaps_sym a b ∙ rw e (any_overlaps-get m x.addr (length x.data_) j b free f l')
        | inr (at', f) ↦ absurd (ne (at ∙ sym at'))
      ]
    ];
  }

  Keeps-refl : (a : Allocation P E) → Keeps a a
  Keeps-refl a = record { live = λ l. l; addr = refl; size = refl; align = refl }

  -- Each allocation after a change keeps one before.
  get-set-Keeps :
      (m : List (Allocation P E)) (id i : AllocId) (a b c : Allocation P E)
      → get_elem? m id ≡ some a
      → Keeps a b
      → get_elem? (set m id b) i ≡ some c
      → (d : Allocation P E) × (get_elem? m i ≡ some d) × Keeps d c
  get-set-Keeps m id i a b c found keeps h = elim (Bool-cases (id == i)) [
    | inl same ↦
        let eq = (==_iff id i).0 same in
        let one = some_inj (
          sym (get-set m id a b found)
          ∙ (subst (λ x. get_elem? (set m id b) x ≡ some c) (sym eq) h)) in
        (a, rw (← eq) found, subst (Keeps a) one keeps)
    | inr other ↦
        let ne = λ (eq : id ≡ i). differ id i other eq in
        (c, sym (get_elem?-set_ne m b ne) ∙ h, Keeps-refl c)
  ]
    where
      differ : (id i : ℕ) → (id == i) ≡ false → id ≢ i
      differ id i other eq = let k = (==_iff id i).1 eq in cc

  set-Inv :
      (end : ℕ) (m : List (Allocation P E)) (id : AllocId) (a b : Allocation P E)
      → get_elem? m id ≡ some a
      → Keeps a b
      → Inv end m
      → Inv end (set m id b)
  set-Inv end m id a b found keeps d = record {
    placed = λ i c h l.
        let (x, e, k) = get-set-Keeps m id i a b c found keeps h in
        rw (k.addr, k.size, k.align) (d.placed i x e (k.live l));
    apart = λ i j c c' h h' ne l l'.
        let (x, e, k) = get-set-Keeps m id i a b c found keeps h in
        let (y, f, k') = get-set-Keeps m id j a b c' found keeps h' in
        rw (k.addr, k.size, k'.addr, k'.size) (d.apart i j x y e f ne (k.live l) (k'.live l'));
  }

  Changes-Inv : (end : ℕ) (m m' : List (Allocation P E)) → Changes m m' → Inv end m → Inv end m'
  unfolding Changes
  Changes-Inv end m m' (inl e) d = subst (Inv end) e d
  Changes-Inv end m m' (inr (id, a, b, found, e, keeps)) d =
      subst (Inv end) e (set-Inv end m id a b found keeps d)

  choice-Inv :
      (t : Target) (m : List (Allocation P E)) (x : Allocation P E) (size : ℕ)
      → length x.data_ ≡ size
      → is_choice t m size x.align x.addr ≡ true
      → Inv (space t) m
      → Inv (space t) (m ++ x ∷ [])
  choice-Inv t m x size len choice d =
      let (fits, free) = and_true (is_placed_at x size (space t)) _ choice in
      push-Inv (space t) m x (rw len fits) (rw len (not-true _ free)) d

  Step-Inv :
      {t : Target} {m m' : List (Allocation P E)} → Step t m m' → Inv (space t) m → Inv (space t) m'
  unfolding Changes allocate
  Step-Inv {t} {m} (Step.by_allocate kind size align p e addr r choice h) d =
      let (_, h₁) = demand-eq-ok _ h in
      subst (λ (x : ThinPointer (AllocId × P) × List (Allocation P E)). Inv (space t) x.1)
        (ok_inj h₁)
        (choice-Inv t m
          (record {
            data_ = replicate size uninit;
            addr = addr;
            align = align;
            kind = kind;
            live = true;
            extra = e;
          })
          size (length-replicate size uninit) choice d)
  Step-Inv {t} {m} {m'} (Step.by_deallocate ptr kind size align handle h) d =
      let (q, a, b, _, found, e, keeps, _) = deallocate-Changes ptr kind size align handle m m' h in
      Changes-Inv (space t) m m' (inr (q.0, a, b, found, e, keeps)) d
  Step-Inv {t} {m} {m'} (Step.by_store ptr bytes align handle h) d =
      Changes-Inv (space t) m m' (store-Changes ptr bytes align handle m m' h) d
  Step-Inv {t} {m} (Step.by_load ptr len align handle r h) d =
      Changes-Inv (space t) m r.1 (load-Changes ptr len align handle m r h) d

  Steps-Inv : {t : Target} {m : List (Allocation P E)} → Steps t [] m → Inv (space t) m
  Steps-Inv Steps.done = record { placed = λ i a h l. cc; apart = λ i j a b h k ne l l'. cc }
  Steps-Inv {t} (Steps.step before s) = Step-Inv s (Steps-Inv before)

  -- Where two allocations lie: at different addresses, and one with all its bytes before the other
  abbrev pub IsApart : Allocation P E → Allocation P E → Type 0
  IsApart a b =
      (a.addr ≢ b.addr) × ((a.addr + length a.data_ ≤ b.addr) ⊎ (b.addr + length b.data_ ≤ a.addr))

  -- Live allocations have addresses that are not null, aligned and within the address space, and
  -- different ones are apart.
  pub record IsDisjoint (end : ℕ) (m : List (Allocation P E)) : Type 0 where
    pub placed :
        (i : AllocId) (a : Allocation P E)
        → get_elem? m i ≡ some a
        → a.live ≡ true
        → (a.addr ≢ 0) × (a.addr % a.align ≡ 0) × (a.addr + length a.data_ < end)
    pub apart :
        (i j : AllocId) (a b : Allocation P E)
        → get_elem? m i ≡ some a
        → get_elem? m j ≡ some b
        → i ≢ j
        → a.live ≡ true
        → b.live ≡ true
        → IsApart a b

  overlaps-IsApart :
      (a b : Allocation P E) → overlaps a b.addr (length b.data_) ≡ false → IsApart a b
  overlaps-IsApart a b h =
      let differ : a.addr ≢ b.addr = λ e. ground arith in
      elim (Bool-cases (leb (a.addr + length a.data_) b.addr)) [
        | inl before ↦ (differ, inl (ground arith))
        | inr after ↦ (differ, inr (ground arith))
      ]

  is_placed_iff :
      (end : ℕ) (a : Allocation P E)
      → is_placed end a ≡ true
      → (a.addr ≢ 0) × (a.addr % a.align ≡ 0) × (a.addr + length a.data_ < end)
  is_placed_iff end a h = (λ e. ground arith, ground arith, ground arith)

  -- After any operations on a new memory, each live allocation has an address that is not null, is a
  -- multiple of its alignment, and lies with all its bytes in the address space, and two different
  -- live allocations have different addresses, and one lies with all its bytes before the other.
  pub Steps-IsDisjoint :
      {t : Target} {m : List (Allocation P E)} → Steps t [] m → IsDisjoint (space t) m
  Steps-IsDisjoint {t} {m} steps =
      let inv = Steps-Inv steps in
      record {
        placed = λ i a h l. is_placed_iff (space t) a (inv.placed i a h l);
        apart = λ i j a b h k ne l l'. overlaps-IsApart a b (inv.apart i j a b h k ne l l');
      }
