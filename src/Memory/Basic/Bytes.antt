-- ===== src/Memory/Basic/Bytes.antt =====
-- basic.md: the bytes that loads and stores move.
use minirust.Prelude.{
  ℕ, zero, suc, ◌+◌, ◌-◌, ◌%◌, ◌≡◌, refl, sym, ◌∙◌, ap, subst, Bool, true, false, ◌&&◌, List, [],
  ◌∷◌, Option, some, some_inj, length, get_elem?, set, leb, ◌==◌, arith, Option-cases, inl, inr,
}
use minirust.Memory.Outcome.{Outcome, ok, >>=-eq-ok, ok_inj}
use minirust.Memory.Basic.{
  AbstractByte, ThinPointer, AllocId, Allocation, write_at, slice, lookup, demand, check_access,
  check_ptr, store, load,
}

pub length-write_at :
    {A : Type 0} (xs : List A) (i : ℕ) (ys zs : List A)
    → write_at xs i ys ≡ ok zs
    → length zs ≡ length xs
unfolding write_at
length-write_at xs zero [] zs h = ap length (sym (ok_inj h))
length-write_at [] zero (y ∷ ys) zs h = cc
length-write_at [] (suc i) ys zs h = cc
length-write_at (x ∷ xs) zero (y ∷ ys) zs h =
    let (rest, e, h₁) = >>=-eq-ok (write_at xs zero ys) _ h in
    ap length (sym (ok_inj h₁)) ∙ ap suc (length-write_at xs zero ys rest e)
length-write_at (x ∷ xs) (suc i) ys zs h =
    let (rest, e, h₁) = >>=-eq-ok (write_at xs i ys) _ h in
    ap length (sym (ok_inj h₁)) ∙ ap suc (length-write_at xs i ys rest e)

slice-write_at :
    {A : Type 0} (xs : List A) (i : ℕ) (ys zs : List A)
    → write_at xs i ys ≡ ok zs
    → slice zs i (length ys) ≡ ok ys
unfolding write_at slice
slice-write_at xs zero [] zs h = refl
slice-write_at [] zero (y ∷ ys) zs h = cc
slice-write_at [] (suc i) ys zs h = cc
slice-write_at (x ∷ xs) zero (y ∷ ys) zs h =
    let (rest, e, h₁) = >>=-eq-ok (write_at xs zero ys) _ h in
    let k = slice-write_at xs zero ys rest e in
    subst (λ l. slice l zero (suc (length ys)) ≡ ok (y ∷ ys)) (ok_inj h₁) (rw k refl)
slice-write_at (x ∷ xs) (suc i) ys zs h =
    let (rest, e, h₁) = >>=-eq-ok (write_at xs i ys) _ h in
    subst (λ l. slice l (suc i) (length ys) ≡ ok ys) (ok_inj h₁) (slice-write_at xs i ys rest e)

pub demand-eq-ok {ℓ} :
    {A : Type ℓ} (c : Bool) {o : Outcome A} {a : A} → demand c o ≡ ok a → (c ≡ true) × (o ≡ ok a)
demand-eq-ok true h = (refl, h)
demand-eq-ok false h = cc

set_twice : {A : Type 0} (xs : List A) (i : ℕ) (x y : A) → set (set xs i x) i y ≡ set xs i y
set_twice [] i x y = refl
set_twice (z ∷ xs) zero x y = refl
set_twice (z ∷ xs) (suc i) x y = ap (λ l. z ∷ l) (set_twice xs i x y)

module _ {P E : Type 0} where
  pub lookup-get :
      (m : List (Allocation P E)) (id : AllocId) (a : Allocation P E)
      → lookup m id ≡ ok a
      → get_elem? m id ≡ some a
  lookup-get m id a h = elim (Option-cases (get_elem? m id)) [
    | inl e ↦ absurd (let k = rw (lookup, e) at h in cc)
    | inr (b, e) ↦ e ∙ ap some (ok_inj (rw (lookup, e) at h))
  ]

  pub get-lookup :
      (m : List (Allocation P E)) (id : AllocId) (a : Allocation P E)
      → get_elem? m id ≡ some a
      → lookup m id ≡ ok a
  get-lookup m id a h = rw (lookup, h) refl

  pub get-set :
      (m : List (Allocation P E)) (id : AllocId) (a b : Allocation P E)
      → get_elem? m id ≡ some a
      → get_elem? (set m id b) id ≡ some b
  get-set [] id a b h = cc
  get-set (c ∷ m) zero a b h = refl
  get-set (c ∷ m) (suc id) a b h = get-set m id a b h

  -- A pointer that can access `len` bytes, what it points to, and where
  pub record Points (ptr : ThinPointer (AllocId × P)) (len : ℕ) (m : List (Allocation P E))
      (r : AllocId × P × ℕ) (a : Allocation P E) : Type 0 where
    pub provenance : ptr.provenance ≡ some (r.0, r.1)
    pub found : get_elem? m r.0 ≡ some a
    pub live : a.live ≡ true
    pub bounds : (leb a.addr ptr.addr && leb (ptr.addr - a.addr + len) (length a.data_)) ≡ true
    pub offset : ptr.addr - a.addr ≡ r.2

  pub check_access-Points :
      (ptr : ThinPointer (AllocId × P)) (len : ℕ) (m : List (Allocation P E)) (r : AllocId × P × ℕ)
      → check_access ptr len m ≡ ok r
      → (a : Allocation P E) × Points ptr len m r a
  unfolding check_access
  check_access-Points ptr len m r h = elim (Option-cases ptr.provenance) [
    | inl e ↦ absurd (let k = rw e at h in cc)
    | inr (p, e) ↦
        let (a, e₁, h₁) = >>=-eq-ok (lookup m p.0) _ (rw e at h) in
        let (alive, h₂) = demand-eq-ok a.live h₁ in
        let (bounds, h₃) =
          demand-eq-ok (leb a.addr ptr.addr && leb (ptr.addr - a.addr + len) (length a.data_)) h₂ in
        let eq = ok_inj h₃ in
        (
          a,
          record {
            provenance = e ∙ ap (λ (x : AllocId × P × ℕ). some (x.0, x.1)) eq;
            found =
                subst (λ (x : AllocId × P × ℕ). get_elem? m x.0 ≡ some a) eq
                  (lookup-get m p.0 a e₁);
            live = alive;
            bounds = bounds;
            offset = ap (λ (x : AllocId × P × ℕ). x.2) eq;
          },
        )
  ]

  pub Points-check_access :
      (ptr : ThinPointer (AllocId × P)) (len : ℕ) (m : List (Allocation P E)) (r : AllocId × P × ℕ)
      (a : Allocation P E)
      → Points ptr len m r a
      → check_access ptr len m ≡ ok r
  unfolding check_access
  Points-check_access ptr len m r a h =
      rw (check_access, h.provenance, get-lookup m r.0 a h.found, h.live, h.bounds, h.offset) refl

  check_ptr-eq-ok :
      (ptr : ThinPointer (AllocId × P)) (len : ℕ) (m : List (Allocation P E))
      (c : Option (AllocId × P × ℕ))
      → (len == 0) ≡ false
      → check_ptr ptr len m ≡ ok c
      → (r : AllocId × P × ℕ) × (check_access ptr len m ≡ ok r) × (c ≡ some r)
  unfolding check_ptr
  check_ptr-eq-ok ptr len m c e h =
      let (r, e₁, h₁) = >>=-eq-ok (check_access ptr len m) _ (rw (check_ptr, e) at h) in
      (r, e₁, sym (ok_inj h₁))

  -- What a store does to memory when it writes
  pub store-Points :
      (ptr : ThinPointer (AllocId × P)) (bytes : List (AbstractByte (AllocId × P))) (align : ℕ)
      (handle : E → P → ℕ → Outcome E) (m m' : List (Allocation P E))
      → store ptr bytes align handle m ≡ ok m'
      → (length bytes == 0) ≡ false
      → (r : AllocId × P × ℕ) × (a : Allocation P E) × (extra : E) × (written : List
          (AbstractByte (AllocId × P)))
        × Points ptr (length bytes) m r a
        × (handle a.extra r.1 r.2 ≡ ok extra)
        × (write_at a.data_ r.2 bytes ≡ ok written)
        × (set m r.0 (record a { extra = extra; data_ = written }) ≡ m')
        × ((ptr.addr % align == 0) ≡ true)
  unfolding store check_ptr
  store-Points ptr bytes align handle m m' h e =
      let (aligned, h₁) = demand-eq-ok (ptr.addr % align == 0) h in
      let (c, e₁, h₂) = >>=-eq-ok (check_ptr ptr (length bytes) m) _ h₁ in
      let (r, e₂, e₃) = check_ptr-eq-ok ptr (length bytes) m c e e₁ in
      let (a, e₄, h₃) = >>=-eq-ok (lookup m r.0) _ (rw e₃ at h₂) in
      let (extra, e₅, h₄) = >>=-eq-ok (handle a.extra r.1 r.2) _ h₃ in
      let (written, e₆, h₅) = >>=-eq-ok (write_at a.data_ r.2 bytes) _ h₄ in
      let (b, points) = check_access-Points ptr (length bytes) m r e₂ in
      let same = some_inj (sym (lookup-get m r.0 a e₄) ∙ points.found) in
      (
        r,
        a,
        extra,
        written,
        subst (Points ptr (length bytes) m r) (sym same) points,
        e₅,
        e₆,
        ok_inj h₅,
        aligned,
      )

-- The basic model has no extra data.
abbrev pub NoExtra : Type 0
NoExtra = Unit

-- What the handler of the extra data is there
abbrev pub no_extra : NoExtra → NoExtra → ℕ → Outcome NoExtra
no_extra e p offset = ok e

load-stored :
    (ptr : ThinPointer (AllocId × NoExtra)) (bytes : List (AbstractByte (AllocId × NoExtra)))
    (align : ℕ) (m m' : List (Allocation NoExtra NoExtra))
    → (length bytes == 0) ≡ false
    → store ptr bytes align no_extra m ≡ ok m'
    → load ptr (length bytes) align no_extra m' ≡ ok (bytes, m')
unfolding load check_ptr
load-stored ptr bytes align m m' e h =
    let (r, a, extra, written, points, _, w, eq, aligned) =
      store-Points ptr bytes align no_extra m m' h e in
    let b = record a { extra = extra; data_ = written } in
    let found = get-set m r.0 a b points.found in
    let len = length-write_at a.data_ r.2 bytes written w in
    let again = Points-check_access ptr (length bytes) (set m r.0 b) r b (record {
      provenance = points.provenance;
      found = found;
      live = points.live;
      bounds = rw len points.bounds;
      offset = points.offset;
    }) in
    let cut = slice-write_at a.data_ r.2 bytes written w in
    subst (λ l. load ptr (length bytes) align no_extra l ≡ ok (bytes, l)) eq
      (rw
        (
          load,
          aligned,
          check_ptr,
          e,
          again,
          get-lookup (set m r.0 b) r.0 b found,
          cut,
          set_twice m r.0 b b,
        )
        refl)

-- In the model without extra data, a load of as many bytes as were stored last, through the same
-- pointer, gives these bytes and leaves the memory as it is.
pub load-store :
    (ptr : ThinPointer (AllocId × NoExtra)) (bytes : List (AbstractByte (AllocId × NoExtra)))
    (align : ℕ) (m m' : List (Allocation NoExtra NoExtra))
    → store ptr bytes align no_extra m ≡ ok m'
    → load ptr (length bytes) align no_extra m' ≡ ok (bytes, m')
unfolding load store check_ptr
load-store ptr [] align m m' h =
    let (aligned, h₁) = demand-eq-ok (ptr.addr % align == 0) h in
    subst (λ l. load ptr 0 align no_extra l ≡ ok ([], l)) (ok_inj h₁) (rw (load, aligned) refl)
load-store ptr (b ∷ bytes) align m m' h = load-stored ptr (b ∷ bytes) align m m' (ground arith) h
