-- ===== src/Minimize/Chunks/Returns.antt =====
-- Functions on a list of markers that return exactly on the lists of certain lengths.
use minirust.Prelude.{
  ℕ, zero, suc, ◌+◌, ◌-◌, ◌≤◌, ◌≡◌, refl, sym, subst, Bool, true, List, [], ◌∷◌, Option, none, some,
  ◌>>=◌, >>=-eq-some, length, length-set, set, arith,
}
use minirust.Minimize.Chunks.{at_offset, mark_size_loop, mark_size}
use minirust.Minimize.Chunks.Slice.{Marks}

-- The part at `offset` lies within `n` bytes, and `P` holds of the bytes that it has.
abbrev pub FitsAt : ℕ → (ℕ → Type 0) → ℕ → Type 0
FitsAt offset P n = (offset ≤ n) × P (n - offset)

-- `f` returns exactly on the lists of a length for which `P` holds.
pub record Returns (f : List Bool → Option (List Bool)) (P : ℕ → Type 0) : Type 0 where
  pub runs : (m : List Bool) → P (length m) → (m' : List Bool) × (f m ≡ some m')
  pub fits : (m m' : List Bool) → f m ≡ some m' → P (length m)

pub Returns-some : Returns some (λ n. Unit)
Returns-some = record { runs = λ m h. (m, refl); fits = λ m m' h. tt }

pub Returns-panic : Returns (λ m. none) (λ n. ⊥)
Returns-panic = record { runs = λ m h. absurd h; fits = λ m m' h. cc }

module _ {f g : List Bool → Option (List Bool)} {u : ℕ → Bool} {P Q : ℕ → Type 0} where
  pub Returns-seq :
      Returns f P → Marks f u → Returns g Q → Returns (λ m. f m >>= g) (λ n. P n × Q n)
  Returns-seq hf mf hg = record {
    runs = λ m (p, q).
        let (m₁, e) = hf.runs m p in
        let (m₂, e') = hg.runs m₁ (subst Q (sym (mf.keeps m m₁ e)) q) in (m₂, rw e e');
    fits = λ m m' h.
        let (m₁, e, e') = >>=-eq-some (f m) g h in
        (hf.fits m m₁ e, subst Q (mf.keeps m m₁ e) (hg.fits m₁ m' e'));
  }

module _ {f : List Bool → Option (List Bool)} {P : ℕ → Type 0} (hf : Returns f P) where
  runs-at_offset :
      (o : ℕ) (m : List Bool)
      → o ≤ length m
      → P (length m - o)
      → (m' : List Bool) × (at_offset o f m ≡ some m')
  unfolding at_offset
  runs-at_offset zero m h p =
      let e : length m - 0 ≡ length m = omega arith in hf.runs m (subst P e p)
  runs-at_offset (suc o) [] h p = absurd (omega arith)
  runs-at_offset (suc o) (b ∷ m) h p =
      let e : suc (length m) - suc o ≡ length m - o = omega arith in
      let (t, e') = runs-at_offset o m (omega arith) (subst P e p) in (b ∷ t, rw e')

  fits-at_offset : (o : ℕ) (m m' : List Bool) → at_offset o f m ≡ some m' → FitsAt o P (length m)
  unfolding at_offset
  fits-at_offset zero m m' h =
      let e : length m ≡ length m - 0 = omega arith in (omega arith, subst P e (hf.fits m m' h))
  fits-at_offset (suc o) [] m' h = cc
  fits-at_offset (suc o) (b ∷ m) m' h =
      let (t, e, e') = >>=-eq-some (at_offset o f m) (λ t. some (b ∷ t)) h in
      let rest = fits-at_offset o m t e in
      let e'' : length m - o ≡ suc (length m) - suc o = omega arith in
      (omega (arith, rest.0), subst P e'' rest.1)

  pub Returns-at_offset : (o : ℕ) → Returns (at_offset o f) (FitsAt o P)
  Returns-at_offset o = record {
    runs = λ m (h, p). runs-at_offset o m h p;
    fits = fits-at_offset o;
  }

runs-mark_size_loop :
    (rounds i : ℕ) (m : List Bool)
    → i + rounds ≤ length m
    → (m' : List Bool) × (mark_size_loop rounds i m ≡ some m')
unfolding mark_size_loop
runs-mark_size_loop zero i m h = (m, refl)
runs-mark_size_loop (suc rounds) i m h =
    let (m', e) =
      runs-mark_size_loop rounds (i + 1) (set m i true) (omega (arith, length-set m i true)) in
    (m', ground arith)

fits-mark_size_loop :
    (rounds i : ℕ) (m m' : List Bool)
    → i ≤ length m
    → mark_size_loop rounds i m ≡ some m'
    → i + rounds ≤ length m
unfolding mark_size_loop
fits-mark_size_loop zero i m m' h e = omega arith
fits-mark_size_loop (suc rounds) i m m' h e =
    ground (arith, fits-mark_size_loop rounds (i + 1) (set m i true) m', length-set m i true)

pub Returns-mark_size : (size : ℕ) → Returns (mark_size size) (λ n. size ≤ n)
unfolding mark_size
Returns-mark_size size = record {
  runs = λ m h. runs-mark_size_loop size 0 m (omega arith);
  fits = λ m m' h. omega (arith, fits-mark_size_loop size 0 m m' (omega arith) h);
}

pub Returns-part :
    (offset size : ℕ) → Returns (at_offset offset (mark_size size)) (FitsAt offset (λ k. size ≤ k))
Returns-part offset size = Returns-at_offset (Returns-mark_size size) offset
