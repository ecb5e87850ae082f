-- ===== src/Minimize/Chunks/Slice.antt =====
-- chunks.rs: lengths and markers after the marking functions on a part of the list.
use minirust.Prelude.{
  ℕ, zero, suc, ◌+◌, ◌-◌, ◌<◌, ◌≡◌, sym, ap, ◌∙◌, >>=-eq-some, some_inj, Bool, true, false, ◌&&◌,
  ◌||◌, List, [], ◌∷◌, Option, some, ◌>>=◌, length, get_or, set, ltb, leb, ◌==◌, arith, length-set,
}
use minirust.Minimize.Chunks.{at_offset, mark_size_loop, mark_size}

-- Where `f` does not panic it keeps the length, and sets the markers of just the bytes of `u`.
pub record Marks (f : List Bool → Option (List Bool)) (u : ℕ → Bool) : Type 0 where
  pub keeps : (m m' : List Bool) → f m ≡ some m' → length m' ≡ length m
  pub marks :
      (m m' : List Bool) (i : ℕ) → f m ≡ some m' → get_or m' i false ≡ (get_or m i false || u i)

pub Marks-none : Marks some (λ i. false)
Marks-none = record { keeps = λ m m' h. ground arith; marks = λ m m' i h. ground arith }

module _ {f g : List Bool → Option (List Bool)} {u v : ℕ → Bool} where
  -- One function after the other marks what either marks.
  pub Marks-seq : Marks f u → Marks g v → Marks (λ m. f m >>= g) (λ i. u i || v i)
  Marks-seq hf hg = record {
    keeps =
        λ m m' h. let (m₁, e, e') = >>=-eq-some (f m) g h in hg.keeps m₁ m' e' ∙ hf.keeps m m₁ e;
    marks = λ m m' i h.
        let (m₁, e, e') = >>=-eq-some (f m) g h in
        ground (arith, hg.marks m₁ m' i e', hf.marks m m₁ i e);
  }

module _ {f : List Bool → Option (List Bool)} {u : ℕ → Bool} (hf : Marks f u) where
  keeps-at_offset : (o : ℕ) (m m' : List Bool) → at_offset o f m ≡ some m' → length m' ≡ length m
  unfolding at_offset
  keeps-at_offset zero m m' h = hf.keeps m m' h
  keeps-at_offset (suc o) [] m' h = cc
  keeps-at_offset (suc o) (b ∷ m) m' h =
      let (t, e, e') = >>=-eq-some (at_offset o f m) (λ t. some (b ∷ t)) h in
      ap length (sym (some_inj e')) ∙ ap suc (keeps-at_offset o m t e)

  marks-at_offset :
      (o : ℕ) (m m' : List Bool) (i : ℕ)
      → at_offset o f m ≡ some m'
      → get_or m' i false ≡ (get_or m i false || leb o i && u (i - o))
  unfolding at_offset
  marks-at_offset zero m m' i h =
      let e : i - 0 ≡ i = omega arith in rw e (ground (arith, hf.marks m m' i h))
  marks-at_offset (suc o) [] m' i h = cc
  marks-at_offset (suc o) (b ∷ m) m' i h =
      let (t, e, e') = >>=-eq-some (at_offset o f m) (λ t. some (b ∷ t)) h in
      rw (← some_inj e') (go t i (marks-at_offset o m t (i - 1) e))
    where
      go :
          (t : List Bool) (i : ℕ)
          → get_or t (i - 1) false ≡ (get_or m (i - 1) false || leb o (i - 1) && u (i - 1 - o))
          → get_or (b ∷ t) i false ≡ (get_or (b ∷ m) i false || leb (suc o) i && u (i - suc o))
      go t zero ih = ground arith
      go t (suc i) ih =
          let e : suc i - suc o ≡ i - o = omega arith in
          let e' : suc i - 1 ≡ i = omega arith in let ih' = rw e' at ih in rw e (ground arith)

  -- Marking from an offset on shifts the bytes by the offset.
  pub Marks-at_offset : (o : ℕ) → Marks (at_offset o f) (λ i. leb o i && u (i - o))
  Marks-at_offset o = record { keeps = keeps-at_offset o; marks = marks-at_offset o }

get_or-set :
    (m : List Bool) (i j : ℕ)
    → i < length m
    → get_or (set m i true) j false ≡ (get_or m j false || i == j)
get_or-set [] i j h = elim h [ ]
get_or-set (b ∷ m) zero zero h = ground arith
get_or-set (b ∷ m) zero (suc j) h = ground arith
get_or-set (b ∷ m) (suc i) zero h = ground arith
get_or-set (b ∷ m) (suc i) (suc j) h = ground (arith, get_or-set m i j)

keeps-mark_size_loop :
    (rounds i : ℕ) (m m' : List Bool) → mark_size_loop rounds i m ≡ some m' → length m' ≡ length m
unfolding mark_size_loop
keeps-mark_size_loop zero i m m' h = ground arith
keeps-mark_size_loop (suc rounds) i m m' h =
    ground (arith, keeps-mark_size_loop rounds (i + 1) (set m i true) m', length-set m i true)

marks-mark_size_loop :
    (rounds i : ℕ) (m m' : List Bool) (j : ℕ)
    → mark_size_loop rounds i m ≡ some m'
    → get_or m' j false ≡ (get_or m j false || leb i j && ltb j (i + rounds))
unfolding mark_size_loop
marks-mark_size_loop zero i m m' j h = ground arith
marks-mark_size_loop (suc rounds) i m m' j h =
    ground (arith, marks-mark_size_loop rounds (i + 1) (set m i true) m' j, get_or-set m i j)

-- `mark_size` marks the first bytes.
pub Marks-mark_size : (size : ℕ) → Marks (mark_size size) (λ i. ltb i size)
unfolding mark_size
Marks-mark_size size = record {
  keeps = keeps-mark_size_loop size 0;
  marks = λ m m' i h. ground (arith, marks-mark_size_loop size 0 m m' i h);
}
