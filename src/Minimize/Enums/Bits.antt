-- ===== src/Minimize/Enums/Bits.antt =====
-- enums.rs: the range of the numbers that int_from_bits makes of bits.
use minirust.Prelude.{
  ℕ, zero, suc, ◌+◌, ◌-◌, ◌*◌, ◌%◌, ◌^◌, ◌<◌, ◌≤◌, ◌≡◌, refl, ◌⊎◌, true, some, if◌then◌else◌, ltb,
  arith, Bool-cases, inl, inr, lt→ltb, ltb→lt,
}
use native.Mathlib.Nat.{two-pow-succ, pow-le-pow_right, one-le-pow, mod-lt}
use minirust.Prelude.Int.{ℤ, pos, negsuc}
use minirust.Lang.Types.{Signedness, signed, unsigned, IntType}
use minirust.Minimize.Rust.{RsTypes}
use minirust.Minimize.Enums.{as_i128, int_from_bits}

-- rustc's documentation of `Size::truncate` and `Size::sign_extend`, at sizes up to 128 bits: the
-- value modulo 2 ^ w, and the number of 128 bits that has the same sign and value at w bits.
abbrev pub Truncates : RsTypes → Type 0
Truncates q = (w v : ℕ) → w ≤ 128 → q.truncate w v ≡ v % 2 ^ w

abbrev pub SignExtends : RsTypes → Type 0
SignExtends q =
    (w v : ℕ)
    → 0 < w
    → w ≤ 128
    → q.sign_extend w v
      ≡ (if ltb (v % 2 ^ w) (2 ^ (w - 1)) then v % 2 ^ w else v % 2 ^ w + (2 ^ 128 - 2 ^ w))

-- The numbers of w bits that stand for the residue `m` of 2 ^ w
unfoldable pub Represents : Signedness → ℕ → ℕ → ℤ → Type 0
Represents unsigned w m (pos n) = (n < 2 ^ w) × (n ≡ m)
Represents unsigned w m (negsuc n) = ⊥
Represents signed w m (pos n) = (n < 2 ^ (w - 1)) × (n ≡ m)
Represents signed w m (negsuc n) = (n < 2 ^ (w - 1)) × (n + 1 + m ≡ 2 ^ w)

pow_half : (w : ℕ) → 0 < w → 2 ^ w ≡ 2 ^ (w - 1) + 2 ^ (w - 1)
pow_half zero h = absurd (omega arith)
pow_half (suc w) h = let e : suc w - 1 ≡ w = omega arith in rw e (two-pow-succ w)

pow_le : (w : ℕ) → w ≤ 128 → 2 ^ w ≤ 2 ^ 128
pow_le w h = pow-le-pow_right {n = 2} (omega arith) h

pow_pos : (w : ℕ) → 0 < 2 ^ w
pow_pos w = one-le-pow w 2 (omega arith)

-- A number of 128 bits that was sign-extended from `p` = 2 ^ w numbers, read as a signed one
as_i128_small : (m p half : ℕ) → p ≡ half + half → p ≤ 2 ^ 128 → m < half → as_i128 m ≡ pos m
as_i128_small m p half e le small = ground arith

as_i128_large :
    (m p half : ℕ)
    → p ≡ half + half
    → p ≤ 2 ^ 128
    → half ≤ m
    → m < p
    → as_i128 (m + (2 ^ 128 - p)) ≡ negsuc (p - m - 1)
as_i128_large m p half e le large lt = ground arith

sign_extended :
    (w m : ℕ)
    → 0 < w
    → w ≤ 128
    → m < 2 ^ w
    → Represents signed w m (as_i128 (if ltb m (2 ^ (w - 1)) then m else m + (2 ^ 128 - 2 ^ w)))
unfolding Represents
sign_extended w m positive le lt = elim (Bool-cases (ltb m (2 ^ (w - 1)))) [
  | inl small ↦
      rw
        (
          small,
          as_i128_small m (2 ^ w) (2 ^ (w - 1)) (pow_half w positive) (pow_le w le)
              (ltb→lt m (2 ^ (w - 1)) small),
        )
        (ltb→lt m (2 ^ (w - 1)) small, refl)
  | inr large ↦
      let ge : 2 ^ (w - 1) ≤ m = ground arith in
      let half = pow_half w positive in
      rw (large, as_i128_large m (2 ^ w) (2 ^ (w - 1)) half (pow_le w le) ge lt)
        (negative (2 ^ w) (2 ^ (w - 1)) m half ge lt)
]
  where
    negative :
        (p half m : ℕ)
        → p ≡ half + half
        → half ≤ m
        → m < p
        → (p - m - 1 < half) × (p - m - 1 + 1 + m ≡ p)
    negative p half m e ge lt = (omega arith, omega arith)

-- int_from_bits returns, for an integer type of at least one and at most 16 bytes, the number in the
-- range of the type that stands for the bits modulo two to the width of the type, if rustc truncates
-- and sign-extends as it documents.
pub int_from_bits-Represents :
    (q : RsTypes) (bits : ℕ) (ity : IntType)
    → Truncates q
    → SignExtends q
    → 0 < ity.size
    → ity.size ≤ 16
    → (i : ℤ) × (int_from_bits q bits ity ≡ some i)
      × Represents ity.signed (ity.size * 8) (bits % 2 ^ (ity.size * 8)) i
unfolding int_from_bits Represents
int_from_bits-Represents q bits ity trunc ext positive le =
    let small : ltb (ity.size * 8) 256 ≡ true = lt→ltb (ity.size * 8) 256 (omega arith) in
    let lt = mod-lt bits (pow_pos (ity.size * 8)) in
    elim (sign-cases ity.signed) [
      | inl e ↦ (
        pos (bits % 2 ^ (ity.size * 8)),
        rw (small, e, trunc (ity.size * 8) bits (omega arith)) refl,
        rw e (lt, refl),
      )
      | inr e ↦ (
        as_i128 (q.sign_extend (ity.size * 8) bits),
        rw (small, e) refl,
        rw (e, ext (ity.size * 8) bits (omega arith) (omega arith))
            (sign_extended (ity.size * 8) (bits % 2 ^ (ity.size * 8)) (omega arith) (omega arith)
              lt),
      )
    ]
  where
    sign-cases : (s : Signedness) → (s ≡ unsigned) ⊎ (s ≡ signed)
    sign-cases unsigned = inl refl
    sign-cases signed = inr refl
