-- ===== src/Fmt/Brackets.antt =====
-- The brackets of a printed text: whether they are closed in the order in which they are opened.
-- `<` and `>` are no brackets, since they are operators too.
pub mod Pieces
pub mod Operators
pub mod Tables
use minirust.Prelude.{
  ℕ, zero, suc, ◌+◌, ◌/◌, ◌%◌, ◌≡◌, refl, Bool-cases, Option-cases, inl, inr, Bool, true, false,
  ◌||◌, ◌&&◌, List, [], ◌∷◌, ◌++◌, Option, none, some, if◌then◌else◌, ◌==◌, ◌>>=◌, arith, ◌<◌, ◌≤◌,
  not,
}
use mathlib.Core.Logic.{dite}
use mathlib.Core.WellFounded.{Acc}
use native.Mathlib.Decide.{dec_lt}
use minirust.Prelude.Int.{ℤ, pos, negsuc}
use minirust.Fmt.Text.{Text, ◌⧺◌, codes, fmt_nat, fmt_int, fmt_bool, digits, lt_wf, join, tenth_lt}

abbrev pub opens : ℕ → Bool
opens c = c == b'(' || c == b'[' || c == b'{'

abbrev pub closes : ℕ → Bool
closes c = c == b')' || c == b']' || c == b'}'

-- The bracket that closes an open one
abbrev pub partner : ℕ → ℕ
partner o = if o == b'(' then b')' else if o == b'[' then b']' else b'}'

abbrev pub close : ℕ → List ℕ → Option (List ℕ)
close c [] = none
close c (o ∷ stack) = if partner o == c then some stack else none

abbrev pub step : ℕ → List ℕ → Option (List ℕ)
step c stack = if opens c then some (c ∷ stack) else if closes c then close c stack else some stack

-- The brackets that are open behind a text, given those that are open before it; `none` when one is
-- closed that is not the last open one.
unfoldable pub scan : Text → List ℕ → Option (List ℕ)
scan [] stack = some stack
scan (c ∷ s) stack = step c stack >>= scan s

-- A text closes the brackets that it opens, and no others.
unfoldable pub IsBalanced : Text → Type 0
unfolding scan
IsBalanced s = (stack : List ℕ) → scan s stack ≡ some stack

pub scan-append : (s t : Text) (stack : List ℕ) → scan (s ++ t) stack ≡ (scan s stack >>= scan t)
unfolding scan
scan-append [] t stack = refl
scan-append (c ∷ s) t stack = elim (Option-cases (step c stack)) [
  | inl e ↦ rw (scan, e) refl
  | inr (stack₁, e) ↦ rw (scan, e) (scan-append s t stack₁)
]

pub append-IsBalanced : (s t : Text) → IsBalanced s → IsBalanced t → IsBalanced (s ++ t)
unfolding IsBalanced
append-IsBalanced s t h k stack = rw (scan-append s t stack, h stack) (k stack)

-- A text without brackets
abbrev pub is_plain : Text → Bool
is_plain [] = true
is_plain (c ∷ s) = not (opens c || closes c) && is_plain s

step_plain : (c : ℕ) (stack : List ℕ) → (opens c || closes c) ≡ false → step c stack ≡ some stack
step_plain c stack h = ground arith

pub is_plain-IsBalanced : (s : Text) → is_plain s ≡ true → IsBalanced s
unfolding IsBalanced scan
is_plain-IsBalanced [] h stack = refl
is_plain-IsBalanced (c ∷ s) h stack =
    rw (scan, step_plain c stack (ground arith)) (is_plain-IsBalanced s (ground arith) stack)

digit-is_plain : (n : ℕ) (s : Text) → is_plain s ≡ true → is_plain ((b'0' + n % 10) ∷ s) ≡ true
digit-is_plain n s h = ground arith

digits-is_plain :
    (n : ℕ) (a : Acc ◌<◌ n) (out : Text) → is_plain out ≡ true → is_plain (digits n a out) ≡ true
unfolding digits dec_lt
digits-is_plain n (Acc.intro _ smaller) out h =
    elim (dec_lt 0 n)
      as (λ d.
        is_plain (
          dite d (λ p. digits (n / 10) (smaller (n / 10) (tenth_lt p)) ((b'0' + n % 10) ∷ out))
            (λ _. out))
        ≡ true) [
          | yes p ↦
              digits-is_plain (n / 10) (smaller (n / 10) (tenth_lt p)) ((b'0' + n % 10) ∷ out)
                (digit-is_plain n out h)
          | no _ ↦ h
        ]

fmt_nat-is_plain : (n : ℕ) → is_plain (fmt_nat n) ≡ true
unfolding fmt_nat
fmt_nat-is_plain n = elim (Bool-cases (n == 0)) [
  | inl e ↦ rw e refl
  | inr e ↦ rw e (digits-is_plain n (lt_wf.apply n) [] refl)
]

pub fmt_nat-IsBalanced : (n : ℕ) → IsBalanced (fmt_nat n)
fmt_nat-IsBalanced n = is_plain-IsBalanced (fmt_nat n) (fmt_nat-is_plain n)

pub fmt_int-IsBalanced : (i : ℤ) → IsBalanced (fmt_int i)
unfolding fmt_int
fmt_int-IsBalanced (pos n) = fmt_nat-IsBalanced n
fmt_int-IsBalanced (negsuc n) =
    append-IsBalanced (codes "-") (fmt_nat (suc n)) (is_plain-IsBalanced (codes "-") refl)
      (fmt_nat-IsBalanced (suc n))
