-- ===== src/Fmt/Text.antt =====
-- What the printer uses of Rust's strings: a text is the list of its code points.
-- `format!` of numbers, `join` and the sorts that take the entries of a map in the order of names.
use Prim.Native.Char.{code}
use Prim.Native.String.{String}
use mathlib.Core.Logic.{dite}
use mathlib.Core.WellFounded.{Acc, WellFounded}
use native.Mathlib.Decide.{dec_lt}
use minirust.Prelude.{
  ℕ, zero, suc, ◌+◌, ◌-◌, ◌/◌, ◌%◌, ◌<◌, Bool, true, false, List, [], ◌∷◌, ◌++◌, if◌then◌else◌,
  ◌==◌, ltb, leb, arith,
}
use minirust.Prelude.Int.{ℤ, pos, negsuc}

abbrev pub Text : Type 0
Text = List ℕ

-- Texts one after the other, as `format!` puts them
infixr 60 ◌⧺◌
abbrev pub ◌⧺◌ : Text → Text → Text
s ⧺ t = s ++ t

-- `String` has its own `[]` and `∷`.
abbrev pub codes : String → Text
codes String.[] = []
codes (String.◌∷◌ c s) = code c ∷ codes s

pub acc_below : (k n : ℕ) → n < k → Acc ◌<◌ n
acc_below zero n h = absurd (omega arith)
acc_below (suc k) n h = Acc.intro n λ m lt. acc_below k m (omega arith)

unfoldable pub lt_wf : WellFounded ◌<◌
unfolding acc_below
lt_wf = record { apply = λ n. acc_below (suc n) n (omega arith) }

pub tenth_lt : {n : ℕ} → 0 < n → n / 10 < n
tenth_lt h = omega arith

-- The digits of a number before a text
unfoldable pub digits : (n : ℕ) → Acc ◌<◌ n → Text → Text
digits n (Acc.intro _ smaller) out =
    dite (dec_lt 0 n) (λ h. digits (n / 10) (smaller (n / 10) (tenth_lt h)) ((b'0' + n % 10) ∷ out))
      (λ _. out)

-- `{}` of a number
unfoldable pub fmt_nat : ℕ → Text
fmt_nat n = if n == 0 then b'0' ∷ [] else digits n (lt_wf.apply n) []

-- `{}` of an `Int`
unfoldable pub fmt_int : ℤ → Text
fmt_int (pos n) = fmt_nat n
fmt_int (negsuc n) = b'-' ∷ fmt_nat (suc n)

abbrev pub fmt_bool : Bool → Text
fmt_bool true = codes "true"
fmt_bool false = codes "false"

abbrev pub hex_digit : ℕ → ℕ
hex_digit d = if ltb d 10 then b'0' + d else b'a' + (d - 10)

-- `{:02x?}` of a byte: its two digits
unfoldable pub fmt_hex : ℕ → Text
fmt_hex byte = hex_digit (byte / 16 % 16) ∷ hex_digit (byte % 16) ∷ []

-- `join` of a list of texts
unfoldable pub join : Text → List Text → Text
join sep [] = []
join sep (s ∷ []) = s
join sep (s ∷ t ∷ ts) = s ⧺ sep ⧺ join sep (t ∷ ts)

-- `sort_by_key`, which is stable, of the entries of a map by their names
abbrev pub insert_by_key {ℓ} : {V : Type ℓ} → ℕ → V → List (ℕ × V) → List (ℕ × V)
insert_by_key k v [] = (k, v) ∷ []
insert_by_key k v ((j, w) ∷ m) =
    if leb k j then (k, v) ∷ (j, w) ∷ m else (j, w) ∷ insert_by_key k v m

unfoldable pub sort_by_key {ℓ} : {V : Type ℓ} → List (ℕ × V) → List (ℕ × V)
sort_by_key [] = []
sort_by_key ((k, v) ∷ m) = insert_by_key k v (sort_by_key m)

-- `<=` of strings
abbrev pub leb_text : Text → Text → Bool
leb_text [] t = true
leb_text (c ∷ s) [] = false
leb_text (c ∷ s) (d ∷ t) = if c == d then leb_text s t else ltb c d

-- `sort` of a list of strings
abbrev pub insert_text : Text → List Text → List Text
insert_text s [] = s ∷ []
insert_text s (t ∷ ts) = if leb_text s t then s ∷ t ∷ ts else t ∷ insert_text s ts

unfoldable pub sort_texts : List Text → List Text
sort_texts [] = []
sort_texts (s ∷ ts) = insert_text s (sort_texts ts)
