-- ===== src/Minimize/Program/Total.antt =====
-- program.rs: how many functions are left to translate.
use minirust.Prelude.{
  ℕ, suc, ◌+◌, ◌<◌, ◌≤◌, ◌≡◌, refl, ◌∙◌, Bool, true, false, ◌&&◌, List, [], ◌∷◌, ◌++◌, none, some,
  length, get, insert, contains, contains_key, contains_key-insert, ◌==◌, arith, if◌then◌else◌, inl,
  inr, Bool-cases,
}
use mathlib.Core.List.{Permᴰ}
use minirust.Lang.Syntax.{FnName, Function}
use minirust.Minimize.Program.Translate.{find_instance}
use minirust.Minimize.Program.Inv.{has_value, IsNamed}

-- Whether all keys are in the list.
abbrev pub keys_in : List ℕ → List (ℕ × FnName) → Bool
keys_in u [] = true
keys_in u ((k, _) ∷ m) = contains u k && keys_in u m

pub keys_in-Perm : (u : List ℕ) (l m : List (ℕ × FnName)) → Permᴰ l m → keys_in u l ≡ keys_in u m
keys_in-Perm u l m Permᴰ.nil = refl
keys_in-Perm u (a ∷ l) (b ∷ m) (Permᴰ.cons e p) = rw (e, keys_in-Perm u l m p) refl
keys_in-Perm u (a ∷ b ∷ l) (a' ∷ b' ∷ m) (Permᴰ.swap e f) = rw (e, f) (ground arith)
keys_in-Perm u l m (Permᴰ.trans {l₂ = k} p r) = keys_in-Perm u l k p ∙ keys_in-Perm u k m r

abbrev remove : List ℕ → ℕ → List ℕ
remove [] k = []
remove (j ∷ u) k = if j == k then u else j ∷ remove u k

length-remove : (u : List ℕ) (k : ℕ) → contains u k ≡ true → suc (length (remove u k)) ≡ length u
length-remove [] k h = cc
length-remove (j ∷ u) k h = ground (arith, length-remove u k)

contains-remove :
    (u : List ℕ) (k j : ℕ) → (j == k) ≡ false → contains u j ≡ true → contains (remove u k) j ≡ true
contains-remove [] k j ne h = cc
contains-remove (i ∷ u) k j ne h = ground (arith, contains-remove u k j)

keys_in-remove :
    (u : List ℕ) (k : ℕ) (m : List (ℕ × FnName))
    → get m k ≡ none
    → keys_in u m ≡ true
    → keys_in (remove u k) m ≡ true
keys_in-remove u k [] ne h = refl
keys_in-remove u k ((j, n) ∷ m) ne h = ground (arith, keys_in-remove u k m, contains-remove u k j)

-- Different keys in a list are no more than it is long.
pub length-keys :
    (u : List ℕ) (m : List (ℕ × FnName)) → IsNamed m → keys_in u m ≡ true → length m ≤ length u
length-keys u [] named h = omega arith
length-keys u ((k, n) ∷ m) (_, new, named) h =
    let rest = length-keys (remove u k) m named (keys_in-remove u k m new (ground arith)) in
    let one = length-remove u k (ground arith) in omega arith

-- The number of entries without a function
abbrev pub unimplemented : List (FnName × Function) → List (ℕ × FnName) → ℕ
unimplemented functions [] = 0
unimplemented functions ((_, n) ∷ m) =
    if contains_key functions n then unimplemented functions m else suc (unimplemented functions m)

pub unimplemented-append :
    (functions : List (FnName × Function)) (l m : List (ℕ × FnName))
    → unimplemented functions (l ++ m) ≤ length l + unimplemented functions m
unimplemented-append functions [] m = omega arith
unimplemented-append functions ((_, n) ∷ l) m = ground (arith, unimplemented-append functions l m)

pub unimplemented_mono :
    (fs gs : List (FnName × Function)) (m : List (ℕ × FnName))
    → ((n : FnName) → contains_key fs n ≡ true → contains_key gs n ≡ true)
    → unimplemented gs m ≤ unimplemented fs m
unimplemented_mono fs gs [] more = omega arith
unimplemented_mono fs gs ((_, n) ∷ m) more = ground (arith, unimplemented_mono fs gs m more, more n)

pub unimplemented-insert :
    (fs : List (FnName × Function)) (n : FnName) (f : Function) (m : List (ℕ × FnName))
    → contains_key fs n ≡ false
    → has_value m n ≡ true
    → unimplemented (insert fs n f) m < unimplemented fs m
unimplemented-insert fs n f [] new h = cc
unimplemented-insert fs n f ((k, j) ∷ m) new h =
    let less =
      unimplemented_mono fs (insert fs n f) m
        (λ i e. ground (arith, contains_key-insert fs n i f)) in
    let rest = unimplemented-insert fs n f m new in ground (arith, contains_key-insert fs n j f)

pub find_instance-total :
    (u : List ℕ) (m : List (ℕ × FnName)) (n : FnName)
    → has_value m n ≡ true
    → keys_in u m ≡ true
    → (i : ℕ) × (find_instance m n ≡ some i) × (contains u i ≡ true)
find_instance-total u [] n h k = cc
find_instance-total u ((i, j) ∷ m) n h k = elim (Bool-cases (j == n)) [
  | inl e ↦ (i, ground arith, ground arith)
  | inr e ↦
      let (l, found, has) = find_instance-total u m n (ground arith) (ground arith) in
      (l, ground arith, has)
]
