-- ===== src/Prelude/Maps.antt =====
-- Finite maps from names, as association lists with at most one entry for a key.
use Prim.Native.Nat.{ℕ}
use mathlib.Core.Path.{◌≡◌, refl}
use native.Mathlib.Omega.{arith}
use mathlib.Core.Bool.{Bool, true, false, ◌||◌, ◌&&◌}
use mathlib.Core.Option.{Option, none, some}
use mathlib.Core.List.{List, [], ◌∷◌}
use minirust.Prelude.Tests.{◌==◌, if◌then◌else◌}

module _ {ℓ} {V : Type ℓ} where
  -- `Map::get`
  abbrev pub get : List (ℕ × V) → ℕ → Option V
  get [] k = none
  get ((j, v) ∷ m) k = if j == k then some v else get m k

  -- `Map::contains_key`
  abbrev pub contains_key : List (ℕ × V) → ℕ → Bool
  contains_key [] k = false
  contains_key ((j, v) ∷ m) k = j == k || contains_key m k

  -- `Map::insert`: an entry that is there is replaced.
  abbrev pub insert : List (ℕ × V) → ℕ → V → List (ℕ × V)
  insert [] k v = (k, v) ∷ []
  insert ((j, w) ∷ m) k v = if j == k then (k, v) ∷ m else (j, w) ∷ insert m k v

  -- `Map::keys`
  abbrev pub keys : List (ℕ × V) → List ℕ
  keys [] = []
  keys ((j, v) ∷ m) = j ∷ keys m

module _ {ℓ} {V : Type ℓ} where
  -- `Map::try_insert(..).unwrap()`: a panic if the key is taken.
  abbrev pub try_insert : List (ℕ × V) → ℕ → V → Option (List (ℕ × V))
  try_insert m k v = if contains_key m k then none else some ((k, v) ∷ m)

-- Membership in a set of names.
abbrev pub contains : List ℕ → ℕ → Bool
contains [] k = false
contains (j ∷ s) k = j == k || contains s k

-- One set of names lies in another.
abbrev pub is_subset : List ℕ → List ℕ → Bool
is_subset [] t = true
is_subset (j ∷ s) t = contains t j && is_subset s t

-- `==` on sets of names.
abbrev pub same_set : List ℕ → List ℕ → Bool
same_set s t = is_subset s t && is_subset t s

pub contains_key-get {ℓ} :
    {V : Type ℓ} (m : List (ℕ × V)) (k : ℕ) (v : V) → get m k ≡ some v → contains_key m k ≡ true
contains_key-get [] k v h = cc
contains_key-get ((j, w) ∷ m) k v h = ground (arith, contains_key-get m k v)

pub contains_key-insert {ℓ} :
    {V : Type ℓ} (m : List (ℕ × V)) (k j : ℕ) (v : V)
    → contains_key (insert m k v) j ≡ (k == j || contains_key m j)
contains_key-insert [] k j v = refl
contains_key-insert ((i, w) ∷ m) k j v = ground (arith, contains_key-insert m k j v)

pub get-insert {ℓ} :
    {V : Type ℓ} (m : List (ℕ × V)) (k j : ℕ) (v : V)
    → get (insert m k v) j ≡ (if k == j then some v else get m j)
get-insert [] k j v = refl
get-insert ((i, w) ∷ m) k j v = ground (arith, get-insert m k j v)
