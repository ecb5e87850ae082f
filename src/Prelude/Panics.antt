-- ===== src/Prelude/Panics.antt =====
-- Steps that may panic: `none` is a panic.
use mathlib.Core.Path.{◌≡◌, refl}
use mathlib.Core.Bool.{Bool, true, false}
use mathlib.Core.Option.{Option, none, some}
use minirust.Prelude.Tests.{if◌then◌else◌}

-- A step and the rest
infixl 5 ◌>>=◌ ◌>>◌
abbrev pub ◌>>=◌ {ℓ κ} : {A : Type ℓ} {B : Type κ} → Option A → (A → Option B) → Option B
none >>= f = none
some a >>= f = f a

abbrev pub ◌>>◌ {ℓ κ} : {A : Type ℓ} {B : Type κ} → Option A → Option B → Option B
m >> k = m >>= λ _. k

pub some_inj {ℓ} : {A : Type ℓ} {a b : A} → some a ≡ some b → a ≡ b
some_inj h = cc

-- Inversion of a step that does not panic
pub >>=-eq-some {ℓ κ} :
    {A : Type ℓ} {B : Type κ} (o : Option A) (f : A → Option B) {b : B}
    → (o >>= f) ≡ some b
    → (a : A) × (o ≡ some a) × (f a ≡ some b)
>>=-eq-some none f h = cc
>>=-eq-some (some a) f h = (a, refl, h)

-- A step behind a check that did not panic
pub unless-eq-some {ℓ} :
    {A : Type ℓ} (c : Bool) {x : Option A} {a : A}
    → (if c then none else x) ≡ some a
    → (c ≡ false) × (x ≡ some a)
unless-eq-some true h = cc
unless-eq-some false h = (refl, h)

pub if-eq-some {ℓ} :
    {A : Type ℓ} (c : Bool) {x : Option A} {a : A}
    → (if c then x else none) ≡ some a
    → (c ≡ true) × (x ≡ some a)
if-eq-some true h = (refl, h)
if-eq-some false h = cc
