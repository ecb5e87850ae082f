-- ===== src/Memory/Outcome.antt =====
-- spec/prelude/main.md: what an operation of the specification can come to. Of the reasons to
-- terminate only undefined behaviour occurs in the operations that are modelled; its message is dropped.
use minirust.Prelude.{◌≡◌, refl}

-- `Result`, and a panic of the interpreter beside it
pub data Outcome {ℓ} (A : Type ℓ) : Type ℓ where
  ok : A → Outcome A
  ub : Outcome A
  panics : Outcome A

module _ {ℓ κ} {A : Type ℓ} {B : Type κ} where
  -- `?`
  infixl 5 ◌>>=◌
  abbrev pub ◌>>=◌ : Outcome A → (A → Outcome B) → Outcome B
  ok a >>= f = f a
  ub >>= f = ub
  panics >>= f = panics

  pub >>=-eq-ok :
      (o : Outcome A) (f : A → Outcome B) {b : B}
      → (o >>= f) ≡ ok b
      → (a : A) × (o ≡ ok a) × (f a ≡ ok b)
  >>=-eq-ok (ok a) f h = (a, refl, h)
  >>=-eq-ok ub f h = cc
  >>=-eq-ok panics f h = cc

pub ok_inj {ℓ} : {A : Type ℓ} {a b : A} → ok a ≡ ok b → a ≡ b
ok_inj h = cc

-- An operation that does not panic
abbrev pub NoPanic : {A : Type 0} → (A → Type 0) → Outcome A → Type 0
NoPanic Good (ok a) = Good a
NoPanic Good ub = Unit
NoPanic Good panics = ⊥

pub >>=_congr {ℓ κ} :
    {A : Type ℓ} {B : Type κ} (o : Outcome A) (f g : A → Outcome B)
    → ((a : A) → f a ≡ g a)
    → (o >>= f) ≡ (o >>= g)
>>=_congr (ok a) f g h = h a
>>=_congr ub f g h = refl
>>=_congr panics f g h = refl

pub >>=_assoc {ℓ κ ν} :
    {A : Type ℓ} {B : Type κ} {C : Type ν} (o : Outcome A) (f : A → Outcome B) (g : B → Outcome C)
    → (o >>= f >>= g) ≡ (o >>= λ a. f a >>= g)
>>=_assoc (ok a) f g = refl
>>=_assoc ub f g = refl
>>=_assoc panics f g = refl

pub NoPanic-bind :
    {A B : Type 0} (Good : A → Type 0) (Fine : B → Type 0) (o : Outcome A) (f : A → Outcome B)
    → NoPanic Good o
    → ((a : A) → Good a → NoPanic Fine (f a))
    → NoPanic Fine (o >>= f)
NoPanic-bind Good Fine (ok a) f h k = k a h
NoPanic-bind Good Fine ub f h k = tt
NoPanic-bind Good Fine panics f h k = h
