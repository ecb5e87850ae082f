-- ===== src/Minimize/Program/Kept.antt =====
-- program.rs: steps that change the context only by asking for names and in its caches.
use minirust.Prelude.{
  ◌≡◌, subst, Bool, true, false, Option, none, some, ◌>>=◌, >>=-eq-some, some_inj, if◌then◌else◌,
}
use minirust.Minimize.Program.{Ctxt, Rustc}
use minirust.Minimize.Program.Uses.{Uses}

abbrev pub ctxt_of : {A : Type 0} → A × Ctxt → Ctxt
ctxt_of r = r.1

-- From the context on, the step only asks for names and changes caches.
pub record Kept {B : Type 0} (q : Rustc) (π : B → Ctxt) (cx : Ctxt) (o : Option B) : Type 0 where
  pub keeps : (r : B) → o ≡ some r → Uses q cx (π r)

module _ {q : Rustc} where
  pub done-Kept : {B : Type 0} (π : B → Ctxt) (b : B) → Kept q π (π b) (some b)
  done-Kept π b = record {
    keeps = λ r h. subst (λ x. Uses q (π b) (π x)) (some_inj h) Uses.nothing;
  }

  pub none-Kept : {B : Type 0} {π : B → Ctxt} {cx : Ctxt} → Kept q π cx none
  none-Kept = record { keeps = λ r h. cc }

  pub bind-Kept :
      {A B : Type 0} {π : A → Ctxt} {ρ : B → Ctxt} {cx : Ctxt} {o : Option A} {k : A → Option B}
      → Kept q π cx o
      → ((a : A) → Kept q ρ (π a) (k a))
      → Kept q ρ cx (o >>= k)
  bind-Kept {o} {k} first next = record {
    keeps = λ r h.
        let (a, e, h₁) = >>=-eq-some o k h in Uses.both (first.keeps a e) ((next a).keeps r h₁);
  }

  pub pure-Kept :
      {A B : Type 0} {ρ : B → Ctxt} {cx : Ctxt} (o : Option A) {k : A → Option B}
      → ((a : A) → Kept q ρ cx (k a))
      → Kept q ρ cx (o >>= k)
  pure-Kept o {k} next = record {
    keeps = λ r h. let (a, e, h₁) = >>=-eq-some o k h in (next a).keeps r h₁;
  }

  pub if-Kept :
      {B : Type 0} {ρ : B → Ctxt} {cx : Ctxt} (b : Bool) {x y : Option B}
      → Kept q ρ cx x
      → Kept q ρ cx y
      → Kept q ρ cx (if b then x else y)
  if-Kept true kx ky = kx
  if-Kept false kx ky = ky
