-- ===== src/Fmt/Prints/Statements.antt =====
-- function.rs: printing statements, and lists of items.
use minirust.Prelude.{ℕ, ◌≡◌, refl, Bool, true, false, List, [], ◌∷◌, Option}
use minirust.Prelude.Int.{ℤ}
use minirust.Lang.Types.{Ty}
use minirust.Lang.Syntax.{Statement}
use minirust.Fmt.Text.{Text, ◌⧺◌, codes, fmt_int, fmt_bool}
use minirust.Fmt.Types.{CompTypes}
use minirust.Fmt.Exprs.{fmt_local_name}
use minirust.Fmt.Functions.{fmt_bb_name, fmt_statement, fmt_each, fmt_all}
use minirust.Fmt.Meets.{Meets}
use minirust.Fmt.Prints.{Prints, Prints-some, Prints-bind}
use minirust.Fmt.Prints.Exprs.{fmt_place_expr-Prints, fmt_value_expr-Prints}
use minirust.Fmt.Brackets.{
  IsBalanced, scan, is_plain, scan-append, append-IsBalanced, is_plain-IsBalanced,
  fmt_nat-IsBalanced, fmt_int-IsBalanced,
}
use minirust.Fmt.Brackets.Pieces.{fmt_local_name-IsBalanced}
use minirust.Fmt.Brackets.Operators.{AllBalanced, nil-AllBalanced, cons-AllBalanced}
use minirust.Fmt.Printable.{StatementIsPrintable, StatementCloses, Each}

abbrev pub Closes : Type 0 → Text → Type 0
Closes C s = C → IsBalanced s

pub fmt_bb_name-IsBalanced : (n : ℕ) → IsBalanced (fmt_bb_name n)
unfolding fmt_bb_name IsBalanced scan
fmt_bb_name-IsBalanced n stack = simp (scan-append, fmt_nat-IsBalanced)

assign-IsBalanced :
    (l r : Text)
    → IsBalanced l
    → IsBalanced r
    → IsBalanced (codes "    " ⧺ l ⧺ codes " = " ⧺ r ⧺ codes ";")
unfolding IsBalanced scan
assign-IsBalanced l r h k stack = simp (scan-append, h, k)

mention-IsBalanced : (s : Text) → IsBalanced s → IsBalanced (codes "    _ = " ⧺ s ⧺ codes ";")
unfolding IsBalanced scan
mention-IsBalanced s h stack = simp (scan-append, h)

discriminant-IsBalanced :
    (s : Text) (i : ℤ)
    → IsBalanced s
    → IsBalanced (codes "    discriminant(" ⧺ s ⧺ codes ") = " ⧺ fmt_int i ⧺ codes ";")
unfolding IsBalanced scan
discriminant-IsBalanced s i h stack = simp (scan-append, h, fmt_int-IsBalanced)

fmt_bool-IsBalanced : (b : Bool) → IsBalanced (fmt_bool b)
fmt_bool-IsBalanced true = is_plain-IsBalanced (codes "true") refl
fmt_bool-IsBalanced false = is_plain-IsBalanced (codes "false") refl

validate-IsBalanced :
    (s : Text) (b : Bool)
    → IsBalanced s
    → IsBalanced (codes "    validate(" ⧺ s ⧺ codes ", " ⧺ fmt_bool b ⧺ codes ");")
unfolding IsBalanced scan
validate-IsBalanced s b h stack = simp (scan-append, h, fmt_bool-IsBalanced b)

-- A call of a word on a line of its own
line-IsBalanced :
    (name s : Text)
    → is_plain name ≡ true
    → IsBalanced s
    → IsBalanced (name ⧺ codes "(" ⧺ s ⧺ codes ");")
unfolding IsBalanced scan
line-IsBalanced name s named h stack = simp (scan-append, is_plain-IsBalanced name named, h)

module _ (P : Ty → Type 0) where
  pub fmt_statement-Prints :
      (st : Statement) (cs : CompTypes)
      → StatementIsPrintable P st
      → Prints P (Closes (StatementCloses st)) cs (fmt_statement st cs)
  unfolding fmt_statement StatementIsPrintable StatementCloses
  fmt_statement-Prints (Statement.assign destination source) cs (h, k) =
      Prints-bind P _ _ _ _ _ (fmt_place_expr-Prints P destination cs h) λ l ds b.
        Prints-bind P _ _ _ _ _ (fmt_value_expr-Prints P source ds k)
          λ r es d. Prints-some P _ es es _ Meets.here (λ c. assign-IsBalanced _ _ (b c.0) (d c.1))
  fmt_statement-Prints (Statement.place_mention place) cs h =
      Prints-bind P _ _ _ _ _ (fmt_place_expr-Prints P place cs h)
        λ p ds b. Prints-some P _ ds ds _ Meets.here (λ c. mention-IsBalanced _ (b c))
  fmt_statement-Prints (Statement.set_discriminant place i) cs h =
      Prints-bind P _ _ _ _ _ (fmt_place_expr-Prints P place cs h)
        λ p ds b. Prints-some P _ ds ds _ Meets.here (λ c. discriminant-IsBalanced _ i (b c))
  fmt_statement-Prints (Statement.validate place fn_entry) cs h =
      Prints-bind P _ _ _ _ _ (fmt_place_expr-Prints P place cs h)
        λ p ds b. Prints-some P _ ds ds _ Meets.here (λ c. validate-IsBalanced _ fn_entry (b c))
  fmt_statement-Prints (Statement.deinit place) cs h =
      Prints-bind P _ _ _ _ _ (fmt_place_expr-Prints P place cs h) λ p ds b.
        Prints-some P _ ds ds _ Meets.here (λ c. line-IsBalanced (codes "    deinit") _ refl (b c))
  fmt_statement-Prints (Statement.storage_live l) cs h = Prints-some P _ cs cs _ Meets.here (λ _.
      line-IsBalanced (codes "    storage_live") (fmt_local_name l) refl
        (fmt_local_name-IsBalanced l))
  fmt_statement-Prints (Statement.storage_dead l) cs h = Prints-some P _ cs cs _ Meets.here (λ _.
      line-IsBalanced (codes "    storage_dead") (fmt_local_name l) refl
        (fmt_local_name-IsBalanced l))

  module _ {ℓ} {A : Type ℓ} (f : A → CompTypes → Option (Text × CompTypes)) (Ok C : A → Type 0)
      (item : (a : A) (cs : CompTypes) → Ok a → Prints P (Closes (C a)) cs (f a cs)) where
    pub fmt_each-Prints :
        (xs : List A) (cs : CompTypes)
        → Each Ok xs
        → Prints P (λ ts. Each C xs → AllBalanced ts) cs (fmt_each f xs cs)
    unfolding fmt_each Each
    fmt_each-Prints [] cs h = Prints-some P _ cs cs [] Meets.here (λ _. nil-AllBalanced)
    fmt_each-Prints (x ∷ xs) cs (h, k) = Prints-bind P _ _ _ _ _ (item x cs h) λ s ds b.
        Prints-bind P _ _ _ _ _ (fmt_each-Prints xs ds k) λ ts es d.
          Prints-some P _ es es (s ∷ ts) Meets.here (λ c. cons-AllBalanced s ts (b c.0) (d c.1))

    pub fmt_all-Prints :
        (xs : List A) (cs : CompTypes)
        → Each Ok xs
        → Prints P (Closes (Each C xs)) cs (fmt_all f xs cs)
    unfolding fmt_all Each
    fmt_all-Prints [] cs h = Prints-some P _ cs cs [] Meets.here (λ _. is_plain-IsBalanced [] refl)
    fmt_all-Prints (x ∷ xs) cs (h, k) = Prints-bind P _ _ _ _ _ (item x cs h) λ s ds b.
        Prints-bind P _ _ _ _ _ (fmt_all-Prints xs ds k) λ t es d.
          Prints-some P _ es es (s ⧺ t) Meets.here (λ c. append-IsBalanced s t (b c.0) (d c.1))
