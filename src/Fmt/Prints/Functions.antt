-- ===== src/Fmt/Prints/Functions.antt =====
-- function.rs: printing a function returns, closes its brackets and meets only its types.
use minirust.Prelude.{
  ℕ, refl, Bool, true, false, List, [], ◌∷◌, map, if◌then◌else◌, ◌==◌, leb, Bool-cases, inl, inr,
}
use minirust.Lang.Types.{Ty}
use minirust.Lang.Syntax.{Statement, BasicBlock, Function, BbName, FnName, LocalName}
use minirust.Fmt.Text.{Text, ◌⧺◌, codes, fmt_nat, insert_by_key, sort_by_key}
use minirust.Fmt.Types.{CompTypes, to_string, fmt_type}
use minirust.Fmt.Exprs.{fmt_fn_name, fmt_local_name}
use minirust.Fmt.Functions.{fmt_statement_line, fmt_bb, fmt_local, fmt_function}
use minirust.Fmt.Meets.{Meets}
use minirust.Fmt.Prints.{Prints, Prints-some, Prints-bind, fmt_type-Meets}
use minirust.Fmt.Brackets.{
  IsBalanced, scan, scan-append, append-IsBalanced, is_plain-IsBalanced, fmt_nat-IsBalanced,
}
use minirust.Fmt.Brackets.Pieces.{
  fmt_local_name-IsBalanced, fmt_fn_name-IsBalanced, fmt_type-IsBalanced,
}
use minirust.Fmt.Brackets.Operators.{
  AllBalanced, nil-AllBalanced, cons-AllBalanced, join-IsBalanced,
}
use minirust.Fmt.Printable.{
  StatementIsPrintable, StatementCloses, Each, BlockIsPrintable, BlockCloses, LocalIsPrintable,
  FunctionIsPrintable, FunctionCloses,
}
use minirust.Fmt.Prints.Statements.{Closes, fmt_all-Prints, fmt_statement-Prints}
use minirust.Fmt.Prints.Terminators.{fmt_terminator-Prints}

insert-Each {ℓ} :
    {V : Type ℓ} (Q : (ℕ × V) → Type 0) (k : ℕ) (v : V) (m : List (ℕ × V))
    → Q (k, v)
    → Each Q m
    → Each Q (insert_by_key k v m)
unfolding Each
insert-Each Q k v [] q h = (q, tt)
insert-Each Q k v ((j, w) ∷ m) q (r, h) = elim (Bool-cases (leb k j)) [
  | inl e ↦ rw e (q, (r, h))
  | inr e ↦ rw e (r, insert-Each Q k v m q h)
]

pub sort_by_key-Each {ℓ} :
    {V : Type ℓ} (Q : (ℕ × V) → Type 0) (m : List (ℕ × V)) → Each Q m → Each Q (sort_by_key m)
unfolding sort_by_key Each
sort_by_key-Each Q [] h = tt
sort_by_key-Each Q ((k, v) ∷ m) (q, h) =
    insert-Each Q k v (sort_by_key m) q (sort_by_key-Each Q m h)

append_newline-IsBalanced : (s : Text) → IsBalanced s → IsBalanced (s ⧺ codes "\n")
append_newline-IsBalanced s h =
    append-IsBalanced s (codes "\n") h (is_plain-IsBalanced (codes "\n") refl)

block_head-IsBalanced : (b : Bool) → IsBalanced (if b then codes "  start bb" else codes "  bb")
block_head-IsBalanced true = is_plain-IsBalanced (codes "  start bb") refl
block_head-IsBalanced false = is_plain-IsBalanced (codes "  bb") refl

fn_head-IsBalanced : (b : Bool) → IsBalanced (if b then codes "start fn " else codes "fn ")
fn_head-IsBalanced true = is_plain-IsBalanced (codes "start fn ") refl
fn_head-IsBalanced false = is_plain-IsBalanced (codes "fn ") refl

block-IsBalanced :
    (b : Bool) (n : ℕ) (s t : Text)
    → IsBalanced s
    → IsBalanced t
    → IsBalanced (
        (if b then codes "  start bb" else codes "  bb")
        ⧺ fmt_nat n
        ⧺ codes ":\n"
        ⧺ s
        ⧺ t
        ⧺ codes "\n")
unfolding IsBalanced scan
block-IsBalanced b n s t h k stack =
    simp (scan-append, block_head-IsBalanced b, fmt_nat-IsBalanced, h, k)

local-IsBalanced :
    (l : LocalName) (s : Text)
    → IsBalanced s
    → IsBalanced (codes "  let " ⧺ fmt_local_name l ⧺ codes ": " ⧺ s ⧺ codes ";\n")
unfolding IsBalanced scan
local-IsBalanced l s h stack = simp (scan-append, fmt_local_name-IsBalanced, h)

names-AllBalanced : (args : List LocalName) → AllBalanced (map fmt_local_name args)
names-AllBalanced [] = nil-AllBalanced
names-AllBalanced (a ∷ args) =
    cons-AllBalanced (fmt_local_name a) (map fmt_local_name args) (fmt_local_name-IsBalanced a)
      (names-AllBalanced args)

function-IsBalanced :
    (b : Bool) (n : FnName) (args locals blocks : Text) (ret : LocalName)
    → IsBalanced args
    → IsBalanced locals
    → IsBalanced blocks
    → IsBalanced (
        (if b then codes "start fn " else codes "fn ")
        ⧺ fmt_fn_name n
        ⧺ codes "("
        ⧺ args
        ⧺ codes ") -> "
        ⧺ fmt_local_name ret
        ⧺ codes " {\n"
        ⧺ locals
        ⧺ blocks
        ⧺ codes "}\n\n")
unfolding IsBalanced scan
function-IsBalanced b n args locals blocks ret h k l stack = simp (
  scan-append,
  fn_head-IsBalanced b,
  fmt_fn_name-IsBalanced n,
  fmt_local_name-IsBalanced ret,
  h,
  k,
  l,
)

module _ (P : Ty → Type 0) where
  fmt_statement_line-Prints :
      (st : Statement) (cs : CompTypes)
      → StatementIsPrintable P st
      → Prints P (Closes (StatementCloses st)) cs (fmt_statement_line st cs)
  unfolding fmt_statement_line
  fmt_statement_line-Prints st cs h =
      Prints-bind P _ _ _ _ _ (fmt_statement-Prints P st cs h)
        λ s ds b. Prints-some P _ ds ds _ Meets.here (λ c. append_newline-IsBalanced s (b c))

  fmt_bb-Prints :
      (start : BbName) (b : BbName × BasicBlock) (cs : CompTypes)
      → BlockIsPrintable P b
      → Prints P (Closes (BlockCloses b)) cs (fmt_bb start b cs)
  unfolding fmt_bb BlockIsPrintable BlockCloses
  fmt_bb-Prints start (name, bb) cs (h, k) =
      Prints-bind P _ _ _ _ _
        (fmt_all-Prints P fmt_statement_line (StatementIsPrintable P) StatementCloses
          fmt_statement_line-Prints bb.statements cs h)
        λ s ds b. Prints-bind P _ _ _ _ _ (fmt_terminator-Prints P bb.terminator ds k) λ t es d.
          Prints-some P _ es es _ Meets.here
            (λ c. block-IsBalanced (start == name) name s t (b c.0) (d c.1))

  fmt_local-Prints :
      (l : LocalName × Ty) (cs : CompTypes)
      → LocalIsPrintable P l
      → Prints P (Closes Unit) cs (fmt_local l cs)
  unfolding fmt_local LocalIsPrintable
  fmt_local-Prints (l, ty) cs h =
      Prints-some P _ cs _ _ (fmt_type-Meets P ty cs h)
        (λ _. local-IsBalanced l (to_string (fmt_type ty cs).0) (fmt_type-IsBalanced ty cs))

  units : {A : Type 0} (xs : List A) → Each (λ _. Unit) xs
  unfolding Each
  units [] = tt
  units (x ∷ xs) = (tt, units xs)

  pub fmt_function-Prints :
      (start : FnName) (f : FnName × Function) (cs : CompTypes)
      → FunctionIsPrintable P f
      → Prints P (Closes (FunctionCloses f)) cs (fmt_function start f cs)
  unfolding fmt_function FunctionIsPrintable FunctionCloses
  fmt_function-Prints start (name, f) cs (h, k) =
      Prints-bind P _ _ _ _ _
        (fmt_all-Prints P fmt_local (LocalIsPrintable P) (λ _. Unit) fmt_local-Prints
          (sort_by_key f.locals) cs (sort_by_key-Each _ f.locals h))
        λ s ds b.
          Prints-bind P _ _ _ _ _
            (fmt_all-Prints P (fmt_bb f.start) (BlockIsPrintable P) BlockCloses
              (fmt_bb-Prints f.start) (sort_by_key f.blocks) ds (sort_by_key-Each _ f.blocks k))
            λ t es d. Prints-some P _ es es _ Meets.here (λ c.
              function-IsBalanced (start == name) name _ s t f.ret
                (join-IsBalanced (codes ", ") _ (is_plain-IsBalanced (codes ", ") refl)
                  (names-AllBalanced f.args))
                (b (units (sort_by_key f.locals))) (d (sort_by_key-Each _ f.blocks c)))
