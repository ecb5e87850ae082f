-- ===== src/Fmt/Prints/Terminators.antt =====
-- function.rs: printing terminators.
use minirust.Prelude.{◌≡◌, refl, true, List, [], ◌∷◌, ◌++◌, Option, none, some}
use minirust.Prelude.Int.{ℤ}
use minirust.Lang.Types.{Ty}
use minirust.Lang.Syntax.{
  ValueExpr, PlaceExpr, ArgumentExpr, by_value, in_place, CallingConvention, rust, c,
  IntrinsicLockOp, IntrinsicOp, IntBinOp, Terminator, return_, BbName,
}
use minirust.Fmt.Text.{Text, ◌⧺◌, codes, fmt_int, join}
use minirust.Fmt.Types.{CompTypes, to_string}
use minirust.Fmt.Functions.{
  fmt_bb_name, fmt_next, fmt_conv, fmt_call, fmt_fetch, fmt_intrinsic, fmt_argument, fmt_value,
  fmt_cases, fmt_terminator,
}
use minirust.Fmt.Meets.{Meets}
use minirust.Fmt.Prints.{Prints, Prints-some, Prints-bind}
use minirust.Fmt.Prints.Exprs.{fmt_place_expr-Prints, fmt_value_expr-Prints}
use minirust.Fmt.Brackets.{
  IsBalanced, scan, is_plain, scan-append, is_plain-IsBalanced, fmt_int-IsBalanced,
}
use minirust.Fmt.Brackets.Pieces.{to_atomic_string-IsBalanced, call-IsBalanced}
use minirust.Fmt.Brackets.Operators.{
  AllBalanced, nil-AllBalanced, cons-AllBalanced, join-IsBalanced,
}
use minirust.Fmt.Printable.{
  PlaceIsPrintable, ValueIsPrintable, PlaceCloses, ValueCloses, ArgumentIsPrintable, ArgumentCloses,
  TerminatorIsPrintable, TerminatorCloses,
}
use minirust.Fmt.Prints.Statements.{Closes, fmt_bb_name-IsBalanced, fmt_each-Prints}

fmt_next-IsBalanced : (b : Option BbName) → IsBalanced (fmt_next b)
unfolding IsBalanced scan
fmt_next-IsBalanced none stack = refl
fmt_next-IsBalanced (some b) stack = simp (scan-append, fmt_bb_name-IsBalanced)

fmt_conv-IsBalanced : (c : CallingConvention) → IsBalanced (fmt_conv c)
fmt_conv-IsBalanced rust = is_plain-IsBalanced [] refl
fmt_conv-IsBalanced c = is_plain-IsBalanced (fmt_conv c) refl

fmt_call-IsBalanced :
    (r callee args : Text) (conv : CallingConvention) (next_block : Option BbName)
    → IsBalanced r
    → IsBalanced callee
    → IsBalanced args
    → IsBalanced (
        codes "    "
        ⧺ r
        ⧺ codes " = "
        ⧺ fmt_conv conv
        ⧺ callee
        ⧺ codes "("
        ⧺ args
        ⧺ codes ")"
        ⧺ fmt_next next_block
        ⧺ codes ";")
unfolding IsBalanced scan
fmt_call-IsBalanced r callee args conv next_block h k l stack =
    simp (scan-append, h, k, l, fmt_conv-IsBalanced conv, fmt_next-IsBalanced next_block)

fmt_fetch-is_plain : (op : IntBinOp) → is_plain (fmt_fetch op) ≡ true
fmt_fetch-is_plain IntBinOp.add = refl
fmt_fetch-is_plain IntBinOp.sub = refl
fmt_fetch-is_plain IntBinOp.mul = refl
fmt_fetch-is_plain IntBinOp.div = refl
fmt_fetch-is_plain IntBinOp.rem = refl
fmt_fetch-is_plain IntBinOp.shl = refl
fmt_fetch-is_plain IntBinOp.shr = refl
fmt_fetch-is_plain IntBinOp.bit_and = refl
fmt_fetch-is_plain IntBinOp.bit_or = refl
fmt_fetch-is_plain IntBinOp.bit_xor = refl
fmt_fetch-is_plain IntBinOp.add_unchecked = refl
fmt_fetch-is_plain IntBinOp.sub_unchecked = refl
fmt_fetch-is_plain IntBinOp.mul_unchecked = refl
fmt_fetch-is_plain IntBinOp.div_exact = refl
fmt_fetch-is_plain IntBinOp.shl_unchecked = refl
fmt_fetch-is_plain IntBinOp.shr_unchecked = refl

fmt_intrinsic-is_plain : (op : IntrinsicOp) → is_plain (fmt_intrinsic op) ≡ true
fmt_intrinsic-is_plain IntrinsicOp.assume = refl
fmt_intrinsic-is_plain IntrinsicOp.exit = refl
fmt_intrinsic-is_plain IntrinsicOp.panic = refl
fmt_intrinsic-is_plain IntrinsicOp.print_stdout = refl
fmt_intrinsic-is_plain IntrinsicOp.print_stderr = refl
fmt_intrinsic-is_plain IntrinsicOp.allocate = refl
fmt_intrinsic-is_plain IntrinsicOp.deallocate = refl
fmt_intrinsic-is_plain IntrinsicOp.spawn = refl
fmt_intrinsic-is_plain IntrinsicOp.join = refl
fmt_intrinsic-is_plain IntrinsicOp.raw_eq = refl
fmt_intrinsic-is_plain IntrinsicOp.atomic_store = refl
fmt_intrinsic-is_plain IntrinsicOp.atomic_load = refl
fmt_intrinsic-is_plain IntrinsicOp.atomic_compare_exchange = refl
fmt_intrinsic-is_plain (IntrinsicOp.atomic_fetch_and_op op) = fmt_fetch-is_plain op
fmt_intrinsic-is_plain (IntrinsicOp.lock IntrinsicLockOp.acquire) = refl
fmt_intrinsic-is_plain (IntrinsicOp.lock IntrinsicLockOp.create) = refl
fmt_intrinsic-is_plain (IntrinsicOp.lock IntrinsicLockOp.release) = refl
fmt_intrinsic-is_plain IntrinsicOp.pointer_expose_provenance = refl
fmt_intrinsic-is_plain IntrinsicOp.pointer_with_exposed_provenance = refl

goto-IsBalanced : (b : BbName) → IsBalanced (codes "    goto -> " ⧺ fmt_bb_name b ⧺ codes ";")
unfolding IsBalanced scan
goto-IsBalanced b stack = simp (scan-append, fmt_bb_name-IsBalanced)

case-IsBalanced :
    (s : Text) (b : BbName) → IsBalanced s → IsBalanced (s ⧺ codes ": " ⧺ fmt_bb_name b)
unfolding IsBalanced scan
case-IsBalanced s b h stack = simp (scan-append, h, fmt_bb_name-IsBalanced)

fmt_cases-AllBalanced :
    (cases : List (ℤ × BbName)) (fallback : BbName)
    → AllBalanced (fmt_cases cases ++ (codes "otherwise: " ⧺ fmt_bb_name fallback) ∷ [])
unfolding fmt_cases
fmt_cases-AllBalanced [] fallback =
    cons-AllBalanced (codes "otherwise: " ⧺ fmt_bb_name fallback) []
      (case-IsBalanced (codes "otherwise") fallback (is_plain-IsBalanced (codes "otherwise") refl))
      nil-AllBalanced
fmt_cases-AllBalanced ((i, b) ∷ cases) fallback =
    cons-AllBalanced (fmt_int i ⧺ codes ": " ⧺ fmt_bb_name b) _
      (case-IsBalanced (fmt_int i) b (fmt_int-IsBalanced i)) (fmt_cases-AllBalanced cases fallback)

switch-IsBalanced :
    (s t : Text)
    → IsBalanced s
    → IsBalanced t
    → IsBalanced (codes "    switch(" ⧺ s ⧺ codes ") -> [\n      " ⧺ t ⧺ codes "\n    ];")
unfolding IsBalanced scan
switch-IsBalanced s t h k stack = simp (scan-append, h, k)

commas-IsBalanced : (ts : List Text) → AllBalanced ts → IsBalanced (join (codes ", ") ts)
commas-IsBalanced ts h = join-IsBalanced (codes ", ") ts (is_plain-IsBalanced (codes ", ") refl) h

module _ (P : Ty → Type 0) where
  fmt_argument-Prints :
      (a : ArgumentExpr) (cs : CompTypes)
      → ArgumentIsPrintable P a
      → Prints P (Closes (ArgumentCloses a)) cs (fmt_argument a cs)
  unfolding fmt_argument ArgumentIsPrintable ArgumentCloses
  fmt_argument-Prints (by_value value) cs h =
      Prints-bind P _ _ _ _ _ (fmt_value_expr-Prints P value cs h) λ e ds b.
        Prints-some P _ ds ds _ Meets.here (λ c. call-IsBalanced (codes "by-value") refl _ (b c))
  fmt_argument-Prints (in_place place) cs h =
      Prints-bind P _ _ _ _ _ (fmt_place_expr-Prints P place cs h) λ e ds b.
        Prints-some P _ ds ds _ Meets.here (λ c. call-IsBalanced (codes "in-place") refl _ (b c))

  fmt_value-Prints :
      (v : ValueExpr) (cs : CompTypes)
      → ValueIsPrintable P v
      → Prints P (Closes (ValueCloses v)) cs (fmt_value v cs)
  unfolding fmt_value
  fmt_value-Prints v cs h =
      Prints-bind P _ _ _ _ _ (fmt_value_expr-Prints P v cs h)
        λ e ds b. Prints-some P _ ds ds (to_string e) Meets.here b

  fmt_call-Prints :
      (C : Type 0) (callee : Text) (conv : CallingConvention) (args : Text) (ret : PlaceExpr)
      (next_block : Option BbName) (cs : CompTypes)
      → (C → IsBalanced callee × IsBalanced args × PlaceCloses ret)
      → PlaceIsPrintable P ret
      → Prints P (Closes C) cs (fmt_call callee conv args ret next_block cs)
  unfolding fmt_call
  fmt_call-Prints C callee conv args ret next_block cs closes h =
      Prints-bind P _ _ _ _ _ (fmt_place_expr-Prints P ret cs h) λ r ds b.
        Prints-some P _ ds ds _ Meets.here (λ c.
          let (k, l, m) = closes c in
          fmt_call-IsBalanced (to_string r) callee args conv next_block (b m) k l)

  pub fmt_terminator-Prints :
      (t : Terminator) (cs : CompTypes)
      → TerminatorIsPrintable P t
      → Prints P (Closes (TerminatorCloses t)) cs (fmt_terminator t cs)
  unfolding fmt_terminator TerminatorIsPrintable TerminatorCloses
  fmt_terminator-Prints (Terminator.goto bb) cs h =
      Prints-some P _ cs cs _ Meets.here (λ _. goto-IsBalanced bb)
  fmt_terminator-Prints (Terminator.switch value cases fallback) cs h =
      Prints-bind P _ _ _ _ _ (fmt_value_expr-Prints P value cs h) λ e ds b.
        Prints-some P _ ds ds _ Meets.here (λ c. switch-IsBalanced (to_string e) _ (b c) (
          join-IsBalanced (codes ",\n      ") _ (is_plain-IsBalanced (codes ",\n      ") refl)
            (fmt_cases-AllBalanced cases fallback)))
  fmt_terminator-Prints Terminator.unreachable cs h =
      Prints-some P _ cs cs _ Meets.here (λ _. is_plain-IsBalanced (codes "    unreachable;") refl)
  fmt_terminator-Prints (Terminator.call callee conv arguments ret next_block) cs (h, k, l) =
      Prints-bind P _ _ _ _ _ (fmt_value_expr-Prints P callee cs h) λ e ds b.
        Prints-bind P _ _ _ _ _
          (fmt_each-Prints P fmt_argument (ArgumentIsPrintable P) ArgumentCloses fmt_argument-Prints
            arguments ds k)
          λ ts es d.
            fmt_call-Prints _ _ conv _ ret next_block es
              (λ c. (to_atomic_string-IsBalanced e (b c.0), commas-IsBalanced ts (d c.1), c.2)) l
  fmt_terminator-Prints return_ cs h =
      Prints-some P _ cs cs _ Meets.here (λ _. is_plain-IsBalanced (codes "    return;") refl)
  fmt_terminator-Prints (Terminator.intrinsic op arguments ret next_block) cs (k, l) =
      Prints-bind P _ _ _ _ _
        (fmt_each-Prints P fmt_value (ValueIsPrintable P) ValueCloses fmt_value-Prints arguments cs
          k)
        λ ts es d.
          fmt_call-Prints _ _ rust _ ret next_block es
            (λ c. (
              is_plain-IsBalanced (fmt_intrinsic op) (fmt_intrinsic-is_plain op),
              commas-IsBalanced ts (d c.0),
              c.1,
            ))
            l
