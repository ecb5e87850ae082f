-- ===== src/Fmt/Prints/Exprs.antt =====
-- expr.rs: printing an expression returns, closes its brackets and meets only its types.
use minirust.Prelude.{refl, [], ◌∷◌}
use minirust.Prelude.Int.{ℤ}
use minirust.Lang.Types.{Ty}
use minirust.Lang.Syntax.{ValueExpr, PlaceExpr, ValueExprs, no_exprs, expr}
use minirust.Fmt.Text.{Text, ◌⧺◌, codes, fmt_int, join}
use minirust.Fmt.Types.{FmtExpr, CompTypes, to_string, to_atomic_string, fmt_type}
use minirust.Fmt.Exprs.{
  fmt_local_name, fmt_constant, fmt_place_expr, fmt_value_expr, fmt_value_exprs,
}
use minirust.Fmt.Meets.{Meets}
use minirust.Fmt.Prints.{
  Prints, Prints-some, Prints-bind, Prints-from, fmt_type-Meets, fmt_un_op-Meets, Balances,
  AllBalance,
}
use minirust.Fmt.Brackets.{IsBalanced, scan, scan-append, fmt_int-IsBalanced, is_plain-IsBalanced}
use minirust.Fmt.Brackets.Pieces.{
  fmt_local_name-IsBalanced, fmt_constant-IsBalanced, fmt_type-IsBalanced,
  to_atomic_string-IsBalanced, call-IsBalanced, generic_call-IsBalanced,
}
use minirust.Fmt.Brackets.Operators.{
  nil-AllBalanced, cons-AllBalanced, join-IsBalanced, fmt_tuple_total, fmt_addr_of_total,
  fmt_un_op-IsBalanced, fmt_bin_op-IsBalanced,
}
use minirust.Fmt.Printable.{
  PlaceIsPrintable, ValueIsPrintable, ValuesArePrintable, PlaceCloses, ValueCloses, ValuesClose,
}

fmt_field-IsBalanced :
    (e : FmtExpr) (i : ℤ)
    → IsBalanced (to_string e)
    → IsBalanced (to_atomic_string e ⧺ codes "." ⧺ fmt_int i)
unfolding IsBalanced scan
fmt_field-IsBalanced e i h stack =
    simp (scan-append, to_atomic_string-IsBalanced e h, fmt_int-IsBalanced)

fmt_index-IsBalanced :
    (e i : FmtExpr)
    → IsBalanced (to_string e)
    → IsBalanced (to_string i)
    → IsBalanced (to_atomic_string e ⧺ codes "[" ⧺ to_string i ⧺ codes "]")
unfolding IsBalanced scan
fmt_index-IsBalanced e i h k stack = simp (scan-append, to_atomic_string-IsBalanced e h, k)

fmt_downcast-IsBalanced :
    (e : FmtExpr) (i : ℤ)
    → IsBalanced (to_string e)
    → IsBalanced (to_atomic_string e ⧺ codes " as variant " ⧺ fmt_int i)
unfolding IsBalanced scan
fmt_downcast-IsBalanced e i h stack =
    simp (scan-append, to_atomic_string-IsBalanced e h, fmt_int-IsBalanced)

fmt_union-IsBalanced :
    (t : Text) (i : ℤ) (s : Text)
    → IsBalanced t
    → IsBalanced s
    → IsBalanced (t ⧺ codes " { field" ⧺ fmt_int i ⧺ codes ": " ⧺ s ⧺ codes " }")
unfolding IsBalanced scan
fmt_union-IsBalanced t i s h k stack = simp (scan-append, h, k, fmt_int-IsBalanced)

fmt_variant-IsBalanced :
    (t : Text) (i : ℤ) (s : Text)
    → IsBalanced t
    → IsBalanced s
    → IsBalanced (t ⧺ codes "(variant " ⧺ fmt_int i ⧺ codes "): " ⧺ s)
unfolding IsBalanced scan
fmt_variant-IsBalanced t i s h k stack = simp (scan-append, h, k, fmt_int-IsBalanced)

module _ (P : Ty → Type 0) where
  mutual
    unfolding fmt_place_expr fmt_value_expr fmt_value_exprs PlaceIsPrintable ValueIsPrintable
        ValuesArePrintable PlaceCloses ValueCloses ValuesClose

    pub fmt_place_expr-Prints :
        (p : PlaceExpr) (cs : CompTypes)
        → PlaceIsPrintable P p
        → Prints P (Balances (PlaceCloses p)) cs (fmt_place_expr p cs)
    fmt_place_expr-Prints (PlaceExpr.local l) cs h =
        Prints-some P _ cs cs (FmtExpr.atomic (fmt_local_name l)) Meets.here
          (λ _. fmt_local_name-IsBalanced l)
    fmt_place_expr-Prints (PlaceExpr.deref operand ty) cs (root, h) =
        Prints-from P _ cs _ _ (fmt_type-Meets P ty cs root) (
          Prints-bind P _ _ _ _ _ (fmt_value_expr-Prints operand (fmt_type ty cs).1 h) λ e ds b.
            Prints-some P _ ds ds _ Meets.here (λ c.
              generic_call-IsBalanced (codes "deref") refl _ _ (fmt_type-IsBalanced ty cs) (b c)))
    fmt_place_expr-Prints (PlaceExpr.field root i) cs h =
        Prints-bind P _ _ _ _ _ (fmt_place_expr-Prints root cs h)
          λ e ds b. Prints-some P _ ds ds _ Meets.here (λ c. fmt_field-IsBalanced e i (b c))
    fmt_place_expr-Prints (PlaceExpr.index root index) cs (h, k) =
        Prints-bind P _ _ _ _ _ (fmt_place_expr-Prints root cs h) λ e ds b.
          Prints-bind P _ _ _ _ _ (fmt_value_expr-Prints index ds k) λ i es d.
            Prints-some P _ es es _ Meets.here (λ c. fmt_index-IsBalanced e i (b c.0) (d c.1))
    fmt_place_expr-Prints (PlaceExpr.downcast root i) cs h =
        Prints-bind P _ _ _ _ _ (fmt_place_expr-Prints root cs h)
          λ e ds b. Prints-some P _ ds ds _ Meets.here (λ c. fmt_downcast-IsBalanced e i (b c))

    pub fmt_value_expr-Prints :
        (v : ValueExpr) (cs : CompTypes)
        → ValueIsPrintable P v
        → Prints P (Balances (ValueCloses v)) cs (fmt_value_expr v cs)
    fmt_value_expr-Prints (ValueExpr.constant c _) cs h =
        Prints-some P _ cs cs (fmt_constant c) Meets.here (λ _. fmt_constant-IsBalanced c)
    fmt_value_expr-Prints (ValueExpr.tuple es t) cs (is, h) =
        Prints-bind P _ _ _ _ _ (fmt_value_exprs-Prints es cs h) λ texts ds b.
          let (e, eq, bal) = fmt_tuple_total t (join (codes ", ") texts) is in
          rw eq (
            Prints-some P _ ds ds e Meets.here (λ c.
              bal
                (join-IsBalanced (codes ", ") texts (is_plain-IsBalanced (codes ", ") refl) (b c))))
    fmt_value_expr-Prints (ValueExpr.union i e ty) cs (root, h) =
        Prints-from P _ cs _ _ (fmt_type-Meets P ty cs root) (
          Prints-bind P _ _ _ _ _ (fmt_value_expr-Prints e (fmt_type ty cs).1 h) λ s ds b.
            Prints-some P _ ds ds _ Meets.here
              (λ c. fmt_union-IsBalanced _ i _ (fmt_type-IsBalanced ty cs) (b c)))
    fmt_value_expr-Prints (ValueExpr.variant i e ty) cs (root, h) =
        Prints-from P _ cs _ _ (fmt_type-Meets P ty cs root) (
          Prints-bind P _ _ _ _ _ (fmt_value_expr-Prints e (fmt_type ty cs).1 h) λ s ds b.
            Prints-some P _ ds ds _ Meets.here
              (λ c. fmt_variant-IsBalanced _ i _ (fmt_type-IsBalanced ty cs) (b c)))
    fmt_value_expr-Prints (ValueExpr.get_discriminant place) cs h =
        Prints-bind P _ _ _ _ _ (fmt_place_expr-Prints place cs h) λ e ds b.
          Prints-some P _ ds ds _ Meets.here
            (λ c. call-IsBalanced (codes "discriminant") refl _ (b c))
    fmt_value_expr-Prints (ValueExpr.load source) cs h =
        Prints-bind P _ _ _ _ _ (fmt_place_expr-Prints source cs h) λ e ds b.
          Prints-some P _ ds ds _ Meets.here (λ c. call-IsBalanced (codes "load") refl _ (b c))
    fmt_value_expr-Prints (ValueExpr.addr_of target ptr_ty) cs (is, h) =
        Prints-bind P _ _ _ _ _ (fmt_place_expr-Prints target cs h) λ p ds b.
          let (e, eq, bal) = fmt_addr_of_total ptr_ty p is in
          rw eq (Prints-some P _ ds ds e Meets.here (λ c. bal (b c)))
    fmt_value_expr-Prints (ValueExpr.un_op op e) cs (is, h) =
        Prints-bind P _ _ _ _ _ (fmt_value_expr-Prints e cs h) λ s ds b.
          Prints-some P _ ds _ _ (fmt_un_op-Meets P op (to_string s) ds is)
            (λ c. fmt_un_op-IsBalanced op (to_string s) ds c.0 (b c.1))
    fmt_value_expr-Prints (ValueExpr.bin_op op l r) cs (h, k) =
        Prints-bind P _ _ _ _ _ (fmt_value_expr-Prints l cs h) λ x ds b.
          Prints-bind P _ _ _ _ _ (fmt_value_expr-Prints r ds k) λ y es d.
            Prints-some P _ es es _ Meets.here (λ c. fmt_bin_op-IsBalanced op x y (b c.0) (d c.1))

    pub fmt_value_exprs-Prints :
        (es : ValueExprs) (cs : CompTypes)
        → ValuesArePrintable P es
        → Prints P (AllBalance (ValuesClose es)) cs (fmt_value_exprs es cs)
    fmt_value_exprs-Prints no_exprs cs h =
        Prints-some P _ cs cs [] Meets.here (λ _. nil-AllBalanced)
    fmt_value_exprs-Prints (expr e es) cs (h, k) =
        Prints-bind P _ _ _ _ _ (fmt_value_expr-Prints e cs h) λ s ds b.
          Prints-bind P _ _ _ _ _ (fmt_value_exprs-Prints es ds k) λ ts fs d.
            Prints-some P _ fs fs (to_string s ∷ ts) Meets.here
              (λ c. cons-AllBalanced (to_string s) ts (b c.0) (d c.1))
