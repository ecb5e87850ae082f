-- ===== src/Fmt/Prints.antt =====
-- expr.rs: how printers follow one another, and the types that they meet.
pub mod Definitions
pub mod Loop
pub mod Exprs
pub mod Statements
pub mod Terminators
pub mod Functions
use minirust.Prelude.{
  ℕ, ◌≡◌, refl, Bool, true, false, List, [], ◌∷◌, Option, none, some, ◌>>=◌, subst, sym,
}
use minirust.Prelude.Int.{ℤ}
use minirust.Lang.Types.{Ty}
use minirust.Lang.Syntax.{
  CastOp, UnOp, ValueExpr, PlaceExpr, ValueExprs, no_exprs, expr, int_to_int, transmute, IntUnOp,
  neg, bit_not, count_ones,
}
use minirust.Fmt.Text.{Text, ◌⧺◌, codes, fmt_int, join}
use minirust.Fmt.Types.{
  FmtExpr, CompTypes, to_string, to_atomic_string, fmt_composite, fmt_type, get_comptype_index,
}
use minirust.Fmt.Exprs.{
  generic_call, fmt_local_name, fmt_constant, fmt_tuple, fmt_addr_of, fmt_un_op, fmt_bin_op,
  fmt_place_expr, fmt_value_expr, fmt_value_exprs,
}
use minirust.Fmt.Meets.{Meets}
use minirust.Fmt.Brackets.{IsBalanced, scan, scan-append, fmt_int-IsBalanced}
use minirust.Fmt.Brackets.Pieces.{
  fmt_local_name-IsBalanced, fmt_constant-IsBalanced, fmt_type-IsBalanced,
  to_atomic_string-IsBalanced, call-IsBalanced, generic_call-IsBalanced,
}
use minirust.Fmt.Brackets.Operators.{
  AllBalanced, join-IsBalanced, fmt_tuple_total, fmt_addr_of_total, fmt_un_op-IsBalanced,
  fmt_bin_op-IsBalanced, IsTupleType, IsAddrOfType, ClosesBracket,
}
use minirust.Fmt.Printable.{
  RootIs, OperatorIsPrintable, PlaceIsPrintable, ValueIsPrintable, ValuesArePrintable, PlaceCloses,
  ValueCloses, ValuesClose,
}

-- A printer that starts with the list `cs` returns; what it prints is `Good`, and the types that it
-- meets are `P`.
unfoldable pub Prints {ℓ} :
    {A : Type ℓ} → (Ty → Type 0) → (A → Type 0) → CompTypes → Option (A × CompTypes) → Type ℓ
Prints {A = A} P Good cs r =
    (a : A) × (ds : CompTypes) × (r ≡ some (a, ds)) × Meets P cs ds × Good a

module _ (P : Ty → Type 0) where
  pub Prints-some {ℓ} :
      {A : Type ℓ} (Good : A → Type 0) (cs ds : CompTypes) (a : A)
      → Meets P cs ds
      → Good a
      → Prints P Good cs (some (a, ds))
  unfolding Prints
  Prints-some Good cs ds a m g = (a, ds, refl, m, g)

  pub Prints-bind {ℓ κ} :
      {A : Type ℓ} {B : Type κ} (Good : A → Type 0) (Fine : B → Type 0) (cs : CompTypes)
      (r : Option (A × CompTypes)) (k : (A × CompTypes) → Option (B × CompTypes))
      → Prints P Good cs r
      → ((a : A) (ds : CompTypes) → Good a → Prints P Fine ds (k (a, ds)))
      → Prints P Fine cs (r >>= k)
  unfolding Prints
  Prints-bind Good Fine cs r k (a, ds, e, m, g) rest =
      let (b, es, e', m', h) = rest a ds g in (b, es, rw e e', Meets.next m m', h)

  pub Prints-from {ℓ} :
      {A : Type ℓ} (Good : A → Type 0) (cs ds : CompTypes) (r : Option (A × CompTypes))
      → Meets P cs ds
      → Prints P Good ds r
      → Prints P Good cs r
  unfolding Prints
  Prints-from Good cs ds r m (a, es, e, m', g) = (a, es, e, Meets.next m m', g)

  pub fmt_type-Meets : (t : Ty) (cs : CompTypes) → RootIs P t → Meets P cs (fmt_type t cs).1
  unfolding fmt_type RootIs fmt_composite
  fmt_type-Meets (Ty.int _) cs h = Meets.here
  fmt_type-Meets (Ty.ptr _) cs h = Meets.here
  fmt_type-Meets Ty.bool cs h = Meets.here
  fmt_type-Meets (Ty.tuple fs head rest) cs h = Meets.meet (Ty.tuple fs head rest) h
  fmt_type-Meets (Ty.union fs chunks size align) cs h = Meets.meet (Ty.union fs chunks size align) h
  fmt_type-Meets (Ty.enum vs ity d size align) cs h = Meets.meet (Ty.enum vs ity d size align) h
  fmt_type-Meets (Ty.array elem _) cs h = fmt_type-Meets elem cs h
  fmt_type-Meets (Ty.slice elem) cs h = fmt_type-Meets elem cs h
  fmt_type-Meets (Ty.trait_object _) cs h = Meets.here

  pub fmt_un_op-Meets :
      (op : UnOp) (s : Text) (cs : CompTypes)
      → OperatorIsPrintable P op
      → Meets P cs (fmt_un_op op s cs).1
  unfolding fmt_un_op OperatorIsPrintable
  fmt_un_op-Meets (UnOp.int neg) s cs h = Meets.here
  fmt_un_op-Meets (UnOp.int bit_not) s cs h = Meets.here
  fmt_un_op-Meets (UnOp.int count_ones) s cs h = Meets.here
  fmt_un_op-Meets (UnOp.cast (int_to_int _)) s cs h = Meets.here
  fmt_un_op-Meets (UnOp.cast (transmute t)) s cs h = fmt_type-Meets t cs h
  fmt_un_op-Meets UnOp.get_thin_pointer s cs h = Meets.here
  fmt_un_op-Meets UnOp.get_metadata s cs h = Meets.here
  fmt_un_op-Meets (UnOp.compute_size t) s cs h = fmt_type-Meets t cs h
  fmt_un_op-Meets (UnOp.compute_align t) s cs h = fmt_type-Meets t cs h
  fmt_un_op-Meets (UnOp.vtable_method_lookup _) s cs h = Meets.here

-- What is printed is balanced, if `C` holds of the expression.
abbrev pub Balances : Type 0 → FmtExpr → Type 0
Balances C e = C → IsBalanced (to_string e)

abbrev pub AllBalance : Type 0 → List Text → Type 0
AllBalance C ts = C → AllBalanced ts
