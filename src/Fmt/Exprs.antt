-- ===== src/Fmt/Exprs.antt =====
-- tooling/miniutil/src/fmt/expr.rs, and the names of function.rs, global.rs and vtables.rs that
-- expressions use: places and values. `none` is a panic.
use minirust.Prelude.{
  Bool, true, false, List, [], ◌∷◌, Option, none, some, ◌>>=◌, if◌then◌else◌, ◌==◌,
}
use minirust.Prelude.Int.{pos, ◌==ℤ◌}
use minirust.Lang.Types.{Ty, PtrType, mutable, immutable, Mutability}
use minirust.Lang.Syntax.{
  FnName, GlobalName, VTableName, TraitMethodName, LocalName, Relocation, Constant, neg, bit_not,
  count_ones, int_to_int, transmute, UnOp, IntBinOp, IntBinOpWithOverflow, RelOp, BinOp, ValueExpr,
  PlaceExpr, ValueExprs, no_exprs, expr,
}
use minirust.Fmt.Text.{Text, ◌⧺◌, codes, fmt_nat, fmt_int, fmt_bool, join}
use minirust.Fmt.Types.{
  FmtExpr, CompTypes, to_string, to_atomic_string, fmt_int_type, fmt_ptr_type, fmt_type,
}

unfoldable pub fmt_fn_name : FnName → Text
fmt_fn_name id = codes "f" ⧺ fmt_nat id

unfoldable pub fmt_vtable_name : VTableName → Text
fmt_vtable_name id = codes "vtable" ⧺ fmt_nat id

unfoldable pub fmt_trait_method_name : TraitMethodName → Text
fmt_trait_method_name id = codes "m" ⧺ fmt_nat id

unfoldable pub fmt_local_name : LocalName → Text
fmt_local_name id = codes "_" ⧺ fmt_nat id

unfoldable pub fmt_global_name : GlobalName → Text
fmt_global_name id = codes "global(" ⧺ fmt_nat id ⧺ codes ")"

unfoldable pub fmt_relocation : Relocation → FmtExpr
fmt_relocation relocation =
    if relocation.offset == 0
    then FmtExpr.atomic (fmt_global_name relocation.name)
    else FmtExpr.non_atomic
        (fmt_global_name relocation.name ⧺ codes " + " ⧺ fmt_nat relocation.offset)

unfoldable pub fmt_constant : Constant → FmtExpr
fmt_constant (Constant.int i) = FmtExpr.atomic (fmt_int i)
fmt_constant (Constant.bool b) = FmtExpr.atomic (fmt_bool b)
fmt_constant (Constant.global_pointer relocation) = fmt_relocation relocation
fmt_constant (Constant.fn_pointer name) = FmtExpr.atomic (fmt_fn_name name)
fmt_constant (Constant.vtable_pointer name) = FmtExpr.atomic (fmt_vtable_name name)
fmt_constant (Constant.pointer_without_provenance addr) =
    if addr ==ℤ pos 0
    then FmtExpr.atomic (codes "nullptr")
    else FmtExpr.atomic (codes "invalid_ptr(" ⧺ fmt_int addr ⧺ codes ")")

-- `name(operand)`
abbrev pub call : Text → Text → Text
call name operand = name ⧺ codes "(" ⧺ operand ⧺ codes ")"

-- `name<generic>(operand)`
abbrev pub generic_call : Text → Text → Text → Text
generic_call name generic operand = name ⧺ codes "<" ⧺ generic ⧺ codes ">(" ⧺ operand ⧺ codes ")"

-- `name(l, r)`
abbrev pub call_two : Text → Text → Text → Text
call_two name l r = name ⧺ codes "(" ⧺ l ⧺ codes ", " ⧺ r ⧺ codes ")"

-- `l op r`
abbrev pub between : Text → Text → Text → Text
between op l r = l ⧺ codes " " ⧺ op ⧺ codes " " ⧺ r

-- `ValueExpr::UnOp`, of a printed operand. Only here two brackets stay open.
unfoldable pub fmt_un_op : UnOp → Text → CompTypes → FmtExpr × CompTypes
fmt_un_op (UnOp.int neg) operand comptypes =
    (FmtExpr.non_atomic (codes "-(" ⧺ operand ⧺ codes ")"), comptypes)
fmt_un_op (UnOp.int bit_not) operand comptypes =
    (FmtExpr.non_atomic (codes "!(" ⧺ operand), comptypes)
fmt_un_op (UnOp.int count_ones) operand comptypes =
    (FmtExpr.non_atomic (codes "count_ones(" ⧺ operand), comptypes)
fmt_un_op (UnOp.cast (int_to_int int_ty)) operand comptypes =
    (FmtExpr.atomic (generic_call (codes "int2int") (fmt_int_type int_ty) operand), comptypes)
fmt_un_op (UnOp.cast (transmute new_ty)) operand comptypes =
    let ty = fmt_type new_ty comptypes in
    (FmtExpr.atomic (generic_call (codes "transmute") (to_string ty.0) operand), ty.1)
fmt_un_op UnOp.get_thin_pointer operand comptypes =
    (FmtExpr.atomic (call (codes "get_thin_ptr") operand), comptypes)
fmt_un_op UnOp.get_metadata operand comptypes =
    (FmtExpr.atomic (call (codes "get_metadata") operand), comptypes)
fmt_un_op (UnOp.compute_size t) operand comptypes =
    let ty = fmt_type t comptypes in
    (FmtExpr.atomic (generic_call (codes "compute_size") (to_string ty.0) operand), ty.1)
fmt_un_op (UnOp.compute_align t) operand comptypes =
    let ty = fmt_type t comptypes in
    (FmtExpr.atomic (generic_call (codes "compute_align") (to_string ty.0) operand), ty.1)
fmt_un_op (UnOp.vtable_method_lookup method) operand comptypes = (
  FmtExpr.non_atomic (generic_call (codes "vtable_lookup") (fmt_trait_method_name method) operand),
  comptypes,
)

-- `BinOp::Int`, of printed operands
unfoldable pub fmt_int_bin_op : IntBinOp → Text → Text → FmtExpr
fmt_int_bin_op IntBinOp.add l r = FmtExpr.non_atomic (between (codes "+") l r)
fmt_int_bin_op IntBinOp.sub l r = FmtExpr.non_atomic (between (codes "-") l r)
fmt_int_bin_op IntBinOp.mul l r = FmtExpr.non_atomic (between (codes "*") l r)
fmt_int_bin_op IntBinOp.div l r = FmtExpr.non_atomic (between (codes "/") l r)
fmt_int_bin_op IntBinOp.rem l r = FmtExpr.non_atomic (between (codes "%") l r)
fmt_int_bin_op IntBinOp.shl l r = FmtExpr.non_atomic (between (codes "<<") l r)
fmt_int_bin_op IntBinOp.shr l r = FmtExpr.non_atomic (between (codes ">>") l r)
fmt_int_bin_op IntBinOp.bit_and l r = FmtExpr.non_atomic (between (codes "&") l r)
fmt_int_bin_op IntBinOp.bit_or l r = FmtExpr.non_atomic (between (codes "|") l r)
fmt_int_bin_op IntBinOp.bit_xor l r = FmtExpr.non_atomic (between (codes "^") l r)
fmt_int_bin_op IntBinOp.add_unchecked l r = FmtExpr.atomic (call_two (codes "AddUnchecked") l r)
fmt_int_bin_op IntBinOp.sub_unchecked l r = FmtExpr.atomic (call_two (codes "SubUnchecked") l r)
fmt_int_bin_op IntBinOp.mul_unchecked l r = FmtExpr.atomic (call_two (codes "MulUnchecked") l r)
fmt_int_bin_op IntBinOp.div_exact l r = FmtExpr.atomic (call_two (codes "DivExact") l r)
fmt_int_bin_op IntBinOp.shl_unchecked l r = FmtExpr.atomic (call_two (codes "ShlUnchecked") l r)
fmt_int_bin_op IntBinOp.shr_unchecked l r = FmtExpr.atomic (call_two (codes "ShrUnchecked") l r)

abbrev pub overflow_name : IntBinOpWithOverflow → Text
overflow_name IntBinOpWithOverflow.add = codes "Add"
overflow_name IntBinOpWithOverflow.sub = codes "Sub"
overflow_name IntBinOpWithOverflow.mul = codes "Mul"

abbrev pub rel_name : RelOp → Text
rel_name RelOp.lt = codes "<"
rel_name RelOp.le = codes "<="
rel_name RelOp.gt = codes ">"
rel_name RelOp.ge = codes ">="
rel_name RelOp.eq = codes "=="
rel_name RelOp.ne = codes "!="
rel_name RelOp.cmp = codes "<=>"

abbrev pub offset_name : Bool → Text
offset_name true = codes "offset_inbounds"
offset_name false = codes "offset_wrapping"

abbrev pub offset_from_name : Bool → Bool → Text
offset_from_name inbounds nonneg =
    codes "offset_from_"
    ⧺ (if inbounds then codes "inbounds" else codes "wrapping")
    ⧺ (if nonneg then codes "_nonneg" else [])

-- `ValueExpr::BinOp`, of printed operands
unfoldable pub fmt_bin_op : BinOp → FmtExpr → FmtExpr → FmtExpr
fmt_bin_op (BinOp.int op) left right =
    fmt_int_bin_op op (to_atomic_string left) (to_atomic_string right)
fmt_bin_op (BinOp.int_with_overflow op) left right = FmtExpr.atomic (
    call_two (overflow_name op ⧺ codes "WithOverflow") (to_atomic_string left)
      (to_atomic_string right))
fmt_bin_op (BinOp.rel rel) left right =
    FmtExpr.non_atomic (between (rel_name rel) (to_atomic_string left) (to_atomic_string right))
fmt_bin_op (BinOp.ptr_offset inbounds) left right =
    FmtExpr.atomic (call_two (offset_name inbounds) (to_string left) (to_string right))
fmt_bin_op (BinOp.ptr_offset_from inbounds nonneg) left right =
    FmtExpr.atomic (call_two (offset_from_name inbounds nonneg) (to_string left) (to_string right))
fmt_bin_op (BinOp.construct_wide_pointer ptr_ty) left right = FmtExpr.atomic (
    codes "construct_ptr<"
    ⧺ to_string (fmt_ptr_type ptr_ty)
    ⧺ codes ">("
    ⧺ to_string left
    ⧺ codes ", "
    ⧺ to_string right
    ⧺ codes ")")

abbrev pub mutbl_prefix : Mutability → Text
mutbl_prefix mutable = codes "mut "
mutbl_prefix immutable = []

-- The brackets of `ValueExpr::Tuple`
unfoldable pub fmt_tuple : Ty → Text → Option FmtExpr
fmt_tuple (Ty.array _ _) l = some (FmtExpr.atomic (codes "[" ⧺ l ⧺ codes "]"))
fmt_tuple (Ty.tuple _ _ _) l = some (FmtExpr.atomic (codes "(" ⧺ l ⧺ codes ")"))
fmt_tuple _ l = none

-- `ValueExpr::AddrOf`, of a printed target
unfoldable pub fmt_addr_of : PtrType → FmtExpr → Option FmtExpr
fmt_addr_of (PtrType.raw _) target =
    some (FmtExpr.non_atomic (codes "&raw " ⧺ to_atomic_string target))
fmt_addr_of (PtrType.ref mutbl _) target =
    some (FmtExpr.non_atomic (codes "&" ⧺ mutbl_prefix mutbl ⧺ to_atomic_string target))
fmt_addr_of _ target = none

unfoldable mutual
  pub fmt_place_expr : PlaceExpr → CompTypes → Option (FmtExpr × CompTypes)
  fmt_place_expr (PlaceExpr.local l) cs = some (FmtExpr.atomic (fmt_local_name l), cs)
  fmt_place_expr (PlaceExpr.deref operand ty) cs = do
    let ptype = fmt_type ty cs
    (e, cs₁) ← fmt_value_expr operand ptype.1
    some (FmtExpr.atomic (generic_call (codes "deref") (to_string ptype.0) (to_string e)), cs₁)
  fmt_place_expr (PlaceExpr.field root field) cs = do
    (e, cs₁) ← fmt_place_expr root cs
    some (FmtExpr.atomic (to_atomic_string e ⧺ codes "." ⧺ fmt_int field), cs₁)
  fmt_place_expr (PlaceExpr.index root index) cs = do
    (e, cs₁) ← fmt_place_expr root cs
    (i, cs₂) ← fmt_value_expr index cs₁
    some (FmtExpr.atomic (to_atomic_string e ⧺ codes "[" ⧺ to_string i ⧺ codes "]"), cs₂)
  fmt_place_expr (PlaceExpr.downcast root discriminant) cs = do
    (e, cs₁) ← fmt_place_expr root cs
    some
        (FmtExpr.non_atomic (to_atomic_string e ⧺ codes " as variant " ⧺ fmt_int discriminant), cs₁)

  pub fmt_value_expr : ValueExpr → CompTypes → Option (FmtExpr × CompTypes)
  fmt_value_expr (ValueExpr.constant c _) cs = some (fmt_constant c, cs)
  fmt_value_expr (ValueExpr.tuple l t) cs = do
    (texts, cs₁) ← fmt_value_exprs l cs
    e ← fmt_tuple t (join (codes ", ") texts)
    some (e, cs₁)
  fmt_value_expr (ValueExpr.union field e union_ty) cs = do
    let ty = fmt_type union_ty cs
    (s, cs₁) ← fmt_value_expr e ty.1
    some (
      FmtExpr.non_atomic (
          to_string ty.0
          ⧺ codes " { field"
          ⧺ fmt_int field
          ⧺ codes ": "
          ⧺ to_string s
          ⧺ codes " }"),
      cs₁,
    )
  fmt_value_expr (ValueExpr.variant discriminant data_ enum_ty) cs = do
    let ty = fmt_type enum_ty cs
    (s, cs₁) ← fmt_value_expr data_ ty.1
    some (
      FmtExpr.non_atomic
          (to_string ty.0 ⧺ codes "(variant " ⧺ fmt_int discriminant ⧺ codes "): " ⧺ to_string s),
      cs₁,
    )
  fmt_value_expr (ValueExpr.get_discriminant place) cs = do
    (p, cs₁) ← fmt_place_expr place cs
    some (FmtExpr.atomic (call (codes "discriminant") (to_string p)), cs₁)
  fmt_value_expr (ValueExpr.load source) cs = do
    (p, cs₁) ← fmt_place_expr source cs
    some (FmtExpr.atomic (call (codes "load") (to_string p)), cs₁)
  fmt_value_expr (ValueExpr.addr_of target ptr_ty) cs = do
    (p, cs₁) ← fmt_place_expr target cs
    e ← fmt_addr_of ptr_ty p
    some (e, cs₁)
  fmt_value_expr (ValueExpr.un_op operator operand) cs = do
    (s, cs₁) ← fmt_value_expr operand cs
    some (fmt_un_op operator (to_string s) cs₁)
  fmt_value_expr (ValueExpr.bin_op operator left right) cs = do
    (l, cs₁) ← fmt_value_expr left cs
    (r, cs₂) ← fmt_value_expr right cs₁
    some (fmt_bin_op operator l r, cs₂)

  -- `iter().map(..).collect()` of the fields of a tuple
  pub fmt_value_exprs : ValueExprs → CompTypes → Option (List Text × CompTypes)
  fmt_value_exprs no_exprs cs = some ([], cs)
  fmt_value_exprs (expr e es) cs = do
    (s, cs₁) ← fmt_value_expr e cs
    (texts, cs₂) ← fmt_value_exprs es cs₁
    some (to_string s ∷ texts, cs₂)
