-- ===== src/Build/Operators.antt =====
-- build/expr.rs: operators, and the Boolean operators made of them.
use minirust.Prelude.{Option, some, ◌>>=◌}
use minirust.Prelude.Int.{pos}
use minirust.Lang.Syntax.{IntBinOp, IntBinOpWithOverflow, RelOp, BinOp, ValueExpr}
use minirust.Build.Types.{u8, bool_ty}
use minirust.Build.Exprs.{const_int, transmute, bool_to_int}

unfoldable pub int_binop : IntBinOp → ValueExpr → ValueExpr → ValueExpr
int_binop op l r = ValueExpr.bin_op (BinOp.int op) l r

unfoldable pub add : ValueExpr → ValueExpr → ValueExpr
unfolding int_binop
add l r = int_binop IntBinOp.add l r

unfoldable pub add_unchecked : ValueExpr → ValueExpr → ValueExpr
unfolding int_binop
add_unchecked l r = int_binop IntBinOp.add_unchecked l r

unfoldable pub sub : ValueExpr → ValueExpr → ValueExpr
unfolding int_binop
sub l r = int_binop IntBinOp.sub l r

unfoldable pub sub_unchecked : ValueExpr → ValueExpr → ValueExpr
unfolding int_binop
sub_unchecked l r = int_binop IntBinOp.sub_unchecked l r

unfoldable pub mul : ValueExpr → ValueExpr → ValueExpr
unfolding int_binop
mul l r = int_binop IntBinOp.mul l r

unfoldable pub mul_unchecked : ValueExpr → ValueExpr → ValueExpr
unfolding int_binop
mul_unchecked l r = int_binop IntBinOp.mul_unchecked l r

unfoldable pub div : ValueExpr → ValueExpr → ValueExpr
unfolding int_binop
div l r = int_binop IntBinOp.div l r

unfoldable pub div_exact : ValueExpr → ValueExpr → ValueExpr
unfolding int_binop
div_exact l r = int_binop IntBinOp.div_exact l r

unfoldable pub rem : ValueExpr → ValueExpr → ValueExpr
unfolding int_binop
rem l r = int_binop IntBinOp.rem l r

unfoldable pub shl : ValueExpr → ValueExpr → ValueExpr
unfolding int_binop
shl l r = int_binop IntBinOp.shl l r

unfoldable pub shl_unchecked : ValueExpr → ValueExpr → ValueExpr
unfolding int_binop
shl_unchecked l r = int_binop IntBinOp.shl_unchecked l r

unfoldable pub shr : ValueExpr → ValueExpr → ValueExpr
unfolding int_binop
shr l r = int_binop IntBinOp.shr l r

unfoldable pub shr_unchecked : ValueExpr → ValueExpr → ValueExpr
unfolding int_binop
shr_unchecked l r = int_binop IntBinOp.shr_unchecked l r

unfoldable pub bit_and : ValueExpr → ValueExpr → ValueExpr
unfolding int_binop
bit_and l r = int_binop IntBinOp.bit_and l r

unfoldable pub bit_or : ValueExpr → ValueExpr → ValueExpr
unfolding int_binop
bit_or l r = int_binop IntBinOp.bit_or l r

unfoldable pub bit_xor : ValueExpr → ValueExpr → ValueExpr
unfolding int_binop
bit_xor l r = int_binop IntBinOp.bit_xor l r

unfoldable pub int_overflow : IntBinOpWithOverflow → ValueExpr → ValueExpr → ValueExpr
int_overflow op l r = ValueExpr.bin_op (BinOp.int_with_overflow op) l r

unfoldable pub overflow_add : ValueExpr → ValueExpr → ValueExpr
unfolding int_overflow
overflow_add l r = int_overflow IntBinOpWithOverflow.add l r

unfoldable pub overflow_sub : ValueExpr → ValueExpr → ValueExpr
unfolding int_overflow
overflow_sub l r = int_overflow IntBinOpWithOverflow.sub l r

unfoldable pub overflow_mul : ValueExpr → ValueExpr → ValueExpr
unfolding int_overflow
overflow_mul l r = int_overflow IntBinOpWithOverflow.mul l r

unfoldable pub rel_op : RelOp → ValueExpr → ValueExpr → ValueExpr
rel_op op l r = ValueExpr.bin_op (BinOp.rel op) l r

unfoldable pub eq : ValueExpr → ValueExpr → ValueExpr
unfolding rel_op
eq l r = rel_op RelOp.eq l r

unfoldable pub ne : ValueExpr → ValueExpr → ValueExpr
unfolding rel_op
ne l r = rel_op RelOp.ne l r

unfoldable pub ge : ValueExpr → ValueExpr → ValueExpr
unfolding rel_op
ge l r = rel_op RelOp.ge l r

unfoldable pub gt : ValueExpr → ValueExpr → ValueExpr
unfolding rel_op
gt l r = rel_op RelOp.gt l r

unfoldable pub le : ValueExpr → ValueExpr → ValueExpr
unfolding rel_op
le l r = rel_op RelOp.le l r

unfoldable pub lt : ValueExpr → ValueExpr → ValueExpr
unfolding rel_op
lt l r = rel_op RelOp.lt l r

unfoldable pub cmp : ValueExpr → ValueExpr → ValueExpr
unfolding rel_op
cmp l r = rel_op RelOp.cmp l r

unfoldable pub not : ValueExpr → Option ValueExpr
unfolding transmute sub const_int bool_to_int bool_ty
not v = do b ← bool_to_int u8 v; some (transmute (sub (const_int u8 (pos 1)) b) bool_ty)

unfoldable pub bool_and : ValueExpr → ValueExpr → Option ValueExpr
unfolding transmute bit_and bool_to_int bool_ty
bool_and l r = do a ← bool_to_int u8 l; b ← bool_to_int u8 r; some (transmute (bit_and a b) bool_ty)

unfoldable pub bool_or : ValueExpr → ValueExpr → Option ValueExpr
unfolding transmute bit_or bool_to_int bool_ty
bool_or l r = do a ← bool_to_int u8 l; b ← bool_to_int u8 r; some (transmute (bit_or a b) bool_ty)

unfoldable pub bool_xor : ValueExpr → ValueExpr → Option ValueExpr
unfolding transmute bit_xor bool_to_int bool_ty
bool_xor l r = do a ← bool_to_int u8 l; b ← bool_to_int u8 r; some (transmute (bit_xor a b) bool_ty)
