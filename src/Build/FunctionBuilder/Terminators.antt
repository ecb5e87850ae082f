-- ===== src/Build/FunctionBuilder/Terminators.antt =====
-- build/terminator.rs: the methods that finish the current block, and mostly begin the next.
use minirust.Prelude.{List, Option, none, some, ◌>>=◌}
use minirust.Lang.Syntax.{
  FnName, BbName, ValueExpr, PlaceExpr, ArgumentExpr, CallingConvention, Terminator,
}
use minirust.Build.Places.{unit_place, fn_ptr}
use minirust.Build.Terminators as T
use minirust.Build.Terminators.{FetchBinOp}
use minirust.Build.FunctionBuilder.{FunctionBuilder, declare_block, set_cur_block, finish_block}

unfoldable pub exit : FunctionBuilder → Option FunctionBuilder
exit = finish_block T.exit

unfoldable pub unreachable : FunctionBuilder → Option FunctionBuilder
unreachable = finish_block Terminator.unreachable

unfoldable pub goto : BbName → FunctionBuilder → Option FunctionBuilder
goto dest = finish_block (Terminator.goto dest)

unfoldable pub return_ : FunctionBuilder → Option FunctionBuilder
return_ = finish_block Terminator.return_

unfoldable pub panic : FunctionBuilder → Option FunctionBuilder
panic = finish_block T.panic

unfoldable pub call_noret :
    PlaceExpr → ValueExpr → List ArgumentExpr → FunctionBuilder → Option FunctionBuilder
call_noret ret f args = finish_block (Terminator.call f CallingConvention.c args ret none)

-- The three steps of a method with one following block: declare it, finish the current block with a
-- terminator that names it, and make it the current one.
unfoldable pub continue_with : (BbName → Terminator) → FunctionBuilder → Option FunctionBuilder
continue_with terminator fb = do
  (next_block, fb₁) ← declare_block fb
  fb₂ ← finish_block (terminator next_block) fb₁
  set_cur_block next_block fb₂

unfoldable pub call :
    PlaceExpr → ValueExpr → List ArgumentExpr → FunctionBuilder → Option FunctionBuilder
call ret f args =
    continue_with (λ next_block. Terminator.call f CallingConvention.c args ret (some next_block))

unfoldable pub call_ignoreret :
    ValueExpr → List ArgumentExpr → FunctionBuilder → Option FunctionBuilder
call_ignoreret f args =
    continue_with
      (λ next_block. Terminator.call f CallingConvention.c args unit_place (some next_block))

unfoldable pub assume : ValueExpr → FunctionBuilder → Option FunctionBuilder
assume val = continue_with (T.assume val)

unfoldable pub print : ValueExpr → FunctionBuilder → Option FunctionBuilder
print arg = continue_with (T.print arg)

unfoldable pub eprint : ValueExpr → FunctionBuilder → Option FunctionBuilder
eprint arg = continue_with (T.eprint arg)

unfoldable pub allocate :
    ValueExpr → ValueExpr → PlaceExpr → FunctionBuilder → Option FunctionBuilder
allocate size align ret_place = continue_with (T.allocate size align ret_place)

unfoldable pub deallocate :
    ValueExpr → ValueExpr → ValueExpr → FunctionBuilder → Option FunctionBuilder
deallocate ptr size align = continue_with (T.deallocate ptr size align)

unfoldable pub spawn : FnName → ValueExpr → PlaceExpr → FunctionBuilder → Option FunctionBuilder
spawn f data_ptr ret = continue_with (T.spawn (fn_ptr f) data_ptr ret)

unfoldable pub join : ValueExpr → FunctionBuilder → Option FunctionBuilder
join thread_id = continue_with (T.join thread_id)

unfoldable pub raw_eq : PlaceExpr → ValueExpr → ValueExpr → FunctionBuilder → Option FunctionBuilder
raw_eq dest left_ptr right_ptr = continue_with (T.raw_eq dest left_ptr right_ptr)

unfoldable pub atomic_store : ValueExpr → ValueExpr → FunctionBuilder → Option FunctionBuilder
atomic_store ptr src = continue_with (T.atomic_store ptr src)

unfoldable pub atomic_load : PlaceExpr → ValueExpr → FunctionBuilder → Option FunctionBuilder
atomic_load dest ptr = continue_with (T.atomic_load dest ptr)

unfoldable pub atomic_fetch :
    FetchBinOp → PlaceExpr → ValueExpr → ValueExpr → FunctionBuilder → Option FunctionBuilder
atomic_fetch binop dest ptr other = continue_with (T.atomic_fetch binop dest ptr other)

unfoldable pub compare_exchange :
    PlaceExpr → ValueExpr → ValueExpr → ValueExpr → FunctionBuilder → Option FunctionBuilder
compare_exchange dest ptr current next_val =
    continue_with (T.compare_exchange dest ptr current next_val)

unfoldable pub expose_provenance : PlaceExpr → ValueExpr → FunctionBuilder → Option FunctionBuilder
expose_provenance dest ptr = continue_with (T.expose_provenance dest ptr)

unfoldable pub with_exposed_provenance :
    PlaceExpr → ValueExpr → FunctionBuilder → Option FunctionBuilder
with_exposed_provenance dest addr = continue_with (T.with_exposed_provenance dest addr)

unfoldable pub lock_create : PlaceExpr → FunctionBuilder → Option FunctionBuilder
lock_create ret = continue_with (T.lock_create ret)

unfoldable pub lock_acquire : ValueExpr → FunctionBuilder → Option FunctionBuilder
lock_acquire lock_id = continue_with (T.lock_acquire lock_id)

unfoldable pub lock_release : ValueExpr → FunctionBuilder → Option FunctionBuilder
lock_release lock_id = continue_with (T.lock_release lock_id)
