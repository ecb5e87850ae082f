-- ===== src/Build/Terminators.antt =====
-- build/terminator.rs: terminators, with the numbers of the blocks that follow.
use minirust.Prelude.{ℕ, List, [], ◌∷◌, Option, none, some, ◌>>=◌, if◌then◌else◌}
use minirust.Prelude.Int.{ℤ, pos, ◌==ℤ◌}
use minirust.Lang.Syntax.{
  BbName, IntBinOp, ValueExpr, PlaceExpr, ArgumentExpr, CallingConvention, IntrinsicLockOp,
  IntrinsicOp, Terminator,
}
use minirust.Build.Types.{u8}
use minirust.Build.Exprs.{bool_to_int}
use minirust.Build.Places.{unit_place, fn_ptr_internal}

unfoldable pub goto : ℕ → Terminator
goto x = Terminator.goto x

-- `Map::insert` on the cases of a switch
abbrev pub insert_case : List (ℤ × BbName) → ℤ → BbName → List (ℤ × BbName)
insert_case [] k b = (k, b) ∷ []
insert_case ((j, c) ∷ m) k b = if j ==ℤ k then (k, b) ∷ m else (j, c) ∷ insert_case m k b

abbrev pub collect_cases : List (ℤ × ℕ) → List (ℤ × BbName) → List (ℤ × BbName)
collect_cases [] m = m
collect_cases ((k, b) ∷ cs) m = collect_cases cs (insert_case m k b)

unfoldable pub if_ : ValueExpr → ℕ → ℕ → Option Terminator
unfolding bool_to_int
if_ condition then_blk else_blk = do
  value ← bool_to_int u8 condition
  some (Terminator.switch value ((pos 1, then_blk) ∷ []) else_blk)

unfoldable pub switch_int : ValueExpr → List (ℤ × ℕ) → ℕ → Terminator
switch_int value cases fallback = Terminator.switch value (collect_cases cases []) fallback

unfoldable pub unreachable : Terminator
unreachable = Terminator.unreachable

unfoldable pub call : ℕ → List ArgumentExpr → PlaceExpr → Option ℕ → Terminator
unfolding fn_ptr_internal
call f args ret next = Terminator.call (fn_ptr_internal f) CallingConvention.c args ret next

unfoldable pub return_ : Terminator
return_ = Terminator.return_

unfoldable pub exit : Terminator
unfolding unit_place
exit = Terminator.intrinsic IntrinsicOp.exit [] unit_place none

unfoldable pub panic : Terminator
unfolding unit_place
panic = Terminator.intrinsic IntrinsicOp.panic [] unit_place none

pub data FetchBinOp : Type 0 where
  add sub : FetchBinOp

abbrev pub fetch_op : FetchBinOp → IntBinOp
fetch_op FetchBinOp.add = IntBinOp.add
fetch_op FetchBinOp.sub = IntBinOp.sub

unfoldable pub assume : ValueExpr → ℕ → Terminator
unfolding unit_place
assume val next = Terminator.intrinsic IntrinsicOp.assume (val ∷ []) unit_place (some next)

unfoldable pub print : ValueExpr → ℕ → Terminator
unfolding unit_place
print arg next = Terminator.intrinsic IntrinsicOp.print_stdout (arg ∷ []) unit_place (some next)

unfoldable pub eprint : ValueExpr → ℕ → Terminator
unfolding unit_place
eprint arg next = Terminator.intrinsic IntrinsicOp.print_stderr (arg ∷ []) unit_place (some next)

unfoldable pub allocate : ValueExpr → ValueExpr → PlaceExpr → ℕ → Terminator
allocate size align ret_place next =
    Terminator.intrinsic IntrinsicOp.allocate (size ∷ align ∷ []) ret_place (some next)

unfoldable pub deallocate : ValueExpr → ValueExpr → ValueExpr → ℕ → Terminator
unfolding unit_place
deallocate ptr size align next =
    Terminator.intrinsic IntrinsicOp.deallocate (ptr ∷ size ∷ align ∷ []) unit_place (some next)

unfoldable pub spawn : ValueExpr → ValueExpr → PlaceExpr → ℕ → Terminator
spawn fn_ptr data_ptr ret next =
    Terminator.intrinsic IntrinsicOp.spawn (fn_ptr ∷ data_ptr ∷ []) ret (some next)

unfoldable pub join : ValueExpr → ℕ → Terminator
unfolding unit_place
join thread_id next = Terminator.intrinsic IntrinsicOp.join (thread_id ∷ []) unit_place (some next)

unfoldable pub raw_eq : PlaceExpr → ValueExpr → ValueExpr → ℕ → Terminator
raw_eq ret left_ptr right_ptr next =
    Terminator.intrinsic IntrinsicOp.raw_eq (left_ptr ∷ right_ptr ∷ []) ret (some next)

unfoldable pub atomic_store : ValueExpr → ValueExpr → ℕ → Terminator
unfolding unit_place
atomic_store ptr src next =
    Terminator.intrinsic IntrinsicOp.atomic_store (ptr ∷ src ∷ []) unit_place (some next)

unfoldable pub atomic_load : PlaceExpr → ValueExpr → ℕ → Terminator
atomic_load dest ptr next = Terminator.intrinsic IntrinsicOp.atomic_load (ptr ∷ []) dest (some next)

unfoldable pub atomic_fetch : FetchBinOp → PlaceExpr → ValueExpr → ValueExpr → ℕ → Terminator
atomic_fetch binop dest ptr other next =
    Terminator.intrinsic (IntrinsicOp.atomic_fetch_and_op (fetch_op binop)) (ptr ∷ other ∷ []) dest
      (some next)

unfoldable pub compare_exchange : PlaceExpr → ValueExpr → ValueExpr → ValueExpr → ℕ → Terminator
compare_exchange dest ptr current next_val next =
    Terminator.intrinsic IntrinsicOp.atomic_compare_exchange (ptr ∷ current ∷ next_val ∷ []) dest
      (some next)

unfoldable pub expose_provenance : PlaceExpr → ValueExpr → ℕ → Terminator
expose_provenance dest ptr next =
    Terminator.intrinsic IntrinsicOp.pointer_expose_provenance (ptr ∷ []) dest (some next)

unfoldable pub with_exposed_provenance : PlaceExpr → ValueExpr → ℕ → Terminator
with_exposed_provenance dest addr next =
    Terminator.intrinsic IntrinsicOp.pointer_with_exposed_provenance (addr ∷ []) dest (some next)

unfoldable pub lock_create : PlaceExpr → ℕ → Terminator
lock_create ret next =
    Terminator.intrinsic (IntrinsicOp.lock IntrinsicLockOp.create) [] ret (some next)

unfoldable pub lock_acquire : ValueExpr → ℕ → Terminator
unfolding unit_place
lock_acquire lock_id next =
    Terminator.intrinsic (IntrinsicOp.lock IntrinsicLockOp.acquire) (lock_id ∷ []) unit_place
      (some next)

unfoldable pub lock_release : ValueExpr → ℕ → Terminator
unfolding unit_place
lock_release lock_id next =
    Terminator.intrinsic (IntrinsicOp.lock IntrinsicLockOp.release) (lock_id ∷ []) unit_place
      (some next)
