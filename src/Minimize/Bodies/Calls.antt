-- ===== src/Minimize/Bodies/Calls.antt =====
-- tooling/minimize/src/bb.rs: calls of functions, of intrinsics of Rust and of intrinsics of MiniRust.
use minirust.Prelude.{
  ℕ, Bool, true, false, ◌&&◌, List, [], ◌∷◌, Option, none, some, ◌>>=◌, get, if◌then◌else◌, ◌==◌,
}
use minirust.Lang.Syntax.{
  LocalName, BbName, IntBinOp, ValueExpr, PlaceExpr, Statement, ArgumentExpr, IntrinsicLockOp,
  IntrinsicOp, Terminator,
}
use minirust.Build.Places.{unit_place}
use minirust.Fmt.Text.{Text, codes}
use minirust.Minimize.Program.{Ctxt}
use minirust.Minimize.Mir.{Operand, Env}
use minirust.Minimize.Bodies.{TerminatorResult, next_block_of}

-- `==` on texts
abbrev pub same_text : Text → Text → Bool
same_text [] [] = true
same_text (a ∷ s) (b ∷ t) = a == b && same_text s t
same_text _ _ = false

-- The choice of a `match` on a text
abbrev pub lookup {ℓ} : {A : Type ℓ} → List (Text × A) → Text → Option A
lookup [] name = none
lookup ((t, a) ∷ m) name = if same_text t name then some a else lookup m name

abbrev pub contains_text : List Text → Text → Bool
contains_text [] name = false
contains_text (t ∷ ts) name = if same_text t name then true else contains_text ts name

unfoldable pub is_panic_fn : Text → Bool
is_panic_fn name =
    contains_text
      (codes "core::panicking::panic"
        ∷ codes "core::panicking::panic_fmt"
        ∷ codes "core::panicking::panic_nounwind"
        ∷ codes "core::slice::index::slice_start_index_len_fail"
        ∷ codes "core::slice::index::slice_end_index_len_fail"
        ∷ codes "core::slice::index::slice_end_index_overflow_fail"
        ∷ codes "core::slice::index::slice_index_order_fail"
        ∷ codes "core::str::slice_error_fail"
        ∷ [])
      name

-- The intrinsics that the crate `intrinsics` declares
unfoldable pub minirust_intrinsic : Text → Option IntrinsicOp
minirust_intrinsic name =
    lookup
      ((codes "print", IntrinsicOp.print_stdout)
        ∷ (codes "eprint", IntrinsicOp.print_stderr)
        ∷ (codes "exit", IntrinsicOp.exit)
        ∷ (codes "panic", IntrinsicOp.panic)
        ∷ (codes "allocate", IntrinsicOp.allocate)
        ∷ (codes "deallocate", IntrinsicOp.deallocate)
        ∷ (codes "spawn", IntrinsicOp.spawn)
        ∷ (codes "join", IntrinsicOp.join)
        ∷ (codes "create_lock", IntrinsicOp.lock IntrinsicLockOp.create)
        ∷ (codes "acquire", IntrinsicOp.lock IntrinsicLockOp.acquire)
        ∷ (codes "release", IntrinsicOp.lock IntrinsicLockOp.release)
        ∷ (codes "atomic_store", IntrinsicOp.atomic_store)
        ∷ (codes "atomic_load", IntrinsicOp.atomic_load)
        ∷ (codes "compare_exchange", IntrinsicOp.atomic_compare_exchange)
        ∷ (codes "atomic_fetch_add", IntrinsicOp.atomic_fetch_and_op IntBinOp.add)
        ∷ (codes "atomic_fetch_sub", IntrinsicOp.atomic_fetch_and_op IntBinOp.sub)
        ∷ [])
      name

-- The intrinsics of Rust that are supported
pub data RsIntrinsic : Type 0 where
  assert_valid raw_eq arith_offset ctpop exact_div size_of_val min_align_of_val : RsIntrinsic
  expect : RsIntrinsic
  ptr_offset_from : Bool → RsIntrinsic

unfoldable pub rs_intrinsic : Text → Option RsIntrinsic
rs_intrinsic name =
    lookup
      ((codes "assert_inhabited", RsIntrinsic.assert_valid)
        ∷ (codes "assert_zero_valid", RsIntrinsic.assert_valid)
        ∷ (codes "assert_mem_uninitialized_valid", RsIntrinsic.assert_valid)
        ∷ (codes "raw_eq", RsIntrinsic.raw_eq)
        ∷ (codes "arith_offset", RsIntrinsic.arith_offset)
        ∷ (codes "ptr_offset_from", RsIntrinsic.ptr_offset_from false)
        ∷ (codes "ptr_offset_from_unsigned", RsIntrinsic.ptr_offset_from true)
        ∷ (codes "ctpop", RsIntrinsic.ctpop)
        ∷ (codes "exact_div", RsIntrinsic.exact_div)
        ∷ (codes "size_of_val", RsIntrinsic.size_of_val)
        ∷ (codes "min_align_of_val", RsIntrinsic.min_align_of_val)
        ∷ (codes "unlikely", RsIntrinsic.expect)
        ∷ (codes "likely", RsIntrinsic.expect)
        ∷ [])
      name

-- A goto to the target of a call, which has one
unfoldable pub go_on : List (ℕ × BbName) → List Statement → Option ℕ → Option TerminatorResult
go_on bbs stmts target = do
  target_ ← target
  name ← get bbs target_
  some (record { stmts = stmts; terminator = Terminator.goto name })

-- Assign a value and go on.
abbrev pub assign_on :
    List (ℕ × BbName) → PlaceExpr → ValueExpr → Option ℕ → Ctxt → Option (TerminatorResult × Ctxt)
assign_on bbs destination source target cx = do
  result ← go_on bbs (Statement.assign destination source ∷ []) target
  some (result, cx)

-- The terminator of an intrinsic
unfoldable pub end_with :
    List (ℕ × BbName)
    → IntrinsicOp
    → List ValueExpr
    → PlaceExpr
    → Option ℕ
    → Option TerminatorResult
end_with bbs op arguments ret target = do
  next_block ← next_block_of bbs target
  some (record { stmts = []; terminator = Terminator.intrinsic op arguments ret next_block })

-- A call of the panic intrinsic
unfoldable pub panic_result : TerminatorResult
panic_result = record {
  stmts = [];
  terminator = Terminator.intrinsic IntrinsicOp.panic [] unit_place none;
}

module _ (v : Env) (local_names : List (ℕ × LocalName)) where
  unfoldable pub translate_operands : List Operand → Ctxt → Option (List ValueExpr × Ctxt)
  translate_operands [] cx = some ([], cx)
  translate_operands (op ∷ ops) cx = do
    (operand, cx₁) ← v.translate_operand local_names op cx
    (operands, cx₂) ← translate_operands ops cx₁
    some (operand ∷ operands, cx₂)

  -- A move passes the place, all else the value.
  unfoldable pub translate_argument : Operand → Ctxt → Option (ArgumentExpr × Ctxt)
  translate_argument (Operand.move place) cx = do
    (place₁, cx₁) ← v.translate_place local_names place cx
    some (ArgumentExpr.in_place place₁, cx₁)
  translate_argument op cx = do
    (operand, cx₁) ← v.translate_operand local_names op cx
    some (ArgumentExpr.by_value operand, cx₁)

  unfoldable pub translate_arguments : List Operand → Ctxt → Option (List ArgumentExpr × Ctxt)
  translate_arguments [] cx = some ([], cx)
  translate_arguments (op ∷ ops) cx = do
    (argument, cx₁) ← translate_argument op cx
    (arguments, cx₂) ← translate_arguments ops cx₁
    some (argument ∷ arguments, cx₂)

  -- The first two arguments and the destination
  unfoldable pub translate_two :
      Operand → Operand → ℕ → Ctxt → Option ((ValueExpr × (ValueExpr × PlaceExpr)) × Ctxt)
  translate_two left right place cx = do
    (l, cx₁) ← v.translate_operand local_names left cx
    (r, cx₂) ← v.translate_operand local_names right cx₁
    (destination, cx₃) ← v.translate_place local_names place cx₂
    some ((l, (r, destination)), cx₃)

-- The size of what a pointer type points to, which is sized
unfoldable pub pointee_size : Env → ℕ → Option ℕ
pointee_size v ty = do
  pointee ← v.builtin_deref ty
  let layout = v.types.layout_of pointee
  if layout.is_sized then some layout.size else none
