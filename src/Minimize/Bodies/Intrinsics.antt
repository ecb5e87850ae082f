-- ===== src/Minimize/Bodies/Intrinsics.antt =====
-- tooling/minimize/src/bb.rs: calls of intrinsics of Rust.
use minirust.Prelude.{ℕ, Bool, false, List, [], Option, some, ◌>>=◌, get_elem?, if◌then◌else◌}
use minirust.Prelude.Int.{pos}
use minirust.Lang.Syntax.{LocalName, BbName, Constant, BinOp, ValueExpr, IntrinsicOp}
use minirust.Build.Types.{usize, isize}
use minirust.Build.Exprs.{
  count_ones, const_int_typed, int_cast, compute_size, compute_align, get_metadata,
}
use minirust.Build.Operators.{mul_unchecked, div_exact}
use minirust.Build.Places.{anywhere, ptr_offset}
use minirust.Minimize.Program.{Ctxt}
use minirust.Minimize.Mir.{Operand, Env, type_translator}
use minirust.Minimize.Bodies.{TerminatorResult}
use minirust.Minimize.Bodies.Calls.{
  RsIntrinsic, rs_intrinsic, go_on, assign_on, end_with, panic_result, translate_operands,
  translate_two, pointee_size,
}

-- The distance of two pointers, in elements of a size
unfoldable pub distance : Bool → ValueExpr → ValueExpr → ℕ → Option ValueExpr
distance unsigned l r size =
    let offset_bytes = ValueExpr.bin_op (BinOp.ptr_offset_from false unsigned) l r in
    let offset = div_exact offset_bytes (const_int_typed isize (pos size)) in
    if unsigned then int_cast usize offset else some offset

module _ (v : Env) (local_names : List (ℕ × LocalName)) (bbs : List (ℕ × BbName)) where
  -- `instance_` is the intrinsic.
  unfoldable pub rs_intrinsic_result :
      RsIntrinsic → ℕ → List Operand → ℕ → Option ℕ → Ctxt → Option (TerminatorResult × Ctxt)
  rs_intrinsic_result RsIntrinsic.assert_valid instance_ args place target cx =
      if v.check_validity_requirement (v.item_name instance_) (v.type_arg instance_)
      then (do result ← go_on bbs [] target; some (result, cx))
      else some (panic_result, cx)
  rs_intrinsic_result RsIntrinsic.raw_eq instance_ args place target cx = do
    (arguments, cx₁) ← translate_operands v local_names args cx
    (destination, cx₂) ← v.translate_place local_names place cx₁
    result ← end_with bbs IntrinsicOp.raw_eq arguments destination target
    some (result, cx₂)
  rs_intrinsic_result RsIntrinsic.arith_offset instance_ args place target cx = do
    left ← get_elem? args 0
    right ← get_elem? args 1
    ((l, (r, destination)), cx₁) ← translate_two v local_names left right place cx
    size ← pointee_size v (v.operand_ty left)
    (size_ty, cx₂) ← type_translator v (v.operand_ty right) cx₁
    assign_on bbs destination
        (ptr_offset l (mul_unchecked r (ValueExpr.constant (Constant.int (pos size)) size_ty))
          anywhere)
        target cx₂
  rs_intrinsic_result (RsIntrinsic.ptr_offset_from unsigned) instance_ args place target cx = do
    left ← get_elem? args 0
    right ← get_elem? args 1
    ((l, (r, destination)), cx₁) ← translate_two v local_names left right place cx
    size ← pointee_size v (v.operand_ty left)
    source ← distance unsigned l r size
    assign_on bbs destination source target cx₁
  rs_intrinsic_result RsIntrinsic.ctpop instance_ args place target cx = do
    arg ← get_elem? args 0
    (val, cx₁) ← v.translate_operand local_names arg cx
    (destination, cx₂) ← v.translate_place local_names place cx₁
    assign_on bbs destination (count_ones val) target cx₂
  rs_intrinsic_result RsIntrinsic.exact_div instance_ args place target cx = do
    left ← get_elem? args 0
    right ← get_elem? args 1
    ((l, (r, destination)), cx₁) ← translate_two v local_names left right place cx
    assign_on bbs destination (div_exact l r) target cx₁
  rs_intrinsic_result RsIntrinsic.size_of_val instance_ args place target cx = do
    (destination, cx₁) ← v.translate_place local_names place cx
    arg ← get_elem? args 0
    (ptr, cx₂) ← v.translate_operand local_names arg cx₁
    (ty, cx₃) ← type_translator v (v.type_arg instance_) cx₂
    assign_on bbs destination (compute_size ty (get_metadata ptr)) target cx₃
  rs_intrinsic_result RsIntrinsic.min_align_of_val instance_ args place target cx = do
    (destination, cx₁) ← v.translate_place local_names place cx
    arg ← get_elem? args 0
    (ptr, cx₂) ← v.translate_operand local_names arg cx₁
    (ty, cx₃) ← type_translator v (v.type_arg instance_) cx₂
    assign_on bbs destination (compute_align ty (get_metadata ptr)) target cx₃
  rs_intrinsic_result RsIntrinsic.expect instance_ args place target cx = do
    (destination, cx₁) ← v.translate_place local_names place cx
    arg ← get_elem? args 0
    (val, cx₂) ← v.translate_operand local_names arg cx₁
    assign_on bbs destination val target cx₂

  unfoldable pub translate_rs_intrinsic :
      ℕ → List Operand → ℕ → Option ℕ → Ctxt → Option (TerminatorResult × Ctxt)
  translate_rs_intrinsic instance_ args place target cx = do
    op ← rs_intrinsic (v.item_name instance_)
    rs_intrinsic_result op instance_ args place target cx
