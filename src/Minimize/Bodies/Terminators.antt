-- ===== src/Minimize/Bodies/Terminators.antt =====
-- tooling/minimize/src/bb.rs: terminators, save for assertions, which add a block.
use minirust.Prelude.{
  ℕ, List, [], ◌∷◌, Option, none, some, ◌>>=◌, get, get_elem?, set, if◌then◌else◌,
}
use minirust.Prelude.Int.{ℤ}
use minirust.Lang.Types.{PointerMetaKind, IntType, Ty}
use minirust.Lang.Syntax.{
  LocalName, BbName, CastOp, UnOp, ValueExpr, ArgumentExpr, CallingConvention, Terminator,
}
use minirust.Build.Types.{raw_ptr_ty, raw_void_ptr_ty, u8}
use minirust.Build.Exprs.{addr_of, get_thin_pointer, get_metadata}
use minirust.Build.Places.{vtable_method_lookup, unit_place, by_value, fn_ptr}
use minirust.Build.Terminators.{collect_cases}
use minirust.Fmt.Text.{codes}
use minirust.Minimize.Program.{Ctxt, as_u32, get_fn_name}
use minirust.Minimize.Rust.{TyKind}
use minirust.Minimize.Enums.{int_from_bits, expect_int}
use minirust.Minimize.Types.{translate_calling_convention}
use minirust.Minimize.Mir.{Operand, TerminatorKind, InstanceKind, virtual, Env, type_translator}
use minirust.Minimize.Bodies.{TerminatorResult, next_block_of}
use minirust.Minimize.Bodies.Intrinsics.{translate_rs_intrinsic}
use minirust.Minimize.Bodies.Calls.{
  same_text, minirust_intrinsic, is_panic_fn, end_with, panic_result, translate_operands,
  translate_arguments,
}

-- The name of a block, in an arm of a switch
unfoldable pub switch_cases :
    Env → List (ℕ × BbName) → IntType → List (ℕ × ℕ) → Option (List (ℤ × BbName))
switch_cases v bbs int_ty [] = some []
switch_cases v bbs int_ty ((value, target) ∷ targets) = do
  int ← int_from_bits v.types value int_ty
  name ← get bbs target
  cases ← switch_cases v bbs int_ty targets
  some ((int, name) ∷ cases)

-- The value that a switch compares, and its type: a Boolean is transmuted first.
unfoldable pub switch_value : Ty → ValueExpr → Option (ValueExpr × IntType)
switch_value Ty.bool discr_op = do
  u8_inttype ← expect_int u8.get_type
  some (ValueExpr.un_op (UnOp.cast (CastOp.transmute (Ty.int u8_inttype))) discr_op, u8_inttype)
switch_value (Ty.int ity) discr_op = some (discr_op, ity)
switch_value _ discr_op = none

module _ (v : Env) (local_names : List (ℕ × LocalName)) (bbs : List (ℕ × BbName)) where
  -- What is called, and the arguments: for a method of a trait object the one in its vtable, and the
  -- receiver is then a thin pointer.
  unfoldable pub translate_callee :
      ℕ → List Operand → List ArgumentExpr → Ctxt → Option ((ValueExpr × List ArgumentExpr) × Ctxt)
  translate_callee instance_ rs_args args cx = elim (v.instance_kind instance_) [
    | virtual method ↦ (do
      arg ← get_elem? rs_args 0
      (receiver, cx₁) ← v.translate_operand local_names arg cx
      some (
        (
          vtable_method_lookup (get_metadata receiver) (as_u32 method),
          set args 0 (by_value (get_thin_pointer receiver)),
        ),
        cx₁,
      ))
    | _ ↦ let named = get_fn_name instance_ cx in some ((fn_ptr named.0, args), named.1)
  ]

  unfoldable pub call_function :
      ℕ → List Operand → ℕ → Option ℕ → Ctxt → Option (TerminatorResult × Ctxt)
  call_function instance_ rs_args place target cx = do
    calling ← translate_calling_convention (v.abi_conv instance_)
    (args, cx₁) ← translate_arguments v local_names rs_args cx
    ((callee, arguments), cx₂) ← translate_callee instance_ rs_args args cx₁
    (ret, cx₃) ← v.translate_place local_names place cx₂
    next_block ← next_block_of bbs target
    some (
      record { stmts = []; terminator = Terminator.call callee calling arguments ret next_block },
      cx₃,
    )

  -- A call of an intrinsic of MiniRust
  unfoldable pub call_intrinsic :
      ℕ → List Operand → ℕ → Option ℕ → Ctxt → Option (TerminatorResult × Ctxt)
  call_intrinsic instance_ rs_args place target cx = do
    op ← minirust_intrinsic (v.item_name instance_)
    (arguments, cx₁) ← translate_operands v local_names rs_args cx
    (ret, cx₂) ← v.translate_place local_names place cx₁
    result ← end_with bbs op arguments ret target
    some (result, cx₂)

  -- A call of what is no intrinsic of Rust
  unfoldable pub direct_call :
      ℕ → List Operand → ℕ → Option ℕ → Ctxt → Option (TerminatorResult × Ctxt)
  direct_call instance_ rs_args place target cx =
      if same_text (v.crate_name instance_) (codes "intrinsics")
      then call_intrinsic instance_ rs_args place target cx
      else if is_panic_fn (v.to_string instance_)
      then some (panic_result, cx)
      else call_function instance_ rs_args place target cx

  unfoldable pub call_instance :
      InstanceKind → ℕ → List Operand → ℕ → Option ℕ → Ctxt → Option (TerminatorResult × Ctxt)
  call_instance InstanceKind.intrinsic instance_ rs_args place target cx =
      translate_rs_intrinsic v local_names bbs instance_ rs_args place target cx
  call_instance _ instance_ rs_args place target cx = direct_call instance_ rs_args place target cx

  unfoldable pub translate_call :
      Operand → List Operand → ℕ → Option ℕ → Ctxt → Option (TerminatorResult × Ctxt)
  translate_call func rs_args place target cx = do
    instance_ ← v.resolve func
    call_instance (v.instance_kind instance_) instance_ rs_args place target cx

  -- The function that drops a value, and its argument
  unfoldable pub translate_drop : ℕ → Ctxt → Option ((ValueExpr × ValueExpr) × Ctxt)
  translate_drop place cx = do
    (place₁, cx₁) ← v.translate_place local_names place cx
    elim (v.types.kind (v.place_ty place)) [
      | TyKind.dynamic ↦ (do
        (object, cx₂) ← type_translator v (v.place_ty place) cx₁
        trait_name ← elim object [ Ty.trait_object name ↦ some name | _ ↦ none ]
        ptr ← addr_of place₁ (raw_ptr_ty (PointerMetaKind.vtable_pointer trait_name))
        some (
          (
            vtable_method_lookup (get_metadata ptr) (as_u32 v.rustc.drop_in_place_slot),
            get_thin_pointer ptr,
          ),
          cx₂,
        ))
      | _ ↦ (do
        ptr_to_drop ← addr_of place₁ raw_void_ptr_ty
        let named = get_fn_name (v.rustc.resolve_drop_in_place (v.place_ty place)) cx₁
        some ((fn_ptr named.0, ptr_to_drop), named.1))
    ]

  -- `translate_terminator`, of all terminators but assertions
  unfoldable pub plain_terminator : TerminatorKind → Ctxt → Option (TerminatorResult × Ctxt)
  plain_terminator TerminatorKind.return_ cx =
      some (record { stmts = []; terminator = Terminator.return_ }, cx)
  plain_terminator (TerminatorKind.goto target) cx = do
    name ← get bbs target
    some (record { stmts = []; terminator = Terminator.goto name }, cx)
  plain_terminator (TerminatorKind.call func args place target) cx =
      translate_call func args place target cx
  plain_terminator (TerminatorKind.switch_int discr targets otherwise) cx = do
    (ty, cx₁) ← type_translator v (v.operand_ty discr) cx
    (discr_op, cx₂) ← v.translate_operand local_names discr cx₁
    (value, int_ty) ← switch_value ty discr_op
    cases ← switch_cases v bbs int_ty targets
    fallback ← get bbs otherwise
    some (
      record { stmts = []; terminator = Terminator.switch value (collect_cases cases []) fallback },
      cx₂,
    )
  plain_terminator TerminatorKind.unreachable cx =
      some (record { stmts = []; terminator = Terminator.unreachable }, cx)
  plain_terminator (TerminatorKind.drop place target) cx = do
    ((drop_fn, ptr_to_drop), cx₁) ← translate_drop place cx
    next_block ← get bbs target
    some (
      record {
        stmts = [];
        terminator =
            Terminator.call drop_fn CallingConvention.rust (ArgumentExpr.by_value ptr_to_drop ∷ [])
              unit_place (some next_block);
      },
      cx₁,
    )
  plain_terminator _ cx = none
