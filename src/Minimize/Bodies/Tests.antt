-- ===== src/Minimize/Bodies/Tests.antt =====
-- A body with an intrinsic, an assertion, a switch and a call, translated.
use minirust.Prelude.{
  ℕ, ◌≡◌, refl, Bool, true, false, List, [], ◌∷◌, none, some, get, arith, get_or, insert,
  get-insert, ◌⊎◌, inl, inr,
}
use minirust.Prelude.Int.{pos}
use minirust.Lang.Types.{unsigned, Ty}
use minirust.Lang.Syntax.{
  LocalName, BbName, Constant, CastOp, UnOp, CallingConvention, ValueExpr, PlaceExpr, Statement,
  IntrinsicOp, Terminator, BasicBlock, Function,
}
use minirust.Build.Exprs.{bool_to_int, transmute}
use minirust.Build.Places.{unit_place}
use minirust.Build.Terminators.{panic}
use minirust.Build.FunctionBuilder.Closed.{IsClosed}
use minirust.Fmt.Text.{codes}
use minirust.Minimize.Program.{Rustc, Ctxt}
use minirust.Minimize.Program.Inv.{has_value-get}
use minirust.Minimize.Program.Translate.{empty_ctxt}
use minirust.Minimize.Rust.{TyKind, single, RsLayout, RsTypes}
use minirust.Minimize.Types.{Conv, translate_calling_convention, translate_ty, translate_kind}
use minirust.Minimize.Mir.{
  Operand, Rvalue, StatementKind, TerminatorKind, BasicBlockData, Body, InstanceKind, Env,
}
use minirust.Minimize.Bodies.{
  TerminatorResult, FnCtxt, translate_stmt, translate_assign, fresh_bb_name, add_block,
}
use minirust.Minimize.Enums.{int_from_bits}
use minirust.Minimize.Bodies.Terminators.{
  plain_terminator, switch_value, switch_cases, translate_call, call_instance, direct_call,
  call_intrinsic,
}
use minirust.Minimize.Bodies.Calls.{is_panic_fn, minirust_intrinsic, end_with, translate_operands}
use minirust.Minimize.Bodies.Blocks.{
  assert_condition, translate_assert, translate_terminator, end_bb, translate_stmts, translate_bb,
  translate_blocks, name_blocks, name_locals, init_stmts, translate_locals, arg_names,
  translate_body, translate,
}
use minirust.Minimize.Bodies.Whole.{translate-IsClosed}
use minirust.Minimize.Bodies.Total.{AllReturn, TerminatorReturns, Returns, translate_blocks-total}

abbrev rustc : Rustc
rustc = record {
  dynamic = λ ty. none;
  has_principal = λ t. true;
  size_and_align = λ ty. none;
  vtable_entries = λ ty t. [];
  resolve_drop_in_place = λ ty. 0;
  first_method_vtable_slot = λ ty t. 3;
  own_entries = λ t. 0;
  drop_in_place_slot = 0;
  entry = 0;
}

abbrev layout : RsLayout
layout = record {
  size = 1;
  align = 1;
  offsets = [];
  is_sized = true;
  is_uninhabited = false;
  variants = single 0;
}

-- All types are `u8`.
abbrev types : RsTypes
types = record {
  kind = λ ty. TyKind.uint 1;
  layout_of = λ ty. layout;
  is_freeze = λ ty. true;
  is_unpin = λ ty. true;
  discriminant_ty = λ ty. 0;
  truncate = λ size bits. bits;
  sign_extend = λ size bits. bits;
  signed_int_min = λ size. pos 0;
  signed_int_max = λ size. pos 127;
  unsigned_int_max = λ size. pos 255;
  bring_in_bounds = λ s size n. n;
}

abbrev pub value : ℕ → ValueExpr
value n =
    ValueExpr.constant (Constant.int (pos n)) (Ty.int (record { signed = unsigned; size = 1 }))

abbrev pub of_operand : Operand → ValueExpr
of_operand (Operand.constant n) = value n
of_operand (Operand.copy n) = ValueExpr.load (PlaceExpr.local n)
of_operand (Operand.move n) = ValueExpr.load (PlaceExpr.local n)

abbrev pub env : Env
env = record {
  rustc = rustc;
  types = types;
  fuel = 1;
  place_ty = λ p. 0;
  operand_ty = λ op. 0;
  builtin_deref = λ ty. none;
  resolve = λ op. some 5;
  instance_kind = λ i. InstanceKind.item;
  crate_name = λ i. codes "intrinsics";
  item_name = λ i. codes "exit";
  to_string = λ i. codes "intrinsics::exit";
  type_arg = λ i. 0;
  check_validity_requirement = λ name ty. true;
  abi_conv = λ i. Conv.rust;
  translate_place = λ names p cx. some (PlaceExpr.local p, cx);
  translate_operand = λ names op cx. some (of_operand op, cx);
  translate_rvalue = λ names r cx. some (value r, cx);
}

abbrev pub block : List StatementKind → TerminatorKind → Bool → BasicBlockData
block stmts end cleanup = record { statements = stmts; terminator = end; is_cleanup = cleanup }

abbrev body : Body
body = record {
  basic_blocks =
      block
        (StatementKind.storage_live 1
          ∷ StatementKind.assume (Operand.copy 0)
          ∷ StatementKind.assign 1 (Rvalue.other 7)
          ∷ [])
        (TerminatorKind.assert (Operand.copy 1) true 2) false
      ∷ block [] TerminatorKind.unreachable true
      ∷ block [] (TerminatorKind.switch_int (Operand.copy 1) ((4, 0) ∷ []) 3) false
      ∷ block [] (TerminatorKind.call (Operand.constant 9) [] 0 none) false
      ∷ [];
  local_decls = 0 ∷ 0 ∷ [];
  arg_count = 0;
  always_storage_live = 1 ∷ [];
  conv = Conv.rust;
}

abbrev block_at : ℕ → BasicBlockData
block_at i = get_or body.basic_blocks i (block [] TerminatorKind.other true)

-- The names of the blocks of the body
abbrev bbs : List (ℕ × BbName)
bbs = (0, 0) ∷ (2, 1) ∷ (3, 2) ∷ []

abbrev names : List (ℕ × LocalName)
names = (0, 0) ∷ (1, 1) ∷ []

abbrev start_ctxt : FnCtxt
start_ctxt = record { cx = empty_ctxt; next_bb = 3; blocks = [] }

abbrev u8_ty : Ty
u8_ty = Ty.int (record { signed = unsigned; size = 1 })

-- No type is translated yet, or that of the switch is.
abbrev Good : Ctxt → Type 0
Good cx = (get cx.ty_cache 0 ≡ none) ⊎ (get cx.ty_cache 0 ≡ some u8_ty)

first_returns :
    AllReturn env names bbs Good (block_at 0).statements
    × TerminatorReturns env names bbs Good (block_at 0).terminator
unfolding translate_stmt translate_assign
first_returns = (
  (λ cx g. (_, refl, g), (λ cx g. (_, refl, g), (λ cx g. (_, refl, g), tt))),
  (λ cx g. (_, refl, g), (1, refl)),
)

abbrev switch_end : TerminatorResult
switch_end = record {
  stmts = [];
  terminator = Terminator.switch (of_operand (Operand.copy 1)) ((pos 4, 0) ∷ []) 2;
}

switch_returns : TerminatorReturns env names bbs Good (block_at 2).terminator
unfolding plain_terminator translate_ty translate_kind switch_value switch_cases int_from_bits
switch_returns cx (inl e) = (
  (switch_end, record cx { ty_cache = insert cx.ty_cache 0 u8_ty }),
  rw (translate_ty, e) refl,
  inr (rw (get-insert cx.ty_cache 0 0 u8_ty) refl),
)
switch_returns cx (inr e) = ((switch_end, cx), rw (translate_ty, e) refl, inr e)

call_returns : TerminatorReturns env names bbs Good (block_at 3).terminator
unfolding plain_terminator translate_call call_instance direct_call call_intrinsic end_with
    translate_operands minirust_intrinsic
call_returns cx g = (_, refl, g)

translate_blocks-total_example :
    Returns (translate_blocks env names bbs body.basic_blocks bbs start_ctxt)
translate_blocks-total_example =
    translate_blocks-total env names bbs Good body.basic_blocks bbs start_ctxt
      (
        (block_at 0, refl, first_returns.0, first_returns.1),
        ((block_at 2, refl, tt, switch_returns), ((block_at 3, refl, tt, call_returns), tt)),
      )
      (inl refl) (λ n. ground arith) (omega arith)

abbrev of_stmts : List Statement → Terminator → BasicBlock
of_stmts stmts end = record { statements = stmts; terminator = end }

-- The function: block 4 begins behind the intrinsic, block 5 is the failure of the assertion, and block
-- 3 is run first.
abbrev function : Function
unfolding panic unit_place
function = record {
  locals = (0, u8_ty) ∷ (1, u8_ty) ∷ [];
  args = [];
  ret = 0;
  calling_convention = CallingConvention.rust;
  blocks =
      (2, of_stmts [] (Terminator.intrinsic IntrinsicOp.exit [] (PlaceExpr.local 0) none))
      ∷ (1, of_stmts [] switch_end.terminator)
      ∷ (
        4,
        of_stmts (Statement.assign (PlaceExpr.local 1) (value 7) ∷ []) (
            Terminator.switch
              (ValueExpr.un_op (UnOp.cast (CastOp.transmute u8_ty)) (of_operand (Operand.copy 1)))
              ((pos 1, 1) ∷ []) 5),
      )
      ∷ (5, of_stmts [] panic)
      ∷ (
        0,
        of_stmts (Statement.storage_live 1 ∷ []) (
            Terminator.intrinsic IntrinsicOp.assume (of_operand (Operand.copy 0) ∷ []) unit_place
              (some 4)),
      )
      ∷ (3, of_stmts (Statement.storage_live 1 ∷ []) (Terminator.goto 0))
      ∷ [];
  start = 3;
}

translated :
    translate env (λ m. m) (λ m. m) body empty_ctxt
    ≡ some (function, record empty_ctxt { ty_cache = (0, u8_ty) ∷ [] })
unfolding translate translate_body translate_blocks translate_bb name_blocks name_locals init_stmts
    translate_locals arg_names translate_stmts end_bb translate_terminator translate_assert
    assert_condition fresh_bb_name add_block translate_stmt translate_assign plain_terminator
    translate_ty translate_kind switch_value switch_cases int_from_bits translate_call call_instance
    direct_call call_intrinsic end_with translate_operands minirust_intrinsic bool_to_int transmute
    panic unit_place translate_calling_convention
translated = refl

translate-IsClosed_example : IsClosed function
translate-IsClosed_example =
    translate-IsClosed env (λ m. m) (λ m. m) body empty_ctxt
      (record empty_ctxt { ty_cache = (0, u8_ty) ∷ [] }) function
      (λ m id n e. has_value-get m id n e) translated

-- A panic is recognised by the whole name.
panics :
    (is_panic_fn (codes "core::panicking::panic_fmt") ≡ true)
    × (is_panic_fn (codes "core::panicking") ≡ false)
unfolding is_panic_fn
panics = (refl, refl)
