-- ===== src/Minimize/Bodies/ProgramTests.antt =====
-- A program whose entry makes a trait object and calls a function, translated with its bodies.
use minirust.Prelude.{
  ℕ, ◌<◌, ◌^◌, ◌≡◌, refl, false, List, [], ◌∷◌, Option, none, some, ◌>>=◌, length, ◌==◌,
  if◌then◌else◌, arith,
}
use minirust.Lang.Syntax.{LocalName, ValueExpr, PlaceExpr, Function, Program}
use minirust.Fmt.Text.{codes}
use minirust.Minimize.Program.{Ctxt, Rustc, get_fn_name, get_vtable}
use minirust.Minimize.Program.Translate.{empty_ctxt, with_entry, translate_loop}
use minirust.Minimize.Program.Uses.{Uses}
use minirust.Minimize.Program.Kept.{ctxt_of, done-Kept, bind-Kept}
use minirust.Minimize.Program.Complete.{IsWhole}
use minirust.Minimize.Program.Tests.{layout, new_ctxt-layout, rustc, in_order, in_order-Perm}
use minirust.Minimize.Types.{Conv, translate_calling_convention, translate_ty, translate_kind}
use minirust.Minimize.Mir.{
  Operand, Rvalue, StatementKind, TerminatorKind, BasicBlockData, Body, Env,
}
use minirust.Minimize.Bodies.{translate_stmt, translate_assign, fresh_bb_name, add_block}
use minirust.Minimize.Bodies.Terminators.{
  plain_terminator, translate_call, call_instance, direct_call, call_function, translate_callee,
}
use minirust.Minimize.Bodies.Calls.{is_panic_fn, translate_arguments}
use minirust.Minimize.Bodies.Blocks.{
  translate_terminator, end_bb, translate_stmts, translate_bb, translate_blocks, name_blocks,
  name_locals, init_stmts, translate_locals, arg_names, translate_body, translate,
}
use minirust.Minimize.Bodies.Kept.{EnvKeeps}
use minirust.Minimize.Bodies.Complete.{translate_bodies-IsWhole}
use minirust.Minimize.Bodies.Tests.{value, of_operand, env, block}

abbrev unsize : List (ℕ × LocalName) → ℕ → Ctxt → Option (ValueExpr × Ctxt)
unsize names r cx = do (_, cx₁) ← get_vtable rustc 1 2 cx; some (value 0, cx₁)

-- Instance 7 is called.
abbrev env_vtable : Env
env_vtable = record env {
  rustc = rustc;
  resolve = λ op. some 7;
  crate_name = λ i. codes "main";
  to_string = λ i. codes "main::f";
  translate_rvalue = unsize;
}

abbrev body_of : List BasicBlockData → Body
body_of blocks = record {
  basic_blocks = blocks;
  local_decls = 0 ∷ [];
  arg_count = 0;
  always_storage_live = [];
  conv = Conv.rust;
}

-- The entry, and the functions that it needs
abbrev bodies : ℕ → Body
bodies i =
    if i == 5
    then body_of (
        block (StatementKind.assign 0 (Rvalue.other 1) ∷ [])
          (TerminatorKind.call (Operand.constant 7) [] 0 none) false
        ∷ [])
    else body_of (block [] TerminatorKind.return_ false ∷ [])

vtable-Keeps : EnvKeeps env_vtable
vtable-Keeps = record {
  places = λ names p cx. done-Kept ctxt_of (PlaceExpr.local p, cx);
  operands = λ names op cx. done-Kept ctxt_of (of_operand op, cx);
  rvalues = λ names r cx.
      bind-Kept (record { keeps = λ v h. Uses.vtable 1 2 v h })
        λ v. done-Kept ctxt_of (value 0, v.1);
}

abbrev made : ℕ → Ctxt → Option (Function × Ctxt)
made i cx = translate env_vtable (λ m. m) (λ m. m) (bodies i) cx

unfoldable end : Ctxt
unfolding translate_loop get_vtable get_fn_name translate translate_body translate_blocks
    translate_bb name_blocks name_locals init_stmts translate_locals arg_names translate_stmts
    end_bb translate_terminator fresh_bb_name add_block translate_stmt translate_assign
    plain_terminator translate_ty translate_kind translate_call call_instance direct_call
    call_function translate_callee translate_arguments is_panic_fn translate_calling_convention
end = elim (translate_loop in_order made 4 (with_entry rustc empty_ctxt)) [
  | some d ↦ d
  | none ↦ empty_ctxt
]

loop-end : translate_loop in_order made 4 (with_entry rustc empty_ctxt) ≡ some end
unfolding end
loop-end = refl

names-end : length end.fn_name_map < 2 ^ 32
unfolding end
names-end = omega arith

unfoldable whole : Program
unfolding minirust.Minimize.Program.Translate.translate end
whole = elim (minirust.Minimize.Program.Translate.translate in_order made 4 rustc empty_ctxt) [
  | some p ↦ p
  | none ↦ record { start = 0; functions = []; globals = []; vtables = []; traits = [] }
]

translate-whole :
    minirust.Minimize.Program.Translate.translate in_order made 4 rustc empty_ctxt ≡ some whole
unfolding whole
translate-whole = refl

translate_bodies-IsWhole_example : IsWhole end.functions whole
translate_bodies-IsWhole_example =
    translate_bodies-IsWhole rustc in_order in_order-Perm (λ m. m) (λ m. m) (λ i. env_vtable) bodies
      (λ i. refl) (λ i. vtable-Keeps) 4 layout empty_ctxt end whole new_ctxt-layout loop-end
      names-end translate-whole

-- Three functions and the start function
length-whole : length whole.functions ≡ 4
unfolding whole
length-whole = refl
