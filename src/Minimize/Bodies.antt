-- ===== src/Minimize/Bodies.antt =====
-- tooling/minimize/src/bb.rs, function.rs: the translation of the body of a function.
-- `none` is a panic. What does not touch the blocks is a function of the context of the program.
pub mod Calls
pub mod Intrinsics
pub mod Terminators
pub mod Blocks
pub mod Targets
pub mod Closed
pub mod Whole
pub mod Fresh
pub mod Total
pub mod Kept
pub mod Uses
pub mod Complete
mod Tests
mod ProgramTests
use minirust.Prelude.{
  ℕ, ◌+◌, ◌^◌, Bool, List, [], ◌∷◌, ◌++◌, Option, none, some, ◌>>=◌, get, try_insert, if◌then◌else◌,
  ltb,
}
use minirust.Prelude.Int.{ℤ, pos}
use minirust.Lang.Types.{Ty}
use minirust.Lang.Syntax.{
  LocalName, BbName, ValueExpr, PlaceExpr, Statement, IntrinsicOp, Terminator, BasicBlock,
}
use minirust.Build.Types.{u8}
use minirust.Build.Exprs.{bool_to_int}
use minirust.Build.Operators.{not}
use minirust.Build.Places.{unit_place}
use minirust.Build.Terminators.{panic}
use minirust.Minimize.Program.{Ctxt}
use minirust.Minimize.Enums.{discriminant_for_variant}
use minirust.Minimize.Mir.{
  Operand, Rvalue, StatementKind, TerminatorKind, BasicBlockData, Env, type_translator,
}

pub data StatementResult : Type 0 where
  statement : Statement → StatementResult
  intrinsic : IntrinsicOp → PlaceExpr → List ValueExpr → StatementResult

pub record TerminatorResult : Type 0 where
  pub stmts : List Statement
  pub terminator : Terminator

-- `next_block: target.as_ref().map(|t| self.bb_name_map[t])`
abbrev pub next_block_of : List (ℕ × BbName) → Option ℕ → Option (Option BbName)
next_block_of bbs none = some none
next_block_of bbs (some target) = do name ← get bbs target; some (some name)

module _ (v : Env) (local_names : List (ℕ × LocalName)) where
  unfoldable pub translate_assign : ℕ → Rvalue → Ctxt → Option (StatementResult × Ctxt)
  translate_assign place rval cx = do
    (destination, cx₁) ← v.translate_place local_names place cx
    elim rval [
      | Rvalue.expose_provenance op ↦ (do
        (operand, cx₂) ← v.translate_operand local_names op cx₁
        some (
          StatementResult.intrinsic IntrinsicOp.pointer_expose_provenance destination
              (operand ∷ []),
          cx₂,
        ))
      | Rvalue.with_exposed_provenance op ↦ (do
        (operand, cx₂) ← v.translate_operand local_names op cx₁
        some (
          StatementResult.intrinsic IntrinsicOp.pointer_with_exposed_provenance destination
              (operand ∷ []),
          cx₂,
        ))
      | Rvalue.other rvalue ↦ (do
        (source, cx₂) ← v.translate_rvalue local_names rvalue cx₁
        some (StatementResult.statement (Statement.assign destination source), cx₂))
    ]

  unfoldable pub translate_stmt : StatementKind → Ctxt → Option (StatementResult × Ctxt)
  translate_stmt (StatementKind.assign place rval) cx = translate_assign place rval cx
  translate_stmt (StatementKind.storage_live loc) cx = do
    name ← get local_names loc
    some (StatementResult.statement (Statement.storage_live name), cx)
  translate_stmt (StatementKind.storage_dead loc) cx = do
    name ← get local_names loc
    some (StatementResult.statement (Statement.storage_dead name), cx)
  translate_stmt (StatementKind.retag fn_entry place) cx = do
    (place₁, cx₁) ← v.translate_place local_names place cx
    some (StatementResult.statement (Statement.validate place₁ fn_entry), cx₁)
  translate_stmt (StatementKind.deinit place) cx = do
    (place₁, cx₁) ← v.translate_place local_names place cx
    some (StatementResult.statement (Statement.deinit place₁), cx₁)
  translate_stmt (StatementKind.set_discriminant place variant_index) cx = do
    (discriminant, cx₁) ←
        discriminant_for_variant v.types (type_translator v) (v.place_ty place) variant_index cx
    (destination, cx₂) ← v.translate_place local_names place cx₁
    some (StatementResult.statement (Statement.set_discriminant destination discriminant), cx₂)
  translate_stmt (StatementKind.assume op) cx = do
    (op₁, cx₁) ← v.translate_operand local_names op cx
    some (StatementResult.intrinsic IntrinsicOp.assume unit_place (op₁ ∷ []), cx₁)
  translate_stmt (StatementKind.place_mention place) cx = do
    (place₁, cx₁) ← v.translate_place local_names place cx
    some (StatementResult.statement (Statement.place_mention place₁), cx₁)
  translate_stmt StatementKind.other cx = none

-- The part of `FnCtxt` that changes while blocks are translated
pub record FnCtxt : Type 0 where
  pub cx : Ctxt
  pub next_bb : ℕ
  pub blocks : List (BbName × BasicBlock)

-- `name.checked_add(1).unwrap()`, on `u32`
unfoldable pub fresh_bb_name : FnCtxt → Option (BbName × FnCtxt)
fresh_bb_name c =
    if ltb (c.next_bb + 1) (2 ^ 32)
    then some (c.next_bb, record c { next_bb = c.next_bb + 1 })
    else none

-- `insert`, and the check that no block was there
unfoldable pub add_block : BbName → List Statement → Terminator → FnCtxt → Option FnCtxt
add_block name stmts end c = do
  blocks ← try_insert c.blocks name (record { statements = stmts; terminator = end })
  some (record c { blocks = blocks })
