-- ===== src/Build/FunctionBuilder/Statements.antt =====
-- build/statement.rs: the methods that add a statement to the current block.
use minirust.Prelude.{Bool, Option, none}
use minirust.Prelude.Int.{ℤ}
use minirust.Lang.Syntax.{ValueExpr, PlaceExpr, Statement}
use minirust.Build.FunctionBuilder.{FunctionBuilder, push_statement}

unfoldable pub assign : PlaceExpr → ValueExpr → FunctionBuilder → Option FunctionBuilder
assign destination source = push_statement (Statement.assign destination source)

unfoldable pub place_mention : PlaceExpr → FunctionBuilder → Option FunctionBuilder
place_mention place = push_statement (Statement.place_mention place)

unfoldable pub set_discriminant : PlaceExpr → ℤ → FunctionBuilder → Option FunctionBuilder
set_discriminant destination value = push_statement (Statement.set_discriminant destination value)

unfoldable pub validate : PlaceExpr → Bool → FunctionBuilder → Option FunctionBuilder
validate place fn_entry = push_statement (Statement.validate place fn_entry)

unfoldable pub storage_live : PlaceExpr → FunctionBuilder → Option FunctionBuilder
storage_live (PlaceExpr.local name) fb = push_statement (Statement.storage_live name) fb
storage_live _ fb = none

unfoldable pub storage_dead : PlaceExpr → FunctionBuilder → Option FunctionBuilder
storage_dead (PlaceExpr.local name) fb = push_statement (Statement.storage_dead name) fb
storage_dead _ fb = none
