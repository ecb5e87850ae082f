-- ===== src/Build/Statements.antt =====
-- build/statement.rs: statements.
use minirust.Prelude.{ℕ, Bool}
use minirust.Prelude.Int.{ℤ}
use minirust.Lang.Syntax.{ValueExpr, PlaceExpr, Statement}

unfoldable pub assign : PlaceExpr → ValueExpr → Statement
assign destination source = Statement.assign destination source

unfoldable pub place_mention : PlaceExpr → Statement
place_mention place = Statement.place_mention place

unfoldable pub set_discriminant : PlaceExpr → ℤ → Statement
set_discriminant destination value = Statement.set_discriminant destination value

unfoldable pub validate : PlaceExpr → Bool → Statement
validate place fn_entry = Statement.validate place fn_entry

unfoldable pub storage_live : ℕ → Statement
storage_live x = Statement.storage_live x

unfoldable pub storage_dead : ℕ → Statement
storage_dead x = Statement.storage_dead x
