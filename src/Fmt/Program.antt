-- ===== src/Fmt/Program.antt =====
-- tooling/miniutil/src/fmt/mod.rs: the text of a program.
use minirust.Prelude.{[], Option, some, ◌>>=◌}
use minirust.Lang.Syntax.{Program}
use minirust.Fmt.Text.{Text, ◌⧺◌}
use minirust.Fmt.CompTypes.{fmt_comptypes}
use minirust.Fmt.Functions.{fmt_functions}
use minirust.Fmt.Tables.{fmt_globals, fmt_traits, fmt_vtables}

unfoldable pub fmt_program : Program → Option Text
fmt_program prog = do
  (functions_string, comptypes) ← fmt_functions prog []
  comptypes_string ← fmt_comptypes comptypes
  some (
      comptypes_string
      ⧺ fmt_traits prog.traits
      ⧺ fmt_vtables prog.vtables
      ⧺ functions_string
      ⧺ fmt_globals prog.globals)
