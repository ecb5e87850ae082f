-- ===== src/Minimize/Program/Returns.antt =====
-- program.rs: the rounds of the monomorphization loop.
use minirust.Prelude.{List}
use minirust.Lang.Syntax.{Program}
use minirust.Minimize.Program.Inv.{Inv}
use minirust.Minimize.Program.Uses.{Uses}
