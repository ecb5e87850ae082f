-- ===== src/Fmt.antt =====
-- tooling/miniutil/src/fmt: the printer of programs, one child module for each of its files, and
-- the modules of the proofs.
pub mod Text
pub mod Types
pub mod CompTypes
pub mod Exprs
pub mod Functions
pub mod Tables
pub mod Program
pub mod Meets
pub mod Brackets
pub mod Printable
pub mod Universe
pub mod Prints
mod Tests
pub mod Laws
pub mod Order
