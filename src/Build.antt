-- ===== src/Build.antt =====
-- tooling/miniutil/src/build: the functions and builders that make programs.
pub mod Types
pub mod Exprs
pub mod Operators
pub mod Places
pub mod Statements
pub mod Terminators
pub mod FunctionBuilder
pub mod Functions
pub mod ProgramBuilder
