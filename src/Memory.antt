-- ===== src/Memory.antt =====
-- The memory models of the specification: outcomes of an operation, basic memory, Tree Borrows.
pub mod Outcome
pub mod Basic
pub mod TreeBorrows
