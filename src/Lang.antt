-- ===== src/Lang.antt =====
-- The data of the language: types, layouts and the syntax of programs (spec/lang, spec/mem/pointer.md).
pub mod Types
pub mod Layout
pub mod Discriminants
pub mod Syntax
