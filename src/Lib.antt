-- ===== src/Lib.antt =====
-- MiniRust, modelled and verified in part: the builders and the printer of programs in
-- tooling/miniutil, the translator tooling/minimize without its values and places, and the basic memory model and the Tree Borrows aliasing model of the specification.
--
-- How the program is put together. The specification (spec/lang, spec/mem) defines the syntax of
-- MiniRust, an abstract machine and two memory models. tooling/miniutil builds programs of that syntax
-- by functions and by builder objects, prints them and runs them. tooling/minimize translates the MIR
-- of a Rust program to MiniRust, with the functions of miniutil. tooling/minitest tests the machine.
--
-- Which file models what:
--   Prelude, Prelude/*            lists, maps, integers, panics and tests that all files share
--   Lang/Types                    spec/lang/types.md, spec/mem/pointer.md: Type, IntType, PtrType, ...
--   Lang/Layout                   Type::layout, meta_kind, IntType::align, Target (spec/prelude/target.md)
--   Lang/Syntax                   spec/lang/syntax.md: expressions, statements, terminators, programs
--   Lang/Discriminants            spec/lang/representation.md: decode_discriminant
--   Build/Types, Build/Exprs,     tooling/miniutil/src/build/ty.rs, ty_conv.rs, expr.rs, statement.rs,
--   Build/Operators, Build/Places,  terminator.rs: the functions of these names
--   Build/Statements, Build/Terminators
--   Build/FunctionBuilder         build/mod.rs: FunctionBuilder, its blocks and locals; its children
--                                 Statements, Terminators and Branches are the methods of statement.rs
--                                 and terminator.rs, the others are about the blocks of built functions
--   Build/Functions               build/function.rs, build/global.rs and `program` of build/mod.rs
--   Build/ProgramBuilder          build/mod.rs: ProgramBuilder, VTableBuilder, TraitBuilder
--   Fmt/Types, Fmt/CompTypes      tooling/miniutil/src/fmt/ty.rs: types, and the composite types met
--   Fmt/Exprs, Fmt/Functions      fmt/expr.rs, fmt/function.rs: places, values, blocks and functions
--   Fmt/Tables, Fmt/Program       fmt/global.rs, fmt/vtables.rs, fmt/mod.rs; Fmt/Text has what they use
--                                 of Rust's strings; the other files of Fmt are about the printed text
--   Minimize/Chunks               tooling/minimize/src/chunks.rs: calc_chunks, mark_used_bytes
--   Minimize/Rust                 what the translation of types asks rustc
--   Minimize/Enums, Minimize/Types  tooling/minimize/src/enums.rs, ty.rs: translate_enum, translate_ty
--   Minimize/Mir                  what the translation of function bodies asks rustc
--   Minimize/Bodies               tooling/minimize/src/bb.rs, function.rs: translate_stmt; its children
--                                 Calls, Intrinsics and Terminators are translate_rs_intrinsic,
--                                 translate_call and translate_terminator, Blocks has translate_bb and translate, and the
--                                 others are about the blocks of a translated function
--   Minimize/Program              tooling/minimize/src/program.rs and vtable.rs: names of functions,
--                                 traits and vtables, the monomorphization loop, the start function
--   Memory/Outcome                spec/prelude/main.md: results of the specification's operations
--   Memory/Basic                  spec/mem/basic.md: allocations, loads and stores
--   Memory/TreeBorrows            spec/mem/tree_borrows/state_machine.md
--   Memory/TreeBorrows/Tree       spec/mem/tree_borrows/tree.md
--   Memory/TreeBorrows/Retag      spec/mem/tree_borrows/memory.md: ptr_permissions
--
-- Conventions. A method takes the object that it changes and returns the new one, behind its result
-- where it has one. A panic of the tooling is `none`. In Memory a panic of the specification's code is
-- `panics`, beside undefined behaviour, `ub`. A name is its number. Sizes, offsets, alignments and
-- addresses are numbers of bytes. `Int` is ℤ where it can be negative, else ℕ. The maps and sets of the
-- specification's language are association lists and lists. The list of children of a node and the
-- lists inside a type stand as data types of the same block. The `u32` counters of the builders panic
-- on overflow, as in the development profile; casts `as u32` of lengths wrap around in
-- Minimize/Program, and in Build/Functions the lengths are taken to fit.
--
-- Loops. All loops are structural, but for five. The digits of a number are written by recursion on
-- the order of numbers. The loop of the printer over the composite types that it has met has fuel: a
-- round for each composite type inside those that it starts with, and one to see that none is left. `is_power_of_two` halves a number below 2 ^ 64, for
-- which 64 rounds are enough. The translation of types has fuel, for
-- the depth of a type: it does not go into the types behind pointers. The monomorphization loop has fuel: it needs a round for each of rustc's
-- instances, and one to see that all have functions.
--
-- Not modelled: rustc, which is the arguments `Rustc`, `RsTypes` and `Env`, and the translation of
-- places, operands and rvalues (rvalue.rs, constant.rs), which is in `Env`; the loop over functions
-- takes the translation of one function as an argument, and Minimize/Bodies/Complete gives it the one
-- of Minimize/Bodies. Not modelled are the runner of miniutil, the
-- machine and its steps, the representation of values, data races and integer-pointer casts in the
-- specification, and the test suites.
pub mod Prelude
pub mod Lang
pub mod Build
pub mod Fmt
pub mod Minimize
pub mod Memory
