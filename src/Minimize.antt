-- ===== src/Minimize.antt =====
-- The translator from Rust: types and enums, the chunks of a union, the bodies of functions, the names of
-- the parts of a program and the loop that translates its functions.
pub mod Chunks
pub mod Program
pub mod Rust
pub mod Enums
pub mod Types
pub mod Mir
pub mod Bodies
