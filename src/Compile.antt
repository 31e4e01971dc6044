-- ===== src/Compile.antt =====
-- internal/compile: from a policy to a program.
pub mod Interner
pub mod Symbols
pub mod Interning
