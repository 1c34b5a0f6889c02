-- ===== src/Compiler.antt =====
-- aqueduct/compiler: what the compiler checks and removes before a manifest is written.
pub mod Wirer
pub mod Expander
