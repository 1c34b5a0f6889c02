-- ===== src/Patch.antt =====
-- aqueduct/patch: the documents, the operations of a patch, its guardrails and its application.
pub mod Value
pub mod Grammar
pub mod Result
pub mod Blueprint
pub mod Operations
pub mod Guardrails
pub mod Apply
pub mod Aliases
