-- ===== src/Parser.antt =====
-- aqueduct/parser: the modules of a Blueprint and the checks of their graph.
pub mod Models
pub mod Graph
