-- ===== src/Graph.antt =====
-- Directed graphs of named modules, as the parser and the executor build them, and Kahn's algorithm.
pub mod Arcs
pub mod Walk
pub mod Kahn
pub mod Search
