-- ===== src/Executor.antt =====
-- aqueduct/executor: what the executor decides about modules and edges, apart from Spark.
pub mod Models
pub mod Retry
pub mod Exhaustion
pub mod Order
pub mod Selection
pub mod Run
pub mod Components
