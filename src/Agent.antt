-- ===== src/Agent.antt =====
-- aqueduct/agent: the budget of a heal, the reprompt loop and the cascade of models.
pub mod Signature
pub mod Budget
pub mod Attempt
pub mod Loop
pub mod Cascade
