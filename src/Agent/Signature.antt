-- ===== src/Agent/Signature.antt =====
-- aqueduct/agent/signature.py: the record that the budget compares by its hash.
use aqueduct_test.Base.{String}

pub record ErrorSignature : Type 0 where
  pub error_class : String
  pub where_at : String
  pub normalized_message : String
  pub hash : String
