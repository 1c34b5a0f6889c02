-- ===== src/Executor/Models.antt =====
-- The records of aqueduct/parser/models.py and aqueduct/executor/models.py that the executor reads.
use aqueduct_test.Base.{ℕ, Bool, String, Option, List}

-- `backoff_strategy`: any other text means exponential.
pub data Backoff : Type 0 where
  fixed linear exponential : Backoff

-- `on_exhaustion`: any other text means abort.
pub data OnExhaustion : Type 0 where
  alert_only trigger_agent abort : OnExhaustion

pub record RetryPolicy : Type 0 where
  pub max_attempts : ℕ
  pub backoff_strategy : Backoff
  pub backoff_base_seconds : ℕ
  pub backoff_max_seconds : ℕ
  pub jitter : Bool
  pub on_exhaustion : OnExhaustion
  pub transient_errors : List String
  pub non_transient_errors : List String
  pub deadline_seconds : Option ℕ

pub data Status : Type 0 where
  success error skipped : Status

pub record ModuleResult : Type 0 where
  pub module_id : String
  pub status : Status
  pub error_text : Option String

pub record ExecutionResult : Type 0 where
  pub blueprint_id : String
  pub run_id : String
  pub status : Status
  pub module_results : List ModuleResult
  pub agent_triggered : Bool
