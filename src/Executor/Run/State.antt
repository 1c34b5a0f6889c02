-- ===== src/Executor/Run/State.antt =====
-- aqueduct/executor/spark/executor.py: what a run is given, and what it keeps. The handlers that
-- call Spark, the surveyor, the depot and the files are fields of `World`; an exception is its
-- text, and `own_error` says whether it is of the class that the module's branch catches.
use aqueduct_test.Base.{ℕ, Bool, String, Option, none, some, List, [], ◌∷◌, ◌++◌}
use aqueduct_test.Patch.Value.{Value, Fields}
use aqueduct_test.Parser.Models.{Module, Edge}
use aqueduct_test.Executor.Models.{RetryPolicy, Status, success, error, skipped, ModuleResult}
use aqueduct_test.Executor.Retry.{Answer}
use aqueduct_test.Executor.Exhaustion.{Progress}
use aqueduct_test.Executor.Run.Store.{Frames}

-- `execute_assert` returns the passing rows and the quarantined ones, or raises an `AssertError`,
-- which says whether the agent is to be triggered, or another error.
pub data Asserted (F : Type 0) : Type 0 where
  passed : F → Option F → Asserted F
  assert_error : String → Bool → Asserted F
  other_error : String → Asserted F

-- The checkpoints of the run that is resumed: the done markers and the frames.
pub record Checkpoints (F : Type 0) : Type 0 where
  pub is_done : String → Bool
  pub saved : String → String → Option F

pub record World (F : Type 0) : Type 0 where
  -- The answer of each call by its number.
  pub read_ingress : Module → ℕ → Answer F
  pub execute_sql_channel : Module → List (String × F) → ℕ → Answer F
  pub execute_junction : Module → F → ℕ → Answer (List (String × F))
  pub execute_funnel : Module → List (String × F) → ℕ → Answer F
  pub execute_assert : Module → F → Asserted F
  pub write_egress : Module → F → ℕ → Answer (Unit {0})
  pub own_error : Module → String → Bool
  -- `observe_df`, `df.filter`, and the columns added to the rows of a spillway.
  pub observe : String → F → F
  pub filter_rows : String → F → F
  pub add_error_columns : String → F → F
  -- The clock and the random numbers that the retries of a module read.
  pub clock : String → ℕ → ℕ
  pub random : String → ℕ → ℕ
  pub unit : ℕ
  -- `surveyor.evaluate_regulator`, by the module and the number of the call.
  pub surveyor : Option (String → ℕ → Bool)
  -- `RetryPolicy(**on_failure)`, where `none` is the `TypeError`.
  pub retry_policy : Fields → Option RetryPolicy
  pub webhook_url : Value → String
  -- `float(value)` in milliseconds, and 0 below 0.
  pub milliseconds : Value → ℕ
  pub show : Value → String
  pub repr : String → String
  pub replace : String → String → String → String
  pub read_watermark_sidecar : String → Option String
  pub depot_get : Option (String → String)
  -- `_compute_watermark_from_output` for an Egress and a column.
  pub compute_watermark : Module → Value → Option String
  -- Whether the Parquet write of a checkpoint succeeds.
  pub can_save : String → String → Bool

-- The arguments of `execute` and the parts of the Manifest that the branches read.
pub record Plan (F : Type 0) : Type 0 where
  pub blueprint_id : String
  pub run_id : String
  pub modules : List Module
  pub edges : List Edge
  pub policy : RetryPolicy
  pub checkpoint : Bool
  pub has_checkpoint_dir : Bool
  pub has_store_dir : Bool
  -- A store for the metrics is given, or made in `store_dir`.
  pub has_observability_store : Bool
  pub resume : Option (Checkpoints F)
  pub included : Option (List String)

-- What a run does outside, the frames aside.
pub data Effect (F : Type 0) : Type 0 where
  metrics_written : String → Effect F
  checkpoint_saved : String → String → Effect F
  checkpoint_done : String → Effect F
  egress_written : String → F → Effect F
  maintained : String → Effect F
  -- The Egress, the Channel and the value.
  watermark_written : String → String → String → Effect F
  -- The Egress, the key and the value.
  depot_written : String → String → String → Effect F
  probed : String → F → Effect F

-- A Channel that waits for the Egress to be written.
pub record Watermark : Type 0 where
  pub channel_id : String
  pub column : Value
  pub depot_key : String

-- `effects` has the last one first.
pub record RunState (F : Type 0) : Type 0 where
  pub frames : Frames F
  pub progress : Progress
  pub pending : List (String × Watermark)
  pub observed : List String
  pub effects : List (Effect F)

pub data RunError : Type 0 where
  unsupported_type : String → RunError
  invalid_on_failure : String → RunError
  attribute_error : String → RunError
  handler_error : String → RunError
  out_of_rounds : RunError

-- After a module: the loop goes on, `_signal_fail` was called and the loop returned, or an
-- exception left it.
pub data Next (F : Type 0) : Type 0 where
  goes_on : RunState F → Next F
  stops : (agent_triggered : Bool) → RunState F → Next F
  throws : RunError → RunState F → Next F

module _ {F : Type 0} where
  abbrev pub new_state : RunState F
  new_state = record {
    frames = [];
    progress = record { module_results = []; fired = [] };
    pending = [];
    observed = [];
    effects = [];
  }

  abbrev pub results : RunState F → List ModuleResult
  results s = s.progress.module_results

  abbrev pub add_result : Module → Status → Option String → RunState F → RunState F
  add_result m status text s = record s {
    progress = record {
      module_results =
          s.progress.module_results
          ++ (record { module_id = m.id'; status = status; error_text = text } ∷ []);
      fired = s.progress.fired;
    };
  }

  abbrev pub succeed : Module → RunState F → RunState F
  succeed m s = add_result m success none s

  abbrev pub skip : Module → RunState F → RunState F
  skip m s = add_result m skipped none s

  -- An error result, then `_signal_fail` and `return`.
  abbrev pub stop_with : Module → String → Bool → RunState F → Next F
  stop_with m text agent_triggered s = stops agent_triggered (add_result m error (some text) s)

  abbrev pub log : Effect F → RunState F → RunState F
  log x s = record s { effects = x ∷ s.effects }

  infixl 20 ◌>>=◌
  abbrev pub ◌>>=◌ : Next F → (RunState F → Next F) → Next F
  goes_on s >>= f = f s
  stops b s >>= f = stops b s
  throws e s >>= f = throws e s
