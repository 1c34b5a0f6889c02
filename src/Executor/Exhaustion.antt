-- ===== src/Executor/Exhaustion.antt =====
-- aqueduct/executor/spark/executor.py: `_on_retry_exhausted` and `_fail`. The webhook's payload and
-- the live exception of a result are left out.

use aqueduct_test.Base.{Bool, true, false, String, Option, none, some, List, [], ◌∷◌, ◌++◌}
use aqueduct_test.Executor.Models.{
  OnExhaustion, alert_only, trigger_agent, abort, RetryPolicy, error, ModuleResult, ExecutionResult,
}

-- The list of results that the executor keeps appending to, and the webhooks called.
pub record Progress : Type 0 where
  pub module_results : List ModuleResult
  pub fired : List String

abbrev pub fire : Option String → List String → List String
fire none fired = fired
fire (some url) fired = fired ++ (url ∷ [])

module _ (blueprint_id run_id : String) where
  abbrev pub fail : List ModuleResult → Bool → ExecutionResult
  fail module_results agent_triggered = record {
    blueprint_id = blueprint_id;
    run_id = run_id;
    status = error;
    module_results = module_results;
    agent_triggered = agent_triggered;
  }

  -- `(True, None)` is `none`, and `(False, result)` the result.
  abbrev pub by_action : OnExhaustion → List ModuleResult → Option ExecutionResult
  by_action alert_only module_results = none
  by_action trigger_agent module_results = some (fail module_results true)
  by_action abort module_results = some (fail module_results false)

  unfoldable pub on_retry_exhausted :
      (text : String) (policy : RetryPolicy) (module_id : String) (webhook : Option String)
      → Progress
      → Progress × Option ExecutionResult
  on_retry_exhausted text policy module_id webhook p =
      let module_results =
        p.module_results
        ++ (record { module_id = module_id; status = error; error_text = some text } ∷ []) in
      (
        record { module_results = module_results; fired = fire webhook p.fired },
        by_action policy.on_exhaustion module_results,
      )
