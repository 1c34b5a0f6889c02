-- ===== src/Executor/Run.antt =====
-- aqueduct/executor/spark/executor.py: `execute`, as one thread runs it. What precedes the order
-- of the modules (the resumed directory, the UDFs) is left out.
pub mod Store
pub mod State
pub mod Regulator
pub mod Steps
pub mod Channel
pub mod Branches
pub mod Owned
pub mod Touches
pub mod Quiet
pub mod Ran
pub mod Modules
pub mod Results
pub mod Components
pub mod Live
pub mod Whole
pub mod Gates
pub mod Samples
pub mod Tests
use aqueduct_test.Base.{
  Bool, true, false, not, ◌&&◌, ◌||◌, String, string_eq, ◌==◌, if◌then◌else◌, contains, Option,
  none, some, List, [], ◌∷◌, any, filter, Try, returns, raises,
}
use aqueduct_test.Patch.Value.{get}
use aqueduct_test.Parser.Models.{Module, Edge}
use aqueduct_test.Executor.Models.{Status, success, error, skipped, ModuleResult, ExecutionResult}
use aqueduct_test.Executor.Exhaustion.{fail}
use aqueduct_test.Executor.Order.{OrderError, build_execution_order}
use aqueduct_test.Executor.Selection.{SelectError, selector_included, incoming_data, incoming_main}
use aqueduct_test.Executor.Run.Store.{Slot, frame, put_at, get_at}
use aqueduct_test.Executor.Run.State.{
  World, Checkpoints, Plan, RunState, new_state, Next, goes_on, stops, throws, RunError,
  unsupported_type, attribute_error, results, succeed, skip, ◌>>=◌,
}
use aqueduct_test.Executor.Run.Steps.{branch_ids, put_frame, branch_key}
use aqueduct_test.Executor.Run.Channel.{run_channel}
use aqueduct_test.Executor.Run.Branches.{
  run_ingress, run_junction, run_funnel, run_assert, run_regulator, run_egress, run_probe,
}

-- The types in `_SUPPORTED_TYPES`.
pub data Kind : Type 0 where
  ingress egress channel junction funnel probe regulator assert : Kind

unfoldable pub kind_of : String → Option Kind
kind_of t =
    if t == "Ingress"
    then some ingress
    else if t == "Channel"
    then some channel
    else if t == "Junction"
    then some junction
    else if t == "Funnel"
    then some funnel
    else if t == "Assert"
    then some assert
    else if t == "Regulator"
    then some regulator
    else if t == "Egress"
    then some egress
    else if t == "Probe"
    then some probe
    else none

module _ {F : Type 0} (w : World F) (plan : Plan F) where
  unfoldable pub run_kind : Kind → Module → RunState F → Next F
  unfolding run_ingress run_channel run_junction run_funnel run_assert run_regulator run_egress
      run_probe incoming_data incoming_main
  run_kind ingress m s = run_ingress w plan m s
  run_kind channel m s = run_channel w plan m (incoming_main m.id' plan.edges) s
  run_kind junction m s = run_junction w plan m (incoming_main m.id' plan.edges) s
  run_kind funnel m s = run_funnel w plan m (incoming_data m.id' plan.edges) s
  run_kind assert m s = run_assert w plan m (incoming_main m.id' plan.edges) s
  run_kind regulator m s = run_regulator w plan m (incoming_main m.id' plan.edges) s
  run_kind egress m s = run_egress w plan m (incoming_data m.id' plan.edges) s
  run_kind probe m s = run_probe w plan m s

  -- A frame that the resumed run saved, at its key.
  abbrev pub reload : String → Option F → RunState F → RunState F
  reload key none s = s
  reload key (some df) s = put_frame w plan key df s

  unfoldable pub reload_branches : Checkpoints F → Module → List String → RunState F → RunState F
  unfolding branch_key
  reload_branches c m [] s = s
  reload_branches c m (b ∷ bs) s =
      reload_branches c m bs (reload (branch_key w plan m b) (c.saved m.id' b) s)

  abbrev pub resume_branches : Checkpoints F → Module → Option (List String) → RunState F → Next F
  resume_branches c m none s = throws (attribute_error m.id') s
  resume_branches c m (some bs) s = goes_on (succeed m (reload_branches c m bs s))

  -- A module with a done marker is not run again; its frames are read from the checkpoint.
  unfoldable pub resume_kind : Checkpoints F → Kind → Module → RunState F → Next F
  unfolding get
  resume_kind c ingress m s = goes_on (succeed m (reload m.id' (c.saved m.id' "data") s))
  resume_kind c channel m s = goes_on (succeed m (reload m.id' (c.saved m.id' "data") s))
  resume_kind c funnel m s = goes_on (succeed m (reload m.id' (c.saved m.id' "data") s))
  resume_kind c junction m s = resume_branches c m (branch_ids w.show (get "branches" m.config)) s
  resume_kind c _ m s = goes_on (succeed m s)

  abbrev pub or_resume : Option (Checkpoints F) → Kind → Module → RunState F → Next F
  or_resume none kind m s = run_kind kind m s
  or_resume (some c) kind m s =
      if c.is_done m.id' then resume_kind c kind m s else run_kind kind m s

  -- `included_ids is not None and module.id not in included_ids`
  abbrev pub is_excluded : Option (List String) → Module → Bool
  is_excluded none m = false
  is_excluded (some included) m = not (contains included m.id')

  abbrev pub run_supported : Option Kind → Module → RunState F → Next F
  run_supported none m s = throws (unsupported_type m.id') s
  run_supported (some kind) m s =
      if is_excluded plan.included m then goes_on (skip m s) else or_resume plan.resume kind m s

  -- `is_cancelled` says whether another component had failed when the module's turn came.
  unfoldable pub run_module : Bool → Module → RunState F → Next F
  unfolding kind_of
  run_module is_cancelled m s =
      if is_cancelled then goes_on (skip m s) else run_supported (kind_of m.type') m s

  -- `_run_component`
  unfoldable pub run_component : (String → Bool) → List Module → RunState F → Next F
  unfolding run_module
  run_component is_cancelled [] s = goes_on s
  run_component is_cancelled (m ∷ ms) s =
      run_module (is_cancelled m.id') m s >>= run_component is_cancelled ms

  -- What `execute` does after a run that no module stopped: the deferred observations, and the
  -- plans that are captured.
  abbrev pub is_success : Status → Bool
  is_success success = true
  is_success _ = false

  unfoldable pub succeeded : List ModuleResult → String → Bool
  succeeded rs id' = any (λ r. r.module_id == id' && is_success r.status) rs

  unfoldable pub observations : RunState F → List String
  unfolding succeeded
  observations s =
      if plan.has_store_dir then filter (λ id'. succeeded (results s) id') s.observed else []

  abbrev pub has_slot : Option (Slot F) → Bool
  has_slot none = false
  has_slot (some _) = true

  unfoldable pub captured : RunState F → List Module
  unfolding succeeded get_at
  captured s =
      filter
        (λ m.
          succeeded (results s) m.id'
          && (not (m.type' == "Egress") && has_slot (get_at m.id' s.frames)))
        plan.modules

  abbrev pub succeed_all : RunState F → ExecutionResult
  succeed_all s = record {
    blueprint_id = plan.blueprint_id;
    run_id = plan.run_id;
    status = success;
    module_results = results s;
    agent_triggered = false;
  }

  abbrev pub finished : Next F → Try RunError ExecutionResult
  finished (goes_on s) = returns (succeed_all s)
  finished (stops agent_triggered s) =
      returns (fail plan.blueprint_id plan.run_id (results s) agent_triggered)
  finished (throws e s) = raises e

  -- The modules in their order, one after the other.
  unfoldable pub execute_serial : List Module → Try RunError ExecutionResult
  unfolding run_component
  execute_serial order = finished (run_component (λ _. false) order new_state)

-- The `ExecuteError`s before the first module, and those of the run.
pub data ExecuteError : Type 0 where
  order_error : OrderError → ExecuteError
  select_error : SelectError → ExecuteError
  run_error : RunError → ExecuteError

module _ {F : Type 0} (w : World F) (plan : Plan F) where
  abbrev pub with_errors : Try RunError ExecutionResult → Try ExecuteError ExecutionResult
  with_errors (returns r) = returns r
  with_errors (raises e) = raises (run_error e)

  abbrev pub with_selection :
      List Module → Try SelectError (Option (List String)) → Try ExecuteError ExecutionResult
  with_selection order (raises e) = raises (select_error e)
  with_selection order (returns included) =
      with_errors (execute_serial w (record plan { included = included }) order)

  abbrev pub with_order :
      Option String
      → Option String
      → Try OrderError (List Module)
      → Try ExecuteError ExecutionResult
  with_order from to (raises e) = raises (order_error e)
  with_order from to (returns order) =
      with_selection order (selector_included plan.modules plan.edges from to)

  unfoldable pub execute : Option String → Option String → Try ExecuteError ExecutionResult
  unfolding build_execution_order
  execute from_module to_module =
      with_order from_module to_module (build_execution_order plan.modules plan.edges)
