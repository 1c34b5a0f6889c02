-- ===== src/Executor/Run/Whole.antt =====
-- A whole run: the order, the selection and the modules one after the other.
use aqueduct_test.Base.{◌≤◌, inl, inr, String, string_eq, Option, List, count, Try, returns, raises}
use aqueduct_test.Graph.Walk.{IsBelowCycle}
use aqueduct_test.Parser.Models.{Module}
use aqueduct_test.Parser.Graph.{module_ids}
use aqueduct_test.Executor.Models.{ExecutionResult}
use aqueduct_test.Executor.Order.{ids_of}
use aqueduct_test.Executor.Order.Sorted.{AreSourced}
use aqueduct_test.Executor.Order.Execution.{
  non_probes, flow, IsExecutionOrder, build_execution_order_lem,
}
use aqueduct_test.Executor.Selection.{SelectError, selector_included}
use aqueduct_test.Executor.Run.State.{World, Plan, RunError}
use aqueduct_test.Executor.Run.Components.{IsOutcome, execute_serial_lem}
use aqueduct_test.Executor.Run.{
  ExecuteError, order_error, select_error, run_error, with_errors, with_selection, execute,
}

module _ {F : Type 0} (w : World F) (plan : Plan F) where
  -- A result comes from a run along an execution order of the manifest; the error of the order,
  -- from a cycle.
  abbrev pub IsEnd : Try ExecuteError ExecutionResult → Type 0
  IsEnd (returns r) =
      (order : List Module) × IsExecutionOrder plan.modules plan.edges (ids_of order)
      × IsOutcome order (returns r)
  IsEnd (raises (order_error e)) = (v : String) × IsBelowCycle (flow plan.modules plan.edges) v
  IsEnd (raises (select_error e)) = Unit
  IsEnd (raises (run_error e)) = Unit

  module _ (order : List Module)
      (sorted : IsExecutionOrder plan.modules plan.edges (ids_of order)) where
    with_errors-IsEnd :
        (answer : Try RunError ExecutionResult)
        → IsOutcome order answer
        → IsEnd (with_errors w plan answer)
    with_errors-IsEnd (returns r) outcome = (order, sorted, outcome)
    with_errors-IsEnd (raises e) outcome = tt

    with_selection-IsEnd :
        (included : Try SelectError (Option (List String)))
        → IsEnd (with_selection w plan order included)
    with_selection-IsEnd (raises e) = tt
    with_selection-IsEnd (returns included) =
        with_errors-IsEnd _ (execute_serial_lem w (record plan { included = included }) order)

  -- If the ids of the manifest differ and each data edge into a module that is no probe comes from
  -- such a module, then whatever modules are selected, a run that returns follows an execution order
  -- of the manifest: it succeeds with one result for each module in that order, or it fails with
  -- one for each module before one in the order and that one's error as the last. An error of the
  -- order means that there is a cycle.
  pub execute_lem :
      (from_module to_module : Option String)
      → ((v : String) → count (ids_of plan.modules) v ≤ 1)
      → AreSourced (module_ids (non_probes plan.modules)) plan.edges
      → IsEnd (execute w plan from_module to_module)
  unfolding execute
  execute_lem from_module to_module unique sourced =
      elim (build_execution_order_lem plan.modules plan.edges unique sourced) [
        | inl (order, e, sorted) ↦ rw e (
            with_selection-IsEnd order sorted
              (selector_included plan.modules plan.edges from_module to_module))
        | inr (nodes, e, below, v, cycle) ↦ rw e (v, cycle)
      ]
