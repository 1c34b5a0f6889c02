-- ===== src/Executor/Run/Tests.antt =====
-- Small runs, and the theorems at them.
use aqueduct_test.Base.{
  ◌≡◌, ◌≤◌, refl, false, String, string_eq, ◌==◌, count, count-le_of_distinct, none, some, List, [],
  ◌∷◌, map, here, there, arith,
}
use aqueduct_test.Patch.Value.{truthy}
use aqueduct_test.Parser.Models.{Module, Edge}
use aqueduct_test.Parser.Graph.Samples.{a_module, an_edge}
use aqueduct_test.Executor.Models.{Status, success, error, skipped}
use aqueduct_test.Executor.Retry.{with_retry}
use aqueduct_test.Executor.Selection.{find_downstream_egress_ids}
use aqueduct_test.Executor.Run.Store.{frame_key, drop_at}
use aqueduct_test.Executor.Run.State.{
  World, Plan, RunState, new_state, Next, goes_on, stops, throws, metrics_written, egress_written,
  watermark_written, depot_written,
}
use aqueduct_test.Executor.Run.Steps.{write_checkpoint, put_each}
use aqueduct_test.Executor.Run.Channel.{channel_ran, register}
use aqueduct_test.Executor.Run.Branches.{on_block, egress_ran}
use aqueduct_test.Executor.Run.Owned.{owns}
use aqueduct_test.Executor.Run.Samples.{
  shut_world, a_plan, open_world, load, gate, clean, save, copy, gated_modules, gated_plan,
}
use aqueduct_test.Executor.Run.Components.{HasDueEffects, run_component-HasDueEffects}
use aqueduct_test.Parser.Graph.{module_ids}
use aqueduct_test.Executor.Order.{ids_of}
use aqueduct_test.Executor.Order.Sorted.{AreSourced, data_arcs}
use aqueduct_test.Executor.Order.Execution.{non_probes}
use aqueduct_test.Executor.Run.Whole.{IsEnd, execute_lem}
use aqueduct_test.Executor.Run.{kind_of, run_kind, resume_kind, run_component, execute}
use aqueduct_test.Executor.Run.Live.{AreLive, run_component-AreLive}
use aqueduct_test.Executor.Run.Gates.{IsClosed, awaited, passed_on}
use aqueduct_test.Executor.Run.Gates.Spread.{IsWired, LeadsTo, at_once, behind, IsShut}
use aqueduct_test.Executor.Run.Gates.Shut.{run_component-IsShut}

abbrev state_of : Next String → RunState String
state_of (goes_on s) = s
state_of (stops b s) = s
state_of (throws e s) = s

abbrev statuses : RunState String → List Status
statuses s = map (λ r. r.status) s.progress.module_results

unfoldable run_all : World String → Plan String → List Module → Next String
unfolding run_component run_kind string_eq with_retry write_checkpoint channel_ran truthy
    find_downstream_egress_ids register frame_key egress_ran drop_at on_block put_each
run_all w plan order = run_component w plan (λ _. false) order new_state

-- With a signal every module runs, and the watermark of `clean` is kept after `save`.
opens :
    statuses (state_of (run_all open_world gated_plan gated_modules))
    ≡ success ∷ success ∷ success ∷ success ∷ success ∷ []
unfolding run_all
opens = refl

keeps_watermark :
    (state_of (run_all open_world gated_plan gated_modules)).effects
    ≡ metrics_written "copy"
      ∷ egress_written "copy" "load"
      ∷ depot_written "save" "bp:clean:_watermark" "2024"
      ∷ watermark_written "save" "clean" "2024"
      ∷ metrics_written "save"
      ∷ egress_written "save" "sql clean"
      ∷ metrics_written "clean"
      ∷ metrics_written "load"
      ∷ []
unfolding run_all
keeps_watermark = refl

-- Without one `clean` and `save` are skipped.
shuts :
    statuses (state_of (run_all shut_world gated_plan gated_modules))
    ≡ success ∷ skipped ∷ skipped ∷ skipped ∷ success ∷ []
unfolding run_all
shuts = refl

unfoldable shut_state : RunState String
unfolding run_all
shut_state = state_of (run_all shut_world gated_plan gated_modules)

ends : run_component shut_world gated_plan (λ _. false) gated_modules new_state ≡ goes_on shut_state
unfolding shut_state
ends = refl

wired : IsWired shut_world gated_plan gated_modules
unfolding awaited passed_on owns string_eq frame_key
wired = ground arith

leads : LeadsTo shut_world gated_plan gated_modules "gate" save
unfolding awaited passed_on string_eq frame_key kind_of
leads =
    behind "gate" "clean" clean save (there _ _ _ (there _ _ _ (here _ _))) (here _ _) (here _ _)
      (at_once "clean" save (there _ _ _ (there _ _ _ (there _ _ _ (here _ _)))) (here _ _))

closed : IsClosed shut_state "gate"
unfolding shut_state
closed = refl

run_component-IsShut_example : IsShut shut_world gated_plan shut_state save
run_component-IsShut_example =
    run_component-IsShut shut_world gated_plan gated_modules shut_state wired (ground arith) ends
      "gate" save closed leads

gated_unique : (v : String) → count (ids_of gated_modules) v ≤ 1
unfolding string_eq
gated_unique = count-le_of_distinct (ids_of gated_modules) refl

gated_sourced : AreSourced (module_ids (non_probes gated_modules)) gated_plan.edges
unfolding data_arcs module_ids string_eq
gated_sourced = ground arith

execute_lem_example : IsEnd shut_world gated_plan (execute shut_world gated_plan none (some "save"))
execute_lem_example =
    execute_lem shut_world gated_plan none (some "save") gated_unique gated_sourced

run_component-HasDueEffects_example :
    HasDueEffects (run_component open_world gated_plan (λ _. false) gated_modules new_state)
run_component-HasDueEffects_example =
    run_component-HasDueEffects open_world gated_plan (λ _. false) gated_modules

-- A resumed run without `copy`, where `load` is done: only `clean` and `save` have effects.
abbrev resumed_plan : Plan String
resumed_plan = record gated_plan {
  resume = some (record { is_done = λ id'. id' == "load"; saved = λ id' name. some "old" });
  included = some ("load" ∷ "gate" ∷ "clean" ∷ "save" ∷ []);
}

resumes :
    (state_of (run_all open_world resumed_plan gated_modules)).effects
    ≡ depot_written "save" "bp:clean:_watermark" "2024"
      ∷ watermark_written "save" "clean" "2024"
      ∷ metrics_written "save"
      ∷ egress_written "save" "sql clean"
      ∷ metrics_written "clean"
      ∷ []
unfolding run_all resume_kind
resumes = refl

run_component-AreLive_example :
    AreLive open_world resumed_plan
      (λ _. false)
      gated_modules
      (run_component open_world resumed_plan (λ _. false) gated_modules new_state)
run_component-AreLive_example =
    run_component-AreLive open_world resumed_plan (λ _. false) gated_modules

-- The rows that an Egress takes from the spillway of a skipped Channel are missing: the run fails.
spilling : List Edge
spilling =
    an_edge "load" "gate" "main"
    ∷ an_edge "gate" "clean" "main"
    ∷ an_edge "clean" "copy" "spillway"
    ∷ []

skipped_spillway_fails :
    statuses (
      state_of
        (run_all shut_world (a_plan gated_modules spilling) (load ∷ gate ∷ clean ∷ copy ∷ [])))
    ≡ success ∷ skipped ∷ skipped ∷ error ∷ []
unfolding run_all spilling
skipped_spillway_fails = refl

-- A Channel does not read the branch of a Junction, which has its own port.
branching : List Edge
branching = an_edge "load" "split" "main" ∷ an_edge "split" "clean" "eu" ∷ []

branch_into_channel_fails :
    statuses (
      state_of (
        run_all open_world
          (a_plan gated_modules branching)
          (load ∷ a_module "Junction" "split" [] ∷ clean ∷ [])))
    ≡ success ∷ success ∷ error ∷ []
unfolding run_all branching
branch_into_channel_fails = refl

-- A run from `clean` on leaves out the modules that would give it a frame, and fails at once.
run_from_channel_fails :
    statuses (
      state_of (
        run_all open_world
          (record gated_plan { included = some ("clean" ∷ "save" ∷ []) })
          gated_modules))
    ≡ skipped ∷ skipped ∷ error ∷ []
unfolding run_all
run_from_channel_fails = refl
