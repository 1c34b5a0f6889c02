-- ===== src/Executor/Run/Branches.antt =====
-- aqueduct/executor/spark/executor.py: the other branches of `execute`, one for each module type.
use aqueduct_test.Base.{
  Bool, true, false, ◌&&◌, String, string_eq, ◌==◌, ◌<>◌, if◌then◌else◌, Option, none, some, List,
  [], ◌∷◌, ◌++◌,
}
use aqueduct_test.Patch.Value.{Value, obj, get, truthy?, is_text}
use aqueduct_test.Parser.Models.{Module, Edge}
use aqueduct_test.Executor.Run.Store.{Slot, frame, gate_closed, get_at, from_of, key_of}
use aqueduct_test.Executor.Run.State.{
  Asserted, passed, assert_error, other_error, World, Plan, RunState, Next, goes_on, throws,
  handler_error, out_of_rounds, succeed, skip, stop_with, log, egress_written, maintained, probed,
}
use aqueduct_test.Executor.Run.Regulator.{gate_open}
use aqueduct_test.Executor.Run.Steps.{
  measured, write_checkpoint, put_frame, put_each, close_branches, handled, reading, reading_one,
  pass_on, close_own,
}
use aqueduct_test.Executor.Run.Channel.{has_spillway_edge, spillway_key, update_watermark}

module _ {F : Type 0} (w : World F) (plan : Plan F) where
  abbrev pub observe_ingress : Module → RunState F → RunState F
  observe_ingress m s = record s { observed = s.observed ++ (m.id' ∷ []) }

  abbrev pub ingress_ran : Module → F → RunState F → Next F
  ingress_ran m df s = goes_on (
      succeed m (
        write_checkpoint w plan m (("data", df) ∷ []) (
          put_frame w plan m.id' (w.observe (m.id' <> "_read") df)
            (measured w plan m (observe_ingress m s)))))

  unfoldable pub run_ingress : Module → RunState F → Next F
  unfolding handled
  run_ingress m s = handled w plan m (close_own w plan m) (ingress_ran m) (w.read_ingress m) s

  abbrev pub junction_ran : Module → List (String × F) → RunState F → Next F
  junction_ran m branches s = goes_on (
      succeed m
        (write_checkpoint w plan m branches (put_each w plan m branches (measured w plan m s))))

  abbrev pub junction_call : Module → F → RunState F → Next F
  junction_call m df s =
      handled w plan m (close_branches w plan m goes_on) (junction_ran m) (w.execute_junction m df)
        s

  unfoldable pub run_junction : Module → List Edge → RunState F → Next F
  unfolding reading_one close_branches
  run_junction m edges s =
      reading_one w plan from_of from_of
        ("[" <> (m.id' <> "] Junction has no main-port incoming edges")) m edges
        (close_branches w plan m (λ s'. goes_on (skip m s'))) (junction_call m) s

  abbrev pub funnel_ran : Module → F → RunState F → Next F
  funnel_ran m df s = goes_on (
      succeed m (
        write_checkpoint w plan m (("data", df) ∷ [])
          (put_frame w plan m.id' df (measured w plan m s))))

  unfoldable pub run_funnel : Module → List Edge → RunState F → Next F
  unfolding reading handled
  run_funnel m edges s =
      reading w plan key_of key_of ("[" <> (m.id' <> "] Funnel has no incoming data edges")) m edges
        (pass_on w plan m)
        (λ upstream.
          handled w plan m (close_own w plan m) (funnel_ran m) (w.execute_funnel m upstream))
        s

  -- The quarantined rows, where an edge takes them.
  abbrev pub quarantine : Module → Option F → RunState F → RunState F
  quarantine m none s = s
  quarantine m (some df) s =
      if has_spillway_edge plan.edges m then put_frame w plan (spillway_key m) df s else s

  abbrev pub asserted : Module → Asserted F → RunState F → Next F
  asserted m (passed df rows) s =
      goes_on (succeed m (quarantine m rows (put_frame w plan m.id' df s)))
  asserted m (assert_error text agent_triggered) s = stop_with m text agent_triggered s
  asserted m (other_error text) s = throws (handler_error text) s

  unfoldable pub run_assert : Module → List Edge → RunState F → Next F
  unfolding reading_one
  run_assert m edges s =
      reading_one w plan from_of from_of
        ("[" <> (m.id' <> "] Assert has no main-port incoming edges")) m edges (pass_on w plan m)
        (λ df. asserted m (w.execute_assert m df)) s

  -- `on_block`
  unfoldable pub on_block : Module → RunState F → Next F
  unfolding get
  on_block m s =
      if is_text "abort" (get "on_block" m.config)
      then stop_with m ("[" <> (m.id' <> "] Regulator gate closed; on_block=abort")) false s
      else if is_text "trigger_agent" (get "on_block" m.config)
      then stop_with m ("[" <> (m.id' <> "] Regulator gate closed; on_block=trigger_agent")) true s
      else pass_on w plan m s

  abbrev pub regulate : Module → Option Bool → F → RunState F → Next F
  regulate m none df s = throws out_of_rounds s
  regulate m (some true) df s = goes_on (succeed m (put_frame w plan m.id' df s))
  regulate m (some false) df s = on_block m s

  unfoldable pub run_regulator : Module → List Edge → RunState F → Next F
  unfolding reading_one gate_open
  run_regulator m edges s =
      reading_one w plan from_of from_of
        ("[" <> (m.id' <> "] Regulator has no main-port incoming edges")) m edges (pass_on w plan m)
        (regulate m (gate_open w m)) s

  abbrev pub is_dict : Option Value → Bool
  is_dict (some (obj _)) = true
  is_dict _ = false

  abbrev pub maintain : Module → RunState F → RunState F
  maintain m s =
      if truthy? (get "maintenance" m.config)
        && (is_dict (get "maintenance" m.config) && truthy? (get "path" m.config))
      then log (maintained m.id') s
      else s

  unfoldable pub egress_ran : Module → F → Unit {0} → RunState F → Next F
  unfolding write_checkpoint update_watermark
  egress_ran m df _ s = goes_on (
      succeed m (
        update_watermark w plan m (
          maintain m
            (write_checkpoint w plan m [] (measured w plan m (log (egress_written m.id' df) s))))))

  abbrev pub egress_call : Module → F → RunState F → Next F
  egress_call m df s = handled w plan m goes_on (egress_ran m df) (w.write_egress m df) s

  unfoldable pub run_egress : Module → List Edge → RunState F → Next F
  unfolding reading_one
  run_egress m edges s =
      reading_one w plan key_of from_of
        ("[" <> (m.id' <> "] no main-port edge arriving at this Egress module")) m edges
        (λ s'. goes_on (skip m s')) (λ df. egress_call m (w.observe (m.id' <> "_egress") df)) s

  -- `frame_store.get(source_id) if source_id else None`
  abbrev pub source_of : Option String → RunState F → Option (Slot F)
  source_of none s = none
  source_of (some id') s = if id' == "" then none else get_at id' s.frames

  -- Whatever `execute_probe` raises is swallowed.
  abbrev pub probe_slot : Module → Option (Slot F) → RunState F → RunState F
  probe_slot m none s = s
  probe_slot m (some gate_closed) s = s
  probe_slot m (some (frame df)) s = if plan.has_store_dir then log (probed m.id' df) s else s

  unfoldable pub run_probe : Module → RunState F → Next F
  run_probe m s = goes_on (succeed m (probe_slot m (source_of m.attach_to s) s))
