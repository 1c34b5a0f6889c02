-- ===== src/Executor/Run/Modules.antt =====
-- Every module of a run adds one result, and touches only what is its own.
use aqueduct_test.Base.{
  refl, Bool, true, false, String, string_eq, ◌<>◌, if◌then◌else◌, Option, none, some, List, [],
  ◌∷◌, here, Try, returns, raises,
}
use aqueduct_test.Patch.Value.{Value, get, truthy?, is_text}
use aqueduct_test.Parser.Models.{Module, Edge}
use aqueduct_test.Executor.Models.{RetryPolicy, success, skipped}
use aqueduct_test.Executor.Selection.{SelectError}
use aqueduct_test.Executor.Run.Store.{Slot, frame, gate_closed}
use aqueduct_test.Executor.Run.State.{
  Asserted, passed, assert_error, other_error, World, Plan, RunState, Next, goes_on, stop_with, log,
  egress_written, maintained, probed,
}
use aqueduct_test.Executor.Run.Regulator.{gate_open}
use aqueduct_test.Executor.Run.Steps.{module_retry_policy, pass_on}
use aqueduct_test.Executor.Run.Channel.{
  has_spillway_edge, is_incremental, channel_module, registered, defer_column, defer_watermark,
  kept, channel_ran, no_query, channel_call, run_channel,
}
use aqueduct_test.Executor.Run.Branches.{
  observe_ingress, ingress_ran, run_ingress, junction_ran, run_junction, funnel_ran, run_funnel,
  quarantine, asserted, run_assert, on_block, regulate, run_regulator, maintain, egress_ran,
  run_egress, source_of, probe_slot, run_probe,
}
use aqueduct_test.Executor.Run.Touches.{
  Touches, Touches-same, Touches-refl, Touches-trans, Touches-log,
}
use aqueduct_test.Executor.Run.Quiet.{
  if-Touches, measured-Touches, write_checkpoint-Touches, close_out-Touches, put_own-Touches,
  put_spillway-Touches, put_each-Touches, spillway_split-Touches, register-Touches,
  update_watermark-Touches,
}
use aqueduct_test.Executor.Run.Ran.{
  Ran, Ran-finish, Ran-stop_with, Ran-after, handled-Ran, reading-Ran, reading_one-Ran, pass_on-Ran,
  close_own-Closed, close_branches-Ran, close_branches-Closed,
}
use aqueduct_test.Executor.Run.{
  Kind, ingress, egress, channel, junction, funnel, probe, regulator, assert, run_kind,
}

module _ {F : Type 0} (w : World F) (plan : Plan F) (m : Module) where
  ingress_ran-Ran : (df : F) (s : RunState F) → Ran m s (ingress_ran w plan m df s)
  ingress_ran-Ran df s = Ran-finish m success none s _ (
      Touches-trans m.id' s _ _ [] []
        (Touches-same m.id' s (observe_ingress w plan m s) refl refl refl)
        (Touches-trans m.id' _ _ _ [] [] (measured-Touches w plan m _) (
          Touches-trans m.id' _ _ _ [] [] (put_own-Touches w plan m _ _)
            (write_checkpoint-Touches w plan m _ _))))

  run_ingress-Ran : (s : RunState F) → Ran m s (run_ingress w plan m s)
  unfolding run_ingress
  run_ingress-Ran s =
      handled-Ran w plan m _ (close_own-Closed w plan m) (ingress_ran w plan m) ingress_ran-Ran _ s

  module _ (next : RunState F → Next F) (goes : (s : RunState F) → Ran m s (next s)) where
    registered-Ran :
        (column : Value) (egs : Try SelectError (List String)) (s : RunState F)
        → Ran m s (registered w plan m column egs next s)
    registered-Ran column (raises e) s = λ d. d
    registered-Ran column (returns egs) s =
        Ran-after m s _ _ (register-Touches w plan m _ egs s) (goes _)

    if-Ran :
        (b : Bool) (n : Next F) (s : RunState F) → Ran m s n → Ran m s (if b then n else next s)
    if-Ran true n s r = r
    if-Ran false n s r = goes s

    defer_column-Ran :
        (column : Option Value) (s : RunState F) → Ran m s (defer_column w plan m column next s)
    defer_column-Ran none s = goes s
    defer_column-Ran (some column) s =
        if-Ran (truthy? (some column)) _ s (registered-Ran column _ s)

    defer_watermark-Ran : (s : RunState F) → Ran m s (defer_watermark w plan m next s)
    unfolding defer_watermark
    defer_watermark-Ran s =
        if-Ran (is_incremental w plan m) _ s (defer_column-Ran (get "watermark_column" m.config) s)

  channel_ran-Ran : (df : F) (s : RunState F) → Ran m s (channel_ran w plan m df s)
  unfolding channel_ran
  channel_ran-Ran df s = Ran-after m s _ _ (spillway_split-Touches w plan m df s) (
      defer_watermark-Ran _
        (λ s'.
          Ran-finish m success none s' _
            (close_out-Touches w plan m (("data", kept w plan m df) ∷ []) s'))
        _)

  no_query-Ran :
      (policy : Option RetryPolicy) (s : RunState F) → Ran m s (no_query w plan m policy s)
  no_query-Ran none s = λ d. d
  no_query-Ran (some policy) s = λ d. d

  channel_call-Ran :
      (called : Option Module) (upstream : List (String × F)) (s : RunState F)
      → Ran m s (channel_call w plan m upstream called s)
  channel_call-Ran none upstream s = no_query-Ran (module_retry_policy w plan m.on_failure) s
  channel_call-Ran (some called) upstream s =
      handled-Ran w plan m _ (close_own-Closed w plan m) (channel_ran w plan m) channel_ran-Ran _ s

  run_channel-Ran : (edges : List Edge) (s : RunState F) → Ran m s (run_channel w plan m edges s)
  unfolding run_channel
  run_channel-Ran edges s =
      reading-Ran w plan m _ _ _ _ (pass_on-Ran w plan m) _
        (λ upstream s'. channel_call-Ran (channel_module w plan m) upstream s') edges s

  junction_ran-Ran :
      (branches : List (String × F)) (s : RunState F) → Ran m s (junction_ran w plan m branches s)
  junction_ran-Ran branches s = Ran-finish m success none s _ (
      Touches-trans m.id' s _ _ [] [] (measured-Touches w plan m s) (
        Touches-trans m.id' _ _ _ [] [] (put_each-Touches w plan m branches _)
          (write_checkpoint-Touches w plan m branches _)))

  run_junction-Ran : (edges : List Edge) (s : RunState F) → Ran m s (run_junction w plan m edges s)
  unfolding run_junction
  run_junction-Ran edges s =
      reading_one-Ran w plan m _ _ _ _ (close_branches-Ran w plan m) _
        (λ df s'. handled-Ran w plan m _ (close_branches-Closed w plan m) _ junction_ran-Ran _ s')
        edges s

  funnel_ran-Ran : (df : F) (s : RunState F) → Ran m s (funnel_ran w plan m df s)
  funnel_ran-Ran df s = Ran-finish m success none s _ (
      Touches-trans m.id' s _ _ [] [] (measured-Touches w plan m s) (
        Touches-trans m.id' _ _ _ [] [] (put_own-Touches w plan m df _)
          (write_checkpoint-Touches w plan m _ _)))

  run_funnel-Ran : (edges : List Edge) (s : RunState F) → Ran m s (run_funnel w plan m edges s)
  unfolding run_funnel
  run_funnel-Ran edges s =
      reading-Ran w plan m _ _ _ _ (pass_on-Ran w plan m) _
        (λ upstream s'. handled-Ran w plan m _ (close_own-Closed w plan m) _ funnel_ran-Ran _ s')
        edges s

  quarantine-Touches :
      (rows : Option F) (s : RunState F) → Touches m.id' s (quarantine w plan m rows s) []
  quarantine-Touches none s = Touches-refl m.id' s
  quarantine-Touches (some df) s =
      if-Touches w plan m (has_spillway_edge plan.edges m) s _ s
        (put_spillway-Touches w plan m df s) (Touches-refl m.id' s)

  asserted-Ran : (answer : Asserted F) (s : RunState F) → Ran m s (asserted w plan m answer s)
  asserted-Ran (passed df rows) s =
      Ran-finish m success none s _ (
        Touches-trans m.id' s _ _ [] [] (put_own-Touches w plan m df s) (quarantine-Touches rows _))
  asserted-Ran (assert_error text b) s = Ran-stop_with m text b s
  asserted-Ran (other_error text) s = λ d. d

  run_assert-Ran : (edges : List Edge) (s : RunState F) → Ran m s (run_assert w plan m edges s)
  unfolding run_assert
  run_assert-Ran edges s =
      reading_one-Ran w plan m _ _ _ _ (pass_on-Ran w plan m) _
        (λ df s'. asserted-Ran (w.execute_assert m df) s') edges s

  blocked-Ran :
      (b c : Bool) (text text' : String) (s : RunState F)
      → Ran m s (
          if b
          then stop_with m text false s
          else if c
          then stop_with m text' true s
          else pass_on w plan m s)
  blocked-Ran true c text text' s = Ran-stop_with m text false s
  blocked-Ran false true text text' s = Ran-stop_with m text' true s
  blocked-Ran false false text text' s = pass_on-Ran w plan m s

  regulate-Ran :
      (is_open : Option Bool) (df : F) (s : RunState F) → Ran m s (regulate w plan m is_open df s)
  unfolding on_block
  regulate-Ran none df s = λ d. d
  regulate-Ran (some true) df s = Ran-finish m success none s _ (put_own-Touches w plan m df s)
  regulate-Ran (some false) df s =
      blocked-Ran (is_text "abort" (get "on_block" m.config))
        (is_text "trigger_agent" (get "on_block" m.config))
        ("[" <> (m.id' <> "] Regulator gate closed; on_block=abort"))
        ("[" <> (m.id' <> "] Regulator gate closed; on_block=trigger_agent")) s

  run_regulator-Ran :
      (edges : List Edge) (s : RunState F) → Ran m s (run_regulator w plan m edges s)
  unfolding run_regulator
  run_regulator-Ran edges s =
      reading_one-Ran w plan m _ _ _ _ (pass_on-Ran w plan m) _
        (λ df s'. regulate-Ran (gate_open w m) df s') edges s

  maintain-Touches : (s : RunState F) → Touches m.id' s (maintain w plan m s) []
  maintain-Touches s =
      if-Touches w plan m _ s _ s (Touches-log m.id' (maintained m.id') s refl tt)
        (Touches-refl m.id' s)

  egress_ran-Ran : (df : F) (u : Unit {0}) (s : RunState F) → Ran m s (egress_ran w plan m df u s)
  unfolding egress_ran
  egress_ran-Ran df u s =
      let written = Touches-log m.id' (egress_written m.id' df) s refl tt in
      let closed =
        Touches-trans m.id' _ _ _ [] []
          (close_out-Touches w plan m [] (log (egress_written m.id' df) s)) (maintain-Touches _) in
      Ran-finish m success none s _ (
        Touches-trans m.id' s _ _ [] [] written (
          Touches-trans m.id' _ _ _ [] [] closed
            (update_watermark-Touches w plan m _ (df, closed.grows _ (here _ _)))))

  run_egress-Ran : (edges : List Edge) (s : RunState F) → Ran m s (run_egress w plan m edges s)
  unfolding run_egress
  run_egress-Ran edges s =
      reading_one-Ran w plan m _ _ _ _
        (λ s'. Ran-finish m skipped none s' s' (Touches-refl m.id' s')) _
        (λ df s'. handled-Ran w plan m goes_on (Touches-refl m.id') _ (egress_ran-Ran _) _ s') edges
        s

  probe_slot-Touches :
      (slot : Option (Slot F)) (s : RunState F) → Touches m.id' s (probe_slot w plan m slot s) []
  probe_slot-Touches none s = Touches-refl m.id' s
  probe_slot-Touches (some gate_closed) s = Touches-refl m.id' s
  probe_slot-Touches (some (frame df)) s =
      if-Touches w plan m plan.has_store_dir s _ s (Touches-log m.id' (probed m.id' df) s refl tt)
        (Touches-refl m.id' s)

  run_probe-Ran : (s : RunState F) → Ran m s (run_probe w plan m s)
  unfolding run_probe
  run_probe-Ran s =
      Ran-finish m success none s _ (probe_slot-Touches (source_of w plan m.attach_to s) s)

  pub run_kind-Ran : (kind : Kind) (s : RunState F) → Ran m s (run_kind w plan kind m s)
  unfolding run_kind
  run_kind-Ran ingress s = run_ingress-Ran s
  run_kind-Ran channel s = run_channel-Ran _ s
  run_kind-Ran junction s = run_junction-Ran _ s
  run_kind-Ran funnel s = run_funnel-Ran _ s
  run_kind-Ran assert s = run_assert-Ran _ s
  run_kind-Ran regulator s = run_regulator-Ran _ s
  run_kind-Ran egress s = run_egress-Ran _ s
  run_kind-Ran probe s = run_probe-Ran s
