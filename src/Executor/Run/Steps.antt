-- ===== src/Executor/Run/Steps.antt =====
-- aqueduct/executor/spark/executor.py: what the branches of `execute` share: the retried call of a
-- handler and its failure, `_module_retry_policy`, `_write_checkpoint`, and the closed gates.
use aqueduct_test.Base.{
  ℕ, false, ◌&&◌, ◌||◌, String, string_eq, ◌<>◌, if◌then◌else◌, Option, none, some, List, [], ◌∷◌,
}
use aqueduct_test.Patch.Value.{Value, str, arr, obj, Fields, end, field, Items, nil, cons, get}
use aqueduct_test.Parser.Models.{Module, Edge}
use aqueduct_test.Executor.Models.{RetryPolicy, ExecutionResult}
use aqueduct_test.Executor.Retry.{Answer, with_retry}
use aqueduct_test.Executor.Retry as Retry
use aqueduct_test.Executor.Exhaustion.{on_retry_exhausted}
use aqueduct_test.Executor.Run.Store.{
  Slot, frame, gate_closed, put_at, get_at, Input, gated, missing, ready, gather,
}
use aqueduct_test.Executor.Run.State.{
  World, Plan, RunState, Next, goes_on, stops, throws, invalid_on_failure, attribute_error,
  handler_error, skip, stop_with, log, metrics_written, checkpoint_saved, checkpoint_done,
}

-- `str(value)` where the code puts a text or another value into an f-string.
abbrev pub shown : (Value → String) → Value → String
shown show (str s) = s
shown show v = show v

abbrev pub or_empty : (Value → String) → Option Value → String
or_empty show none = ""
or_empty show (some v) = shown show v

-- `[branch.get("id", "") for branch in config.get("branches", [])]`; `none` is an item without
-- `get`.
unfoldable pub ids_in : (Value → String) → Items → Option (List String)
unfolding get
ids_in show nil = some []
ids_in show (cons (obj b) bs) = elim (ids_in show bs) [
  | none ↦ none
  | some rest ↦ some (or_empty show (get "id" b) ∷ rest)
]
ids_in show (cons _ bs) = none

abbrev pub branch_ids : (Value → String) → Option Value → Option (List String)
branch_ids show none = some []
branch_ids show (some (arr bs)) = ids_in show bs
branch_ids show (some _) = none

module _ {F : Type 0} (w : World F) (plan : Plan F) where
  -- `_module_retry_policy`
  abbrev pub module_retry_policy : Option Fields → Option RetryPolicy
  module_retry_policy none = some plan.policy
  module_retry_policy (some end) = some plan.policy
  module_retry_policy (some (field k v fs)) = w.retry_policy (field k v fs)

  abbrev pub url_of : Option Value → Option String
  url_of none = none
  url_of (some v) = some (w.webhook_url v)

  abbrev pub after_exhaustion : Option ExecutionResult → (RunState F → Next F) → RunState F → Next F
  after_exhaustion none close s = close s
  after_exhaustion (some r) close s = stops r.agent_triggered s

  -- The `except` clause, where `close` is what `if gate_closed:` does.
  unfoldable pub on_failure :
      Module → RetryPolicy → (RunState F → Next F) → String → RunState F → Next F
  unfolding on_retry_exhausted
  on_failure m policy close text s =
      let (progress, result) =
        on_retry_exhausted plan.blueprint_id plan.run_id text policy m.id'
          (url_of m.on_failure_webhook) s.progress in
      after_exhaustion result close (record s { progress = progress })

  module _ {A : Type 0} (m : Module) (close : RunState F → Next F)
      (next : A → RunState F → Next F) where
    abbrev pub on_answer : RetryPolicy → Answer A → RunState F → Next F
    on_answer policy (Retry.returns a) s = next a s
    on_answer policy (Retry.raises text) s =
        if w.own_error m text
        then on_failure m policy close text s
        else throws (handler_error text) s

    abbrev pub with_policy : Option RetryPolicy → (ℕ → Answer A) → RunState F → Next F
    with_policy none call s = throws (invalid_on_failure m.id') s
    with_policy (some policy) call s =
        on_answer policy (with_retry call (w.clock m.id') (w.random m.id') w.unit policy).answer s

    -- `_with_retry` under `try`, as Ingress, Channel, Junction, Funnel and Egress have it.
    unfoldable pub handled : (ℕ → Answer A) → RunState F → Next F
    handled call s = with_policy (module_retry_policy m.on_failure) call s

  abbrev pub measured : Module → RunState F → RunState F
  measured m s = if plan.has_observability_store then log (metrics_written m.id') s else s

  -- `_write_checkpoint`: a frame that cannot be saved ends it without the marker.
  unfoldable pub save_each : Module → List (String × F) → RunState F → RunState F
  save_each m [] s = log (checkpoint_done m.id') s
  save_each m ((name, df) ∷ rest) s =
      let later = save_each m rest (log (checkpoint_saved m.id' name) s) in
      if w.can_save m.id' name then later else s

  unfoldable pub write_checkpoint : Module → List (String × F) → RunState F → RunState F
  unfolding save_each
  write_checkpoint m frames s =
      if plan.has_checkpoint_dir && (plan.checkpoint || m.checkpoint)
      then save_each m frames s
      else s

  abbrev pub put_frame : String → F → RunState F → RunState F
  put_frame key df s = record s { frames = put_at key (frame df) s.frames }

  abbrev pub close_key : String → RunState F → RunState F
  close_key key s = record s { frames = put_at key gate_closed s.frames }

  unfoldable pub branch_key : Module → String → String
  branch_key m branch = m.id' <> ("." <> branch)

  unfoldable pub close_each : Module → List String → RunState F → RunState F
  unfolding branch_key
  close_each m [] s = s
  close_each m (b ∷ bs) s = close_each m bs (close_key (branch_key m b) s)

  unfoldable pub put_each : Module → List (String × F) → RunState F → RunState F
  unfolding branch_key
  put_each m [] s = s
  put_each m ((b, df) ∷ rest) s = put_each m rest (put_frame (branch_key m b) df s)

  -- All the branches of a Junction, then what follows.
  abbrev pub closing : Module → (RunState F → Next F) → Option (List String) → RunState F → Next F
  closing m next none s = throws (attribute_error m.id') s
  closing m next (some bs) s = next (close_each m bs s)

  unfoldable pub close_branches : Module → (RunState F → Next F) → RunState F → Next F
  unfolding get
  close_branches m next s = closing m next (branch_ids w.show (get "branches" m.config)) s

  abbrev pub no_frame_text : Module → String → String
  no_frame_text m name =
      "[" <> (m.id' <> ("] upstream " <> (w.repr name <> " produced no DataFrame.")))

  -- A module that reads edges: the guard for none, the closed gate, the missing frame.
  abbrev pub on_input :
      Module
      → (RunState F → Next F)
      → (List (String × F) → RunState F → Next F)
      → Input F
      → RunState F
      → Next F
  on_input m close next gated s = close s
  on_input m close next (missing name) s = stop_with m (no_frame_text m name) false s
  on_input m close next (ready upstream) s = next upstream s

  unfoldable pub reading :
      (key name : Edge → String)
      → String
      → Module
      → List Edge
      → (RunState F → Next F)
      → (List (String × F) → RunState F → Next F)
      → RunState F
      → Next F
  unfolding gather
  reading key name no_edges m [] close next s = stop_with m no_edges false s
  reading key name no_edges m (e ∷ es) close next s =
      on_input m close next (gather key name s.frames (e ∷ es) []) s

  -- The same for a module that reads the first of its edges.
  abbrev pub on_slot :
      String
      → Module
      → (RunState F → Next F)
      → (F → RunState F → Next F)
      → Option (Slot F)
      → RunState F
      → Next F
  on_slot name m close next none s = stop_with m (no_frame_text m name) false s
  on_slot name m close next (some gate_closed) s = close s
  on_slot name m close next (some (frame df)) s = next df s

  unfoldable pub reading_one :
      (key name : Edge → String)
      → String
      → Module
      → List Edge
      → (RunState F → Next F)
      → (F → RunState F → Next F)
      → RunState F
      → Next F
  unfolding get_at
  reading_one key name no_edges m [] close next s = stop_with m no_edges false s
  reading_one key name no_edges m (e ∷ es) close next s =
      on_slot (name e) m close next (get_at (key e) s.frames) s

  -- A closed gate on the input: the sentinel at the module's own key, and `skipped`.
  abbrev pub pass_on : Module → RunState F → Next F
  pass_on m s = goes_on (skip m (close_key m.id' s))

  -- The alert of an exhausted module closes its key too, but adds no second result.
  abbrev pub close_own : Module → RunState F → Next F
  close_own m s = goes_on (close_key m.id' s)
