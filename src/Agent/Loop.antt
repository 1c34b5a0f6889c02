-- ===== src/Agent/Loop.antt =====
-- aqueduct/agent/loop.py: `generate_agent_patch`, one attempt of its loop at a time.
-- The provider, the parser of the answer, the texts sent back, the callbacks and the clock are an
-- interface. Each takes the number of the attempt, so it may answer differently every time.
pub mod Interface
pub mod Log
pub mod Round
pub mod Phases
pub mod Turn
pub mod Heal
pub mod Samples
mod Tests
use mathlib.Core.Option
use aqueduct_test.Base.{
  ℕ, zero, suc, ◌+◌, ◌-◌, min, max, Bool, true, false, ◌&&◌, String, ◌<>◌, string_eq, ◌==◌,
  if◌then◌else◌, Option, none, some, List, [], ◌∷◌, ◌++◌, leb, ltb, Try, returns, raises,
}
use aqueduct_test.Patch.Grammar.{PatchSpec, has_defer}
use aqueduct_test.Agent.Signature.{ErrorSignature}
use aqueduct_test.Agent.Budget.{
  BudgetConfig, Tracker, StopReason, solved, budget_seconds_exceeded, api_error, deferred, Gate,
  schema, apply_gate, validate, provider, over_budget, defer_rejected, AttemptRecord, Report,
  new_tracker, begin_attempt, to_record, record_attempt, check_stop, should_escalate,
  mark_escalated, mark_stop, remaining_seconds,
}
use Interface.{
  Env, Message, user, assistant, Reply, returned, raised, ParseReply, parsed, not_valid, not_json,
  not_a_patch, not_caught, ValidateReply, ApplyReply, Options,
}
use aqueduct_test.Agent.Attempt.{
  AgentPatchResult, Cost, LoopState, Step, done, again, escapes, accept, add_error, ask_again, note,
  or_text, or_text?, stop_with,
}

module _ (env : Env) (opts : Options) where
  open env use {Exc}

  unfoldable pub apply_rejected :
      String → Cost → (class message : String) → Option String → LoopState → Step
  unfolding note ask_again
  apply_rejected raw cost class message where_at s =
      let friendly =
        "Your PatchSpec parsed but was rejected by the apply gate (" <> class <> "): " <> message in
      let sig = env.from_apply_error class message where_at in
      ask_again env opts friendly raw "" none
        (note env opts (some sig) (some apply_gate) cost (add_error env opts friendly s))

  unfoldable pub apply_answer : String → Cost → ApplyReply → LoopState → Step
  unfolding accept apply_rejected
  apply_answer raw cost (ApplyReply.answered true _ _ _) s = accept env opts cost s
  apply_answer raw cost (ApplyReply.answered false class message where_at) s =
      apply_rejected raw cost (or_text? class "apply_error") (or_text? message "(no message)")
        where_at s
  apply_answer raw cost (ApplyReply.raised class message) s =
      apply_rejected raw cost (or_text class "apply_error") (or_text message "(no message)") none s

  abbrev pub apply_with :
      Option (ℕ → PatchSpec → ApplyReply) → String → Cost → PatchSpec → LoopState → Step
  apply_with none raw cost patch s = accept env opts cost s
  apply_with (some callback) raw cost patch s =
      apply_answer raw cost (callback s.tracker.current_attempt patch) s

  unfoldable pub apply_phase : String → Cost → PatchSpec → LoopState → Step
  unfolding accept apply_answer
  apply_phase = apply_with env.apply_callback

  abbrev pub rejected_feedback : ValidateReply → Option String
  rejected_feedback (ValidateReply.answered true _) = none
  rejected_feedback (ValidateReply.answered false feedback) = some feedback
  rejected_feedback (ValidateReply.raised message) = some ("Validation error: " <> message)

  -- The feedback of a rejection, where the validation runs at all.
  abbrev pub validation :
      Bool → Option (ℕ → PatchSpec → ValidateReply) → ℕ → PatchSpec → Option String
  validation true (some callback) n patch = rejected_feedback (callback n patch)
  validation _ _ n patch = none

  unfoldable pub validate_rejected : String → Cost → String → LoopState → Step
  unfolding note ask_again
  validate_rejected raw cost feedback s =
      let sig =
        env.from_apply_error "validation_rejected" (or_text feedback "(no detail)")
          (some "validate") in
      ask_again env opts (or_text feedback "Validation rejected your patch.") raw "" none (
        note env opts (some sig) (some validate) cost
          (add_error env opts ("Validation rejected: " <> feedback) s))

  abbrev pub with_feedback : Option String → String → Cost → PatchSpec → LoopState → Step
  with_feedback (some feedback) raw cost patch s = validate_rejected raw cost feedback s
  with_feedback none raw cost patch s = apply_phase raw cost patch s

  unfoldable pub validate_phase : String → Cost → PatchSpec → LoopState → Step
  unfolding validate_rejected apply_phase
  validate_phase raw cost patch s =
      with_feedback
        (validation opts.deep_loop env.validate_callback s.tracker.current_attempt patch) raw cost
        patch s

  unfoldable pub defer_refused : String → Cost → LoopState → Step
  unfolding note ask_again
  defer_refused raw cost s =
      let friendly =
        "defer_to_human is not enabled for this blueprint. "
        <> "Produce a real PatchSpec with Blueprint-mutating operations." in
      let sig = env.from_apply_error "defer_rejected" friendly (some "loop") in
      ask_again env opts friendly raw "" none
        (note env opts (some sig) (some defer_rejected) cost (add_error env opts friendly s))

  unfoldable pub defer_phase : String → Cost → PatchSpec → LoopState → Step
  unfolding defer_refused note validate_phase has_defer
  defer_phase raw cost patch s =
      if has_defer patch
      then (if opts.allow_defer
          then done (stop_with env opts deferred (note env opts none none cost s))
          else defer_refused raw cost s)
      else validate_phase raw cost patch s

  unfoldable pub parse_failed : String → Cost → Exc → ErrorSignature → LoopState → Step
  unfolding note ask_again
  parse_failed raw cost exc sig s =
      let friendly = env.format_reprompt_error exc raw in
      let s' = note env opts (some sig) (some schema) cost (add_error env opts friendly s) in
      ask_again env opts friendly raw (env.structural_error exc raw) s'.patch_spec s'

  unfoldable pub parse_phase : String → Cost → ParseReply Exc → LoopState → Step
  unfolding parse_failed defer_phase
  parse_phase raw cost (parsed patch recovery) s =
      defer_phase raw cost patch (record s { patch_spec = some patch; recovery_applied = recovery })
  parse_phase raw cost (not_valid e) s = parse_failed raw cost e (env.from_validation_error e) s
  parse_phase raw cost (not_json e) s = parse_failed raw cost e (env.from_json_decode_error e) s
  parse_phase raw cost (not_a_patch e) s = parse_failed raw cost e (env.from_exception e "parse") s
  parse_phase raw cost (not_caught e) s = escapes (env.text_of e)

  abbrev latency_at : ℕ → ℕ
  latency_at n = env.clock_end n - env.clock_start n

  unfoldable pub call_failed : (deadline : ℕ) → Exc → LoopState → Step
  unfolding note
  call_failed deadline exc s =
      let text = env.text_of exc in
      let sig = env.from_exception exc "provider" in
      let latency = latency_at s.tracker.current_attempt in
      let cost : Cost = record { tokens_in = 0; tokens_out = 0; latency = latency } in
      if env.is_timeout exc && ltb deadline opts.timeout
      then done (
          stop_with env opts budget_seconds_exceeded (
            note env opts (some sig) (some over_budget) cost
              (add_error env opts ("Budget seconds exceeded: " <> text) s)))
      else done (
          stop_with env opts api_error (
            note env opts (some sig) (some provider) cost
              (add_error env opts ("API error: " <> text) s)))

  unfoldable pub call_phase : (deadline : ℕ) → Reply Exc → LoopState → Step
  unfolding call_failed parse_phase
  call_phase deadline (raised exc) s = call_failed deadline exc s
  call_phase deadline (returned raw tokens_in tokens_out) s =
      let n = s.tracker.current_attempt in
      parse_phase raw
        (record { tokens_in = tokens_in; tokens_out = tokens_out; latency = latency_at n })
        (env.parse_patch_spec n raw) s

  unfoldable pub no_time_left : LoopState → Step
  unfolding note
  no_time_left s =
      let cost : Cost = record { tokens_in = 0; tokens_out = 0; latency = 0 } in
      done
        (stop_with env opts budget_seconds_exceeded (note env opts none (some over_budget) cost s))

  -- The call of the provider, if the budget leaves it any time.
  unfoldable pub call_within : (deadline : ℕ) → LoopState → Step
  unfolding no_time_left call_phase
  call_within deadline s =
      if leb deadline 0
      then no_time_left s
      else call_phase deadline
          (env.call_agent s.tracker.current_attempt s.messages s.escalate_next deadline) s

  -- The body of `while True`.
  unfoldable pub turn : LoopState → Step
  unfolding begin_attempt call_within
  turn s0 =
      let s = record s0 { tracker = begin_attempt s0.tracker } in
      let now = env.clock_deadline s.tracker.current_attempt in
      call_within (min opts.timeout (remaining_seconds now s.tracker)) s

  abbrev pub after :
      (LoopState → Option (Try String LoopState)) → Step → Option (Try String LoopState)
  after rest (done s) = some (returns s)
  after rest (again s) = rest s
  after rest (escapes text) = some (raises text)

  unfoldable pub run : ℕ → LoopState → Option (Try String LoopState)
  run zero s = none
  run (suc fuel) s = after (run fuel) (turn s)

  unfoldable pub start : BudgetConfig → LoopState
  start budget = record {
    tracker = new_tracker budget env.clock_created;
    messages = user env.first_prompt ∷ [];
    patch_spec = none;
    recovery_applied = [];
    reprompt_errors = [];
    escalate_next = false;
    notified = [];
  }

  -- `recovery_applied if patch_spec is not None else []`
  abbrev if_some : Option PatchSpec → List String → List String
  if_some none names = []
  if_some (some _) names = names

  unfoldable pub to_result : LoopState → AgentPatchResult
  to_result s = record {
    patch = s.patch_spec;
    attempts = s.tracker.current_attempt;
    reprompt_errors = s.reprompt_errors;
    stop_reason = s.tracker.stop_reason;
    tokens_in_total = s.tracker.tokens_in_total;
    tokens_out_total = s.tracker.tokens_out_total;
    attempt_records = s.tracker.attempts;
    escalated = s.tracker.escalated_once;
    recovery_applied = if_some s.patch_spec s.recovery_applied;
  }

  abbrev pub to_answer : Try String LoopState → Try String AgentPatchResult
  to_answer (returns s) = returns (to_result s)
  to_answer (raises text) = raises text

  -- The rounds that `max_reprompts` allows; `none` would mean that they do not suffice. The answer is
  -- the result, or the text of an exception that is not caught.
  unfoldable pub generate_agent_patch : BudgetConfig → Option (Try String AgentPatchResult)
  unfolding run start to_result
  generate_agent_patch budget =
      Option.map to_answer (run (max 1 budget.max_reprompts) (start budget))
