-- ===== src/Agent/Attempt.antt =====
-- aqueduct/agent/loop.py: the state of `generate_agent_patch`, and what one attempt does to it: it is
-- recorded, and it ends the loop or asks again.
use aqueduct_test.Base.{
  ℕ, Bool, true, false, String, string_eq, ◌==◌, if◌then◌else◌, Option, none, some, List, [], ◌∷◌,
  ◌++◌,
}
use aqueduct_test.Patch.Grammar.{PatchSpec}
use aqueduct_test.Agent.Signature.{ErrorSignature}
use aqueduct_test.Agent.Budget.{
  Tracker, StopReason, solved, Gate, AttemptRecord, Report, to_record, record_attempt, check_stop,
  should_escalate, mark_escalated, mark_stop,
}
use aqueduct_test.Agent.Loop.Interface.{Env, Message, user, assistant, Options}

pub record LoopState : Type 0 where
  pub tracker : Tracker
  pub messages : List Message
  pub patch_spec : Option PatchSpec
  pub recovery_applied : List String
  pub reprompt_errors : List String
  pub escalate_next : Bool
  -- The records given to `on_attempt`, which ignores what that callback raises.
  pub notified : List AttemptRecord

-- One round of the loop ends it by `break` or goes on, or an exception with this text leaves it.
pub data Step : Type 0 where
  done : LoopState → Step
  again : LoopState → Step
  escapes : String → Step

pub record AgentPatchResult : Type 0 where
  pub patch : Option PatchSpec
  pub attempts : ℕ
  pub reprompt_errors : List String
  pub stop_reason : Option StopReason
  pub tokens_in_total : ℕ
  pub tokens_out_total : ℕ
  pub attempt_records : List AttemptRecord
  pub escalated : Bool
  pub recovery_applied : List String

-- `text or other`
abbrev pub or_text : String → String → String
or_text text other = if text == "" then other else text

abbrev pub or_text? : Option String → String → String
or_text? none other = other
or_text? (some text) other = or_text text other

-- `stop is not None and stop != "solved"`
abbrev pub stops : Option StopReason → Bool
stops none = false
stops (some solved) = false
stops (some _) = true

-- What the attempt cost: tokens and time.
pub record Cost : Type 0 where
  pub tokens_in : ℕ
  pub tokens_out : ℕ
  pub latency : ℕ

module _ (env : Env) (opts : Options) where
  abbrev pub report_of : Option ErrorSignature → Option Gate → Cost → LoopState → Report
  report_of signature gate cost s = record {
    signature = signature;
    tokens_in = cost.tokens_in;
    tokens_out = cost.tokens_out;
    latency = cost.latency;
    gate_that_rejected = gate;
    escalated = s.escalate_next;
    model_cascade_position = opts.model_cascade_position;
  }

  -- `tracker.record(...)` and then `on_attempt(rec)`.
  unfoldable pub note : Option ErrorSignature → Option Gate → Cost → LoopState → LoopState
  note signature gate cost s =
      let report = report_of signature gate cost s in
      let rec = to_record s.tracker.current_attempt report in
      record s {
        tracker = record_attempt report s.tracker;
        notified = if opts.has_on_attempt then s.notified ++ (rec ∷ []) else s.notified;
      }

  abbrev pub add_error : String → LoopState → LoopState
  add_error e s = record s { reprompt_errors = s.reprompt_errors ++ (e ∷ []) }

  abbrev pub stop_with : StopReason → LoopState → LoopState
  stop_with r s = record s { tracker = mark_stop r s.tracker }

  abbrev say : String → String → LoopState → LoopState
  say raw text s = record s { messages = s.messages ++ (assistant raw ∷ user text ∷ []) }

  -- The end of each branch that rejects an answer: stop, or decide on escalation and ask again.
  unfoldable pub go_on :
      (friendly raw hint : String) → Option PatchSpec → Tracker → LoopState → Step
  go_on friendly raw hint patch checked s =
      let escalate = should_escalate checked in
      let text = env.format_for_next_turn friendly raw escalate hint in
      again (
        say raw text (record s {
          tracker = if escalate then mark_escalated checked else checked;
          escalate_next = escalate;
          patch_spec = patch;
        }))

  unfoldable pub ask_again : (friendly raw hint : String) → Option PatchSpec → LoopState → Step
  unfolding go_on
  ask_again friendly raw hint patch s =
      let checked = check_stop (env.clock_check s.tracker.current_attempt) s.tracker in
      if stops checked.stop_reason
      then done (record s { tracker = checked; patch_spec = none })
      else go_on friendly raw hint patch checked s

  -- An answer that is accepted ends the loop.
  unfoldable pub accept : Cost → LoopState → Step
  unfolding note
  accept cost s =
      let s' = note none none cost s in
      done
        (record s' { tracker = check_stop (env.clock_check s'.tracker.current_attempt) s'.tracker })
