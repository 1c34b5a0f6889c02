-- ===== src/Agent/Loop/Turn.antt =====
-- From the answer of the provider to the end of a round.
use aqueduct_test.Base.{
  ◌≡◌, refl, subst, ◌≢◌, ℕ, ◌+◌, String, Option, none, some, ltb, leb, ◌&&◌, arith,
}
use aqueduct_test.Patch.Grammar.{PatchSpec, has_defer}
use aqueduct_test.Agent.Signature.{ErrorSignature}
use aqueduct_test.Agent.Budget.{
  BudgetConfig, StopReason, solved, budget_seconds_exceeded, api_error, deferred, Gate,
  begin_attempt, record_attempt, mark_stop,
}
use aqueduct_test.Agent.Attempt.{LoopState, Cost, stop_with, note}
use aqueduct_test.Agent.Loop.{
  validate_phase, defer_refused, defer_phase, parse_failed, parse_phase, call_failed, call_phase,
  call_within, no_time_left, turn,
}
use aqueduct_test.Agent.Loop.Interface.{
  Env, Options, ParseReply, parsed, not_valid, not_json, not_a_patch, not_caught, Reply, returned,
  raised,
}
use aqueduct_test.Agent.Loop.Log.{note-IsLogged, note-Spent}
use aqueduct_test.Agent.Loop.Round.{
  IsEscape, IsRunning, IsEnded, IsRound, IsOpen, IsRound-if, Outcome-failed,
}
use aqueduct_test.Agent.Loop.Phases.{
  deferred-IsEnded, edit-IsOpen, failure-IsRound, with_feedback-IsRound,
}

module _ (env : Env) (opts : Options) (budget : BudgetConfig) where
  defer_phase-IsRound :
      (raw : String) (cost : Cost) (patch : PatchSpec) (s : LoopState) {n : ℕ}
      → IsOpen env opts budget s
      → s.tracker.current_attempt ≡ n
      → s.patch_spec ≡ some patch
      → IsRound env opts budget n (defer_phase env opts raw cost patch s)
  unfolding defer_phase defer_refused validate_phase mark_stop record_attempt note
  defer_phase-IsRound raw cost patch s o at has_patch =
      IsRound-if env opts budget _ (has_defer patch) _ _
        (λ deferring.
          IsRound-if env opts budget _ opts.allow_defer _ _
            (λ allowed.
              (deferred-IsEnded env opts budget cost s o has_patch (deferring, allowed), at))
            (λ _. failure-IsRound env opts budget _ raw "" _ _ _ cost s o refl at))
        (λ no_defer.
          with_feedback-IsRound env opts budget _ raw cost patch s o at has_patch no_defer refl)

  parse_phase-IsRound :
      (raw : String) (cost : Cost) (reply : ParseReply env.Exc) (s : LoopState) {n : ℕ}
      → env.parse_patch_spec s.tracker.current_attempt raw ≡ reply
      → IsOpen env opts budget s
      → s.tracker.current_attempt ≡ n
      → s.patch_spec ≡ none
      → IsRound env opts budget n (parse_phase env opts raw cost reply s)
  unfolding parse_phase parse_failed note
  parse_phase-IsRound raw cost (parsed patch recovery) s read o at absent =
      defer_phase-IsRound raw cost patch _
        (edit-IsOpen env opts budget s.reprompt_errors (some patch) recovery s o) at refl
  parse_phase-IsRound raw cost (not_valid e) s read o at absent =
      failure-IsRound env opts budget _ raw _ _ _ _ cost s o absent at
  parse_phase-IsRound raw cost (not_json e) s read o at absent =
      failure-IsRound env opts budget _ raw _ _ _ _ cost s o absent at
  parse_phase-IsRound raw cost (not_a_patch e) s read o at absent =
      failure-IsRound env opts budget _ raw _ _ _ _ cost s o absent at
  parse_phase-IsRound raw cost (not_caught e) s read o at absent =
      subst (λ k. IsEscape env opts budget k (env.text_of e)) at (raw, e, read, refl)

  -- A break with a reason of failure, after a record.
  broken-IsEnded :
      (r : StopReason) (sig : Option ErrorSignature) (gate : Option Gate) (cost : Cost)
      (s : LoopState)
      → IsOpen env opts budget s
      → s.patch_spec ≡ none
      → (r ≢ solved) × (r ≢ deferred)
      → IsEnded env opts budget (stop_with env opts r (note env opts sig gate cost s))
  unfolding mark_stop note record_attempt
  broken-IsEnded r sig gate cost s o absent fails =
      let l = note-IsLogged env opts budget sig gate cost s o.logged in
      record {
        logged = record {
          counted = l.counted;
          in_total = l.in_total;
          out_total = l.out_total;
          notices = l.notices;
          configured = l.configured;
        };
        spent = note-Spent env opts budget sig gate cost s o.pending;
        outcome = Outcome-failed env opts budget _ s.patch_spec absent fails;
      }

  call_failed-IsRound :
      (deadline : ℕ) (exc : env.Exc) (s : LoopState) {n : ℕ}
      → IsOpen env opts budget s
      → s.tracker.current_attempt ≡ n
      → s.patch_spec ≡ none
      → IsRound env opts budget n (call_failed env opts deadline exc s)
  unfolding call_failed mark_stop note record_attempt
  call_failed-IsRound deadline exc s o at absent =
      IsRound-if env opts budget _ (env.is_timeout exc && ltb deadline opts.timeout) _ _
        (λ _. (
          broken-IsEnded budget_seconds_exceeded _ _ _ _
              (edit-IsOpen env opts budget _ s.patch_spec s.recovery_applied s o) absent
              (ground arith, ground arith),
          at,
        ))
        (λ _. (
          broken-IsEnded api_error _ _ _ _
              (edit-IsOpen env opts budget _ s.patch_spec s.recovery_applied s o) absent
              (ground arith, ground arith),
          at,
        ))

  call_phase-IsRound :
      (deadline : ℕ) (reply : Reply env.Exc) (s : LoopState) {n : ℕ}
      → IsOpen env opts budget s
      → s.tracker.current_attempt ≡ n
      → s.patch_spec ≡ none
      → IsRound env opts budget n (call_phase env opts deadline reply s)
  unfolding call_phase
  call_phase-IsRound deadline (raised exc) s o at absent =
      call_failed-IsRound deadline exc s o at absent
  call_phase-IsRound deadline (returned raw tokens_in tokens_out) s o at absent =
      parse_phase-IsRound raw _ (env.parse_patch_spec s.tracker.current_attempt raw) s refl o at
        absent

  no_time_left-IsRound :
      (s : LoopState) {n : ℕ}
      → IsOpen env opts budget s
      → s.tracker.current_attempt ≡ n
      → s.patch_spec ≡ none
      → IsRound env opts budget n (no_time_left env opts s)
  unfolding no_time_left mark_stop note record_attempt
  no_time_left-IsRound s o at absent =
      (broken-IsEnded budget_seconds_exceeded none _ _ s o absent (ground arith, ground arith), at)

  call_within-IsRound :
      (deadline : ℕ) (s : LoopState) {n : ℕ}
      → IsOpen env opts budget s
      → s.tracker.current_attempt ≡ n
      → s.patch_spec ≡ none
      → IsRound env opts budget n (call_within env opts deadline s)
  unfolding call_within
  call_within-IsRound deadline s o at absent =
      let reply = env.call_agent s.tracker.current_attempt s.messages s.escalate_next deadline in
      IsRound-if env opts budget _ (leb deadline 0) (no_time_left env opts s)
        (call_phase env opts deadline reply s) (λ _. no_time_left-IsRound s o at absent)
        (λ _. call_phase-IsRound deadline reply s o at absent)

  -- Every round from a running state is a round of the next attempt.
  pub turn-IsRound :
      (s : LoopState)
      → IsRunning env opts budget s
      → IsRound env opts budget (s.tracker.current_attempt + 1) (turn env opts s)
  unfolding turn begin_attempt
  turn-IsRound s r =
      let o : IsOpen env opts budget (record s { tracker = begin_attempt s.tracker }) = record {
        logged = record {
          counted = omega (arith, r.logged.counted);
          in_total = r.logged.in_total;
          out_total = r.logged.out_total;
          notices = r.logged.notices;
          configured = r.logged.configured;
        };
        pending = r.pending;
        unstopped = r.unstopped;
      } in
      call_within-IsRound _ (record s { tracker = begin_attempt s.tracker }) o refl r.no_patch
