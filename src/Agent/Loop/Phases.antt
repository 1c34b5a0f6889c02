-- ===== src/Agent/Loop/Phases.antt =====
-- Each phase of a round keeps what `Round` says of one.
use aqueduct_test.Base.{◌≡◌, refl, [], ◌∷◌, ◌++◌, ℕ, true, false, String, Option, none, some, List}
use aqueduct_test.Patch.Grammar.{PatchSpec, has_defer}
use aqueduct_test.Agent.Signature.{ErrorSignature}
use aqueduct_test.Agent.Budget.{
  BudgetConfig, solved, deferred, Gate, record_attempt, check_stop, mark_stop,
}
use aqueduct_test.Agent.Budget.Stop.{check_stop-solved}
use aqueduct_test.Agent.Attempt.{LoopState, Cost, add_error, stop_with, note, ask_again, accept}
use aqueduct_test.Agent.Loop.{
  apply_answer, apply_with, apply_phase, apply_rejected, validation, with_feedback,
  validate_rejected,
}
use aqueduct_test.Agent.Loop.Interface.{Env, Options, ApplyReply}
use aqueduct_test.Agent.Loop.Log.{note-IsLogged, note-Spent, note-last}
use aqueduct_test.Agent.Loop.Round.{
  is_accepted, Applied, Outcome, IsEnded, IsRound, IsOpen, rejection-IsRound, Outcome-solved,
  Outcome-deferred,
}

module _ (env : Env) (opts : Options) (budget : BudgetConfig) where
  accept-IsRound :
      (cost : Cost) (s : LoopState) {n : ℕ} {patch : PatchSpec}
      → IsOpen env opts budget s
      → s.tracker.current_attempt ≡ n
      → s.patch_spec ≡ some patch
      → Outcome env opts s.tracker.current_attempt (some patch) (some solved)
      → IsRound env opts budget n (accept env opts cost s)
  unfolding accept check_stop note record_attempt
  accept-IsRound cost s o at has_patch good =
      let l = note-IsLogged env opts budget none none cost s o.logged in
      (
        record {
          logged = record {
            counted = l.counted;
            in_total = l.in_total;
            out_total = l.out_total;
            notices = l.notices;
            configured = l.configured;
          };
          spent = note-Spent env opts budget none none cost s o.pending;
          outcome =
              Outcome-solved env opts budget _ s.patch_spec _ has_patch
                (check_stop-solved (env.clock_check s.tracker.current_attempt)
                  (note env opts none none cost s).tracker o.unstopped
                  (note-last env opts budget none none cost s))
                good;
        },
        at,
      )

  pub edit-IsOpen :
      (errors : List String) (p : Option PatchSpec) (recovery : List String) (s : LoopState)
      → IsOpen env opts budget s
      → IsOpen env opts budget
          (record s { reprompt_errors = errors; patch_spec = p; recovery_applied = recovery })
  edit-IsOpen errors p recovery s o = record {
    logged = record {
      counted = o.logged.counted;
      in_total = o.logged.in_total;
      out_total = o.logged.out_total;
      notices = o.logged.notices;
      configured = o.logged.configured;
    };
    pending = o.pending;
    unstopped = o.unstopped;
  }

  -- A rejection that first adds a line to `reprompt_errors`.
  pub failure-IsRound :
      (friendly raw hint line : String) (sig : ErrorSignature) (gate : Option Gate) (cost : Cost)
      (s : LoopState) {n : ℕ} {patch : Option PatchSpec}
      → IsOpen env opts budget s
      → patch ≡ none
      → s.tracker.current_attempt ≡ n
      → IsRound env opts budget n (
          ask_again env opts friendly raw hint patch
            (note env opts (some sig) gate cost (add_error env opts line s)))
  failure-IsRound friendly raw hint line sig gate cost s o absent at =
      rejection-IsRound env opts budget friendly raw hint _ sig gate cost
        (add_error env opts line s)
        (edit-IsOpen (s.reprompt_errors ++ (line ∷ [])) s.patch_spec s.recovery_applied s o) absent
        at

  pub deferred-IsEnded :
      (cost : Cost) (s : LoopState) {patch : PatchSpec}
      → IsOpen env opts budget s
      → s.patch_spec ≡ some patch
      → (has_defer patch ≡ true) × (opts.allow_defer ≡ true)
      → IsEnded env opts budget (stop_with env opts deferred (note env opts none none cost s))
  unfolding mark_stop note record_attempt
  deferred-IsEnded cost s o has_patch good =
      let l = note-IsLogged env opts budget none none cost s o.logged in
      record {
        logged = record {
          counted = l.counted;
          in_total = l.in_total;
          out_total = l.out_total;
          notices = l.notices;
          configured = l.configured;
        };
        spent = note-Spent env opts budget none none cost s o.pending;
        outcome = Outcome-deferred env opts budget _ s.patch_spec has_patch good;
      }

  apply_rejected-IsRound :
      (raw : String) (cost : Cost) (class message : String) (w : Option String) (s : LoopState)
      {n : ℕ}
      → IsOpen env opts budget s
      → s.tracker.current_attempt ≡ n
      → IsRound env opts budget n (apply_rejected env opts raw cost class message w s)
  unfolding apply_rejected
  apply_rejected-IsRound raw cost class message w s o at =
      failure-IsRound _ raw "" _ _ _ cost s o refl at

  apply_answer-IsRound :
      (raw : String) (cost : Cost) (reply : ApplyReply) (s : LoopState) {n : ℕ} {patch : PatchSpec}
      → IsOpen env opts budget s
      → s.tracker.current_attempt ≡ n
      → s.patch_spec ≡ some patch
      → (is_accepted reply ≡ true
          → Outcome env opts s.tracker.current_attempt (some patch) (some solved))
      → IsRound env opts budget n (apply_answer env opts raw cost reply s)
  unfolding apply_answer
  apply_answer-IsRound raw cost (ApplyReply.answered true _ _ _) s o at has_patch good =
      accept-IsRound cost s o at has_patch (good refl)
  apply_answer-IsRound raw cost (ApplyReply.answered false _ _ _) s o at has_patch good =
      apply_rejected-IsRound raw cost _ _ _ s o at
  apply_answer-IsRound raw cost (ApplyReply.raised _ _) s o at has_patch good =
      apply_rejected-IsRound raw cost _ _ _ s o at

  apply_with-IsRound :
      (callback : Option (ℕ → PatchSpec → ApplyReply)) (raw : String) (cost : Cost)
      (patch : PatchSpec) (s : LoopState) {n : ℕ}
      → IsOpen env opts budget s
      → s.tracker.current_attempt ≡ n
      → s.patch_spec ≡ some patch
      → (Applied callback s.tracker.current_attempt patch
          → Outcome env opts s.tracker.current_attempt (some patch) (some solved))
      → IsRound env opts budget n (apply_with env opts callback raw cost patch s)
  apply_with-IsRound none raw cost patch s o at has_patch good =
      accept-IsRound cost s o at has_patch (good tt)
  apply_with-IsRound (some callback) raw cost patch s o at has_patch good =
      apply_answer-IsRound raw cost (callback s.tracker.current_attempt patch) s o at has_patch good

  pub with_feedback-IsRound :
      (feedback : Option String) (raw : String) (cost : Cost) (patch : PatchSpec) (s : LoopState)
      {n : ℕ}
      → IsOpen env opts budget s
      → s.tracker.current_attempt ≡ n
      → s.patch_spec ≡ some patch
      → has_defer patch ≡ false
      → validation env opts opts.deep_loop env.validate_callback s.tracker.current_attempt patch
        ≡ feedback
      → IsRound env opts budget n (with_feedback env opts feedback raw cost patch s)
  unfolding validate_rejected apply_phase
  with_feedback-IsRound (some text) raw cost patch s o at has_patch no_defer e =
      failure-IsRound _ raw "" _ _ _ cost s o refl at
  with_feedback-IsRound none raw cost patch s o at has_patch no_defer e =
      apply_with-IsRound env.apply_callback raw cost patch s o at has_patch
        (λ applied. (no_defer, e, applied))
