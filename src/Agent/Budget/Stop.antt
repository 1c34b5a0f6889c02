-- ===== src/Agent/Budget/Stop.antt =====
-- What `check_stop` says of the axes.
use mathlib.Core.Bool.{false≢true}
use native.Mathlib.Decide.{dec_lt}
use aqueduct_test.Base.{ap, sym, ◌∙◌, ◌≡◌, ◌≢◌, ℕ, ◌≤◌, ◌<◌, true, false, String, none, some, arith}
use aqueduct_test.Agent.Budget.{
  Tracker, StopReason, solved, deferred, progress_stalled, last_solved, tripped_axis, check_stop,
  signatures, same_signature_overall_tripped,
}
use aqueduct_test.Agent.Budget.Axes.{
  count, same_signature_overall_tripped_iff, progress_stalled-count,
}
use aqueduct_test.Agent.Budget.Config.{IsValid}

pub not_looping_lem :
    (t : Tracker) (h : String)
    → IsValid t.config
    → same_signature_overall_tripped t ≡ false
    → count h (signatures t.attempts) < t.config.same_signature_overall
not_looping_lem t h valid quiet =
    let iff = same_signature_overall_tripped_iff t (omega arith) in
    elim (dec_lt (count h (signatures t.attempts)) t.config.same_signature_overall) [
      | yes below ↦ below
      | no reaches ↦ absurd (false≢true (sym quiet ∙ iff.1 (h, omega arith)))
    ]

-- Where the overall bound does not pass the window, the window never decides: a tracker with no
-- reason yet is never given `progress_stalled`.
pub tripped_axis-ne-progress_stalled :
    (now : ℕ) (t : Tracker)
    → IsValid t.config
    → t.config.same_signature_overall ≤ t.config.progress_stalled_window
    → tripped_axis now t ≢ some progress_stalled
unfolding tripped_axis
tripped_axis-ne-progress_stalled now t valid bound e =
    let (h, often) = progress_stalled-count t (omega arith) (ground arith) in
    let quiet : count h (signatures t.attempts) < t.config.same_signature_overall =
      not_looping_lem t h valid (ground arith) in
    omega arith

tripped_axis-last_solved :
    (now : ℕ) (t : Tracker) → last_solved t.attempts ≡ true → tripped_axis now t ≡ some solved
unfolding tripped_axis
tripped_axis-last_solved now t last = ground arith

tripped_axis-ne-solved :
    (now : ℕ) (t : Tracker) → last_solved t.attempts ≡ false → tripped_axis now t ≢ some solved
unfolding tripped_axis
tripped_axis-ne-solved now t last e = ground arith

tripped_axis-ne-deferred : (now : ℕ) (t : Tracker) → tripped_axis now t ≢ some deferred
unfolding tripped_axis
tripped_axis-ne-deferred now t e = ground arith

tripped_axis-attempts :
    (now : ℕ) (t : Tracker) → tripped_axis now t ≡ none → t.current_attempt < t.config.max_reprompts
unfolding tripped_axis
tripped_axis-attempts now t e = ground arith

module _ (now : ℕ) (t : Tracker) (unstopped : t.stop_reason ≡ none) where
  check_stop-eq-axis : (check_stop now t).stop_reason ≡ tripped_axis now t
  unfolding check_stop
  check_stop-eq-axis = ground arith

  -- Where no axis trips, the tracker stays as it is, and an attempt is left.
  pub check_stop-goes_on :
      (check_stop now t).stop_reason ≡ none
      → (check_stop now t ≡ t) × (t.current_attempt < t.config.max_reprompts)
  unfolding check_stop
  check_stop-goes_on quiet = (
    λ i. record t { stop_reason = (quiet ∙ sym unstopped) i },
    tripped_axis-attempts now t (sym check_stop-eq-axis ∙ quiet),
  )

  pub check_stop-solved :
      last_solved t.attempts ≡ true → (check_stop now t).stop_reason ≡ some solved
  check_stop-solved last = check_stop-eq-axis ∙ tripped_axis-last_solved now t last

  -- After a rejected attempt the reason is one of failure.
  pub check_stop-fails :
      last_solved t.attempts ≡ false
      → (r : StopReason) → (check_stop now t).stop_reason ≡ some r
      → (r ≢ solved) × (r ≢ deferred)
  check_stop-fails last r e = (
    λ is_solved. tripped_axis-ne-solved now t last (sym check_stop-eq-axis ∙ e ∙ ap some is_solved),
    λ is_deferred.
        tripped_axis-ne-deferred now t (sym check_stop-eq-axis ∙ e ∙ ap some is_deferred),
  )
