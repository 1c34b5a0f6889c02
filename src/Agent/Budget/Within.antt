-- ===== src/Agent/Budget/Within.antt =====
-- When `check_stop` lets a heal go on.
use aqueduct_test.Base.{
  ◌≡◌, refl, ◌↔◌, sym, ◌∙◌, ℕ, ◌+◌, ◌-◌, ◌<◌, Bool, true, false, String, string_eq, Option, none,
  some, leb, arith,
}
use mathlib.Core.Bool.{false≢true}
use aqueduct_test.Agent.Budget.{
  Tracker, last_solved, over_tokens, tripped_axis, check_stop, signatures,
  same_signature_overall_tripped, same_error_consecutive_tripped, progress_stalled_tripped,
}
use aqueduct_test.Agent.Budget.Axes.{count, same_signature_overall_tripped_iff}
use aqueduct_test.Agent.Budget.Tails.{
  EndsAlike, EndsSolved, same_error_consecutive_tripped_iff, progress_stalled_tripped_iff,
  last_solved_iff,
}
use aqueduct_test.Agent.Budget.Stop.{not_looping_lem}
use aqueduct_test.Agent.Budget.Config.{IsValid}

abbrev pub TokensLeft : Option ℕ → ℕ → Type 0
TokensLeft none total = Unit
TokensLeft (some cap) total = total < cap

-- What a heal that goes on has kept to.
pub record IsWithin (now : ℕ) (t : Tracker) : Type 0 where
  pub unsolved : ¬ EndsSolved t.attempts
  pub attempts_left : t.current_attempt < t.config.max_reprompts
  pub time_left : now - t.started_at < t.config.max_seconds
  pub tokens_left : TokensLeft t.config.max_tokens_total (t.tokens_in_total + t.tokens_out_total)
  pub not_looping : (h : String) → count h (signatures t.attempts) < t.config.same_signature_overall
  pub moving : (h : String) → ¬ EndsAlike t.config.progress_stalled_window h (signatures t.attempts)
  pub not_repeating :
      t.escalated_once ≡ true
      → (h : String) → ¬ EndsAlike t.config.same_error_consecutive h (signatures t.attempts)

over_tokens_iff :
    (cap : Option ℕ) (total : ℕ) → (over_tokens cap total ≡ false) ↔ TokensLeft cap total
over_tokens_iff none total = (λ h. tt, λ h. refl)
over_tokens_iff (some cap) total = (λ h. ground arith, λ h. ground arith)

false-of : {P : Type 0} (b : Bool) → (b ≡ true → P) → ¬ P → b ≡ false
false-of true holds not_so = absurd (not_so (holds refl))
false-of false holds not_so = refl

-- No axis trips.
record IsQuiet (now : ℕ) (t : Tracker) : Type 0 where
  solved : last_solved t.attempts ≡ false
  reprompts : leb t.config.max_reprompts t.current_attempt ≡ false
  seconds : leb t.config.max_seconds (now - t.started_at) ≡ false
  tokens : over_tokens t.config.max_tokens_total (t.tokens_in_total + t.tokens_out_total) ≡ false
  overall : same_signature_overall_tripped t ≡ false
  window : progress_stalled_tripped t ≡ false
  consecutive : t.escalated_once ≡ true → same_error_consecutive_tripped t ≡ false

tripped_axis-none : (now : ℕ) (t : Tracker) → tripped_axis now t ≡ none → IsQuiet now t
unfolding tripped_axis
tripped_axis-none now t e = record {
  solved = ground arith;
  reprompts = ground arith;
  seconds = ground arith;
  tokens = ground arith;
  overall = ground arith;
  window = ground arith;
  consecutive = λ once. ground arith;
}

IsQuiet-tripped_axis : (now : ℕ) (t : Tracker) → IsQuiet now t → tripped_axis now t ≡ none
unfolding tripped_axis
IsQuiet-tripped_axis now t q =
    let consecutive = q.consecutive in
    rw (q.solved, q.reprompts, q.seconds, q.tokens, q.overall, q.window) (ground arith)

module _ (now : ℕ) (t : Tracker) (valid : IsValid t.config) where
  IsQuiet-IsWithin : IsQuiet now t → IsWithin now t
  IsQuiet-IsWithin q = record {
    unsolved = λ ends. false≢true (sym q.solved ∙ (last_solved_iff t.attempts).1 ends);
    attempts_left = let h = q.reprompts in ground arith;
    time_left = let h = q.seconds in ground arith;
    tokens_left = (over_tokens_iff t.config.max_tokens_total _).0 q.tokens;
    not_looping = λ h. not_looping_lem t h valid q.overall;
    moving = λ h alike. false≢true (
        sym q.window ∙ (progress_stalled_tripped_iff t (omega (arith, valid.window))).1 (h, alike));
    not_repeating = λ once h alike. false≢true (
        sym (q.consecutive once)
        ∙ (same_error_consecutive_tripped_iff t (omega (arith, valid.consecutive))).1 (h, alike));
  }

  IsWithin-IsQuiet : IsWithin now t → IsQuiet now t
  IsWithin-IsQuiet w = record {
    solved = false-of (last_solved t.attempts) (last_solved_iff t.attempts).0 w.unsolved;
    reprompts = let h = w.attempts_left in ground arith;
    seconds = let h = w.time_left in ground arith;
    tokens = (over_tokens_iff t.config.max_tokens_total _).1 w.tokens_left;
    overall =
        false-of (same_signature_overall_tripped t)
          (same_signature_overall_tripped_iff t (omega (arith, valid.consecutive, valid.overall))).0
          (λ (h, often). let few = w.not_looping h in omega arith);
    window =
        false-of (progress_stalled_tripped t)
          (progress_stalled_tripped_iff t (omega (arith, valid.window))).0
          (λ (h, alike). w.moving h alike);
    consecutive = λ once.
        false-of (same_error_consecutive_tripped t)
          (same_error_consecutive_tripped_iff t (omega (arith, valid.consecutive))).0
          (λ (h, alike). w.not_repeating once h alike);
  }

  check_stop-axis : t.stop_reason ≡ none → (check_stop now t).stop_reason ≡ tripped_axis now t
  unfolding check_stop
  check_stop-axis unstopped = ground arith

  -- For a tracker with a valid config and no reason yet, `check_stop` gives none exactly if: the last
  -- attempt was rejected or there is none; attempts, time and tokens are left; no hash has been seen
  -- as often as the overall bound says; the signatures that fill the window are not all alike; and,
  -- once an attempt was escalated, neither are the last ones, as many as the consecutive bound says.
  pub check_stop_iff :
      t.stop_reason ≡ none → ((check_stop now t).stop_reason ≡ none) ↔ IsWithin now t
  check_stop_iff unstopped =
      let same = check_stop-axis unstopped in
      (
        λ goes_on. IsQuiet-IsWithin (tripped_axis-none now t (sym same ∙ goes_on)),
        λ within. same ∙ IsQuiet-tripped_axis now t (IsWithin-IsQuiet within),
      )
