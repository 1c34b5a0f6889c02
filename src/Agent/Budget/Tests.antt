-- ===== src/Agent/Budget/Tests.antt =====
-- The budget's theorems at small trackers.
use aqueduct_test.Base.{
  ◌≡◌, refl, ◌≢◌, ◌↔◌, ℕ, ◌≤◌, true, false, String, string_eq, none, some, List, [], ◌∷◌, arith,
}
use aqueduct_test.Agent.Budget.{
  default_budget, post_init, AttemptRecord, Tracker, progress_stalled, schema, signatures, count_of,
  bump, overall_loop, same_signature_overall_tripped, tail_of, distinct_hashes,
  progress_stalled_tripped, all_like_first, same_error_consecutive_tripped, last_solved,
  tripped_axis, check_stop,
}
use aqueduct_test.Agent.Budget.Axes.{count, same_signature_overall_tripped_iff}
use aqueduct_test.Agent.Budget.Config.{IsValid, post_init_iff}
use aqueduct_test.Agent.Budget.Stop.{tripped_axis-ne-progress_stalled}
use aqueduct_test.Agent.Budget.Within.{IsWithin, check_stop_iff}

abbrev failed : ℕ → String → AttemptRecord
failed n hash = record {
  attempt_num = n;
  signature = some (record {
    error_class = "value_error";
    where_at = "<root>";
    normalized_message = hash;
    hash = hash;
  });
  tokens_in = 10;
  tokens_out = 1;
  latency = 1;
  gate_that_rejected = some schema;
  escalated = false;
  model_cascade_position = none;
}

abbrev tracker : List AttemptRecord → ℕ → Tracker
tracker attempts n = record {
  config = default_budget;
  started_at = 0;
  attempts = attempts;
  tokens_in_total = 30;
  tokens_out_total = 3;
  escalated_once = false;
  current_attempt = n;
  stop_reason = none;
}

abbrev mixed : Tracker
mixed = tracker (failed 1 "a" ∷ failed 2 "b" ∷ failed 3 "a" ∷ []) 3

abbrev alike : Tracker
alike = tracker (failed 1 "a" ∷ failed 2 "a" ∷ failed 3 "a" ∷ []) 3

axes : Unit {0}
unfolding check_stop tripped_axis last_solved signatures count_of bump overall_loop
    same_signature_overall_tripped tail_of distinct_hashes progress_stalled_tripped all_like_first
    same_error_consecutive_tripped string_eq
axes = tt

mixed_goes_on : (check_stop 10 mixed).stop_reason ≡ none
unfolding axes
mixed_goes_on = refl

alike_trips : same_signature_overall_tripped alike ≡ true
unfolding axes
alike_trips = refl

default_budget-IsValid : IsValid default_budget
default_budget-IsValid = omega arith

same_signature_overall_tripped_iff_example :
    (same_signature_overall_tripped alike ≡ true)
    ↔ ((h : String) × (3 ≤ count h (signatures alike.attempts)))
same_signature_overall_tripped_iff_example = same_signature_overall_tripped_iff alike (omega arith)

post_init_iff_example : (post_init default_budget ≡ none) ↔ IsValid default_budget
post_init_iff_example = post_init_iff default_budget

check_stop_iff_example : ((check_stop 10 mixed).stop_reason ≡ none) ↔ IsWithin 10 mixed
check_stop_iff_example = check_stop_iff 10 mixed default_budget-IsValid refl

tripped_axis-ne-progress_stalled_example : tripped_axis 10 alike ≢ some progress_stalled
tripped_axis-ne-progress_stalled_example =
    tripped_axis-ne-progress_stalled 10 alike default_budget-IsValid (omega arith)
