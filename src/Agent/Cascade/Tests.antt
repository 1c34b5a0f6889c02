-- ===== src/Agent/Cascade/Tests.antt =====
-- A cascade of two tiers, and the theorems at it.
use aqueduct_test.Base.{
  ◌≡◌, refl, ℕ, String, Try, returns, eqb, false, string_eq, Option, none, some, [], ◌∷◌,
  if◌then◌else◌,
}
use aqueduct_test.Patch.Grammar.{has_defer}
use aqueduct_test.Agent.Budget.{
  post_init, new_tracker, record_attempt, to_record, check_stop, tripped_axis, last_solved,
  signatures, tail_of, all_like_first, count_of, bump, overall_loop, distinct_hashes,
  same_error_consecutive_tripped, same_signature_overall_tripped, progress_stalled_tripped,
  should_escalate, mark_escalated, mark_stop, remaining_seconds,
}
use aqueduct_test.Agent.Attempt.{AgentPatchResult}
use aqueduct_test.Agent.Loop.{turn, generate_agent_patch}
use aqueduct_test.Agent.Loop.Interface.{Env}
use aqueduct_test.Agent.Loop.Samples.{relabel, world}
use aqueduct_test.Agent.Cascade.{
  CascadeTierConfig, CallConfig, Shared, returned, no_result, run_tier, tier_budget, cascade_from,
  generate_cascade_patch,
}
use aqueduct_test.Agent.Cascade.Escalation.{
  gives_way, cascade_from-gives_way, IsFrom, generate_cascade_patch-IsFrom,
}

-- The first tier never gives a readable answer, the second gives one at its first attempt.
abbrev tiers_world : CallConfig → ℕ → Env
tiers_world call position = world (if eqb position 0 then 9 else 1) relabel

abbrev shared : Shared
shared = record {
  provider = "p";
  base_url = none;
  provider_options = none;
  timeout = 60;
  max_tokens = 100;
  max_reprompts = 5;
  has_on_attempt = false;
}

abbrev tier : CascadeTierConfig
tier = record {
  model = "small";
  provider = none;
  base_url = none;
  provider_options = none;
  timeout = none;
  max_tokens = none;
  max_reprompts = none;
  max_seconds = none;
  deep_loop = none;
  allow_defer = none;
}

abbrev result_or_empty : Option (Try String AgentPatchResult) → AgentPatchResult
result_or_empty (some (returns r)) = r
result_or_empty _ = record {
  patch = none;
  attempts = 0;
  reprompt_errors = [];
  stop_reason = none;
  tokens_in_total = 0;
  tokens_out_total = 0;
  attempt_records = [];
  escalated = false;
  recovery_applied = [];
}

first_heal : AgentPatchResult
unfolding run_tier generate_agent_patch turn record_attempt to_record check_stop tripped_axis
    last_solved signatures tail_of all_like_first count_of bump overall_loop distinct_hashes
    same_error_consecutive_tripped same_signature_overall_tripped progress_stalled_tripped
    should_escalate mark_escalated mark_stop remaining_seconds new_tracker has_defer string_eq
first_heal = result_or_empty (run_tier tiers_world shared 0 tier)

first_heal_lem : run_tier tiers_world shared 0 tier ≡ some (returns first_heal)
unfolding first_heal
first_heal_lem = refl

budget_lem : post_init (tier_budget tiers_world shared tier) ≡ none
unfolding post_init
budget_lem = refl

cascade_from-gives_way_example : cascade_from tiers_world shared 0 (tier ∷ tier ∷ []) no_result ≡ (
    if gives_way first_heal.stop_reason
    then cascade_from tiers_world shared 1 (tier ∷ []) (returned first_heal)
    else returned first_heal)
cascade_from-gives_way_example =
    cascade_from-gives_way tiers_world shared 0 tier (tier ∷ []) no_result first_heal budget_lem
      first_heal_lem

generate_cascade_patch-IsFrom_example :
    IsFrom tiers_world shared
      (tier ∷ tier ∷ [])
      (generate_cascade_patch tiers_world shared (tier ∷ tier ∷ []))
generate_cascade_patch-IsFrom_example =
    generate_cascade_patch-IsFrom tiers_world shared (tier ∷ tier ∷ [])
