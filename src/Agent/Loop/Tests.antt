-- ===== src/Agent/Loop/Tests.antt =====
-- Runs of the loop over a small environment, and its theorems at those runs.
use aqueduct_test.Base.{
  ◌≡◌, refl, ℕ, Bool, true, false, Option, none, some, [], String, string_eq, eqb, if◌then◌else◌,
  Try, returns, raises,
}
use aqueduct_test.Agent.Loop.Interface.{Env, not_json, not_caught}
use aqueduct_test.Patch.Grammar.{has_defer}
use aqueduct_test.Agent.Budget.{
  default_budget, deferred, new_tracker, record_attempt, to_record, check_stop, tripped_axis,
  last_solved, signatures, tail_of, all_like_first, count_of, bump, overall_loop, distinct_hashes,
  same_error_consecutive_tripped, same_signature_overall_tripped, progress_stalled_tripped,
  should_escalate, mark_escalated, mark_stop, remaining_seconds,
}
use aqueduct_test.Agent.Attempt.{AgentPatchResult}
use aqueduct_test.Agent.Loop.{turn, generate_agent_patch}
use aqueduct_test.Agent.Loop.Log.{to_ℕ, count_escalated}
use aqueduct_test.Agent.Loop.Samples.{relabel, deferral, world, options}
use aqueduct_test.Agent.Loop.Round.{Outcome}
use aqueduct_test.Agent.Loop.Heal.{
  IsAccounted, generate_agent_patch-Outcome, generate_agent_patch_escalates_once,
  generate_agent_patch-IsAccounted,
}

program : Unit {0}
unfolding generate_agent_patch turn record_attempt to_record check_stop tripped_axis last_solved
    signatures tail_of all_like_first count_of bump overall_loop distinct_hashes
    same_error_consecutive_tripped same_signature_overall_tripped progress_stalled_tripped
    should_escalate mark_escalated mark_stop remaining_seconds new_tracker has_defer string_eq
program = tt

abbrev outcome : Option (Try String AgentPatchResult) → Option (ℕ × Bool)
outcome none = none
outcome (some (raises text)) = none
outcome (some (returns r)) = some (r.attempts, r.escalated)

-- Two answers alike escalate the third attempt, which succeeds.
third_time :
    outcome (generate_agent_patch (world 3 relabel) options default_budget) ≡ some (3, true)
unfolding program
third_time = refl

-- Without a readable answer the third alike is one too many.
stuck : outcome (generate_agent_patch (world 9 relabel) options default_budget) ≡ some (3, true)
unfolding program
stuck = refl

abbrev result_or_empty : Option (Try String AgentPatchResult) → AgentPatchResult
result_or_empty (some (returns r)) = r
result_or_empty _ = record {
  patch = none;
  attempts = 0;
  reprompt_errors = [];
  stop_reason = none;
  tokens_in_total = 0;
  tokens_out_total = 0;
  attempt_records = [];
  escalated = false;
  recovery_applied = [];
}

healed : AgentPatchResult
unfolding program
healed = result_or_empty (generate_agent_patch (world 3 relabel) options default_budget)

healed_lem : generate_agent_patch (world 3 relabel) options default_budget ≡ some (returns healed)
unfolding healed
healed_lem = refl

put_off : AgentPatchResult
unfolding program
put_off = result_or_empty (generate_agent_patch (world 2 deferral) options default_budget)

put_off_lem :
    generate_agent_patch (world 2 deferral) options default_budget ≡ some (returns put_off)
unfolding put_off
put_off_lem = refl

put_off_kept :
    (put_off.patch ≡ some deferral) × (put_off.stop_reason ≡ some deferred) × (put_off.attempts ≡ 2)
unfolding put_off
put_off_kept = (refl, refl, refl)

-- An exception that is not caught leaves the heal at its second attempt.
abbrev crashing : Env
crashing = record (world 9 relabel) {
  parse_patch_spec = λ n raw. if eqb n 2 then not_caught "unhashable" else not_json "line 1";
}

crashes : generate_agent_patch crashing options default_budget ≡ some (raises "unhashable")
unfolding program
crashes = refl

generate_agent_patch-Outcome_example :
    Outcome (world 3 relabel) options healed.attempts healed.patch healed.stop_reason
generate_agent_patch-Outcome_example =
    generate_agent_patch-Outcome (world 3 relabel) options default_budget healed healed_lem

generate_agent_patch_escalates_once_example :
    count_escalated healed.attempt_records ≡ to_ℕ healed.escalated
generate_agent_patch_escalates_once_example =
    generate_agent_patch_escalates_once (world 3 relabel) options default_budget healed healed_lem

generate_agent_patch-IsAccounted_example : IsAccounted healed
generate_agent_patch-IsAccounted_example =
    generate_agent_patch-IsAccounted (world 3 relabel) options default_budget healed healed_lem
