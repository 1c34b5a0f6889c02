-- ===== src/Executor/Retry/Tests.antt =====
-- Runs of `_with_retry`, and its theorems at those runs.
use aqueduct_test.Base.{
  ◌≡◌, refl, ℕ, ◌*◌, ◌≤◌, ◌<◌, true, String, string_eq, none, [], ◌∷◌, All, ltb, if◌then◌else◌,
  arith,
}
use aqueduct_test.Executor.Models.{RetryPolicy, exponential, abort}
use aqueduct_test.Executor.Retry.{Answer, returns, raises, with_retry, is_retriable}
use aqueduct_test.Executor.Retry.Calls.{with_retry-returns}
use aqueduct_test.Executor.Retry.Backoffs.{with_retry-sleeps}

abbrev policy : RetryPolicy
policy = record {
  max_attempts = 4;
  backoff_strategy = exponential;
  backoff_base_seconds = 30;
  backoff_max_seconds = 100;
  jitter = true;
  on_exhaustion = abort;
  transient_errors = "lost" ∷ [];
  non_transient_errors = "denied" ∷ [];
  deadline_seconds = none;
}

-- The first two calls fail.
abbrev flaky : ℕ → Answer ℕ
flaky n = if ltb n 2 then raises "executor lost" else returns 7

abbrev still : ℕ → ℕ
still n = 0

flaky_run :
    with_retry flaky still still 1 policy
    ≡ record { answer = returns 7; calls = 3; sleeps = 30 ∷ 60 ∷ [] }
unfolding with_retry
flaky_run = refl

denied_run :
    with_retry {A = ℕ} (λ n. raises "access denied: lost") still still 1 policy
    ≡ record { answer = raises "access denied: lost"; calls = 1; sleeps = [] }
unfolding with_retry
denied_run = refl

lost_IsRetriable : is_retriable "executor lost" policy ≡ true
unfolding is_retriable
lost_IsRetriable = refl

flaky_before :
    (j : ℕ) → j < 2 → (text : String) × (flaky j ≡ raises text) × (is_retriable text policy ≡ true)
flaky_before j h = ("executor lost", ground arith, lost_IsRetriable)

with_retry-returns_example :
    ((with_retry flaky still still 1 policy).answer ≡ returns 7)
    × ((with_retry flaky still still 1 policy).calls ≡ 3)
with_retry-returns_example =
    with_retry-returns flaky still still 1 policy 2 7 refl (omega arith) refl flaky_before

with_retry-sleeps_example :
    All (λ t. t ≤ 100 * (2 * 1)) (with_retry flaky still still 1 policy).sleeps
with_retry-sleeps_example = with_retry-sleeps flaky still still 1 policy (λ n. omega arith)
