-- ===== src/Executor/Retry/Backoffs.antt =====
-- How long `_with_retry` sleeps.
use aqueduct_test.Base.{ℕ, zero, suc, ◌+◌, ◌*◌, ◌≤◌, max, String, Option, none, arith, All}
use aqueduct_test.Executor.Models.{RetryPolicy}
use aqueduct_test.Executor.Retry.{
  Answer, returns, raises, Retried, capped_delay, backoff_seconds, on_answer, retry_loop,
  with_retry,
}

mul-le : (d a b : ℕ) → a ≤ b → d * a ≤ d * b
mul-le d a b h = grind arith

-- A sleep is at least half the capped delay and at most all of it, and so at most the maximum.
pub backoff_seconds_bounds :
    (unit random attempt : ℕ) (policy : RetryPolicy)
    → random ≤ unit
    → (capped_delay attempt policy * unit ≤ backoff_seconds unit random attempt policy)
      × (backoff_seconds unit random attempt policy ≤ capped_delay attempt policy * (2 * unit))
unfolding backoff_seconds
backoff_seconds_bounds unit random attempt policy h = ground (
  arith,
  mul-le (capped_delay attempt policy) unit (unit + random),
  mul-le (capped_delay attempt policy) unit (2 * unit),
  mul-le (capped_delay attempt policy) (unit + random) (2 * unit),
)

capped_delay-le :
    (attempt : ℕ) (policy : RetryPolicy) → capped_delay attempt policy ≤ policy.backoff_max_seconds
unfolding capped_delay
capped_delay-le attempt policy = omega arith

mul-le_left : (d a b : ℕ) → a ≤ b → a * d ≤ b * d
mul-le_left d a b h = grind arith

module _ {A : Type 0} (fn : ℕ → Answer A) (clock random : ℕ → ℕ) (unit : ℕ) (policy : RetryPolicy)
    (small : (n : ℕ) → random n ≤ unit) where
  abbrev AtMost : ℕ → Type 0
  AtMost t = t ≤ policy.backoff_max_seconds * (2 * unit)

  sleep-AtMost : (attempt : ℕ) → AtMost (backoff_seconds unit (random attempt) attempt policy)
  sleep-AtMost attempt = omega (
    arith,
    backoff_seconds_bounds unit (random attempt) attempt policy (small attempt),
    mul-le_left (2 * unit) _ _ (capped_delay-le attempt policy),
  )

  on_answer-AtMost :
      (answer : Answer A) (attempt : ℕ) (first : Option ℕ) (rest : String → Retried A)
      → ((text : String) → All AtMost (rest text).sleeps)
      → All AtMost (on_answer fn clock random unit policy answer attempt first rest).sleeps
  on_answer-AtMost (returns a) attempt first rest h = tt
  on_answer-AtMost (raises text) attempt first rest h = ground (arith, h text, sleep-AtMost attempt)

  retry_loop-AtMost :
      (left attempt : ℕ) (first : Option ℕ) (text : String)
      → All AtMost (retry_loop fn clock random unit policy left attempt first text).sleeps
  unfolding retry_loop
  retry_loop-AtMost zero attempt first text = tt
  retry_loop-AtMost (suc left) attempt first text =
      on_answer-AtMost (fn attempt) attempt first _ (λ t. retry_loop-AtMost left (attempt + 1) _ t)

-- No sleep is longer than `backoff_max_seconds`, for random numbers of at most 1.
pub with_retry-sleeps :
    {A : Type 0} (fn : ℕ → Answer A) (clock random : ℕ → ℕ) (unit : ℕ) (policy : RetryPolicy)
    → ((n : ℕ) → random n ≤ unit)
    → All
        (λ t. t ≤ policy.backoff_max_seconds * (2 * unit))
        (with_retry fn clock random unit policy).sleeps
unfolding with_retry
with_retry-sleeps fn clock random unit policy small =
    retry_loop-AtMost fn clock random unit policy small (max 1 policy.max_attempts) 0 none
      "no attempts made"
