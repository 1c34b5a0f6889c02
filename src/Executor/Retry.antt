-- ===== src/Executor/Retry.antt =====
-- aqueduct/executor/spark/executor.py: `_is_retriable`, `_backoff_seconds` and
-- `_with_retry`. An exception is its text. The calls of the module, the clock and the
-- random numbers are parameters: the answer of each call by its number, and the readings after it.
pub mod Backoffs
pub mod Calls
mod Tests
use aqueduct_test.Base.{
  ℕ, zero, suc, ◌+◌, ◌-◌, ◌*◌, ◌^◌, min, max, Bool, true, false, not, ◌||◌, String, Option, none,
  some, List, [], ◌∷◌, ◌++◌, if◌then◌else◌, any, leb, eqb, is_in,
}
use aqueduct_test.Executor.Models.{
  Backoff, fixed, linear, exponential, OnExhaustion, alert_only, trigger_agent, abort, RetryPolicy,
  error, ModuleResult, ExecutionResult,
}

abbrev pub is_empty {ℓ} : {A : Type ℓ} → List A → Bool
is_empty [] = true
is_empty (_ ∷ _) = false

unfoldable pub is_retriable : String → RetryPolicy → Bool
unfolding is_in
is_retriable text policy =
    if any (λ pattern. is_in pattern text) policy.non_transient_errors
    then false
    else if not (is_empty policy.transient_errors)
    then any (λ pattern. is_in pattern text) policy.transient_errors
    else true

abbrev pub raw_delay : Backoff → ℕ → ℕ → ℕ
raw_delay fixed base attempt = base
raw_delay linear base attempt = base * (attempt + 1)
raw_delay exponential base attempt = base * 2 ^ attempt

-- The delay before the jitter, in seconds.
unfoldable pub capped_delay : ℕ → RetryPolicy → ℕ
capped_delay attempt policy =
    min (raw_delay policy.backoff_strategy policy.backoff_base_seconds attempt)
      policy.backoff_max_seconds

-- In units of 1 / (2 * unit) seconds, where `random.random()` is `random / unit`: the factor
-- 0.5 + random * 0.5 is (unit + random) / (2 * unit).
unfoldable pub backoff_seconds : (unit random : ℕ) → ℕ → RetryPolicy → ℕ
unfolding capped_delay
backoff_seconds unit random attempt policy =
    let delay = capped_delay attempt policy in
    if policy.jitter then delay * (unit + random) else delay * (2 * unit)

-- A call returns or raises.
pub data Answer (A : Type 0) : Type 0 where
  returns : A → Answer A
  raises : String → Answer A

-- The answer that `_with_retry` passes on, the calls made and the sleeps between them.
pub record Retried (A : Type 0) : Type 0 where
  pub answer : Answer A
  pub calls : ℕ
  pub sleeps : List ℕ

abbrev pub past_deadline : Option ℕ → ℕ → Bool
past_deadline none elapsed = false
past_deadline (some limit) elapsed = leb limit elapsed

abbrev pub first_or : Option ℕ → ℕ → ℕ
first_or none now = now
first_or (some t) now = t

module _ {A : Type 0} (fn : ℕ → Answer A) (clock random : ℕ → ℕ) (unit : ℕ)
    (policy : RetryPolicy) where
  -- Why the loop breaks after the failure `text` of call `attempt`.
  unfoldable pub gives_up : ℕ → Option ℕ → String → Bool
  gives_up attempt first_failure_at text =
      let now = clock attempt in
      past_deadline policy.deadline_seconds (now - first_or first_failure_at now)
      || (eqb (attempt + 1) policy.max_attempts || not (is_retriable text policy))

  abbrev pub sleep_then : ℕ → Retried A → Retried A
  sleep_then t r = record r { sleeps = t ∷ r.sleeps }

  -- Break after a failure, or sleep and go on with the `rest` of the rounds.
  abbrev pub on_failure : Bool → ℕ → String → (String → Retried A) → Retried A
  on_failure true attempt text rest = record {
    answer = raises text;
    calls = attempt + 1;
    sleeps = [];
  }
  on_failure false attempt text rest =
      sleep_then (backoff_seconds unit (random attempt) attempt policy) (rest text)

  abbrev pub on_answer : Answer A → ℕ → Option ℕ → (String → Retried A) → Retried A
  on_answer (returns a) attempt first_failure_at rest = record {
    answer = returns a;
    calls = attempt + 1;
    sleeps = [];
  }
  on_answer (raises text) attempt first_failure_at rest =
      on_failure (gives_up attempt first_failure_at text) attempt text rest

  -- `left` rounds of the `for` remain.
  unfoldable pub retry_loop : (left attempt : ℕ) → Option ℕ → String → Retried A
  retry_loop zero attempt first_failure_at last_exc = record {
    answer = raises last_exc;
    calls = attempt;
    sleeps = [];
  }
  retry_loop (suc left) attempt first_failure_at last_exc =
      let first = some (first_or first_failure_at (clock attempt)) in
      on_answer (fn attempt) attempt first_failure_at (retry_loop left (attempt + 1) first)

  unfoldable pub with_retry : Retried A
  unfolding retry_loop gives_up is_retriable backoff_seconds
  with_retry = retry_loop (max 1 policy.max_attempts) 0 none "no attempts made"
