-- ===== src/Executor/Retry/Calls.antt =====
-- Which calls `_with_retry` makes, and whose answer it passes on.
use aqueduct_test.Base.{
  ◌≡◌, refl, ℕ, zero, suc, ◌+◌, ◌≤◌, ◌<◌, max, true, false, String, Option, none, [], ◌⊎◌, length,
  arith,
}
use native.Mathlib.Decide.{dec_lt}
use aqueduct_test.Executor.Models.{RetryPolicy}
use aqueduct_test.Executor.Retry.{
  is_retriable, Answer, returns, raises, Retried, gives_up, retry_loop, with_retry,
}

module _ {A : Type 0} (fn : ℕ → Answer A) (clock random : ℕ → ℕ) (unit : ℕ)
    (policy : RetryPolicy) where
  -- Call `j` raised an error that the policy retries.
  abbrev pub RetriableAt : ℕ → Type 0
  RetriableAt j = (text : String) × (fn j ≡ raises text) × (is_retriable text policy ≡ true)

  -- The loop made its last call as number `k`, in the rounds from `attempt` below `stop`.
  pub record Ran (attempt stop : ℕ) (r : Retried A) : Type 0 where
    pub last : ℕ
    pub calls : r.calls ≡ suc last
    pub answer : r.answer ≡ fn last
    pub from_attempt : attempt ≤ last
    pub below_stop : last < stop
    pub retriable : (j : ℕ) → attempt ≤ j → j < last → RetriableAt j
    pub slept : 1 ≤ policy.max_attempts → length r.sleeps + attempt ≡ last
    pub given_up :
        policy.deadline_seconds ≡ none
        → (text : String) → r.answer ≡ raises text
        → (suc last ≡ stop) ⊎ (is_retriable text policy ≡ false)

  -- The rest of the rounds after a failure of call `attempt`: none is left, or they ran.
  abbrev RestRan : ℕ → ℕ → (String → Retried A) → Type 0
  RestRan attempt stop rest =
      ((text : String)
        → (attempt + 1 ≡ stop)
          × (rest text ≡ record { answer = raises text; calls = attempt + 1; sleeps = [] }))
      ⊎ ((text : String) → Ran (attempt + 1) stop (rest text))

module _ {A : Type 0} (fn : ℕ → Answer A) (clock random : ℕ → ℕ) (unit : ℕ)
    (policy : RetryPolicy) where
  goes_on :
      (attempt : ℕ) (first : Option ℕ) (text : String)
      → policy.deadline_seconds ≡ none
      → attempt + 1 < max 1 policy.max_attempts
      → is_retriable text policy ≡ true
      → gives_up fn clock random unit policy attempt first text ≡ false
  unfolding gives_up
  goes_on attempt first text unlimited more retriable = ground arith

  retry_loop-returns :
      (left attempt k : ℕ) (first : Option ℕ) (text : String) {a : A}
      → policy.deadline_seconds ≡ none
      → attempt + left ≡ max 1 policy.max_attempts
      → attempt ≤ k
      → k < max 1 policy.max_attempts
      → fn k ≡ returns a
      → ((j : ℕ) → attempt ≤ j → j < k → RetriableAt fn clock random unit policy j)
      → let r = retry_loop fn clock random unit policy left attempt first text in
        (r.answer ≡ returns a) × (r.calls ≡ k + 1)
  unfolding retry_loop
  retry_loop-returns zero attempt k first text unlimited sum le lt f before = absurd (omega arith)
  retry_loop-returns (suc left) attempt k first text unlimited sum le lt f before =
      elim (dec_lt attempt k) [
        | no same ↦ let e : attempt ≡ k = omega arith in rw (e, f) (refl, refl)
        | yes behind ↦
            let (m, raised, retriable) = before attempt (omega arith) behind in
            rw (raised, goes_on attempt first m unlimited (omega arith) retriable)
              (retry_loop-returns left (attempt + 1) k _ m unlimited (omega arith) (omega arith) lt
                f (λ j p q. before j (omega arith) q))
      ]

-- Without a deadline, a module that succeeds in time is not given up: if call `k` is among the
-- allowed ones and returns, and the calls before it raised errors that the policy retries, then its
-- value is the answer, after `k + 1` calls.
pub with_retry-returns :
    {A : Type 0} (fn : ℕ → Answer A) (clock random : ℕ → ℕ) (unit : ℕ) (policy : RetryPolicy)
    (k : ℕ) (a : A)
    → policy.deadline_seconds ≡ none
    → k < max 1 policy.max_attempts
    → fn k ≡ returns a
    → ((j : ℕ) → j < k → RetriableAt fn clock random unit policy j)
    → let r = with_retry fn clock random unit policy in (r.answer ≡ returns a) × (r.calls ≡ k + 1)
unfolding with_retry
with_retry-returns fn clock random unit policy k a unlimited lt f before =
    retry_loop-returns fn clock random unit policy (max 1 policy.max_attempts) 0 k none
      "no attempts made" unlimited (omega arith) (omega arith) lt f (λ j p q. before j q)
