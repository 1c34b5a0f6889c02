-- ===== src/Agent/Budget/Config.antt =====
-- `BudgetConfig.__post_init__` against its bounds as inequalities.
use aqueduct_test.Base.{◌≡◌, refl, ◌↔◌, ℕ, ◌≤◌, false, Option, none, some, arith}
use aqueduct_test.Agent.Budget.{BudgetConfig, post_init, below_one}

abbrev pub Positive? : Option ℕ → Type 0
Positive? none = Unit
Positive? (some n) = 1 ≤ n

pub record IsValid (c : BudgetConfig) : Type 0 where
  pub reprompts : 1 ≤ c.max_reprompts
  pub seconds : 1 ≤ c.max_seconds
  pub tokens : Positive? c.max_tokens_total
  pub consecutive : 2 ≤ c.same_error_consecutive
  pub overall : c.same_error_consecutive ≤ c.same_signature_overall
  pub window : 2 ≤ c.progress_stalled_window

tokens_cases : (cap : Option ℕ) → (below_one cap ≡ false) ↔ Positive? cap
tokens_cases none = (λ _. tt, λ _. refl)
tokens_cases (some n) = ground arith

of_none : (c : BudgetConfig) → post_init c ≡ none → IsValid c
unfolding post_init
of_none c h = record {
  reprompts = ground arith;
  seconds = ground arith;
  tokens = (tokens_cases c.max_tokens_total).0 (ground arith);
  consecutive = ground arith;
  overall = ground arith;
  window = ground arith;
}

to_none : (c : BudgetConfig) → IsValid c → post_init c ≡ none
unfolding post_init
to_none c v = ground (arith, (tokens_cases c.max_tokens_total).1 v.tokens)

-- A configuration is accepted exactly when all six of its bounds hold.
pub post_init_iff : (c : BudgetConfig) → (post_init c ≡ none) ↔ IsValid c
post_init_iff c = (λ h. of_none c h, λ v. to_none c v)
