-- ===== src/Agent/Cascade.antt =====
-- aqueduct/agent/cascade.py: `generate_cascade_patch`, which tries one model after another.
-- Each tier runs the whole loop of `Agent.Loop`, in the environment that its call settings give.
pub mod Escalation
mod Tests
use aqueduct_test.Base.{
  ℕ, ◌+◌, Bool, true, false, String, Option, none, some, List, [], ◌∷◌, if◌then◌else◌, Try, returns,
  raises,
}
use aqueduct_test.Patch.Value.{Fields}
use aqueduct_test.Agent.Budget.{
  BudgetConfig, default_budget, post_init, StopReason, stuck_signature, exhausted_attempts,
  deferred,
}
use aqueduct_test.Agent.Attempt.{AgentPatchResult}
use aqueduct_test.Agent.Loop.{generate_agent_patch}
use aqueduct_test.Agent.Loop.Interface.{Env, Options}

-- `CascadeTierConfig` of aqueduct/parser/models.py
pub record CascadeTierConfig : Type 0 where
  pub model : String
  pub provider : Option String
  pub base_url : Option String
  pub provider_options : Option Fields
  pub timeout : Option ℕ
  pub max_tokens : Option ℕ
  pub max_reprompts : Option ℕ
  pub max_seconds : Option ℕ
  pub deep_loop : Option Bool
  pub allow_defer : Option Bool

-- The settings of the provider's calls.
pub record CallConfig : Type 0 where
  pub model : String
  pub provider : String
  pub base_url : Option String
  pub provider_options : Option Fields
  pub max_tokens : ℕ

-- The arguments shared by all tiers.
pub record Shared : Type 0 where
  pub provider : String
  pub base_url : Option String
  pub provider_options : Option Fields
  pub timeout : ℕ
  pub max_tokens : ℕ
  pub max_reprompts : ℕ
  pub has_on_attempt : Bool

-- What the call gives: a result, `None` where there is no tier, or the `ValueError` of a budget.
-- `escaped` is the exception that leaves a heal, and `unfinished` a loop without an end.
pub data CascadeResult : Type 0 where
  returned : AgentPatchResult → CascadeResult
  no_result : CascadeResult
  value_error : String → CascadeResult
  escaped : String → CascadeResult
  unfinished : CascadeResult

-- `value if value is not None else other`
abbrev pub if_given {ℓ} : {A : Type ℓ} → Option A → A → A
if_given (some a) other = a
if_given none other = other

abbrev pub or_else {ℓ} : {A : Type ℓ} → Option A → Option A → Option A
or_else (some a) other = some a
or_else none other = other

-- `stop_reason in _ESCALATION_REASONS`
abbrev pub escalates : Option StopReason → Bool
escalates (some stuck_signature) = true
escalates (some exhausted_attempts) = true
escalates (some deferred) = true
escalates _ = false

abbrev pub is_given {ℓ} : {A : Type ℓ} → Option A → Bool
is_given none = false
is_given (some _) = true

module _ (env : CallConfig → ℕ → Env) (shared : Shared) where
  abbrev pub tier_budget : CascadeTierConfig → BudgetConfig
  tier_budget tier = record default_budget {
    max_reprompts = if_given tier.max_reprompts shared.max_reprompts;
    max_seconds = if_given tier.max_seconds 120;
  }

  abbrev pub tier_call : CascadeTierConfig → CallConfig
  tier_call tier = record {
    model = tier.model;
    provider = if_given tier.provider shared.provider;
    base_url = or_else tier.base_url shared.base_url;
    provider_options = or_else tier.provider_options shared.provider_options;
    max_tokens = if_given tier.max_tokens shared.max_tokens;
  }

  abbrev pub tier_options : ℕ → CascadeTierConfig → Options
  tier_options position tier = record {
    timeout = if_given tier.timeout shared.timeout;
    allow_defer = if_given tier.allow_defer false;
    deep_loop = if_given tier.deep_loop false;
    has_on_attempt = shared.has_on_attempt;
    model_cascade_position = some position;
  }

  unfoldable pub run_tier : ℕ → CascadeTierConfig → Option (Try String AgentPatchResult)
  run_tier position tier =
      generate_agent_patch (env (tier_call tier) position) (tier_options position tier)
        (tier_budget tier)

  -- What follows the result of a tier, where `later` is the outcome of the tiers below it.
  abbrev pub after_tier : AgentPatchResult → CascadeResult → CascadeResult
  after_tier r later =
      if is_given r.patch then returned r else if escalates r.stop_reason then later else returned r

  -- The heal of a tier, where `later` is the loop over the tiers below it.
  abbrev pub after_heal :
      Option (Try String AgentPatchResult) → (CascadeResult → CascadeResult) → CascadeResult
  after_heal none later = unfinished
  after_heal (some (raises text)) later = escaped text
  after_heal (some (returns r)) later = after_tier r (later (returned r))

  -- The loop from the tier at `position`, after the outcome `last`.
  unfoldable pub cascade_from : ℕ → List CascadeTierConfig → CascadeResult → CascadeResult
  cascade_from position [] last = last
  cascade_from position (tier ∷ tiers) last = elim (post_init (tier_budget tier)) [
    | some message ↦ value_error message
    | none ↦ after_heal (run_tier position tier) (cascade_from (position + 1) tiers)
  ]

  unfoldable pub generate_cascade_patch : List CascadeTierConfig → CascadeResult
  unfolding cascade_from run_tier
  generate_cascade_patch tiers = cascade_from 0 tiers no_result
