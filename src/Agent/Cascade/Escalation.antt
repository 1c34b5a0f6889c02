-- ===== src/Agent/Cascade/Escalation.antt =====
-- When the cascade goes on to the next tier, and how it ends.
use aqueduct_test.Base.{
  ◌≡◌, refl, ◌≢◌, ℕ, ◌+◌, Bool, true, false, if◌then◌else◌, Option, none, some, List, [], ◌∷◌, inl,
  inr, Option-cases, String, Member, here, there, Try, returns, raises,
}
use aqueduct_test.Agent.Budget.{
  StopReason, post_init, stuck_signature, exhausted_attempts, deferred, solved,
  budget_seconds_exceeded, budget_tokens_exceeded, progress_stalled, api_error,
}
use aqueduct_test.Patch.Grammar.{PatchSpec}
use aqueduct_test.Agent.Attempt.{AgentPatchResult}
use aqueduct_test.Agent.Loop.Interface.{Env, Options}
use aqueduct_test.Agent.Loop.Round.{Outcome}
use aqueduct_test.Agent.Loop.Heal.{generate_agent_patch_ends, generate_agent_patch-Outcome}
use aqueduct_test.Agent.Cascade.{
  CascadeTierConfig, CallConfig, Shared, CascadeResult, returned, no_result, value_error, escaped,
  unfinished, is_given, after_heal, escalates, tier_budget, tier_call, tier_options, run_tier,
  after_tier, cascade_from, generate_cascade_patch,
}

-- The reasons on which a tier without a patch gives way.
abbrev pub gives_way : Option StopReason → Bool
gives_way (some stuck_signature) = true
gives_way (some exhausted_attempts) = true
gives_way _ = false

module _ (env : CallConfig → ℕ → Env) (shared : Shared) where
  tier_Outcome :
      (position : ℕ) (tier : CascadeTierConfig) (r : AgentPatchResult)
      → run_tier env shared position tier ≡ some (returns r)
      → Outcome
          (env (tier_call env shared tier) position)
          (tier_options env shared position tier)
          r.attempts
          r.patch
          r.stop_reason
  unfolding run_tier
  tier_Outcome position tier r e =
      generate_agent_patch-Outcome _ _ (tier_budget env shared tier) r e

  -- A tier's heal gives way on two reasons alone; `deferred` always comes with a patch.
  after_tier-gives_way :
      (e : Env) (opts : Options) (r : AgentPatchResult) (later : CascadeResult)
      → Outcome e opts r.attempts r.patch r.stop_reason
      → after_tier env shared r later ≡ (if gives_way r.stop_reason then later else returned r)
  after_tier-gives_way e opts r later o = by_reason r.patch r.stop_reason o
    where
      by_reason :
          (p : Option PatchSpec) (reason : Option StopReason)
          → Outcome e opts r.attempts p reason
          → (if is_given p then returned r else if escalates reason then later else returned r)
            ≡ (if gives_way reason then later else returned r)
      by_reason none (some solved) o = absurd (o.0 refl)
      by_reason none (some deferred) o = absurd (o.1 refl)
      by_reason none (some exhausted_attempts) o = refl
      by_reason none (some stuck_signature) o = refl
      by_reason none (some budget_seconds_exceeded) o = refl
      by_reason none (some budget_tokens_exceeded) o = refl
      by_reason none (some progress_stalled) o = refl
      by_reason none (some api_error) o = refl
      by_reason none none o = elim o [ ]
      by_reason (some patch) (some solved) o = refl
      by_reason (some patch) (some deferred) o = refl
      by_reason (some patch) (some exhausted_attempts) o = elim o [ ]
      by_reason (some patch) (some stuck_signature) o = elim o [ ]
      by_reason (some patch) (some budget_seconds_exceeded) o = elim o [ ]
      by_reason (some patch) (some budget_tokens_exceeded) o = elim o [ ]
      by_reason (some patch) (some progress_stalled) o = elim o [ ]
      by_reason (some patch) (some api_error) o = elim o [ ]
      by_reason (some patch) none o = elim o [ ]

-- With a valid budget a tier decides alone: the cascade goes on to the next tier exactly when the
-- tier's heal was stuck or used up its attempts, and else it returns that heal, also a deferred one.
pub cascade_from-gives_way :
    (env : CallConfig → ℕ → Env) (shared : Shared) (position : ℕ) (tier : CascadeTierConfig)
    (tiers : List CascadeTierConfig) (last : CascadeResult) (r : AgentPatchResult)
    → post_init (tier_budget env shared tier) ≡ none
    → run_tier env shared position tier ≡ some (returns r)
    → cascade_from env shared position (tier ∷ tiers) last ≡ (
        if gives_way r.stop_reason
        then cascade_from env shared (position + 1) tiers (returned r)
        else returned r)
unfolding cascade_from
cascade_from-gives_way env shared position tier tiers last r valid e =
    rw (valid, e, cascade_from)
      (after_tier-gives_way env shared (env (tier_call env shared tier) position)
        (tier_options env shared position tier) r
        (cascade_from env shared (position + 1) tiers (returned r))
        (tier_Outcome env shared position tier r e))

-- Where the outcome of a cascade over some tiers comes from.
abbrev pub IsFrom :
    (CallConfig → ℕ → Env) → Shared → List CascadeTierConfig → CascadeResult → Type 0
IsFrom env shared tiers (returned r) =
    (position : ℕ) × (tier : CascadeTierConfig) × Member tier tiers
    × (run_tier env shared position tier ≡ some (returns r))
IsFrom env shared tiers no_result = tiers ≡ []
IsFrom env shared tiers (value_error message) =
    (tier : CascadeTierConfig) × Member tier tiers
    × (post_init (tier_budget env shared tier) ≡ some message)
IsFrom env shared tiers (escaped text) =
    (position : ℕ) × (tier : CascadeTierConfig) × Member tier tiers
    × (run_tier env shared position tier ≡ some (raises text))
IsFrom env shared tiers unfinished = ⊥

module _ (env : CallConfig → ℕ → Env) (shared : Shared) (all : List CascadeTierConfig) where
  after_tier-IsFrom :
      (r : AgentPatchResult) (later : CascadeResult)
      → IsFrom env shared all (returned r)
      → IsFrom env shared all later
      → IsFrom env shared all (after_tier env shared r later)
  after_tier-IsFrom r later here_from later_from =
      by_tests (is_given r.patch) (escalates r.stop_reason)
    where
      by_tests :
          (given onward : Bool)
          → IsFrom env shared all
              (if given then returned r else if onward then later else returned r)
      by_tests true onward = here_from
      by_tests false true = later_from
      by_tests false false = here_from

  after_heal-IsFrom :
      (position : ℕ) (tier : CascadeTierConfig) (later : CascadeResult → CascadeResult)
      (heal : Option (Try String AgentPatchResult))
      → run_tier env shared position tier ≡ heal
      → heal ≢ none
      → Member tier all
      → ((r : AgentPatchResult)
          → IsFrom env shared all (returned r)
          → IsFrom env shared all (later (returned r)))
      → IsFrom env shared all (after_heal env shared heal later)
  after_heal-IsFrom position tier later none e ends i h = absurd (ends refl)
  after_heal-IsFrom position tier later (some (raises text)) e ends i h = (position, tier, i, e)
  after_heal-IsFrom position tier later (some (returns r)) e ends i h =
      after_tier-IsFrom r (later (returned r)) (position, tier, i, e) (h r (position, tier, i, e))

  run_tier-ne-none :
      (position : ℕ) (tier : CascadeTierConfig) → run_tier env shared position tier ≢ none
  unfolding run_tier
  run_tier-ne-none position tier e =
      let (a, answers, _) =
        generate_agent_patch_ends (env (tier_call env shared tier) position)
          (tier_options env shared position tier) (tier_budget env shared tier) in
      cc

  -- One tier of the loop, before the tiers below it.
  tier-IsFrom :
      (position : ℕ) (tier : CascadeTierConfig) (tiers : List CascadeTierConfig)
      (last : CascadeResult)
      → Member tier all
      → ((r : AgentPatchResult)
          → IsFrom env shared all (returned r)
          → IsFrom env shared all (cascade_from env shared (position + 1) tiers (returned r)))
      → IsFrom env shared all (cascade_from env shared position (tier ∷ tiers) last)
  unfolding cascade_from
  tier-IsFrom position tier tiers last i h =
      elim (Option-cases (post_init (tier_budget env shared tier))) [
        | inr (message, wrong) ↦ rw (wrong, cascade_from) (tier, i, wrong)
        | inl valid ↦
            rw (valid, cascade_from)
              (after_heal-IsFrom position tier _ (run_tier env shared position tier) refl
                (run_tier-ne-none position tier) i h)
      ]

  cascade_from-IsFrom :
      (tiers : List CascadeTierConfig) (position : ℕ) (last : CascadeResult)
      → ((tier : CascadeTierConfig) → Member tier tiers → Member tier all)
      → IsFrom env shared all last
      → IsFrom env shared all (cascade_from env shared position tiers last)
  unfolding cascade_from
  cascade_from-IsFrom [] position last within h = h
  cascade_from-IsFrom (tier ∷ tiers) position last within h =
      tier-IsFrom position tier tiers last (within tier (here tier tiers)) (λ r from.
        cascade_from-IsFrom tiers (position + 1) (returned r)
          (λ t i. within t (there t tier tiers i)) from)

-- The cascade always ends: in the result of a tier's heal, in `None` where there are no tiers, in the
-- error of a tier's budget, or by the exception that leaves the heal of a tier.
pub generate_cascade_patch-IsFrom :
    (env : CallConfig → ℕ → Env) (shared : Shared) (tiers : List CascadeTierConfig)
    → IsFrom env shared tiers (generate_cascade_patch env shared tiers)
unfolding generate_cascade_patch cascade_from
generate_cascade_patch-IsFrom env shared [] = refl
generate_cascade_patch-IsFrom env shared (tier ∷ tiers) =
    tier-IsFrom env shared (tier ∷ tiers) 0 tier tiers no_result (here tier tiers) (λ r from.
      cascade_from-IsFrom env shared (tier ∷ tiers) tiers 1 (returned r)
        (λ t i. there t tier tiers i) from)
