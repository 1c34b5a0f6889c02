-- ===== src/Agent/Loop/Heal.antt =====
-- What `generate_agent_patch` promises, from `start` to the result.
use mathlib.Core.Option.{some-injective}
use mathlib.Core.Path.{subst}
use aqueduct_test.Base.{
  sym, ◌∙◌, ◌≡◌, refl, ℕ, zero, suc, ◌+◌, ◌≤◌, max, String, Option, some, length, arith, Try,
  returns, raises,
}
use aqueduct_test.Agent.Budget.{BudgetConfig, new_tracker}
use aqueduct_test.Agent.Attempt.{done, again, escapes, LoopState, Step, AgentPatchResult}
use aqueduct_test.Agent.Loop.{turn, after, run, start, to_result, to_answer, generate_agent_patch}
use aqueduct_test.Agent.Loop.Interface.{Env, Options}
use aqueduct_test.Agent.Loop.Log.{to_ℕ, sum_of, count_escalated}
use aqueduct_test.Agent.Loop.Round.{Outcome, IsRunning, IsEnded, IsEscape, IsRound}
use aqueduct_test.Agent.Loop.Turn.{turn-IsRound}

returns-injective :
    {E : Type 0} {a b : AgentPatchResult}
    → returns a ≡ (let x : Try E AgentPatchResult = returns b in x)
    → a ≡ b
returns-injective e = cc

module _ (env : Env) (opts : Options) (budget : BudgetConfig) where
  -- The loop has ended within the attempts that the budget allows.
  abbrev IsEnd : Try String LoopState → Type 0
  IsEnd (returns s) =
      IsEnded env opts budget s
      × (1 ≤ s.tracker.current_attempt)
      × (s.tracker.current_attempt ≤ max 1 budget.max_reprompts)
  IsEnd (raises text) =
      (n : ℕ) × (1 ≤ n) × (n ≤ max 1 budget.max_reprompts) × IsEscape env opts budget n text

  abbrev Ends : Option (Try String LoopState) → Type 0
  Ends o = (a : Try String LoopState) × (o ≡ some a) × IsEnd a

  abbrev Fits : ℕ → LoopState → Type 0
  Fits fuel s =
      IsRunning env opts budget s
      × (fuel + s.tracker.current_attempt ≡ max 1 budget.max_reprompts)
      × (1 ≤ fuel)

  after-Ends :
      (fuel n : ℕ) (step : Step)
      → suc fuel + n ≡ max 1 budget.max_reprompts
      → IsRound env opts budget (n + 1) step
      → ((t : LoopState) → Fits fuel t → Ends (run env opts fuel t))
      → Ends (after env opts (run env opts fuel) step)
  after-Ends fuel n (done s) limit (ended, at) rest =
      (returns s, refl, (ended, omega arith, omega arith))
  after-Ends fuel n (again t) limit (running, at, below) rest =
      rest t (running, omega arith, omega arith)
  after-Ends fuel n (escapes text) limit escape rest =
      (raises text, refl, (n + 1, omega arith, omega arith, escape))

  run-Ends : (fuel : ℕ) (s : LoopState) → Fits fuel s → Ends (run env opts fuel s)
  unfolding run
  run-Ends zero s (r, limit, positive) = absurd (omega arith)
  run-Ends (suc fuel) s (r, limit, positive) =
      after-Ends fuel s.tracker.current_attempt (turn env opts s) limit
        (turn-IsRound env opts budget s r) (run-Ends fuel)

  start-Fits : Fits (max 1 budget.max_reprompts) (start env opts budget)
  unfolding start new_tracker sum_of
  start-Fits = (
    record {
      logged = record {
        counted = omega arith;
        in_total = refl;
        out_total = refl;
        notices = ground arith;
        configured = refl;
      };
      pending = omega arith;
      unstopped = refl;
      no_patch = refl;
    },
    omega arith,
    omega arith,
  )

  heal-Ends : Ends (run env opts (max 1 budget.max_reprompts) (start env opts budget))
  heal-Ends = run-Ends _ _ start-Fits

  generate-Ends :
      (a : Try String LoopState) × (generate_agent_patch env opts budget
        ≡ some (to_answer env opts a))
      × IsEnd a
  unfolding generate_agent_patch
  generate-Ends = let (a, runs, is_end) = heal-Ends in (a, rw runs, is_end)

  by_answer :
      (r : AgentPatchResult) (a : Try String LoopState)
      → returns r ≡ to_answer env opts a
      → IsEnd a
      → (s : LoopState) × (r ≡ to_result env opts s) × IsEnded env opts budget s
  by_answer r (returns s) same (ended, _, _) = (s, returns-injective same, ended)
  by_answer r (raises text) same h = cc

  -- The result of a heal is read off a state that has ended.
  by_result :
      {r : AgentPatchResult}
      → generate_agent_patch env opts budget ≡ some (returns r)
      → (s : LoopState) × (r ≡ to_result env opts s) × IsEnded env opts budget s
  by_result {r} e =
      let (a, answers, is_end) = generate-Ends in
      by_answer r a (some-injective _ _ (sym e ∙ answers)) is_end

-- The log of a heal has one record for each attempt, and its totals are the sums of its records.
pub record IsAccounted (r : AgentPatchResult) : Type 0 where
  pub counted : length r.attempt_records ≡ r.attempts
  pub in_total : r.tokens_in_total ≡ sum_of (λ a. a.tokens_in) r.attempt_records
  pub out_total : r.tokens_out_total ≡ sum_of (λ a. a.tokens_out) r.attempt_records

-- How a heal may end: in a result, or by an exception of the parser.
abbrev pub IsAnswer : Env → Options → BudgetConfig → Try String AgentPatchResult → Type 0
IsAnswer env opts budget (returns r) = (1 ≤ r.attempts) × (r.attempts ≤ max 1 budget.max_reprompts)
IsAnswer env opts budget (raises text) =
    (n : ℕ) × (1 ≤ n) × (n ≤ max 1 budget.max_reprompts) × IsEscape env opts budget n text

end-IsAnswer :
    (env : Env) (opts : Options) (budget : BudgetConfig) (a : Try String LoopState)
    → IsEnd env opts budget a
    → IsAnswer env opts budget (to_answer env opts a)
unfolding to_result
end-IsAnswer env opts budget (returns s) (ended, first, last) = (first, last)
end-IsAnswer env opts budget (raises text) h = h

pub generate_agent_patch_ends :
    (env : Env) (opts : Options) (budget : BudgetConfig)
    → (a : Try String AgentPatchResult) × (generate_agent_patch env opts budget ≡ some a)
      × IsAnswer env opts budget a
generate_agent_patch_ends env opts budget =
    let (a, answers, is_end) = generate-Ends env opts budget in
    (to_answer env opts a, answers, end-IsAnswer env opts budget a is_end)

-- A patch is returned exactly beside the reasons `solved` and `deferred`. A solved patch holds no
-- `defer_to_human`, has passed the validation of the last attempt where a deep loop validates, and
-- was accepted by the apply callback if there is one. A deferred patch holds one, and deferring
-- was allowed.
pub generate_agent_patch-Outcome :
    (env : Env) (opts : Options) (budget : BudgetConfig) (r : AgentPatchResult)
    → generate_agent_patch env opts budget ≡ some (returns r)
    → Outcome env opts r.attempts r.patch r.stop_reason
unfolding to_result
generate_agent_patch-Outcome env opts budget r e =
    let (s, same, ended) = by_result env opts budget e in
    subst (λ (q : AgentPatchResult). Outcome env opts q.attempts q.patch q.stop_reason) (sym same)
      ended.outcome

-- At most one attempt of a heal is escalated, and the result says whether one was.
pub generate_agent_patch_escalates_once :
    (env : Env) (opts : Options) (budget : BudgetConfig) (r : AgentPatchResult)
    → generate_agent_patch env opts budget ≡ some (returns r)
    → count_escalated r.attempt_records ≡ to_ℕ r.escalated
unfolding to_result
generate_agent_patch_escalates_once env opts budget r e =
    let (s, same, ended) = by_result env opts budget e in
    subst (λ (q : AgentPatchResult). count_escalated q.attempt_records ≡ to_ℕ q.escalated)
      (sym same) ended.spent

-- The log of a heal is complete: one record for each attempt, and totals that are its sums.
pub generate_agent_patch-IsAccounted :
    (env : Env) (opts : Options) (budget : BudgetConfig) (r : AgentPatchResult)
    → generate_agent_patch env opts budget ≡ some (returns r)
    → IsAccounted r
unfolding to_result
generate_agent_patch-IsAccounted env opts budget r e =
    let (s, same, ended) = by_result env opts budget e in
    subst IsAccounted (sym same) (record {
      counted = omega (arith, ended.logged.counted);
      in_total = ended.logged.in_total;
      out_total = ended.logged.out_total;
    })
