-- ===== src/Agent/Loop/Log.antt =====
-- What the log of attempts keeps through a round of the loop: the numbers, the tokens, the
-- records given to `on_attempt` and the one escalation.
use aqueduct_test.Base.{
  ◌≡◌, refl, ℕ, ◌+◌, Bool, true, false, if◌then◌else◌, Option, List, [], ◌∷◌, ◌++◌, length,
  length-append, arith,
}
use aqueduct_test.Agent.Signature.{ErrorSignature}
use aqueduct_test.Agent.Budget.{
  BudgetConfig, AttemptRecord, Gate, none?, last_solved, to_record, record_attempt,
}
use aqueduct_test.Agent.Attempt.{LoopState, Cost, note, report_of}
use aqueduct_test.Agent.Loop.Interface.{Env, Options}

abbrev pub to_ℕ : Bool → ℕ
to_ℕ true = 1
to_ℕ false = 0

unfoldable pub sum_of : (AttemptRecord → ℕ) → List AttemptRecord → ℕ
sum_of f [] = 0
sum_of f (a ∷ attempts) = f a + sum_of f attempts

abbrev pub count_escalated : List AttemptRecord → ℕ
count_escalated = sum_of (λ a. to_ℕ a.escalated)

pub sum_of-snoc :
    (f : AttemptRecord → ℕ) (xs : List AttemptRecord) (a : AttemptRecord)
    → sum_of f (xs ++ a ∷ []) ≡ sum_of f xs + f a
unfolding sum_of
sum_of-snoc f [] a = omega arith
sum_of-snoc f (x ∷ xs) a = omega (arith, sum_of-snoc f xs a)

pub last_solved-snoc :
    (xs : List AttemptRecord) (a : AttemptRecord) → last_solved (xs ++ a ∷ []) ≡ none? a.signature
unfolding last_solved
last_solved-snoc [] a = refl
last_solved-snoc (x ∷ []) a = refl
last_solved-snoc (x ∷ y ∷ xs) a = last_solved-snoc (y ∷ xs) a

module _ (opts : Options) (budget : BudgetConfig) where
  -- `open_attempts` is 1 between `begin_attempt` and `record`, and 0 elsewhere.
  pub record IsLogged (open_attempts : ℕ) (s : LoopState) : Type 0 where
    pub counted : length s.tracker.attempts + open_attempts ≡ s.tracker.current_attempt
    pub in_total : s.tracker.tokens_in_total ≡ sum_of (λ a. a.tokens_in) s.tracker.attempts
    pub out_total : s.tracker.tokens_out_total ≡ sum_of (λ a. a.tokens_out) s.tracker.attempts
    pub notices : s.notified ≡ (if opts.has_on_attempt then s.tracker.attempts else [])
    pub configured : s.tracker.config ≡ budget

  -- A pending escalation is the one that the tracker remembers.
  abbrev pub Pending : LoopState → Type 0
  Pending s =
      count_escalated s.tracker.attempts + to_ℕ s.escalate_next ≡ to_ℕ s.tracker.escalated_once

  abbrev pub Spent : LoopState → Type 0
  Spent s = count_escalated s.tracker.attempts ≡ to_ℕ s.tracker.escalated_once

module _ (env : Env) (opts : Options) (budget : BudgetConfig) (signature : Option ErrorSignature)
    (gate : Option Gate) (cost : Cost) (s : LoopState) where
  abbrev added : AttemptRecord
  added = to_record s.tracker.current_attempt (report_of env opts signature gate cost s)

  pub note-IsLogged :
      IsLogged opts budget 1 s → IsLogged opts budget 0 (note env opts signature gate cost s)
  unfolding note record_attempt to_record
  note-IsLogged l = record {
    counted = omega (arith, l.counted, length-append s.tracker.attempts (added ∷ []));
    in_total = omega (arith, l.in_total, sum_of-snoc (λ a. a.tokens_in) s.tracker.attempts added);
    out_total =
        omega (arith, l.out_total, sum_of-snoc (λ a. a.tokens_out) s.tracker.attempts added);
    notices = ground arith;
    configured = l.configured;
  }

  pub note-Spent : Pending opts budget s → Spent opts budget (note env opts signature gate cost s)
  unfolding note record_attempt to_record
  note-Spent p = omega (arith, p, sum_of-snoc (λ a. to_ℕ a.escalated) s.tracker.attempts added)

  pub note-last :
      last_solved (note env opts signature gate cost s).tracker.attempts ≡ none? signature
  unfolding note record_attempt to_record
  note-last = last_solved-snoc s.tracker.attempts added
