-- ===== src/Agent/Loop/Round.antt =====
-- One round of the loop: what holds of the state when it goes on, and when it ends.
use aqueduct_test.Base.{
  ◌≡◌, refl, ap, ◌∙◌, if◌then◌else◌, ◌≢◌, ℕ, ◌<◌, Bool, true, false, String, Option, none, some,
  Option-cases, inl, inr, arith,
}
use aqueduct_test.Patch.Grammar.{PatchSpec, has_defer}
use aqueduct_test.Agent.Signature.{ErrorSignature}
use aqueduct_test.Agent.Budget.{
  BudgetConfig, Tracker, StopReason, solved, deferred, Gate, record_attempt, check_stop,
  should_escalate, mark_escalated, last_solved,
}
use aqueduct_test.Agent.Budget.Stop.{check_stop-goes_on, check_stop-fails}
use aqueduct_test.Agent.Attempt.{
  done, again, escapes, LoopState, Step, Cost, stops, note, ask_again, go_on,
}
use aqueduct_test.Agent.Loop.{validation}
use aqueduct_test.Agent.Loop.Interface.{Env, Options, ApplyReply, not_caught}
use aqueduct_test.Agent.Loop.Log.{IsLogged, Pending, Spent, note-IsLogged, note-Spent, note-last}

-- `ok` in the answer of the apply callback.
abbrev pub is_accepted : ApplyReply → Bool
is_accepted (ApplyReply.answered b _ _ _) = b
is_accepted (ApplyReply.raised _ _) = false

abbrev pub Applied : Option (ℕ → PatchSpec → ApplyReply) → ℕ → PatchSpec → Type 0
Applied none n patch = Unit
Applied (some callback) n patch = is_accepted (callback n patch) ≡ true

module _ (env : Env) (opts : Options) where
  -- Which patch may stand beside which reason, at the attempt that ended the loop.
  abbrev pub Outcome : ℕ → Option PatchSpec → Option StopReason → Type 0
  Outcome n none (some r) = (r ≢ solved) × (r ≢ deferred)
  Outcome n (some patch) (some solved) =
      (has_defer patch ≡ false)
      × (validation env opts opts.deep_loop env.validate_callback n patch ≡ none)
      × Applied env.apply_callback n patch
  Outcome n (some patch) (some deferred) = (has_defer patch ≡ true) × (opts.allow_defer ≡ true)
  Outcome n _ _ = ⊥

stops-none : (o : Option StopReason) → o ≡ none → stops o ≡ true → ⊥
stops-none none e h = cc
stops-none (some r) e h = cc

stops-failed :
    (o : Option StopReason) (r : StopReason) → o ≡ some r → r ≢ solved → stops o ≡ false → ⊥
stops-failed none r e fails h = cc
stops-failed (some solved) r e fails h = fails (ground arith)
stops-failed (some _) r e fails h = cc

module _ (env : Env) (opts : Options) (budget : BudgetConfig) where
  pub record IsRunning (s : LoopState) : Type 0 where
    pub logged : IsLogged opts budget 0 s
    pub pending : Pending opts budget s
    pub unstopped : s.tracker.stop_reason ≡ none
    pub no_patch : s.patch_spec ≡ none

  pub record IsEnded (s : LoopState) : Type 0 where
    pub logged : IsLogged opts budget 0 s
    pub spent : Spent opts budget s
    pub outcome : Outcome env opts s.tracker.current_attempt s.patch_spec s.tracker.stop_reason

  -- The exception with this text that the parser raises in attempt `n`, and that is not caught.
  abbrev pub IsEscape : ℕ → String → Type 0
  IsEscape n text =
      (raw : String) × (e : env.Exc) × (env.parse_patch_spec n raw ≡ not_caught e)
      × (env.text_of e ≡ text)

  -- A round of attempt `n` ends the loop well, goes on with an attempt left, or is left by what the
  -- parser raises.
  abbrev pub IsRound : ℕ → Step → Type 0
  IsRound n (done s) = IsEnded s × (s.tracker.current_attempt ≡ n)
  IsRound n (again s) = IsRunning s × (s.tracker.current_attempt ≡ n) × (n < budget.max_reprompts)
  IsRound n (escapes text) = IsEscape n text

  pub IsRound-if :
      (n : ℕ) (b : Bool) (x y : Step)
      → (b ≡ true → IsRound n x)
      → (b ≡ false → IsRound n y)
      → IsRound n (if b then x else y)
  IsRound-if n true x y hx hy = hx refl
  IsRound-if n false x y hx hy = hy refl

  -- The state of an attempt in which nothing is recorded yet.
  pub record IsOpen (s : LoopState) : Type 0 where
    pub logged : IsLogged opts budget 1 s
    pub pending : Pending opts budget s
    pub unstopped : s.tracker.stop_reason ≡ none

  -- The state after the record of a rejected answer.
  pub record IsRejected (s : LoopState) : Type 0 where
    pub logged : IsLogged opts budget 0 s
    pub spent : Spent opts budget s
    pub unstopped : s.tracker.stop_reason ≡ none
    pub last : last_solved s.tracker.attempts ≡ false

  pub note-IsRejected :
      (sig : ErrorSignature) (gate : Option Gate) (cost : Cost) (s : LoopState)
      → IsOpen s
      → IsRejected (note env opts (some sig) gate cost s)
  unfolding note record_attempt
  note-IsRejected sig gate cost s o = record {
    logged = note-IsLogged env opts budget (some sig) gate cost s o.logged;
    spent = note-Spent env opts budget (some sig) gate cost s o.pending;
    unstopped = o.unstopped;
    last = note-last env opts budget (some sig) gate cost s;
  }

  go_on-IsRunning :
      (friendly raw hint : String) (s : LoopState) (patch : Option PatchSpec) (checked : Tracker)
      (n : ℕ)
      → IsRejected s
      → checked ≡ s.tracker
      → patch ≡ none
      → s.tracker.current_attempt ≡ n
      → n < budget.max_reprompts
      → IsRound n (go_on env opts friendly raw hint patch checked s)
  unfolding go_on should_escalate mark_escalated
  go_on-IsRunning friendly raw hint s patch checked n r same absent at below = rw same (
    record {
      logged = record {
        counted = ground (arith, r.logged.counted);
        in_total = ground (arith, r.logged.in_total);
        out_total = ground (arith, r.logged.out_total);
        notices = ground (arith, r.logged.notices);
        configured = ground (arith, r.logged.configured);
      };
      pending = ground (arith, r.spent);
      unstopped = ground (arith, r.unstopped);
      no_patch = absent;
    },
    ground arith,
    below,
  )

  stopped-IsEnded :
      (s : LoopState) (now : ℕ) (reason : StopReason)
      → IsRejected s
      → (check_stop now s.tracker).stop_reason ≡ some reason
      → (reason ≢ solved) × (reason ≢ deferred)
      → IsEnded (record s { tracker = check_stop now s.tracker; patch_spec = none })
  unfolding check_stop
  stopped-IsEnded s now reason r trips fails = record {
    logged = record {
      counted = r.logged.counted;
      in_total = r.logged.in_total;
      out_total = r.logged.out_total;
      notices = r.logged.notices;
      configured = r.logged.configured;
    };
    spent = r.spent;
    outcome = rw trips fails;
  }

  check_stop-current :
      (now : ℕ) (t : Tracker) → (check_stop now t).current_attempt ≡ t.current_attempt
  unfolding check_stop
  check_stop-current now t = refl

  ask_again-IsRound :
      (friendly raw hint : String) (patch : Option PatchSpec) (s : LoopState) {n : ℕ}
      → IsRejected s
      → patch ≡ none
      → s.tracker.current_attempt ≡ n
      → IsRound n (ask_again env opts friendly raw hint patch s)
  unfolding ask_again
  ask_again-IsRound friendly raw hint patch s r absent at =
      let now = env.clock_check s.tracker.current_attempt in
      let reason = (check_stop now s.tracker).stop_reason in
      let fails = check_stop-fails now s.tracker r.unstopped r.last in
      IsRound-if _ (stops reason) _ _
        (λ stop. elim (Option-cases reason) [
          | inl quiet ↦ absurd (stops-none reason quiet stop)
          | inr (a, trips) ↦ (
            stopped-IsEnded s now a r trips (fails a trips),
            check_stop-current now s.tracker ∙ at,
          )
        ])
        (λ go. elim (Option-cases reason) [
          | inl quiet ↦
              let (same, below) = check_stop-goes_on now s.tracker r.unstopped quiet in
              go_on-IsRunning friendly raw hint s patch (check_stop now s.tracker) _ r same absent
                at (omega (arith, below, ap (λ c. c.max_reprompts) r.logged.configured))
          | inr (a, trips) ↦ absurd (stops-failed reason a trips (fails a trips).0 go)
        ])

  -- A rejection: the record of a signature, then `ask_again`.
  pub rejection-IsRound :
      (friendly raw hint : String) (patch : Option PatchSpec) (sig : ErrorSignature)
      (gate : Option Gate) (cost : Cost) (s : LoopState) {n : ℕ}
      → IsOpen s
      → patch ≡ none
      → s.tracker.current_attempt ≡ n
      → IsRound n
          (ask_again env opts friendly raw hint patch (note env opts (some sig) gate cost s))
  unfolding note record_attempt
  rejection-IsRound friendly raw hint patch sig gate cost s o absent at =
      ask_again-IsRound friendly raw hint patch (note env opts (some sig) gate cost s)
        (note-IsRejected sig gate cost s o) absent at

  pub Outcome-solved :
      (n : ℕ) (p : Option PatchSpec) (r : Option StopReason) {patch : PatchSpec}
      → p ≡ some patch
      → r ≡ some solved
      → Outcome env opts n (some patch) (some solved)
      → Outcome env opts n p r
  Outcome-solved n p r ep er h = rw (ep, er) h

  pub Outcome-deferred :
      (n : ℕ) (p : Option PatchSpec) {patch : PatchSpec}
      → p ≡ some patch
      → Outcome env opts n (some patch) (some deferred)
      → Outcome env opts n p (some deferred)
  Outcome-deferred n p ep h = rw ep h

  pub Outcome-failed :
      (n : ℕ) (p : Option PatchSpec) {r : StopReason}
      → p ≡ none
      → (r ≢ solved) × (r ≢ deferred)
      → Outcome env opts n p (some r)
  Outcome-failed n p ep h = rw ep h
