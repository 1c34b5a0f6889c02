-- ===== src/Executor/Run/Ran.antt =====
-- Each branch of `execute` adds one result for its module, and touches only what is its own.
use aqueduct_test.Base.{
  refl, ℕ, Bool, true, false, String, string_eq, inl, if◌then◌else◌, Option, none, some, List, [],
  ◌∷◌, ◌++◌,
}
use aqueduct_test.Patch.Value.{get}
use aqueduct_test.Parser.Models.{Module, Edge}
use aqueduct_test.Executor.Models.{
  RetryPolicy, Status, error, skipped, ModuleResult, OnExhaustion, alert_only, trigger_agent, abort,
}
use aqueduct_test.Executor.Retry.{Answer, with_retry}
use aqueduct_test.Executor.Retry as Retry
use aqueduct_test.Executor.Exhaustion.{on_retry_exhausted, by_action}
use aqueduct_test.Executor.Run.Store.{
  Slot, frame, gate_closed, Input, gated, missing, ready, gather, get_at,
}
use aqueduct_test.Executor.Run.State.{
  World, Plan, RunState, Next, goes_on, stops, throws, handler_error, results, add_result, skip,
  stop_with,
}
use aqueduct_test.Executor.Run.Steps.{
  module_retry_policy, on_failure, on_answer, with_policy, after_exhaustion, handled, reading,
  on_input, reading_one, on_slot, pass_on, close_own, closing, close_branches, branch_ids,
}
use aqueduct_test.Executor.Run.Owned.{owns_self}
use aqueduct_test.Executor.Run.Touches.{
  AreDue, Touches, Touches-trans, Touches-quiet, Touches-frame, Touches-result,
}
use aqueduct_test.Executor.Run.Quiet.{close_each-Touches}

abbrev pub result : Module → Status → Option String → ModuleResult
result m status text = record { module_id = m.id'; status = status; error_text = text }

module _ {F : Type 0} where
  -- One result; that of a module that stops the run is an error.
  abbrev pub Ran : Module → RunState F → Next F → Type 0
  Ran m s (goes_on s') =
      (status : Status) × (text : Option String) × Touches m.id' s s' (result m status text ∷ [])
  Ran m s (stops b s') = (text : String) × Touches m.id' s s' (result m error (some text) ∷ [])
  Ran m s (throws e s') = AreDue s.effects → AreDue s'.effects

  -- What closes a gate stops nothing, and adds the given results.
  abbrev pub Closed : Module → List ModuleResult → RunState F → Next F → Type 0
  Closed m added s (goes_on s') = Touches m.id' s s' added
  Closed m added s (stops b s') = ⊥
  Closed m added s (throws e s') = AreDue s.effects → AreDue s'.effects

  pub Ran-finish :
      (m : Module) (status : Status) (text : Option String) (s s' : RunState F)
      → Touches m.id' s s' []
      → Ran m s (goes_on (add_result m status text s'))
  Ran-finish m status text s s' t =
      (status, text, Touches-trans m.id' s s' _ [] _ t (Touches-result m status text s'))

  pub Ran-stop_with :
      (m : Module) (text : String) (b : Bool) (s : RunState F) → Ran m s (stop_with m text b s)
  Ran-stop_with m text b s = (text, Touches-result m error (some text) s)

  Ran-of_closed :
      (m : Module) (status : Status) (text : Option String) (s s' : RunState F) (n : Next F)
      → Touches m.id' s s' (result m status text ∷ [])
      → Closed m [] s' n
      → Ran m s n
  Ran-of_closed m status text s s' (goes_on s'') t c =
      (status, text, Touches-quiet m.id' s s' s'' _ t c)
  Ran-of_closed m status text s s' (stops b s'') t c = elim c [ ]
  Ran-of_closed m status text s s' (throws e s'') t c = λ d. c (t.stays_due d)

  -- A quiet part before the rest.
  pub Ran-after :
      (m : Module) (s s' : RunState F) (n : Next F) → Touches m.id' s s' [] → Ran m s' n → Ran m s n
  Ran-after m s s' (goes_on s'') t (status, text, u) =
      (status, text, Touches-trans m.id' s s' s'' [] _ t u)
  Ran-after m s s' (stops b s'') t (text, u) = (text, Touches-trans m.id' s s' s'' [] _ t u)
  Ran-after m s s' (throws e s'') t u = λ d. u (t.stays_due d)

module _ {F : Type 0} (w : World F) (plan : Plan F) (m : Module) where
  module _ (close : RunState F → Next F) (closes : (s : RunState F) → Closed m [] s (close s)) where
    after_exhaustion-Ran :
        (action : OnExhaustion) (text : String) (s s' : RunState F)
        → Touches m.id' s s' (result m error (some text) ∷ [])
        → Ran m s (
            after_exhaustion w plan
              (by_action plan.blueprint_id plan.run_id action (results s'))
              close
              s')
    after_exhaustion-Ran alert_only text s s' t =
        Ran-of_closed m error (some text) s s' (close s') t (closes s')
    after_exhaustion-Ran trigger_agent text s s' t = (text, t)
    after_exhaustion-Ran abort text s s' t = (text, t)

    failed-Touches :
        (text : String) (fired : List String) (s : RunState F)
        → Touches m.id' s
            (record s {
              progress = record {
                module_results = results s ++ (result m error (some text) ∷ []);
                fired = fired;
              };
            })
            (result m error (some text) ∷ [])
    failed-Touches text fired s = record {
      adds = refl;
      keeps = λ k h. refl;
      stays_due = λ d. d;
      grows = λ x i. i;
      logs_own = λ x i. inl i;
    }

    on_failure-Ran :
        (policy : RetryPolicy) (text : String) (s : RunState F)
        → Ran m s (on_failure w plan m policy close text s)
    unfolding on_failure on_retry_exhausted
    on_failure-Ran policy text s =
        after_exhaustion-Ran policy.on_exhaustion text s _ (failed-Touches text _ s)

    module _ {A : Type 0} (next : A → RunState F → Next F)
        (goes : (a : A) (s : RunState F) → Ran m s (next a s)) where
      raised-Ran :
          (b : Bool) (policy : RetryPolicy) (text : String) (s : RunState F)
          → Ran m s
              (if b then on_failure w plan m policy close text s else throws (handler_error text) s)
      raised-Ran true policy text s = on_failure-Ran policy text s
      raised-Ran false policy text s = λ d. d

      on_answer-Ran :
          (policy : RetryPolicy) (answer : Answer A) (s : RunState F)
          → Ran m s (on_answer w plan m close next policy answer s)
      on_answer-Ran policy (Retry.returns a) s = goes a s
      on_answer-Ran policy (Retry.raises text) s = raised-Ran (w.own_error m text) policy text s

      with_policy-Ran :
          (policy : Option RetryPolicy) (call : ℕ → Answer A) (s : RunState F)
          → Ran m s (with_policy w plan m close next policy call s)
      with_policy-Ran none call s = λ d. d
      with_policy-Ran (some policy) call s = on_answer-Ran policy _ s

      pub handled-Ran :
          (call : ℕ → Answer A) (s : RunState F) → Ran m s (handled w plan m close next call s)
      unfolding handled
      handled-Ran call s = with_policy-Ran (module_retry_policy w plan m.on_failure) call s

  module _ (key name : Edge → String) (no_edges : String) (close : RunState F → Next F)
      (gate : (s : RunState F) → Ran m s (close s)) where
    module _ (next : List (String × F) → RunState F → Next F)
        (goes : (u : List (String × F)) (s : RunState F) → Ran m s (next u s)) where
      on_input-Ran : (i : Input F) (s : RunState F) → Ran m s (on_input w plan m close next i s)
      on_input-Ran gated s = gate s
      on_input-Ran (missing n) s = Ran-stop_with m _ false s
      on_input-Ran (ready u) s = goes u s

      pub reading-Ran :
          (edges : List Edge) (s : RunState F)
          → Ran m s (reading w plan key name no_edges m edges close next s)
      unfolding reading
      reading-Ran [] s = Ran-stop_with m no_edges false s
      reading-Ran (e ∷ es) s = on_input-Ran (gather key name s.frames (e ∷ es) []) s

    module _ (next : F → RunState F → Next F)
        (goes : (df : F) (s : RunState F) → Ran m s (next df s)) where
      on_slot-Ran :
          (n : String) (slot : Option (Slot F)) (s : RunState F)
          → Ran m s (on_slot w plan n m close next slot s)
      on_slot-Ran n none s = Ran-stop_with m _ false s
      on_slot-Ran n (some gate_closed) s = gate s
      on_slot-Ran n (some (frame df)) s = goes df s

      pub reading_one-Ran :
          (edges : List Edge) (s : RunState F)
          → Ran m s (reading_one w plan key name no_edges m edges close next s)
      unfolding reading_one
      reading_one-Ran [] s = Ran-stop_with m no_edges false s
      reading_one-Ran (e ∷ es) s = on_slot-Ran (name e) (get_at (key e) s.frames) s

  pub pass_on-Ran : (s : RunState F) → Ran m s (pass_on w plan m s)
  pass_on-Ran s =
      Ran-finish m skipped none s _ (Touches-frame m.id' m.id' gate_closed s (owns_self m.id'))

  pub close_own-Closed : (s : RunState F) → Closed m [] s (close_own w plan m s)
  close_own-Closed s = Touches-frame m.id' m.id' gate_closed s (owns_self m.id')

  closing-Ran :
      (ids : Option (List String)) (s : RunState F)
      → Ran m s (closing w plan m (λ s'. goes_on (skip m s')) ids s)
  closing-Ran none s = λ d. d
  closing-Ran (some ids) s = Ran-finish m skipped none s _ (close_each-Touches w plan m ids s)

  closing-Closed :
      (ids : Option (List String)) (s : RunState F) → Closed m [] s (closing w plan m goes_on ids s)
  closing-Closed none s = λ d. d
  closing-Closed (some ids) s = close_each-Touches w plan m ids s

  pub close_branches-Ran :
      (s : RunState F) → Ran m s (close_branches w plan m (λ s'. goes_on (skip m s')) s)
  unfolding close_branches
  close_branches-Ran s = closing-Ran (branch_ids w.show (get "branches" m.config)) s

  pub close_branches-Closed : (s : RunState F) → Closed m [] s (close_branches w plan m goes_on s)
  unfolding close_branches
  close_branches-Closed s = closing-Closed (branch_ids w.show (get "branches" m.config)) s
