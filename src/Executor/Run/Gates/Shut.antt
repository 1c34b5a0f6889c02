-- ===== src/Executor/Run/Gates/Shut.antt =====
-- A closed gate spreads: the induction along the order, and along what a key leads to.
use aqueduct_test.Base.{
  ◌≡◌, ◌≢◌, sym, ◌∙◌, false, String, ◌⊎◌, inl, inr, List, [], ◌∷◌, Member, here, there, All,
  All-of_Member,
}
use aqueduct_test.Parser.Models.{Module}
use aqueduct_test.Executor.Order.{ids_of}
use aqueduct_test.Executor.Run.State.{World, Plan, RunState, new_state, Next, goes_on, Effect}
use aqueduct_test.Executor.Run.Touches.{about}
use aqueduct_test.Executor.Run.Results.{run_module-Ran}
use aqueduct_test.Executor.Run.Components.{NoneOwns, run_component-Completes}
use aqueduct_test.Executor.Run.{kind_of, run_module, run_component}
use aqueduct_test.Executor.Run.Gates.{IsClosed}
use aqueduct_test.Executor.Run.Gates.Spread.{
  awaits, IsRun, IsWired, LeadsTo, at_once, behind, IsShut, IsShutFrom, supported-IsSkipped,
  after_head, head-Touches, absent, shut_head, shut_tail,
}

module _ {F : Type 0} (w : World F) (plan : Plan F) where
  abbrev run_all : List Module → RunState F → Next F
  run_all ms s = run_component w plan (λ _. false) ms s

  run_head :
      (m : Module) (ms : List Module) (s s' : RunState F)
      → run_all (m ∷ ms) s ≡ goes_on s'
      → (s1 : RunState F) × (run_module w plan false m s ≡ goes_on s1)
        × (run_all ms s1 ≡ goes_on s')
  unfolding run_component
  run_head m ms s s' e = after_head w plan (run_module w plan false m s) (run_all ms) s' e

  module _ (s' : RunState F) (k : String) (closed : IsClosed s' k) where
    at_head :
        (m : Module) (ms : List Module) (s : RunState F)
        → IsWired w plan (m ∷ ms)
        → IsRun w plan m
        → Member k (awaits w plan m)
        → run_all (m ∷ ms) s ≡ goes_on s'
        → IsShutFrom w plan s s' m
    unfolding run_module
    at_head m ms s (before, after, new, _) run i e =
        let (s1, first, rest) = run_head m ms s s' e in
        let c = run_component-Completes w plan (λ _. false) ms s1 s' rest in
        let (_, _, t) = head-Touches w plan m s s1 _ (run_module-Ran w plan m false s) first in
        let none_owns = All-of_Member (NoneOwns (m ∷ ms)) k (awaits w plan m) before i in
        let closed_before : IsClosed s k =
          sym (t.keeps k none_owns.0) ∙ (sym (c.keeps k none_owns.1) ∙ closed) in
        shut_head w plan m ms s s1 s' (absent w plan m.id' (ids_of ms) new) after
          (supported-IsSkipped w plan (kind_of m.type') m s s1 k run i closed_before first) c

    shut_from :
        (ms : List Module) (m : Module) (s : RunState F)
        → Member m ms
        → IsWired w plan ms
        → All (IsRun w plan) ms
        → Member k (awaits w plan m)
        → run_all ms s ≡ goes_on s'
        → IsShutFrom w plan s s' m
    shut_from _ m s (here _ ms) wired run i e = at_head m ms s wired run.0 i e
    shut_from _ m s (there _ n ms j) wired run i e =
        let (s1, first, rest) = run_head n ms s s' e in
        let (_, _, t) = head-Touches w plan n s s1 _ (run_module-Ran w plan n false s) first in
        let later = shut_from ms m s1 j (wired.3) run.1 i rest in
        shut_tail w plan n m ms s s1 s' _ (absent w plan n.id' (ids_of ms) (wired.2)) j t later

  module _ (order : List Module) (s' : RunState F) (wired : IsWired w plan order)
      (run : All (IsRun w plan) order) (ended : run_all order new_state ≡ goes_on s') where
    no_old : (m : Module) (x : Effect F) → Member x [] ⊎ (about x ≢ m.id') → about x ≢ m.id'
    no_old m x (inl i) = elim i [ ]
    no_old m x (inr h) = h

    IsShut-once :
        (k : String) (m : Module)
        → IsClosed s' k
        → Member m order
        → Member k (awaits w plan m)
        → IsShut w plan s' m
    IsShut-once k m closed i j =
        let h = shut_from s' k closed order m new_state i wired run j ended in
        record {
          is_skipped = h.is_skipped;
          has_no_effect = λ x l. no_old m x (h.adds_nothing x l);
          is_passed_on = h.is_passed_on;
        }

    spreads :
        (k : String) (m : Module) → LeadsTo w plan order k m → IsClosed s' k → IsShut w plan s' m
    spreads k m (at_once _ _ i j) closed = IsShut-once k m closed i j
    spreads k m (behind _ l n _ i j p later) closed =
        spreads l m later ((IsShut-once k n closed i j).is_passed_on l p)

  -- In a run that no module stops, each module of the order that a closed key leads to is skipped,
  -- has no effect, and passes the sentinel on: if the order is wired, and neither a selector nor a
  -- resumed run leaves a module out.
  pub run_component-IsShut :
      (order : List Module) (s' : RunState F)
      → IsWired w plan order
      → All (IsRun w plan) order
      → run_component w plan (λ _. false) order new_state ≡ goes_on s'
      → (k : String) (m : Module) → IsClosed s' k
      → LeadsTo w plan order k m
      → IsShut w plan s' m
  run_component-IsShut order s' wired run ended k m closed leads =
      spreads order s' wired run ended k m leads closed
