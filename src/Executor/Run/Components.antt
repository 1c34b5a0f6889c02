-- ===== src/Executor/Run/Components.antt =====
-- The modules of a run one after the other: which results and effects there are at its end.
use mathlib.Core.List.{append-nil, append_assoc}
use aqueduct_test.Base.{
  ◌≡◌, refl, sym, ap, ◌∙◌, Bool, false, String, ◌⊎◌, inl, inr, Option, some, List, [], ◌∷◌, ◌++◌,
  map, Member, here, there, All, Try, returns, raises,
}
use aqueduct_test.Parser.Models.{Module}
use aqueduct_test.Executor.Models.{Status, success, error, ModuleResult, ExecutionResult}
use aqueduct_test.Executor.Order.{ids_of}
use aqueduct_test.Executor.Run.Store.{get_at}
use aqueduct_test.Executor.Run.State.{
  World, Plan, RunState, new_state, Next, goes_on, stops, throws, RunError, results, Effect, ◌>>=◌,
}
use aqueduct_test.Executor.Run.Owned.{owns}
use aqueduct_test.Executor.Run.Touches.{AreDue, about, Touches}
use aqueduct_test.Executor.Run.Ran.{result, Ran}
use aqueduct_test.Executor.Run.Results.{run_module-Ran}
use aqueduct_test.Executor.Run.{run_component, finished, execute_serial}

abbrev pub names : List ModuleResult → List String
names rs = map (λ r. r.module_id) rs

-- No module of the list puts a slot at the key.
abbrev pub NoneOwns : List Module → String → Type 0
NoneOwns ms k = All (λ m. owns m.id' k ≡ false) ms

module _ {F : Type 0} where
  -- The modules ran from one state to another.
  pub record Completes (ms : List Module) (s s' : RunState F) : Type 0 where
    pub added : List ModuleResult
    pub adds : results s' ≡ results s ++ added
    pub names_added : names added ≡ ids_of ms
    pub keeps : (k : String) → NoneOwns ms k → get_at k s'.frames ≡ get_at k s.frames
    pub stays_due : AreDue s.effects → AreDue s'.effects
    pub logs_own :
        (x : Effect F) → Member x s'.effects → Member x s.effects ⊎ Member (about x) (ids_of ms)

  -- The run stopped at a module, whose result is an error.
  pub record StopsAt (ms : List Module) (s s' : RunState F) : Type 0 where
    pub front : List Module
    pub last : Module
    pub back : List Module
    pub split : ms ≡ front ++ (last ∷ back)
    pub text : String
    pub added : List ModuleResult
    pub adds : results s' ≡ results s ++ (added ++ (result last error (some text) ∷ []))
    pub names_added : names added ≡ ids_of front
    pub stays_due : AreDue s.effects → AreDue s'.effects

  abbrev pub RunOf : List Module → RunState F → Next F → Type 0
  RunOf ms s (goes_on s') = Completes ms s s'
  RunOf ms s (stops b s') = StopsAt ms s s'
  RunOf ms s (throws e s') = AreDue s.effects → AreDue s'.effects

  Completes-nil : (s : RunState F) → Completes [] s s
  Completes-nil s = record {
    added = [];
    adds = sym (append-nil (results s));
    names_added = refl;
    keeps = λ k h. refl;
    stays_due = λ d. d;
    logs_own = λ x m. inl m;
  }

  module _ (m : Module) (ms : List Module) (s s1 : RunState F) (status : Status)
      (text : Option String) (t : Touches m.id' s s1 (result m status text ∷ [])) where
    logs_both :
        (s' : RunState F) (c : Completes ms s1 s') (x : Effect F)
        → Member x s'.effects
        → Member x s.effects ⊎ Member (about x) (m.id' ∷ ids_of ms)
    logs_both s' c x i = elim (c.logs_own x i) [
      | inr later ↦ inr (there (about x) m.id' (ids_of ms) later)
      | inl before ↦ elim (t.logs_own x before) [
        | inl old ↦ inl old
        | inr own ↦ inr (rw own (here m.id' (ids_of ms)))
      ]
    ]

    Completes-cons : (s' : RunState F) → Completes ms s1 s' → Completes (m ∷ ms) s s'
    Completes-cons s' c = record {
      added = result m status text ∷ c.added;
      adds = c.adds ∙ (ap (λ rs. rs ++ c.added) t.adds ∙ append_assoc (results s) _ c.added);
      names_added = ap (λ ns. m.id' ∷ ns) c.names_added;
      keeps = λ k h. c.keeps k h.1 ∙ t.keeps k h.0;
      stays_due = λ d. c.stays_due (t.stays_due d);
      logs_own = logs_both s' c;
    }

    StopsAt-cons : (s' : RunState F) → StopsAt ms s1 s' → StopsAt (m ∷ ms) s s'
    StopsAt-cons s' c = record {
      front = m ∷ c.front;
      last = c.last;
      back = c.back;
      split = ap (λ ns. m ∷ ns) c.split;
      text = c.text;
      added = result m status text ∷ c.added;
      adds =
          c.adds
          ∙ (ap (λ rs. rs ++ (c.added ++ (result c.last error (some c.text) ∷ []))) t.adds
              ∙ append_assoc (results s) _ _);
      names_added = ap (λ ns. m.id' ∷ ns) c.names_added;
      stays_due = λ d. c.stays_due (t.stays_due d);
    }

    RunOf-cons : (n : Next F) → RunOf ms s1 n → RunOf (m ∷ ms) s n
    RunOf-cons (goes_on s') c = Completes-cons s' c
    RunOf-cons (stops b s') c = StopsAt-cons s' c
    RunOf-cons (throws e s') c = λ d. c (t.stays_due d)

  RunOf-head :
      (m : Module) (ms : List Module) (s : RunState F) (n : Next F) (rest : RunState F → Next F)
      → Ran m s n
      → ((s1 : RunState F) → RunOf ms s1 (rest s1))
      → RunOf (m ∷ ms) s (n >>= rest)
  RunOf-head m ms s (goes_on s1) rest (status, text, t) later =
      RunOf-cons m ms s s1 status text t (rest s1) (later s1)
  RunOf-head m ms s (stops b s1) rest (text, t) later = record {
    front = [];
    last = m;
    back = ms;
    split = refl;
    text = text;
    added = [];
    adds = t.adds;
    names_added = refl;
    stays_due = t.stays_due;
  }
  RunOf-head m ms s (throws e s1) rest t later = t

module _ {F : Type 0} (w : World F) (plan : Plan F) where
  pub run_component-RunOf :
      (is_cancelled : String → Bool) (ms : List Module) (s : RunState F)
      → RunOf ms s (run_component w plan is_cancelled ms s)
  unfolding run_component
  run_component-RunOf is_cancelled [] s = Completes-nil s
  run_component-RunOf is_cancelled (m ∷ ms) s =
      RunOf-head m ms s _ (run_component w plan is_cancelled ms)
        (run_module-Ran w plan m (is_cancelled m.id') s) (run_component-RunOf is_cancelled ms)

  pub run_component-Completes :
      (is_cancelled : String → Bool) (ms : List Module) (s s' : RunState F)
      → run_component w plan is_cancelled ms s ≡ goes_on s'
      → Completes ms s s'
  run_component-Completes is_cancelled ms s s' e = rw e at (run_component-RunOf is_cancelled ms s)

-- What a run of an order returns: either each module has its result, or the modules before the one
-- that stopped it and that one have, whose result is an error.
abbrev pub IsOutcome : List Module → Try RunError ExecutionResult → Type 0
IsOutcome order (raises e) = Unit
IsOutcome order (returns r) =
    ((r.status ≡ success) × (names r.module_results ≡ ids_of order))
    ⊎ ((r.status ≡ error)
        × (front : List Module) × (last : Module) × (back : List Module) × (order
            ≡ front ++ (last ∷ back))
        × (rs : List ModuleResult) × (text : String) × (r.module_results
            ≡ rs ++ (result last error (some text) ∷ []))
        × (names rs ≡ ids_of front))

module _ {F : Type 0} where
  abbrev pub HasDueEffects : Next F → Type 0
  HasDueEffects (goes_on s') = AreDue s'.effects
  HasDueEffects (stops b s') = AreDue s'.effects
  HasDueEffects (throws e s') = AreDue s'.effects

  due_at_end : (ms : List Module) (n : Next F) → RunOf ms new_state n → HasDueEffects n
  due_at_end ms (goes_on s') c = c.stays_due tt
  due_at_end ms (stops b s') c = c.stays_due tt
  due_at_end ms (throws e s') c = c tt

module _ {F : Type 0} (w : World F) (plan : Plan F) where
  finished-IsOutcome :
      (order : List Module) (n : Next F)
      → RunOf order new_state n
      → IsOutcome order (finished w plan n)
  finished-IsOutcome order (goes_on s') c = inl (refl, ap names c.adds ∙ c.names_added)
  finished-IsOutcome order (stops b s') c =
      inr (refl, c.front, c.last, c.back, c.split, c.added, c.text, c.adds, c.names_added)
  finished-IsOutcome order (throws e s') c = tt

  pub execute_serial_lem : (order : List Module) → IsOutcome order (execute_serial w plan order)
  unfolding execute_serial
  execute_serial_lem order =
      finished-IsOutcome order _ (run_component-RunOf w plan (λ _. false) order new_state)

  -- Each watermark that a run writes to the sidecar or to the depot comes after the write of the
  -- Egress that it is for, however the run ends and whatever other runs cancel.
  pub run_component-HasDueEffects :
      (is_cancelled : String → Bool) (ms : List Module)
      → HasDueEffects (run_component w plan is_cancelled ms new_state)
  run_component-HasDueEffects is_cancelled ms =
      due_at_end ms _ (run_component-RunOf w plan is_cancelled ms new_state)
