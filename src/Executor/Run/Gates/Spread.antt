-- ===== src/Executor/Run/Gates/Spread.antt =====
-- A closed gate spreads: in a run that completes, what a closed key leads to is skipped.
use aqueduct_test.Base.{
  ◌≡◌, ◌≢◌, refl, sym, ap, subst, ◌∙◌, Bool, false, String, ◌⊎◌, inl, inr, Option, none, some, List,
  [], ◌∷◌, ◌++◌, Member, here, there, Member-append_left, Member-append_right, contains,
  contains-of_Member, string_eq, All, All-of_Member,
}
use aqueduct_test.Parser.Models.{Module}
use aqueduct_test.Executor.Models.{Status, skipped, ModuleResult}
use aqueduct_test.Executor.Order.{ids_of}
use aqueduct_test.Executor.Run.State.{
  World, Checkpoints, Plan, RunState, Next, goes_on, stops, throws, results, Effect, ◌>>=◌,
}
use aqueduct_test.Executor.Run.Touches.{about, Touches}
use aqueduct_test.Executor.Run.Ran.{result, Ran}
use aqueduct_test.Executor.Run.Components.{NoneOwns, Completes}
use aqueduct_test.Executor.Run.{Kind, kind_of, run_kind, or_resume, is_excluded, run_supported}
use aqueduct_test.Executor.Run.Gates.{awaited, passed_on, IsClosed}
use aqueduct_test.Executor.Run.Gates.Skipped.{IsSkipped, run_kind-IsSkipped}

module _ {F : Type 0} (w : World F) (plan : Plan F) where
  abbrev pub awaits : Module → List String
  awaits m = awaited w plan (kind_of m.type') m

  abbrev pub passes : Module → List String
  passes m = passed_on w plan (kind_of m.type') m

  abbrev pub is_resumed : Option (Checkpoints F) → Module → Bool
  is_resumed none m = false
  is_resumed (some c) m = c.is_done m.id'

  -- Neither a selector nor a resumed run leaves the module out.
  abbrev pub IsRun : Module → Type 0
  IsRun m = (is_excluded w plan plan.included m ≡ false) × (is_resumed plan.resume m ≡ false)

  -- In the order, the modules that put a slot at a key that a module awaits come before it, and
  -- no later module puts one where it passes the sentinel on. No id comes twice.
  abbrev pub IsWired : List Module → Type 0
  IsWired [] = Unit
  IsWired (m ∷ ms) =
      All (NoneOwns (m ∷ ms)) (awaits m)
      × All (NoneOwns ms) (passes m)
      × (contains (ids_of ms) m.id' ≡ false)
      × IsWired ms

  -- The modules of the order that a key leads to, from one to the next.
  pub data LeadsTo (order : List Module) : String → Module → Type 0 where
    at_once : (k : String) (m : Module) → Member m order → Member k (awaits m) → LeadsTo order k m
    behind :
        (k j : String) (m n : Module)
        → Member m order
        → Member k (awaits m)
        → Member j (passes m)
        → LeadsTo order j n
        → LeadsTo order k n

  -- Skipped, with no effect, and the sentinel passed on.
  pub record IsShut (s' : RunState F) (m : Module) : Type 0 where
    pub is_skipped : Member (result m skipped none) (results s')
    pub has_no_effect : (x : Effect F) → Member x s'.effects → about x ≢ m.id'
    pub is_passed_on : (k : String) → Member k (passes m) → IsClosed s' k

  or_resume_runs :
      (resume : Option (Checkpoints F)) (kind : Kind) (m : Module) (s : RunState F)
      → is_resumed resume m ≡ false
      → or_resume w plan resume kind m s ≡ run_kind w plan kind m s
  or_resume_runs none kind m s h = refl
  or_resume_runs (some c) kind m s h = rw h refl

  pub supported-IsSkipped :
      (kind : Option Kind) (m : Module) (s s1 : RunState F) (k : String)
      → IsRun m
      → Member k (awaited w plan kind m)
      → IsClosed s k
      → run_supported w plan kind m s ≡ goes_on s1
      → IsSkipped w plan m (passed_on w plan kind m) s s1
  supported-IsSkipped none m s s1 k run i closed e = cc
  supported-IsSkipped (some kind) m s s1 k run i closed e =
      run_kind-IsSkipped w plan m kind s s1 k i closed
        (sym (or_resume_runs plan.resume kind m s run.1) ∙ (rw run.0 at e))

  pub after_head :
      (n : Next F) (rest : RunState F → Next F) (s' : RunState F)
      → (n >>= rest) ≡ goes_on s'
      → (s1 : RunState F) × (n ≡ goes_on s1) × (rest s1 ≡ goes_on s')
  after_head (goes_on s1) rest s' e = (s1, refl, e)
  after_head (stops b s1) rest s' e = cc
  after_head (throws x s1) rest s' e = cc

  pub head-Touches :
      (m : Module) (s s1 : RunState F) (n : Next F)
      → Ran m s n
      → n ≡ goes_on s1
      → (status : Status) × (text : Option String) × Touches m.id' s s1 (result m status text ∷ [])
  head-Touches m s s1 (goes_on s2) t e = subst (λ (n : Next F). Ran m s n) e t
  head-Touches m s s1 (stops b s2) t e = cc
  head-Touches m s s1 (throws x s2) t e = cc

  pub absent : (id' : String) (ids : List String) → contains ids id' ≡ false → ¬ Member id' ids
  absent id' ids h i = cc (h, contains-of_Member id' ids i)

  -- As `IsShut`, for a run that starts anywhere.
  pub record IsShutFrom (s s' : RunState F) (m : Module) : Type 0 where
    pub is_skipped : Member (result m skipped none) (results s')
    pub adds_nothing : (x : Effect F) → Member x s'.effects → Member x s.effects ⊎ (about x ≢ m.id')
    pub is_passed_on : (k : String) → Member k (passes m) → IsClosed s' k

  id_of_Member : (m : Module) (ms : List Module) → Member m ms → Member m.id' (ids_of ms)
  id_of_Member m _ (here _ ms) = here m.id' (ids_of ms)
  id_of_Member m _ (there _ n ms i) = there m.id' n.id' (ids_of ms) (id_of_Member m ms i)

  pub shut_head :
      (m : Module) (ms : List Module) (s s1 s' : RunState F)
      → (¬ Member m.id' (ids_of ms))
      → All (NoneOwns ms) (passes m)
      → IsSkipped w plan m (passes m) s s1
      → Completes ms s1 s'
      → IsShutFrom s s' m
  shut_head m ms s s1 s' new own h c = record {
    is_skipped =
        subst (Member (result m skipped none)) (sym (c.adds ∙ ap (λ rs. rs ++ c.added) h.adds))
          (Member-append_left _ _ c.added (Member-append_right _ (results s) _ (here _ [])));
    adds_nothing = λ x i. elim (c.logs_own x i) [
      | inl before ↦ inl (subst (Member x) h.does_nothing before)
      | inr later ↦ inr (λ same. new (subst (λ v. Member v (ids_of ms)) same later))
    ];
    is_passed_on = λ k i. c.keeps k (All-of_Member (NoneOwns ms) k (passes m) own i) ∙ h.closes k i;
  }

  pub shut_tail :
      (n m : Module) (ms : List Module) (s s1 s' : RunState F) (added : List ModuleResult)
      → (¬ Member n.id' (ids_of ms))
      → Member m ms
      → Touches n.id' s s1 added
      → IsShutFrom s1 s' m
      → IsShutFrom s s' m
  shut_tail n m ms s s1 s' added new i t h = record {
    is_skipped = h.is_skipped;
    adds_nothing = λ x j. elim (h.adds_nothing x j) [
      | inr other ↦ inr other
      | inl before ↦ elim (t.logs_own x before) [
        | inl old ↦ inl old
        | inr own ↦
            inr (λ same.
              new (subst (λ v. Member v (ids_of ms)) (sym same ∙ own) (id_of_Member m ms i)))
      ]
    ];
    is_passed_on = h.is_passed_on;
  }
