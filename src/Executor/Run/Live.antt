-- ===== src/Executor/Run/Live.antt =====
-- aqueduct/executor/spark/executor.py: the modules of a run whose handlers are called, and that
-- the effects of the run are theirs alone.
use aqueduct_test.Base.{
  ◌≡◌, refl, ◌∙◌, Bool, true, false, String, ◌⊎◌, inl, inr, if◌then◌else◌, Option, none, some, List,
  [], ◌∷◌, Member, here, there,
}
use aqueduct_test.Patch.Value.{get}
use aqueduct_test.Parser.Models.{Module}
use aqueduct_test.Executor.Run.State.{
  World, Checkpoints, Plan, RunState, new_state, Next, goes_on, stops, throws, Effect, ◌>>=◌, skip,
  succeed,
}
use aqueduct_test.Executor.Run.Steps.{branch_ids, put_frame}
use aqueduct_test.Executor.Run.Touches.{about}
use aqueduct_test.Executor.Run.Ran.{Ran}
use aqueduct_test.Executor.Run.Modules.{run_kind-Ran}
use aqueduct_test.Executor.Run.{
  Kind, ingress, egress, channel, junction, funnel, probe, regulator, assert, kind_of, reload,
  reload_branches, resume_branches, resume_kind, or_resume, is_excluded, run_supported, run_module,
  run_component,
}

abbrev pub IsUnfinished : {F : Type 0} → Option (Checkpoints F) → Module → Type 0
IsUnfinished none m = Unit
IsUnfinished (some c) m = c.is_done m.id' ≡ false

module _ {F : Type 0} where
  -- The effects that a run adds are about modules with the property.
  abbrev LogsOnly : (String → Type 0) → RunState F → Next F → Type 0
  LogsOnly P s (goes_on s') =
      (x : Effect F) → Member x s'.effects → Member x s.effects ⊎ P (about x)
  LogsOnly P s (stops b s') =
      (x : Effect F) → Member x s'.effects → Member x s.effects ⊎ P (about x)
  LogsOnly P s (throws e s') = Unit

  LogsOnly-same :
      (P : String → Type 0) (s s' : RunState F) → s'.effects ≡ s.effects → LogsOnly P s (goes_on s')
  LogsOnly-same P s s' e = λ x i. inl (rw (← e) i)

  LogsOnly-if :
      (P : String → Type 0) (s : RunState F) (b : Bool) (n n' : Next F)
      → LogsOnly P s n
      → (b ≡ false → LogsOnly P s n')
      → LogsOnly P s (if b then n else n')
  LogsOnly-if P s true n n' quiet live = quiet
  LogsOnly-if P s false n n' quiet live = live refl

module _ {F : Type 0} (w : World F) (plan : Plan F) (is_cancelled : String → Bool) where
  -- No other run failed before, the selectors include the module, and no checkpoint of it is done.
  abbrev pub IsLive : Module → Type 0
  IsLive m =
      (is_cancelled m.id' ≡ false)
      × (is_excluded w plan plan.included m ≡ false)
      × IsUnfinished plan.resume m

  abbrev pub IsLiveIn : List Module → String → Type 0
  IsLiveIn ms id' = (m : Module) × Member m ms × (id' ≡ m.id') × IsLive m

  module _ (m : Module) where
    abbrev IsOwn : String → Type 0
    IsOwn id' = (id' ≡ m.id') × IsLive m

    LogsOnly-of_Ran : (s : RunState F) (n : Next F) → IsLive m → Ran m s n → LogsOnly IsOwn s n
    LogsOnly-of_Ran s (goes_on s') live (status, text, t) =
        λ x i. elim (t.logs_own x i) [ inl old ↦ inl old | inr e ↦ inr (e, live) ]
    LogsOnly-of_Ran s (stops b s') live (text, t) =
        λ x i. elim (t.logs_own x i) [ inl old ↦ inl old | inr e ↦ inr (e, live) ]
    LogsOnly-of_Ran s (throws e s') live r = tt

    reload-effects :
        (key : String) (df : Option F) (s : RunState F)
        → (reload w plan key df s).effects ≡ s.effects
    reload-effects key none s = refl
    reload-effects key (some df) s = refl

    reload_branches-effects :
        (c : Checkpoints F) (ids : List String) (s : RunState F)
        → (reload_branches w plan c m ids s).effects ≡ s.effects
    unfolding reload_branches
    reload_branches-effects c [] s = refl
    reload_branches-effects c (b ∷ bs) s =
        reload_branches-effects c bs _ ∙ reload-effects _ (c.saved m.id' b) s

    resume_branches-LogsOnly :
        (c : Checkpoints F) (ids : Option (List String)) (s : RunState F)
        → LogsOnly IsOwn s (resume_branches w plan c m ids s)
    resume_branches-LogsOnly c none s = tt
    resume_branches-LogsOnly c (some ids) s =
        LogsOnly-same IsOwn s (succeed m (reload_branches w plan c m ids s))
          (reload_branches-effects c ids s)

    reloaded-LogsOnly :
        (df : Option F) (s : RunState F)
        → LogsOnly IsOwn s (goes_on (succeed m (reload w plan m.id' df s)))
    reloaded-LogsOnly none s = LogsOnly-same IsOwn s (succeed m s) refl
    reloaded-LogsOnly (some df) s =
        LogsOnly-same IsOwn s (succeed m (put_frame w plan m.id' df s)) refl

    resume_kind-LogsOnly :
        (c : Checkpoints F) (kind : Kind) (s : RunState F)
        → LogsOnly IsOwn s (resume_kind w plan c kind m s)
    unfolding resume_kind
    resume_kind-LogsOnly c ingress s = reloaded-LogsOnly (c.saved m.id' "data") s
    resume_kind-LogsOnly c channel s = reloaded-LogsOnly (c.saved m.id' "data") s
    resume_kind-LogsOnly c funnel s = reloaded-LogsOnly (c.saved m.id' "data") s
    resume_kind-LogsOnly c junction s =
        resume_branches-LogsOnly c (branch_ids w.show (get "branches" m.config)) s
    resume_kind-LogsOnly c egress s = LogsOnly-same IsOwn s (succeed m s) refl
    resume_kind-LogsOnly c probe s = LogsOnly-same IsOwn s (succeed m s) refl
    resume_kind-LogsOnly c regulator s = LogsOnly-same IsOwn s (succeed m s) refl
    resume_kind-LogsOnly c assert s = LogsOnly-same IsOwn s (succeed m s) refl

    or_resume-LogsOnly :
        (resume : Option (Checkpoints F)) (kind : Kind) (s : RunState F)
        → (IsUnfinished resume m → IsLive m)
        → LogsOnly IsOwn s (or_resume w plan resume kind m s)
    or_resume-LogsOnly none kind s live =
        LogsOnly-of_Ran s _ (live tt) (run_kind-Ran w plan m kind s)
    or_resume-LogsOnly (some c) kind s live =
        LogsOnly-if IsOwn s (c.is_done m.id') _ _ (resume_kind-LogsOnly c kind s)
          (λ e. LogsOnly-of_Ran s _ (live e) (run_kind-Ran w plan m kind s))

    run_supported-LogsOnly :
        (kind : Option Kind) (s : RunState F)
        → is_cancelled m.id' ≡ false
        → LogsOnly IsOwn s (run_supported w plan kind m s)
    run_supported-LogsOnly none s going = tt
    run_supported-LogsOnly (some kind) s going =
        LogsOnly-if IsOwn s (is_excluded w plan plan.included m) _ _
          (LogsOnly-same IsOwn s (skip m s) refl)
          (λ e. or_resume-LogsOnly plan.resume kind s (λ u. (going, e, u)))

    run_module-LogsOnly :
        (s : RunState F) → LogsOnly IsOwn s (run_module w plan (is_cancelled m.id') m s)
    unfolding run_module
    run_module-LogsOnly s =
        LogsOnly-if IsOwn s (is_cancelled m.id') _ _ (LogsOnly-same IsOwn s (skip m s) refl)
          (λ e. run_supported-LogsOnly (kind_of m.type') s e)

    -- The effects of the first module, then those of the others.
    both :
        (ms : List Module) (s s1 : RunState F) (effects : List (Effect F))
        → LogsOnly IsOwn s (goes_on s1)
        → ((x : Effect F) → Member x effects → Member x s1.effects ⊎ IsLiveIn ms (about x))
        → (x : Effect F) → Member x effects
        → Member x s.effects ⊎ IsLiveIn (m ∷ ms) (about x)
    both ms s s1 effects first later x i = elim (later x i) [
      | inr (n, j, e, live) ↦ inr (n, there n m ms j, e, live)
      | inl before ↦ elim (first x before) [
        | inl old ↦ inl old
        | inr (e, live) ↦ inr (m, here m ms, e, live)
      ]
    ]

    LogsOnly-cons :
        (ms : List Module) (s s1 : RunState F) (n : Next F)
        → LogsOnly IsOwn s (goes_on s1)
        → LogsOnly (IsLiveIn ms) s1 n
        → LogsOnly (IsLiveIn (m ∷ ms)) s n
    LogsOnly-cons ms s s1 (goes_on s') first later = both ms s s1 s'.effects first later
    LogsOnly-cons ms s s1 (stops b s') first later = both ms s s1 s'.effects first later
    LogsOnly-cons ms s s1 (throws e s') first later = tt

    LogsOnly-head :
        (ms : List Module) (s : RunState F) (n : Next F) (rest : RunState F → Next F)
        → LogsOnly IsOwn s n
        → ((s1 : RunState F) → LogsOnly (IsLiveIn ms) s1 (rest s1))
        → LogsOnly (IsLiveIn (m ∷ ms)) s (n >>= rest)
    LogsOnly-head ms s (goes_on s1) rest first later =
        LogsOnly-cons ms s s1 (rest s1) first (later s1)
    LogsOnly-head ms s (stops b s1) rest first later = both ms s s1 s1.effects first (λ x i. inl i)
    LogsOnly-head ms s (throws e s1) rest first later = tt

  run_component-LogsOnly :
      (ms : List Module) (s : RunState F)
      → LogsOnly (IsLiveIn ms) s (run_component w plan is_cancelled ms s)
  unfolding run_component
  run_component-LogsOnly [] s = λ x i. inl i
  run_component-LogsOnly (m ∷ ms) s =
      LogsOnly-head m ms s _ (run_component w plan is_cancelled ms) (run_module-LogsOnly m s)
        (run_component-LogsOnly ms)

  abbrev pub AreLive : List Module → Next F → Type 0
  AreLive ms (goes_on s') = (x : Effect F) → Member x s'.effects → IsLiveIn ms (about x)
  AreLive ms (stops b s') = (x : Effect F) → Member x s'.effects → IsLiveIn ms (about x)
  AreLive ms (throws e s') = Unit

  at_end : (ms : List Module) (n : Next F) → LogsOnly (IsLiveIn ms) new_state n → AreLive ms n
  at_end ms (goes_on s') logs = λ x i. elim (logs x i) [ inl old ↦ elim old [ ] | inr live ↦ live ]
  at_end ms (stops b s') logs = λ x i. elim (logs x i) [ inl old ↦ elim old [ ] | inr live ↦ live ]
  at_end ms (throws e s') logs = tt

  -- In a run that completes or stops at a module, each effect (a write of an Egress, a watermark, a
  -- checkpoint, metrics, a probe) is of a module that the selectors include, that no checkpoint of
  -- the resumed run marks as done, and before which no other run had failed.
  pub run_component-AreLive :
      (ms : List Module) → AreLive ms (run_component w plan is_cancelled ms new_state)
  run_component-AreLive ms = at_end ms _ (run_component-LogsOnly ms new_state)
