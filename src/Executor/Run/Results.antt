-- ===== src/Executor/Run/Results.antt =====
-- Which results a run of the modules ends with, and which effects it has.
use aqueduct_test.Base.{
  ◌≡◌, Bool, true, false, String, string_eq, if◌then◌else◌, Option, none, some, List, [], ◌∷◌,
}
use aqueduct_test.Patch.Value.{get}
use aqueduct_test.Parser.Models.{Module}
use aqueduct_test.Executor.Models.{success, skipped}
use aqueduct_test.Executor.Run.State.{
  World, Checkpoints, Plan, RunState, Next, goes_on, succeed, skip,
}
use aqueduct_test.Executor.Run.Steps.{branch_key, branch_ids}
use aqueduct_test.Executor.Run.Owned.{owns, owns_self, owns_port}
use aqueduct_test.Executor.Run.Touches.{Touches, Touches-refl, Touches-trans, Touches-frame}
use aqueduct_test.Executor.Run.Ran.{Ran, Ran-finish}
use aqueduct_test.Executor.Run.Modules.{run_kind-Ran}
use aqueduct_test.Executor.Run.{
  Kind, ingress, egress, channel, junction, funnel, probe, regulator, assert, kind_of, reload,
  reload_branches, resume_branches, resume_kind, or_resume, is_excluded, run_supported, run_module,
}

module _ {F : Type 0} (w : World F) (plan : Plan F) (m : Module) where
  reload-Touches :
      (key : String) (df : Option F) (s : RunState F)
      → owns m.id' key ≡ true
      → Touches m.id' s (reload w plan key df s) []
  reload-Touches key none s own = Touches-refl m.id' s
  reload-Touches key (some df) s own = Touches-frame m.id' key _ s own

  reload_branches-Touches :
      (c : Checkpoints F) (ids : List String) (s : RunState F)
      → Touches m.id' s (reload_branches w plan c m ids s) []
  unfolding reload_branches branch_key
  reload_branches-Touches c [] s = Touches-refl m.id' s
  reload_branches-Touches c (b ∷ bs) s =
      Touches-trans m.id' s _ _ [] []
        (reload-Touches (branch_key w plan m b) (c.saved m.id' b) s (owns_port m.id' b))
        (reload_branches-Touches c bs _)

  resume_branches-Ran :
      (c : Checkpoints F) (ids : Option (List String)) (s : RunState F)
      → Ran m s (resume_branches w plan c m ids s)
  resume_branches-Ran c none s = λ d. d
  resume_branches-Ran c (some ids) s =
      Ran-finish m success none s _ (reload_branches-Touches c ids s)

  reloaded-Ran :
      (c : Checkpoints F) (s : RunState F)
      → Ran m s (goes_on (succeed m (reload w plan m.id' (c.saved m.id' "data") s)))
  reloaded-Ran c s =
      Ran-finish m success none s _
        (reload-Touches m.id' (c.saved m.id' "data") s (owns_self m.id'))

  resume_kind-Ran :
      (c : Checkpoints F) (kind : Kind) (s : RunState F) → Ran m s (resume_kind w plan c kind m s)
  unfolding resume_kind
  resume_kind-Ran c ingress s = reloaded-Ran c s
  resume_kind-Ran c channel s = reloaded-Ran c s
  resume_kind-Ran c funnel s = reloaded-Ran c s
  resume_kind-Ran c junction s =
      resume_branches-Ran c (branch_ids w.show (get "branches" m.config)) s
  resume_kind-Ran c egress s = Ran-finish m success none s s (Touches-refl m.id' s)
  resume_kind-Ran c probe s = Ran-finish m success none s s (Touches-refl m.id' s)
  resume_kind-Ran c regulator s = Ran-finish m success none s s (Touches-refl m.id' s)
  resume_kind-Ran c assert s = Ran-finish m success none s s (Touches-refl m.id' s)

  if-Ran :
      (b : Bool) (n n' : Next F) (s : RunState F)
      → Ran m s n
      → Ran m s n'
      → Ran m s (if b then n else n')
  if-Ran true n n' s r r' = r
  if-Ran false n n' s r r' = r'

  or_resume-Ran :
      (resume : Option (Checkpoints F)) (kind : Kind) (s : RunState F)
      → Ran m s (or_resume w plan resume kind m s)
  or_resume-Ran none kind s = run_kind-Ran w plan m kind s
  or_resume-Ran (some c) kind s =
      if-Ran (c.is_done m.id') _ _ s (resume_kind-Ran c kind s) (run_kind-Ran w plan m kind s)

  skip-Ran : (s : RunState F) → Ran m s (goes_on (skip m s))
  skip-Ran s = Ran-finish m skipped none s s (Touches-refl m.id' s)

  run_supported-Ran :
      (kind : Option Kind) (s : RunState F) → Ran m s (run_supported w plan kind m s)
  run_supported-Ran none s = λ d. d
  run_supported-Ran (some kind) s =
      if-Ran (is_excluded w plan plan.included m) _ _ s (skip-Ran s)
        (or_resume-Ran plan.resume kind s)

  pub run_module-Ran :
      (is_cancelled : Bool) (s : RunState F) → Ran m s (run_module w plan is_cancelled m s)
  unfolding run_module
  run_module-Ran is_cancelled s =
      if-Ran is_cancelled _ _ s (skip-Ran s) (run_supported-Ran (kind_of m.type') s)
