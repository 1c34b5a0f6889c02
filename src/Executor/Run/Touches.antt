-- ===== src/Executor/Run/Touches.antt =====
-- What the run of one module changes: the results that it adds, the keys of the frame store and
-- the effects that are its own, and the order in which a watermark follows its Egress.
use mathlib.Core.List.{append-nil, append_assoc}
use aqueduct_test.Base.{
  ◌≡◌, refl, sym, ap, ◌∙◌, true, false, String, string_eq, ◌⊎◌, inl, inr, Option, List, [], ◌∷◌,
  ◌++◌, Member, there, Member-of_cons, arith,
}
use aqueduct_test.Parser.Models.{Module}
use aqueduct_test.Executor.Models.{Status, ModuleResult}
use aqueduct_test.Executor.Run.Store.{Slot, put_at, get_at, get_at-put_at}
use aqueduct_test.Executor.Run.State.{
  Effect, metrics_written, checkpoint_saved, checkpoint_done, egress_written, maintained,
  watermark_written, depot_written, probed, RunState, results, add_result, log,
}
use aqueduct_test.Executor.Run.Owned.{owns}

-- The module whose run has the effect.
abbrev pub about : {F : Type 0} → Effect F → String
about (metrics_written id') = id'
about (checkpoint_saved id' name) = id'
about (checkpoint_done id') = id'
about (egress_written id' df) = id'
about (maintained id') = id'
about (watermark_written id' channel value) = id'
about (depot_written id' key value) = id'
about (probed id' df) = id'

module _ {F : Type 0} where
  abbrev pub IsWritten : List (Effect F) → String → Type 0
  IsWritten effects id' = (df : F) × Member (egress_written id' df) effects

  -- A watermark goes to the sidecar or to the depot after its Egress is written.
  abbrev pub IsDue : Effect F → List (Effect F) → Type 0
  IsDue (watermark_written id' channel value) effects = IsWritten effects id'
  IsDue (depot_written id' key value) effects = IsWritten effects id'
  IsDue _ effects = Unit

  abbrev pub AreDue : List (Effect F) → Type 0
  AreDue [] = Unit
  AreDue (x ∷ effects) = IsDue x effects × AreDue effects

  pub record Touches (id' : String) (s s' : RunState F) (added : List ModuleResult) : Type 0 where
    pub adds : results s' ≡ results s ++ added
    pub keeps : (k : String) → owns id' k ≡ false → get_at k s'.frames ≡ get_at k s.frames
    pub stays_due : AreDue s.effects → AreDue s'.effects
    pub grows : (x : Effect F) → Member x s.effects → Member x s'.effects
    pub logs_own : (x : Effect F) → Member x s'.effects → Member x s.effects ⊎ (about x ≡ id')

  -- Nothing but the fields without a law changes.
  pub Touches-same :
      (id' : String) (s s' : RunState F)
      → results s' ≡ results s
      → s'.frames ≡ s.frames
      → s'.effects ≡ s.effects
      → Touches id' s s' []
  Touches-same id' s s' r f e = record {
    adds = r ∙ sym (append-nil (results s));
    keeps = λ k h. ap (get_at k) f;
    stays_due = λ d. rw e d;
    grows = λ x m. rw e m;
    logs_own = λ x m. inl (rw (← e) m);
  }

  pub Touches-refl : (id' : String) (s : RunState F) → Touches id' s s []
  Touches-refl id' s = Touches-same id' s s refl refl refl

  pub Touches-trans :
      (id' : String) (s s' s'' : RunState F) (xs ys : List ModuleResult)
      → Touches id' s s' xs
      → Touches id' s' s'' ys
      → Touches id' s s'' (xs ++ ys)
  Touches-trans id' s s' s'' xs ys t u = record {
    adds = u.adds ∙ (ap (λ rs. rs ++ ys) t.adds ∙ append_assoc (results s) xs ys);
    keeps = λ k h. u.keeps k h ∙ t.keeps k h;
    stays_due = λ d. u.stays_due (t.stays_due d);
    grows = λ x m. u.grows x (t.grows x m);
    logs_own =
        λ x m. elim (u.logs_own x m) [ inl before ↦ t.logs_own x before | inr own ↦ inr own ];
  }

  pub Touches-quiet :
      (id' : String) (s s' s'' : RunState F) (xs : List ModuleResult)
      → Touches id' s s' xs
      → Touches id' s' s'' []
      → Touches id' s s'' xs
  Touches-quiet id' s s' s'' xs t u = rw (append-nil xs) at (Touches-trans id' s s' s'' xs [] t u)

  kept_key :
      (id' key : String) (slot : Slot F) (s : RunState F)
      → owns id' key ≡ true
      → (k : String) → owns id' k ≡ false
      → get_at k (put_at key slot s.frames) ≡ get_at k s.frames
  kept_key id' key slot s own k h =
      ground (arith, get_at-put_at k key slot s.frames, ap (owns id'), own)

  pub Touches-frame :
      (id' key : String) (slot : Slot F) (s : RunState F)
      → owns id' key ≡ true
      → Touches id' s (record s { frames = put_at key slot s.frames }) []
  Touches-frame id' key slot s own = record {
    adds = sym (append-nil (results s));
    keeps = kept_key id' key slot s own;
    stays_due = λ d. d;
    grows = λ x m. m;
    logs_own = λ x m. inl m;
  }

  pub Touches-log :
      (id' : String) (y : Effect F) (s : RunState F)
      → about y ≡ id'
      → IsDue y s.effects
      → Touches id' s (log y s) []
  Touches-log id' y s own due = record {
    adds = sym (append-nil (results s));
    keeps = λ k h. refl;
    stays_due = λ d. (due, d);
    grows = λ x m. there x y s.effects m;
    logs_own = λ x m. elim (Member-of_cons x y s.effects m) [
      | inl same ↦ inr (ap about same ∙ own)
      | inr before ↦ inl before
    ];
  }

  pub Touches-result :
      (m : Module) (status : Status) (text : Option String) (s : RunState F)
      → Touches m.id' s
          (add_result m status text s)
          (record { module_id = m.id'; status = status; error_text = text } ∷ [])
  Touches-result m status text s = record {
    adds = refl;
    keeps = λ k h. refl;
    stays_due = λ d. d;
    grows = λ x i. i;
    logs_own = λ x i. inl i;
  }
