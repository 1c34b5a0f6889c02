-- ===== src/Executor/Run/Quiet.antt =====
-- The parts of a branch that add no result: what they touch.
use aqueduct_test.Base.{
  refl, Bool, true, false, ◌&&◌, ◌||◌, String, string_eq, if◌then◌else◌, Option, none, some, List,
  [], ◌∷◌,
}
use aqueduct_test.Parser.Models.{Module}
use aqueduct_test.Executor.Run.Store.{frame, gate_closed, get_at}
use aqueduct_test.Executor.Run.State.{
  World, Plan, RunState, Watermark, log, metrics_written, checkpoint_saved, checkpoint_done,
  watermark_written, depot_written,
}
use aqueduct_test.Executor.Run.Steps.{
  measured, save_each, write_checkpoint, put_frame, put_each, close_each, branch_key,
}
use aqueduct_test.Executor.Run.Channel.{
  spillway_key, split_rows, spillway_split, register, store_watermark, settle, update_watermark,
}
use aqueduct_test.Executor.Run.Owned.{owns_self, owns_port}
use aqueduct_test.Executor.Run.Touches.{
  IsWritten, Touches, Touches-same, Touches-refl, Touches-trans, Touches-frame, Touches-log,
}

module _ {F : Type 0} (w : World F) (plan : Plan F) (m : Module) where
  -- One or the other, by a test.
  pub if-Touches :
      (b : Bool) (s s' s'' : RunState F)
      → Touches m.id' s s' []
      → Touches m.id' s s'' []
      → Touches m.id' s (if b then s' else s'') []
  if-Touches true s s' s'' t u = t
  if-Touches false s s' s'' t u = u

  pub measured-Touches : (s : RunState F) → Touches m.id' s (measured w plan m s) []
  measured-Touches s =
      if-Touches plan.has_observability_store s _ s
        (Touches-log m.id' (metrics_written m.id') s refl tt) (Touches-refl m.id' s)

  save_each-Touches :
      (frames : List (String × F)) (s : RunState F)
      → Touches m.id' s (save_each w plan m frames s) []
  unfolding save_each
  save_each-Touches [] s = Touches-log m.id' (checkpoint_done m.id') s refl tt
  save_each-Touches ((name, df) ∷ rest) s =
      if-Touches (w.can_save m.id' name) s _ s
        (Touches-trans m.id' s _ _ [] [] (Touches-log m.id' (checkpoint_saved m.id' name) s refl tt)
          (save_each-Touches rest (log (checkpoint_saved m.id' name) s)))
        (Touches-refl m.id' s)

  pub write_checkpoint-Touches :
      (frames : List (String × F)) (s : RunState F)
      → Touches m.id' s (write_checkpoint w plan m frames s) []
  unfolding write_checkpoint
  write_checkpoint-Touches frames s =
      if-Touches (plan.has_checkpoint_dir && (plan.checkpoint || m.checkpoint)) s _ s
        (save_each-Touches frames s) (Touches-refl m.id' s)

  -- Metrics, then the checkpoint, as all branches with a handler end.
  pub close_out-Touches :
      (frames : List (String × F)) (s : RunState F)
      → Touches m.id' s (write_checkpoint w plan m frames (measured w plan m s)) []
  close_out-Touches frames s =
      Touches-trans m.id' s _ _ [] [] (measured-Touches s) (write_checkpoint-Touches frames _)

  pub put_own-Touches : (df : F) (s : RunState F) → Touches m.id' s (put_frame w plan m.id' df s) []
  put_own-Touches df s = Touches-frame m.id' m.id' (frame df) s (owns_self m.id')

  pub put_spillway-Touches :
      (df : F) (s : RunState F) → Touches m.id' s (put_frame w plan (spillway_key m) df s) []
  put_spillway-Touches df s =
      Touches-frame m.id' (spillway_key m) (frame df) s (owns_port m.id' "spillway")

  pub close_each-Touches :
      (ids : List String) (s : RunState F) → Touches m.id' s (close_each w plan m ids s) []
  unfolding close_each branch_key
  close_each-Touches [] s = Touches-refl m.id' s
  close_each-Touches (b ∷ bs) s =
      Touches-trans m.id' s _ _ [] [] (Touches-frame m.id' _ gate_closed s (owns_port m.id' b))
        (close_each-Touches bs _)

  pub put_each-Touches :
      (branches : List (String × F)) (s : RunState F)
      → Touches m.id' s (put_each w plan m branches s) []
  unfolding put_each branch_key
  put_each-Touches [] s = Touches-refl m.id' s
  put_each-Touches ((b, df) ∷ rest) s =
      Touches-trans m.id' s _ _ [] [] (Touches-frame m.id' _ (frame df) s (owns_port m.id' b))
        (put_each-Touches rest _)

  split_rows-Touches :
      (b c : Bool) (condition : String) (df : F) (s : RunState F)
      → Touches m.id' s (split_rows w plan b c m condition df s) []
  split_rows-Touches true true condition df s =
      Touches-trans m.id' s _ _ [] [] (put_own-Touches _ s) (put_spillway-Touches _ _)
  split_rows-Touches false true condition df s =
      Touches-trans m.id' s _ _ [] [] (put_own-Touches df s) (put_spillway-Touches _ _)
  split_rows-Touches true false condition df s = put_own-Touches df s
  split_rows-Touches false false condition df s = put_own-Touches df s

  pub spillway_split-Touches :
      (df : F) (s : RunState F) → Touches m.id' s (spillway_split w plan m df s) []
  unfolding spillway_split
  spillway_split-Touches df s = split_rows-Touches _ _ _ df s

  pub register-Touches :
      (mark : Watermark) (egs : List String) (s : RunState F)
      → Touches m.id' s (register w plan mark egs s) []
  unfolding register
  register-Touches mark [] s = Touches-refl m.id' s
  register-Touches mark (eg ∷ egs) s =
      Touches-trans m.id' s _ _ [] [] (Touches-same m.id' s _ refl refl refl)
        (register-Touches mark egs _)

  module _ (mark : Watermark) (s : RunState F) (written : IsWritten s.effects m.id') where
    sidecar-Touches :
        (value : String)
        → Touches m.id' s
            (if plan.has_store_dir
              then log (watermark_written m.id' mark.channel_id value) s
              else s)
            []
    sidecar-Touches value =
        if-Touches plan.has_store_dir s _ s
          (Touches-log m.id' (watermark_written m.id' mark.channel_id value) s refl written)
          (Touches-refl m.id' s)

    depot-Touches :
        (value : String) (depot : Option (String → String)) (s' : RunState F)
        → Touches m.id' s s' []
        → Touches m.id' s
            (elim depot [ none ↦ s' | some _ ↦ log (depot_written m.id' mark.depot_key value) s' ])
            []
    depot-Touches value none s' t = t
    depot-Touches value (some get') s' t =
        let due : IsWritten s'.effects m.id' = (written.0, t.grows _ written.1) in
        Touches-trans m.id' s s' _ [] [] t
          (Touches-log m.id' (depot_written m.id' mark.depot_key value) s' refl due)

    store_watermark-Touches :
        (value : Option String) → Touches m.id' s (store_watermark w plan m mark value s) []
    store_watermark-Touches none = Touches-refl m.id' s
    store_watermark-Touches (some value) = depot-Touches value w.depot_get _ (sidecar-Touches value)

  settle-Touches :
      (mark : Option Watermark) (s : RunState F)
      → IsWritten s.effects m.id'
      → Touches m.id' s (settle w plan m mark s) []
  settle-Touches none s written = Touches-refl m.id' s
  settle-Touches (some mark) s written =
      let dropped = Touches-same m.id' s _ refl refl refl in
      if-Touches _ s _ _
        (Touches-trans m.id' s _ _ [] [] dropped (store_watermark-Touches mark _ written _)) dropped

  pub update_watermark-Touches :
      (s : RunState F)
      → IsWritten s.effects m.id'
      → Touches m.id' s (update_watermark w plan m s) []
  unfolding update_watermark
  update_watermark-Touches s written = settle-Touches (get_at m.id' s.pending) s written
