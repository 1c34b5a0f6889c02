-- ===== src/Executor/Run/Channel.antt =====
-- aqueduct/executor/spark/executor.py: the Channel branch of `execute`, with the watermark of an
-- incremental Channel and the split of the spillway, and what an Egress does with the watermark.
use aqueduct_test.Base.{
  Bool, true, false, not, ◌&&◌, String, string_eq, ◌==◌, ◌<>◌, if◌then◌else◌, Option, none, some,
  List, [], ◌∷◌, any, Try, returns, raises,
}
use aqueduct_test.Patch.Value.{Value, str, get, put, truthy?, is_text}
use aqueduct_test.Parser.Models.{Module, Edge}
use aqueduct_test.Executor.Models.{RetryPolicy}
use aqueduct_test.Executor.Selection.{SelectError, find_downstream_egress_ids}
use aqueduct_test.Executor.Run.Store.{put_at, get_at, drop_at, from_of}
use aqueduct_test.Executor.Run.State.{
  World, Plan, RunState, Watermark, Next, goes_on, throws, attribute_error, invalid_on_failure,
  out_of_rounds, succeed, log, watermark_written, depot_written,
}
use aqueduct_test.Executor.Run.Steps.{
  module_retry_policy, or_empty, measured, write_checkpoint, put_frame, handled, reading, pass_on,
  close_own,
}

unfoldable pub has_spillway_edge : List Edge → Module → Bool
has_spillway_edge edges m = any (λ e. e.from_id == m.id' && e.port == "spillway") edges

abbrev pub spillway_key : Module → String
spillway_key m = m.id' <> ".spillway"

-- `a or b` of texts, where the empty one is falsy too.
abbrev pub or_next : Option String → String → String
or_next none next = next
or_next (some s) next = if s == "" then next else s

module _ {F : Type 0} (w : World F) (plan : Plan F) where
  abbrev pub is_incremental : Module → Bool
  is_incremental m = is_text "incremental" (get "materialize" m.config)

  abbrev pub depot_key_of : Module → String
  depot_key_of m = plan.blueprint_id <> (":" <> (m.id' <> ":_watermark"))

  abbrev pub from_depot : Option (String → String) → String → Option String
  from_depot none key = none
  from_depot (some depot_get) key = some (depot_get key)

  -- The sidecar's value, the depot's, or the first of all times. The sidecar is read below
  -- `store_dir`.
  unfoldable pub watermark_value : Module → String
  watermark_value m =
      or_next (if plan.has_store_dir then w.read_watermark_sidecar m.id' else none)
        (or_next (from_depot w.depot_get (depot_key_of m)) "1900-01-01 00:00:00")

  abbrev pub with_query : Module → String → String → Module
  with_query m query patched =
      if patched == query then m else record m { config = put "query" (str patched) m.config }

  -- `query.replace`, which only a text has.
  abbrev pub injected : Module → Option Value → Option Module
  injected m none =
      some (with_query m "" (w.replace "" "${ctx._watermark}" ("'" <> (watermark_value m <> "'"))))
  injected m (some (str query)) =
      some (
        with_query m query
          (w.replace query "${ctx._watermark}" ("'" <> (watermark_value m <> "'"))))
  injected m (some _) = none

  unfoldable pub channel_module : Module → Option Module
  channel_module m = if is_incremental m then injected m (get "query" m.config) else some m

  -- By `spillway_condition` and by whether a spillway edge leaves the Channel.
  abbrev pub split_rows : Bool → Bool → Module → String → F → RunState F → RunState F
  split_rows true true m condition df s =
      put_frame w plan (spillway_key m) (w.add_error_columns m.id' (w.filter_rows condition df))
        (put_frame w plan m.id' (w.filter_rows ("NOT (" <> (condition <> ")")) df) s)
  split_rows false true m condition df s =
      put_frame w plan (spillway_key m) (w.filter_rows "1=0" df) (put_frame w plan m.id' df s)
  split_rows _ false m condition df s = put_frame w plan m.id' df s

  unfoldable pub spillway_split : Module → F → RunState F → RunState F
  unfolding has_spillway_edge get
  spillway_split m df s =
      split_rows (truthy? (get "spillway_condition" m.config)) (has_spillway_edge plan.edges m) m
        (or_empty w.show (get "spillway_condition" m.config)) df s

  unfoldable pub register : Watermark → List String → RunState F → RunState F
  unfolding put_at
  register mark [] s = s
  register mark (eg ∷ egs) s = register mark egs (record s { pending = put_at eg mark s.pending })

  abbrev pub registered :
      Module → Value → Try SelectError (List String) → (RunState F → Next F) → RunState F → Next F
  registered m column (raises e) next s = throws out_of_rounds s
  registered m column (returns egs) next s =
      next (
        register (record { channel_id = m.id'; column = column; depot_key = depot_key_of m }) egs s)

  abbrev pub defer_column : Module → Option Value → (RunState F → Next F) → RunState F → Next F
  defer_column m none next s = next s
  defer_column m (some column) next s =
      if truthy? (some column)
      then registered m column (find_downstream_egress_ids m.id' plan.modules plan.edges) next s
      else next s

  -- `if _incremental and _watermark_col`
  unfoldable pub defer_watermark : Module → (RunState F → Next F) → RunState F → Next F
  defer_watermark m next s =
      if is_incremental m then defer_column m (get "watermark_column" m.config) next s else next s

  -- The frame that the split left at the Channel's key is saved.
  abbrev pub kept : Module → F → F
  kept m df =
      if truthy? (get "spillway_condition" m.config) && has_spillway_edge plan.edges m
      then w.filter_rows ("NOT (" <> (or_empty w.show (get "spillway_condition" m.config) <> ")"))
          df
      else df

  unfoldable pub channel_ran : Module → F → RunState F → Next F
  unfolding spillway_split defer_watermark write_checkpoint
  channel_ran m df s =
      defer_watermark m
        (λ s'.
          goes_on (
            succeed m
              (write_checkpoint w plan m (("data", kept m df) ∷ []) (measured w plan m s'))))
        (spillway_split m df s)

  -- A query that is no text; the policy is read before it.
  abbrev pub no_query : Module → Option RetryPolicy → RunState F → Next F
  no_query m none s = throws (invalid_on_failure m.id') s
  no_query m (some policy) s = throws (attribute_error m.id') s

  abbrev pub channel_call : Module → List (String × F) → Option Module → RunState F → Next F
  channel_call m upstream none s = no_query m (module_retry_policy w plan m.on_failure) s
  channel_call m upstream (some called) s =
      handled w plan m (close_own w plan m) (channel_ran m) (w.execute_sql_channel called upstream)
        s

  unfoldable pub run_channel : Module → List Edge → RunState F → Next F
  unfolding reading channel_module
  run_channel m edges s =
      reading w plan from_of from_of ("[" <> (m.id' <> "] Channel has no main-port incoming edges"))
        m edges (pass_on w plan m) (λ upstream. channel_call m upstream (channel_module m)) s

  -- After the Egress is written: the new value goes to the sidecar and the depot.
  abbrev pub store_watermark : Module → Watermark → Option String → RunState F → RunState F
  store_watermark m mark none s = s
  store_watermark m mark (some value) s =
      let s' =
        if plan.has_store_dir then log (watermark_written m.id' mark.channel_id value) s else s in
      elim w.depot_get [ none ↦ s' | some _ ↦ log (depot_written m.id' mark.depot_key value) s' ]

  abbrev pub settle : Module → Option Watermark → RunState F → RunState F
  settle m none s = s
  settle m (some mark) s =
      let s' = record s { pending = drop_at m.id' s.pending } in
      if truthy? (get "path" m.config) && not (is_text "depot" (get "format" m.config))
      then store_watermark m mark (w.compute_watermark m mark.column) s'
      else s'

  unfoldable pub update_watermark : Module → RunState F → RunState F
  unfolding get_at
  update_watermark m s = settle m (get_at m.id' s.pending) s
