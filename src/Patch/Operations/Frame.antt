-- ===== src/Patch/Operations/Frame.antt =====
-- Which keys of the Blueprint an operation may change.
use aqueduct_test.Base.{
  ◌≡◌, refl, ◌≢◌, Bool, false, not, ◌||◌, or-eq-false, eq-false-ne, String, string_eq, ◌==◌, List,
}
use aqueduct_test.Patch.Value.{Value, str, obj, Fields, get, truthy?, or_null, is_text}
use aqueduct_test.Patch.Grammar.{
  PatchOp, replace_module_config, set_module_config_key, replace_module_label, insert_module,
  remove_module, replace_context_value, add_probe, replace_edge, set_module_on_failure,
  replace_retry_policy, add_arcade_ref, defer_to_human, set_spark_config,
}
use aqueduct_test.Patch.Result.{
  id_required, wrong_type, ref_required, attach_to_required, id_exists, reject_if,
}
use aqueduct_test.Patch.Blueprint.{find_module, has_id, items_of}
use aqueduct_test.Patch.Operations.{
  set_entry, add_new, apply_insert_module, apply_add_arcade_ref, apply_add_probe, apply_operation,
}
use aqueduct_test.Patch.Operations.Kept.{
  Keeps, keeps, Keeps-bind, Keeps-then, put-Keeps, update_module-Keeps, append_module-Keeps,
  remove_edges-Keeps, add_edges-Keeps, remove_module-Keeps, replace_edge-Keeps,
  set_spark_config-Keeps, replace_context_value-Keeps,
}

-- The keys that an operation names.
abbrev pub writes : PatchOp → String → Bool
writes (replace_module_config _ _) k = k == "modules"
writes (set_module_config_key _ _ _) k = k == "modules"
writes (replace_module_label _ _) k = k == "modules"
writes (insert_module _ _ _) k = k == "modules" || k == "edges"
writes (remove_module _ _) k = k == "modules" || k == "edges"
writes (replace_context_value _ _) k = k == "context"
writes (add_probe _ _) k = k == "modules" || k == "edges"
writes (replace_edge _ _ _ _ _) k = k == "edges"
writes (set_module_on_failure _ _) k = k == "modules"
writes (replace_retry_policy _) k = k == "retry_policy"
writes (add_arcade_ref _ _ _) k = k == "modules" || k == "edges"
writes (defer_to_human _ _ _) k = false
writes (set_spark_config _ _) k = k == "spark_config"

module _ (reload : Value → Value) (k : String) where
  add_new-Keeps :
      (new : Fields) (edges_to_add edges_to_remove : List Fields) (bp : Fields)
      → k ≢ "modules"
      → k ≢ "edges"
      → Keeps k bp (add_new reload new edges_to_add edges_to_remove bp)
  add_new-Keeps new edges_to_add edges_to_remove bp hm he =
      Keeps-bind (items_of "modules" bp) λ modules.
        Keeps-bind (has_id (or_null (get "id" new)) modules) λ exists.
          Keeps-bind (reject_if exists id_exists) λ _.
            Keeps-then (append_module-Keeps k (reload (obj new)) bp hm) λ bp'.
              Keeps-then (remove_edges-Keeps k edges_to_remove bp' he)
                λ bp''. add_edges-Keeps k edges_to_add bp'' he

  insert_module-Keeps :
      (bp new : Fields) (edges_to_add edges_to_remove : List Fields)
      → k ≢ "modules"
      → k ≢ "edges"
      → Keeps k bp (apply_insert_module reload bp new edges_to_add edges_to_remove)
  unfolding apply_insert_module
  insert_module-Keeps bp new edges_to_add edges_to_remove hm he =
      Keeps-bind (reject_if (not (truthy? (get "id" new))) id_required)
        λ _. add_new-Keeps new edges_to_add edges_to_remove bp hm he

  add_arcade_ref-Keeps :
      (bp new : Fields) (edges_to_add edges_to_remove : List Fields)
      → k ≢ "modules"
      → k ≢ "edges"
      → Keeps k bp (apply_add_arcade_ref reload bp new edges_to_add edges_to_remove)
  unfolding apply_add_arcade_ref
  add_arcade_ref-Keeps bp new edges_to_add edges_to_remove hm he =
      Keeps-bind (reject_if (not (truthy? (get "id" new))) id_required) λ _.
        Keeps-bind (reject_if (not (is_text "Arcade" (get "type" new))) wrong_type) λ _.
          Keeps-bind (reject_if (not (truthy? (get "ref" new))) ref_required)
            λ _. add_new-Keeps new edges_to_add edges_to_remove bp hm he

  add_probe-Keeps :
      (bp new : Fields) (edges_to_add : List Fields)
      → k ≢ "modules"
      → k ≢ "edges"
      → Keeps k bp (apply_add_probe reload bp new edges_to_add)
  unfolding apply_add_probe
  add_probe-Keeps bp new edges_to_add hm he =
      Keeps-bind (reject_if (not (truthy? (get "id" new))) id_required) λ _.
        Keeps-bind (reject_if (not (is_text "Probe" (get "type" new))) wrong_type) λ _.
          Keeps-bind (reject_if (not (truthy? (get "attach_to" new))) attach_to_required) λ _.
            Keeps-bind (find_module bp (or_null (get "attach_to" new))) λ _.
              Keeps-then (append_module-Keeps k (reload (obj new)) bp hm)
                λ bp'. add_edges-Keeps k edges_to_add bp' he

  pub apply_operation-Keeps :
      (bp : Fields) (op : PatchOp) → writes op k ≡ false → Keeps k bp (apply_operation reload bp op)
  unfolding apply_operation
  apply_operation-Keeps bp (replace_module_config module_id config) h =
      update_module-Keeps k module_id (set_entry reload "config" (reload (obj config))) bp
        (eq-false-ne h)
  apply_operation-Keeps bp (set_module_config_key module_id _ _) h =
      update_module-Keeps k module_id _ bp (eq-false-ne h)
  apply_operation-Keeps bp (replace_module_label module_id label) h =
      update_module-Keeps k module_id (set_entry reload "label" (str label)) bp (eq-false-ne h)
  apply_operation-Keeps bp (insert_module new added removed) h =
      let (hm, he) = or-eq-false h in
      insert_module-Keeps bp new added removed (eq-false-ne hm) (eq-false-ne he)
  apply_operation-Keeps bp (remove_module module_id added) h =
      let (hm, he) = or-eq-false h in
      remove_module-Keeps k bp module_id added (eq-false-ne hm) (eq-false-ne he)
  apply_operation-Keeps bp (replace_context_value key v) h =
      replace_context_value-Keeps k bp key v (eq-false-ne h)
  apply_operation-Keeps bp (add_probe new added) h =
      let (hm, he) = or-eq-false h in add_probe-Keeps bp new added (eq-false-ne hm) (eq-false-ne he)
  apply_operation-Keeps bp (replace_edge from_id to_id new_from new_to new_port) h =
      replace_edge-Keeps k bp from_id to_id new_from new_to new_port (eq-false-ne h)
  apply_operation-Keeps bp (set_module_on_failure module_id on_failure) h =
      update_module-Keeps k module_id (set_entry reload "on_failure" (obj on_failure)) bp
        (eq-false-ne h)
  apply_operation-Keeps bp (replace_retry_policy policy) h =
      keeps _ (put-Keeps k "retry_policy" (obj policy) bp (eq-false-ne h))
  apply_operation-Keeps bp (add_arcade_ref new added removed) h =
      let (hm, he) = or-eq-false h in
      add_arcade_ref-Keeps bp new added removed (eq-false-ne hm) (eq-false-ne he)
  apply_operation-Keeps bp (defer_to_human _ _ _) h = keeps bp refl
  apply_operation-Keeps bp (set_spark_config key v) h =
      set_spark_config-Keeps k bp key v (eq-false-ne h)
