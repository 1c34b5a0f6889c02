-- ===== src/Patch/Operations.antt =====
-- aqueduct/patch/operations.py: the operations on a raw Blueprint, by the helpers of Patch.Blueprint.
-- The texts of the errors are left out; an error is its reason.
pub mod Edits
pub mod Kept
pub mod Frame
mod Tests
use aqueduct_test.Base.{
  Bool, true, false, not, ◌&&◌, ◌||◌, String, string_eq, ◌==◌, if◌then◌else◌, Option, none, some,
  List, [], ◌∷◌, ◌++◌, any, eqb, length,
}
use aqueduct_test.Patch.Value.{
  Value, null, str, arr, obj, Fields, end, field, Items, nil, to_list, from_list, get, put, truthy?,
  same, or_null, is_text,
}
use aqueduct_test.Patch.Grammar.{
  PatchOp, replace_module_config, set_module_config_key, replace_module_label, insert_module,
  remove_module, replace_context_value, add_probe, replace_edge, set_module_on_failure,
  replace_retry_policy, add_arcade_ref, defer_to_human, set_spark_config,
}
use aqueduct_test.Patch.Result.{
  Result, ok, op_error, crash, ◌>>=◌, ◌>>◌, reject_if, module_not_found, edge_not_found,
  bad_key_path, edge_spec_incomplete, id_required, id_exists, no_context, wrong_type,
  attach_to_required, ref_required, nothing_to_replace,
}
use aqueduct_test.Patch.Blueprint.{
  add_each, add_edges, append_module, append_to, append_value, filter_dicts, find_first,
  find_module, given, has_id, has_value, is_edge, is_missing, items_of, listed, put_list,
  remove_edge, remove_edges_matching, set_default, set_in, set_nested, split_dots, sub_dict,
  update_first, update_module,
}

-- An edge that neither leaves the module nor enters it.
abbrev pub unlinked : String → Fields → Bool
unlinked module_id e =
    not (has_value "from" (str module_id) e) && not (has_value "to" (str module_id) e)

unfoldable pub apply_remove_module : Fields → String → List Fields → Result Fields
unfolding find_module filter_dicts add_edges
apply_remove_module bp module_id edges_to_add = do
  m ← find_module bp (str module_id)
  modules ← items_of "modules" bp
  kept ← filter_dicts (λ x. not (has_value "id" (str module_id) x)) modules
  edges ← items_of "edges" bp
  others ← filter_dicts (unlinked module_id) edges
  add_edges (put_list "edges" others (put_list "modules" kept bp)) edges_to_add

abbrev pub dict_or_crash : Value → Result Fields
dict_or_crash (obj d) = ok d
dict_or_crash _ = crash

abbrev pub context_of : Option Value → Result Value
context_of none = op_error no_context
context_of (some null) = op_error no_context
context_of (some v) = ok v

unfoldable pub apply_replace_context_value : Fields → String → Value → Result Fields
unfolding set_in
apply_replace_context_value bp key value = do
  context ← context_of (get "context" bp)
  context' ← set_in key value context
  ok (put "context" (obj context') bp)

abbrev pub put_text? : String → Option String → Fields → Fields
put_text? key none e = e
put_text? key (some s) e = put key (str s) e

abbrev pub is_none : Option String → Bool
is_none none = true
is_none (some _) = false

abbrev pub given_edge : Option Fields → Result Fields
given_edge none = op_error edge_not_found
given_edge (some e) = ok e

unfoldable pub apply_replace_edge :
    Fields → (from_id to_id : String) → (new_from new_to new_port : Option String) → Result Fields
unfolding items_of find_first update_first
apply_replace_edge bp from_id to_id new_from new_to new_port = do
  reject_if (is_none new_from && is_none new_to && is_none new_port) nothing_to_replace
  edges ← items_of "edges" bp
  found ← find_first (is_edge (str from_id) (str to_id)) edges
  edge ← given_edge found
  let edge' = put_text? "port" new_port (put_text? "to" new_to (put_text? "from" new_from edge))
  ok (put_list "edges" (update_first (is_edge (str from_id) (str to_id)) edge' edges) bp)

-- The config of a module, where a missing one and `None` become an empty dict.
abbrev pub config_or_empty : Option Value → Value
config_or_empty none = obj end
config_or_empty (some null) = obj end
config_or_empty (some v) = v

unfoldable pub apply_set_spark_config : Fields → String → Value → Result Fields
unfolding set_default
apply_set_spark_config bp key value = do
  let bp' = set_default "spark_config" (obj end) bp
  config ← dict_or_crash (or_null (get "spark_config" bp'))
  ok (put "spark_config" (obj (put key value config)) bp')

-- What the operations take from ruamel: a value dumped and loaded again.
module _ (reload : Value → Value) where
  abbrev set_entry : String → Value → Fields → Result Fields
  set_entry key value m = ok (put key value m)

  abbrev reload_container : Value → Value
  reload_container (arr xs) = reload (arr xs)
  reload_container (obj d) = reload (obj d)
  reload_container v = v

  abbrev set_config_key : String → Value → Fields → Result Fields
  set_config_key key value m = do
    config' ← set_in key (reload_container value) (config_or_empty (get "config" m))
    ok (put "config" (obj config') m)

  abbrev add_new : Fields → (edges_to_add edges_to_remove : List Fields) → Fields → Result Fields
  add_new new edges_to_add edges_to_remove bp = do
    modules ← items_of "modules" bp
    exists ← has_id (or_null (get "id" new)) modules
    reject_if exists id_exists
    bp' ← append_module (reload (obj new)) bp
    bp'' ← remove_edges_matching bp' edges_to_remove
    add_edges bp'' edges_to_add

  unfoldable pub apply_insert_module :
      Fields → Fields → (edges_to_add edges_to_remove : List Fields) → Result Fields
  unfolding items_of has_id append_module remove_edges_matching remove_edge add_edges
  apply_insert_module bp new edges_to_add edges_to_remove = do
    reject_if (not (truthy? (get "id" new))) id_required
    add_new new edges_to_add edges_to_remove bp

  unfoldable pub apply_add_arcade_ref :
      Fields → Fields → (edges_to_add edges_to_remove : List Fields) → Result Fields
  unfolding items_of has_id append_module remove_edges_matching remove_edge add_edges
  apply_add_arcade_ref bp new edges_to_add edges_to_remove = do
    reject_if (not (truthy? (get "id" new))) id_required
    reject_if (not (is_text "Arcade" (get "type" new))) wrong_type
    reject_if (not (truthy? (get "ref" new))) ref_required
    add_new new edges_to_add edges_to_remove bp

  unfoldable pub apply_add_probe : Fields → Fields → List Fields → Result Fields
  unfolding find_module append_module add_edges
  apply_add_probe bp new edges_to_add = do
    reject_if (not (truthy? (get "id" new))) id_required
    reject_if (not (is_text "Probe" (get "type" new))) wrong_type
    reject_if (not (truthy? (get "attach_to" new))) attach_to_required
    target ← find_module bp (or_null (get "attach_to" new))
    bp' ← append_module (reload (obj new)) bp
    add_edges bp' edges_to_add

  -- `apply_operation`, by the dispatch table.
  unfoldable pub apply_operation : Fields → PatchOp → Result Fields
  unfolding update_module set_in apply_insert_module apply_remove_module apply_replace_context_value
      apply_add_probe apply_replace_edge apply_add_arcade_ref apply_set_spark_config
  apply_operation bp (replace_module_config module_id config) =
      update_module module_id (set_entry "config" (reload (obj config))) bp
  apply_operation bp (set_module_config_key module_id key value) =
      update_module module_id (set_config_key key value) bp
  apply_operation bp (replace_module_label module_id label) =
      update_module module_id (set_entry "label" (str label)) bp
  apply_operation bp (insert_module new edges_to_add edges_to_remove) =
      apply_insert_module bp new edges_to_add edges_to_remove
  apply_operation bp (remove_module module_id edges_to_add) =
      apply_remove_module bp module_id edges_to_add
  apply_operation bp (replace_context_value key value) = apply_replace_context_value bp key value
  apply_operation bp (add_probe new edges_to_add) = apply_add_probe bp new edges_to_add
  apply_operation bp (replace_edge from_id to_id new_from new_to new_port) =
      apply_replace_edge bp from_id to_id new_from new_to new_port
  apply_operation bp (set_module_on_failure module_id on_failure) =
      update_module module_id (set_entry "on_failure" (obj on_failure)) bp
  apply_operation bp (replace_retry_policy retry_policy) =
      ok (put "retry_policy" (obj retry_policy) bp)
  apply_operation bp (add_arcade_ref new edges_to_add edges_to_remove) =
      apply_add_arcade_ref bp new edges_to_add edges_to_remove
  apply_operation bp (defer_to_human _ _ _) = ok bp
  apply_operation bp (set_spark_config key value) = apply_set_spark_config bp key value
