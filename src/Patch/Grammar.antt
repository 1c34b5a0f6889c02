-- ===== src/Patch/Grammar.antt =====
-- aqueduct/patch/grammar.py: the operations of a patch, and the patch.
use aqueduct_test.Base.{Bool, true, false, not, ◌&&◌, String, Option, List, any}
use aqueduct_test.Patch.Value.{Value, Fields}

-- One constructor for each model of the discriminated union. A field of type `dict` is `Fields`.
pub data PatchOp : Type 0 where
  replace_module_config : (module_id : String) (config : Fields) → PatchOp
  set_module_config_key : (module_id key : String) (value : Value) → PatchOp
  replace_module_label : (module_id label : String) → PatchOp
  insert_module : (new : Fields) (edges_to_add edges_to_remove : List Fields) → PatchOp
  remove_module : (module_id : String) (edges_to_add : List Fields) → PatchOp
  replace_context_value : (key : String) (value : Value) → PatchOp
  add_probe : (new : Fields) (edges_to_add : List Fields) → PatchOp
  replace_edge : (from_id to_id : String) (new_from_id new_to_id new_port : Option String) → PatchOp
  set_module_on_failure : (module_id : String) (on_failure : Fields) → PatchOp
  replace_retry_policy : (retry_policy : Fields) → PatchOp
  add_arcade_ref : (new : Fields) (edges_to_add edges_to_remove : List Fields) → PatchOp
  defer_to_human : (diagnosis : String) (suggestions : List String) (reason : String) → PatchOp
  set_spark_config : (key : String) (value : Value) → PatchOp

-- The `op` tag.
unfoldable pub op_name : PatchOp → String
op_name (replace_module_config _ _) = "replace_module_config"
op_name (set_module_config_key _ _ _) = "set_module_config_key"
op_name (replace_module_label _ _) = "replace_module_label"
op_name (insert_module _ _ _) = "insert_module"
op_name (remove_module _ _) = "remove_module"
op_name (replace_context_value _ _) = "replace_context_value"
op_name (add_probe _ _) = "add_probe"
op_name (replace_edge _ _ _ _ _) = "replace_edge"
op_name (set_module_on_failure _ _) = "set_module_on_failure"
op_name (replace_retry_policy _) = "replace_retry_policy"
op_name (add_arcade_ref _ _ _) = "add_arcade_ref"
op_name (defer_to_human _ _ _) = "defer_to_human"
op_name (set_spark_config _ _) = "set_spark_config"

pub record PatchSpec : Type 0 where
  pub patch_id : String
  pub operations : List PatchOp

abbrev pub is_defer : PatchOp → Bool
is_defer (defer_to_human _ _ _) = true
is_defer _ = false

unfoldable pub has_defer : PatchSpec → Bool
has_defer patch = any is_defer patch.operations

-- `_reject_mixed_defer_ops`: whether the validator accepts the operations.
unfoldable pub accepts_defer : PatchSpec → Bool
unfolding has_defer
accepts_defer patch = not (has_defer patch && any (λ op. not (is_defer op)) patch.operations)
