-- ===== src/Patch/Apply/Deferral.antt =====
-- A patch that leaves the repair to a person.
use aqueduct_test.Base.{◌≡◌, refl, ℕ, ◌+◌, true, false, not, List, [], ◌∷◌, any, arith}
use aqueduct_test.Patch.Value.{Value, obj, Fields}
use aqueduct_test.Patch.Grammar.{
  PatchOp, replace_module_config, set_module_config_key, replace_module_label, insert_module,
  remove_module, replace_context_value, add_probe, replace_edge, set_module_on_failure,
  replace_retry_policy, add_arcade_ref, defer_to_human, set_spark_config, PatchSpec, is_defer,
  has_defer, accepts_defer,
}
use aqueduct_test.Patch.Operations.{apply_operation}
use aqueduct_test.Patch.Apply.{patched, on_applied, apply_each, on_copy, apply_patch_to_dict}

only_defers :
    (patch : PatchSpec)
    → accepts_defer patch ≡ true
    → has_defer patch ≡ true
    → any (λ op. not (is_defer op)) patch.operations ≡ false
unfolding accepts_defer has_defer
only_defers patch ha hd = ground arith

module _ (reload : Value → Value) (bp : Fields) where
  apply_each-defers :
      (i : ℕ) (ops : List PatchOp)
      → any (λ op. not (is_defer op)) ops ≡ false
      → apply_each reload bp i ops ≡ patched bp
  unfolding apply_each apply_operation on_applied
  apply_each-defers i [] h = refl
  apply_each-defers i (defer_to_human _ _ _ ∷ ops) h = apply_each-defers (i + 1) ops h
  apply_each-defers i (replace_module_config _ _ ∷ ops) h = cc
  apply_each-defers i (set_module_config_key _ _ _ ∷ ops) h = cc
  apply_each-defers i (replace_module_label _ _ ∷ ops) h = cc
  apply_each-defers i (insert_module _ _ _ ∷ ops) h = cc
  apply_each-defers i (remove_module _ _ ∷ ops) h = cc
  apply_each-defers i (replace_context_value _ _ ∷ ops) h = cc
  apply_each-defers i (add_probe _ _ ∷ ops) h = cc
  apply_each-defers i (replace_edge _ _ _ _ _ ∷ ops) h = cc
  apply_each-defers i (set_module_on_failure _ _ ∷ ops) h = cc
  apply_each-defers i (replace_retry_policy _ ∷ ops) h = cc
  apply_each-defers i (add_arcade_ref _ _ _ ∷ ops) h = cc
  apply_each-defers i (set_spark_config _ _ ∷ ops) h = cc

  -- Where dumping a Blueprint and loading it gives it back, a patch with a deferral that the
  -- validator accepts leaves the Blueprint as it is.
  pub deferral_unchanged :
      (patch : PatchSpec)
      → reload (obj bp) ≡ obj bp
      → accepts_defer patch ≡ true
      → has_defer patch ≡ true
      → apply_patch_to_dict reload bp patch ≡ patched bp
  unfolding apply_patch_to_dict on_copy
  deferral_unchanged patch same ha hd =
      rw same (apply_each-defers 0 patch.operations (only_defers patch ha hd))
