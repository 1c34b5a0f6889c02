-- ===== src/Patch/Apply/Agent.antt =====
-- The keys that no operation writes stay as they are, the agent's settings among them.
use aqueduct_test.Base.{
  ◌≡◌, refl, ◌∙◌, ℕ, ◌+◌, false, String, string_eq, List, [], ◌∷◌, any, subst, or-eq-false,
}
use aqueduct_test.Patch.Value.{Value, obj, Fields, get}
use aqueduct_test.Patch.Grammar.{
  PatchOp, replace_module_config, set_module_config_key, replace_module_label, insert_module,
  remove_module, replace_context_value, add_probe, replace_edge, set_module_on_failure,
  replace_retry_policy, add_arcade_ref, defer_to_human, set_spark_config, PatchSpec,
}
use aqueduct_test.Patch.Result.{Result, ok, op_error, crash}
use aqueduct_test.Patch.Operations.{apply_operation}
use aqueduct_test.Patch.Operations.Kept.{Keeps, keeps}
use aqueduct_test.Patch.Operations.Frame.{writes, apply_operation-Keeps}
use aqueduct_test.Patch.Apply.{
  Applied, patched, on_applied, apply_each, on_copy, apply_patch_to_dict,
}

module _ (reload : Value → Value) (k : String) where
  on_applied-Keeps :
      (i : ℕ) (op : PatchOp) (bp : Fields) (r : Result Fields) (rest : Fields → Applied)
      → Keeps k bp r
      → ((bp' : Fields) (out : Fields) → rest bp' ≡ patched out → get k out ≡ get k bp')
      → (out : Fields) → on_applied reload i op r rest ≡ patched out
      → get k out ≡ get k bp
  unfolding on_applied
  on_applied-Keeps i op bp (ok bp') rest (keeps _ e) h out q = h bp' out q ∙ e
  on_applied-Keeps i op bp (op_error e) rest s h out q = cc
  on_applied-Keeps i op bp crash rest s h out q = cc

  apply_each-Keeps :
      (bp : Fields) (i : ℕ) (ops : List PatchOp)
      → any (λ op. writes op k) ops ≡ false
      → (out : Fields) → apply_each reload bp i ops ≡ patched out
      → get k out ≡ get k bp
  unfolding apply_each
  apply_each-Keeps bp i [] w out q = cc
  apply_each-Keeps bp i (op ∷ ops) w out q =
      let (w_op, w_ops) = or-eq-false w in
      on_applied-Keeps i op bp (apply_operation reload bp op) _
        (apply_operation-Keeps reload k bp op w_op) (λ bp'. apply_each-Keeps bp' (i + 1) ops w_ops)
        out q

  -- Where dumping a Blueprint and loading it gives it back, a key that no operation of the patch
  -- writes has its old value in the patched Blueprint.
  pub apply_patch_to_dict-get :
      (bp : Fields) (patch : PatchSpec) (out : Fields)
      → reload (obj bp) ≡ obj bp
      → any (λ op. writes op k) patch.operations ≡ false
      → apply_patch_to_dict reload bp patch ≡ patched out
      → get k out ≡ get k bp
  unfolding apply_patch_to_dict on_copy
  apply_patch_to_dict-get bp patch out same w h =
      apply_each-Keeps bp 0 patch.operations w out
        (subst (λ v. on_copy reload v patch.operations ≡ patched out) same h)

agent_unwritten : (ops : List PatchOp) → any (λ op. writes op "agent") ops ≡ false
unfolding string_eq
agent_unwritten [] = refl
agent_unwritten (replace_module_config _ _ ∷ ops) = agent_unwritten ops
agent_unwritten (set_module_config_key _ _ _ ∷ ops) = agent_unwritten ops
agent_unwritten (replace_module_label _ _ ∷ ops) = agent_unwritten ops
agent_unwritten (insert_module _ _ _ ∷ ops) = agent_unwritten ops
agent_unwritten (remove_module _ _ ∷ ops) = agent_unwritten ops
agent_unwritten (replace_context_value _ _ ∷ ops) = agent_unwritten ops
agent_unwritten (add_probe _ _ ∷ ops) = agent_unwritten ops
agent_unwritten (replace_edge _ _ _ _ _ ∷ ops) = agent_unwritten ops
agent_unwritten (set_module_on_failure _ _ ∷ ops) = agent_unwritten ops
agent_unwritten (replace_retry_policy _ ∷ ops) = agent_unwritten ops
agent_unwritten (add_arcade_ref _ _ _ ∷ ops) = agent_unwritten ops
agent_unwritten (defer_to_human _ _ _ ∷ ops) = agent_unwritten ops
agent_unwritten (set_spark_config _ _ ∷ ops) = agent_unwritten ops

-- Where dumping a Blueprint and loading it gives it back, no patch changes what the Blueprint says
-- of the agent, its guardrails among it.
pub apply_patch_to_dict-agent :
    (reload : Value → Value) (bp : Fields) (patch : PatchSpec) (out : Fields)
    → reload (obj bp) ≡ obj bp
    → apply_patch_to_dict reload bp patch ≡ patched out
    → get "agent" out ≡ get "agent" bp
apply_patch_to_dict-agent reload bp patch out same h =
    apply_patch_to_dict-get reload "agent" bp patch out same (agent_unwritten patch.operations) h
