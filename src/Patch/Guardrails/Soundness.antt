-- ===== src/Patch/Guardrails/Soundness.antt =====
-- What the guardrails promise of a patch that they let through.
use aqueduct_test.Base.{
  ◌≡◌, subst, Bool, true, false, String, string_eq, if◌then◌else◌, Option, some, List, [], ◌∷◌,
  Member, here, there, arith,
}
use aqueduct_test.Patch.Value.{Value, Fields, get, truthy}
use aqueduct_test.Patch.Grammar.{PatchOp, op_name, PatchSpec}
use aqueduct_test.Patch.Guardrails.{
  allowed, holds, or_list, guardrails_of, check_paths, check_op, check_ops, check_with,
  check_guardrails,
}
use aqueduct_test.Patch.Guardrails.Permitted.{
  is_hidden, written_paths, also-eq-allowed, on_forbidden-eq-allowed, IsPermitted,
  check_paths-IsPermitted,
}

module _ (show : Value → String) (fnmatch : String → String → Bool)
    (provenance : Option (String → Option Value)) where
  check_op-eq-allowed :
      (forbidden ap : Value) (op : PatchOp)
      → check_op show fnmatch provenance forbidden ap op ≡ allowed
      → (holds (op_name op) forbidden ≡ some false)
        × ((if truthy ap then check_paths show fnmatch provenance ap op else allowed) ≡ allowed)
  unfolding check_op
  check_op-eq-allowed forbidden ap op h =
      on_forbidden-eq-allowed (op_name op) (holds (op_name op) forbidden) _ h

  check_ops-Member :
      (forbidden ap : Value) (ops : List PatchOp)
      → check_ops show fnmatch provenance forbidden ap ops ≡ allowed
      → (op : PatchOp) → Member op ops
      → check_op show fnmatch provenance forbidden ap op ≡ allowed
  unfolding check_ops
  check_ops-Member forbidden ap [] h o m = elim m [ ]
  check_ops-Member forbidden ap (op ∷ ops) h _ (here _ _) = (also-eq-allowed _ _ h).0
  check_ops-Member forbidden ap (op ∷ ops) h o (there _ _ _ m) =
      check_ops-Member forbidden ap ops (also-eq-allowed _ _ h).1 o m

  check_guardrails-Member :
      (patch : PatchSpec) (bp guardrails : Fields)
      → guardrails_of bp ≡ some guardrails
      → check_guardrails show fnmatch provenance patch bp ≡ allowed
      → (op : PatchOp) → Member op patch.operations
      → check_op show fnmatch provenance
          (or_list (get "forbidden_ops" guardrails))
          (or_list (get "allowed_paths" guardrails))
          op
        ≡ allowed
  unfolding check_guardrails
  check_guardrails-Member patch bp guardrails g h op m =
      check_ops-Member (or_list (get "forbidden_ops" guardrails))
        (or_list (get "allowed_paths" guardrails)) patch.operations (from (guardrails_of bp) g h) op
        m
    where
      from :
          (o : Option Fields)
          → o ≡ some guardrails
          → check_with show fnmatch provenance o patch.operations ≡ allowed
          → check_with show fnmatch provenance (some guardrails) patch.operations ≡ allowed
      from o e h = subst (λ x. check_with show fnmatch provenance x patch.operations ≡ allowed) e h

  -- An operation of a patch that passes the guardrails has a name that `forbidden_ops` does not
  -- hold.
  pub check_guardrails-permits_op :
      (patch : PatchSpec) (bp guardrails : Fields)
      → guardrails_of bp ≡ some guardrails
      → check_guardrails show fnmatch provenance patch bp ≡ allowed
      → (op : PatchOp) → Member op patch.operations
      → holds (op_name op) (or_list (get "forbidden_ops" guardrails)) ≡ some false
  check_guardrails-permits_op patch bp guardrails g h op m =
      (check_op-eq-allowed (or_list (get "forbidden_ops" guardrails))
        (or_list (get "allowed_paths" guardrails)) op
        (check_guardrails-Member patch bp guardrails g h op m)).0

  -- Where the Blueprint has allowed paths, each path that an operation of a passing patch writes to
  -- a module's config is empty once resolved, or one of the patterns matches it, unless the id of
  -- the module holds two underscores in a row.
  pub check_guardrails-IsPermitted :
      (patch : PatchSpec) (bp guardrails : Fields)
      → guardrails_of bp ≡ some guardrails
      → truthy (or_list (get "allowed_paths" guardrails)) ≡ true
      → check_guardrails show fnmatch provenance patch bp ≡ allowed
      → (op : PatchOp) → Member op patch.operations
      → is_hidden op ≡ some false
      → (v : Value) → Member v (written_paths op)
      → IsPermitted show fnmatch provenance (or_list (get "allowed_paths" guardrails)) v
  check_guardrails-IsPermitted patch bp guardrails g t h op m k v w =
      check_paths-IsPermitted show fnmatch provenance (or_list (get "allowed_paths" guardrails)) op
        (ground (
          arith,
          (check_op-eq-allowed (or_list (get "forbidden_ops" guardrails))
              (or_list (get "allowed_paths" guardrails)) op
              (check_guardrails-Member patch bp guardrails g h op m)).1,
        ))
        k v w
