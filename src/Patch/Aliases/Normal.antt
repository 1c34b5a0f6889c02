-- ===== src/Patch/Aliases/Normal.antt =====
-- What a patch looks like after its names were mended.
use aqueduct_test.Base.{◌≡◌, refl, ap, ◌∙◌, true, String, string_eq}
use aqueduct_test.Patch.Value.{Value, obj, Fields, get, truthy?}
use aqueduct_test.Patch.Result.{ok, ◌>>=◌, >>=-eq-ok}
use aqueduct_test.Patch.Aliases.{
  metadata_aliases, stripped_names, metadata, find_operations, drop_all, bucket, dict_or_empty,
  bucket_unknown, mend_operations, with_patch_id, normalize_op_aliases,
}
use aqueduct_test.Patch.Aliases.Identity.{with_patch_id-truthy}
use aqueduct_test.Patch.Aliases.Steps.{
  AreKnown, HasNamedOps, bucket-AreKnown, mend_operations-AreMended, get-drop_all, get-bucket,
  with_misc-Kept,
}

-- Every key is a field of a `PatchSpec`, there is an identifier, and no operation has an alias for
-- its name.
pub record IsNormal (spec : Fields) : Type 0 where
  pub known : AreKnown spec
  pub identified : truthy? (get "patch_id" spec) ≡ true
  pub named : HasNamedOps (get "operations" spec)

bucket_unknown-Kept :
    (spec : Fields)
    → AreKnown (bucket_unknown spec) × (get "patch_id" (bucket_unknown spec) ≡ get "patch_id" spec)
unfolding bucket_unknown string_eq
bucket_unknown-Kept spec =
    let misc = dict_or_empty (get "misc" spec) in
    let (known, same) = with_misc-Kept (bucket spec misc) (bucket-AreKnown spec misc) in
    (known, same ∙ get-bucket "patch_id" spec misc refl)

stripped-patch_id :
    (spec : Fields) → get "patch_id" (drop_all stripped_names spec) ≡ get "patch_id" spec
unfolding string_eq
stripped-patch_id spec = get-drop_all "patch_id" stripped_names spec refl

-- If the names of a dict are mended without an exception, then the result is a dict whose keys are
-- fields of a `PatchSpec`, with a non-empty `patch_id`, and none of its operations has one of the
-- known aliases for its name.
pub normalize_op_aliases-IsNormal :
    (strip slug : String → String) (uuid : String) (spec : Fields) (out : Value)
    → normalize_op_aliases strip slug uuid (obj spec) ≡ ok out
    → (spec' : Fields) × (out ≡ obj spec') × IsNormal spec'
unfolding normalize_op_aliases
normalize_op_aliases-IsNormal strip slug uuid spec out h =
    let found = find_operations (metadata metadata_aliases spec) in
    let clean = λ (named : Fields). bucket_unknown (drop_all stripped_names named) in
    let (named, first, rest) =
      >>=-eq-ok (with_patch_id strip slug uuid found)
        (λ named'. mend_operations (clean named') (get "operations" (clean named')) >>= λ mended.
          ok (obj mended))
        h in
    let (mended, second, last) =
      >>=-eq-ok (mend_operations (clean named) (get "operations" (clean named)))
        (λ mended'. ok (obj mended')) rest in
    let (known, id_kept) = bucket_unknown-Kept (drop_all stripped_names named) in
    let (all_known, ops_named, id_mended) =
      mend_operations-AreMended (clean named) mended (get "operations" (clean named)) refl second
        known in
    (
      mended,
      cc,
      record {
        known = all_known;
        identified =
            ap truthy? (id_mended ∙ id_kept ∙ stripped-patch_id named)
            ∙ with_patch_id-truthy strip slug uuid found named first;
        named = ops_named;
      },
    )
