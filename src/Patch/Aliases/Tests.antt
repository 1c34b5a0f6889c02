-- ===== src/Patch/Aliases/Tests.antt =====
-- Mending the names of a small patch.
use aqueduct_test.Base.{◌≡◌, refl, String, string_eq}
use aqueduct_test.Patch.Value.{Value, str, arr, obj, Fields, end, field, nil, cons}
use aqueduct_test.Patch.Result.{ok, crash}
use aqueduct_test.Patch.Aliases.{normalize_op_aliases}
use aqueduct_test.Patch.Aliases.Normal.{IsNormal, normalize_op_aliases-IsNormal}

abbrev same_text : String → String
same_text s = s

-- An operation under the name that models give it, with its kind under `type`.
abbrev answer : Fields
answer = field "reason" (str "typo") (
    field "steps" (arr (cons (obj (field "type" (str "update_module_config") end)) nil))
      (field "author" (str "model") (field "notes" (str "none") end)))

abbrev mended : Value
mended = obj (
    field "rationale" (str "typo") (
      field "operations" (arr (cons (obj (field "op" (str "replace_module_config") end)) nil)) (
        field "patch_id" (str "auto-typo")
          (field "misc" (obj (field "notes" (str "none") end)) end))))

normalize_op_aliases_test : normalize_op_aliases same_text same_text "0123" (obj answer) ≡ ok mended
unfolding normalize_op_aliases string_eq
normalize_op_aliases_test = refl

-- A list under `op` has no hash.
unhashable_test :
    normalize_op_aliases same_text same_text "0123"
      (obj (field "operations" (arr (cons (obj (field "op" (arr nil) end)) nil)) end))
    ≡ crash
unfolding normalize_op_aliases string_eq
unhashable_test = refl

normalize_op_aliases-IsNormal_example : (spec' : Fields) × (mended ≡ obj spec') × IsNormal spec'
normalize_op_aliases-IsNormal_example =
    normalize_op_aliases-IsNormal same_text same_text "0123" answer mended normalize_op_aliases_test
