-- ===== src/Patch/Operations/Tests.antt =====
-- Edits of a small Blueprint, and the theorems at them.
use aqueduct_test.Base.{◌≡◌, refl, false, String, string_eq, some, List, [], ◌∷◌, any}
use aqueduct_test.Patch.Value.{
  Value, str, arr, obj, Fields, end, field, nil, cons, get, put, to_list, from_list, same,
}
use aqueduct_test.Patch.Result.{ok}
use aqueduct_test.Patch.Blueprint.{has_value, set_nested}
use aqueduct_test.Patch.Operations.{apply_remove_module}
use aqueduct_test.Patch.Operations.Edits.{
  get_nested, get_nested-set_nested, is_dict_with, touches, remove_module-clears,
}

abbrev edge : String → String → Value
edge a b = obj (field "from" (str a) (field "to" (str b) end))

abbrev blueprint : Fields
blueprint =
    field "modules"
      (arr (cons (obj (field "id" (str "a") end)) (cons (obj (field "id" (str "b") end)) nil)))
      (field "edges" (arr (cons (edge "a" "b") nil)) end)

abbrev without_a : Fields
without_a =
    field "modules" (arr (cons (obj (field "id" (str "b") end)) nil)) (field "edges" (arr nil) end)

removed_lem : apply_remove_module blueprint "a" [] ≡ ok without_a
unfolding apply_remove_module get put to_list from_list same string_eq
removed_lem = refl

remove_module-clears_example :
    (modules edges : List Value) × (get "modules" without_a ≡ some (arr (from_list modules)))
    × (get "edges" without_a ≡ some (arr (from_list edges)))
    × (any (is_dict_with (has_value "id" (str "a"))) modules ≡ false)
    × (any (is_dict_with (touches "a")) edges ≡ false)
remove_module-clears_example = remove_module-clears blueprint without_a "a" removed_lem

abbrev options : Fields
options = field "options" (obj (field "header" (str "no") end)) end

abbrev with_header : Fields
with_header = field "options" (obj (field "header" (str "yes") end)) end

set_lem : set_nested "options" ("header" ∷ []) (str "yes") options ≡ ok with_header
unfolding set_nested get put string_eq
set_lem = refl

get_nested-set_nested_example : get_nested "options" ("header" ∷ []) with_header ≡ some (str "yes")
get_nested-set_nested_example =
    get_nested-set_nested "options" ("header" ∷ []) (str "yes") options with_header set_lem
