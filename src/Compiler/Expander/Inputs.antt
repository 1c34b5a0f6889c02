-- ===== src/Compiler/Expander/Inputs.antt =====
-- The references to an Arcade in the `inputs` of other modules.
use aqueduct_test.Base.{
  Bool, true, false, String, string_eq, ◌==◌, if◌then◌else◌, is_in, Option, none, some, List, [],
  ◌∷◌, ◌++◌, any, Try, returns, raises, ◌>>=◌,
}
use aqueduct_test.Patch.Value.{
  Value, null, bool, num, str, arr, obj, Fields, end, field, Items, nil, cons, to_list, from_list,
  get, put, same,
}
use aqueduct_test.Parser.Models.{Module}
use aqueduct_test.Compiler.Expander.{ExpandError, type_error}

abbrev pub texts : List String → Items
texts [] = nil
texts (s ∷ ss) = cons (str s) (texts ss)

-- What `_replace_ids` returns for an item goes in as one, or as all that a list holds.
unfoldable pub spliced : Value → Items → Items
unfolding to_list from_list
spliced (arr xs) rest = from_list (to_list xs ++ to_list rest)
spliced v rest = cons v rest

-- `_replace_ids`
unfoldable mutual
  unfolding spliced

  pub replace_ids : String → List String → Value → Value
  replace_ids id' exits (str s) = if s == id' then arr (texts exits) else str s
  replace_ids id' exits (arr xs) = arr (replace_items id' exits xs)
  replace_ids id' exits (obj fs) = obj (replace_fields id' exits fs)
  replace_ids id' exits null = null
  replace_ids id' exits (bool b) = bool b
  replace_ids id' exits (num z s) = num z s

  pub replace_items : String → List String → Items → Items
  replace_items id' exits nil = nil
  replace_items id' exits (cons x xs) =
      spliced (replace_ids id' exits x) (replace_items id' exits xs)

  pub replace_fields : String → List String → Fields → Fields
  replace_fields id' exits end = end
  replace_fields id' exits (field k v fs) =
      field k (replace_ids id' exits v) (replace_fields id' exits fs)

abbrev has_key : Option Value → Bool
has_key none = false
has_key (some _) = true

-- `m.id in inputs`
unfoldable pub mentions : String → Value → Try ExpandError Bool
unfolding to_list same get is_in
mentions id' (arr xs) = returns (any (λ x. same x (str id')) (to_list xs))
mentions id' (str s) = returns (is_in id' s)
mentions id' (obj fs) = returns (has_key (get id' fs))
mentions id' _ = raises (type_error id')

abbrev update_inputs : String → List String → Module → Option Value → Try ExpandError Module
unfolding mentions replace_ids put
update_inputs id' exits m none = returns m
update_inputs id' exits m (some inputs) = mentions id' inputs >>= λ there. returns (
    if there then record m { config = put "inputs" (replace_ids id' exits inputs) m.config } else m)

unfoldable pub update_module : String → List String → Module → Try ExpandError Module
unfolding update_inputs get
update_module id' exits m = update_inputs id' exits m (get "inputs" m.config)

unfoldable pub update_modules : String → List String → List Module → Try ExpandError (List Module)
unfolding update_module
update_modules id' exits [] = returns []
update_modules id' exits (m ∷ ms) =
    update_module id' exits m >>= λ m'. update_modules id' exits ms >>= λ ms'. returns (m' ∷ ms')
