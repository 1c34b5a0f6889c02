-- ===== src/Patch/Blueprint.antt =====
-- aqueduct/patch/operations.py: the helpers that read and change a raw Blueprint.
use aqueduct_test.Base.{
  Bool, true, false, not, ◌&&◌, ◌||◌, String, string_eq, ◌==◌, if◌then◌else◌, Option, none, some,
  List, [], ◌∷◌, ◌++◌, eqb, length, is_in, any, all,
}
use aqueduct_test.Patch.Value.{
  Value, str, arr, obj, Fields, end, nil, to_list, from_list, get, put, same, or_null, truthy?,
}
use aqueduct_test.Patch.Result.{
  Result, ok, op_error, crash, ◌>>=◌, ◌>>◌, reject_if, module_not_found, edge_not_found,
  bad_key_path, edge_spec_incomplete,
}

-- The items that `for x in value` walks, `[]` for a missing value. Each item is asked for `get`,
-- so the items of a text or a dict fail at once.
abbrev pub listed : Option Value → Result (List Value)
listed none = ok []
listed (some (arr xs)) = ok (to_list xs)
listed (some (obj end)) = ok []
listed (some (str s)) = if s == "" then ok [] else crash
listed (some _) = crash

-- `bp.get(key, [])`, walked.
unfoldable pub items_of : String → Fields → Result (List Value)
unfolding to_list
items_of key bp = listed (get key bp)

-- `x.get(key) == value`
abbrev pub has_value : String → Value → Fields → Bool
has_value key value x = same (or_null (get key x)) value

-- The first dict that meets the test; an item that is no dict before it has no `get`.
unfoldable pub find_first : (Fields → Bool) → List Value → Result (Option Fields)
find_first p [] = ok none
find_first p (obj x ∷ xs) = let rest = find_first p xs in if p x then ok (some x) else rest
find_first p (_ ∷ xs) = crash

-- The list with the first dict that meets the test changed.
unfoldable pub update_first : (Fields → Bool) → Fields → List Value → List Value
update_first p x' [] = []
update_first p x' (obj x ∷ xs) =
    let rest = update_first p x' xs in if p x then obj x' ∷ xs else obj x ∷ rest
update_first p x' (v ∷ xs) = v ∷ update_first p x' xs

-- `[x for x in xs if keep(x)]`
unfoldable pub filter_dicts : (Fields → Bool) → List Value → Result (List Value)
filter_dicts keep [] = ok []
filter_dicts keep (obj x ∷ xs) =
    filter_dicts keep xs >>= λ rest. ok (if keep x then obj x ∷ rest else rest)
filter_dicts keep (_ ∷ xs) = crash

abbrev pub put_list : String → List Value → Fields → Fields
put_list key xs bp = put key (arr (from_list xs)) bp

abbrev pub is_some_text : Option Value → Bool
is_some_text (some (str s)) = true
is_some_text _ = false

-- The ids that are not empty are listed and ranked by difflib, for which one that is no text has no
-- length. (Of lists and dicts it ranks some; they are taken to fail too.)
abbrev pub is_ranked : Value → Bool
is_ranked (obj m) = not (truthy? (get "id" m)) || is_some_text (get "id" m)
is_ranked v = true

abbrev pub rank : List Value → Result Fields
rank modules = if all is_ranked modules then op_error module_not_found else crash

-- `"__" in module_id` of what is no text fails.
abbrev pub not_found : Value → List Value → Result Fields
not_found (str id') modules = if is_in "__" id' then op_error module_not_found else rank modules
not_found v modules = crash

abbrev pub given : Value → List Value → Option Fields → Result Fields
given module_id modules none = not_found module_id modules
given module_id modules (some m) = ok m

unfoldable pub find_module : Fields → Value → Result Fields
unfolding items_of find_first
find_module bp module_id = do
  modules ← items_of "modules" bp
  found ← find_first (has_value "id" module_id) modules
  given module_id modules found

-- A statement that changes the module which `_find_module` gives.
unfoldable pub update_module : String → (Fields → Result Fields) → Fields → Result Fields
unfolding items_of find_module update_first from_list
update_module module_id change bp = do
  m ← find_module bp (str module_id)
  m' ← change m
  modules ← items_of "modules" bp
  ok (put_list "modules" (update_first (has_value "id" (str module_id)) m' modules) bp)

-- `text.split(".")`: the text before the first dot, and the texts behind it.
unfoldable pub split_dots : String → String × List String
split_dots String.[] = (String.[], [])
split_dots (String.◌∷◌ c s) =
    let (part, parts) = split_dots s in
    if String.◌∷◌ c String.[] == "." then (String.[], part ∷ parts) else (String.◌∷◌ c part, parts)

abbrev pub sub_dict : Option Value → Result Fields
sub_dict (some (obj d)) = ok d
sub_dict _ = op_error bad_key_path

-- `_set_nested`, along the parts of the key.
unfoldable pub set_nested : String → List String → Value → Fields → Result Fields
set_nested key [] value d = ok (put key value d)
set_nested key (next ∷ parts) value d = do
  sub ← sub_dict (get key d)
  sub' ← set_nested next parts value sub
  ok (put key (obj sub') d)

unfoldable pub set_key : String → Value → Fields → Result Fields
unfolding set_nested split_dots
set_key key value d = let (part, parts) = split_dots key in set_nested part parts value d

-- `_set_nested` where there is no dict: a text and a list can be asked for the first part of a dotted
-- key, but hold no value under it.
unfoldable pub set_error : String → List String → Value → Result Fields
unfolding is_in to_list
set_error part [] v = crash
set_error part (next ∷ parts) (str s) = if is_in part s then crash else op_error bad_key_path
set_error part (next ∷ parts) (arr xs) =
    if any (same (str part)) (to_list xs) then crash else op_error bad_key_path
set_error part (next ∷ parts) v = crash

unfoldable pub set_in : String → Value → Value → Result Fields
unfolding set_key set_error split_dots
set_in key value (obj d) = set_key key value d
set_in key value v = let (part, parts) = split_dots key in set_error part parts v

abbrev pub is_edge : Value → Value → Fields → Bool
is_edge from_id to_id e = has_value "from" from_id e && has_value "to" to_id e

-- One round of `_remove_edges_matching`.
unfoldable pub remove_edge : Fields → Fields → Result Fields
unfolding items_of filter_dicts
remove_edge bp spec = do
  edges ← items_of "edges" bp
  kept ←
      filter_dicts (λ e. not (is_edge (or_null (get "from" spec)) (or_null (get "to" spec)) e))
        edges
  reject_if (eqb (length kept) (length edges)) edge_not_found
  ok (put_list "edges" kept bp)

unfoldable pub remove_edges_matching : Fields → List Fields → Result Fields
remove_edges_matching bp [] = ok bp
remove_edges_matching bp (spec ∷ specs) =
    remove_edge bp spec >>= λ bp'. remove_edges_matching bp' specs

-- `bp.setdefault(key, value)`
abbrev pub is_missing : Option Value → Bool
is_missing none = true
is_missing (some _) = false

unfoldable pub set_default : String → Value → Fields → Fields
set_default key value bp = if is_missing (get key bp) then put key value bp else bp

-- `bp[key].append(value)`
abbrev pub append_value : Option Value → Value → Result Value
append_value (some (arr xs)) value = ok (arr (from_list (to_list xs ++ (value ∷ []))))
append_value _ value = crash

unfoldable pub append_to : String → Value → Fields → Result Fields
unfolding to_list from_list
append_to key value bp = append_value (get key bp) value >>= λ xs. ok (put key xs bp)

unfoldable pub add_each : Fields → List Fields → Result Fields
unfolding append_to
add_each bp [] = ok bp
add_each bp (spec ∷ specs) =
    reject_if (is_missing (get "from" spec) || is_missing (get "to" spec)) edge_spec_incomplete
    >>= λ _. append_to "edges" (obj spec) bp >>= λ bp'. add_each bp' specs

unfoldable pub add_edges : Fields → List Fields → Result Fields
unfolding set_default add_each
add_edges bp specs = add_each (set_default "edges" (arr nil) bp) specs

-- `value in [m.get("id") for m in modules]`
unfoldable pub has_id : Value → List Value → Result Bool
has_id value [] = ok false
has_id value (obj m ∷ ms) = has_id value ms >>= λ later. ok (has_value "id" value m || later)
has_id value (_ ∷ ms) = crash

unfoldable pub append_module : Value → Fields → Result Fields
unfolding set_default append_to
append_module m bp = append_to "modules" m (set_default "modules" (arr nil) bp)
