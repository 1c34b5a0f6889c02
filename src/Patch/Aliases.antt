-- ===== src/Patch/Aliases.antt =====
-- aqueduct/patch/grammar.py: `_normalize_op_aliases`, which mends the field and operation names of
-- a patch before it is validated. What `re` and `str.strip` make of a rationale, and a fresh uuid,
-- are parameters.
pub mod Identity
pub mod Steps
pub mod Normal
mod Tests
use aqueduct_test.Base.{
  Bool, true, false, not, ◌&&◌, ◌||◌, String, string_eq, ◌==◌, if◌then◌else◌, ◌<>◌, contains,
  Option, none, some, List, [], ◌∷◌,
}
use aqueduct_test.Patch.Value.{
  Value, null, bool, num, str, arr, obj, Fields, end, field, Items, nil, cons, get, put, truthy,
  truthy?, or_null,
}
use aqueduct_test.Patch.Result.{Result, ok, crash, ◌>>=◌}

abbrev pub op_aliases : List (String × String)
op_aliases =
    ("replace_module_config_key", "set_module_config_key")
    ∷ ("set_module_config", "replace_module_config")
    ∷ ("update_module_config", "replace_module_config")
    ∷ ("patch_module_config", "replace_module_config")
    ∷ ("update_module_config_key", "set_module_config_key")
    ∷ ("patch_module_config_key", "set_module_config_key")
    ∷ ("defer", "defer_to_human")
    ∷ ("defer_to_user", "defer_to_human")
    ∷ ("human_review", "defer_to_human")
    ∷ ("set_spark_config_key", "set_spark_config")
    ∷ []

abbrev pub metadata_aliases : List (String × String)
metadata_aliases =
    ("description", "rationale")
    ∷ ("summary", "rationale")
    ∷ ("reason", "rationale")
    ∷ ("explanation", "rationale")
    ∷ ("reasoning", "rationale")
    ∷ ("rootCause", "root_cause")
    ∷ ("rootcause", "root_cause")
    ∷ ("cause", "root_cause")
    ∷ ("rootCauseAnalysis", "root_cause")
    ∷ ("Confidence", "confidence")
    ∷ ("score", "confidence")
    ∷ ("Category", "category")
    ∷ ("failure_category", "category")
    ∷ ("failureCategory", "category")
    ∷ ("patchId", "patch_id")
    ∷ ("patchID", "patch_id")
    ∷ ("runId", "run_id")
    ∷ ("runID", "run_id")
    ∷ []

abbrev pub patchspec_fields : List String
patchspec_fields =
    "patch_id" ∷ "run_id" ∷ "rationale" ∷ "operations" ∷ "confidence" ∷ "category" ∷ "root_cause"
    ∷ "misc" ∷ []

abbrev pub ops_aliases : List String
ops_aliases =
    "ops" ∷ "op_list" ∷ "patches" ∷ "steps" ∷ "fix" ∷ "changes" ∷ "actions" ∷ "modifications"
    ∷ "updates" ∷ "patch_operations" ∷ "module_updates" ∷ "module_changes" ∷ "edits" ∷ "diff" ∷ []

abbrev pub discriminator_aliases : List String
discriminator_aliases = "type" ∷ "action" ∷ "operation" ∷ "method" ∷ "kind" ∷ "name" ∷ []

abbrev pub stripped_names : List String
stripped_names =
    "id" ∷ "name" ∷ "applied_by" ∷ "datetime_applied" ∷ "timestamp" ∷ "author" ∷ "version"
    ∷ "created_at" ∷ "updated_at" ∷ []

abbrev pub is_some : Option Value → Bool
is_some none = false
is_some (some _) = true

-- `key in data`, and `data` after `data.pop(key, None)`.
unfoldable pub has : String → Fields → Bool
unfolding get
has key spec = is_some (get key spec)

unfoldable pub pop : String → Fields → Fields
pop key end = end
pop key (field k v fs) = let rest = pop key fs in if key == k then fs else field k v rest

-- `data[to] = data.pop(key)`
abbrev pub rename : String → String → Fields → Fields
rename key to spec = put to (or_null (get key spec)) (pop key spec)

unfoldable pub metadata : List (String × String) → Fields → Fields
unfolding has pop get put
metadata [] spec = spec
metadata ((alias, canonical) ∷ rest) spec = metadata rest (
    if has alias spec
    then (if has canonical spec then pop alias spec else rename alias canonical spec)
    else spec)

-- The first of the names that is there, renamed.
unfoldable pub first_renamed : List String → String → Fields → Fields
unfolding has pop get put
first_renamed [] to spec = spec
first_renamed (alias ∷ aliases) to spec =
    let rest = first_renamed aliases to spec in
    if has alias spec then rename alias to spec else rest

-- A non-empty list whose first item is a dict with an operation's name.
abbrev pub looks_like_ops : Value → Bool
unfolding has
looks_like_ops (arr (cons (obj op) _)) = has "op" op || has "type" op
looks_like_ops _ = false

unfoldable pub ops_key : Fields → Option String
unfolding looks_like_ops
ops_key end = none
ops_key (field k v fs) =
    let rest = ops_key fs in
    if not (k == "module_results") && looks_like_ops v then some k else rest

abbrev pub rename_found : Option String → Fields → Fields
rename_found none spec = spec
rename_found (some key) spec = rename key "operations" spec

unfoldable pub find_operations : Fields → Fields
unfolding has first_renamed ops_key get put pop
find_operations spec =
    if has "operations" spec
    then spec
    else (let named = first_renamed ops_aliases "operations" spec in
        if has "operations" named then named else rename_found (ops_key named) named)

unfoldable pub drop_all : List String → Fields → Fields
unfolding pop
drop_all [] spec = spec
drop_all (key ∷ keys) spec = drop_all keys (pop key spec)

-- The known fields, and the bucket with the others added.
unfoldable pub bucket : Fields → Fields → Fields × Fields
unfolding put
bucket end misc = (end, misc)
bucket (field k v fs) misc =
    let keep = bucket fs misc in
    let (known, misc') = bucket fs (put k v misc) in
    if contains patchspec_fields k then (field k v keep.0, keep.1) else (known, misc')

abbrev pub dict_or_empty : Option Value → Fields
dict_or_empty (some (obj misc)) = misc
dict_or_empty _ = end

abbrev pub with_misc : Fields × Fields → Fields
with_misc (known, end) = known
with_misc (known, field k v fs) = put "misc" (obj (field k v fs)) known

unfoldable pub bucket_unknown : Fields → Fields
unfolding bucket get put
bucket_unknown spec = with_misc (bucket spec (dict_or_empty (get "misc" spec)))

-- `_OP_ALIASES[name]`, or the name itself.
unfoldable pub canonical_op : List (String × String) → String → String
canonical_op [] name = name
canonical_op ((alias, canonical) ∷ rest) name =
    let later = canonical_op rest name in if name == alias then canonical else later

-- A list or dict has no hash.
abbrev pub rename_op : Fields → Option Value → Result Fields
unfolding canonical_op put
rename_op op (some (str name)) = ok (put "op" (str (canonical_op op_aliases name)) op)
rename_op op (some (arr _)) = crash
rename_op op (some (obj _)) = crash
rename_op op _ = ok op

abbrev pub named_op : Fields → Fields
unfolding has first_renamed
named_op op = if has "op" op then op else first_renamed discriminator_aliases "op" op

unfoldable pub normalize_op : Fields → Result Fields
unfolding named_op rename_op get
normalize_op op = rename_op (named_op op) (get "op" (named_op op))

unfoldable pub normalize_ops : Items → Result Items
unfolding normalize_op
normalize_ops nil = ok nil
normalize_ops (cons (obj op) ops) =
    normalize_op op >>= λ op'. normalize_ops ops >>= λ ops'. ok (cons (obj op') ops')
normalize_ops (cons v ops) = normalize_ops ops >>= λ ops'. ok (cons v ops')

-- `for op in data.get("operations") or []`
abbrev pub mend_operations : Fields → Option Value → Result Fields
unfolding normalize_ops put
mend_operations spec (some (arr ops)) =
    normalize_ops ops >>= λ ops'. ok (put "operations" (arr ops') spec)
mend_operations spec (some (num false _)) = crash
mend_operations spec (some (bool true)) = crash
mend_operations spec _ = ok spec

module _ (strip slug : String → String) (uuid : String) where
  abbrev pub from_rationale : Fields → Option Value → Result Fields
  unfolding truthy put
  from_rationale spec (some (str rationale)) =
      let slugged = slug (strip rationale) in
      ok (
        put "patch_id"
          (str (
            if strip rationale == "" || slugged == "" then "auto-" <> uuid else "auto-" <> slugged))
          spec)
  from_rationale spec rationale =
      if truthy? rationale then crash else ok (put "patch_id" (str ("auto-" <> uuid)) spec)

  unfoldable pub with_patch_id : Fields → Result Fields
  unfolding from_rationale get truthy
  with_patch_id spec =
      let made = from_rationale spec (get "rationale" spec) in
      if truthy? (get "patch_id" spec) then ok spec else made

  unfoldable pub normalize_op_aliases : Value → Result Value
  unfolding metadata find_operations with_patch_id drop_all bucket_unknown mend_operations get
  normalize_op_aliases (obj spec) =
      with_patch_id (find_operations (metadata metadata_aliases spec)) >>= λ named.
      let cleaned = bucket_unknown (drop_all stripped_names named) in
      mend_operations cleaned (get "operations" cleaned) >>= λ mended. ok (obj mended)
  normalize_op_aliases spec = ok spec
