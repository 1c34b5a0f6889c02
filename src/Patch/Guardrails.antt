-- ===== src/Patch/Guardrails.antt =====
-- aqueduct/patch/apply.py: `_check_guardrails` and its helpers. `str(value)`, `fnmatch.fnmatch` and
-- the provenance map's resolved values are parameters.
pub mod Permitted
pub mod Soundness
use aqueduct_test.Base.{
  Bool, true, false, not, ◌&&◌, ◌||◌, String, string_eq, ◌==◌, is_in, after, if◌then◌else◌, Option,
  none, some, List, [], ◌∷◌, ◌++◌, any,
}
use aqueduct_test.Patch.Value.{
  Value, null, bool, num, str, arr, obj, Fields, end, field, nil, to_list, get, truthy, truthy?,
  same,
}
use aqueduct_test.Patch.Grammar.{
  PatchOp, replace_module_config, set_module_config_key, insert_module, add_probe, add_arcade_ref,
  op_name, PatchSpec,
}

-- `broken` is an exception of another kind than `PatchError`.
pub data Verdict : Type 0 where
  allowed : Verdict
  op_forbidden : (name : String) → Verdict
  path_rejected : (resolved : String) → Verdict
  broken : Verdict

-- A check, then another.
infixr 30 ◌also◌
abbrev pub ◌also◌ : Verdict → Verdict → Verdict
allowed also w = w
op_forbidden name also w = op_forbidden name
path_rejected resolved also w = path_rejected resolved
broken also w = broken

-- `_CTX_REF_RE`, whose `$` also matches before a last newline.
abbrev pub is_key_char : String → Bool
unfolding is_in
is_key_char c = is_in c "abcdefghijklmnopqrstuvwxyzABCDEFGHIJKLMNOPQRSTUVWXYZ0123456789_."

abbrev pub prepend : String → Option String → Option String
prepend String.[] o = o
prepend (String.◌∷◌ c _) none = none
prepend (String.◌∷◌ c _) (some s) = some (String.◌∷◌ c s)

unfoldable pub key_until_brace : String → Option String
key_until_brace String.[] = none
key_until_brace (String.◌∷◌ c text) =
    let rest = key_until_brace text in
    let first = String.◌∷◌ c String.[] in
    if is_key_char first
    then prepend first rest
    else if first == "}" && (text == "" || text == "\n")
    then some ""
    else none

abbrev pub not_empty : Option String → Option String
not_empty none = none
not_empty (some s) = if s == "" then none else some s

abbrev pub key_of : Option String → Option String
unfolding key_until_brace
key_of none = none
key_of (some rest) = not_empty (key_until_brace rest)

unfoldable pub ctx_key : String → Option String
unfolding after
ctx_key text = key_of (after "${ctx." text)

-- The values that a `for` walks; a number, a bool or `None` has none.
unfoldable pub chars : String → List Value
chars String.[] = []
chars (String.◌∷◌ c text) = str (String.◌∷◌ c String.[]) ∷ chars text

unfoldable pub keys : Fields → List Value
keys end = []
keys (field k _ fs) = str k ∷ keys fs

unfoldable pub walked : Value → Option (List Value)
unfolding chars keys to_list
walked (arr xs) = some (to_list xs)
walked (str s) = some (chars s)
walked (obj d) = some (keys d)
walked _ = none

abbrev pub is_given : Option Value → Bool
is_given none = false
is_given (some _) = true

-- `text in value`
unfoldable pub holds : String → Value → Option Bool
unfolding to_list is_in same
holds text (arr xs) = some (any (same (str text)) (to_list xs))
holds text (str s) = some (is_in text s)
holds text (obj d) = some (is_given (get text d))
holds text _ = none

-- `value or []`, `value or ""` and `value or {}`
abbrev pub or_list : Option Value → Value
or_list none = arr nil
or_list (some v) = if truthy v then v else arr nil

abbrev pub or_text : Option Value → Value
or_text none = str ""
or_text (some v) = if truthy v then v else str ""

abbrev pub dict_of : Value → Option Fields
dict_of (obj d) = some d
dict_of _ = none

abbrev pub or_dict : Option Value → Option Fields
or_dict none = some end
or_dict (some v) = if truthy v then dict_of v else some end

abbrev pub guardrails_in : Option Fields → Option Fields
guardrails_in none = none
guardrails_in (some agent) = or_dict (get "guardrails" agent)

unfoldable pub guardrails_of : Fields → Option Fields
guardrails_of bp = guardrails_in (or_dict (get "agent" bp))

abbrev pub on_match : String → Option Bool → Verdict
on_match resolved none = broken
on_match resolved (some true) = allowed
on_match resolved (some false) = path_rejected resolved

-- `if "__" in module_id: continue`
abbrev pub unless_hidden : Option Bool → Verdict → Verdict
unless_hidden none checked = broken
unless_hidden (some true) checked = allowed
unless_hidden (some false) checked = checked

abbrev pub on_forbidden : String → Option Bool → Verdict → Verdict
on_forbidden name none rest = broken
on_forbidden name (some true) rest = op_forbidden name
on_forbidden name (some false) rest = rest

module _ (show : Value → String) (fnmatch : String → String → Bool)
    (provenance : Option (String → Option Value)) where
  abbrev pub looked_up : Option (String → Option Value) → Option String → String → String
  looked_up none key text = text
  looked_up (some values) none text = text
  looked_up (some values) (some key) text = elim (values key) [ none ↦ text | some v ↦ show v ]

  -- `_resolve_path_for_guardrail`
  unfoldable pub resolve_path : Value → String
  unfolding ctx_key
  resolve_path value =
      let text = if truthy value then show value else "" in looked_up provenance (ctx_key text) text

  -- `any(fnmatch.fnmatch(resolved, pat) for pat in patterns)`, where a pattern must be a text.
  unfoldable pub match_any : String → List Value → Option Bool
  match_any resolved [] = some false
  match_any resolved (str pattern ∷ patterns) =
      let rest = match_any resolved patterns in if fnmatch resolved pattern then some true else rest
  match_any resolved (_ ∷ patterns) = none

  abbrev pub match_walked : String → Option (List Value) → Option Bool
  unfolding match_any
  match_walked resolved none = none
  match_walked resolved (some patterns) = match_any resolved patterns

  -- `_check_path_against_allowlist`
  unfoldable pub check_path : Value → Value → Verdict
  unfolding resolve_path match_any walked
  check_path allowed_paths value =
      let resolved = resolve_path value in
      if resolved == ""
      then allowed
      else on_match resolved (match_walked resolved (walked allowed_paths))

  abbrev pub check_given : Value → Option Value → Verdict
  check_given allowed_paths none = allowed
  check_given allowed_paths (some value) = check_path allowed_paths value

  -- `_check_config_dict_paths`
  unfoldable pub check_config : Value → Option Value → Verdict
  unfolding check_path
  check_config allowed_paths (some (obj config)) =
      check_given allowed_paths (get "path" config)
      also check_given allowed_paths (get "output_path" config)
  check_config allowed_paths _ = allowed

  unfoldable pub check_new : Value → Fields → Verdict
  unfolding holds check_config
  check_new allowed_paths new =
      unless_hidden (holds "__" (or_text (get "id" new)))
        (check_config allowed_paths (get "config" new))

  unfoldable pub check_paths : Value → PatchOp → Verdict
  unfolding check_new check_config check_path is_in
  check_paths allowed_paths (set_module_config_key module_id key value) =
      unless_hidden (some (is_in "__" module_id))
        (if key == "path" || key == "output_path" then check_path allowed_paths value else allowed)
  check_paths allowed_paths (replace_module_config module_id config) =
      unless_hidden (some (is_in "__" module_id)) (check_config allowed_paths (some (obj config)))
  check_paths allowed_paths (insert_module new _ _) = check_new allowed_paths new
  check_paths allowed_paths (add_probe new _) = check_new allowed_paths new
  check_paths allowed_paths (add_arcade_ref new _ _) = check_new allowed_paths new
  check_paths allowed_paths _ = allowed

  unfoldable pub check_op : (forbidden_ops allowed_paths : Value) → PatchOp → Verdict
  unfolding op_name holds check_paths
  check_op forbidden_ops allowed_paths op =
      on_forbidden (op_name op) (holds (op_name op) forbidden_ops)
        (if truthy allowed_paths then check_paths allowed_paths op else allowed)

  unfoldable pub check_ops : (forbidden_ops allowed_paths : Value) → List PatchOp → Verdict
  unfolding check_op
  check_ops forbidden_ops allowed_paths [] = allowed
  check_ops forbidden_ops allowed_paths (op ∷ ops) =
      check_op forbidden_ops allowed_paths op also check_ops forbidden_ops allowed_paths ops

  abbrev pub check_with : Option Fields → List PatchOp → Verdict
  check_with none ops = broken
  check_with (some guardrails) ops =
      check_ops (or_list (get "forbidden_ops" guardrails))
        (or_list (get "allowed_paths" guardrails)) ops

  unfoldable pub check_guardrails : PatchSpec → Fields → Verdict
  unfolding guardrails_of check_ops
  check_guardrails patch bp = check_with (guardrails_of bp) patch.operations
