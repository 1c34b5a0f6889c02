-- ===== src/Patch/Guardrails/Permitted.antt =====
-- The paths that an operation writes, and that the check of them is sound.
use aqueduct_test.Base.{
  ◌≡◌, refl, ◌⊎◌, inl, inr, Bool, true, false, ◌||◌, String, string_eq, ◌==◌, is_in, if◌then◌else◌,
  Option, none, some, List, [], ◌∷◌, ◌++◌, Member, here, there, arith, Bool-cases,
}
use aqueduct_test.Patch.Value.{Value, str, obj, arr, num, bool, null, Fields, get}
use aqueduct_test.Patch.Grammar.{
  PatchOp, replace_module_config, set_module_config_key, replace_module_label, insert_module,
  remove_module, replace_context_value, add_probe, replace_edge, set_module_on_failure,
  replace_retry_policy, add_arcade_ref, defer_to_human, set_spark_config,
}
use aqueduct_test.Patch.Guardrails.{
  Verdict, allowed, op_forbidden, path_rejected, broken, ◌also◌, walked, holds, or_text,
  resolve_path, match_any, on_match, match_walked, check_path, check_given, check_config,
  unless_hidden, check_new, check_paths, on_forbidden,
}

-- Whether the check takes the module for one that an Arcade expands to.
abbrev pub is_hidden : PatchOp → Option Bool
is_hidden (set_module_config_key module_id _ _) = some (is_in "__" module_id)
is_hidden (replace_module_config module_id _) = some (is_in "__" module_id)
is_hidden (insert_module new _ _) = holds "__" (or_text (get "id" new))
is_hidden (add_probe new _) = holds "__" (or_text (get "id" new))
is_hidden (add_arcade_ref new _ _) = holds "__" (or_text (get "id" new))
is_hidden _ = some false

-- The paths that an operation writes to the config of a module.
abbrev pub the_list : Option Value → List Value
the_list none = []
the_list (some v) = v ∷ []

abbrev pub paths_in : Option Value → List Value
paths_in (some (obj config)) = the_list (get "path" config) ++ the_list (get "output_path" config)
paths_in _ = []

abbrev pub written_paths : PatchOp → List Value
written_paths (set_module_config_key _ key value) =
    if key == "path" || key == "output_path" then value ∷ [] else []
written_paths (replace_module_config _ config) = paths_in (some (obj config))
written_paths (insert_module new _ _) = paths_in (get "config" new)
written_paths (add_probe new _) = paths_in (get "config" new)
written_paths (add_arcade_ref new _ _) = paths_in (get "config" new)
written_paths _ = []

pub also-eq-allowed : (v w : Verdict) → v also w ≡ allowed → (v ≡ allowed) × (w ≡ allowed)
also-eq-allowed allowed w h = (refl, h)
also-eq-allowed (op_forbidden name) w h = cc
also-eq-allowed (path_rejected resolved) w h = cc
also-eq-allowed broken w h = cc

unless_hidden-eq-allowed :
    (o : Option Bool) (v : Verdict) → unless_hidden o v ≡ allowed → o ≡ some false → v ≡ allowed
unless_hidden-eq-allowed none v h k = cc
unless_hidden-eq-allowed (some true) v h k = cc
unless_hidden-eq-allowed (some false) v h k = h

pub on_forbidden-eq-allowed :
    (name : String) (o : Option Bool) (v : Verdict)
    → on_forbidden name o v ≡ allowed
    → (o ≡ some false) × (v ≡ allowed)
on_forbidden-eq-allowed name none v h = cc
on_forbidden-eq-allowed name (some true) v h = cc
on_forbidden-eq-allowed name (some false) v h = (refl, h)

on_match-eq-allowed :
    (resolved : String) (o : Option Bool) → on_match resolved o ≡ allowed → o ≡ some true
on_match-eq-allowed resolved none h = cc
on_match-eq-allowed resolved (some true) h = refl
on_match-eq-allowed resolved (some false) h = cc

Member-append : (v : Value) (xs ys : List Value) → Member v (xs ++ ys) → Member v xs ⊎ Member v ys
Member-append v [] ys m = inr m
Member-append v (x ∷ xs) ys (here _ _) = inl (here x xs)
Member-append v (x ∷ xs) ys (there _ _ _ m) = elim (Member-append v xs ys m) [
  | inl l ↦ inl (there v x xs l)
  | inr r ↦ inr r
]

no_match : {A : Type 0} {b : Bool} → none ≡ some b → A
no_match h = cc

module _ (show : Value → String) (fnmatch : String → String → Bool)
    (provenance : Option (String → Option Value)) where
  -- A pattern of the list matches the resolved path, or there is no path.
  abbrev pub IsPermitted : Value → Value → Type 0
  IsPermitted allowed_paths v =
      (resolve_path show fnmatch provenance v ≡ "")
      ⊎ ((patterns : List Value) × (walked allowed_paths ≡ some patterns)
          × (p : String) × Member (str p) patterns
          × (fnmatch (resolve_path show fnmatch provenance v) p ≡ true))

  match_any-Member :
      (resolved : String) (patterns : List Value)
      → match_any show fnmatch provenance resolved patterns ≡ some true
      → (p : String) × Member (str p) patterns × (fnmatch resolved p ≡ true)
  unfolding match_any
  match_any-Member resolved [] h = cc
  match_any-Member resolved (str p ∷ ps) h = elim (Bool-cases (fnmatch resolved p)) [
    | inl e ↦ (p, here (str p) ps, e)
    | inr e ↦
        let (q, m, f) = match_any-Member resolved ps (ground arith) in
        (q, there (str q) (str p) ps m, f)
  ]
  match_any-Member resolved (null ∷ ps) h = cc
  match_any-Member resolved (bool b ∷ ps) h = cc
  match_any-Member resolved (num _ _ ∷ ps) h = cc
  match_any-Member resolved (arr _ ∷ ps) h = cc
  match_any-Member resolved (obj _ ∷ ps) h = cc

  match_walked-Member :
      (resolved : String) (o : Option (List Value))
      → match_walked show fnmatch provenance resolved o ≡ some true
      → (ps : List Value) × (o ≡ some ps)
        × (p : String) × Member (str p) ps
        × (fnmatch resolved p ≡ true)
  unfolding match_walked
  match_walked-Member resolved none h = no_match h
  match_walked-Member resolved (some ps) h =
      let (p, m, f) = match_any-Member resolved ps h in (ps, refl, p, m, f)

  check_path-IsPermitted :
      (allowed_paths v : Value)
      → check_path show fnmatch provenance allowed_paths v ≡ allowed
      → IsPermitted allowed_paths v
  unfolding check_path
  check_path-IsPermitted ap v h = elim (Bool-cases (resolve_path show fnmatch provenance v == "")) [
    | inl e ↦ inl (ground arith)
    | inr e ↦ inr (
        match_walked-Member _ _
          (on_match-eq-allowed (resolve_path show fnmatch provenance v) _ (ground arith)))
  ]

  check_given-IsPermitted :
      (ap : Value) (o : Option Value)
      → check_given show fnmatch provenance ap o ≡ allowed
      → (v : Value) → Member v (the_list o)
      → IsPermitted ap v
  check_given-IsPermitted ap none h v m = elim m [ ]
  check_given-IsPermitted ap (some w) h v (there _ _ _ m) = elim m [ ]
  check_given-IsPermitted ap (some w) h v (here _ _) = check_path-IsPermitted ap w h

  check_config-IsPermitted :
      (ap : Value) (o : Option Value)
      → check_config show fnmatch provenance ap o ≡ allowed
      → (v : Value) → Member v (paths_in o)
      → IsPermitted ap v
  unfolding check_config
  check_config-IsPermitted ap none h v m = elim m [ ]
  check_config-IsPermitted ap (some null) h v m = elim m [ ]
  check_config-IsPermitted ap (some (bool _)) h v m = elim m [ ]
  check_config-IsPermitted ap (some (num _ _)) h v m = elim m [ ]
  check_config-IsPermitted ap (some (str _)) h v m = elim m [ ]
  check_config-IsPermitted ap (some (arr _)) h v m = elim m [ ]
  check_config-IsPermitted ap (some (obj c)) h v m =
      let (hp, ho) = also-eq-allowed _ _ h in
      elim (Member-append v (the_list (get "path" c)) (the_list (get "output_path" c)) m) [
        | inl l ↦ check_given-IsPermitted ap (get "path" c) hp v l
        | inr r ↦ check_given-IsPermitted ap (get "output_path" c) ho v r
      ]

  check_new-IsPermitted :
      (ap : Value) (new : Fields)
      → check_new show fnmatch provenance ap new ≡ allowed
      → holds "__" (or_text (get "id" new)) ≡ some false
      → (v : Value) → Member v (paths_in (get "config" new))
      → IsPermitted ap v
  unfolding check_new
  check_new-IsPermitted ap new h k v m =
      check_config-IsPermitted ap (get "config" new) (unless_hidden-eq-allowed _ _ h k) v m

  check_key-IsPermitted :
      (ap : Value) (is_path : Bool) (value : Value)
      → (if is_path then check_path show fnmatch provenance ap value else allowed) ≡ allowed
      → (v : Value) → Member v (if is_path then value ∷ [] else [])
      → IsPermitted ap v
  check_key-IsPermitted ap true value h v (here _ _) = check_path-IsPermitted ap value h
  check_key-IsPermitted ap true value h v (there _ _ _ m) = elim m [ ]
  check_key-IsPermitted ap false value h v m = elim m [ ]

  pub check_paths-IsPermitted :
      (ap : Value) (op : PatchOp)
      → check_paths show fnmatch provenance ap op ≡ allowed
      → is_hidden op ≡ some false
      → (v : Value) → Member v (written_paths op)
      → IsPermitted ap v
  unfolding check_paths
  check_paths-IsPermitted ap (set_module_config_key module_id key value) h k v m =
      check_key-IsPermitted ap (key == "path" || key == "output_path") value
        (unless_hidden-eq-allowed _ _ h k) v m
  check_paths-IsPermitted ap (replace_module_config module_id config) h k v m =
      check_config-IsPermitted ap (some (obj config)) (unless_hidden-eq-allowed _ _ h k) v m
  check_paths-IsPermitted ap (insert_module new _ _) h k v m = check_new-IsPermitted ap new h k v m
  check_paths-IsPermitted ap (add_probe new _) h k v m = check_new-IsPermitted ap new h k v m
  check_paths-IsPermitted ap (add_arcade_ref new _ _) h k v m = check_new-IsPermitted ap new h k v m
  check_paths-IsPermitted ap (replace_module_label _ _) h k v m = elim m [ ]
  check_paths-IsPermitted ap (remove_module _ _) h k v m = elim m [ ]
  check_paths-IsPermitted ap (replace_context_value _ _) h k v m = elim m [ ]
  check_paths-IsPermitted ap (replace_edge _ _ _ _ _) h k v m = elim m [ ]
  check_paths-IsPermitted ap (set_module_on_failure _ _) h k v m = elim m [ ]
  check_paths-IsPermitted ap (replace_retry_policy _) h k v m = elim m [ ]
  check_paths-IsPermitted ap (defer_to_human _ _ _) h k v m = elim m [ ]
  check_paths-IsPermitted ap (set_spark_config _ _) h k v m = elim m [ ]
