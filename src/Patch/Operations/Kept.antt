-- ===== src/Patch/Operations/Kept.antt =====
-- What an operation on the Blueprint keeps, step by step.
use aqueduct_test.Base.{
  ◌≡◌, refl, ◌∙◌, ◌≢◌, not, ◌||◌, ◌&&◌, String, string_eq, eqb, length, Option, List, [], ◌∷◌,
  arith,
}
use aqueduct_test.Patch.Value.{Value, str, arr, obj, nil, Fields, end, get, put, get-put, or_null}
use aqueduct_test.Patch.Result.{
  edge_not_found, edge_spec_incomplete, nothing_to_replace, Result, OpError, ok, op_error, crash,
  ◌>>=◌, reject_if,
}
use aqueduct_test.Patch.Blueprint.{
  has_value, find_module, filter_dicts, find_first, set_in, is_edge, update_module, remove_edge,
  remove_edges_matching, set_default, append_to, add_each, add_edges, append_module, is_missing,
  items_of, append_value,
}
use aqueduct_test.Patch.Operations.{
  is_none, given_edge, dict_or_crash, context_of, unlinked, apply_remove_module,
  apply_replace_context_value, apply_replace_edge, apply_set_spark_config,
}

-- If the operation succeeds, the key keeps its value.
pub data Keeps (k : String) (bp : Fields) : Result Fields → Type 0 where
  keeps : (bp' : Fields) → get k bp' ≡ get k bp → Keeps k bp (ok bp')
  keeps_error : (e : OpError) → Keeps k bp (op_error e)
  keeps_crash : Keeps k bp crash

module _ {k : String} {bp : Fields} where
  pub Keeps-bind {ℓ} :
      {A : Type ℓ} (m : Result A) {f : A → Result Fields}
      → ((a : A) → Keeps k bp (f a))
      → Keeps k bp (m >>= f)
  Keeps-bind (ok a) h = h a
  Keeps-bind (op_error e) h = keeps_error e
  Keeps-bind crash h = keeps_crash

  -- What keeps the key from a Blueprint that has kept it.
  Keeps-after :
      {bp' : Fields} {r : Result Fields} → get k bp' ≡ get k bp → Keeps k bp' r → Keeps k bp r
  Keeps-after e (keeps b h) = keeps b (h ∙ e)
  Keeps-after e (keeps_error x) = keeps_error x
  Keeps-after e keeps_crash = keeps_crash

  -- A step that keeps the key, before another.
  pub Keeps-then :
      {m : Result Fields} {f : Fields → Result Fields}
      → Keeps k bp m
      → ((bp' : Fields) → Keeps k bp' (f bp'))
      → Keeps k bp (m >>= f)
  Keeps-then (keeps b h) g = Keeps-after h (g b)
  Keeps-then (keeps_error e) g = keeps_error e
  Keeps-then keeps_crash g = keeps_crash

  pub Keeps-ok : {bp' : Fields} → Keeps k bp (ok bp') → get k bp' ≡ get k bp
  Keeps-ok (keeps b h) = h

pub put-Keeps :
    (k key : String) (v : Value) (bp : Fields) → k ≢ key → get k (put key v bp) ≡ get k bp
put-Keeps k key v bp h = ground (arith, get-put k key v bp)

module _ (k : String) where
  pub update_module-Keeps :
      (module_id : String) (change : Fields → Result Fields) (bp : Fields)
      → k ≢ "modules"
      → Keeps k bp (update_module module_id change bp)
  unfolding update_module
  update_module-Keeps module_id change bp h = Keeps-bind (find_module bp (str module_id)) λ m.
      Keeps-bind (change m)
        λ m'. Keeps-bind (items_of "modules" bp) λ modules. keeps _ (put-Keeps k "modules" _ bp h)

  pub set_default-Keeps :
      (key : String) (v : Value) (bp : Fields) → k ≢ key → get k (set_default key v bp) ≡ get k bp
  unfolding set_default
  set_default-Keeps key v bp h = ground (arith, put-Keeps k key v bp h)

  append_to-Keeps :
      (key : String) (v : Value) (bp : Fields) → k ≢ key → Keeps k bp (append_to key v bp)
  unfolding append_to
  append_to-Keeps key v bp h =
      Keeps-bind (append_value (get key bp) v) λ xs. keeps _ (put-Keeps k key xs bp h)

  add_each-Keeps :
      (specs : List Fields) (bp : Fields) → k ≢ "edges" → Keeps k bp (add_each bp specs)
  unfolding add_each
  add_each-Keeps [] bp h = keeps bp refl
  add_each-Keeps (spec ∷ specs) bp h =
      Keeps-bind
        (reject_if (is_missing (get "from" spec) || is_missing (get "to" spec))
          edge_spec_incomplete)
        λ _. Keeps-then (append_to-Keeps "edges" (obj spec) bp h) λ bp'. add_each-Keeps specs bp' h

  pub add_edges-Keeps :
      (specs : List Fields) (bp : Fields) → k ≢ "edges" → Keeps k bp (add_edges bp specs)
  unfolding add_edges
  add_edges-Keeps specs bp h =
      Keeps-after (set_default-Keeps "edges" (arr nil) bp h) (add_each-Keeps specs _ h)

  remove_edge-Keeps : (bp spec : Fields) → k ≢ "edges" → Keeps k bp (remove_edge bp spec)
  unfolding remove_edge
  remove_edge-Keeps bp spec h = Keeps-bind (items_of "edges" bp) λ edges.
      Keeps-bind
        (filter_dicts (λ e. not (is_edge (or_null (get "from" spec)) (or_null (get "to" spec)) e))
          edges)
        λ kept.
          Keeps-bind (reject_if (eqb (length kept) (length edges)) edge_not_found)
            λ _. keeps _ (put-Keeps k "edges" _ bp h)

  pub remove_edges-Keeps :
      (specs : List Fields) (bp : Fields)
      → k ≢ "edges"
      → Keeps k bp (remove_edges_matching bp specs)
  unfolding remove_edges_matching
  remove_edges-Keeps [] bp h = keeps bp refl
  remove_edges-Keeps (spec ∷ specs) bp h =
      Keeps-then (remove_edge-Keeps bp spec h) λ bp'. remove_edges-Keeps specs bp' h

  pub append_module-Keeps :
      (m : Value) (bp : Fields) → k ≢ "modules" → Keeps k bp (append_module m bp)
  unfolding append_module
  append_module-Keeps m bp h =
      Keeps-after (set_default-Keeps "modules" (arr nil) bp h) (append_to-Keeps "modules" m _ h)

  pub remove_module-Keeps :
      (bp : Fields) (module_id : String) (specs : List Fields)
      → k ≢ "modules"
      → k ≢ "edges"
      → Keeps k bp (apply_remove_module bp module_id specs)
  unfolding apply_remove_module
  remove_module-Keeps bp module_id specs hm he = Keeps-bind (find_module bp (str module_id)) λ _.
      Keeps-bind (items_of "modules" bp) λ modules.
        Keeps-bind (filter_dicts (λ x. not (has_value "id" (str module_id) x)) modules) λ kept.
          Keeps-bind (items_of "edges" bp) λ edges.
            Keeps-bind (filter_dicts (unlinked module_id) edges) λ others.
              Keeps-after (put-Keeps k "edges" _ _ he ∙ put-Keeps k "modules" _ bp hm)
                (add_edges-Keeps specs _ he)

  pub replace_edge-Keeps :
      (bp : Fields) (from_id to_id : String) (new_from new_to new_port : Option String)
      → k ≢ "edges"
      → Keeps k bp (apply_replace_edge bp from_id to_id new_from new_to new_port)
  unfolding apply_replace_edge
  replace_edge-Keeps bp from_id to_id new_from new_to new_port h =
      Keeps-bind
        (reject_if (is_none new_from && is_none new_to && is_none new_port) nothing_to_replace)
        λ _. Keeps-bind (items_of "edges" bp) λ edges.
          Keeps-bind (find_first (is_edge (str from_id) (str to_id)) edges)
            λ found. Keeps-bind (given_edge found) λ edge. keeps _ (put-Keeps k "edges" _ bp h)

  pub set_spark_config-Keeps :
      (bp : Fields) (key : String) (v : Value)
      → k ≢ "spark_config"
      → Keeps k bp (apply_set_spark_config bp key v)
  unfolding apply_set_spark_config
  set_spark_config-Keeps bp key v h =
      Keeps-bind
        (dict_or_crash (or_null (get "spark_config" (set_default "spark_config" (obj end) bp))))
        λ _. keeps _ (put-Keeps k "spark_config" _ _ h ∙ set_default-Keeps "spark_config" _ bp h)

  pub replace_context_value-Keeps :
      (bp : Fields) (key : String) (v : Value)
      → k ≢ "context"
      → Keeps k bp (apply_replace_context_value bp key v)
  unfolding apply_replace_context_value
  replace_context_value-Keeps bp key v h =
      Keeps-bind (context_of (get "context" bp))
        λ context. Keeps-bind (set_in key v context) λ _. keeps _ (put-Keeps k "context" _ bp h)
