-- ===== src/Patch/Apply/Unguarded.antt =====
-- A module whose id looks like one that an Arcade expands to.
use aqueduct_test.Base.{
  ◌≡◌, refl, eq-false-ne, Bool-cases, inl, inr, ◌∙◌, ap, subst, Bool, true, false, String,
  string_eq, ◌==◌, is_in, if◌then◌else◌, Option, some, [], ◌∷◌, ◌++◌, arith,
}
use aqueduct_test.Patch.Value.{
  Value, str, arr, obj, nil, Fields, Items, from_list, to_list, get, put, get-put, truthy,
}
use aqueduct_test.Patch.Grammar.{insert_module, PatchSpec, op_name}
use aqueduct_test.Patch.Result.{ok}
use aqueduct_test.Patch.Blueprint.{
  items_of, has_id, append_to, append_module, set_default, add_each, add_edges,
  remove_edges_matching,
}
use aqueduct_test.Patch.Operations.{apply_insert_module, apply_operation}
use aqueduct_test.Patch.Operations.Kept.{set_default-Keeps}
use aqueduct_test.Patch.Guardrails.{
  allowed, holds, or_list, or_text, guardrails_of, check_new, check_paths, check_op, check_ops,
  check_guardrails, ◌also◌,
}
use aqueduct_test.Patch.Apply.{patched, apply_patch_to_dict, apply_each, on_copy, on_applied}

abbrev pub insertion : String → Fields → PatchSpec
insertion patch_id new = record { patch_id = patch_id; operations = insert_module new [] [] ∷ [] }

empty_absurd : {A : Type 0} → is_in "__" "" ≡ true → A
unfolding is_in
empty_absurd h = cc

truthy_hidden : (i : String) → is_in "__" i ≡ true → truthy (str i) ≡ true
unfolding truthy
truthy_hidden i h = elim (Bool-cases (i == "")) [
  | inl e ↦ empty_absurd (subst (λ t. is_in "__" t ≡ true) (ground arith) h)
  | inr e ↦ rw e
]

-- A module inserted without edges, at the end of the modules that are there.
pub apply_insert_module-eq :
    (reload : Value → Value) (bp new : Fields) (id : Value) (xs : Items)
    → get "id" new ≡ some id
    → truthy id ≡ true
    → get "modules" bp ≡ some (arr xs)
    → has_id id (to_list xs) ≡ ok false
    → apply_insert_module reload bp new [] []
      ≡ ok (
          set_default "edges"
            (arr nil)
            (put "modules" (arr (from_list (to_list xs ++ (reload (obj new) ∷ [])))) bp))
unfolding apply_insert_module items_of append_module append_to set_default remove_edges_matching
    add_edges add_each
apply_insert_module-eq reload bp new id xs hid ht hm hf =
    rw hid (rw ht (rw hm (rw hf (rw hm refl))))

is_hidden-new :
    (new : Fields) (i : String)
    → get "id" new ≡ some (str i)
    → is_in "__" i ≡ true
    → holds "__" (or_text (get "id" new)) ≡ some true
unfolding holds
is_hidden-new new i hid hh = rw hid (rw (truthy_hidden i hh) (ap some hh))

either_way : (b : Bool) → ((if b then allowed else allowed) also allowed) ≡ allowed
either_way true = refl
either_way false = refl

hidden-new-passes :
    (show : Value → String) (fnmatch : String → String → Bool)
    (provenance : Option (String → Option Value)) (bp new guardrails : Fields) (patch_id i : String)
    → guardrails_of bp ≡ some guardrails
    → holds "insert_module" (or_list (get "forbidden_ops" guardrails)) ≡ some false
    → get "id" new ≡ some (str i)
    → is_in "__" i ≡ true
    → check_guardrails show fnmatch provenance (insertion patch_id new) bp ≡ allowed
unfolding check_guardrails check_ops check_op check_paths check_new op_name
hidden-new-passes show fnmatch provenance bp new guardrails patch_id i hg hf hid hh = rw hg (
    rw hf (
      rw (is_hidden-new new i hid hh)
        (either_way (truthy (or_list (get "allowed_paths" guardrails))))))

abbrev pub inserted : Fields → Value → Fields
inserted bp modules = set_default "edges" (arr nil) (put "modules" modules bp)

insertion-applied :
    (reload : Value → Value) (bp new : Fields) (patch_id : String) (id : Value) (xs : Items)
    → ((v : Value) → reload v ≡ v)
    → get "id" new ≡ some id
    → truthy id ≡ true
    → get "modules" bp ≡ some (arr xs)
    → has_id id (to_list xs) ≡ ok false
    → apply_patch_to_dict reload bp (insertion patch_id new)
      ≡ patched (inserted bp (arr (from_list (to_list xs ++ (obj new ∷ [])))))
unfolding apply_patch_to_dict on_copy apply_each apply_operation on_applied
insertion-applied reload bp new patch_id id xs same hid ht hm hf =
    rw (same (obj bp))
      (rw (apply_insert_module-eq reload bp new id xs hid ht hm hf) (rw (same (obj new)) refl))

inserted-modules : (bp : Fields) (v : Value) → get "modules" (inserted bp v) ≡ some v
unfolding string_eq
inserted-modules bp v =
    set_default-Keeps "modules" "edges" (arr nil) (put "modules" v bp) (eq-false-ne refl)
    ∙ get-put "modules" "modules" v bp

-- A patch that inserts a module with a text id that holds two underscores in a row passes guardrails
-- that do not forbid `insert_module`, whatever paths its config writes; and where no module has
-- that id, and dumping a document and loading it gives it back, it is applied, so the module is
-- the last one of the patched Blueprint.
pub insertion-unguarded :
    (reload : Value → Value) (show : Value → String) (fnmatch : String → String → Bool)
    (provenance : Option (String → Option Value)) (bp new guardrails : Fields) (patch_id i : String)
    (xs : Items)
    → ((v : Value) → reload v ≡ v)
    → guardrails_of bp ≡ some guardrails
    → holds "insert_module" (or_list (get "forbidden_ops" guardrails)) ≡ some false
    → get "id" new ≡ some (str i)
    → is_in "__" i ≡ true
    → get "modules" bp ≡ some (arr xs)
    → has_id (str i) (to_list xs) ≡ ok false
    → (check_guardrails show fnmatch provenance (insertion patch_id new) bp ≡ allowed)
      × ((out : Fields) × (apply_patch_to_dict reload bp (insertion patch_id new) ≡ patched out)
          × (get "modules" out ≡ some (arr (from_list (to_list xs ++ (obj new ∷ []))))))
insertion-unguarded reload show fnmatch provenance bp new guardrails patch_id i xs same hg hf hid hh
      hm hfresh =
    (
      hidden-new-passes show fnmatch provenance bp new guardrails patch_id i hg hf hid hh,
      (
        inserted bp (arr (from_list (to_list xs ++ (obj new ∷ [])))),
        insertion-applied reload bp new patch_id (str i) xs same hid (truthy_hidden i hh) hm hfresh,
        inserted-modules bp _,
      ),
    )
