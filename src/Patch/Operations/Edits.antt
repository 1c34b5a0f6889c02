-- ===== src/Patch/Operations/Edits.antt =====
-- What a dotted key writes, and what a removal leaves.
use aqueduct_test.Base.{
  ◌≡◌, refl, ◌∙◌, subst, Bool, true, false, not, ◌||◌, String, string_eq, if◌then◌else◌, Option,
  none, some, List, [], ◌∷◌, any, arith,
}
use aqueduct_test.Patch.Value.{
  Value, str, arr, obj, null, bool, num, nil, Fields, get, put, get-put, from_list,
}
use aqueduct_test.Patch.Result.{ok, >>=-eq-ok, ok_injective}
use aqueduct_test.Patch.Blueprint.{
  has_value, items_of, find_module, filter_dicts, sub_dict, set_nested, put_list, set_default,
  add_each, add_edges,
}
use aqueduct_test.Patch.Operations.{unlinked, apply_remove_module}

-- The value at the end of a dotted key.
abbrev pub dict_at : Option Value → Option Fields
dict_at (some (obj d)) = some d
dict_at _ = none

unfoldable pub get_nested : String → List String → Fields → Option Value
get_nested key [] d = get key d
get_nested key (next ∷ parts) d = elim (dict_at (get key d)) [
  | none ↦ none
  | some sub ↦ get_nested next parts sub
]

get-put-same : (k : String) (v : Value) (d : Fields) → get k (put k v d) ≡ some v
get-put-same k v d = ground (arith, get-put k k v d)

-- If a value is set along the parts of a key, it is found there.
pub get_nested-set_nested :
    (key : String) (parts : List String) (v : Value) (d d' : Fields)
    → set_nested key parts v d ≡ ok d'
    → get_nested key parts d' ≡ some v
unfolding set_nested get_nested
get_nested-set_nested key [] v d d' h =
    subst (λ x. get key x ≡ some v) (ok_injective h) (get-put-same key v d)
get_nested-set_nested key (next ∷ parts) v d d' h =
    let (sub, _, h') = >>=-eq-ok (sub_dict (get key d)) _ h in
    let (sub', hs, e) = >>=-eq-ok (set_nested next parts v sub) _ h' in
    subst (λ x. get_nested key (next ∷ parts) x ≡ some v) (ok_injective e)
      (rw (get-put-same key (obj sub') d, get_nested)
        (get_nested-set_nested next parts v sub sub' hs))

-- An item of a list, taken for a dict.
abbrev pub is_dict_with : (Fields → Bool) → Value → Bool
is_dict_with p (obj d) = p d
is_dict_with p _ = false

module _ (keep p : Fields → Bool) (apart : (d : Fields) → keep d ≡ true → p d ≡ false) where
  keep_or_not :
      (b : Bool) (x : Fields) (rest : List Value)
      → (b ≡ true → p x ≡ false)
      → any (is_dict_with p) rest ≡ false
      → any (is_dict_with p) (if b then obj x ∷ rest else rest) ≡ false
  keep_or_not true x rest h ih = ground (arith, h refl)
  keep_or_not false x rest h ih = ih

  filter_dicts-any :
      (xs ys : List Value) → filter_dicts keep xs ≡ ok ys → any (is_dict_with p) ys ≡ false
  unfolding filter_dicts
  filter_dicts-any [] ys h = subst (λ zs. any (is_dict_with p) zs ≡ false) (ok_injective h) refl
  filter_dicts-any (obj x ∷ xs) ys h =
      let (rest, hr, e) = >>=-eq-ok (filter_dicts keep xs) _ h in
      subst (λ zs. any (is_dict_with p) zs ≡ false) (ok_injective e)
        (keep_or_not (keep x) x rest (apart x) (filter_dicts-any xs rest hr))
  filter_dicts-any (null ∷ xs) ys h = cc
  filter_dicts-any (bool _ ∷ xs) ys h = cc
  filter_dicts-any (num _ _ ∷ xs) ys h = cc
  filter_dicts-any (str _ ∷ xs) ys h = cc
  filter_dicts-any (arr _ ∷ xs) ys h = cc

-- An edge that leaves the module or enters it.
abbrev pub touches : String → Fields → Bool
touches module_id e = has_value "from" (str module_id) e || has_value "to" (str module_id) e

get-removed :
    (bp : Fields) (kept others : List Value)
    → (get "modules"
          (set_default "edges" (arr nil) (put_list "edges" others (put_list "modules" kept bp)))
        ≡ some (arr (from_list kept)))
      × (get "edges"
            (set_default "edges" (arr nil) (put_list "edges" others (put_list "modules" kept bp)))
          ≡ some (arr (from_list others)))
unfolding set_default string_eq
get-removed bp kept others =
    rw (get-put-same "edges" (arr (from_list others)) (put_list "modules" kept bp)) (
      get-put "modules" "edges" _ _ ∙ get-put-same "modules" (arr (from_list kept)) bp,
      get-put-same "edges" _ _,
    )

-- After a module is removed and no edge added, no module of the Blueprint has its id, and no edge
-- leaves it or enters it.
pub remove_module-clears :
    (bp bp' : Fields) (module_id : String)
    → apply_remove_module bp module_id [] ≡ ok bp'
    → (modules edges : List Value) × (get "modules" bp' ≡ some (arr (from_list modules)))
      × (get "edges" bp' ≡ some (arr (from_list edges)))
      × (any (is_dict_with (has_value "id" (str module_id))) modules ≡ false)
      × (any (is_dict_with (touches module_id)) edges ≡ false)
unfolding apply_remove_module add_edges add_each set_default string_eq
remove_module-clears bp bp' module_id h =
    let (_, _, h1) = >>=-eq-ok (find_module bp (str module_id)) _ h in
    let (ms, _, h2) = >>=-eq-ok (items_of "modules" bp) _ h1 in
    let (kept, hk, h3) =
      >>=-eq-ok (filter_dicts (λ x. not (has_value "id" (str module_id) x)) ms) _ h2 in
    let (es, _, h4) = >>=-eq-ok (items_of "edges" bp) _ h3 in
    let (others, ho, e) = >>=-eq-ok (filter_dicts (unlinked module_id) es) _ h4 in
    (
      kept,
      others,
      subst (λ x. get "modules" x ≡ some (arr (from_list kept))) (ok_injective e)
          (get-removed bp kept others).0,
      subst (λ x. get "edges" x ≡ some (arr (from_list others))) (ok_injective e)
          (get-removed bp kept others).1,
      filter_dicts-any _ _ (λ d q. ground arith) ms kept hk,
      filter_dicts-any _ _ (λ d q. ground arith) es others ho,
    )
