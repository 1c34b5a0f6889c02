-- ===== src/Patch/Value.antt =====
-- The values of a YAML or JSON document, and Python's operations on its dicts and lists:
-- `get`, item assignment (a new key goes last), truth, `==` and iteration.
use aqueduct_test.Base.{
  ◌≡◌, refl, Bool, true, false, not, ◌&&◌, String, string_eq, ◌==◌, if◌then◌else◌, Option, none,
  some, List, [], ◌∷◌, arith,
}

mutual
  -- A number is kept as its text, with whether it is zero.
  pub data Value : Type 0 where
    null : Value
    bool : Bool → Value
    num : (is_zero : Bool) → String → Value
    str : String → Value
    arr : Items → Value
    obj : Fields → Value

  pub data Fields : Type 0 where
    end : Fields
    field : String → Value → Fields → Fields

  pub data Items : Type 0 where
    nil : Items
    cons : Value → Items → Items

unfoldable pub to_list : Items → List Value
to_list nil = []
to_list (cons x xs) = x ∷ to_list xs

unfoldable pub from_list : List Value → Items
from_list [] = nil
from_list (x ∷ xs) = cons x (from_list xs)

pub to_list-from_list : (xs : List Value) → to_list (from_list xs) ≡ xs
unfolding to_list from_list
to_list-from_list [] = refl
to_list-from_list (x ∷ xs) = ground (arith, to_list-from_list xs)

-- `d.get(key)`, and `d[key] = value`.
unfoldable pub get : String → Fields → Option Value
get k end = none
get k (field j v fs) = if k == j then some v else get k fs

unfoldable pub put : String → Value → Fields → Fields
put k v end = field k v end
put k v (field j w fs) = if k == j then field j v fs else field j w (put k v fs)

pub get-put :
    (j k : String) (v : Value) (fs : Fields)
    → get j (put k v fs) ≡ (if j == k then some v else get j fs)
unfolding get put
get-put j k v end = refl
get-put j k v (field i w fs) = ground (arith, get-put j k v fs)

-- `bool(value)`
unfoldable pub truthy : Value → Bool
truthy null = false
truthy (bool b) = b
truthy (num is_zero _) = not is_zero
truthy (str s) = not (s == "")
truthy (arr nil) = false
truthy (arr (cons _ _)) = true
truthy (obj end) = false
truthy (obj (field _ _ _)) = true

abbrev pub truthy? : Option Value → Bool
truthy? none = false
truthy? (some v) = truthy v

-- `==`, with numbers compared by their text and dicts in their order.
unfoldable mutual
  pub same : Value → Value → Bool
  same null null = true
  same (bool true) (bool b) = b
  same (bool false) (bool b) = not b
  same (num _ s) (num _ t) = s == t
  same (str s) (str t) = s == t
  same (arr xs) (arr ys) = same_items xs ys
  same (obj fs) (obj gs) = same_fields fs gs
  same _ _ = false

  pub same_items : Items → Items → Bool
  same_items nil nil = true
  same_items (cons x xs) (cons y ys) = same x y && same_items xs ys
  same_items _ _ = false

  pub same_fields : Fields → Fields → Bool
  same_fields end end = true
  same_fields (field j v fs) (field k w gs) = j == k && same v w && same_fields fs gs
  same_fields _ _ = false

-- `==` of what `get` returns, where a missing key is `None`.
abbrev pub or_null : Option Value → Value
or_null none = null
or_null (some v) = v

-- `value == text`
abbrev pub is_text : String → Option Value → Bool
is_text s (some (str t)) = t == s
is_text s _ = false
