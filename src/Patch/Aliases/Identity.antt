-- ===== src/Patch/Aliases/Identity.antt =====
-- A patch gets an identifier.
use aqueduct_test.Base.{
  ◌≡◌, ◌≢◌, refl, sym, subst, ap, ◌∙◌, Bool, true, false, String, string_eq, ◌==◌, ◌||◌,
  if◌then◌else◌, ◌<>◌, Option, none, some, arith,
}
use text.Mathlib.TextLemmas.{cons-append}
use aqueduct_test.Patch.Value.{
  Value, null, bool, num, str, arr, obj, Fields, get, put, get-put, truthy, truthy?,
}
use aqueduct_test.Patch.Result.{ok, crash}
use aqueduct_test.Patch.Aliases.{from_rationale, with_patch_id}

pub get-put_same : (k : String) (v : Value) (fs : Fields) → get k (put k v fs) ≡ some v
get-put_same k v fs = ground (arith, get-put k k v fs)

starts_text : String → Bool
starts_text String.[] = false
starts_text (String.◌∷◌ _ _) = true

starts_text-append : (s t : String) → starts_text s ≡ true → starts_text (s <> t) ≡ true
unfolding starts_text
starts_text-append String.[] t h = cc
starts_text-append (String.◌∷◌ c s) t h = ap starts_text (cons-append c s t)

auto_text : (s : String) → ("auto-" <> s) ≢ ""
unfolding starts_text
auto_text s e =
    let starts : starts_text ("auto-" <> s) ≡ true = starts_text-append "auto-" s refl in
    let differ : true ≡ false = sym starts ∙ ap starts_text e in cc

auto-truthy :
    (b : Bool) (s t : String) → truthy (str (if b then "auto-" <> s else "auto-" <> t)) ≡ true
unfolding truthy
auto-truthy true s t = ground (arith, auto_text s)
auto-truthy false s t = ground (arith, auto_text t)

module _ (strip slug : String → String) (uuid : String) where
  identified :
      (spec spec' : Fields) (id' : String)
      → truthy (str id') ≡ true
      → ok (put "patch_id" (str id') spec) ≡ ok spec'
      → truthy? (get "patch_id" spec') ≡ true
  identified spec spec' id' there h =
      let same : put "patch_id" (str id') spec ≡ spec' = cc in
      subst (λ d. truthy? (get "patch_id" d) ≡ true) same
        (ap truthy? (get-put_same "patch_id" (str id') spec) ∙ there)

  -- A rationale that is no text.
  plain :
      (spec spec' : Fields) (b : Bool)
      → (if b then crash else ok (put "patch_id" (str ("auto-" <> uuid)) spec)) ≡ ok spec'
      → truthy? (get "patch_id" spec') ≡ true
  plain spec spec' true h = cc
  plain spec spec' false h = identified spec spec' _ (auto-truthy true uuid uuid) h

  from_rationale-truthy :
      (spec spec' : Fields) (rationale : Option Value)
      → from_rationale strip slug uuid spec rationale ≡ ok spec'
      → truthy? (get "patch_id" spec') ≡ true
  unfolding from_rationale
  from_rationale-truthy spec spec' (some (str s)) h =
      identified spec spec' _
        (auto-truthy (strip s == "" || slug (strip s) == "") uuid (slug (strip s))) h
  from_rationale-truthy spec spec' none h = identified spec spec' _ (auto-truthy true uuid uuid) h
  from_rationale-truthy spec spec' (some null) h = plain spec spec' (truthy null) h
  from_rationale-truthy spec spec' (some (bool b)) h = plain spec spec' (truthy (bool b)) h
  from_rationale-truthy spec spec' (some (num z s)) h = plain spec spec' (truthy (num z s)) h
  from_rationale-truthy spec spec' (some (arr xs)) h = plain spec spec' (truthy (arr xs)) h
  from_rationale-truthy spec spec' (some (obj fs)) h = plain spec spec' (truthy (obj fs)) h

  chosen :
      (spec spec' : Fields) (b : Bool)
      → truthy? (get "patch_id" spec) ≡ b
      → (if b then ok spec else from_rationale strip slug uuid spec (get "rationale" spec))
        ≡ ok spec'
      → truthy? (get "patch_id" spec') ≡ true
  chosen spec spec' true there h =
      let same : spec ≡ spec' = cc in subst (λ d. truthy? (get "patch_id" d) ≡ true) same there
  chosen spec spec' false _ h = from_rationale-truthy spec spec' (get "rationale" spec) h

  pub with_patch_id-truthy :
      (spec spec' : Fields)
      → with_patch_id strip slug uuid spec ≡ ok spec'
      → truthy? (get "patch_id" spec') ≡ true
  unfolding with_patch_id
  with_patch_id-truthy spec spec' h = chosen spec spec' (truthy? (get "patch_id" spec)) refl h
