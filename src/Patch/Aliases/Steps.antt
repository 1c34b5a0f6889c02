-- ===== src/Patch/Aliases/Steps.antt =====
-- What mending the names of a patch keeps and reaches, step by step.
use aqueduct_test.Base.{
  ◌≡◌, refl, sym, subst, ap, ◌∙◌, ◌⊎◌, inl, inr, true, false, String, string_eq, ◌==◌, contains,
  Option, none, some, List, [], ◌∷◌, All, arith,
}
use aqueduct_test.Patch.Value.{
  Value, null, bool, num, str, arr, obj, Fields, end, field, Items, nil, cons, get, put, get-put,
}
use aqueduct_test.Patch.Result.{ok, ◌>>=◌, >>=-eq-ok}
use aqueduct_test.Patch.Aliases.Identity.{get-put_same}
use aqueduct_test.Patch.Aliases.{
  op_aliases, patchspec_fields, pop, drop_all, bucket, with_misc, canonical_op, rename_op, named_op,
  normalize_op, normalize_ops, mend_operations,
}

-- All keys are fields of a `PatchSpec`.
abbrev pub AreKnown : Fields → Type 0
AreKnown end = Unit
AreKnown (field k v fs) = (contains patchspec_fields k ≡ true) × AreKnown fs

-- Each operation that is a dict has no name but a real one, if a text.
abbrev pub IsNamed : Option Value → Type 0
IsNamed (some (str name)) = canonical_op op_aliases name ≡ name
IsNamed _ = Unit

abbrev pub AreNamed : Items → Type 0
AreNamed nil = Unit
AreNamed (cons (obj op) ops) = IsNamed (get "op" op) × AreNamed ops
AreNamed (cons _ ops) = AreNamed ops

abbrev pub HasNamedOps : Option Value → Type 0
HasNamedOps (some (arr ops)) = AreNamed ops
HasNamedOps _ = Unit

pub put-AreKnown :
    (k : String) (v : Value) (fs : Fields)
    → contains patchspec_fields k ≡ true
    → AreKnown fs
    → AreKnown (put k v fs)
unfolding put
put-AreKnown k v end h a = (h, tt)
put-AreKnown k v (field j w fs) h a = ground (arith, put-AreKnown k v fs)

pub bucket-AreKnown : (fs misc : Fields) → AreKnown (bucket fs misc).0
unfolding bucket
bucket-AreKnown end misc = tt
bucket-AreKnown (field k v fs) misc =
    ground (arith, bucket-AreKnown fs misc, bucket-AreKnown fs (put k v misc))

canonical_cases :
    (aliases : List (String × String)) (name : String)
    → All (λ p. canonical_op op_aliases p.1 ≡ p.1) aliases
    → (canonical_op aliases name ≡ name)
      ⊎ (canonical_op op_aliases (canonical_op aliases name) ≡ canonical_op aliases name)
unfolding canonical_op
canonical_cases [] name h = inl refl
canonical_cases (p ∷ ps) name h = ground (arith, canonical_cases ps name)

targets_real : All (λ p. canonical_op op_aliases p.1 ≡ p.1) op_aliases
unfolding canonical_op string_eq
targets_real = (refl, (refl, (refl, (refl, (refl, (refl, (refl, (refl, (refl, (refl, tt))))))))))

canonical_op-canonical_op :
    (name : String)
    → canonical_op op_aliases (canonical_op op_aliases name) ≡ canonical_op op_aliases name
canonical_op-canonical_op name = elim (canonical_cases op_aliases name targets_real) [
  | inl same ↦ ap (canonical_op op_aliases) same
  | inr real ↦ real
]

unchanged :
    (op op' : Fields) (name : Option Value)
    → get "op" op ≡ name
    → IsNamed name
    → op ≡ op'
    → IsNamed (get "op" op')
unchanged op op' name h real same = subst IsNamed (sym h ∙ ap (get "op") same) real

rename_op-IsNamed :
    (op : Fields) (name : Option Value) (op' : Fields)
    → get "op" op ≡ name
    → rename_op op name ≡ ok op'
    → IsNamed (get "op" op')
unfolding rename_op
rename_op-IsNamed op none op' h r = unchanged op op' none h tt cc
rename_op-IsNamed op (some null) op' h r = unchanged op op' (some null) h tt cc
rename_op-IsNamed op (some (bool b)) op' h r = unchanged op op' (some (bool b)) h tt cc
rename_op-IsNamed op (some (num z s)) op' h r = unchanged op op' (some (num z s)) h tt cc
rename_op-IsNamed op (some (str name)) op' h r =
    let real = str (canonical_op op_aliases name) in
    let same : put "op" real op ≡ op' = cc in
    subst IsNamed (sym (get-put_same "op" real op) ∙ ap (get "op") same)
      (canonical_op-canonical_op name)
rename_op-IsNamed op (some (arr xs)) op' h r = cc
rename_op-IsNamed op (some (obj fs)) op' h r = cc

other-AreNamed :
    (v : Value) (ops ops' : Items)
    → ((xs : Items) → AreNamed xs → AreNamed (cons v xs))
    → ((xs : Items) → normalize_ops ops ≡ ok xs → AreNamed xs)
    → (normalize_ops ops >>= λ xs. ok (cons v xs)) ≡ ok ops'
    → AreNamed ops'
other-AreNamed v ops ops' plain rest h =
    let (xs, first, last) = >>=-eq-ok (normalize_ops ops) (λ xs. ok (cons v xs)) h in
    let same : cons v xs ≡ ops' = cc in subst AreNamed same (plain xs (rest xs first))

normalize_ops-AreNamed : (ops ops' : Items) → normalize_ops ops ≡ ok ops' → AreNamed ops'
unfolding normalize_ops normalize_op
normalize_ops-AreNamed nil ops' h = let same : nil ≡ ops' = cc in subst AreNamed same tt
normalize_ops-AreNamed (cons (obj op) ops) ops' h =
    let (op', first, rest) =
      >>=-eq-ok (normalize_op op)
        (λ op''. normalize_ops ops >>= λ ops''. ok (cons (obj op'') ops'')) h in
    let (last, later, done) =
      >>=-eq-ok (normalize_ops ops) (λ ops''. ok (cons (obj op') ops'')) rest in
    let same : cons (obj op') last ≡ ops' = cc in
    subst AreNamed same (
      rename_op-IsNamed (named_op op) (get "op" (named_op op)) op' refl first,
      normalize_ops-AreNamed ops last later,
    )
normalize_ops-AreNamed (cons null ops) ops' h =
    other-AreNamed null ops ops' (λ xs n. n) (normalize_ops-AreNamed ops) h
normalize_ops-AreNamed (cons (bool b) ops) ops' h =
    other-AreNamed (bool b) ops ops' (λ xs n. n) (normalize_ops-AreNamed ops) h
normalize_ops-AreNamed (cons (num z s) ops) ops' h =
    other-AreNamed (num z s) ops ops' (λ xs n. n) (normalize_ops-AreNamed ops) h
normalize_ops-AreNamed (cons (str s) ops) ops' h =
    other-AreNamed (str s) ops ops' (λ xs n. n) (normalize_ops-AreNamed ops) h
normalize_ops-AreNamed (cons (arr xs) ops) ops' h =
    other-AreNamed (arr xs) ops ops' (λ xs n. n) (normalize_ops-AreNamed ops) h

-- What mending the operations leaves of a patch.
abbrev pub AreMended : Fields → Fields → Type 0
AreMended spec spec' =
    AreKnown spec'
    × HasNamedOps (get "operations" spec')
    × (get "patch_id" spec' ≡ get "patch_id" spec)

unmended :
    (spec spec' : Fields) (ops : Option Value)
    → get "operations" spec ≡ ops
    → HasNamedOps ops
    → AreKnown spec
    → spec ≡ spec'
    → AreMended spec spec'
unmended spec spec' ops h named k same =
    subst (AreMended spec) same (k, subst HasNamedOps (sym h) named, refl)

pub mend_operations-AreMended :
    (spec spec' : Fields) (ops : Option Value)
    → get "operations" spec ≡ ops
    → mend_operations spec ops ≡ ok spec'
    → AreKnown spec
    → AreMended spec spec'
unfolding mend_operations string_eq
mend_operations-AreMended spec spec' (some (arr ops)) h m k =
    let (ops', first, last) =
      >>=-eq-ok (normalize_ops ops) (λ xs. ok (put "operations" (arr xs) spec)) m in
    let same : put "operations" (arr ops') spec ≡ spec' = cc in
    subst (AreMended spec) same (
      put-AreKnown "operations" (arr ops') spec refl k,
      subst HasNamedOps (sym (get-put_same "operations" (arr ops') spec))
          (normalize_ops-AreNamed ops ops' first),
      get-put "patch_id" "operations" (arr ops') spec,
    )
mend_operations-AreMended spec spec' none h m k = unmended spec spec' none h tt k cc
mend_operations-AreMended spec spec' (some null) h m k = unmended spec spec' (some null) h tt k cc
mend_operations-AreMended spec spec' (some (bool true)) h m k = cc
mend_operations-AreMended spec spec' (some (bool false)) h m k =
    unmended spec spec' (some (bool false)) h tt k cc
mend_operations-AreMended spec spec' (some (num true s)) h m k =
    unmended spec spec' (some (num true s)) h tt k cc
mend_operations-AreMended spec spec' (some (num false s)) h m k = cc
mend_operations-AreMended spec spec' (some (str s)) h m k =
    unmended spec spec' (some (str s)) h tt k cc
mend_operations-AreMended spec spec' (some (obj fs)) h m k =
    unmended spec spec' (some (obj fs)) h tt k cc

get-pop : (j k : String) (fs : Fields) → (j == k) ≡ false → get j (pop k fs) ≡ get j fs
unfolding get pop
get-pop j k end h = refl
get-pop j k (field i v fs) h = ground (arith, get-pop j k fs h)

pub get-drop_all :
    (j : String) (keys : List String) (fs : Fields)
    → contains keys j ≡ false
    → get j (drop_all keys fs) ≡ get j fs
unfolding drop_all
get-drop_all j [] fs h = refl
get-drop_all j (k ∷ ks) fs h = ground (arith, get-drop_all j ks (pop k fs), get-pop j k fs)

pub get-bucket :
    (j : String) (fs misc : Fields)
    → contains patchspec_fields j ≡ true
    → get j (bucket fs misc).0 ≡ get j fs
unfolding bucket get
get-bucket j end misc h = refl
get-bucket j (field k v fs) misc h = elim (string_eq.dec j k) [
  | yes e ↦
      let h' = subst (λ x. contains patchspec_fields x ≡ true) e h in rw e (ground (arith, h'))
  | no n ↦ ground (arith, get-bucket j fs misc h, get-bucket j fs (put k v misc) h)
]

pub with_misc-Kept :
    (both : Fields × Fields)
    → AreKnown both.0
    → AreKnown (with_misc both) × (get "patch_id" (with_misc both) ≡ get "patch_id" both.0)
unfolding string_eq
with_misc-Kept (known, end) k = (k, refl)
with_misc-Kept (known, field i v fs) k = (
  put-AreKnown "misc" (obj (field i v fs)) known refl k,
  get-put "patch_id" "misc" (obj (field i v fs)) known,
)
