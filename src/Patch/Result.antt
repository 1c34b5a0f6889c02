-- ===== src/Patch/Result.antt =====
-- What an operation of a patch ends in.
use aqueduct_test.Base.{◌≡◌, refl, Bool, true, false}

-- The reasons of a `PatchOperationError`.
pub data OpError : Type 0 where
  module_not_found edge_not_found bad_key_path edge_spec_incomplete id_required id_exists : OpError
  no_context wrong_type attach_to_required ref_required nothing_to_replace : OpError

-- `crash` is any other exception, such as a `get` of something that is no dict.
pub data Result {ℓ} (A : Type ℓ) : Type ℓ where
  ok : A → Result A
  op_error : OpError → Result A
  crash : Result A

infixl 5 ◌>>=◌
abbrev pub ◌>>=◌ {ℓ κ} : {X : Type ℓ} {Y : Type κ} → Result X → (X → Result Y) → Result Y
crash >>= next = crash
op_error e >>= next = op_error e
ok x >>= next = next x

infixl 5 ◌>>◌
abbrev pub ◌>>◌ {κ} : {Y : Type κ} → Result (Unit {0}) → Result Y → Result Y
test >> rest = test >>= λ passed. rest

-- `if bad: raise PatchOperationError`
abbrev pub reject_if : Bool → OpError → Result (Unit {0})
reject_if true e = op_error e
reject_if false e = ok tt

-- Inversion of a bind that succeeds.
pub >>=-eq-ok {ℓ κ} :
    {X : Type ℓ} {Y : Type κ} {y : Y} (first : Result X) (next : X → Result Y)
    → (first >>= next) ≡ ok y
    → (x : X) × (first ≡ ok x) × (next x ≡ ok y)
>>=-eq-ok crash next h = cc
>>=-eq-ok (op_error e) next h = cc
>>=-eq-ok (ok x) next h = (x, refl, h)

pub reject_if-eq-ok : (b : Bool) (e : OpError) {u : Unit {0}} → reject_if b e ≡ ok u → b ≡ false
reject_if-eq-ok true e h = cc
reject_if-eq-ok false e h = refl

pub ok_injective {ℓ} : {A : Type ℓ} {a b : A} → ok a ≡ ok b → a ≡ b
ok_injective h = cc
