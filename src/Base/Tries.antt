-- ===== src/Base/Tries.antt =====
-- What a function that can raise an error gives back.
use mathlib.Core.Path.{◌≡◌, refl, ap, ◌∙◌}
use mathlib.Core.Logic.{◌↔◌}
use mathlib.Core.List.{List, [], ◌∷◌}
use aqueduct_test.Base.Lists.{All}

pub data Try {ℓ κ} (E : Type ℓ) (A : Type κ) : Type (ℓ ⊔ κ) where
  returns : A → Try E A
  raises : E → Try E A

module _ {ℓ κ λ'} {E : Type ℓ} {A : Type κ} {B : Type λ'} where
  infixl 20 ◌>>=◌
  abbrev pub ◌>>=◌ : Try E A → (A → Try E B) → Try E B
  returns a >>= f = f a
  raises e >>= f = raises e

  -- Inversion of a bind that returns.
  pub >>=-eq-returns :
      (first : Try E A) (next : A → Try E B) {b : B}
      → (first >>= next) ≡ returns b
      → (a : A) × (first ≡ returns a) × (next a ≡ returns b)
  >>=-eq-returns (returns a) next h = (a, refl, h)
  >>=-eq-returns (raises e) next h = cc

-- A check of each item in turn, which stops at the first error.
module _ {ℓ κ} {E : Type ℓ} {A : Type κ} (check : A → Try E (Unit {0})) where
  abbrev pub check_each : List A → Try E (Unit {0})
  check_each [] = returns tt
  check_each (x ∷ xs) = check x >>= λ _. check_each xs

  pub check_each_iff {λ'} :
      (P : A → Type λ')
      → ((x : A) → (check x ≡ returns tt) ↔ P x)
      → (xs : List A) → (check_each xs ≡ returns tt) ↔ All P xs
  check_each_iff P each [] = (λ h. tt, λ h. refl)
  check_each_iff P each (x ∷ xs) =
      let (to, from) = check_each_iff P each xs in
      (
        λ h.
            let (passed, first, rest) = >>=-eq-returns (check x) (λ _. check_each xs) h in
            ((each x).0 first, to rest),
        λ (first, rest). ap (λ r. r >>= λ _. check_each xs) ((each x).1 first) ∙ from rest,
      )
