-- ===== src/Base/Lists.antt =====
-- Lists by native numbers and Boolean tests, under the library's names.
use Prim.Native.Nat.{ℕ, zero, suc, ◌+◌}
use mathlib.Core.Path.{◌≡◌, refl}
use mathlib.Core.Logic.{◌⊎◌, inl, inr}
use mathlib.Core.Bool.{Bool, true, false, ◌&&◌, ◌||◌, cond}
use mathlib.Core.List.{List, [], ◌∷◌, ◌++◌, map}
use native.Mathlib.Omega.{arith}
use aqueduct_test.Base.Tests.{Bool-cases}

module _ {ℓ} {A : Type ℓ} where
  abbrev pub length : List A → ℕ
  length [] = 0
  length (x ∷ xs) = suc (length xs)

  abbrev pub drop : ℕ → List A → List A
  drop zero xs = xs
  drop (suc n) [] = []
  drop (suc n) (x ∷ xs) = drop n xs

  abbrev pub filter : (A → Bool) → List A → List A
  filter p [] = []
  filter p (x ∷ xs) = let rest = filter p xs in cond (p x) (x ∷ rest) rest

  abbrev pub any : (A → Bool) → List A → Bool
  any p [] = false
  any p (x ∷ xs) = p x || any p xs

  abbrev pub all : (A → Bool) → List A → Bool
  all p [] = true
  all p (x ∷ xs) = p x && all p xs

  -- A predicate by recursion computes to tuples, which the tactics read and build.
  abbrev pub All {κ} : (A → Type κ) → List A → Type κ
  All P [] = Unit
  All P (x ∷ xs) = P x × All P xs

  pub List-cases : (xs : List A) → (xs ≡ []) ⊎ ((x : A) × (rest : List A) × (xs ≡ x ∷ rest))
  List-cases [] = inl refl
  List-cases (x ∷ xs) = inr (x, xs, refl)

  pub length-append : (xs ys : List A) → length (xs ++ ys) ≡ length xs + length ys
  length-append [] ys = omega arith
  length-append (x ∷ xs) ys = omega (arith, length-append xs ys)

  pub All-append {κ} :
      (Q : A → Type κ) (front back : List A) → All Q front → All Q back → All Q (front ++ back)
  All-append Q [] back first last = last
  All-append Q (x ∷ front) back first last = (first.0, All-append Q front back first.1 last)

  pub All-of_append {κ} :
      (Q : A → Type κ) (front back : List A) → All Q (front ++ back) → All Q front × All Q back
  All-of_append Q [] back h = (tt, h)
  All-of_append Q (x ∷ front) back h =
      let (first, last) = All-of_append Q front back h.1 in ((h.0, first), last)

  pub any-append : (p : A → Bool) (xs ys : List A) → any p (xs ++ ys) ≡ (any p xs || any p ys)
  any-append p [] ys = refl
  any-append p (x ∷ xs) ys = ground (arith, any-append p xs ys)

  pub All-filter {κ} :
      (P : A → Type κ) (p : A → Bool) (xs : List A)
      → ((x : A) → p x ≡ true → P x)
      → All P (filter p xs)
  All-filter P p [] h = tt
  All-filter P p (x ∷ xs) h = ground (arith, h x, All-filter P p xs h)

pub data Member {ℓ} {A : Type ℓ} : A → List A → Type ℓ where
  here : (x : A) (xs : List A) → Member x (x ∷ xs)
  there : (x y : A) (xs : List A) → Member x xs → Member x (y ∷ xs)

pub All-of_Member {ℓ κ} :
    {A : Type ℓ} (Q : A → Type κ) (x : A) (xs : List A) → All Q xs → Member x xs → Q x
All-of_Member Q x _ h (here _ xs) = h.0
All-of_Member Q x _ h (there _ y xs m) = All-of_Member Q x xs h.1 m

pub Member-filter {ℓ} :
    {A : Type ℓ} (p : A → Bool) (x : A) (xs : List A)
    → Member x xs
    → p x ≡ true
    → Member x (filter p xs)
Member-filter p x _ (here _ xs) h = simp h (here x (filter p xs))
Member-filter p x _ (there _ y xs m) h = elim (Bool-cases (p y)) [
  | inl kept ↦ simp kept (there x y (filter p xs) (Member-filter p x xs m h))
  | inr left ↦ simp left (Member-filter p x xs m h)
]

pub Member-map {ℓ κ} :
    {A : Type ℓ} {B : Type κ} (f : A → B) (x : A) (xs : List A)
    → Member x xs
    → Member (f x) (map f xs)
Member-map f x _ (here _ xs) = here (f x) (map f xs)
Member-map f x _ (there _ y xs m) = there (f x) (f y) (map f xs) (Member-map f x xs m)
