-- ===== src/Base/Members.antt =====
-- Membership in lists that are made of others.
use mathlib.Core.Path.{◌≡◌, refl, sym, subst, ap, ◌∙◌}
use mathlib.Core.Logic.{◌⊎◌, inl, inr}
use mathlib.Core.Bool.{Bool, true, false}
use mathlib.Core.List.{List, [], ◌∷◌, ◌++◌, map}
use aqueduct_test.Base.Lists.{filter, Member, here, there}
use aqueduct_test.Base.Tests.{Bool-cases}

module _ {ℓ} {A : Type ℓ} where
  pub Member-append_left : (x : A) (xs ys : List A) → Member x xs → Member x (xs ++ ys)
  Member-append_left x _ ys (here _ xs) = here x (xs ++ ys)
  Member-append_left x _ ys (there _ y xs m) = there x y (xs ++ ys) (Member-append_left x xs ys m)

  pub Member-append_right : (x : A) (xs ys : List A) → Member x ys → Member x (xs ++ ys)
  Member-append_right x [] ys m = m
  Member-append_right x (y ∷ xs) ys m = there x y (xs ++ ys) (Member-append_right x xs ys m)

  pub Member-of_append : (x : A) (xs ys : List A) → Member x (xs ++ ys) → Member x xs ⊎ Member x ys
  Member-of_append x [] ys m = inr m
  Member-of_append x (y ∷ xs) ys (here _ _) = inl (here x xs)
  Member-of_append x (y ∷ xs) ys (there _ _ _ m) = elim (Member-of_append x xs ys m) [
    | inl front ↦ inl (there x y xs front)
    | inr back ↦ inr back
  ]

  pub Member-of_cons : (x y : A) (ys : List A) → Member x (y ∷ ys) → (x ≡ y) ⊎ Member x ys
  Member-of_cons x _ ys (here _ _) = inl refl
  Member-of_cons x y ys (there _ _ _ m) = inr m

  pub Member-of_one : (x y : A) → Member x (y ∷ []) → x ≡ y
  Member-of_one x y m = elim (Member-of_cons x y [] m) [
    | inl same ↦ same
    | inr nowhere ↦ elim nowhere [ ]
  ]

  filter-yes :
      (p : A → Bool) (y : A) (ys : List A) → p y ≡ true → filter p (y ∷ ys) ≡ y ∷ filter p ys
  filter-yes p y ys h = simp h

  filter-no : (p : A → Bool) (y : A) (ys : List A) → p y ≡ false → filter p (y ∷ ys) ≡ filter p ys
  filter-no p y ys h = simp h

  pub Member-of_filter :
      (p : A → Bool) (x : A) (xs : List A) → Member x (filter p xs) → Member x xs × (p x ≡ true)
  Member-of_filter p x [] m = elim m [ ]
  Member-of_filter p x (y ∷ xs) m = elim (Bool-cases (p y)) [
    | inr left ↦
        let (i, e) = Member-of_filter p x xs (subst (Member x) (filter-no p y xs left) m) in
        (there x y xs i, e)
    | inl kept ↦
        elim (Member-of_cons x y (filter p xs) (subst (Member x) (filter-yes p y xs kept) m)) [
          | inl same ↦ (subst (λ z. Member z (y ∷ xs)) (sym same) (here y xs), ap p same ∙ kept)
          | inr later ↦ let (i, e) = Member-of_filter p x xs later in (there x y xs i, e)
        ]
  ]

pub Member-of_map {ℓ κ} :
    {A : Type ℓ} {B : Type κ} (f : A → B) (y : B) (xs : List A)
    → Member y (map f xs)
    → (x : A) × Member x xs × (y ≡ f x)
Member-of_map f y [] m = elim m [ ]
Member-of_map f y (x ∷ xs) (here _ _) = (x, here x xs, refl)
Member-of_map f y (x ∷ xs) (there _ _ _ m) =
    let (z, i, e) = Member-of_map f y xs m in (z, there z x xs i, e)
