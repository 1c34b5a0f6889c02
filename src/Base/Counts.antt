-- ===== src/Base/Counts.antt =====
-- How often an item stands in a list: membership, duplicates and the pigeonhole by counting.
use Prim.Native.Nat.{ℕ, ◌+◌, ◌≤◌, ◌<◌}
use mathlib.Core.Path.{◌≡◌, refl}
use mathlib.Core.Bool.{Bool, true, false, not, ◌&&◌}
use mathlib.Core.List.{List, [], ◌∷◌, ◌++◌}
use native.Mathlib.Omega.{arith}
use aqueduct_test.Base.Equality.{Eq, ◌==◌, if◌then◌else◌, contains}
use aqueduct_test.Base.Lists.{length, filter, Member, here, there}

module _ {ℓ} {A : Type ℓ} ⦃e : Eq A⦄ where
  abbrev pub count : List A → A → ℕ
  count [] a = 0
  count (x ∷ xs) a = (if a == x then 1 else 0) + count xs a

  -- The first occurrence goes.
  abbrev remove : A → List A → List A
  remove a [] = []
  remove a (x ∷ xs) = let rest = remove a xs in if a == x then xs else x ∷ rest

  -- The place of the first occurrence, and the length without one.
  abbrev pub index_of : List A → A → ℕ
  index_of [] a = 0
  index_of (x ∷ xs) a = let rest = index_of xs a in if a == x then 0 else rest + 1

  pub count-append : (xs ys : List A) (a : A) → count (xs ++ ys) a ≡ count xs a + count ys a
  count-append [] ys a = omega arith
  count-append (x ∷ xs) ys a = omega (arith, count-append xs ys a)

  count-remove :
      (a b : A) (xs : List A)
      → 1 ≤ count xs a
      → count (remove a xs) b + (if b == a then 1 else 0) ≡ count xs b
  count-remove a b [] h = absurd (omega arith)
  count-remove a b (x ∷ xs) h = ground (arith, count-remove a b xs)

  length-remove : (a : A) (xs : List A) → 1 ≤ count xs a → length (remove a xs) + 1 ≡ length xs
  length-remove a [] h = absurd (omega arith)
  length-remove a (x ∷ xs) h = ground (arith, length-remove a xs)

  pub count_self : (x : A) (xs : List A) → 1 ≤ count (x ∷ xs) x
  count_self x xs = ground arith

  count_rest :
      (x : A) (xs ys : List A)
      → ((a : A) → count (x ∷ xs) a ≤ count ys a)
      → (a : A) → count xs a ≤ count (remove x ys) a
  count_rest x xs ys h a = ground (arith, h a, h x, count-remove x a ys, count_self x xs)

  -- The pigeonhole: a list in another, occurrence for occurrence, is no longer.
  pub length-le_of_count :
      (xs ys : List A) → ((a : A) → count xs a ≤ count ys a) → length xs ≤ length ys
  length-le_of_count [] ys h = omega arith
  length-le_of_count (x ∷ xs) ys h = omega (
    arith,
    length-le_of_count xs (remove x ys) (count_rest x xs ys h),
    length-remove x ys,
    h x,
    count_self x xs,
  )

  -- And if it is as long, it lacks nothing.
  pub count-le_of_length :
      (xs ys : List A)
      → ((a : A) → count xs a ≤ count ys a)
      → length ys ≤ length xs
      → (a : A) → count ys a ≤ count xs a
  count-le_of_length [] [] h l a = omega arith
  count-le_of_length [] (y ∷ ys) h l a = absurd (omega arith)
  count-le_of_length (x ∷ xs) ys h l a =
      let there_x : 1 ≤ count ys x = omega (arith, h x, count_self x xs) in
      let rest =
        count-le_of_length xs (remove x ys) (count_rest x xs ys h)
          (omega (arith, length-remove x ys there_x)) a in
      omega (arith, rest, count-remove x a ys there_x)

  pub count-of_Member : (a : A) (xs : List A) → Member a xs → 1 ≤ count xs a
  count-of_Member a _ (here _ xs) = count_self a xs
  count-of_Member a _ (there _ y xs m) = omega (arith, count-of_Member a xs m)

  pub Member-of_count : (a : A) (xs : List A) → 1 ≤ count xs a → Member a xs
  Member-of_count a [] h = absurd (omega arith)
  Member-of_count a (x ∷ xs) h = elim (e.dec a x) [
    | yes p ↦ rw p (here x xs)
    | no n ↦ there a x xs (Member-of_count a xs (ground arith))
  ]

  pub index_of-lt : (xs : List A) (a : A) → 1 ≤ count xs a → index_of xs a < length xs
  index_of-lt [] a h = absurd (omega arith)
  index_of-lt (x ∷ xs) a h = ground (arith, index_of-lt xs a)

  pub index_of_absent : (xs : List A) (a : A) → count xs a ≡ 0 → index_of xs a ≡ length xs
  index_of_absent [] a h = refl
  index_of_absent (x ∷ xs) a h = ground (arith, index_of_absent xs a)

  pub index_of-append :
      (xs : List A) (n a : A) → 1 ≤ count xs a → index_of (xs ++ (n ∷ [])) a ≡ index_of xs a
  index_of-append [] n a h = absurd (omega arith)
  index_of-append (x ∷ xs) n a h = ground (arith, index_of-append xs n a)

  pub index_of_last :
      (xs : List A) (n : A) → count xs n ≡ 0 → index_of (xs ++ (n ∷ [])) n ≡ length xs
  index_of_last [] n h = ground arith
  index_of_last (x ∷ xs) n h = ground (arith, index_of_last xs n)

  pub count-filter :
      (p : A → Bool) (xs : List A) (a : A) → count (filter p xs) a ≡ (if p a then count xs a else 0)
  count-filter p [] a = ground arith
  count-filter p (x ∷ xs) a = elim (e.dec a x) [
    | yes q ↦ rw q (ground (arith, count-filter p xs x))
    | no n ↦ ground (arith, count-filter p xs a)
  ]

  pub contains→count : (xs : List A) (v : A) → contains xs v ≡ true → 1 ≤ count xs v
  contains→count [] v h = cc
  contains→count (x ∷ xs) v h = ground (arith, contains→count xs v)

  pub absent→count : (xs : List A) (v : A) → contains xs v ≡ false → count xs v ≡ 0
  absent→count [] v h = refl
  absent→count (x ∷ xs) v h = ground (arith, absent→count xs v)

  -- The place in two lists one after the other.
  pub index_of_front :
      (xs ys : List A) (a : A) → 1 ≤ count xs a → index_of (xs ++ ys) a ≡ index_of xs a
  index_of_front [] ys a h = absurd (omega arith)
  index_of_front (x ∷ xs) ys a h = ground (arith, index_of_front xs ys a)

  pub index_of_back :
      (xs ys : List A) (a : A) → count xs a ≡ 0 → index_of (xs ++ ys) a ≡ length xs + index_of ys a
  index_of_back [] ys a h = omega arith
  index_of_back (x ∷ xs) ys a h = ground (arith, index_of_back xs ys a)

  -- The test that no item comes twice.
  abbrev pub is_distinct : List A → Bool
  is_distinct [] = true
  is_distinct (x ∷ xs) = not (contains xs x) && is_distinct xs

  pub count-le_of_distinct : (xs : List A) → is_distinct xs ≡ true → (a : A) → count xs a ≤ 1
  count-le_of_distinct [] h a = omega arith
  count-le_of_distinct (x ∷ xs) h a = elim (e.dec a x) [
    | yes p ↦ rw p (ground (arith, absent→count xs x))
    | no n ↦ ground (arith, count-le_of_distinct xs (ground arith) a)
  ]

  pub contains-of_Member : (x : A) (xs : List A) → Member x xs → contains xs x ≡ true
  contains-of_Member x xs m = ground (arith, count-of_Member x xs m, absent→count xs x)
