-- ===== src/Executor/Components/Forests.antt =====
-- A forest stands for a map from nodes to their roots; finding a root keeps it.
use aqueduct_test.Base.{
  ◌≡◌, ◌≢◌, ap, ◌∙◌, ℕ, zero, suc, ◌+◌, ◌≤◌, ◌<◌, Bool-cases, String, string_eq, eq-false-ne, ◌==◌,
  inl, inr, some, List, Member, arith,
}
use aqueduct_test.Executor.Components.{Forest, set_at, find_root, Link}

-- What links join, in any number of steps.
pub data Connected (links : List Link) : String → String → Type 0 where
  same_node : (x : String) → Connected links x x
  along : (x y : String) → Member (x, y) links → Connected links x y
  back : (x y : String) → Connected links x y → Connected links y x
  through : (x y z : String) → Connected links x y → Connected links y z → Connected links x z

pub record Stands (links : List Link) (bound : ℕ) (rep : String → String) (f : Forest)
    : Type 0 where
  pub is_root : (x : String) → f.parent (rep x) ≡ rep x
  pub follows : (x : String) → rep (f.parent x) ≡ rep x
  pub at_root : (x : String) → f.parent x ≡ x → rep x ≡ x
  pub ranked : (x : String) → f.parent x ≢ x → f.rank x < f.rank (f.parent x)
  pub bounded : (x : String) → f.rank x ≤ bound
  pub sound : (x : String) → Connected links x (rep x)

module _ (links : List Link) (bound : ℕ) (rep : String → String) where
  -- Path halving: a node that is no root is led to its grandparent.
  rank_grand :
      (f : Forest) (x : String)
      → Stands links bound rep f
      → f.parent x ≢ x
      → f.rank x < f.rank (f.parent (f.parent x))
  rank_grand f x s inner = elim (Bool-cases (f.parent (f.parent x) == f.parent x)) [
    | inl top ↦ ground (arith, s.ranked x inner)
    | inr below ↦ ground (arith, s.ranked x inner, s.ranked (f.parent x))
  ]

  halve : (f : Forest) → String → Forest
  halve f x = record f { parent = set_at x (f.parent (f.parent x)) f.parent }

  halve-Stands :
      (f : Forest) (x : String)
      → Stands links bound rep f
      → f.parent x ≢ x
      → Stands links bound rep (halve f x)
  unfolding halve
  halve-Stands f x s inner = record {
    is_root = λ z. ground (arith, s.is_root z, inner);
    follows = λ z. ground (arith, s.follows z, s.follows x, s.follows (f.parent x));
    at_root = λ z h. ground (arith, s.at_root z, rank_grand f x s inner);
    ranked = λ z h. ground (arith, s.ranked z, rank_grand f x s inner);
    bounded = s.bounded;
    sound = s.sound;
  }

  pub find_root_lem :
      (fuel : ℕ) (f : Forest) (x : String)
      → Stands links bound rep f
      → bound < f.rank x + fuel
      → (f' : Forest) × (find_root fuel f x ≡ some (f', rep x)) × Stands links bound rep f'
  unfolding find_root halve
  find_root_lem zero f x s h = absurd (omega (arith, s.bounded x))
  find_root_lem (suc fuel) f x s h = elim (Bool-cases (f.parent x == x)) [
    | inl top ↦ (f, ground (arith, s.at_root x), s)
    | inr inner ↦
        let ne = eq-false-ne inner in
        let grand = f.parent (f.parent x) in
        let (f', found, s') =
          find_root_lem fuel (halve f x) grand (halve-Stands f x s ne)
            (omega (arith, rank_grand f x s ne)) in
        (f', rw inner (found ∙ ap (λ r. some (f', r)) (s.follows (f.parent x) ∙ s.follows x)), s')
  ]
