-- ===== src/Executor/Components/Unions.antt =====
-- The unions of all links end in a forest whose roots are those of the connected nodes.
use aqueduct_test.Base.{
  ◌≡◌, ◌≢◌, refl, ap, subst, ℕ, suc, ◌≤◌, ◌<◌, Bool-cases, ltb, String, string_eq, ◌==◌, inl, inr,
  if◌then◌else◌, Option, some, List, arith,
}
use aqueduct_test.Executor.Components.{Forest, singletons, attach, link, union, Link}
use aqueduct_test.Executor.Components.Forests.{
  Connected, same_node, back, through, Stands, find_root_lem,
}

-- The map to the roots after one root goes below another.
abbrev pub moved : (String → String) → String → String → String → String
moved rep top below z = if rep z == below then top else rep z

pub singletons-Stands : (links : List Link) → Stands links 0 (λ x. x) singletons
singletons-Stands links = record {
  is_root = λ x. refl;
  follows = λ x. refl;
  at_root = λ x h. refl;
  ranked = λ x h. absurd (h refl);
  bounded = λ x. omega arith;
  sound = λ x. same_node x;
}

module _ (links : List Link) (bound : ℕ) (rep : String → String) (f : Forest)
    (s : Stands links bound rep f) where
  moved_sound :
      (top below z : String) → Connected links below top → Connected links z (moved rep top below z)
  moved_sound top below z joined = elim (Bool-cases (rep z == below)) [
    | inr other ↦ rw other (s.sound z)
    | inl at_below ↦
        let p : rep z ≡ below = ground (arith, at_below) in
        rw at_below (through z below top (subst (Connected links z) p (s.sound z)) joined)
  ]

  attach-Stands :
      (top below : String)
      → rep top ≡ top
      → rep below ≡ below
      → top ≢ below
      → f.rank below ≤ f.rank top
      → Connected links below top
      → Stands links (suc bound) (moved rep top below) (attach f top below)
  unfolding attach
  attach-Stands top below root_top root_below differ le joined = record {
    is_root = λ z. ground (arith, s.is_root z, s.is_root top, root_top);
    follows = λ z. ground (arith, s.follows z, root_top, root_below);
    at_root = λ z h. ground (arith, s.at_root z, root_top);
    ranked = λ z h. ground (arith, s.ranked z, s.is_root top, root_top);
    bounded = λ z. ground (arith, s.bounded z, s.bounded top);
    sound = λ z. moved_sound top below z joined;
  }

-- Two maps to roots: the second joins all that the first does.
abbrev pub Coarser : (String → String) → (String → String) → Type 0
Coarser rep rep' = (x y : String) → rep x ≡ rep y → rep' x ≡ rep' y

moved-Coarser : (rep : String → String) (top below : String) → Coarser rep (moved rep top below)
moved-Coarser rep top below x y e = ap (λ r. if r == below then top else r) e

module _ (links : List Link) where
  -- A forest whose map joins the ends of a link, and is otherwise coarser than the one before.
  pub record Unites (bound : ℕ) (rep : String → String) (x y : String) (result : Option Forest)
      : Type 0 where
    pub forest : Forest
    pub returned : result ≡ some forest
    pub rep' : String → String
    pub stands : Stands links (suc bound) rep' forest
    pub coarser : Coarser rep rep'
    pub joined : rep' x ≡ rep' y

  widen :
      (bound : ℕ) (rep : String → String) (f : Forest)
      → Stands links bound rep f
      → Stands links (suc bound) rep f
  widen bound rep f s = record {
    is_root = s.is_root;
    follows = s.follows;
    at_root = s.at_root;
    ranked = s.ranked;
    bounded = λ x. omega (arith, s.bounded x);
    sound = s.sound;
  }

  module _ (bound : ℕ) (rep : String → String) (f : Forest) (s : Stands links bound rep f)
      (x y : String) (linked : Connected links x y) where
    root_of : (z : String) → rep (rep z) ≡ rep z
    root_of z = s.at_root (rep z) (s.is_root z)

    roots_linked : Connected links (rep x) (rep y)
    roots_linked =
        through (rep x) x (rep y) (back x (rep x) (s.sound x))
          (through x y (rep y) linked (s.sound y))

    attached :
        (top below : String)
        → rep top ≡ top
        → rep below ≡ below
        → top ≢ below
        → f.rank below ≤ f.rank top
        → Connected links below top
        → moved rep top below x ≡ moved rep top below y
        → Unites bound rep x y (some (attach f top below))
    attached top below root_top root_below differ le joined same = record {
      forest = attach f top below;
      returned = refl;
      rep' = moved rep top below;
      stands = attach-Stands links bound rep f s top below root_top root_below differ le joined;
      coarser = moved-Coarser rep top below;
      joined = same;
    }

    link-Unites : Unites bound rep x y (some (link f (rep x) (rep y)))
    unfolding link
    link-Unites = elim (Bool-cases (rep x == rep y)) [
      | inl same ↦ rw same (record {
        forest = f;
        returned = refl;
        rep' = rep;
        stands = widen bound rep f s;
        coarser = λ a b e. e;
        joined = ground (arith, same);
      })
      | inr differ ↦ elim (Bool-cases (ltb (f.rank (rep x)) (f.rank (rep y)))) [
        | inl less ↦
            rw (differ, less)
              (attached (rep y) (rep x) (root_of y) (root_of x) (ground (arith, differ))
                (ground (arith, less)) roots_linked (ground (arith, differ)))
        | inr more ↦
            rw (differ, more)
              (attached (rep x) (rep y) (root_of x) (root_of y) (ground (arith, differ))
                (ground (arith, more)) (back (rep x) (rep y) roots_linked) (ground (arith, differ)))
      ]
    ]

  pub union-Unites :
      (fuel bound : ℕ) (rep : String → String) (f : Forest) (x y : String)
      → Stands links bound rep f
      → Connected links x y
      → bound < fuel
      → Unites bound rep x y (union fuel f x y)
  unfolding union
  union-Unites fuel bound rep f x y s linked enough =
      let (f1, found_x, s1) = find_root_lem links bound rep fuel f x s (omega arith) in
      let (f2, found_y, s2) = find_root_lem links bound rep fuel f1 y s1 (omega arith) in
      rw (found_x, found_y) (link-Unites bound rep f2 s2 x y linked)
