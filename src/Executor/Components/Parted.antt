-- ===== src/Executor/Components/Parted.antt =====
-- The components are the classes of the connected modules.
use aqueduct_test.Base.{
  ◌≡◌, refl, sym, ap, ◌∙◌, subst, ◌↔◌, inl, inr, ℕ, suc, ◌+◌, ◌<◌, String, string_eq, Option, some,
  List, [], ◌∷◌, length, count, Member, here, there, Member-of_cons, arith,
}
use aqueduct_test.Parser.Models.{Module, Edge}
use aqueduct_test.Executor.Run.Store.{get_at}
use aqueduct_test.Executor.Components.{
  Forest, singletons, Link, union_all, links_of, RootSets, or_nil, add_member, group_all, values,
  as_sets, find_connected_components,
}
use aqueduct_test.Executor.Components.Grouped.{
  group_by, group_by_joins, group_by_keyed, all_of, count-group_by, value_of_get, keyed_value,
}
use aqueduct_test.Executor.Components.Forests.{
  Connected, same_node, along, back, through, Stands, find_root_lem,
}
use aqueduct_test.Executor.Components.Unions.{Coarser, singletons-Stands, union-Unites}

module _ (links : List Link) where
  record UnitesAll (bound : ℕ) (rep : String → String) (todo : List Link) (result : Option Forest)
      : Type 0 where
    pub forest : Forest
    pub returned : result ≡ some forest
    pub rep' : String → String
    pub stands : Stands links (bound + length todo) rep' forest
    pub coarser : Coarser rep rep'
    pub joined : (x y : String) → Member (x, y) todo → rep' x ≡ rep' y

  union_all-UnitesAll :
      (todo : List Link) (fuel bound : ℕ) (rep : String → String) (f : Forest)
      → ((x y : String) → Member (x, y) todo → Connected links x y)
      → Stands links bound rep f
      → bound + length todo < fuel
      → UnitesAll bound rep todo (union_all fuel f todo)
  unfolding union_all
  union_all-UnitesAll [] fuel bound rep f linked s enough = record {
    forest = f;
    returned = refl;
    rep' = rep;
    stands = subst (λ b. Stands links b rep f) (omega arith) s;
    coarser = λ x y e. e;
    joined = λ x y m. elim m [ ];
  }
  union_all-UnitesAll ((a, b) ∷ todo) fuel bound rep f linked s enough =
      let u =
        union-Unites links fuel bound rep f a b s (linked a b (here (a, b) todo)) (omega arith) in
      let r =
        union_all-UnitesAll todo fuel (suc bound) u.rep' u.forest
          (λ x y m. linked x y (there (x, y) (a, b) todo m)) u.stands (omega arith) in
      record {
        forest = r.forest;
        returned = rw u.returned r.returned;
        rep' = r.rep';
        stands = subst (λ k. Stands links k r.rep' r.forest) (omega arith) r.stands;
        coarser = λ x y e. r.coarser x y (u.coarser x y e);
        joined = λ x y m. elim (Member-of_cons (x, y) (a, b) todo m) [
          | inl same ↦
              ap (λ (p : Link). r.rep' p.0) same
              ∙ (r.coarser a b u.joined ∙ sym (ap (λ (p : Link). r.rep' p.1) same))
          | inr later ↦ r.joined x y later
        ];
      }

  -- Connected nodes have one root, and nodes with one root are connected.
  one_root :
      (rep : String → String) (x y : String)
      → ((a b : String) → Member (a, b) links → rep a ≡ rep b)
      → Connected links x y
      → rep x ≡ rep y
  one_root rep x y joined (same_node _) = refl
  one_root rep x y joined (along _ _ m) = joined x y m
  one_root rep x y joined (back _ _ c) = sym (one_root rep y x joined c)
  one_root rep x y joined (through _ z _ c d) =
      one_root rep x z joined c ∙ one_root rep z y joined d

  connected :
      (bound : ℕ) (rep : String → String) (f : Forest) (x y : String)
      → Stands links bound rep f
      → rep x ≡ rep y
      → Connected links x y
  connected bound rep f x y s e =
      through x (rep x) y (s.sound x)
        (subst (λ r. Connected links r y) (sym e) (back y (rep y) (s.sound y)))

  group_all-eq :
      (fuel bound : ℕ) (rep : String → String) (ids : List String) (f : Forest) (groups : RootSets)
      → Stands links bound rep f
      → bound < fuel
      → group_all fuel f groups ids ≡ some (group_by rep groups ids)
  unfolding group_all group_by
  group_all-eq fuel bound rep [] f groups s enough = refl
  group_all-eq fuel bound rep (mid ∷ ids) f groups s enough =
      let (f', found, s') = find_root_lem links bound rep fuel f mid s (omega arith) in
      rw found (group_all-eq fuel bound rep ids f' (add_member (rep mid) mid groups) s' enough)

-- The two stand in one component.
abbrev pub AreTogether : List (List String) → String → String → Type 0
AreTogether components x y =
    (ids : List String) × Member ids components × Member x ids × Member y ids

-- Every module stands in the components as often as among the ids, and two modules stand in one
-- component exactly when they are connected.
pub record IsPartition (ids : List String) (links : List Link) (components : List (List String))
    : Type 0 where
  pub counts_kept : (x : String) → count (all_of components) x ≡ count ids x
  pub classes :
      (x y : String)
      → Member x ids
      → Member y ids
      → AreTogether components x y ↔ Connected links x y

module _ (ids : List String) (links : List Link)
    (u : UnitesAll links 0 (λ x. x) links (union_all (suc (length links)) singletons links)) where
  groups_of : RootSets
  groups_of = group_by u.rep' [] ids

  together :
      (x y : String)
      → Member x ids
      → Member y ids
      → Connected links x y
      → AreTogether (values groups_of) x y
  unfolding groups_of
  together x y mx my c =
      let in_x = group_by_joins u.rep' ids [] x mx in
      let in_y = group_by_joins u.rep' ids [] y my in
      let e = one_root links u.rep' x y u.joined c in
      let (found, i, same) = value_of_get groups_of (u.rep' x) x in_x in
      (
        found,
        i,
        subst (Member x) same in_x,
        subst (Member y) (ap (λ k. or_nil (get_at k groups_of)) (sym e) ∙ same) in_y,
      )

  apart : (x y : String) → AreTogether (values groups_of) x y → Connected links x y
  unfolding groups_of
  apart x y (found, i, mx, my) =
      let (k, all_k) = keyed_value u.rep' groups_of found (group_by_keyed u.rep' ids [] tt) i in
      connected links _ u.rep' u.forest x y u.stands (all_k x mx ∙ sym (all_k y my))

  groups-IsPartition : IsPartition ids links (values groups_of)
  unfolding groups_of
  groups-IsPartition = record {
    counts_kept = λ x. omega (arith, count-group_by u.rep' ids [] x);
    classes = λ x y mx my. (apart x y, together x y mx my);
  }

-- The union-find ends with a partition of the modules: every module stands in the components as
-- often as among the ids, and two modules stand in one component exactly when a chain of data edges
-- between modules, and of probes and what they tap, connects them.
pub find_connected_components_lem :
    (ids : List String) (edges : List Edge) (modules : List Module)
    → (components : List (List String)) × (find_connected_components ids edges modules
        ≡ some components)
      × IsPartition ids (links_of ids edges modules) components
unfolding find_connected_components groups_of
find_connected_components_lem ids edges modules =
    let links = links_of ids edges modules in
    let u =
      union_all-UnitesAll links links (suc (length links)) 0 (λ x. x) singletons
        (λ x y m. along x y m) (singletons-Stands links) (omega arith) in
    let all_grouped =
      group_all-eq links (suc (length links)) (length links) u.rep' ids u.forest []
        (subst (λ b. Stands links b u.rep' u.forest) (omega arith) u.stands) (omega arith) in
    (
      values (group_by u.rep' [] ids),
      rw u.returned (ap as_sets all_grouped),
      groups-IsPartition ids links u,
    )
