-- ===== src/Executor/Components/Grouped.antt =====
-- Grouping nodes by a map to their roots: a group for each root, with the nodes that have it.
use aqueduct_test.Base.{
  ◌≡◌, refl, ap, ◌∙◌, subst, inl, inr, ◌+◌, Bool-cases, String, string_eq, ◌==◌, List, [], ◌∷◌,
  ◌++◌, count, count-append, All, Member, here, there, Member-of_cons, Member-of_append,
  Member-of_one, Member-append_left, Member-append_right, arith,
}
use aqueduct_test.Executor.Run.Store.{put_at, get_at, get_at-put_at}
use aqueduct_test.Executor.Components.{RootSets, or_nil, add_member, values}

-- The grouping by the roots that the map gives.
unfoldable pub group_by : (String → String) → RootSets → List String → RootSets
group_by rep groups [] = groups
group_by rep groups (mid ∷ ids) = group_by rep (add_member (rep mid) mid groups) ids

module _ (rep : String → String) where
  -- Each group has nodes of the root that is its key.
  abbrev pub AreKeyed : RootSets → Type 0
  AreKeyed groups =
      All (λ (g : String × List String). (y : String) → Member y g.1 → rep y ≡ g.0) groups

  keyed_group :
      (groups : RootSets) (k y : String)
      → AreKeyed groups
      → Member y (or_nil (get_at k groups))
      → rep y ≡ k
  unfolding get_at
  keyed_group [] k y keyed m = elim m [ ]
  keyed_group ((j, ids) ∷ groups) k y keyed m = elim (Bool-cases (k == j)) [
    | inl same ↦ keyed.0 y (rw same at m) ∙ ground (arith, same)
    | inr other ↦ keyed_group groups k y keyed.1 (rw other at m)
  ]

  put_keyed :
      (groups : RootSets) (k : String) (ids : List String)
      → AreKeyed groups
      → ((y : String) → Member y ids → rep y ≡ k)
      → AreKeyed (put_at k ids groups)
  unfolding put_at
  put_keyed [] k ids keyed new = (new, tt)
  put_keyed ((j, old) ∷ groups) k ids keyed new = elim (Bool-cases (k == j)) [
    | inl same ↦ rw same ((λ y m. new y m ∙ ground (arith, same)), keyed.1)
    | inr other ↦ rw other (keyed.0, put_keyed groups k ids keyed.1 new)
  ]

  add_member_keyed :
      (groups : RootSets) (mid : String)
      → AreKeyed groups
      → AreKeyed (add_member (rep mid) mid groups)
  unfolding add_member
  add_member_keyed groups mid keyed = put_keyed groups (rep mid) _ keyed (λ y m.
      elim (Member-of_append y (or_nil (get_at (rep mid) groups)) (mid ∷ []) m) [
        | inl before ↦ keyed_group groups (rep mid) y keyed before
        | inr new ↦ ap rep (Member-of_one y mid new)
      ])

  stays :
      (groups : RootSets) (root mid k x : String)
      → Member x (or_nil (get_at k groups))
      → Member x (or_nil (get_at k (add_member root mid groups)))
  unfolding add_member
  stays groups root mid k x m = elim (Bool-cases (k == root)) [
    | inr other ↦
        rw (get_at-put_at k root (or_nil (get_at root groups) ++ (mid ∷ [])) groups, other) m
    | inl same ↦
        let p : k ≡ root = ground (arith, same) in
        rw (get_at-put_at k root (or_nil (get_at root groups) ++ (mid ∷ [])) groups, same)
          (Member-append_left x _ (mid ∷ []) (rw p at m))
  ]

  joins :
      (groups : RootSets) (root mid : String)
      → Member mid (or_nil (get_at root (add_member root mid groups)))
  unfolding add_member
  joins groups root mid = elim (Bool-cases (root == root)) [
    | inr other ↦ absurd (ground (arith, other))
    | inl same ↦
        rw (get_at-put_at root root (or_nil (get_at root groups) ++ (mid ∷ [])) groups, same)
          (Member-append_right mid (or_nil (get_at root groups)) (mid ∷ []) (here mid []))
  ]

  group_by_stays :
      (ids : List String) (groups : RootSets) (k x : String)
      → Member x (or_nil (get_at k groups))
      → Member x (or_nil (get_at k (group_by rep groups ids)))
  unfolding group_by
  group_by_stays [] groups k x m = m
  group_by_stays (mid ∷ ids) groups k x m =
      group_by_stays ids (add_member (rep mid) mid groups) k x (stays groups (rep mid) mid k x m)

  pub group_by_joins :
      (ids : List String) (groups : RootSets) (x : String)
      → Member x ids
      → Member x (or_nil (get_at (rep x) (group_by rep groups ids)))
  unfolding group_by
  group_by_joins _ groups x (here _ ids) =
      group_by_stays ids (add_member (rep x) x groups) (rep x) x (joins groups (rep x) x)
  group_by_joins _ groups x (there _ mid ids m) =
      group_by_joins ids (add_member (rep mid) mid groups) x m

  pub group_by_keyed :
      (ids : List String) (groups : RootSets) → AreKeyed groups → AreKeyed (group_by rep groups ids)
  unfolding group_by
  group_by_keyed [] groups keyed = keyed
  group_by_keyed (mid ∷ ids) groups keyed =
      group_by_keyed ids (add_member (rep mid) mid groups) (add_member_keyed groups mid keyed)

-- How often a node stands in the groups.
abbrev pub all_of : List (List String) → List String
all_of [] = []
all_of (ids ∷ rest) = ids ++ all_of rest

count-put :
    (groups : RootSets) (k : String) (new : List String) (v : String)
    → count (all_of (values (put_at k new groups))) v + count (or_nil (get_at k groups)) v
      ≡ count (all_of (values groups)) v + count new v
unfolding put_at get_at
count-put [] k new v = omega (arith, count-append new [] v)
count-put ((j, ids) ∷ groups) k new v = elim (Bool-cases (k == j)) [
  | inl same ↦ rw same (
      omega (
        arith,
        count-append new (all_of (values groups)) v,
        count-append ids (all_of (values groups)) v,
      ))
  | inr other ↦ rw other (
      omega (
        arith,
        count-put groups k new v,
        count-append ids (all_of (values groups)) v,
        count-append ids (all_of (values (put_at k new groups))) v,
      ))
]

count-add_member :
    (groups : RootSets) (root mid v : String)
    → count (all_of (values (add_member root mid groups))) v
      ≡ count (all_of (values groups)) v + count (mid ∷ []) v
unfolding add_member
count-add_member groups root mid v = omega (
  arith,
  count-put groups root (or_nil (get_at root groups) ++ (mid ∷ [])) v,
  count-append (or_nil (get_at root groups)) (mid ∷ []) v,
)

pub count-group_by :
    (rep : String → String) (ids : List String) (groups : RootSets) (v : String)
    → count (all_of (values (group_by rep groups ids))) v
      ≡ count (all_of (values groups)) v + count ids v
unfolding group_by
count-group_by rep [] groups v = omega arith
count-group_by rep (mid ∷ ids) groups v = omega (
  arith,
  count-group_by rep ids (add_member (rep mid) mid groups) v,
  count-add_member groups (rep mid) mid v,
)

pub value_of_get :
    (groups : RootSets) (k x : String)
    → Member x (or_nil (get_at k groups))
    → (ids : List String) × Member ids (values groups) × (or_nil (get_at k groups) ≡ ids)
unfolding get_at
value_of_get [] k x m = elim m [ ]
value_of_get ((j, ids) ∷ groups) k x m = elim (Bool-cases (k == j)) [
  | inl same ↦ rw same (ids, here ids (values groups), refl)
  | inr other ↦
      let (found, i, e) = value_of_get groups k x (rw other at m) in
      rw other (found, there found ids (values groups) i, e)
]

pub keyed_value :
    (rep : String → String) (groups : RootSets) (ids : List String)
    → AreKeyed rep groups
    → Member ids (values groups)
    → (k : String) × ((y : String) → Member y ids → rep y ≡ k)
keyed_value rep [] ids keyed i = elim i [ ]
keyed_value rep ((k, first) ∷ groups) ids keyed i =
    elim (Member-of_cons ids first (values groups) i) [
      | inl same ↦ (k, λ y m. keyed.0 y (subst (Member y) same m))
      | inr later ↦ keyed_value rep groups ids keyed.1 later
    ]
