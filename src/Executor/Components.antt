-- ===== src/Executor/Components.antt =====
-- aqueduct/executor/spark/executor.py: `_find_connected_components`, the union-find that parts the
-- modules into the components of a parallel run. `parent` and `rank`, which have a key for each
-- module and are read at modules only, are functions; the set of the ids is a list in the order in
-- which Python walks it.
pub mod Forests
pub mod Unions
pub mod Grouped
pub mod Parted
mod Tests
use aqueduct_test.Base.{
  ℕ, zero, suc, ◌+◌, Bool, true, false, ◌&&◌, ltb, eqb, String, string_eq, ◌==◌, if◌then◌else◌,
  contains, Option, none, some, List, [], ◌∷◌, ◌++◌, length,
}
use aqueduct_test.Parser.Models.{Module, Edge}
use aqueduct_test.Executor.Order.{is_data_edge, is_probe}
use aqueduct_test.Executor.Selection.{given_name}
use aqueduct_test.Executor.Run.Store.{put_at, get_at}

pub record Forest : Type 0 where
  pub parent : String → String
  pub rank : String → ℕ

abbrev pub singletons : Forest
singletons = record { parent = λ x. x; rank = λ x. 0 }

-- `d[key] = value`
abbrev pub set_at {ℓ} : {A : Type ℓ} → String → A → (String → A) → String → A
set_at key value d k = if k == key then value else d k

-- `_find` with path halving; `none` means that the rounds did not suffice.
unfoldable pub find_root : ℕ → Forest → String → Option (Forest × String)
find_root zero f x = none
find_root (suc fuel) f x =
    let grand = f.parent (f.parent x) in
    let rest = find_root fuel (record f { parent = set_at x grand f.parent }) grand in
    if f.parent x == x then some (f, x) else rest

-- The root of less rank goes below the other.
unfoldable pub attach : Forest → String → String → Forest
attach f top below = record {
  parent = set_at below top f.parent;
  rank = if eqb (f.rank top) (f.rank below) then set_at top (f.rank top + 1) f.rank else f.rank;
}

unfoldable pub link : Forest → String → String → Forest
unfolding attach
link f px py =
    if px == py then f else if ltb (f.rank px) (f.rank py) then attach f py px else attach f px py

abbrev pub link_to : Option (Forest × String) → String → Option Forest
link_to none px = none
link_to (some (f, py)) px = some (link f px py)

abbrev pub then_find : ℕ → Option (Forest × String) → String → Option Forest
then_find fuel none y = none
then_find fuel (some (f, px)) y = link_to (find_root fuel f y) px

unfoldable pub union : ℕ → Forest → String → String → Option Forest
unfolding find_root link
union fuel f x y = then_find fuel (find_root fuel f x) y

abbrev pub Link : Type 0
Link = String × String

abbrev pub union_rest : (Forest → Option Forest) → Option Forest → Option Forest
union_rest go_on none = none
union_rest go_on (some f) = go_on f

unfoldable pub union_all : ℕ → Forest → List Link → Option Forest
unfolding union
union_all fuel f [] = some f
union_all fuel f ((x, y) ∷ links) = union_rest (λ g. union_all fuel g links) (union fuel f x y)

-- What is joined: the ends of the data edges, then each Probe and the module that it taps.
unfoldable pub edge_links : List String → List Edge → List Link
edge_links ids [] = []
edge_links ids (e ∷ es) =
    let rest = edge_links ids es in
    if is_data_edge e && (contains ids e.from_id && contains ids e.to_id)
    then (e.from_id, e.to_id) ∷ rest
    else rest

abbrev pub tap_link : List String → Module → Option String → List Link → List Link
tap_link ids m none rest = rest
tap_link ids m (some target) rest =
    if is_probe m && (contains ids m.id' && contains ids target)
    then (m.id', target) ∷ rest
    else rest

unfoldable pub probe_links : List String → List Module → List Link
probe_links ids [] = []
probe_links ids (m ∷ ms) = tap_link ids m (given_name m.attach_to) (probe_links ids ms)

unfoldable pub links_of : List String → List Edge → List Module → List Link
unfolding edge_links probe_links
links_of ids edges modules = edge_links ids edges ++ probe_links ids modules

abbrev pub RootSets : Type 0
RootSets = List (String × List String)

abbrev pub or_nil : Option (List String) → List String
or_nil none = []
or_nil (some ids) = ids

-- `components.setdefault(root, set()).add(mid)`
unfoldable pub add_member : String → String → RootSets → RootSets
unfolding put_at get_at
add_member root mid groups = put_at root (or_nil (get_at root groups) ++ (mid ∷ [])) groups

abbrev pub group_rest :
    (Forest → RootSets → Option RootSets)
    → String
    → RootSets
    → Option (Forest × String)
    → Option RootSets
group_rest go_on mid groups none = none
group_rest go_on mid groups (some (f, root)) = go_on f (add_member root mid groups)

unfoldable pub group_all : ℕ → Forest → RootSets → List String → Option RootSets
unfolding find_root add_member
group_all fuel f groups [] = some groups
group_all fuel f groups (mid ∷ ids) =
    group_rest (λ g gs. group_all fuel g gs ids) mid groups (find_root fuel f mid)

abbrev pub values : RootSets → List (List String)
values [] = []
values ((_, ids) ∷ groups) = ids ∷ values groups

abbrev pub as_sets : Option RootSets → Option (List (List String))
as_sets none = none
as_sets (some groups) = some (values groups)

abbrev pub grouped : ℕ → List String → Option Forest → Option (List (List String))
grouped fuel ids none = none
grouped fuel ids (some f) = as_sets (group_all fuel f [] ids)

-- A root is found in no more rounds than there are unions, and one.
unfoldable pub find_connected_components :
    List String → List Edge → List Module → Option (List (List String))
unfolding union_all group_all links_of
find_connected_components ids edges modules =
    let links = links_of ids edges modules in
    let fuel = suc (length links) in grouped fuel ids (union_all fuel singletons links)
