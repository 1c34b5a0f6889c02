-- ===== src/Graph/Arcs.antt =====
-- The arcs of a graph in the order in which the code adds them to its adjacency dict.
use aqueduct_test.Base.{
  ◌≡◌, refl, ℕ, ◌+◌, ◌≤◌, String, string_eq, ◌==◌, ◌⊎◌, inl, inr, if◌then◌else◌, eqb, List, [], ◌∷◌,
  ◌++◌, count, count-append, Member, here, there, arith,
}

pub record Arc : Type 0 where
  pub from_id : String
  pub to_id : String

-- `adj.get(node, [])`: the targets of the arcs out of the node, in their order.
unfoldable pub targets : List Arc → String → List String
targets [] node = []
targets (a ∷ arcs) node =
    let rest = targets arcs node in if node == a.from_id then a.to_id ∷ rest else rest

-- The arcs into the node whose source is not in the list.
unfoldable pub open_arcs : List Arc → List String → String → ℕ
open_arcs [] done v = 0
open_arcs (a ∷ arcs) done v =
    (if v == a.to_id then (if eqb (count done a.from_id) 0 then 1 else 0) else 0)
    + open_arcs arcs done v

-- A node that joins the list closes the arcs out of it.
pub open_arcs-append :
    (arcs : List Arc) (done : List String) (u v : String)
    → count done u ≡ 0
    → open_arcs arcs done v ≡ open_arcs arcs (done ++ (u ∷ [])) v + count (targets arcs u) v
unfolding open_arcs targets
open_arcs-append [] done u v h = refl
open_arcs-append (a ∷ arcs) done u v h =
    ground (arith, open_arcs-append arcs done u v, count-append done (u ∷ []) a.from_id)

-- With no open arc, every source is in the list.
pub source_of_open_arcs :
    (arcs : List Arc) (done : List String) (a : Arc)
    → Member a arcs
    → open_arcs arcs done a.to_id ≡ 0
    → 1 ≤ count done a.from_id
unfolding open_arcs
source_of_open_arcs _ done a (here _ arcs) h = ground arith
source_of_open_arcs _ done a (there _ b arcs m) h = source_of_open_arcs arcs done a m (ground arith)

-- An open arc has a source outside the list.
open_first :
    (a : Arc) (arcs : List Arc) (done : List String) (v : String)
    → 1 ≤ open_arcs (a ∷ arcs) done v
    → ((a.to_id ≡ v) × (count done a.from_id ≡ 0)) ⊎ (1 ≤ open_arcs arcs done v)
unfolding open_arcs
open_first a arcs done v h = ground arith

pub open_source :
    (arcs : List Arc) (done : List String) (v : String)
    → 1 ≤ open_arcs arcs done v
    → (a : Arc) × Member a arcs × (a.to_id ≡ v) × (count done a.from_id ≡ 0)
unfolding open_arcs
open_source [] done v h = absurd (omega arith)
open_source (a ∷ arcs) done v h = elim (open_first a arcs done v h) [
  | inl (p, q) ↦ (a, here a arcs, p, q)
  | inr rest ↦ let (b, m, p, q) = open_source arcs done v rest in (b, there b a arcs m, p, q)
]

-- A target of a node is one by an arc.
target_first :
    (a : Arc) (arcs : List Arc) (u v : String)
    → 1 ≤ count (targets (a ∷ arcs) u) v
    → ((a.from_id ≡ u) × (a.to_id ≡ v)) ⊎ (1 ≤ count (targets arcs u) v)
unfolding targets
target_first a arcs u v h = ground arith

pub target_arc :
    (arcs : List Arc) (u v : String)
    → 1 ≤ count (targets arcs u) v
    → (a : Arc) × Member a arcs × (a.from_id ≡ u) × (a.to_id ≡ v)
unfolding targets
target_arc [] u v h = absurd (omega arith)
target_arc (a ∷ arcs) u v h = elim (target_first a arcs u v h) [
  | inl (p, q) ↦ (a, here a arcs, p, q)
  | inr rest ↦ let (b, m, p, q) = target_arc arcs u v rest in (b, there b a arcs m, p, q)
]
