-- ===== src/Graph/Walk.antt =====
-- Walks along one arc or more, and the nodes that a cycle leads to.
use aqueduct_test.Base.{◌≡◌, String, List, Member}
use aqueduct_test.Graph.Arcs.{Arc}

pub data Walk (arcs : List Arc) (u : String) : String → Type 0 where
  one : (v : String) (a : Arc) → Member a arcs → a.from_id ≡ u → a.to_id ≡ v → Walk arcs u v
  more :
      (v w : String) (a : Arc)
      → Walk arcs u v
      → Member a arcs
      → a.from_id ≡ v
      → a.to_id ≡ w
      → Walk arcs u w

-- An arc before a walk.
pub Walk-cons :
    (arcs : List Arc) (u v : String) (a : Arc) {w : String}
    → Member a arcs
    → a.from_id ≡ u
    → a.to_id ≡ v
    → Walk arcs v w
    → Walk arcs u w
Walk-cons arcs u v a m from to (one w b mb from_b to_b) =
    more v w b (one v a m from to) mb from_b to_b
Walk-cons arcs u v a m from to (more x w b walk mb from_b to_b) =
    more x w b (Walk-cons arcs u v a m from to walk) mb from_b to_b

-- A node on a cycle, or one that a walk from a cycle leads to.
pub record IsBelowCycle (arcs : List Arc) (v : String) : Type 0 where
  pub root : String
  pub cycle : Walk arcs root root
  pub leads : Walk arcs root v
