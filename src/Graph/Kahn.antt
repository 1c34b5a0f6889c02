-- ===== src/Graph/Kahn.antt =====
-- Kahn's algorithm: the loop that aqueduct/parser/graph.py and aqueduct/executor/spark/executor.py
-- share. `popped` is the order of the nodes taken from the queue, which `visited` counts.
pub mod Invariant
pub mod Ends
pub mod Cycles
pub mod Taken
use aqueduct_test.Base.{
  ℕ, zero, suc, ◌+◌, ◌-◌, Bool, true, false, String, string_eq, ◌==◌, if◌then◌else◌, eqb, Option,
  none, some, List, [], ◌∷◌, ◌++◌, length,
}
use aqueduct_test.Graph.Arcs.{Arc, targets}

-- `in_degree` is a function on the nodes; its keys stay as they are.
pub record Kahn : Type 0 where
  pub in_degree : String → ℕ
  pub queue : List String
  pub popped : List String

-- `in_degree[node] -= 1`
unfoldable pub lower : String → (String → ℕ) → String → ℕ
lower v in_degree w = if w == v then in_degree w - 1 else in_degree w

-- The `for` over the neighbours.
unfoldable pub relax : List String → Kahn → Kahn
unfolding lower
relax [] s = s
relax (v ∷ vs) s =
    let in_degree = lower v s.in_degree in
    relax vs (record s {
      in_degree = in_degree;
      queue = if eqb (in_degree v) 0 then s.queue ++ (v ∷ []) else s.queue;
    })

-- `in_degree` after the loop over the arcs has counted each of them.
unfoldable pub in_degrees : List Arc → String → ℕ
in_degrees [] v = 0
in_degrees (a ∷ rest) v = (if v == a.to_id then 1 else 0) + in_degrees rest v

unfoldable pub roots : (String → ℕ) → List String → List String
roots in_degree [] = []
roots in_degree (v ∷ vs) =
    let rest = roots in_degree vs in if eqb (in_degree v) 0 then v ∷ rest else rest

module _ (arcs : List Arc) where
  -- A round of the `while`, after `node` left the queue.
  unfoldable pub visit : Kahn → String → List String → Kahn
  unfolding relax targets
  visit s node rest =
      relax (targets arcs node) (record s { queue = rest; popped = s.popped ++ (node ∷ []) })

  abbrev pub next_round : (Kahn → Option Kahn) → Kahn → List String → Option Kahn
  unfolding visit
  next_round go_on s [] = some s
  next_round go_on s (node ∷ rest) = go_on (visit s node rest)

  abbrev pub if_empty : Kahn → List String → Option Kahn
  if_empty s [] = some s
  if_empty s (_ ∷ _) = none

  -- `none` means that the rounds did not suffice.
  unfoldable pub run : ℕ → Kahn → Option Kahn
  unfolding next_round
  run zero s = if_empty s s.queue
  run (suc fuel) s = next_round (run fuel) s s.queue

  -- The loop from the start, on the keys `ids`.
  unfoldable pub start : List String → Kahn
  unfolding in_degrees roots
  start ids = record {
    in_degree = in_degrees arcs;
    queue = roots (in_degrees arcs) ids;
    popped = [];
  }

  unfoldable pub kahn : List String → Option Kahn
  unfolding run start
  kahn ids = run (length ids) (start ids)
