-- ===== src/Graph/Search.antt =====
-- The breadth-first search of aqueduct/executor/spark/executor.py, which marks a node when it
-- leaves the queue. `visited` is a list without duplicates, in the order of its additions.
pub mod Reach
use aqueduct_test.Base.{
  ◌≡◌, ℕ, zero, suc, String, string_eq, if◌then◌else◌, contains, ◌⊎◌, Option, none, some, List, [],
  ◌∷◌, ◌++◌, length,
}
use aqueduct_test.Graph.Arcs.{Arc, targets}
use aqueduct_test.Graph.Walk.{Walk}

pub record Search : Type 0 where
  pub visited : List String
  pub queue : List String

module _ (arcs : List Arc) where
  -- A round of the `while`, after `mid` left the queue.
  unfoldable pub step : Search → String → List String → Search
  unfolding targets
  step s mid rest =
      if contains s.visited mid
      then record s { queue = rest }
      else record { visited = s.visited ++ (mid ∷ []); queue = rest ++ targets arcs mid }

  abbrev pub next_step :
      (Search → Option (List String)) → Search → List String → Option (List String)
  unfolding step
  next_step go_on s [] = some s.visited
  next_step go_on s (mid ∷ rest) = go_on (step s mid rest)

  abbrev pub if_done : Search → List String → Option (List String)
  if_done s [] = some s.visited
  if_done s (_ ∷ _) = none

  -- `none` means that the rounds did not suffice.
  unfoldable pub search : ℕ → Search → Option (List String)
  unfolding next_step
  search zero s = if_done s s.queue
  search (suc fuel) s = next_step (search fuel) s s.queue

  -- A node comes once as the start, and once for each arc.
  unfoldable pub reachable : String → Option (List String)
  unfolding search
  reachable start_id = search (suc (length arcs)) (record { visited = []; queue = start_id ∷ [] })

-- The start, or a node that a walk leads to.
abbrev pub IsReached : List Arc → String → String → Type 0
IsReached arcs u v = (v ≡ u) ⊎ Walk arcs u v
