-- ===== src/Executor/Components/Tests.antt =====
-- A run of two components, and the theorem at it.
use aqueduct_test.Base.{◌≡◌, refl, String, string_eq, some, List, [], ◌∷◌}
use aqueduct_test.Parser.Models.{Module, Edge}
use aqueduct_test.Parser.Graph.Samples.{a_module, an_edge}
use aqueduct_test.Executor.Components.{find_connected_components, links_of}
use aqueduct_test.Executor.Components.Parted.{IsPartition, find_connected_components_lem}

-- `peek` is a Probe at `b`, which comes after `a`; `c` and `d` are apart. A signal joins nothing.
abbrev peek : Module
peek = record (a_module "Probe" "peek" []) { attach_to = some "b" }

abbrev nodes : List String
nodes = "a" ∷ "b" ∷ "c" ∷ "d" ∷ "peek" ∷ []

abbrev edges : List Edge
edges = an_edge "a" "b" "main" ∷ an_edge "c" "d" "spillway" ∷ an_edge "peek" "c" "signal" ∷ []

two_components :
    find_connected_components nodes edges (peek ∷ [])
    ≡ some (("a" ∷ "b" ∷ "peek" ∷ []) ∷ ("c" ∷ "d" ∷ []) ∷ [])
unfolding find_connected_components string_eq
two_components = refl

find_connected_components_lem_example :
    (components : List (List String)) × (find_connected_components nodes edges (peek ∷ [])
      ≡ some components)
    × IsPartition nodes (links_of nodes edges (peek ∷ [])) components
find_connected_components_lem_example = find_connected_components_lem nodes edges (peek ∷ [])
