-- ===== src/Parser/Graph/Tests.antt =====
-- The graph's theorems at small Blueprints.
use aqueduct_test.Base.{
  ◌≡◌, refl, ◌↔◌, ◌⊎◌, String, string_eq, List, [], ◌∷◌, All, Member, returns, raises,
}
use aqueduct_test.Graph.Walk.{Walk, IsBelowCycle}
use aqueduct_test.Graph.Kahn.Taken.{IsOrder}
use aqueduct_test.Parser.Graph.{
  module_ids, detect_cycles, topological_order, validate_graph, cycle_detected,
}
use aqueduct_test.Parser.Graph.Samples.{pipeline, pipeline_edges, looped_edges}
use aqueduct_test.Parser.Graph.Built.{described_arcs, IsKnown}
use aqueduct_test.Parser.Graph.Cycles.{detect_cycles_lem, topological_order_lem}
use aqueduct_test.Parser.Graph.Accepted.{IsTarget, validate_graph_iff}

topological_order_test :
    topological_order pipeline pipeline_edges ≡ returns ("load" ∷ "clean" ∷ "save" ∷ [])
unfolding topological_order string_eq
topological_order_test = refl

-- `save` is in the answer, but on no cycle.
detect_cycles_test : detect_cycles pipeline looped_edges ≡ returns ("clean" ∷ "save" ∷ "load" ∷ [])
unfolding detect_cycles string_eq
detect_cycles_test = refl

pipeline-IsKnown : All (IsKnown (module_ids pipeline)) (described_arcs pipeline pipeline_edges)
unfolding module_ids string_eq
pipeline-IsKnown = ((refl, refl), ((refl, refl), tt))

looped-IsKnown : All (IsKnown (module_ids pipeline)) (described_arcs pipeline looped_edges)
unfolding module_ids string_eq
looped-IsKnown = ((refl, refl), ((refl, refl), ((refl, refl), tt)))

detect_cycles_lem_example :
    (nodes : List String) × (detect_cycles pipeline looped_edges ≡ returns nodes)
    × ((v : String) → Member v nodes ↔ IsBelowCycle (described_arcs pipeline looped_edges) v)
detect_cycles_lem_example = detect_cycles_lem pipeline looped_edges looped-IsKnown

topological_order_lem_example :
    ((order : List String) × (topological_order pipeline pipeline_edges ≡ returns order)
      × IsOrder (described_arcs pipeline pipeline_edges) (module_ids pipeline) order)
    ⊎ ((node : String) × (nodes : List String) × (topological_order pipeline pipeline_edges
          ≡ raises (cycle_detected (node ∷ nodes)))
        × IsBelowCycle (described_arcs pipeline pipeline_edges) node)
topological_order_lem_example = topological_order_lem pipeline pipeline_edges pipeline-IsKnown

validate_graph_iff_example : (validate_graph pipeline looped_edges ≡ returns tt) ↔ (
    All (IsKnown (module_ids pipeline)) (described_arcs pipeline looped_edges)
    × ((v : String) → ¬ Walk (described_arcs pipeline looped_edges) v v)
    × All (λ m. IsTarget (module_ids pipeline) m.spillway) pipeline)
validate_graph_iff_example = validate_graph_iff pipeline looped_edges
