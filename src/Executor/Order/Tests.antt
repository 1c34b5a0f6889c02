-- ===== src/Executor/Order/Tests.antt =====
-- The execution order's theorems at small manifests.
use aqueduct_test.Base.{
  ◌≡◌, refl, ◌↔◌, ◌⊎◌, ◌≤◌, String, string_eq, some, List, [], ◌∷◌, Member, count, returns, raises,
  Try, count-le_of_distinct,
}
use aqueduct_test.Graph.Walk.{IsBelowCycle}
use aqueduct_test.Parser.Models.{Module, Edge}
use aqueduct_test.Parser.Graph.{module_ids}
use aqueduct_test.Parser.Graph.Samples.{a_module, an_edge, pipeline, pipeline_edges}
use aqueduct_test.Executor.Order.{
  OrderError, cycle_in_manifest, key_error, ids_of, build_execution_order,
}
use aqueduct_test.Executor.Order.Sorted.{AreSourced}
use aqueduct_test.Executor.Order.Execution.{
  non_probes, flow, IsExecutionOrder, build_execution_order_lem,
}

abbrev probe : Module
probe = record (a_module "Probe" "probe" []) { attach_to = some "load" }

abbrev flow_modules : List Module
flow_modules = probe ∷ a_module "Egress" "save" [] ∷ a_module "Ingress" "load" [] ∷ []

abbrev flow_edges : List Edge
flow_edges = an_edge "load" "save" "main" ∷ []

build_execution_order_test :
    build_execution_order flow_modules flow_edges
    ≡ returns (a_module "Ingress" "load" [] ∷ probe ∷ a_module "Egress" "save" [] ∷ [])
unfolding build_execution_order string_eq
build_execution_order_test = refl

flow_unique : (v : String) → count (ids_of flow_modules) v ≤ 1
unfolding string_eq
flow_unique v = count-le_of_distinct (ids_of flow_modules) refl v

flow_sourced : AreSourced (module_ids (non_probes flow_modules)) flow_edges
unfolding module_ids string_eq
flow_sourced = (refl, tt)

build_execution_order_lem_example :
    ((order : List Module) × (build_execution_order flow_modules flow_edges ≡ returns order)
      × IsExecutionOrder flow_modules flow_edges (ids_of order))
    ⊎ ((nodes : List String) × (build_execution_order flow_modules flow_edges
          ≡ raises (cycle_in_manifest nodes))
        × ((v : String) → Member v nodes ↔ IsBelowCycle (flow flow_modules flow_edges) v)
        × (v : String) × IsBelowCycle (flow flow_modules flow_edges) v)
build_execution_order_lem_example =
    build_execution_order_lem flow_modules flow_edges flow_unique flow_sourced

-- The gate of `gate` reads a signal of `probe`, and is evaluated before it.
abbrev gated_modules : List Module
gated_modules =
    a_module "Ingress" "load" []
    ∷ a_module "Channel" "clean" []
    ∷ a_module "Channel" "dedup" []
    ∷ a_module "Ingress" "other" []
    ∷ a_module "Regulator" "gate" []
    ∷ record (a_module "Probe" "probe" []) { attach_to = some "dedup" }
    ∷ []

abbrev gated_edges : List Edge
gated_edges =
    an_edge "load" "clean" "main"
    ∷ an_edge "clean" "dedup" "main"
    ∷ an_edge "other" "gate" "main"
    ∷ an_edge "probe" "gate" "signal"
    ∷ []

-- The order of the ids.
abbrev ids_in : Try OrderError (List Module) → List String
ids_in (returns order) = ids_of order
ids_in (raises e) = []

gated_test :
    ids_in (build_execution_order gated_modules gated_edges)
    ≡ "load" ∷ "other" ∷ "clean" ∷ "gate" ∷ "dedup" ∷ "probe" ∷ []
unfolding build_execution_order string_eq
gated_test = refl

-- `clean` depends on `load`, which comes last.
depends_test :
    ids_in (build_execution_order pipeline pipeline_edges) ≡ "clean" ∷ "load" ∷ "save" ∷ []
unfolding build_execution_order string_eq
depends_test = refl

-- A data edge out of a probe.
probe_edge_test :
    build_execution_order flow_modules (an_edge "probe" "save" "main" ∷ [])
    ≡ raises (key_error "probe")
unfolding build_execution_order string_eq
probe_edge_test = refl
