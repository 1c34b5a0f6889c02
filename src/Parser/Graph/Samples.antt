-- ===== src/Parser/Graph/Samples.antt =====
-- Small Blueprints for the tests of the graph.
use aqueduct_test.Base.{false, String, none, List, [], ◌∷◌}
use aqueduct_test.Patch.Value.{end}
use aqueduct_test.Parser.Models.{Module, Edge}

abbrev pub a_module : String → String → List String → Module
a_module type' id' depends_on = record {
  id' = id';
  type' = type';
  label = id';
  config = end;
  description = "";
  tags = [];
  spillway = none;
  depends_on = depends_on;
  on_failure = none;
  on_failure_webhook = none;
  checkpoint = false;
  attach_to = none;
  ref' = none;
  context_override = none;
}

abbrev pub an_edge : String → String → String → Edge
an_edge from_id to_id port = record {
  from_id = from_id;
  to_id = to_id;
  port = port;
  error_types = [];
}

-- `clean` depends on `load`, and an edge leads from it to `save`.
abbrev pub pipeline : List Module
pipeline =
    a_module "Channel" "clean" ("load" ∷ [])
    ∷ a_module "Egress" "save" []
    ∷ a_module "Ingress" "load" []
    ∷ []

abbrev pub pipeline_edges : List Edge
pipeline_edges = an_edge "clean" "save" "main" ∷ []

-- With the edge back there is a cycle, and `save` stands below it.
abbrev pub looped_edges : List Edge
looped_edges = an_edge "clean" "save" "main" ∷ an_edge "clean" "load" "main" ∷ []
