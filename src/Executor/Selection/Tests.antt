-- ===== src/Executor/Selection/Tests.antt =====
-- The selection of modules at a small manifest.
use aqueduct_test.Base.{◌≡◌, refl, string_eq, none, some, List, [], ◌∷◌, returns, raises}
use aqueduct_test.Parser.Models.{Module, Edge}
use aqueduct_test.Parser.Graph.Samples.{a_module, an_edge}
use aqueduct_test.Executor.Selection.{
  given_name, find_downstream_egress_ids, selector_included, from_not_found,
}
use aqueduct_test.Executor.Selection.Selected.{Selected, selector_included-Selected}

-- `load` feeds `clean` and `count`; `clean` feeds `save`; `probe` taps `clean`.
abbrev modules : List Module
modules =
    a_module "Ingress" "load" []
    ∷ a_module "Channel" "clean" []
    ∷ a_module "Channel" "count" []
    ∷ a_module "Egress" "save" []
    ∷ record (a_module "Probe" "probe" []) { attach_to = some "clean" }
    ∷ []

abbrev edges : List Edge
edges =
    an_edge "load" "clean" "main"
    ∷ an_edge "load" "count" "main"
    ∷ an_edge "clean" "save" "main"
    ∷ []

selector_included_test :
    selector_included modules edges none (some "save")
    ≡ returns (some ("load" ∷ "clean" ∷ "save" ∷ "probe" ∷ []))
unfolding selector_included string_eq
selector_included_test = refl

unknown_test : selector_included modules edges (some "lost") none ≡ raises (from_not_found "lost")
unfolding selector_included string_eq
unknown_test = refl

find_downstream_egress_ids_test :
    find_downstream_egress_ids "clean" modules edges ≡ returns ("save" ∷ [])
unfolding find_downstream_egress_ids string_eq
find_downstream_egress_ids_test = refl

selector_included-Selected_example :
    Selected modules edges
      (given_name (some "clean"))
      (given_name (some "save"))
      (selector_included modules edges (some "clean") (some "save"))
selector_included-Selected_example =
    selector_included-Selected modules edges (some "clean") (some "save")
