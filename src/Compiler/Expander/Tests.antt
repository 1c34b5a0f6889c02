-- ===== src/Compiler/Expander/Tests.antt =====
-- The expansion of a small Arcade.
use aqueduct_test.Base.{
  ◌≡◌, refl, Bool, true, false, String, string_eq, ◌==◌, if◌then◌else◌, count-le_of_distinct,
  Option, none, some, List, [], ◌∷◌, any, Member, ◌↔◌, returns, raises,
}
use aqueduct_test.Patch.Value.{Fields, end, field, arr}
use aqueduct_test.Parser.Models.{Module, Edge}
use aqueduct_test.Parser.Graph.Samples.{a_module, an_edge}
use aqueduct_test.Compiler.Expander.{
  SubBlueprint, too_deep, missing_context, module_names, expand_single,
}
use aqueduct_test.Compiler.Expander.Inputs.{texts}
use aqueduct_test.Compiler.Expander.Arcades.{is_arcade, expand_arcades}
use aqueduct_test.Compiler.Expander.Flat.{AreDistinct, expand_arcades_flat}
use aqueduct_test.Compiler.Expander.Ends.{Rewired}
use aqueduct_test.Compiler.Expander.Rewiring.{expand_single_iff}

abbrev box : Module
box = record (a_module "Arcade" "box" []) { ref' = some "box.yml" }

abbrev sub : SubBlueprint
sub = record {
  modules = a_module "Channel" "clean" [] ∷ a_module "Channel" "dedup" ("clean" ∷ []) ∷ [];
  edges = an_edge "clean" "dedup" "main" ∷ [];
  required_context = [];
}

abbrev any_path : String → Bool
any_path path = true

abbrev parse : String → Option Fields → Option SubBlueprint
parse path overrides = if path == "box.yml" then some sub else none

-- `save` reads the Arcade.
abbrev save : List String → Module
save inputs = record (a_module "Funnel" "save" []) {
  config = field "inputs" (arr (texts inputs)) end;
}

abbrev modules : List Module
modules = a_module "Ingress" "load" [] ∷ box ∷ save ("box" ∷ "load" ∷ []) ∷ []

abbrev edges : List Edge
edges = an_edge "load" "box" "main" ∷ an_edge "box" "save" "main" ∷ []

abbrev flat : List Module × List Edge
flat = (
  a_module "Ingress" "load" []
      ∷ record (a_module "Channel" "box__clean" []) { label = "clean" }
      ∷ record (a_module "Channel" "box__dedup" ("box__clean" ∷ [])) { label = "dedup" }
      ∷ save ("box__dedup" ∷ "load" ∷ [])
      ∷ [],
  an_edge "box__clean" "box__dedup" "main"
      ∷ an_edge "load" "box__clean" "main"
      ∷ an_edge "box__dedup" "save" "main"
      ∷ [],
)

expand_arcades_test : expand_arcades any_path parse modules edges ≡ returns flat
unfolding expand_arcades string_eq
expand_arcades_test = refl

-- An Arcade that holds itself is given up.
endless_test :
    expand_arcades any_path
      (λ path overrides. some (record sub { modules = box ∷ []; edges = [] }))
      modules
      edges
    ≡ raises too_deep
unfolding expand_arcades string_eq
endless_test = refl

missing_context_test :
    expand_arcades any_path
      (λ path overrides. some (record sub { required_context = "table" ∷ [] }))
      modules
      edges
    ≡ raises (missing_context "box" ("table" ∷ []))
unfolding expand_arcades string_eq
missing_context_test = refl

modules_distinct : AreDistinct modules
unfolding string_eq
modules_distinct v = count-le_of_distinct (module_names modules) refl v

expand_arcades_flat_example : (any is_arcade flat.0 ≡ false) × AreDistinct flat.0
expand_arcades_flat_example =
    expand_arcades_flat any_path parse modules edges flat expand_arcades_test modules_distinct

expand_single_iff_example :
    Member (an_edge "load" "box__clean" "main") flat.1
    ↔ Rewired "box" sub edges (an_edge "load" "box__clean" "main")
unfolding expand_single string_eq
expand_single_iff_example =
    expand_single_iff box sub edges _ flat.1 refl (an_edge "load" "box__clean" "main")
