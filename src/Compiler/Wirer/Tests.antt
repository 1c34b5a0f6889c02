-- ===== src/Compiler/Wirer/Tests.antt =====
-- The wirer's theorems at small Blueprints.
use aqueduct_test.Base.{
  ◌≡◌, refl, sym, ap, ◌∙◌, ◌↔◌, true, false, String, string_eq, contains, List, [], ◌∷◌, All,
  All-of_Member, Member, here, raises,
}
use aqueduct_test.Graph.Walk.{Walk}
use aqueduct_test.Parser.Models.{Module, Edge}
use aqueduct_test.Parser.Graph.Samples.{a_module, an_edge}
use aqueduct_test.Compiler.Wirer.{
  missing_attach, validate_probes, main_edge, passive_in, compile_away_regulators,
}
use aqueduct_test.Compiler.Wirer.Flow.{data_arcs}
use aqueduct_test.Compiler.Wirer.Walks.{
  AreApart, AreMainAt, compile_away_flow_iff, compile_away_detaches,
}

abbrev modules : List Module
modules =
    a_module "Ingress" "load" [] ∷ a_module "Regulator" "gate" [] ∷ a_module "Egress" "save" [] ∷ []

abbrev edges : List Edge
edges = an_edge "load" "gate" "main" ∷ an_edge "gate" "save" "main" ∷ []

compile_away_test : compile_away_regulators (λ ids. ids) modules edges ≡ (
  a_module "Ingress" "load" [] ∷ a_module "Egress" "save" [] ∷ [],
  main_edge "load" "save" ∷ [],
)
unfolding compile_away_regulators string_eq
compile_away_test = refl

-- Two passive Regulators in a row: both are removed, the bypass edges lead to and from them, and
-- nothing leads from `load` to `save` any more.
chain_test :
    compile_away_regulators
      (λ ids. ids)
      (a_module "Ingress" "load" []
        ∷ a_module "Regulator" "gate" []
        ∷ a_module "Regulator" "door" []
        ∷ a_module "Egress" "save" []
        ∷ [])
      (an_edge "load" "gate" "main"
        ∷ an_edge "gate" "door" "main"
        ∷ an_edge "door" "save" "main"
        ∷ [])
    ≡ (
      a_module "Ingress" "load" [] ∷ a_module "Egress" "save" [] ∷ [],
      main_edge "load" "door" ∷ main_edge "gate" "save" ∷ [],
    )
unfolding compile_away_regulators string_eq
chain_test = refl

-- A Regulator with a signal stays.
active_test :
    compile_away_regulators (λ ids. ids) modules (an_edge "probe" "gate" "signal" ∷ edges)
    ≡ (modules, an_edge "probe" "gate" "signal" ∷ edges)
unfolding compile_away_regulators string_eq
active_test = refl

validate_probes_test :
    validate_probes (a_module "Probe" "probe" [] ∷ []) ≡ raises (missing_attach "probe")
unfolding validate_probes string_eq
validate_probes_test = refl

same_members : (xs : List String) (v : String) → Member v xs ↔ Member v xs
same_members xs v = (λ m. m, λ m. m)

abbrev LeadsOut : Edge → Type 0
LeadsOut e =
    contains (passive_in modules edges) e.from_id ≡ true
    → contains (passive_in modules edges) e.to_id ≡ false

each-LeadsOut : All LeadsOut edges
unfolding passive_in string_eq
each-LeadsOut = (λ h. absurd (cc), (λ h. refl, tt))

apart : AreApart modules edges
apart u v (e, m, from, to, main) gone =
    let passive = passive_in modules edges in
    ap (contains passive) (sym to)
    ∙ All-of_Member LeadsOut e edges each-LeadsOut m (ap (contains passive) from ∙ gone)

main_at : AreMainAt modules edges
main_at e m data_e gone = All-of_Member (λ d. d.port ≡ "main") e edges (refl, (refl, tt)) m

-- The branch of a Junction into a passive Regulator is lost, as it is not on the port `main`.
branch_test :
    compile_away_regulators
      (λ ids. ids)
      (a_module "Junction" "split" []
        ∷ a_module "Regulator" "gate" []
        ∷ a_module "Egress" "save" []
        ∷ [])
      (an_edge "split" "gate" "eu" ∷ an_edge "gate" "save" "main" ∷ [])
    ≡ (a_module "Junction" "split" [] ∷ a_module "Egress" "save" [] ∷ [], [])
unfolding compile_away_regulators string_eq
branch_test = refl

compile_away_flow_iff_example :
    Walk (data_arcs (compile_away_regulators (λ ids. ids) modules edges).1) "load" "save"
    ↔ Walk (data_arcs edges) "load" "save"
unfolding passive_in string_eq
compile_away_flow_iff_example =
    compile_away_flow_iff (λ ids. ids) same_members modules edges apart main_at "load" "save" refl
      refl

compile_away_detaches_example :
    (contains (passive_in modules edges) "load" ≡ false)
    × (contains (passive_in modules edges) "save" ≡ false)
unfolding compile_away_regulators string_eq
compile_away_detaches_example =
    compile_away_detaches (λ ids. ids) same_members modules edges apart (main_edge "load" "save")
      (here (main_edge "load" "save") [])
