-- ===== src/Parser/Graph/Accepted.antt =====
-- The Blueprints whose graph aqueduct/parser/parser.py accepts.
use aqueduct_test.Base.{
  ◌≡◌, refl, sym, ap, ◌∙◌, ◌↔◌, ◌⊎◌, true, String, string_eq, contains, Option, none, some, List,
  [], ◌∷◌, All, Member, here, returns, ◌>>=◌, check_each_iff, >>=-eq-returns, count-of_Member,
  arith,
}
use aqueduct_test.Graph.Walk.{Walk, IsBelowCycle}
use aqueduct_test.Graph.Kahn.{kahn}
use aqueduct_test.Parser.Models.{Module, Edge}
use aqueduct_test.Parser.Graph.{
  module_ids, build_adjacency, remainder, detect_cycles, no_cycle, check_spillway,
  validate_spillway_targets, validate_graph,
}
use aqueduct_test.Parser.Graph.Built.{described_arcs, IsKnown, build_adjacency_iff}
use aqueduct_test.Parser.Graph.Cycles.{detect_cycles_lem}

-- A missing or empty spillway, or that of a module.
abbrev pub IsTarget : List String → Option String → Type 0
IsTarget ids none = Unit
IsTarget ids (some target) = (target ≡ "") ⊎ (contains ids target ≡ true)

check_spillway_iff :
    (ids : List String) (m : Module) (spillway : Option String)
    → (check_spillway ids m spillway ≡ returns tt) ↔ IsTarget ids spillway
check_spillway_iff ids m none = (λ h. tt, λ h. refl)
check_spillway_iff ids m (some target) = ground arith

validate_spillway_targets_iff :
    (modules : List Module)
    → (validate_spillway_targets modules ≡ returns tt)
      ↔ All (λ m. IsTarget (module_ids modules) m.spillway) modules
unfolding validate_spillway_targets
validate_spillway_targets_iff modules =
    let ids = module_ids modules in
    check_each_iff (λ m. check_spillway ids m m.spillway) (λ m. IsTarget ids m.spillway)
      (λ m. check_spillway_iff ids m m.spillway) modules

module _ (modules : List Module) (edges : List Edge) where
  acyclic_iff :
      (nodes : List String)
      → ((v : String) → Member v nodes ↔ IsBelowCycle (described_arcs modules edges) v)
      → (no_cycle nodes ≡ returns tt) ↔ ((v : String) → ¬ Walk (described_arcs modules edges) v v)
  acyclic_iff [] below = (
    λ _ v cycle. omega (
      arith,
      count-of_Member v [] ((below v).1 record { root = v; cycle = cycle; leads = cycle }),
    ),
    λ _. refl,
  )
  acyclic_iff (node ∷ nodes) below = (
    λ h. absurd (cc),
    λ acyclic. let b = (below node).0 (here node nodes) in absurd (acyclic b.root b.cycle),
  )

  detect_cycles-Known :
      (nodes : List String)
      → detect_cycles modules edges ≡ returns nodes
      → All (IsKnown (module_ids modules)) (described_arcs modules edges)
  unfolding detect_cycles
  detect_cycles-Known nodes h =
      let (arcs, built, _) =
        >>=-eq-returns (build_adjacency modules edges)
          (λ arcs. remainder modules (kahn arcs (module_ids modules))) h in
      ((build_adjacency_iff modules edges arcs).0 built).1

  -- The parser accepts the graph of a Blueprint exactly when both ends of each edge and of each
  -- dependency are modules, no walk leads from a module back to it, and each spillway that is
  -- given is a module or empty.
  pub validate_graph_iff : (validate_graph modules edges ≡ returns tt) ↔ (
      All (IsKnown (module_ids modules)) (described_arcs modules edges)
      × ((v : String) → ¬ Walk (described_arcs modules edges) v v)
      × All (λ m. IsTarget (module_ids modules) m.spillway) modules)
  unfolding validate_graph
  validate_graph_iff = (
    λ h.
        let (_, passed, spillways) =
          >>=-eq-returns (detect_cycles modules edges >>= no_cycle)
            (λ _. validate_spillway_targets modules) h in
        let (nodes, found, empty) = >>=-eq-returns (detect_cycles modules edges) no_cycle passed in
        let known = detect_cycles-Known nodes found in
        let (nodes', found', below) = detect_cycles_lem modules edges known in
        let passed' = sym (ap (λ r. r >>= no_cycle) found') ∙ passed in
        (
          known,
          (acyclic_iff nodes' below).0 passed',
          (validate_spillway_targets_iff modules).0 spillways,
        ),
    λ (known, acyclic, spillways).
        let (nodes, found, below) = detect_cycles_lem modules edges known in
        ap (λ r. r >>= no_cycle >>= λ _. validate_spillway_targets modules) found
        ∙ ap (λ r. r >>= λ _. validate_spillway_targets modules)
            ((acyclic_iff nodes below).1 acyclic)
        ∙ (validate_spillway_targets_iff modules).1 spillways,
  )
