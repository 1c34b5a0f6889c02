-- ===== src/Parser/Graph.antt =====
-- aqueduct/parser/graph.py. The adjacency lists and in-degrees that `_build_adjacency` fills are
-- kept as the list of the arcs added to both, in their order.
pub mod Built
pub mod Cycles
pub mod Accepted
pub mod Samples
mod Tests
use aqueduct_test.Base.{
  ℕ, ltb, eqb, Bool, true, false, not, ◌&&◌, String, string_eq, ◌==◌, if◌then◌else◌, contains,
  Option, none, some, List, [], ◌∷◌, ◌++◌, length, filter, Try, returns, raises, ◌>>=◌, check_each,
}
use aqueduct_test.Graph.Arcs.{Arc}
use aqueduct_test.Graph.Kahn.{Kahn, kahn}
use aqueduct_test.Parser.Models.{Module, Edge}

-- Where an arc comes from: an edge, or a name in a module's `depends_on`.
pub data Context : Type 0 where
  edge_context : (from_id to_id : String) → Context
  depends_context : (module_id dep_id : String) → Context

-- The `ValueError`s. `out_of_rounds` stands for a loop that would not have ended.
pub data GraphError : Type 0 where
  unknown_module : Context → String → GraphError
  cycle_detected : List String → GraphError
  no_such_spillway : (module_id target : String) → GraphError
  out_of_rounds : GraphError

-- The keys of a dict on the module ids, in the order of their first insertion.
unfoldable pub add_keys : List String → List Module → List String
add_keys keys [] = keys
add_keys keys (m ∷ ms) = add_keys (if contains keys m.id' then keys else keys ++ (m.id' ∷ [])) ms

unfoldable pub module_ids : List Module → List String
unfolding add_keys
module_ids modules = add_keys [] modules

module _ (ids : List String) where
  abbrev pub add_edge : List Arc → Arc → Context → Try GraphError (List Arc)
  add_edge arcs a context =
      if not (contains ids a.from_id)
      then raises (unknown_module context a.from_id)
      else if not (contains ids a.to_id)
      then raises (unknown_module context a.to_id)
      else returns (arcs ++ (a ∷ []))

  unfoldable pub add_edges : List Arc → List Edge → Try GraphError (List Arc)
  add_edges arcs [] = returns arcs
  add_edges arcs (e ∷ es) =
      add_edge arcs (record { from_id = e.from_id; to_id = e.to_id })
        (edge_context e.from_id e.to_id)
      >>= λ arcs'. add_edges arcs' es

  unfoldable pub add_dependencies : List Arc → String → List String → Try GraphError (List Arc)
  add_dependencies arcs id' [] = returns arcs
  add_dependencies arcs id' (dep ∷ deps) =
      add_edge arcs (record { from_id = dep; to_id = id' }) (depends_context id' dep) >>= λ arcs'.
      add_dependencies arcs' id' deps

  unfoldable pub add_modules : List Arc → List Module → Try GraphError (List Arc)
  unfolding add_dependencies
  add_modules arcs [] = returns arcs
  add_modules arcs (m ∷ ms) =
      add_dependencies arcs m.id' m.depends_on >>= λ arcs'. add_modules arcs' ms

unfoldable pub build_adjacency : List Module → List Edge → Try GraphError (List Arc)
unfolding add_edges add_modules module_ids
build_adjacency modules edges =
    let ids = module_ids modules in add_edges ids [] edges >>= λ arcs. add_modules ids arcs modules

-- `visited` is the number of nodes taken.
abbrev pub remainder : List Module → Option Kahn → Try GraphError (List String)
unfolding module_ids
remainder modules none = raises out_of_rounds
remainder modules (some t) =
    if ltb (length t.popped) (length modules)
    then returns (filter (λ node. ltb 0 (t.in_degree node)) (module_ids modules))
    else returns []

unfoldable pub detect_cycles : List Module → List Edge → Try GraphError (List String)
unfolding build_adjacency module_ids kahn remainder
detect_cycles modules edges =
    build_adjacency modules edges >>= λ arcs. remainder modules (kahn arcs (module_ids modules))

abbrev pub no_cycle : List String → Try GraphError (Unit {0})
no_cycle [] = returns tt
no_cycle (node ∷ nodes) = raises (cycle_detected (node ∷ nodes))

abbrev pub order_of : Option Kahn → Try GraphError (List String)
order_of none = raises out_of_rounds
order_of (some t) = returns t.popped

unfoldable pub topological_order : List Module → List Edge → Try GraphError (List String)
unfolding detect_cycles build_adjacency kahn module_ids
topological_order modules edges = detect_cycles modules edges >>= no_cycle >>= λ _.
    build_adjacency modules edges >>= λ arcs. order_of (kahn arcs (module_ids modules))

abbrev pub check_spillway : List String → Module → Option String → Try GraphError (Unit {0})
check_spillway ids m none = returns tt
check_spillway ids m (some target) =
    if not (target == "") && not (contains ids target)
    then raises (no_such_spillway m.id' target)
    else returns tt

unfoldable pub validate_spillway_targets : List Module → Try GraphError (Unit {0})
unfolding module_ids
validate_spillway_targets modules =
    check_each (λ m. check_spillway (module_ids modules) m m.spillway) modules

-- The graph validation of aqueduct/parser/parser.py, whose `ParseError`s carry these errors.
unfoldable pub validate_graph : List Module → List Edge → Try GraphError (Unit {0})
unfolding detect_cycles validate_spillway_targets
validate_graph modules edges =
    detect_cycles modules edges >>= no_cycle >>= λ _. validate_spillway_targets modules
