-- ===== src/Executor/Selection.antt =====
-- aqueduct/executor/spark/executor.py: the edges into a module, `_reachable_forward` and
-- `_reachable_backward`, the Egress modules behind a Channel, and the modules that the selectors
-- `--from` and `--to` include. A set is a list; only membership counts.
pub mod Reached
pub mod Included
pub mod Selected
mod Tests
use aqueduct_test.Base.{
  Bool, true, false, not, ◌&&◌, String, string_eq, ◌==◌, if◌then◌else◌, contains, Option, none,
  some, List, [], ◌∷◌, ◌++◌, filter, Try, returns, raises, ◌>>=◌,
}
use aqueduct_test.Graph.Arcs.{Arc}
use aqueduct_test.Graph.Search.{reachable}
use aqueduct_test.Parser.Models.{Module, Edge}
use aqueduct_test.Parser.Graph.{module_ids}
use aqueduct_test.Executor.Order.{is_data_edge, is_probe, ids_of}

-- The `ExecuteError`s; `out_of_rounds` stands for a search that would not have ended.
pub data SelectError : Type 0 where
  from_not_found : String → SelectError
  to_not_found : String → SelectError
  out_of_rounds : SelectError

unfoldable pub incoming_data : String → List Edge → List Edge
incoming_data module_id edges = filter (λ e. e.to_id == module_id && is_data_edge e) edges

unfoldable pub incoming_main : String → List Edge → List Edge
incoming_main module_id edges = filter (λ e. e.to_id == module_id && e.port == "main") edges

-- The two graphs that the searches build.
unfoldable pub forward_arcs : List Edge → List Arc
forward_arcs [] = []
forward_arcs (e ∷ es) =
    let rest = forward_arcs es in
    if is_data_edge e then record { from_id = e.from_id; to_id = e.to_id } ∷ rest else rest

unfoldable pub backward_arcs : List Edge → List Arc
backward_arcs [] = []
backward_arcs (e ∷ es) =
    let rest = backward_arcs es in
    if is_data_edge e then record { from_id = e.to_id; to_id = e.from_id } ∷ rest else rest

abbrev pub ended : Option (List String) → Try SelectError (List String)
ended none = raises out_of_rounds
ended (some visited) = returns visited

unfoldable pub reachable_forward : String → List Edge → Try SelectError (List String)
unfolding forward_arcs reachable
reachable_forward start_id edges = ended (reachable (forward_arcs edges) start_id)

unfoldable pub reachable_backward : String → List Edge → Try SelectError (List String)
unfolding backward_arcs reachable
reachable_backward start_id edges = ended (reachable (backward_arcs edges) start_id)

unfoldable pub find_downstream_egress_ids :
    String → List Module → List Edge → Try SelectError (List String)
unfolding reachable_forward
find_downstream_egress_ids channel_id modules edges =
    reachable_forward channel_id edges >>= λ reached. returns (
      ids_of (
        filter (λ m. contains reached m.id' && not (m.id' == channel_id) && m.type' == "Egress")
          modules))

-- `if from_module:`, where a missing or empty name selects nothing.
abbrev pub given_name : Option String → Option String
given_name none = none
given_name (some name) = if name == "" then none else some name

unfoldable pub ahead : List Module → List Edge → Option String → Try SelectError (List String)
unfolding reachable_forward module_ids
ahead modules edges none = returns (module_ids modules)
ahead modules edges (some from_module) =
    if contains (module_ids modules) from_module
    then reachable_forward from_module edges
    else raises (from_not_found from_module)

unfoldable pub back : List Module → List Edge → Option String → Try SelectError (List String)
unfolding reachable_backward module_ids
back modules edges none = returns (module_ids modules)
back modules edges (some to_module) =
    if contains (module_ids modules) to_module
    then reachable_backward to_module edges
    else raises (to_not_found to_module)

-- `m.attach_to in included`
abbrev pub taps : List String → Option String → Bool
taps included none = false
taps included (some target) = contains included target

-- The loop that adds the probes, over what earlier rounds added too.
unfoldable pub add_taps : List String → List Module → List String
add_taps included [] = included
add_taps included (m ∷ ms) =
    add_taps
      (if is_probe m && taps included m.attach_to then included ++ (m.id' ∷ []) else included) ms

unfoldable pub pick :
    List Module → List Edge → Option String → Option String → Try SelectError (Option (List String))
unfolding ahead back add_taps
pick modules edges from to = ahead modules edges from >>= λ forward.
    back modules edges to >>= λ backward.
    returns (some (add_taps (filter (λ v. contains backward v) forward) modules))

abbrev pub select :
    List Module → List Edge → Option String → Option String → Try SelectError (Option (List String))
unfolding pick
select modules edges none none = returns none
select modules edges (some name) to = pick modules edges (some name) to
select modules edges none (some name) = pick modules edges none (some name)

unfoldable pub selector_included :
    List Module → List Edge → Option String → Option String → Try SelectError (Option (List String))
unfolding select
selector_included modules edges from_module to_module =
    select modules edges (given_name from_module) (given_name to_module)
