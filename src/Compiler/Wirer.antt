-- ===== src/Compiler/Wirer.antt =====
-- aqueduct/compiler/wirer.py. Dicts of lists are functions on the names. A set is a list, and the
-- order in which Python walks a set is a parameter.
pub mod Checks
pub mod Bypass
pub mod Flow
pub mod Walks
mod Tests
use aqueduct_test.Base.{
  Bool, true, false, not, ◌&&◌, String, string_eq, ◌==◌, if◌then◌else◌, contains, Option, none,
  some, List, [], ◌∷◌, ◌++◌, map, filter, Try, returns, raises, check_each,
}
use aqueduct_test.Parser.Models.{Module, Edge}
use aqueduct_test.Parser.Graph.{module_ids}

pub data WireError : Type 0 where
  missing_attach : String → WireError
  unknown_attach : (id' attach_to : String) → WireError
  unknown_target : (from_id to_id : String) → WireError

-- `if not m.attach_to`, then whether it is a module.
abbrev pub check_attach : List String → String → Option String → Try WireError (Unit {0})
check_attach ids id' none = raises (missing_attach id')
check_attach ids id' (some target) =
    if target == ""
    then raises (missing_attach id')
    else if contains ids target
    then returns tt
    else raises (unknown_attach id' target)

abbrev pub check_probe : List String → Module → Try WireError (Unit {0})
check_probe ids m = if m.type' == "Probe" then check_attach ids m.id' m.attach_to else returns tt

unfoldable pub validate_probes : List Module → Try WireError (Unit {0})
unfolding module_ids
validate_probes modules = check_each (check_probe (module_ids modules)) modules

abbrev pub check_spillway_edge : List String → Edge → Try WireError (Unit {0})
check_spillway_edge ids e =
    if e.port == "spillway" && not (contains ids e.to_id)
    then raises (unknown_target e.from_id e.to_id)
    else returns tt

unfoldable pub validate_spillway_edges : List Module → List Edge → Try WireError (Unit {0})
unfolding module_ids
validate_spillway_edges modules edges = check_each (check_spillway_edge (module_ids modules)) edges

unfoldable pub active_regulator_ids : List Edge → List String
active_regulator_ids [] = []
active_regulator_ids (e ∷ es) =
    let rest = active_regulator_ids es in if e.port == "signal" then e.to_id ∷ rest else rest

unfoldable pub passive_regulator_ids : List String → List Module → List String
passive_regulator_ids active [] = []
passive_regulator_ids active (m ∷ ms) =
    let rest = passive_regulator_ids active ms in
    if m.type' == "Regulator" && not (contains active m.id') then m.id' ∷ rest else rest

-- `upstream_of.get(reg_id, [])` and `downstream_of.get(reg_id, [])`
unfoldable pub upstream_of : List Edge → String → List String
upstream_of edges reg_id =
    map (λ e. e.from_id) (filter (λ e. e.to_id == reg_id && e.port == "main") edges)

unfoldable pub downstream_of : List Edge → String → List String
downstream_of edges reg_id =
    map (λ e. e.to_id) (filter (λ e. e.from_id == reg_id && e.port == "main") edges)

abbrev pub main_edge : String → String → Edge
main_edge from_id to_id = record {
  from_id = from_id;
  to_id = to_id;
  port = "main";
  error_types = [];
}

unfoldable pub pair_up : List String → List String → List Edge
pair_up [] downs = []
pair_up (up ∷ ups) downs = map (main_edge up) downs ++ pair_up ups downs

unfoldable pub bypass_edges : List Edge → List String → List Edge
unfolding pair_up upstream_of downstream_of
bypass_edges edges [] = []
bypass_edges edges (reg_id ∷ reg_ids) =
    pair_up (upstream_of edges reg_id) (downstream_of edges reg_id) ++ bypass_edges edges reg_ids

abbrev pub passive_in : List Module → List Edge → List String
unfolding active_regulator_ids passive_regulator_ids
passive_in modules edges = passive_regulator_ids (active_regulator_ids edges) modules

-- With the ids to walk, in their order.
unfoldable pub without_passive :
    (List String → List String) → List Module → List Edge → List String → List Module × List Edge
unfolding bypass_edges
without_passive iterate modules edges [] = (modules, edges)
without_passive iterate modules edges (reg_id ∷ reg_ids) =
    let passive = reg_id ∷ reg_ids in
    (
      filter (λ m. not (contains passive m.id')) modules,
      filter (λ e. not (contains passive e.from_id) && not (contains passive e.to_id)) edges
          ++ bypass_edges edges (iterate passive),
    )

unfoldable pub compile_away_regulators :
    (List String → List String) → List Module → List Edge → List Module × List Edge
unfolding without_passive passive_in
compile_away_regulators iterate modules edges =
    without_passive iterate modules edges (passive_in modules edges)
