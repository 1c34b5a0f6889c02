-- ===== src/Executor/Order.antt =====
-- aqueduct/executor/spark/executor.py: `_is_data_edge`, `_topo_sort` and
-- `_build_execution_order`. The dicts of successors and in-degrees are kept as the list of the
-- arcs added to both; `probes_by_attach` is an association list in the order of its keys.
pub mod Sorted
pub mod Cycles
pub mod Groups
pub mod Probes
pub mod Execution
mod Tests
use aqueduct_test.Base.{
  ℕ, eqb, Bool, true, false, not, ◌&&◌, String, string_eq, Eq, ◌==◌, if◌then◌else◌, contains,
  Option, none, some, List, [], ◌∷◌, ◌++◌, length, filter, Try, returns, raises, ◌>>=◌,
}
use aqueduct_test.Graph.Arcs.{Arc}
use aqueduct_test.Graph.Kahn.{Kahn, kahn}
use aqueduct_test.Parser.Models.{Module, Edge}
use aqueduct_test.Parser.Graph.{module_ids}

-- A `KeyError`, or the `ExecuteError` with the modules that remain. `out_of_rounds` stands for a
-- loop that would not have ended.
pub data OrderError : Type 0 where
  key_error : String → OrderError
  cycle_in_manifest : List String → OrderError
  out_of_rounds : OrderError

abbrev pub is_data_edge : Edge → Bool
is_data_edge e = not (e.port == "signal")

abbrev pub ids_of : List Module → List String
ids_of [] = []
ids_of (m ∷ ms) = m.id' ∷ ids_of ms

-- `module_map[mid]`: the last module with the id.
abbrev pub or_first : Module → String → Option Module → Option Module
or_first m mid (some later) = some later
or_first m mid none = if m.id' == mid then some m else none

unfoldable pub find_module : List Module → String → Option Module
find_module [] mid = none
find_module (m ∷ ms) mid = or_first m mid (find_module ms mid)

abbrev pub given : String → Option Module → Try OrderError Module
given mid none = raises (key_error mid)
given mid (some m) = returns m

unfoldable pub modules_of : List Module → List String → Try OrderError (List Module)
unfolding find_module
modules_of modules [] = returns []
modules_of modules (mid ∷ mids) = given mid (find_module modules mid) >>= λ m.
    modules_of modules mids >>= λ rest. returns (m ∷ rest)

unfoldable pub add_successors : List String → List Arc → List Edge → Try OrderError (List Arc)
add_successors ids arcs [] = returns arcs
add_successors ids arcs (e ∷ es) =
    let a : Arc = record { from_id = e.from_id; to_id = e.to_id } in
    let added = add_successors ids (arcs ++ (a ∷ [])) es in
    let skipped = add_successors ids arcs es in
    if is_data_edge e && contains ids e.to_id
    then (if contains ids e.from_id then added else raises (key_error e.from_id))
    else skipped

unfoldable pub all_sorted : List Module → List Module → Try OrderError (List Module)
unfolding module_ids
all_sorted modules order =
    if eqb (length order) (length modules)
    then returns order
    else raises
        (cycle_in_manifest (filter (λ mid. not (contains (ids_of order) mid)) (module_ids modules)))

abbrev pub taken : Option Kahn → Try OrderError (List String)
taken none = raises out_of_rounds
taken (some t) = returns t.popped

unfoldable pub topo_sort : List Module → List Edge → Try OrderError (List Module)
unfolding add_successors module_ids kahn modules_of all_sorted
topo_sort modules edges = add_successors (module_ids modules) [] edges >>= λ arcs.
    taken (kahn arcs (module_ids modules)) >>= λ popped.
    modules_of modules popped >>= λ order. all_sorted modules order

abbrev pub is_probe : Module → Bool
is_probe m = m.type' == "Probe"

-- `probes_by_attach`
abbrev pub Groups : Type 0
Groups = List (Option String × List Module)

abbrev pub same_key : Option String → Option String → Bool
same_key none none = true
same_key (some a) (some b) = a == b
same_key _ _ = false

unfoldable pub add_probe : Option String → Module → Groups → Groups
add_probe key probe [] = (key, probe ∷ []) ∷ []
add_probe key probe ((k, probes) ∷ groups) =
    let rest = add_probe key probe groups in
    if same_key key k then (k, probes ++ (probe ∷ [])) ∷ groups else (k, probes) ∷ rest

unfoldable pub group : Groups → List Module → Groups
unfolding add_probe
group groups [] = groups
group groups (probe ∷ probes) = group (add_probe probe.attach_to probe groups) probes

-- `probes_by_attach.pop(key, [])`: the probes, and the dict without the key.
unfoldable pub probes_at : Option String → Groups → List Module
probes_at key [] = []
probes_at key ((k, probes) ∷ groups) =
    let rest = probes_at key groups in if same_key key k then probes else rest

unfoldable pub without : Option String → Groups → Groups
without key [] = []
without key ((k, probes) ∷ groups) =
    let rest = without key groups in if same_key key k then groups else (k, probes) ∷ rest

unfoldable pub all_probes : Groups → List Module
all_probes [] = []
all_probes ((k, probes) ∷ groups) = probes ++ all_probes groups

unfoldable pub insert_probes : List Module → Groups → List Module
unfolding probes_at without all_probes
insert_probes [] groups = all_probes groups
insert_probes (m ∷ ms) groups =
    m ∷ (probes_at (some m.id') groups ++ insert_probes ms (without (some m.id') groups))

unfoldable pub build_execution_order : List Module → List Edge → Try OrderError (List Module)
unfolding topo_sort group insert_probes
build_execution_order modules edges =
    topo_sort (filter (λ m. not (is_probe m)) modules) edges >>= λ order.
    returns (insert_probes order (group [] (filter is_probe modules)))
