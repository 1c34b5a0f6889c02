-- ===== src/Executor/Order/Sorted.antt =====
-- What `_topo_sort` returns.
use mathlib.Core.List.{append_assoc, append-nil}
use aqueduct_test.Base.{
  ◌≡◌, refl, sym, inl, inr, ◌+◌, ◌≤◌, true, ◌&&◌, String, string_eq, if◌then◌else◌, contains, count,
  count_self, count-append, List, [], ◌∷◌, ◌++◌, length, All, All-of_Member, Member, here, there,
  some, returns, ℕ-cases, none, contains→count, arith,
}
use aqueduct_test.Graph.Arcs.{Arc}
use aqueduct_test.Graph.Kahn.Invariant.{IsGraph}
use aqueduct_test.Parser.Models.{Module, Edge}
use aqueduct_test.Parser.Graph.{add_keys, module_ids}
use aqueduct_test.Parser.Graph.Built.{module_ids_unique, known_once}
use aqueduct_test.Executor.Order.{
  is_data_edge, ids_of, or_first, find_module, given, modules_of, add_successors,
}

-- The arcs of the data edges into the modules.
abbrev pub data_arcs : List String → List Edge → List Arc
data_arcs ids [] = []
data_arcs ids (e ∷ es) =
    let rest = data_arcs ids es in
    if is_data_edge e && contains ids e.to_id
    then record { from_id = e.from_id; to_id = e.to_id } ∷ rest
    else rest

-- The arcs have both ends among the modules.
abbrev IsInside : List String → Arc → Type 0
IsInside ids a = (contains ids a.from_id ≡ true) × (contains ids a.to_id ≡ true)

-- The data edges into modules come from modules.
abbrev pub AreSourced : List String → List Edge → Type 0
AreSourced ids es = All (λ a. contains ids a.from_id ≡ true) (data_arcs ids es)

abbrev arc_of : Edge → Arc
arc_of e = record { from_id = e.from_id; to_id = e.to_id }

data_arcs-Inside :
    (ids : List String) (es : List Edge) → AreSourced ids es → All (IsInside ids) (data_arcs ids es)
data_arcs-Inside ids [] k = tt
data_arcs-Inside ids (e ∷ es) k = ground (arith, data_arcs-Inside ids es)

pub add_successors_sourced :
    (ids : List String) (arcs : List Arc) (es : List Edge)
    → AreSourced ids es
    → add_successors ids arcs es ≡ returns (arcs ++ data_arcs ids es)
unfolding add_successors
add_successors_sourced ids arcs [] k = simp append-nil
add_successors_sourced ids arcs (e ∷ es) k = ground (
  arith,
  add_successors_sourced ids arcs es,
  add_successors_sourced ids (arcs ++ (arc_of e ∷ [])) es,
  append_assoc arcs (arc_of e ∷ []) (data_arcs ids es),
)

add_keys-eq :
    (keys : List String) (ms : List Module)
    → ((v : String) → count keys v + count (ids_of ms) v ≤ 1)
    → add_keys keys ms ≡ keys ++ ids_of ms
unfolding add_keys
add_keys-eq keys [] h = sym (append-nil keys)
add_keys-eq keys (m ∷ ms) h = ground (
  arith,
  h m.id',
  contains→count keys m.id',
  count_self m.id' (ids_of ms),
  append_assoc keys (m.id' ∷ []) (ids_of ms),
  add_keys-eq (keys ++ (m.id' ∷ [])) ms (λ v. omega (arith, h v, count-append keys (m.id' ∷ []) v)),
)

find_module_absent :
    (modules : List Module) (mid : String)
    → count (ids_of modules) mid ≡ 0
    → find_module modules mid ≡ none
unfolding find_module
find_module_absent [] mid h = refl
find_module_absent (m ∷ ms) mid h = ground (arith, find_module_absent ms mid)

-- `module_map[mid]` finds a module of the list.
find_module_known :
    (modules : List Module) (mid : String)
    → 1 ≤ count (ids_of modules) mid
    → (m : Module) × (find_module modules mid ≡ some m) × (m.id' ≡ mid) × Member m modules
unfolding find_module
find_module_known [] mid h = absurd (omega arith)
find_module_known (m ∷ ms) mid h = elim (ℕ-cases (count (ids_of ms) mid)) [
  | inl last ↦ (m, ground (arith, find_module_absent ms mid last), ground arith, here m ms)
  | inr later ↦
      let (m', found, same, m_in) = find_module_known ms mid later in
      (m', simp (found, or_first), same, there m' m ms m_in)
]

pub modules_of_known :
    (modules : List Module) (mids : List String)
    → ((v : String) → 1 ≤ count mids v → 1 ≤ count (ids_of modules) v)
    → (order : List Module) × (modules_of modules mids ≡ returns order)
      × (ids_of order ≡ mids)
      × All (λ m. Member m modules) order
unfolding modules_of
modules_of_known modules [] h = ([], refl, refl, tt)
modules_of_known modules (mid ∷ mids) h =
    let (m, found, same, m_in) = find_module_known modules mid (h mid (count_self mid mids)) in
    let (order, rest, ids, all_in) = modules_of_known modules mids (λ v k. h v (omega arith)) in
    (m ∷ order, simp (found, given, rest), ground (arith, same, ids), (m_in, all_in))

pub length-ids_of : (ms : List Module) → length (ids_of ms) ≡ length ms
length-ids_of [] = refl
length-ids_of (m ∷ ms) = omega (arith, length-ids_of ms)

pub module_ids-eq :
    (modules : List Module)
    → ((v : String) → count (ids_of modules) v ≤ 1)
    → module_ids modules ≡ ids_of modules
unfolding module_ids
module_ids-eq modules h = add_keys-eq [] modules (λ v. omega (arith, h v))

pub data_arcs-IsGraph :
    (modules : List Module) (edges : List Edge)
    → AreSourced (module_ids modules) edges
    → IsGraph (data_arcs (module_ids modules) edges) (module_ids modules)
data_arcs-IsGraph modules edges k = record {
  unique = module_ids_unique modules;
  known = λ a m.
      let ids = module_ids modules in
      let (from, to) =
        All-of_Member (IsInside ids) a (data_arcs ids edges) (data_arcs-Inside ids edges k) m in
      (known_once modules a.from_id from, known_once modules a.to_id to);
}
