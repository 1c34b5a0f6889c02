-- ===== src/Executor/Order/Execution.antt =====
-- The execution order of a manifest.
use aqueduct_test.Base.{
  ◌≡◌, subst, ap, ◌∙◌, ◌↔◌, ◌⊎◌, inl, inr, ◌+◌, ◌≤◌, ◌<◌, true, not, String, string_eq, count,
  index_of, some, List, [], ◌∷◌, filter, Member, Member-filter, returns, raises, ◌>>=◌, arith,
}
use aqueduct_test.Graph.Arcs.{Arc}
use aqueduct_test.Graph.Walk.{IsBelowCycle}
use aqueduct_test.Graph.Kahn.Invariant.{IsGraph}
use aqueduct_test.Graph.Kahn.Taken.{IsOrder}
use aqueduct_test.Parser.Models.{Module, Edge}
use aqueduct_test.Parser.Graph.{module_ids}
use aqueduct_test.Executor.Order.{
  cycle_in_manifest, ids_of, is_probe, Groups, group, probes_at, all_probes, insert_probes,
  build_execution_order,
}
use aqueduct_test.Executor.Order.Sorted.{data_arcs, AreSourced, module_ids-eq, data_arcs-IsGraph}
use aqueduct_test.Executor.Order.Cycles.{topo_sort_lem}
use aqueduct_test.Executor.Order.Groups.{count-group, probes_at-group}
use aqueduct_test.Executor.Order.Probes.{
  AreDistinct, placed, count-placed, placed_forward, placed_behind, placed_before,
}

abbrev pub non_probes : List Module → List Module
non_probes modules = filter (λ m. not (is_probe m)) modules

abbrev pub flow : List Module → List Edge → List Arc
flow modules edges = data_arcs (module_ids (non_probes modules)) edges

-- A probe of the manifest that is attached to a module which is no probe.
pub record IsAttached (modules : List Module) (p : Module) (u : String) : Type 0 where
  pub listed : Member p modules
  pub probe : is_probe p ≡ true
  pub attached : p.attach_to ≡ some u
  pub known : 1 ≤ count (ids_of (non_probes modules)) u

pub record IsExecutionOrder (modules : List Module) (edges : List Edge) (order : List String)
    : Type 0 where
  pub complete : (v : String) → count order v ≡ count (ids_of modules) v
  pub forward :
      (a : Arc) → Member a (flow modules edges) → index_of order a.from_id < index_of order a.to_id
  pub behind :
      (p : Module) (u : String) → IsAttached modules p u → index_of order u < index_of order p.id'
  pub before :
      (p : Module) (a : Arc)
      → Member a (flow modules edges)
      → IsAttached modules p a.from_id
      → index_of order p.id' < index_of order a.to_id

count-parts :
    (modules : List Module) (v : String)
    → count (ids_of (non_probes modules)) v + count (ids_of (filter is_probe modules)) v
      ≡ count (ids_of modules) v
count-parts [] v = omega arith
count-parts (m ∷ ms) v = ground (arith, count-parts ms v)

module _ (modules : List Module) (edges : List Edge)
    (unique : (v : String) → count (ids_of modules) v ≤ 1)
    (g : IsGraph (flow modules edges) (module_ids (non_probes modules))) (order : List Module)
    (o : IsOrder (flow modules edges) (module_ids (non_probes modules)) (ids_of order)) where
  abbrev groups : Groups
  unfolding group
  groups = group [] (filter is_probe modules)

  as_ids : module_ids (non_probes modules) ≡ ids_of (non_probes modules)
  as_ids = module_ids-eq (non_probes modules) (λ v. omega (arith, unique v, count-parts modules v))

  count-order : (v : String) → count (ids_of order) v ≡ count (ids_of (non_probes modules)) v
  count-order v = o.complete v ∙ ap (λ ids. count ids v) as_ids

  count-groups :
      (v : String)
      → count (ids_of (all_probes groups)) v ≡ count (ids_of (filter is_probe modules)) v
  unfolding all_probes groups
  count-groups v = omega (arith, count-group [] (filter is_probe modules) v)

  distinct : AreDistinct order groups
  distinct v = omega (arith, unique v, count-parts modules v, count-order v, count-groups v)

  target_placed : (a : Arc) → Member a (flow modules edges) → 1 ≤ count (ids_of order) a.to_id
  target_placed a m = omega (arith, (g.known a m).1, o.complete a.to_id)

  in_group :
      (p : Module) (u : String)
      → IsAttached modules p u
      → 1 ≤ count (ids_of (probes_at (some u) groups)) p.id'
  unfolding groups
  in_group p u at =
      subst (λ key. 1 ≤ count (ids_of (probes_at key groups)) p.id') at.attached
        (probes_at-group [] (filter is_probe modules) p
          (Member-filter is_probe p modules at.listed at.probe))

  inserted-IsExecutionOrder : IsExecutionOrder modules edges (placed order groups)
  inserted-IsExecutionOrder = record {
    complete = λ v.
        omega (
          arith,
          count-placed order groups v,
          count-order v,
          count-groups v,
          count-parts modules v,
        );
    forward = λ a m.
        placed_forward order groups a.from_id a.to_id distinct (target_placed a m) (o.forward a m);
    behind = λ p u at.
        placed_behind order groups u p.id' distinct (omega (arith, count-order u, at.known))
          (in_group p u at);
    before = λ p a m at.
        placed_before order groups a.from_id p.id' a.to_id distinct (in_group p a.from_id at)
          (target_placed a m) (o.forward a m);
  }

-- If the ids of the manifest differ and each data edge into a module that is no probe comes from
-- such a module, then `_build_execution_order` returns an order of all modules: each of these
-- edges leads on; a probe attached to a module that is no probe comes behind it, and before every
-- module to which such an edge leads from there. Or it raises the error with the modules on a
-- cycle or below one, of which there are some.
pub build_execution_order_lem :
    (modules : List Module) (edges : List Edge)
    → ((v : String) → count (ids_of modules) v ≤ 1)
    → AreSourced (module_ids (non_probes modules)) edges
    → ((order : List Module) × (build_execution_order modules edges ≡ returns order)
        × IsExecutionOrder modules edges (ids_of order))
      ⊎ ((nodes : List String) × (build_execution_order modules edges
            ≡ raises (cycle_in_manifest nodes))
          × ((v : String) → Member v nodes ↔ IsBelowCycle (flow modules edges) v)
          × (v : String) × IsBelowCycle (flow modules edges) v)
unfolding build_execution_order
build_execution_order_lem modules edges unique sourced =
    let go_on =
      λ (order : List Module). returns (insert_probes order (group [] (filter is_probe modules))) in
    let part : (v : String) → count (ids_of (non_probes modules)) v ≤ 1 =
      λ v. omega (arith, unique v, count-parts modules v) in
    elim (topo_sort_lem (non_probes modules) edges part sourced) [
      | inl (order, sorted, is_order, _) ↦ inl (
        insert_probes order (group [] (filter is_probe modules)),
        ap (λ r. r >>= go_on) sorted,
        inserted-IsExecutionOrder modules edges unique
            (data_arcs-IsGraph (non_probes modules) edges sourced) order is_order,
      )
      | inr (nodes, raised, below, v, is_below) ↦
          inr (nodes, ap (λ r. r >>= go_on) raised, below, v, is_below)
    ]
