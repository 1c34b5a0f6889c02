-- ===== src/Executor/Order/Cycles.antt =====
-- How `_topo_sort` ends: with an order, or with the modules that remain.
use aqueduct_test.Base.{
  ◌≡◌, sym, subst, ap, ◌∙◌, ◌↔◌, ◌⊎◌, inl, inr, ◌≤◌, eqb, not, String, string_eq, contains,
  contains→count, absent→count, count, count-of_Member, Member-of_count, count-filter,
  length-le_of_count, List, [], length, filter, All, Member, here, returns, raises, ◌>>=◌,
  Bool-cases, List-cases, arith,
}
use aqueduct_test.Graph.Arcs.{Arc}
use aqueduct_test.Graph.Walk.{IsBelowCycle}
use aqueduct_test.Graph.Kahn.{Kahn, kahn}
use aqueduct_test.Graph.Kahn.Invariant.{IsGraph, Inv}
use aqueduct_test.Graph.Kahn.Ends.{kahn_ends}
use aqueduct_test.Graph.Kahn.Cycles.{untaken_iff}
use aqueduct_test.Graph.Kahn.Taken.{IsOrder, inside, Walk-known, all_taken, all_taken-IsOrder}
use aqueduct_test.Parser.Models.{Module, Edge}
use aqueduct_test.Parser.Graph.{module_ids}
use aqueduct_test.Executor.Order.{
  cycle_in_manifest, ids_of, modules_of, all_sorted, taken, topo_sort,
}
use aqueduct_test.Executor.Order.Sorted.{
  data_arcs, AreSourced, data_arcs-IsGraph, add_successors_sourced, modules_of_known, length-ids_of,
  module_ids-eq,
}

-- The modules that the error names, where an order lacks them.
abbrev remaining : List Module → List String → List String
remaining modules order = filter (λ mid. not (contains order mid)) (module_ids modules)

module _ (modules : List Module) (arcs : List Arc) (g : IsGraph arcs (module_ids modules))
    (t : Kahn) (i : Inv arcs (module_ids modules) t) (empty : t.queue ≡ []) where
  remaining_iff : (v : String) → Member v (remaining modules t.popped) ↔ IsBelowCycle arcs v
  remaining_iff v =
      let ids = module_ids modules in
      let counted = count-filter (λ mid. not (contains t.popped mid)) ids v in
      (
        λ m.
            let h = count-of_Member v (remaining modules t.popped) m in
            (untaken_iff arcs ids g t i empty v (ground (arith, g.unique v))).0
              (ground (arith, absent→count t.popped v)),
        λ b.
            let known = Walk-known arcs ids g t i empty b.root v b.leads in
            let left = (untaken_iff arcs ids g t i empty v known).1 b in
            Member-of_count v (remaining modules t.popped)
              (ground (arith, contains→count t.popped v)),
      )

  -- With none remaining, the order has all.
  none_remains : remaining modules t.popped ≡ [] → length (module_ids modules) ≡ length t.popped
  none_remains none_left =
      let ids = module_ids modules in
      let within : (v : String) → count ids v ≤ count t.popped v = λ v. ground (
        arith,
        g.unique v,
        absent→count t.popped v,
        contains→count t.popped v,
        count-filter (λ mid. not (contains t.popped mid)) ids v,
        ap (λ xs. count xs v) none_left,
      ) in
      omega (
        arith,
        length-le_of_count ids t.popped within,
        length-le_of_count t.popped ids (inside arcs ids g t i empty),
      )

  all_sorted-Outcome :
      (order : List Module)
      → ids_of order ≡ t.popped
      → length (module_ids modules) ≡ length modules
      → ((all_sorted modules order ≡ returns order) × IsOrder arcs (module_ids modules) t.popped)
        ⊎ ((nodes : List String) × (all_sorted modules order ≡ raises (cycle_in_manifest nodes))
            × ((v : String) → Member v nodes ↔ IsBelowCycle arcs v)
            × (v : String) × IsBelowCycle arcs v)
  unfolding all_sorted
  all_sorted-Outcome order same long =
      let ids = module_ids modules in
      let as_long : length order ≡ length t.popped = sym (length-ids_of order) ∙ ap length same in
      elim (Bool-cases (eqb (length order) (length modules))) [
        | inl whole ↦ inl (
          simp whole,
          all_taken-IsOrder arcs ids g t i empty (all_taken arcs ids g t i empty (ground arith)),
        )
        | inr short ↦ elim (List-cases (remaining modules t.popped)) [
          | inl none_left ↦ absurd (ground (arith, none_remains none_left))
          | inr (v, vs, e) ↦ inr (
            remaining modules t.popped,
            simp (short, same),
            remaining_iff,
            v,
            (remaining_iff v).0 (subst (Member v) (sym e) (here v vs)),
          )
        ]
      ]

-- If the ids of the modules differ and every data edge into a module comes from a module, then
-- `_topo_sort` returns modules of the list whose ids are all of its ids once, in an order in which
-- each of these edges leads on, or it raises the error with the modules on a cycle or below one,
-- of which there are some.
pub topo_sort_lem :
    (modules : List Module) (edges : List Edge)
    → ((v : String) → count (ids_of modules) v ≤ 1)
    → AreSourced (module_ids modules) edges
    → ((order : List Module) × (topo_sort modules edges ≡ returns order)
        × IsOrder (data_arcs (module_ids modules) edges) (module_ids modules) (ids_of order)
        × All (λ m. Member m modules) order)
      ⊎ ((nodes : List String) × (topo_sort modules edges ≡ raises (cycle_in_manifest nodes))
          × ((v : String) → Member v nodes ↔ IsBelowCycle (data_arcs (module_ids modules) edges) v)
          × (v : String) × IsBelowCycle (data_arcs (module_ids modules) edges) v)
unfolding topo_sort
topo_sort_lem modules edges unique sourced =
    let ids = module_ids modules in
    let arcs = data_arcs ids edges in
    let g = data_arcs-IsGraph modules edges sourced in
    let (t, ends, empty, i) = kahn_ends arcs ids g in
    let as_ids = module_ids-eq modules unique in
    let (order, found, same, all_in) =
      modules_of_known modules t.popped
        (λ v h. omega (arith, inside arcs ids g t i empty v, ap (λ xs. count xs v) as_ids)) in
    let go_on = λ (popped : List String). modules_of modules popped >>= all_sorted modules in
    let sorted : topo_sort modules edges ≡ all_sorted modules order =
      ap (λ r. r >>= λ arcs'. taken (kahn arcs' ids) >>= go_on)
        (add_successors_sourced ids [] edges sourced)
      ∙ ap (λ r. taken r >>= go_on) ends
      ∙ ap (λ r. r >>= all_sorted modules) found in
    elim (all_sorted-Outcome modules arcs g t i empty order same
      (ap length as_ids ∙ length-ids_of modules)) [
        | inl (whole, is_order) ↦
            inl (order, sorted ∙ whole, subst (IsOrder arcs ids) (sym same) is_order, all_in)
        | inr (nodes, raised, below, v, is_below) ↦ inr (nodes, sorted ∙ raised, below, v, is_below)
      ]
