-- ===== src/Parser/Graph/Cycles.antt =====
-- What `detect_cycles` and `topological_order` find.
use aqueduct_test.Base.{
  ◌≡◌, refl, sym, subst, ap, ◌∙◌, ◌↔◌, ◌⊎◌, inl, inr, ◌+◌, ◌≤◌, ltb, String, string_eq,
  count-of_Member, length-append, List, [], ◌∷◌, ◌++◌, length, filter, All, Member, some, returns,
  raises, ◌>>=◌, Bool-cases, List-cases, here, arith,
}
use aqueduct_test.Graph.Arcs.{Arc}
use aqueduct_test.Graph.Walk.{IsBelowCycle}
use aqueduct_test.Graph.Kahn.{Kahn, kahn}
use aqueduct_test.Graph.Kahn.Invariant.{IsGraph, Inv}
use aqueduct_test.Graph.Kahn.Ends.{kahn_ends}
use aqueduct_test.Graph.Kahn.Taken.{
  left_iff, all_taken, all_taken-acyclic, acyclic-all_taken, all_taken-IsOrder, IsOrder,
}
use aqueduct_test.Parser.Models.{Module, Edge}
use aqueduct_test.Parser.Graph.{
  add_keys, module_ids, build_adjacency, remainder, detect_cycles, no_cycle, order_of,
  topological_order, cycle_detected,
}
use aqueduct_test.Parser.Graph.Built.{
  described_arcs, IsKnown, build_adjacency_iff, described_arcs-IsGraph,
}

length-add_keys :
    (keys : List String) (ms : List Module) → length (add_keys keys ms) ≤ length keys + length ms
unfolding add_keys
length-add_keys keys [] = omega arith
length-add_keys keys (m ∷ ms) = ground (
  arith,
  length-add_keys keys ms,
  length-add_keys (keys ++ (m.id' ∷ [])) ms,
  length-append keys (m.id' ∷ []),
)

length-module_ids : (ms : List Module) → length (module_ids ms) ≤ length ms
unfolding module_ids
length-module_ids ms = omega (arith, length-add_keys [] ms)

-- What `detect_cycles` makes of the end of the loop.
remainder_lem :
    (modules : List Module) (arcs : List Arc) (g : IsGraph arcs (module_ids modules)) (t : Kahn)
    (i : Inv arcs (module_ids modules) t)
    → t.queue ≡ []
    → (nodes : List String) × (remainder modules (some t) ≡ returns nodes)
      × ((v : String) → Member v nodes ↔ IsBelowCycle arcs v)
unfolding remainder module_ids
remainder_lem modules arcs g t i empty =
    let ids = module_ids modules in
    elim (Bool-cases (ltb (length t.popped) (length modules))) [
      | inl short ↦
          (filter (λ node. ltb 0 (t.in_degree node)) ids, simp short, left_iff arcs ids g t i empty)
      | inr long ↦
          let all = all_taken arcs ids g t i empty (ground (arith, length-module_ids modules)) in
          (
            [],
            simp long,
            λ v. (
              λ m. absurd (omega (arith, count-of_Member v [] m)),
              λ b. absurd (all_taken-acyclic arcs ids g t i empty all v b),
            ),
          )
    ]

module _ (modules : List Module) (edges : List Edge)
    (known : All (IsKnown (module_ids modules)) (described_arcs modules edges)) where
  built : build_adjacency modules edges ≡ returns (described_arcs modules edges)
  built = (build_adjacency_iff modules edges (described_arcs modules edges)).1 (refl, known)

  -- Where every end is a module, `detect_cycles` returns the modules that stand on a cycle or
  -- below one: a walk leads to them from a module that a walk leads back to.
  pub detect_cycles_lem :
      (nodes : List String) × (detect_cycles modules edges ≡ returns nodes)
      × ((v : String) → Member v nodes ↔ IsBelowCycle (described_arcs modules edges) v)
  unfolding detect_cycles
  detect_cycles_lem =
      let ids = module_ids modules in
      let g = described_arcs-IsGraph modules edges known in
      let (t, ends, empty, i) = kahn_ends (described_arcs modules edges) ids g in
      let (nodes, found, below) =
        remainder_lem modules (described_arcs modules edges) g t i empty in
      (
        nodes,
        ap (λ r. r >>= λ arcs. remainder modules (kahn arcs ids)) built
            ∙ ap (remainder modules) ends
            ∙ found,
        below,
      )

  -- Where every end is a module, `topological_order` returns all modules once, in an order in
  -- which each edge and each dependency leads on, or it raises the error of a cycle, with a module
  -- that stands on a cycle or below one.
  pub topological_order_lem :
      ((order : List String) × (topological_order modules edges ≡ returns order)
        × IsOrder (described_arcs modules edges) (module_ids modules) order)
      ⊎ ((node : String) × (nodes : List String) × (topological_order modules edges
            ≡ raises (cycle_detected (node ∷ nodes)))
          × IsBelowCycle (described_arcs modules edges) node)
  unfolding topological_order
  topological_order_lem =
      let ids = module_ids modules in
      let arcs = described_arcs modules edges in
      let g = described_arcs-IsGraph modules edges known in
      let (t, ends, empty, i) = kahn_ends arcs ids g in
      let (nodes, found, below) = detect_cycles_lem in
      let go_on = λ (passed : Unit {0}).
        build_adjacency modules edges >>= λ arcs'. order_of (kahn arcs' ids) in
      let from_nodes = ap (λ r. r >>= no_cycle >>= go_on) found in
      elim (List-cases nodes) [
        | inl none_left ↦
            let all = acyclic-all_taken arcs ids g t i empty (λ v b.
              absurd (
                omega
                  (arith, count-of_Member v [] (subst (Member v) none_left ((below v).1 b))))) in
            inl (
              t.popped,
              from_nodes
                  ∙ ap (λ ns. no_cycle ns >>= go_on) none_left
                  ∙ ap (λ r. r >>= λ arcs'. order_of (kahn arcs' ids)) built
                  ∙ ap order_of ends,
              all_taken-IsOrder arcs ids g t i empty all,
            )
        | inr (node, rest, e) ↦ inr (
          node,
          rest,
          from_nodes ∙ ap (λ ns. no_cycle ns >>= go_on) e,
          (below node).0 (subst (λ ns. Member node ns) (sym e) (here node rest)),
        )
      ]
