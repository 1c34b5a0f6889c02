-- ===== src/Graph/Kahn/Taken.antt =====
-- What Kahn's algorithm has taken when it ends, and what it leaves.
use aqueduct_test.Base.{
  ◌≡◌, sym, subst, ap, ◌∙◌, ◌↔◌, inl, inr, ◌≤◌, ◌<◌, ltb, eqb, String, string_eq, if◌then◌else◌,
  count, count-filter, count-of_Member, Member-of_count, count-le_of_length, index_of, List, [],
  length, filter, Member, ℕ-cases, arith,
}
use aqueduct_test.Graph.Arcs.{Arc}
use aqueduct_test.Graph.Walk.{Walk, one, more, IsBelowCycle}
use aqueduct_test.Graph.Kahn.{Kahn}
use aqueduct_test.Graph.Kahn.Invariant.{IsGraph, Inv}
use aqueduct_test.Graph.Kahn.Cycles.{untaken_iff, below_cycle_untaken}

-- The nodes in an order in which each arc leads on.
pub record IsOrder (arcs : List Arc) (ids order : List String) : Type 0 where
  pub complete : (v : String) → count order v ≡ count ids v
  pub forward : (a : Arc) → Member a arcs → index_of order a.from_id < index_of order a.to_id

-- What is left over when the loop has ended, for any graph.
module _ (arcs : List Arc) (ids : List String) (g : IsGraph arcs ids) (t : Kahn)
    (i : Inv arcs ids t) (empty : t.queue ≡ []) where
  pub Walk-known : (u v : String) → Walk arcs u v → count ids v ≡ 1
  Walk-known u _ (one v a m _ to) = subst (λ w. count ids w ≡ 1) to (g.known a m).1
  Walk-known u _ (more _ v a _ m _ to) = subst (λ w. count ids w ≡ 1) to (g.known a m).1

  taken : (v : String) → count t.popped v ≡ (if eqb (t.in_degree v) 0 then count ids v else 0)
  taken v = omega (arith, i.seen v, ap (λ q. count q v) empty)

  pub left_iff :
      (v : String) → Member v (filter (λ node. ltb 0 (t.in_degree node)) ids) ↔ IsBelowCycle arcs v
  left_iff v =
      let counted = count-filter (λ node. ltb 0 (t.in_degree node)) ids v in
      (
        λ m.
            let h = count-of_Member v (filter (λ node. ltb 0 (t.in_degree node)) ids) m in
            let here_v : count ids v ≡ 1 = ground (arith, g.unique v) in
            (untaken_iff arcs ids g t i empty v here_v).0 (ground (arith, taken v)),
        λ b. Member-of_count v (filter (λ node. ltb 0 (t.in_degree node)) ids) (
            ground (
              arith,
              taken v,
              Walk-known b.root v b.leads,
              below_cycle_untaken arcs ids g t i v b,
            )),
      )

  pub inside : (v : String) → count t.popped v ≤ count ids v
  inside v = ground (arith, taken v)

  pub all_taken : length ids ≤ length t.popped → (v : String) → count t.popped v ≡ count ids v
  all_taken long v = omega (arith, inside v, count-le_of_length t.popped ids inside long v)

  pub all_taken-acyclic :
      ((v : String) → count t.popped v ≡ count ids v) → (v : String) → ¬ IsBelowCycle arcs v
  all_taken-acyclic all v b =
      omega (arith, all v, Walk-known b.root v b.leads, below_cycle_untaken arcs ids g t i v b)

  pub acyclic-all_taken :
      ((v : String) → ¬ IsBelowCycle arcs v) → (v : String) → count t.popped v ≡ count ids v
  acyclic-all_taken none_below v = elim (ℕ-cases (count t.popped v)) [
    | inr some_taken ↦ ground (arith, inside v, g.unique v)
    | inl left ↦ elim (ℕ-cases (count ids v)) [
      | inl absent ↦ left ∙ sym absent
      | inr here_v ↦
          absurd
            (none_below v ((untaken_iff arcs ids g t i empty v (omega (arith, g.unique v))).0 left))
    ]
  ]

  pub all_taken-IsOrder :
      ((v : String) → count t.popped v ≡ count ids v) → IsOrder arcs ids t.popped
  all_taken-IsOrder all = record {
    complete = all;
    forward = λ a m. i.forward a m (omega (arith, all a.to_id, (g.known a m).1));
  }
