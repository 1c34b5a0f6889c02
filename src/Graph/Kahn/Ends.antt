-- ===== src/Graph/Kahn/Ends.antt =====
-- The loop ends within as many rounds as there are nodes, and what holds then.
use aqueduct_test.Base.{
  ◌≡◌, refl, ap, ◌∙◌, ℕ, zero, suc, ◌+◌, ◌≤◌, String, string_eq, if◌then◌else◌, eqb, inl, inr, some,
  List, [], ◌∷◌, ◌++◌, length, length-append, count, count-append, length-le_of_count, List-cases,
  arith,
}
use aqueduct_test.Graph.Arcs.{Arc, targets, open_arcs}
use aqueduct_test.Graph.Kahn.{
  Kahn, visit, next_round, if_empty, run, in_degrees, roots, start, kahn,
}
use aqueduct_test.Graph.Kahn.Invariant.{IsGraph, Inv, visit-Inv, relax-popped}

module _ (arcs : List Arc) (ids : List String) (g : IsGraph arcs ids) where
  pub popped_bound : (s : Kahn) → Inv arcs ids s → length s.popped + length s.queue ≤ length ids
  popped_bound s i = omega (
    arith,
    length-append s.popped s.queue,
    length-le_of_count (s.popped ++ s.queue) ids
        (λ v. ground (arith, i.seen v, count-append s.popped s.queue v)),
  )

  length-visit :
      (s : Kahn) (node : String) (rest : List String)
      → length (visit arcs s node rest).popped ≡ length s.popped + 1
  unfolding visit
  length-visit s node rest = omega (
    arith,
    ap length (
        relax-popped (targets arcs node)
          (record s { queue = rest; popped = s.popped ++ (node ∷ []) })),
    length-append s.popped (node ∷ []),
  )

  run_step :
      (fuel : ℕ) (s : Kahn) (node : String) (rest : List String)
      → s.queue ≡ node ∷ rest
      → run arcs (suc fuel) s ≡ run arcs fuel (visit arcs s node rest)
  unfolding run next_round
  run_step fuel s node rest e = simp (e, next_round)

  run-Ends :
      (fuel : ℕ) (s : Kahn)
      → Inv arcs ids s
      → length ids ≤ length s.popped + fuel
      → (t : Kahn) × (run arcs fuel s ≡ some t) × (t.queue ≡ []) × Inv arcs ids t
  unfolding run next_round
  run-Ends zero s i h = elim (List-cases s.queue) [
    | inl empty ↦ (s, simp (empty, if_empty), empty, i)
    | inr (node, rest, e) ↦ absurd (omega (arith, popped_bound s i, ap length e))
  ]
  run-Ends (suc fuel) s i h = elim (List-cases s.queue) [
    | inl empty ↦ (s, simp (empty, next_round), empty, i)
    | inr (node, rest, e) ↦
        let (t, ends, empty, it) =
          run-Ends fuel (visit arcs s node rest) (visit-Inv arcs ids g s node rest e i)
            (omega (arith, length-visit s node rest)) in
        (t, run_step fuel s node rest e ∙ ends, empty, it)
  ]

  in_degrees-open_arcs : (rest : List Arc) (v : String) → in_degrees rest v ≡ open_arcs rest [] v
  unfolding in_degrees open_arcs
  in_degrees-open_arcs [] v = refl
  in_degrees-open_arcs (a ∷ rest) v = ground (arith, in_degrees-open_arcs rest v)

  count-roots :
      (in_degree : String → ℕ) (vs : List String) (v : String)
      → count (roots in_degree vs) v ≡ (if eqb (in_degree v) 0 then count vs v else 0)
  unfolding roots
  count-roots in_degree [] v = ground arith
  count-roots in_degree (w ∷ vs) v = elim (string_eq.dec v w) [
    | yes p ↦ rw p (ground (arith, count-roots in_degree vs w))
    | no n ↦ ground (arith, count-roots in_degree vs v)
  ]

  start-Inv : Inv arcs ids (start arcs ids)
  unfolding start
  start-Inv = record {
    degrees = λ v. in_degrees-open_arcs arcs v;
    seen = λ v. omega (arith, count-roots (in_degrees arcs) ids v);
    forward = λ a m h. absurd (omega arith);
  }

  -- The algorithm ends, its queue is empty then, and its invariant holds.
  pub kahn_ends : (t : Kahn) × (kahn arcs ids ≡ some t) × (t.queue ≡ []) × Inv arcs ids t
  unfolding kahn start
  kahn_ends = run-Ends (length ids) (start arcs ids) start-Inv (omega arith)
