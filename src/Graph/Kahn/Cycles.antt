-- ===== src/Graph/Kahn/Cycles.antt =====
-- The nodes that Kahn's algorithm never takes are those below a cycle.
use aqueduct_test.Base.{
  ◌≡◌, refl, sym, subst, ap, ◌∙◌, ℕ, zero, suc, ◌+◌, ◌≤◌, ◌<◌, String, string_eq, ◌⊎◌, inl, inr,
  ◌↔◌, List, [], ◌∷◌, length, count, length-le_of_count, Member, index_of, index_of-lt,
  index_of_absent, ℕ-cases, arith,
}
use aqueduct_test.Graph.Arcs.{Arc, open_source}
use aqueduct_test.Graph.Walk.{Walk, one, more, Walk-cons, IsBelowCycle}
use aqueduct_test.Graph.Kahn.{Kahn}
use aqueduct_test.Graph.Kahn.Invariant.{IsGraph, Inv}

module _ (arcs : List Arc) (ids : List String) (g : IsGraph arcs ids) (t : Kahn)
    (i : Inv arcs ids t) where
  -- Among the nodes taken, an arc leads from an earlier one.
  source_taken :
      (u v : String) (a : Arc)
      → Member a arcs
      → a.from_id ≡ u
      → a.to_id ≡ v
      → 1 ≤ count t.popped v
      → (1 ≤ count t.popped u) × (index_of t.popped u < index_of t.popped v)
  source_taken u v a m from to h =
      let later = i.forward a m (subst (λ w. 1 ≤ count t.popped w) (sym to) h) in
      let later' : index_of t.popped u < index_of t.popped v =
        subst (λ x. index_of t.popped x < index_of t.popped v) from
          (subst (λ x. index_of t.popped a.from_id < index_of t.popped x) to later) in
      (ground (arith, later', index_of-lt t.popped v h, index_of_absent t.popped u), later')

  -- So is the start of a walk.
  Walk-forward :
      (u v : String)
      → Walk arcs u v
      → 1 ≤ count t.popped v
      → (1 ≤ count t.popped u) × (index_of t.popped u < index_of t.popped v)
  Walk-forward u _ (one v a m from to) h = source_taken u v a m from to h
  Walk-forward u _ (more x v a walk m from to) h =
      let (taken, later) = source_taken x v a m from to h in
      let (first, before) = Walk-forward u x walk taken in (first, omega arith)

  pub below_cycle_untaken : (v : String) → IsBelowCycle arcs v → count t.popped v ≡ 0
  below_cycle_untaken v b =
      ground (arith, Walk-forward b.root v b.leads, Walk-forward b.root b.root b.cycle)

  module _ (empty : t.queue ≡ []) where
    -- A node left over has an arc from another node left over.
    left_source :
        (v : String)
        → count ids v ≡ 1
        → count t.popped v ≡ 0
        → (a : Arc) × Member a arcs × (a.to_id ≡ v) × (count t.popped a.from_id ≡ 0)
    left_source v here_v left =
        open_source arcs t.popped v
          (ground (arith, i.seen v, i.degrees v, ap (λ q. count q v) empty))

    inside_cons :
        (p : String) (trail : List String)
        → count ids p ≡ 1
        → count trail p ≡ 0
        → ((x : String) → count trail x ≤ count ids x)
        → (x : String) → count (p ∷ trail) x ≤ count ids x
    inside_cons p trail here_p new inside x = elim (string_eq.dec x p) [
      | yes e ↦ rw e (ground (arith, inside p))
      | no n ↦ ground (arith, inside x)
    ]

    walks_cons :
        (u : String) (trail : List String) (a : Arc)
        → Member a arcs
        → a.to_id ≡ u
        → ((x : String) → 1 ≤ count trail x → Walk arcs u x)
        → (x : String) → 1 ≤ count (u ∷ trail) x
        → Walk arcs a.from_id x
    walks_cons u trail a m to walks x h = elim (string_eq.dec x u) [
      | yes e ↦ one x a m refl (to ∙ sym e)
      | no n ↦ Walk-cons arcs a.from_id u a m refl to (walks x (ground arith))
    ]

    leads_cons :
        (u v : String) (a : Arc)
        → Member a arcs
        → a.to_id ≡ u
        → (u ≡ v) ⊎ Walk arcs u v
        → Walk arcs a.from_id v
    leads_cons u v a m to (inl e) = one v a m refl (to ∙ e)
    leads_cons u v a m to (inr walk) = Walk-cons arcs a.from_id u a m refl to walk

    -- Backwards from a node left over, until a node comes up again.
    backwards :
        (fuel : ℕ) (v u : String) (trail : List String)
        → count t.popped u ≡ 0
        → count ids u ≡ 1
        → ((x : String) → count (u ∷ trail) x ≤ count ids x)
        → ((x : String) → 1 ≤ count trail x → Walk arcs u x)
        → (u ≡ v) ⊎ Walk arcs u v
        → length ids ≤ length (u ∷ trail) + fuel
        → IsBelowCycle arcs v
    backwards zero v u trail left here_u inside walks to_v enough =
        let (a, m, to, left_a) = left_source u here_u left in
        let p = a.from_id in
        record {
          root = p;
          cycle = walks_cons u trail a m to walks p (
              ground (
                arith,
                (g.known a m).0,
                length-le_of_count (p ∷ u ∷ trail) ids,
                inside_cons p (u ∷ trail) (g.known a m).0,
                inside p,
              ));
          leads = leads_cons u v a m to to_v;
        }
    backwards (suc fuel) v u trail left here_u inside walks to_v enough =
        let (a, m, to, left_a) = left_source u here_u left in
        let p = a.from_id in
        elim (ℕ-cases (count (u ∷ trail) p)) [
          | inr again ↦ record {
            root = p;
            cycle = walks_cons u trail a m to walks p again;
            leads = leads_cons u v a m to to_v;
          }
          | inl new ↦
              backwards fuel v p (u ∷ trail) left_a (g.known a m).0
                (inside_cons p (u ∷ trail) (g.known a m).0 new inside)
                (walks_cons u trail a m to walks) (inr (leads_cons u v a m to to_v)) (omega arith)
        ]

    untaken-IsBelowCycle :
        (v : String) → count ids v ≡ 1 → count t.popped v ≡ 0 → IsBelowCycle arcs v
    untaken-IsBelowCycle v here_v left =
        backwards (length ids) v v [] left here_v (inside_cons v [] here_v refl (λ x. omega arith))
          (λ x h. absurd (omega arith)) (inl refl) (omega arith)

    -- A node is left over exactly when it stands on a cycle or below one.
    pub untaken_iff : (v : String) → count ids v ≡ 1 → (count t.popped v ≡ 0) ↔ IsBelowCycle arcs v
    untaken_iff v here_v = (untaken-IsBelowCycle v here_v, below_cycle_untaken v)
