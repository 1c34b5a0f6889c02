-- ===== src/Graph/Kahn/Invariant.antt =====
-- What each round of Kahn's algorithm keeps.
use aqueduct_test.Base.{
  ◌≡◌, refl, sym, ap, ◌∙◌, ℕ, ◌+◌, ◌≤◌, String, string_eq, if◌then◌else◌, eqb, List, [], ◌∷◌, ◌++◌,
  count, count-append, count_self, index_of, index_of-lt, index_of_absent, index_of-append,
  index_of_last, Member, ◌<◌, subst, arith,
}
use aqueduct_test.Graph.Arcs.{
  Arc, targets, open_arcs, open_arcs-append, source_of_open_arcs, target_arc,
}
use aqueduct_test.Graph.Kahn.{Kahn, relax, visit}

-- Inside a round the arcs of the node taken are counted down one by one: `fixed` is what remains
-- of each degree behind the targets `vs` that are still to come.
record Counts (ids : List String) (fixed : String → ℕ) (vs : List String) (s : Kahn) : Type 0 where
  degrees : (v : String) → s.in_degree v ≡ fixed v + count vs v
  seen :
      (v : String)
      → count s.popped v + count s.queue v ≡ (if eqb (s.in_degree v) 0 then count ids v else 0)

relax-Counts :
    (ids : List String) (fixed : String → ℕ) (vs : List String) (s : Kahn)
    → ((v : String) → 1 ≤ count vs v → count ids v ≡ 1)
    → Counts ids fixed vs s
    → Counts ids fixed [] (relax vs s)
unfolding relax
relax-Counts ids fixed [] s known c = c
relax-Counts ids fixed (v ∷ vs) s known c =
    relax-Counts ids fixed vs _ (λ w h. known w (omega arith))
      record {
        degrees = λ w. ground (arith, c.degrees w, known v);
        seen = λ w.
            ground
              (arith, c.degrees w, c.degrees v, c.seen w, known v, count-append s.queue (v ∷ []) w);
      }

pub relax-popped : (vs : List String) (s : Kahn) → (relax vs s).popped ≡ s.popped
unfolding relax
relax-popped [] s = refl
relax-popped (v ∷ vs) s = relax-popped vs _

-- Arcs end in the keys, and the keys are without duplicates.
pub record IsGraph (arcs : List Arc) (ids : List String) : Type 0 where
  pub unique : (v : String) → count ids v ≤ 1
  pub known : (a : Arc) → Member a arcs → (count ids a.from_id ≡ 1) × (count ids a.to_id ≡ 1)

-- Each degree counts the arcs from nodes not taken yet; a node is taken or queued exactly when its
-- degree is 0; and among the nodes taken each arc leads on.
pub record Inv (arcs : List Arc) (ids : List String) (s : Kahn) : Type 0 where
  pub degrees : (v : String) → s.in_degree v ≡ open_arcs arcs s.popped v
  pub seen :
      (v : String)
      → count s.popped v + count s.queue v ≡ (if eqb (s.in_degree v) 0 then count ids v else 0)
  pub forward :
      (a : Arc)
      → Member a arcs
      → 1 ≤ count s.popped a.to_id
      → index_of s.popped a.from_id < index_of s.popped a.to_id

module _ (arcs : List Arc) (ids : List String) (g : IsGraph arcs ids) where
  forward-append :
      (popped : List String) (node : String)
      → count popped node ≡ 0
      → open_arcs arcs popped node ≡ 0
      → ((a : Arc)
          → Member a arcs
          → 1 ≤ count popped a.to_id
          → index_of popped a.from_id < index_of popped a.to_id)
      → (a : Arc) → Member a arcs
      → 1 ≤ count (popped ++ (node ∷ [])) a.to_id
      → index_of (popped ++ (node ∷ [])) a.from_id < index_of (popped ++ (node ∷ [])) a.to_id
  forward-append popped node new closed old a m h = ground (
    arith,
    count-append popped (node ∷ []) a.to_id,
    old a m,
    source_of_open_arcs arcs popped a m,
    index_of-lt popped a.from_id,
    index_of-lt popped a.to_id,
    index_of_absent popped a.from_id,
    index_of-append popped node a.from_id,
    index_of-append popped node a.to_id,
    index_of_last popped node,
  )

  target_known : (node v : String) → 1 ≤ count (targets arcs node) v → count ids v ≡ 1
  target_known node v h =
      let (a, m, _, to) = target_arc arcs node v h in
      subst (λ w. count ids w ≡ 1) to (g.known a m).1

  pub visit-Inv :
      (s : Kahn) (node : String) (rest : List String)
      → s.queue ≡ node ∷ rest
      → Inv arcs ids s
      → Inv arcs ids (visit arcs s node rest)
  unfolding visit
  visit-Inv s node rest e i =
      let taken : count s.popped node ≡ 0 =
        ground
          (arith, i.seen node, g.unique node, ap (λ q. count q node) e, count_self node rest) in
      let ready : s.in_degree node ≡ 0 =
        ground (arith, i.seen node, ap (λ q. count q node) e, count_self node rest) in
      let popped = s.popped ++ (node ∷ []) in
      let after = record s { queue = rest; popped = popped } in
      let c =
        relax-Counts ids (open_arcs arcs popped) (targets arcs node) after (target_known node)
          record {
            degrees = λ v. i.degrees v ∙ open_arcs-append arcs s.popped node v taken;
            seen = λ v.
                omega (arith, i.seen v, count-append s.popped (node ∷ []) v, ap (λ q. count q v) e);
          } in
      let same = relax-popped (targets arcs node) after in
      record {
        degrees = λ v. omega (arith, c.degrees v, ap (λ p. open_arcs arcs p v) same);
        seen = c.seen;
        forward = λ a m.
            subst (λ p. 1 ≤ count p a.to_id → index_of p a.from_id < index_of p a.to_id) (sym same)
              (forward-append s.popped node taken (ground (arith, i.degrees node)) i.forward a m);
      }
