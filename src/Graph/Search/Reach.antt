-- ===== src/Graph/Search/Reach.antt =====
-- The search ends, and it visits exactly the nodes that walks lead to.
use aqueduct_test.Base.{
  ◌≡◌, refl, sym, subst, ap, ◌∙◌, ◌↔◌, inl, inr, ℕ, zero, suc, ◌+◌, ◌≤◌, true, String, string_eq,
  if◌then◌else◌, eqb, contains, contains→count, absent→count, count, count-append, count_self, some,
  List, [], ◌∷◌, ◌++◌, length, length-append, Member, here, there, List-cases, Bool-cases, ℕ-cases,
  arith,
}
use aqueduct_test.Graph.Arcs.{Arc, targets, target_arc}
use aqueduct_test.Graph.Walk.{Walk, one, more}
use aqueduct_test.Graph.Search.{Search, step, next_step, if_done, search, reachable, IsReached}

-- The arcs out of nodes that are not in the list.
abbrev unused : List Arc → List String → ℕ
unused [] visited = 0
unused (a ∷ arcs) visited = (if eqb (count visited a.from_id) 0 then 1 else 0) + unused arcs visited

unused-append :
    (arcs : List Arc) (visited : List String) (u : String)
    → count visited u ≡ 0
    → unused arcs (visited ++ (u ∷ [])) + length (targets arcs u) ≡ unused arcs visited
unfolding targets
unused-append [] visited u h = refl
unused-append (a ∷ arcs) visited u h =
    ground (arith, unused-append arcs visited u, count-append visited (u ∷ []) a.from_id)

unused-none : (arcs : List Arc) → unused arcs [] ≡ length arcs
unused-none [] = refl
unused-none (a ∷ arcs) = omega (arith, unused-none arcs)

targets_has :
    (arcs : List Arc) (a : Arc) → Member a arcs → 1 ≤ count (targets arcs a.from_id) a.to_id
unfolding targets
targets_has _ a (here _ arcs) = ground arith
targets_has _ a (there _ b arcs m) = ground (arith, targets_has arcs a m)

module _ (arcs : List Arc) (start_id : String) where
  record Inv (s : Search) : Type 0 where
    started : 1 ≤ count s.visited start_id + count s.queue start_id
    visited_reached : (v : String) → 1 ≤ count s.visited v → IsReached arcs start_id v
    queue_reached : (v : String) → 1 ≤ count s.queue v → IsReached arcs start_id v
    closed :
        (a : Arc)
        → Member a arcs
        → 1 ≤ count s.visited a.from_id
        → 1 ≤ count s.visited a.to_id + count s.queue a.to_id

  IsReached-by :
      (u v : String)
      → IsReached arcs start_id u
      → 1 ≤ count (targets arcs u) v
      → IsReached arcs start_id v
  IsReached-by u v r h =
      let (a, m, from, to) = target_arc arcs u v h in
      elim r [
        | inl same ↦ inr (one v a m (from ∙ same) to)
        | inr walk ↦ inr (more u v a walk m from to)
      ]

  skip-Inv :
      (s : Search) (mid : String) (rest : List String)
      → s.queue ≡ mid ∷ rest
      → contains s.visited mid ≡ true
      → Inv s
      → Inv (record s { queue = rest })
  skip-Inv s mid rest e seen i =
      let seen' = contains→count s.visited mid seen in
      record {
        started = ground (arith, i.started, ap (λ q. count q start_id) e);
        visited_reached = i.visited_reached;
        queue_reached = λ v h. i.queue_reached v (omega (arith, ap (λ q. count q v) e));
        closed = λ a m h. ground (arith, i.closed a m h, ap (λ q. count q a.to_id) e);
      }

  visit-Inv :
      (s : Search) (mid : String) (rest : List String)
      → s.queue ≡ mid ∷ rest
      → Inv s
      → Inv (record { visited = s.visited ++ (mid ∷ []); queue = rest ++ targets arcs mid })
  visit-Inv s mid rest e i =
      let mid_reached =
        i.queue_reached mid (omega (arith, ap (λ q. count q mid) e, count_self mid rest)) in
      record {
        started = omega (
          arith,
          i.started,
          ap (λ q. count q start_id) e,
          count-append s.visited (mid ∷ []) start_id,
          count-append rest (targets arcs mid) start_id,
        );
        visited_reached = λ v h. elim (ℕ-cases (count s.visited v)) [
          | inr old ↦ i.visited_reached v old
          | inl new ↦
              let same : v ≡ mid = ground (arith, count-append s.visited (mid ∷ []) v) in
              subst (IsReached arcs start_id) (sym same) mid_reached
        ];
        queue_reached = λ v h. elim (ℕ-cases (count rest v)) [
          | inr old ↦ i.queue_reached v (omega (arith, ap (λ q. count q v) e))
          | inl new ↦
              IsReached-by mid v mid_reached (omega (arith, count-append rest (targets arcs mid) v))
        ];
        closed = λ a m h.
            let counted = count-append s.visited (mid ∷ []) a.to_id in
            let queued = count-append rest (targets arcs mid) a.to_id in
            elim (ℕ-cases (count s.visited a.from_id)) [
              | inr old ↦ omega (arith, i.closed a m old, ap (λ q. count q a.to_id) e)
              | inl new ↦
                  let same : a.from_id ≡ mid =
                    ground (arith, count-append s.visited (mid ∷ []) a.from_id) in
                  omega (arith, targets_has arcs a m, ap (λ u. count (targets arcs u) a.to_id) same)
            ];
      }

  -- What the rounds that are left need.
  abbrev weight : Search → ℕ
  weight s = length s.queue + unused arcs s.visited

  step-Inv :
      (s : Search) (mid : String) (rest : List String)
      → s.queue ≡ mid ∷ rest
      → Inv s
      → Inv (step arcs s mid rest) × (weight (step arcs s mid rest) + 1 ≡ weight s)
  unfolding step
  step-Inv s mid rest e i = elim (Bool-cases (contains s.visited mid)) [
    | inl seen ↦ simp seen (skip-Inv s mid rest e seen i, omega (arith, ap length e))
    | inr new ↦ simp new (
      visit-Inv s mid rest e i,
      omega (
        arith,
        ap length e,
        length-append rest (targets arcs mid),
        unused-append arcs s.visited mid (absent→count s.visited mid new),
      ),
    )
  ]

  search-suc :
      (fuel : ℕ) (s : Search) (mid : String) (rest : List String)
      → s.queue ≡ mid ∷ rest
      → search arcs (suc fuel) s ≡ search arcs fuel (step arcs s mid rest)
  unfolding search next_step
  search-suc fuel s mid rest e = simp (e, next_step)

  search-Inv :
      (fuel : ℕ) (s : Search)
      → Inv s
      → weight s ≤ fuel
      → (t : Search) × (search arcs fuel s ≡ some t.visited) × (t.queue ≡ []) × Inv t
  unfolding search next_step
  search-Inv zero s i h = elim (List-cases s.queue) [
    | inl empty ↦ (s, simp (empty, if_done), empty, i)
    | inr (mid, rest, e) ↦ absurd (omega (arith, ap length e))
  ]
  search-Inv (suc fuel) s i h = elim (List-cases s.queue) [
    | inl empty ↦ (s, simp (empty, next_step), empty, i)
    | inr (mid, rest, e) ↦
        let (i', less) = step-Inv s mid rest e i in
        let (t, ends, empty, it) = search-Inv fuel (step arcs s mid rest) i' (omega arith) in
        (t, search-suc fuel s mid rest e ∙ ends, empty, it)
  ]

  start_visited : (t : Search) → Inv t → t.queue ≡ [] → 1 ≤ count t.visited start_id
  start_visited t i empty = omega (arith, i.started, ap (λ q. count q start_id) empty)

  arc_visited :
      (t : Search)
      → Inv t
      → t.queue ≡ []
      → (u v : String) (a : Arc) → Member a arcs
      → a.from_id ≡ u
      → a.to_id ≡ v
      → 1 ≤ count t.visited u
      → 1 ≤ count t.visited v
  arc_visited t i empty u v a m from to h =
      let to_visited = i.closed a m (subst (λ w. 1 ≤ count t.visited w) (sym from) h) in
      subst (λ w. 1 ≤ count t.visited w) to (omega (arith, ap (λ q. count q a.to_id) empty))

  -- With an empty queue, the nodes visited are closed under walks.
  Walk-visited :
      (t : Search)
      → Inv t
      → t.queue ≡ []
      → (v : String) → Walk arcs start_id v
      → 1 ≤ count t.visited v
  Walk-visited t i empty _ (one v a m from to) =
      arc_visited t i empty start_id v a m from to (start_visited t i empty)
  Walk-visited t i empty _ (more u v a walk m from to) =
      arc_visited t i empty u v a m from to (Walk-visited t i empty u walk)

  -- The search ends, with exactly the nodes that can be reached.
  pub reachable_lem :
      (visited : List String) × (reachable arcs start_id ≡ some visited)
      × ((v : String) → (1 ≤ count visited v) ↔ IsReached arcs start_id v)
  unfolding reachable
  reachable_lem =
      let (t, ends, empty, i) =
        search-Inv (suc (length arcs)) (record { visited = []; queue = start_id ∷ [] })
          record {
            started = omega (arith, count_self start_id []);
            visited_reached = λ v h. absurd (omega arith);
            queue_reached = λ v h. inl (ground arith);
            closed = λ a m h. absurd (omega arith);
          }
          (omega (arith, unused-none arcs)) in
      (
        t.visited,
        ends,
        λ v. (
          i.visited_reached v,
          λ r. elim r [
            | inl same ↦ subst (λ w. 1 ≤ count t.visited w) (sym same) (start_visited t i empty)
            | inr walk ↦ Walk-visited t i empty v walk
          ],
        ),
      )
