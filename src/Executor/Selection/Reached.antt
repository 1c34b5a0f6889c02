-- ===== src/Executor/Selection/Reached.antt =====
-- What the searches of the executor return.
use aqueduct_test.Base.{
  ◌≡◌, refl, sym, subst, ap, ◌↔◌, inl, inr, ◌≤◌, String, string_eq, count, List, [], ◌∷◌, map,
  Member-map, returns, arith,
}
use aqueduct_test.Graph.Arcs.{Arc}
use aqueduct_test.Graph.Walk.{Walk, one, more, Walk-cons}
use aqueduct_test.Graph.Search.{IsReached}
use aqueduct_test.Graph.Search.Reach.{reachable_lem}
use aqueduct_test.Parser.Models.{Edge}
use aqueduct_test.Executor.Selection.{
  forward_arcs, backward_arcs, ended, reachable_forward, reachable_backward,
}

abbrev flip : Arc → Arc
flip a = record { from_id = a.to_id; to_id = a.from_id }

-- Each graph is the other, turned round.
backward_arcs-eq : (edges : List Edge) → backward_arcs edges ≡ map flip (forward_arcs edges)
unfolding forward_arcs backward_arcs
backward_arcs-eq [] = refl
backward_arcs-eq (e ∷ es) = ground (arith, backward_arcs-eq es)

forward_arcs-eq : (edges : List Edge) → forward_arcs edges ≡ map flip (backward_arcs edges)
unfolding forward_arcs backward_arcs
forward_arcs-eq [] = refl
forward_arcs-eq (e ∷ es) = ground (arith, forward_arcs-eq es)

Walk-flip : (arcs : List Arc) (u v : String) → Walk arcs u v → Walk (map flip arcs) v u
Walk-flip arcs u _ (one v a m from to) = one u (flip a) (Member-map flip a arcs m) to from
Walk-flip arcs u _ (more v w a walk m from to) =
    Walk-cons (map flip arcs) w v (flip a) (Member-map flip a arcs m) to from
      (Walk-flip arcs u v walk)

IsReached-backward_iff :
    (edges : List Edge) (u v : String)
    → IsReached (backward_arcs edges) u v ↔ IsReached (forward_arcs edges) v u
IsReached-backward_iff edges u v = (
  λ r. elim r [
    | inl same ↦ inl (sym same)
    | inr walk ↦ inr (
        subst (λ arcs. Walk arcs v u) (sym (forward_arcs-eq edges))
          (Walk-flip (backward_arcs edges) u v walk))
  ],
  λ r. elim r [
    | inl same ↦ inl (sym same)
    | inr walk ↦ inr (
        subst (λ arcs. Walk arcs u v) (sym (backward_arcs-eq edges))
          (Walk-flip (forward_arcs edges) v u walk))
  ],
)

-- The search along the data edges always ends, with the modules that can be reached from the start.
pub reachable_forward_lem :
    (start_id : String) (edges : List Edge)
    → (visited : List String) × (reachable_forward start_id edges ≡ returns visited)
      × ((v : String) → (1 ≤ count visited v) ↔ IsReached (forward_arcs edges) start_id v)
unfolding reachable_forward
reachable_forward_lem start_id edges =
    let (visited, ends, reached) = reachable_lem (forward_arcs edges) start_id in
    (visited, ap ended ends, reached)

-- The search against the data edges ends with the modules from which the start can be reached.
pub reachable_backward_lem :
    (start_id : String) (edges : List Edge)
    → (visited : List String) × (reachable_backward start_id edges ≡ returns visited)
      × ((v : String) → (1 ≤ count visited v) ↔ IsReached (forward_arcs edges) v start_id)
unfolding reachable_backward
reachable_backward_lem start_id edges =
    let (visited, ends, reached) = reachable_lem (backward_arcs edges) start_id in
    (
      visited,
      ap ended ends,
      λ v.
          let (to, from) = IsReached-backward_iff edges start_id v in
          (λ h. to ((reached v).0 h), λ r. (reached v).1 (from r)),
    )
