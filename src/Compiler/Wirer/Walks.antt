-- ===== src/Compiler/Wirer/Walks.antt =====
-- Compiling passive Regulators away keeps the flow of data between the modules that remain.
use aqueduct_test.Base.{
  ◌≡◌, refl, sym, subst, ap, ◌∙◌, ◌↔◌, ◌⊎◌, inl, inr, true, false, String, string_eq, contains,
  contains→count, contains-of_Member, Member-of_count, Bool-cases, List, Member, arith,
}
use aqueduct_test.Graph.Walk.{Walk, one, more}
use aqueduct_test.Parser.Models.{Module, Edge}
use aqueduct_test.Compiler.Wirer.{passive_in, compile_away_regulators}
use aqueduct_test.Executor.Order.{is_data_edge}
use aqueduct_test.Compiler.Wirer.Bypass.{IsMain}
use aqueduct_test.Compiler.Wirer.Flow.{
  IsData, data_arcs, IsMain-IsData, arc-IsData, then_data, after, after_kept, after_bypassed,
  edge_after, compile_away-after,
}

-- Data enters and leaves a passive Regulator by the port `main` alone.
abbrev pub AreMainAt : List Module → List Edge → Type 0
AreMainAt modules edges =
    (e : Edge)
    → Member e edges
    → is_data_edge e ≡ true
    → (contains (passive_in modules edges) e.from_id ≡ true)
      ⊎ (contains (passive_in modules edges) e.to_id ≡ true)
    → e.port ≡ "main"

-- No passive Regulator feeds a passive Regulator.
abbrev pub AreApart : List Module → List Edge → Type 0
AreApart modules edges =
    (u v : String)
    → IsMain edges u v
    → contains (passive_in modules edges) u ≡ true
    → contains (passive_in modules edges) v ≡ false

module _ (iterate : List String → List String)
    (walked : (xs : List String) (v : String) → Member v (iterate xs) ↔ Member v xs)
    (modules : List Module) (edges : List Edge) where
  -- With `passive` for the Regulators that are removed.
  module _ (passive : List String) where
    -- A walk after it is one before it.
    step_before :
        (u x v : String)
        → (u ≡ x) ⊎ Walk (data_arcs edges) u x
        → IsData (after iterate modules edges passive) x v
        → Walk (data_arcs edges) u v
    step_before u x v before (e, m, from, to, data_e) =
        elim (edge_after iterate walked modules edges passive e m) [
          | inl (listed, _, _) ↦ then_data edges u x v before (e, listed, from, to, data_e)
          | inr (p, r, q, i, up, down, same) ↦
              let from' : p ≡ x = sym (ap (λ d. d.from_id) same) ∙ from in
              let to' : q ≡ v = sym (ap (λ d. d.to_id) same) ∙ to in
              let up' = IsMain-IsData edges x r (subst (λ w. IsMain edges w r) from' up) in
              let down' = IsMain-IsData edges r v (subst (IsMain edges r) to' down) in
              then_data edges u r v (inr (then_data edges u x r before up')) down'
        ]

    Walk-before :
        (u v : String)
        → Walk (data_arcs (after iterate modules edges passive)) u v
        → Walk (data_arcs edges) u v
    Walk-before u _ (one v a m from to) =
        step_before u u v (inl refl)
          (arc-IsData (after iterate modules edges passive) u v a m from to)
    Walk-before u _ (more x v a walk m from to) =
        step_before u x v (inr (Walk-before u x walk))
          (arc-IsData (after iterate modules edges passive) x v a m from to)

    module _
        (apart : (u v : String)
          → IsMain edges u v
          → contains passive u ≡ true
          → contains passive v ≡ false)
        (mains : (u v : String)
          → IsData edges u v
          → (contains passive u ≡ true) ⊎ (contains passive v ≡ true)
          → IsMain edges u v) where
      -- What a walk so far comes to: a walk, or a way to the Regulator that it stands at.
      SoFar : String → String → Type 0
      SoFar u v =
          (contains passive v ≡ false
            → (u ≡ v) ⊎ Walk (data_arcs (after iterate modules edges passive)) u v)
          × (contains passive v ≡ true
              → (w : String) × ((u ≡ w)
                  ⊎ Walk (data_arcs (after iterate modules edges passive)) u w)
                × (contains passive w ≡ false)
                × IsMain edges w v)

      arrives :
          (u x v : String)
          → SoFar u x
          → IsData edges x v
          → contains passive v ≡ false
          → Walk (data_arcs (after iterate modules edges passive)) u v
      unfolding SoFar
      arrives u x v (at, past) m stay = elim (Bool-cases (contains passive x)) [
        | inr out ↦
            then_data (after iterate modules edges passive) u x v (at out)
              (after_kept iterate walked modules edges passive x v m out stay)
        | inl gone ↦
            let (w, before, _, up) = past gone in
            let listed = Member-of_count x passive (contains→count passive x gone) in
            then_data (after iterate modules edges passive) u w v before (
              after_bypassed iterate walked modules edges passive w x v listed up
                (mains x v m (inl gone)))
      ]

      SoFar-step : (u x v : String) → SoFar u x → IsData edges x v → SoFar u v
      unfolding SoFar
      SoFar-step u x v so_far m = (
        λ stay. inr (arrives u x v so_far m stay),
        λ removed. elim (Bool-cases (contains passive x)) [
          | inr out ↦ (x, so_far.0 out, out, mains x v m (inr removed))
          | inl gone ↦ absurd (cc (apart x v (mains x v m (inl gone)) gone))
        ],
      )

      Walk-SoFar :
          (u v : String)
          → contains passive u ≡ false
          → Walk (data_arcs edges) u v
          → SoFar u v
            × (contains passive v ≡ false
                → Walk (data_arcs (after iterate modules edges passive)) u v)
      unfolding SoFar
      Walk-SoFar u _ stay (one v a m from to) =
          let start : SoFar u u = (λ _. inl refl, λ gone. absurd (cc)) in
          let main = arc-IsData edges u v a m from to in
          (SoFar-step u u v start main, arrives u u v start main)
      Walk-SoFar u _ stay (more x v a walk m from to) =
          let (so_far, _) = Walk-SoFar u x stay walk in
          let main = arc-IsData edges x v a m from to in
          (SoFar-step u x v so_far main, arrives u x v so_far main)

  -- If no passive Regulator feeds another, and data enters and leaves passive Regulators by the port
  -- `main` alone, then data flows (along all edges that are no signals) between two modules that
  -- remain after the passive Regulators are compiled away exactly when it did before, in whatever
  -- order Python walks the set of their ids.
  pub compile_away_flow_iff :
      AreApart modules edges
      → AreMainAt modules edges
      → (u v : String) → contains (passive_in modules edges) u ≡ false
      → contains (passive_in modules edges) v ≡ false
      → Walk (data_arcs (compile_away_regulators iterate modules edges).1) u v
        ↔ Walk (data_arcs edges) u v
  compile_away_flow_iff apart main_at u v u_stays v_stays =
      let passive = passive_in modules edges in
      let same = compile_away-after iterate modules edges in
      let mains : (x y : String)
          → IsData edges x y
          → (contains passive x ≡ true) ⊎ (contains passive y ≡ true)
          → IsMain edges x y =
        λ x y (e, m, from, to, data_e) gone. (
          e,
          m,
          from,
          to,
          main_at e m data_e (elim gone [
            | inl g ↦ inl (ap (contains passive) from ∙ g)
            | inr g ↦ inr (ap (contains passive) to ∙ g)
          ]),
        ) in
      (
        λ walk. Walk-before passive u v (subst (λ es. Walk (data_arcs es) u v) same walk),
        λ walk.
            subst (λ es. Walk (data_arcs es) u v) (sym same)
              ((Walk-SoFar passive apart mains u v u_stays walk).1 v_stays),
      )

  -- If no passive Regulator feeds another, no edge touches a Regulator that was removed.
  pub compile_away_detaches :
      AreApart modules edges
      → (e : Edge) → Member e (compile_away_regulators iterate modules edges).1
      → (contains (passive_in modules edges) e.from_id ≡ false)
        × (contains (passive_in modules edges) e.to_id ≡ false)
  compile_away_detaches apart e m =
      let passive = passive_in modules edges in
      elim (edge_after iterate walked modules edges passive e
        (subst (Member e) (compile_away-after iterate modules edges) m)) [
          | inl (_, from, to) ↦ (from, to)
          | inr (u, r, v, i, up, down, same) ↦
              let from = ap (λ d. contains passive d.from_id) same in
              let to = ap (λ d. contains passive d.to_id) same in
              let gone = contains-of_Member r passive i in
              (from ∙ ground (arith, apart u r up), to ∙ apart r v down gone)
        ]
