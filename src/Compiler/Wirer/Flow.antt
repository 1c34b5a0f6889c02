-- ===== src/Compiler/Wirer/Flow.antt =====
-- The edges after passive Regulators were compiled away.
use aqueduct_test.Base.{
  ◌≡◌, refl, sym, ap, ◌∙◌, ◌↔◌, ◌⊎◌, inl, inr, Bool, true, false, not, ◌&&◌, String, string_eq,
  contains, List, [], ◌∷◌, map, filter, Member, Member-append_left, Member-append_right,
  Member-of_append, Member-filter, Member-of_filter, Member-map, Member-of_map, arith,
}
use aqueduct_test.Graph.Arcs.{Arc}
use aqueduct_test.Graph.Walk.{Walk, one, more}
use aqueduct_test.Parser.Models.{Module, Edge}
use aqueduct_test.Compiler.Wirer.{
  main_edge, bypass_edges, passive_in, without_passive, compile_away_regulators,
}
use aqueduct_test.Executor.Order.{is_data_edge}
use aqueduct_test.Compiler.Wirer.Bypass.{IsMain, member_bypass, bypass_members}

abbrev to_arc : Edge → Arc
to_arc e = record { from_id = e.from_id; to_id = e.to_id }

-- The edges that data takes from module to module, as `_is_data_edge` of the executor has them: all
-- but the signals.
abbrev pub IsData : List Edge → String → String → Type 0
IsData edges u v =
    (e : Edge) × Member e edges × (e.from_id ≡ u) × (e.to_id ≡ v) × (is_data_edge e ≡ true)

abbrev pub data_arcs : List Edge → List Arc
data_arcs edges = map to_arc (filter is_data_edge edges)

pub IsMain-IsData : (edges : List Edge) (u v : String) → IsMain edges u v → IsData edges u v
unfolding string_eq
IsMain-IsData edges u v (e, m, from, to, main) = (e, m, from, to, rw main refl)

pub arc-IsData :
    (edges : List Edge) (u v : String) (a : Arc)
    → Member a (data_arcs edges)
    → a.from_id ≡ u
    → a.to_id ≡ v
    → IsData edges u v
arc-IsData edges u v a m from to =
    let (e, kept, same) = Member-of_map to_arc a (filter is_data_edge edges) m in
    let (listed, data_e) = Member-of_filter is_data_edge e edges kept in
    (e, listed, sym (ap (λ b. b.from_id) same) ∙ from, sym (ap (λ b. b.to_id) same) ∙ to, data_e)

-- An edge that data takes after a walk, or as the first.
pub then_data :
    (edges : List Edge) (u v w : String)
    → (u ≡ v) ⊎ Walk (data_arcs edges) u v
    → IsData edges v w
    → Walk (data_arcs edges) u w
then_data edges u v w before (e, m, from, to, data_e) =
    let listed =
      Member-map to_arc e (filter is_data_edge edges)
        (Member-filter is_data_edge e edges m data_e) in
    elim before [
      | inl same ↦ one w (to_arc e) listed (from ∙ sym same) to
      | inr walk ↦ more v w (to_arc e) walk listed from to
    ]

abbrev stays : List String → Edge → Bool
stays passive e = not (contains passive e.from_id) && not (contains passive e.to_id)

stays-yes :
    (passive : List String) (e : Edge)
    → contains passive e.from_id ≡ false
    → contains passive e.to_id ≡ false
    → stays passive e ≡ true
stays-yes passive e from to = ground arith

stays-only :
    (passive : List String) (e : Edge)
    → stays passive e ≡ true
    → (contains passive e.from_id ≡ false) × (contains passive e.to_id ≡ false)
stays-only passive e h = ground arith

abbrev pub after : (List String → List String) → List Module → List Edge → List String → List Edge
unfolding without_passive
after iterate modules edges passive = (without_passive iterate modules edges passive).1

module _ (iterate : List String → List String)
    (walked : (xs : List String) (v : String) → Member v (iterate xs) ↔ Member v xs)
    (modules : List Module) (edges : List Edge) where
  pub after_kept :
      (passive : List String) (u v : String)
      → IsData edges u v
      → contains passive u ≡ false
      → contains passive v ≡ false
      → IsData (after iterate modules edges passive) u v
  unfolding after without_passive
  after_kept [] u v m _ _ = m
  after_kept (r ∷ rs) u v (e, m, from, to, data_e) f t =
      let passive = r ∷ rs in
      let stay =
        stays-yes passive e (ap (contains passive) from ∙ f) (ap (contains passive) to ∙ t) in
      (
        e,
        Member-append_left e (filter (stays passive) edges) (bypass_edges edges (iterate passive))
            (Member-filter (stays passive) e edges m stay),
        from,
        to,
        data_e,
      )

  pub after_bypassed :
      (passive : List String) (u reg_id v : String)
      → Member reg_id passive
      → IsMain edges u reg_id
      → IsMain edges reg_id v
      → IsData (after iterate modules edges passive) u v
  unfolding after without_passive string_eq
  after_bypassed [] u reg_id v i up down = elim i [ ]
  after_bypassed (r ∷ rs) u reg_id v i up down =
      let passive = r ∷ rs in
      (
        main_edge u v,
        Member-append_right (main_edge u v) (filter (stays passive) edges)
            (bypass_edges edges (iterate passive))
            (member_bypass edges (iterate passive) u reg_id v ((walked passive reg_id).1 i) up
              down),
        refl,
        refl,
        refl,
      )

  pub edge_after :
      (passive : List String) (e : Edge)
      → Member e (after iterate modules edges passive)
      → (Member e edges × (contains passive e.from_id ≡ false) × (contains passive e.to_id ≡ false))
        ⊎ ((u : String) × (reg_id : String) × (v : String) × Member reg_id passive
            × IsMain edges u reg_id
            × IsMain edges reg_id v
            × (e ≡ main_edge u v))
  unfolding after without_passive
  edge_after [] e m = inl (m, refl, refl)
  edge_after (r ∷ rs) e m =
      let passive = r ∷ rs in
      elim (Member-of_append e (filter (stays passive) edges) (bypass_edges edges (iterate passive))
        m) [
          | inl front ↦
              let (listed, stay) = Member-of_filter (stays passive) e edges front in
              let (from, to) = stays-only passive e stay in inl (listed, from, to)
          | inr back ↦
              let (u, reg_id, v, i, up, down, same) =
                bypass_members edges (iterate passive) e back in
              inr (u, reg_id, v, (walked passive reg_id).0 i, up, down, same)
        ]

pub compile_away-after :
    (iterate : List String → List String) (modules : List Module) (edges : List Edge)
    → (compile_away_regulators iterate modules edges).1
      ≡ after iterate modules edges (passive_in modules edges)
unfolding compile_away_regulators after
compile_away-after iterate modules edges = refl
