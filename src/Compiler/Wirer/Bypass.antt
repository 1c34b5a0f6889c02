-- ===== src/Compiler/Wirer/Bypass.antt =====
-- The bypass edges replace the ways through passive Regulators.
use aqueduct_test.Base.{
  ◌≡◌, sym, subst, inl, inr, ◌&&◌, String, string_eq, ◌==◌, List, [], ◌∷◌, map, filter, Member,
  here, there, Member-append_left, Member-append_right, Member-of_append, Member-filter,
  Member-of_filter, Member-map, Member-of_map, arith,
}
use aqueduct_test.Parser.Models.{Edge}
use aqueduct_test.Compiler.Wirer.{upstream_of, downstream_of, main_edge, pair_up, bypass_edges}

-- An edge on the port `main`, which the bypass reads alone.
abbrev pub IsMain : List Edge → String → String → Type 0
IsMain edges u v = (e : Edge) × Member e edges × (e.from_id ≡ u) × (e.to_id ≡ v) × (e.port ≡ "main")

member_upstream :
    (es : List Edge) (u reg_id : String) → IsMain es u reg_id → Member u (upstream_of es reg_id)
unfolding upstream_of
member_upstream es u reg_id (e, m, from, to, main) =
    let kept =
      Member-filter (λ e'. e'.to_id == reg_id && e'.port == "main") e es m (ground arith) in
    subst (λ w. Member w (upstream_of es reg_id)) from (Member-map (λ e'. e'.from_id) e _ kept)

upstream-IsMain :
    (es : List Edge) (u reg_id : String) → Member u (upstream_of es reg_id) → IsMain es u reg_id
unfolding upstream_of
upstream-IsMain es u reg_id m =
    let is_up = λ (e : Edge). e.to_id == reg_id && e.port == "main" in
    let (e, kept, from) = Member-of_map (λ e'. e'.from_id) u (filter is_up es) m in
    let (listed, is_up_e) = Member-of_filter is_up e es kept in
    (e, listed, sym from, ground arith, ground arith)

member_downstream :
    (es : List Edge) (reg_id v : String) → IsMain es reg_id v → Member v (downstream_of es reg_id)
unfolding downstream_of
member_downstream es reg_id v (e, m, from, to, main) =
    let kept =
      Member-filter (λ e'. e'.from_id == reg_id && e'.port == "main") e es m (ground arith) in
    subst (λ w. Member w (downstream_of es reg_id)) to (Member-map (λ e'. e'.to_id) e _ kept)

downstream-IsMain :
    (es : List Edge) (reg_id v : String) → Member v (downstream_of es reg_id) → IsMain es reg_id v
unfolding downstream_of
downstream-IsMain es reg_id v m =
    let is_down = λ (e : Edge). e.from_id == reg_id && e.port == "main" in
    let (e, kept, to) = Member-of_map (λ e'. e'.to_id) v (filter is_down es) m in
    let (listed, is_down_e) = Member-of_filter is_down e es kept in
    (e, listed, ground arith, sym to, ground arith)

member_pair :
    (ups downs : List String) (u v : String)
    → Member u ups
    → Member v downs
    → Member (main_edge u v) (pair_up ups downs)
unfolding pair_up
member_pair _ downs u v (here _ ups) d =
    Member-append_left (main_edge u v) (map (main_edge u) downs) (pair_up ups downs)
      (Member-map (main_edge u) v downs d)
member_pair _ downs u v (there _ w ups m) d =
    Member-append_right (main_edge u v) (map (main_edge w) downs) (pair_up ups downs)
      (member_pair ups downs u v m d)

pair_members :
    (ups downs : List String) (e : Edge)
    → Member e (pair_up ups downs)
    → (u : String) × (v : String) × Member u ups × Member v downs × (e ≡ main_edge u v)
unfolding pair_up
pair_members [] downs e m = elim m [ ]
pair_members (w ∷ ups) downs e m =
    elim (Member-of_append e (map (main_edge w) downs) (pair_up ups downs) m) [
      | inl front ↦
          let (v, d, same) = Member-of_map (main_edge w) e downs front in
          (w, v, here w ups, d, same)
      | inr back ↦
          let (u, v, i, d, same) = pair_members ups downs e back in (u, v, there u w ups i, d, same)
    ]

-- A bypass edge replaces a way through a Regulator of the list.
pub member_bypass :
    (edges : List Edge) (reg_ids : List String) (u reg_id v : String)
    → Member reg_id reg_ids
    → IsMain edges u reg_id
    → IsMain edges reg_id v
    → Member (main_edge u v) (bypass_edges edges reg_ids)
unfolding bypass_edges
member_bypass edges _ u reg_id v (here _ reg_ids) up down =
    Member-append_left (main_edge u v)
      (pair_up (upstream_of edges reg_id) (downstream_of edges reg_id)) (bypass_edges edges reg_ids)
      (member_pair (upstream_of edges reg_id) (downstream_of edges reg_id) u v
        (member_upstream edges u reg_id up) (member_downstream edges reg_id v down))
member_bypass edges _ u reg_id v (there _ r reg_ids m) up down =
    Member-append_right (main_edge u v) (pair_up (upstream_of edges r) (downstream_of edges r))
      (bypass_edges edges reg_ids) (member_bypass edges reg_ids u reg_id v m up down)

pub bypass_members :
    (edges : List Edge) (reg_ids : List String) (e : Edge)
    → Member e (bypass_edges edges reg_ids)
    → (u : String) × (reg_id : String) × (v : String) × Member reg_id reg_ids
      × IsMain edges u reg_id
      × IsMain edges reg_id v
      × (e ≡ main_edge u v)
unfolding bypass_edges
bypass_members edges [] e m = elim m [ ]
bypass_members edges (r ∷ reg_ids) e m =
    let pairs = pair_up (upstream_of edges r) (downstream_of edges r) in
    elim (Member-of_append e pairs (bypass_edges edges reg_ids) m) [
      | inl front ↦
          let (u, v, i, d, same) =
            pair_members (upstream_of edges r) (downstream_of edges r) e front in
          (
            u,
            r,
            v,
            here r reg_ids,
            upstream-IsMain edges u r i,
            downstream-IsMain edges r v d,
            same,
          )
      | inr back ↦
          let (u, reg_id, v, i, up, down, same) = bypass_members edges reg_ids e back in
          (u, reg_id, v, there reg_id r reg_ids i, up, down, same)
    ]
