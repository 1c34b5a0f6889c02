-- ===== src/Executor/Selection/Included.antt =====
-- Which modules the selectors include.
use aqueduct_test.Base.{
  ◌≡◌, refl, subst, ◌↔◌, ◌⊎◌, inl, inr, ◌≤◌, true, false, ◌&&◌, String, string_eq, if◌then◌else◌,
  contains, contains→count, absent→count, count, count_self, count-append, Option, none, some, List,
  [], ◌∷◌, ◌++◌, Member, here, there, returns, raises, Bool-cases, arith,
}
use aqueduct_test.Graph.Search.{IsReached}
use aqueduct_test.Parser.Models.{Module, Edge}
use aqueduct_test.Parser.Graph.{module_ids}
use aqueduct_test.Executor.Order.{is_probe}
use aqueduct_test.Executor.Selection.{
  from_not_found, to_not_found, forward_arcs, ahead, back, taps, add_taps,
}
use aqueduct_test.Executor.Selection.Reached.{reachable_forward_lem, reachable_backward_lem}

-- Behind the module that `--from` names, and before the one that `--to` names.
abbrev pub IsFrom : List Module → List Edge → Option String → String → Type 0
IsFrom modules edges none v = 1 ≤ count (module_ids modules) v
IsFrom modules edges (some from_module) v = IsReached (forward_arcs edges) from_module v

abbrev pub IsTo : List Module → List Edge → Option String → String → Type 0
IsTo modules edges none v = 1 ≤ count (module_ids modules) v
IsTo modules edges (some to_module) v = IsReached (forward_arcs edges) v to_module

-- A probe of the list that taps the module.
pub record IsTap (modules : List Module) (p : Module) (u : String) : Type 0 where
  pub listed : Member p modules
  pub probe : is_probe p ≡ true
  pub attached : p.attach_to ≡ some u

-- A probe that taps an included module.
abbrev pub Tapped : List Module → List String → String → Type 0
Tapped modules included v =
    (p : Module) × (u : String) × IsTap modules p u × (p.id' ≡ v) × (1 ≤ count included u)

-- All that lies between the selected modules is included, and each probe that taps it; and what
-- is included lies between them, or is a probe that taps an included module.
pub record IsSelection (modules : List Module) (edges : List Edge) (from to : Option String)
    (included : List String) : Type 0 where
  pub between :
      (v : String) → IsFrom modules edges from v → IsTo modules edges to v → 1 ≤ count included v
  pub tapped :
      (p : Module) (u : String)
      → IsTap modules p u
      → IsFrom modules edges from u
      → IsTo modules edges to u
      → 1 ≤ count included p.id'
  pub only :
      (v : String)
      → 1 ≤ count included v
      → (IsFrom modules edges from v × IsTo modules edges to v) ⊎ Tapped modules included v

abbrev one_tap : List String → Module → List String
one_tap included m =
    if is_probe m && taps included m.attach_to then included ++ (m.id' ∷ []) else included

one_tap_keeps :
    (included : List String) (m : Module) (v : String)
    → 1 ≤ count included v
    → 1 ≤ count (one_tap included m) v
one_tap_keeps included m v h = ground (arith, count-append included (m.id' ∷ []) v)

pub add_taps_keep :
    (included : List String) (ms : List Module) (v : String)
    → 1 ≤ count included v
    → 1 ≤ count (add_taps included ms) v
unfolding add_taps
add_taps_keep included [] v h = h
add_taps_keep included (m ∷ ms) v h =
    add_taps_keep (one_tap included m) ms v (one_tap_keeps included m v h)

taps-true :
    (included : List String) (key : Option String) (u : String)
    → key ≡ some u
    → 1 ≤ count included u
    → taps included key ≡ true
taps-true included none u e h = cc
taps-true included (some t) u e h =
    let same : u ≡ t = cc in
    let there_t = subst (λ w. 1 ≤ count included w) same h in
    ground (arith, absent→count included t)

target_of :
    (included : List String) (key : Option String)
    → taps included key ≡ true
    → (u : String) × (key ≡ some u) × (1 ≤ count included u)
target_of included none h = cc
target_of included (some t) h = (t, refl, contains→count included t h)

one_tap_taps :
    (included : List String) (m : Module) (u : String)
    → is_probe m ≡ true
    → m.attach_to ≡ some u
    → 1 ≤ count included u
    → 1 ≤ count (one_tap included m) m.id'
one_tap_taps included m u p e h = ground (
  arith,
  taps-true included m.attach_to u e h,
  count-append included (m.id' ∷ []) m.id',
  count_self m.id' [],
)

pub add_taps_tap :
    (included : List String) (ms : List Module) (p : Module) (u : String)
    → Member p ms
    → is_probe p ≡ true
    → p.attach_to ≡ some u
    → 1 ≤ count included u
    → 1 ≤ count (add_taps included ms) p.id'
unfolding add_taps
add_taps_tap included _ p u (here _ ms) probe e h =
    add_taps_keep (one_tap included p) ms p.id' (one_tap_taps included p u probe e h)
add_taps_tap included _ p u (there _ m ms i) probe e h =
    add_taps_tap (one_tap included m) ms p u i probe e (one_tap_keeps included m u h)

one_tap_only :
    (included : List String) (m : Module) (v : String)
    → 1 ≤ count (one_tap included m) v
    → (1 ≤ count included v)
      ⊎ ((is_probe m ≡ true) × (taps included m.attach_to ≡ true) × (m.id' ≡ v))
one_tap_only included m v h = ground (arith, count-append included (m.id' ∷ []) v)

pub add_taps_only :
    (included : List String) (ms : List Module) (v : String)
    → 1 ≤ count (add_taps included ms) v
    → (1 ≤ count included v) ⊎ Tapped ms (add_taps included ms) v
unfolding add_taps
add_taps_only included [] v h = inl h
add_taps_only included (m ∷ ms) v h = elim (add_taps_only (one_tap included m) ms v h) [
  | inr (p, u, t, same, u_in) ↦ inr (
    p,
    u,
    record { listed = there p m ms t.listed; probe = t.probe; attached = t.attached },
    same,
    u_in,
  )
  | inl early ↦ elim (one_tap_only included m v early) [
    | inl old ↦ inl old
    | inr (probe, tapped, same) ↦
        let (u, attached, u_in) = target_of included m.attach_to tapped in
        inr (
          m,
          u,
          record { listed = here m ms; probe = probe; attached = attached },
          same,
          add_taps_keep (one_tap included m) ms u (one_tap_keeps included m u u_in),
        )
  ]
]

pub ahead_lem :
    (modules : List Module) (edges : List Edge) (from : Option String)
    → ((name : String) × (from ≡ some name)
        × (contains (module_ids modules) name ≡ false)
        × (ahead modules edges from ≡ raises (from_not_found name)))
      ⊎ ((vs : List String) × (ahead modules edges from ≡ returns vs)
          × ((v : String) → (1 ≤ count vs v) ↔ IsFrom modules edges from v))
unfolding ahead
ahead_lem modules edges none = inr (module_ids modules, refl, λ v. (λ h. h, λ h. h))
ahead_lem modules edges (some name) = elim (Bool-cases (contains (module_ids modules) name)) [
  | inr missing ↦ inl (name, refl, missing, simp missing)
  | inl known ↦
      let (vs, ends, reached) = reachable_forward_lem name edges in
      inr (vs, simp known ends, reached)
]

pub back_lem :
    (modules : List Module) (edges : List Edge) (to : Option String)
    → ((name : String) × (to ≡ some name)
        × (contains (module_ids modules) name ≡ false)
        × (back modules edges to ≡ raises (to_not_found name)))
      ⊎ ((vs : List String) × (back modules edges to ≡ returns vs)
          × ((v : String) → (1 ≤ count vs v) ↔ IsTo modules edges to v))
unfolding back
back_lem modules edges none = inr (module_ids modules, refl, λ v. (λ h. h, λ h. h))
back_lem modules edges (some name) = elim (Bool-cases (contains (module_ids modules) name)) [
  | inr missing ↦ inl (name, refl, missing, simp missing)
  | inl known ↦
      let (vs, ends, reached) = reachable_backward_lem name edges in
      inr (vs, simp known ends, reached)
]
