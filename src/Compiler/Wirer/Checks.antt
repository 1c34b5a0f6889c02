-- ===== src/Compiler/Wirer/Checks.antt =====
-- What the compiler's checks of probes and spillway edges accept.
use aqueduct_test.Base.{
  ◌≡◌, ◌≢◌, ◌↔◌, true, String, string_eq, contains, Option, none, some, List, All, returns,
  check_each_iff, arith,
}
use aqueduct_test.Parser.Models.{Module, Edge}
use aqueduct_test.Parser.Graph.{module_ids}
use aqueduct_test.Compiler.Wirer.{
  check_attach, check_probe, validate_probes, check_spillway_edge, validate_spillway_edges,
}

-- A probe is attached to a module of the list.
abbrev pub IsAttachedTo : List String → Option String → Type 0
IsAttachedTo ids none = ⊥
IsAttachedTo ids (some target) = (target ≢ "") × (contains ids target ≡ true)

abbrev pub IsWired : List String → Module → Type 0
IsWired ids m = m.type' ≡ "Probe" → IsAttachedTo ids m.attach_to

-- A spillway edge leads to a module of the list.
abbrev pub IsRouted : List String → Edge → Type 0
IsRouted ids e = e.port ≡ "spillway" → contains ids e.to_id ≡ true

check_attach_iff :
    (ids : List String) (id' : String) (attach_to : Option String)
    → (check_attach ids id' attach_to ≡ returns tt) ↔ IsAttachedTo ids attach_to
check_attach_iff ids id' none = (λ h. cc, λ h. absurd h)
check_attach_iff ids id' (some target) = ground arith

check_probe_iff :
    (ids : List String) (m : Module) → (check_probe ids m ≡ returns tt) ↔ IsWired ids m
check_probe_iff ids m = ground (arith, check_attach_iff ids m.id' m.attach_to)

check_spillway_edge_iff :
    (ids : List String) (e : Edge) → (check_spillway_edge ids e ≡ returns tt) ↔ IsRouted ids e
check_spillway_edge_iff ids e = ground arith

-- The compiler accepts the probes exactly when each is attached to a module.
pub validate_probes_iff :
    (modules : List Module)
    → (validate_probes modules ≡ returns tt) ↔ All (IsWired (module_ids modules)) modules
unfolding validate_probes
validate_probes_iff modules =
    let ids = module_ids modules in
    check_each_iff (check_probe ids) (IsWired ids) (check_probe_iff ids) modules

-- It accepts the spillway edges exactly when each leads to a module.
pub validate_spillway_edges_iff :
    (modules : List Module) (edges : List Edge)
    → (validate_spillway_edges modules edges ≡ returns tt)
      ↔ All (IsRouted (module_ids modules)) edges
unfolding validate_spillway_edges
validate_spillway_edges_iff modules edges =
    let ids = module_ids modules in
    check_each_iff (check_spillway_edge ids) (IsRouted ids) (check_spillway_edge_iff ids) edges
