-- ===== src/Parser/Graph/Built.antt =====
-- What `_build_adjacency` accepts and builds.
use aqueduct_test.Base.{
  ◌≡◌, sym, ap, ◌∙◌, ◌↔◌, ◌≤◌, true, String, string_eq, if◌then◌else◌, contains, count,
  contains→count, absent→count, count-append, List, [], ◌∷◌, ◌++◌, All, All-append, All-of_append,
  All-of_Member, >>=-eq-returns, returns, ◌>>=◌, arith,
}
use mathlib.Core.List.{append_assoc, append-nil}
use aqueduct_test.Graph.Arcs.{Arc}
use aqueduct_test.Graph.Kahn.Invariant.{IsGraph}
use aqueduct_test.Parser.Models.{Module, Edge}
use aqueduct_test.Parser.Graph.{
  add_keys, module_ids, add_edges, add_dependencies, add_modules, build_adjacency,
}

-- The arcs that a Blueprint describes: its edges, then what its modules depend on.
abbrev arc_of : Edge → Arc
arc_of e = record { from_id = e.from_id; to_id = e.to_id }

abbrev pub edge_arcs : List Edge → List Arc
edge_arcs [] = []
edge_arcs (e ∷ es) = arc_of e ∷ edge_arcs es

abbrev dependency_arc : String → String → Arc
dependency_arc dep id' = record { from_id = dep; to_id = id' }

abbrev pub dependency_arcs : String → List String → List Arc
dependency_arcs id' [] = []
dependency_arcs id' (dep ∷ deps) = dependency_arc dep id' ∷ dependency_arcs id' deps

abbrev pub module_arcs : List Module → List Arc
module_arcs [] = []
module_arcs (m ∷ ms) = dependency_arcs m.id' m.depends_on ++ module_arcs ms

abbrev pub described_arcs : List Module → List Edge → List Arc
described_arcs modules edges = edge_arcs edges ++ module_arcs modules

abbrev pub IsKnown : List String → Arc → Type 0
IsKnown ids a = (contains ids a.from_id ≡ true) × (contains ids a.to_id ≡ true)

add_keys_unique :
    (keys : List String) (ms : List Module)
    → ((v : String) → count keys v ≤ 1)
    → (v : String) → count (add_keys keys ms) v ≤ 1
unfolding add_keys
add_keys_unique keys [] h v = h v
add_keys_unique keys (m ∷ ms) h v =
    add_keys_unique (if contains keys m.id' then keys else keys ++ (m.id' ∷ [])) ms
      (λ w. ground (arith, h w, absent→count keys m.id', count-append keys (m.id' ∷ []) w)) v

pub module_ids_unique : (modules : List Module) (v : String) → count (module_ids modules) v ≤ 1
unfolding module_ids
module_ids_unique modules v = add_keys_unique [] modules (λ w. omega arith) v

pub known_once :
    (modules : List Module) (v : String)
    → contains (module_ids modules) v ≡ true
    → count (module_ids modules) v ≡ 1
known_once modules v h =
    omega (arith, contains→count (module_ids modules) v h, module_ids_unique modules v)

module _ (ids : List String) where
  add_edges_known :
      (arcs : List Arc) (es : List Edge)
      → All (IsKnown ids) (edge_arcs es)
      → add_edges ids arcs es ≡ returns (arcs ++ edge_arcs es)
  unfolding add_edges
  add_edges_known arcs [] k = simp (append-nil)
  add_edges_known arcs (e ∷ es) k = ground (
    arith,
    add_edges_known (arcs ++ (arc_of e ∷ [])) es,
    append_assoc arcs (arc_of e ∷ []) (edge_arcs es),
  )

  add_edges-Known :
      (arcs arcs' : List Arc) (es : List Edge)
      → add_edges ids arcs es ≡ returns arcs'
      → All (IsKnown ids) (edge_arcs es)
  unfolding add_edges
  add_edges-Known arcs arcs' [] h = tt
  add_edges-Known arcs arcs' (e ∷ es) h =
      ground (arith, add_edges-Known (arcs ++ (arc_of e ∷ [])) arcs' es)

  add_dependencies_known :
      (arcs : List Arc) (id' : String) (deps : List String)
      → All (IsKnown ids) (dependency_arcs id' deps)
      → add_dependencies ids arcs id' deps ≡ returns (arcs ++ dependency_arcs id' deps)
  unfolding add_dependencies
  add_dependencies_known arcs id' [] k = simp (append-nil)
  add_dependencies_known arcs id' (dep ∷ deps) k =
      let first = dependency_arc dep id' ∷ [] in
      ground (
        arith,
        add_dependencies_known (arcs ++ first) id' deps,
        append_assoc arcs first (dependency_arcs id' deps),
      )

  add_dependencies-Known :
      (arcs arcs' : List Arc) (id' : String) (deps : List String)
      → add_dependencies ids arcs id' deps ≡ returns arcs'
      → All (IsKnown ids) (dependency_arcs id' deps)
  unfolding add_dependencies
  add_dependencies-Known arcs arcs' id' [] h = tt
  add_dependencies-Known arcs arcs' id' (dep ∷ deps) h =
      ground (arith, add_dependencies-Known (arcs ++ (dependency_arc dep id' ∷ [])) arcs' id' deps)

  add_modules_known :
      (arcs : List Arc) (ms : List Module)
      → All (IsKnown ids) (module_arcs ms)
      → add_modules ids arcs ms ≡ returns (arcs ++ module_arcs ms)
  unfolding add_modules
  add_modules_known arcs [] k = simp (append-nil)
  add_modules_known arcs (m ∷ ms) k =
      let first = dependency_arcs m.id' m.depends_on in
      let (known, rest) = All-of_append (IsKnown ids) first (module_arcs ms) k in
      ap (λ r. r >>= λ arcs'. add_modules ids arcs' ms)
        (add_dependencies_known arcs m.id' m.depends_on known)
      ∙ add_modules_known (arcs ++ first) ms rest
      ∙ ap returns (append_assoc arcs first (module_arcs ms))

  add_modules-Known :
      (arcs arcs' : List Arc) (ms : List Module)
      → add_modules ids arcs ms ≡ returns arcs'
      → All (IsKnown ids) (module_arcs ms)
  unfolding add_modules
  add_modules-Known arcs arcs' [] h = tt
  add_modules-Known arcs arcs' (m ∷ ms) h =
      let (between, first, rest) =
        >>=-eq-returns (add_dependencies ids arcs m.id' m.depends_on)
          (λ arcs'. add_modules ids arcs' ms) h in
      All-append (IsKnown ids) (dependency_arcs m.id' m.depends_on) (module_arcs ms)
        (add_dependencies-Known arcs between m.id' m.depends_on first)
        (add_modules-Known between arcs' ms rest)

module _ (modules : List Module) (edges : List Edge) where
  build_adjacency_known :
      All (IsKnown (module_ids modules)) (described_arcs modules edges)
      → build_adjacency modules edges ≡ returns (described_arcs modules edges)
  unfolding build_adjacency
  build_adjacency_known k =
      let ids = module_ids modules in
      let (first, rest) = All-of_append (IsKnown ids) (edge_arcs edges) (module_arcs modules) k in
      ap (λ r. r >>= λ arcs. add_modules ids arcs modules) (add_edges_known ids [] edges first)
      ∙ add_modules_known ids (edge_arcs edges) modules rest

  build_adjacency-Known :
      (arcs : List Arc)
      → build_adjacency modules edges ≡ returns arcs
      → All (IsKnown (module_ids modules)) (described_arcs modules edges)
  unfolding build_adjacency
  build_adjacency-Known arcs h =
      let ids = module_ids modules in
      let (between, first, rest) =
        >>=-eq-returns (add_edges ids [] edges) (λ arcs. add_modules ids arcs modules) h in
      All-append (IsKnown ids) (edge_arcs edges) (module_arcs modules)
        (add_edges-Known ids [] between edges first)
        (add_modules-Known ids between arcs modules rest)

  -- `_build_adjacency` succeeds exactly when both ends of each edge and of each dependency are
  -- modules; it then builds the arcs of the edges, followed by those of the dependencies.
  pub build_adjacency_iff :
      (arcs : List Arc)
      → (build_adjacency modules edges ≡ returns arcs) ↔ (
          (arcs ≡ described_arcs modules edges)
          × All (IsKnown (module_ids modules)) (described_arcs modules edges))
  build_adjacency_iff arcs = (
    λ h.
        let k = build_adjacency-Known arcs h in
        let same = sym h ∙ build_adjacency_known k in (cc, k),
    λ (same, k). build_adjacency_known k ∙ ap returns (sym same),
  )

  pub described_arcs-IsGraph :
      All (IsKnown (module_ids modules)) (described_arcs modules edges)
      → IsGraph (described_arcs modules edges) (module_ids modules)
  described_arcs-IsGraph k = record {
    unique = module_ids_unique modules;
    known = λ a m.
        let (from, to) =
          All-of_Member (IsKnown (module_ids modules)) a (described_arcs modules edges) k m in
        (known_once modules a.from_id from, known_once modules a.to_id to);
  }
