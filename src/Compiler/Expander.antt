-- ===== src/Compiler/Expander.antt =====
-- aqueduct/compiler/expander.py, without the provenance of the expanded modules. The files and
-- `parse` are parameters: which refs exist, and the sub-Blueprint that parsing one gives.
pub mod Inputs
pub mod Arcades
pub mod Flat
pub mod Boundary
pub mod Ends
pub mod Rewiring
mod Tests
use aqueduct_test.Base.{
  ℕ, zero, suc, Bool, true, false, not, ◌&&◌, String, string_eq, ◌==◌, if◌then◌else◌, ◌<>◌,
  contains, Option, none, some, List, [], ◌∷◌, ◌++◌, map, filter, any, Try, returns, raises, ◌>>=◌,
}
use aqueduct_test.Patch.Value.{Fields, end, get}
use aqueduct_test.Parser.Models.{Module, Edge}

-- The fields of a parsed sub-Blueprint that the expansion reads.
pub record SubBlueprint : Type 0 where
  pub modules : List Module
  pub edges : List Edge
  pub required_context : List String

-- The `ExpandError`s, and the `KeyError` and `TypeError` of malformed edges and inputs.
pub data ExpandError : Type 0 where
  too_deep : ExpandError
  missing_ref not_found parse_failed no_entry no_exit collision : String → ExpandError
  missing_context : String → List String → ExpandError
  key_error type_error : String → ExpandError

abbrev pub module_names : List Module → List String
module_names modules = map (λ m. m.id') modules

-- `f"{ns}__{m.id}"`
abbrev pub namespaced : String → String → String
namespaced ns id' = ns <> "__" <> id'

-- `id_map.get(name) if name else None`
abbrev pub reference : String → List String → Option String → Option String
reference ns ids none = none
reference ns ids (some name) =
    if name == "" then none else if contains ids name then some (namespaced ns name) else none

-- `id_map.get(d, d)`
abbrev pub dependency : String → List String → String → String
dependency ns ids name = if contains ids name then namespaced ns name else name

unfoldable pub expanded : String → List String → Module → Module
expanded ns ids m = record m {
  id' = namespaced ns m.id';
  attach_to = reference ns ids m.attach_to;
  spillway = reference ns ids m.spillway;
  depends_on = map (dependency ns ids) m.depends_on;
}

unfoldable pub internal_edges : String → List String → List Edge → Try ExpandError (List Edge)
internal_edges ns ids [] = returns []
internal_edges ns ids (e ∷ es) =
    if not (contains ids e.from_id)
    then raises (key_error e.from_id)
    else if not (contains ids e.to_id)
    then raises (key_error e.to_id)
    else internal_edges ns ids es >>= λ rest.
        returns
          (record e { from_id = namespaced ns e.from_id; to_id = namespaced ns e.to_id } ∷ rest)

unfoldable pub entry_modules : SubBlueprint → List String
entry_modules sub =
    let targets = map (λ e. e.to_id) sub.edges in
    module_names (filter (λ m. not (contains targets m.id')) sub.modules)

unfoldable pub exit_modules : SubBlueprint → List String
exit_modules sub =
    let sources = map (λ e. e.from_id) sub.edges in
    module_names (
      filter
        (λ m. not (contains sources m.id') && not (m.type' == "Egress") && not (m.type' == "Probe"))
        sub.modules)

-- What becomes of a parent edge at the Arcade.
abbrev pub rewire_edge : String → List String → List String → Edge → List Edge
rewire_edge ns entries exits e =
    if e.to_id == ns
    then map (λ entry. record e { to_id = namespaced ns entry }) entries
    else if e.from_id == ns
    then map (λ exit. record e { from_id = namespaced ns exit }) exits
    else []

unfoldable pub rewire : String → List String → List String → List Edge → List Edge
rewire ns entries exits [] = []
rewire ns entries exits (e ∷ es) = rewire_edge ns entries exits e ++ rewire ns entries exits es

abbrev pub not_empty : List String → ExpandError → Try ExpandError (Unit {0})
not_empty [] error = raises error
not_empty (_ ∷ _) error = returns tt

unfoldable pub expand_single :
    Module → SubBlueprint → List Edge → Try ExpandError (List Module × List Edge)
unfolding expanded internal_edges entry_modules exit_modules rewire
expand_single arcade sub parent_edges =
    let ns = arcade.id' in
    let ids = module_names sub.modules in
    internal_edges ns ids sub.edges >>= λ internal.
    not_empty (entry_modules sub) (no_entry ns) >>= λ _.
    not_empty (exit_modules sub) (no_exit ns) >>= λ _. returns (
      map (expanded ns ids) sub.modules,
      internal ++ rewire ns (entry_modules sub) (exit_modules sub) parent_edges,
    )
