-- ===== src/Compiler/Expander/Arcades.antt =====
-- `_expand_recursive`, which expands the Arcades of a list in turn. An update of the modules that
-- are still to come, and a `TypeError` of it, is kept until they are reached; a second update of a
-- module for the same Arcade changes nothing, so each is done once.
use aqueduct_test.Base.{
  ℕ, zero, suc, Bool, true, false, not, ◌&&◌, String, string_eq, ◌==◌, if◌then◌else◌, contains,
  Option, none, some, List, [], ◌∷◌, ◌++◌, map, filter, any, Try, returns, raises, ◌>>=◌,
}
use aqueduct_test.Patch.Value.{Fields, get}
use aqueduct_test.Parser.Models.{Module, Edge}
use aqueduct_test.Compiler.Expander.{
  SubBlueprint, ExpandError, too_deep, missing_ref, not_found, parse_failed, collision,
  missing_context, namespaced, exit_modules, expand_single,
}
use aqueduct_test.Compiler.Expander.Inputs.{update_module, update_modules}

abbrev pub is_arcade : Module → Bool
is_arcade m = m.type' == "Arcade"

-- The Arcades expanded so far, with the names of their exits.
abbrev pub Updates : Type 0
Updates = List (String × List String)

unfoldable pub update_all : Updates → Module → Try ExpandError Module
unfolding update_module
update_all [] m = returns m
update_all ((id', exits) ∷ updates) m = update_module id' exits m >>= λ m'. update_all updates m'

-- The keys that the parent does not provide.
abbrev provides : Option Fields → String → Bool
unfolding get
provides none key = false
provides (some given) key = elim (get key given) [ none ↦ false | some _ ↦ true ]

abbrev none_missing : String → List String → Try ExpandError (Unit {0})
none_missing id' [] = returns tt
none_missing id' (key ∷ keys) = raises (missing_context id' (key ∷ keys))

abbrev parsed : String → Option SubBlueprint → Try ExpandError SubBlueprint
parsed id' none = raises (parse_failed id')
parsed id' (some sub) = returns sub

-- The first id that comes a second time.
unfoldable pub check_ids : List String → List Module → Try ExpandError (Unit {0})
check_ids seen [] = returns tt
check_ids seen (m ∷ ms) =
    if contains seen m.id' then raises (collision m.id') else check_ids (m.id' ∷ seen) ms

module _ (exists : String → Bool) (parse : String → Option Fields → Option SubBlueprint) where
  abbrev load_ref : Module → Option String → Try ExpandError SubBlueprint
  load_ref m none = raises (missing_ref m.id')
  load_ref m (some path) =
      if path == ""
      then raises (missing_ref m.id')
      else if not (exists path)
      then raises (not_found m.id')
      else parsed m.id' (parse path m.context_override)

  unfoldable pub load : Module → Try ExpandError SubBlueprint
  unfolding provides
  load m = load_ref m m.ref' >>= λ sub.
      none_missing m.id'
        (filter (λ key. not (provides m.context_override key)) sub.required_context)
      >>= λ _. returns sub

  unfoldable pub expand_each :
      List Module → Updates → List Module → List Edge → Try ExpandError (List Module × List Edge)
  unfolding update_all load expand_single exit_modules update_modules
  expand_each [] updates result edges = returns (result, edges)
  expand_each (m0 ∷ ms) updates result edges = update_all updates m0 >>= λ m.
      let kept = expand_each ms updates (result ++ (m ∷ [])) edges in
      if not (is_arcade m)
      then kept
      else load m >>= λ sub. expand_single m sub edges >>= λ (mods, new_edges).
          let exits = map (namespaced m.id') (exit_modules sub) in
          update_modules m.id' exits (result ++ mods) >>= λ result'.
          expand_each ms (updates ++ ((m.id', exits) ∷ [])) result'
            (filter (λ e. not (e.from_id == m.id') && not (e.to_id == m.id')) edges ++ new_edges)

  -- With the levels that are left; none are left below the depth of 10.
  unfoldable pub expand_recursive :
      ℕ → List Module → List Edge → Try ExpandError (List Module × List Edge)
  unfolding expand_each check_ids
  expand_recursive zero modules edges = raises too_deep
  expand_recursive (suc levels) modules edges =
      if not (any is_arcade modules)
      then returns (modules, edges)
      else expand_each modules [] [] edges >>= λ (result, edges').
          check_ids [] result >>= λ _. expand_recursive levels result edges'

  unfoldable pub expand_arcades :
      List Module → List Edge → Try ExpandError (List Module × List Edge)
  unfolding expand_recursive
  expand_arcades modules edges = expand_recursive 11 modules edges
