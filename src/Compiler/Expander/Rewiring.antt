-- ===== src/Compiler/Expander/Rewiring.antt =====
-- The edges of an expanded Arcade are exactly those that its sub-Blueprint and its neighbours ask for.
use aqueduct_test.Base.{
  ◌≡◌, ◌↔◌, sym, subst, ap, ◌∙◌, inl, inr, String, string_eq, List, ◌∷◌, ◌++◌, map, Member, here,
  there, Member-append_left, Member-append_right, Member-of_append, Member-map, Try, returns, ◌>>=◌,
  >>=-eq-returns, arith,
}
use aqueduct_test.Parser.Models.{Module, Edge}
use aqueduct_test.Compiler.Expander.{
  SubBlueprint, ExpandError, no_entry, no_exit, module_names, expanded, internal_edges,
  entry_modules, exit_modules, rewire_edge, rewire, not_empty, expand_single,
}
use aqueduct_test.Compiler.Expander.Boundary.{entry_modules_iff, exit_modules_iff}
use aqueduct_test.Compiler.Expander.Ends.{
  to_entry, from_exit, inside, Rewired, internal, into_entry, out_of_exit, internal_next,
  internal_fails, internal_members, rewire_in, rewire_out, rewire-Rewired,
}

internal_rest :
    (ns : String) (ids : List String) (g : Edge) (es out : List Edge)
    → internal_edges ns ids (g ∷ es) ≡ returns out
    → (rest : List Edge) × (internal_edges ns ids es ≡ returns rest) × (inside ns g ∷ rest ≡ out)
internal_rest ns ids g es out h =
    let (from, to) = internal_fails ns ids g es out h in
    let (rest, first, last) =
      >>=-eq-returns (internal_edges ns ids es) (λ rest. returns (inside ns g ∷ rest))
        (sym (internal_next ns ids g es from to) ∙ h) in
    (rest, first, cc last)

internal_listed :
    (ns : String) (ids : List String) (es out : List Edge) (f : Edge)
    → internal_edges ns ids es ≡ returns out
    → Member f es
    → Member (inside ns f) out
internal_listed ns ids _ out f h (here _ es) =
    let (rest, first, same) = internal_rest ns ids f es out h in
    subst (Member (inside ns f)) same (here (inside ns f) rest)
internal_listed ns ids _ out f h (there _ g es i) =
    let (rest, first, same) = internal_rest ns ids g es out h in
    subst (Member (inside ns f)) same
      (there (inside ns f) (inside ns g) rest (internal_listed ns ids es rest f first i))

module _ (ns : String) (sub : SubBlueprint) (parent : List Edge) where
  rewire_listed :
      (es : List Edge) (f e : Edge)
      → Member f es
      → Member e (rewire_edge ns (entry_modules sub) (exit_modules sub) f)
      → Member e (rewire ns (entry_modules sub) (exit_modules sub) es)
  unfolding rewire
  rewire_listed _ f e (here _ es) m =
      Member-append_left e (rewire_edge ns (entry_modules sub) (exit_modules sub) f)
        (rewire ns (entry_modules sub) (exit_modules sub) es) m
  rewire_listed _ f e (there _ g es i) m =
      Member-append_right e (rewire_edge ns (entry_modules sub) (exit_modules sub) g)
        (rewire ns (entry_modules sub) (exit_modules sub) es) (rewire_listed es f e i m)

  Rewired-listed :
      (inner : List Edge) (e : Edge)
      → internal_edges ns (module_names sub.modules) sub.edges ≡ returns inner
      → Rewired ns sub parent e
      → Member e (inner ++ rewire ns (entry_modules sub) (exit_modules sub) parent)
  Rewired-listed inner e h (internal f i from to same) =
      Member-append_left e inner (rewire ns (entry_modules sub) (exit_modules sub) parent) (
        subst (λ x. Member x inner) (sym same)
          (internal_listed ns (module_names sub.modules) sub.edges inner f h i))
  Rewired-listed inner e h (into_entry f entry i to is_entry same) =
      let j =
        Member-map (to_entry ns f) entry (entry_modules sub)
          ((entry_modules_iff sub entry).1 is_entry) in
      let k =
        subst (Member (to_entry ns f entry)) (sym (rewire_in ns sub parent f (ground arith))) j in
      Member-append_right e inner (rewire ns (entry_modules sub) (exit_modules sub) parent) (
        rewire_listed parent f e i (
          subst (λ x. Member x (rewire_edge ns (entry_modules sub) (exit_modules sub) f)) (sym same)
            k))
  Rewired-listed inner e h (out_of_exit f exit i other from is_exit same) =
      let j =
        Member-map (from_exit ns f) exit (exit_modules sub)
          ((exit_modules_iff sub exit).1 is_exit) in
      let k =
        subst (Member (from_exit ns f exit))
          (sym (rewire_out ns sub parent f (ground arith) (ground arith))) j in
      Member-append_right e inner (rewire ns (entry_modules sub) (exit_modules sub) parent) (
        rewire_listed parent f e i (
          subst (λ x. Member x (rewire_edge ns (entry_modules sub) (exit_modules sub) f)) (sym same)
            k))

expand_single-parts :
    (arcade : Module) (sub : SubBlueprint) (parent : List Edge) (mods : List Module)
    (es : List Edge)
    → expand_single arcade sub parent ≡ returns (mods, es)
    → (inner : List Edge) × (internal_edges arcade.id' (module_names sub.modules) sub.edges
        ≡ returns inner)
      × (inner ++ rewire arcade.id' (entry_modules sub) (exit_modules sub) parent ≡ es)
unfolding expand_single
expand_single-parts arcade sub parent mods es h =
    let ns = arcade.id' in
    let ids = module_names sub.modules in
    let entries = entry_modules sub in
    let exits = exit_modules sub in
    let finish : List Edge → Unit {0} → Try ExpandError (List Module × List Edge) = λ inner passed.
      returns (map (expanded ns ids) sub.modules, inner ++ rewire ns entries exits parent) in
    let check_exits : List Edge → Unit {0} → Try ExpandError (List Module × List Edge) =
      λ inner passed. not_empty exits (no_exit ns) >>= finish inner in
    let (inner, first, r1) =
      >>=-eq-returns (internal_edges ns ids sub.edges)
        (λ inner'. not_empty entries (no_entry ns) >>= check_exits inner') h in
    let (_, _, r2) = >>=-eq-returns (not_empty entries (no_entry ns)) (check_exits inner) r1 in
    let (_, _, r3) = >>=-eq-returns (not_empty exits (no_exit ns)) (finish inner) r2 in
    let same : (map (expanded ns ids) sub.modules, inner ++ rewire ns entries exits parent)
        ≡ (mods, es) =
      cc r3 in
    (inner, first, ap (λ (p : List Module × List Edge). p.1) same)

-- Where the expansion of an Arcade succeeds, an edge is among those that it returns exactly if it is
-- an edge of the sub-Blueprint with both ends renamed, or a parent edge to the Arcade led instead to
-- a module into which no edge of the sub-Blueprint leads, or one from the Arcade (and not to it) led
-- from a module that no edge of the sub-Blueprint leaves and that is neither an Egress nor a Probe.
pub expand_single_iff :
    (arcade : Module) (sub : SubBlueprint) (parent : List Edge) (mods : List Module)
    (es : List Edge)
    → expand_single arcade sub parent ≡ returns (mods, es)
    → (e : Edge) → Member e es ↔ Rewired arcade.id' sub parent e
expand_single_iff arcade sub parent mods es h e =
    let ns = arcade.id' in
    let (inner, first, same) = expand_single-parts arcade sub parent mods es h in
    let rewired = rewire ns (entry_modules sub) (exit_modules sub) parent in
    (
      λ m. elim (Member-of_append e inner rewired (subst (Member e) (sym same) m)) [
        | inl front ↦
            let (f, i, from, to, e_f) =
              internal_members ns (module_names sub.modules) sub.edges inner e first front in
            internal f i from to e_f
        | inr back ↦ rewire-Rewired ns sub parent parent (λ g j. j) e back
      ],
      λ r. subst (Member e) same (Rewired-listed ns sub parent inner e first r),
    )
