-- ===== src/Compiler/Expander/Ends.antt =====
-- Where the edges of an expanded Arcade lead.
use aqueduct_test.Base.{
  ◌≡◌, ◌≢◌, sym, subst, ◌∙◌, inl, inr, true, false, String, string_eq, ◌==◌, contains,
  contains→count, Member-of_count, List, [], ◌∷◌, map, Member, here, there, Member-of_append,
  Member-of_map, returns, ◌>>=◌, >>=-eq-returns, Bool-cases, eq-false-ne, Member-of_one, arith,
}
use aqueduct_test.Parser.Models.{Edge}
use aqueduct_test.Compiler.Expander.Boundary.{IsEntry, IsExit, entry_modules_iff, exit_modules_iff}
use aqueduct_test.Compiler.Expander.{
  SubBlueprint, module_names, namespaced, internal_edges, entry_modules, exit_modules, rewire_edge,
  rewire,
}

-- An edge with a new end.
abbrev pub to_entry : String → Edge → String → Edge
to_entry ns e entry = record e { to_id = namespaced ns entry }

abbrev pub from_exit : String → Edge → String → Edge
from_exit ns e exit = record e { from_id = namespaced ns exit }

abbrev pub inside : String → Edge → Edge
inside ns e = record e { from_id = namespaced ns e.from_id; to_id = namespaced ns e.to_id }

-- The edges of an expanded Arcade: those of the sub-Blueprint between two of its modules, with both
-- ends renamed; each parent edge to the Arcade, once to each entry; each other one from the Arcade,
-- once from each exit.
pub data Rewired (ns : String) (sub : SubBlueprint) (parent : List Edge) (e : Edge) : Type 0 where
  internal :
      (f : Edge)
      → Member f sub.edges
      → Member f.from_id (module_names sub.modules)
      → Member f.to_id (module_names sub.modules)
      → e ≡ inside ns f
      → Rewired ns sub parent e
  into_entry :
      (f : Edge) (entry : String)
      → Member f parent
      → f.to_id ≡ ns
      → IsEntry sub entry
      → e ≡ to_entry ns f entry
      → Rewired ns sub parent e
  out_of_exit :
      (f : Edge) (exit : String)
      → Member f parent
      → f.to_id ≢ ns
      → f.from_id ≡ ns
      → IsExit sub exit
      → e ≡ from_exit ns f exit
      → Rewired ns sub parent e

pub internal_next :
    (ns : String) (ids : List String) (f : Edge) (es : List Edge)
    → contains ids f.from_id ≡ true
    → contains ids f.to_id ≡ true
    → internal_edges ns ids (f ∷ es)
      ≡ (internal_edges ns ids es >>= λ rest. returns (inside ns f ∷ rest))
unfolding internal_edges
internal_next ns ids f es from to = simp (from, to)

pub internal_fails :
    (ns : String) (ids : List String) (f : Edge) (es out : List Edge)
    → internal_edges ns ids (f ∷ es) ≡ returns out
    → (contains ids f.from_id ≡ true) × (contains ids f.to_id ≡ true)
unfolding internal_edges
internal_fails ns ids f es out h = ground arith

pub internal_members :
    (ns : String) (ids : List String) (es out : List Edge) (e : Edge)
    → internal_edges ns ids es ≡ returns out
    → Member e out
    → (f : Edge) × Member f es × Member f.from_id ids × Member f.to_id ids × (e ≡ inside ns f)
unfolding internal_edges
internal_members ns ids [] out e h m =
    let same : out ≡ [] = cc in elim (subst (Member e) same m) [ ]
internal_members ns ids (f ∷ es) out e h m =
    let (from, to) = internal_fails ns ids f es out h in
    let (rest, first, last) =
      >>=-eq-returns (internal_edges ns ids es) (λ rest. returns (inside ns f ∷ rest))
        (sym (internal_next ns ids f es from to) ∙ h) in
    let same : out ≡ inside ns f ∷ rest = cc last in
    elim (Member-of_append e (inside ns f ∷ []) rest (subst (Member e) same m)) [
      | inl one ↦ (
        f,
        here f es,
        Member-of_count f.from_id ids (contains→count ids f.from_id from),
        Member-of_count f.to_id ids (contains→count ids f.to_id to),
        Member-of_one e (inside ns f) one,
      )
      | inr later ↦
          let (g, i, from_g, to_g, e_g) = internal_members ns ids es rest e first later in
          (g, there g f es i, from_g, to_g, e_g)
    ]

module _ (ns : String) (sub : SubBlueprint) (parent : List Edge) where
  pub rewire_in :
      (f : Edge)
      → (f.to_id == ns) ≡ true
      → rewire_edge ns (entry_modules sub) (exit_modules sub) f
        ≡ map (to_entry ns f) (entry_modules sub)
  rewire_in f h = simp h

  pub rewire_out :
      (f : Edge)
      → (f.to_id == ns) ≡ false
      → (f.from_id == ns) ≡ true
      → rewire_edge ns (entry_modules sub) (exit_modules sub) f
        ≡ map (from_exit ns f) (exit_modules sub)
  rewire_out f h k = simp (h, k)

  rewire_none :
      (f : Edge)
      → (f.to_id == ns) ≡ false
      → (f.from_id == ns) ≡ false
      → rewire_edge ns (entry_modules sub) (exit_modules sub) f ≡ []
  rewire_none f h k = simp (h, k)

  rewire_edge-Rewired :
      (f : Edge)
      → Member f parent
      → (e : Edge) → Member e (rewire_edge ns (entry_modules sub) (exit_modules sub) f)
      → Rewired ns sub parent e
  rewire_edge-Rewired f i e m = elim (Bool-cases (f.to_id == ns)) [
    | inl to ↦
        let (entry, j, same) =
          Member-of_map (to_entry ns f) e (entry_modules sub)
            (subst (Member e) (rewire_in f to) m) in
        into_entry f entry i (ground arith) ((entry_modules_iff sub entry).0 j) same
    | inr other ↦ elim (Bool-cases (f.from_id == ns)) [
      | inl from ↦
          let (exit, j, same) =
            Member-of_map (from_exit ns f) e (exit_modules sub)
              (subst (Member e) (rewire_out f other from) m) in
          out_of_exit f exit i (eq-false-ne other) (ground arith) ((exit_modules_iff sub exit).0 j)
            same
      | inr neither ↦ elim (subst (Member e) (rewire_none f other neither) m) [ ]
    ]
  ]

  pub rewire-Rewired :
      (es : List Edge)
      → ((f : Edge) → Member f es → Member f parent)
      → (e : Edge) → Member e (rewire ns (entry_modules sub) (exit_modules sub) es)
      → Rewired ns sub parent e
  unfolding rewire
  rewire-Rewired [] all e m = elim m [ ]
  rewire-Rewired (f ∷ es) all e m =
      elim (Member-of_append e (rewire_edge ns (entry_modules sub) (exit_modules sub) f)
        (rewire ns (entry_modules sub) (exit_modules sub) es) m) [
          | inl front ↦ rewire_edge-Rewired f (all f (here f es)) e front
          | inr back ↦ rewire-Rewired es (λ g j. all g (there g f es j)) e back
        ]
