-- ===== src/Compiler/Expander/Boundary.antt =====
-- aqueduct/compiler/expander.py: which modules of a sub-Blueprint are entries and exits.
use aqueduct_test.Base.{
  ◌≡◌, ◌≢◌, ◌↔◌, sym, subst, inl, inr, false, not, ◌&&◌, String, string_eq, ◌==◌, contains,
  contains-of_Member, contains→count, Member-of_count, List, map, filter, Member, Member-map,
  Member-of_map, Member-filter, Member-of_filter, Bool-cases, eq-false-ne, arith,
}
use aqueduct_test.Parser.Models.{Module, Edge}
use aqueduct_test.Compiler.Expander.{SubBlueprint, entry_modules, exit_modules}

-- A module into which no edge of the sub-Blueprint leads.
abbrev pub IsEntry : SubBlueprint → String → Type 0
IsEntry sub id' =
    (m : Module) × Member m sub.modules
    × (m.id' ≡ id')
    × ((e : Edge) → Member e sub.edges → e.to_id ≢ id')

-- A module that no edge of the sub-Blueprint leaves, and that is neither an Egress nor a Probe.
abbrev pub IsExit : SubBlueprint → String → Type 0
IsExit sub id' =
    (m : Module) × Member m sub.modules
    × (m.id' ≡ id')
    × ((e : Edge) → Member e sub.edges → e.from_id ≢ id')
    × (m.type' ≢ "Egress")
    × (m.type' ≢ "Probe")

module _ (end_of : Edge → String) (edges : List Edge) (id' : String) where
  untouched : contains (map end_of edges) id' ≡ false → (e : Edge) → Member e edges → end_of e ≢ id'
  untouched free e i same =
      let listed = subst (λ x. Member x (map end_of edges)) same (Member-map end_of e edges i) in
      let found = contains-of_Member id' (map end_of edges) listed in cc

  untouched-contains :
      ((e : Edge) → Member e edges → end_of e ≢ id') → contains (map end_of edges) id' ≡ false
  untouched-contains free = elim (Bool-cases (contains (map end_of edges) id')) [
    | inr out ↦ out
    | inl found ↦
        let listed =
          Member-of_count id' (map end_of edges) (contains→count (map end_of edges) id' found) in
        let (e, i, same) = Member-of_map end_of id' edges listed in absurd (free e i (sym same))
  ]

module _ (sub : SubBlueprint) (id' : String) where
  pub entry_modules_iff : Member id' (entry_modules sub) ↔ IsEntry sub id'
  unfolding entry_modules
  entry_modules_iff =
      let targets = map (λ (e : Edge). e.to_id) sub.edges in
      let is_entry = λ (m : Module). not (contains targets m.id') in
      (
        λ i.
            let (m, kept, same) =
              Member-of_map (λ m'. m'.id') id' (filter is_entry sub.modules) i in
            let (listed, open_end) = Member-of_filter is_entry m sub.modules kept in
            (m, listed, sym same, untouched (λ e. e.to_id) sub.edges id' (ground arith)),
        λ (m, listed, same, free).
            let out = untouched-contains (λ e. e.to_id) sub.edges id' free in
            let kept = Member-filter is_entry m sub.modules listed (ground arith) in
            subst (λ x. Member x (map (λ (m' : Module). m'.id') (filter is_entry sub.modules))) same
              (Member-map (λ m'. m'.id') m (filter is_entry sub.modules) kept),
      )

  pub exit_modules_iff : Member id' (exit_modules sub) ↔ IsExit sub id'
  unfolding exit_modules
  exit_modules_iff =
      let sources = map (λ (e : Edge). e.from_id) sub.edges in
      let is_exit = λ (m : Module).
        not (contains sources m.id') && not (m.type' == "Egress") && not (m.type' == "Probe") in
      (
        λ i.
            let (m, kept, same) = Member-of_map (λ m'. m'.id') id' (filter is_exit sub.modules) i in
            let (listed, open_end) = Member-of_filter is_exit m sub.modules kept in
            (
              m,
              listed,
              sym same,
              untouched (λ e. e.from_id) sub.edges id' (ground arith),
              eq-false-ne (ground arith),
              eq-false-ne (ground arith),
            ),
        λ (m, listed, same, free, no_egress, no_probe).
            let out = untouched-contains (λ e. e.from_id) sub.edges id' free in
            let kept = Member-filter is_exit m sub.modules listed (ground arith) in
            subst (λ x. Member x (map (λ (m' : Module). m'.id') (filter is_exit sub.modules))) same
              (Member-map (λ m'. m'.id') m (filter is_exit sub.modules) kept),
      )
