-- ===== src/Executor/Selection/Selected.antt =====
-- How the selection of modules ends.
use aqueduct_test.Base.{
  ◌≡◌, refl, ap, ◌∙◌, ◌↔◌, inl, inr, ◌≤◌, false, String, string_eq, contains, contains→count,
  absent→count, count, count-filter, Option, none, some, List, filter, Try, returns, raises, ◌>>=◌,
  arith,
}
use aqueduct_test.Parser.Models.{Module, Edge}
use aqueduct_test.Parser.Graph.{module_ids}
use aqueduct_test.Executor.Selection.{
  SelectError, from_not_found, to_not_found, given_name, back, add_taps, pick, select,
  selector_included,
}
use aqueduct_test.Executor.Selection.Included.{
  IsFrom, IsTo, IsSelection, add_taps_keep, add_taps_tap, add_taps_only, ahead_lem, back_lem,
}

-- How the selection ends.
pub data Selected (modules : List Module) (edges : List Edge) (from to : Option String)
    (result : Try SelectError (Option (List String))) : Type 0 where
  everything :
      from ≡ none → to ≡ none → result ≡ returns none → Selected modules edges from to result
  unknown_from :
      (name : String)
      → from ≡ some name
      → contains (module_ids modules) name ≡ false
      → result ≡ raises (from_not_found name)
      → Selected modules edges from to result
  unknown_to :
      (name : String)
      → to ≡ some name
      → contains (module_ids modules) name ≡ false
      → result ≡ raises (to_not_found name)
      → Selected modules edges from to result
  picked :
      (included : List String)
      → result ≡ returns (some included)
      → IsSelection modules edges from to included
      → Selected modules edges from to result

in_both_iff :
    (forward backward : List String) (v : String)
    → (1 ≤ count (filter (λ w. contains backward w) forward) v)
      ↔ ((1 ≤ count forward v) × (1 ≤ count backward v))
in_both_iff forward backward v =
    let counted = count-filter (λ w. contains backward w) forward v in
    (
      λ h. ground (arith, contains→count backward v),
      λ (f, b). ground (arith, absent→count backward v),
    )

module _ (modules : List Module) (edges : List Edge) (from to : Option String) where
  add_taps-IsSelection :
      (forward backward : List String)
      → ((v : String) → (1 ≤ count forward v) ↔ IsFrom modules edges from v)
      → ((v : String) → (1 ≤ count backward v) ↔ IsTo modules edges to v)
      → IsSelection modules edges from to
          (add_taps (filter (λ w. contains backward w) forward) modules)
  add_taps-IsSelection forward backward f b =
      let both = filter (λ w. contains backward w) forward in
      let in_both : (v : String)
          → IsFrom modules edges from v
          → IsTo modules edges to v
          → 1 ≤ count both v =
        λ v x y. (in_both_iff forward backward v).1 ((f v).1 x, (b v).1 y) in
      record {
        between = λ v x y. add_taps_keep both modules v (in_both v x y);
        tapped =
            λ p u t x y. add_taps_tap both modules p u t.listed t.probe t.attached (in_both u x y);
        only = λ v h. elim (add_taps_only both modules v h) [
          | inr tap ↦ inr tap
          | inl early ↦
              let (x, y) = (in_both_iff forward backward v).0 early in inl ((f v).0 x, (b v).0 y)
        ];
      }

  pick-Selected : Selected modules edges from to (pick modules edges from to)
  unfolding pick
  pick-Selected =
      let finish = λ (forward backward : List String).
        returns (some (add_taps (filter (λ v. contains backward v) forward) modules)) in
      let go_on = λ (forward : List String). back modules edges to >>= finish forward in
      elim (ahead_lem modules edges from) [
        | inl (name, e, missing, raised) ↦
            unknown_from name e missing (ap (λ r. r >>= go_on) raised)
        | inr (forward, ends, f) ↦ elim (back_lem modules edges to) [
          | inl (name, e, missing, raised) ↦
              unknown_to name e missing
                (ap (λ r. r >>= go_on) ends ∙ ap (λ r. r >>= finish forward) raised)
          | inr (backward, ends', b) ↦
              picked (add_taps (filter (λ v. contains backward v) forward) modules)
                (ap (λ r. r >>= go_on) ends ∙ ap (λ r. r >>= finish forward) ends')
                (add_taps-IsSelection forward backward f b)
        ]
      ]

select-Selected :
    (modules : List Module) (edges : List Edge) (from to : Option String)
    → Selected modules edges from to (select modules edges from to)
unfolding select
select-Selected modules edges none none = everything refl refl refl
select-Selected modules edges (some name) to = pick-Selected modules edges (some name) to
select-Selected modules edges none (some name) = pick-Selected modules edges none (some name)

-- `_selector_included` answers `None` when neither name is given, raises an error for a given name
-- that is no module, and otherwise returns a set with each module from which data flows on from
-- the first and to the second, with each probe that taps one of them, and with nothing else but
-- probes that tap an included module.
pub selector_included-Selected :
    (modules : List Module) (edges : List Edge) (from_module to_module : Option String)
    → Selected modules edges
        (given_name from_module)
        (given_name to_module)
        (selector_included modules edges from_module to_module)
unfolding selector_included
selector_included-Selected modules edges from_module to_module =
    select-Selected modules edges (given_name from_module) (given_name to_module)
