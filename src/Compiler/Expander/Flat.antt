-- ===== src/Compiler/Expander/Flat.antt =====
-- What the expansion returns holds no Arcade and no id twice.
use aqueduct_test.Base.{
  ◌≡◌, sym, subst, ap, ◌∙◌, inl, inr, ℕ, zero, suc, ◌+◌, ◌≤◌, Bool, true, false, String, string_eq,
  contains, absent→count, count, Option, List, [], ◌∷◌, any, returns, ◌>>=◌, >>=-eq-returns,
  Bool-cases, arith,
}
use aqueduct_test.Patch.Value.{Fields}
use aqueduct_test.Parser.Models.{Module, Edge}
use aqueduct_test.Compiler.Expander.{SubBlueprint, module_names}
use aqueduct_test.Compiler.Expander.Arcades.{
  is_arcade, expand_each, check_ids, expand_recursive, expand_arcades,
}

check_ids_distinct :
    (seen : List String) (ms : List Module)
    → check_ids seen ms ≡ returns tt
    → ((v : String) → count seen v ≤ 1)
    → (v : String) → count seen v + count (module_names ms) v ≤ 1
unfolding check_ids
check_ids_distinct seen [] h d v = omega (arith, d v)
check_ids_distinct seen (m ∷ ms) h d v =
    let new : contains seen m.id' ≡ false = ground arith in
    let rest : check_ids (m.id' ∷ seen) ms ≡ returns tt = ground arith in
    let d' : (w : String) → count (m.id' ∷ seen) w ≤ 1 = λ w. elim (string_eq.dec w m.id') [
      | yes e ↦ rw e (ground (arith, absent→count seen m.id'))
      | no n ↦ ground (arith, d w)
    ] in
    omega (arith, check_ids_distinct (m.id' ∷ seen) ms rest d' v)

-- No id comes twice.
abbrev pub AreDistinct : List Module → Type 0
AreDistinct ms = (v : String) → count (module_names ms) v ≤ 1

module _ (exists : String → Bool) (parse : String → Option Fields → Option SubBlueprint) where
  recursive_done :
      (levels : ℕ) (ms : List Module) (es : List Edge)
      → any is_arcade ms ≡ false
      → expand_recursive exists parse (suc levels) ms es ≡ returns (ms, es)
  unfolding expand_recursive
  recursive_done levels ms es h = simp h

  recursive_next :
      (levels : ℕ) (ms : List Module) (es : List Edge)
      → any is_arcade ms ≡ true
      → expand_recursive exists parse (suc levels) ms es ≡ (
          expand_each exists parse ms [] [] es >>= λ (result, edges').
          check_ids [] result >>= λ _. expand_recursive exists parse levels result edges')
  unfolding expand_recursive
  recursive_next levels ms es h = simp h

  recursive-Flat :
      (levels : ℕ) (ms : List Module) (es : List Edge) (out : List Module × List Edge)
      → expand_recursive exists parse levels ms es ≡ returns out
      → AreDistinct ms
      → (any is_arcade out.0 ≡ false) × AreDistinct out.0
  unfolding expand_recursive
  recursive-Flat zero ms es out h d = cc
  recursive-Flat (suc levels) ms es out h d = elim (Bool-cases (any is_arcade ms)) [
    | inr none_left ↦
        let same : (ms, es) ≡ out = cc (sym (recursive_done levels ms es none_left) ∙ h) in
        (
          sym (ap (λ (o : List Module × List Edge). any is_arcade o.0) same) ∙ none_left,
          subst (λ (o : List Module × List Edge). AreDistinct o.0) same d,
        )
    | inl some_left ↦
        let (step, each, rest) =
          >>=-eq-returns (expand_each exists parse ms [] [] es)
            (λ (result, edges').
              check_ids [] result >>= λ _. expand_recursive exists parse levels result edges')
            (sym (recursive_next levels ms es some_left) ∙ h) in
        let (passed, unique, deeper) =
          >>=-eq-returns (check_ids [] step.0)
            (λ _. expand_recursive exists parse levels step.0 step.1) rest in
        recursive-Flat levels step.0 step.1 out deeper
          (λ v. omega (arith, check_ids_distinct [] step.0 unique (λ w. omega arith) v))
  ]

  -- If the ids of a Blueprint's modules differ and its Arcades are expanded without an error, then
  -- no Arcade is left, at any depth, and the ids of the modules differ still.
  pub expand_arcades_flat :
      (ms : List Module) (es : List Edge) (out : List Module × List Edge)
      → expand_arcades exists parse ms es ≡ returns out
      → AreDistinct ms
      → (any is_arcade out.0 ≡ false) × AreDistinct out.0
  unfolding expand_arcades
  expand_arcades_flat ms es out h d = recursive-Flat 11 ms es out h d
