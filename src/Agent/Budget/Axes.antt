-- ===== src/Agent/Budget/Axes.antt =====
-- The three axes that compare error signatures, against plain counts.
use aqueduct_test.Base.{
  ◌≡◌, refl, ◌↔◌, ℕ, zero, suc, ◌+◌, ◌-◌, ◌≤◌, ◌<◌, true, String, string_eq, ◌==◌, if◌then◌else◌,
  List, [], ◌∷◌, leb, length, drop, arith, Bool-cases, inl, inr,
}
use aqueduct_test.Agent.Signature.{ErrorSignature}
use aqueduct_test.Agent.Budget.{
  Tracker, is_one, signatures, tail_of, count_of, bump, overall_loop, distinct_hashes,
  same_signature_overall_tripped, progress_stalled_tripped,
}

-- How often a hash stands in a list.
unfoldable pub count : String → List ErrorSignature → ℕ
count h [] = 0
count h (s ∷ sigs) = let rest = count h sigs in if h == s.hash then rest + 1 else rest

count_of-bump :
    (h k : String) (counts : List (String × ℕ))
    → count_of h (bump k counts) ≡ (if h == k then count_of h counts + 1 else count_of h counts)
unfolding count_of bump
count_of-bump h k [] = ground arith
count_of-bump h k ((j, n) ∷ counts) = ground (arith, count_of-bump h k counts)

-- Some hash reaches the bound, counted from `counts` on.
abbrev Reaches : ℕ → List (String × ℕ) → List ErrorSignature → Type 0
Reaches need counts sigs = (h : String) × (need ≤ count_of h counts + count h sigs)

overall_loop_sound :
    (need : ℕ) (counts : List (String × ℕ)) (sigs : List ErrorSignature)
    → overall_loop need counts sigs ≡ true
    → Reaches need counts sigs
unfolding overall_loop count
overall_loop_sound need counts [] h = cc
overall_loop_sound need counts (s ∷ sigs) h =
    elim (Bool-cases (leb need (count_of s.hash (bump s.hash counts)))) [
      | inl reached ↦ (s.hash, ground (arith, count_of-bump s.hash s.hash counts))
      | inr below ↦
          let later = overall_loop_sound need (bump s.hash counts) sigs (ground arith) in
          (later.0, ground (arith, later.1, count_of-bump later.0 s.hash counts))
    ]

overall_loop_complete :
    (need : ℕ) (counts : List (String × ℕ)) (sigs : List ErrorSignature) (h : String)
    → count_of h counts < need
    → need ≤ count_of h counts + count h sigs
    → overall_loop need counts sigs ≡ true
unfolding overall_loop count
overall_loop_complete need counts [] h below reaches = absurd (omega arith)
overall_loop_complete need counts (s ∷ sigs) h below reaches = ground (
  arith,
  count_of-bump h s.hash counts,
  count_of-bump s.hash s.hash counts,
  overall_loop_complete need (bump s.hash counts) sigs h,
)

-- The overall axis trips exactly when some hash stands in the attempts' signatures as often as
-- the bound says, for a bound of at least 1.
pub same_signature_overall_tripped_iff :
    (t : Tracker)
    → 1 ≤ t.config.same_signature_overall
    → (same_signature_overall_tripped t ≡ true)
      ↔ ((h : String) × (t.config.same_signature_overall ≤ count h (signatures t.attempts)))
unfolding same_signature_overall_tripped count_of
same_signature_overall_tripped_iff t positive =
    let need = t.config.same_signature_overall in
    let sigs = signatures t.attempts in
    (
      λ tripped. let (h, reached) = overall_loop_sound need [] sigs tripped in (h, omega arith),
      λ (h, reaches). overall_loop_complete need [] sigs h positive (omega arith),
    )

pub distinct_hashes-ne_nil :
    (s : ErrorSignature) (sigs : List ErrorSignature) → distinct_hashes (s ∷ sigs) ≡ [] → ⊥
unfolding distinct_hashes
distinct_hashes-ne_nil s sigs e = ground arith

-- Where one hash is left, every signature has it.
count-distinct_hashes :
    (d : String) (sigs : List ErrorSignature)
    → distinct_hashes sigs ≡ d ∷ []
    → count d sigs ≡ length sigs
unfolding distinct_hashes count
count-distinct_hashes d [] e = cc
count-distinct_hashes d (s ∷ []) e = ground arith
count-distinct_hashes d (s ∷ r ∷ sigs) e =
    ground (arith, count-distinct_hashes d (r ∷ sigs), distinct_hashes-ne_nil r sigs)

pub one_element : (xs : List String) → is_one (length xs) ≡ true → (d : String) × (xs ≡ d ∷ [])
one_element [] h = cc
one_element (d ∷ []) h = (d, refl)
one_element (d ∷ e ∷ xs) h = ground arith

count-drop-le :
    (n : ℕ) (h : String) (sigs : List ErrorSignature) → count h (drop n sigs) ≤ count h sigs
unfolding count
count-drop-le zero h sigs = omega arith
count-drop-le (suc n) h [] = omega arith
count-drop-le (suc n) h (s ∷ sigs) = ground (arith, count-drop-le n h sigs)

pub length-drop : (n : ℕ) (sigs : List ErrorSignature) → length (drop n sigs) ≡ length sigs - n
length-drop zero sigs = omega arith
length-drop (suc n) [] = omega arith
length-drop (suc n) (s ∷ sigs) = omega (arith, length-drop n sigs)

stalled_window :
    (window : ℕ) (sigs : List ErrorSignature)
    → window ≤ length sigs
    → is_one (length (distinct_hashes (drop (length sigs - window) sigs))) ≡ true
    → (h : String) × (window ≤ count h sigs)
stalled_window window sigs long one =
    let before = length sigs - window in
    let (d, e) = one_element (distinct_hashes (drop before sigs)) one in
    (
      d,
      omega (
        arith,
        count-distinct_hashes d (drop before sigs) e,
        count-drop-le before d sigs,
        length-drop before sigs,
      ),
    )

-- A stalled window is a window of one hash, which stands in it at every place.
pub progress_stalled-count :
    (t : Tracker)
    → 1 ≤ t.config.progress_stalled_window
    → progress_stalled_tripped t ≡ true
    → (h : String) × (t.config.progress_stalled_window ≤ count h (signatures t.attempts))
unfolding progress_stalled_tripped tail_of
progress_stalled-count t positive tripped =
    stalled_window t.config.progress_stalled_window (signatures t.attempts) (ground arith)
      (ground arith)
