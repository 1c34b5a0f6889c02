-- ===== src/Agent/Budget/Tails.antt =====
-- The axes that look at the last signatures, and the last attempt, against what they say of them.
use aqueduct_test.Base.{
  ◌≡◌, refl, ◌↔◌, ap, ℕ, ◌-◌, ◌≤◌, true, String, string_eq, ◌==◌, Option, none, some, List, [], ◌∷◌,
  ◌++◌, length, drop, all, contains, All, inl, inr, Bool-cases, arith,
}
use aqueduct_test.Agent.Signature.{ErrorSignature}
use aqueduct_test.Agent.Budget.{
  AttemptRecord, Tracker, is_one, none?, signatures, tail_of, all_like_first, distinct_hashes,
  same_error_consecutive_tripped, progress_stalled_tripped, last_solved,
}
use aqueduct_test.Agent.Budget.Axes.{one_element, length-drop, distinct_hashes-ne_nil}

abbrev HaveHash : String → List ErrorSignature → Type 0
HaveHash h sigs = All (λ s. s.hash ≡ h) sigs

-- The last `n` signatures are there and have the hash.
abbrev pub EndsAlike : ℕ → String → List ErrorSignature → Type 0
EndsAlike n h sigs = (n ≤ length sigs) × HaveHash h (drop (length sigs - n) sigs)

all-HaveHash :
    (h : String) (sigs : List ErrorSignature) → all (λ x. x.hash == h) sigs ≡ true → HaveHash h sigs
all-HaveHash h [] e = tt
all-HaveHash h (s ∷ sigs) e = (ground arith, all-HaveHash h sigs (ground arith))

HaveHash-all :
    (h k : String) (sigs : List ErrorSignature)
    → HaveHash h sigs
    → k ≡ h
    → all (λ x. x.hash == k) sigs ≡ true
HaveHash-all h k [] a e = refl
HaveHash-all h k (s ∷ sigs) (same, later) e = ground (arith, HaveHash-all h k sigs later e)

all_like_first_iff :
    (sigs : List ErrorSignature) → (all_like_first sigs ≡ true) ↔ ((h : String) × HaveHash h sigs)
unfolding all_like_first
all_like_first_iff [] = (λ e. ("", tt), λ a. refl)
all_like_first_iff (s ∷ sigs) = (
  λ e. (s.hash, all-HaveHash s.hash (s ∷ sigs) e),
  λ (h, (same, later)). HaveHash-all h s.hash (s ∷ sigs) (same, later) same,
)

distinct_hashes-HaveHash :
    (d : String) (sigs : List ErrorSignature) → distinct_hashes sigs ≡ d ∷ [] → HaveHash d sigs
unfolding distinct_hashes
distinct_hashes-HaveHash d [] e = tt
distinct_hashes-HaveHash d (s ∷ []) e = (ground arith, tt)
distinct_hashes-HaveHash d (s ∷ r ∷ sigs) e =
    elim (Bool-cases (contains (distinct_hashes (r ∷ sigs)) s.hash)) [
      | inl listed ↦
          let one : distinct_hashes (r ∷ sigs) ≡ d ∷ [] = ground arith in
          (ground arith, distinct_hashes-HaveHash d (r ∷ sigs) one)
      | inr new ↦ absurd (distinct_hashes-ne_nil r sigs (ground arith))
    ]

HaveHash-distinct_hashes :
    (h : String) (s : ErrorSignature) (sigs : List ErrorSignature)
    → HaveHash h (s ∷ sigs)
    → distinct_hashes (s ∷ sigs) ≡ h ∷ []
unfolding distinct_hashes
HaveHash-distinct_hashes h s [] (same, later) = ground arith
HaveHash-distinct_hashes h s (r ∷ sigs) (same, later) =
    ground (arith, HaveHash-distinct_hashes h r sigs later)

is_one_iff :
    (sigs : List ErrorSignature)
    → 1 ≤ length sigs
    → (is_one (length (distinct_hashes sigs)) ≡ true) ↔ ((h : String) × HaveHash h sigs)
is_one_iff [] filled = absurd (omega arith)
is_one_iff (s ∷ sigs) filled = (
  λ one.
      let (d, e) = one_element (distinct_hashes (s ∷ sigs)) one in
      (d, distinct_hashes-HaveHash d (s ∷ sigs) e),
  λ (h, a). rw (HaveHash-distinct_hashes h s sigs a) refl,
)

-- The consecutive axis trips exactly when the last signatures, as many as the bound says, are alike.
pub same_error_consecutive_tripped_iff :
    (t : Tracker)
    → 1 ≤ t.config.same_error_consecutive
    → (same_error_consecutive_tripped t ≡ true)
      ↔ ((h : String) × EndsAlike t.config.same_error_consecutive h (signatures t.attempts))
unfolding same_error_consecutive_tripped tail_of
same_error_consecutive_tripped_iff t positive =
    let sigs = signatures t.attempts in
    let need = t.config.same_error_consecutive in
    let iff = all_like_first_iff (drop (length sigs - need) sigs) in
    (
      λ trips. let (h, a) = iff.0 (ground arith) in (h, (ground arith, a)),
      λ (h, (long, a)). let alike = iff.1 (h, a) in ground arith,
    )

-- The window is stalled exactly when it is filled with signatures alike.
pub progress_stalled_tripped_iff :
    (t : Tracker)
    → 1 ≤ t.config.progress_stalled_window
    → (progress_stalled_tripped t ≡ true)
      ↔ ((h : String) × EndsAlike t.config.progress_stalled_window h (signatures t.attempts))
unfolding progress_stalled_tripped tail_of
progress_stalled_tripped_iff t positive =
    let sigs = signatures t.attempts in
    let window = t.config.progress_stalled_window in
    let back = drop (length sigs - window) sigs in
    let filled : window ≤ length sigs → 1 ≤ length back =
      λ long. omega (arith, length-drop (length sigs - window) sigs) in
    (
      λ trips.
          let long : window ≤ length sigs = ground arith in
          let (h, a) = (is_one_iff back (filled long)).0 (ground arith) in (h, (long, a)),
      λ (h, (long, a)). let one = (is_one_iff back (filled long)).1 (h, a) in ground arith,
    )

-- The last attempt has no signature of an error.
abbrev pub EndsSolved : List AttemptRecord → Type 0
EndsSolved attempts =
    (front : List AttemptRecord) × (a : AttemptRecord) × (attempts ≡ front ++ (a ∷ []))
    × (a.signature ≡ none)

none?-eq : (o : Option ErrorSignature) → none? o ≡ true → o ≡ none
none?-eq none e = refl
none?-eq (some s) e = cc

last_solved-EndsSolved :
    (attempts : List AttemptRecord) → last_solved attempts ≡ true → EndsSolved attempts
unfolding last_solved
last_solved-EndsSolved [] e = cc
last_solved-EndsSolved (a ∷ []) e = ([], a, refl, none?-eq a.signature e)
last_solved-EndsSolved (a ∷ b ∷ attempts) e =
    let (front, c, same, solved) = last_solved-EndsSolved (b ∷ attempts) e in
    (a ∷ front, c, ap (λ xs. a ∷ xs) same, solved)

last_solved-append :
    (front : List AttemptRecord) (a : AttemptRecord)
    → a.signature ≡ none
    → last_solved (front ++ (a ∷ [])) ≡ true
unfolding last_solved
last_solved-append [] a e = rw e refl
last_solved-append (b ∷ []) a e = rw e refl
last_solved-append (b ∷ c ∷ front) a e = last_solved-append (c ∷ front) a e

pub last_solved_iff :
    (attempts : List AttemptRecord) → (last_solved attempts ≡ true) ↔ EndsSolved attempts
last_solved_iff attempts = (
  last_solved-EndsSolved attempts,
  λ (front, a, same, solved). rw same (last_solved-append front a solved),
)
