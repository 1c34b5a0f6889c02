-- ===== src/Executor/Run/Owned.antt =====
-- The keys of the frame store that belong to a module: its id, and its id with a dot and a port
-- behind it.
use text.Mathlib.TextLemmas.{nil-append, cons-append, append-nil}
use aqueduct_test.Base.{
  ◌≡◌, refl, Bool, true, false, ◌||◌, String, string_eq, ◌==◌, ◌<>◌, after, Option, none, some,
  arith,
}

after-append : (p s : String) → after p (p <> s) ≡ some s
unfolding after
after-append String.[] s = rw (nil-append s) refl
after-append (String.◌∷◌ c p) s = rw (cons-append c p s) (ground (arith, after-append p s))

after_self : (p : String) → after p p ≡ some ""
after_self p = rw (append-nil p) at (after-append p "")

abbrev is_given {ℓ} : {A : Type ℓ} → Option A → Bool
is_given none = false
is_given (some _) = true

abbrev is_port : Option String → Bool
unfolding after
is_port none = false
is_port (some rest) = rest == "" || is_given (after "." rest)

unfoldable pub owns : String → String → Bool
unfolding is_port after
owns id' key = is_port (after id' key)

pub owns_self : (id' : String) → owns id' id' ≡ true
unfolding owns
owns_self id' = rw (after_self id') (ground arith)

pub owns_port : (id' port : String) → owns id' (id' <> ("." <> port)) ≡ true
unfolding owns
owns_port id' port = rw (after-append id' ("." <> port), after-append "." port) (ground arith)
