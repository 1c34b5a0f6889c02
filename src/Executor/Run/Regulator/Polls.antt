-- ===== src/Executor/Run/Regulator/Polls.antt =====
-- When a Regulator's gate opens: which signals count within its timeout.
use aqueduct_test.Base.{◌≡◌, ◌↔◌, ◌⊎◌, ℕ, ◌+◌, ◌*◌, ◌<◌, Bool, true, String, Option, none, some}
use aqueduct_test.Parser.Models.{Module}
use aqueduct_test.Executor.Run.State.{World}
use aqueduct_test.Executor.Run.Regulator.{timeout_of, poll_interval}

module _ (signal : ℕ → Bool) (timeout interval : ℕ) where
  -- A poll from number `asked` on opens the gate, as long as the time waited is below the timeout.
  abbrev Opens : ℕ → ℕ → Type 0
  Opens asked elapsed = (j : ℕ) × (elapsed + j * interval < timeout) × (signal (asked + j) ≡ true)

  abbrev Answers : Option Bool → Type 0 → Type 0
  Answers answer P = (is_open : Bool) × (answer ≡ some is_open) × ((is_open ≡ true) ↔ P)

  -- The first evaluation opens the gate, or a poll before the timeout, each after one more interval.
  abbrev pub OpensInTime : Type 0
  OpensInTime = (signal 0 ≡ true) ⊎ ((j : ℕ) × (j * interval < timeout) × (signal (1 + j) ≡ true))

module _ {F : Type 0} (w : World F) where
  abbrev pub IsOpen : Option (String → ℕ → Bool) → Module → Type 0
  IsOpen none m = Unit
  IsOpen (some evaluate) m = OpensInTime (evaluate m.id') (timeout_of w m) (poll_interval w m)
