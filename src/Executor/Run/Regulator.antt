-- ===== src/Executor/Run/Regulator.antt =====
-- aqueduct/executor/spark/executor.py: how a Regulator's gate is evaluated in `execute`, with the
-- polls until its timeout. Times are in milliseconds, and a poll waits at least 500 of them.
pub mod Polls
use aqueduct_test.Base.{
  ℕ, zero, suc, ◌+◌, max, Bool, true, false, not, ◌&&◌, if◌then◌else◌, ltb, String, Option, none,
  some,
}
use aqueduct_test.Patch.Value.{Value, Fields, get}
use aqueduct_test.Parser.Models.{Module}
use aqueduct_test.Executor.Run.State.{World}

-- The `while`: `asked` polls were made before, and `none` means that the rounds did not suffice.
module _ (signal : ℕ → Bool) (timeout interval : ℕ) where
  unfoldable pub poll : (fuel asked elapsed : ℕ) → Bool → Option Bool
  poll zero asked elapsed is_open = none
  poll (suc fuel) asked elapsed is_open =
      let again = poll fuel (asked + 1) (elapsed + interval) (signal asked) in
      if not is_open && ltb elapsed timeout then again else some is_open

-- A round adds at least 500 to `elapsed`, so there are no more rounds than milliseconds.
unfoldable pub wait_for_gate : (ℕ → Bool) → ℕ → ℕ → Option Bool
unfolding poll
wait_for_gate signal timeout interval =
    let polled = poll signal timeout interval (suc timeout) 1 0 false in
    if not (signal 0) && ltb 0 timeout then polled else some (signal 0)

module _ {F : Type 0} (w : World F) where
  abbrev pub milliseconds_or : ℕ → Option Value → ℕ
  milliseconds_or default none = default
  milliseconds_or default (some v) = w.milliseconds v

  abbrev pub timeout_of : Module → ℕ
  timeout_of m = milliseconds_or 0 (get "timeout_seconds" m.config)

  abbrev pub poll_interval : Module → ℕ
  poll_interval m = max 500 (milliseconds_or 30000 (get "poll_seconds" m.config))

  abbrev pub ask : Option (String → ℕ → Bool) → Module → Option Bool
  ask none m = some true
  ask (some evaluate) m = wait_for_gate (evaluate m.id') (timeout_of m) (poll_interval m)

  unfoldable pub gate_open : Module → Option Bool
  unfolding wait_for_gate get
  gate_open m = ask w.surveyor m
