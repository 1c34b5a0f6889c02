-- ===== src/Agent/Budget.antt =====
-- aqueduct/agent/budget.py: `BudgetConfig`, `AttemptRecord` and `BudgetTracker`.
-- Times are whole ticks of a monotonic clock, and a reading of the clock is an argument.
pub mod Axes
pub mod Config
pub mod Tails
pub mod Stop
pub mod Within
mod Tests
use aqueduct_test.Base.{
  ◌≡◌, ℕ, ◌+◌, ◌-◌, ◌≤◌, Bool, true, false, not, ◌&&◌, ◌||◌, String, string_eq, ◌==◌, contains,
  if◌then◌else◌, Option, none, some, List, [], ◌∷◌, ◌++◌, leb, ltb, length, drop, all,
}
use aqueduct_test.Agent.Signature.{ErrorSignature}

pub data StopReason : Type 0 where
  solved exhausted_attempts budget_seconds_exceeded budget_tokens_exceeded : StopReason
  stuck_signature progress_stalled api_error deferred : StopReason

pub record BudgetConfig : Type 0 where
  pub max_reprompts : ℕ
  pub max_seconds : ℕ
  pub max_tokens_total : Option ℕ
  pub same_error_consecutive : ℕ
  pub same_signature_overall : ℕ
  pub progress_stalled_window : ℕ

-- `DEFAULT_BUDGET`, at a clock of one tick a second.
abbrev pub default_budget : BudgetConfig
default_budget = record {
  max_reprompts = 5;
  max_seconds = 120;
  max_tokens_total = some 50_000;
  same_error_consecutive = 2;
  same_signature_overall = 3;
  progress_stalled_window = 3;
}

abbrev pub below_one : Option ℕ → Bool
below_one none = false
below_one (some n) = ltb n 1

-- `__post_init__`: the message of the `ValueError`, if one is raised.
unfoldable pub post_init : BudgetConfig → Option String
post_init c =
    if ltb c.max_reprompts 1
    then some "BudgetConfig.max_reprompts must be >= 1"
    else if leb c.max_seconds 0
    then some "BudgetConfig.max_seconds must be > 0"
    else if below_one c.max_tokens_total
    then some "BudgetConfig.max_tokens_total must be >= 1 or None"
    else if ltb c.same_error_consecutive 2
    then some "BudgetConfig.same_error_consecutive must be >= 2"
    else if ltb c.same_signature_overall c.same_error_consecutive
    then some "BudgetConfig.same_signature_overall must be >= same_error_consecutive"
    else if ltb c.progress_stalled_window 2
    then some "BudgetConfig.progress_stalled_window must be >= 2"
    else none

-- The field `gate_that_rejected`.
pub data Gate : Type 0 where
  schema apply_gate validate provider over_budget defer_rejected : Gate

pub record AttemptRecord : Type 0 where
  pub attempt_num : ℕ
  pub signature : Option ErrorSignature
  pub tokens_in : ℕ
  pub tokens_out : ℕ
  pub latency : ℕ
  pub gate_that_rejected : Option Gate
  pub escalated : Bool
  pub model_cascade_position : Option ℕ

pub record Tracker : Type 0 where
  pub config : BudgetConfig
  pub started_at : ℕ
  pub attempts : List AttemptRecord
  pub tokens_in_total : ℕ
  pub tokens_out_total : ℕ
  pub escalated_once : Bool
  pub current_attempt : ℕ
  pub stop_reason : Option StopReason

unfoldable pub new_tracker : BudgetConfig → ℕ → Tracker
new_tracker config now = record {
  config = config;
  started_at = now;
  attempts = [];
  tokens_in_total = 0;
  tokens_out_total = 0;
  escalated_once = false;
  current_attempt = 0;
  stop_reason = none;
}

unfoldable pub begin_attempt : Tracker → Tracker
begin_attempt t = record t { current_attempt = t.current_attempt + 1 }

-- What the caller of `record` gives; the tracker adds the attempt's number.
pub record Report : Type 0 where
  pub signature : Option ErrorSignature
  pub tokens_in : ℕ
  pub tokens_out : ℕ
  pub latency : ℕ
  pub gate_that_rejected : Option Gate
  pub escalated : Bool
  pub model_cascade_position : Option ℕ

unfoldable pub to_record : ℕ → Report → AttemptRecord
to_record n r = record {
  attempt_num = n;
  signature = r.signature;
  tokens_in = r.tokens_in;
  tokens_out = r.tokens_out;
  latency = r.latency;
  gate_that_rejected = r.gate_that_rejected;
  escalated = r.escalated;
  model_cascade_position = r.model_cascade_position;
}

unfoldable pub record_attempt : Report → Tracker → Tracker
record_attempt r t = record t {
  attempts = t.attempts ++ (to_record t.current_attempt r ∷ []);
  tokens_in_total = t.tokens_in_total + r.tokens_in;
  tokens_out_total = t.tokens_out_total + r.tokens_out;
}

abbrev pub prepend : Option ErrorSignature → List ErrorSignature → List ErrorSignature
prepend none rest = rest
prepend (some s) rest = s ∷ rest

-- `signatures`: those of the attempts that have one.
unfoldable pub signatures : List AttemptRecord → List ErrorSignature
signatures [] = []
signatures (a ∷ attempts) = prepend a.signature (signatures attempts)

-- `xs[-n:]`, which is all of `xs` for `n = 0`.
unfoldable pub tail_of {ℓ} : {A : Type ℓ} → ℕ → List A → List A
tail_of n xs = if leb n 0 then xs else drop (length xs - n) xs

-- `all(s.hash == tail[0].hash for s in tail)`
unfoldable pub all_like_first : List ErrorSignature → Bool
all_like_first [] = true
all_like_first (s ∷ rest) = all (λ x. x.hash == s.hash) (s ∷ rest)

unfoldable pub same_error_consecutive_tripped : Tracker → Bool
same_error_consecutive_tripped t =
    let sigs = signatures t.attempts in
    let need = t.config.same_error_consecutive in
    if ltb (length sigs) need then false else all_like_first (tail_of need sigs)

-- The dict `counts`: `counts.get(h, 0)` and the assignment of its successor.
unfoldable pub count_of : String → List (String × ℕ) → ℕ
count_of h [] = 0
count_of h ((k, n) ∷ counts) = if h == k then n else count_of h counts

unfoldable pub bump : String → List (String × ℕ) → List (String × ℕ)
bump h [] = (h, 1) ∷ []
bump h ((k, n) ∷ counts) = if h == k then (k, n + 1) ∷ counts else (k, n) ∷ bump h counts

unfoldable pub overall_loop : ℕ → List (String × ℕ) → List ErrorSignature → Bool
overall_loop need counts [] = false
overall_loop need counts (s ∷ sigs) =
    let counts' = bump s.hash counts in
    let rest = overall_loop need counts' sigs in
    if leb need (count_of s.hash counts') then true else rest

unfoldable pub same_signature_overall_tripped : Tracker → Bool
same_signature_overall_tripped t =
    overall_loop t.config.same_signature_overall [] (signatures t.attempts)

-- The set `{s.hash for s in tail}`, each hash once.
unfoldable pub distinct_hashes : List ErrorSignature → List String
distinct_hashes [] = []
distinct_hashes (s ∷ sigs) =
    let rest = distinct_hashes sigs in if contains rest s.hash then rest else s.hash ∷ rest

abbrev pub is_one : ℕ → Bool
is_one n = leb n 1 && leb 1 n

unfoldable pub progress_stalled_tripped : Tracker → Bool
progress_stalled_tripped t =
    let sigs = signatures t.attempts in
    let window = t.config.progress_stalled_window in
    if ltb (length sigs) window
    then false
    else is_one (length (distinct_hashes (tail_of window sigs)))

abbrev pub none? : Option ErrorSignature → Bool
none? none = true
none? (some _) = false

-- `last and last.signature is None`
unfoldable pub last_solved : List AttemptRecord → Bool
last_solved [] = false
last_solved (a ∷ []) = none? a.signature
last_solved (a ∷ b ∷ attempts) = last_solved (b ∷ attempts)

abbrev pub over_tokens : Option ℕ → ℕ → Bool
over_tokens none total = false
over_tokens (some cap) total = leb cap total

-- The axes of `check_stop` in their order, for a tracker with no reason yet.
unfoldable pub tripped_axis : ℕ → Tracker → Option StopReason
tripped_axis now t =
    if last_solved t.attempts
    then some solved
    else if leb t.config.max_reprompts t.current_attempt
    then some exhausted_attempts
    else if leb t.config.max_seconds (now - t.started_at)
    then some budget_seconds_exceeded
    else if over_tokens t.config.max_tokens_total (t.tokens_in_total + t.tokens_out_total)
    then some budget_tokens_exceeded
    else if same_signature_overall_tripped t
    then some stuck_signature
    else if progress_stalled_tripped t
    then some progress_stalled
    else if same_error_consecutive_tripped t && t.escalated_once
    then some stuck_signature
    else none

abbrev pub sticky : Option StopReason → Option StopReason → Option StopReason
sticky (some r) new = some r
sticky none new = new

-- The reason is kept in the tracker; once set it stays.
unfoldable pub check_stop : ℕ → Tracker → Tracker
check_stop now t = record t { stop_reason = sticky t.stop_reason (tripped_axis now t) }

unfoldable pub should_escalate : Tracker → Bool
should_escalate t = if t.escalated_once then false else same_error_consecutive_tripped t

unfoldable pub mark_escalated : Tracker → Tracker
mark_escalated t = record t { escalated_once = true }

unfoldable pub mark_stop : StopReason → Tracker → Tracker
mark_stop r t = record t { stop_reason = some r }

unfoldable pub remaining_seconds : ℕ → Tracker → ℕ
remaining_seconds now t = t.config.max_seconds - (now - t.started_at)
