-- ===== src/Agent/Loop/Interface.antt =====
-- What the loop takes from outside: the provider, the parser of its answer (agent/parse.py), the
-- signatures of errors (agent/signature.py), the texts sent back, the callbacks and the clock.
use aqueduct_test.Base.{ℕ, Bool, String, Option, List}
use aqueduct_test.Patch.Grammar.{PatchSpec}
use aqueduct_test.Agent.Signature.{ErrorSignature}

pub data Message : Type 0 where
  user : String → Message
  assistant : String → Message

pub data Reply (Exc : Type 0) : Type 0 where
  returned : (raw : String) (tokens_in tokens_out : ℕ) → Reply Exc
  raised : Exc → Reply Exc

-- A patch with the names of the repairs, one of the three exceptions that are caught, or another
-- exception, which leaves `generate_agent_patch`.
pub data ParseReply (Exc : Type 0) : Type 0 where
  parsed : PatchSpec → (recovery : List String) → ParseReply Exc
  not_valid : Exc → ParseReply Exc
  not_json : Exc → ParseReply Exc
  not_a_patch : Exc → ParseReply Exc
  not_caught : Exc → ParseReply Exc

pub data ValidateReply : Type 0 where
  answered : Bool → (feedback : String) → ValidateReply
  raised : (message : String) → ValidateReply

-- The tuple padded with `None` to four parts, or the class and text of an exception.
pub data ApplyReply : Type 0 where
  answered : Bool → (class message where_at : Option String) → ApplyReply
  raised : (class message : String) → ApplyReply

pub record Env : Type 1 where
  pub Exc : Type 0
  pub text_of : Exc → String
  pub is_timeout : Exc → Bool
  -- The readings of the clock in an attempt, in the order of the code.
  pub clock_created : ℕ
  pub clock_deadline : ℕ → ℕ
  pub clock_start : ℕ → ℕ
  pub clock_end : ℕ → ℕ
  pub clock_check : ℕ → ℕ
  pub first_prompt : String
  pub call_agent : ℕ → List Message → (escalated : Bool) → (deadline : ℕ) → Reply Exc
  pub parse_patch_spec : ℕ → String → ParseReply Exc
  pub format_reprompt_error : Exc → String → String
  pub structural_error : Exc → String → String
  pub format_for_next_turn : (friendly raw : String) → Bool → (hint : String) → String
  pub from_validation_error : Exc → ErrorSignature
  pub from_json_decode_error : Exc → ErrorSignature
  pub from_exception : Exc → (where_at : String) → ErrorSignature
  pub from_apply_error : (class message : String) → (where_at : Option String) → ErrorSignature
  pub validate_callback : Option (ℕ → PatchSpec → ValidateReply)
  pub apply_callback : Option (ℕ → PatchSpec → ApplyReply)

-- The arguments of `generate_agent_patch` that steer the loop.
pub record Options : Type 0 where
  pub timeout : ℕ
  pub allow_defer : Bool
  pub deep_loop : Bool
  pub has_on_attempt : Bool
  pub model_cascade_position : Option ℕ
