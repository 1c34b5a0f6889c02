-- ===== src/Agent/Loop/Samples.antt =====
-- A small environment of the loop, for the tests.
use aqueduct_test.Base.{
  ℕ, ◌+◌, true, false, String, string_eq, some, none, [], ◌∷◌, ltb, if◌then◌else◌,
}
use aqueduct_test.Patch.Grammar.{PatchSpec, defer_to_human, replace_module_label}
use aqueduct_test.Agent.Signature.{ErrorSignature}
use aqueduct_test.Agent.Loop.Interface.{Env, Options, returned, parsed, not_json, ApplyReply}

abbrev pub error : String → ErrorSignature
error text = record {
  error_class = "json_decode_error";
  where_at = "<root>";
  normalized_message = text;
  hash = text;
}

abbrev pub relabel : PatchSpec
relabel = record { patch_id = "p1"; operations = replace_module_label "a" "b" ∷ [] }

abbrev pub deferral : PatchSpec
deferral = record { patch_id = "p2"; operations = defer_to_human "disk is full" [] "" ∷ [] }

-- Answers that cannot be read before attempt `good`, and then the patch.
abbrev pub world : ℕ → PatchSpec → Env
world good patch = record {
  Exc = String;
  text_of = λ e. e;
  is_timeout = λ e. false;
  clock_created = 0;
  clock_deadline = λ n. n;
  clock_start = λ n. n;
  clock_end = λ n. n + 1;
  clock_check = λ n. n + 1;
  first_prompt = "heal";
  call_agent = λ n messages escalated deadline. returned "answer" 10 2;
  parse_patch_spec = λ n raw. if ltb n good then not_json "line 1" else parsed patch [];
  format_reprompt_error = λ e raw. e;
  structural_error = λ e raw. "";
  format_for_next_turn = λ friendly raw escalated hint. friendly;
  from_validation_error = error;
  from_json_decode_error = error;
  from_exception = λ e w. error e;
  from_apply_error = λ class message w. error message;
  validate_callback = none;
  apply_callback = some (λ n p. ApplyReply.answered true none none none);
}

abbrev pub options : Options
options = record {
  timeout = 60;
  allow_defer = true;
  deep_loop = false;
  has_on_attempt = true;
  model_cascade_position = none;
}
