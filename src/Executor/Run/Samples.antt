-- ===== src/Executor/Run/Samples.antt =====
-- A small run over texts in place of DataFrames: `load` feeds the Regulator `gate`, whose output
-- the Channel `clean` reads, and `save` writes what that gives; the Egress `copy` reads `load`.
use Prim.Native.String.{String}
use aqueduct_test.Base.{ℕ, Bool, true, false, ◌<>◌, none, some, List, [], ◌∷◌}
use aqueduct_test.Patch.Value.{str, num, end, field}
use aqueduct_test.Parser.Models.{Module, Edge}
use aqueduct_test.Parser.Graph.Samples.{a_module, an_edge}
use aqueduct_test.Executor.Models.{exponential, abort, RetryPolicy}
use aqueduct_test.Executor.Retry as Retry
use aqueduct_test.Executor.Run.State.{passed, World, Plan}

abbrev pub a_policy : RetryPolicy
a_policy = record {
  max_attempts = 1;
  backoff_strategy = exponential;
  backoff_base_seconds = 1;
  backoff_max_seconds = 10;
  jitter = false;
  on_exhaustion = abort;
  transient_errors = [];
  non_transient_errors = [];
  deadline_seconds = none;
}

-- Every handler returns, and the signal comes with the given evaluation only.
abbrev pub a_world : (ℕ → Bool) → World String
a_world signal = record {
  read_ingress = λ m n. Retry.returns m.id';
  execute_sql_channel = λ m upstream n. Retry.returns ("sql " <> m.id');
  execute_junction = λ m df n. Retry.returns (("eu", df) ∷ []);
  execute_funnel = λ m upstream n. Retry.returns m.id';
  execute_assert = λ m df. passed df none;
  write_egress = λ m df n. Retry.returns tt;
  own_error = λ m text. true;
  observe = λ name df. df;
  filter_rows = λ condition df. df;
  add_error_columns = λ id' df. df;
  clock = λ id' n. n;
  random = λ id' n. 0;
  unit = 1;
  surveyor = some (λ id' n. signal n);
  retry_policy = λ fs. some a_policy;
  webhook_url = λ v. "hook";
  milliseconds = λ v. 1000;
  show = λ v. "";
  repr = λ s. s;
  replace = λ query token value. query;
  read_watermark_sidecar = λ id'. none;
  depot_get = some (λ key. "");
  compute_watermark = λ m column. some "2024";
  can_save = λ id' name. true;
}

abbrev pub shut_world : World String
shut_world = a_world (λ n. false)

abbrev pub open_world : World String
open_world = a_world (λ n. true)

-- An incremental Channel, whose Egress keeps its watermark.
abbrev pub clean : Module
clean = record (a_module "Channel" "clean" []) {
  config = field "materialize" (str "incremental") (field "watermark_column" (str "ts") end);
}

abbrev pub save : Module
save = record (a_module "Egress" "save" []) { config = field "path" (str "out") end }

abbrev pub gate : Module
gate = record (a_module "Regulator" "gate" []) {
  config = field "timeout_seconds" (num false "1") end;
}

abbrev pub load : Module
load = a_module "Ingress" "load" []

abbrev pub copy : Module
copy = a_module "Egress" "copy" []

abbrev pub gated_modules : List Module
gated_modules = load ∷ gate ∷ clean ∷ save ∷ copy ∷ []

abbrev pub gated_edges : List Edge
gated_edges =
    an_edge "load" "gate" "main"
    ∷ an_edge "gate" "clean" "main"
    ∷ an_edge "clean" "save" "main"
    ∷ an_edge "load" "copy" "main"
    ∷ []

abbrev pub a_plan : List Module → List Edge → Plan String
a_plan modules edges = record {
  blueprint_id = "bp";
  run_id = "run";
  modules = modules;
  edges = edges;
  policy = a_policy;
  checkpoint = false;
  has_checkpoint_dir = true;
  has_store_dir = true;
  has_observability_store = true;
  resume = none;
  included = none;
}

abbrev pub gated_plan : Plan String
gated_plan = a_plan gated_modules gated_edges
