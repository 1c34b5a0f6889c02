-- ===== src/Patch/Apply/Tests.antt =====
-- Patches of a small Blueprint, and the theorems at them.
use aqueduct_test.Base.{
  ◌≡◌, refl, Bool, true, false, String, string_eq, ◌==◌, none, some, [], ◌∷◌, ◌++◌, is_in, after,
  here,
}
use aqueduct_test.Patch.Value.{
  Value, str, arr, obj, Fields, end, field, Items, nil, cons, get, put, to_list, from_list, truthy,
  same,
}
use aqueduct_test.Patch.Grammar.{
  PatchOp, set_module_config_key, defer_to_human, PatchSpec, op_name, has_defer, accepts_defer,
}
use aqueduct_test.Patch.Blueprint.{has_id}
use aqueduct_test.Patch.Guardrails.{
  allowed, path_rejected, holds, or_list, guardrails_of, resolve_path, check_guardrails,
}
use aqueduct_test.Patch.Guardrails.Permitted.{IsPermitted}
use aqueduct_test.Patch.Guardrails.Soundness.{
  check_guardrails-permits_op, check_guardrails-IsPermitted,
}
use aqueduct_test.Patch.Apply.{
  patched, operation_failed, apply_patch_to_dict, Disk, Files, loaded, applied, failed,
  write_failed, apply_patch_file,
}
use aqueduct_test.Patch.Result.{module_not_found}
use aqueduct_test.Patch.Apply.Cleanup.{IsClean, apply_patch_file-IsClean}
use aqueduct_test.Patch.Apply.Failure.{FailsAt, apply_patch_to_dict-FailsAt}
use aqueduct_test.Patch.Apply.Deferral.{deferral_unchanged}
use aqueduct_test.Patch.Apply.Commit.{Change, apply_patch_file-Change}
use aqueduct_test.Patch.Apply.Agent.{apply_patch_to_dict-get, apply_patch_to_dict-agent}
use aqueduct_test.Patch.Apply.Unguarded.{insertion, insertion-unguarded}

abbrev the_module : Fields
the_module = field "id" (str "load") (field "label" (str "Load") end)

-- Only paths under data/ are allowed.
abbrev guardrails : Fields
guardrails =
    field "allowed_paths" (arr (cons (str "data/a") nil))
      (field "forbidden_ops" (arr (cons (str "remove_module") nil)) end)

abbrev modules : Items
modules = cons (obj the_module) nil

abbrev blueprint : Fields
blueprint =
    field "agent" (obj (field "guardrails" (obj guardrails) end))
      (field "modules" (arr modules) end)

abbrev set_path : PatchOp
set_path = set_module_config_key "load" "path" (str "data/a")

abbrev patch : PatchSpec
patch = record { patch_id = "p1"; operations = set_path ∷ [] }

abbrev bad_patch : PatchSpec
bad_patch = record {
  patch_id = "p2";
  operations = set_module_config_key "load" "path" (str "secret") ∷ [];
}

abbrev keep : Value → Value
keep v = v

abbrev text_of : Value → String
text_of (str s) = s
text_of v = "?"

abbrev equal : String → String → Bool
equal s t = s == t

abbrev outside : Fields
outside =
    field "id" (str "arcade__out") (field "config" (obj (field "path" (str "secret") end)) end)

program : Unit {0}
unfolding check_guardrails apply_patch_to_dict guardrails_of holds is_in after string_eq get put
    to_list from_list truthy same has_id apply_patch_file resolve_path op_name
program = tt

guardrails_lem : guardrails_of blueprint ≡ some guardrails
unfolding program
guardrails_lem = refl

passes : check_guardrails text_of equal none patch blueprint ≡ allowed
unfolding program
passes = refl

rejects : check_guardrails text_of equal none bad_patch blueprint ≡ path_rejected "secret"
unfolding program
rejects = refl

abbrev after_patch : Fields
unfolding program
after_patch =
    put "modules"
      (arr (cons (obj (put "config" (obj (field "path" (str "data/a") end)) the_module)) nil))
      blueprint

patched_lem : apply_patch_to_dict keep blueprint patch ≡ patched after_patch
unfolding program after_patch
patched_lem = refl

abbrev disk : Disk
disk = record {
  blueprint = some "old";
  patch_file = some "patch";
  verify_tmp = none;
  out_tmp = none;
  archive = none;
}

abbrev files : Files
files = record {
  reload = keep;
  show = text_of;
  fnmatch = equal;
  provenance = none;
  load_patch_spec = λ raw. loaded patch;
  yaml_load = λ text. some (obj blueprint);
  yaml_dump = λ bp. some "new";
  parses = λ text. true;
  partial = some "part";
  dump_succeeds = true;
  replace_succeeds = true;
  mkdir_succeeds = true;
  archive_text = λ raw. some raw;
}

disk_lem : apply_patch_file files disk ≡ (
  record disk { blueprint = some "new"; patch_file = none; archive = some "patch" },
  applied "p1" 1,
)
unfolding program
disk_lem = refl

check_guardrails-permits_op_example :
    holds "set_module_config_key" (or_list (get "forbidden_ops" guardrails)) ≡ some false
unfolding program
check_guardrails-permits_op_example =
    check_guardrails-permits_op text_of equal none patch blueprint guardrails guardrails_lem passes
      set_path (here set_path [])

check_guardrails-IsPermitted_example :
    IsPermitted text_of equal none (or_list (get "allowed_paths" guardrails)) (str "data/a")
unfolding program
check_guardrails-IsPermitted_example =
    check_guardrails-IsPermitted text_of equal none patch blueprint guardrails guardrails_lem refl
      passes set_path (here set_path []) refl (str "data/a") (here (str "data/a") [])

apply_patch_to_dict-agent_example : get "agent" after_patch ≡ get "agent" blueprint
apply_patch_to_dict-agent_example =
    apply_patch_to_dict-agent keep blueprint patch after_patch refl patched_lem

apply_patch_to_dict-get_example : get "edges" after_patch ≡ get "edges" blueprint
unfolding program
apply_patch_to_dict-get_example =
    apply_patch_to_dict-get keep "edges" blueprint patch after_patch refl refl patched_lem

apply_patch_file-Change_example : Change files disk (apply_patch_file files disk)
apply_patch_file-Change_example = apply_patch_file-Change files disk

insertion-unguarded_example :
    (check_guardrails text_of equal none (insertion "p3" outside) blueprint ≡ allowed)
    × ((out : Fields) × (apply_patch_to_dict keep blueprint (insertion "p3" outside) ≡ patched out)
        × (get "modules" out ≡ some (arr (from_list (to_list modules ++ (obj outside ∷ []))))))
unfolding program
insertion-unguarded_example =
    insertion-unguarded keep text_of equal none blueprint outside guardrails "p3" "arcade__out"
      modules (λ v. refl) guardrails_lem refl refl refl refl refl

abbrev missing : PatchOp
missing = set_module_config_key "none" "path" (str "data/a")

abbrev failing : PatchSpec
failing = record { patch_id = "p4"; operations = set_path ∷ missing ∷ [] }

failing_lem :
    apply_patch_to_dict keep blueprint failing
    ≡ operation_failed 2 "set_module_config_key" module_not_found
unfolding program
failing_lem = refl

apply_patch_to_dict-FailsAt_example :
    FailsAt keep "set_module_config_key" module_not_found blueprint 0 2 failing.operations
apply_patch_to_dict-FailsAt_example =
    apply_patch_to_dict-FailsAt keep "set_module_config_key" module_not_found blueprint failing 2
      refl failing_lem

abbrev deferral : PatchSpec
deferral = record { patch_id = "p5"; operations = defer_to_human "disk is full" [] "" ∷ [] }

deferral_lem : (accepts_defer deferral ≡ true) × (has_defer deferral ≡ true)
unfolding accepts_defer has_defer
deferral_lem = (refl, refl)

deferral_unchanged_example : apply_patch_to_dict keep blueprint deferral ≡ patched blueprint
deferral_unchanged_example =
    deferral_unchanged keep blueprint deferral refl deferral_lem.0 deferral_lem.1

-- `os.replace` fails after both temporary files were written.
abbrev unreplaced : Files
unreplaced = record files { replace_succeeds = false }

unreplaced_lem : apply_patch_file unreplaced disk ≡ (disk, failed write_failed)
unfolding program
unreplaced_lem = refl

apply_patch_file-IsClean_example : IsClean (apply_patch_file unreplaced disk).0
apply_patch_file-IsClean_example = apply_patch_file-IsClean unreplaced disk (refl, refl)
