-- ===== src/Patch/Apply.antt =====
-- aqueduct/patch/apply.py: `apply_patch_to_dict` and `apply_patch_file`. The files are texts, and
-- what reads, writes and checks a text (ruamel, json, pydantic, the parser) is a parameter.
pub mod Commit
pub mod Agent
pub mod Unguarded
pub mod Deferral
pub mod Failure
pub mod Cleanup
mod Tests
use aqueduct_test.Base.{
  ℕ, suc, ◌+◌, Bool, true, false, String, Option, none, some, List, [], ◌∷◌, length, if◌then◌else◌,
}
use aqueduct_test.Patch.Value.{Value, null, bool, num, str, arr, obj, Fields}
use aqueduct_test.Patch.Grammar.{PatchOp, op_name, PatchSpec}
use aqueduct_test.Patch.Result.{Result, ok, op_error, crash, OpError}
use aqueduct_test.Patch.Operations.{apply_operation}
use aqueduct_test.Patch.Guardrails.{
  Verdict, allowed, op_forbidden, path_rejected, broken, check_guardrails,
}

-- The patched Blueprint, or the operation (counted from 1) that failed.
pub data Applied : Type 0 where
  patched : Fields → Applied
  operation_failed : ℕ → String → OpError → Applied
  apply_broken : Applied

module _ (reload : Value → Value) where
  abbrev pub on_applied : ℕ → PatchOp → Result Fields → (Fields → Applied) → Applied
  unfolding op_name
  on_applied i op (ok bp) rest = rest bp
  on_applied i op (op_error e) rest = operation_failed (i + 1) (op_name op) e
  on_applied i op crash rest = apply_broken

  unfoldable pub apply_each : Fields → ℕ → List PatchOp → Applied
  unfolding apply_operation on_applied
  apply_each bp i [] = patched bp
  apply_each bp i (op ∷ ops) =
      on_applied i op (apply_operation reload bp op) (λ bp'. apply_each bp' (i + 1) ops)

  abbrev pub on_copy : Value → List PatchOp → Applied
  unfolding apply_each
  on_copy (obj bp) ops = apply_each bp 0 ops
  on_copy _ ops = apply_broken

  -- The copy is the Blueprint dumped and loaded again.
  unfoldable pub apply_patch_to_dict : Fields → PatchSpec → Applied
  unfolding on_copy
  apply_patch_to_dict bp patch = on_copy (reload (obj bp)) patch.operations

-- The files that the application reads and writes, `none` for a file that is not there.
pub record Disk : Type 0 where
  pub blueprint : Option String
  pub patch_file : Option String
  pub verify_tmp : Option String
  pub out_tmp : Option String
  pub archive : Option String

pub data LoadReply : Type 0 where
  loaded : PatchSpec → LoadReply
  invalid_spec : LoadReply
  load_broken : LoadReply

-- What the code takes from the libraries and the rest of the program. A `none` is an exception.
pub record Files : Type 0 where
  pub reload : Value → Value
  pub show : Value → String
  pub fnmatch : String → String → Bool
  pub provenance : Option (String → Option Value)
  pub load_patch_spec : String → LoadReply
  pub yaml_load : String → Option Value
  pub yaml_dump : Fields → Option String
  -- What a dump that fails leaves of its file, `none` where it makes no file.
  pub partial : Option String
  pub parses : String → Bool
  -- The second dump, to the file that replaces the Blueprint.
  pub dump_succeeds : Bool
  pub replace_succeeds : Bool
  pub mkdir_succeeds : Bool
  pub archive_text : String → Option String

-- The reasons of a `PatchError`; `other` is an exception of another kind.
pub data PatchError : Type 0 where
  blueprint_not_found patch_not_found spec_invalid yaml_invalid other : PatchError
  guardrail : Verdict → PatchError
  operation : ℕ → String → OpError → PatchError
  blueprint_invalid write_failed : PatchError

pub data FileResult : Type 0 where
  applied : (patch_id : String) (operations_applied : ℕ) → FileResult
  failed : PatchError → FileResult

module _ (files : Files) where
  -- 7. The archive, whose failure is a warning.
  abbrev pub archived : Disk → Option String → Disk
  archived disk none = disk
  archived disk (some text) = record disk { archive = some text; patch_file = none }

  -- The folder of the archive is made outside the `try`.
  abbrev pub archive_in : PatchSpec → String → Disk → Bool → Disk × FileResult
  archive_in patch raw disk true =
      (archived disk (files.archive_text raw), applied patch.patch_id (length patch.operations))
  archive_in patch raw disk false = (disk, failed other)

  -- A dump that fails leaves a part of the file, or what was there before.
  abbrev pub or_before : Option String → Option String → Option String
  or_before none before = before
  or_before (some text) before = some text

  -- `if tmp_verify.exists(): tmp_verify.unlink()`, and the same for the other file.
  abbrev pub unlink_verify : Disk → Disk
  unlink_verify disk = record disk { verify_tmp = none }

  abbrev pub unlink_out : Disk → Disk
  unlink_out disk = record disk { out_tmp = none }

  -- `os.replace` moves the temporary file over the Blueprint.
  abbrev pub move_out : Disk → Disk
  move_out disk = record disk { blueprint = disk.out_tmp; out_tmp = none }

  -- 6. The dump to the temporary file, and `os.replace` of it.
  abbrev pub on_written : PatchSpec → String → Disk → Bool → Disk × FileResult
  on_written patch raw disk true = archive_in patch raw (move_out disk) files.mkdir_succeeds
  on_written patch raw disk false = (unlink_out disk, failed write_failed)

  abbrev pub write_out : PatchSpec → String → String → Disk → Bool → Disk × FileResult
  write_out patch raw text disk true =
      on_written patch raw (record disk { out_tmp = some text }) files.replace_succeeds
  write_out patch raw text disk false = (
    unlink_out (record disk { out_tmp = or_before files.partial disk.out_tmp }),
    failed write_failed,
  )

  -- 5. The check of the dumped text, whose file is removed in each case.
  abbrev pub on_parsed : PatchSpec → String → String → Disk → Bool → Disk × FileResult
  on_parsed patch raw text disk true =
      write_out patch raw text (unlink_verify disk) files.dump_succeeds
  on_parsed patch raw text disk false = (unlink_verify disk, failed blueprint_invalid)

  abbrev pub on_dumped : PatchSpec → String → Disk → Option String → Disk × FileResult
  on_dumped patch raw disk none = (
    unlink_verify (record disk { verify_tmp = or_before files.partial disk.verify_tmp }),
    failed blueprint_invalid,
  )
  on_dumped patch raw disk (some text) =
      on_parsed patch raw text (record disk { verify_tmp = some text }) (files.parses text)

  -- 3 and 4. The operations.
  abbrev pub on_patched : PatchSpec → String → Disk → Applied → Disk × FileResult
  on_patched patch raw disk (patched bp) = on_dumped patch raw disk (files.yaml_dump bp)
  on_patched patch raw disk (operation_failed i name e) = (disk, failed (operation i name e))
  on_patched patch raw disk apply_broken = (disk, failed other)

  -- 2.5. The guardrails.
  abbrev pub on_verdict : PatchSpec → String → Disk → Fields → Verdict → Disk × FileResult
  unfolding apply_patch_to_dict
  on_verdict patch raw disk bp allowed =
      on_patched patch raw disk (apply_patch_to_dict files.reload bp patch)
  on_verdict patch raw disk bp (op_forbidden name) = (disk, failed (guardrail (op_forbidden name)))
  on_verdict patch raw disk bp (path_rejected path) =
      (disk, failed (guardrail (path_rejected path)))
  on_verdict patch raw disk bp broken = (disk, failed other)

  -- 2. The Blueprint.
  abbrev pub on_yaml : PatchSpec → String → Disk → Option Value → Disk × FileResult
  unfolding on_verdict check_guardrails
  on_yaml patch raw disk none = (disk, failed yaml_invalid)
  on_yaml patch raw disk (some (obj bp)) =
      on_verdict patch raw disk bp
        (check_guardrails files.show files.fnmatch files.provenance patch bp)
  on_yaml patch raw disk (some _) = (disk, failed other)

  -- 1. The patch.
  abbrev pub on_loaded : String → String → Disk → LoadReply → Disk × FileResult
  unfolding on_yaml
  on_loaded text raw disk (loaded patch) = on_yaml patch raw disk (files.yaml_load text)
  on_loaded text raw disk invalid_spec = (disk, failed spec_invalid)
  on_loaded text raw disk load_broken = (disk, failed other)

  abbrev pub on_patch_file : String → Disk → Option String → Disk × FileResult
  unfolding on_loaded
  on_patch_file text disk none = (disk, failed patch_not_found)
  on_patch_file text disk (some raw) = on_loaded text raw disk (files.load_patch_spec raw)

  abbrev pub on_blueprint : Disk → Option String → Disk × FileResult
  unfolding on_patch_file
  on_blueprint disk none = (disk, failed blueprint_not_found)
  on_blueprint disk (some text) = on_patch_file text disk disk.patch_file

  unfoldable pub apply_patch_file : Disk → Disk × FileResult
  unfolding on_blueprint
  apply_patch_file disk = on_blueprint disk disk.blueprint
