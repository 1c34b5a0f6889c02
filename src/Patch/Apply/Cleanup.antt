-- ===== src/Patch/Apply/Cleanup.antt =====
-- The temporary files of an application.
use aqueduct_test.Base.{◌≡◌, refl, Bool, true, false, String, Option, none, some}
use aqueduct_test.Patch.Value.{Value, null, bool, num, str, arr, obj, Fields}
use aqueduct_test.Patch.Grammar.{PatchSpec}
use aqueduct_test.Patch.Guardrails.{
  Verdict, allowed, op_forbidden, path_rejected, broken, check_guardrails,
}
use aqueduct_test.Patch.Apply.{
  Applied, patched, operation_failed, apply_broken, apply_patch_to_dict, Disk, LoadReply, loaded,
  invalid_spec, load_broken, Files, archived, archive_in, move_out, unlink_verify, on_written,
  write_out, on_parsed, on_dumped, on_patched, on_verdict, on_yaml, on_loaded, on_patch_file,
  on_blueprint, apply_patch_file,
}

abbrev pub IsClean : Disk → Type 0
IsClean disk = (disk.verify_tmp ≡ none) × (disk.out_tmp ≡ none)

module _ (files : Files) where
  archived-IsClean :
      (disk : Disk) (o : Option String) → IsClean disk → IsClean (archived files disk o)
  archived-IsClean disk none h = h
  archived-IsClean disk (some text) h = h

  archive_in-IsClean :
      (patch : PatchSpec) (raw : String) (disk : Disk) (b : Bool)
      → IsClean disk
      → IsClean (archive_in files patch raw disk b).0
  archive_in-IsClean patch raw disk true h = archived-IsClean disk (files.archive_text raw) h
  archive_in-IsClean patch raw disk false h = h

  on_written-IsClean :
      (patch : PatchSpec) (raw : String) (disk : Disk) (b : Bool)
      → disk.verify_tmp ≡ none
      → IsClean (on_written files patch raw disk b).0
  on_written-IsClean patch raw disk true h =
      archive_in-IsClean patch raw (move_out files disk) files.mkdir_succeeds (h, refl)
  on_written-IsClean patch raw disk false h = (h, refl)

  write_out-IsClean :
      (patch : PatchSpec) (raw text : String) (disk : Disk) (b : Bool)
      → disk.verify_tmp ≡ none
      → IsClean (write_out files patch raw text disk b).0
  write_out-IsClean patch raw text disk true h =
      on_written-IsClean patch raw (record disk { out_tmp = some text }) files.replace_succeeds h
  write_out-IsClean patch raw text disk false h = (h, refl)

  module _ (patch : PatchSpec) (raw : String) (disk : Disk) (h : IsClean disk) where
    on_parsed-IsClean :
        (text : String) (b : Bool)
        → IsClean (on_parsed files patch raw text (record disk { verify_tmp = some text }) b).0
    on_parsed-IsClean text true =
        write_out-IsClean patch raw text (unlink_verify files disk) files.dump_succeeds refl
    on_parsed-IsClean text false = (refl, h.1)

    on_dumped-IsClean : (o : Option String) → IsClean (on_dumped files patch raw disk o).0
    on_dumped-IsClean none = (refl, h.1)
    on_dumped-IsClean (some text) = on_parsed-IsClean text (files.parses text)

    on_patched-IsClean : (a : Applied) → IsClean (on_patched files patch raw disk a).0
    on_patched-IsClean (patched bp) = on_dumped-IsClean (files.yaml_dump bp)
    on_patched-IsClean (operation_failed i name e) = h
    on_patched-IsClean apply_broken = h

    on_verdict-IsClean :
        (bp : Fields) (v : Verdict) → IsClean (on_verdict files patch raw disk bp v).0
    unfolding on_verdict
    on_verdict-IsClean bp allowed = on_patched-IsClean (apply_patch_to_dict files.reload bp patch)
    on_verdict-IsClean bp (op_forbidden name) = h
    on_verdict-IsClean bp (path_rejected path) = h
    on_verdict-IsClean bp broken = h

    on_yaml-IsClean : (o : Option Value) → IsClean (on_yaml files patch raw disk o).0
    unfolding on_yaml
    on_yaml-IsClean none = h
    on_yaml-IsClean (some (obj bp)) =
        on_verdict-IsClean bp (check_guardrails files.show files.fnmatch files.provenance patch bp)
    on_yaml-IsClean (some null) = h
    on_yaml-IsClean (some (bool _)) = h
    on_yaml-IsClean (some (num _ _)) = h
    on_yaml-IsClean (some (str _)) = h
    on_yaml-IsClean (some (arr _)) = h

  module _ (disk : Disk) (h : IsClean disk) where
    on_loaded-IsClean :
        (text raw : String) (r : LoadReply) → IsClean (on_loaded files text raw disk r).0
    unfolding on_loaded
    on_loaded-IsClean text raw (loaded patch) =
        on_yaml-IsClean patch raw disk h (files.yaml_load text)
    on_loaded-IsClean text raw invalid_spec = h
    on_loaded-IsClean text raw load_broken = h

    on_patch_file-IsClean :
        (text : String) (o : Option String) → IsClean (on_patch_file files text disk o).0
    unfolding on_patch_file
    on_patch_file-IsClean text none = h
    on_patch_file-IsClean text (some raw) = on_loaded-IsClean text raw (files.load_patch_spec raw)

    on_blueprint-IsClean : (o : Option String) → IsClean (on_blueprint files disk o).0
    unfolding on_blueprint
    on_blueprint-IsClean none = h
    on_blueprint-IsClean (some text) = on_patch_file-IsClean text disk.patch_file

    -- If there are no temporary files before the application of a patch file, there are none after
    -- it, whether it succeeds or fails.
    pub apply_patch_file-IsClean : IsClean (apply_patch_file files disk).0
    unfolding apply_patch_file
    apply_patch_file-IsClean = on_blueprint-IsClean disk.blueprint
