-- ===== src/Patch/Apply/Commit.antt =====
-- What the application of a patch does to the files.
use aqueduct_test.Base.{◌≡◌, refl, ◌∙◌, Bool, true, false, String, Option, none, some, length}
use aqueduct_test.Patch.Value.{Value, null, bool, num, str, arr, obj, Fields}
use aqueduct_test.Patch.Grammar.{PatchSpec}
use aqueduct_test.Patch.Guardrails.{
  Verdict, allowed, op_forbidden, path_rejected, broken, check_guardrails,
}
use aqueduct_test.Patch.Apply.{
  Applied, patched, operation_failed, apply_broken, apply_patch_to_dict, Disk, LoadReply, loaded,
  invalid_spec, load_broken, Files, FileResult, applied, failed, PatchError, other, archived,
  archive_in, move_out, unlink_verify, on_written, write_out, on_parsed, on_dumped, on_patched,
  on_verdict, on_yaml, on_loaded, on_patch_file, on_blueprint, apply_patch_file,
}

module _ (files : Files) where
  -- A text that may replace the Blueprint: what a patch that passes the guardrails makes of the old
  -- one, and what the parser accepts.
  pub record IsPatchOf (old raw : String) (patch : PatchSpec) (new : String) : Type 0 where
    pub before : Fields
    pub result : Fields
    pub patch_is_read : files.load_patch_spec raw ≡ loaded patch
    pub blueprint_is_read : files.yaml_load old ≡ some (obj before)
    pub passes_guardrails :
        check_guardrails files.show files.fnmatch files.provenance patch before ≡ allowed
    pub is_patched : apply_patch_to_dict files.reload before patch ≡ patched result
    pub is_dumped : files.yaml_dump result ≡ some new
    pub is_valid : files.parses new ≡ true

  pub data Change (disk : Disk) : Disk × FileResult → Type 0 where
    untouched :
        (disk' : Disk) (e : PatchError)
        → disk'.blueprint ≡ disk.blueprint
        → disk'.patch_file ≡ disk.patch_file
        → disk'.archive ≡ disk.archive
        → Change disk (disk', failed e)
    replaced :
        (disk' : Disk) (old raw : String) (patch : PatchSpec) (new : String)
        → disk.blueprint ≡ some old
        → disk.patch_file ≡ some raw
        → IsPatchOf old raw patch new
        → disk'.blueprint ≡ some new
        → Change disk (disk', applied patch.patch_id (length patch.operations))
    unarchived :
        (disk' : Disk) (old raw : String) (patch : PatchSpec) (new : String)
        → disk.blueprint ≡ some old
        → disk.patch_file ≡ some raw
        → IsPatchOf old raw patch new
        → disk'.blueprint ≡ some new
        → disk'.patch_file ≡ disk.patch_file
        → disk'.archive ≡ disk.archive
        → Change disk (disk', failed other)

  module _ (disk : Disk) where
    same_disk : (e : PatchError) → Change disk (disk, failed e)
    same_disk e = untouched disk e refl refl refl

    module _ (old raw : String) (hold : disk.blueprint ≡ some old)
        (hraw : disk.patch_file ≡ some raw) (patch : PatchSpec)
        (hload : files.load_patch_spec raw ≡ loaded patch) where
      archived-blueprint :
          (d : Disk) (o : Option String) → (archived files d o).blueprint ≡ d.blueprint
      archived-blueprint d none = refl
      archived-blueprint d (some text) = refl

      archive_in-Change :
          (d : Disk) (new : String) (b : Bool)
          → d.blueprint ≡ some new
          → d.patch_file ≡ disk.patch_file
          → d.archive ≡ disk.archive
          → IsPatchOf old raw patch new
          → Change disk (archive_in files patch raw d b)
      archive_in-Change d new true hb hp ha is =
          replaced _ old raw patch new hold hraw is
            (archived-blueprint d (files.archive_text raw) ∙ hb)
      archive_in-Change d new false hb hp ha is =
          unarchived d old raw patch new hold hraw is hb hp ha

      on_written-Change :
          (d : Disk) (new : String) (b : Bool)
          → d.out_tmp ≡ some new
          → d.blueprint ≡ disk.blueprint
          → d.patch_file ≡ disk.patch_file
          → d.archive ≡ disk.archive
          → IsPatchOf old raw patch new
          → Change disk (on_written files patch raw d b)
      on_written-Change d new true ho hb hp ha is =
          archive_in-Change (move_out files d) new files.mkdir_succeeds ho hp ha is
      on_written-Change d new false ho hb hp ha is = untouched _ _ hb hp ha

      write_out-Change :
          (d : Disk) (new : String) (b : Bool)
          → d.blueprint ≡ disk.blueprint
          → d.patch_file ≡ disk.patch_file
          → d.archive ≡ disk.archive
          → IsPatchOf old raw patch new
          → Change disk (write_out files patch raw new d b)
      write_out-Change d new true hb hp ha is =
          on_written-Change (record d { out_tmp = some new }) new files.replace_succeeds refl hb hp
            ha is
      write_out-Change d new false hb hp ha is = untouched _ _ hb hp ha

      module _ (before : Fields) (hyaml : files.yaml_load old ≡ some (obj before))
          (hguard : check_guardrails files.show files.fnmatch files.provenance patch before
            ≡ allowed) where
        on_parsed-Change :
            (result : Fields) (new : String) (b : Bool)
            → apply_patch_to_dict files.reload before patch ≡ patched result
            → files.yaml_dump result ≡ some new
            → files.parses new ≡ b
            → Change disk (on_parsed files patch raw new (record disk { verify_tmp = some new }) b)
        on_parsed-Change result new true happly hdump hparse =
            write_out-Change (unlink_verify files disk) new files.dump_succeeds refl refl refl
              record {
                before = before;
                result = result;
                patch_is_read = hload;
                blueprint_is_read = hyaml;
                passes_guardrails = hguard;
                is_patched = happly;
                is_dumped = hdump;
                is_valid = hparse;
              }
        on_parsed-Change result new false happly hdump hparse = untouched _ _ refl refl refl

        on_dumped-Change :
            (result : Fields) (o : Option String)
            → apply_patch_to_dict files.reload before patch ≡ patched result
            → files.yaml_dump result ≡ o
            → Change disk (on_dumped files patch raw disk o)
        on_dumped-Change result none happly hdump = untouched _ _ refl refl refl
        on_dumped-Change result (some new) happly hdump =
            on_parsed-Change result new (files.parses new) happly hdump refl

        on_patched-Change :
            (a : Applied)
            → apply_patch_to_dict files.reload before patch ≡ a
            → Change disk (on_patched files patch raw disk a)
        on_patched-Change (patched result) h =
            on_dumped-Change result (files.yaml_dump result) h refl
        on_patched-Change (operation_failed i name e) h = same_disk _
        on_patched-Change apply_broken h = same_disk _

      on_verdict-Change :
          (before : Fields) (v : Verdict)
          → files.yaml_load old ≡ some (obj before)
          → check_guardrails files.show files.fnmatch files.provenance patch before ≡ v
          → Change disk (on_verdict files patch raw disk before v)
      unfolding on_verdict
      on_verdict-Change before allowed hyaml hguard =
          on_patched-Change before hyaml hguard (apply_patch_to_dict files.reload before patch) refl
      on_verdict-Change before (op_forbidden name) hyaml hguard = same_disk _
      on_verdict-Change before (path_rejected path) hyaml hguard = same_disk _
      on_verdict-Change before broken hyaml hguard = same_disk _

      on_yaml-Change :
          (o : Option Value)
          → files.yaml_load old ≡ o
          → Change disk (on_yaml files patch raw disk o)
      unfolding on_yaml
      on_yaml-Change none h = same_disk _
      on_yaml-Change (some (obj before)) h =
          on_verdict-Change before
            (check_guardrails files.show files.fnmatch files.provenance patch before) h refl
      on_yaml-Change (some null) h = same_disk _
      on_yaml-Change (some (bool _)) h = same_disk _
      on_yaml-Change (some (num _ _)) h = same_disk _
      on_yaml-Change (some (str _)) h = same_disk _
      on_yaml-Change (some (arr _)) h = same_disk _

    on_loaded-Change :
        (old raw : String) (r : LoadReply)
        → disk.blueprint ≡ some old
        → disk.patch_file ≡ some raw
        → files.load_patch_spec raw ≡ r
        → Change disk (on_loaded files old raw disk r)
    unfolding on_loaded
    on_loaded-Change old raw (loaded patch) ho hr hl =
        on_yaml-Change old raw ho hr patch hl (files.yaml_load old) refl
    on_loaded-Change old raw invalid_spec ho hr hl = same_disk _
    on_loaded-Change old raw load_broken ho hr hl = same_disk _

    on_patch_file-Change :
        (old : String) (o : Option String)
        → disk.blueprint ≡ some old
        → disk.patch_file ≡ o
        → Change disk (on_patch_file files old disk o)
    unfolding on_patch_file
    on_patch_file-Change old none ho hp = same_disk _
    on_patch_file-Change old (some raw) ho hp =
        on_loaded-Change old raw (files.load_patch_spec raw) ho hp refl

    on_blueprint-Change :
        (o : Option String) → disk.blueprint ≡ o → Change disk (on_blueprint files disk o)
    unfolding on_blueprint
    on_blueprint-Change none h = same_disk _
    on_blueprint-Change (some old) h = on_patch_file-Change old disk.patch_file h refl

    -- The application of a patch file fails with the Blueprint, the patch file and the archive as
    -- they were, or it replaces the Blueprint by a text that the parser accepts and that dumps what
    -- the operations of a patch passing the guardrails make of the old one. In the latter case it
    -- succeeds, or it fails with the patch file and the archive as they were.
    pub apply_patch_file-Change : Change disk (apply_patch_file files disk)
    unfolding apply_patch_file
    apply_patch_file-Change = on_blueprint-Change disk.blueprint refl
