-- ===== src/ChangeSets/Staging.antt =====
-- `_stage` of app/services/change_set_store.py: an edit of the staged files, which is kept as an
-- operation or undone. The edit itself is a parameter, and so is the operation's id.
pub mod Ends
pub mod Numbers
use test_gpt_local.Prelude.{
  ℕ, ◌+◌, String, Bool, true, false, ◌&&◌, ◌||◌, not, List, [], ◌∷◌, ◌++◌, if◌then◌else◌, leb, ltb,
  max, length, Option, none, some,
}
use test_gpt_local.Prelude.Text.{◌==◌}
use test_gpt_local.Prelude.Result.{Result, ok, err, raise_if, ◌>>=◌, ◌>>◌}
use test_gpt_local.ChangeSets.State.{
  Status, opened, validated, ErrorCode, idempotency_conflict, limit_exceeded, validation_failed,
  internal_error, Files, FileRow, Staged, Operation, ChangeSet, Directory, Local, Tools, Config,
}
use test_gpt_local.ChangeSets.Files.{directory_size, manifest}
use test_gpt_local.ChangeSets.Commit.{Outcome, and_then, tree_or_error}
use test_gpt_local.ChangeSets.Lifecycle.{active}

unfoldable pub find_operation : String → List Operation → Option Operation
find_operation operation_id [] = none
find_operation operation_id (o ∷ os) =
    if o.operation_id == operation_id then some o else find_operation operation_id os

-- `COALESCE(MAX(ordinal), 0) + 1`
unfoldable pub next_ordinal : List Operation → ℕ
next_ordinal [] = 1
next_ordinal (o ∷ os) = max (o.ordinal + 1) (next_ordinal os)

abbrev pub is_validated : Status → Bool
is_validated validated = true
is_validated _ = false

module _ (tools : Tools) (sorted : List String → List String) (config : Config) where
  abbrev pub manifest_or_error : Option (List FileRow) → Result ErrorCode (List FileRow)
  manifest_or_error none = err validation_failed
  manifest_or_error (some files) = ok files

  -- The checks after the edit: the size of the staged files, the tree, and its changed files.
  unfoldable pub inspect : Local → Files → Result ErrorCode (ℕ × String × List FileRow)
  unfolding directory_size manifest
  inspect l staging = do
    let size = directory_size tools staging
    raise_if (ltb config.max_staging_bytes size) limit_exceeded
    tree_or_error tools l.checkout
    let after_tree = tools.staged_tree l.row.before_tree staging
    files ← manifest_or_error (manifest tools sorted l.row.before_tree after_tree)
    raise_if (ltb config.max_changed_files (length files)) limit_exceeded
    ok (size, after_tree, files)

  abbrev pub staged_of :
      (operation_type operation_id input_sha256 : String)
      → Local
      → ℕ × String × List FileRow
      → Staged
  staged_of operation_type operation_id input_sha256 l (size, after_tree, files) = record {
    operation_id = operation_id;
    ordinal = next_ordinal l.row.operations;
    operation_type = operation_type;
    revision = l.row.revision + 1;
    changed_files = files;
    digest =
        tools.joined_sha256
          (l.row.before_tree ∷ after_tree ∷ input_sha256 ∷ tools.decimal (l.row.revision + 1) ∷ []);
    validation_invalidated = is_validated l.row.status;
    staging_bytes = size;
  }

  -- The transaction of a staged operation.
  abbrev pub store_operation :
      (payload input_sha256 : String) → (now : ℕ) → Files → Staged → Local → Local
  store_operation payload input_sha256 now staging result l = record l {
    row =
        (let r : ChangeSet = record l.row {
          status = opened;
          revision = l.row.revision + 1;
          staged_digest = some result.digest;
          validated_digest = none;
          after_tree = none;
          validated_at = none;
          updated_at = now;
          error_code = none;
          operations =
              l.row.operations
              ++ record {
                operation_id = result.operation_id;
                ordinal = result.ordinal;
                operation_type = result.operation_type;
                input_sha256 = input_sha256;
                payload = some payload;
                created_at = now;
                result = result;
              }
                ∷ [];
          files = result.changed_files;
        } in
          r);
    directory = (let d : Directory = record l.directory { staging = some staging } in d);
  }

  module _ (operation_type payload operation_id : String) (now : ℕ) where
    abbrev input_sha : String
    input_sha = tools.payload_hash operation_type payload

    -- The body of `try`: what the edit left is kept, or the checkpoint is put back.
    unfoldable pub close_stage :
        Local
        → (checkpoint staging : Files) → Result ErrorCode (ℕ × String × List FileRow)
        → Outcome Staged
    unfolding next_ordinal
    close_stage l checkpoint staging (ok found) =
        let result = staged_of operation_type operation_id input_sha l found in
        (ok result, store_operation payload input_sha now staging result l)
    close_stage l checkpoint staging (err e) = (
      err e,
      record l {
        directory = (let d : Directory = record l.directory { staging = some checkpoint } in d);
      },
    )

    unfoldable pub keep_or_undo :
        Local → (checkpoint : Files) → Result ErrorCode Unit × Files → Outcome Staged
    unfolding inspect close_stage
    keep_or_undo l checkpoint (edited, staging) =
        close_stage l checkpoint staging (edited >> inspect l staging)

    unfoldable pub stage_from :
        (Files → Result ErrorCode Unit × Files) → Local → Option Files → Outcome Staged
    unfolding keep_or_undo
    stage_from edit l none = (err internal_error, l)
    stage_from edit l (some staging) = keep_or_undo l staging (edit staging)

    unfoldable pub stage_new : (Files → Result ErrorCode Unit × Files) → Local → Outcome Staged
    unfolding stage_from
    stage_new edit l =
        if leb config.max_operations (length l.row.operations)
        then (err limit_exceeded, l)
        else stage_from edit l l.directory.staging

    -- `_operation_replay`, or the operation is new.
    unfoldable pub stage_or_replay :
        (Files → Result ErrorCode Unit × Files) → Local → Option Operation → Outcome Staged
    unfolding active stage_new
    stage_or_replay edit l (some o) =
        (if o.input_sha256 == input_sha then ok o.result else err idempotency_conflict, l)
    stage_or_replay edit l none = and_then (active now l) (λ l1. stage_new edit l1)

    unfoldable pub stage : (Files → Result ErrorCode Unit × Files) → Local → Outcome Staged
    unfolding find_operation stage_or_replay
    stage edit l = stage_or_replay edit l (find_operation operation_id l.row.operations)
