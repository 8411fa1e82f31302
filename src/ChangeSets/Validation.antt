-- ===== src/ChangeSets/Validation.antt =====
-- `validate` of app/services/change_set_store.py.
pub mod Ends
use test_gpt_local.Prelude.{
  ℕ, ◌+◌, String, Bool, true, false, ◌&&◌, ◌||◌, not, List, [], ◌∷◌, ◌++◌, if◌then◌else◌, ltb,
  length, ◌==◌ as nat_eq, Option, none, some,
}
use test_gpt_local.Prelude.Int.{ℤ, pos, eqℤ}
use test_gpt_local.Prelude.Text.{◌==◌}
use test_gpt_local.Prelude.Result.{Result, ok, err, raise_if, ◌>>=◌, ◌>>◌}
use test_gpt_local.ChangeSets.State.{
  Status, opened, validated, ErrorCode, conflict, limit_exceeded, validation_failed, Files, File,
  FileRow, ChangeType, added, modified, deleted, Operation, ChangeSet, Directory, Local, Tools,
  Config,
}
use test_gpt_local.ChangeSets.Files.{directory_size, manifest}
use test_gpt_local.ChangeSets.Commit.{Outcome, and_then, tree_or_error, hash_or_error}
use test_gpt_local.ChangeSets.Lifecycle.{active}
use test_gpt_local.ChangeSets.Staging.{manifest_or_error}

same_change_type : ChangeType → ChangeType → Bool
same_change_type added added = true
same_change_type modified modified = true
same_change_type deleted deleted = true
same_change_type _ _ = false

same_version : Option (String × ℕ) → Option (String × ℕ) → Bool
same_version none none = true
same_version (some (s, m)) (some (t, n)) = s == t && nat_eq m n
same_version _ _ = false

same_file_row : FileRow → FileRow → Bool
unfolding same_change_type same_version
same_file_row a b =
    a.path == b.path
    && same_change_type a.change_type b.change_type
    && same_version a.before b.before
    && same_version a.after b.after

-- `_assert_manifest_matches`
unfoldable pub same_manifest : List FileRow → List FileRow → Bool
unfolding same_file_row
same_manifest [] [] = true
same_manifest (a ∷ left) (b ∷ right) = same_file_row a b && same_manifest left right
same_manifest _ _ = false

unfoldable pub hashes : List Operation → List String
hashes [] = []
hashes (o ∷ os) = o.input_sha256 ∷ hashes os

-- What a validation found.
pub record Validated : Type 0 where
  pub files : List FileRow
  pub after_tree : String
  pub final_patch : String

module _ (tools : Tools) (sorted : List String → List String) (config : Config) where
  stored : Operation → Bool
  stored o = elim o.payload [
    | none ↦ false
    | some p ↦ tools.payload_hash o.operation_type p == o.input_sha256
  ]

  -- `_validate_stored_operations`
  unfoldable pub all_stored : List Operation → Bool
  unfolding stored
  all_stored [] = true
  all_stored (o ∷ os) = stored o && all_stored os

  -- Git fails where the directory is missing.
  abbrev pub staged_files : Option Files → Result ErrorCode Files
  staged_files none = err validation_failed
  staged_files (some files) = ok files

  pub applies_clean : String → Option Files → Bool
  applies_clean patch none = false
  applies_clean patch (some files) = tools.applies patch files

  -- The checks of the `try`.
  unfoldable pub inspect_all : Local → Result ErrorCode Validated
  unfolding all_stored directory_size manifest same_manifest applies_clean
  inspect_all l = do
    raise_if (not (all_stored l.row.operations)) validation_failed
    staging ← staged_files l.directory.staging
    raise_if (ltb config.max_staging_bytes (directory_size tools staging)) limit_exceeded
    let after_tree = tools.staged_tree l.row.before_tree staging
    files ←
        manifest_or_error tools sorted config (manifest tools sorted l.row.before_tree after_tree)
    raise_if (not (same_manifest l.row.files files)) validation_failed
    raise_if (ltb config.max_changed_files (length files)) limit_exceeded
    let patch = tools.diff l.row.before_tree after_tree
    raise_if (tools.is_binary patch) validation_failed
    raise_if (not (applies_clean patch (tools.archive l.row.before_tree))) validation_failed
    ok (record { files = files; after_tree = after_tree; final_patch = patch })

  validated_digest : (change_set_id : String) → Local → String → String
  unfolding hashes
  validated_digest change_set_id l after_tree = tools.joined_sha256 (
      change_set_id
        ∷ tools.decimal l.row.revision
        ∷ l.row.before_tree
        ∷ after_tree
        ∷ hashes l.row.operations
      ++ "default:v1" ∷ [])

  unfoldable pub store_validated : (change_set_id : String) → (now : ℕ) → Validated → Local → Local
  unfolding validated_digest
  store_validated change_set_id now v l = record l {
    row =
        (let r : ChangeSet = record l.row {
          status = validated;
          validated_digest = some (validated_digest change_set_id l v.after_tree);
          after_tree = some v.after_tree;
          validated_at = some now;
          updated_at = now;
          error_code = none;
          files = v.files;
        } in
          r);
    directory = (let d : Directory = record l.directory { final_patch = some v.final_patch } in d);
  }

  -- The row after a validation that failed.
  unfoldable pub reopen : (now : ℕ) → ErrorCode → Local → Local
  reopen now e l = record l {
    row =
        (let r : ChangeSet = record l.row {
          status = opened;
          validated_digest = none;
          after_tree = none;
          validated_at = none;
          updated_at = now;
          error_code = some e;
        } in
          r);
  }

  -- The checks before the `try`, which leave the row as it is.
  unfoldable pub admit :
      (expected_revision : ℤ) → (profile : String) → Local → Result ErrorCode Unit
  admit expected_revision profile l = do
    raise_if (not (eqℤ (pos l.row.revision) expected_revision)) conflict
    raise_if (not (profile == "default")) validation_failed
    tree_or_error tools l.checkout
    ok tt

  -- The tree of the worktree is read for a warning, after the digest is stored.
  abbrev pub read_for_warning : Local → Result ErrorCode Unit
  read_for_warning l = do
    tree ← tree_or_error tools l.checkout
    hash_or_error tools (tools.worktree_tree tree)
    ok tt

  unfoldable pub close_stored : (now : ℕ) → Local → Result ErrorCode Unit → Outcome Unit
  unfolding reopen
  close_stored now l (ok u) = (ok tt, l)
  close_stored now l (err e) = (err e, reopen now e l)

  unfoldable pub close_validation :
      (change_set_id : String) → (now : ℕ) → Local → Result ErrorCode Validated → Outcome Unit
  unfolding store_validated reopen close_stored
  close_validation change_set_id now l (ok v) =
      close_stored now (store_validated change_set_id now v l) (read_for_warning l)
  close_validation change_set_id now l (err e) = (err e, reopen now e l)

  unfoldable pub validate_admitted :
      (change_set_id : String) → (now : ℕ) → Local → Result ErrorCode Unit → Outcome Unit
  unfolding inspect_all close_validation
  validate_admitted change_set_id now l (err e) = (err e, l)
  validate_admitted change_set_id now l (ok u) =
      close_validation change_set_id now l (inspect_all l)

  unfoldable pub validate :
      (change_set_id : String)
      → (expected_revision : ℤ) → (profile : String) → (now : ℕ) → Local
      → Outcome Unit
  unfolding active admit validate_admitted
  validate change_set_id expected_revision profile now l =
      and_then (active now l)
        λ l1. validate_admitted change_set_id now l1 (admit expected_revision profile l1)
