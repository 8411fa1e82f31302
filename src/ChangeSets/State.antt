-- ===== src/ChangeSets/State.antt =====
-- The state of a change set in app/services/change_set_store.py: its rows, its directory, and the
-- checkout of its workspace. What git and the hash functions do is a parameter. Time stamps are ticks.
use test_gpt_local.Prelude.{ℕ, String, Bool, true, false, List, Option}
use test_gpt_local.Prelude.Dict.{Dict}

-- `opened` is the status "open".
pub data Status : Type 0 where
  opened validated committing recovery_required committed rolled_back expired : Status

-- The statuses of the unique index of the table, which are those of `ACTIVE_STATUSES`.
unfoldable pub is_active : Status → Bool
is_active opened = true
is_active validated = true
is_active committing = true
is_active recovery_required = true
is_active _ = false

-- The codes of `ChangeSetError`. An exception of another class has the code `internal_error`.
pub data ErrorCode : Type 0 where
  change_set_not_found workspace_not_found stale_workspace : ErrorCode
  invalid_state invalid_input already_active limit_exceeded : ErrorCode
  validation_failed conflict change_set_expired idempotency_conflict : ErrorCode
  not_validated already_committed recovery_needed path_denied internal_error : ErrorCode

-- The phases of the journal and of `commit_phase`.
pub data Phase : Type 0 where
  begun commit_intent applying files_applied complete : Phase
  phase_committed phase_rolled_back phase_recovery_required : Phase

-- A regular file: its text and its mode.
pub record File : Type 0 where
  pub content : String
  pub mode : ℕ

abbrev pub Files : Type 0
Files = Dict File

pub data ChangeType : Type 0 where
  added modified deleted : ChangeType

-- A row of `change_set_files`: the hashes and modes stand where the file exists.
pub record FileRow : Type 0 where
  pub path : String
  pub change_type : ChangeType
  pub before : Option (String × ℕ)
  pub after : Option (String × ℕ)

-- The result of a staged operation. `digest` is `staged_digest`.
pub record Staged : Type 0 where
  pub operation_id : String
  pub ordinal : ℕ
  pub operation_type : String
  pub revision : ℕ
  pub changed_files : List FileRow
  pub digest : String
  pub validation_invalidated : Bool
  pub staging_bytes : ℕ

-- A row of `change_set_operations`, with the payload that its `payload_ref` names: `none` where the
-- file is missing or unreadable.
pub record Operation : Type 0 where
  pub operation_id : String
  pub ordinal : ℕ
  pub operation_type : String
  pub input_sha256 : String
  pub payload : Option String
  pub created_at : ℕ
  pub result : Staged

pub record ChangeSet : Type 0 where
  pub workspace_id : String
  pub explanation : String
  pub status : Status
  pub revision : ℕ
  pub base_head : String
  pub before_tree : String
  pub staged_digest : Option String
  pub validated_digest : Option String
  pub after_tree : Option String
  pub commit_phase : Option Phase
  pub error_code : Option ErrorCode
  pub created_at : ℕ
  pub updated_at : ℕ
  pub validated_at : Option ℕ
  pub committed_at : Option ℕ
  pub closed_at : Option ℕ
  pub expires_at : ℕ
  pub operations : List Operation
  pub files : List FileRow

-- An entry of the rollback snapshot: the copied file, where the path had one, and its hash.
pub record Saved : Type 0 where
  pub path : String
  pub file : Option File
  pub sha256 : String

pub record Directory : Type 0 where
  pub staging : Option Files
  pub final_patch : Option String
  pub rollback : Option (List Saved)
  pub journal : Option Phase

-- The worktree of a workspace, or what is missing.
pub data Checkout : Type 0 where
  no_workspace no_worktree : Checkout
  worktree : Files → Checkout

-- One change set, with its workspace's checkout and revision.
pub record Local : Type 0 where
  pub row : ChangeSet
  pub directory : Directory
  pub checkout : Checkout
  pub workspace_revision : ℕ

-- What git, the hash function and the path guard do.
pub record Tools : Type 0 where
  pub worktree_tree : Files → Option String  -- `workspace_tree`: the tree of a worktree, if git succeeds
  pub replaces : String → Files → Bool  -- a file can be copied and put in the place of the path
  pub chmods : String → Files → Bool  -- `os.chmod` succeeds
  pub unlinks : String → Files → Bool  -- nothing stands at the path, or a regular file that can be removed
  pub staged_tree : String → Files → String  -- `_tree_from_directory`, from a base tree
  pub archive : String → Option Files  -- `_materialize`: the regular files of a tree
  pub entries : String → Option (Dict (ℕ × String))  -- `ls-tree`: mode and object id
  pub blob_sha256 : String → String
  pub diff : String → String → String
  pub is_binary : String → Bool
  pub applies : String → Files → Bool  -- `git apply --check`
  pub apply : String → Files → Bool × Files  -- `git apply`: whether it succeeds, and the files after
  pub sha256 : String → String
  pub joined_sha256 : List String → String  -- the hash of a concatenation
  pub decimal : ℕ → String
  pub payload_hash : String → String → String  -- of an operation's type and payload
  pub file_size : String → ℕ
  pub resolves : String → Bool  -- `resolve_within` accepts the path
  pub denied : String → Bool

pub record Config : Type 0 where
  pub enabled : Bool
  pub ttl_hours : ℕ
  pub max_operations : ℕ
  pub max_changed_files : ℕ
  pub max_staging_bytes : ℕ
  pub retain_terminal_hours : ℕ
