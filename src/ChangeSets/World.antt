-- ===== src/ChangeSets/World.antt =====
-- The change sets of app/services/change_set_store.py together: the tables, the directories and the
-- workspaces, `begin`, and the loops over all change sets. An operation on one change set runs on it
-- and on its workspace. The locks are not modelled: a call is one step.
pub mod Rows
pub mod Deleted
pub mod Steps
pub mod Exclusive
pub mod Sound
pub mod Discard
pub mod Begin
use test_gpt_local.Prelude.{
  ℕ, ◌+◌, ◌*◌, String, Bool, true, false, ◌&&◌, ◌||◌, not, List, [], ◌∷◌, if◌then◌else◌, ltb,
  Option, none, some,
}
use test_gpt_local.Prelude.Int.{ℤ}
use test_gpt_local.Prelude.Text.{◌==◌, is_blank}
use test_gpt_local.Prelude.Dict
use test_gpt_local.Prelude.Dict.{Dict}
use test_gpt_local.Prelude.Result.{Result, ok, err, raise_if, ◌>>=◌, ◌>>◌}
use test_gpt_local.ChangeSets.State.{
  Status, validated, recovery_required, opened, committing, committed, rolled_back, expired,
  is_active, ErrorCode, change_set_not_found, invalid_state, invalid_input, already_active,
  limit_exceeded, validation_failed, internal_error, Phase, begun, Files, ChangeSet, Directory,
  Checkout, no_workspace, no_worktree, worktree, Local, Tools, Config,
}
use test_gpt_local.ChangeSets.Files.{directory_size}
use test_gpt_local.ChangeSets.Commit.{Outcome, commit, tree_or_error, hash_or_error}
use test_gpt_local.ChangeSets.Lifecycle.{rollback, reconcile, empty_directory, clean}
use test_gpt_local.ChangeSets.Staging.{stage}
use test_gpt_local.ChangeSets.Validation.{validate}

pub record Stored : Type 0 where
  pub row : ChangeSet
  pub directory : Directory

-- A workspace's worktree, if its directory is there, and its revision.
pub record Workspace : Type 0 where
  pub tree : Option Files
  pub revision : ℕ

pub record World : Type 0 where
  pub sets : Dict Stored
  pub workspaces : Dict Workspace

abbrev pub checkout_of : Option Workspace → Checkout
checkout_of none = no_workspace
checkout_of (some w) = elim w.tree [ none ↦ no_worktree | some t ↦ worktree t ]

abbrev pub revision_of : Option Workspace → ℕ
revision_of none = 0
revision_of (some w) = w.revision

unfoldable pub local_of : World → Stored → Local
local_of w s = record {
  row = s.row;
  directory = s.directory;
  checkout = checkout_of (Dict.get s.row.workspace_id w.workspaces);
  workspace_revision = revision_of (Dict.get s.row.workspace_id w.workspaces);
}

abbrev pub put_checkout : String → Checkout → (revision : ℕ) → Dict Workspace → Dict Workspace
put_checkout workspace_id no_workspace revision ws = ws
put_checkout workspace_id no_worktree revision ws =
    Dict.put workspace_id (record { tree = none; revision = revision }) ws
put_checkout workspace_id (worktree t) revision ws =
    Dict.put workspace_id (record { tree = some t; revision = revision }) ws

unfoldable pub put_local : String → Local → World → World
unfolding Dict.put
put_local id l w = record {
  sets = Dict.put id (record { row = l.row; directory = l.directory }) w.sets;
  workspaces = put_checkout l.row.workspace_id l.checkout l.workspace_revision w.workspaces;
}

-- `get`, and then the operation.
abbrev pub run_on :
    {A : Type 0} → (Local → Outcome A) → String → World → Option Stored → Result ErrorCode A × World
run_on f id w none = (err change_set_not_found, w)
run_on f id w (some s) = let o = f (local_of w s) in (o.0, put_local id o.1 w)

unfoldable pub with_set :
    {A : Type 0} → (Local → Outcome A) → String → World → Result ErrorCode A × World
unfolding Dict.get local_of put_local
with_set f id w = run_on f id w (Dict.get id w.sets)

-- What the unique index of the table looks for.
unfoldable pub has_active : (workspace_id : String) → Dict Stored → Bool
has_active workspace_id [] = false
has_active workspace_id ((id, s) ∷ sets) =
    s.row.workspace_id == workspace_id && is_active s.row.status || has_active workspace_id sets

-- The statuses of the statement of `assert_workspace_discardable`.
unfoldable pub holds_workspace : Status → Bool
holds_workspace opened = true
holds_workspace validated = true
holds_workspace committing = true
holds_workspace recovery_required = true
holds_workspace committed = false
holds_workspace rolled_back = false
holds_workspace expired = false

-- Whether the statement finds a row.
unfoldable pub is_held : (workspace_id : String) → Dict Stored → Bool
unfolding holds_workspace
is_held workspace_id [] = false
is_held workspace_id ((id, s) ∷ sets) =
    s.row.workspace_id == workspace_id && holds_workspace s.row.status || is_held workspace_id sets

-- `assert_workspace_discardable`
unfoldable pub assert_workspace_discardable :
    (workspace_id : String) → World → Result ErrorCode Unit
unfolding is_held
assert_workspace_discardable workspace_id w = raise_if (is_held workspace_id w.sets) invalid_state

-- An hour in ticks, which are microseconds.
abbrev pub hour : ℕ
hour = 3600000000

abbrev pub has_id : Option Stored → Bool
has_id none = false
has_id (some s) = true

module _ (tools : Tools) (sorted : List String → List String) (config : Config) where
  abbrev pub archive_or_error : Option Files → Result ErrorCode Files
  archive_or_error none = err validation_failed
  archive_or_error (some t) = ok t

  abbrev pub entries_or_error : Option (Dict (ℕ × String)) → Result ErrorCode Unit
  entries_or_error none = err validation_failed
  entries_or_error (some entries) = ok tt

  -- The snapshot of a new change set: the tree of the worktree and its files. `supported` is what
  -- `_ensure_supported` raises, and `total` is the size of the objects of a tree.
  unfoldable pub begin_snapshot :
      (supported : Result ErrorCode Unit)
      → (total : String → ℕ) → (explanation : String) → Checkout
      → Result ErrorCode (String × Files)
  unfolding is_blank directory_size
  begin_snapshot supported total explanation c = do
    raise_if (not config.enabled) invalid_state
    raise_if (is_blank explanation) invalid_input
    tree ← tree_or_error tools c
    supported
    before_tree ← hash_or_error tools (tools.worktree_tree tree)
    entries_or_error (tools.entries before_tree)
    raise_if (ltb config.max_staging_bytes (total before_tree)) limit_exceeded
    staging ← archive_or_error (tools.archive before_tree)
    raise_if (ltb config.max_staging_bytes (directory_size tools staging)) limit_exceeded
    ok (before_tree, staging)

  new_row : (workspace_id explanation head before_tree : String) → (now : ℕ) → ChangeSet
  new_row workspace_id explanation head before_tree now = record {
    workspace_id = workspace_id;
    explanation = explanation;
    status = opened;
    revision = 1;
    base_head = head;
    before_tree = before_tree;
    staged_digest = none;
    validated_digest = none;
    after_tree = none;
    commit_phase = none;
    error_code = none;
    created_at = now;
    updated_at = now;
    validated_at = none;
    committed_at = none;
    closed_at = none;
    expires_at = now + config.ttl_hours * hour;
    operations = [];
    files = [];
  }

  abbrev pub new_directory : Bool → Files → Directory
  new_directory true staging = record empty_directory {
    staging = some staging;
    journal = some begun;
  }
  new_directory false staging = empty_directory

  -- The `INSERT`, which the primary key and the unique index may refuse, and the files that are
  -- written after it: where that fails, the row stays and the directory is removed.
  unfoldable pub insert_new :
      (written : Bool)
      → (id workspace_id explanation head : String) → (now : ℕ) → World
      → String × Files
      → Result ErrorCode Unit × World
  unfolding has_active Dict.get Dict.put new_row
  insert_new written id workspace_id explanation head now w (before_tree, staging) =
      if has_id (Dict.get id w.sets) || has_active workspace_id w.sets
      then (err already_active, w)
      else (
        if written then ok tt else err internal_error,
        record w {
          sets =
              Dict.put id
                (record {
                  row = new_row workspace_id explanation head before_tree now;
                  directory = new_directory written staging;
                })
                w.sets;
        },
      )

  abbrev pub insert_found :
      (written : Bool)
      → (id workspace_id explanation head : String) → (now : ℕ) → World
      → Result ErrorCode (String × Files)
      → Result ErrorCode Unit × World
  insert_found written id workspace_id explanation head now w (err e) = (err e, w)
  insert_found written id workspace_id explanation head now w (ok found) =
      insert_new written id workspace_id explanation head now w found

  -- `begin`; the id is `uuid4`, and `head` is the commit of the worktree.
  unfoldable pub begin :
      (supported : Result ErrorCode Unit)
      → (total : String → ℕ) → (head : String) → (written : Bool)
      → (id workspace_id explanation : String) → (now : ℕ) → World
      → Result ErrorCode Unit × World
  unfolding begin_snapshot insert_new
  begin supported total head written id workspace_id explanation now w =
      insert_found written id workspace_id explanation head now w (
        begin_snapshot supported total explanation
          (checkout_of (Dict.get workspace_id w.workspaces)))

module _ (tools : Tools) (writable : Phase → Bool) (now : ℕ) where
  abbrev pub is_committing : Status → Bool
  is_committing committing = true
  is_committing _ = false

  unfoldable pub reconcile_if : Local → Outcome Unit
  unfolding reconcile
  reconcile_if l =
      if is_committing l.row.status then (ok tt, (reconcile tools writable now l).1) else (ok tt, l)

  -- `reconcile_incomplete`: the loop over the rows that were found in the status `committing`. Nothing
  -- else runs when the server starts, so a row still has the status in its round.
  unfoldable pub reconcile_incomplete : (rows : Dict Stored) → World → World
  unfolding with_set reconcile_if
  reconcile_incomplete [] w = w
  reconcile_incomplete ((id, s) ∷ rows) w = reconcile_incomplete rows (with_set reconcile_if id w).1

unfoldable pub clean_at : (config : Config) → (now : ℕ) → Local → Outcome Unit
unfolding clean
clean_at config now l = (ok tt, clean now (config.retain_terminal_hours * hour) l)

-- `cleanup_expired`: the loop over the rows.
unfoldable pub cleanup_expired :
    (config : Config) → (now : ℕ) → (rows : Dict Stored) → World → World
unfolding with_set clean_at
cleanup_expired config now [] w = w
cleanup_expired config now ((id, s) ∷ rows) w =
    cleanup_expired config now rows (with_set (clean_at config now) id w).1

abbrev pub is_terminal : Status → Bool
is_terminal committed = true
is_terminal rolled_back = true
is_terminal expired = true
is_terminal _ = false

-- `delete_terminal_data`
unfoldable pub delete_terminal_data : (workspace_id : String) → Dict Stored → Dict Stored
delete_terminal_data workspace_id [] = []
delete_terminal_data workspace_id ((id, s) ∷ sets) =
    (
      id,
      if s.row.workspace_id == workspace_id && is_terminal s.row.status
          then record s { directory = empty_directory }
          else s,
    )
    ∷ delete_terminal_data workspace_id sets

-- The row with an id, and what belongs to it.
unfoldable pub remove_id : String → Dict Stored → Dict Stored
remove_id id [] = []
remove_id id ((k, s) ∷ d) = let rest = remove_id id d in if k == id then rest else (k, s) ∷ rest

abbrev pub drop_found : (workspace_id id : String) → Dict Stored → Option Stored → Dict Stored
drop_found workspace_id id d none = d
drop_found workspace_id id d (some s) =
    if s.row.workspace_id == workspace_id then remove_id id d else d

-- `DELETE FROM change_sets WHERE workspace_id=?`, with the operations and the files of the rows.
unfoldable pub delete_rows :
    (workspace_id : String) → (rows : Dict Stored) → Dict Stored → Dict Stored
unfolding remove_id Dict.get
delete_rows workspace_id [] d = d
delete_rows workspace_id ((id, s) ∷ rows) d =
    delete_rows workspace_id rows (drop_found workspace_id id d (Dict.get id d))

-- `db.delete_workspace`, which follows `delete_terminal_data` when a workspace is discarded.
unfoldable pub delete_workspace : (workspace_id : String) → World → World
unfolding delete_rows Dict.remove
delete_workspace workspace_id w = record {
  sets = delete_rows workspace_id w.sets w.sets;
  workspaces = Dict.remove workspace_id w.workspaces;
}
