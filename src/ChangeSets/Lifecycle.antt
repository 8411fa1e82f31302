-- ===== src/ChangeSets/Lifecycle.antt =====
-- Expiry, `rollback`, and the reconciling of an interrupted commit in
-- app/services/change_set_store.py, on one change set.
pub mod Active
pub mod Recovery
use test_gpt_local.Prelude.{
  ℕ, ◌+◌, ◌-◌, String, Bool, true, false, ◌&&◌, ◌||◌, not, List, [], ◌∷◌, if◌then◌else◌, leb, ltb,
  Option, none, some,
}
use test_gpt_local.Prelude.Text.{◌==◌}
use test_gpt_local.Prelude.Result.{Result, ok, err}
use test_gpt_local.ChangeSets.State.{
  Status, opened, validated, committing, recovery_required, committed, rolled_back, expired,
  ErrorCode, workspace_not_found, stale_workspace, invalid_state, change_set_expired,
  already_committed, recovery_needed, internal_error, Phase, phase_committed, phase_rolled_back,
  phase_recovery_required, Files, ChangeSet, Saved, Directory, Checkout, no_workspace, no_worktree,
  worktree, Local, Tools,
}
use test_gpt_local.ChangeSets.Files.{restore}
use test_gpt_local.ChangeSets.Commit.{Outcome, and_then, journal, text_is, with_row}

abbrev pub drop_staging : Directory → Directory
drop_staging d = record d { staging = none }

abbrev pub expire : (now : ℕ) → Local → Local
expire now l = record l {
  row =
      (let r : ChangeSet = record l.row {
        status = expired;
        updated_at = now;
        closed_at = some now;
      } in
        r);
  directory = drop_staging l.directory;
}

abbrev pub may_expire : Status → Bool
may_expire opened = true
may_expire validated = true
may_expire _ = false

-- `_expire_if_needed`
unfoldable pub expire_if_needed : (now : ℕ) → Local → Outcome Unit
expire_if_needed now l =
    if may_expire l.row.status && leb l.row.expires_at now
    then (err change_set_expired, expire now l)
    else (ok tt, l)

-- `_active`, where the allowed statuses are those that may expire.
unfoldable pub active : (now : ℕ) → Local → Outcome Unit
unfolding expire_if_needed
active now l =
    and_then (expire_if_needed now l)
      λ l1. (if may_expire l1.row.status then ok tt else err invalid_state, l1)

-- The row and the directory of a change set that is given up.
abbrev pub discard : (now : ℕ) → Local → Local
discard now l = record l {
  row =
      (let r : ChangeSet = record l.row {
        status = rolled_back;
        closed_at = some now;
        updated_at = now;
        validated_digest = none;
        after_tree = none;
      } in
        r);
  directory = drop_staging l.directory;
}

-- `rollback`
unfoldable pub rollback_in : Status → (writable : Phase → Bool) → (now : ℕ) → Local → Outcome Unit
unfolding journal
rollback_in rolled_back writable now l = (ok tt, l)
rollback_in committed writable now l = (err already_committed, l)
rollback_in committing writable now l = (err recovery_needed, l)
rollback_in recovery_required writable now l = (err recovery_needed, l)
rollback_in expired writable now l = (err change_set_expired, l)
rollback_in _ writable now l = journal writable now phase_rolled_back (discard now l)

unfoldable pub rollback : (writable : Phase → Bool) → (now : ℕ) → Local → Outcome Unit
unfolding rollback_in
rollback writable now l = rollback_in l.row.status writable now l

abbrev pub phase_of : Status → Phase
phase_of committed = phase_committed
phase_of rolled_back = phase_rolled_back
phase_of _ = phase_recovery_required

abbrev pub closed_at_of : Status → (now : ℕ) → Option ℕ → Option ℕ
closed_at_of recovery_required now before = before
closed_at_of _ now before = some now

-- The `UPDATE` of a reconciled change set.
abbrev pub settle : Status → (now : ℕ) → Local → Local
settle status now l = record l {
  row =
      (let r : ChangeSet = record l.row {
        status = status;
        commit_phase = some (phase_of status);
        updated_at = now;
        closed_at = closed_at_of status now l.row.closed_at;
      } in
        r);
}

abbrev pub settle_in_doubt : (now : ℕ) → Local → Local
settle_in_doubt now l = record l {
  row =
      (let r : ChangeSet = record l.row {
        status = recovery_required;
        commit_phase = some phase_recovery_required;
        updated_at = now;
      } in
        r);
}

module _ (tools : Tools) (writable : Phase → Bool) (now : ℕ) where
  abbrev pub restored_status : Local → Bool × Files → Status × Files
  restored_status l (done, u) = (
    if done && text_is (tools.worktree_tree u) l.row.before_tree
        then rolled_back
        else recovery_required,
    u,
  )

  unfoldable pub judge_restored : Local → Files → Option (List Saved) → Status × Files
  unfolding restore
  judge_restored l t none = (recovery_required, t)
  judge_restored l t (some snapshot) = restored_status l (restore tools snapshot t)

  -- The status that the worktree shows, and the worktree, which may be restored first.
  unfoldable pub judge : Local → Files → (current : String) → Status × Files
  unfolding judge_restored
  judge l t current =
      if text_is l.row.after_tree current
      then (committed, t)
      else if current == l.row.before_tree
      then (rolled_back, t)
      else judge_restored l t l.directory.rollback

  abbrev pub recorded : Status → Outcome Unit → Status × Local
  recorded status (ok u, l) = (status, l)
  recorded status (err e, l) = (recovery_required, settle_in_doubt now l)

  -- The count of the change set, and its state; a journal that fails leaves it in doubt.
  unfoldable pub record_status : Status → Local → Status × Local
  unfolding journal
  record_status status l =
      recorded status (journal writable now (phase_of status) (settle status now l))

  -- Where git cannot read the worktree, the change set is in doubt.
  unfoldable pub reconcile_read : Local → Files → Option String → Status × Local
  unfolding judge record_status
  reconcile_read l t none = (recovery_required, settle_in_doubt now l)
  reconcile_read l t (some current) =
      let (status, u) = judge l t current in
      record_status status (let k : Local = record l { checkout = worktree u } in k)

  unfoldable pub reconcile_on : Local → Checkout → Status × Local
  unfolding reconcile_read
  reconcile_on l no_workspace = (recovery_required, settle_in_doubt now l)
  reconcile_on l no_worktree = (recovery_required, settle_in_doubt now l)
  reconcile_on l (worktree t) = reconcile_read l t (tools.worktree_tree t)

  -- One round of the loop of `reconcile_incomplete`.
  unfoldable pub reconcile : Local → Status × Local
  unfolding reconcile_on
  reconcile l = reconcile_on l l.checkout

-- What `cleanup_expired` does with a row: expires it, removes the directory, or nothing.
pub data Cleanup : Type 0 where
  keeps expires removes : Cleanup

abbrev pub old_enough : Option ℕ → (now retain : ℕ) → Cleanup
old_enough none now retain = keeps
old_enough (some t) now retain = if leb (t + retain) now then removes else keeps

abbrev pub if_expired : (now expires_at : ℕ) → Cleanup
if_expired now expires_at = if ltb now expires_at then keeps else expires

abbrev pub cleanup_in : Status → (now retain : ℕ) → ChangeSet → Cleanup
cleanup_in opened now retain row = if_expired now row.expires_at
cleanup_in validated now retain row = if_expired now row.expires_at
cleanup_in committing now retain row = keeps
cleanup_in recovery_required now retain row = keeps
cleanup_in _ now retain row = old_enough row.closed_at now retain

unfoldable pub cleanup_of : (now retain : ℕ) → ChangeSet → Cleanup
cleanup_of now retain row = cleanup_in row.status now retain row

-- A directory that is removed.
abbrev pub empty_directory : Directory
empty_directory = record { staging = none; final_patch = none; rollback = none; journal = none }

abbrev pub clean_as : Cleanup → (now : ℕ) → Local → Local
clean_as keeps now l = l
clean_as expires now l = expire now l
clean_as removes now l = record l { directory = empty_directory }

-- One round of the loop of `cleanup_expired`.
unfoldable pub clean : (now retain : ℕ) → Local → Local
unfolding cleanup_of
clean now retain l = clean_as (cleanup_of now retain l.row) now l
