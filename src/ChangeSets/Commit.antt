-- ===== src/ChangeSets/Commit.antt =====
-- `commit` of app/services/change_set_store.py. An operation gives its result or the code of what it
-- raises, and the state then: what is stored before an exception stays.
pub mod Captured
pub mod Ends
pub mod Atomic
pub mod Restored
use test_gpt_local.Prelude.{
  ℕ, ◌+◌, String, Bool, true, false, ◌&&◌, ◌||◌, not, List, [], ◌∷◌, if◌then◌else◌, Option, none,
  some,
}
use test_gpt_local.Prelude.Text.{◌==◌}
use test_gpt_local.Prelude.Result.{Result, ok, err, raise_if, ◌>>=◌, ◌>>◌}
use test_gpt_local.ChangeSets.State.{
  Status, opened, validated, committing, recovery_required, committed, rolled_back, ErrorCode,
  workspace_not_found, stale_workspace, invalid_state, validation_failed, conflict,
  idempotency_conflict, not_validated, recovery_needed, internal_error, Phase, commit_intent,
  applying, files_applied, complete, phase_rolled_back, phase_recovery_required, Files, ChangeSet,
  Saved, Directory, Checkout, no_workspace, no_worktree, worktree, Local, Tools,
}
use test_gpt_local.ChangeSets.Files.{snapshot_rollback, restore}

abbrev pub Outcome : Type 0 → Type 0
Outcome A = Result ErrorCode A × Local

abbrev pub with_row : ChangeSet → Local → Local
with_row row l = record l { row = row }

-- The next statement, unless this one raised.
abbrev pub and_then : {A : Type 0} → Outcome Unit → (Local → Outcome A) → Outcome A
and_then (ok u, l) next = next l
and_then (err e, l) next = (err e, l)

-- `_journal`: the file is written first, which may fail.
unfoldable pub journal : (Phase → Bool) → (now : ℕ) → Phase → Local → Outcome Unit
journal writable now phase l =
    if writable phase
    then (
      ok tt,
      record l {
        row =
            (let r : ChangeSet = record l.row { commit_phase = some phase; updated_at = now } in r);
        directory = (let d : Directory = record l.directory { journal = some phase } in d);
      },
    )
    else (err internal_error, l)

abbrev pub text_is : Option String → String → Bool
text_is none s = false
text_is (some t) s = t == s

-- The statement `git apply` on the worktree, which may leave files behind where it fails.
module _ (tools : Tools) where
  abbrev pub on_worktree : {A : Type 0} → Checkout → A → (Files → A) → A
  on_worktree no_workspace missing f = missing
  on_worktree no_worktree missing f = missing
  on_worktree (worktree t) missing f = f t

  unfoldable pub check_patch : String → Local → Outcome Unit
  check_patch patch l =
      on_worktree l.checkout (err stale_workspace, l)
        (λ t. if tools.applies patch t then (ok tt, l) else (err conflict, l))

  unfoldable pub apply_patch : String → Local → Outcome Unit
  apply_patch patch l =
      on_worktree l.checkout (err stale_workspace, l)
        (λ t.
          let (done, u) = tools.apply patch t in
          (if done then ok tt else err conflict, record l { checkout = worktree u }))

  unfoldable pub check_after : String → Local → Outcome Unit
  check_after after l =
      on_worktree l.checkout (err stale_workspace, l)
        (λ t.
          if text_is (tools.worktree_tree t) after then (ok tt, l) else (err validation_failed, l))

  -- The last transaction: the change set is committed, and the workspace has a new revision.
  unfoldable pub finish : (now : ℕ) → Local → Outcome Unit
  finish now l = (
    ok tt,
    record l {
      row =
          (let r : ChangeSet = record l.row {
            status = committed;
            commit_phase = some complete;
            committed_at = some now;
            closed_at = some now;
            updated_at = now;
          } in
            r);
      workspace_revision = l.workspace_revision + 1;
    },
  )

  module _ (writable : Phase → Bool) (now : ℕ) where
    -- The body of `try`.
    unfoldable pub attempt : (patch after : String) → Local → Outcome Unit
    unfolding check_patch journal apply_patch check_after finish
    attempt patch after l = and_then (check_patch patch l) λ l1.
        and_then (journal writable now applying l1) λ l2. and_then (apply_patch patch l2) λ l3.
          and_then (check_after after l3) λ l4.
            and_then (journal writable now files_applied l4)
              λ l5. and_then (finish now l5) λ l6. journal writable now complete l6

    -- What stays in doubt is left to recovery.
    unfoldable pub give_up : Local → Outcome Unit
    unfolding journal
    give_up l =
        and_then
          (journal writable now phase_recovery_required (
            with_row
              (record l.row {
                status = recovery_required;
                error_code = some recovery_needed;
                updated_at = now;
              })
              l))
          λ l1. (err recovery_needed, l1)

    unfoldable pub close_undone : ErrorCode → Local → Outcome Unit
    unfolding journal
    close_undone e l =
        and_then
          (journal writable now phase_rolled_back (
            with_row
              (record l.row {
                status = rolled_back;
                closed_at = some now;
                updated_at = now;
                error_code = some e;
              })
              l))
          λ l1. (err e, l1)

    -- The worktree as `_restore` leaves it is the captured one, or recovery is asked for.
    unfoldable pub proven : ErrorCode → Bool → Files → Local → Outcome Unit
    unfolding give_up close_undone
    proven e restored u l =
        let l1 = let k : Local = record l { checkout = worktree u } in k in
        if restored && text_is (tools.worktree_tree u) l.row.before_tree
        then close_undone e l1
        else give_up l1

    unfoldable pub undo_from : ErrorCode → Option (List Saved) → Local → Outcome Unit
    unfolding restore proven
    undo_from e none l = give_up l
    undo_from e (some snapshot) l =
        on_worktree l.checkout (give_up l)
          (λ t. let (restored, u) = restore tools snapshot t in proven e restored u l)

    -- The body of `except`.
    unfoldable pub undo : Outcome Unit → Outcome Unit
    unfolding undo_from
    undo (ok u, l) = (ok u, l)
    undo (err e, l) = undo_from e l.directory.rollback l

    -- From the stored snapshot on. The first entry of the journal and the patch stand before the `try`.
    unfoldable pub run_patch : (after : String) → Option String → Local → Outcome Unit
    unfolding undo attempt
    run_patch after none l = (err internal_error, l)
    run_patch after (some patch) l = undo (attempt patch after l)

    unfoldable pub run_commit : (after : String) → List Saved → Local → Outcome Unit
    unfolding run_patch journal
    run_commit after snapshot l =
        let l1 =
          let k : Local = record l {
            row = (let r : ChangeSet = record l.row { status = committing; updated_at = now } in r);
            directory = (let d : Directory = record l.directory { rollback = some snapshot } in d);
          } in
          k in
        and_then (journal writable now commit_intent l1)
          λ l2. run_patch after l2.directory.final_patch l2

  abbrev pub tree_or_error : Checkout → Result ErrorCode Files
  tree_or_error no_workspace = err workspace_not_found
  tree_or_error no_worktree = err stale_workspace
  tree_or_error (worktree t) = ok t

  -- What `workspace_tree` gives, or the error of git.
  abbrev pub hash_or_error : Option String → Result ErrorCode String
  hash_or_error none = err validation_failed
  hash_or_error (some tree) = ok tree

  abbrev pub after_or_error : Option String → Result ErrorCode String
  after_or_error none = err not_validated
  after_or_error (some t) = if t == "" then err not_validated else ok t

  abbrev pub snapshot_or_error : Option (List Saved) → Result ErrorCode (List Saved)
  snapshot_or_error none = err internal_error
  snapshot_or_error (some s) = ok s

  abbrev pub differs : Option String → String → Bool
  differs none s = false
  differs (some t) s = not (t == "") && not (t == s)

  -- The checks of a validated change set: the tree after the commit, and the rollback snapshot.
  unfoldable pub ready :
      (digest : String)
      → (expected_tree : Option String) → Local
      → Result ErrorCode (String × List Saved)
  unfolding snapshot_rollback
  ready digest expected_tree l = do
    raise_if (not (text_is l.row.validated_digest digest)) not_validated
    after ← after_or_error l.row.after_tree
    raise_if (differs expected_tree l.row.before_tree) conflict
    tree ← tree_or_error l.checkout
    actual_tree ← hash_or_error (tools.worktree_tree tree)
    raise_if (not (actual_tree == l.row.before_tree)) conflict
    snapshot ← snapshot_or_error (snapshot_rollback tools l.row.files tree)
    ok (after, snapshot)

  abbrev pub run_ready :
      (Phase → Bool) → (now : ℕ) → Local → Result ErrorCode (String × List Saved) → Outcome Unit
  run_ready writable now l (err e) = (err e, l)
  run_ready writable now l (ok (after, snapshot)) = run_commit writable now after snapshot l

  abbrev pub replay : (digest : String) → Local → Outcome Unit
  replay digest l =
      (if text_is l.row.validated_digest digest then ok tt else err idempotency_conflict, l)

  unfoldable pub commit :
      (writable : Phase → Bool)
      → (digest : String) → (expected_tree : Option String) → (now : ℕ) → Local
      → Outcome Unit
  unfolding ready run_commit
  commit writable digest expected_tree now l = elim l.row.status [
    | committed ↦ replay digest l
    | validated ↦ run_ready writable now l (ready digest expected_tree l)
    | opened ↦ (err not_validated, l)
    | _ ↦ (err invalid_state, l)
  ]
