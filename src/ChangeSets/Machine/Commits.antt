-- ===== src/ChangeSets/Machine/Commits.antt =====
-- `commit` of app/services/change_set_store.py follows the machine.
use test_gpt_local.ChangeSets.Commit.{text_is}
use test_gpt_local.Prelude.{
  ℕ, ◌≡◌, refl, sym, ap, subst, ◌∙◌, String, Bool, ◌&&◌, List, Option, none, some, inl, inr,
  Bool-cases,
}
use test_gpt_local.Prelude.Result.{Result, ok, err}
use test_gpt_local.ChangeSets.State.{
  Status, opened, validated, committing, committed, ErrorCode, Phase, commit_intent,
  phase_rolled_back, phase_recovery_required, Files, FileRow, Operation, ChangeSet, Saved,
  Directory, worktree, Local, Tools, not_validated, invalid_state,
}
use test_gpt_local.ChangeSets.Commit.{
  Outcome, journal, give_up, close_undone, proven, undo_from, undo, run_patch, run_commit, ready,
  run_ready, replay, commit,
}
use test_gpt_local.ChangeSets.Commit.Captured.{
  captured, and_then-captured, journal-captured, on_worktree-captured, attempt-captured,
}
use test_gpt_local.ChangeSets.Commit.Atomic.{
  CommitEnds, replayed, refused, done, undone, in_doubt, interrupted, commit-CommitEnds,
}
use test_gpt_local.ChangeSets.Machine.{
  ◌⟶*◌, here, step, start, complete, undo as undo_edge, doubt, Follows,
}

abbrev pub Identity : Type 0
Identity = String × String × ℕ × List Operation × List FileRow × Option String × Option String

-- The workspace, the captured tree and the content of a change set.
abbrev pub identity : Local → Identity
identity l = (
  l.row.workspace_id, l.row.before_tree, l.row.revision, l.row.operations, l.row.files,
  l.row.validated_digest, l.row.after_tree,
)

from_captured : (l l' : Local) → captured l' ≡ captured l → identity l' ≡ identity l
from_captured l l' e = ap (λ x. (x.0, x.1, x.3, x.4, x.5, x.6, x.7)) e

abbrev snd : Outcome Unit → Local
snd (r, l) = l

ends : {s s' t t' : Status} → s ≡ s' → t ≡ t' → s' ⟶* t' → s ⟶* t
ends {s} {s'} {t} {t'} a b p = subst (λ x. x ⟶* t) (sym a) (subst (λ x. s' ⟶* x) (sym b) p)

module _ (tools : Tools) (writable : Phase → Bool) (now : ℕ) where
  give_up-captured : (l : Local) → captured (give_up tools writable now l).1 ≡ captured l
  unfolding give_up
  give_up-captured l =
      and_then-captured (journal writable now phase_recovery_required _) _ l
        (journal-captured writable now phase_recovery_required _) (λ l1. refl)

  close_undone-captured :
      (e : ErrorCode) (l : Local) → captured (close_undone tools writable now e l).1 ≡ captured l
  unfolding close_undone
  close_undone-captured e l =
      and_then-captured (journal writable now phase_rolled_back _) _ l
        (journal-captured writable now phase_rolled_back _) (λ l1. refl)

  proven-captured :
      (e : ErrorCode) (b : Bool) (u : Files) (l : Local)
      → captured (proven tools writable now e b u l).1 ≡ captured l
  unfolding proven
  proven-captured e b u l =
      let l1 : Local = record l { checkout = worktree u } in
      elim (Bool-cases (b && text_is (tools.worktree_tree u) l.row.before_tree)) [
        | inl h ↦ rw h (close_undone-captured e l1)
        | inr h ↦ rw h (give_up-captured l1)
      ]

  undo_from-captured :
      (e : ErrorCode) (o : Option (List Saved)) (l : Local)
      → captured (undo_from tools writable now e o l).1 ≡ captured l
  unfolding undo_from
  undo_from-captured e none l = give_up-captured l
  undo_from-captured e (some snapshot) l =
      on_worktree-captured tools l.checkout _ _ l (give_up-captured l)
        (λ t. proven-captured e _ _ l)

  undo-captured : (o : Outcome Unit) → captured (undo tools writable now o).1 ≡ captured o.1
  unfolding undo
  undo-captured (ok u, l) = refl
  undo-captured (err e, l) = undo_from-captured e l.directory.rollback l

  run_patch-captured :
      (after : String) (o : Option String) (l : Local)
      → captured (run_patch tools writable now after o l).1 ≡ captured l
  unfolding run_patch
  run_patch-captured after none l = refl
  run_patch-captured after (some patch) l =
      undo-captured _ ∙ attempt-captured tools writable now patch after l

  run_commit-identity :
      (after : String) (snapshot : List Saved) (l : Local)
      → identity (run_commit tools writable now after snapshot l).1 ≡ identity l
  unfolding run_commit
  run_commit-identity after snapshot l =
      let l1 : Local = record l {
        row = (let r : ChangeSet = record l.row { status = committing; updated_at = now } in r);
        directory = (let d : Directory = record l.directory { rollback = some snapshot } in d);
      } in
      from_captured l1 (run_commit tools writable now after snapshot l).1 (
        and_then-captured (journal writable now commit_intent l1) _ l1
          (journal-captured writable now commit_intent l1)
          (λ l2. run_patch-captured after l2.directory.final_patch l2))

  run_ready-identity :
      (l : Local) (r : Result ErrorCode (String × List Saved))
      → identity (run_ready tools writable now l r).1 ≡ identity l
  run_ready-identity l (err e) = refl
  run_ready-identity l (ok (after, snapshot)) = run_commit-identity after snapshot l

  pub commit-identity :
      (digest : String) (expected : Option String) (l : Local)
      → identity (commit tools writable digest expected now l).1 ≡ identity l
  unfolding commit
  commit-identity digest expected l = by_status l.row.status
    where
      by_status :
          (s : Status)
          → identity (
              snd (elim s [
                | committed ↦ replay tools digest l
                | validated ↦ run_ready tools writable now l (ready tools digest expected l)
                | opened ↦ (err not_validated, l)
                | _ ↦ (err invalid_state, l)
              ]))
            ≡ identity l
      by_status validated = run_ready-identity l _
      by_status _ = refl

  CommitEnds-path :
      {digest : String} {l : Local} {o : Outcome Unit}
      → CommitEnds tools digest l o
      → l.row.status ⟶* o.1.row.status
  CommitEnds-path (replayed e) = here
  CommitEnds-path (refused e) = here
  CommitEnds-path (done s e t r) = ends s.was_validated e (step start (step complete here))
  CommitEnds-path (undone s e t) = ends s.was_validated e (step start (step undo_edge here))
  CommitEnds-path (in_doubt s e) = ends s.was_validated e (step start (step doubt here))
  CommitEnds-path (interrupted s e c) = ends s.was_validated e (step start here)

  pub commit-Follows :
      (digest : String) (expected : Option String) (l : Local)
      → Follows l.row (commit tools writable digest expected now l).1.row
  commit-Follows digest expected l =
      let same = commit-identity digest expected l in
      record {
        same_workspace = ap (λ x. x.0) same;
        same_base = ap (λ x. x.1) same;
        path = CommitEnds-path (commit-CommitEnds tools writable now digest expected l);
      }
