-- ===== src/ChangeSets/Lifecycle/Recovery.antt =====
-- What a round of `reconcile_incomplete` of app/services/change_set_store.py makes of an interrupted
-- commit.
use test_gpt_local.ChangeSets.Commit.Ends.{text_is-true}
use test_gpt_local.ChangeSets.Files.Restore.{IsClear}
use test_gpt_local.ChangeSets.Lifecycle.{reconcile_read}
use test_gpt_local.Prelude.{
  ℕ, ◌≡◌, ◌≢◌, refl, sym, ap, subst, ◌∙◌, String, Bool, true, false, List, Option, none, some, inl,
  inr, Bool-cases, All,
}
use test_gpt_local.Prelude.Text.{◌==◌, eq_iff, eq_refl}
use test_gpt_local.Prelude.Dict.{IsUnique}
use test_gpt_local.ChangeSets.State.{
  Status, committed, rolled_back, recovery_required, Phase, FileRow, Files, ChangeSet, Saved,
  Directory, Checkout, no_workspace, no_worktree, worktree, Local, Tools,
}
use test_gpt_local.ChangeSets.Files.{snapshot_rollback, restore}
use test_gpt_local.ChangeSets.Files.Restore.{
  paths, IsAllowed, AgreesBut, Same, restore-snapshot_rollback,
}
use test_gpt_local.ChangeSets.Commit.{journal, text_is}
use test_gpt_local.ChangeSets.Commit.Ends.{TreeIs}
use test_gpt_local.ChangeSets.Lifecycle.{
  phase_of, settle, restored_status, judge_restored, judge, record_status, reconcile_on, reconcile,
}

module _ (tools : Tools) (writable : Phase → Bool) (now : ℕ) where
  pub data Reconciled (l : Local) : Status × Local → Type 0 where
    as_committed :
        {l' : Local} (after : String)
        → l.row.after_tree ≡ some after
        → l'.row.status ≡ committed
        → TreeIs tools after l'.checkout
        → Reconciled l (committed, l')
    as_rolled_back :
        {l' : Local}
        → l'.row.status ≡ rolled_back
        → TreeIs tools l.row.before_tree l'.checkout
        → Reconciled l (rolled_back, l')
    in_doubt :
        {l' : Local} → l'.row.status ≡ recovery_required → Reconciled l (recovery_required, l')

  -- What the decision says of the worktree.
  data Judged (l : Local) : Status × Files → Type 0 where
    is_after :
        {u : Files} (after : String)
        → l.row.after_tree ≡ some after
        → tools.worktree_tree u ≡ some after
        → Judged l (committed, u)
    is_before :
        {u : Files} → tools.worktree_tree u ≡ some l.row.before_tree → Judged l (rolled_back, u)
    unclear : {u : Files} → Judged l (recovery_required, u)

  restored-Judged :
      (l : Local) (r : Bool × Files) → Judged l (restored_status tools writable now l r)
  restored-Judged l (false, u) = unclear
  restored-Judged l (true, u) =
      elim (Bool-cases (text_is (tools.worktree_tree u) l.row.before_tree)) [
        | inl b ↦ rw b (is_before (text_is-true _ _ b))
        | inr b ↦ rw b unclear
      ]

  judge-Judged :
      (l : Local) (t : Files) (current : String)
      → tools.worktree_tree t ≡ some current
      → Judged l (judge tools writable now l t current)
  unfolding judge judge_restored
  judge-Judged l t current h = elim (Bool-cases (text_is l.row.after_tree current)) [
    | inl a ↦ rw a (is_after current (text_is-true _ _ a) h)
    | inr a ↦ elim (Bool-cases (current == l.row.before_tree)) [
      | inl b ↦ rw (a, b) (is_before (h ∙ ap some ((eq_iff current l.row.before_tree).0 b)))
      | inr b ↦ rw (a, b) (from l.directory.rollback)
    ]
  ]
    where
      from : (o : Option (List Saved)) → Judged l (judge_restored tools writable now l t o)
      from none = unclear
      from (some snapshot) = restored-Judged l (restore tools snapshot t)

  record_status-Reconciled :
      (l : Local) (d : Status × Files)
      → Judged l d
      → Reconciled l (
          record_status tools writable now d.0
            (let k : Local = record l { checkout = worktree d.1 } in k))
  unfolding record_status journal
  record_status-Reconciled l (s, u) j = elim (Bool-cases (writable (phase_of s))) [
    | inr w ↦ rw w (in_doubt refl)
    | inl w ↦ rw w (from j)
  ]
    where
      from :
          {s : Status} {u : Files}
          → Judged l (s, u)
          → Reconciled l (
            s,
            (let k : Local =
                  record (settle s now (let k : Local = record l { checkout = worktree u } in k)) {
                    row =
                        (let r : ChangeSet = record (settle s now l).row {
                          commit_phase = some (phase_of s);
                          updated_at = now;
                        } in
                          r);
                    directory =
                        (let d : Directory = record l.directory { journal = some (phase_of s) } in
                          d);
                  } in
                k),
          )
      from (is_after after a t) = as_committed after a refl (_, refl, t)
      from (is_before t) = as_rolled_back refl (_, refl, t)
      from unclear = in_doubt refl

  -- However far a commit had come: the change set is then committed and the worktree has the validated
  -- tree, or it is rolled back and the worktree has the captured tree, or it needs recovery.
  pub reconcile-Reconciled : (l : Local) → Reconciled l (reconcile tools writable now l)
  unfolding reconcile reconcile_on reconcile_read
  reconcile-Reconciled l = from l.checkout
    where
      read :
          (t : Files) (o : Option String)
          → tools.worktree_tree t ≡ o
          → Reconciled l (reconcile_read tools writable now l t o)
      read t none h = in_doubt refl
      read t (some current) h = record_status-Reconciled l _ (judge-Judged l t current h)

      from : (c : Checkout) → Reconciled l (reconcile_on tools writable now l c)
      from no_workspace = in_doubt refl
      from no_worktree = in_doubt refl
      from (worktree t) = read t (tools.worktree_tree t) refl

  judge-restores :
      (l : Local) (current : String) (t u : Files) (snapshot : List Saved) (items : List FileRow)
      → ((x y : Files) → Same tools x y → tools.worktree_tree y ≡ tools.worktree_tree x)
      → IsClear tools (paths items) t items
      → All (IsAllowed tools) items
      → snapshot_rollback tools items t ≡ some snapshot
      → l.directory.rollback ≡ some snapshot
      → tools.worktree_tree t ≡ some l.row.before_tree
      → IsUnique u
      → AgreesBut tools (paths items) t u
      → (judge tools writable now l u current).0 ≢ recovery_required
  unfolding judge judge_restored
  judge-restores l current t u snapshot items by_files clear allowed s r b unique a =
      let (x, y) = restore-snapshot_rollback tools items t u snapshot clear allowed s unique a in
      elim (Bool-cases (text_is l.row.after_tree current)) [
        | inl c ↦ rw c (λ h. cc)
        | inr c ↦ elim (Bool-cases (current == l.row.before_tree)) [
          | inl d ↦ rw (c, d) (λ h. cc)
          | inr d ↦
              rw (c, d)
                (subst (λ o. (judge_restored tools writable now l u o).0 ≢ recovery_required)
                  (sym r) (rw (x, by_files t _ y ∙ b, eq_refl) (λ h. cc)))
        ]
      ]

  -- Where git reads a worktree's tree from its files alone, failing included, and reads that of the
  -- captured files and of the worktree, the journal can be written, the worktree differs from the
  -- captured one at most in the files of the stored snapshot, which the path guard allows, and nothing
  -- but regular files that can be replaced and removed stands at their paths, in whatever tree that
  -- differs from the captured one at most there, reconciling does not leave the change set in doubt.
  pub reconcile-recovers :
      (l : Local) (current : String) (t u : Files) (snapshot : List Saved) (items : List FileRow)
      → ((x y : Files) → Same tools x y → tools.worktree_tree y ≡ tools.worktree_tree x)
      → IsClear tools (paths items) t items
      → All (IsAllowed tools) items
      → snapshot_rollback tools items t ≡ some snapshot
      → l.directory.rollback ≡ some snapshot
      → tools.worktree_tree t ≡ some l.row.before_tree
      → l.checkout ≡ worktree u
      → tools.worktree_tree u ≡ some current
      → IsUnique u
      → AgreesBut tools (paths items) t u
      → ((p : Phase) → writable p ≡ true)
      → (reconcile tools writable now l).0 ≢ recovery_required
  unfolding reconcile reconcile_on reconcile_read record_status journal
  reconcile-recovers l current t u snapshot items by_files clear allowed s r b c g unique a w =
      subst (λ k. (reconcile_on tools writable now l k).0 ≢ recovery_required) (sym c)
        (rw (g, w _)
          (judge-restores l current t u snapshot items by_files clear allowed s r b unique a))
