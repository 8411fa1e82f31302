-- ===== src/ChangeSets/Commit/Atomic.antt =====
-- `commit` of app/services/change_set_store.py: the worktree has the tree before or the validated tree
-- after, or the change set says that it is in doubt.
use test_gpt_local.ChangeSets.Commit.{hash_or_error}
use test_gpt_local.Prelude.{
  ℕ, ◌+◌, ◌≡◌, refl, ap, subst, ◌∙◌, String, Bool, true, not, List, arith, Option, none, some, inl,
  inr, Bool-cases,
}
use test_gpt_local.Prelude.Text.{◌==◌, eq_iff}
use test_gpt_local.Prelude.Result.{Result, ok, err, raise_if, >>=-eq-ok}
use test_gpt_local.ChangeSets.State.{
  Status, opened, validated, committing, recovery_required, committed, rolled_back, expired,
  ErrorCode, Phase, commit_intent, Files, Saved, Checkout, no_workspace, no_worktree, worktree,
  Local, Tools, not_validated, conflict, invalid_state, idempotency_conflict,
}
use test_gpt_local.ChangeSets.Files.{snapshot_rollback}
use test_gpt_local.ChangeSets.Commit.{
  Outcome, journal, text_is, attempt, undo, run_patch, run_commit, tree_or_error, after_or_error,
  snapshot_or_error, differs, ready, run_ready, replay, commit,
}
use test_gpt_local.ChangeSets.Commit.Captured.{attempt-captured}
use test_gpt_local.ChangeSets.Commit.Ends.{
  TreeIs, Undone, rolled, doubted, attempt-ok, undo_from-Undone,
}

module _ (tools : Tools) where
  -- What a commit that was not refused found.
  pub record Started (digest after : String) (l : Local) : Type 0 where
    pub was_validated : l.row.status ≡ validated
    pub same_digest : text_is l.row.validated_digest digest ≡ true
    pub target : l.row.after_tree ≡ some after
    pub unchanged : TreeIs tools l.row.before_tree l.checkout

  -- The ends of a commit.
  pub data CommitEnds (digest : String) (l : Local) : Outcome Unit → Type 0 where
    replayed : l.row.status ≡ committed → CommitEnds digest l (ok tt, l)
    refused : (e : ErrorCode) → CommitEnds digest l (err e, l)
    done :
        {after : String} {l' : Local}
        → Started digest after l
        → l'.row.status ≡ committed
        → TreeIs tools after l'.checkout
        → l'.workspace_revision ≡ l.workspace_revision + 1
        → CommitEnds digest l (ok tt, l')
    undone :
        {after : String} {e : ErrorCode} {l' : Local}
        → Started digest after l
        → l'.row.status ≡ rolled_back
        → TreeIs tools l.row.before_tree l'.checkout
        → CommitEnds digest l (err e, l')
    in_doubt :
        {after : String} {e : ErrorCode} {l' : Local}
        → Started digest after l
        → l'.row.status ≡ recovery_required
        → CommitEnds digest l (err e, l')
    interrupted :
        {after : String} {e : ErrorCode} {l' : Local}
        → Started digest after l
        → l'.row.status ≡ committing
        → l'.checkout ≡ l.checkout
        → CommitEnds digest l (err e, l')

  pub ready-Started :
      (digest : String) (expected : Option String) (l : Local) (after : String)
      (snapshot : List Saved)
      → l.row.status ≡ validated
      → ready tools digest expected l ≡ ok (after, snapshot)
      → Started digest after l
        × ((t : Files) × (l.checkout ≡ worktree t)
            × (snapshot_rollback tools l.row.files t ≡ some snapshot))
  unfolding ready
  ready-Started digest expected l after snapshot v h =
      let (_, a, h1) =
        >>=-eq-ok (raise_if (not (text_is l.row.validated_digest digest)) not_validated) _ h in
      let (x, b, h2) = >>=-eq-ok (after_or_error tools l.row.after_tree) _ h1 in
      let (_, _, h3) =
        >>=-eq-ok (raise_if (differs tools expected l.row.before_tree) conflict) _ h2 in
      let (t, d, h4) = >>=-eq-ok (tree_or_error tools l.checkout) _ h3 in
      let (actual, g, h4') = >>=-eq-ok (hash_or_error tools (tools.worktree_tree t)) _ h4 in
      let (_, e, h5) = >>=-eq-ok (raise_if (not (actual == l.row.before_tree)) conflict) _ h4' in
      let (s, f, h6) =
        >>=-eq-ok (snapshot_or_error tools (snapshot_rollback tools l.row.files t)) _ h5 in
      let c = checkout_is l.checkout t d in
      (
        record {
          was_validated = v;
          same_digest = ground (arith, a);
          target = target_is l.row.after_tree x b ∙ ap some (result_first h6);
          unchanged = (
            t,
            c,
            hash_is (tools.worktree_tree t) actual g
                ∙ ap some ((eq_iff actual l.row.before_tree).0 (ground (arith, e))),
          );
        },
        (t, c, snapshot_is _ s f ∙ ap some (result_second h6)),
      )
    where
      checkout_is : (c : Checkout) (t : Files) → tree_or_error tools c ≡ ok t → c ≡ worktree t
      checkout_is no_workspace t h = cc
      checkout_is no_worktree t h = cc
      checkout_is (worktree u) t h = cc

      hash_is : (o : Option String) (x : String) → hash_or_error tools o ≡ ok x → o ≡ some x
      hash_is none x h = cc
      hash_is (some y) x h = cc

      target_is : (o : Option String) (x : String) → after_or_error tools o ≡ ok x → o ≡ some x
      target_is none x h = cc
      target_is (some y) x h = ground (arith, h)

      snapshot_is :
          (o : Option (List Saved)) (s : List Saved) → snapshot_or_error tools o ≡ ok s → o ≡ some s
      snapshot_is none s h = cc
      snapshot_is (some r) s h = cc

      result_first :
          {a b : String} {s u : List Saved}
          → ◌≡◌ {A = Result ErrorCode (String × List Saved)} (ok (a, s)) (ok (b, u))
          → a ≡ b
      result_first h = cc

      result_second :
          {a b : String} {s u : List Saved}
          → ◌≡◌ {A = Result ErrorCode (String × List Saved)} (ok (a, s)) (ok (b, u))
          → s ≡ u
      result_second h = cc

  module _ (writable : Phase → Bool) (now : ℕ) where
    undo-Ends :
        (digest after : String) (l l1 : Local) (o : Outcome Unit)
        → Started digest after l
        → l1.row.before_tree ≡ l.row.before_tree
        → o.1.row.before_tree ≡ l1.row.before_tree
        → ((l' : Local)
            → o ≡ (ok tt, l')
            → (l'.row.status ≡ committed)
              × TreeIs tools after l'.checkout
              × (l'.workspace_revision ≡ l.workspace_revision + 1))
        → CommitEnds digest l (undo tools writable now o)
    unfolding undo
    undo-Ends digest after l l1 (ok u, l') s a b k = let (x, y, z) = k l' refl in done s x y z
    undo-Ends digest after l l1 (err e, l2) s a b k =
        from (undo_from-Undone tools writable now e l2.directory.rollback l2)
      where
        from :
            {o : Outcome Unit}
            → Undone tools writable now l2.row.before_tree e o
            → CommitEnds digest l o
        from (rolled e' {l = l3} r t) =
            undone s r (subst (λ x. TreeIs tools x l3.checkout) (b ∙ a) t)
        from (doubted e' r) = in_doubt s r

    run_patch-Ends :
        (digest after : String) (l l1 : Local) (o : Option String)
        → Started digest after l
        → l1.row.status ≡ committing
        → l1.checkout ≡ l.checkout
        → l1.row.before_tree ≡ l.row.before_tree
        → l1.workspace_revision ≡ l.workspace_revision
        → CommitEnds digest l (run_patch tools writable now after o l1)
    unfolding run_patch
    run_patch-Ends digest after l l1 none s a b c r = interrupted s a b
    run_patch-Ends digest after l l1 (some patch) s a b c r =
        undo-Ends digest after l l1 (attempt tools writable now patch after l1) s c
          (ap (λ x. x.1) (attempt-captured tools writable now patch after l1))
          (λ l' e.
            let (x, y, z) = attempt-ok tools writable now patch after l1 l' e in
            (x, y, z ∙ ap (λ n. n + 1) r))

    run_commit-Ends :
        (digest after : String) (l : Local) (snapshot : List Saved)
        → Started digest after l
        → CommitEnds digest l (run_commit tools writable now after snapshot l)
    unfolding run_commit journal
    run_commit-Ends digest after l snapshot s = elim (Bool-cases (writable commit_intent)) [
      | inl b ↦ rw b (run_patch-Ends digest after l _ l.directory.final_patch s refl refl refl refl)
      | inr b ↦ rw b (interrupted s refl refl)
    ]

    -- However a commit of a change set ends: it was committed before and nothing changes; it is refused
    -- and nothing changes; or it was validated with that digest on an unchanged worktree, and then it is
    -- committed, with the validated tree and the next revision of the workspace; or it is rolled back,
    -- with the captured tree; or recovery is required; or it stopped before the patch was tried, with the
    -- worktree as it was.
    pub commit-CommitEnds :
        (digest : String) (expected : Option String) (l : Local)
        → CommitEnds digest l (commit tools writable digest expected now l)
    unfolding commit
    commit-CommitEnds digest expected l = by_status l.row.status refl
      where
        by_ready :
            l.row.status ≡ validated
            → (r : Result ErrorCode (String × List Saved)) → ready tools digest expected l ≡ r
            → CommitEnds digest l (run_ready tools writable now l r)
        by_ready v (err e) h = refused e
        by_ready v (ok (after, snapshot)) h =
            run_commit-Ends digest after l snapshot
              (ready-Started digest expected l after snapshot v h).0

        by_status :
            (s : Status)
            → l.row.status ≡ s
            → CommitEnds digest l (elim s [
              | committed ↦ replay tools digest l
              | validated ↦ run_ready tools writable now l (ready tools digest expected l)
              | opened ↦ (err not_validated, l)
              | _ ↦ (err invalid_state, l)
            ])
        by_status opened e = refused not_validated
        by_status validated e = by_ready e _ refl
        by_status committing e = refused invalid_state
        by_status recovery_required e = refused invalid_state
        by_status committed e = elim (Bool-cases (text_is l.row.validated_digest digest)) [
          | inl b ↦ rw b (replayed e)
          | inr b ↦ rw b (refused idempotency_conflict)
        ]
        by_status rolled_back e = refused invalid_state
        by_status expired e = refused invalid_state
