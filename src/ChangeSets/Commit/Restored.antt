-- ===== src/ChangeSets/Commit/Restored.antt =====
-- A commit of app/services/change_set_store.py that fails gives the files of the worktree back, where
-- `git apply` touches no file but those of the change set.
use test_gpt_local.ChangeSets.Commit.{text_is}
use test_gpt_local.Prelude.{
  ℕ, ◌≡◌, ◌≢◌, refl, sym, ap, subst, ◌∙◌, String, Bool, true, false, List, if◌then◌else◌, Option,
  none, some, inl, inr, ◌⊎◌, Bool-cases, All,
}
use test_gpt_local.Prelude.Text.{eq_refl}
use test_gpt_local.Prelude.Dict.{IsUnique}
use test_gpt_local.Prelude.Result.{Result, ok, err}
use test_gpt_local.ChangeSets.State.{
  Status, validated, recovery_required, committed, opened, ErrorCode, Phase, commit_intent,
  applying, files_applied, complete, phase_rolled_back, Files, FileRow, Saved, Checkout,
  no_workspace, no_worktree, worktree, Local, Tools, not_validated, invalid_state,
}
use test_gpt_local.ChangeSets.Files.{snapshot_rollback, restore}
use test_gpt_local.ChangeSets.Files.Restore.{
  paths, IsAllowed, IsClear, AgreesBut, Same, restore-snapshot_rollback,
}
use test_gpt_local.ChangeSets.Commit.{
  Outcome, and_then, journal, on_worktree, check_patch, apply_patch, check_after, finish, attempt,
  give_up, close_undone, proven, undo_from, undo, run_patch, run_commit, ready, run_ready, commit,
  replay,
}
use test_gpt_local.ChangeSets.Commit.Captured.{attempt-captured}
use test_gpt_local.ChangeSets.Commit.Ends.{journal-keeps}
use test_gpt_local.ChangeSets.Commit.Atomic.{ready-Started}

abbrev snd : Outcome Unit → Local
snd (r, l) = l

-- The call returned, or the worktree has the files of `t` and the change set is not in doubt.
abbrev pub GaveBack : Tools → Files → Outcome Unit → Type 0
GaveBack tools t o =
    (o.0 ≡ ok tt)
    ⊎ ((o.1.row.status ≢ recovery_required)
        × ((u : Files) × (o.1.checkout ≡ worktree u) × Same tools t u))

module _ (tools : Tools) (items : List FileRow) (patch : String) where
  -- `git apply` of the patch leaves the files outside the change set as they are, also where it fails,
  -- and the tree of a worktree depends on its files alone.
  pub record IsCareful : Type 0 where
    pub unique : (t : Files) → IsUnique t → IsUnique (tools.apply patch t).1
    pub agrees : (t : Files) → AgreesBut tools (paths items) t (tools.apply patch t).1
    pub by_files : (t u : Files) → Same tools t u → tools.worktree_tree u ≡ tools.worktree_tree t

  -- The worktree has the files of `t`, but for those of the change set.
  abbrev Near : Files → Checkout → Type 0
  Near t c = (u : Files) × (c ≡ worktree u) × IsUnique u × AgreesBut tools (paths items) t u

  module _ (careful : IsCareful) (t : Files) where
    and_then-Near :
        (m : Outcome Unit) (f : Local → Outcome Unit)
        → Near t m.1.checkout
        → ((l1 : Local) → Near t l1.checkout → Near t (f l1).1.checkout)
        → Near t (and_then m f).1.checkout
    and_then-Near (ok u, l1) f a b = b l1 a
    and_then-Near (err e, l1) f a b = a

    Near-same : {c d : Checkout} → d ≡ c → Near t c → Near t d
    Near-same e a = subst (Near t) (sym e) a

    if_same :
        (b : Bool) (e : ErrorCode) (l : Local) → snd (if b then (ok tt, l) else (err e, l)) ≡ l
    if_same true e l = refl
    if_same false e l = refl

    on_worktree_same :
        (c : Checkout) (e : ErrorCode) (l : Local) (f : Files → Outcome Unit)
        → ((u : Files) → snd (f u) ≡ l)
        → snd (on_worktree tools c (err e, l) f) ≡ l
    on_worktree_same no_workspace e l f h = refl
    on_worktree_same no_worktree e l f h = refl
    on_worktree_same (worktree u) e l f h = h u

    check_patch-Near :
        (l : Local) → Near t l.checkout → Near t (check_patch tools patch l).1.checkout
    unfolding check_patch
    check_patch-Near l = Near-same (
        ap (λ x. x.checkout)
          (on_worktree_same l.checkout _ l _ (λ u. if_same (tools.applies patch u) _ l)))

    check_after-Near :
        (after : String) (l : Local)
        → Near t l.checkout
        → Near t (check_after tools after l).1.checkout
    unfolding check_after
    check_after-Near after l = Near-same (
        ap (λ x. x.checkout)
          (on_worktree_same l.checkout _ l _
            (λ u. if_same (text_is (tools.worktree_tree u) after) _ l)))

    apply_patch-Near :
        (l : Local) → Near t l.checkout → Near t (apply_patch tools patch l).1.checkout
    unfolding apply_patch
    apply_patch-Near l (u, e, unique, a) =
        rw e (_, refl, careful.unique u unique, λ p h. careful.agrees u p h ∙ a p h)

    module _ (writable : Phase → Bool) (now : ℕ) where
      journal-Near :
          (p : Phase) (l : Local) → Near t l.checkout → Near t (journal writable now p l).1.checkout
      journal-Near p l = Near-same (journal-keeps tools writable now p l).1

      attempt-Near :
          (after : String) (l : Local)
          → Near t l.checkout
          → Near t (attempt tools writable now patch after l).1.checkout
      unfolding attempt finish
      attempt-Near after l n =
          and_then-Near (check_patch tools patch l) _ (check_patch-Near l n) λ l1 n1.
            and_then-Near (journal writable now applying l1) _ (journal-Near applying l1 n1)
              λ l2 n2.
                and_then-Near (apply_patch tools patch l2) _ (apply_patch-Near l2 n2) λ l3 n3.
                  and_then-Near (check_after tools after l3) _ (check_after-Near after l3 n3)
                    λ l4 n4.
                      and_then-Near (journal writable now files_applied l4) _
                        (journal-Near files_applied l4 n4) λ l5 n5. journal-Near complete _ n5

      proven-Back :
          (e : ErrorCode) (restored : Bool) (v : Files) (l : Local)
          → restored ≡ true
          → Same tools t v
          → tools.worktree_tree t ≡ some l.row.before_tree
          → GaveBack tools t (proven tools writable now e restored v l)
      unfolding proven close_undone journal
      proven-Back e restored v l r same b =
          rw (r, careful.by_files t v same ∙ b, eq_refl)
            (elim (Bool-cases (writable phase_rolled_back)) [
              | inl w ↦ rw w (inr (λ h. cc, (v, refl, same)))
              | inr w ↦ rw w (inr (λ h. cc, (v, refl, same)))
            ])

      undo_from-Back :
          (snapshot : List Saved) (e : ErrorCode) (l : Local) (u : Files)
          → IsClear tools (paths items) t items
          → All (IsAllowed tools) items
          → snapshot_rollback tools items t ≡ some snapshot
          → tools.worktree_tree t ≡ some l.row.before_tree
          → l.checkout ≡ worktree u
          → IsUnique u
          → AgreesBut tools (paths items) t u
          → GaveBack tools t (undo_from tools writable now e (some snapshot) l)
      unfolding undo_from
      undo_from-Back snapshot e l u clear allowed s b c unique a =
          let (x, y) =
            restore-snapshot_rollback tools items t u snapshot clear allowed s unique a in
          subst
            (λ k. GaveBack tools t (
              on_worktree tools k (give_up tools writable now l) (λ t'.
                proven tools writable now e (restore tools snapshot t').0
                  (restore tools snapshot t').1 l)))
            (sym c) (proven-Back e _ _ l x y b)

      undo-Back :
          (snapshot : List Saved) (o : Outcome Unit)
          → IsClear tools (paths items) t items
          → All (IsAllowed tools) items
          → snapshot_rollback tools items t ≡ some snapshot
          → o.1.directory.rollback ≡ some snapshot
          → tools.worktree_tree t ≡ some o.1.row.before_tree
          → Near t o.1.checkout
          → GaveBack tools t (undo tools writable now o)
      unfolding undo
      undo-Back snapshot (ok u, l) clear allowed s r b n = inl refl
      undo-Back snapshot (err e, l) clear allowed s r b (u, c, unique, a) =
          subst (λ k. GaveBack tools t (undo_from tools writable now e k l)) (sym r)
            (undo_from-Back snapshot e l u clear allowed s b c unique a)

      run_attempt-Back :
          (after : String) (snapshot : List Saved) (l : Local)
          → IsClear tools (paths items) t items
          → All (IsAllowed tools) items
          → snapshot_rollback tools items t ≡ some snapshot
          → l.directory.rollback ≡ some snapshot
          → tools.worktree_tree t ≡ some l.row.before_tree
          → l.checkout ≡ worktree t
          → IsUnique t
          → GaveBack tools t (undo tools writable now (attempt tools writable now patch after l))
      run_attempt-Back after snapshot l clear allowed s r b c unique =
          let kept = attempt-captured tools writable now patch after l in
          undo-Back snapshot (attempt tools writable now patch after l) clear allowed s
            (ap (λ x. x.2) kept ∙ r) (b ∙ ap some (sym (ap (λ x. x.1) kept)))
            (attempt-Near after l (t, c, unique, λ p h. refl))

module _ (tools : Tools) (items : List FileRow) (t : Files) (writable : Phase → Bool)
    (now : ℕ) where
  run_patch-Back :
      (after : String) (snapshot : List Saved) (o : Option String) (l : Local)
      → ((patch : String) → o ≡ some patch → IsCareful tools items patch)
      → IsClear tools (paths items) t items
      → All (IsAllowed tools) items
      → snapshot_rollback tools items t ≡ some snapshot
      → l.directory.rollback ≡ some snapshot
      → tools.worktree_tree t ≡ some l.row.before_tree
      → l.row.status ≢ recovery_required
      → l.checkout ≡ worktree t
      → IsUnique t
      → GaveBack tools t (run_patch tools writable now after o l)
  unfolding run_patch
  run_patch-Back after snapshot none l careful clear allowed s r b n c unique =
      inr (n, (t, c, λ p. refl))
  run_patch-Back after snapshot (some patch) l careful clear allowed s r b n c unique =
      run_attempt-Back tools items patch (careful patch refl) t writable now after snapshot l clear
        allowed s r b c unique

  run_commit-GaveBack :
      (after : String) (snapshot : List Saved) (l : Local)
      → ((patch : String) → l.directory.final_patch ≡ some patch → IsCareful tools items patch)
      → IsClear tools (paths items) t items
      → All (IsAllowed tools) items
      → snapshot_rollback tools items t ≡ some snapshot
      → tools.worktree_tree t ≡ some l.row.before_tree
      → l.checkout ≡ worktree t
      → IsUnique t
      → GaveBack tools t (run_commit tools writable now after snapshot l)
  unfolding run_commit journal
  run_commit-GaveBack after snapshot l careful clear allowed s b c unique =
      elim (Bool-cases (writable commit_intent)) [
        | inr w ↦ rw w (inr (λ h. cc, (t, c, λ p. refl)))
        | inl w ↦ rw w (
            run_patch-Back after snapshot l.directory.final_patch _ careful clear allowed s refl b
              (λ h. cc) c unique)
      ]

-- Where the worktree is there, `git apply` of the final patch touches no file but those of the change
-- set, which the path guard allows, nothing but regular files that can be replaced and removed stands
-- at their paths, in whatever tree that differs from the worktree at most there, and git reads a
-- worktree's tree from its files alone, failing included, a commit of a change set that is not in
-- doubt returns, or it leaves the worktree with the files that it had, and recovery is not required.
pub commit-GaveBack :
    (tools : Tools) (writable : Phase → Bool) (digest : String) (expected : Option String) (now : ℕ)
    (l : Local) (t : Files)
    → ((patch : String) → l.directory.final_patch ≡ some patch → IsCareful tools l.row.files patch)
    → IsClear tools (paths l.row.files) t l.row.files
    → All (IsAllowed tools) l.row.files
    → l.checkout ≡ worktree t
    → IsUnique t
    → l.row.status ≢ recovery_required
    → GaveBack tools t (commit tools writable digest expected now l)
unfolding commit
commit-GaveBack tools writable digest expected now l t careful clear allowed c unique n =
    by_status l.row.status refl
  where
    same_worktree : {a b : Files} → worktree a ≡ worktree b → a ≡ b
    same_worktree h = cc

    refused_back : (e : ErrorCode) → GaveBack tools t (err e, l)
    refused_back e = inr (n, (t, c, λ p. refl))

    by_ready :
        l.row.status ≡ validated
        → (r : Result ErrorCode (String × List Saved)) → ready tools digest expected l ≡ r
        → GaveBack tools t (run_ready tools writable now l r)
    by_ready v (err e) h = refused_back e
    by_ready v (ok (after, snapshot)) h =
        let (started, (t1, c1, s)) = ready-Started tools digest expected l after snapshot v h in
        let (t2, c2, b) = started.unchanged in
        run_commit-GaveBack tools l.row.files t writable now after snapshot l careful clear allowed
          (subst (λ x. snapshot_rollback tools l.row.files x ≡ some snapshot)
            (same_worktree (sym c1 ∙ c)) s)
          (subst (λ x. tools.worktree_tree x ≡ some l.row.before_tree) (same_worktree (sym c2 ∙ c))
            b)
          c unique

    by_status :
        (s : Status)
        → l.row.status ≡ s
        → GaveBack tools t (elim s [
          | committed ↦ replay tools digest l
          | validated ↦ run_ready tools writable now l (ready tools digest expected l)
          | opened ↦ (err not_validated, l)
          | _ ↦ (err invalid_state, l)
        ])
    by_status opened e = refused_back not_validated
    by_status validated e = by_ready e _ refl
    by_status committed e = inr (n, (t, c, λ p. refl))
    by_status _ e = refused_back invalid_state
