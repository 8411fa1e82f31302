-- ===== src/ChangeSets/Commit/Ends.antt =====
-- How a call of `commit` of app/services/change_set_store.py ends.
use test_gpt_local.ChangeSets.Commit.{text_is}
use test_gpt_local.Prelude.{
  ℕ, ◌+◌, ◌≡◌, refl, sym, ap, ◌∙◌, String, Bool, true, false, ◌&&◌, List, arith, if◌then◌else◌,
  Option, none, some, inl, inr, Bool-cases,
}
use test_gpt_local.Prelude.Text.{eq_iff}
use test_gpt_local.Prelude.Result.{Result, ok, err}
use test_gpt_local.ChangeSets.State.{
  stale_workspace, validation_failed, phase_recovery_required, phase_rolled_back, recovery_needed,
  internal_error, recovery_required, committed, rolled_back, ErrorCode, Phase, applying,
  files_applied, complete, Files, Saved, Checkout, no_workspace, no_worktree, worktree, Local,
  Tools, conflict,
}
use test_gpt_local.ChangeSets.Files.{restore}
use test_gpt_local.ChangeSets.Commit.{
  Outcome, and_then, journal, on_worktree, check_patch, apply_patch, check_after, finish, attempt,
  give_up, close_undone, proven, undo_from,
}

and_then-ok :
    {m : Outcome Unit} {f : Local → Outcome Unit} {l' : Local}
    → and_then m f ≡ (ok tt, l')
    → (l1 : Local) × (m ≡ (ok tt, l1)) × (f l1 ≡ (ok tt, l'))
and_then-ok {m} {f} {l'} h = by_result m.0 m.1 f l' h
  where
    by_result :
        (r : Result ErrorCode Unit) (l1 : Local) (f : Local → Outcome Unit) (l' : Local)
        → and_then (r, l1) f ≡ (ok tt, l')
        → (l2 : Local) × (◌≡◌ {A = Outcome Unit} (r, l1) (ok tt, l2)) × (f l2 ≡ (ok tt, l'))
    by_result (ok u) l1 f l' h = (l1, refl, h)
    by_result (err e) l1 f l' h = cc (ap (λ x. x.0) h)

pub journal-ok :
    (writable : Phase → Bool) (now : ℕ) (p : Phase) (l l' : Local)
    → journal writable now p l ≡ (ok tt, l')
    → (l'.row.status ≡ l.row.status)
      × (l'.checkout ≡ l.checkout)
      × (l'.workspace_revision ≡ l.workspace_revision)
unfolding journal
journal-ok writable now p l l' h = elim (Bool-cases (writable p)) [
  | inl b ↦
      let same = ap (λ x. x.1) (rw b at h) in
      (
        ap (λ x. x.row.status) (sym same),
        ap (λ x. x.checkout) (sym same),
        ap (λ x. x.workspace_revision) (sym same),
      )
  | inr b ↦ cc (ap (λ x. x.0) (rw b at h))
]

tested :
    (b : Bool) (e : ErrorCode) (l l' : Local)
    → ◌≡◌ {A = Outcome Unit} (if b then (ok tt, l) else (err e, l)) (ok tt, l')
    → (b ≡ true) × (l' ≡ l)
tested true e l l' h = (refl, sym (ap (λ x. x.1) h))
tested false e l l' h = cc (ap (λ x. x.0) h)

pub text_is-true : (o : Option String) (s : String) → text_is o s ≡ true → o ≡ some s
text_is-true none s h = cc
text_is-true (some t) s h = ap some ((eq_iff t s).0 h)

module _ (tools : Tools) where
  -- The worktree is there, and has the tree.
  abbrev pub TreeIs : String → Checkout → Type 0
  TreeIs s c = (t : Files) × (c ≡ worktree t) × (tools.worktree_tree t ≡ some s)

  on_worktree-ok :
      (c : Checkout) (e : ErrorCode) (l : Local) (f : Files → Outcome Unit) (l' : Local)
      → on_worktree tools c (err e, l) f ≡ (ok tt, l')
      → (t : Files) × (c ≡ worktree t) × (f t ≡ (ok tt, l'))
  on_worktree-ok no_workspace e l f l' h = cc (ap (λ x. x.0) h)
  on_worktree-ok no_worktree e l f l' h = cc (ap (λ x. x.0) h)
  on_worktree-ok (worktree t) e l f l' h = (t, refl, h)

  check_after-ok :
      (after : String) (l l' : Local)
      → check_after tools after l ≡ (ok tt, l')
      → (l' ≡ l) × TreeIs after l.checkout
  unfolding check_after
  check_after-ok after l l' h =
      let (t, e, g) = on_worktree-ok l.checkout stale_workspace l _ l' h in
      let (b, same) = tested _ validation_failed l l' g in
      (same, (t, e, text_is-true (tools.worktree_tree t) after b))

  check_patch-ok :
      (patch : String) (l l' : Local) → check_patch tools patch l ≡ (ok tt, l') → l' ≡ l
  unfolding check_patch
  check_patch-ok patch l l' h =
      let (t, _, g) = on_worktree-ok l.checkout stale_workspace l _ l' h in
      (tested _ conflict l l' g).1

  apply_patch-ok :
      (patch : String) (l l' : Local)
      → apply_patch tools patch l ≡ (ok tt, l')
      → (l'.row.status ≡ l.row.status) × (l'.workspace_revision ≡ l.workspace_revision)
  unfolding apply_patch
  apply_patch-ok patch l l' h =
      let (t, _, g) = on_worktree-ok l.checkout stale_workspace l _ l' h in
      let same = ap (λ x. x.1) g in
      (ap (λ x. x.row.status) (sym same), ap (λ x. x.workspace_revision) (sym same))

  module _ (writable : Phase → Bool) (now : ℕ) where
    -- An attempt that does not raise has committed the change set, with the tree that was validated.
    pub attempt-ok :
        (patch after : String) (l l' : Local)
        → attempt tools writable now patch after l ≡ (ok tt, l')
        → (l'.row.status ≡ committed)
          × TreeIs after l'.checkout
          × (l'.workspace_revision ≡ l.workspace_revision + 1)
    unfolding attempt finish
    attempt-ok patch after l l' h =
        let (l1, a, h1) = and_then-ok h in
        let (l2, b, h2) = and_then-ok h1 in
        let (l3, c, h3) = and_then-ok h2 in
        let (l4, d, h4) = and_then-ok h3 in
        let (l5, e, h5) = and_then-ok h4 in
        let s1 = check_patch-ok patch l l1 a in
        let (_, _, r2) = journal-ok writable now applying l1 l2 b in
        let (_, r3) = apply_patch-ok patch l2 l3 c in
        let (s4, (t, k, u)) = check_after-ok after l3 l4 d in
        let (_, c5, r5) = journal-ok writable now files_applied l4 l5 e in
        let (z, c6, r6) = journal-ok writable now complete _ l' h5 in
        (
          z,
          (t, c6 ∙ (c5 ∙ (ap (λ x. x.checkout) s4 ∙ k)), u),
          r6
              ∙ ap (λ n. n + 1)
                  (r5
                    ∙ (ap (λ x. x.workspace_revision) s4
                        ∙ (r3 ∙ (r2 ∙ ap (λ x. x.workspace_revision) s1)))),
        )

    -- How the body of `except` ends: with the captured tree, or in doubt.
    pub data Undone (before : String) : ErrorCode → Outcome Unit → Type 0 where
      rolled :
          {e : ErrorCode} (e' : ErrorCode) {l : Local}
          → l.row.status ≡ rolled_back
          → TreeIs before l.checkout
          → Undone before e (err e', l)
      doubted :
          {e : ErrorCode} (e' : ErrorCode) {l : Local}
          → l.row.status ≡ recovery_required
          → Undone before e (err e', l)

    -- `_journal` keeps the status and the worktree, whether it succeeds.
    pub journal-keeps :
        (p : Phase) (l : Local)
        → ((journal writable now p l).1.row.status ≡ l.row.status)
          × ((journal writable now p l).1.checkout ≡ l.checkout)
    unfolding journal
    journal-keeps p l = elim (Bool-cases (writable p)) [
      | inl b ↦ rw b (refl, refl)
      | inr b ↦ rw b (refl, refl)
    ]

    give_up-Undone :
        (before : String) (e : ErrorCode) (l : Local)
        → Undone before e (give_up tools writable now l)
    unfolding give_up journal
    give_up-Undone before e l = elim (Bool-cases (writable phase_recovery_required)) [
      | inl b ↦ rw b (doubted recovery_needed refl)
      | inr b ↦ rw b (doubted internal_error refl)
    ]

    close_undone-Undone :
        (before : String) (e : ErrorCode) (l : Local)
        → TreeIs before l.checkout
        → Undone before e (close_undone tools writable now e l)
    unfolding close_undone journal
    close_undone-Undone before e l t = elim (Bool-cases (writable phase_rolled_back)) [
      | inl b ↦ rw b (rolled e refl t)
      | inr b ↦ rw b (rolled internal_error refl t)
    ]

    proven-Undone :
        (e : ErrorCode) (restored : Bool) (u : Files) (l : Local)
        → Undone l.row.before_tree e (proven tools writable now e restored u l)
    unfolding proven
    proven-Undone e restored u l =
        let l1 : Local = record l { checkout = worktree u } in
        elim (Bool-cases (restored && text_is (tools.worktree_tree u) l.row.before_tree)) [
          | inl b ↦ rw b (
              close_undone-Undone l.row.before_tree e l1 (
                u,
                refl,
                text_is-true (tools.worktree_tree u) l.row.before_tree (ground (arith, b)),
              ))
          | inr b ↦ rw b (give_up-Undone l.row.before_tree e l1)
        ]

    pub undo_from-Undone :
        (e : ErrorCode) (o : Option (List Saved)) (l : Local)
        → Undone l.row.before_tree e (undo_from tools writable now e o l)
    unfolding undo_from
    undo_from-Undone e none l = give_up-Undone l.row.before_tree e l
    undo_from-Undone e (some snapshot) l = at_checkout l.checkout
      where
        at_checkout :
            (c : Checkout)
            → Undone l.row.before_tree e (
                on_worktree tools c (give_up tools writable now l) (λ t.
                  proven tools writable now e
                    (restore tools snapshot t).0
                    (restore tools snapshot t).1
                    l))
        at_checkout no_workspace = give_up-Undone l.row.before_tree e l
        at_checkout no_worktree = give_up-Undone l.row.before_tree e l
        at_checkout (worktree t) = proven-Undone e _ _ l
