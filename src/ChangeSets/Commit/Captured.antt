-- ===== src/ChangeSets/Commit/Captured.antt =====
-- What the statements of `commit` of app/services/change_set_store.py keep of a change set.
use test_gpt_local.ChangeSets.Commit.{text_is}
use test_gpt_local.Prelude.{ℕ, ◌≡◌, refl, ap, ◌∙◌, String, Bool, List, Option, inl, inr, Bool-cases}
use test_gpt_local.Prelude.Result.{ok, err}
use test_gpt_local.ChangeSets.State.{
  Phase, applying, files_applied, complete, Files, FileRow, Operation, Saved, Checkout,
  no_workspace, no_worktree, worktree, Local, Tools,
}
use test_gpt_local.ChangeSets.Commit.{
  Outcome, and_then, journal, on_worktree, check_patch, apply_patch, check_after, finish, attempt,
}

-- What no statement of a commit changes.
abbrev pub Captured : Type 0
Captured =
    String
    × String
    × Option (List Saved)
    × ℕ
    × List Operation
    × List FileRow
    × Option String
    × Option String

abbrev pub captured : Local → Captured
captured l = (
  l.row.workspace_id, l.row.before_tree, l.directory.rollback, l.row.revision, l.row.operations,
  l.row.files, l.row.validated_digest, l.row.after_tree,
)

pub and_then-captured :
    (m : Outcome Unit) (f : Local → Outcome Unit) (l : Local)
    → captured m.1 ≡ captured l
    → ((l1 : Local) → captured (f l1).1 ≡ captured l1)
    → captured (and_then m f).1 ≡ captured l
and_then-captured (ok u, l1) f l a b = b l1 ∙ a
and_then-captured (err e, l1) f l a b = a

pub journal-captured :
    (writable : Phase → Bool) (now : ℕ) (p : Phase) (l : Local)
    → captured (journal writable now p l).1 ≡ captured l
unfolding journal
journal-captured writable now p l = elim (Bool-cases (writable p)) [
  | inl b ↦ rw b refl
  | inr b ↦ rw b refl
]

module _ (tools : Tools) where
  pub on_worktree-captured :
      (c : Checkout) (missing : Outcome Unit) (f : Files → Outcome Unit) (l : Local)
      → captured missing.1 ≡ captured l
      → ((t : Files) → captured (f t).1 ≡ captured l)
      → captured (on_worktree tools c missing f).1 ≡ captured l
  on_worktree-captured no_workspace missing f l a b = a
  on_worktree-captured no_worktree missing f l a b = a
  on_worktree-captured (worktree t) missing f l a b = b t

  check_patch-captured :
      (patch : String) (l : Local) → captured (check_patch tools patch l).1 ≡ captured l
  unfolding check_patch
  check_patch-captured patch l =
      on_worktree-captured l.checkout _ _ l refl
        (λ t. elim (Bool-cases (tools.applies patch t)) [ inl b ↦ rw b refl | inr b ↦ rw b refl ])

  apply_patch-captured :
      (patch : String) (l : Local) → captured (apply_patch tools patch l).1 ≡ captured l
  unfolding apply_patch
  apply_patch-captured patch l = on_worktree-captured l.checkout _ _ l refl (λ t. refl)

  check_after-captured :
      (after : String) (l : Local) → captured (check_after tools after l).1 ≡ captured l
  unfolding check_after
  check_after-captured after l = on_worktree-captured l.checkout _ _ l refl (λ t.
      elim (Bool-cases (text_is (tools.worktree_tree t) after)) [
        | inl b ↦ rw b refl
        | inr b ↦ rw b refl
      ])

  module _ (writable : Phase → Bool) (now : ℕ) where
    -- The statements of the body of `try` from the end.
    from_finish : Local → Outcome Unit
    unfolding finish
    from_finish l = and_then (finish tools now l) (journal writable now complete)

    from_check : (after : String) → Local → Outcome Unit
    unfolding from_finish
    from_check after l =
        and_then (check_after tools after l)
          λ l1. and_then (journal writable now files_applied l1) from_finish

    from_apply : (patch after : String) → Local → Outcome Unit
    unfolding from_check
    from_apply patch after l = and_then (apply_patch tools patch l) (from_check after)

    from_finish-captured : (l : Local) → captured (from_finish l).1 ≡ captured l
    unfolding from_finish finish
    from_finish-captured l = journal-captured writable now complete _

    from_check-captured :
        (after : String) (l : Local) → captured (from_check after l).1 ≡ captured l
    unfolding from_check
    from_check-captured after l =
        and_then-captured (check_after tools after l)
          (λ l1. and_then (journal writable now files_applied l1) from_finish) l
          (check_after-captured after l)
          (λ l1.
            and_then-captured (journal writable now files_applied l1) from_finish l1
              (journal-captured writable now files_applied l1) from_finish-captured)

    from_apply-captured :
        (patch after : String) (l : Local) → captured (from_apply patch after l).1 ≡ captured l
    unfolding from_apply
    from_apply-captured patch after l =
        and_then-captured (apply_patch tools patch l) (from_check after) l
          (apply_patch-captured patch l) (from_check-captured after)

    attempt-from_apply :
        (patch after : String) (l : Local)
        → attempt tools writable now patch after l
          ≡ and_then
              (check_patch tools patch l)
              (λ l1. and_then (journal writable now applying l1) (from_apply patch after))
    unfolding attempt from_apply from_check from_finish
    attempt-from_apply patch after l = refl

    pub attempt-captured :
        (patch after : String) (l : Local)
        → captured (attempt tools writable now patch after l).1 ≡ captured l
    attempt-captured patch after l =
        ap (λ o. captured o.1) (attempt-from_apply patch after l)
        ∙ and_then-captured (check_patch tools patch l)
            (λ l1. and_then (journal writable now applying l1) (from_apply patch after)) l
            (check_patch-captured patch l)
            (λ l1.
              and_then-captured (journal writable now applying l1) (from_apply patch after) l1
                (journal-captured writable now applying l1) (from_apply-captured patch after))
