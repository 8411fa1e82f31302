-- ===== src/ChangeSets/Machine/Operations.antt =====
-- The operations of app/services/change_set_store.py other than `commit` follow the machine.
use test_gpt_local.ChangeSets.Lifecycle.{reconcile_read}
use test_gpt_local.Prelude.{
  ℕ, ◌≡◌, refl, sym, subst, String, Bool, true, false, List, if◌then◌else◌, length, leb, Option,
  none, some, inl, inr, Bool-cases,
}
use test_gpt_local.Prelude.Text.{◌==◌}
use test_gpt_local.Prelude.Int.{ℤ}
use test_gpt_local.Prelude.Result.{Result, ok, err}
use test_gpt_local.ChangeSets.State.{
  Status, opened, validated, committing, recovery_required, committed, rolled_back, expired,
  ErrorCode, Phase, phase_rolled_back, Files, Operation, FileRow, Saved, Checkout, no_workspace,
  no_worktree, worktree, Local, Tools, Config,
}
use test_gpt_local.ChangeSets.Commit.{Outcome, and_then, journal, text_is}
use test_gpt_local.ChangeSets.Lifecycle.{
  active, expire, discard, rollback_in, rollback, judge_restored, judge, reconcile_on,
  record_status, settle_in_doubt, reconcile, phase_of,
}
use test_gpt_local.ChangeSets.Lifecycle.Active.{ActiveEnds, goes_on, refused, expires, active-Ends}
use test_gpt_local.ChangeSets.Staging.{
  find_operation, close_stage, keep_or_undo, stage_from, stage_new, stage_or_replay, stage,
}
use test_gpt_local.ChangeSets.Validation.{
  Validated, store_validated, reopen, read_for_warning, close_stored, close_validation,
  validate_admitted, validate,
}
use test_gpt_local.ChangeSets.Machine.{
  Editable, opened_is, validated_is, ◌⟶*◌, here, step, validate as validate_edge,
  reopen as reopen_edge, expire as expire_edge, discard as discard_edge, complete, undo, doubt,
  Follows, Follows-refl, Follows-trans,
}

to_opened : {s : Status} → Editable s → s ⟶* opened
to_opened opened_is = here
to_opened validated_is = step reopen_edge here

to_validated : {s : Status} → Editable s → s ⟶* validated
to_validated opened_is = step validate_edge here
to_validated validated_is = here

-- An operation that starts with `_active` follows the machine if what comes then does.
active-Follows :
    {A : Type 0} (now : ℕ) (l : Local) (f : Local → Outcome A)
    → (Editable l.row.status → Follows l.row (f l).1.row)
    → Follows l.row (and_then (active now l) f).1.row
active-Follows now l f k = from (active-Ends now l)
  where
    from : {o : Outcome Unit} → ActiveEnds now l o → Follows l.row (and_then o f).1.row
    from (goes_on e b) = k e
    from refused = Follows-refl l.row
    from (expires e b) = record {
      same_workspace = refl;
      same_base = refl;
      path = step (expire_edge e) here;
    }

pub expire-Follows :
    (now : ℕ) (l : Local) → Editable l.row.status → Follows l.row (expire now l).row
expire-Follows now l e = record {
  same_workspace = refl;
  same_base = refl;
  path = step (expire_edge e) here;
}

pub journal-Follows :
    (writable : Phase → Bool) (now : ℕ) (p : Phase) (l : Local)
    → Follows l.row (journal writable now p l).1.row
unfolding journal
journal-Follows writable now p l = elim (Bool-cases (writable p)) [
  | inl b ↦ rw b (record { same_workspace = refl; same_base = refl; path = here })
  | inr b ↦ rw b (Follows-refl l.row)
]

pub rollback-Follows :
    (writable : Phase → Bool) (now : ℕ) (l : Local) → Follows l.row (rollback writable now l).1.row
unfolding rollback rollback_in journal
rollback-Follows writable now l = by_status l.row.status refl
  where
    given_up :
        Editable l.row.status
        → Follows l.row (journal writable now phase_rolled_back (discard now l)).1.row
    given_up e =
        Follows-trans
          (record { same_workspace = refl; same_base = refl; path = step (discard_edge e) here })
          (journal-Follows writable now phase_rolled_back (discard now l))

    by_status : (s : Status) → l.row.status ≡ s → Follows l.row (rollback_in s writable now l).1.row
    by_status opened e = given_up (subst Editable (sym e) opened_is)
    by_status validated e = given_up (subst Editable (sym e) validated_is)
    by_status committing e = Follows-refl l.row
    by_status recovery_required e = Follows-refl l.row
    by_status committed e = Follows-refl l.row
    by_status rolled_back e = Follows-refl l.row
    by_status expired e = Follows-refl l.row

module _ (tools : Tools) (sorted : List String → List String) (config : Config) where
  module _ (operation_type payload operation_id : String) (now : ℕ) where
    close_stage-Follows :
        (l : Local) (checkpoint staging : Files) (r : Result ErrorCode (ℕ × String × List FileRow))
        → Editable l.row.status
        → Follows l.row
            (close_stage tools sorted config operation_type payload operation_id now l checkpoint
              staging r).1.row
    unfolding close_stage
    close_stage-Follows l checkpoint staging (ok found) e = record {
      same_workspace = refl;
      same_base = refl;
      path = to_opened e;
    }
    close_stage-Follows l checkpoint staging (err c) e = record {
      same_workspace = refl;
      same_base = refl;
      path = here;
    }

    stage_from-Follows :
        (edit : Files → Result ErrorCode Unit × Files) (l : Local) (o : Option Files)
        → Editable l.row.status
        → Follows l.row
            (stage_from tools sorted config operation_type payload operation_id now edit l o).1.row
    unfolding keep_or_undo stage_from
    stage_from-Follows edit l none e = Follows-refl l.row
    stage_from-Follows edit l (some staging) e = close_stage-Follows l staging (edit staging).1 _ e

    stage_new-Follows :
        (edit : Files → Result ErrorCode Unit × Files) (l : Local)
        → Editable l.row.status
        → Follows l.row
            (stage_new tools sorted config operation_type payload operation_id now edit l).1.row
    unfolding stage_new
    stage_new-Follows edit l e =
        elim (Bool-cases (leb config.max_operations (length l.row.operations))) [
          | inl b ↦ rw b (Follows-refl l.row)
          | inr b ↦ rw b (stage_from-Follows edit l l.directory.staging e)
        ]

    pub stage-Follows :
        (edit : Files → Result ErrorCode Unit × Files) (l : Local)
        → Follows l.row
            (stage tools sorted config operation_type payload operation_id now edit l).1.row
    unfolding stage stage_or_replay
    stage-Follows edit l = from (find_operation operation_id l.row.operations)
      where
        from :
            (o : Option Operation)
            → Follows l.row
                (stage_or_replay tools sorted config operation_type payload operation_id now edit l
                  o).1.row
        from none = active-Follows now l _ (stage_new-Follows edit l)
        from (some o) = Follows-refl l.row

  close_validation-Follows :
      (change_set_id : String) (now : ℕ) (l : Local) (r : Result ErrorCode Validated)
      → Editable l.row.status
      → Follows l.row (close_validation tools sorted config change_set_id now l r).1.row
  unfolding store_validated reopen close_stored close_validation
  close_validation-Follows change_set_id now l (ok v) e =
      from (read_for_warning tools sorted config l)
    where
      from :
          (r : Result ErrorCode Unit)
          → Follows l.row
              (close_stored tools sorted config now
                (store_validated tools sorted config change_set_id now v l)
                r).1.row
      from (ok u) = record { same_workspace = refl; same_base = refl; path = to_validated e }
      from (err c) = record { same_workspace = refl; same_base = refl; path = to_opened e }
  close_validation-Follows change_set_id now l (err c) e = record {
    same_workspace = refl;
    same_base = refl;
    path = to_opened e;
  }

  validate_admitted-Follows :
      (change_set_id : String) (now : ℕ) (l : Local) (r : Result ErrorCode Unit)
      → Editable l.row.status
      → Follows l.row (validate_admitted tools sorted config change_set_id now l r).1.row
  unfolding validate_admitted
  validate_admitted-Follows change_set_id now l (err c) e = Follows-refl l.row
  validate_admitted-Follows change_set_id now l (ok u) e =
      close_validation-Follows change_set_id now l _ e

  pub validate-Follows :
      (change_set_id : String) (expected_revision : ℤ) (profile : String) (now : ℕ) (l : Local)
      → Follows l.row
          (validate tools sorted config change_set_id expected_revision profile now l).1.row
  unfolding validate
  validate-Follows change_set_id expected_revision profile now l =
      active-Follows now l _ (λ e. validate_admitted-Follows change_set_id now l _ e)

-- What the loop of `reconcile_incomplete` decides on.
pub data Settled : Status → Type 0 where
  settled_committed : Settled committed
  settled_rolled_back : Settled rolled_back
  settled_in_doubt : Settled recovery_required

settled_path : {s : Status} → Settled s → committing ⟶* s
settled_path settled_committed = step complete here
settled_path settled_rolled_back = step undo here
settled_path settled_in_doubt = step doubt here

module _ (tools : Tools) (writable : Phase → Bool) (now : ℕ) where
  pub judge-Settled :
      (l : Local) (t : Files) (current : String) → Settled (judge tools writable now l t current).0
  unfolding judge judge_restored
  judge-Settled l t current = elim (Bool-cases (text_is l.row.after_tree current)) [
    | inl a ↦ rw a settled_committed
    | inr a ↦ elim (Bool-cases (current == l.row.before_tree)) [
      | inl b ↦ rw (a, b) settled_rolled_back
      | inr b ↦ rw (a, b) (from l.directory.rollback)
    ]
  ]
    where
      either : (b : Bool) → Settled (if b then rolled_back else recovery_required)
      either true = settled_rolled_back
      either false = settled_in_doubt

      from : (o : Option (List Saved)) → Settled (judge_restored tools writable now l t o).0
      from none = settled_in_doubt
      from (some snapshot) = either _

  in_doubt-Follows :
      (l : Local) → l.row.status ≡ committing → Follows l.row (settle_in_doubt now l).row
  in_doubt-Follows l e = record {
    same_workspace = refl;
    same_base = refl;
    path = subst (λ x. x ⟶* recovery_required) (sym e) (step doubt here);
  }

  record_status-Follows :
      (s : Status) (l : Local)
      → l.row.status ≡ committing
      → Settled s
      → Follows l.row (record_status tools writable now s l).1.row
  unfolding record_status journal
  record_status-Follows s l e k = elim (Bool-cases (writable (phase_of s))) [
    | inl b ↦ rw b (record {
      same_workspace = refl;
      same_base = refl;
      path = subst (λ x. x ⟶* s) (sym e) (settled_path k);
    })
    | inr b ↦ rw b (record {
      same_workspace = refl;
      same_base = refl;
      path = subst (λ x. x ⟶* recovery_required) (sym e) (step doubt here);
    })
  ]

  pub reconcile-Follows :
      (l : Local) → l.row.status ≡ committing → Follows l.row (reconcile tools writable now l).1.row
  unfolding reconcile reconcile_on reconcile_read
  reconcile-Follows l e = from l.checkout
    where
      on_tree :
          (s : Status) (u : Files)
          → Settled s
          → Follows l.row
              (record_status tools writable now s
                (let k : Local = record l { checkout = worktree u } in k)).1.row
      on_tree s u k =
          let l1 : Local = record l { checkout = worktree u } in
          let f = record_status-Follows s l1 e k in
          record { same_workspace = f.same_workspace; same_base = f.same_base; path = f.path }

      read :
          (t : Files) (o : Option String)
          → Follows l.row (reconcile_read tools writable now l t o).1.row
      read t none = in_doubt-Follows l e
      read t (some current) = on_tree _ _ (judge-Settled l t current)

      from : (c : Checkout) → Follows l.row (reconcile_on tools writable now l c).1.row
      from no_workspace = in_doubt-Follows l e
      from no_worktree = in_doubt-Follows l e
      from (worktree t) = read t (tools.worktree_tree t)
