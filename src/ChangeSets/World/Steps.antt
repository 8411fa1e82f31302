-- ===== src/ChangeSets/World/Steps.antt =====
-- The calls of app/services/change_set_store.py as steps of the world, and what they do to the rows.
use test_gpt_local.ChangeSets.World.{delete_rows, delete_workspace}
use test_gpt_local.Prelude.{
  ℕ, ◌*◌, ◌≡◌, refl, String, Bool, true, false, ◌&&◌, List, [], ◌∷◌, if◌then◌else◌, Option, none,
  some, inl, inr, ◌⊎◌, Bool-cases, arith,
}
use test_gpt_local.Prelude.Text.{◌==◌}
use test_gpt_local.Prelude.Int.{ℤ}
use test_gpt_local.Prelude.Dict
use test_gpt_local.Prelude.Dict.{Dict}
use test_gpt_local.Prelude.Result.{Result, ok}
use test_gpt_local.ChangeSets.State.{
  Status, opened, validated, committing, recovery_required, committed, rolled_back, expired,
  ErrorCode, Phase, Files, ChangeSet, Local, Tools, Config,
}
use test_gpt_local.ChangeSets.Commit.{Outcome, commit}
use test_gpt_local.ChangeSets.Lifecycle.{
  rollback, reconcile, Cleanup, keeps, expires, removes, old_enough, cleanup_in, cleanup_of,
  clean_as, clean, expire, empty_directory,
}
use test_gpt_local.ChangeSets.Staging.{stage}
use test_gpt_local.ChangeSets.Validation.{validate}
use test_gpt_local.ChangeSets.World.{
  Stored, Workspace, World, with_set, begin, is_committing, reconcile_if, reconcile_incomplete,
  clean_at, cleanup_expired, is_terminal, delete_terminal_data, hour,
}
use test_gpt_local.ChangeSets.World.Rows.{
  Related, absent, present, Evolves, Evolves-refl, Evolves-trans, with_set-Evolves,
}
use test_gpt_local.ChangeSets.Machine.{Editable, opened_is, validated_is}

-- A call, or a change of the workspaces by whatever else works on them.
module _ (tools : Tools) (sorted : List String → List String) (config : Config) where
  infix 40 ◌⇒◌ ◌⇒*◌
  pub data ◌⇒◌ : World → World → Type 0 where
    begins :
        {w : World}
        → (supported : Result ErrorCode Unit) (total : String → ℕ) (head : String) (written : Bool)
          (id workspace_id explanation : String) (now : ℕ)
        → w
          ⇒ (begin tools sorted config supported total head written id workspace_id explanation now
              w).1
    stages :
        {w : World}
        → (id operation_type payload operation_id : String) (now : ℕ)
          (edit : Files → Result ErrorCode Unit × Files)
        → w
          ⇒ (with_set
              (stage tools sorted config operation_type payload operation_id now edit)
              id
              w).1
    validates :
        {w : World}
        → (id : String) (expected_revision : ℤ) (profile : String) (now : ℕ)
        → w ⇒ (with_set (validate tools sorted config id expected_revision profile now) id w).1
    commits :
        {w : World}
        → (writable : Phase → Bool) (id digest : String) (expected_tree : Option String) (now : ℕ)
        → w ⇒ (with_set (commit tools writable digest expected_tree now) id w).1
    rolls_back :
        {w : World}
        → (writable : Phase → Bool) (id : String) (now : ℕ)
        → w ⇒ (with_set (rollback writable now) id w).1
    reconciles :
        {w : World}
        → (writable : Phase → Bool) (now : ℕ) → w ⇒ reconcile_incomplete tools writable now w.sets w
    cleans : {w : World} → (now : ℕ) → w ⇒ cleanup_expired config now w.sets w
    deletes :
        {w : World}
        → (workspace_id : String) → w ⇒ record w { sets = delete_terminal_data workspace_id w.sets }
    removes_workspace : {w : World} → (workspace_id : String) → w ⇒ delete_workspace workspace_id w
    works : {w : World} → (workspaces : Dict Workspace) → w ⇒ record w { workspaces = workspaces }

  -- The workspace whose rows a step deletes.
  unfoldable pub removed : {v w : World} → v ⇒ w → Option String
  removed (removes_workspace workspace_id) = some workspace_id
  removed _ = none

  pub data ◌⇒*◌ : World → World → Type 0 where
    done : {w : World} → w ⇒* w
    more : {u v w : World} → u ⇒* v → v ⇒ w → u ⇒* w

  abbrev pub add_removed : Option String → List String → List String
  add_removed none ids = ids
  add_removed (some id) ids = id ∷ ids

  -- The workspaces that are deleted in a history.
  unfoldable pub deleted_workspaces : {v w : World} → v ⇒* w → List String
  unfolding removed
  deleted_workspaces done = []
  deleted_workspaces (more p m) = add_removed (removed m) (deleted_workspaces p)

-- A relation that every operation on one change set keeps.
module _ (tools : Tools) (sorted : List String → List String) (config : Config) where
  pub record Preserved (R : ChangeSet → ChangeSet → Type 0) : Type 0 where
    pub same : (r : ChangeSet) → R r r
    pub next : (a b c : ChangeSet) → R a b → R b c → R a c
    pub stage_keeps :
        (operation_type payload operation_id : String) (now : ℕ)
        (edit : Files → Result ErrorCode Unit × Files) (l : Local)
        → R l.row (stage tools sorted config operation_type payload operation_id now edit l).1.row
    pub validate_keeps :
        (id : String) (expected_revision : ℤ) (profile : String) (now : ℕ) (l : Local)
        → R l.row (validate tools sorted config id expected_revision profile now l).1.row
    pub commit_keeps :
        (writable : Phase → Bool) (digest : String) (expected_tree : Option String) (now : ℕ)
        (l : Local)
        → R l.row (commit tools writable digest expected_tree now l).1.row
    pub rollback_keeps :
        (writable : Phase → Bool) (now : ℕ) (l : Local) → R l.row (rollback writable now l).1.row
    pub reconcile_keeps :
        (writable : Phase → Bool) (now : ℕ) (l : Local)
        → l.row.status ≡ committing
        → R l.row (reconcile tools writable now l).1.row
    pub expire_keeps : (now : ℕ) (l : Local) → Editable l.row.status → R l.row (expire now l).row

module _ (tools : Tools) (sorted : List String → List String) (config : Config)
    (R : ChangeSet → ChangeSet → Type 0) (keeps_R : Preserved tools sorted config R) where
  clean_as-keeps :
      (c : Cleanup) (now : ℕ) (l : Local)
      → (c ≡ expires → Editable l.row.status)
      → R l.row (clean_as c now l).row
  clean_as-keeps keeps now l e = keeps_R.same l.row
  clean_as-keeps expires now l e = keeps_R.expire_keeps now l (e refl)
  clean_as-keeps removes now l e = keeps_R.same l.row

  clean_at-keeps : (now : ℕ) (l : Local) → R l.row (clean_at config now l).1.row
  unfolding clean_at clean cleanup_of
  clean_at-keeps now l =
      let retain = config.retain_terminal_hours * hour in
      clean_as-keeps (cleanup_in l.row.status now retain l.row) now l (editable retain l.row.status)
    where
      never : (retain : ℕ) (o : Option ℕ) → old_enough o now retain ≡ expires → ⊥
      never retain none e = cc
      never retain (some t) e = ground (arith, e)

      editable : (retain : ℕ) (s : Status) → cleanup_in s now retain l.row ≡ expires → Editable s
      editable retain opened e = opened_is
      editable retain validated e = validated_is
      editable retain committing e = cc
      editable retain recovery_required e = cc
      editable retain committed e = elim (never retain l.row.closed_at e) [ ]
      editable retain rolled_back e = elim (never retain l.row.closed_at e) [ ]
      editable retain expired e = elim (never retain l.row.closed_at e) [ ]

  reconcile_if-keeps :
      (writable : Phase → Bool) (now : ℕ) (l : Local)
      → R l.row (reconcile_if tools writable now l).1.row
  unfolding reconcile_if
  reconcile_if-keeps writable now l = by_status l.row.status refl
    where
      by_status :
          (s : Status)
          → l.row.status ≡ s
          → R l.row
              (let o : Outcome Unit =
                  if is_committing tools writable now s
                  then (ok tt, (reconcile tools writable now l).1)
                  else (ok tt, l) in
                o).1.row
      by_status committing e = keeps_R.reconcile_keeps writable now l e
      by_status opened e = keeps_R.same l.row
      by_status validated e = keeps_R.same l.row
      by_status recovery_required e = keeps_R.same l.row
      by_status committed e = keeps_R.same l.row
      by_status rolled_back e = keeps_R.same l.row
      by_status expired e = keeps_R.same l.row

  -- One of the loops over rows.
  reconcile_incomplete-Evolves :
      (writable : Phase → Bool) (now : ℕ) (rows : Dict Stored) (w : World)
      → Evolves R w.sets (reconcile_incomplete tools writable now rows w).sets
  unfolding reconcile_incomplete
  reconcile_incomplete-Evolves writable now [] w = Evolves-refl R keeps_R.same w.sets
  reconcile_incomplete-Evolves writable now ((id, s) ∷ rows) w =
      Evolves-trans R w.sets _ _ keeps_R.next
        (with_set-Evolves R keeps_R.same (reconcile_if tools writable now) id w
          (reconcile_if-keeps writable now))
        (reconcile_incomplete-Evolves writable now rows _)

  cleanup_expired-Evolves :
      (now : ℕ) (rows : Dict Stored) (w : World)
      → Evolves R w.sets (cleanup_expired config now rows w).sets
  unfolding cleanup_expired
  cleanup_expired-Evolves now [] w = Evolves-refl R keeps_R.same w.sets
  cleanup_expired-Evolves now ((id, s) ∷ rows) w =
      Evolves-trans R w.sets _ _ keeps_R.next
        (with_set-Evolves R keeps_R.same (clean_at config now) id w (clean_at-keeps now))
        (cleanup_expired-Evolves now rows _)

  delete_terminal_data-Evolves :
      (workspace_id : String) (sets : Dict Stored)
      → Evolves R sets (delete_terminal_data workspace_id sets)
  unfolding delete_terminal_data Dict.get
  delete_terminal_data-Evolves workspace_id [] id = absent
  delete_terminal_data-Evolves workspace_id ((k, s) ∷ sets) id = elim (Bool-cases (k == id)) [
    | inl b ↦ rw b (same_row (s.row.workspace_id == workspace_id && is_terminal s.row.status))
    | inr b ↦ rw b (delete_terminal_data-Evolves workspace_id sets id)
  ]
    where
      same_row :
          (c : Bool)
          → Related R (some s) (
              some
                (if c then (let t : Stored = record s { directory = empty_directory } in t) else s))
      same_row true = present (keeps_R.same s.row)
      same_row false = present (keeps_R.same s.row)

  -- A step keeps every row up to the relation, or it is a `begin`, or the rows of a workspace are deleted.
  unfoldable pub Moves : World → World → Option String → Type 0
  Moves v w deleted =
      Evolves R v.sets w.sets
      ⊎ (((workspace_id : String) × (deleted ≡ some workspace_id)
            × (w.sets ≡ delete_rows workspace_id v.sets v.sets))
          ⊎ ((supported : Result ErrorCode Unit) × (total : String → ℕ) × (head : String)
              × (written : Bool) × (id : String) × (workspace_id : String) × (explanation : String)
              × (now : ℕ) × (w
                  ≡ (begin tools sorted config supported total head written id workspace_id
                      explanation now v).1)))

  pub ⇒-Moves :
      {v w : World} (m : ◌⇒◌ tools sorted config v w) → Moves v w (removed tools sorted config m)
  unfolding Moves removed
  ⇒-Moves (begins supported total head written id workspace_id explanation now) =
      inr (inr (supported, total, head, written, id, workspace_id, explanation, now, refl))
  ⇒-Moves (removes_workspace workspace_id) =
      unfold delete_workspace in inr (inl (workspace_id, refl, refl))
  ⇒-Moves {v} (stages id operation_type payload operation_id now edit) = inl (
      with_set-Evolves R keeps_R.same _ id v
        (keeps_R.stage_keeps operation_type payload operation_id now edit))
  ⇒-Moves {v} (validates id expected_revision profile now) = inl (
      with_set-Evolves R keeps_R.same _ id v
        (keeps_R.validate_keeps id expected_revision profile now))
  ⇒-Moves {v} (commits writable id digest expected_tree now) = inl (
      with_set-Evolves R keeps_R.same _ id v
        (keeps_R.commit_keeps writable digest expected_tree now))
  ⇒-Moves {v} (rolls_back writable id now) =
      inl (with_set-Evolves R keeps_R.same _ id v (keeps_R.rollback_keeps writable now))
  ⇒-Moves {v} (reconciles writable now) = inl (reconcile_incomplete-Evolves writable now v.sets v)
  ⇒-Moves {v} (cleans now) = inl (cleanup_expired-Evolves now v.sets v)
  ⇒-Moves {v} (deletes workspace_id) = inl (delete_terminal_data-Evolves workspace_id v.sets)
  ⇒-Moves {v} (works workspaces) = inl (Evolves-refl R keeps_R.same v.sets)
