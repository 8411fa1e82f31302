-- ===== src/ChangeSets/World/Sound.antt =====
-- Every change set that app/services/change_set_store.py can reach keeps to its rules.
use test_gpt_local.ChangeSets.World.{delete_rows}
use test_gpt_local.ChangeSets.World.Deleted.{Left-back, delete_rows-Left}
use test_gpt_local.Prelude.{Option, none, some}
use test_gpt_local.ChangeSets.Lifecycle.{reconcile_read}
use test_gpt_local.Prelude.{
  ℕ, ◌≡◌, refl, sym, subst, String, Bool, true, List, Option, some, inl, inr, Bool-cases,
  Option-cases, arith,
}
use test_gpt_local.Prelude.Text.{◌==◌}
use test_gpt_local.Prelude.Dict
use test_gpt_local.Prelude.Dict.{Dict, get-put}
use test_gpt_local.Prelude.Result.{Result, ok, err}
use test_gpt_local.ChangeSets.State.{
  Status, committing, ErrorCode, Phase, Files, Checkout, no_workspace, no_worktree, worktree, Local,
  Tools, Config,
}
use test_gpt_local.ChangeSets.Commit.{journal}
use test_gpt_local.ChangeSets.Staging.Numbers.{IsNumbered, IsDistinct}
use test_gpt_local.ChangeSets.Lifecycle.{phase_of, record_status, reconcile_on, reconcile}
use test_gpt_local.ChangeSets.Machine.Operations.{
  Settled, settled_committed, settled_rolled_back, settled_in_doubt, judge-Settled,
}
use test_gpt_local.ChangeSets.Sound.{
  IsSome, Digests, IsSound, KeepsSound, IsSound-same, stage-KeepsSound, validate-KeepsSound,
  commit-KeepsSound, rollback-KeepsSound, expire-KeepsSound,
}
use test_gpt_local.ChangeSets.World.{
  Stored, World, has_active, checkout_of, new_row, begin_snapshot, insert_new, insert_found, begin,
}
use test_gpt_local.ChangeSets.World.Rows.{Evolves, Related-back}
use test_gpt_local.ChangeSets.World.Steps.{◌⇒*◌, done, more, Preserved, Moves, ⇒-Moves}

-- Every change set of the table is sound.
unfoldable pub AllSound : Config → Dict Stored → Type 0
AllSound config d = (id : String) (s : Stored) → Dict.get id d ≡ some s → IsSound config s.row

module _ (config : Config) (tools : Tools) (writable : Phase → Bool) (now : ℕ) where
  Settled-Digests :
      {s : Status} {digest tree : Option String}
      → Settled s
      → IsSome digest × IsSome tree
      → Digests s digest tree
  unfolding Digests
  Settled-Digests settled_committed b = b
  Settled-Digests settled_rolled_back b = tt
  Settled-Digests settled_in_doubt b = b

  record_status-KeepsSound :
      (s : Status) (l : Local)
      → Settled s
      → IsSome l.row.validated_digest × IsSome l.row.after_tree
      → KeepsSound config l.row (record_status tools writable now s l).1.row
  unfolding record_status journal
  record_status-KeepsSound s l k b h = elim (Bool-cases (writable (phase_of s))) [
    | inl w ↦ rw w (IsSound-same config l.row _ refl (Settled-Digests k b) h)
    | inr w ↦ rw w (IsSound-same config l.row _ refl (Settled-Digests settled_in_doubt b) h)
  ]

  pub reconcile-KeepsSound :
      (l : Local)
      → l.row.status ≡ committing
      → KeepsSound config l.row (reconcile tools writable now l).1.row
  unfolding reconcile reconcile_on reconcile_read Digests
  reconcile-KeepsSound l e h = from l.checkout
    where
      b : IsSome l.row.validated_digest × IsSome l.row.after_tree
      b = subst (λ x. Digests x l.row.validated_digest l.row.after_tree) e h.digests

      on_tree :
          (s : Status) (u : Files)
          → Settled s
          → IsSound config
              (record_status tools writable now s
                (let k : Local = record l { checkout = worktree u } in k)).1.row
      on_tree s u k =
          let l1 : Local = record l { checkout = worktree u } in record_status-KeepsSound s l1 k b h

      read :
          (t : Files) (o : Option String)
          → IsSound config (reconcile_read tools writable now l t o).1.row
      read t none = IsSound-same config l.row _ refl b h
      read t (some current) = on_tree _ _ (judge-Settled tools writable now l t current)

      from : (c : Checkout) → IsSound config (reconcile_on tools writable now l c).1.row
      from no_workspace = IsSound-same config l.row _ refl b h
      from no_worktree = IsSound-same config l.row _ refl b h
      from (worktree t) = read t (tools.worktree_tree t)

module _ (tools : Tools) (sorted : List String → List String) (config : Config) where
  abbrev pub sound_kept : Preserved tools sorted config (KeepsSound config)
  sound_kept = record {
    same = λ r s. s;
    next = λ a b c f g s. g (f s);
    stage_keeps = stage-KeepsSound config tools sorted;
    validate_keeps = validate-KeepsSound config tools sorted;
    commit_keeps = λ writable digest expected_tree now.
        commit-KeepsSound config tools writable now digest expected_tree;
    rollback_keeps = λ writable now l. rollback-KeepsSound config tools writable now l;
    reconcile_keeps = reconcile-KeepsSound config tools;
    expire_keeps = λ now l. expire-KeepsSound config tools (λ p. true) now l;
  }

  new_row-IsSound :
      (workspace_id explanation head before_tree : String) (now : ℕ)
      → IsSound config (new_row tools sorted config workspace_id explanation head before_tree now)
  unfolding new_row Digests IsNumbered IsDistinct
  new_row-IsSound workspace_id explanation head before_tree now = record {
    counted = refl;
    few_operations = omega arith;
    few_files = omega arith;
    numbered = tt;
    distinct_ids = tt;
    digests = (refl, refl);
  }

  put-AllSound :
      (k : String) (n : Stored) (d : Dict Stored)
      → IsSound config n.row
      → AllSound config d
      → AllSound config (Dict.put k n d)
  unfolding AllSound
  put-AllSound k n d h a id s e = elim (Bool-cases (k == id)) [
    | inl b ↦
        let n_is : n ≡ s = cc (rw (get-put k id n d, b) at e) in
        subst (λ x. IsSound config x.row) n_is h
    | inr b ↦ a id s (rw (get-put k id n d, b) at e)
  ]

  insert_new-AllSound :
      (written : Bool) (id workspace_id explanation head : String) (now : ℕ) (v : World)
      (found : String × Files)
      → AllSound config v.sets
      → AllSound config
          (insert_new tools sorted config written id workspace_id explanation head now v
            found).1.sets
  unfolding insert_new
  insert_new-AllSound written id workspace_id explanation head now v (before_tree, staging) a =
      elim (Option-cases (Dict.get id v.sets)) [
        | inr (s, e) ↦ rw e a
        | inl e ↦ elim (Bool-cases (has_active workspace_id v.sets)) [
          | inl b ↦ rw (e, b) a
          | inr b ↦
              rw (e, b)
                (put-AllSound id _ v.sets
                  (new_row-IsSound workspace_id explanation head before_tree now) a)
        ]
      ]

  begin-AllSound :
      (supported : Result ErrorCode Unit) (total : String → ℕ) (head : String) (written : Bool)
      (id workspace_id explanation : String) (now : ℕ) (v : World)
      → AllSound config v.sets
      → AllSound config
          (begin tools sorted config supported total head written id workspace_id explanation now
            v).1.sets
  unfolding begin
  begin-AllSound supported total head written id workspace_id explanation now v a = from (
      begin_snapshot tools sorted config supported total explanation
        (checkout_of (Dict.get workspace_id v.workspaces)))
    where
      from :
          (r : Result ErrorCode (String × Files))
          → AllSound config
              (insert_found tools sorted config written id workspace_id explanation head now v
                r).1.sets
      from (err e) = a
      from (ok found) = insert_new-AllSound written id workspace_id explanation head now v found a

  Evolves-AllSound :
      (d e : Dict Stored) → Evolves (KeepsSound config) d e → AllSound config d → AllSound config e
  unfolding AllSound
  Evolves-AllSound d e v a id s' h =
      let (s, g, k) = Related-back (KeepsSound config) s' (v id) h in k (a id s g)

  delete_rows-AllSound :
      (workspace_id : String) (d : Dict Stored)
      → AllSound config d
      → AllSound config (delete_rows workspace_id d d)
  unfolding AllSound
  delete_rows-AllSound workspace_id d a id s h =
      a id s (Left-back workspace_id s (delete_rows-Left workspace_id id d d) h)

  ⇒-AllSound :
      (v w : World) (deleted : Option String)
      → Moves tools sorted config (KeepsSound config) sound_kept v w deleted
      → AllSound config v.sets
      → AllSound config w.sets
  unfolding Moves
  ⇒-AllSound v w deleted (inl e) a = Evolves-AllSound v.sets w.sets e a
  ⇒-AllSound v w deleted (inr (inl (workspace_id, d, e))) a =
      subst (AllSound config) (sym e) (delete_rows-AllSound workspace_id v.sets a)
  ⇒-AllSound v w deleted
        (inr (inr (supported, total, head, written, id, workspace_id, explanation, now, e))) a =
      subst (λ y. AllSound config y.sets) (sym e)
        (begin-AllSound supported total head written id workspace_id explanation now v a)

  -- Whatever is called in whatever order, and however the workspaces change in between, every change
  -- set is sound, if all were before: its operations are numbered from 1 and have different ids, its
  -- revision is one more than their number, its operations and changed files are within the limits, and
  -- it has no digest while it is open, and a digest and a tree from its validation on, until it is closed.
  pub ⇒*-AllSound :
      {v w : World} → ◌⇒*◌ tools sorted config v w → AllSound config v.sets → AllSound config w.sets
  ⇒*-AllSound done a = a
  ⇒*-AllSound (more {v} {w} p m) a =
      ⇒-AllSound v w _ (⇒-Moves tools sorted config (KeepsSound config) sound_kept m)
        (⇒*-AllSound p a)
