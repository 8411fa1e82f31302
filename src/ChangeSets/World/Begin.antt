-- ===== src/ChangeSets/World/Begin.antt =====
-- `begin` of app/services/change_set_store.py on a workspace that has a change set.
use test_gpt_local.Prelude.{
  ℕ, ◌≡◌, refl, ap, subst, String, Bool, true, false, ◌||◌, List, inl, inr, Bool-cases,
}
use test_gpt_local.Prelude.Text.{eq_refl}
use test_gpt_local.Prelude.Dict
use test_gpt_local.Prelude.Dict.{Dict, get-put}
use test_gpt_local.Prelude.Result.{Result, ok, err}
use test_gpt_local.ChangeSets.State.{is_active, ErrorCode, already_active, Files, Tools, Config}
use test_gpt_local.ChangeSets.World.{
  Stored, World, checkout_of, has_active, has_id, begin_snapshot, new_row, insert_new, insert_found,
  begin,
}
use test_gpt_local.ChangeSets.World.Exclusive.{has_active-false}

has_active-put :
    (workspace_id k : String) (n : Stored) (d : Dict Stored)
    → n.row.workspace_id ≡ workspace_id
    → is_active n.row.status ≡ true
    → has_active workspace_id (Dict.put k n d) ≡ true
has_active-put workspace_id k n d same a =
    elim (Bool-cases (has_active workspace_id (Dict.put k n d))) [
      | inl b ↦ b
      | inr b ↦ cc (
        a,
        has_active-false workspace_id k (Dict.put k n d) n b (rw (get-put k k n d, eq_refl k) refl)
            same,
      )
    ]

module _ (tools : Tools) (sorted : List String → List String) (config : Config) where
  insert_new-ok :
      (written : Bool) (id workspace_id explanation head : String) (now : ℕ) (v w : World)
      (found : String × Files)
      → insert_new tools sorted config written id workspace_id explanation head now v found
        ≡ (ok tt, w)
      → has_active workspace_id w.sets ≡ true
  unfolding insert_new new_row is_active
  insert_new-ok written id workspace_id explanation head now v w (before_tree, staging) h =
      elim (Bool-cases (has_id (Dict.get id v.sets) || has_active workspace_id v.sets)) [
        | inl b ↦ cc (ap (λ o. o.0) (rw b at h))
        | inr b ↦
            subst (λ x. has_active workspace_id x.sets ≡ true) (ap (λ o. o.1) (rw b at h))
              (has_active-put workspace_id id _ v.sets refl refl)
      ]

  begin-ok :
      (supported : Result ErrorCode Unit) (total : String → ℕ) (head : String) (written : Bool)
      (id workspace_id explanation : String) (now : ℕ) (v w : World)
      → begin tools sorted config supported total head written id workspace_id explanation now v
        ≡ (ok tt, w)
      → has_active workspace_id w.sets ≡ true
  unfolding begin
  begin-ok supported total head written id workspace_id explanation now v w h =
      from
        (begin_snapshot tools sorted config supported total explanation
          (checkout_of (Dict.get workspace_id v.workspaces)))
        h
    where
      from :
          (r : Result ErrorCode (String × Files))
          → insert_found tools sorted config written id workspace_id explanation head now v r
            ≡ (ok tt, w)
          → has_active workspace_id w.sets ≡ true
      from (err e) h = cc (ap (λ o. o.0) h)
      from (ok found) h = insert_new-ok written id workspace_id explanation head now v w found h

  begin-active :
      (supported : Result ErrorCode Unit) (total : String → ℕ) (head : String) (written : Bool)
      (id workspace_id explanation : String) (now : ℕ) (w : World)
      → has_active workspace_id w.sets ≡ true
      → (e : ErrorCode) × (begin tools sorted config supported total head written id workspace_id
            explanation now w
          ≡ (err e, w))
  unfolding begin insert_new
  begin-active supported total head written id workspace_id explanation now w a = from (
      begin_snapshot tools sorted config supported total explanation
        (checkout_of (Dict.get workspace_id w.workspaces)))
    where
      any_true : (b : Bool) → (b || true) ≡ true
      any_true true = refl
      any_true false = refl

      from :
          (r : Result ErrorCode (String × Files))
          → (e : ErrorCode) × (insert_found tools sorted config written id workspace_id explanation
                head now w r
              ≡ (err e, w))
      from (err e) = (e, refl)
      from (ok (before_tree, staging)) =
          (already_active, rw (a, any_true (has_id (Dict.get id w.sets))) refl)

  -- After a `begin` that succeeds, the next one in the same workspace fails and changes nothing.
  pub begin-once :
      (supported : Result ErrorCode Unit) (total : String → ℕ) (head : String) (written : Bool)
      (id workspace_id explanation : String) (now : ℕ) (v w : World)
      → begin tools sorted config supported total head written id workspace_id explanation now v
        ≡ (ok tt, w)
      → (supported' : Result ErrorCode Unit) (total' : String → ℕ) (head' : String)
        (written' : Bool) (id' explanation' : String) (later : ℕ)
      → (e : ErrorCode) × (begin tools sorted config supported' total' head' written' id'
            workspace_id explanation' later w
          ≡ (err e, w))
  begin-once supported total head written id workspace_id explanation now v w h supported' total'
        head' written' id' explanation' later =
      begin-active supported' total' head' written' id' workspace_id explanation' later w
        (begin-ok supported total head written id workspace_id explanation now v w h)
