-- ===== src/ChangeSets/World/Exclusive.antt =====
-- The histories of the change sets of app/services/change_set_store.py.
use test_gpt_local.Prelude.{Option, none, some}
use test_gpt_local.Prelude.Text.{mem}
use test_gpt_local.ChangeSets.World.{delete_rows}
use test_gpt_local.ChangeSets.World.Deleted.{Left-back, Left-forth, delete_rows-Left}
use test_gpt_local.ChangeSets.World.Steps.{add_removed, deleted_workspaces}
use test_gpt_local.Prelude.{
  ℕ, ◌≡◌, refl, sym, ap, subst, ◌∙◌, String, Bool, true, false, ◌&&◌, ◌||◌, List, [], ◌∷◌, none,
  some, inl, inr, ◌⊎◌, Bool-cases, Option-cases, arith,
}
use test_gpt_local.Prelude.Text.{◌==◌, eq_iff}
use test_gpt_local.Prelude.Dict
use test_gpt_local.Prelude.Dict.{Dict, get-put}
use test_gpt_local.Prelude.Result.{Result, ok, err}
use test_gpt_local.ChangeSets.State.{is_active, ErrorCode, Files, Tools, Config}
use test_gpt_local.ChangeSets.World.{
  Stored, World, checkout_of, has_active, begin_snapshot, new_row, insert_new, insert_found, begin,
}
use test_gpt_local.ChangeSets.World.Rows.{Evolves, Related-back, Related-forth, put-forth}
use test_gpt_local.ChangeSets.World.Steps.{◌⇒*◌, done, more, Preserved, Moves, ⇒-Moves}
use test_gpt_local.ChangeSets.Machine.Commits.{commit-Follows}
use test_gpt_local.ChangeSets.Machine.Operations.{
  stage-Follows, validate-Follows, rollback-Follows, reconcile-Follows, expire-Follows,
}
use test_gpt_local.ChangeSets.Machine.{
  Follows, Follows-refl, Follows-trans, ⟶*-active, ⟶*-final, is_final,
}

-- A workspace has at most one active change set.
unfoldable pub IsExclusive : Dict Stored → Type 0
IsExclusive d =
    (i j : String) (s t : Stored)
    → Dict.get i d ≡ some s
    → Dict.get j d ≡ some t
    → is_active s.row.status ≡ true
    → is_active t.row.status ≡ true
    → s.row.workspace_id ≡ t.row.workspace_id
    → i ≡ j

Evolves-IsExclusive : (d e : Dict Stored) → Evolves Follows d e → IsExclusive d → IsExclusive e
unfolding IsExclusive
Evolves-IsExclusive d e v x i j s' t' a b p q same =
    let (s, a', f) = Related-back Follows s' (v i) a in
    let (t, b', g) = Related-back Follows t' (v j) b in
    x i j s t a' b' (⟶*-active f.path p) (⟶*-active g.path q)
      (sym f.same_workspace ∙ same ∙ g.same_workspace)

-- The search of the unique index misses no active row.
pub has_active-false :
    (workspace_id id : String) (d : Dict Stored) (s : Stored)
    → has_active workspace_id d ≡ false
    → Dict.get id d ≡ some s
    → s.row.workspace_id ≡ workspace_id
    → is_active s.row.status ≡ false
unfolding has_active Dict.get
has_active-false workspace_id id [] s h e same = cc
has_active-false workspace_id id ((k, t) ∷ d) s h e same =
    let rest = has_active-false workspace_id id d s in
    elim (Bool-cases (k == id)) [
      | inl b ↦
          let t_is : t ≡ s = cc (rw b at e) in
          let same' : t.row.workspace_id ≡ workspace_id =
            ap (λ x. x.row.workspace_id) t_is ∙ same in
          ap (λ x. is_active x.row.status) (sym t_is)
          ∙ head_inactive _ _ (rw ((eq_iff t.row.workspace_id workspace_id).1 same') at h)
      | inr b ↦ rest (ground (arith, h)) (rw b at e) same
    ]
  where
    head_inactive : (a b : Bool) → (true && a || b) ≡ false → a ≡ false
    head_inactive a b h = ground (arith, h)

put-IsExclusive :
    (k : String) (n : Stored) (d : Dict Stored)
    → has_active n.row.workspace_id d ≡ false
    → IsExclusive d
    → IsExclusive (Dict.put k n d)
unfolding IsExclusive
put-IsExclusive k n d none_active x i j s t a b p q same =
    by_ids (Bool-cases (k == i)) (Bool-cases (k == j))
  where
    by_ids : (k == i ≡ true) ⊎ (k == i ≡ false) → (k == j ≡ true) ⊎ (k == j ≡ false) → i ≡ j
    by_ids (inl u) (inl v) = sym ((eq_iff k i).0 u) ∙ (eq_iff k j).0 v
    by_ids (inr u) (inr v) =
        x i j s t (rw (get-put k i n d, u) at a) (rw (get-put k j n d, v) at b) p q same
    by_ids (inl u) (inr v) =
        let n_is : n ≡ s = cc (rw (get-put k i n d, u) at a) in
        cc (
          q,
          has_active-false n.row.workspace_id j d t none_active (rw (get-put k j n d, v) at b)
              (sym same ∙ sym (ap (λ r. r.row.workspace_id) n_is)),
        )
    by_ids (inr u) (inl v) =
        let n_is : n ≡ t = cc (rw (get-put k j n d, v) at b) in
        cc (
          p,
          has_active-false n.row.workspace_id i d s none_active (rw (get-put k i n d, u) at a)
              (same ∙ sym (ap (λ r. r.row.workspace_id) n_is)),
        )

delete_rows-IsExclusive :
    (workspace_id : String) (d : Dict Stored)
    → IsExclusive d
    → IsExclusive (delete_rows workspace_id d d)
unfolding IsExclusive
delete_rows-IsExclusive workspace_id d x i j s t a b =
    x i j s t (Left-back workspace_id s (delete_rows-Left workspace_id i d d) a)
      (Left-back workspace_id t (delete_rows-Left workspace_id j d d) b)

module _ (tools : Tools) (sorted : List String → List String) (config : Config) where
  abbrev pub follows_kept : Preserved tools sorted config Follows
  follows_kept = record {
    same = Follows-refl;
    next = λ a b c. Follows-trans;
    stage_keeps = stage-Follows tools sorted config;
    validate_keeps = validate-Follows tools sorted config;
    commit_keeps =
        λ writable digest expected_tree now. commit-Follows tools writable now digest expected_tree;
    rollback_keeps = rollback-Follows;
    reconcile_keeps = reconcile-Follows tools;
    expire_keeps = expire-Follows;
  }

  -- What `begin` does to the table.
  Begun : World → World → Type 0
  Begun v w =
      (w.sets ≡ v.sets)
      ⊎ ((id : String) × (n : Stored) × (Dict.get id v.sets ≡ none)
          × (has_active n.row.workspace_id v.sets ≡ false)
          × (w.sets ≡ Dict.put id n v.sets))

  insert_new-Begun :
      (written : Bool) (id workspace_id explanation head : String) (now : ℕ) (v : World)
      (found : String × Files)
      → Begun v
          (insert_new tools sorted config written id workspace_id explanation head now v found).1
  unfolding Begun insert_new new_row
  insert_new-Begun written id workspace_id explanation head now v (before_tree, staging) =
      elim (Option-cases (Dict.get id v.sets)) [
        | inr (s, e) ↦ rw e (inl refl)
        | inl e ↦ elim (Bool-cases (has_active workspace_id v.sets)) [
          | inl b ↦ rw (e, b) (inl refl)
          | inr b ↦ rw (e, b) (inr (id, _, e, b, refl))
        ]
      ]

  begin-Begun :
      (supported : Result ErrorCode Unit) (total : String → ℕ) (head : String) (written : Bool)
      (id workspace_id explanation : String) (now : ℕ) (v : World)
      → Begun v
          (begin tools sorted config supported total head written id workspace_id explanation now
            v).1
  unfolding Begun begin
  begin-Begun supported total head written id workspace_id explanation now v = from (
      begin_snapshot tools sorted config supported total explanation
        (checkout_of (Dict.get workspace_id v.workspaces)))
    where
      from :
          (r : Result ErrorCode (String × Files))
          → Begun v
              (insert_found tools sorted config written id workspace_id explanation head now v r).1
      from (err e) = inl refl
      from (ok found) = insert_new-Begun written id workspace_id explanation head now v found

  Begun-IsExclusive : (v w : World) → Begun v w → IsExclusive v.sets → IsExclusive w.sets
  unfolding Begun
  Begun-IsExclusive v w (inl e) x = subst IsExclusive (sym e) x
  Begun-IsExclusive v w (inr (id, n, fresh, none_active, e)) x =
      subst IsExclusive (sym e) (put-IsExclusive id n v.sets none_active x)

  ⇒-IsExclusive :
      (v w : World) (deleted : Option String)
      → Moves tools sorted config Follows follows_kept v w deleted
      → IsExclusive v.sets
      → IsExclusive w.sets
  unfolding Moves
  ⇒-IsExclusive v w deleted (inl e) x = Evolves-IsExclusive v.sets w.sets e x
  ⇒-IsExclusive v w deleted (inr (inl (workspace_id, d, e))) x =
      subst IsExclusive (sym e) (delete_rows-IsExclusive workspace_id v.sets x)
  ⇒-IsExclusive v w deleted
        (inr (inr (supported, total, head, written, id, workspace_id, explanation, now, e))) x =
      subst (λ y. IsExclusive y.sets) (sym e)
        (Begun-IsExclusive v _
          (begin-Begun supported total head written id workspace_id explanation now v) x)

  -- Whatever is called in whatever order, and however the workspaces change in between, a workspace has
  -- at most one active change set, if it had at most one before.
  pub ⇒*-IsExclusive :
      {v w : World} → ◌⇒*◌ tools sorted config v w → IsExclusive v.sets → IsExclusive w.sets
  ⇒*-IsExclusive done x = x
  ⇒*-IsExclusive (more {v} {w} p m) x =
      ⇒-IsExclusive v w _ (⇒-Moves tools sorted config Follows follows_kept m) (⇒*-IsExclusive p x)

  Begun-forth :
      (v w : World) (id : String) (s : Stored)
      → Begun v w
      → Dict.get id v.sets ≡ some s
      → (s' : Stored) × (Dict.get id w.sets ≡ some s') × Follows s.row s'.row
  unfolding Begun
  Begun-forth v w id s (inl e) h = (s, ap (Dict.get id) e ∙ h, Follows-refl s.row)
  Begun-forth v w id s (inr (k, n, fresh, none_active, e)) h = (
    s,
    ap (Dict.get id) e ∙ put-forth Follows Follows-refl k n s v.sets id fresh h,
    Follows-refl s.row,
  )

  ⇒-forth :
      (v w : World) (deleted : Option String) (id : String) (s : Stored)
      → Moves tools sorted config Follows follows_kept v w deleted
      → ((workspace_id : String)
          → deleted ≡ some workspace_id
          → s.row.workspace_id == workspace_id ≡ false)
      → Dict.get id v.sets ≡ some s
      → (s' : Stored) × (Dict.get id w.sets ≡ some s') × Follows s.row s'.row
  unfolding Moves
  ⇒-forth v w deleted id s (inl e) other h = Related-forth Follows s (e id) h
  ⇒-forth v w deleted id s (inr (inl (workspace_id, d, e))) other h = (
    s,
    ap (Dict.get id) e
        ∙ Left-forth workspace_id s (delete_rows-Left workspace_id id v.sets v.sets) h
            (other workspace_id d),
    Follows-refl s.row,
  )
  ⇒-forth v w deleted id s
        (inr (inr (supported, total, head, written, k, workspace_id, explanation, now, e))) other
        h =
      Begun-forth v w id s
        (subst (Begun v) (sym e)
          (begin-Begun supported total head written k workspace_id explanation now v))
        h

  spared :
      (o : Option String) (ids : List String) (x : String)
      → mem x (add_removed tools sorted config o ids) ≡ false
      → (mem x ids ≡ false) × ((y : String) → o ≡ some y → x == y ≡ false)
  unfolding mem
  spared none ids x h = (h, λ y e. cc)
  spared (some z) ids x h = (
    ground (arith, h),
    λ y e. let z_is : z ≡ y = cc in ground (arith, h, z_is, eq_iff z x, eq_iff x y),
  )

  -- Whatever is called in whatever order, a change set whose workspace is not deleted stays there, in its
  -- workspace and on its captured tree, and its status goes along the edges of the machine.
  pub ⇒*-Follows :
      {v w : World} (id : String) (s : Stored) (p : ◌⇒*◌ tools sorted config v w)
      → mem s.row.workspace_id (deleted_workspaces tools sorted config p) ≡ false
      → Dict.get id v.sets ≡ some s
      → (s' : Stored) × (Dict.get id w.sets ≡ some s') × Follows s.row s'.row
  unfolding deleted_workspaces
  ⇒*-Follows id s done n h = (s, h, Follows-refl s.row)
  ⇒*-Follows id s (more {v} {w} p m) n h =
      let (rest, other) = spared _ _ s.row.workspace_id n in
      let (t, g, f) = ⇒*-Follows id s p rest h in
      let (s', g', f') =
        ⇒-forth v w _ id t (⇒-Moves tools sorted config Follows follows_kept m)
          (λ y e. subst (λ x. x == y ≡ false) (sym f.same_workspace) (other y e)) g in
      (s', g', Follows-trans f f')

  -- A change set that is committed, rolled back, expired or in need of recovery, and whose workspace is
  -- not deleted, stays so, whatever is called: nothing leads out of `recovery_required`,
  -- `reconcile_incomplete` included.
  pub ⇒*-final :
      {v w : World} (id : String) (s : Stored) (p : ◌⇒*◌ tools sorted config v w)
      → mem s.row.workspace_id (deleted_workspaces tools sorted config p) ≡ false
      → Dict.get id v.sets ≡ some s
      → is_final s.row.status ≡ true
      → (s' : Stored) × (Dict.get id w.sets ≡ some s') × (s'.row.status ≡ s.row.status)
  ⇒*-final id s p n h f = let (s', g, r) = ⇒*-Follows id s p n h in (s', g, ⟶*-final r.path f)
