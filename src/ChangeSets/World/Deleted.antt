-- ===== src/ChangeSets/World/Deleted.antt =====
-- The rows that `delete_workspace` of app/storage/database.py leaves.
use test_gpt_local.Prelude.{
  ◌≡◌, refl, sym, ap, subst, ◌∙◌, String, false, [], ◌∷◌, arith, if◌then◌else◌, Option, none, some,
  inl, inr, Bool-cases,
}
use test_gpt_local.Prelude.Text.{◌==◌, eq_iff}
use test_gpt_local.Prelude.Dict
use test_gpt_local.Prelude.Dict.{Dict}
use test_gpt_local.ChangeSets.World.{Stored, remove_id, drop_found, delete_rows}

get-remove_id :
    (k id : String) (d : Dict Stored)
    → Dict.get id (remove_id k d) ≡ (if k == id then none else Dict.get id d)
unfolding remove_id Dict.get
get-remove_id k id [] = ground arith
get-remove_id k id ((j, s) ∷ d) =
    ground (arith, eq_iff k id, eq_iff j k, eq_iff j id, get-remove_id k id d)

-- A row stays as it is, or it is deleted, and was one of the workspace.
pub data Left (workspace_id : String) : Option Stored → Option Stored → Type 0 where
  stays : {o : Option Stored} → Left workspace_id o o
  gone : {s : Stored} → s.row.workspace_id ≡ workspace_id → Left workspace_id (some s) none

module _ (workspace_id : String) where
  Left-trans :
      {o p q : Option Stored}
      → Left workspace_id o p
      → Left workspace_id p q
      → Left workspace_id o q
  Left-trans stays f = f
  Left-trans (gone e) stays = gone e

  drop_found-Left :
      (k id : String) (d : Dict Stored) (o : Option Stored)
      → Dict.get k d ≡ o
      → Left workspace_id (Dict.get id d) (Dict.get id (drop_found workspace_id k d o))
  drop_found-Left k id d none h = stays
  drop_found-Left k id d (some s) h = elim (Bool-cases (s.row.workspace_id == workspace_id)) [
    | inr b ↦ rw b stays
    | inl b ↦ elim (Bool-cases (k == id)) [
      | inr c ↦ rw (b, get-remove_id k id d, c) stays
      | inl c ↦
          let found : Dict.get id d ≡ some s =
            subst (λ x. Dict.get x d ≡ some s) ((eq_iff k id).0 c) h in
          rw (b, get-remove_id k id d, c, found) (gone ((eq_iff _ workspace_id).0 b))
    ]
  ]

  pub delete_rows-Left :
      (id : String) (rows d : Dict Stored)
      → Left workspace_id (Dict.get id d) (Dict.get id (delete_rows workspace_id rows d))
  unfolding delete_rows
  delete_rows-Left id [] d = stays
  delete_rows-Left id ((k, s) ∷ rows) d =
      Left-trans (drop_found-Left k id d (Dict.get k d) refl) (delete_rows-Left id rows _)

  -- What is there afterwards was there before.
  pub Left-back :
      {o o' : Option Stored} (s : Stored) → Left workspace_id o o' → o' ≡ some s → o ≡ some s
  Left-back s stays h = h
  Left-back s (gone e) h = cc

  -- What was there of another workspace is there afterwards.
  pub Left-forth :
      {o o' : Option Stored} (s : Stored)
      → Left workspace_id o o'
      → o ≡ some s
      → s.row.workspace_id == workspace_id ≡ false
      → o' ≡ some s
  Left-forth s stays h n = h
  Left-forth s (gone {s = t} e) h n =
      let t_is : t ≡ s = cc in
      cc (
        n,
        (eq_iff s.row.workspace_id workspace_id).1 (ap (λ x. x.row.workspace_id) (sym t_is) ∙ e),
      )
