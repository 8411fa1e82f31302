-- ===== src/ChangeSets/World/Discard.antt =====
-- `assert_workspace_discardable` of app/services/change_set_store.py.
use test_gpt_local.Prelude.{
  ◌≡◌, ◌↔◌, refl, ap, subst, ◌∙◌, String, Bool, true, false, ◌&&◌, ◌||◌, [], ◌∷◌, none, some, inl,
  inr, Bool-cases,
}
use test_gpt_local.Prelude.Text.{◌==◌, eq_iff, eq_refl}
use test_gpt_local.Prelude.Dict
use test_gpt_local.Prelude.Dict.{Dict, IsUnique}
use test_gpt_local.Prelude.Result.{ok, raise_if}
use test_gpt_local.ChangeSets.State.{
  Status, opened, validated, committing, recovery_required, committed, rolled_back, expired,
  invalid_state,
}
use test_gpt_local.ChangeSets.World.{
  Stored, World, holds_workspace, is_held, assert_workspace_discardable,
}

-- The statuses that no operation leaves.
pub data IsClosed : Status → Type 0 where
  is_committed : IsClosed committed
  is_rolled_back : IsClosed rolled_back
  is_expired : IsClosed expired

-- Every change set of the workspace is committed, rolled back or expired.
unfoldable pub AllClosed : String → Dict Stored → Type 0
AllClosed workspace_id d =
    (id : String) (s : Stored)
    → Dict.get id d ≡ some s
    → s.row.workspace_id ≡ workspace_id
    → IsClosed s.row.status

IsClosed-free : {s : Status} → IsClosed s → holds_workspace s ≡ false
unfolding holds_workspace
IsClosed-free is_committed = refl
IsClosed-free is_rolled_back = refl
IsClosed-free is_expired = refl

free-IsClosed : (s : Status) → holds_workspace s ≡ false → IsClosed s
unfolding holds_workspace
free-IsClosed opened h = cc
free-IsClosed validated h = cc
free-IsClosed committing h = cc
free-IsClosed recovery_required h = cc
free-IsClosed committed h = is_committed
free-IsClosed rolled_back h = is_rolled_back
free-IsClosed expired h = is_expired

is_held-false :
    (workspace_id id : String) (d : Dict Stored) (s : Stored)
    → is_held workspace_id d ≡ false
    → Dict.get id d ≡ some s
    → s.row.workspace_id ≡ workspace_id
    → IsClosed s.row.status
unfolding is_held Dict.get
is_held-false workspace_id id [] s h e same = cc
is_held-false workspace_id id ((k, t) ∷ d) s h e same =
    let (here, rest) = both _ _ h in
    elim (Bool-cases (k == id)) [
      | inl b ↦
          let t_is : t ≡ s = cc (rw b at e) in
          subst (λ x. IsClosed x.row.status) t_is
            (free-IsClosed _
              (free _ _ here ((eq_iff _ _).1 (ap (λ x. x.row.workspace_id) t_is ∙ same))))
      | inr b ↦ is_held-false workspace_id id d s rest (rw b at e) same
    ]
  where
    both : (a b : Bool) → (a || b) ≡ false → (a ≡ false) × (b ≡ false)
    both true b h = cc
    both false b h = (refl, h)

    free : (a b : Bool) → (a && b) ≡ false → a ≡ true → b ≡ false
    free true b h k = h
    free false b h k = cc

AllClosed-tail :
    (workspace_id k : String) (t : Stored) (d : Dict Stored)
    → Dict.get k d ≡ none
    → AllClosed workspace_id ((k, t) ∷ d)
    → AllClosed workspace_id d
unfolding AllClosed Dict.get
AllClosed-tail workspace_id k t d fresh h id s e = elim (Bool-cases (k == id)) [
  | inl b ↦ cc (fresh, e, ap (λ x. Dict.get x d) ((eq_iff k id).0 b))
  | inr b ↦ h id s (rw b e)
]

AllClosed-is_held :
    (workspace_id : String) (d : Dict Stored)
    → IsUnique d
    → AllClosed workspace_id d
    → is_held workspace_id d ≡ false
unfolding AllClosed is_held Dict.get
AllClosed-is_held workspace_id [] u h = refl
AllClosed-is_held workspace_id ((k, t) ∷ d) (fresh, u) h =
    let rest = AllClosed-is_held workspace_id d u (AllClosed-tail workspace_id k t d fresh h) in
    elim (Bool-cases (t.row.workspace_id == workspace_id)) [
      | inl b ↦
          rw
            (
              b,
              IsClosed-free
                  (h k t (rw (eq_refl k) refl) ((eq_iff t.row.workspace_id workspace_id).0 b)),
            )
            rest
      | inr b ↦ rw b rest
    ]

-- Where every change set has its own id, a workspace may be discarded exactly when each of its change
-- sets is committed, rolled back or expired.
pub assert_workspace_discardable-eq-ok_iff :
    (workspace_id : String) (w : World)
    → IsUnique w.sets
    → (assert_workspace_discardable workspace_id w ≡ ok tt) ↔ AllClosed workspace_id w.sets
unfolding assert_workspace_discardable AllClosed
assert_workspace_discardable-eq-ok_iff workspace_id w u = (
  λ h id s e same. is_held-false workspace_id id w.sets s (not_raised _ h) e same,
  λ h. rw (AllClosed-is_held workspace_id w.sets u h) refl,
)
  where
    not_raised : (b : Bool) → raise_if b invalid_state ≡ ok tt → b ≡ false
    not_raised true h = cc
    not_raised false h = refl
