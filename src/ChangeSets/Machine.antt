-- ===== src/ChangeSets/Machine.antt =====
-- The life of a change set as a state machine, which the operations of
-- app/services/change_set_store.py implement.
pub mod Commits
pub mod Operations
use test_gpt_local.Prelude.{
  ◌≡◌, ◌≢◌, refl, sym, ap, subst, ◌∙◌, String, Bool, true, false, ◌⊎◌, inl, inr, arith,
}
use test_gpt_local.ChangeSets.State.{
  Status, opened, validated, committing, recovery_required, committed, rolled_back, expired,
  is_active, ChangeSet,
}

-- From these statuses a change set may be edited.
pub data Editable : Status → Type 0 where
  opened_is : Editable opened
  validated_is : Editable validated

infix 40 ◌⟶◌ ◌⟶*◌
pub data ◌⟶◌ : Status → Status → Type 0 where
  validate : opened ⟶ validated
  reopen : validated ⟶ opened
  expire : {s : Status} → Editable s → s ⟶ expired
  discard : {s : Status} → Editable s → s ⟶ rolled_back
  start : validated ⟶ committing
  complete : committing ⟶ committed
  undo : committing ⟶ rolled_back
  doubt : committing ⟶ recovery_required

pub data ◌⟶*◌ : Status → Status → Type 0 where
  here : {s : Status} → s ⟶* s
  step : {s t u : Status} → s ⟶ t → t ⟶* u → s ⟶* u

-- What an operation keeps of a change set, and the path of its status.
pub record Follows (r r' : ChangeSet) : Type 0 where
  pub same_workspace : r'.workspace_id ≡ r.workspace_id
  pub same_base : r'.before_tree ≡ r.before_tree
  pub path : r.status ⟶* r'.status

pub Follows-refl : (r : ChangeSet) → Follows r r
Follows-refl r = record { same_workspace = refl; same_base = refl; path = here }

pub ⟶*-trans : {s t u : Status} → s ⟶* t → t ⟶* u → s ⟶* u
⟶*-trans here q = q
⟶*-trans (step e p) q = step e (⟶*-trans p q)

pub Follows-trans : {k l m : ChangeSet} → Follows k l → Follows l m → Follows k m
Follows-trans a b = record {
  same_workspace = b.same_workspace ∙ a.same_workspace;
  same_base = b.same_base ∙ a.same_base;
  path = ⟶*-trans a.path b.path;
}

-- No edge leads back to an active status.
⟶-active : {s t : Status} → s ⟶ t → is_active t ≡ true → is_active s ≡ true
unfolding is_active
⟶-active validate h = refl
⟶-active reopen h = refl
⟶-active (expire opened_is) h = refl
⟶-active (expire validated_is) h = refl
⟶-active (discard opened_is) h = refl
⟶-active (discard validated_is) h = refl
⟶-active start h = refl
⟶-active complete h = refl
⟶-active undo h = refl
⟶-active doubt h = refl

pub ⟶*-active : {s t : Status} → s ⟶* t → is_active t ≡ true → is_active s ≡ true
⟶*-active here h = h
⟶*-active (step e p) h = ⟶-active e (⟶*-active p h)

-- The statuses that no edge leaves.
abbrev pub is_final : Status → Bool
is_final opened = false
is_final validated = false
is_final committing = false
is_final _ = true

⟶-final : {s t : Status} → s ⟶ t → is_final s ≡ false
⟶-final validate = refl
⟶-final reopen = refl
⟶-final (expire opened_is) = refl
⟶-final (expire validated_is) = refl
⟶-final (discard opened_is) = refl
⟶-final (discard validated_is) = refl
⟶-final start = refl
⟶-final complete = refl
⟶-final undo = refl
⟶-final doubt = refl

pub ⟶*-final : {s t : Status} → s ⟶* t → is_final s ≡ true → t ≡ s
⟶*-final here h = refl
⟶*-final (step e p) h = cc (⟶-final e)
