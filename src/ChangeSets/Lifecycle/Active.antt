-- ===== src/ChangeSets/Lifecycle/Active.antt =====
-- How `_active` of app/services/change_set_store.py ends.
use test_gpt_local.Prelude.{some, none}
use test_gpt_local.Prelude.{ℕ, ◌≡◌, refl, sym, ap, subst, true, false, leb, inl, inr, Bool-cases}
use test_gpt_local.Prelude.Result.{ok, err}
use test_gpt_local.ChangeSets.State.{
  Status, opened, validated, committing, recovery_required, committed, rolled_back, expired,
  invalid_state, change_set_expired, Local,
}
use test_gpt_local.ChangeSets.Commit.{Outcome}
use test_gpt_local.ChangeSets.Lifecycle.{expire, may_expire, expire_if_needed, active}
use test_gpt_local.ChangeSets.Machine.{Editable, opened_is, validated_is}

-- The change set has expired, its staged files are gone, and nothing else of its place is changed.
pub record IsExpired (now : ℕ) (l l' : Local) : Type 0 where
  pub status : l'.row.status ≡ expired
  pub closed : l'.row.closed_at ≡ some now
  pub dropped : l'.directory.staging ≡ none
  pub untouched : (l'.row.operations ≡ l.row.operations) × (l'.checkout ≡ l.checkout)

pub expire-IsExpired : (now : ℕ) (l : Local) → IsExpired now l (expire now l)
expire-IsExpired now l = record {
  status = refl;
  closed = refl;
  dropped = refl;
  untouched = (refl, refl);
}

pub data ActiveEnds (now : ℕ) (l : Local) : Outcome Unit → Type 0 where
  goes_on : Editable l.row.status → leb l.row.expires_at now ≡ false → ActiveEnds now l (ok tt, l)
  refused : ActiveEnds now l (err invalid_state, l)
  expires :
      Editable l.row.status
      → leb l.row.expires_at now ≡ true
      → ActiveEnds now l (err change_set_expired, expire now l)

pub active-Ends : (now : ℕ) (l : Local) → ActiveEnds now l (active now l)
unfolding active expire_if_needed
active-Ends now l = by_status l.row.status refl
  where
    editable :
        may_expire l.row.status ≡ true → Editable l.row.status → ActiveEnds now l (active now l)
    editable m k = elim (Bool-cases (leb l.row.expires_at now)) [
      | inl b ↦ rw (m, b) (expires k b)
      | inr b ↦ rw (m, b, m) (goes_on k b)
    ]

    closed : may_expire l.row.status ≡ false → ActiveEnds now l (active now l)
    closed m = rw (m, m) refused

    by_status : (s : Status) → l.row.status ≡ s → ActiveEnds now l (active now l)
    by_status opened e = editable (ap may_expire e) (subst Editable (sym e) opened_is)
    by_status validated e = editable (ap may_expire e) (subst Editable (sym e) validated_is)
    by_status committing e = closed (ap may_expire e)
    by_status recovery_required e = closed (ap may_expire e)
    by_status committed e = closed (ap may_expire e)
    by_status rolled_back e = closed (ap may_expire e)
    by_status expired e = closed (ap may_expire e)
