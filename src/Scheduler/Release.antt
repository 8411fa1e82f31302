-- ===== src/Scheduler/Release.antt =====
-- What `ProcessLease.release` of app/services/process_scheduler.py gives back.
use test_gpt_local.Prelude.{
  ℕ, ◌≤◌, String, ◌≡◌, ◌≢◌, refl, ap, ◌∙◌, Bool, true, false, if◌then◌else◌, Option, none, some,
  arith,
}
use test_gpt_local.Prelude.Text.{◌==◌, eq_iff, eq_refl}
use test_gpt_local.Prelude.Dict
use test_gpt_local.Prelude.Dict.{get-put, get-remove}
use test_gpt_local.Scheduler.Keys.{ConcurrencyKey, QueuePolicy}
use test_gpt_local.Scheduler.State.{State, grant}
use test_gpt_local.Scheduler.Operations.{ProcessLease, drop_lease, release, release_lease}
use test_gpt_local.Scheduler.Queues.{IsQueued}
use test_gpt_local.Scheduler.Leases.{IsLeased, drop_lease-IsLeased}
use test_gpt_local.Scheduler.Granting.{
  Granted, Grants, here, next, Grants-IsLeased, grant_waiters_lem,
}
use test_gpt_local.Scheduler.Reach.{Reach, Reach-IsSound, drop_lease-IsQueued}

abbrev LeaseEntry : Type 0
LeaseEntry = String × Option ConcurrencyKey

module _ (policy : QueuePolicy) (lease_id : ℕ → String) where
  -- The first release answers `True` and takes the lease off, and no other; any later one answers
  -- `False` and leaves the scheduler as it is.
  pub record GaveBack (lease : String) (s : State) (o : Bool × ProcessLease × State) : Type 0 where
    pub answered : o.0 ≡ true
    pub taken_off : Dict.get lease o.2.active ≡ none
    pub others :
        (m : String) (e : LeaseEntry)
        → m ≢ lease
        → Dict.get m s.active ≡ some e
        → Dict.get m o.2.active ≡ some e
    pub once : (u : State) → release_lease policy lease_id o.1 u ≡ (false, o.1, u)

  -- The lease is not active and will not be issued again.
  record IsOff (lease : String) (s : State) : Type 0 where
    pub off : Dict.get lease s.active ≡ none
    pub spent : (i : ℕ) → s.issued ≤ i → lease_id i ≢ lease

  Granted-IsOff :
      {s t : State} (lease : String) → Granted policy lease_id s t → IsOff lease s → IsOff lease t
  unfolding grant
  Granted-IsOff {s} {t} lease g o = rw g.result (record {
    off =
        get-put (lease_id s.issued) lease (g.workspace, g.choice.waiter.key) s.active
        ∙ ground (arith, o.off, o.spent s.issued, eq_iff (lease_id s.issued) lease);
    spent = λ i h. o.spent i (omega (arith, h));
  })

  Grants-IsOff :
      {s t : State} (lease : String) → Grants policy lease_id s t → IsOff lease s → IsOff lease t
  Grants-IsOff lease here o = o
  Grants-IsOff lease (next r g) o = Granted-IsOff lease g (Grants-IsOff lease r o)

  Granted-keeps :
      {s t : State} (m : String) (e : LeaseEntry)
      → Granted policy lease_id s t
      → IsLeased policy lease_id s
      → Dict.get m s.active ≡ some e
      → Dict.get m t.active ≡ some e
  unfolding grant
  Granted-keeps {s} {t} m e g i h = rw g.result (
      get-put (lease_id s.issued) m (g.workspace, g.choice.waiter.key) s.active
      ∙ differs (lease_id s.issued == m) refl)
    where
      differs :
          (b : Bool)
          → lease_id s.issued == m ≡ b
          → (if b then some (g.workspace, g.choice.waiter.key) else Dict.get m s.active) ≡ some e
      differs false c = h
      differs true c =
          cc (i.fresh s.issued (omega arith), h, ap (λ x. Dict.get x s.active) ((eq_iff _ _).0 c))

  module _ (inj : (m n : ℕ) → lease_id m ≡ lease_id n → m ≡ n) where
    Grants-keeps :
        {s t : State} (m : String) (e : LeaseEntry)
        → Grants policy lease_id s t
        → IsQueued s
        → IsLeased policy lease_id s
        → Dict.get m s.active ≡ some e
        → Dict.get m t.active ≡ some e
    Grants-keeps m e here q i h = h
    Grants-keeps m e (next r g) q i h =
        Granted-keeps m e g (Grants-IsLeased policy lease_id inj q i r) (Grants-keeps m e r q i h)

    -- The end of a release of an active lease.
    release-ends :
        {s : State} (lease : String) (e : LeaseEntry)
        → Reach policy lease_id s
        → Dict.get lease s.active ≡ some e
        → (Dict.get lease (release policy lease_id lease s).active ≡ none)
          × ((m : String) (x : LeaseEntry)
              → m ≢ lease
              → Dict.get m s.active ≡ some x
              → Dict.get m (release policy lease_id lease s).active ≡ some x)
    unfolding release drop_lease
    release-ends {s} lease (ws, k) r h =
        let sound = Reach-IsSound policy lease_id inj r in
        let dropped = drop_lease policy lease_id lease ws s in
        let q = drop_lease-IsQueued policy lease_id lease ws s sound.queues in
        let i = drop_lease-IsLeased policy lease_id s sound.leased lease ws k h in
        let (grants, _) = grant_waiters_lem policy lease_id dropped q in
        let off : IsOff lease dropped = record {
          off = get-remove lease lease s.active sound.leased.unique ∙ rw eq_refl refl;
          spent = λ j m same. cc (sound.leased.fresh j m, h, ap (λ x. Dict.get x s.active) same);
        } in
        rw (h, release)
          (
            (Grants-IsOff lease grants off).off,
            λ m x differs g. Grants-keeps m x grants q i (
                get-remove lease m s.active sound.leased.unique
                ∙ ground (arith, g, differs, eq_iff lease m)),
          )

    -- In a reachable state, where lease ids do not repeat, the first release of an active lease answers
    -- `True`, takes the lease off, and leaves all other active leases; any later release answers `False`
    -- and changes nothing.
    pub release_lease-GaveBack :
        {s : State} (lease : String) (e : LeaseEntry)
        → Reach policy lease_id s
        → Dict.get lease s.active ≡ some e
        → GaveBack lease s
            (release_lease policy lease_id (record { lease = lease; released = false }) s)
    unfolding release_lease
    release_lease-GaveBack {s} lease e r h =
        let (off, others) = release-ends lease e r h in
        record { answered = refl; taken_off = off; others = others; once = λ u. refl }
