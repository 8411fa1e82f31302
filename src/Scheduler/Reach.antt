-- ===== src/Scheduler/Reach.antt =====
-- What holds in every state that calls of `acquire` and `release` can reach, whatever the order in
-- which the threads make them (app/services/process_scheduler.py).
use test_gpt_local.Prelude.{
  ℕ, String, ◌≡◌, refl, ◌⊎◌, inl, inr, Option, none, some, List, [], ◌∷◌, arith, All, Option-cases,
}
use test_gpt_local.Prelude.Int.{ℤ}
use test_gpt_local.Prelude.Dict
use test_gpt_local.Prelude.Dict.{Dict, or_else, IsUnique, get-put, get-remove}
use test_gpt_local.Prelude.Result.{ok}
use test_gpt_local.Scheduler.Keys.{ConcurrencyKey, QueuePolicy}
use test_gpt_local.Scheduler.State.{Waiter, State, empty, set_queue, grant_waiters}
use test_gpt_local.Scheduler.Operations.{
  Ticket, enqueue, without_waiter, remove_from, remove_waiter, request, poll, wake, drop_lease,
  release,
}
use test_gpt_local.Scheduler.Queues.{count, IsQueued, set_queue-IsQueued, enqueue-IsQueued}
use test_gpt_local.Scheduler.Leases.{held, IsLeased, drop_lease-IsLeased}
use test_gpt_local.Scheduler.Granting.{Quiet, grant_waiters_lem, Grants-IsQueued, Grants-IsLeased}

without_waiter-cons :
    (w v : Waiter) (q r : List Waiter)
    → without_waiter w (v ∷ q) ≡ some r
    → (r ≡ q) ⊎ ((r' : List Waiter) × (without_waiter w q ≡ some r') × (r ≡ v ∷ r'))
unfolding without_waiter
without_waiter-cons w v q r e = ground arith

without_waiter-All :
    (P : Waiter → Type 0) (w : Waiter) (q r : List Waiter)
    → without_waiter w q ≡ some r
    → All P q
    → All P r
unfolding without_waiter
without_waiter-All P w [] r e a = cc
without_waiter-All P w (v ∷ q) r e a = elim (without_waiter-cons w v q r e) [
  | inl same ↦ rw same a.1
  | inr (r', f, same) ↦ rw same (a.0, without_waiter-All P w q r' f a.1)
]

module _ (policy : QueuePolicy) (lease_id : ℕ → String) where
  -- One turn of a thread under the lock.
  pub data Step (s : State) : State → Type 0 where
    requested :
        (workspace : String) (key : Option ConcurrencyKey) (priority : ℤ) (timeout : Option ℤ)
        (now : ℕ) (t : Ticket) {u : State}
        → request policy lease_id workspace key priority timeout now s ≡ ok (t, u)
        → Step s u
    polled : (t : Ticket) (now : ℕ) → Step s (poll policy lease_id t now s).1
    woken : Step s (wake policy lease_id s)
    released : (lease : String) → Step s (release policy lease_id lease s)

  pub data Reach : State → Type 0 where
    start : Reach empty
    step : {s t : State} → Reach s → Step s t → Reach t

  pub record IsSound (s : State) : Type 0 where
    pub leased : IsLeased policy lease_id s
    pub queues : IsQueued s
    pub quiet : Quiet policy lease_id s

  IsLeased-queues :
      (s t : State)
      → t.active ≡ s.active
      → t.active_by_workspace ≡ s.active_by_workspace
      → t.issued ≡ s.issued
      → IsLeased policy lease_id s
      → IsLeased policy lease_id t
  IsLeased-queues s t a b c i = record {
    unique = rw a i.unique;
    unique_counts = rw b i.unique_counts;
    fresh = λ n h. rw a (i.fresh n (rw c at h));
    counted = λ ws. rw (a, b) (i.counted ws);
    quota = λ ws. rw a (i.quota ws);
    total = rw a i.total;
    exclusive = rw a i.exclusive;
  }

  empty-IsSound : IsSound empty
  unfolding Dict.get held count
  empty-IsSound = record {
    leased = record {
      unique = tt;
      unique_counts = tt;
      fresh = λ i h. refl;
      counted = λ ws. refl;
      quota = λ ws. omega arith;
      total = omega arith;
      exclusive = tt;
    };
    queues = record {
      unique = tt;
      nonempty = λ ws e. cc;
      own = λ ws q e. cc;
      ordered = λ ws. refl;
    };
    quiet = inr (λ v u m k. cc k.0);
  }

  set_queue-IsLeased :
      (ws : String) (q : List Waiter) (s : State)
      → IsLeased policy lease_id s
      → IsLeased policy lease_id (set_queue ws q s)
  unfolding set_queue
  set_queue-IsLeased ws [] s i = IsLeased-queues s _ refl refl refl i
  set_queue-IsLeased ws (w ∷ q) s i = IsLeased-queues s _ refl refl refl i

  -- A waiter that gives up leaves its queue, and nothing else changes.
  remove_from-keeps :
      (w : Waiter) (o : Option (List Waiter)) (s : State)
      → Dict.get w.workspace_id s.queues ≡ o
      → IsLeased policy lease_id s
      → IsQueued s
      → IsLeased policy lease_id (remove_from w o s) × IsQueued (remove_from w o s)
  unfolding remove_from
  remove_from-keeps w none s e i q = (i, q)
  remove_from-keeps w (some queue) s e i q = elim (Option-cases (without_waiter w queue)) [
    | inl f ↦ rw (f, remove_from) (i, q)
    | inr (r, f) ↦
        rw (f, remove_from)
          (
            set_queue-IsLeased w.workspace_id r s i,
            set_queue-IsQueued s q w.workspace_id queue r e (
                without_waiter-All (λ v. v.workspace_id ≡ w.workspace_id) w queue r f
                  (q.own w.workspace_id queue e)),
          )
  ]

  remove_waiter-keeps :
      (w : Waiter) (s : State)
      → IsLeased policy lease_id s
      → IsQueued s
      → IsLeased policy lease_id (remove_waiter w s) × IsQueued (remove_waiter w s)
  unfolding remove_waiter
  remove_waiter-keeps w s i q = remove_from-keeps w (Dict.get w.workspace_id s.queues) s refl i q

  request-state :
      (ws : String) (key : Option ConcurrencyKey) (priority : ℤ) (timeout : Option ℤ) (now : ℕ)
      (s : State) (t : Ticket) (u : State)
      → request policy lease_id ws key priority timeout now s ≡ ok (t, u)
      → u ≡ grant_waiters policy lease_id (enqueue t.waiter s)
  unfolding request
  request-state ws key priority timeout now s t u e = ground arith

  poll-state :
      (t : Ticket) (now : ℕ) (s : State)
      → ((poll policy lease_id t now s).1 ≡ s)
        ⊎ ((poll policy lease_id t now s).1
            ≡ grant_waiters policy lease_id (remove_waiter t.waiter s))
  unfolding poll
  poll-state t now s = ground arith

  pub drop_lease-IsQueued :
      (lease ws : String) (s : State)
      → IsQueued s
      → IsQueued (drop_lease policy lease_id lease ws s)
  unfolding drop_lease
  drop_lease-IsQueued lease ws s q = record {
    unique = q.unique;
    nonempty = q.nonempty;
    own = q.own;
    ordered = q.ordered;
  }

  module _ (inj : (m n : ℕ) → lease_id m ≡ lease_id n → m ≡ n) where
    -- The grants at the end of an operation make its state sound.
    grant_waiters-IsSound :
        (s : State)
        → IsLeased policy lease_id s
        → IsQueued s
        → IsSound (grant_waiters policy lease_id s)
    grant_waiters-IsSound s i q =
        let (r, quiet) = grant_waiters_lem policy lease_id s q in
        record {
          leased = Grants-IsLeased policy lease_id inj q i r;
          queues = Grants-IsQueued policy lease_id q r;
          quiet = quiet;
        }

    request-IsSound :
        (ws : String) (key : Option ConcurrencyKey) (priority : ℤ) (timeout : Option ℤ) (now : ℕ)
        (s : State) (t : Ticket) (u : State)
        → request policy lease_id ws key priority timeout now s ≡ ok (t, u)
        → IsSound s
        → IsSound u
    request-IsSound ws key priority timeout now s t u e i =
        rw (request-state ws key priority timeout now s t u e) (
          grant_waiters-IsSound (enqueue t.waiter s)
            (IsLeased-queues s (enqueue t.waiter s) (unfold enqueue in refl)
              (unfold enqueue in refl) (unfold enqueue in refl) i.leased)
            (enqueue-IsQueued s i.queues t.waiter))

    poll-IsSound :
        (t : Ticket) (now : ℕ) (s : State) → IsSound s → IsSound (poll policy lease_id t now s).1
    poll-IsSound t now s i = elim (poll-state t now s) [
      | inl e ↦ rw e i
      | inr e ↦
          let (l, q) = remove_waiter-keeps t.waiter s i.leased i.queues in
          rw e (grant_waiters-IsSound (remove_waiter t.waiter s) l q)
    ]

    release-IsSound :
        (lease : String) (s : State) → IsSound s → IsSound (release policy lease_id lease s)
    unfolding release
    release-IsSound lease s i = elim (Option-cases (Dict.get lease s.active)) [
      | inl e ↦ rw (e, release) i
      | inr ((ws, k), e) ↦
          rw (e, release)
            (grant_waiters-IsSound _ (drop_lease-IsLeased policy lease_id s i.leased lease ws k e)
              (drop_lease-IsQueued lease ws s i.queues))
    ]

    Step-IsSound : {s t : State} → Step s t → IsSound s → IsSound t
    Step-IsSound {s} (requested ws key priority timeout now t {u} e) i =
        request-IsSound ws key priority timeout now s t u e i
    Step-IsSound {s} (polled t now) i = poll-IsSound t now s i
    Step-IsSound {s} woken i = unfold wake in grant_waiters-IsSound s i.leased i.queues
    Step-IsSound {s} (released lease) i = release-IsSound lease s i

    pub Reach-IsSound : {s : State} → Reach s → IsSound s
    Reach-IsSound start = empty-IsSound
    Reach-IsSound (step r st) = Step-IsSound st (Reach-IsSound r)
