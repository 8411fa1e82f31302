-- ===== src/Scheduler/Safety.antt =====
-- What the scheduler of app/services/process_scheduler.py promises in every reachable state.
use test_gpt_local.Prelude.{
  ℕ, ◌≤◌, ◌<◌, String, ◌≡◌, ◌≢◌, refl, ap, true, false, inl, inr, Option, none, some, List, [], ◌∷◌,
  arith, length, Bool-cases,
}
use test_gpt_local.Prelude.Text.{eq_iff}
use test_gpt_local.Prelude.Dict
use test_gpt_local.Prelude.Dict.{Dict, or_else}
use test_gpt_local.Scheduler.Keys.{
  ConcurrencyKey, conflicts_with, conflicts_with_comm, QueuePolicy, IsPolicy,
}
use test_gpt_local.Scheduler.State.{Waiter, State, front, any_conflict, free_of_conflict, eligible}
use test_gpt_local.Scheduler.Queues.{has, mem-count}
use test_gpt_local.Scheduler.Leases.{held, IsExclusive, Active}
use test_gpt_local.Scheduler.Reach.{Reach, Reach-IsSound}

any_conflict-get :
    (k j : ConcurrencyKey) (d : Active) (lease ws : String)
    → any_conflict k d ≡ false
    → Dict.get lease d ≡ some (ws, some j)
    → conflicts_with k j ≡ false
unfolding any_conflict Dict.get
any_conflict-get k j [] lease ws h e = cc
any_conflict-get k j ((l, (v, none)) ∷ d) lease ws h e =
    ground (arith, any_conflict-get k j d lease ws)
any_conflict-get k j ((l, (v, some i)) ∷ d) lease ws h e =
    ground (arith, any_conflict-get k j d lease ws)

IsExclusive-get :
    (d : Active) (l m v w : String) (k j : ConcurrencyKey)
    → IsExclusive d
    → l ≢ m
    → Dict.get l d ≡ some (v, some k)
    → Dict.get m d ≡ some (w, some j)
    → conflicts_with k j ≡ false
unfolding Dict.get free_of_conflict
IsExclusive-get [] l m v w k j x n e f = cc
IsExclusive-get ((i, (u, none)) ∷ d) l m v w k j x n e f =
    ground (arith, IsExclusive-get d l m v w k j x.1 n)
IsExclusive-get ((i, (u, some h)) ∷ d) l m v w k j x n e f = ground (
  arith,
  IsExclusive-get d l m v w k j x.1 n,
  any_conflict-get h j d m w,
  any_conflict-get h k d l v,
  conflicts_with_comm h k,
  conflicts_with_comm h j,
  eq_iff i l,
  eq_iff i m,
)

has-front : (o : Option (List Waiter)) (w : Waiter) → front o ≡ some w → has o ≡ 1
has-front none w e = cc
has-front (some q) w e = refl

free_of_conflict-nil : (k : Option ConcurrencyKey) → free_of_conflict k [] ≡ true
unfolding free_of_conflict
free_of_conflict-nil none = refl
free_of_conflict-nil (some k) = refl

eligible_when_idle :
    (policy : QueuePolicy) (s : State) (w : Waiter)
    → s.active ≡ []
    → IsPolicy policy
    → or_else (Dict.get w.workspace_id s.active_by_workspace) 0 ≡ held w.workspace_id s.active
    → eligible policy s w ≡ true
unfolding eligible held
eligible_when_idle policy s w e p h =
    let zero_held : or_else (Dict.get w.workspace_id s.active_by_workspace) 0 ≡ 0 = rw e at h in
    ground (arith, zero_held, ap (free_of_conflict w.key) e, free_of_conflict-nil w.key)

module _ (policy : QueuePolicy) (lease_id : ℕ → String)
    (inj : (m n : ℕ) → lease_id m ≡ lease_id n → m ≡ n) {s : State}
    (r : Reach policy lease_id s) where
  -- In a reachable state, where lease ids do not repeat, the active leases do not pass the global
  -- limit, nor those of a workspace the workspace's limit.
  pub Reach-le-limits :
      (length s.active ≤ policy.global_limit)
      × ((ws : String) → held ws s.active ≤ policy.per_workspace_limit)
  Reach-le-limits = let i = (Reach-IsSound policy lease_id inj r).leased in (i.total, i.quota)

  -- In a reachable state, where lease ids do not repeat, two different active leases with keys have no
  -- keys that conflict.
  pub Reach-conflict_free :
      (l m v w : String) (k j : ConcurrencyKey)
      → l ≢ m
      → Dict.get l s.active ≡ some (v, some k)
      → Dict.get m s.active ≡ some (w, some j)
      → conflicts_with k j ≡ false
  Reach-conflict_free l m v w k j =
      IsExclusive-get s.active l m v w k j (Reach-IsSound policy lease_id inj r).leased.exclusive

  -- No wake-up is lost: in a reachable state with a free slot, where lease ids do not repeat, no waiter
  -- at the head of its queue is eligible.
  pub Reach-work_conserving :
      (ws : String) (w : Waiter)
      → length s.active < policy.global_limit
      → front (Dict.get ws s.queues) ≡ some w
      → eligible policy s w ≡ false
  Reach-work_conserving ws w room h =
      let i = Reach-IsSound policy lease_id inj r in
      elim (Bool-cases (eligible policy s w)) [
        | inl b ↦ elim i.quiet [
          | inl full ↦ absurd (omega arith)
          | inr idle ↦ absurd (
              idle ws w
                (mem-count ws s.order
                  (omega (arith, i.queues.ordered ws, has-front (Dict.get ws s.queues) w h)))
                (h, b))
        ]
        | inr b ↦ b
      ]

  -- The scheduler does not block: in a reachable state, where lease ids do not repeat and the policy has
  -- 1 ≤ per workspace ≤ global, a lease is active if a waiter is at the head of a queue.
  pub Reach-not_stuck :
      (ws : String) (w : Waiter)
      → IsPolicy policy
      → front (Dict.get ws s.queues) ≡ some w
      → s.active ≢ []
  Reach-not_stuck ws w p h idle =
      let i = (Reach-IsSound policy lease_id inj r).leased in
      cc (
        eligible_when_idle policy s w idle p (i.counted w.workspace_id),
        Reach-work_conserving ws w (rw idle (omega (arith, p.ordered, p.positive))) h,
      )
