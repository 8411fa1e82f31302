-- ===== src/Scheduler/Operations.antt =====
-- `acquire`, `release`, `snapshot` and `ProcessLease` of app/services/process_scheduler.py.
use test_gpt_local.Prelude.{
  ℕ, ◌+◌, ◌-◌, String, Bool, true, false, ◌&&◌, Option, none, some, List, [], ◌∷◌, ◌++◌, leb,
  if◌then◌else◌, length, ◌==◌ as nat_eq,
}
use test_gpt_local.Prelude.Int.{ℤ, pos, ltbℤ, eqℤ, pos_part}
use test_gpt_local.Prelude.Text.{◌==◌, is_blank}
use test_gpt_local.Prelude.Dict
use test_gpt_local.Prelude.Dict.{Dict, or_else}
use test_gpt_local.Prelude.Result.{Result, ok, raise_if, ◌>>◌}
use test_gpt_local.Scheduler.Keys.{
  ConcurrencyKey, AccessMode, read, write, QueuePolicy, ValueError, empty_workspace,
  negative_timeout,
}
use test_gpt_local.Scheduler.State.{Waiter, State, queued, set_queue, grant_waiters}

-- The thread's side of a call of `acquire` that waits.
pub record Ticket : Type 0 where
  pub waiter : Waiter
  pub deadline : ℕ

pub data Outcome : Type 0 where
  leased : (lease_id : String) → Outcome
  queue_timeout waiting : Outcome

key_eq : Option ConcurrencyKey → Option ConcurrencyKey → Bool
key_eq none none = true
key_eq (some k) (some l) = k.scope == l.scope && k.resource == l.resource && mode_eq k.mode l.mode
  where
    mode_eq : AccessMode → AccessMode → Bool
    mode_eq read read = true
    mode_eq write write = true
    mode_eq _ _ = false
key_eq _ _ = false

-- The dataclass equality of two waiters, by all fields.
same_waiter : Waiter → Waiter → Bool
unfolding key_eq
same_waiter v w =
    v.workspace_id == w.workspace_id
    && key_eq v.key w.key
    && eqℤ v.priority w.priority
    && nat_eq v.sequence w.sequence

keep : Waiter → Option (List Waiter) → Option (List Waiter)
keep v none = none
keep v (some rest) = some (v ∷ rest)

-- `queue.remove(waiter)`; `none` where it raises `ValueError`
unfoldable pub without_waiter : Waiter → List Waiter → Option (List Waiter)
unfolding keep same_waiter
without_waiter w [] = none
without_waiter w (v ∷ q) =
    let rest = keep v (without_waiter w q) in if same_waiter v w then some q else rest

unfoldable pub remove_from : Waiter → Option (List Waiter) → State → State
unfolding without_waiter set_queue
remove_from w none s = s
remove_from w (some queue) s = elim (without_waiter w queue) [
  | none ↦ s
  | some q ↦ set_queue w.workspace_id q s
]

unfoldable pub remove_waiter : Waiter → State → State
unfolding remove_from
remove_waiter w s = remove_from w (Dict.get w.workspace_id s.queues) s

-- `waiter.granted`, with the lease id
lease_of : ℕ → List (ℕ × String) → Option String
lease_of n [] = none
lease_of n ((m, lease) ∷ granted) = if nat_eq m n then some lease else lease_of n granted

-- `_workspace_order.append` where the workspace had no waiter
unfoldable pub enqueue_order : String → List Waiter → List String → List String
enqueue_order workspace [] order = order ++ workspace ∷ []
enqueue_order workspace (w ∷ q) order = order

unfoldable pub enqueue : Waiter → State → State
unfolding enqueue_order
enqueue w s =
    let queue = or_else (Dict.get w.workspace_id s.queues) [] in
    record s {
      sequence = w.sequence;
      order = enqueue_order w.workspace_id queue s.order;
      queues = Dict.put w.workspace_id (queue ++ w ∷ []) s.queues;
    }

pub record ProcessLease : Type 0 where
  pub lease : String
  pub released : Bool

module _ (policy : QueuePolicy) (lease_id : ℕ → String) where
  -- `acquire` up to its loop; `now` is the clock's reading.
  unfoldable pub request :
      String
      → Option ConcurrencyKey
      → ℤ
      → Option ℤ
      → (now : ℕ) → State
      → Result ValueError (Ticket × State)
  unfolding enqueue
  request workspace key priority timeout_seconds now s = do
    raise_if (is_blank workspace) empty_workspace
    let timeout = or_else timeout_seconds (pos policy.queue_timeout)
    raise_if (ltbℤ timeout (pos 0)) negative_timeout
    let w =
        let w' : Waiter = record {
          workspace_id = workspace;
          key = key;
          priority = priority;
          sequence = s.sequence + 1;
        } in
        w'
    ok (
      record { waiter = w; deadline = now + pos_part timeout },
      grant_waiters policy lease_id (enqueue w s),
    )

  -- The loop of `acquire` up to its wait or its end.
  unfoldable pub poll : Ticket → (now : ℕ) → State → Outcome × State
  unfolding lease_of remove_waiter
  poll t now s = elim (lease_of t.waiter.sequence s.granted) [
    | some lease ↦ (leased lease, s)
    | none ↦
        if leb t.deadline now
        then (queue_timeout, grant_waiters policy lease_id (remove_waiter t.waiter s))
        else (waiting, s)
  ]

  -- What `acquire` does when its wait ends, before it polls again.
  unfoldable pub wake : State → State
  wake s = grant_waiters policy lease_id s

  -- Takes the lease off, with its workspace's count.
  unfoldable pub drop_lease : String → String → State → State
  drop_lease lease workspace s =
      let current = or_else (Dict.get workspace s.active_by_workspace) 0 in
      record s {
        active = Dict.remove lease s.active;
        active_by_workspace =
            if leb current 1
            then Dict.remove workspace s.active_by_workspace
            else Dict.put workspace (current - 1) s.active_by_workspace;
      }

  unfoldable pub release : String → State → State
  unfolding drop_lease
  release lease s = elim (Dict.get lease s.active) [
    | none ↦ s
    | some (workspace, _) ↦ grant_waiters policy lease_id (drop_lease lease workspace s)
  ]

  -- `ProcessLease.release`, which `__exit__` calls
  unfoldable pub release_lease : ProcessLease → State → Bool × ProcessLease × State
  unfolding release
  release_lease l s =
      if l.released then (false, l, s) else (true, record l { released = true }, release l.lease s)

-- The counts of `snapshot`
pub record Snapshot : Type 0 where
  pub active : ℕ
  pub queued : ℕ
  pub active_by_workspace : Dict ℕ
  pub queued_by_workspace : Dict ℕ

queue_lengths : Dict (List Waiter) → Dict ℕ
queue_lengths [] = []
queue_lengths ((workspace, []) ∷ queues) = queue_lengths queues
queue_lengths ((workspace, w ∷ q) ∷ queues) = (workspace, length (w ∷ q)) ∷ queue_lengths queues

unfoldable pub snapshot : State → Snapshot
unfolding queue_lengths
snapshot s = record {
  active = length s.active;
  queued = queued s.queues;
  active_by_workspace = s.active_by_workspace;
  queued_by_workspace = queue_lengths s.queues;
}
