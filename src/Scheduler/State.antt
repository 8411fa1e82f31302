-- ===== src/Scheduler/State.antt =====
-- The state and the operations of `ProcessScheduler` (app/services/process_scheduler.py).
-- Every operation runs under the scheduler's lock, so it is one function on the state. A wait gives
-- the lock up: `request`, `poll` and `wake` are the parts of `acquire` between its waits.
use test_gpt_local.Prelude.{
  ℕ, zero, suc, ◌+◌, String, Bool, true, false, ◌||◌, not, Option, none, some, List, [], ◌∷◌, ◌++◌,
  ltb, leb, if◌then◌else◌, length,
}
use test_gpt_local.Prelude.Int.{ℤ, ltbℤ, eqℤ}
use test_gpt_local.Prelude.Text.{◌==◌, mem}
use test_gpt_local.Prelude.Dict
use test_gpt_local.Prelude.Dict.{Dict, or_else}
use test_gpt_local.Scheduler.Keys.{ConcurrencyKey, conflicts_with, QueuePolicy}

pub record Waiter : Type 0 where
  pub workspace_id : String
  pub key : Option ConcurrencyKey
  pub priority : ℤ
  pub sequence : ℕ

-- `queues`, `order`, `active` and `active_by_workspace` are the fields of the same names. A waiter
-- that was granted is in no queue: `granted` keeps the lease id that was written into it, for the
-- thread that holds it. `issued` counts the calls of `secrets.token_hex`.
pub record State : Type 0 where
  pub queues : Dict (List Waiter)
  pub order : List String
  pub active : Dict (String × Option ConcurrencyKey)
  pub active_by_workspace : Dict ℕ
  pub sequence : ℕ
  pub granted : List (ℕ × String)
  pub issued : ℕ

abbrev pub empty : State
empty = record {
  queues = [];
  order = [];
  active = [];
  active_by_workspace = [];
  sequence = 0;
  granted = [];
  issued = 0;
}

-- `deque.remove`, and nothing where it raises `ValueError`
unfoldable pub erase : String → List String → List String
erase a [] = []
erase a (x ∷ xs) = if x == a then xs else x ∷ erase a xs

-- The first waiter of a queue, if the queue is there and not empty.
abbrev pub front : Option (List Waiter) → Option Waiter
front none = none
front (some []) = none
front (some (w ∷ q)) = some w

-- `active_key is not None and key.conflicts_with(active_key)`, for some active lease
unfoldable pub any_conflict : ConcurrencyKey → Dict (String × Option ConcurrencyKey) → Bool
unfolding conflicts_with
any_conflict k [] = false
any_conflict k ((lease, (workspace, none)) ∷ active) = any_conflict k active
any_conflict k ((lease, (workspace, some l)) ∷ active) = conflicts_with k l || any_conflict k active

unfoldable pub free_of_conflict :
    Option ConcurrencyKey → Dict (String × Option ConcurrencyKey) → Bool
unfolding any_conflict
free_of_conflict none active = true
free_of_conflict (some k) active = not (any_conflict k active)

unfoldable pub larger : ℤ → ℤ → ℤ
larger p q = if ltbℤ p q then q else p

-- `max` over the waiters' priorities, from that of the first
unfoldable pub highest : ℤ → List (String × Waiter) → ℤ
unfolding larger
highest p [] = p
highest p ((workspace, w) ∷ rest) = highest (larger p w.priority) rest

-- The workspaces of the waiters with the given priority.
unfoldable pub with_priority : ℤ → List (String × Waiter) → List String
with_priority p [] = []
with_priority p ((workspace, w) ∷ rest) =
    let others = with_priority p rest in if eqℤ w.priority p then workspace ∷ others else others

-- The loop that turns the order until a chosen workspace was moved to the back.
unfoldable pub rotate : ℕ → List String → List String → List String × Option String
rotate zero chosen order = (order, none)
rotate (suc n) chosen [] = ([], none)
rotate (suc n) chosen (workspace ∷ rest) =
    let more = rotate n chosen (rest ++ workspace ∷ []) in
    if mem workspace chosen then (rest ++ workspace ∷ [], some workspace) else more

-- The number of queued waiters.
unfoldable pub queued : Dict (List Waiter) → ℕ
queued [] = 0
queued ((workspace, q) ∷ queues) = length q + queued queues

unfoldable pub remove_workspace_from_order : String → State → State
unfolding erase
remove_workspace_from_order workspace s = record s { order = erase workspace s.order }

-- A queue that has become empty is dropped, and its workspace leaves the order.
unfoldable pub set_queue : String → List Waiter → State → State
unfolding remove_workspace_from_order
set_queue workspace [] s =
    remove_workspace_from_order workspace (record s { queues = Dict.remove workspace s.queues })
set_queue workspace (w ∷ q) s = record s { queues = Dict.put workspace (w ∷ q) s.queues }

abbrev pub tail : List Waiter → List Waiter
tail [] = []
tail (w ∷ q) = q

module _ (policy : QueuePolicy) where
  unfoldable pub eligible : State → Waiter → Bool
  unfolding free_of_conflict
  eligible s w =
      if leb policy.per_workspace_limit (or_else (Dict.get w.workspace_id s.active_by_workspace) 0)
      then false
      else free_of_conflict w.key s.active

  -- One round of the loop over the order: the head of a workspace's queue, if it is eligible.
  unfoldable pub consider :
      State → String → Option Waiter → List (String × Waiter) → List (String × Waiter)
  consider s workspace none others = others
  consider s workspace (some w) others = if eligible s w then (workspace, w) ∷ others else others

  -- The eligible waiters at the heads of the queues, in the order of the workspaces.
  unfoldable pub eligible_heads : State → List String → List (String × Waiter)
  unfolding consider
  eligible_heads s [] = []
  eligible_heads s (workspace ∷ order) =
      consider s workspace (front (Dict.get workspace s.queues)) (eligible_heads s order)

  unfoldable pub turn : State → List (String × Waiter) → List String × Option String
  unfolding highest with_priority rotate mem
  turn s [] = (s.order, none)
  turn s ((workspace, w) ∷ rest) =
      rotate (length s.order) (with_priority (highest w.priority rest) ((workspace, w) ∷ rest))
        s.order

  -- Turns the order, and names the workspace that is served next.
  unfoldable pub next_candidate : State → List String × Option String
  unfolding eligible_heads eligible turn
  next_candidate s = turn s (eligible_heads s s.order)

-- The body of the loop of `_grant_waiters`, once a candidate was found.
unfoldable pub grant : (ℕ → String) → String → Waiter → State → State
unfolding set_queue
grant lease_id workspace w s =
    let s' = set_queue workspace (tail (or_else (Dict.get workspace s.queues) [])) s in
    record s' {
      active = Dict.put (lease_id s.issued) (workspace, w.key) s.active;
      active_by_workspace =
          Dict.put workspace (or_else (Dict.get workspace s.active_by_workspace) 0 + 1)
            s.active_by_workspace;
      granted = (w.sequence, lease_id s.issued) ∷ s.granted;
      issued = s.issued + 1;
    }

-- What a round of the loop does with the choice. The served queue has a head, as the choice comes
-- from it; where it had none the source would raise.
unfoldable pub serve_head : (ℕ → String) → String → Option Waiter → State → State × Bool
unfolding grant
serve_head lease_id workspace none s = (s, false)
serve_head lease_id workspace (some w) s = (grant lease_id workspace w s, true)

unfoldable pub serve : (ℕ → String) → State → List String × Option String → State × Bool
unfolding serve_head
serve lease_id s (order, none) = (record s { order = order }, false)
serve lease_id s (order, some workspace) =
    serve_head lease_id workspace (front (Dict.get workspace s.queues)) (record s { order = order })

module _ (policy : QueuePolicy) (lease_id : ℕ → String) where
  -- One round of the loop: `false` where it returns.
  unfoldable pub grant_round : State → State × Bool
  unfolding next_candidate serve
  grant_round s =
      if ltb (length s.active) policy.global_limit
      then serve lease_id s (next_candidate policy s)
      else (s, false)

  -- The loop, on fuel.
  unfoldable pub grant_rounds : ℕ → State → State
  unfolding grant_round
  grant_rounds zero s = s
  grant_rounds (suc fuel) s = elim (grant_round s).1 [
    | true ↦ grant_rounds fuel (grant_round s).0
    | false ↦ (grant_round s).0
  ]

  -- Every round but the last takes one waiter off a queue.
  unfoldable pub grant_waiters : State → State
  unfolding grant_rounds queued
  grant_waiters s = grant_rounds (suc (queued s.queues)) s
