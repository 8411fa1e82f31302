-- ===== src/Scheduler/Granting.antt =====
-- The loop of `_grant_waiters` of app/services/process_scheduler.py: each round serves the choice,
-- and the loop goes on until there is no slot or no eligible head.
use test_gpt_local.Prelude.{
  ℕ, zero, suc, ◌≤◌, ◌<◌, String, ◌≡◌, refl, ap, Bool, true, false, ◌⊎◌, inl, inr, Option, none,
  some, List, [], ◌∷◌, arith, ltb, length, Bool-cases,
}
use test_gpt_local.Prelude.Dict
use test_gpt_local.Prelude.Dict.{Dict, or_else, IsUnique, get-put, get-remove}
use test_gpt_local.Scheduler.Keys.{QueuePolicy}
use test_gpt_local.Scheduler.State.{
  Waiter, State, front, tail, queued, eligible, grant, serve, grant_round, grant_rounds,
  grant_waiters,
}
use test_gpt_local.Scheduler.Choice.{Choice, Idle, Decides, next_candidate-Decides}
use test_gpt_local.Scheduler.Queues.{
  count, count_turned, IsQueued, set_queue-IsQueued, queued-set_queue, reorder-IsQueued,
}
use test_gpt_local.Scheduler.Leases.{IsLeased, grant-IsLeased}

module _ (policy : QueuePolicy) (lease_id : ℕ → String) where
  -- One grant: the choice is served, while there is room.
  pub record Granted (s t : State) : Type 0 where
    pub workspace : String
    pub order : List String
    pub choice : Choice policy s order workspace
    pub room : length s.active < policy.global_limit
    pub result : t ≡ grant lease_id workspace choice.waiter (record s { order = order })

  -- Any number of grants.
  pub data Grants (s : State) : State → Type 0 where
    here : Grants s s
    next : {t u : State} → Grants s t → Granted t u → Grants s u

  -- There is no slot left, or no waiter at the head of a queue is eligible.
  abbrev pub Quiet : State → Type 0
  Quiet s = (policy.global_limit ≤ length s.active) ⊎ Idle policy s

  prepend : {s t u : State} → Granted s t → Grants t u → Grants s u
  prepend g here = next here g
  prepend g (next r h) = next (prepend g r) h

  abbrev Round : State → State × Bool → Type 0
  Round s r = ((r.1 ≡ true) × Granted s r.0) ⊎ ((r.1 ≡ false) × (r.0 ≡ s) × Quiet s)

  serve_lem :
      (s : State) (r : List String × Option String)
      → length s.active < policy.global_limit
      → Decides policy s r
      → Round s (serve lease_id s r)
  unfolding serve
  serve_lem s (order, none) room (inl (ws, e, c)) = cc
  serve_lem s (order, none) room (inr (e, f, idle)) =
      inr (refl, ap (λ o. record s { order = o }) f, inr idle)
  serve_lem s (order, some v) room (inr (e, f, idle)) = cc
  serve_lem s (order, some v) room (inl (ws, e, c)) =
      let same : v ≡ ws = cc e in
      let head : front (Dict.get v s.queues) ≡ some c.waiter = rw same c.is_head.0 in
      rw head (
        inl (
          refl,
          record {
            workspace = ws;
            order = order;
            choice = c;
            room = room;
            result = ap (λ x. grant lease_id x c.waiter (record s { order = order })) same;
          },
        ))

  grant_round_lem : (s : State) → Round s (grant_round policy lease_id s)
  unfolding grant_round
  grant_round_lem s = elim (Bool-cases (ltb (length s.active) policy.global_limit)) [
    | inl b ↦ rw b (serve_lem s _ (ground arith) (next_candidate-Decides policy s))
    | inr b ↦ rw b (inr (refl, refl, inl (ground arith)))
  ]

  front-tail :
      (o : Option (List Waiter)) (w : Waiter)
      → front o ≡ some w
      → o ≡ some (w ∷ tail (or_else o []))
  front-tail none w e = cc
  front-tail (some []) w e = cc
  front-tail (some (u ∷ q)) w e = cc

  module _ {s t : State} (g : Granted s t) where
    -- The state in which the waiter is served, and the queue that it heads.
    abbrev turned : State
    turned = record s { order = g.order }

    pub served :
        Dict.get g.workspace s.queues
        ≡ some (g.choice.waiter ∷ tail (or_else (Dict.get g.workspace s.queues) []))
    served = front-tail (Dict.get g.workspace s.queues) g.choice.waiter g.choice.is_head.0

    count-turned : (ws : String) → count ws g.order ≡ count ws s.order
    count-turned ws =
        let c = g.choice in rw (c.order, c.split) (count_turned ws g.workspace c.pre c.post)

    -- A grant keeps the queues in order and takes one waiter off.
    pub Granted-IsQueued : IsQueued s → IsQueued t
    unfolding grant
    Granted-IsQueued i =
        let old = i.own g.workspace _ served in
        let i' =
          set_queue-IsQueued turned (reorder-IsQueued s i g.order count-turned) g.workspace _
            (tail (or_else (Dict.get g.workspace s.queues) [])) served old.1 in
        rw g.result (record {
          unique = i'.unique;
          nonempty = i'.nonempty;
          own = i'.own;
          ordered = i'.ordered;
        })

    pub Granted-queued : IsQueued s → queued t.queues < queued s.queues
    unfolding grant
    Granted-queued i = rw g.result (
        unfold grant in
        omega (
          arith,
          queued-set_queue turned (reorder-IsQueued s i g.order count-turned) g.workspace _
              (tail (or_else (Dict.get g.workspace s.queues) [])) served,
        ))

    pub Granted-IsLeased :
        ((m n : ℕ) → lease_id m ≡ lease_id n → m ≡ n)
        → IsQueued s
        → IsLeased policy lease_id s
        → IsLeased policy lease_id t
    unfolding eligible
    Granted-IsLeased inj q i =
        let old = q.own g.workspace _ served in
        let i' : IsLeased policy lease_id turned = record {
          unique = i.unique;
          unique_counts = i.unique_counts;
          fresh = i.fresh;
          counted = i.counted;
          quota = i.quota;
          total = i.total;
          exclusive = i.exclusive;
        } in
        rw g.result (
          grant-IsLeased policy lease_id turned i' g.workspace g.choice.waiter inj g.room
            g.choice.is_head.1 old.0)

  module _ {s : State} where
    pub Grants-IsQueued : {t : State} → IsQueued s → Grants s t → IsQueued t
    Grants-IsQueued i here = i
    Grants-IsQueued i (next r g) = Granted-IsQueued g (Grants-IsQueued i r)

    pub Grants-IsLeased :
        {t : State}
        → ((m n : ℕ) → lease_id m ≡ lease_id n → m ≡ n)
        → IsQueued s
        → IsLeased policy lease_id s
        → Grants s t
        → IsLeased policy lease_id t
    Grants-IsLeased inj q i here = i
    Grants-IsLeased inj q i (next r g) =
        Granted-IsLeased g inj (Grants-IsQueued q r) (Grants-IsLeased inj q i r)

  -- With fuel for the queued waiters the loop makes grants until it is quiet.
  grant_rounds_lem :
      (fuel : ℕ) (s : State)
      → IsQueued s
      → queued s.queues < fuel
      → Grants s (grant_rounds policy lease_id fuel s) × Quiet (grant_rounds policy lease_id fuel s)
  unfolding grant_rounds
  grant_rounds_lem zero s i h = absurd (omega arith)
  grant_rounds_lem (suc fuel) s i h = elim (grant_round_lem s) [
    | inl (e, g) ↦
        let (r, q) =
          grant_rounds_lem fuel _ (Granted-IsQueued g i) (omega (arith, Granted-queued g i)) in
        rw (e, grant_rounds) (prepend g r, q)
    | inr (e, same, q) ↦ rw (e, grant_rounds) (rw same (here, q))
  ]

  -- From a state whose queues are in order, `_grant_waiters` makes grants, each to the choice of
  -- `_next_candidate` while a slot is free, and it stops only where no slot is free or no head waiter
  -- is eligible.
  pub grant_waiters_lem :
      (s : State)
      → IsQueued s
      → Grants s (grant_waiters policy lease_id s) × Quiet (grant_waiters policy lease_id s)
  unfolding grant_waiters
  grant_waiters_lem s i = grant_rounds_lem (suc (queued s.queues)) s i (omega arith)
