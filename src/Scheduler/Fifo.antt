-- ===== src/Scheduler/Fifo.antt =====
-- Grants take the waiters of a workspace in the order in which they were queued
-- (app/services/process_scheduler.py).
use test_gpt_local.Prelude.{
  ℕ, String, ◌≡◌, refl, sym, ap, ◌∙◌, inl, inr, List, [], ◌∷◌, ◌++◌, append_assoc, arith,
  if◌then◌else◌, Bool-cases,
}
use test_gpt_local.Prelude.Text.{◌==◌, eq_iff}
use test_gpt_local.Prelude.Dict
use test_gpt_local.Prelude.Dict.{Dict, or_else, get-put, get-remove}
use test_gpt_local.Scheduler.Keys.{QueuePolicy}
use test_gpt_local.Scheduler.State.{Waiter, State, tail, set_queue, grant, grant_waiters}
use test_gpt_local.Scheduler.Queues.{IsQueued}
use test_gpt_local.Scheduler.Granting.{
  Granted, Grants, here, next, served, grant_waiters_lem, Grants-IsQueued,
}

-- The waiters of a workspace, first to be served first.
abbrev pub line : String → State → List Waiter
line ws s = or_else (Dict.get ws s.queues) []

line-set_queue :
    (s : State) (ws v : String) (q : List Waiter)
    → Dict.IsUnique s.queues
    → line v (set_queue ws q s) ≡ (if ws == v then q else line v s)
unfolding set_queue
line-set_queue s ws v [] i = ground (arith, get-remove ws v s.queues i)
line-set_queue s ws v (w ∷ q) i = ground (arith, get-put ws v (w ∷ q) s.queues)

module _ (policy : QueuePolicy) (lease_id : ℕ → String) where
  line-Granted :
      (v : String) {s t : State}
      → IsQueued s
      → (g : Granted policy lease_id s t)
      → line v t ≡ (if g.workspace == v then tail (line g.workspace s) else line v s)
  unfolding grant
  line-Granted v {s} {t} i g =
      ap (line v) g.result
      ∙ line-set_queue (record s { order = g.order }) g.workspace v (tail (line g.workspace s))
          i.unique

  Granted-fifo :
      (ws : String) {s t : State}
      → IsQueued s
      → Granted policy lease_id s t
      → (taken : List Waiter) × (line ws s ≡ taken ++ line ws t)
  Granted-fifo ws {s} {t} i g = elim (Bool-cases (g.workspace == ws)) [
    | inl b ↦
        let same : g.workspace ≡ ws = (eq_iff g.workspace ws).0 b in
        let old : line g.workspace s ≡ g.choice.waiter ∷ tail (line g.workspace s) =
          ap (λ o. or_else o []) (served policy lease_id g) in
        (g.choice.waiter ∷ [], cc (line-Granted ws i g, b, old, ap (λ x. line x s) same))
    | inr b ↦ ([], cc (line-Granted ws i g, b))
  ]

  Grants-fifo :
      (ws : String) {s t : State}
      → IsQueued s
      → Grants policy lease_id s t
      → (taken : List Waiter) × (line ws s ≡ taken ++ line ws t)
  Grants-fifo ws i here = ([], refl)
  Grants-fifo ws {s} {t} i (next r g) =
      let (a, e) = Grants-fifo ws i r in
      let (b, f) = Granted-fifo ws (Grants-IsQueued policy lease_id i r) g in
      (a ++ b, e ∙ ap (λ l. a ++ l) f ∙ sym (append_assoc a b (line ws t)))

  -- Where the queues are in order: what `_grant_waiters` leaves in a workspace's queue is an end of what was there: the waiters that
  -- it served stood before all those that still wait.
  pub grant_waiters-fifo :
      (ws : String) (s : State)
      → IsQueued s
      → (taken : List Waiter) × (line ws s ≡ taken ++ line ws (grant_waiters policy lease_id s))
  grant_waiters-fifo ws s i = Grants-fifo ws i (grant_waiters_lem policy lease_id s i).0
