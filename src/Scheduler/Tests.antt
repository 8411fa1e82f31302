-- ===== src/Scheduler/Tests.antt =====
-- Runs of the scheduler at small inputs, and the theorems at those inputs.
use test_gpt_local.Prelude.{
  ℕ, zero, suc, ◌≤◌, String, ◌≡◌, ◌≢◌, ◌↔◌, refl, ap, false, Option, none, some, List, [], ◌∷◌,
  ◌++◌, arith, length,
}
use test_gpt_local.Prelude.Int.{pos}
use test_gpt_local.Prelude.Text.{is_blank, eq_iff}
use test_gpt_local.Prelude.Dict
use test_gpt_local.Prelude.Result.{ok}
use test_gpt_local.Scheduler.Keys.{
  ConcurrencyKey, conflicts_with, write, make_policy, make_policy-eq-ok_iff, QueuePolicy, IsPolicy,
}
use test_gpt_local.Scheduler.State.{Waiter, State, empty, eligible, grant_waiters, next_candidate}
use test_gpt_local.Scheduler.Release.{GaveBack, release_lease-GaveBack}
use test_gpt_local.Scheduler.Operations.{
  Ticket, leased, queue_timeout, enqueue, request, poll, release, release_lease, snapshot,
}
use test_gpt_local.Scheduler.Leases.{held}
use test_gpt_local.Scheduler.Choice.{Decides, next_candidate-Decides}
use test_gpt_local.Scheduler.Granting.{Grants, Quiet, grant_waiters_lem}
use test_gpt_local.Scheduler.Fifo.{line, grant_waiters-fifo}
use test_gpt_local.Scheduler.Reach.{Reach, Reach-IsSound, start, step, requested}
use test_gpt_local.Scheduler.Safety.{
  Reach-le-limits, Reach-conflict_free, Reach-work_conserving, Reach-not_stuck,
}

abbrev policy : QueuePolicy
policy = record { global_limit = 2; per_workspace_limit = 1; queue_timeout = 30 }

-- Lease ids that never repeat: `x`, so often.
abbrev lease_name : ℕ → String
lease_name zero = ""
lease_name (suc n) = String.◌∷◌ "x" (lease_name n)

lease_name_inj : (m n : ℕ) → lease_name m ≡ lease_name n → m ≡ n
lease_name_inj zero zero e = refl
lease_name_inj zero (suc n) e = cc
lease_name_inj (suc m) zero e = cc
lease_name_inj (suc m) (suc n) e = ap suc (lease_name_inj m n (cc))

abbrev repo : ConcurrencyKey
repo = record { scope = "workspace"; resource = "a"; mode = write }

abbrev git : ConcurrencyKey
git = record { scope = "global"; resource = "git"; mode = write }

abbrev ticket : String → Option ConcurrencyKey → ℕ → ℕ → Ticket
ticket workspace key sequence deadline = record {
  waiter = record { workspace_id = workspace; key = key; priority = pos 0; sequence = sequence };
  deadline = deadline;
}

abbrev next_state : Ticket → State → State
next_state t s = grant_waiters policy lease_name (enqueue t.waiter s)

-- "a" gets a lease; "b" wants the same key and waits; "c" wants another key and gets a lease.
abbrev one : State
one = next_state (ticket "a" (some repo) 1 30) empty

abbrev two : State
two = next_state (ticket "b" (some repo) 2 35) one

abbrev three : State
three = next_state (ticket "c" (some git) 3 32) two

program : Unit {0}
unfolding request poll release release_lease snapshot grant_waiters eligible Dict.get Dict.put
    Dict.remove is_blank
program = tt

Reach-one : Reach policy lease_name one
unfolding program
Reach-one = step start (requested "a" (some repo) (pos 0) none 0 (ticket "a" (some repo) 1 30) refl)

Reach-two : Reach policy lease_name two
unfolding program
Reach-two =
    step Reach-one
      (requested "b" (some repo) (pos 0) (some (pos 30)) 5 (ticket "b" (some repo) 2 35) refl)

Reach-three : Reach policy lease_name three
unfolding program
Reach-three =
    step Reach-two (requested "c" (some git) (pos 0) none 2 (ticket "c" (some git) 3 32) refl)

snapshot-three : snapshot three ≡ record {
  active = 2;
  queued = 1;
  active_by_workspace = ("a", 1) ∷ ("c", 1) ∷ [];
  queued_by_workspace = ("b", 1) ∷ [];
}
unfolding program
snapshot-three = refl

-- When "a" gives its lease back, "b" is served.
release-three :
    (poll policy lease_name (ticket "b" (some repo) 2 35) 40 (release policy lease_name "" three)).0
    ≡ leased (lease_name 2)
unfolding program
release-three = refl

-- "b" gives up at its deadline.
poll-three : (poll policy lease_name (ticket "b" (some repo) 2 35) 35 three).0 ≡ queue_timeout
unfolding program
poll-three = refl

Reach-le-limits_example : (length three.active ≤ 2) × ((ws : String) → held ws three.active ≤ 1)
Reach-le-limits_example = Reach-le-limits policy lease_name lease_name_inj Reach-three

Reach-conflict_free_example : conflicts_with repo git ≡ false
unfolding program
Reach-conflict_free_example =
    Reach-conflict_free policy lease_name lease_name_inj Reach-three "" "x" "a" "c" repo git
      (ground (arith, eq_iff "" "x")) refl refl

Reach-work_conserving_example : eligible policy two (ticket "b" (some repo) 2 35).waiter ≡ false
unfolding program
Reach-work_conserving_example =
    Reach-work_conserving policy lease_name lease_name_inj Reach-two "b"
      (ticket "b" (some repo) 2 35).waiter (omega arith) refl

Reach-not_stuck_example : two.active ≢ []
unfolding program
Reach-not_stuck_example =
    Reach-not_stuck policy lease_name lease_name_inj Reach-two "b"
      (ticket "b" (some repo) 2 35).waiter
      (record { positive = omega arith; ordered = omega arith }) refl

release_lease-GaveBack_example :
    GaveBack policy lease_name "x" three
      (release_lease policy lease_name (record { lease = "x"; released = false }) three)
unfolding program
release_lease-GaveBack_example =
    release_lease-GaveBack policy lease_name lease_name_inj "x" ("c", some git) Reach-three refl

make_policy-eq-ok_iff_example :
    (make_policy (pos 3) (pos 2) (pos 30)
      ≡ ok (record { global_limit = 3; per_workspace_limit = 2; queue_timeout = 30 }))
    ↔ (IsPolicy (record { global_limit = 3; per_workspace_limit = 2; queue_timeout = 30 })
        × (pos 3 ≡ pos 3)
        × (pos 2 ≡ pos 2)
        × (pos 30 ≡ pos 30))
make_policy-eq-ok_iff_example =
    make_policy-eq-ok_iff (pos 3) (pos 2) (pos 30)
      (record { global_limit = 3; per_workspace_limit = 2; queue_timeout = 30 })

grant_waiters_lem_example :
    Grants policy lease_name three (grant_waiters policy lease_name three)
    × Quiet policy lease_name (grant_waiters policy lease_name three)
grant_waiters_lem_example =
    grant_waiters_lem policy lease_name three
      (Reach-IsSound policy lease_name lease_name_inj Reach-three).queues

grant_waiters-fifo_example :
    (taken : List Waiter) × (line "b" three
      ≡ taken ++ line "b" (grant_waiters policy lease_name three))
grant_waiters-fifo_example =
    grant_waiters-fifo policy lease_name "b" three
      (Reach-IsSound policy lease_name lease_name_inj Reach-three).queues

next_candidate-Decides_example : Decides policy two (next_candidate policy two)
next_candidate-Decides_example = next_candidate-Decides policy two
