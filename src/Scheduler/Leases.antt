-- ===== src/Scheduler/Leases.antt =====
-- The active leases of app/services/process_scheduler.py: counts, quotas and exclusive keys, under
-- the two operations that change them.
use test_gpt_local.Prelude.{
  ℕ, ◌≤◌, ◌<◌, ◌+◌, ◌-◌, String, ◌≡◌, refl, true, false, ◌||◌, inl, inr, Option, none, some, [],
  ◌∷◌, ◌++◌, arith, if◌then◌else◌, length, length-append, Bool-cases,
}
use test_gpt_local.Prelude.Text.{◌==◌, eq_iff}
use test_gpt_local.Prelude.Dict
use test_gpt_local.Prelude.Dict.{
  Dict, or_else, IsUnique, get-put, get-remove, get-remove-none, put-fresh, put-IsUnique,
  remove-IsUnique,
}
use test_gpt_local.Scheduler.Keys.{ConcurrencyKey, conflicts_with_comm, QueuePolicy}
use test_gpt_local.Scheduler.State.{Waiter, State, any_conflict, free_of_conflict, eligible, grant}
use test_gpt_local.Scheduler.Operations.{drop_lease}

abbrev pub Active : Type 0
Active = Dict (String × Option ConcurrencyKey)

-- The number of leases that a workspace holds.
unfoldable pub held : String → Active → ℕ
held ws [] = 0
held ws ((lease, (v, k)) ∷ active) = (if v == ws then 1 else 0) + held ws active

-- No two leases have keys that conflict.
abbrev pub IsExclusive : Active → Type 0
IsExclusive [] = Unit
IsExclusive ((lease, (v, k)) ∷ active) = (free_of_conflict k active ≡ true) × IsExclusive active

-- The leases fit the policy, the counts are theirs, and no lease id will be issued again.
pub record IsLeased (policy : QueuePolicy) (lease_id : ℕ → String) (s : State) : Type 0 where
  pub unique : IsUnique s.active
  pub unique_counts : IsUnique s.active_by_workspace
  pub fresh : (i : ℕ) → s.issued ≤ i → Dict.get (lease_id i) s.active ≡ none
  pub counted : (ws : String) → or_else (Dict.get ws s.active_by_workspace) 0 ≡ held ws s.active
  pub quota : (ws : String) → held ws s.active ≤ policy.per_workspace_limit
  pub total : length s.active ≤ policy.global_limit
  pub exclusive : IsExclusive s.active

held-append :
    (ws : String) (d : Active) (lease v : String) (k : Option ConcurrencyKey)
    → held ws (d ++ (lease, (v, k)) ∷ []) ≡ (if v == ws then 1 else 0) + held ws d
unfolding held
held-append ws [] lease v k = refl
held-append ws ((l, (u, j)) ∷ d) lease v k = ground (arith, held-append ws d lease v k)

held-remove :
    (ws : String) (d : Active) (lease v : String) (k : Option ConcurrencyKey)
    → Dict.get lease d ≡ some (v, k)
    → (if v == ws then 1 else 0) + held ws (Dict.remove lease d) ≡ held ws d
unfolding held Dict.get Dict.remove
held-remove ws [] lease v k h = cc
held-remove ws ((l, (u, j)) ∷ d) lease v k h = ground (arith, held-remove ws d lease v k)

length-remove : (d : Active) (lease : String) → length (Dict.remove lease d) ≤ length d
unfolding Dict.remove
length-remove [] lease = omega arith
length-remove ((l, a) ∷ d) lease = ground (arith, length-remove d lease)

any_conflict-append :
    (k : ConcurrencyKey) (d : Active) (lease v : String) (j : Option ConcurrencyKey)
    → any_conflict k (d ++ (lease, (v, j)) ∷ [])
      ≡ any_conflict k d || any_conflict k ((lease, (v, j)) ∷ [])
unfolding any_conflict
any_conflict-append k [] lease v j = refl
any_conflict-append k ((l, (u, none)) ∷ d) lease v j = any_conflict-append k d lease v j
any_conflict-append k ((l, (u, some i)) ∷ d) lease v j =
    ground (arith, any_conflict-append k d lease v j)

any_conflict-remove :
    (k : ConcurrencyKey) (d : Active) (lease : String)
    → any_conflict k d ≡ false
    → any_conflict k (Dict.remove lease d) ≡ false
unfolding any_conflict Dict.remove
any_conflict-remove k [] lease h = refl
any_conflict-remove k ((l, (u, none)) ∷ d) lease h = ground (arith, any_conflict-remove k d lease)
any_conflict-remove k ((l, (u, some i)) ∷ d) lease h = ground (arith, any_conflict-remove k d lease)

-- A key that conflicts with no lease may be added behind all of them.
IsExclusive-append :
    (d : Active) (lease v : String) (k : Option ConcurrencyKey)
    → IsExclusive d
    → free_of_conflict k d ≡ true
    → IsExclusive (d ++ (lease, (v, k)) ∷ [])
unfolding free_of_conflict any_conflict
IsExclusive-append [] lease v none x h = (refl, tt)
IsExclusive-append [] lease v (some k) x h = (refl, tt)
IsExclusive-append ((l, (u, none)) ∷ d) lease v none x h =
    (refl, IsExclusive-append d lease v none x.1 h)
IsExclusive-append ((l, (u, none)) ∷ d) lease v (some k) x h =
    (refl, IsExclusive-append d lease v (some k) x.1 h)
IsExclusive-append ((l, (u, some i)) ∷ d) lease v none x h = (
  ground (arith, any_conflict-append i d lease v none),
  IsExclusive-append d lease v none x.1 refl,
)
IsExclusive-append ((l, (u, some i)) ∷ d) lease v (some k) x h = (
  ground (arith, any_conflict-append i d lease v (some k), conflicts_with_comm i k),
  IsExclusive-append d lease v (some k) x.1 (ground arith),
)

free_of_conflict-remove :
    (k : Option ConcurrencyKey) (d : Active) (lease : String)
    → free_of_conflict k d ≡ true
    → free_of_conflict k (Dict.remove lease d) ≡ true
unfolding free_of_conflict
free_of_conflict-remove none d lease h = refl
free_of_conflict-remove (some k) d lease h = ground (arith, any_conflict-remove k d lease)

IsExclusive-remove :
    (d : Active) (lease : String) → IsExclusive d → IsExclusive (Dict.remove lease d)
unfolding Dict.remove
IsExclusive-remove [] lease x = tt
IsExclusive-remove ((l, (u, k)) ∷ d) lease x = elim (Bool-cases (l == lease)) [
  | inl b ↦ rw b x.1
  | inr b ↦ rw b (free_of_conflict-remove k d lease x.0, IsExclusive-remove d lease x.1)
]

module _ (policy : QueuePolicy) (lease_id : ℕ → String) (s : State)
    (i : IsLeased policy lease_id s) where
  -- Granting an eligible waiter while the global limit leaves room keeps all of it.
  pub grant-IsLeased :
      (ws : String) (w : Waiter)
      → ((m n : ℕ) → lease_id m ≡ lease_id n → m ≡ n)
      → length s.active < policy.global_limit
      → eligible policy s w ≡ true
      → w.workspace_id ≡ ws
      → IsLeased policy lease_id (grant lease_id ws w s)
  unfolding grant eligible
  grant-IsLeased ws w inj room e own =
      let lease = lease_id s.issued in
      let new : Dict.get lease s.active ≡ none = i.fresh s.issued (omega arith) in
      let added = put-fresh lease (ws, w.key) s.active new in
      record {
        unique = put-IsUnique lease (ws, w.key) s.active i.unique;
        unique_counts = put-IsUnique ws _ s.active_by_workspace i.unique_counts;
        fresh = λ n h. ground (
          arith,
          get-put lease (lease_id n) (ws, w.key) s.active,
          i.fresh n,
          eq_iff lease (lease_id n),
          inj s.issued n,
        );
        counted = λ v. rw added (
            ground (
              arith,
              get-put ws v (or_else (Dict.get ws s.active_by_workspace) 0 + 1)
                  s.active_by_workspace,
              i.counted v,
              i.counted ws,
              held-append v s.active lease ws w.key,
              eq_iff ws v,
            ));
        quota = λ v. rw added (
            ground (
              arith,
              own,
              i.counted ws,
              i.quota v,
              held-append v s.active lease ws w.key,
              eq_iff ws v,
            ));
        total = rw added (ground (arith, length-append s.active ((lease, (ws, w.key)) ∷ [])));
        exclusive =
            rw added (IsExclusive-append s.active lease ws w.key i.exclusive (ground arith));
      }

  -- Taking a lease off keeps all of it.
  pub drop_lease-IsLeased :
      (lease ws : String) (k : Option ConcurrencyKey)
      → Dict.get lease s.active ≡ some (ws, k)
      → IsLeased policy lease_id (drop_lease policy lease_id lease ws s)
  unfolding drop_lease
  drop_lease-IsLeased lease ws k h = record {
    unique = remove-IsUnique lease s.active i.unique;
    unique_counts = ground (
      arith,
      remove-IsUnique ws s.active_by_workspace i.unique_counts,
      put-IsUnique ws (or_else (Dict.get ws s.active_by_workspace) 0 - 1) s.active_by_workspace
          i.unique_counts,
    );
    fresh = λ n m. get-remove-none lease (lease_id n) s.active (i.fresh n m);
    counted = λ v. ground (
      arith,
      held-remove v s.active lease ws k h,
      i.counted v,
      i.counted ws,
      eq_iff ws v,
      get-remove ws v s.active_by_workspace i.unique_counts,
      get-put ws v (or_else (Dict.get ws s.active_by_workspace) 0 - 1) s.active_by_workspace,
    );
    quota = λ v. ground (arith, held-remove v s.active lease ws k h, i.quota v);
    total = ground (arith, length-remove s.active lease, i.total);
    exclusive = IsExclusive-remove s.active lease i.exclusive;
  }
