-- ===== src/Scheduler/Queues.antt =====
-- The queues and the order of the workspaces of app/services/process_scheduler.py, under the
-- operations that change them.
use test_gpt_local.Prelude.{
  ℕ, ◌≤◌, ◌+◌, ◌-◌, String, ◌≡◌, ◌≢◌, refl, ◌∙◌, subst, true, inl, inr, Option, none, some, List,
  [], ◌∷◌, ◌++◌, arith, if◌then◌else◌, length, All, All-append, Bool-cases,
}
use test_gpt_local.Prelude.Text.{mem, ◌==◌, eq_iff}
use test_gpt_local.Prelude.Dict
use test_gpt_local.Prelude.Dict.{
  Dict, or_else, IsUnique, get-put, get-remove, put-IsUnique, remove-IsUnique,
}
use test_gpt_local.Scheduler.State.{Waiter, State, erase, queued, set_queue}
use test_gpt_local.Scheduler.Operations.{enqueue, enqueue_order}

-- How often a workspace stands in the order.
unfoldable pub count : String → List String → ℕ
count ws [] = 0
count ws (v ∷ order) = (if v == ws then 1 else 0) + count ws order

abbrev pub has : Option (List Waiter) → ℕ
has none = 0
has (some q) = 1

-- No queue is empty, a queue's waiters are its workspace's, and the order has each workspace with a
-- queue once and no other.
pub record IsQueued (s : State) : Type 0 where
  pub unique : IsUnique s.queues
  pub nonempty : (ws : String) → Dict.get ws s.queues ≢ some []
  pub own :
      (ws : String) (q : List Waiter)
      → Dict.get ws s.queues ≡ some q
      → All (λ w. w.workspace_id ≡ ws) q
  pub ordered : (ws : String) → count ws s.order ≡ has (Dict.get ws s.queues)

pub count-append :
    (ws : String) (xs ys : List String) → count ws (xs ++ ys) ≡ count ws xs + count ws ys
unfolding count
count-append ws [] ys = omega arith
count-append ws (x ∷ xs) ys = omega (arith, count-append ws xs ys)

count_one : (ws v : String) → count ws (v ∷ []) ≡ (if v == ws then 1 else 0)
unfolding count
count_one ws v = omega arith

-- Moving an entry and those before it to the back keeps every count.
pub count_turned :
    (ws v : String) (pre post : List String)
    → count ws (post ++ (pre ++ v ∷ [])) ≡ count ws (pre ++ v ∷ post)
unfolding count
count_turned ws v pre post = omega (
  arith,
  count-append ws post (pre ++ v ∷ []),
  count-append ws pre (v ∷ []),
  count-append ws pre (v ∷ post),
)

pub count-erase :
    (ws v : String) (xs : List String)
    → count ws (erase v xs) ≡ count ws xs - (if v == ws then 1 else 0)
unfolding count erase
count-erase ws v [] = omega arith
count-erase ws v (x ∷ xs) =
    ground (arith, count-erase ws v xs, eq_iff x v, eq_iff x ws, eq_iff v ws)

pub mem-count : (ws : String) (xs : List String) → 1 ≤ count ws xs → mem ws xs ≡ true
unfolding count mem
mem-count ws [] h = absurd (omega arith)
mem-count ws (x ∷ xs) h = ground (arith, mem-count ws xs)

pub queued-remove :
    (ws : String) (q : List Waiter) (d : Dict (List Waiter))
    → Dict.get ws d ≡ some q
    → queued (Dict.remove ws d) + length q ≡ queued d
unfolding queued Dict.get Dict.remove
queued-remove ws q [] h = cc
queued-remove ws q ((v, r) ∷ d) h = ground (arith, queued-remove ws q d)

pub queued-put :
    (ws : String) (q r : List Waiter) (d : Dict (List Waiter))
    → Dict.get ws d ≡ some q
    → queued (Dict.put ws r d) + length q ≡ queued d + length r
unfolding queued Dict.get Dict.put
queued-put ws q r [] h = cc
queued-put ws q r ((v, p) ∷ d) h = ground (arith, queued-put ws q r d)

abbrev Own : Dict (List Waiter) → Type 0
Own d = (ws : String) (q : List Waiter) → Dict.get ws d ≡ some q → All (λ w. w.workspace_id ≡ ws) q

put-Own :
    (d : Dict (List Waiter)) (ws : String) (r : List Waiter)
    → Own d
    → All (λ w. w.workspace_id ≡ ws) r
    → Own (Dict.put ws r d)
put-Own d ws r own a v p e = elim (Bool-cases (ws == v)) [
  | inl b ↦
      let same : r ≡ p = cc (get-put ws v r d, b, e) in
      subst (λ x. All (λ w. w.workspace_id ≡ v) x) same
        (subst (λ x. All (λ w. w.workspace_id ≡ x) r) ((eq_iff ws v).0 b) a)
  | inr b ↦ own v p (cc (get-put ws v r d, b, e))
]

remove-Own : (d : Dict (List Waiter)) (ws : String) → IsUnique d → Own d → Own (Dict.remove ws d)
remove-Own d ws u own v p e = own v p (ground (arith, get-remove ws v d u))

module _ (s : State) (i : IsQueued s) where
  -- Shortening a queue, with its end if it becomes empty.
  pub set_queue-IsQueued :
      (ws : String) (q r : List Waiter)
      → Dict.get ws s.queues ≡ some q
      → All (λ w. w.workspace_id ≡ ws) r
      → IsQueued (set_queue ws r s)
  unfolding set_queue
  set_queue-IsQueued ws q [] h a = record {
    unique = remove-IsUnique ws s.queues i.unique;
    nonempty = λ v e. ground (arith, get-remove ws v s.queues i.unique, i.nonempty v);
    own = remove-Own s.queues ws i.unique i.own;
    ordered = λ v. ground (
      arith,
      count-erase v ws s.order,
      i.ordered v,
      get-remove ws v s.queues i.unique,
      eq_iff ws v,
    );
  }
  set_queue-IsQueued ws q (w ∷ r) h a = record {
    unique = put-IsUnique ws (w ∷ r) s.queues i.unique;
    nonempty = λ v e. ground (arith, get-put ws v (w ∷ r) s.queues, i.nonempty v);
    own = put-Own s.queues ws (w ∷ r) i.own a;
    ordered = λ v. ground (arith, i.ordered v, get-put ws v (w ∷ r) s.queues, eq_iff ws v);
  }

  pub queued-set_queue :
      (ws : String) (q r : List Waiter)
      → Dict.get ws s.queues ≡ some q
      → queued (set_queue ws r s).queues + length q ≡ queued s.queues + length r
  unfolding set_queue
  queued-set_queue ws q [] h = omega (arith, queued-remove ws q s.queues h)
  queued-set_queue ws q (w ∷ r) h = queued-put ws q (w ∷ r) s.queues h

  -- A turn of the order keeps the invariant.
  pub reorder-IsQueued :
      (order : List String)
      → ((ws : String) → count ws order ≡ count ws s.order)
      → IsQueued (record s { order = order })
  reorder-IsQueued order h = record {
    unique = i.unique;
    nonempty = i.nonempty;
    own = i.own;
    ordered = λ ws. h ws ∙ i.ordered ws;
  }

  -- A waiter goes behind its workspace's queue; a workspace that had none goes behind the order.
  enqueue_at-IsQueued :
      (w : Waiter) (o : Option (List Waiter))
      → Dict.get w.workspace_id s.queues ≡ o
      → IsQueued (record s {
        sequence = w.sequence;
        order = enqueue_order w.workspace_id (or_else o []) s.order;
        queues = Dict.put w.workspace_id (or_else o [] ++ w ∷ []) s.queues;
      })
  unfolding enqueue_order
  enqueue_at-IsQueued w none e = record {
    unique = put-IsUnique w.workspace_id (w ∷ []) s.queues i.unique;
    nonempty = λ v h. ground (arith, get-put w.workspace_id v (w ∷ []) s.queues, i.nonempty v);
    own = put-Own s.queues w.workspace_id (w ∷ []) i.own (refl, tt);
    ordered = λ v. ground (
      arith,
      count-append v s.order (w.workspace_id ∷ []),
      count_one v w.workspace_id,
      i.ordered v,
      get-put w.workspace_id v (w ∷ []) s.queues,
      eq_iff w.workspace_id v,
    );
  }
  enqueue_at-IsQueued w (some []) e = absurd (i.nonempty w.workspace_id e)
  enqueue_at-IsQueued w (some (u ∷ q)) e = record {
    unique = put-IsUnique w.workspace_id (u ∷ (q ++ w ∷ [])) s.queues i.unique;
    nonempty =
        λ v h. ground (arith, get-put w.workspace_id v (u ∷ (q ++ w ∷ [])) s.queues, i.nonempty v);
    own = put-Own s.queues w.workspace_id (u ∷ (q ++ w ∷ [])) i.own (
        All-append (λ x. x.workspace_id ≡ w.workspace_id) (u ∷ q) (w ∷ [])
          (i.own w.workspace_id (u ∷ q) e) (refl, tt));
    ordered = λ v. ground (
      arith,
      i.ordered v,
      get-put w.workspace_id v (u ∷ (q ++ w ∷ [])) s.queues,
      eq_iff w.workspace_id v,
    );
  }

  pub enqueue-IsQueued : (w : Waiter) → IsQueued (enqueue w s)
  unfolding enqueue
  enqueue-IsQueued w = enqueue_at-IsQueued w (Dict.get w.workspace_id s.queues) refl
