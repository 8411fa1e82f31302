-- ===== src/Scheduler/Choice.antt =====
-- What `_next_candidate` of app/services/process_scheduler.py chooses.
use test_gpt_local.Prelude.{
  String, ◌≡◌, refl, sym, subst, true, false, ◌&&◌, ◌⊎◌, inl, inr, Option, none, some, List, [],
  ◌∷◌, ◌++◌, append-nil, arith, All, Bool-cases,
}
use test_gpt_local.Prelude.Int.{ℤ, ◌≤ℤ◌, eqℤ, eqℤ→eq, ≤ℤ_antisymm}
use test_gpt_local.Prelude.Text.{mem, ◌==◌, eq_iff}
use test_gpt_local.Prelude.Dict
use test_gpt_local.Scheduler.Keys.{QueuePolicy}
use test_gpt_local.Scheduler.State.{
  Waiter, State, front, highest, with_priority, eligible, consider, eligible_heads, turn,
  next_candidate,
}
use test_gpt_local.Scheduler.Rotation.{
  Turned, mem-with_priority_cons, mem-with_priority_self, highest-ge, highest-attained, rotate_lem,
}

abbrev pub IsHead : QueuePolicy → State → String → Waiter → Type 0
IsHead policy s ws w = (front (Dict.get ws s.queues) ≡ some w) × (eligible policy s w ≡ true)

abbrev Listed : String → Waiter → List (String × Waiter) → Type 0
Listed ws w [] = ⊥
Listed ws w ((v, u) ∷ hs) = ((v ≡ ws) × (u ≡ w)) ⊎ Listed ws w hs

Listed-All :
    (P : String × Waiter → Type 0) (ws : String) (w : Waiter) (hs : List (String × Waiter))
    → All P hs
    → Listed ws w hs
    → P (ws, w)
Listed-All P ws w [] a h = absurd h
Listed-All P ws w ((v, u) ∷ hs) a (inl (e, f)) = subst P (λ i. (e i, f i)) a.0
Listed-All P ws w ((v, u) ∷ hs) a (inr h) = Listed-All P ws w hs a.1 h

-- A workspace with the given priority is listed with a waiter of that priority.
with_priority-Listed :
    (ws : String) (p : ℤ) (hs : List (String × Waiter))
    → mem ws (with_priority p hs) ≡ true
    → (w : Waiter) × Listed ws w hs × (w.priority ≡ p)
unfolding with_priority mem
with_priority-Listed ws p [] h = cc
with_priority-Listed ws p ((v, u) ∷ hs) h = elim (Bool-cases (eqℤ u.priority p && v == ws)) [
  | inl b ↦ (u, inl (ground (arith, eq_iff v ws), refl), eqℤ→eq u.priority p (ground arith))
  | inr b ↦ let (w, l, e) = with_priority-Listed ws p hs (ground arith) in (w, inr l, e)
]

Listed-mem :
    (ws : String) (w : Waiter) (hs : List (String × Waiter))
    → Listed ws w hs
    → mem ws (with_priority w.priority hs) ≡ true
Listed-mem ws w [] h = absurd h
Listed-mem ws w ((v, u) ∷ hs) (inl (e, f)) = rw (e, f) (mem-with_priority_self ws w hs)
Listed-mem ws w ((v, u) ∷ hs) (inr h) =
    mem-with_priority_cons ws v u w.priority hs (Listed-mem ws w hs h)

All-mem :
    (chosen : List String) (v : String) (xs : List String)
    → All (λ x. mem x chosen ≡ false) xs
    → mem v xs ≡ true
    → mem v chosen ≡ false
unfolding mem
All-mem chosen v [] a h = cc
All-mem chosen v (x ∷ xs) a h = elim (Bool-cases (x == v)) [
  | inl b ↦ subst (λ y. mem y chosen ≡ false) ((eq_iff x v).0 b) a.0
  | inr b ↦ All-mem chosen v xs a.1 (ground arith)
]

mem-append_left : (v : String) (xs ys : List String) → mem v xs ≡ true → mem v (xs ++ ys) ≡ true
unfolding mem
mem-append_left v [] ys h = cc
mem-append_left v (x ∷ xs) ys h = ground (arith, mem-append_left v xs ys)

module _ (policy : QueuePolicy) (s : State) where
  consider-IsHead :
      (ws : String) (o : Option Waiter) (hs : List (String × Waiter))
      → front (Dict.get ws s.queues) ≡ o
      → All (λ h. IsHead policy s h.0 h.1) hs
      → All (λ h. IsHead policy s h.0 h.1) (consider policy s ws o hs)
  unfolding consider
  consider-IsHead ws none hs e a = a
  consider-IsHead ws (some w) hs e a = elim (Bool-cases (eligible policy s w)) [
    | inl b ↦ rw b ((e, b), a)
    | inr b ↦ rw b a
  ]

  eligible_heads-IsHead :
      (order : List String) → All (λ h. IsHead policy s h.0 h.1) (eligible_heads policy s order)
  unfolding eligible_heads
  eligible_heads-IsHead [] = tt
  eligible_heads-IsHead (ws ∷ order) =
      consider-IsHead ws (front (Dict.get ws s.queues)) _ refl (eligible_heads-IsHead order)

  consider-mem :
      (ws v : String) (w : Waiter) (o : Option Waiter) (hs : List (String × Waiter))
      → Listed ws w (consider policy s v o hs)
      → (v ≡ ws) ⊎ Listed ws w hs
  unfolding consider
  consider-mem ws v w none hs h = inr h
  consider-mem ws v w (some u) hs h = elim (Bool-cases (eligible policy s u)) [
    | inl b ↦ elim (rw b at h) [ inl (e, f) ↦ inl e | inr l ↦ inr l ]
    | inr b ↦ inr (rw b at h)
  ]

  eligible_heads-mem :
      (ws : String) (w : Waiter) (order : List String)
      → Listed ws w (eligible_heads policy s order)
      → mem ws order ≡ true
  unfolding eligible_heads mem
  eligible_heads-mem ws w [] h = absurd h
  eligible_heads-mem ws w (v ∷ order) h =
      elim (consider-mem ws v w (front (Dict.get v s.queues)) _ h) [
        | inl e ↦ ground (arith, eq_iff v ws)
        | inr l ↦ ground (arith, eligible_heads-mem ws w order l)
      ]

  consider-keeps :
      (ws v : String) (w : Waiter) (o : Option Waiter) (hs : List (String × Waiter))
      → Listed ws w hs
      → Listed ws w (consider policy s v o hs)
  unfolding consider
  consider-keeps ws v w none hs h = h
  consider-keeps ws v w (some u) hs h = elim (Bool-cases (eligible policy s u)) [
    | inl b ↦ rw b (inr h)
    | inr b ↦ rw b h
  ]

  consider_self :
      (ws : String) (w : Waiter) (hs : List (String × Waiter))
      → IsHead policy s ws w
      → Listed ws w (consider policy s ws (front (Dict.get ws s.queues)) hs)
  unfolding consider
  consider_self ws w hs (e, f) = rw e (rw f (inl (refl, refl)))

  eligible_heads_complete :
      (ws : String) (w : Waiter) (order : List String)
      → mem ws order ≡ true
      → IsHead policy s ws w
      → Listed ws w (eligible_heads policy s order)
  unfolding eligible_heads mem
  eligible_heads_complete ws w [] h k = cc
  eligible_heads_complete ws w (v ∷ order) h k = elim (Bool-cases (v == ws)) [
    | inl e ↦
        subst
          (λ x.
            Listed ws w
              (consider policy s x (front (Dict.get x s.queues)) (eligible_heads policy s order)))
          (sym ((eq_iff v ws).0 e)) (consider_self ws w _ k)
    | inr n ↦ consider-keeps ws v w _ _ (eligible_heads_complete ws w order (ground arith) k)
  ]

  -- The served workspace: its head is eligible, of the highest priority, and the first such in the
  -- order; the order goes on behind it.
  pub record Choice (order' : List String) (ws : String) : Type 0 where
    pub waiter : Waiter
    pub is_head : IsHead policy s ws waiter
    pub pre : List String
    pub post : List String
    pub split : s.order ≡ pre ++ ws ∷ post
    pub order : order' ≡ post ++ (pre ++ ws ∷ [])
    pub best :
        (v : String) (u : Waiter)
        → mem v s.order ≡ true
        → IsHead policy s v u
        → u.priority ≤ℤ waiter.priority
    pub passed_over :
        (v : String) (u : Waiter)
        → mem v pre ≡ true
        → IsHead policy s v u
        → ¬ (waiter.priority ≤ℤ u.priority)

  abbrev pub Idle : Type 0
  Idle = (v : String) (u : Waiter) → mem v s.order ≡ true → ¬ IsHead policy s v u

  abbrev pub Decides : List String × Option String → Type 0
  Decides r =
      ((ws : String) × (r.1 ≡ some ws) × Choice r.0 ws) ⊎ ((r.1 ≡ none) × (r.0 ≡ s.order) × Idle)

  -- `top` is the priority of some listed waiter, and bounds that of all.
  bounds :
      (ws : String) (w : Waiter) (rest : List (String × Waiter))
      → All (λ h. (h.1).priority ≤ℤ highest w.priority rest) ((ws, w) ∷ rest)
  bounds ws w rest = highest-ge w.priority rest

  attained :
      (ws : String) (w : Waiter) (rest : List (String × Waiter))
      → (v : String) × (mem v (with_priority (highest w.priority rest) ((ws, w) ∷ rest)) ≡ true)
  attained ws w rest = elim (highest-attained w.priority rest) [
    | inl e ↦ (ws, rw e (mem-with_priority_self ws w rest))
    | inr (v, m) ↦ (v, mem-with_priority_cons v ws w _ rest m)
  ]

  module _ (top : ℤ) (hs : List (String × Waiter)) (e : eligible_heads policy s s.order ≡ hs) where
    Listed-head :
        (v : String) (u : Waiter) → mem v s.order ≡ true → IsHead policy s v u → Listed v u hs
    Listed-head v u m k = rw e at (eligible_heads_complete v u s.order m k)

    IsHead-Listed : (v : String) (u : Waiter) → Listed v u hs → IsHead policy s v u
    IsHead-Listed v u l =
        Listed-All (λ h. IsHead policy s h.0 h.1) v u hs (rw e at (eligible_heads-IsHead s.order)) l

    -- A skipped workspace has no head of the highest priority.
    outranked :
        (v : String) (u : Waiter) (q : ℤ)
        → q ≡ top
        → All (λ h. (h.1).priority ≤ℤ top) hs
        → (pre : List String) → mem v s.order ≡ true
        → All (λ x. mem x (with_priority top hs) ≡ false) pre
        → mem v pre ≡ true
        → IsHead policy s v u
        → ¬ (q ≤ℤ u.priority)
    outranked v u q p bound pre ordered skipped m k h =
        let l = Listed-head v u ordered k in
        let is_top =
          ≤ℤ_antisymm u.priority top (Listed-All (λ h. (h.1).priority ≤ℤ top) v u hs bound l)
            (rw p at h) in
        cc (rw is_top at (Listed-mem v u hs l), All-mem (with_priority top hs) v pre skipped m)

    decide :
        All (λ h. (h.1).priority ≤ℤ top) hs
        → (v : String) × (mem v (with_priority top hs) ≡ true)
        → (r : List String × Option String) → Turned (with_priority top hs) s.order [] r
        → Decides r
    decide bound (v, m) r (inr missed) =
        let (w, l, _) = with_priority-Listed v top hs m in
        cc (
          m,
          All-mem (with_priority top hs) v s.order missed.absent
              (eligible_heads-mem v w s.order (rw (← e) at l)),
        )
    decide bound _ r (inl (ws, f)) =
        let (w, l, p) = with_priority-Listed ws top hs f.is_chosen in
        inl (
          ws,
          f.result,
          record {
            waiter = w;
            is_head = IsHead-Listed ws w l;
            pre = f.pre;
            post = f.post;
            split = f.split;
            order = rw append-nil at f.order;
            best = λ v u m k.
                rw p (Listed-All (λ h. (h.1).priority ≤ℤ top) v u hs bound (Listed-head v u m k));
            passed_over = λ v u m k h.
                outranked v u w.priority p bound f.pre
                  (rw f.split (mem-append_left v f.pre (ws ∷ f.post) m)) f.skipped m k h;
          },
        )

  turn-Decides :
      (hs : List (String × Waiter))
      → eligible_heads policy s s.order ≡ hs
      → Decides (turn policy s hs)
  unfolding turn
  turn-Decides [] e = inr (refl, refl, λ v u m k. rw e at (eligible_heads_complete v u s.order m k))
  turn-Decides ((ws, w) ∷ rest) e =
      let hs = (ws, w) ∷ rest in
      let top = highest w.priority rest in
      let chosen = with_priority top hs in
      decide top hs e (bounds ws w rest) (attained ws w rest) _
        (rw append-nil at (rotate_lem chosen s.order []))

  -- Either some listed workspace is chosen, whose head waiter is eligible and has the highest priority
  -- of the eligible heads; the order then goes on behind the chosen workspace, which comes last, and
  -- none before it had an eligible head of that priority. Or no head is eligible, none is chosen, and
  -- the order stays.
  pub next_candidate-Decides : Decides (next_candidate policy s)
  unfolding next_candidate
  next_candidate-Decides = turn-Decides _ refl
