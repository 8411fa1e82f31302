-- ===== src/Scheduler/Rotation.antt =====
-- How `_next_candidate` of app/services/process_scheduler.py turns the order of the workspaces, and
-- the highest priority among waiters.
use test_gpt_local.Prelude.{
  String, ◌≡◌, refl, ap, ◌∙◌, true, false, ◌⊎◌, inl, inr, Option, none, some, List, [], ◌∷◌, ◌++◌,
  append-nil, append_assoc, arith, length, All, Bool-cases,
}
use test_gpt_local.Prelude.Int.{ℤ, ◌≤ℤ◌, eqℤ-refl}
use test_gpt_local.Prelude.Text.{mem, eq_refl}
use test_gpt_local.Scheduler.State.{Waiter, larger, highest, with_priority, rotate}

-- How the loop over the order ends: it stops at the first chosen workspace, which has gone to the
-- back with those before it, or it goes round and finds none.
pub record Found (chosen xs ys : List String) (r : List String × Option String) (workspace : String)
    : Type 0 where
  pub pre : List String
  pub post : List String
  pub split : xs ≡ pre ++ workspace ∷ post
  pub skipped : All (λ x. mem x chosen ≡ false) pre
  pub is_chosen : mem workspace chosen ≡ true
  pub order : r.0 ≡ (post ++ ys) ++ (pre ++ workspace ∷ [])
  pub result : r.1 ≡ some workspace

pub record Missed (chosen xs ys : List String) (r : List String × Option String) : Type 0 where
  pub absent : All (λ x. mem x chosen ≡ false) xs
  pub order : r.0 ≡ ys ++ xs
  pub result : r.1 ≡ none

abbrev pub Turned : (chosen xs ys : List String) → List String × Option String → Type 0
Turned chosen xs ys r =
    ((workspace : String) × Found chosen xs ys r workspace) ⊎ Missed chosen xs ys r

Turned-cons :
    (chosen : List String) (x : String) (xs ys : List String) (r : List String × Option String)
    → mem x chosen ≡ false
    → Turned chosen xs (ys ++ x ∷ []) r
    → Turned chosen (x ∷ xs) ys r
Turned-cons chosen x xs ys r h (inl (w, f)) = inl (
  w,
  record {
    pre = x ∷ f.pre;
    post = f.post;
    split = ap (λ l. x ∷ l) f.split;
    skipped = (h, f.skipped);
    is_chosen = f.is_chosen;
    order = rw f.order (simp append_assoc);
    result = f.result;
  },
)
Turned-cons chosen x xs ys r h (inr m) =
    inr
      (record { absent = (h, m.absent); order = rw m.order (simp append_assoc); result = m.result })

pub rotate_lem :
    (chosen xs ys : List String) → Turned chosen xs ys (rotate (length xs) chosen (xs ++ ys))
unfolding rotate
rotate_lem chosen [] ys = inr (record { absent = tt; order = simp append-nil; result = refl })
rotate_lem chosen (x ∷ xs) ys = elim (Bool-cases (mem x chosen)) [
  | inl h ↦ inl (
    x,
    record {
      pre = [];
      post = xs;
      split = refl;
      skipped = tt;
      is_chosen = h;
      order = rw h;
      result = rw h;
    },
  )
  | inr h ↦ rw h (
      rw append_assoc (
        Turned-cons chosen x xs ys (rotate (length xs) chosen (xs ++ (ys ++ x ∷ []))) h
          (rotate_lem chosen xs (ys ++ x ∷ []))))
]

larger-cases : (p q : ℤ) → (larger p q ≡ p) ⊎ (larger p q ≡ q)
unfolding larger
larger-cases p q = ground arith

larger-ge : (p q : ℤ) → (p ≤ℤ larger p q) × (q ≤ℤ larger p q)
unfolding larger
larger-ge p q = ground arith

-- The highest priority bounds all, and is that of one of the waiters.
pub highest-ge :
    (p : ℤ) (hs : List (String × Waiter))
    → (p ≤ℤ highest p hs) × All (λ h. (h.1).priority ≤ℤ highest p hs) hs
unfolding highest
highest-ge p [] = (omega arith, tt)
highest-ge p ((ws, w) ∷ hs) =
    let (a, b) = highest-ge (larger p w.priority) hs in
    let (c, d) = larger-ge p w.priority in (omega arith, (omega arith, b))

pub mem-with_priority_cons :
    (v ws : String) (w : Waiter) (p : ℤ) (hs : List (String × Waiter))
    → mem v (with_priority p hs) ≡ true
    → mem v (with_priority p ((ws, w) ∷ hs)) ≡ true
unfolding with_priority mem
mem-with_priority_cons v ws w p hs h = ground arith

pub mem-with_priority_self :
    (ws : String) (w : Waiter) (hs : List (String × Waiter))
    → mem ws (with_priority w.priority ((ws, w) ∷ hs)) ≡ true
unfolding with_priority mem
mem-with_priority_self ws w hs = rw eqℤ-refl (rw eq_refl)

pub highest-attained :
    (p : ℤ) (hs : List (String × Waiter))
    → (highest p hs ≡ p) ⊎ ((ws : String) × (mem ws (with_priority (highest p hs) hs) ≡ true))
unfolding highest
highest-attained p [] = inl refl
highest-attained p ((ws, w) ∷ hs) = elim (highest-attained (larger p w.priority) hs) [
  | inl e ↦ elim (larger-cases p w.priority) [
    | inl b ↦ inl (e ∙ b)
    | inr b ↦ inr (ws, rw (e ∙ b) (mem-with_priority_self ws w hs))
  ]
  | inr (v, m) ↦ inr (v, mem-with_priority_cons v ws w _ hs m)
]
