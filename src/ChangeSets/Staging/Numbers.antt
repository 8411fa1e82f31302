-- ===== src/ChangeSets/Staging/Numbers.antt =====
-- The ids and the ordinals of the staged operations of app/services/change_set_store.py.
use test_gpt_local.Prelude.{
  ℕ, ◌+◌, ◌≤◌, ◌≡◌, refl, String, false, List, [], ◌∷◌, ◌++◌, length, max, none, inl, inr,
  Bool-cases, arith,
}
use test_gpt_local.Prelude.Text.{◌==◌, eq_iff}
use test_gpt_local.ChangeSets.State.{Operation}
use test_gpt_local.ChangeSets.Staging.{find_operation, next_ordinal}

-- The ordinals are `n`, `n + 1` and so on.
unfoldable pub IsNumbered : ℕ → List Operation → Type 0
IsNumbered n [] = Unit
IsNumbered n (o ∷ os) = (o.ordinal ≡ n) × IsNumbered (n + 1) os

-- No two operations have one id.
unfoldable pub IsDistinct : List Operation → Type 0
IsDistinct [] = Unit
IsDistinct (o ∷ os) = (find_operation o.operation_id os ≡ none) × IsDistinct os

pub IsNumbered-snoc :
    (n : ℕ) (os : List Operation) (o : Operation)
    → IsNumbered n os
    → o.ordinal ≡ n + length os
    → IsNumbered n (os ++ o ∷ [])
unfolding IsNumbered
IsNumbered-snoc n [] o h e = (omega (arith, e), tt)
IsNumbered-snoc n (x ∷ os) o (a, h) e = (a, IsNumbered-snoc (n + 1) os o h (omega (arith, e)))

next_ordinal-max :
    (n : ℕ) (os : List Operation)
    → 1 ≤ n
    → IsNumbered n os
    → max n (next_ordinal os) ≡ n + length os
unfolding IsNumbered next_ordinal
next_ordinal-max n [] p h = omega (arith, p)
next_ordinal-max n (x ∷ os) p (a, h) =
    omega (arith, p, a, next_ordinal-max (n + 1) os (omega (arith, p)) h)

next_ordinal-pos : (os : List Operation) → 1 ≤ next_ordinal os
unfolding next_ordinal
next_ordinal-pos [] = omega arith
next_ordinal-pos (x ∷ os) = omega (arith, next_ordinal-pos os)

-- The next ordinal of operations that are numbered from 1 is one more than their number.
pub next_ordinal_lem : (os : List Operation) → IsNumbered 1 os → next_ordinal os ≡ 1 + length os
next_ordinal_lem os h = omega (arith, next_ordinal-pos os, next_ordinal-max 1 os (omega arith) h)

find_operation-snoc :
    (k : String) (os : List Operation) (o : Operation)
    → find_operation k os ≡ none
    → o.operation_id == k ≡ false
    → find_operation k (os ++ o ∷ []) ≡ none
unfolding find_operation
find_operation-snoc k [] o h e = rw e refl
find_operation-snoc k (x ∷ os) o h e = elim (Bool-cases (x.operation_id == k)) [
  | inl b ↦ cc (rw b at h)
  | inr b ↦ rw b (find_operation-snoc k os o (rw b at h) e)
]

pub IsDistinct-snoc :
    (os : List Operation) (o : Operation)
    → IsDistinct os
    → find_operation o.operation_id os ≡ none
    → IsDistinct (os ++ o ∷ [])
unfolding IsDistinct find_operation
IsDistinct-snoc [] o h e = (refl, tt)
IsDistinct-snoc (x ∷ os) o (a, h) e = elim (Bool-cases (x.operation_id == o.operation_id)) [
  | inl b ↦ cc (rw b at e)
  | inr b ↦ (
    find_operation-snoc x.operation_id os o a (flipped _ _ b),
    IsDistinct-snoc os o h (rw b at e),
  )
]
  where
    flipped : (i j : String) → i == j ≡ false → j == i ≡ false
    flipped i j b = ground (arith, b, eq_iff i j, eq_iff j i)
