-- ===== src/Plans/Invariant.antt =====
-- What every stored plan keeps: distinct step ids, known statuses, and at most one step in progress
-- (app/services/workspace_plan.py).
use test_gpt_local.Prelude.{
  ℕ, suc, ◌≤◌, ◌≡◌, refl, subst, ap, String, Bool, true, false, List, [], ◌∷◌, arith, if◌then◌else◌,
  Option, none, some, length, All, inl, inr, Bool-cases, Option-cases,
}
use test_gpt_local.Prelude.Text.{◌==◌, mem, eq_iff}
use test_gpt_local.Prelude.Result.{Result, ok, raise_if, >>=-eq-ok}
use test_gpt_local.Events.Payload.{Json, null, boolean, number, text, array, object}
use test_gpt_local.Plans.Input.{
  PlanError, Lookups, NewStep, valid_statuses, validate_step, validate_evidence, status_text,
  required_text, lookup, bad_step_id, bad_text, duplicate_step_id,
}
use test_gpt_local.Plans.Store.{
  Step, Plan, step_rows, other_active, change_step, changed, check_active,
}
use test_gpt_local.Plans.Service.{validate_steps, count_in_progress}

abbrev pub ids : List Step → List String
ids [] = []
ids (s ∷ steps) = s.step_id ∷ ids steps

abbrev pub Distinct : List String → Type 0
Distinct [] = Unit
Distinct (x ∷ xs) = (mem x xs ≡ false) × Distinct xs

-- The number of steps in progress
unfoldable pub actives : List Step → ℕ
actives [] = 0
actives (s ∷ steps) =
    let rest = actives steps in if s.status == "in_progress" then suc rest else rest

abbrev pub HasStatus : Step → Type 0
HasStatus s = mem s.status valid_statuses ≡ true

pub record IsPlan (p : Plan) : Type 0 where
  pub distinct : Distinct (ids p.steps)
  pub known : All HasStatus p.steps
  pub active : actives p.steps ≤ 1
  pub nonempty : 1 ≤ length p.steps
  pub bounded : length p.steps ≤ 50
  pub revised : 1 ≤ p.revision

-- A change of one step, as `update_plan_step_with_revision` makes it.
module _ (i status : String) (evidence reason : Option Json) (now : ℕ) where
  abbrev after : List Step → List Step
  after steps = change_step i (changed status evidence reason now) steps

  pub ids-change_step : (steps : List Step) → ids (after steps) ≡ ids steps
  unfolding change_step
  ids-change_step [] = refl
  ids-change_step (s ∷ steps) = elim (Bool-cases (s.step_id == i)) [
    | inl b ↦ rw b (ap (λ l. s.step_id ∷ l) (ids-change_step steps))
    | inr b ↦ rw b (ap (λ l. s.step_id ∷ l) (ids-change_step steps))
  ]

  pub length-change_step : (steps : List Step) → length (after steps) ≡ length steps
  unfolding change_step
  length-change_step [] = refl
  length-change_step (s ∷ steps) = ap suc (length-change_step steps)

  pub change_step-HasStatus :
      (steps : List Step)
      → mem status valid_statuses ≡ true
      → All HasStatus steps
      → All HasStatus (after steps)
  unfolding change_step
  change_step-HasStatus [] h a = tt
  change_step-HasStatus (s ∷ steps) h a = elim (Bool-cases (s.step_id == i)) [
    | inl b ↦ rw b (h, change_step-HasStatus steps h a.1)
    | inr b ↦ rw b (a.0, change_step-HasStatus steps h a.1)
  ]

  actives-less :
      (steps : List Step)
      → (status == "in_progress") ≡ false
      → actives (after steps) ≤ actives steps
  unfolding change_step actives
  actives-less [] h = omega arith
  actives-less (s ∷ steps) h = ground (arith, actives-less steps)

  actives-zero :
      (steps : List Step)
      → mem i (ids steps) ≡ false
      → other_active i steps ≡ none
      → actives (after steps) ≡ 0
  unfolding change_step actives other_active mem
  actives-zero [] m o = refl
  actives-zero (s ∷ steps) m o = ground (arith, actives-zero steps)

  actives-one :
      (steps : List Step)
      → Distinct (ids steps)
      → other_active i steps ≡ none
      → actives (after steps) ≤ 1
  unfolding change_step actives other_active
  actives-one [] d o = omega arith
  actives-one (s ∷ steps) d o =
      ground (arith, actives-one steps d.1, actives-zero steps, eq_iff s.step_id i, d.0)

  pub actives-change_step :
      (steps : List Step)
      → Distinct (ids steps)
      → actives steps ≤ 1
      → check_active i status steps ≡ ok tt
      → actives (after steps) ≤ 1
  unfolding check_active
  actives-change_step steps d a h = elim (Bool-cases (status == "in_progress")) [
    | inr b ↦ omega (arith, actives-less steps b)
    | inl b ↦ elim (Option-cases (other_active i steps)) [
      | inl o ↦ actives-one steps d o
      | inr (s, o) ↦ cc (rw (b, o) at h)
    ]
  ]

abbrev pub new_ids : List NewStep → List String
new_ids [] = []
new_ids (s ∷ steps) = s.step_id ∷ new_ids steps

abbrev pub HasNewStatus : NewStep → Type 0
HasNewStatus s = mem s.status valid_statuses ≡ true

pub ids-step_rows : (now : ℕ) (steps : List NewStep) → ids (step_rows now steps) ≡ new_ids steps
unfolding step_rows
ids-step_rows now [] = refl
ids-step_rows now (s ∷ steps) = ap (λ l. s.step_id ∷ l) (ids-step_rows now steps)

pub actives-step_rows :
    (now : ℕ) (steps : List NewStep) → actives (step_rows now steps) ≡ count_in_progress steps
unfolding step_rows actives count_in_progress
actives-step_rows now [] = refl
actives-step_rows now (s ∷ steps) = ground (arith, actives-step_rows now steps)

pub length-step_rows :
    (now : ℕ) (steps : List NewStep) → length (step_rows now steps) ≡ length steps
unfolding step_rows
length-step_rows now [] = refl
length-step_rows now (s ∷ steps) = ap suc (length-step_rows now steps)

pub step_rows-HasStatus :
    (now : ℕ) (steps : List NewStep) → All HasNewStatus steps → All HasStatus (step_rows now steps)
unfolding step_rows
step_rows-HasStatus now [] a = tt
step_rows-HasStatus now (s ∷ steps) a = (a.0, step_rows-HasStatus now steps a.1)

pub ok_inj : {A : Type 0} {a b : A} → ◌≡◌ {A = Result PlanError A} (ok a) (ok b) → a ≡ b
ok_inj h = cc

status_text-HasStatus :
    (o : Option Json) (s : String) → status_text o ≡ ok s → mem s valid_statuses ≡ true
unfolding status_text valid_statuses mem
status_text-HasStatus none s h = subst (λ x. mem x valid_statuses ≡ true) (ok_inj h) refl
status_text-HasStatus (some (text t)) s h = ground (arith, h)
status_text-HasStatus (some null) s h = cc
status_text-HasStatus (some (boolean b)) s h = cc
status_text-HasStatus (some (number n)) s h = cc
status_text-HasStatus (some (array xs)) s h = cc
status_text-HasStatus (some (object fs)) s h = cc

validate_step-HasNewStatus : (j : Json) (s : NewStep) → validate_step j ≡ ok s → HasNewStatus s
unfolding validate_step
validate_step-HasNewStatus (object fs) s h =
    let (i, _, h1) = >>=-eq-ok (required_text bad_step_id (lookup "id" fs)) _ h in
    let (t, _, h2) = >>=-eq-ok (required_text bad_text (lookup "text" fs)) _ h1 in
    let (u, e, h3) = >>=-eq-ok (status_text (lookup "status" fs)) _ h2 in
    subst HasNewStatus (ok_inj h3) (status_text-HasStatus (lookup "status" fs) u e)
validate_step-HasNewStatus null s h = cc
validate_step-HasNewStatus (boolean b) s h = cc
validate_step-HasNewStatus (number n) s h = cc
validate_step-HasNewStatus (text t) s h = cc
validate_step-HasNewStatus (array xs) s h = cc

-- The ids of the checked steps are new and distinct, and their statuses are known.
pub record Checked (seen : List String) (steps : List NewStep) : Type 0 where
  pub fresh : All (λ i. mem i seen ≡ false) (new_ids steps)
  pub distinct : Distinct (new_ids steps)
  pub known : All HasNewStatus steps

mem-false :
    (i x : String) (seen : List String)
    → mem i (x ∷ seen) ≡ false
    → ((x == i) ≡ false) × (mem i seen ≡ false)
unfolding mem
mem-false i x seen h = ground arith

All-fresh :
    (x : String) (seen is : List String)
    → All (λ i. mem i (x ∷ seen) ≡ false) is
    → (mem x is ≡ false) × All (λ i. mem i seen ≡ false) is
unfolding mem
All-fresh x seen [] a = (refl, tt)
All-fresh x seen (i ∷ is) a =
    let (n, m) = mem-false i x seen a.0 in
    let (more, rest) = All-fresh x seen is a.1 in
    (ground (arith, eq_iff i x, eq_iff x i), (m, rest))

raise_if-false : (b : Bool) (e : PlanError) (u : Unit {0}) → raise_if b e ≡ ok u → b ≡ false
raise_if-false true e u h = cc
raise_if-false false e u h = refl

pub validate_steps-Checked :
    (lookups : Lookups) (workspace : String) (seen : List String) (steps : List Json)
    (checked : List NewStep)
    → validate_steps lookups workspace seen steps ≡ ok checked
    → Checked seen checked × (length checked ≡ length steps)
unfolding validate_steps
validate_steps-Checked lookups workspace seen [] checked h =
    subst (λ l. Checked seen l × (length l ≡ 0)) (ok_inj h)
      (record { fresh = tt; distinct = tt; known = tt }, refl)
validate_steps-Checked lookups workspace seen (step ∷ steps) checked h =
    let (s, e, h1) = >>=-eq-ok (validate_step step) _ h in
    let (_, _, h2) = >>=-eq-ok (validate_evidence lookups workspace s.evidence) _ h1 in
    let (u, f, h3) = >>=-eq-ok (raise_if (mem s.step_id seen) (duplicate_step_id s.step_id)) _ h2 in
    let (more, g, h4) =
      >>=-eq-ok (validate_steps lookups workspace (s.step_id ∷ seen) steps) _ h3 in
    let (c, l) = validate_steps-Checked lookups workspace (s.step_id ∷ seen) steps more g in
    let (new, fresh) = All-fresh s.step_id seen (new_ids more) c.fresh in
    subst (λ r. Checked seen r × (length r ≡ suc (length steps))) (ok_inj h4)
      (
        record {
          fresh = (raise_if-false (mem s.step_id seen) _ u f, fresh);
          distinct = (new, c.distinct);
          known = (validate_step-HasNewStatus step s e, c.known);
        },
        ap suc l,
      )
