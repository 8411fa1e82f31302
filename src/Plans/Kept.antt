-- ===== src/Plans/Kept.antt =====
-- What every call of app/services/workspace_plan.py that changes a plan keeps.
use test_gpt_local.Prelude.{
  ℕ, ◌≤◌, ◌≡◌, refl, sym, subst, ap, String, Bool, true, List, [], arith, Option, none, some,
  length, All, inl, inr, Bool-cases,
}
use test_gpt_local.Prelude.Int.{ℤ, pos, eqℤ}
use test_gpt_local.Prelude.Text.{◌==◌, mem}
use test_gpt_local.Prelude.Dict
use test_gpt_local.Prelude.Dict.{IsUnique, get-put, get-remove, put-IsUnique, remove-IsUnique}
use test_gpt_local.Prelude.Result.{ok, >>=-eq-ok}
use test_gpt_local.Events.Payload.{Json}
use test_gpt_local.Plans.Input.{Lookups, NewStep, valid_statuses}
use test_gpt_local.Plans.Store.{
  Step, Plan, Plans, next_plan, step_rows, next_revision, next_step_plan, bumped, delete_plan,
}
use test_gpt_local.Plans.Service.{count_in_progress}
use test_gpt_local.Plans.Invariant.{
  ok_inj, ids, actives, Distinct, HasStatus, IsPlan, Checked, validate_steps-Checked, ids-step_rows,
  actives-step_rows, length-step_rows, step_rows-HasStatus, ids-change_step, length-change_step,
  change_step-HasStatus, actives-change_step,
}
use test_gpt_local.Plans.Locking.{
  Stored, Edit, replaced, stepped, revised, deleted, replace_plan-eq-ok, update_plan-eq-ok,
  update_plan_step-eq-ok, update_step_status-eq-ok, next_step_plan-eq-ok, next_step_plan-none,
  update_plan_revision-eq-ok,
}

-- Every stored plan is in order, and a workspace has at most one.
pub record IsPlanned (plans : Plans) : Type 0 where
  pub unique : IsUnique plans
  pub each : (workspace : String) (p : Plan) → Dict.get workspace plans ≡ some p → IsPlan p

-- The part of a plan's order that its steps have.
pub record AreSteps (steps : List Step) : Type 0 where
  pub distinct : Distinct (ids steps)
  pub known : All HasStatus steps
  pub active : actives steps ≤ 1
  pub nonempty : 1 ≤ length steps
  pub bounded : length steps ≤ 50

AreSteps-IsPlan : (p : Plan) → AreSteps p.steps → 1 ≤ p.revision → IsPlan p
AreSteps-IsPlan p a r = record {
  distinct = a.distinct;
  known = a.known;
  active = a.active;
  nonempty = a.nonempty;
  bounded = a.bounded;
  revised = r;
}

step_rows-AreSteps :
    (now : ℕ) (steps : List NewStep)
    → Checked [] steps
    → 1 ≤ length steps
    → length steps ≤ 50
    → count_in_progress steps ≤ 1
    → AreSteps (step_rows now steps)
step_rows-AreSteps now steps c a b d = record {
  distinct = rw ids-step_rows c.distinct;
  known = step_rows-HasStatus now steps c.known;
  active = rw actives-step_rows d;
  nonempty = rw length-step_rows a;
  bounded = rw length-step_rows b;
}

change_step-AreSteps :
    (i status : String) (evidence reason : Option Json) (now : ℕ) (p q : Plan) (r : Option ℤ)
    → mem status valid_statuses ≡ true
    → next_step_plan i status evidence reason r now (some p) ≡ ok q
    → IsPlan p
    → AreSteps q.steps
change_step-AreSteps i status evidence reason now p q r h e k =
    let (a, _, same) = next_step_plan-eq-ok i status evidence reason r now p q e in
    subst AreSteps (sym same) (record {
      distinct = rw ids-change_step k.distinct;
      known = change_step-HasStatus i status evidence reason now p.steps h k.known;
      active = actives-change_step i status evidence reason now p.steps k.distinct k.active a;
      nonempty = rw length-change_step k.nonempty;
      bounded = rw length-change_step k.bounded;
    })

next_revision-ge : (r : Option ℤ) (n m : ℕ) → next_revision r n ≡ ok m → n ≤ m
unfolding next_revision
next_revision-ge none n m h = ground arith
next_revision-ge (some r) n m h = ground arith

-- Storing a plan that is in order.
Stored-IsPlanned :
    (workspace : String) (p : Plan) (plans plans' : Plans)
    → IsPlanned plans
    → IsPlan p
    → Stored workspace p plans plans'
    → IsPlanned plans'
Stored-IsPlanned workspace p plans plans' i k s = rw s (record {
  unique = put-IsUnique workspace p plans i.unique;
  each = λ w q h. elim (Bool-cases (workspace == w)) [
    | inl b ↦ subst IsPlan (cc (rw (get-put, b) at h)) k
    | inr b ↦ i.each w q (rw (get-put, b) at h)
  ];
})

next_plan-IsPlan :
    (plan_id : String) (known : Bool) (explanation : String) (steps : List Step) (now : ℕ)
    (r : Option ℤ) (o : Option Plan) (q : Plan)
    → next_plan plan_id known explanation steps now r o ≡ ok q
    → AreSteps steps
    → IsPlan q
unfolding next_plan
next_plan-IsPlan plan_id known explanation steps now (some r) none q h a = cc
next_plan-IsPlan plan_id known explanation steps now none none q h a = elim (Bool-cases known) [
  | inl b ↦ subst IsPlan (ok_inj (rw b at h)) (AreSteps-IsPlan _ a (omega arith))
  | inr b ↦ cc (rw b at h)
]
next_plan-IsPlan plan_id known explanation steps now none (some p) q h a = cc
next_plan-IsPlan plan_id known explanation steps now (some r) (some p) q h a =
    elim (Bool-cases (eqℤ (pos p.revision) r)) [
      | inl b ↦ subst IsPlan (ok_inj (rw b at h)) (AreSteps-IsPlan _ a (omega arith))
      | inr b ↦ cc (rw b at h)
    ]

next_step_plan-IsPlan :
    (i status : String) (evidence reason : Option Json) (r : Option ℤ) (now : ℕ) (o : Option Plan)
    (q : Plan)
    → next_step_plan i status evidence reason r now o ≡ ok q
    → mem status valid_statuses ≡ true
    → ((p : Plan) → o ≡ some p → IsPlan p)
    → IsPlan q
next_step_plan-IsPlan i status evidence reason r now none q h m k =
    absurd (next_step_plan-none i status evidence reason r now q h)
next_step_plan-IsPlan i status evidence reason r now (some p) q h m k =
    let (_, b, _) = next_step_plan-eq-ok i status evidence reason r now p q h in
    let before = k p refl in
    AreSteps-IsPlan q (change_step-AreSteps i status evidence reason now p q r m h before)
      (omega (arith, next_revision-ge r p.revision q.revision b, before.revised))

bumped-IsPlan :
    (r : Option ℤ) (now : ℕ) (o : Option Plan) (q : Plan)
    → bumped r now o ≡ ok q
    → ((p : Plan) → o ≡ some p → IsPlan p)
    → IsPlan q
unfolding bumped
bumped-IsPlan r now none q h k = cc
bumped-IsPlan r now (some p) q h k =
    let (n, b, h1) = >>=-eq-ok (next_revision r p.revision) _ h in
    let i = k p refl in
    subst IsPlan (ok_inj h1) (
      AreSteps-IsPlan _
        (record {
          distinct = i.distinct;
          known = i.known;
          active = i.active;
          nonempty = i.nonempty;
          bounded = i.bounded;
        })
        (omega (arith, next_revision-ge r p.revision n b, i.revised)))

delete_plan-IsPlanned :
    (workspace : String) (plans : Plans)
    → IsPlanned plans
    → IsPlanned (delete_plan workspace plans).1
unfolding delete_plan
delete_plan-IsPlanned workspace plans i = record {
  unique = remove-IsUnique workspace plans i.unique;
  each = λ w q h. i.each w q (ground (arith, h, get-remove workspace w plans i.unique));
}

module _ (lookups : Lookups) (workspace : String) where
  -- Whatever call changes the plan of a workspace, every stored plan keeps 1 to 50 steps with distinct
  -- ids and known statuses, at most one of them in progress, and a revision from 1; and a workspace
  -- keeps at most one plan.
  pub Edit-IsPlanned :
      (r : Option ℤ) (plans plans' : Plans)
      → Edit lookups workspace r plans plans'
      → IsPlanned plans
      → IsPlanned plans'
  Edit-IsPlanned r plans plans' (replaced plan_id explanation steps _ now n h) i =
      let (checked, c, a, b, d, known, h1) =
        update_plan-eq-ok lookups plan_id workspace explanation steps r now n plans plans' h in
      let (q, e, s) =
        replace_plan-eq-ok plan_id known workspace explanation checked r now n plans plans' h1 in
      let (k, l) = validate_steps-Checked lookups workspace [] steps checked c in
      Stored-IsPlanned workspace q plans plans' i
        (next_plan-IsPlan plan_id known explanation (step_rows now checked) now r
          (Dict.get workspace plans) q e (step_rows-AreSteps now checked k (rw l a) (rw l b) d))
        s
  Edit-IsPlanned r plans plans' (stepped step_id status evidence reason _ now n h) i =
      let (m, x, y, h1) =
        update_step_status-eq-ok lookups workspace step_id status evidence reason r now n plans
          plans' h in
      let (q, e, s) = update_plan_step-eq-ok workspace step_id status x y r now n plans plans' h1 in
      Stored-IsPlanned workspace q plans plans' i
        (next_step_plan-IsPlan step_id status x y r now (Dict.get workspace plans) q e m
          (i.each workspace))
        s
  Edit-IsPlanned r plans plans' (revised r' now n h) i =
      let (q, e, s) = update_plan_revision-eq-ok workspace r' now n plans plans' h in
      Stored-IsPlanned workspace q plans plans' i
        (bumped-IsPlan (some r') now (Dict.get workspace plans) q e (i.each workspace)) s
  Edit-IsPlanned r plans plans' (deleted found h) i =
      subst IsPlanned (ap (λ x. x.1) h) (delete_plan-IsPlanned workspace plans i)
