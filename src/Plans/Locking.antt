-- ===== src/Plans/Locking.antt =====
-- The calls that change the plan of a workspace, and their revisions (app/services/workspace_plan.py).
use test_gpt_local.Prelude.{
  ℕ, ◌+◌, ◌≤◌, ◌≡◌, ◌≢◌, refl, sym, ap, ◌∙◌, String, Bool, true, not, List, [], arith, ltb, Option,
  none, some, length, inl, inr, Bool-cases,
}
use test_gpt_local.Prelude.Int.{ℤ, pos, eqℤ, eqℤ→eq}
use test_gpt_local.Prelude.Text.{mem, eq_refl, is_blank}
use test_gpt_local.Prelude.Dict
use test_gpt_local.Prelude.Dict.{IsUnique, get-put, get-remove, put-IsUnique, remove-IsUnique}
use test_gpt_local.Prelude.Result.{Result, ok, err, raise_if, >>=-eq-ok}
use test_gpt_local.Events.Payload.{Json, Items}
use test_gpt_local.Plans.Input.{
  PlanError, Lookups, NewStep, valid_statuses, validate_evidence, bad_status, bad_explanation,
  no_steps, too_many_steps, step_not_found, not_storable,
}
use test_gpt_local.Plans.Store.{
  Step, Plan, Plans, next_plan, step_rows, replace_plan, all_storable, next_revision, find_step,
  check_active, next_step_plan, change_step, changed, update_plan_step_with_revision, bumped,
  update_plan_revision, delete_plan,
}
use test_gpt_local.Plans.Service.{
  validate_steps, check_count, count_in_progress, update_plan, step_of, evidence_json,
  update_step_status,
}
use test_gpt_local.Plans.Invariant.{ok_inj}

abbrev pub revision_of : String → Plans → Option ℕ
revision_of workspace plans = elim (Dict.get workspace plans) [
  | none ↦ none
  | some p ↦ some p.revision
]

-- The plan `p` was stored for the workspace, and nothing else changed.
abbrev pub Stored : String → Plan → Plans → Plans → Type 0
Stored workspace p plans plans' = plans' ≡ Dict.put workspace p plans

-- A call that changes a workspace's plan and returns, with the revision that it expects.
module _ (lookups : Lookups) (workspace : String) where
  pub data Edit : Option ℤ → Plans → Plans → Type 0 where
    replaced :
        (plan_id explanation : String) (steps : List Json) (r : Option ℤ) (now n : ℕ)
        {plans plans' : Plans}
        → update_plan lookups plan_id workspace explanation steps r now plans ≡ ok (n, plans')
        → Edit r plans plans'
    stepped :
        (step_id status : String) (evidence : Option Items) (reason : Option Json) (r : Option ℤ)
        (now n : ℕ) {plans plans' : Plans}
        → update_step_status lookups workspace step_id status evidence reason r now plans
          ≡ ok (n, plans')
        → Edit r plans plans'
    revised :
        (r : ℤ) (now n : ℕ) {plans plans' : Plans}
        → update_plan_revision workspace r now plans ≡ ok (n, plans')
        → Edit (some r) plans plans'
    deleted :
        (found : Bool) {plans plans' : Plans}
        → delete_plan workspace plans ≡ (found, plans')
        → Edit none plans plans'

pair :
    {n m : ℕ} {t u : Plans}
    → ◌≡◌ {A = Result PlanError (ℕ × Plans)} (ok (n, t)) (ok (m, u))
    → (n ≡ m) × (t ≡ u)
pair h = (cc, cc)

-- What the transaction of a new plan computed.
pub replace_plan-eq-ok :
    (plan_id : String) (known : Bool) (workspace explanation : String) (steps : List NewStep)
    (r : Option ℤ) (now n : ℕ) (plans plans' : Plans)
    → replace_plan plan_id known workspace explanation steps r now plans ≡ ok (n, plans')
    → (p : Plan) × (next_plan plan_id known explanation
          (step_rows now steps)
          now
          r
          (Dict.get workspace plans)
        ≡ ok p)
      × Stored workspace p plans plans'
unfolding replace_plan
replace_plan-eq-ok plan_id known workspace explanation steps r now n plans plans' h =
    let (p, e, h1) =
      >>=-eq-ok
        (next_plan plan_id known explanation (step_rows now steps) now r (Dict.get workspace plans))
        _ h in
    let (_, _, h2) = >>=-eq-ok (raise_if (not (all_storable steps)) not_storable) _ h1 in
    (p, e, sym (pair h2).1)

pub update_plan-eq-ok :
    (lookups : Lookups) (plan_id workspace explanation : String) (steps : List Json) (r : Option ℤ)
    (now n : ℕ) (plans plans' : Plans)
    → update_plan lookups plan_id workspace explanation steps r now plans ≡ ok (n, plans')
    → (checked : List NewStep) × (validate_steps lookups workspace [] steps ≡ ok checked)
      × (1 ≤ length steps)
      × (length steps ≤ 50)
      × (count_in_progress checked ≤ 1)
      × (known : Bool) × (replace_plan plan_id known workspace explanation checked r now plans
          ≡ ok (n, plans'))
unfolding update_plan
update_plan-eq-ok lookups plan_id workspace explanation steps r now n plans plans' h =
    let (_, _, h1) = >>=-eq-ok (raise_if (is_blank explanation) bad_explanation) _ h in
    let (_, a, h2) = >>=-eq-ok (raise_if (ltb (length steps) 1) no_steps) _ h1 in
    let (_, b, h3) = >>=-eq-ok (raise_if (ltb 50 (length steps)) too_many_steps) _ h2 in
    let (checked, c, h4) = >>=-eq-ok (validate_steps lookups workspace [] steps) _ h3 in
    let (_, d, h5) = >>=-eq-ok (check_count lookups (count_in_progress checked)) _ h4 in
    (
      checked,
      c,
      ground (arith, a),
      ground (arith, b),
      unfold check_count in ground (arith, d),
      _,
      h5,
    )

pub update_plan_step-eq-ok :
    (workspace step_id status : String) (evidence reason : Option Json) (r : Option ℤ) (now n : ℕ)
    (plans plans' : Plans)
    → update_plan_step_with_revision workspace step_id status evidence reason r now plans
      ≡ ok (n, plans')
    → (p : Plan) × (next_step_plan step_id status evidence reason r now (Dict.get workspace plans)
        ≡ ok p)
      × Stored workspace p plans plans'
unfolding update_plan_step_with_revision
update_plan_step-eq-ok workspace step_id status evidence reason r now n plans plans' h =
    let (p, e, h1) =
      >>=-eq-ok (next_step_plan step_id status evidence reason r now (Dict.get workspace plans)) _
        h in
    (p, e, sym (pair h1).1)

pub update_step_status-eq-ok :
    (lookups : Lookups) (workspace step_id status : String) (evidence : Option Items)
    (reason : Option Json) (r : Option ℤ) (now n : ℕ) (plans plans' : Plans)
    → update_step_status lookups workspace step_id status evidence reason r now plans
      ≡ ok (n, plans')
    → (mem status valid_statuses ≡ true)
      × (e : Option Json) × (f : Option Json) × (update_plan_step_with_revision workspace step_id
            status e f r now plans
          ≡ ok (n, plans'))
unfolding update_step_status
update_step_status-eq-ok lookups workspace step_id status evidence reason r now n plans plans' h =
    let (_, a, h1) = >>=-eq-ok (raise_if (not (mem status valid_statuses)) bad_status) _ h in
    let (_, _, h2) =
      >>=-eq-ok (validate_evidence lookups workspace (evidence_json lookups evidence)) _ h1 in
    let (_, _, h3) = >>=-eq-ok (step_of lookups step_id (Dict.get workspace plans)) _ h2 in
    (ground (arith, a), _, _, h3)

pub next_revision-eq-ok :
    (r : ℤ) (n m : ℕ) → next_revision (some r) n ≡ ok m → (r ≡ pos n) × (m ≡ n + 1)
unfolding next_revision
next_revision-eq-ok r n m h = elim (Bool-cases (eqℤ (pos n) r)) [
  | inl b ↦ (sym (eqℤ→eq (pos n) r b), sym (ok_inj (rw b at h)))
  | inr b ↦ cc (rw b at h)
]

-- What a changed step leaves of its plan.
pub next_step_plan-eq-ok :
    (step_id status : String) (evidence reason : Option Json) (r : Option ℤ) (now : ℕ) (p q : Plan)
    → next_step_plan step_id status evidence reason r now (some p) ≡ ok q
    → (check_active step_id status p.steps ≡ ok tt)
      × (next_revision r p.revision ≡ ok q.revision)
      × (q.steps ≡ change_step step_id (changed status evidence reason now) p.steps)
unfolding next_step_plan
next_step_plan-eq-ok step_id status evidence reason r now p q h =
    let (_, _, h1) =
      >>=-eq-ok (elim (find_step step_id p.steps) [ none ↦ err step_not_found | some s ↦ ok tt ]) _
        h in
    let (u, a, h2) = >>=-eq-ok (check_active step_id status p.steps) _ h1 in
    let (n, b, h3) = >>=-eq-ok (next_revision r p.revision) _ h2 in
    (a, b ∙ ap (λ x. ok x.revision) (ok_inj h3), sym (ap (λ x. x.steps) (ok_inj h3)))

-- The plan that was there had the expected revision, and the one that is there has the next.
abbrev Moves : ℤ → Option Plan → Plan → Type 0
Moves r none q = ⊥
Moves r (some p) q = (r ≡ pos p.revision) × (q.revision ≡ p.revision + 1)

next_plan-Moves :
    (plan_id : String) (known : Bool) (explanation : String) (steps : List Step) (now : ℕ) (r : ℤ)
    (o : Option Plan) (q : Plan)
    → next_plan plan_id known explanation steps now (some r) o ≡ ok q
    → Moves r o q
unfolding next_plan
next_plan-Moves plan_id known explanation steps now r none q h = cc
next_plan-Moves plan_id known explanation steps now r (some p) q h =
    elim (Bool-cases (eqℤ (pos p.revision) r)) [
      | inl b ↦ (sym (eqℤ→eq (pos p.revision) r b), sym (ap (λ x. x.revision) (ok_inj (rw b at h))))
      | inr b ↦ cc (rw b at h)
    ]

pub next_step_plan-none :
    (step_id status : String) (evidence reason : Option Json) (r : Option ℤ) (now : ℕ) (q : Plan)
    → next_step_plan step_id status evidence reason r now none ≢ ok q
unfolding next_step_plan
next_step_plan-none step_id status evidence reason r now q h = cc

next_step_plan-Moves :
    (step_id status : String) (evidence reason : Option Json) (r : ℤ) (now : ℕ) (o : Option Plan)
    (q : Plan)
    → next_step_plan step_id status evidence reason (some r) now o ≡ ok q
    → Moves r o q
next_step_plan-Moves step_id status evidence reason r now none q h =
    absurd (next_step_plan-none step_id status evidence reason (some r) now q h)
next_step_plan-Moves step_id status evidence reason r now (some p) q h =
    next_revision-eq-ok r p.revision q.revision
      (next_step_plan-eq-ok step_id status evidence reason (some r) now p q h).1

bumped-Moves :
    (r : ℤ) (now : ℕ) (o : Option Plan) (q : Plan) → bumped (some r) now o ≡ ok q → Moves r o q
unfolding bumped
bumped-Moves r now none q h = cc
bumped-Moves r now (some p) q h =
    let (n, b, h1) = >>=-eq-ok (next_revision (some r) p.revision) _ h in
    next_revision-eq-ok r p.revision q.revision (b ∙ ap (λ x. ok x.revision) (ok_inj h1))

pub update_plan_revision-eq-ok :
    (workspace : String) (r : ℤ) (now n : ℕ) (plans plans' : Plans)
    → update_plan_revision workspace r now plans ≡ ok (n, plans')
    → (p : Plan) × (bumped (some r) now (Dict.get workspace plans) ≡ ok p)
      × Stored workspace p plans plans'
unfolding update_plan_revision
update_plan_revision-eq-ok workspace r now n plans plans' h =
    let (p, e, h1) = >>=-eq-ok (bumped (some r) now (Dict.get workspace plans)) _ h in
    (p, e, sym (pair h1).1)

abbrev Advances : String → ℤ → Plans → Plans → Type 0
Advances workspace r plans plans' =
    (n : ℕ) × (r ≡ pos n)
    × (revision_of workspace plans ≡ some n)
    × (revision_of workspace plans' ≡ some (n + 1))

Stored-Advances :
    (workspace : String) (r : ℤ) (q : Plan) (plans plans' : Plans) (o : Option Plan)
    → Dict.get workspace plans ≡ o
    → Moves r o q
    → Stored workspace q plans plans'
    → Advances workspace r plans plans'
Stored-Advances workspace r q plans plans' none e m s = absurd m
Stored-Advances workspace r q plans plans' (some p) e m s =
    (p.revision, m.0, rw (revision_of, e) refl, rw (revision_of, s, get-put, eq_refl) (ap some m.1))

next_is_other : (n m : ℕ) → pos n ≡ pos m → some (n + 1) ≢ some m
next_is_other n m e f = ground arith

module _ (lookups : Lookups) (workspace : String) where
  -- A call that expects a revision and returns found that revision in the workspace's plan, and left
  -- the next one.
  pub Edit-Advances :
      (r : ℤ) (plans plans' : Plans)
      → Edit lookups workspace (some r) plans plans'
      → Advances workspace r plans plans'
  Edit-Advances r plans plans' (replaced plan_id explanation steps _ now n h) =
      let (checked, _, _, _, _, known, h1) =
        update_plan-eq-ok lookups plan_id workspace explanation steps (some r) now n plans plans'
          h in
      let (q, e, s) =
        replace_plan-eq-ok plan_id known workspace explanation checked (some r) now n plans plans'
          h1 in
      Stored-Advances workspace r q plans plans' _ refl
        (next_plan-Moves plan_id known explanation (step_rows now checked) now r
          (Dict.get workspace plans) q e)
        s
  Edit-Advances r plans plans' (stepped step_id status evidence reason _ now n h) =
      let (_, x, y, h1) =
        update_step_status-eq-ok lookups workspace step_id status evidence reason (some r) now n
          plans plans' h in
      let (q, e, s) =
        update_plan_step-eq-ok workspace step_id status x y (some r) now n plans plans' h1 in
      Stored-Advances workspace r q plans plans' _ refl
        (next_step_plan-Moves step_id status x y r now (Dict.get workspace plans) q e) s
  Edit-Advances r plans plans' (revised _ now n h) =
      let (q, e, s) = update_plan_revision-eq-ok workspace r now n plans plans' h in
      Stored-Advances workspace r q plans plans' _ refl
        (bumped-Moves r now (Dict.get workspace plans) q e) s

  -- Of two calls in a row that expect the same revision of a workspace's plan at most one returns: where
  -- the first returned, the
  -- second raises, whatever it is.
  pub Edit-once :
      (r : ℤ) (plans plans' plans'' : Plans)
      → Edit lookups workspace (some r) plans plans'
      → ¬ Edit lookups workspace (some r) plans' plans''
  Edit-once r plans plans' plans'' first second =
      let (n, e, _, f) = Edit-Advances r plans plans' first in
      let (m, g, h, _) = Edit-Advances r plans' plans'' second in
      next_is_other n m (sym e ∙ g) (sym f ∙ h)
