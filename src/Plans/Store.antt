-- ===== src/Plans/Store.antt =====
-- The tables of the plans, and their transactions in app/storage/database.py. A plan's rows of
-- `plan_steps` stand with the plan, in the order of their index. A transaction that raises is rolled
-- back, so it returns no tables.
use test_gpt_local.Prelude.{
  ℕ, ◌+◌, String, Bool, true, false, ◌&&◌, not, List, [], ◌∷◌, if◌then◌else◌, Option, none, some,
}
use test_gpt_local.Prelude.Int.{ℤ, pos, eqℤ}
use test_gpt_local.Prelude.Text.{◌==◌}
use test_gpt_local.Prelude.Dict
use test_gpt_local.Prelude.Dict.{Dict}
use test_gpt_local.Prelude.Result.{Result, ok, err, raise_if, ◌>>=◌, ◌>>◌}
use test_gpt_local.Events.Payload.{Json, null, array, object, nil}
use test_gpt_local.Plans.Input.{
  PlanError, plan_not_found, step_not_found, revision_not_allowed, revision_required,
  revision_conflict, other_in_progress, not_storable, workspace_not_found, NewStep,
}

pub record Step : Type 0 where
  pub step_id : String
  pub text : String
  pub status : String
  pub evidence : Option Json
  pub blocked_reason : Option Json
  pub created_at : ℕ
  pub updated_at : ℕ

pub record Plan : Type 0 where
  pub plan_id : String
  pub explanation : String
  pub revision : ℕ
  pub created_at : ℕ
  pub updated_at : ℕ
  pub steps : List Step

abbrev pub Plans : Type 0
Plans = Dict Plan

-- An empty list of evidence is stored as NULL.
stored_evidence : Option Json → Option Json
stored_evidence (some null) = none
stored_evidence (some (array nil)) = none
stored_evidence o = o

stored_reason : Option Json → Option Json
stored_reason (some null) = none
stored_reason o = o

-- SQLite has no value for a list or an object.
storable : NewStep → Bool
storable s = elim s.blocked_reason [ some (array xs) ↦ false | some (object fs) ↦ false | _ ↦ true ]

unfoldable pub all_storable : List NewStep → Bool
unfolding storable
all_storable [] = true
all_storable (s ∷ steps) = storable s && all_storable steps

abbrev step_row : ℕ → NewStep → Step
unfolding stored_evidence stored_reason
step_row now s = record {
  step_id = s.step_id;
  text = s.text;
  status = s.status;
  evidence = stored_evidence s.evidence;
  blocked_reason = stored_reason s.blocked_reason;
  created_at = now;
  updated_at = now;
}

unfoldable pub step_rows : ℕ → List NewStep → List Step
unfolding step_row
step_rows now [] = []
step_rows now (s ∷ steps) = step_row now s ∷ step_rows now steps

-- The plan's row: a new one, or the next revision. `known` tells whether the workspace's row is there,
-- to which the plan's refers.
unfoldable pub next_plan :
    (plan_id : String) (known : Bool) (explanation : String) (steps : List Step) (now : ℕ)
    → (expected_revision : Option ℤ) → Option Plan
    → Result PlanError Plan
next_plan plan_id known explanation steps now (some r) none = err revision_not_allowed
next_plan plan_id known explanation steps now none none =
    if known
    then ok (record {
      plan_id = plan_id;
      explanation = explanation;
      revision = 1;
      created_at = now;
      updated_at = now;
      steps = steps;
    })
    else err workspace_not_found
next_plan plan_id known explanation steps now none (some p) = err revision_required
next_plan plan_id known explanation steps now (some r) (some p) =
    if eqℤ (pos p.revision) r
    then ok (record p {
      explanation = explanation;
      revision = p.revision + 1;
      updated_at = now;
      steps = steps;
    })
    else err revision_conflict

unfoldable pub replace_plan :
    String
    → Bool
    → String
    → String
    → List NewStep
    → Option ℤ
    → ℕ
    → Plans
    → Result PlanError (ℕ × Plans)
unfolding next_plan step_rows all_storable
replace_plan plan_id known workspace explanation steps expected_revision now plans = do
  p ←
      next_plan plan_id known explanation (step_rows now steps) now expected_revision
        (Dict.get workspace plans)
  raise_if (not (all_storable steps)) not_storable
  ok (p.revision, Dict.put workspace p plans)

unfoldable pub find_step : String → List Step → Option Step
find_step step_id [] = none
find_step step_id (s ∷ steps) = if s.step_id == step_id then some s else find_step step_id steps

-- A step in progress that is not the given one
unfoldable pub other_active : String → List Step → Option Step
other_active step_id [] = none
other_active step_id (s ∷ steps) =
    if s.status == "in_progress" && not (s.step_id == step_id)
    then some s
    else other_active step_id steps

unfoldable pub next_revision : Option ℤ → ℕ → Result PlanError ℕ
next_revision none n = ok n
next_revision (some r) n = if eqℤ (pos n) r then ok (n + 1) else err revision_conflict

abbrev pub changed : String → Option Json → Option Json → ℕ → Step → Step
changed status evidence reason now s = record s {
  status = status;
  evidence = evidence;
  blocked_reason = reason;
  updated_at = now;
}

unfoldable pub change_step : String → (Step → Step) → List Step → List Step
change_step step_id f [] = []
change_step step_id f (s ∷ steps) =
    (if s.step_id == step_id then f s else s) ∷ change_step step_id f steps

unfoldable pub check_active : String → String → List Step → Result PlanError Unit
unfolding other_active
check_active step_id status steps =
    if status == "in_progress"
    then elim (other_active step_id steps) [
      | none ↦ ok tt
      | some s ↦ err (other_in_progress s.step_id)
    ]
    else ok tt

-- The plan's row is touched only if a revision is expected.
abbrev pub touched : Option ℤ → ℕ → ℕ → ℕ
touched none now before = before
touched (some r) now before = now

unfoldable pub next_step_plan :
    String → String → Option Json → Option Json → Option ℤ → ℕ → Option Plan → Result PlanError Plan
unfolding find_step check_active next_revision change_step
next_step_plan step_id status evidence reason expected_revision now none = err plan_not_found
next_step_plan step_id status evidence reason expected_revision now (some p) = do
  elim (find_step step_id p.steps) [ none ↦ err step_not_found | some s ↦ ok tt ]
  check_active step_id status p.steps
  revision ← next_revision expected_revision p.revision
  ok (record p {
    revision = revision;
    updated_at = touched expected_revision now p.updated_at;
    steps = change_step step_id (changed status evidence reason now) p.steps;
  })

unfoldable pub update_plan_step_with_revision :
    String
    → String
    → String
    → Option Json
    → Option Json
    → Option ℤ
    → ℕ
    → Plans
    → Result PlanError (ℕ × Plans)
unfolding next_step_plan
update_plan_step_with_revision workspace step_id status evidence reason expected_revision now
      plans =
    do
      p ←
          next_step_plan step_id status evidence reason expected_revision now
            (Dict.get workspace plans)
      ok (p.revision, Dict.put workspace p plans)

unfoldable pub bumped : Option ℤ → ℕ → Option Plan → Result PlanError Plan
unfolding next_revision
bumped expected now none = err plan_not_found
bumped expected now (some p) = do
  revision ← next_revision expected p.revision
  ok (record p { revision = revision; updated_at = now })

unfoldable pub update_plan_revision : String → ℤ → ℕ → Plans → Result PlanError (ℕ × Plans)
unfolding bumped
update_plan_revision workspace expected now plans = do
  p ← bumped (some expected) now (Dict.get workspace plans)
  ok (p.revision, Dict.put workspace p plans)

unfoldable pub delete_plan : String → Plans → Bool × Plans
delete_plan workspace plans =
    (elim (Dict.get workspace plans) [ none ↦ false | some p ↦ true ], Dict.remove workspace plans)
