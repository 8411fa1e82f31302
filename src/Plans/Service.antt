-- ===== src/Plans/Service.antt =====
-- `update_plan` and `update_step_status` of app/services/workspace_plan.py: the checks, then one
-- transaction. The log of operations and the returned view of the plan are left out.
use test_gpt_local.Prelude.{
  ℕ, suc, String, Bool, true, false, not, List, [], ◌∷◌, ltb, if◌then◌else◌, Option, none, some,
  length,
}
use test_gpt_local.Prelude.Int.{ℤ}
use test_gpt_local.Prelude.Text.{◌==◌, mem, is_blank}
use test_gpt_local.Prelude.Dict
use test_gpt_local.Prelude.Result.{Result, ok, err, raise_if, ◌>>=◌, ◌>>◌}
use test_gpt_local.Events.Payload.{Json, array, Items}
use test_gpt_local.Plans.Input.{
  PlanError, bad_explanation, no_steps, too_many_steps, duplicate_step_id, several_in_progress,
  bad_status, plan_not_found, step_not_found, Lookups, valid_statuses, NewStep, validate_step,
  validate_evidence,
}
use test_gpt_local.Plans.Store.{
  Step, Plan, Plans, find_step, replace_plan, update_plan_step_with_revision,
}

-- `sum(1 for s in steps if …)`
unfoldable pub count_in_progress : List NewStep → ℕ
count_in_progress [] = 0
count_in_progress (s ∷ steps) =
    let rest = count_in_progress steps in if s.status == "in_progress" then suc rest else rest

unfoldable pub merged : Option Json → Option Json → Option Json
merged none before = before
merged (some v) before = some v

module _ (lookups : Lookups) where
  -- The loop over the steps; `seen` has the ids of those before.
  unfoldable pub validate_steps : String → List String → List Json → Result PlanError (List NewStep)
  unfolding validate_step validate_evidence mem
  validate_steps workspace seen [] = ok []
  validate_steps workspace seen (step ∷ steps) = do
    s ← validate_step step
    validate_evidence lookups workspace s.evidence
    raise_if (mem s.step_id seen) (duplicate_step_id s.step_id)
    more ← validate_steps workspace (s.step_id ∷ seen) steps
    ok (s ∷ more)

  unfoldable pub check_count : ℕ → Result PlanError Unit
  check_count n = raise_if (ltb 1 n) (several_in_progress n)

  unfoldable pub is_known : Option String → Bool
  is_known none = false
  is_known (some path) = true

  -- `plan_id` is the id that a new plan would get.
  unfoldable pub update_plan :
      (plan_id : String)
      → (workspace explanation : String) → List Json
      → (expected_revision : Option ℤ) → (now : ℕ) → Plans
      → Result PlanError (ℕ × Plans)
  unfolding is_blank validate_steps check_count count_in_progress replace_plan is_known
  update_plan plan_id workspace explanation steps expected_revision now plans = do
    raise_if (is_blank explanation) bad_explanation
    raise_if (ltb (length steps) 1) no_steps
    raise_if (ltb 50 (length steps)) too_many_steps
    checked ← validate_steps workspace [] steps
    check_count (count_in_progress checked)
    replace_plan plan_id (is_known (lookups.worktree_path workspace)) workspace explanation checked
        expected_revision now plans

  -- The step whose status changes, in the plan that was read.
  unfoldable pub step_of : String → Option Plan → Result PlanError Step
  unfolding find_step
  step_of step_id none = err plan_not_found
  step_of step_id (some p) = elim (find_step step_id p.steps) [
    | none ↦ err step_not_found
    | some s ↦ ok s
  ]

  abbrev pub evidence_json : Option Items → Option Json
  evidence_json none = none
  evidence_json (some items) = some (array items)

  unfoldable pub update_step_status :
      (workspace step_id status : String)
      → (evidence : Option Items) → (blocked_reason : Option Json) → (expected_revision : Option ℤ)
      → (now : ℕ) → Plans
      → Result PlanError (ℕ × Plans)
  unfolding mem valid_statuses validate_evidence step_of merged update_plan_step_with_revision
  update_step_status workspace step_id status evidence blocked_reason expected_revision now plans =
      do
        raise_if (not (mem status valid_statuses)) bad_status
        validate_evidence lookups workspace (evidence_json evidence)
        s ← step_of step_id (Dict.get workspace plans)
        update_plan_step_with_revision workspace step_id status
            (merged (evidence_json evidence) s.evidence) (merged blocked_reason s.blocked_reason)
            expected_revision now plans
