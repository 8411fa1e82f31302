-- ===== src/Plans/Effects.antt =====
-- What `update_step_status` of app/services/workspace_plan.py changes.
use test_gpt_local.Prelude.{◌≡◌, ◌≢◌, String, Option, some}
use test_gpt_local.Prelude.Int.{ℤ}
use test_gpt_local.Prelude.Dict
use test_gpt_local.Prelude.Dict.{IsUnique, get-remove}
use test_gpt_local.Prelude.Result.{ok}
use test_gpt_local.Plans.Store.{Step, Plan, Plans, find_step, next_revision}

-- What a step's new status leaves of the plan.
pub record StepChanged (i status : String) (r : Option ℤ) (p q : Plan) : Type 0 where
  pub before : Step
  pub after : Step
  pub was : find_step i p.steps ≡ some before
  pub is : find_step i q.steps ≡ some after
  pub text : after.text ≡ before.text
  pub status_set : after.status ≡ status
  pub others : (j : String) → i ≢ j → find_step j q.steps ≡ find_step j p.steps
  pub revision : next_revision r p.revision ≡ ok q.revision
