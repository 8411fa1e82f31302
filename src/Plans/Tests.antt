-- ===== src/Plans/Tests.antt =====
-- Runs of the plans at small inputs, and the theorems at those inputs.
use test_gpt_local.Prelude.{ℕ, ◌+◌, ◌≡◌, refl, String, true, List, [], ◌∷◌, none, some}
use test_gpt_local.Prelude.Int.{pos}
use test_gpt_local.Prelude.Text.{mem}
use test_gpt_local.Prelude.Dict
use test_gpt_local.Prelude.Dict.{Dict}
use test_gpt_local.Prelude.Result.{ok, err}
use test_gpt_local.Events.Payload.{Json, text, array, object, nil, cons, end, field}
use test_gpt_local.Plans.Input.{
  validate_item, Lookups, validate_evidence, other_in_progress, duplicate_step_id,
  several_in_progress, cross_workspace,
}
use test_gpt_local.Plans.Store.{Step, Plan, Plans, find_step, update_plan_revision, delete_plan}
use test_gpt_local.Plans.Service.{update_plan, update_step_status}
use test_gpt_local.Plans.Locking.{Edit, stepped, replaced, revision_of, Edit-Advances, Edit-once}
use test_gpt_local.Plans.Kept.{IsPlanned, Edit-IsPlanned}
use test_gpt_local.Plans.Freshness.{MoreLookups, item_status, item_status-found}

-- One process of workspace "v", and two workspaces.
abbrev lookups : Lookups
lookups = record {
  process_workspace = λ p. some "v";
  artifact_workspace = λ a. none;
  worktree_path = λ w. some "root";
  resolves_within = λ root path. true;
}

abbrev step : String → String → Json
step id status =
    object (field "id" (text id) (field "text" (text "work") (field "status" (text status) end)))

abbrev row : String → String → ℕ → Step
row id status updated = record {
  step_id = id;
  text = "work";
  status = status;
  evidence = none;
  blocked_reason = none;
  created_at = 1;
  updated_at = updated;
}

abbrev plan : ℕ → ℕ → List Step → Plan
plan revision updated steps = record {
  plan_id = "plan_1";
  explanation = "go";
  revision = revision;
  created_at = 1;
  updated_at = updated;
  steps = steps;
}

abbrev first : Plans
first = ("w", plan 1 1 (row "a" "in_progress" 1 ∷ row "b" "pending" 1 ∷ [])) ∷ []

abbrev second : Plans
second = ("w", plan 2 5 (row "a" "completed" 5 ∷ row "b" "pending" 1 ∷ [])) ∷ []

program : Unit {0}
unfolding update_plan update_step_status update_plan_revision delete_plan validate_evidence
    find_step item_status Dict.get Dict.put Dict.remove mem
program = tt

update_plan-first :
    update_plan lookups "plan_1" "w" "go"
      (step "a" "in_progress" ∷ step "b" "pending" ∷ [])
      none
      1
      []
    ≡ ok (1, first)
unfolding program
update_plan-first = refl

update_plan-two_active :
    update_plan lookups "plan_1" "w" "go"
      (step "a" "in_progress" ∷ step "b" "in_progress" ∷ [])
      none
      1
      []
    ≡ err (several_in_progress 2)
unfolding program
update_plan-two_active = refl

update_plan-same_ids :
    update_plan lookups "plan_1" "w" "go" (step "a" "pending" ∷ step "a" "pending" ∷ []) none 1 []
    ≡ err (duplicate_step_id "a")
unfolding program
update_plan-same_ids = refl

update_step_status-busy :
    update_step_status lookups "w" "b" "in_progress" none none (some (pos 1)) 5 first
    ≡ err (other_in_progress "a")
unfolding program
update_step_status-busy = refl

-- A process of another workspace is no evidence; an id of another shape is kept as it is.
validate_evidence-foreign :
    validate_evidence lookups "w" (
      some (
        array (
          cons
            (object (field "type" (text "process_id") (field "id" (text "pr-0123abcd") end)))
            nil)))
    ≡ err cross_workspace
unfolding program
validate_evidence-foreign = refl

validate_evidence-opaque :
    validate_evidence lookups "w" (
      some (
        array
          (cons (object (field "type" (text "process_id") (field "id" (text "pr-1") end))) nil)))
    ≡ ok tt
unfolding program
validate_evidence-opaque = refl

completed : Edit lookups "w" (some (pos 1)) first second
unfolding program
completed = stepped "a" "completed" none none (some (pos 1)) 5 2 refl

Edit-Advances_example :
    (n : ℕ) × (pos 1 ≡ pos n)
    × (revision_of "w" first ≡ some n)
    × (revision_of "w" second ≡ some (n + 1))
Edit-Advances_example = Edit-Advances lookups "w" (pos 1) first second completed

Edit-once_example : ¬ Edit lookups "w" (some (pos 1)) second first
Edit-once_example = Edit-once lookups "w" (pos 1) first second first completed

created : Edit lookups "w" none [] first
unfolding program
created = replaced "plan_1" "go" (step "a" "in_progress" ∷ step "b" "pending" ∷ []) none 1 1 refl

no_plans : IsPlanned []
unfolding program
no_plans = record { unique = tt; each = λ w p h. cc }

Edit-IsPlanned_example : IsPlanned first
Edit-IsPlanned_example = Edit-IsPlanned lookups "w" none [] first created no_plans

abbrev more : MoreLookups
more = record {
  processes = λ w. [];
  artifact_status = λ a. "available";
  exists = λ root path. true;
  is_file = λ root path. true;
}

abbrev file_item : Json
file_item = object (field "type" (text "file_path") (field "id" (text "src/main.py") end))

item_status-found_example : validate_item lookups "w" file_item ≡ ok tt
unfolding program
item_status-found_example = item_status-found lookups more "w" file_item refl
