-- ===== src/Plans/Input.antt =====
-- The checks of app/services/workspace_plan.py: of a step of a new plan, and of its evidence.
use test_gpt_local.Prelude.{
  ℕ, String, Bool, true, false, ◌&&◌, ◌||◌, not, List, [], ◌∷◌, leb, if◌then◌else◌, ◌==◌ as nat_eq,
  Option, none, some, length, take, drop,
}
use test_gpt_local.Prelude.Text.{◌==◌, mem, codes, is_prefix}
use test_gpt_local.Prelude.Result.{Result, ok, err, raise_if, ◌>>=◌, ◌>>◌}
use test_gpt_local.Events.Cursor.{all_hex}
use test_gpt_local.Events.Payload.{
  Json, null, text, array, object, Items, nil, cons, Fields, end, field,
}

pub data PlanError : Type 0 where
  bad_explanation no_steps too_many_steps : PlanError
  not_a_dict bad_step_id bad_text bad_status : PlanError
  duplicate_step_id : String → PlanError
  several_in_progress : ℕ → PlanError
  bad_evidence cross_workspace evidence_not_found workspace_not_found : PlanError
  plan_not_found step_not_found : PlanError
  revision_not_allowed revision_required revision_conflict : PlanError
  other_in_progress : String → PlanError
  not_storable : PlanError

-- What the checks read of the other tables: the workspaces of the processes and of the artifacts, the
-- path of a workspace, and whether `resolve_within` accepts a path below it.
pub record Lookups : Type 0 where
  pub process_workspace : String → Option String
  pub artifact_workspace : String → Option String
  pub worktree_path : String → Option String
  pub resolves_within : String → String → Bool

unfoldable pub valid_statuses : List String
valid_statuses = "pending" ∷ "in_progress" ∷ "completed" ∷ "blocked" ∷ "cancelled" ∷ []

unfoldable pub valid_evidence_types : List String
valid_evidence_types =
    "process_id" ∷ "check_id" ∷ "artifact_id" ∷ "git_commit" ∷ "git_diff" ∷ "file_path" ∷ []

-- `d.get(key)` of an object
unfoldable pub lookup : String → Fields → Option Json
lookup key end = none
lookup key (field k v fs) = if k == key then some v else lookup key fs

-- A step of a new plan, once it was checked.
pub record NewStep : Type 0 where
  pub step_id : String
  pub text : String
  pub status : String
  pub evidence : Option Json
  pub blocked_reason : Option Json

-- A non-empty text, or the error
unfoldable pub required_text : PlanError → Option Json → Result PlanError String
required_text e (some (text s)) = if s == "" then err e else ok s
required_text e _ = err e

unfoldable pub status_text : Option Json → Result PlanError String
unfolding mem valid_statuses
status_text none = ok "pending"
status_text (some (text s)) = if mem s valid_statuses then ok s else err bad_status
status_text (some _) = err bad_status

-- `_validate_step`, which here also hands on what it read.
unfoldable pub validate_step : Json → Result PlanError NewStep
unfolding required_text status_text lookup
validate_step (object step) = do
  step_id ← required_text bad_step_id (lookup "id" step)
  body ← required_text bad_text (lookup "text" step)
  status ← status_text (lookup "status" step)
  ok (record {
    step_id = step_id;
    text = body;
    status = status;
    evidence = lookup "evidence" step;
    blocked_reason = lookup "blocked_reason" step;
  })
validate_step _ = err not_a_dict

-- `$` matches at the end, and before a line break at the end.
at_end : List ℕ → Bool
at_end [] = true
at_end (c ∷ []) = nat_eq c 10
at_end _ = false

-- `re.match` of a prefix, so many hexadecimal digits and `$`
matches_id : List ℕ → ℕ → List ℕ → Bool
unfolding is_prefix all_hex at_end
matches_id start n cs =
    let rest = drop (length start) cs in
    is_prefix start cs && leb n (length rest) && all_hex (take n rest) && at_end (drop n rest)

unfoldable pub is_process_id : String → Bool
unfolding matches_id
is_process_id s = matches_id (codes "pr-") 8 (codes s)

unfoldable pub is_artifact_id : String → Bool
unfolding matches_id
is_artifact_id s =
    matches_id (codes "artifact-") 16 (codes s) || matches_id (codes "artifact_") 16 (codes s)

unfoldable pub check_owner : String → Option String → Result PlanError Unit
check_owner workspace none = err evidence_not_found
check_owner workspace (some owner) = raise_if (not (owner == workspace)) cross_workspace

module _ (lookups : Lookups) where
  unfoldable pub check_path : String → String → Option String → Result PlanError Unit
  check_path workspace path none = err workspace_not_found
  check_path workspace path (some root) =
      raise_if (not (lookups.resolves_within root path)) bad_evidence

  -- An item with a type and an id: ids that the server makes are checked, any others are kept.
  unfoldable pub validate_reference : String → String → String → Result PlanError Unit
  unfolding mem valid_evidence_types is_process_id is_artifact_id check_owner check_path
  validate_reference workspace kind id = do
    raise_if (not (mem kind valid_evidence_types)) bad_evidence
    if kind == "process_id" && is_process_id id
        then check_owner workspace (lookups.process_workspace id)
        else ok tt
    if kind == "artifact_id" && is_artifact_id id
        then check_owner workspace (lookups.artifact_workspace id)
        else ok tt
    if kind == "file_path" then check_path workspace id (lookups.worktree_path workspace) else ok tt

  unfoldable pub validate_pair : String → Option Json → Option Json → Result PlanError Unit
  unfolding validate_reference
  validate_pair workspace (some (text kind)) (some (text id)) = validate_reference workspace kind id
  validate_pair workspace _ _ = err bad_evidence

  unfoldable pub validate_item : String → Json → Result PlanError Unit
  unfolding validate_pair lookup
  validate_item workspace (object item) =
      validate_pair workspace (lookup "type" item) (lookup "id" item)
  validate_item workspace _ = err bad_evidence

  unfoldable pub validate_items : String → Items → Result PlanError Unit
  unfolding validate_item
  validate_items workspace nil = ok tt
  validate_items workspace (cons item items) = do
    validate_item workspace item
    validate_items workspace items

  -- `_validate_evidence`
  unfoldable pub validate_evidence : String → Option Json → Result PlanError Unit
  unfolding validate_items
  validate_evidence workspace none = ok tt
  validate_evidence workspace (some null) = ok tt
  validate_evidence workspace (some (array items)) = validate_items workspace items
  validate_evidence workspace (some _) = err bad_evidence
