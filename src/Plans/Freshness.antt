-- ===== src/Plans/Freshness.antt =====
-- `_evidence_statuses` of app/services/workspace_plan.py: how fresh the evidence of a stored step is,
-- against the check that new evidence passes.
use test_gpt_local.Prelude.{
  ◌≡◌, subst, String, Bool, true, false, ◌&&◌, not, List, [], ◌∷◌, ◌++◌, arith, if◌then◌else◌,
  Option, none, some, inl, inr, Bool-cases,
}
use test_gpt_local.Prelude.Text.{◌==◌, mem, codes, is_prefix, is_blank, eq_iff}
use test_gpt_local.Prelude.Result.{Result, ok, raise_if, ◌>>◌}
use test_gpt_local.Events.Payload.{
  Json, null, boolean, number, text, array, object, Items, nil, cons,
}
use test_gpt_local.Plans.Input.{
  PlanError, bad_evidence, Lookups, valid_evidence_types, lookup, is_process_id, is_artifact_id,
  check_owner, check_path, validate_reference, validate_pair, validate_item,
}

-- What the freshness reads further: the processes of a workspace, by tool name and status, the status
-- that the artifact registry gives, and the files.
pub record MoreLookups : Type 0 where
  pub processes : String → List (String × String)
  pub artifact_status : String → String
  pub exists : String → String → Bool
  pub is_file : String → String → Bool

pub data EvidenceStatus : Type 0 where
  invalid unresolved stale cross_workspace available : EvidenceStatus
  of_artifact : (status : String) → EvidenceStatus

-- `tool_name == f"run_check:{check}"`
runs_check : String → String → Bool
unfolding is_prefix
runs_check check tool =
    let name = codes "run_check:" ++ codes check in
    is_prefix name (codes tool) && is_prefix (codes tool) name

check_runs : String → List (String × String) → List String
unfolding runs_check
check_runs check [] = []
check_runs check ((tool, status) ∷ ps) =
    let rest = check_runs check ps in if runs_check check tool then status ∷ rest else rest

abbrev check_status : List String → EvidenceStatus
check_status [] = unresolved
check_status (s ∷ ss) = elim (mem "passed" (s ∷ ss)) [ true ↦ available | false ↦ stale ]

-- The status of a reference to a process or an artifact, by the workspace of its row.
owner_status : String → Bool → EvidenceStatus → Option String → EvidenceStatus
owner_status workspace canonical own none = if canonical then stale else unresolved
owner_status workspace canonical own (some owner) =
    if owner == workspace then own else cross_workspace

module _ (lookups : Lookups) (more : MoreLookups) where
  -- `resolve_within` raises for a path outside, and for one that does not exist.
  file_status : String → Option String → EvidenceStatus
  file_status path none = stale
  file_status path (some root) =
      if lookups.resolves_within root path && more.exists root path
      then (if more.is_file root path then available else stale)
      else invalid

  unfoldable pub reference_status : String → String → String → EvidenceStatus
  unfolding mem valid_evidence_types owner_status is_process_id is_artifact_id check_runs
      file_status is_blank
  reference_status workspace kind id =
      if not (mem kind valid_evidence_types)
      then invalid
      else if kind == "process_id"
      then owner_status workspace (is_process_id id) available (lookups.process_workspace id)
      else if kind == "artifact_id"
      then owner_status workspace (is_artifact_id id) (of_artifact (more.artifact_status id))
          (lookups.artifact_workspace id)
      else if kind == "check_id"
      then check_status (check_runs id (more.processes workspace))
      else if kind == "file_path"
      then file_status id (lookups.worktree_path workspace)
      else if is_blank id
      then invalid
      else available

  pair_status : String → Option Json → Option Json → EvidenceStatus
  unfolding reference_status
  pair_status workspace (some (text kind)) (some (text id)) = reference_status workspace kind id
  pair_status workspace _ _ = invalid

  unfoldable pub item_status : String → Json → EvidenceStatus
  unfolding pair_status lookup
  item_status workspace (object item) =
      pair_status workspace (lookup "type" item) (lookup "id" item)
  item_status workspace _ = invalid

  statuses_of : String → Items → List EvidenceStatus
  unfolding item_status
  statuses_of workspace nil = []
  statuses_of workspace (cons item items) = item_status workspace item ∷ statuses_of workspace items

  unfoldable pub evidence_statuses : String → Json → List EvidenceStatus
  unfolding statuses_of
  evidence_statuses workspace (array items) = statuses_of workspace items
  evidence_statuses workspace _ = invalid ∷ []

-- The reference is to something that is there.
abbrev pub is_found : EvidenceStatus → Bool
is_found available = true
is_found (of_artifact status) = true
is_found _ = false

all_pass :
    (m p a f : Bool) (x y z : Result PlanError Unit)
    → m ≡ true
    → (p ≡ true → x ≡ ok tt)
    → (a ≡ true → y ≡ ok tt)
    → (f ≡ true → z ≡ ok tt)
    → (raise_if (not m) bad_evidence
        >> ((if p then x else ok tt) >> ((if a then y else ok tt) >> (if f then z else ok tt))))
      ≡ ok tt
all_pass m p a f x y z h i j k = ground (arith, h, i, j, k)

owner_status-found :
    (workspace : String) (canonical : Bool) (own : EvidenceStatus) (o : Option String)
    → is_found (owner_status workspace canonical own o) ≡ true
    → check_owner workspace o ≡ ok tt
unfolding owner_status check_owner
owner_status-found workspace canonical own none h = ground arith
owner_status-found workspace canonical own (some owner) h = ground arith

module _ (lookups : Lookups) (more : MoreLookups) where
  file_status-found :
      (workspace path : String) (o : Option String)
      → is_found (file_status lookups more path o) ≡ true
      → check_path lookups workspace path o ≡ ok tt
  unfolding file_status check_path
  file_status-found workspace path none h = cc
  file_status-found workspace path (some root) h = ground arith

  as_kind :
      (workspace kind id k : String) (b : Bool)
      → is_found (reference_status lookups more workspace kind id) ≡ true
      → ((kind == k) && b) ≡ true
      → is_found (reference_status lookups more workspace k id) ≡ true
  as_kind workspace kind id k b h e =
      subst (λ x. is_found (reference_status lookups more workspace x id) ≡ true)
        ((eq_iff kind k).0 (ground arith)) h

  kind_is_valid :
      (workspace kind id : String)
      → is_found (reference_status lookups more workspace kind id) ≡ true
      → mem kind valid_evidence_types ≡ true
  unfolding reference_status
  kind_is_valid workspace kind id h = elim (Bool-cases (mem kind valid_evidence_types)) [
    | inl b ↦ b
    | inr b ↦ cc (rw b at h)
  ]

  reference_status-found :
      (workspace kind id : String)
      → is_found (reference_status lookups more workspace kind id) ≡ true
      → validate_reference lookups workspace kind id ≡ ok tt
  unfolding reference_status validate_reference mem valid_evidence_types
  reference_status-found workspace kind id h =
      all_pass (mem kind valid_evidence_types) (kind == "process_id" && is_process_id id)
        (kind == "artifact_id" && is_artifact_id id) (kind == "file_path") _ _ _
        (kind_is_valid workspace kind id h)
        (λ b.
          owner_status-found workspace (is_process_id id) available (lookups.process_workspace id)
            (as_kind workspace kind id "process_id" (is_process_id id) h b))
        (λ b.
          owner_status-found workspace (is_artifact_id id) (of_artifact (more.artifact_status id))
            (lookups.artifact_workspace id)
            (as_kind workspace kind id "artifact_id" (is_artifact_id id) h b))
        (λ b.
          file_status-found workspace id (lookups.worktree_path workspace)
            (as_kind workspace kind id "file_path" true h (ground (arith, b))))

  pair_status-found :
      (workspace : String) (kind id : Option Json)
      → is_found (pair_status lookups more workspace kind id) ≡ true
      → validate_pair lookups workspace kind id ≡ ok tt
  unfolding pair_status validate_pair
  pair_status-found workspace (some (text kind)) (some (text id)) h =
      reference_status-found workspace kind id h
  pair_status-found workspace _ _ h = cc

  -- Evidence whose status is `available`, or the one that the artifact registry gives, would pass the
  -- check of new evidence.
  pub item_status-found :
      (workspace : String) (item : Json)
      → is_found (item_status lookups more workspace item) ≡ true
      → validate_item lookups workspace item ≡ ok tt
  unfolding item_status validate_item
  item_status-found workspace (object item) h =
      pair_status-found workspace (lookup "type" item) (lookup "id" item) h
  item_status-found workspace null h = cc
  item_status-found workspace (boolean b) h = cc
  item_status-found workspace (number n) h = cc
  item_status-found workspace (text s) h = cc
  item_status-found workspace (array xs) h = cc
