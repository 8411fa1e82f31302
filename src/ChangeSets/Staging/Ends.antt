-- ===== src/ChangeSets/Staging/Ends.antt =====
-- How `_stage` of app/services/change_set_store.py ends.
use test_gpt_local.ChangeSets.Lifecycle.Active.{IsExpired, expire-IsExpired}
use test_gpt_local.ChangeSets.State.{opened}
use test_gpt_local.Prelude.{◌+◌, ◌++◌, ◌∷◌, []}
use test_gpt_local.Prelude.{
  ℕ, ◌≡◌, refl, sym, ap, subst, ◌∙◌, String, Bool, true, false, List, leb, length, Option, none,
  some, inl, inr, Bool-cases,
}
use test_gpt_local.Prelude.Text.{◌==◌, eq_iff}
use test_gpt_local.Prelude.Result.{Result, ok, err}
use test_gpt_local.ChangeSets.State.{
  ErrorCode, idempotency_conflict, limit_exceeded, internal_error, change_set_expired,
  invalid_state, not_validated, Files, FileRow, Staged, Operation, Directory, Local, Tools, Config,
  Phase,
}
use test_gpt_local.ChangeSets.Commit.{Outcome, and_then, commit}
use test_gpt_local.ChangeSets.Lifecycle.{expire}
use test_gpt_local.ChangeSets.Lifecycle.Active.{
  ActiveEnds, goes_on, refused as refused_active, expires as expires_active, active-Ends,
}
use test_gpt_local.ChangeSets.Staging.{
  find_operation, inspect, staged_of, store_operation, close_stage, keep_or_undo, stage_from,
  stage_new, stage_or_replay, stage,
}
use test_gpt_local.ChangeSets.Machine.{Editable}

module _ (tools : Tools) (sorted : List String → List String) (config : Config)
    (operation_type payload operation_id : String) (now : ℕ) where
  abbrev pub input_hash : String
  input_hash = tools.payload_hash operation_type payload

  -- The operation is stored behind the others, with its payload and its result, the edited files and the
  -- files that they change are stored, and the change set is open, with the next revision and no digest
  -- of a validation.
  pub record IsStaged (l : Local) (after : Files) (found : ℕ × String × List FileRow)
      (result : Staged) (l' : Local) : Type 0 where
    pub status : l'.row.status ≡ opened
    pub revision : (l'.row.revision ≡ l.row.revision + 1) × (result.revision ≡ l.row.revision + 1)
    pub no_digest : (l'.row.validated_digest ≡ none) × (l'.row.after_tree ≡ none)
    pub digest : l'.row.staged_digest ≡ some result.digest
    pub operation : Operation
    pub appended : l'.row.operations ≡ l.row.operations ++ operation ∷ []
    pub identified : (operation.operation_id ≡ operation_id) × (operation.input_sha256 ≡ input_hash)
    pub recorded : (operation.payload ≡ some payload) × (operation.result ≡ result)
    pub changed : (l'.row.files ≡ found.2) × (result.changed_files ≡ found.2)
    pub edited : l'.directory.staging ≡ some after
    pub untouched : (l'.row.before_tree ≡ l.row.before_tree) × (l'.checkout ≡ l.checkout)

  -- The ends of a call of `_stage` with an edit.
  pub data StageEnds (edit : Files → Result ErrorCode Unit × Files) (l : Local)
      : Outcome Staged → Type 0 where
    replayed :
        (o : Operation)
        → find_operation operation_id l.row.operations ≡ some o
        → o.input_sha256 ≡ input_hash
        → StageEnds edit l (ok o.result, l)
    refused : (e : ErrorCode) → StageEnds edit l (err e, l)
    expires :
        Editable l.row.status
        → leb l.row.expires_at now ≡ true
        → IsExpired now l (expire now l)
        → StageEnds edit l (err change_set_expired, expire now l)
    staged :
        (before after : Files) (found : ℕ × String × List FileRow)
        → find_operation operation_id l.row.operations ≡ none
        → Editable l.row.status
        → leb l.row.expires_at now ≡ false
        → leb config.max_operations (length l.row.operations) ≡ false
        → l.directory.staging ≡ some before
        → edit before ≡ (ok tt, after)
        → inspect tools sorted config l after ≡ ok found
        → (let result : Staged =
              staged_of tools sorted config operation_type operation_id input_hash l found in
            IsStaged l after found result
              (store_operation tools sorted config payload input_hash now after result l))
        → StageEnds edit l (
            let result : Staged =
              staged_of tools sorted config operation_type operation_id input_hash l found in
            (ok result, store_operation tools sorted config payload input_hash now after result l))

  module _ (edit : Files → Result ErrorCode Unit × Files) (l : Local) where
    checkpoint_same :
        (o : Option Files)
        → l.directory.staging ≡ o
        → (let k : Local = record l {
          directory = (let d : Directory = record l.directory { staging = o } in d);
        } in
            k)
          ≡ l
    checkpoint_same o e =
        ap
          (λ o.
            let k : Local = record l {
              directory = (let d : Directory = record l.directory { staging = o } in d);
            } in
            k)
          (sym e)

    undone :
        (before : Files) (e : ErrorCode)
        → l.directory.staging ≡ some before
        → (o : Outcome Staged)
        → o ≡ (
          err e,
          (let k : Local = record l {
            directory = (let d : Directory = record l.directory { staging = some before } in d);
          } in
              k),
        )
        → StageEnds edit l o
    undone before e s o h =
        subst (StageEnds edit l) (sym (h ∙ ap (λ k. (err e, k)) (checkpoint_same (some before) s)))
          (refused e)

    stored :
        (after : Files) (found : ℕ × String × List FileRow)
        → (let result : Staged =
              staged_of tools sorted config operation_type operation_id input_hash l found in
            IsStaged l after found result
              (store_operation tools sorted config payload input_hash now after result l))
    stored after (size, tree, files) = record {
      status = refl;
      revision = (refl, refl);
      no_digest = (refl, refl);
      digest = refl;
      operation = _;
      appended = refl;
      identified = (refl, refl);
      recorded = (refl, refl);
      changed = (refl, refl);
      edited = refl;
      untouched = (refl, refl);
    }

    stage_from-Ends :
        (o : Option Files)
        → find_operation operation_id l.row.operations ≡ none
        → Editable l.row.status
        → leb l.row.expires_at now ≡ false
        → leb config.max_operations (length l.row.operations) ≡ false
        → l.directory.staging ≡ o
        → StageEnds edit l
            (stage_from tools sorted config operation_type payload operation_id now edit l o)
    unfolding stage_from keep_or_undo close_stage
    stage_from-Ends none f e x n s = refused internal_error
    stage_from-Ends (some before) f e x n s = by_edit (edit before) refl
      where
        by_inspect :
            (after : Files) (r : Result ErrorCode (ℕ × String × List FileRow))
            → edit before ≡ (ok tt, after)
            → inspect tools sorted config l after ≡ r
            → StageEnds edit l (
                close_stage tools sorted config operation_type payload operation_id now l before
                  after r)
        by_inspect after (ok found) d i =
            staged before after found f e x n s d i (stored after found)
        by_inspect after (err c) d i = undone before c s _ refl

        by_edit :
            (r : Result ErrorCode Unit × Files)
            → edit before ≡ r
            → StageEnds edit l (
                keep_or_undo tools sorted config operation_type payload operation_id now l before r)
        by_edit (err c, after) d = undone before c s _ refl
        by_edit (ok u, after) d = by_inspect after _ d refl

    stage_new-Ends :
        find_operation operation_id l.row.operations ≡ none
        → Editable l.row.status
        → leb l.row.expires_at now ≡ false
        → StageEnds edit l
            (stage_new tools sorted config operation_type payload operation_id now edit l)
    unfolding stage_new
    stage_new-Ends f e x = elim (Bool-cases (leb config.max_operations (length l.row.operations))) [
      | inl b ↦ rw b (refused limit_exceeded)
      | inr b ↦ rw b (stage_from-Ends l.directory.staging f e x b refl)
    ]

    stage_or_replay-Ends :
        (o : Option Operation)
        → find_operation operation_id l.row.operations ≡ o
        → StageEnds edit l
            (stage_or_replay tools sorted config operation_type payload operation_id now edit l o)
    unfolding stage_or_replay
    stage_or_replay-Ends (some o) f = elim (Bool-cases (o.input_sha256 == input_hash)) [
      | inl b ↦ rw b (replayed o f ((eq_iff o.input_sha256 input_hash).0 b))
      | inr b ↦ rw b (refused idempotency_conflict)
    ]
    stage_or_replay-Ends none f = from (active-Ends now l)
      where
        from :
            {o : Outcome Unit}
            → ActiveEnds now l o
            → StageEnds edit l (
                and_then o (λ l1.
                  stage_new tools sorted config operation_type payload operation_id now edit l1))
        from (goes_on e x) = stage_new-Ends f e x
        from refused_active = refused invalid_state
        from (expires_active e x) = expires e x (expire-IsExpired now l)

  -- However a staging ends: the operation's id was used with the same inputs, and its stored result is
  -- returned; or the call fails and the change set, its staged files included, is as it was; or it fails
  -- because the change set has expired, which is stored; or the edit succeeded and was found good, and
  -- the operation is stored with the edited files.
  pub stage-StageEnds :
      (edit : Files → Result ErrorCode Unit × Files) (l : Local)
      → StageEnds edit l (stage tools sorted config operation_type payload operation_id now edit l)
  unfolding stage
  stage-StageEnds edit l =
      stage_or_replay-Ends edit l (find_operation operation_id l.row.operations) refl

  -- After an edit is staged under a new operation id, a commit is refused and changes nothing, whatever
  -- its digest.
  pub stage-commit :
      (edit : Files → Result ErrorCode Unit × Files) (l l' : Local) (result : Staged)
      (writable : Phase → Bool) (digest : String) (expected : Option String) (later : ℕ)
      → find_operation operation_id l.row.operations ≡ none
      → stage tools sorted config operation_type payload operation_id now edit l ≡ (ok result, l')
      → commit tools writable digest expected later l' ≡ (err not_validated, l')
  unfolding commit
  stage-commit edit l l' result writable digest expected later f h = from (stage-StageEnds edit l) h
    where
      from :
          {o : Outcome Staged}
          → StageEnds edit l o
          → o ≡ (ok result, l')
          → commit tools writable digest expected later l' ≡ (err not_validated, l')
      from (replayed o g s) h = cc (f, g)
      from (refused e) h = cc (ap (λ o. o.0) h)
      from (expires e x c) h = cc (ap (λ o. o.0) h)
      from (staged before after found g e x n s d i k) h =
          subst (λ k. commit tools writable digest expected later k ≡ (err not_validated, k))
            (ap (λ o. o.1) h) refl
