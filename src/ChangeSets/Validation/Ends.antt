-- ===== src/ChangeSets/Validation/Ends.antt =====
-- How `validate` of app/services/change_set_store.py ends.
use test_gpt_local.Prelude.{
  ℕ, ◌≡◌, refl, subst, String, Bool, true, false, not, List, [], ◌∷◌, ◌++◌, leb, ltb, length,
  Option, none, some, arith,
}
use test_gpt_local.Prelude.Int.{ℤ, pos, eqℤ}
use test_gpt_local.Prelude.Result.{Result, ok, err, raise_if, >>=-eq-ok}
use test_gpt_local.ChangeSets.State.{
  ErrorCode, validation_failed, limit_exceeded, conflict, change_set_expired, invalid_state, Files,
  FileRow, Local, Tools, Config, opened, validated,
}
use test_gpt_local.ChangeSets.Files.{directory_size, manifest}
use test_gpt_local.ChangeSets.Commit.{Outcome, and_then}
use test_gpt_local.ChangeSets.Lifecycle.{expire}
use test_gpt_local.ChangeSets.Lifecycle.Active.{
  ActiveEnds, goes_on, refused as refused_active, expires as expires_active, active-Ends, IsExpired,
  expire-IsExpired,
}
use test_gpt_local.ChangeSets.Staging.{manifest_or_error}
use test_gpt_local.ChangeSets.Validation.{
  Validated, all_stored, staged_files, applies_clean, same_manifest, inspect_all, store_validated,
  reopen, admit, close_validation, validate_admitted, validate, close_stored, hashes,
  read_for_warning,
}
use test_gpt_local.ChangeSets.Machine.{Editable}

not_raised : (b : Bool) (e : ErrorCode) {u : Unit} → raise_if (not b) e ≡ ok u → b ≡ true
not_raised true e h = refl
not_raised false e h = cc

module _ (tools : Tools) (sorted : List String → List String) (config : Config) where
  -- What a validation has checked.
  pub record IsChecked (l : Local) (v : Validated) : Type 0 where
    pub payloads : all_stored tools sorted config l.row.operations ≡ true
    pub staging : Files
    pub there : l.directory.staging ≡ some staging
    pub small : leb (directory_size tools staging) config.max_staging_bytes ≡ true
    pub tree : v.after_tree ≡ tools.staged_tree l.row.before_tree staging
    pub listed : manifest tools sorted l.row.before_tree v.after_tree ≡ some v.files
    pub as_stored : same_manifest l.row.files v.files ≡ true
    pub few : leb (length v.files) config.max_changed_files ≡ true
    pub patch : v.final_patch ≡ tools.diff l.row.before_tree v.after_tree
    pub applies :
        applies_clean tools sorted config v.final_patch (tools.archive l.row.before_tree) ≡ true

  pub inspect_all-ok :
      (l : Local) (v : Validated) → inspect_all tools sorted config l ≡ ok v → IsChecked l v
  unfolding inspect_all
  inspect_all-ok l v h =
      let (_, a, h1) =
        >>=-eq-ok
          (raise_if (not (all_stored tools sorted config l.row.operations)) validation_failed) _
          h in
      let (staging, s, h2') =
        >>=-eq-ok (staged_files tools sorted config l.directory.staging) _ h1 in
      let after = tools.staged_tree l.row.before_tree staging in
      let patch = tools.diff l.row.before_tree after in
      let (_, b, h2) =
        >>=-eq-ok
          (raise_if (ltb config.max_staging_bytes (directory_size tools staging)) limit_exceeded) _
          h2' in
      let (files, c, h3) =
        >>=-eq-ok
          (manifest_or_error tools sorted config (manifest tools sorted l.row.before_tree after)) _
          h2 in
      let (_, d, h4) =
        >>=-eq-ok (raise_if (not (same_manifest l.row.files files)) validation_failed) _ h3 in
      let (_, e, h5) =
        >>=-eq-ok (raise_if (ltb config.max_changed_files (length files)) limit_exceeded) _ h4 in
      let (_, _, h6) = >>=-eq-ok (raise_if (tools.is_binary patch) validation_failed) _ h5 in
      let (_, f, h7) =
        >>=-eq-ok
          (raise_if
            (not (applies_clean tools sorted config patch (tools.archive l.row.before_tree)))
            validation_failed)
          _ h6 in
      subst (IsChecked l) (result_is h7) (record {
        payloads = not_raised _ _ a;
        staging = staging;
        there = there_is _ _ s;
        small = at_most _ _ _ b;
        tree = refl;
        listed = listed_is _ _ c;
        as_stored = not_raised _ _ d;
        few = at_most _ _ _ e;
        patch = refl;
        applies = not_raised _ _ f;
      })
    where
      result_is : {a b : Validated} → ◌≡◌ {A = Result ErrorCode Validated} (ok a) (ok b) → a ≡ b
      result_is h = cc

      at_most : (m n : ℕ) (e : ErrorCode) {u : Unit} → raise_if (ltb n m) e ≡ ok u → leb m n ≡ true
      at_most m n e h = ground (arith, h)

      there_is :
          (o : Option Files) (files : Files)
          → staged_files tools sorted config o ≡ ok files
          → o ≡ some files
      there_is none files h = cc
      there_is (some g) files h = cc

      listed_is :
          (o : Option (List FileRow)) (files : List FileRow)
          → manifest_or_error tools sorted config o ≡ ok files
          → o ≡ some files
      listed_is none files h = cc
      listed_is (some g) files h = cc

  -- The change set is open, without a digest and a tree, and has the error's code.
  pub record IsReopened (e : ErrorCode) (l l' : Local) : Type 0 where
    pub status : l'.row.status ≡ opened
    pub undigested : l'.row.validated_digest ≡ none
    pub no_tree : l'.row.after_tree ≡ none
    pub code : l'.row.error_code ≡ some e
    pub untouched : (l'.row.operations ≡ l.row.operations) × (l'.checkout ≡ l.checkout)

  -- The change set is validated, with the digest, the tree, the files and the patch.
  pub record IsValidated (change_set_id : String) (v : Validated) (l l' : Local) : Type 0 where
    pub status : l'.row.status ≡ validated
    pub digested :
        l'.row.validated_digest
        ≡ some (
            tools.joined_sha256 (
              change_set_id
                ∷ tools.decimal l.row.revision
                ∷ l.row.before_tree
                ∷ v.after_tree
                ∷ hashes l.row.operations
              ++ "default:v1" ∷ []))
    pub tree : l'.row.after_tree ≡ some v.after_tree
    pub files : l'.row.files ≡ v.files
    pub patch : l'.directory.final_patch ≡ some v.final_patch
    pub no_error : l'.row.error_code ≡ none
    pub same_revision : l'.row.revision ≡ l.row.revision
    pub untouched : (l'.row.operations ≡ l.row.operations) × (l'.checkout ≡ l.checkout)

  reopen-IsReopened :
      (now : ℕ) (e : ErrorCode) (l : Local) → IsReopened e l (reopen tools sorted config now e l)
  unfolding reopen
  reopen-IsReopened now e l = record {
    status = refl;
    undigested = refl;
    no_tree = refl;
    code = refl;
    untouched = (refl, refl);
  }

  store_validated-IsValidated :
      (change_set_id : String) (now : ℕ) (v : Validated) (l : Local)
      → IsValidated change_set_id v l (store_validated tools sorted config change_set_id now v l)
  unfolding store_validated
  store_validated-IsValidated change_set_id now v l = record {
    status = refl;
    digested = refl;
    tree = refl;
    files = refl;
    patch = refl;
    no_error = refl;
    same_revision = refl;
    untouched = (refl, refl);
  }

  late-IsReopened :
      (change_set_id : String) (now : ℕ) (v : Validated) (e : ErrorCode) (l : Local)
      → IsReopened e l (
          reopen tools sorted config now e
            (store_validated tools sorted config change_set_id now v l))
  unfolding reopen store_validated
  late-IsReopened change_set_id now v e l = record {
    status = refl;
    undigested = refl;
    no_tree = refl;
    code = refl;
    untouched = (refl, refl);
  }

  module _ (change_set_id : String) (expected_revision : ℤ) (profile : String) (now : ℕ) where
    -- The ends of a call of `validate`.
    pub data ValidateEnds (l : Local) : Outcome Unit → Type 0 where
      refused : (e : ErrorCode) → ValidateEnds l (err e, l)
      expires :
          Editable l.row.status
          → leb l.row.expires_at now ≡ true
          → IsExpired now l (expire now l)
          → ValidateEnds l (err change_set_expired, expire now l)
      reopens :
          (e : ErrorCode)
          → Editable l.row.status
          → IsReopened e l (reopen tools sorted config now e l)
          → ValidateEnds l (err e, reopen tools sorted config now e l)
      reopens_late :
          (v : Validated) (e : ErrorCode)
          → Editable l.row.status
          → IsChecked l v
          → read_for_warning tools sorted config l ≡ err e
          → IsReopened e l (
              reopen tools sorted config now e
                (store_validated tools sorted config change_set_id now v l))
          → ValidateEnds l (
            err e,
            reopen tools sorted config now e
                (store_validated tools sorted config change_set_id now v l),
          )
      validates :
          (v : Validated)
          → Editable l.row.status
          → leb l.row.expires_at now ≡ false
          → eqℤ (pos l.row.revision) expected_revision ≡ true
          → IsChecked l v
          → IsValidated change_set_id v l
              (store_validated tools sorted config change_set_id now v l)
          → ValidateEnds l (ok tt, store_validated tools sorted config change_set_id now v l)

    close_validation-Ends :
        (l : Local) (r : Result ErrorCode Validated)
        → Editable l.row.status
        → leb l.row.expires_at now ≡ false
        → eqℤ (pos l.row.revision) expected_revision ≡ true
        → inspect_all tools sorted config l ≡ r
        → ValidateEnds l (close_validation tools sorted config change_set_id now l r)
    unfolding close_validation close_stored
    close_validation-Ends l (ok v) e x n i = by_reading _ refl
      where
        by_reading :
            (w : Result ErrorCode Unit)
            → read_for_warning tools sorted config l ≡ w
            → ValidateEnds l (
                close_stored tools sorted config now
                  (store_validated tools sorted config change_set_id now v l)
                  w)
        by_reading (ok u) h =
            validates v e x n (inspect_all-ok l v i)
              (store_validated-IsValidated change_set_id now v l)
        by_reading (err c) h =
            reopens_late v c e (inspect_all-ok l v i) h (late-IsReopened change_set_id now v c l)
    close_validation-Ends l (err c) e x n i = reopens c e (reopen-IsReopened now c l)

    admit-revision :
        (l : Local) {u : Unit}
        → admit tools sorted config expected_revision profile l ≡ ok u
        → eqℤ (pos l.row.revision) expected_revision ≡ true
    unfolding admit
    admit-revision l h =
        let (_, a, _) =
          >>=-eq-ok (raise_if (not (eqℤ (pos l.row.revision) expected_revision)) conflict) _ h in
        not_raised _ _ a

    -- However a validation ends: it is refused and nothing changes; or the change set has expired, which
    -- is stored; or a check fails, and the change set is open without a digest and a tree and keeps
    -- the error's code; or the same after every check held, because the worktree's tree cannot be read
    -- afterwards; or the revision is the expected one and every check holds: the stored payloads have
    -- their hashes, the staged files are there and within the limits and are those that the table
    -- lists, and the patch between the trees applies to the captured files. Then the change set is
    -- validated, at the same revision, and the digest of its identifier, revision, trees and the
    -- operations' hashes is stored with the tree, the files and the patch. No end changes the stored
    -- operations or the worktree.
    pub validate-ValidateEnds :
        (l : Local)
        → ValidateEnds l
            (validate tools sorted config change_set_id expected_revision profile now l)
    unfolding validate validate_admitted
    validate-ValidateEnds l = from (active-Ends now l)
      where
        by_admit :
            (r : Result ErrorCode Unit)
            → admit tools sorted config expected_revision profile l ≡ r
            → Editable l.row.status
            → leb l.row.expires_at now ≡ false
            → ValidateEnds l (validate_admitted tools sorted config change_set_id now l r)
        by_admit (err c) a e x = refused c
        by_admit (ok u) a e x = close_validation-Ends l _ e x (admit-revision l a) refl

        from :
            {o : Outcome Unit}
            → ActiveEnds now l o
            → ValidateEnds l (
                and_then o (λ l1.
                  validate_admitted tools sorted config change_set_id now l1
                    (admit tools sorted config expected_revision profile l1)))
        from (goes_on e x) = by_admit _ refl e x
        from refused_active = refused invalid_state
        from (expires_active e x) = expires e x (expire-IsExpired now l)
