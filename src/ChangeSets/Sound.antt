-- ===== src/ChangeSets/Sound.antt =====
-- What the rows of a change set of app/services/change_set_store.py keep to, and that every operation
-- keeps it.
use test_gpt_local.Prelude.{
  ℕ, ◌+◌, ◌≤◌, ◌≡◌, refl, sym, ap, subst, String, Bool, false, List, [], ◌∷◌, ◌++◌, leb, ltb,
  length, length-append, Option, none, some, inl, inr, Bool-cases, arith,
}
use test_gpt_local.Prelude.Int.{ℤ}
use test_gpt_local.Prelude.Result.{Result, ok, raise_if, >>=-eq-ok}
use test_gpt_local.ChangeSets.State.{
  Status, opened, validated, committing, recovery_required, committed, rolled_back, expired,
  ErrorCode, limit_exceeded, Phase, phase_rolled_back, Files, FileRow, Staged, Operation, ChangeSet,
  Local, Tools, Config,
}
use test_gpt_local.ChangeSets.Files.{directory_size, manifest}
use test_gpt_local.ChangeSets.Commit.{Outcome, journal, tree_or_error, commit}
use test_gpt_local.ChangeSets.Commit.Atomic.{
  CommitEnds, replayed as replayed_commit, refused as refused_commit, done, undone,
  in_doubt as in_doubt_commit, interrupted, commit-CommitEnds,
}
use test_gpt_local.ChangeSets.Machine.{Editable}
use test_gpt_local.ChangeSets.Machine.Commits.{commit-identity}
use test_gpt_local.ChangeSets.Lifecycle.{expire, discard, rollback_in, rollback}
use test_gpt_local.ChangeSets.Staging.{manifest_or_error, inspect, stage}
use test_gpt_local.ChangeSets.Staging.Numbers.{
  IsNumbered, IsDistinct, IsNumbered-snoc, next_ordinal_lem, IsDistinct-snoc,
}
use test_gpt_local.ChangeSets.Staging.Ends.{
  StageEnds, replayed, refused, expires, staged, stage-StageEnds,
}
use test_gpt_local.ChangeSets.Validation.{store_validated, reopen, validate}
use test_gpt_local.ChangeSets.Validation.Ends.{
  ValidateEnds, refused as refused_validation, expires as expires_validation, reopens, reopens_late,
  validates, validate-ValidateEnds,
}

abbrev pub IsSome : Option String → Type 0
IsSome o = (s : String) × (o ≡ some s)

-- An open change set has no digest and no tree; from its validation until it is closed, it has both.
unfoldable pub Digests : Status → Option String → Option String → Type 0
Digests opened digest tree = (digest ≡ none) × (tree ≡ none)
Digests rolled_back digest tree = Unit
Digests expired digest tree = Unit
Digests _ digest tree = IsSome digest × IsSome tree

-- The operations are numbered from 1 and have different ids, the revision counts them, and the limits
-- of the configuration hold.
pub record IsSound (config : Config) (r : ChangeSet) : Type 0 where
  pub counted : r.revision ≡ length r.operations + 1
  pub few_operations : length r.operations ≤ config.max_operations
  pub few_files : length r.files ≤ config.max_changed_files
  pub numbered : IsNumbered 1 r.operations
  pub distinct_ids : IsDistinct r.operations
  pub digests : Digests r.status r.validated_digest r.after_tree

abbrev pub KeepsSound : Config → ChangeSet → ChangeSet → Type 0
KeepsSound config r r' = IsSound config r → IsSound config r'

abbrev Content : Type 0
Content = ℕ × List Operation × List FileRow

abbrev content_of : ChangeSet → Content
content_of r = (r.revision, r.operations, r.files)

one_more :
    (limit : ℕ) (os : List Operation) (o : Operation)
    → leb limit (length os) ≡ false
    → length (os ++ o ∷ []) ≤ limit
one_more limit os o h = let e = length-append os (o ∷ []) in ground (arith, e, h)

module _ (config : Config) where
  -- The operations, the files and the revision are kept, and the digests fit the status.
  pub IsSound-same :
      (r r' : ChangeSet)
      → content_of r' ≡ content_of r
      → Digests r'.status r'.validated_digest r'.after_tree
      → KeepsSound config r r'
  IsSound-same r r' e d s = record {
    counted = subst (λ x. x.0 ≡ length x.1 + 1) (sym e) s.counted;
    few_operations = subst (λ x. length x.1 ≤ config.max_operations) (sym e) s.few_operations;
    few_files = subst (λ x. length x.2 ≤ config.max_changed_files) (sym e) s.few_files;
    numbered = subst (λ x. IsNumbered 1 x.1) (sym e) s.numbered;
    distinct_ids = subst (λ x. IsDistinct x.1) (sym e) s.distinct_ids;
    digests = d;
  }

  module _ (tools : Tools) (sorted : List String → List String) where
    inspect-few :
        (l : Local) (after : Files) (found : ℕ × String × List FileRow)
        → inspect tools sorted config l after ≡ ok found
        → length found.2 ≤ config.max_changed_files
    unfolding inspect
    inspect-few l after found h =
        let tree = tools.staged_tree l.row.before_tree after in
        let (_, _, h1) =
          >>=-eq-ok
            (raise_if (ltb config.max_staging_bytes (directory_size tools after)) limit_exceeded) _
            h in
        let (_, _, h2) = >>=-eq-ok (tree_or_error tools l.checkout) _ h1 in
        let (files, _, h3) =
          >>=-eq-ok
            (manifest_or_error tools sorted config (manifest tools sorted l.row.before_tree tree)) _
            h2 in
        let (_, a, h4) =
          >>=-eq-ok (raise_if (ltb config.max_changed_files (length files)) limit_exceeded) _ h3 in
        subst (λ x. length x ≤ config.max_changed_files) (files_are h4) (at_most _ a)
      where
        files_are :
            {x y : ℕ × String × List FileRow}
            → ◌≡◌ {A = Result ErrorCode (ℕ × String × List FileRow)} (ok x) (ok y)
            → x.2 ≡ y.2
        files_are h = cc

        at_most :
            (n : ℕ) {u : Unit}
            → raise_if (ltb config.max_changed_files n) limit_exceeded ≡ ok u
            → n ≤ config.max_changed_files
        at_most n h = ground (arith, h)

    pub stage-KeepsSound :
        (operation_type payload operation_id : String) (now : ℕ)
        (edit : Files → Result ErrorCode Unit × Files) (l : Local)
        → KeepsSound config l.row
            (stage tools sorted config operation_type payload operation_id now edit l).1.row
    unfolding Digests
    stage-KeepsSound operation_type payload operation_id now edit l s =
        from (stage-StageEnds tools sorted config operation_type payload operation_id now edit l)
      where
        from :
            {o : Outcome Staged}
            → StageEnds tools sorted config operation_type payload operation_id now edit l o
            → IsSound config o.1.row
        from (replayed o f h) = s
        from (refused e) = s
        from (expires e x c) = IsSound-same l.row _ refl tt s
        from (staged before after (size, tree, files) f e x n c d i k) = record {
          counted = omega (arith, s.counted, length-append l.row.operations _);
          few_operations = one_more config.max_operations l.row.operations _ n;
          few_files = inspect-few l after (size, tree, files) i;
          numbered =
              IsNumbered-snoc 1 l.row.operations _ s.numbered
                (next_ordinal_lem l.row.operations s.numbered);
          distinct_ids = IsDistinct-snoc l.row.operations _ s.distinct_ids f;
          digests = (refl, refl);
        }

    pub validate-KeepsSound :
        (id : String) (expected_revision : ℤ) (profile : String) (now : ℕ) (l : Local)
        → KeepsSound config l.row
            (validate tools sorted config id expected_revision profile now l).1.row
    unfolding Digests store_validated reopen
    validate-KeepsSound id expected_revision profile now l s =
        from (validate-ValidateEnds tools sorted config id expected_revision profile now l)
      where
        from :
            {o : Outcome Unit}
            → ValidateEnds tools sorted config id expected_revision profile now l o
            → IsSound config o.1.row
        from (refused_validation e) = s
        from (expires_validation e x c) = IsSound-same l.row _ refl tt s
        from (reopens c e r) = IsSound-same l.row _ refl (refl, refl) s
        from (reopens_late v c e k f r) = record {
          counted = s.counted;
          few_operations = s.few_operations;
          few_files = ground (arith, k.few);
          numbered = s.numbered;
          distinct_ids = s.distinct_ids;
          digests = (refl, refl);
        }
        from (validates v e x r k w) = record {
          counted = s.counted;
          few_operations = s.few_operations;
          few_files = ground (arith, k.few);
          numbered = s.numbered;
          distinct_ids = s.distinct_ids;
          digests = ((_, refl), (_, refl));
        }

  module _ (tools : Tools) (writable : Phase → Bool) (now : ℕ) where
    -- A change set whose commit has started has a digest and a tree.
    both :
        (l : Local)
        → l.row.status ≡ validated
        → IsSound config l.row
        → IsSome l.row.validated_digest × IsSome l.row.after_tree
    unfolding Digests
    both l e s = subst (λ x. Digests x l.row.validated_digest l.row.after_tree) e s.digests

    pub commit-KeepsSound :
        (digest : String) (expected : Option String) (l : Local)
        → KeepsSound config l.row (commit tools writable digest expected now l).1.row
    unfolding Digests
    commit-KeepsSound digest expected l s =
        let same = commit-identity tools writable now digest expected l in
        let l' = (commit tools writable digest expected now l).1 in
        IsSound-same l.row l'.row (ap (λ x. (x.2, x.3, x.4)) same)
          (subst (λ x. Digests l'.row.status x.5 x.6) (sym same)
            (from (commit-CommitEnds tools writable now digest expected l)))
          s
      where
        at_status :
            (t : Status) {k : Status}
            → k ≡ t
            → Digests t l.row.validated_digest l.row.after_tree
            → Digests k l.row.validated_digest l.row.after_tree
        at_status t e d = subst (λ x. Digests x l.row.validated_digest l.row.after_tree) (sym e) d

        from :
            {o : Outcome Unit}
            → CommitEnds tools digest l o
            → Digests o.1.row.status l.row.validated_digest l.row.after_tree
        from (replayed_commit e) = s.digests
        from (refused_commit e) = s.digests
        from (done b e t r) = at_status committed e (both l b.was_validated s)
        from (undone b e t) = at_status rolled_back e tt
        from (in_doubt_commit b e) = at_status recovery_required e (both l b.was_validated s)
        from (interrupted b e c) = at_status committing e (both l b.was_validated s)

    pub expire-KeepsSound :
        (l : Local) → Editable l.row.status → KeepsSound config l.row (expire now l).row
    unfolding Digests
    expire-KeepsSound l e s = IsSound-same l.row _ refl tt s

    journal-KeepsSound :
        (p : Phase) (l : Local) → KeepsSound config l.row (journal writable now p l).1.row
    unfolding journal
    journal-KeepsSound p l s = elim (Bool-cases (writable p)) [
      | inl b ↦ rw b (IsSound-same l.row _ refl s.digests s)
      | inr b ↦ rw b s
    ]

    pub rollback-KeepsSound : (l : Local) → KeepsSound config l.row (rollback writable now l).1.row
    unfolding rollback rollback_in journal Digests
    rollback-KeepsSound l s = from l.row.status
      where
        given_up : IsSound config (journal writable now phase_rolled_back (discard now l)).1.row
        given_up =
            journal-KeepsSound phase_rolled_back (discard now l) (IsSound-same l.row _ refl tt s)

        from : (t : Status) → IsSound config (rollback_in t writable now l).1.row
        from opened = given_up
        from validated = given_up
        from committing = s
        from recovery_required = s
        from committed = s
        from rolled_back = s
        from expired = s
