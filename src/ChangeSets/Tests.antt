-- ===== src/ChangeSets/Tests.antt =====
-- Runs of app/services/change_set_store.py on one file, whose text is its tree, and witnesses.
use test_gpt_local.Prelude.{
  ◌≡◌, ◌≢◌, refl, ap, String, Bool, true, false, List, [], ◌∷◌, Option, none, some, arith,
}
use test_gpt_local.Prelude.{◌↔◌}
use test_gpt_local.Prelude.Text.{is_blank}
use test_gpt_local.ChangeSets.Files.{directory_size}
use test_gpt_local.ChangeSets.State.{committed}
use test_gpt_local.ChangeSets.World.{
  begin_snapshot, insert_new, has_active, assert_workspace_discardable,
}
use test_gpt_local.ChangeSets.World.Begin.{begin-once}
use test_gpt_local.ChangeSets.World.Discard.{AllClosed, assert_workspace_discardable-eq-ok_iff}
use test_gpt_local.Prelude.Int.{pos}
use test_gpt_local.Prelude.Text.{mem}
use test_gpt_local.Prelude.Dict
use test_gpt_local.Prelude.Dict.{Dict}
use test_gpt_local.Prelude.Result.{Result, ok, err}
use test_gpt_local.ChangeSets.State.{
  Status, opened, validated, committing, recovery_required, ErrorCode, not_validated, Phase, File,
  Files, FileRow, modified, Staged, ChangeSet, Saved, Directory, worktree, Local, Tools, Config,
}
use test_gpt_local.ChangeSets.Files.{snapshot_rollback, saved, restore}
use test_gpt_local.ChangeSets.Files.Restore.{Same, IsClear, restore-snapshot_rollback}
use test_gpt_local.ChangeSets.Commit.{Outcome, commit}
use test_gpt_local.ChangeSets.Commit.Atomic.{CommitEnds, commit-CommitEnds}
use test_gpt_local.ChangeSets.Commit.Restored.{GaveBack, IsCareful, commit-GaveBack}
use test_gpt_local.ChangeSets.Lifecycle.{reconcile}
use test_gpt_local.ChangeSets.Lifecycle.Recovery.{
  Reconciled, reconcile-Reconciled, reconcile-recovers,
}
use test_gpt_local.ChangeSets.Staging.{find_operation, stage}
use test_gpt_local.ChangeSets.Staging.Ends.{StageEnds, stage-StageEnds, stage-commit}
use test_gpt_local.ChangeSets.Validation.{validate}
use test_gpt_local.ChangeSets.Validation.Ends.{ValidateEnds, validate-ValidateEnds}
use test_gpt_local.ChangeSets.Machine.{Follows}
use test_gpt_local.ChangeSets.World.{Stored, World, with_set, begin, reconcile_incomplete}
use test_gpt_local.ChangeSets.World.Steps.{
  deleted_workspaces, ◌⇒*◌, done, more, begins, stages, commits, reconciles,
}
use test_gpt_local.ChangeSets.World.Exclusive.{IsExclusive, ⇒*-IsExclusive, ⇒*-Follows, ⇒*-final}
use test_gpt_local.ChangeSets.World.Sound.{AllSound, ⇒*-AllSound}

abbrev text_file : String → File
text_file s = record { content = s; mode = 33188 }

abbrev text_of : Option File → String
text_of none = ""
text_of (some f) = f.content

abbrev just_a : String → Files
just_a s = ("a", text_file s) ∷ []

abbrev first_of : List String → String
first_of [] = ""
first_of (s ∷ ss) = s

-- A repository with the file `a`: a tree is the text of the file, and so is a patch.
abbrev tools : Tools
tools = record {
  replaces = λ path t. true;
  chmods = λ path t. true;
  unlinks = λ path t. true;
  worktree_tree = λ t. some (text_of (Dict.get "a" t));
  staged_tree = λ base t. text_of (Dict.get "a" t);
  archive = λ tree. some (just_a tree);
  entries = λ tree. some (("a", (33188, tree)) ∷ []);
  blob_sha256 = λ id. id;
  diff = λ before after. after;
  is_binary = λ patch. false;
  applies = λ patch t. true;
  apply = λ patch t. (true, Dict.put "a" (text_file patch) t);
  sha256 = λ s. s;
  joined_sha256 = first_of;
  decimal = λ n. "1";
  payload_hash = λ operation_type payload. payload;
  file_size = λ s. 1;
  resolves = λ path. true;
  denied = λ path. false;
}

abbrev config : Config
config = record {
  enabled = true;
  ttl_hours = 24;
  max_operations = 2;
  max_changed_files = 2;
  max_staging_bytes = 10;
  retain_terminal_hours = 24;
}

abbrev as_given : List String → List String
as_given paths = paths

abbrev always : Phase → Bool
always p = true

abbrev change_a : FileRow
change_a = record {
  path = "a";
  change_type = modified;
  before = some ("x", 33188);
  after = some ("y", 33188);
}

abbrev row_in : Status → ChangeSet
row_in status = record {
  workspace_id = "w";
  explanation = "e";
  status = status;
  revision = 1;
  base_head = "h";
  before_tree = "x";
  staged_digest = none;
  validated_digest = some "d";
  after_tree = some "y";
  commit_phase = none;
  error_code = none;
  created_at = 0;
  updated_at = 0;
  validated_at = some 1;
  committed_at = none;
  closed_at = none;
  expires_at = 9;
  operations = [];
  files = change_a ∷ [];
}

abbrev saved_x : Saved
saved_x = record { path = "a"; file = some (text_file "x"); sha256 = "x" }

abbrev directory_a : Directory
directory_a = record {
  staging = some (just_a "y");
  final_patch = some "y";
  rollback = some (saved_x ∷ []);
  journal = none;
}

abbrev local_in : Status → String → Local
local_in status text = record {
  row = row_in status;
  directory = directory_a;
  checkout = worktree (just_a text);
  workspace_revision = 0;
}

-- The file can be put back in every tree.
a-IsClear : IsClear tools ("a" ∷ []) (just_a "x") (change_a ∷ [])
a-IsClear = (λ u a. record { replaces = refl; chmods = λ f. refl; unlinks = refl }, tt)

abbrev edit_z : Files → Result ErrorCode Unit × Files
edit_z t = (ok tt, Dict.put "a" (text_file "z") t)

commit-CommitEnds_example :
    CommitEnds tools "d"
      (local_in validated "x")
      (commit tools always "d" none 5 (local_in validated "x"))
commit-CommitEnds_example = commit-CommitEnds tools always 5 "d" none (local_in validated "x")

tools-IsCareful : (patch : String) → IsCareful tools (change_a ∷ []) patch
unfolding mem
tools-IsCareful patch = record {
  unique = λ t u. Dict.put-IsUnique "a" (text_file patch) t u;
  agrees = λ t p h. rw (Dict.get-put "a" p (text_file patch) t) (ground (arith, h));
  by_files = λ t u s. ap (λ o. some (text_of o)) (s "a");
}

commit-GaveBack_example :
    GaveBack tools (just_a "x") (commit tools always "d" none 5 (local_in validated "x"))
unfolding Dict.get
commit-GaveBack_example =
    commit-GaveBack tools always "d" none 5 (local_in validated "x") (just_a "x")
      (λ patch e. tools-IsCareful patch) a-IsClear ((refl, refl), tt) refl (refl, tt) (λ h. cc)

restore-snapshot_rollback_example :
    ((restore tools (saved_x ∷ []) (just_a "y")).0 ≡ true)
    × Same tools (just_a "x") (restore tools (saved_x ∷ []) (just_a "y")).1
unfolding Dict.get snapshot_rollback saved mem
restore-snapshot_rollback_example =
    restore-snapshot_rollback tools (change_a ∷ []) (just_a "x") (just_a "y") (saved_x ∷ [])
      a-IsClear ((refl, refl), tt) refl (refl, tt) (λ p h. ground (arith, h))

stage-StageEnds_example :
    StageEnds tools as_given config "patch" "p" "o" 5 edit_z
      (local_in validated "x")
      (stage tools as_given config "patch" "p" "o" 5 edit_z (local_in validated "x"))
stage-StageEnds_example =
    stage-StageEnds tools as_given config "patch" "p" "o" 5 edit_z (local_in validated "x")

validate-ValidateEnds_example :
    ValidateEnds tools as_given config "cs"
      (pos 1)
      "default"
      5
      (local_in opened "x")
      (validate tools as_given config "cs" (pos 1) "default" 5 (local_in opened "x"))
validate-ValidateEnds_example =
    validate-ValidateEnds tools as_given config "cs" (pos 1) "default" 5 (local_in opened "x")

reconcile-Reconciled_example :
    Reconciled tools always 5
      (local_in committing "broken")
      (reconcile tools always 5 (local_in committing "broken"))
reconcile-Reconciled_example = reconcile-Reconciled tools always 5 (local_in committing "broken")

reconcile-recovers_example :
    (reconcile tools always 5 (local_in committing "broken")).0 ≢ recovery_required
unfolding Dict.get snapshot_rollback saved mem
reconcile-recovers_example =
    reconcile-recovers tools always 5 (local_in committing "broken") "broken" (just_a "x")
      (just_a "broken") (saved_x ∷ []) (change_a ∷ []) (λ x y s. ap (λ o. some (text_of o)) (s "a"))
      a-IsClear ((refl, refl), tt) refl refl refl refl refl (refl, tt) (λ p h. ground (arith, h))
      (λ p. refl)

-- The edit is staged on a validated change set, whose commit is then refused.
abbrev staged_z : Outcome Staged
staged_z = stage tools as_given config "patch" "p" "o" 5 edit_z (local_in validated "x")

abbrev result_z : Staged
result_z = record {
  operation_id = "o";
  ordinal = 1;
  operation_type = "patch";
  revision = 2;
  changed_files =
      record {
        path = "a";
        change_type = modified;
        before = some ("x", 33188);
        after = some ("z", 33188);
      }
      ∷ [];
  digest = "x";
  validation_invalidated = true;
  staging_bytes = 1;
}

stage-commit_example : commit tools always "d" none 6 staged_z.1 ≡ (err not_validated, staged_z.1)
unfolding stage find_operation Dict.put mem Dict.get
stage-commit_example =
    stage-commit tools as_given config "patch" "p" "o" 5 edit_z (local_in validated "x") staged_z.1
      result_z always "d" none 6 refl refl

-- A world with a workspace, and the worlds after some calls.
abbrev world : World
world = record {
  sets = [];
  workspaces = ("w", record { tree = some (just_a "x"); revision = 0 }) ∷ [];
}

abbrev begun : World
begun = (begin tools as_given config (ok tt) (λ tree. 1) "h" true "cs" "w" "why" 0 world).1

abbrev edited : World
edited = (with_set (stage tools as_given config "patch" "p" "o" 5 edit_z) "cs" begun).1

abbrev again : World
again = (begin tools as_given config (ok tt) (λ tree. 1) "h" true "cs2" "w" "why" 6 edited).1

run_again : ◌⇒*◌ tools as_given config world again
run_again =
    more
      (more (more done (begins (ok tt) (λ tree. 1) "h" true "cs" "w" "why" 0))
        (stages "cs" "patch" "p" "o" 5 edit_z))
      (begins (ok tt) (λ tree. 1) "h" true "cs2" "w" "why" 6)

⇒*-IsExclusive_example : IsExclusive again.sets
unfolding IsExclusive Dict.get
⇒*-IsExclusive_example = ⇒*-IsExclusive tools as_given config run_again (λ i j s t a b p q same. cc)

⇒*-AllSound_example : AllSound config again.sets
unfolding AllSound Dict.get
⇒*-AllSound_example = ⇒*-AllSound tools as_given config run_again (λ id s e. cc)

-- A world with a validated change set, its commit, and the reconciling of what is in doubt.
abbrev stored_in : Status → Stored
stored_in status = record { row = row_in status; directory = directory_a }

abbrev world_in : Status → World
world_in status = record world { sets = ("cs", stored_in status) ∷ [] }

abbrev committed_world : World
committed_world = (with_set (commit tools always "d" none 5) "cs" (world_in validated)).1

⇒*-Follows_example :
    (s' : Stored) × (Dict.get "cs" committed_world.sets ≡ some s')
    × Follows (row_in validated) s'.row
unfolding Dict.get deleted_workspaces mem
⇒*-Follows_example =
    ⇒*-Follows tools as_given config "cs" (stored_in validated)
      (more done (commits always "cs" "d" none 5)) refl refl

⇒*-final_example :
    (s' : Stored) × (Dict.get "cs"
        (reconcile_incomplete tools always 5
          (world_in recovery_required).sets
          (world_in recovery_required)).sets
      ≡ some s')
    × (s'.row.status ≡ recovery_required)
unfolding Dict.get deleted_workspaces mem
⇒*-final_example =
    ⇒*-final tools as_given config "cs" (stored_in recovery_required)
      (more done (reconciles always 5)) refl refl refl

begin-once_example :
    (e : ErrorCode) × (begin tools as_given config
        (ok tt)
        (λ tree. 1)
        "h"
        true
        "cs2"
        "w"
        "why"
        6
        begun
      ≡ (err e, begun))
unfolding begin begin_snapshot insert_new is_blank directory_size has_active Dict.get Dict.put
begin-once_example =
    begin-once tools as_given config (ok tt) (λ tree. 1) "h" true "cs" "w" "why" 0 world begun refl
      (ok tt) (λ tree. 1) "h" true "cs2" "why" 6

assert_workspace_discardable-eq-ok_iff_example :
    (assert_workspace_discardable "w" (world_in committed) ≡ ok tt)
    ↔ AllClosed "w" (world_in committed).sets
unfolding AllClosed Dict.get
assert_workspace_discardable-eq-ok_iff_example =
    assert_workspace_discardable-eq-ok_iff "w" (world_in committed) (refl, tt)
