-- ===== src/Patch/Tests.antt =====
-- Runs of the checks of patches at small inputs, and the theorems at those inputs.
use test_gpt_local.Prelude.{
  ℕ, ◌-◌, ◌≡◌, ◌↔◌, refl, Bool, true, false, ◌&&◌, List, [], ◌∷◌, ◌++◌, leb, if◌then◌else◌, Option,
  none, some, All,
}
use test_gpt_local.Prelude.Text.{codes}
use test_gpt_local.Prelude.Result.{err}
use test_gpt_local.Patch.Lines.{Line}
use test_gpt_local.Patch.Hunks.{bad_counts, validate_unified_diff}
use test_gpt_local.Patch.Counts.{WellCounted, any_hunk, validate_unified_diff-eq-none_iff}
use test_gpt_local.Patch.Paths.{
  modified, path_traversal, validate_patch_paths, extract_file_changes,
}
use test_gpt_local.Patch.Errors.{conflict, classify_patch_error}
use test_gpt_local.Patch.Safe.{HeaderIsSafe, validate_patch_paths-IsSafe}

abbrev ascii_digit : ℕ → Option ℕ
ascii_digit c = if leb 48 c && leb c 57 then some (c - 48) else none

abbrev never : Line → Bool
never path = false

abbrev header : List Line
header = codes "--- a/x.py" ∷ codes "+++ b/x.py" ∷ []

abbrev patch : List Line
patch = header ++ codes "@@ -1 +1,2 @@" ∷ codes " one" ∷ codes "+two" ∷ []

program : Unit {0}
unfolding validate_unified_diff validate_patch_paths extract_file_changes classify_patch_error
program = tt

validate_unified_diff-patch : validate_unified_diff ascii_digit patch ≡ none
unfolding program
validate_unified_diff-patch = refl

validate_unified_diff-short :
    validate_unified_diff ascii_digit (header ++ codes "@@ -1 +1,2 @@" ∷ codes " one" ∷ [])
    ≡ some (record { line = 3; line_content = codes "@@ -1 +1,2 @@"; message = bad_counts 1 2 1 1 })
unfolding program
validate_unified_diff-short = refl

extract_file_changes-patch : extract_file_changes patch ≡ modified (codes "x.py") ∷ []
unfolding program
extract_file_changes-patch = refl

validate_patch_paths-parent :
    validate_patch_paths never (codes "--- a/x/../../y" ∷ [])
    ≡ err (path_traversal (codes "x/../../y"))
unfolding program
validate_patch_paths-parent = refl

classify_patch_error-failed :
    classify_patch_error (λ text. text) (codes "error: patch failed: x.py:1") ≡ conflict
unfolding program
classify_patch_error-failed = refl

validate_unified_diff-eq-none_iff_example :
    (validate_unified_diff ascii_digit patch ≡ none)
    ↔ (WellCounted ascii_digit patch × (any_hunk patch ≡ true))
validate_unified_diff-eq-none_iff_example = validate_unified_diff-eq-none_iff ascii_digit patch

validate_patch_paths-IsSafe_example : All (HeaderIsSafe never) patch
unfolding program
validate_patch_paths-IsSafe_example = validate_patch_paths-IsSafe never patch refl
