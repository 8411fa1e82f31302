-- ===== src/Patch/Errors.antt =====
-- `_classify_patch_error` of app/tools/patcher.py: what kind of failure git's message tells of. The
-- lower case of a text is that of Unicode's tables, a parameter.
use test_gpt_local.Prelude.{String, Bool, ◌||◌, [], ◌∷◌, if◌then◌else◌}
use test_gpt_local.Prelude.Text.{codes, is_infix}
use test_gpt_local.Patch.Lines.{Line}

pub data ErrorKind : Type 0 where
  format_error conflict file_not_found unknown : ErrorKind

abbrev contains : String → Line → Bool
contains s text = is_infix (codes s) text

module _ (lower : Line → Line) where
  unfoldable pub classify_patch_error : Line → ErrorKind
  unfolding is_infix
  classify_patch_error [] = unknown
  classify_patch_error (c ∷ cs) =
      let low = lower (c ∷ cs) in
      if contains "corrupt patch" low
      then format_error
      else if contains "malformed patch" low || contains "invalid hunk header" low
      then format_error
      else if contains "no such file" low || contains "does not exist" low
      then file_not_found
      else if contains "does not match" low || contains "patch failed" low
      then conflict
      else if contains "already exists" low
      then conflict
      else if contains "error:" (c ∷ cs)
      then format_error
      else unknown
