-- ===== src/Patch/Paths.antt =====
-- `_validate_patch_paths` and `_extract_file_changes` of app/tools/patcher.py, on the lines of a patch.
use test_gpt_local.Prelude.{
  ℕ, Bool, true, false, ◌&&◌, ◌||◌, List, [], ◌∷◌, leb, if◌then◌else◌, ◌==◌ as nat_eq, Option, none,
  some, drop,
}
use test_gpt_local.Prelude.Text.{codes, is_prefix, is_space}
use test_gpt_local.Prelude.Result.{Result, ok, err, raise_if, ◌>>◌}
use test_gpt_local.Patch.Lines.{Line, starts, strip, header_of}

pub data PathError : Type 0 where
  absolute_path path_traversal : Line → PathError

is_quote : ℕ → Bool
is_quote c = nat_eq c 34

unfoldable pub same_line : Line → Line → Bool
same_line [] [] = true
same_line (c ∷ cs) (d ∷ ds) = nat_eq c d && same_line cs ds
same_line _ _ = false

unfoldable pub without_prefix : Line → Line
unfolding is_prefix
without_prefix path = if starts "a/" path || starts "b/" path then drop 2 path else path

-- `/` or `\`
abbrev pub is_separator : ℕ → Bool
is_separator c = nat_eq c 47 || nat_eq c 92

is_letter : ℕ → Bool
is_letter c = leb 65 c && leb c 90 || leb 97 c && leb c 122

unfoldable pub has_drive : Line → Bool
unfolding is_letter
has_drive (c ∷ d ∷ e ∷ cs) = is_letter c && nat_eq d 58 && is_separator e
has_drive _ = false

abbrev pub starts_with_separator : Line → Bool
starts_with_separator [] = false
starts_with_separator (c ∷ cs) = is_separator c

-- The first part and the others: `path.replace("\\", "/").split("/")`
unfoldable pub parts : Line → Line × List Line
parts [] = ([], [])
parts (c ∷ cs) =
    let (first, others) = parts cs in
    if is_separator c then ([], first ∷ others) else (c ∷ first, others)

unfoldable pub has_part : Line → List Line → Bool
unfolding same_line
has_part part [] = false
has_part part (p ∷ ps) = same_line p part || has_part part ps

abbrev pub dots : Line
dots = 46 ∷ 46 ∷ []

unfoldable pub has_parent : Line → Bool
unfolding parts has_part
has_parent path = has_part dots ((parts path).0 ∷ (parts path).1)

unfoldable pub checked_path : Line → Line
unfolding strip is_space is_quote without_prefix
checked_path raw = without_prefix (strip is_quote (strip is_space raw))

-- `Path(...).is_absolute()` is the platform's.
module _ (is_absolute : Line → Bool) where
  unfoldable pub check_path : Line → Result PathError Unit
  unfolding has_drive has_parent same_line
  check_path path =
      if same_line path (codes "/dev/null")
      then ok tt
      else if is_absolute path || has_drive path || starts_with_separator path
      then err (absolute_path path)
      else raise_if (has_parent path) (path_traversal path)

  abbrev pub check_header : Option (Bool × Line) → Result PathError Unit
  check_header none = ok tt
  check_header (some (old, raw)) = check_path (checked_path raw)

  unfoldable pub validate_patch_paths : List Line → Result PathError Unit
  unfolding check_path checked_path header_of
  validate_patch_paths [] = ok tt
  validate_patch_paths (l ∷ lines) = do check_header (header_of l); validate_patch_paths lines

abbrev before_tab : Line → Line
before_tab [] = []
before_tab (c ∷ cs) = elim (nat_eq c 9) [ true ↦ [] | false ↦ c ∷ before_tab cs ]

unfoldable pub normalise_header_path : Line → Line
unfolding strip is_space is_quote without_prefix
normalise_header_path raw = without_prefix (strip is_quote (before_tab (strip is_space raw)))

pub data FileChange : Type 0 where
  added deleted modified : (path : Line) → FileChange
  renamed : (path old_path : Line) → FileChange

unfoldable pub change_of : (old new : Line) → FileChange
unfolding same_line
change_of old new =
    if same_line old (codes "/dev/null")
    then added new
    else if same_line new (codes "/dev/null")
    then deleted old
    else if same_line old new
    then modified new
    else renamed new old

-- The change at a `---` line and the `+++` line behind it.
unfoldable pub change_at : Option (Bool × Line) → Option (Bool × Line) → Option FileChange
unfolding change_of normalise_header_path
change_at (some (true, old)) (some (false, new)) =
    some (change_of (normalise_header_path old) (normalise_header_path new))
change_at _ _ = none

unfoldable pub changes_of : List Line → List FileChange
unfolding change_at header_of
changes_of [] = []
changes_of (l ∷ []) = []
changes_of (l ∷ m ∷ lines) =
    let both = changes_of lines in
    let next = changes_of (m ∷ lines) in
    elim (change_at (header_of l) (header_of m)) [ none ↦ next | some c ↦ c ∷ both ]

-- The path and the status of a change, which tell repeated ones.
unfoldable pub same_change : FileChange → FileChange → Bool
unfolding same_line
same_change (added p) (added q) = same_line p q
same_change (deleted p) (deleted q) = same_line p q
same_change (modified p) (modified q) = same_line p q
same_change (renamed p o) (renamed q r) = same_line p q
same_change _ _ = false

unfoldable pub seen_change : FileChange → List FileChange → Bool
unfolding same_change
seen_change c [] = false
seen_change c (d ∷ ds) = same_change d c || seen_change c ds

unfoldable pub first_changes : List FileChange → List FileChange → List FileChange
unfolding seen_change
first_changes seen [] = []
first_changes seen (c ∷ cs) =
    let known = first_changes seen cs in
    let fresh = first_changes (c ∷ seen) cs in if seen_change c seen then known else c ∷ fresh

unfoldable pub extract_file_changes : List Line → List FileChange
unfolding changes_of first_changes
extract_file_changes lines = first_changes [] (changes_of lines)
