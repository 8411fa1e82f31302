-- ===== src/Patch/Hunks.antt =====
-- `_validate_unified_diff` of app/tools/patcher.py, on the lines of a patch.
use test_gpt_local.Prelude.{
  ℕ, zero, suc, ◌+◌, Bool, true, false, ◌&&◌, ◌||◌, List, [], ◌∷◌, if◌then◌else◌, ◌==◌ as nat_eq,
  Option, none, some, length,
}
use test_gpt_local.Prelude.Text.{is_prefix}
use test_gpt_local.Patch.Lines.{Line, starts, hunk_of}

pub data Message : Type 0 where
  bad_header bad_content no_hunks : Message
  bad_counts : (expected_old expected_new actual_old actual_new : ℕ) → Message

pub record Diagnostic : Type 0 where
  pub line : ℕ
  pub line_content : Line
  pub message : Message

-- The lines at which a hunk's content stops.
unfoldable pub is_boundary : Line → List Line → Bool
unfolding is_prefix
is_boundary l rest =
    starts "@@" l
    || starts "diff --git " l
    || (starts "--- " l && elim rest [ [] ↦ false | m ∷ ms ↦ starts "+++ " m ])

unfoldable pub is_no_newline : Line → Bool
unfolding is_prefix
is_no_newline l = starts "\\ No newline at end of file" l

pub data Mark : Type 0 where
  context added removed other : Mark

unfoldable pub mark_of : Line → Mark
mark_of [] = other
mark_of (c ∷ cs) =
    if nat_eq c 32
    then context
    else if nat_eq c 43
    then added
    else if nat_eq c 45
    then removed
    else other

-- Where the content of a hunk ended: its counts, the line number and the lines from there; or the line
-- that is no content.
pub data Ended : Type 0 where
  ended : (old new cursor : ℕ) → List Line → Ended
  refused : Diagnostic → Ended

-- The inner loop, from line `cursor`, counted from 0.
unfoldable pub content : (old new cursor : ℕ) → List Line → Ended
unfolding is_boundary is_no_newline mark_of
content old new cursor [] = ended old new cursor []
content old new cursor (l ∷ rest) =
    let both = content (old + 1) (new + 1) (cursor + 1) rest in
    let first = content (old + 1) new (cursor + 1) rest in
    let second = content old (new + 1) (cursor + 1) rest in
    let same = content old new (cursor + 1) rest in
    if is_boundary l rest
    then ended old new cursor (l ∷ rest)
    else if is_no_newline l
    then same
    else elim (mark_of l) [
      | context ↦ both
      | removed ↦ first
      | added ↦ second
      | other ↦ refused (record { line = cursor + 1; line_content = l; message = bad_content })
    ]

-- A round of the outer loop at a hunk: the line number and the lines to go on with, or what is wrong.
pub data Round : Type 0 where
  go_on : (cursor : ℕ) → List Line → Round
  stop : Diagnostic → Round

abbrev pub at : ℕ → Line → Message → Diagnostic
at index l m = record { line = index + 1; line_content = l; message = m }

unfoldable pub close : ℕ → Line → (old new : ℕ) → Ended → Round
close index l old new (refused d) = stop d
close index l old new (ended o n cursor rest) =
    if nat_eq o old && nat_eq n new
    then go_on cursor rest
    else stop (at index l (bad_counts old new o n))

unfoldable pub hunk : ℕ → Line → List Line → Option (ℕ × ℕ) → Round
unfolding content close
hunk index l rest none = stop (at index l bad_header)
hunk index l rest (some (old, new)) = close index l old new (content 0 0 (index + 1) rest)

-- After the outer loop
abbrev pub at_last : (saw_hunk : Bool) → (first : Line) → Option Diagnostic
at_last true first = none
at_last false first = some (at 0 first no_hunks)

module _ (decimal : ℕ → Option ℕ) where
  -- The outer loop, on fuel for the lines that are left.
  unfoldable pub outer :
      (fuel index : ℕ) → (saw_hunk : Bool) → (first : Line) → List Line → Option Diagnostic
  unfolding hunk hunk_of is_prefix
  outer zero index saw first lines = none
  outer (suc fuel) index saw first [] = at_last saw first
  outer (suc fuel) index saw first (l ∷ rest) =
      let further = outer fuel (index + 1) saw first rest in
      if starts "@@" l
      then elim (hunk index l rest (hunk_of decimal l)) [
        | go_on cursor left ↦ outer fuel cursor true first left
        | stop d ↦ some d
      ]
      else further

  abbrev first_line : List Line → Line
  first_line [] = []
  first_line (l ∷ rest) = l

  -- Every round of the outer loop goes over a line, and the last finds none.
  unfoldable pub validate_unified_diff : List Line → Option Diagnostic
  unfolding outer
  validate_unified_diff lines = outer (suc (length lines)) 0 false (first_line lines) lines
