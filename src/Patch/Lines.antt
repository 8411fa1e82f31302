-- ===== src/Patch/Lines.antt =====
-- The regular expressions of app/tools/patcher.py, as readers of a line of code points. A line of
-- `str.splitlines` has no line break.
use test_gpt_local.Prelude.{
  ℕ, ◌+◌, ◌*◌, String, Bool, true, false, List, [], ◌∷◌, if◌then◌else◌, ◌==◌ as nat_eq, Option,
  none, some, length, drop,
}
use test_gpt_local.Prelude.Text.{codes, is_prefix, is_space}

abbrev pub Line : Type 0
Line = List ℕ

-- `line.startswith(text)`
abbrev pub starts : String → Line → Bool
starts s line = is_prefix (codes s) line

-- What stands behind a prefix
unfoldable pub after : Line → Line → Option Line
unfolding is_prefix
after start line = if is_prefix start line then some (drop (length start) line) else none

-- `str.lstrip` of a class of characters
unfoldable pub skip : (ℕ → Bool) → Line → Line
skip p [] = []
skip p (c ∷ cs) = if p c then skip p cs else c ∷ cs

unfoldable pub reversed : Line → Line → Line
reversed acc [] = acc
reversed acc (c ∷ cs) = reversed (c ∷ acc) cs

-- `str.strip` of a class of characters
unfoldable pub strip : (ℕ → Bool) → Line → Line
unfolding skip reversed
strip p line = reversed [] (skip p (reversed [] (skip p line)))

abbrev last_of : Line → Option Line
last_of [] = none
last_of (c ∷ []) = some (c ∷ [])
last_of (c ∷ d ∷ cs) = last_of (d ∷ cs)

-- The path: what follows the white space, or the last character where nothing follows it.
abbrev path_or_last : Line → Line → Option Line
path_or_last spaces [] = last_of spaces
path_or_last spaces (c ∷ cs) = some (c ∷ cs)

-- `\s+(?P<path>.+)`
unfoldable pub path_behind : Line → Option Line
unfolding skip is_space
path_behind [] = none
path_behind (c ∷ cs) = if is_space c then path_or_last cs (skip is_space cs) else none

-- `_PATCH_HEADER_RE.match`: whether the marker is `---`, and the path.
unfoldable pub header_of : Line → Option (Bool × Line)
unfolding after path_behind
header_of line = elim (after (codes "---") line) [
  | some rest ↦ elim (path_behind rest) [ none ↦ none | some p ↦ some (true, p) ]
  | none ↦ elim (after (codes "+++") line) [
    | some rest ↦ elim (path_behind rest) [ none ↦ none | some p ↦ some (false, p) ]
    | none ↦ none
  ]
]

module _ (decimal : ℕ → Option ℕ) where
  -- `\d+`, by the values of decimal digits that Unicode's tables give: the number and the rest.
  more_digits : ℕ → Line → ℕ × Line
  more_digits n [] = (n, [])
  more_digits n (c ∷ cs) = elim (decimal c) [
    | none ↦ (n, c ∷ cs)
    | some d ↦ more_digits (n * 10 + d) cs
  ]

  unfoldable pub number : Line → Option (ℕ × Line)
  unfolding more_digits
  number [] = none
  number (c ∷ cs) = elim (decimal c) [ none ↦ none | some d ↦ some (more_digits d cs) ]

  -- `\d+(?:,(\d+))?`: the second number, or 1, and the rest.
  unfoldable pub range : Line → Option (ℕ × Line)
  unfolding number
  range line = elim (number line) [
    | none ↦ none
    | some (_, []) ↦ some (1, [])
    | some (_, c ∷ cs) ↦ if nat_eq c 44 then number cs else some (1, c ∷ cs)
  ]

  range_behind : String → Line → Option (ℕ × Line)
  unfolding range after
  range_behind start line = elim (after (codes start) line) [ none ↦ none | some rest ↦ range rest ]

  closes : Line → Bool
  unfolding after
  closes line = elim (after (codes " @@") line) [
    | none ↦ false
    | some [] ↦ true
    | some (c ∷ cs) ↦ nat_eq c 32
  ]

  -- `_HUNK_HEADER_RE.match`: the counts of old and of new lines.
  unfoldable pub hunk_of : Line → Option (ℕ × ℕ)
  unfolding range_behind closes
  hunk_of line = elim (range_behind "@@ -" line) [
    | none ↦ none
    | some (old, rest) ↦ elim (range_behind " +" rest) [
      | none ↦ none
      | some (new, end) ↦ if closes end then some (old, new) else none
    ]
  ]
