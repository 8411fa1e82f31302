-- ===== src/Patch/Safe.antt =====
-- What `_validate_patch_paths` of app/tools/patcher.py accepts: no header line names a path outside.
use test_gpt_local.Prelude.{
  ℕ, ◌≡◌, ◌≢◌, refl, ap, subst, Bool, true, false, ◌||◌, List, [], ◌∷◌, ◌++◌, arith, Option, none,
  some, All, inl, inr, ◌⊎◌, Bool-cases,
}
use test_gpt_local.Prelude.Text.{codes}
use test_gpt_local.Prelude.Result.{ok, >>=-eq-ok}
use test_gpt_local.Patch.Lines.{Line, header_of}
use test_gpt_local.Patch.Paths.{
  same_line, is_separator, starts_with_separator, has_drive, parts, has_part, dots, has_parent,
  checked_path, check_path, check_header, validate_patch_paths,
}

-- Empty, or with a separator at the end.
abbrev pub IsOpen : Line → Type 0
IsOpen [] = Unit
IsOpen (c ∷ []) = is_separator c ≡ true
IsOpen (c ∷ d ∷ cs) = IsOpen (d ∷ cs)

-- Empty, or with a separator at the start.
abbrev pub IsShut : Line → Type 0
IsShut [] = Unit
IsShut (c ∷ cs) = is_separator c ≡ true

parts_first : (post : Line) → IsShut post → (parts post).0 ≡ []
unfolding parts
parts_first [] h = refl
parts_first (c ∷ cs) h = rw h refl

-- A part `..` behind a separator is among the other parts.
has_part-parts :
    (c : ℕ) (pre post : Line)
    → IsOpen (c ∷ pre)
    → IsShut post
    → has_part dots (parts (c ∷ pre ++ 46 ∷ 46 ∷ post)).1 ≡ true
unfolding has_part parts same_line
has_part-parts c [] post h k = rw (h, parts_first post k) refl
has_part-parts c (d ∷ pre) post h k = elim (Bool-cases (is_separator c)) [
  | inl b ↦ ground (arith, has_part-parts d pre post h k)
  | inr b ↦ ground (arith, has_part-parts d pre post h k)
]

has_parent-dots :
    (pre post : Line) → IsOpen pre → IsShut post → has_parent (pre ++ 46 ∷ 46 ∷ post) ≡ true
unfolding has_parent has_part parts same_line
has_parent-dots [] post h k = rw (parts_first post k) refl
has_parent-dots (c ∷ pre) post h k = ground (arith, has_part-parts c pre post h k)

module _ (is_absolute : Line → Bool) where
  -- A path below the root of the worktree: it is not absolute on any platform, and no part of it is `..`.
  pub record IsBelow (path : Line) : Type 0 where
    pub relative : is_absolute path ≡ false
    pub no_drive : has_drive path ≡ false
    pub no_separator : starts_with_separator path ≡ false
    pub no_parent : (pre post : Line) → IsOpen pre → IsShut post → path ≢ pre ++ 46 ∷ 46 ∷ post

  abbrev pub IsSafe : Line → Type 0
  IsSafe path = (same_line path (codes "/dev/null") ≡ true) ⊎ IsBelow path

  check_path-IsSafe :
      (path : Line) (u : Unit {0}) → check_path is_absolute path ≡ ok u → IsSafe path
  unfolding check_path
  check_path-IsSafe path u h = elim (Bool-cases (same_line path (codes "/dev/null"))) [
    | inl b ↦ inl b
    | inr b ↦ elim (Bool-cases (is_absolute path || has_drive path || starts_with_separator path)) [
      | inl c ↦ cc (rw (b, c) at h)
      | inr c ↦ elim (Bool-cases (has_parent path)) [
        | inl d ↦ cc (rw (b, c, d) at h)
        | inr d ↦ inr (record {
          relative = ground arith;
          no_drive = ground arith;
          no_separator = ground arith;
          no_parent = λ pre post x y e. cc (d, ap has_parent e, has_parent-dots pre post x y);
        })
      ]
    ]
  ]

  abbrev pub HeaderIsSafe : Line → Type 0
  HeaderIsSafe l =
      (old : Bool) (raw : Line) → header_of l ≡ some (old, raw) → IsSafe (checked_path raw)

  check_header-IsSafe :
      (o : Option (Bool × Line)) (u : Unit {0}) (old : Bool) (raw : Line)
      → check_header is_absolute o ≡ ok u
      → o ≡ some (old, raw)
      → IsSafe (checked_path raw)
  check_header-IsSafe none u old raw h e = cc
  check_header-IsSafe (some (b, r)) u old raw h e =
      subst (λ x. IsSafe (checked_path x)) (cc e) (check_path-IsSafe (checked_path r) u h)

  -- Where the check accepts a patch, every header line names `/dev/null` or, without its prefix and
  -- quotes, a path that is not absolute, has no drive, and has no part `..`.
  pub validate_patch_paths-IsSafe :
      (lines : List Line) → validate_patch_paths is_absolute lines ≡ ok tt → All HeaderIsSafe lines
  unfolding validate_patch_paths
  validate_patch_paths-IsSafe [] h = tt
  validate_patch_paths-IsSafe (l ∷ lines) h =
      let (u, a, b) = >>=-eq-ok (check_header is_absolute (header_of l)) _ h in
      (
        λ old raw e. check_header-IsSafe (header_of l) u old raw a e,
        validate_patch_paths-IsSafe lines b,
      )
