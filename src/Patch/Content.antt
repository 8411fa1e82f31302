-- ===== src/Patch/Content.antt =====
-- What the content of a hunk is, apart from the way in which app/tools/patcher.py reads it.
use test_gpt_local.Prelude.{
  ℕ, ◌+◌, ◌≡◌, ◌≢◌, refl, sym, subst, String, Bool, true, false, ◌&&◌, List, [], ◌∷◌, ◌++◌, arith,
  inl, inr, Bool-cases,
}
use test_gpt_local.Prelude.Text.{codes, is_prefix}
use test_gpt_local.Patch.Lines.{Line, starts}
use test_gpt_local.Patch.Hunks.{
  Mark, context, added, removed, other, mark_of, is_boundary, is_no_newline,
}

-- The line starts with the text.
abbrev pub Starts : String → Line → Type 0
Starts s l = (tail : Line) × (l ≡ codes s ++ tail)

-- A hunk, or the section of a file, begins at the first of the lines.
pub data Boundary : List Line → Type 0 where
  next_hunk : {l : Line} {rest : List Line} → Starts "@@" l → Boundary (l ∷ rest)
  next_diff : {l : Line} {rest : List Line} → Starts "diff --git " l → Boundary (l ∷ rest)
  next_names :
      {l m : Line} {rest : List Line} → Starts "--- " l → Starts "+++ " m → Boundary (l ∷ m ∷ rest)

-- A line of content stands for so many old and new lines.
pub data Reads : Line → (old new : ℕ) → Type 0 where
  in_both : (text : Line) → Reads (32 ∷ text) 1 1
  in_old : (text : Line) → Reads (45 ∷ text) 1 0
  in_new : (text : Line) → Reads (43 ∷ text) 0 1

-- The lines have so many old and new lines before the rest, which is empty or starts with a boundary.
pub data Body : (old new : ℕ) → List Line → List Line → Type 0 where
  at_end : Body 0 0 [] []
  at_boundary : {l : Line} {rest : List Line} → Boundary (l ∷ rest) → Body 0 0 (l ∷ rest) (l ∷ rest)
  note :
      {o n : ℕ} {l : Line} {lines rest : List Line}
      → ¬ Boundary (l ∷ lines)
      → Starts "\\ No newline at end of file" l
      → Body o n lines rest
      → Body o n (l ∷ lines) rest
  line :
      {a b o n : ℕ} {l : Line} {lines rest : List Line}
      → ¬ Boundary (l ∷ lines)
      → Reads l a b
      → Body o n lines rest
      → Body (a + o) (b + n) (l ∷ lines) rest

is_prefix-split : (p l : Line) → is_prefix p l ≡ true → (tail : Line) × (l ≡ p ++ tail)
unfolding is_prefix
is_prefix-split [] l h = (l, refl)
is_prefix-split (c ∷ p) [] h = cc
is_prefix-split (c ∷ p) (d ∷ l) h =
    let (tail, e) = is_prefix-split p l (ground (arith, h)) in
    let same : d ≡ c = ground (arith, h) in (tail, cc (same, e))

is_prefix-append : (p tail : Line) → is_prefix p (p ++ tail) ≡ true
unfolding is_prefix
is_prefix-append [] tail = refl
is_prefix-append (c ∷ p) tail = ground (arith, is_prefix-append p tail)

starts-Starts : (s : String) (l : Line) → starts s l ≡ true → Starts s l
starts-Starts s l h = is_prefix-split (codes s) l h

Starts-starts : (s : String) (l : Line) → Starts s l → starts s l ≡ true
Starts-starts s l (tail, e) = rw e (is_prefix-append (codes s) tail)

pub is_boundary-Boundary :
    (l : Line) (lines : List Line) → is_boundary l lines ≡ true → Boundary (l ∷ lines)
unfolding is_boundary
is_boundary-Boundary l lines h = elim (Bool-cases (starts "@@" l)) [
  | inl a ↦ next_hunk (starts-Starts "@@" l a)
  | inr a ↦ elim (Bool-cases (starts "diff --git " l)) [
    | inl b ↦ next_diff (starts-Starts "diff --git " l b)
    | inr b ↦ names lines a b h
  ]
]
  where
    both : (x y : Bool) → (x && y) ≡ true → (x ≡ true) × (y ≡ true)
    both true y h = (refl, h)
    both false y h = cc

    names :
        (lines : List Line)
        → starts "@@" l ≡ false
        → starts "diff --git " l ≡ false
        → is_boundary l lines ≡ true
        → Boundary (l ∷ lines)
    names [] a b h = let (_, never) = both (starts "--- " l) false (rw (a, b) at h) in cc never
    names (m ∷ ms) a b h =
        let (old, new) = both (starts "--- " l) (starts "+++ " m) (rw (a, b) at h) in
        next_names (starts-Starts "--- " l old) (starts-Starts "+++ " m new)

pub Boundary-is_boundary :
    (l : Line) (lines : List Line) → Boundary (l ∷ lines) → is_boundary l lines ≡ true
unfolding is_boundary
Boundary-is_boundary l lines (next_hunk s) = rw (Starts-starts "@@" l s) refl
Boundary-is_boundary l lines (next_diff s) = ground (arith, Starts-starts "diff --git " l s)
Boundary-is_boundary l (m ∷ lines) (next_names s t) =
    ground (arith, Starts-starts "--- " l s, Starts-starts "+++ " m t)

pub no-Boundary :
    (l : Line) (lines : List Line) → is_boundary l lines ≡ false → ¬ Boundary (l ∷ lines)
no-Boundary l lines h b = cc (h, Boundary-is_boundary l lines b)

pub no-Boundary-false :
    (l : Line) (lines : List Line) → ¬ Boundary (l ∷ lines) → is_boundary l lines ≡ false
no-Boundary-false l lines n = elim (Bool-cases (is_boundary l lines)) [
  | inl b ↦ absurd (n (is_boundary-Boundary l lines b))
  | inr b ↦ b
]

pub is_no_newline-Starts :
    (l : Line) → is_no_newline l ≡ true → Starts "\\ No newline at end of file" l
unfolding is_no_newline
is_no_newline-Starts l h = starts-Starts "\\ No newline at end of file" l h

pub Starts-is_no_newline :
    (l : Line) → Starts "\\ No newline at end of file" l → is_no_newline l ≡ true
unfolding is_no_newline
Starts-is_no_newline l h = Starts-starts "\\ No newline at end of file" l h

abbrev pub olds : Mark → ℕ
olds context = 1
olds removed = 1
olds _ = 0

abbrev pub news : Mark → ℕ
news context = 1
news added = 1
news _ = 0

pub mark_of-Reads : (m : Mark) (l : Line) → mark_of l ≡ m → m ≢ other → Reads l (olds m) (news m)
unfolding mark_of
mark_of-Reads m [] e n = absurd (n (sym e))
mark_of-Reads context (c ∷ cs) e n =
    let is : c ≡ 32 = ground (arith, e) in subst (λ x. Reads (x ∷ cs) 1 1) (sym is) (in_both cs)
mark_of-Reads added (c ∷ cs) e n =
    let is : c ≡ 43 = ground (arith, e) in subst (λ x. Reads (x ∷ cs) 0 1) (sym is) (in_new cs)
mark_of-Reads removed (c ∷ cs) e n =
    let is : c ≡ 45 = ground (arith, e) in subst (λ x. Reads (x ∷ cs) 1 0) (sym is) (in_old cs)
mark_of-Reads other (c ∷ cs) e n = absurd (n refl)
