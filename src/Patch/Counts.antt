-- ===== src/Patch/Counts.antt =====
-- What `_validate_unified_diff` of app/tools/patcher.py accepts: patches whose hunks have the lines
-- that their headers announce.
use test_gpt_local.Prelude.{
  ℕ, zero, suc, ◌+◌, ◌≤◌, ◌<◌, ◌≡◌, ◌≢◌, ◌↔◌, refl, subst, ◌∙◌, Bool, true, false, ◌&&◌, ◌||◌, List,
  [], ◌∷◌, arith, ◌==◌ as nat_eq, Option, none, some, length, inl, inr, ◌⊎◌, Bool-cases,
}
use test_gpt_local.Prelude.Text.{is_prefix}
use test_gpt_local.Patch.Lines.{Line, starts, hunk_of}
use test_gpt_local.Patch.Hunks.{
  Mark, context, added, removed, other, mark_of, is_boundary, is_no_newline, Ended, ended, refused,
  content, Round, go_on, stop, close, hunk, outer, validate_unified_diff,
}
use test_gpt_local.Patch.Content.{
  Reads, in_both, in_old, in_new, Body, at_end, at_boundary, note, line, is_boundary-Boundary,
  Boundary-is_boundary, no-Boundary, no-Boundary-false, is_no_newline-Starts, Starts-is_no_newline,
  olds, news, mark_of-Reads,
}

pub record Counted (a b o n : ℕ) (lines rest : List Line) : Type 0 where
  pub old : ℕ
  pub new : ℕ
  pub body : Body old new lines rest
  pub old_sum : o ≡ a + old
  pub new_sum : n ≡ b + new
  pub shorter : length rest ≤ length lines

ended_inj :
    {o n c o' n' c' : ℕ} {r r' : List Line}
    → ended o n c r ≡ ended o' n' c' r'
    → (o ≡ o') × (n ≡ n') × (r ≡ r')
ended_inj h = (cc, cc, cc)

Mark-cases : (m : Mark) → (m ≡ context) ⊎ (m ≡ added) ⊎ (m ≡ removed) ⊎ (m ≡ other)
Mark-cases context = inl refl
Mark-cases added = inr (inl refl)
Mark-cases removed = inr (inr (inl refl))
Mark-cases other = inr (inr (inr refl))

Counted-line :
    (m : Mark) (a b o n a' b' : ℕ) (l : Line) (lines rest : List Line)
    → is_boundary l lines ≡ false
    → is_no_newline l ≡ false
    → mark_of l ≡ m
    → m ≢ other
    → a' ≡ a + olds m
    → b' ≡ b + news m
    → Counted a' b' o n lines rest
    → Counted a b o n (l ∷ lines) rest
Counted-line m a b o n a' b' l lines rest x y z k p q c = record {
  old = olds m + c.old;
  new = news m + c.new;
  body = line (no-Boundary l lines x) (mark_of-Reads m l z k) c.body;
  old_sum = omega (arith, c.old_sum, p);
  new_sum = omega (arith, c.new_sum, q);
  shorter = omega (arith, c.shorter);
}

content-Counted :
    (a b c o n d : ℕ) (lines rest : List Line)
    → content a b c lines ≡ ended o n d rest
    → Counted a b o n lines rest
unfolding content
content-Counted a b c o n d [] rest h =
    let (e, f, g) = ended_inj h in
    subst (Counted a b o n []) g (record {
      old = 0;
      new = 0;
      body = at_end;
      old_sum = omega (arith, e);
      new_sum = omega (arith, f);
      shorter = omega arith;
    })
content-Counted a b c o n d (l ∷ lines) rest h = elim (Bool-cases (is_boundary l lines)) [
  | inl x ↦
      let (e, f, g) = ended_inj (rw x at h) in
      subst (Counted a b o n (l ∷ lines)) g (record {
        old = 0;
        new = 0;
        body = at_boundary (is_boundary-Boundary l lines x);
        old_sum = omega (arith, e);
        new_sum = omega (arith, f);
        shorter = omega arith;
      })
  | inr x ↦ elim (Bool-cases (is_no_newline l)) [
    | inl y ↦
        let k = content-Counted a b (c + 1) o n d lines rest (rw (x, y) at h) in
        record {
          old = k.old;
          new = k.new;
          body = note (no-Boundary l lines x) (is_no_newline-Starts l y) k.body;
          old_sum = k.old_sum;
          new_sum = k.new_sum;
          shorter = omega (arith, k.shorter);
        }
    | inr y ↦ elim (Mark-cases (mark_of l)) [
      | inl z ↦
          Counted-line context a b o n _ _ l lines rest x y z (λ e. cc) refl refl
            (content-Counted (a + 1) (b + 1) (c + 1) o n d lines rest (rw (x, y, z) at h))
      | inr (inl z) ↦
          Counted-line added a b o n _ _ l lines rest x y z (λ e. cc) (omega arith) refl
            (content-Counted a (b + 1) (c + 1) o n d lines rest (rw (x, y, z) at h))
      | inr (inr (inl z)) ↦
          Counted-line removed a b o n _ _ l lines rest x y z (λ e. cc) refl (omega arith)
            (content-Counted (a + 1) b (c + 1) o n d lines rest (rw (x, y, z) at h))
      | inr (inr (inr z)) ↦ cc (rw (x, y, z) at h)
    ]
  ]
]

module _ (decimal : ℕ → Option ℕ) where
  -- Every hunk has a header in form, and the old and new lines that the header announces.
  pub data WellCounted : List Line → Type 0 where
    nil : WellCounted []
    before :
        {l : Line} {lines : List Line}
        → starts "@@" l ≡ false
        → WellCounted lines
        → WellCounted (l ∷ lines)
    hunk_at :
        {l : Line} {o n : ℕ} {lines rest : List Line}
        → starts "@@" l ≡ true
        → hunk_of decimal l ≡ some (o, n)
        → Body o n lines rest
        → WellCounted rest
        → WellCounted (l ∷ lines)

abbrev pub any_hunk : List Line → Bool
any_hunk [] = false
any_hunk (l ∷ lines) = starts "@@" l || any_hunk lines

close-go_on :
    (index : ℕ) (l : Line) (o n : ℕ) (lines : List Line) (e : Ended) (c : ℕ) (rest : List Line)
    → content 0 0 (index + 1) lines ≡ e
    → close index l o n e ≡ go_on c rest
    → Body o n lines rest × (length rest ≤ length lines)
unfolding close
close-go_on index l o n lines (refused d) c rest e h = cc
close-go_on index l o n lines (ended o' n' c' r) c rest e h =
    elim (Bool-cases (nat_eq o' o && nat_eq n' n)) [
      | inl b ↦
          let k = content-Counted 0 0 (index + 1) o' n' c' lines r e in
          let same : r ≡ rest = cc (rw b at h) in
          subst (λ t. Body o n lines t × (length t ≤ length lines)) same
            (
              subst (λ t. Body t n lines r) (ground (arith, k.old_sum, b))
                  (subst (λ t. Body k.old t lines r) (ground (arith, k.new_sum, b)) k.body),
              k.shorter,
            )
      | inr b ↦ cc (rw b at h)
    ]

abbrev Ends : (a b c : ℕ) → (old new : ℕ) → List Line → List Line → Type 0
Ends a b c old new lines rest = (d : ℕ) × (content a b c lines ≡ ended (a + old) (b + new) d rest)

same_end :
    {o n o' n' d : ℕ} {rest : List Line} → o ≡ o' → n ≡ n' → ended o n d rest ≡ ended o' n' d rest
same_end e f = cc

content-line :
    (m : Mark) (a b c old new : ℕ) (l : Line) (lines rest : List Line)
    → is_boundary l lines ≡ false
    → is_no_newline l ≡ false
    → mark_of l ≡ m
    → m ≢ other
    → ((a' b' c' : ℕ) → Ends a' b' c' old new lines rest)
    → Ends a b c (olds m + old) (news m + new) (l ∷ lines) rest
unfolding content
content-line context a b c old new l lines rest x y z k f =
    let (d, e) = f (a + 1) (b + 1) (c + 1) in
    (d, rw (x, y, z) (e ∙ same_end (omega arith) (omega arith)))
content-line added a b c old new l lines rest x y z k f =
    let (d, e) = f a (b + 1) (c + 1) in (d, rw (x, y, z) (e ∙ same_end (omega arith) (omega arith)))
content-line removed a b c old new l lines rest x y z k f =
    let (d, e) = f (a + 1) b (c + 1) in (d, rw (x, y, z) (e ∙ same_end (omega arith) (omega arith)))
content-line other a b c old new l lines rest x y z k f = absurd (k refl)

Body-Ends :
    {old new : ℕ} {lines rest : List Line} (a b c : ℕ)
    → Body old new lines rest
    → Ends a b c old new lines rest
unfolding content mark_of is_no_newline is_prefix
Body-Ends a b c at_end = (c, same_end (omega arith) (omega arith))
Body-Ends a b c (at_boundary {l = l} {rest = rest} x) =
    (c, rw (Boundary-is_boundary l rest x) (same_end (omega arith) (omega arith)))
Body-Ends a b c (note {l = l} {lines = ls} x y body) =
    let (d, e) = Body-Ends a b (c + 1) body in
    (d, rw (no-Boundary-false l ls x, Starts-is_no_newline l y) e)
Body-Ends a b c (line {o = o} {n = n} {l = l} {lines = ls} {rest = r} x reads body) =
    by_reads reads (no-Boundary-false l ls x) (λ a' b' c'. Body-Ends a' b' c' body)
  where
    by_reads :
        {l : Line} {i j : ℕ}
        → Reads l i j
        → is_boundary l ls ≡ false
        → ((a' b' c' : ℕ) → Ends a' b' c' o n ls r)
        → Ends a b c (i + o) (j + n) (l ∷ ls) r
    by_reads (in_both text) x f =
        content-line context a b c o n (32 ∷ text) ls r x refl refl (λ e. cc) f
    by_reads (in_old text) x f =
        content-line removed a b c o n (45 ∷ text) ls r x refl refl (λ e. cc) f
    by_reads (in_new text) x f =
        content-line added a b c o n (43 ∷ text) ls r x refl refl (λ e. cc) f

Body-shorter :
    {old new : ℕ} {lines rest : List Line} → Body old new lines rest → length rest ≤ length lines
Body-shorter at_end = omega arith
Body-shorter (at_boundary x) = omega arith
Body-shorter (note x y body) = omega (arith, Body-shorter body)
Body-shorter (line x y body) = omega (arith, Body-shorter body)

hunk-Ends :
    (index : ℕ) (l : Line) (o n : ℕ) (lines rest : List Line)
    → Body o n lines rest
    → (d : ℕ) × (hunk index l lines (some (o, n)) ≡ go_on d rest)
unfolding hunk close
hunk-Ends index l o n lines rest body =
    let (d, e) = Body-Ends 0 0 (index + 1) body in
    (d, rw (e ∙ same_end {o' = o} {n' = n} (omega arith) (omega arith)) (ground arith))

hunk-go_on :
    (index : ℕ) (l : Line) (lines : List Line) (x : Option (ℕ × ℕ)) (c : ℕ) (rest : List Line)
    → hunk index l lines x ≡ go_on c rest
    → (o : ℕ) × (n : ℕ) × (x ≡ some (o, n)) × Body o n lines rest × (length rest ≤ length lines)
unfolding hunk
hunk-go_on index l lines none c rest h = cc
hunk-go_on index l lines (some (o, n)) c rest h =
    let (body, less) = close-go_on index l o n lines _ c rest refl h in (o, n, refl, body, less)

module _ (decimal : ℕ → Option ℕ) where
  outer-WellCounted :
      (fuel index : ℕ) (saw : Bool) (first : Line) (lines : List Line)
      → length lines < fuel
      → outer decimal fuel index saw first lines ≡ none
      → WellCounted decimal lines × (saw ≡ false → any_hunk lines ≡ true)
  unfolding outer
  outer-WellCounted zero index saw first lines f h = absurd (omega arith)
  outer-WellCounted (suc fuel) index true first [] f h = (nil, λ e. cc)
  outer-WellCounted (suc fuel) index false first [] f h = cc
  outer-WellCounted (suc fuel) index saw first (l ∷ lines) f h = elim (Bool-cases (starts "@@" l)) [
    | inr b ↦
        let (w, k) = outer-WellCounted fuel (index + 1) saw first lines (omega arith) (rw b at h) in
        (before b w, λ e. rw b (k e))
    | inl b ↦
        from b (λ c left g k. (outer-WellCounted fuel c true first left g k).0)
          (hunk index l lines (hunk_of decimal l)) refl (rw b at h)
  ]
    where
      from :
          starts "@@" l ≡ true
          → ((c : ℕ) (left : List Line)
              → length left < fuel
              → outer decimal fuel c true first left ≡ none
              → WellCounted decimal left)
          → (r : Round) → hunk index l lines (hunk_of decimal l) ≡ r
          → elim r [
            | go_on cursor left ↦ outer decimal fuel cursor true first left
            | stop d ↦ some d
          ]
            ≡ none
          → WellCounted decimal (l ∷ lines) × (saw ≡ false → any_hunk (l ∷ lines) ≡ true)
      from b go (stop d) e g = cc
      from b go (go_on cursor left) e g =
          let (o, n, header, body, less) =
            hunk-go_on index l lines (hunk_of decimal l) cursor left e in
          (hunk_at b header body (go cursor left (omega (arith, less)) g), λ x. rw b refl)

  WellCounted-outer :
      (fuel index : ℕ) (saw : Bool) (first : Line) (lines : List Line)
      → length lines < fuel
      → WellCounted decimal lines
      → (saw || any_hunk lines) ≡ true
      → outer decimal fuel index saw first lines ≡ none
  unfolding outer
  WellCounted-outer zero index saw first lines f w s = absurd (omega arith)
  WellCounted-outer (suc fuel) index true first [] f nil s = refl
  WellCounted-outer (suc fuel) index false first [] f nil s = cc
  WellCounted-outer (suc fuel) index saw first (l ∷ lines) f (before b w) s =
      rw b (WellCounted-outer fuel (index + 1) saw first lines (omega arith) w (rw b at s))
  WellCounted-outer (suc fuel) index saw first (l ∷ lines) f
        (hunk_at {o = o} {n = n} {rest = rest} b header body w) s =
      let (d, e) = hunk-Ends index l o n lines rest body in
      rw (b, header, e)
        (WellCounted-outer fuel d true first rest (omega (arith, Body-shorter body)) w refl)

  -- No diagnostic is returned exactly for the patches that have a hunk, and whose hunks all have a
  -- header in form and the numbers of old and new lines that it announces, each read up to the next
  -- line that starts with `@@` or `diff --git `, or with `--- ` before a line that starts with `+++ `:
  -- so a removed line `-- x` before an added line `++ y` ends the hunk.
  pub validate_unified_diff-eq-none_iff :
      (lines : List Line)
      → (validate_unified_diff decimal lines ≡ none)
        ↔ (WellCounted decimal lines × (any_hunk lines ≡ true))
  unfolding validate_unified_diff
  validate_unified_diff-eq-none_iff lines = (
    λ h.
        let (w, k) = outer-WellCounted (suc (length lines)) 0 false _ lines (omega arith) h in
        (w, k refl),
    λ (w, k). WellCounted-outer (suc (length lines)) 0 false _ lines (omega arith) w k,
  )
