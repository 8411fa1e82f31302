-- ===== src/ChangeSets/Files/Restore.antt =====
-- A snapshot of app/services/change_set_store.py gives the worktree back.
use test_gpt_local.Prelude.{
  ◌≡◌, refl, String, true, false, List, [], ◌∷◌, arith, Option, none, some, inl, inr, Bool-cases,
  Option-cases, All,
}
use test_gpt_local.Prelude.Text.{mem, eq_iff, eq_refl}
use test_gpt_local.Prelude.Dict
use test_gpt_local.Prelude.Dict.{IsUnique, get-put, get-remove, put-IsUnique, remove-IsUnique}
use test_gpt_local.ChangeSets.State.{File, Files, FileRow, Saved, Tools}
use test_gpt_local.ChangeSets.Files.{snapshot_rollback, saved, restore}

abbrev pub paths : List FileRow → List String
paths [] = []
paths (item ∷ items) = item.path ∷ paths items

module _ (tools : Tools) where
  -- The path is one that a change set may write to.
  abbrev pub IsAllowed : FileRow → Type 0
  IsAllowed item = (tools.resolves item.path ≡ true) × (tools.denied item.path ≡ false)

  -- The trees hold the same files, but for the listed paths.
  abbrev pub AgreesBut : List String → Files → Files → Type 0
  AgreesBut ps t u = (p : String) → mem p ps ≡ false → Dict.get p u ≡ Dict.get p t

  abbrev pub Same : Files → Files → Type 0
  Same t u = (p : String) → Dict.get p u ≡ Dict.get p t

  Restores : List Saved → Files → Files → Type 0
  Restores ss t u = ((restore tools ss u).0 ≡ true) × Same t (restore tools ss u).1

  -- Nothing but a regular file stands in the way at the path, and the operating system lets it be
  -- replaced or removed.
  pub record CanRestore (path : String) (u : Files) : Type 0 where
    pub replaces : tools.replaces path u ≡ true
    pub chmods : (f : File) → tools.chmods path (Dict.put path f u) ≡ true
    pub unlinks : tools.unlinks path u ≡ true

  -- That is so for the listed paths, in every tree that differs from `t` at most in `all`.
  abbrev pub IsClear : (all : List String) → Files → List FileRow → Type 0
  IsClear all t items = All (λ item. (u : Files) → AgreesBut all t u → CanRestore item.path u) items

  AgreesBut-widen :
      (path : String) (ps : List String) (t u : Files)
      → AgreesBut ps t u
      → AgreesBut (path ∷ ps) t u
  unfolding mem
  AgreesBut-widen path ps t u a p h = a p (ground (arith, h))

  AgreesBut-put :
      (path : String) (ps : List String) (t u : Files) (f : File)
      → AgreesBut (path ∷ ps) t u
      → Dict.get path t ≡ some f
      → AgreesBut ps t (Dict.put path f u)
  unfolding mem
  AgreesBut-put path ps t u f a e p h = ground (arith, get-put path p f u, eq_iff path p, e, a p, h)

  AgreesBut-remove :
      (path : String) (ps : List String) (t u : Files)
      → IsUnique u
      → AgreesBut (path ∷ ps) t u
      → Dict.get path t ≡ none
      → AgreesBut ps t (Dict.remove path u)
  unfolding mem
  AgreesBut-remove path ps t u unique a e p h =
      ground (arith, get-remove path p u unique, eq_iff path p, e, a p, h)

  restore-saved :
      (path : String) (o : Option File) (rest : List Saved) (u : Files)
      → tools.resolves path ≡ true
      → tools.denied path ≡ false
      → CanRestore path u
      → restore tools (saved tools path o ∷ rest) u
        ≡ restore tools rest (elim o [ none ↦ Dict.remove path u | some f ↦ Dict.put path f u ])
  unfolding restore saved
  restore-saved path none rest u r d c = rw (r, d, c.unlinks) refl
  restore-saved path (some f) rest u r d c = rw (r, d, eq_refl, c.replaces, c.chmods f) refl

  snapshot_rollback-nil :
      (t : Files) (ss : List Saved) → snapshot_rollback tools [] t ≡ some ss → [] ≡ ss
  unfolding snapshot_rollback
  snapshot_rollback-nil t ss e = cc

  snapshot_rollback-cons :
      (item : FileRow) (items : List FileRow) (t : Files) (ss : List Saved)
      → snapshot_rollback tools (item ∷ items) t ≡ some ss
      → (rest : List Saved) × (snapshot_rollback tools items t ≡ some rest)
        × (saved tools item.path (Dict.get item.path t) ∷ rest ≡ ss)
  unfolding snapshot_rollback
  snapshot_rollback-cons item items t ss e = elim (Option-cases (snapshot_rollback tools items t)) [
    | inl n ↦ cc (rw n at e)
    | inr (rest, f) ↦ elim (Bool-cases (tools.resolves item.path)) [
      | inl r ↦ (rest, f, cc (rw (f, r) at e))
      | inr r ↦ cc (rw (f, r) at e)
    ]
  ]

  restore-All :
      (all : List String) (items : List FileRow) (t u : Files) (ss : List Saved)
      → ((v : Files) → AgreesBut (paths items) t v → AgreesBut all t v)
      → IsClear all t items
      → All IsAllowed items
      → snapshot_rollback tools items t ≡ some ss
      → IsUnique u
      → AgreesBut (paths items) t u
      → ((restore tools ss u).0 ≡ true) × Same t (restore tools ss u).1
  unfolding mem
  restore-All all [] t u ss wide clear allowed e unique a =
      rw (← snapshot_rollback-nil t ss e) (unfold restore in (refl, λ p. a p refl))
  restore-All all (item ∷ items) t u ss wide clear allowed e unique a =
      let (rest, f, g) = snapshot_rollback-cons item items t ss e in
      let can = clear.0 u (wide u a) in
      let next = λ (v : Files) (b : AgreesBut (paths items) t v).
        wide v (AgreesBut-widen item.path (paths items) t v b) in
      elim (Option-cases (Dict.get item.path t)) [
        | inl n ↦
            rw (← g, n, restore-saved item.path none rest u (allowed.0).0 (allowed.0).1 can)
              (restore-All all items t (Dict.remove item.path u) rest next clear.1 allowed.1 f
                (remove-IsUnique item.path u unique)
                (AgreesBut-remove item.path (paths items) t u unique a n))
        | inr (x, n) ↦
            rw (← g, n, restore-saved item.path (some x) rest u (allowed.0).0 (allowed.0).1 can)
              (restore-All all items t (Dict.put item.path x u) rest next clear.1 allowed.1 f
                (put-IsUnique item.path x u unique)
                (AgreesBut-put item.path (paths items) t u x a n))
      ]

  -- Where the path guard allows the paths of a snapshot, and nothing but regular files that can be
  -- replaced and removed stands at them, in whatever tree that differs from the captured one at most
  -- there, the snapshot gives the captured files back: no entry is refused, and every path has its file.
  pub restore-snapshot_rollback :
      (items : List FileRow) (t u : Files) (ss : List Saved)
      → IsClear (paths items) t items
      → All IsAllowed items
      → snapshot_rollback tools items t ≡ some ss
      → IsUnique u
      → AgreesBut (paths items) t u
      → ((restore tools ss u).0 ≡ true) × Same t (restore tools ss u).1
  restore-snapshot_rollback items t u ss clear =
      restore-All (paths items) items t u ss (λ v b. b) clear
