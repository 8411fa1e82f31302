-- ===== src/ChangeSets/Files.antt =====
-- `_snapshot_rollback`, `_restore`, `_manifest` and the sizes of app/services/change_set_store.py.
pub mod Restore
use test_gpt_local.Prelude.{
  ℕ, ◌+◌, String, Bool, true, false, ◌&&◌, ◌||◌, not, List, [], ◌∷◌, if◌then◌else◌, ◌==◌ as nat_eq,
  Option, none, some,
}
use test_gpt_local.Prelude.Text.{◌==◌, mem}
use test_gpt_local.Prelude.Dict
use test_gpt_local.Prelude.Dict.{Dict}
use test_gpt_local.ChangeSets.State.{
  File, Files, FileRow, ChangeType, added, modified, deleted, Saved, Tools,
}

module _ (tools : Tools) where
  -- `_directory_size`
  unfoldable pub directory_size : Files → ℕ
  directory_size [] = 0
  directory_size ((path, f) ∷ files) = tools.file_size f.content + directory_size files

  unfoldable pub saved : String → Option File → Saved
  saved path none = record { path = path; file = none; sha256 = "" }
  saved path (some f) = record { path = path; file = some f; sha256 = tools.sha256 f.content }

  -- `_snapshot_rollback`; `none` where a path does not resolve.
  unfoldable pub snapshot_rollback : List FileRow → Files → Option (List Saved)
  unfolding saved
  snapshot_rollback [] tree = some []
  snapshot_rollback (item ∷ items) tree = elim (snapshot_rollback items tree) [
    | none ↦ none
    | some rest ↦
        if tools.resolves item.path
        then some (saved item.path (Dict.get item.path tree) ∷ rest)
        else none
  ]

  -- `_restore`: whether it ends, and the worktree then. It stops at the first entry that it refuses.
  unfoldable pub restore : List Saved → Files → Bool × Files
  unfolding Dict.put Dict.remove
  restore [] tree = (true, tree)
  restore (s ∷ rest) tree =
      let removed = restore rest (Dict.remove s.path tree) in
      if not (tools.resolves s.path) || tools.denied s.path then (false, tree) else elim s.file [
        | none ↦ if tools.unlinks s.path tree then removed else (false, tree)
        | some f ↦
            let replaced = Dict.put s.path f tree in
            let copied = restore rest replaced in
            if not (tools.sha256 f.content == s.sha256) || not (tools.replaces s.path tree)
            then (false, tree)
            else if tools.chmods s.path replaced
            then copied
            else (false, replaced)
      ]

  entry_row : Option (ℕ × String) → Option (String × ℕ)
  entry_row none = none
  entry_row (some (mode, object_id)) = some (tools.blob_sha256 object_id, mode)

  same_entry : Option (ℕ × String) → Option (ℕ × String) → Bool
  same_entry none none = true
  same_entry (some (m, i)) (some (n, j)) = nat_eq m n && i == j
  same_entry _ _ = false

  change_type : Option (ℕ × String) → Option (ℕ × String) → ChangeType
  change_type none after = added
  change_type (some e) none = deleted
  change_type (some e) (some f) = modified

  manifest_of : List String → Dict (ℕ × String) → Dict (ℕ × String) → List FileRow
  unfolding entry_row same_entry change_type
  manifest_of [] old new = []
  manifest_of (path ∷ paths) old new =
      let rest = manifest_of paths old new in
      if same_entry (Dict.get path old) (Dict.get path new)
      then rest
      else record {
        path = path;
        change_type = change_type (Dict.get path old) (Dict.get path new);
        before = entry_row (Dict.get path old);
        after = entry_row (Dict.get path new);
      }
        ∷ rest

  -- `_manifest`, with the paths of both trees in order; `none` where a tree has other than regular
  -- files. `sorted` is the order of Python's texts.
  unfoldable pub manifest :
      (sorted : List String → List String) → String → String → Option (List FileRow)
  unfolding manifest_of
  manifest sorted before after = elim (tools.entries before) [
    | none ↦ none
    | some old ↦ elim (tools.entries after) [
      | none ↦ none
      | some new ↦ some (manifest_of (sorted (paths_of old new)) old new)
    ]
  ]
    where
      keys : Dict (ℕ × String) → List String
      keys [] = []
      keys ((k, v) ∷ d) = k ∷ keys d

      new_keys : List String → List String → List String
      new_keys seen [] = seen
      new_keys seen (k ∷ ks) = let rest = new_keys seen ks in if mem k seen then rest else k ∷ rest

      paths_of : Dict (ℕ × String) → Dict (ℕ × String) → List String
      paths_of old new = new_keys (keys old) (keys new)
