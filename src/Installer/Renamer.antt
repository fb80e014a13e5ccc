-- ===== src/Installer/Renamer.antt =====
-- `ScopedRenamer`, and the rename that both directions of it use.
use qtapplicationmanager.Prelude.{
  Bool, true, false, ◌&&◌, ◌||◌, not, String, Option, none, some, is_some, if◌then◌else◌,
}
use qtapplicationmanager.Installer.Files.{
  no_suffix, minus, plus, Name, Tree, file, directory, FileSystem, and_then, safe_remove,
  recursive_operation,
}

-- A set of modes: NameToNameMinus and NamePlusToName.
pub record Modes : Type 0 where
  pub name_to_name_minus : Bool
  pub name_plus_to_name : Bool

-- `base` is the base path with the name.
pub record ScopedRenamer : Type 0 where
  pub base : String
  pub requested : Modes
  pub done : Modes
  pub taken : Bool

abbrev pub no_modes : Modes
no_modes = record { name_to_name_minus = false; name_plus_to_name = false }

abbrev pub new_renamer : ScopedRenamer
new_renamer = record { base = ""; requested = no_modes; done = no_modes; taken = false }

abbrev pub name : ScopedRenamer → Name
name r = record { base = r.base; suffix = no_suffix }

abbrev pub plus_of : ScopedRenamer → Name
plus_of r = record { base = r.base; suffix = plus }

abbrev pub minus_of : ScopedRenamer → Name
minus_of r = record { base = r.base; suffix = minus }

abbrev pub same : Bool → Bool → Bool
same true b = b
same false b = not b

abbrev pub same_modes : Modes → Modes → Bool
same_modes a b =
    same a.name_to_name_minus b.name_to_name_minus && same a.name_plus_to_name b.name_plus_to_name

abbrev pub is_none_of : Modes → Bool
is_none_of m = same_modes m no_modes

abbrev pub is_dir : Option Tree → Bool
is_dir none = false
is_dir (some (file contents)) = false
is_dir (some (directory entries)) = true

abbrev pub set_minus : Bool → ScopedRenamer → ScopedRenamer
set_minus b r = record r { done = record r.done { name_to_name_minus = b } }

abbrev pub set_plus : Bool → ScopedRenamer → ScopedRenamer
set_plus b r = record r { done = record r.done { name_plus_to_name = b } }

module _ (fs : FileSystem) where
  -- POSIX does not rename a directory to one that has entries, so that one goes first.
  unfoldable pub internal_rename : Name → Name → fs.Disk → fs.Disk × Bool
  unfolding safe_remove recursive_operation
  internal_rename from to d =
      if is_dir (fs.at d from) && is_some (fs.at d to)
      then and_then fs (recursive_operation fs (safe_remove fs) to d) (fs.rename from to)
      else fs.rename from to d

  -- The two halves of `interalUndoRename`.
  unfoldable pub undo_plus : ScopedRenamer → fs.Disk → ScopedRenamer × fs.Disk
  unfolding internal_rename
  undo_plus r d =
      if r.done.name_plus_to_name
      then (let (e, ok) = internal_rename (name r) (plus_of r) d in
          (if ok then set_plus false r else r, e))
      else (r, d)

  unfoldable pub undo_minus : ScopedRenamer → fs.Disk → ScopedRenamer × fs.Disk
  unfolding internal_rename
  undo_minus r d =
      if r.done.name_to_name_minus
      then (let (e, ok) = internal_rename (minus_of r) (name r) d in
          (if ok then set_minus false r else r, e))
      else (r, d)

  unfoldable pub internal_undo_rename : ScopedRenamer → fs.Disk → ScopedRenamer × fs.Disk × Bool
  unfolding undo_plus undo_minus
  internal_undo_rename r d =
      let (s, e) = undo_plus r d in let (t, f) = undo_minus s e in (t, f, is_none_of t.done)

  unfoldable pub undo_rename : ScopedRenamer → fs.Disk → ScopedRenamer × fs.Disk
  unfolding internal_undo_rename
  undo_rename r d =
      if not r.taken
      then (let (s, e, ok) = internal_undo_rename r d in
          (if ok then record s { taken = true } else s, e))
      else (r, d)

  -- Both renames of `ScopedRenamer::rename`; the Boolean is `backupDone`.
  unfoldable pub back_up : ScopedRenamer → fs.Disk → ScopedRenamer × fs.Disk × Bool
  unfolding internal_rename
  back_up r d =
      if r.requested.name_to_name_minus
      then (let (e, ok) = internal_rename (name r) (minus_of r) d in
          (if ok then set_minus true r else r, e, ok))
      else (r, d, false)

  unfoldable pub put_in_place : Bool → ScopedRenamer → fs.Disk → ScopedRenamer × fs.Disk
  unfolding internal_rename undo_rename
  put_in_place backup_done r d =
      if r.requested.name_plus_to_name && (not r.requested.name_to_name_minus || backup_done)
      then (let (e, ok) = internal_rename (plus_of r) (name r) d in
          (if ok then (set_plus true r, e) else (if backup_done then undo_rename r e else (r, e))))
      else (r, d)

  unfoldable pub rename : String → Modes → ScopedRenamer → fs.Disk → ScopedRenamer × fs.Disk × Bool
  unfolding back_up put_in_place
  rename base modes r d =
      let (s, e, backup_done) = back_up (record r { base = base; requested = modes }) d in
      let (t, f) = put_in_place backup_done s e in (t, f, same_modes t.requested t.done)

abbrev pub take : ScopedRenamer → ScopedRenamer
take r = record r { taken = true }

abbrev pub is_renamed : ScopedRenamer → Bool
is_renamed r = not (is_none_of r.requested) && same_modes r.requested r.done
