-- ===== src/Installer/Deinstallation.antt =====
-- `DeinstallationTask::execute`.
use qtapplicationmanager.Prelude.{
  ℕ, Bool, true, false, ◌&&◌, not, String, str_eq, List, [], ◌∷◌, Option, none, some, if◌then◌else◌,
}
use qtapplicationmanager.Prelude.Maybe.{◌>>=◌}
use qtapplicationmanager.PackageManager.Task.{
  Error, system_error, not_installed_error, io_error, canceled_error,
}
use qtapplicationmanager.PackageManager.Package.{
  PackageInfo, info, is_built_in, built_in_has_removable_update, application_stopped_due_to_block,
  are_all_applications_stopped_due_to_block,
}
use qtapplicationmanager.PackageManager.Installing.{
  Packages, modify_package, from_id, starting_package_removal, finished_package_install,
  canceled_package_install,
}
use qtapplicationmanager.Installer.Files.{FileSystem, safe_remove, recursive_operation}
use qtapplicationmanager.Installer.Renamer.{
  Modes, ScopedRenamer, new_renamer, minus_of, rename, undo_rename, take, is_renamed,
}

-- What the task was made with.
pub record Removal : Type 0 where
  pub package_id : String
  pub installation_path : String
  pub document_path : String
  pub keep_documents : Bool

-- QDir::absoluteFilePath, the installation reports, the applications that stop while the task
-- waits for them, and whether `cancel` comes before the wait is over.
pub record World : Type 0 where
  pub absolute_file_path : String → String → String
  pub has_report : PackageInfo → Bool
  pub reads_report : PackageInfo → Bool
  pub stopping : List String
  pub cancels : Bool

pub data Approval : Type 0 where
  refused : Error → Approval
  approved : ℕ → Approval

pub data Outcome : Type 0 where
  failed : Error → Outcome
  removed : Outcome

-- Everything up to the approval by the package manager.
unfoldable pub approve_package : World → String → ℕ → Packages → Packages × Approval
unfolding starting_package_removal
approve_package w id p m =
    let k = m.package_at p in
    if is_built_in k && not (built_in_has_removable_update k)
    then (m, refused system_error)
    else (if not (w.has_report (info k))
        then (m, refused system_error)
        else (let (started, ok) = starting_package_removal id m in
            (started, if ok then approved p else refused system_error)))

unfoldable pub approve : World → String → Packages → Packages × Approval
unfolding approve_package
approve w id m = elim (from_id id m) [
  | none ↦ (m, refused not_installed_error)
  | some p ↦ approve_package w id p m
]

-- The applications that stop during the wait.
unfoldable pub stop_applications : List String → ℕ → Packages → Packages
stop_applications [] p m = m
stop_applications (app ∷ apps) p m =
    stop_applications apps p (modify_package p (application_stopped_due_to_block app) m)

abbrev pub backup_only : Modes
backup_only = record { name_to_name_minus = true; name_plus_to_name = false }

abbrev pub document_base : World → Removal → String
document_base w t = w.absolute_file_path t.document_path t.package_id

abbrev pub installation_base : World → Removal → String
installation_base w t = w.absolute_file_path t.installation_path t.package_id

module _ (fs : FileSystem) where
  -- The two renamers, and whether both of them did what was asked for.
  pub record Moved : Type 0 where
    pub documents : ScopedRenamer
    pub application : ScopedRenamer
    pub disk : fs.Disk
    pub is_done : Bool

  unfoldable pub move_application : World → Removal → ScopedRenamer → fs.Disk → Moved
  unfolding rename
  move_application w t documents d =
      let (r, e, ok) = rename fs (installation_base w t) backup_only new_renamer d in
      record { documents = documents; application = r; disk = e; is_done = ok }

  unfoldable pub move_away : World → Removal → fs.Disk → Moved
  unfolding rename move_application
  move_away w t d =
      if not t.keep_documents && not (str_eq t.document_path "")
      then (let (r, e, ok) = rename fs (document_base w t) backup_only new_renamer d in
          if ok
          then move_application w t r e
          else record { documents = r; application = new_renamer; disk = e; is_done = false })
      else move_application w t new_renamer d

  -- The destructors, the last one that was made first.
  unfoldable pub unwind : Moved → fs.Disk
  unfolding undo_rename
  unwind x = (undo_rename fs x.documents (undo_rename fs x.application x.disk).1).1

  -- A backup that cannot be removed is only logged.
  unfoldable pub delete_backup : ScopedRenamer → fs.Disk → fs.Disk
  unfolding recursive_operation safe_remove
  delete_backup r d =
      if is_renamed r then (recursive_operation fs (safe_remove fs) (minus_of r) d).0 else d

  -- After the wait. Both renamers are taken before the backups go, so their destructors do nothing.
  unfoldable pub remove_files :
      World → Removal → Packages → fs.Disk → Option (Packages × fs.Disk × Outcome)
  unfolding move_away unwind delete_backup finished_package_install canceled_package_install
  remove_files w t m d =
      let x = move_away w t d in
      if x.is_done
      then (finished_package_install w.reads_report t.package_id m >>= λ (n, ok). some (
        n,
        delete_backup (take x.application) (delete_backup (take x.documents) x.disk),
        removed,
      ))
      else some ((canceled_package_install t.package_id m).0, unwind x, failed io_error)

  -- A wait that neither the applications nor a cancellation end has no result.
  unfoldable pub after_approval :
      World → Removal → ℕ → Packages → fs.Disk → Option (Packages × fs.Disk × Outcome)
  unfolding stop_applications remove_files canceled_package_install
  after_approval w t p m d =
      let n = stop_applications w.stopping p m in
      if w.cancels
      then some ((canceled_package_install t.package_id n).0, d, failed canceled_error)
      else (if are_all_applications_stopped_due_to_block (n.package_at p)
          then remove_files w t n d
          else none)

  unfoldable pub execute_approved :
      World → Removal → Packages × Approval → fs.Disk → Option (Packages × fs.Disk × Outcome)
  unfolding after_approval
  execute_approved w t (m, refused e) d = some (m, d, failed e)
  execute_approved w t (m, approved p) d = after_approval w t p m d

  unfoldable pub execute :
      World → Removal → Packages → fs.Disk → Option (Packages × fs.Disk × Outcome)
  unfolding approve execute_approved
  execute w t m d = execute_approved w t (approve w t.package_id m) d
