-- ===== src/Installer/Removing.antt =====
-- `DeinstallationTask::execute` from its start to its end.
use mathlib.Core.Path.{◌∙◌}
use qtapplicationmanager.Prelude.{
  ℕ, ◌≡◌, ◌≢◌, ◌⊎◌, refl, sym, ap, subst, true, false, ◌&&◌, not, String, str_eq, Option, none,
  some, Bool-cases, inl, inr, if-cases, if-both,
}
use qtapplicationmanager.PackageManager.Package.{are_all_applications_stopped_due_to_block}
use qtapplicationmanager.PackageManager.Installing.{Packages}
use qtapplicationmanager.Installer.Files.{Tree, FileSystem, FileLaws}
use qtapplicationmanager.Installer.Renamer.{ScopedRenamer, new_renamer, rename, undo_rename, take}
use qtapplicationmanager.Installer.Backup.{
  plain, with_minus, Kept, rename-base, undo_rename-Restores,
}
use qtapplicationmanager.Installer.Elsewhere.{
  undo_rename-elsewhere, rename-elsewhere, delete_backup-keeps, rename-Vacates, undo_nothing,
}
use qtapplicationmanager.Installer.Deinstallation.{
  Removal, World, Approval, refused, approved, Outcome, failed, removed, approve, stop_applications,
  backup_only, installation_base, document_base, Moved, move_application, move_away, unwind,
  delete_backup, remove_files, after_approval, execute_approved, execute,
}
use qtapplicationmanager.Installer.Approval.{
  Free, Untouched, InRemoval, stop_applications-InRemoval, canceled-Untouched,
}
use qtapplicationmanager.Installer.Finishing.{Gone, finish-Gone, approve-Approving}

-- How a removal may end: with an error, and then the packages are as before and the application's
-- directory is at its name or beside it as the backup; or with the directory gone from its name, and
-- the package from the list, if it is not built in.
abbrev pub Ended :
    (fs : FileSystem)
    → Tree
    → String
    → ℕ
    → Packages
    → Option (Packages × fs.Disk × Outcome)
    → Type 0
Ended fs t base p m none = ⊥
Ended fs t base p m (some (n, d, failed e)) = Untouched m n × Kept fs t base d
Ended fs t base p m (some (n, d, removed)) = Gone p m n × (fs.at d (plain base) ≡ none)

-- The wait ends, by a cancellation or when the last application has stopped.
abbrev pub WaitEnds : World → Packages × Approval → Type 0
WaitEnds w (m, refused e) = Unit
WaitEnds w (m, approved p) =
    (w.cancels ≡ true)
    ⊎ (are_all_applications_stopped_due_to_block ((stop_applications w.stopping p m).package_at p)
        ≡ true)

module _ (fs : FileSystem) (laws : FileLaws fs) (t : Tree) where
  -- What the moves leave to the rest of the task.
  abbrev MovedAway : String → Moved fs → Type 0
  MovedAway base x =
      ((x.is_done ≡ true) × (fs.at x.disk (plain base) ≡ none))
      ⊎ ((x.is_done ≡ false) × Kept fs t base (unwind fs x))

  Kept-elsewhere :
      (base : String) (r : ScopedRenamer) (d : fs.Disk)
      → (base ≢ r.base) ⊎ (r ≡ new_renamer)
      → Kept fs t base d
      → Kept fs t base (undo_rename fs r d).1
  Kept-elsewhere base r d (inl ne) (inl e) =
      inl (undo_rename-elsewhere fs laws (plain base) r d ne ∙ e)
  Kept-elsewhere base r d (inl ne) (inr e) =
      inr (undo_rename-elsewhere fs laws (with_minus base) r d ne ∙ e)
  Kept-elsewhere base r d (inr new) k =
      subst (λ r. Kept fs t base (undo_rename fs r d).1) (sym new)
        (subst (Kept fs t base) (sym (undo_nothing fs laws d)) k)

  move_application-Away :
      (w : World) (task : Removal) (documents : ScopedRenamer) (d : fs.Disk)
      → (installation_base w task ≢ documents.base) ⊎ (documents ≡ new_renamer)
      → fs.at d (plain (installation_base w task)) ≡ some t
      → MovedAway (installation_base w task) (move_application fs w task documents d)
  unfolding move_application unwind
  move_application-Away w task documents d other e =
      let base = installation_base w task in
      let x = rename fs base backup_only new_renamer d in
      let u = undo_rename fs x.0 x.1 in
      elim (Bool-cases x.2) [
        | inl ok ↦ inl (ok, rename-Vacates fs laws base d ok)
        | inr not_ok ↦ inr (
          not_ok,
          Kept-elsewhere base documents u.1 other
              (elim (undo_rename-Restores fs laws t base backup_only d refl e) [
                | inl (done, back) ↦ inl back
                | inr (undone, kept) ↦ kept
              ]),
        )
      ]

  move_away-Away :
      (w : World) (task : Removal) (d : fs.Disk)
      → document_base w task ≢ installation_base w task
      → fs.at d (plain (installation_base w task)) ≡ some t
      → MovedAway (installation_base w task) (move_away fs w task d)
  unfolding move_away unwind
  move_away-Away w task d ne e =
      let base = installation_base w task in
      let x = rename fs (document_base w task) backup_only new_renamer d in
      let still =
        rename-elsewhere fs laws (plain base) (document_base w task) backup_only d (λ c. ne (sym c))
        ∙ e in
      let b = rename-base fs (document_base w task) backup_only d in
      let other : base ≢ x.0.base = λ c. ne (sym (c ∙ b)) in
      if-both (MovedAway base) (not task.keep_documents && not (str_eq task.document_path "")) _ _
        (if-both (MovedAway base) x.2 (move_application fs w task x.0 x.1) _
          (move_application-Away w task x.0 x.1 (inl other) still)
          (inr (
            refl,
            Kept-elsewhere base x.0 (undo_rename fs new_renamer x.1).1 (inl other)
                (inl (ap (λ e. fs.at e (plain base)) (undo_nothing fs laws x.1) ∙ still)),
          )))
        (move_application-Away w task new_renamer d (inr refl) e)

  remove_files-Ended :
      (w : World) (task : Removal) (p : ℕ) (m n : Packages) (d : fs.Disk)
      → Free task.package_id p m
      → InRemoval p m n
      → document_base w task ≢ installation_base w task
      → fs.at d (plain (installation_base w task)) ≡ some t
      → Ended fs t (installation_base w task) p m (remove_files fs w task n d)
  unfolding remove_files
  remove_files-Ended w task p m n d f r ne e =
      let base = installation_base w task in
      let x = move_away fs w task d in
      elim (move_away-Away w task d ne e) [
        | inl (ok, vacated) ↦
            let (y, finished, gone) = finish-Gone w.reads_report task.package_id p m n f r in
            rw (ok, remove_files)
              (rw (finished, remove_files)
                (
                  gone,
                  delete_backup-keeps fs laws base (take x.application)
                        (delete_backup fs (take x.documents) x.disk)
                      ∙ (delete_backup-keeps fs laws base (take x.documents) x.disk ∙ vacated),
                ))
        | inr (not_ok, kept) ↦
            rw (not_ok, remove_files) (canceled-Untouched task.package_id p m n f r, kept)
      ]

  after_approval-Ended :
      (w : World) (task : Removal) (p : ℕ) (m n : Packages) (d : fs.Disk)
      → Free task.package_id p m
      → InRemoval p m n
      → document_base w task ≢ installation_base w task
      → fs.at d (plain (installation_base w task)) ≡ some t
      → WaitEnds w (n, approved p)
      → Ended fs t (installation_base w task) p m (after_approval fs w task p n d)
  unfolding after_approval
  after_approval-Ended w task p m n d f r ne e ends =
      let stopped = stop_applications w.stopping p n in
      let r' = stop_applications-InRemoval w.stopping p m n r in
      let Goal = Ended fs t (installation_base w task) p m in
      if-cases Goal w.cancels _ _
        (λ c. (canceled-Untouched task.package_id p m stopped f r', inl e))
        (λ c.
          if-cases Goal (are_all_applications_stopped_due_to_block (stopped.package_at p)) _ _
            (λ all. remove_files-Ended w task p m stopped d f r' ne e)
            (λ not_all. elim ends [ inl canceled ↦ cc | inr all ↦ cc ]))

  -- For a package that is found by the task's id, is not blocked and waits for no application, whose
  -- directory is the tree `t` and is not its document directory, while no receiver of the signal
  -- packageAboutToBeRemoved runs, and when the wait of the removal task ends: the task ends. Either
  -- it ends with an error, and then the packages and all that is known of them are as before, and
  -- `t` is at the directory's name or, when the rename back failed, at the backup's; or it ends
  -- without one, and then nothing is at the directory's name, and the package has left the list, or
  -- is built in and the list is the same. This holds whichever calls of the operating system fail.
  pub execute-Ended :
      (w : World) (task : Removal) (p : ℕ) (m : Packages) (d : fs.Disk)
      → Free task.package_id p m
      → document_base w task ≢ installation_base w task
      → fs.at d (plain (installation_base w task)) ≡ some t
      → WaitEnds w (approve w task.package_id m)
      → Ended fs t (installation_base w task) p m (execute fs w task m d)
  unfolding execute execute_approved
  execute-Ended w task p m d f ne e ends = elim (approve-Approving w task.package_id p m f) [
    | inl (error, same) ↦
        subst (λ r. Ended fs t (installation_base w task) p m (execute_approved fs w task r d))
          (sym same) (record { packages = refl; package_at = λ q. refl }, inl e)
    | inr (n, same, r) ↦
        subst (λ r. Ended fs t (installation_base w task) p m (execute_approved fs w task r d))
          (sym same) (after_approval-Ended w task p m n d f r ne e (subst (WaitEnds w) same ends))
  ]
