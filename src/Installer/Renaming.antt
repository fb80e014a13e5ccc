-- ===== src/Installer/Renaming.antt =====
-- What `recursiveOperation` and `internalRename` do to the trees at the names.
use mathlib.Core.Path.{◌∙◌}
use qtapplicationmanager.Prelude.{
  ◌≡◌, ◌≢◌, refl, Bool, true, false, ◌&&◌, String, List, [], ◌∷◌, ◌++◌, Option, none, is_some,
  Option-cases, inl, inr, if-cases,
}
use qtapplicationmanager.Installer.Files.{
  Name, Tree, file, directory, Entries, no_more, entry, FileSystem, FileLaws, enter_directory,
  leave_directory, file_entry, RecursiveOperationType, safe_remove, and_then, walk, walk_entries,
  recursive_operation,
}
use qtapplicationmanager.Installer.Renamer.{is_dir, internal_rename}

-- What a move from one name to another promises, whether it works or not.
pub record MoveResult (fs : FileSystem) (from to : Name) (d : fs.Disk) (r : fs.Disk × Bool)
    : Type 0 where
  pub arrived : r.1 ≡ true → fs.at r.0 to ≡ fs.at d from
  pub vacated : r.1 ≡ true → fs.at r.0 from ≡ none
  pub kept : r.1 ≡ false → fs.at r.0 from ≡ fs.at d from
  pub beside : (k : Name) → k ≢ from → k ≢ to → fs.at r.0 k ≡ fs.at d k

module _ (fs : FileSystem) (laws : FileLaws fs) where
  and_then-keeps :
      (r : fs.Disk × Bool) (f : fs.Disk → fs.Disk × Bool) (k : Name) (x : Option Tree)
      → fs.at r.0 k ≡ x
      → ((e : fs.Disk) → fs.at e k ≡ x → fs.at (f e).0 k ≡ x)
      → fs.at (and_then fs r f).0 k ≡ x
  and_then-keeps (d, true) f k x h g = g d h
  and_then-keeps (d, false) f k x h g = h

  safe_remove-keeps :
      (type : RecursiveOperationType) (n : Name) (below : List String) (d : fs.Disk) (k : Name)
      → k ≢ n
      → fs.at (safe_remove fs n below type d).0 k ≡ fs.at d k
  unfolding safe_remove
  safe_remove-keeps enter_directory n below d k ne = laws.set_permissions_local n below d k ne
  safe_remove-keeps leave_directory n below d k ne = laws.remove_dir_local n below d k ne
  safe_remove-keeps file_entry n below d k ne = laws.remove_file_local n below d k ne

  mutual
    unfolding walk

    walk-keeps :
        (t : Tree) (n : Name) (below : List String) (d : fs.Disk) (k : Name)
        → k ≢ n
        → fs.at (walk fs (safe_remove fs) t n below d).0 k ≡ fs.at d k
    walk-keeps (file contents) n below d k ne = safe_remove-keeps file_entry n below d k ne
    walk-keeps (directory entries) n below d k ne =
        let leave = safe_remove fs n below leave_directory in
        let inside = walk_entries fs (safe_remove fs) entries n below in
        and_then-keeps (safe_remove fs n below enter_directory d)
          (λ x. and_then fs (inside x) leave) k (fs.at d k)
          (safe_remove-keeps enter_directory n below d k ne)
          (λ e h.
            and_then-keeps (inside e) leave k (fs.at d k)
              (walk_entries-keeps entries n below e k ne ∙ h)
              (λ e' h'. safe_remove-keeps leave_directory n below e' k ne ∙ h'))

    walk_entries-keeps :
        (t : Entries) (n : Name) (below : List String) (d : fs.Disk) (k : Name)
        → k ≢ n
        → fs.at (walk_entries fs (safe_remove fs) t n below d).0 k ≡ fs.at d k
    walk_entries-keeps no_more n below d k ne = refl
    walk_entries-keeps (entry name tree rest) n below d k ne =
        and_then-keeps (walk fs (safe_remove fs) tree n (below ++ name ∷ []) d)
          (walk_entries fs (safe_remove fs) rest n below) k (fs.at d k)
          (walk-keeps tree n (below ++ name ∷ []) d k ne)
          (λ e h. walk_entries-keeps rest n below e k ne ∙ h)

  -- A recursive removal leaves the other names alone, whether it works or not.
  pub recursive_operation-keeps :
      (n : Name) (d : fs.Disk) (k : Name)
      → k ≢ n
      → fs.at (recursive_operation fs (safe_remove fs) n d).0 k ≡ fs.at d k
  unfolding recursive_operation
  recursive_operation-keeps n d k ne = elim (Option-cases (fs.at d n)) [
    | inl e ↦ rw (e, recursive_operation) (safe_remove-keeps file_entry n [] d k ne)
    | inr (t, e) ↦ rw (e, recursive_operation) (walk-keeps t n [] d k ne)
  ]

  rename-Moves :
      (from to : Name) (d : fs.Disk) → from ≢ to → MoveResult fs from to d (fs.rename from to d)
  rename-Moves from to d ne = record {
    arrived = laws.moved from to d ne;
    vacated = laws.vacated from to d ne;
    kept = laws.unmoved from to d from;
    beside = laws.beside from to d;
  }

  -- The same after a removal of what was at the new name.
  then_rename-Moves :
      (from to : Name) (d : fs.Disk) (r : fs.Disk × Bool)
      → from ≢ to
      → ((k : Name) → k ≢ to → fs.at r.0 k ≡ fs.at d k)
      → MoveResult fs from to d (and_then fs r (fs.rename from to))
  then_rename-Moves from to d (e, false) ne keeps = record {
    arrived = λ h. cc;
    vacated = λ h. cc;
    kept = λ h. keeps from ne;
    beside = λ k nf nt. keeps k nt;
  }
  then_rename-Moves from to d (e, true) ne keeps =
      let m = rename-Moves from to e ne in
      record {
        arrived = λ h. m.arrived h ∙ keeps from ne;
        vacated = m.vacated;
        kept = λ h. m.kept h ∙ keeps from ne;
        beside = λ k nf nt. m.beside k nf nt ∙ keeps k nt;
      }

  pub internal_rename-Moves :
      (from to : Name) (d : fs.Disk)
      → from ≢ to
      → MoveResult fs from to d (internal_rename fs from to d)
  unfolding internal_rename
  internal_rename-Moves from to d ne =
      if-cases (MoveResult fs from to d) (is_dir (fs.at d from) && is_some (fs.at d to)) _ _
        (λ h. then_rename-Moves from to d _ ne (λ k nt. recursive_operation-keeps to d k nt))
        (λ h. rename-Moves from to d ne)
