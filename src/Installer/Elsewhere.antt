-- ===== src/Installer/Elsewhere.antt =====
-- A renamer leaves the names of other base names alone.
use mathlib.Core.Path.{◌∙◌}
use qtapplicationmanager.Prelude.{
  ◌≡◌, ◌≢◌, refl, sym, ap, subst, Bool, true, false, ◌&&◌, ◌||◌, not, String, none, Bool-cases, inl,
  inr, if-both,
}
use qtapplicationmanager.Installer.Files.{Name, FileSystem, FileLaws}
use qtapplicationmanager.Installer.Renamer.{
  Modes, ScopedRenamer, new_renamer, name, plus_of, minus_of, set_minus, set_plus, is_renamed,
  same_modes, internal_rename, undo_plus, undo_minus, internal_undo_rename, undo_rename, back_up,
  put_in_place, rename,
}
use qtapplicationmanager.Installer.Renaming.{internal_rename-Moves, recursive_operation-keeps}
use qtapplicationmanager.Installer.Undoing.{name≢minus_of, name≢plus_of}
use qtapplicationmanager.Installer.Securing.{undo_plus-Undone}
use qtapplicationmanager.Installer.Backup.{plain, with_minus, asked, back_up_eq}
use qtapplicationmanager.Installer.Deinstallation.{backup_only, delete_backup}

module _ (fs : FileSystem) (laws : FileLaws fs) (k : Name) where
  internal_rename-elsewhere :
      (from to : Name) (d : fs.Disk)
      → from ≢ to
      → k.base ≢ from.base
      → k.base ≢ to.base
      → fs.at (internal_rename fs from to d).0 k ≡ fs.at d k
  internal_rename-elsewhere from to d ne nf nt =
      (internal_rename-Moves fs laws from to d ne).beside k (λ e. nf (ap (λ n. n.base) e))
        (λ e. nt (ap (λ n. n.base) e))

  undo_plus-elsewhere :
      (r : ScopedRenamer) (d : fs.Disk) → k.base ≢ r.base → fs.at (undo_plus fs r d).1 k ≡ fs.at d k
  unfolding undo_plus
  undo_plus-elsewhere r d ne =
      if-both (λ (x : ScopedRenamer × fs.Disk). fs.at x.1 k ≡ fs.at d k) r.done.name_plus_to_name _
        _ (internal_rename-elsewhere (name r) (plus_of r) d (name≢plus_of r) ne ne) refl

  undo_minus-elsewhere :
      (r : ScopedRenamer) (d : fs.Disk)
      → k.base ≢ r.base
      → fs.at (undo_minus fs r d).1 k ≡ fs.at d k
  unfolding undo_minus
  undo_minus-elsewhere r d ne =
      if-both (λ (x : ScopedRenamer × fs.Disk). fs.at x.1 k ≡ fs.at d k) r.done.name_to_name_minus _
        _ (internal_rename-elsewhere (minus_of r) (name r) d (λ e. name≢minus_of r (sym e)) ne ne)
        refl

  pub undo_rename-elsewhere :
      (r : ScopedRenamer) (d : fs.Disk)
      → k.base ≢ r.base
      → fs.at (undo_rename fs r d).1 k ≡ fs.at d k
  unfolding undo_rename internal_undo_rename
  undo_rename-elsewhere r d ne =
      if-both (λ (x : ScopedRenamer × fs.Disk). fs.at x.1 k ≡ fs.at d k) (not r.taken) _ _
        (undo_minus-elsewhere (undo_plus fs r d).0 (undo_plus fs r d).1
            (λ e. ne (e ∙ (undo_plus-Undone fs r d).base))
          ∙ undo_plus-elsewhere r d ne)
        refl

  put_in_place-elsewhere :
      (b : Bool) (r : ScopedRenamer) (d : fs.Disk)
      → k.base ≢ r.base
      → fs.at (put_in_place fs b r d).1 k ≡ fs.at d k
  unfolding put_in_place
  put_in_place-elsewhere b r d ne =
      let out = internal_rename fs (plus_of r) (name r) d in
      let moved =
        internal_rename-elsewhere (plus_of r) (name r) d (λ e. name≢plus_of r (sym e)) ne ne in
      let P : ScopedRenamer × fs.Disk → Type 0 = λ x. fs.at x.1 k ≡ fs.at d k in
      if-both P (r.requested.name_plus_to_name && (not r.requested.name_to_name_minus || b)) _ _
        (if-both P out.1 (set_plus true r, out.0) _ moved
          (if-both P b (undo_rename fs r out.0) (r, out.0)
            (undo_rename-elsewhere r out.0 ne ∙ moved) moved))
        refl

  pub rename-elsewhere :
      (base : String) (modes : Modes) (d : fs.Disk)
      → k.base ≢ base
      → fs.at (rename fs base modes new_renamer d).1 k ≡ fs.at d k
  unfolding rename back_up
  rename-elsewhere base modes d ne =
      let r = asked base modes in
      let out = internal_rename fs (plain base) (with_minus base) d in
      let moved =
        internal_rename-elsewhere (plain base) (with_minus base) d (name≢minus_of r) ne ne in
      let P : ScopedRenamer × fs.Disk × Bool → Type 0 =
        (λ x. fs.at (put_in_place fs x.2 x.0 x.1).1 k ≡ fs.at d k) in
      if-both P modes.name_to_name_minus _ _
        (if-both (λ (s : ScopedRenamer). P (s, out.0, out.1)) out.1 (set_minus true r) r
          (put_in_place-elsewhere out.1 (set_minus true r) out.0 ne ∙ moved)
          (put_in_place-elsewhere out.1 r out.0 ne ∙ moved))
        (put_in_place-elsewhere false r d ne)

module _ (fs : FileSystem) (laws : FileLaws fs) where
  plain≢minus_of : (base : String) (r : ScopedRenamer) → plain base ≢ minus_of r
  plain≢minus_of base r e = cc (ap (λ n. n.suffix) e)

  -- The removal of a backup leaves what has no suffix alone.
  pub delete_backup-keeps :
      (base : String) (r : ScopedRenamer) (d : fs.Disk)
      → fs.at (delete_backup fs r d) (plain base) ≡ fs.at d (plain base)
  unfolding delete_backup
  delete_backup-keeps base r d =
      if-both (λ (e : fs.Disk). fs.at e (plain base) ≡ fs.at d (plain base)) (is_renamed r) _ _
        (recursive_operation-keeps fs laws (minus_of r) d (plain base) (plain≢minus_of base r)) refl

  nothing_to_place :
      (b : Bool) (r : ScopedRenamer) (d : fs.Disk)
      → r.requested.name_plus_to_name ≡ false
      → put_in_place fs b r d ≡ (r, d)
  unfolding put_in_place
  nothing_to_place b r d h = rw h refl

  -- What is at the name after both renames, when they report success.
  abbrev Vacated : String → ScopedRenamer × fs.Disk → Type 0
  Vacated base x = same_modes x.0.requested x.0.done ≡ true → fs.at x.1 (plain base) ≡ none

  -- A rename to the backup alone that works leaves nothing at the name.
  pub rename-Vacates :
      (base : String) (d : fs.Disk)
      → (rename fs base backup_only new_renamer d).2 ≡ true
      → fs.at (rename fs base backup_only new_renamer d).1 (plain base) ≡ none
  unfolding rename
  rename-Vacates base d =
      let r = asked base backup_only in
      let out = internal_rename fs (plain base) (with_minus base) d in
      let m = internal_rename-Moves fs laws (plain base) (with_minus base) d (name≢minus_of r) in
      let Q : ScopedRenamer × fs.Disk × Bool → Type 0 =
        (λ x. Vacated base (put_in_place fs x.2 x.0 x.1)) in
      elim (Bool-cases out.1) [
        | inl ok ↦ subst Q (sym (back_up_eq fs base backup_only d true refl ok)) (
            subst (Vacated base) (sym (nothing_to_place true (set_minus true r) out.0 refl))
              (λ h. m.vacated ok))
        | inr failed ↦
            subst Q (sym (back_up_eq fs base backup_only d false refl failed))
              (subst (Vacated base) (sym (nothing_to_place false r out.0 refl)) (λ h. cc))
      ]

  -- The destructor of a renamer that renamed nothing.
  pub undo_nothing : (d : fs.Disk) → (undo_rename fs new_renamer d).1 ≡ d
  unfolding undo_rename internal_undo_rename undo_plus undo_minus
  undo_nothing d = refl
