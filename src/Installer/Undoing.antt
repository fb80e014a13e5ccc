-- ===== src/Installer/Undoing.antt =====
-- A rename that makes a backup: what was at the name is never lost.
use mathlib.Core.Path.{◌∙◌}
use qtapplicationmanager.Prelude.{
  ◌≡◌, ◌≢◌, sym, ap, subst, true, false, not, some, if-cases, if-both, if◌then◌else◌,
}
use qtapplicationmanager.Installer.Files.{Name, Tree, FileSystem, FileLaws}
use qtapplicationmanager.Installer.Renamer.{
  ScopedRenamer, name, plus_of, minus_of, set_minus, set_plus, internal_rename, undo_plus,
  undo_minus, internal_undo_rename, undo_rename,
}
use qtapplicationmanager.Installer.Renaming.{internal_rename-Moves}

-- Where what was at the name is now.
abbrev pub safe_place : ScopedRenamer → Name
safe_place r = if r.done.name_to_name_minus then minus_of r else name r

pub name≢minus_of : (r : ScopedRenamer) → name r ≢ minus_of r
name≢minus_of r e = cc (ap (λ n. n.suffix) e)

pub name≢plus_of : (r : ScopedRenamer) → name r ≢ plus_of r
name≢plus_of r e = cc (ap (λ n. n.suffix) e)

pub minus_of≢plus_of : (r : ScopedRenamer) → minus_of r ≢ plus_of r
minus_of≢plus_of r e = cc (ap (λ n. n.suffix) e)

module _ (fs : FileSystem) (laws : FileLaws fs) (t : Tree) where
  abbrev pub Found : ScopedRenamer → fs.Disk → Type 0
  Found r d = fs.at d (safe_place r) ≡ some t

  pub in_backup :
      (r : ScopedRenamer) (d : fs.Disk)
      → r.done.name_to_name_minus ≡ true
      → Found r d
      → fs.at d (minus_of r) ≡ some t
  in_backup r d h = subst (λ b. fs.at d (if b then minus_of r else name r) ≡ some t) h

  pub from_backup :
      (r : ScopedRenamer) (d : fs.Disk)
      → r.done.name_to_name_minus ≡ true
      → fs.at d (minus_of r) ≡ some t
      → Found r d
  from_backup r d h = subst (λ b. fs.at d (if b then minus_of r else name r) ≡ some t) (sym h)

  -- The backup stays where it is when the two other names change places.
  pub backup-stays :
      (from to : Name) (r : ScopedRenamer) (d : fs.Disk)
      → from ≢ to
      → minus_of r ≢ from
      → minus_of r ≢ to
      → fs.at d (minus_of r) ≡ some t
      → fs.at (internal_rename fs from to d).0 (minus_of r) ≡ some t
  backup-stays from to r d ne nf nt e =
      (internal_rename-Moves fs laws from to d ne).beside (minus_of r) nf nt ∙ e

  undo_minus-Found :
      (r : ScopedRenamer) (d : fs.Disk)
      → Found r d
      → Found (undo_minus fs r d).0 (undo_minus fs r d).1
  unfolding undo_minus
  undo_minus-Found r d f =
      let m =
        internal_rename-Moves fs laws (minus_of r) (name r) d (λ e. name≢minus_of r (sym e)) in
      let out = internal_rename fs (minus_of r) (name r) d in
      if-cases (λ (x : ScopedRenamer × fs.Disk). Found x.0 x.1) r.done.name_to_name_minus _ _
        (λ h.
          if-cases (λ (s : ScopedRenamer). Found s out.0) out.1 (set_minus false r) r
            (λ ok. m.arrived ok ∙ in_backup r d h f)
            (λ no. from_backup r out.0 h (m.kept no ∙ in_backup r d h f)))
        (λ h. f)

  -- Only what has a backup is replaced.
  pub record Recoverable (r : ScopedRenamer) (d : fs.Disk) : Type 0 where
    pub found : Found r d
    pub backed_up : r.done.name_plus_to_name ≡ true → r.done.name_to_name_minus ≡ true

  undo_plus-Found :
      (r : ScopedRenamer) (d : fs.Disk)
      → Recoverable r d
      → Found (undo_plus fs r d).0 (undo_plus fs r d).1
  unfolding undo_plus
  undo_plus-Found r d rec =
      let out = internal_rename fs (name r) (plus_of r) d in
      if-cases (λ (x : ScopedRenamer × fs.Disk). Found x.0 x.1) r.done.name_plus_to_name _ _
        (λ h.
          let b = rec.backed_up h in
          let now =
            backup-stays (name r) (plus_of r) r d (name≢plus_of r) (λ e. name≢minus_of r (sym e))
              (minus_of≢plus_of r) (in_backup r d b rec.found) in
          if-both (λ (s : ScopedRenamer). Found s out.0) out.1 (set_plus false r) r
            (from_backup (set_plus false r) out.0 b now) (from_backup r out.0 b now))
        (λ h. rec.found)

  pub undo_rename-Found :
      (r : ScopedRenamer) (d : fs.Disk)
      → Recoverable r d
      → Found (undo_rename fs r d).0 (undo_rename fs r d).1
  unfolding undo_rename internal_undo_rename
  undo_rename-Found r d rec =
      let both = undo_minus-Found _ _ (undo_plus-Found r d rec) in
      if-both (λ (x : ScopedRenamer × fs.Disk). Found x.0 x.1) (not r.taken) _ _
        (if-both (λ (s : ScopedRenamer). Found s (internal_undo_rename fs r d).1)
          (internal_undo_rename fs r d).2 (record (internal_undo_rename fs r d).0 { taken = true })
          (internal_undo_rename fs r d).0 both both)
        rec.found
