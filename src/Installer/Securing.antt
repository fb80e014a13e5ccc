-- ===== src/Installer/Securing.antt =====
-- `ScopedRenamer::rename` with a backup, and the destructor after it.
use mathlib.Core.Path.{◌∙◌}
use qtapplicationmanager.Prelude.{
  ◌≡◌, refl, sym, Bool, true, false, &&-true, arith, ◌&&◌, ◌||◌, not, Option, some, if-cases,
  if-both,
}
use qtapplicationmanager.Installer.Files.{Tree, FileSystem, FileLaws}
use qtapplicationmanager.Installer.Renamer.{
  Modes, ScopedRenamer, no_modes, name, plus_of, minus_of, same, same_modes, set_minus, set_plus,
  internal_rename, undo_plus, undo_minus, internal_undo_rename, undo_rename, put_in_place,
}
use qtapplicationmanager.Installer.Renaming.{internal_rename-Moves}
use qtapplicationmanager.Installer.Undoing.{
  name≢minus_of, name≢plus_of, minus_of≢plus_of, Recoverable, undo_rename-Found, from_backup,
  backup-stays,
}

pub same-true : (a b : Bool) → same a b ≡ true → a ≡ b
same-true true b h = sym h
same-true false true h = cc
same-true false false h = refl

pub same_modes-true :
    (a b : Modes)
    → same_modes a b ≡ true
    → (a.name_to_name_minus ≡ b.name_to_name_minus) × (a.name_plus_to_name ≡ b.name_plus_to_name)
same_modes-true a b h =
    let both = &&-true (same a.name_to_name_minus b.name_to_name_minus) _ h in
    (
      same-true a.name_to_name_minus b.name_to_name_minus both.0,
      same-true a.name_plus_to_name b.name_plus_to_name both.1,
    )

-- A renamer that was taken or undone has no backup left to move.
abbrev pub Settled : ScopedRenamer → Type 0
Settled r = r.taken ≡ true → r.done.name_to_name_minus ≡ false

-- What an undo does not change.
pub record Undone (r s : ScopedRenamer) : Type 0 where
  pub base : s.base ≡ r.base
  pub requested : s.requested ≡ r.requested
  pub no_plus : r.done.name_plus_to_name ≡ false → s.done.name_plus_to_name ≡ false
  pub settled : Settled r → Settled s

Undone-trans : (r s u : ScopedRenamer) → Undone r s → Undone s u → Undone r u
Undone-trans r s u a b = record {
  base = b.base ∙ a.base;
  requested = b.requested ∙ a.requested;
  no_plus = λ h. b.no_plus (a.no_plus h);
  settled = λ h. b.settled (a.settled h);
}

Undone-same : (r : ScopedRenamer) → Undone r r
Undone-same r = record { base = refl; requested = refl; no_plus = λ h. h; settled = λ h. h }

pub undo_plus-Undone :
    (fs : FileSystem) (r : ScopedRenamer) (d : fs.Disk) → Undone r (undo_plus fs r d).0
unfolding undo_plus
undo_plus-Undone fs r d =
    if-both (λ (x : ScopedRenamer × fs.Disk). Undone r x.0) r.done.name_plus_to_name _ _
      (if-both (Undone r) (internal_rename fs (name r) (plus_of r) d).1 (set_plus false r) r
        (record { base = refl; requested = refl; no_plus = λ h. refl; settled = λ h. h })
        (Undone-same r))
      (Undone-same r)

undo_minus-Undone :
    (fs : FileSystem) (r : ScopedRenamer) (d : fs.Disk) → Undone r (undo_minus fs r d).0
unfolding undo_minus
undo_minus-Undone fs r d =
    if-both (λ (x : ScopedRenamer × fs.Disk). Undone r x.0) r.done.name_to_name_minus _ _
      (if-both (Undone r) (internal_rename fs (minus_of r) (name r) d).1 (set_minus false r) r
        (record { base = refl; requested = refl; no_plus = λ h. h; settled = λ h k. refl })
        (Undone-same r))
      (Undone-same r)

pub undo_rename-Undone :
    (fs : FileSystem) (r : ScopedRenamer) (d : fs.Disk) → Undone r (undo_rename fs r d).0
unfolding undo_rename internal_undo_rename
undo_rename-Undone fs r d =
    let u =
      Undone-trans r _ _ (undo_plus-Undone fs r d)
        (undo_minus-Undone fs (undo_plus fs r d).0 (undo_plus fs r d).1) in
    if-both (λ (x : ScopedRenamer × fs.Disk). Undone r x.0) (not r.taken) _ _
      (if-cases (Undone r) (internal_undo_rename fs r d).2
        (record (internal_undo_rename fs r d).0 { taken = true }) (internal_undo_rename fs r d).0
        (λ ok. record {
          base = u.base;
          requested = u.requested;
          no_plus = u.no_plus;
          settled = λ h k. (same_modes-true (internal_undo_rename fs r d).0.done no_modes ok).0;
        })
        (λ no. u))
      (Undone-same r)

module _ (fs : FileSystem) (laws : FileLaws fs) (t : Tree) where
  -- After the second rename: the old tree can be recovered, and the new one is in place if it says so.
  pub record Placed (was : Option Tree) (r s : ScopedRenamer) (d : fs.Disk) : Type 0 where
    pub recoverable : Recoverable fs laws t s d
    pub base : s.base ≡ r.base
    pub requested : s.requested ≡ r.requested
    pub settled : Settled s
    pub placed : s.done.name_plus_to_name ≡ true → fs.at d (name r) ≡ was

  pub put_in_place-Placed :
      (r : ScopedRenamer) (d : fs.Disk)
      → r.done.name_to_name_minus ≡ true
      → r.done.name_plus_to_name ≡ false
      → r.taken ≡ false
      → fs.at d (minus_of r) ≡ some t
      → Placed (fs.at d (plus_of r)) r (put_in_place fs true r d).0 (put_in_place fs true r d).1
  unfolding put_in_place
  put_in_place-Placed r d b np fresh e =
      let out = internal_rename fs (plus_of r) (name r) d in
      let m = internal_rename-Moves fs laws (plus_of r) (name r) d (λ c. name≢plus_of r (sym c)) in
      let stays =
        backup-stays fs laws t (plus_of r) (name r) r d (λ c. name≢plus_of r (sym c))
          (minus_of≢plus_of r) (λ c. name≢minus_of r (sym c)) e in
      let rec : Recoverable fs laws t r out.0 = record {
        found = from_backup fs laws t r out.0 b stays;
        backed_up = λ h. b;
      } in
      let u = undo_rename-Undone fs r out.0 in
      if-both (λ (x : ScopedRenamer × fs.Disk). Placed (fs.at d (plus_of r)) r x.0 x.1)
        (r.requested.name_plus_to_name && (not r.requested.name_to_name_minus || true)) _ _
        (if-cases (λ (x : ScopedRenamer × fs.Disk). Placed (fs.at d (plus_of r)) r x.0 x.1) out.1
          (set_plus true r, out.0) (undo_rename fs r out.0)
          (λ ok. record {
            recoverable = record {
              found = from_backup fs laws t (set_plus true r) out.0 b stays;
              backed_up = λ h. b;
            };
            base = refl;
            requested = refl;
            settled = λ h. cc;
            placed = λ h. m.arrived ok;
          })
          (λ no. record {
            recoverable = record {
              found = undo_rename-Found fs laws t r out.0 rec;
              backed_up = λ h. cc (u.no_plus np);
            };
            base = u.base;
            requested = u.requested;
            settled = u.settled (λ h. cc);
            placed = λ h. cc (u.no_plus np);
          }))
        (record {
          recoverable = record { found = from_backup fs laws t r d b e; backed_up = λ h. b };
          base = refl;
          requested = refl;
          settled = λ h. cc;
          placed = λ h. cc;
        })

  -- Without a backup, the second rename is not tried.
  pub not_placed :
      (r : ScopedRenamer) (d : fs.Disk)
      → r.requested.name_to_name_minus ≡ true
      → put_in_place fs false r d ≡ (r, d)
  unfolding put_in_place
  not_placed r d h =
      if-cases (λ (x : ScopedRenamer × fs.Disk). x ≡ (r, d))
        (r.requested.name_plus_to_name && (not r.requested.name_to_name_minus || false)) _ _
        (λ c. ground arith) (λ c. refl)
