-- ===== src/Installer/Backup.antt =====
-- A rename that makes a backup, and the destructor that undoes it: what was at the name is kept.
use mathlib.Core.Path.{◌∙◌}
use qtapplicationmanager.Prelude.{
  ◌≡◌, ◌⊎◌, refl, sym, ap, subst, Bool, true, false, ◌&&◌, ◌||◌, not, String, some, Bool-cases, inl,
  inr, if-cases, if-both, if◌then◌else◌,
}
use qtapplicationmanager.Installer.Files.{no_suffix, minus, plus, Name, Tree, FileSystem, FileLaws}
use qtapplicationmanager.Installer.Renamer.{
  Modes, ScopedRenamer, new_renamer, name, plus_of, minus_of, set_minus, set_plus, internal_rename,
  undo_rename, back_up, put_in_place, rename,
}
use qtapplicationmanager.Installer.Renaming.{internal_rename-Moves}
use qtapplicationmanager.Installer.Undoing.{
  name≢minus_of, name≢plus_of, minus_of≢plus_of, Found, undo_rename-Found, in_backup,
}
use qtapplicationmanager.Installer.Securing.{
  same_modes-true, undo_rename-Undone, Placed, put_in_place-Placed, not_placed,
}

-- The renamer after its arguments are noted.
abbrev pub asked : String → Modes → ScopedRenamer
asked base modes = record new_renamer { base = base; requested = modes }

-- The paths of a base name.
abbrev pub plain : String → Name
plain base = record { base = base; suffix = no_suffix }

abbrev pub with_minus : String → Name
with_minus base = record { base = base; suffix = minus }

abbrev pub with_plus : String → Name
with_plus base = record { base = base; suffix = plus }

-- The tree is at the name, or beside it as the backup.
abbrev pub Kept : (fs : FileSystem) → Tree → String → fs.Disk → Type 0
Kept fs t base d = (fs.at d (plain base) ≡ some t) ⊎ (fs.at d (with_minus base) ≡ some t)

module _ (fs : FileSystem) where
  pub back_up_eq :
      (base : String) (modes : Modes) (d : fs.Disk) (b : Bool)
      → modes.name_to_name_minus ≡ true
      → (internal_rename fs (plain base) (with_minus base) d).1 ≡ b
      → back_up fs (asked base modes) d ≡ (
        if b then set_minus true (asked base modes) else asked base modes,
        (internal_rename fs (plain base) (with_minus base) d).0,
        b,
      )
  unfolding back_up
  back_up_eq base modes d b h e =
      if-cases
        (λ (x : ScopedRenamer × fs.Disk × Bool). x ≡ (
          if b then set_minus true (asked base modes) else asked base modes,
          (internal_rename fs (plain base) (with_minus base) d).0,
          b,
        ))
        modes.name_to_name_minus _ _
        (λ c.
          ap
            (λ k. (
              if k then set_minus true (asked base modes) else asked base modes,
              (internal_rename fs (plain base) (with_minus base) d).0,
              k,
            ))
            e)
        (λ c. cc)

module _ (fs : FileSystem) (laws : FileLaws fs) (t : Tree) where
  -- What the whole of `rename` does, for a renamer that is new.
  rename-Placed :
      (base : String) (modes : Modes) (d : fs.Disk)
      → modes.name_to_name_minus ≡ true
      → fs.at d (plain base) ≡ some t
      → Placed fs laws t
          (fs.at d (with_plus base))
          (asked base modes)
          (rename fs base modes new_renamer d).0
          (rename fs base modes new_renamer d).1
  unfolding rename
  rename-Placed base modes d h e =
      let r = asked base modes in
      let out = internal_rename fs (plain base) (with_minus base) d in
      let m = internal_rename-Moves fs laws (plain base) (with_minus base) d (name≢minus_of r) in
      let Goal : ScopedRenamer × fs.Disk × Bool → Type 0 = (λ b.
        Placed fs laws t (fs.at d (with_plus base)) r (put_in_place fs b.2 b.0 b.1).0
          (put_in_place fs b.2 b.0 b.1).1) in
      elim (Bool-cases out.1) [
        | inl ok ↦
            let p =
              put_in_place-Placed fs laws t (set_minus true r) out.0 refl refl refl
                (m.arrived ok ∙ e) in
            subst Goal (sym (back_up_eq fs base modes d true h ok)) (record {
              recoverable = p.recoverable;
              base = p.base;
              requested = p.requested;
              settled = p.settled;
              placed = λ k.
                  p.placed k
                  ∙ m.beside (with_plus base) (λ c. name≢plus_of r (sym c))
                      (λ c. minus_of≢plus_of r (sym c));
            })
        | inr failed ↦ subst Goal (sym (back_up_eq fs base modes d false h failed)) (
            subst
              (λ (x : ScopedRenamer × fs.Disk).
                Placed fs laws t (fs.at d (with_plus base)) r x.0 x.1)
              (sym (not_placed fs laws t r out.0 h))
              (record {
                recoverable = record { found = m.kept failed ∙ e; backed_up = λ k. cc };
                base = refl;
                requested = refl;
                settled = λ k. refl;
                placed = λ k. cc;
              }))
      ]

  Found-Kept :
      (r : ScopedRenamer) (base : String) (d : fs.Disk)
      → r.base ≡ base
      → Found fs laws t r d
      → Kept fs t base d
  Found-Kept r base d e f = elim (Bool-cases r.done.name_to_name_minus) [
    | inl h ↦ inr (subst (λ b. fs.at d (with_minus b) ≡ some t) e (in_backup fs laws t r d h f))
    | inr h ↦ inl (
        subst (λ b. fs.at d (plain b) ≡ some t) e
          (subst (λ b. fs.at d (if b then minus_of r else name r) ≡ some t) h f))
  ]

  -- For a rename with a backup, where the tree `t` is at the name: when it reports success, `t` is at
  -- the name with `-`, and if a replacement was asked for, what was at the name with `+` is now at
  -- the name; when it reports failure, `t` is at one of the two names. This holds whichever calls
  -- of the operating system fail.
  pub rename-Keeps :
      (base : String) (modes : Modes) (d : fs.Disk)
      → modes.name_to_name_minus ≡ true
      → fs.at d (plain base) ≡ some t
      → (((rename fs base modes new_renamer d).2 ≡ true)
          × (fs.at (rename fs base modes new_renamer d).1 (with_minus base) ≡ some t)
          × ((modes.name_plus_to_name ≡ false)
              ⊎ (fs.at (rename fs base modes new_renamer d).1 (plain base)
                  ≡ fs.at d (with_plus base))))
        ⊎ (((rename fs base modes new_renamer d).2 ≡ false)
            × Kept fs t base (rename fs base modes new_renamer d).1)
  unfolding rename
  rename-Keeps base modes d h e =
      let p = rename-Placed base modes d h e in
      let x = rename fs base modes new_renamer d in
      elim (Bool-cases x.2) [
        | inl ok ↦
            let both = same_modes-true x.0.requested x.0.done ok in
            let minus_done : x.0.done.name_to_name_minus ≡ true =
              sym both.0 ∙ ap (λ (k : Modes). k.name_to_name_minus) p.requested ∙ h in
            let plus_done = sym both.1 ∙ ap (λ (k : Modes). k.name_plus_to_name) p.requested in
            inl (
              ok,
              subst (λ b. fs.at x.1 (with_minus b) ≡ some t) p.base
                  (in_backup fs laws t x.0 x.1 minus_done p.recoverable.found),
              elim (Bool-cases modes.name_plus_to_name) [
                | inl asked_for ↦ inr (p.placed (plus_done ∙ asked_for))
                | inr not_asked ↦ inl not_asked
              ],
            )
        | inr failed ↦ inr (failed, Found-Kept x.0 base x.1 p.base p.recoverable.found)
      ]

  -- For a rename with a backup, where the tree `t` is at the name, and the destructor of a renamer
  -- that was not taken: either the undo is reported as done and `t` is at the name again, or it
  -- is not, and `t` is at the name or at the name with `-`. This holds whether the rename worked or
  -- not, and whichever calls of the operating system fail.
  pub undo_rename-Restores :
      (base : String) (modes : Modes) (d : fs.Disk)
      → modes.name_to_name_minus ≡ true
      → fs.at d (plain base) ≡ some t
      → (((undo_rename fs
              (rename fs base modes new_renamer d).0
              (rename fs base modes new_renamer d).1).0.taken
            ≡ true)
          × (fs.at
                (undo_rename fs
                  (rename fs base modes new_renamer d).0
                  (rename fs base modes new_renamer d).1).1
                (plain base)
              ≡ some t))
        ⊎ (((undo_rename fs
                (rename fs base modes new_renamer d).0
                (rename fs base modes new_renamer d).1).0.taken
              ≡ false)
            × Kept fs t base
                (undo_rename fs
                  (rename fs base modes new_renamer d).0
                  (rename fs base modes new_renamer d).1).1)
  undo_rename-Restores base modes d h e =
      let p = rename-Placed base modes d h e in
      let x = rename fs base modes new_renamer d in
      let y = undo_rename fs x.0 x.1 in
      let u = undo_rename-Undone fs x.0 x.1 in
      let f = undo_rename-Found fs laws t x.0 x.1 p.recoverable in
      elim (Bool-cases y.0.taken) [
        | inl done ↦ inl (
          done,
          subst (λ b. fs.at y.1 (plain b) ≡ some t) (u.base ∙ p.base)
              (subst (λ b. fs.at y.1 (if b then minus_of y.0 else name y.0) ≡ some t)
                (u.settled p.settled done) f),
        )
        | inr open' ↦ inr (open', Found-Kept y.0 base y.1 (u.base ∙ p.base) f)
      ]

module _ (fs : FileSystem) where
  abbrev HasBase : String → ScopedRenamer × fs.Disk → Type 0
  HasBase base x = x.0.base ≡ base

  put_in_place-base :
      (b : Bool) (r : ScopedRenamer) (d : fs.Disk) → HasBase r.base (put_in_place fs b r d)
  unfolding put_in_place
  put_in_place-base b r d =
      let out = internal_rename fs (plus_of r) (name r) d in
      if-both (HasBase r.base)
        (r.requested.name_plus_to_name && (not r.requested.name_to_name_minus || b)) _ _
        (if-both (HasBase r.base) out.1 (set_plus true r, out.0) _ refl
          (if-both (HasBase r.base) b (undo_rename fs r out.0) (r, out.0)
            (undo_rename-Undone fs r out.0).base refl))
        refl

  pub rename-base :
      (base : String) (modes : Modes) (d : fs.Disk)
      → (rename fs base modes new_renamer d).0.base ≡ base
  unfolding rename back_up
  rename-base base modes d =
      let r = asked base modes in
      let out = internal_rename fs (plain base) (with_minus base) d in
      let P : ScopedRenamer × fs.Disk × Bool → Type 0 =
        (λ x. HasBase base (put_in_place fs x.2 x.0 x.1)) in
      if-both P modes.name_to_name_minus _ _
        (if-both (λ (s : ScopedRenamer). P (s, out.0, out.1)) out.1 (set_minus true r) r
          (put_in_place-base out.1 (set_minus true r) out.0) (put_in_place-base out.1 r out.0))
        (put_in_place-base false r d)
