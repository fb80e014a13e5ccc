-- ===== src/Installer/Finishing.antt =====
-- What the package manager does at the two ends of a removal.
use mathlib.Core.Path.{◌∙◌}
use qtapplicationmanager.Prelude.{
  ℕ, ◌≡◌, ◌⊎◌, refl, sym, ap, subst, Bool, true, false, Bool-cases, ◌&&◌, not, String, none, some,
  Option-cases, inl, inr, if-both, if◌then◌else◌,
}
use qtapplicationmanager.Prelude.Maybe.{◌>>=◌}
use qtapplicationmanager.Qt.Queue.{remove_one, holds, remove_one-missing}
use qtapplicationmanager.PackageManager.Task.{Error, system_error}
use qtapplicationmanager.PackageManager.Package.{
  PackageInfo, PackageState, Package, info, is_built_in, built_in_has_removable_update,
}
use qtapplicationmanager.PackageManager.Installing.{
  Packages, starting_package_removal, finish_in, finished_package_install, exchange_info,
  settle_package, unregister, take_row, drop_package,
}
use qtapplicationmanager.Installer.Deinstallation.{
  World, Approval, refused, approved, approve_package, approve,
}
use qtapplicationmanager.Installer.Approval.{
  Free, InRemoval, starting_package_removal-Starts, still_found,
}

-- What the end of a removal does to the list of packages: a package goes, a built-in one stays.
abbrev pub Gone : ℕ → Packages → Packages → Type 0
Gone p m n =
    (n.packages ≡ remove_one p m.packages)
    ⊎ ((is_built_in (m.package_at p) ≡ true) × (n.packages ≡ m.packages))

exchange_null :
    (p : ℕ) (n : Packages)
    → is_built_in (n.package_at p) ≡ true
    → (u : Packages) × (exchange_info p none n ≡ some u) × (u.packages ≡ n.packages)
unfolding exchange_info
exchange_null p n b = elim (Option-cases (n.package_at p).updated_info) [
  | inl e ↦ rw (b, exchange_info) (rw (e, exchange_info) (_, refl, refl))
  | inr (old, e) ↦ rw (b, exchange_info) (rw (e, exchange_info) (_, refl, refl))
]

-- The package leaves the list, unless the program is just announcing that another one does.
take_row_lem :
    (p : ℕ) (n : Packages)
    → n.about_to_be_removed ≡ false
    → (u : Packages) × (take_row p n ≡ some u) × (u.packages ≡ remove_one p n.packages)
unfolding take_row
take_row_lem p n quiet = elim (Bool-cases (holds p n.packages)) [
  | inl here ↦ rw (here, take_row) (rw (quiet, take_row) (_, refl, refl))
  | inr gone ↦ rw (gone, take_row) (_, refl, sym (remove_one-missing p n.packages gone))
]

-- The end of a removal never faults.
pub finish-Gone :
    (reads_report : PackageInfo → Bool) (id : String) (p : ℕ) (m n : Packages)
    → Free id p m
    → InRemoval p m n
    → (x : Packages × Bool) × (finished_package_install reads_report id n ≡ some x) × Gone p m x.0
unfolding finished_package_install finish_in settle_package drop_package
finish-Gone reads_report id p m n f r =
    let Goal : PackageState → Type 0 =
      (λ s. (x : Packages × Bool) × (finish_in s reads_report p n ≡ some x) × Gone p m x.0) in
    rw (still_found id p m n r f.found, finished_package_install)
      (subst (λ (k : Package). Goal k.state) (sym r.blocked)
        (elim r.goes [
          | inl e ↦
              let (u, left, list) = take_row_lem p (unregister p n) (r.still ∙ f.is_quiet) in
              subst Goal (sym e) (
                (drop_package p u, true),
                ap (λ o. o >>= λ v. some (drop_package p v, true)) left,
                inl (list ∙ ap (remove_one p) r.packages),
              )
          | inr (e, built_in) ↦
              let (u, exchanged, same) =
                exchange_null p (unregister p n) (ap is_built_in r.blocked ∙ built_in) in
              subst Goal (sym e) (
                (settle_package p u, true),
                ap (λ o. o >>= λ v. some (settle_package p v, true)) exchanged,
                inr (built_in, same ∙ r.packages),
              )
        ]))

-- What the package manager says, and does.
abbrev pub Approving : ℕ → Packages → Packages × Approval → Type 0
Approving p m r =
    ((e : Error) × (r ≡ (m, refused e)))
    ⊎ ((n : Packages) × (r ≡ (n, approved p)) × InRemoval p m n)

pub approve-Approving :
    (w : World) (id : String) (p : ℕ) (m : Packages) → Free id p m → Approving p m (approve w id m)
unfolding approve approve_package
approve-Approving w id p m f =
    let k = m.package_at p in
    let started = starting_package_removal id m in
    rw (f.found, approve)
      (if-both (Approving p m) (is_built_in k && not (built_in_has_removable_update k)) _ _
        (inl (system_error, refl))
        (if-both (Approving p m) (not (w.has_report (info k))) _ _ (inl (system_error, refl))
          (elim (starting_package_removal-Starts id p m f) [
            | inl (ok, r) ↦ inr (
              started.0,
              ap (λ b. (started.0, if b then approved p else refused system_error)) ok,
              r,
            )
            | inr (not_ok, same) ↦ inl (
              system_error,
              ap (λ b. (started.0, if b then approved p else refused system_error)) not_ok
                  ∙ ap (λ n. (n, refused system_error)) same,
            )
          ])))
