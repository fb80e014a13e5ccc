-- ===== src/PackageManager/Installing.antt =====
-- The package side of an installation, an update and a removal: `startingPackageInstallation`,
-- `startingPackageRemoval`, `finishedPackageInstall` and `canceledPackageInstall`.
use qtapplicationmanager.Prelude.{
  ℕ, Bool, true, false, ◌&&◌, ◌||◌, not, String, str_eq, List, [], ◌∷◌, ◌++◌, Option, none, some,
  find, if◌then◌else◌,
}
use qtapplicationmanager.Prelude.Maybe.{◌>>=◌}
use qtapplicationmanager.Qt.Queue.{remove_one, holds}
use qtapplicationmanager.Qt.Heap.{update}
use qtapplicationmanager.PackageManager.Package.{
  PackageInfo, PackageState, installed, being_installed, being_updated, being_downgraded,
  being_removed, Package, new_package, info, is_built_in, built_in_has_removable_update, is_blocked,
  block, unblock,
}

-- What the manager tells the application and intent managers, and its package database. The infos
-- are named by their addresses.
pub data Effect : Type 0 where
  package_added package_about_to_be_removed : String → Effect
  register_applications_and_intents unregister_applications_and_intents : ℕ → Effect
  add_package_info remove_package_info : ℕ → Effect

-- `package_at` is what a pointer points to, `pending` is `pendingPackageInfoUpdates`, and
-- `about_to_be_removed` is set while the receivers of `packageAboutToBeRemoved` run; the newest effect
-- comes first.
pub record Packages : Type 0 where
  pub packages : List ℕ
  pub package_at : ℕ → Package
  pub pending : ℕ → Option PackageInfo
  pub about_to_be_removed : Bool
  pub deleted : List ℕ
  pub effects : List Effect

abbrev pub modify_package : ℕ → (Package → Package) → Packages → Packages
modify_package p f m = record m { package_at = update m.package_at p (f (m.package_at p)) }

abbrev pub emit_effect : Effect → Packages → Packages
emit_effect e m = record m { effects = e ∷ m.effects }

abbrev pub from_id : String → Packages → Option ℕ
from_id id m = find (λ p. str_eq (info (m.package_at p)).id id) m.packages

abbrev pub set_pending : ℕ → Option PackageInfo → Packages → Packages
set_pending p i m = record m { pending = update m.pending p i }

abbrev pub set_package_state : PackageState → Package → Package
set_package_state state p = record p { state = state }

-- For a new package at the address `fresh`.
unfoldable pub register_new_package : ℕ → PackageInfo → Packages → Packages
register_new_package fresh i m = emit_effect (package_added i.id) (record m {
  package_at = update m.package_at fresh (new_package i being_installed);
  packages = m.packages ++ fresh ∷ [];
})

-- The update of a package that is known, by whether `block` succeeds. The only caller, the installation
-- task, gives up before when `isPackageInstallationActive` (Queue) finds an installation of the package.
unfoldable pub start_update : ℕ → PackageInfo → Packages → Packages × Option ℕ
start_update p i m =
    let blocked = modify_package p (λ k. (block k).0) m in
    if (block (m.package_at p)).1
    then (
      modify_package p (set_package_state being_updated) (set_pending p (some i) blocked),
      some p,
    )
    else (blocked, none)

unfoldable pub starting_package_installation :
    ℕ → Option PackageInfo → Packages → Packages × Option ℕ
starting_package_installation fresh none m = (m, none)
starting_package_installation fresh (some i) m =
    if str_eq i.id "" then (m, none) else elim (from_id i.id m) [
      | some p ↦ start_update p i m
      | none ↦ (register_new_package fresh i m, some fresh)
    ]

abbrev pub is_installed : PackageState → Bool
is_installed installed = true
is_installed _ = false

-- The removal of a package that is known.
unfoldable pub start_removal_of : ℕ → Packages → Packages × Bool
start_removal_of p m =
    let k = m.package_at p in
    if is_blocked k || not (is_installed k.state)
    then (m, false)
    else (if is_built_in k && not (built_in_has_removable_update k)
        then (m, false)
        else (let blocked = modify_package p (λ x. (block x).0) m in
            if not (block k).1 then (blocked, false) else (
              modify_package p
                  (λ x.
                    set_package_state
                      (if built_in_has_removable_update x then being_downgraded else being_removed)
                      x)
                  blocked,
              true,
            )))

unfoldable pub starting_package_removal : String → Packages → Packages × Bool
starting_package_removal id m = elim (from_id id m) [
  | none ↦ (m, false)
  | some p ↦ start_removal_of p m
]

-- `setUpdatedInfo` or `setBaseInfo`, with the removal of the old info from the database. A null
-- base info would fault later: it is one only for a downgrade of a package that is not built in.
unfoldable pub exchange_info : ℕ → Option PackageInfo → Packages → Option Packages
exchange_info p new_info m =
    let k = m.package_at p in
    if is_built_in k
    then (let m' = modify_package p (λ x. record x { updated_info = new_info }) m in
        elim k.updated_info [
          | some old ↦ some (emit_effect (remove_package_info old.self) m')
          | none ↦ some m'
        ])
    else new_info >>= λ i. some (
        emit_effect (remove_package_info k.base_info.self)
          (modify_package p (λ x. record x { base_info = i }) m))

abbrev pub add_to_database : Option PackageInfo → Packages → Packages
add_to_database none m = m
add_to_database (some i) m = emit_effect (add_package_info i.self) m

-- The end of the branch for installations, updates and downgrades.
unfoldable pub settle_package : ℕ → Packages → Packages
settle_package p m =
    modify_package p (λ x. (unblock (set_package_state installed x)).0)
      (emit_effect (register_applications_and_intents p) m)

abbrev pub unregister : ℕ → Packages → Packages
unregister p m = emit_effect (unregister_applications_and_intents p) m

-- A package that is in the list leaves it, which is announced before; the program ends when a receiver of
-- the announcement does the same.
unfoldable pub take_row : ℕ → Packages → Option Packages
take_row p m =
    if holds p m.packages
    then (if m.about_to_be_removed
        then none
        else (let gone = emit_effect (package_about_to_be_removed (info (m.package_at p)).id) m in
            some (record gone { packages = remove_one p gone.packages })))
    else some m

-- The end of the branch for removals.
unfoldable pub drop_package : ℕ → Packages → Packages
drop_package p m =
    let freed = modify_package p (λ x. (unblock x).0) m in
    record (emit_effect (remove_package_info (info (freed.package_at p)).self) freed) {
      deleted = p ∷ freed.deleted;
    }

-- `reads_report` is whether the installation report of the info can be read. A null info faults
-- where the report's path is made.
unfoldable pub finish_in :
    PackageState → (PackageInfo → Bool) → ℕ → Packages → Option (Packages × Bool)
unfolding take_row drop_package
finish_in installed reads_report p m = some (m, false)
finish_in being_installed reads_report p m =
    let i = (m.package_at p).base_info in
    if reads_report i
    then some (settle_package p (add_to_database (some i) m), true)
    else some (m, false)
finish_in being_updated reads_report p m = m.pending p >>= λ i.
    let taken = set_pending p none m in
    if reads_report i
    then (exchange_info p (some i) (unregister p taken) >>= λ u.
        some (settle_package p (add_to_database (some i) u), true))
    else some (taken, false)
finish_in being_downgraded reads_report p m =
    exchange_info p none (unregister p m) >>= λ u. some (settle_package p u, true)
finish_in being_removed reads_report p m =
    take_row p (unregister p m) >>= λ u. some (drop_package p u, true)

unfoldable pub finished_package_install :
    (PackageInfo → Bool) → String → Packages → Option (Packages × Bool)
finished_package_install reads_report id m = elim (from_id id m) [
  | none ↦ some (m, false)
  | some p ↦ finish_in (m.package_at p).state reads_report p m
]

-- The branch of `canceledPackageInstall` for a package that was there before.
unfoldable pub restore_package : ℕ → Packages → Packages
restore_package p m =
    modify_package p (λ x. (unblock (set_package_state installed x)).0) (set_pending p none m)

-- No receiver of `packageAboutToBeRemoved` cancels an installation itself, which would end the program.
unfoldable pub cancel_in : PackageState → ℕ → Packages → Packages × Bool
cancel_in installed p m = (m, false)
cancel_in being_installed p m =
    let gone = emit_effect (package_about_to_be_removed (info (m.package_at p)).id) m in
    let cut = record gone { packages = remove_one p gone.packages } in
    let freed = modify_package p (λ x. (unblock x).0) cut in
    (record freed { deleted = p ∷ freed.deleted }, true)
cancel_in being_updated p m = (restore_package p m, true)
cancel_in being_downgraded p m = (restore_package p m, true)
cancel_in being_removed p m = (restore_package p m, true)

unfoldable pub canceled_package_install : String → Packages → Packages × Bool
canceled_package_install id m = elim (from_id id m) [
  | none ↦ (m, false)
  | some p ↦ cancel_in (m.package_at p).state p m
]
