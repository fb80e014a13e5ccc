-- ===== src/Installer/Tests.antt =====
-- A small disk, and a package that is removed from it: the hypotheses of the theorems hold.
use qtapplicationmanager.Prelude.{
  ◌≡◌, ◌⊎◌, refl, true, false, String, str_eq, str_eq_iff, [], ◌∷◌, none, some, pos, inr,
  if◌then◌else◌,
}
use qtapplicationmanager.PackageManager.Package.{
  PackageInfo, installed, Package, block, application_stopped_due_to_block,
  are_all_applications_stopped_due_to_block,
}
use qtapplicationmanager.PackageManager.Installing.{Packages, start_removal_of}
use qtapplicationmanager.Installer.Files.{Tree, file, directory, no_more, entry}
use qtapplicationmanager.Installer.Renamer.{Modes, new_renamer, rename, undo_rename}
use qtapplicationmanager.Installer.Backup.{
  plain, with_minus, with_plus, Kept, rename-Keeps, undo_rename-Restores,
}
use qtapplicationmanager.Installer.Deinstallation.{
  Removal, World, approve, stop_applications, execute,
}
use qtapplicationmanager.Installer.Removing.{WaitEnds, Ended, execute-Ended}
use qtapplicationmanager.Installer.SmallDisk.{Trees, same_name, small_disk, small_laws}

abbrev version : String → Tree
version text = directory (entry "info.yaml" (file text) no_more)

-- The first version is installed, and the second one unpacked beside it.
abbrev two_versions : Trees
two_versions n =
    if same_name n (plain "/apps/radio")
    then some (version "1")
    else (if same_name n (with_plus "/apps/radio") then some (version "2") else none)

abbrev with_backup : Modes
with_backup = record { name_to_name_minus = true; name_plus_to_name = true }

rename-Keeps_example :
    (((rename small_disk "/apps/radio" with_backup new_renamer two_versions).2 ≡ true)
      × (((rename small_disk "/apps/radio" with_backup new_renamer two_versions).1
            (with_minus "/apps/radio"))
          ≡ some (version "1"))
      × ((true ≡ false)
          ⊎ (((rename small_disk "/apps/radio" with_backup new_renamer two_versions).1
                (plain "/apps/radio"))
              ≡ some (version "2"))))
    ⊎ (((rename small_disk "/apps/radio" with_backup new_renamer two_versions).2 ≡ false)
        × Kept small_disk
            (version "1")
            "/apps/radio"
            (rename small_disk "/apps/radio" with_backup new_renamer two_versions).1)
rename-Keeps_example =
    rename-Keeps small_disk small_laws (version "1") "/apps/radio" with_backup two_versions refl
      refl

undo_rename-Restores_example :
    (((undo_rename small_disk
          (rename small_disk "/apps/radio" with_backup new_renamer two_versions).0
          (rename small_disk "/apps/radio" with_backup new_renamer two_versions).1).0.taken
        ≡ true)
      × ((undo_rename small_disk
              (rename small_disk "/apps/radio" with_backup new_renamer two_versions).0
              (rename small_disk "/apps/radio" with_backup new_renamer two_versions).1).1
            (plain "/apps/radio")
          ≡ some (version "1")))
    ⊎ (((undo_rename small_disk
            (rename small_disk "/apps/radio" with_backup new_renamer two_versions).0
            (rename small_disk "/apps/radio" with_backup new_renamer two_versions).1).0.taken
          ≡ false)
        × Kept small_disk
            (version "1")
            "/apps/radio"
            (undo_rename small_disk
              (rename small_disk "/apps/radio" with_backup new_renamer two_versions).0
              (rename small_disk "/apps/radio" with_backup new_renamer two_versions).1).1)
undo_rename-Restores_example =
    undo_rename-Restores small_disk small_laws (version "1") "/apps/radio" with_backup two_versions
      refl refl

abbrev radio_info : PackageInfo
radio_info = record { self = 40; id = "radio"; is_built_in = false; applications = "tuner" ∷ [] }

abbrev radio : Package
radio = record {
  base_info = radio_info;
  updated_info = none;
  state = installed;
  blocked = pos 0;
  blocked_apps = [];
}

abbrev one_package : Packages
one_package = record {
  packages = 7 ∷ [];
  package_at = λ p. radio;
  pending = λ p. none;
  about_to_be_removed = false;
  deleted = [];
  effects = [];
}

-- The tuner stops while the task waits.
abbrev tuner_stops : World
tuner_stops = record {
  absolute_file_path = λ dir id. if str_eq dir "/docs" then "/docs/radio" else "/apps/radio";
  has_report = λ i. true;
  reads_report = λ i. true;
  stopping = "tuner" ∷ [];
  cancels = false;
}

abbrev remove_radio : Removal
remove_radio = record {
  package_id = "radio";
  installation_path = "/apps";
  document_path = "/docs";
  keep_documents = false;
}

wait_ends : WaitEnds tuner_stops (approve tuner_stops "radio" one_package)
unfolding approve stop_applications start_removal_of block are_all_applications_stopped_due_to_block
    application_stopped_due_to_block
wait_ends = inr refl

execute-Ended_example :
    Ended small_disk
      (version "1")
      "/apps/radio"
      7
      one_package
      (execute small_disk tuner_stops remove_radio one_package two_versions)
execute-Ended_example =
    execute-Ended small_disk small_laws (version "1") tuner_stops remove_radio 7 one_package
      two_versions (record { found = refl; free = refl; no_apps = refl; is_quiet = refl })
      (λ e. cc ((str_eq_iff "/docs/radio" "/apps/radio").1 e)) refl wait_ends
