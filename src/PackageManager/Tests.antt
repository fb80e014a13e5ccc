-- ===== src/PackageManager/Tests.antt =====
-- Runs of the installer's queue and of the package states on small inputs, and the theorems at such
-- inputs.
use qtapplicationmanager.Prelude.{
  ℕ, ◌↔◌, All, ◌≡◌, refl, true, false, List, [], ◌∷◌, none, some, pos, arith, inl,
}
use qtapplicationmanager.PackageManager.Task.{Task, installation}
use qtapplicationmanager.PackageManager.Queue.{Manager, new_task}
use qtapplicationmanager.PackageManager.Events.{
  Event, execute_next, start_installation, cancellation, extraction, end, step, run,
}
use qtapplicationmanager.PackageManager.Holding.{Inv}
use qtapplicationmanager.PackageManager.Package.{PackageInfo, installed, Package, block}
use qtapplicationmanager.PackageManager.Installing.{
  Packages, start_update, starting_package_installation, cancel_in,
}
use qtapplicationmanager.PackageManager.Blocking.{Restored, cancel_update-Restored}
use qtapplicationmanager.PackageManager.Names.{
  validate_dns_name, validate_dns_name_iff, HasParts, IsDnsPart,
}
use qtapplicationmanager.PackageManager.Safety.{Accounted, run-Accounted}
use qtapplicationmanager.PackageManager.Liveness.{IsServed, step-IsServed}

abbrev empty_task : Task
empty_task = new_task "" installation ""

abbrev fresh : Manager
fresh = record {
  enable_installer = true;
  cleanup_broken_installations_done = true;
  task = λ _. empty_task;
  incoming_task_list = [];
  active_task = none;
  installation_task_list = [];
  deleted = [];
  triggers = 0;
  outbox = [];
}

fresh-Inv : Inv fresh
fresh-Inv q = record {
  fits = (omega arith, omega arith, omega arith);
  chosen = (λ h. refl, λ h. refl);
  balance = omega arith;
}

-- Two downloads, of which the first waits for its acknowledge while the second one starts.
abbrev downloads : List Event
downloads =
    start_installation 4 "a"
    ∷ start_installation 5 "b"
    ∷ execute_next
    ∷ extraction 4
    ∷ execute_next
    ∷ cancellation "b"
    ∷ end 5
    ∷ []

run-Accounted_example : Accounted fresh downloads (run downloads fresh)
unfolding step
run-Accounted_example =
    run-Accounted downloads fresh (refl, (refl, (tt, (tt, (tt, (tt, (tt, tt))))))) fresh-Inv

step-IsServed_example : IsServed (step (start_installation 4 "a") fresh)
step-IsServed_example = step-IsServed (start_installation 4 "a") fresh (inl refl)

abbrev navi : PackageInfo
navi = record { self = 30; id = "navi"; is_built_in = false; applications = "map" ∷ [] }

abbrev newer : PackageInfo
newer = record navi { self = 31 }

abbrev navi_package : Package
navi_package = record {
  base_info = navi;
  updated_info = none;
  state = installed;
  blocked = pos 0;
  blocked_apps = [];
}

abbrev shop : Packages
shop = record {
  packages = 9 ∷ [];
  package_at = λ _. navi_package;
  pending = λ _. none;
  about_to_be_removed = false;
  deleted = [];
  effects = [];
}

update_starts : (starting_package_installation 10 (some newer) shop).1 ≡ some 9
unfolding starting_package_installation start_update block
update_starts = refl

cancel_update-Restored_example :
    Restored 9 shop
      (cancel_in ((start_update 9 newer shop).0.package_at 9).state 9 (start_update 9 newer shop).0)
cancel_update-Restored_example = cancel_update-Restored 9 newer shop refl refl refl

-- "io.qt", split at the dot.
abbrev two_parts : List (List ℕ)
two_parts = (105 ∷ 111 ∷ []) ∷ (113 ∷ 116 ∷ []) ∷ []

validate_dns_name_iff_example :
    (validate_dns_name (λ name. two_parts) "io.qt" (pos 2) ≡ true)
    ↔ (HasParts 2 (pos 2) × All IsDnsPart two_parts)
validate_dns_name_iff_example = validate_dns_name_iff (λ name. two_parts) "io.qt" (pos 2)
