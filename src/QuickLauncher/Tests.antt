-- ===== src/QuickLauncher/Tests.antt =====
-- Runs of the quick launcher on a small pool, and the theorems at it.
use qtapplicationmanager.Prelude.{◌≡◌, ◌<◌, ◌↔◌, pos, refl, true, false, [], ◌∷◌, none, some, arith}
use qtapplicationmanager.QuickLauncher.Pool.{
  QuickLaunchEntry, Launcher, World, start_runtime, make_car, fill_with, rebuild_entry,
  rebuild_pool, check_entry, rebuild, scan_cars, remove_entry, take_pass, take, size,
}
use qtapplicationmanager.QuickLauncher.Filling.{Rebuilt, rebuild-Rebuilt}
use qtapplicationmanager.QuickLauncher.Crashing.{normal_exit, process_finished}
use qtapplicationmanager.QuickLauncher.Counting.{FailureCounted, process_finished-Counts}
use qtapplicationmanager.QuickLauncher.Removing.{IsLast, remove_entry-IsLast}

abbrev qml_entry : QuickLaunchEntry
qml_entry = record {
  container_id = "process";
  runtime_id = "qml";
  maximum = 2;
  disabled = false;
  failed_time_stamps = [];
  containers_and_runtimes = (40, some 50) ∷ [];
}

abbrev working : World
working = record {
  create = λ id. some 41;
  create_quick_launcher = λ c id. some 51;
  start = λ r. true;
  current_msecs = 90000;
}

abbrev launcher : Launcher
launcher = record {
  pool = qml_entry ∷ [];
  is_idle = true;
  shutting_down = false;
  failed_start_limit = 5;
  failed_start_limit_interval_sec = 10;
  rebuilds = 0;
  shut_down_signals = 0;
}

one_more : size (rebuild working launcher).pool ≡ 2
unfolding rebuild rebuild_pool rebuild_entry fill_with make_car start_runtime check_entry
one_more = refl

-- Another runtime falls back to a container without one, of which there is none.
no_fallback : (take "process" "native" launcher).1 ≡ none
unfolding take take_pass
no_fallback = refl

rebuild-Rebuilt_example : Rebuilt working launcher (rebuild working launcher)
rebuild-Rebuilt_example = rebuild-Rebuilt working launcher (omega arith, tt) refl

abbrev closing : Launcher
closing = record launcher { shutting_down = true }

remove_entry-IsLast_example :
    IsLast closing (remove_entry none (some 50) closing)
    ↔ ((0 < size closing.pool) × (size (remove_entry none (some 50) closing).pool ≡ 0))
unfolding scan_cars
remove_entry-IsLast_example = remove_entry-IsLast none (some 50) closing refl (omega arith, tt)

-- The process of the entry's car exits with the code 3.
process_finished-Counts_example :
    FailureCounted working launcher [] qml_entry [] true
      (process_finished working (pos 3) normal_exit (40, some 50) launcher)
process_finished-Counts_example =
    process_finished-Counts working (pos 3) normal_exit (40, some 50) launcher [] qml_entry [] refl
      refl refl refl refl
