-- ===== src/PackageManager/Safety.antt =====
-- Every history of the installer's tasks: no task is lost, run twice, or reported twice.
use qtapplicationmanager.Prelude.{
  ℕ, zero, suc, ◌+◌, ◌≡◌, refl, Bool, true, false, String, List, [], ◌∷◌, arith, ◌==◌,
  if◌then◌else◌,
}
use qtapplicationmanager.Qt.Queue.{one_if}
use qtapplicationmanager.PackageManager.Task.{
  TaskKind, installation, deinstallation, Phase, not_started, running, extracted, over,
}
use qtapplicationmanager.PackageManager.Queue.{
  Manager, start_package_installation, remove_package, enqueue_task, new_task,
}
use qtapplicationmanager.PackageManager.Events.{
  Event, registered, execute_next, start_installation, start_removal, acknowledgement, cancellation,
  failure, commit, state_change, extraction, end, run_trigger, when_started, when_extracting, step,
  run,
}
use qtapplicationmanager.PackageManager.Holding.{ends, held, Sound, Inv, set_state_of-Sound}
use qtapplicationmanager.PackageManager.Ending.{Started, task_ended-Sound, package_extracted-Sound}
use qtapplicationmanager.PackageManager.Executing.{execute_next_task-Sound}
use qtapplicationmanager.PackageManager.Calls.{
  IsFree, enqueue_task-Sound, acknowledge-Sound, cancel_task-Sound, thread_failed-Sound,
  thread_committed-Sound,
}

-- What `new` returns is not in use.
abbrev pub IsAllowed : Event → Manager → Type 0
IsAllowed (start_installation p id) m = IsFree p m
IsAllowed (start_removal is_known p id package_id) m = IsFree p m
IsAllowed _ m = Unit

-- How often an event adds the task.
abbrev pub arrivals : ℕ → Event → Manager → ℕ
arrivals q (start_installation p id) m = if m.enable_installer then one_if (p == q) else 0
arrivals q (start_removal is_known p id package_id) m =
    if m.enable_installer then (if is_known then one_if (p == q) else 0) else 0
arrivals q _ m = 0

abbrev pub total : ℕ → Manager → ℕ
total q m = held q m + ends q m.outbox

trigger-Sound : (k q n : ℕ) (m : Manager) → Sound q n m → Sound q n (run_trigger k m)
trigger-Sound zero q n m s = s
trigger-Sound (suc k) q n m s =
    execute_next_task-Sound q n (record m { triggers = k })
      (record { fits = s.fits; chosen = s.chosen; balance = s.balance })

when_started-Sound :
    (h : Phase) (q n : ℕ) (f : Manager → Manager) (m : Manager)
    → (Started h → Sound q n (f m))
    → Sound q n m
    → Sound q n (when_started h f m)
when_started-Sound not_started q n f m k s = s
when_started-Sound running q n f m k s = k tt
when_started-Sound extracted q n f m k s = k tt
when_started-Sound over q n f m k s = s

when_extracting-Sound :
    (h : Phase) (kind : TaskKind) (q n : ℕ) (f : Manager → Manager) (m : Manager)
    → (h ≡ running → Sound q n (f m))
    → Sound q n m
    → Sound q n (when_extracting h kind f m)
when_extracting-Sound running installation q n f m k s = k refl
when_extracting-Sound running deinstallation q n f m k s = s
when_extracting-Sound not_started kind q n f m k s = s
when_extracting-Sound extracted kind q n f m k s = s
when_extracting-Sound over kind q n f m k s = s

-- One event, for one task.
plus_zero : (q n : ℕ) (m : Manager) → Sound q n m → Sound q (n + 0) m
plus_zero q n m s = record { fits = s.fits; chosen = s.chosen; balance = omega (arith, s.balance) }

-- A call that adds a task if a guard holds.
guarded-Sound :
    (b : Bool) (q n k : ℕ) (x y : Manager × String)
    → Sound q (n + k) x.0
    → Sound q n y.0
    → Sound q (n + (if b then k else 0)) (if b then x else y).0
guarded-Sound true q n k x y s t = s
guarded-Sound false q n k x y s t = plus_zero q n y.0 t

installation-Sound :
    (p q n : ℕ) (id : String) (m : Manager)
    → IsFree p m
    → Sound q n m
    → Sound q (n + arrivals q (start_installation p id) m) (start_package_installation p id m).0
unfolding start_package_installation
installation-Sound p q n id m free s =
    guarded-Sound m.enable_installer q n (one_if (p == q))
      (enqueue_task p (new_task id installation "") m) (m, "")
      (enqueue_task-Sound p q n id "" installation m free s) s

removal-Sound :
    (is_known : Bool) (p q n : ℕ) (id package_id : String) (m : Manager)
    → IsFree p m
    → Sound q n m
    → Sound q
        (n + arrivals q (start_removal is_known p id package_id) m)
        (remove_package is_known p id package_id m).0
unfolding remove_package
removal-Sound is_known p q n id package_id m free s =
    let added = enqueue_task p (new_task id deinstallation package_id) m in
    guarded-Sound m.enable_installer q n (if is_known then one_if (p == q) else 0)
      (if is_known then added else (m, "")) (m, "")
      (guarded-Sound is_known q n (one_if (p == q)) added (m, "")
        (enqueue_task-Sound p q n id package_id deinstallation m free s) s)
      s

step-Sound :
    (e : Event) (q n : ℕ) (m : Manager)
    → IsAllowed e m
    → Sound q n m
    → Sound q (n + arrivals q e m) (step e m)
unfolding step
step-Sound registered q n m a s =
    plus_zero q n _ (record { fits = s.fits; chosen = s.chosen; balance = s.balance })
step-Sound execute_next q n m a s = plus_zero q n _ (trigger-Sound m.triggers q n m s)
step-Sound (start_installation p id) q n m a s = installation-Sound p q n id m a s
step-Sound (start_removal is_known p id package_id) q n m a s =
    removal-Sound is_known p q n id package_id m a s
step-Sound (acknowledgement id) q n m a s = plus_zero q n _ (acknowledge-Sound q n id m s)
step-Sound (cancellation id) q n m a s = plus_zero q n _ (cancel_task-Sound q n id m s)
step-Sound (failure p code text) q n m a s =
    plus_zero q n _ (
      when_started-Sound (m.task p).phase q n _ m (λ st. thread_failed-Sound p q n code text m s) s)
step-Sound (commit p) q n m a s =
    plus_zero q n _
      (when_started-Sound (m.task p).phase q n _ m (λ st. thread_committed-Sound p q n m s) s)
step-Sound (state_change p state) q n m a s =
    plus_zero q n _
      (when_started-Sound (m.task p).phase q n _ m (λ st. set_state_of-Sound p q n state m s) s)
step-Sound (extraction p) q n m a s = plus_zero q n _ (
    when_extracting-Sound (m.task p).phase (m.task p).kind q n _ m
      (λ st. package_extracted-Sound p q n m st s) s)
step-Sound (end p) q n m a s =
    plus_zero q n _
      (when_started-Sound (m.task p).phase q n _ m (λ st. task_ended-Sound p q n m st s) s)

-- Every task fits, and the tasks that are held or have ended are those of `m` and the new ones.
abbrev pub AllAllowed : List Event → Manager → Type 0
AllAllowed [] m = Unit
AllAllowed (e ∷ events) m = IsAllowed e m × AllAllowed events (step e m)

abbrev pub all_arrivals : ℕ → List Event → Manager → ℕ
all_arrivals q [] m = 0
all_arrivals q (e ∷ events) m = arrivals q e m + all_arrivals q events (step e m)

abbrev pub Accounted : Manager → List Event → Manager → Type 0
Accounted m events m' = (q : ℕ) → Sound q (total q m + all_arrivals q events m) m'

run-Sound :
    (events : List Event) (q n : ℕ) (m : Manager)
    → AllAllowed events m
    → Sound q n m
    → Sound q (n + all_arrivals q events m) (run events m)
unfolding run
run-Sound [] q n m a s = plus_zero q n m s
run-Sound (e ∷ events) q n m a s =
    let t = run-Sound events q _ (step e m) a.1 (step-Sound e q n m a.0 s) in
    record { fits = t.fits; chosen = t.chosen; balance = omega (arith, t.balance) }

-- From a manager in order, and when `new` returns addresses that are not in use: after any history
-- of calls and of what the threads do, each task is where its progress says (in the waiting list, the
-- active one, in the list of the extracted ones, or in none), no task is both canceled and
-- acknowledged, and the number of times that a task is held or was reported as finished or failed has
-- grown by exactly the number of times that it was added.
pub run-Accounted :
    (events : List Event) (m : Manager)
    → AllAllowed events m
    → Inv m
    → Accounted m events (run events m)
run-Accounted events m a v q = run-Sound events q (total q m) m a (v q)
