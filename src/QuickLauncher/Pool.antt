-- ===== src/QuickLauncher/Pool.antt =====
-- The pool, its entries, and the launcher's operations.
use qtapplicationmanager.Prelude.{
  ℕ, suc, ◌+◌, ◌-◌, ◌*◌, Bool, true, false, ◌&&◌, ◌||◌, not, String, str_eq, List, [], ◌∷◌, ◌++◌,
  Option, none, some, map, filter, length, ◌==◌, ltb, leb, if◌then◌else◌,
}

-- A container and its runtime, by their addresses.
abbrev pub Car : Type 0
Car = ℕ × Option ℕ

-- An empty runtime id stands for a container without a runtime. Time stamps are in milliseconds.
pub record QuickLaunchEntry : Type 0 where
  pub container_id : String
  pub runtime_id : String
  pub maximum : ℕ
  pub disabled : Bool
  pub failed_time_stamps : List ℕ
  pub containers_and_runtimes : List Car

-- `rebuilds` counts the rebuilds that `triggerRebuild` has posted, `shut_down_signals` how often
-- `shutDownFinished` was emitted or posted.
pub record Launcher : Type 0 where
  pub pool : List QuickLaunchEntry
  pub is_idle : Bool
  pub shutting_down : Bool
  pub failed_start_limit : ℕ
  pub failed_start_limit_interval_sec : ℕ
  pub rebuilds : ℕ
  pub shut_down_signals : ℕ

-- What the factories do, and the time.
pub record World : Type 0 where
  pub create : String → Option ℕ
  pub create_quick_launcher : ℕ → String → Option ℕ
  pub start : ℕ → Bool
  pub current_msecs : ℕ

abbrev pub add_failure : World → QuickLaunchEntry → QuickLaunchEntry
add_failure w e = record e { failed_time_stamps = e.failed_time_stamps ++ w.current_msecs ∷ [] }

abbrev pub trigger_rebuild : Launcher → Launcher
trigger_rebuild l = record l { rebuilds = suc l.rebuilds }

-- The container and runtime that `rebuild` makes for an entry, if nothing fails.
unfoldable pub start_runtime : World → ℕ → Option ℕ → Option Car
start_runtime w container none = none
start_runtime w container (some runtime) =
    if w.start runtime then some (container, some runtime) else none

unfoldable pub make_car : World → String → Option ℕ → Option Car
make_car w runtime_id none = none
make_car w runtime_id (some container) =
    if not (str_eq runtime_id "")
    then start_runtime w container (w.create_quick_launcher container runtime_id)
    else some (container, none)

abbrev pub cars : QuickLaunchEntry → ℕ
cars e = length e.containers_and_runtimes

-- An entry that is to be filled: with its new car, or the failure; and how many were added.
unfoldable pub fill_with : Option Car → World → QuickLaunchEntry → QuickLaunchEntry × ℕ
fill_with none w e = (add_failure w e, 0)
fill_with (some car) w e =
    (record e { containers_and_runtimes = e.containers_and_runtimes ++ car ∷ [] }, 1)

abbrev pub fill : World → QuickLaunchEntry → QuickLaunchEntry × ℕ
fill w e = fill_with (make_car w e.runtime_id (w.create e.container_id)) w e

abbrev pub needs_car : QuickLaunchEntry → Bool
needs_car e = not e.disabled && ltb (cars e) e.maximum

-- One turn of the loop of `rebuild`: the entry, what it adds to `todo`, and to `done`.
unfoldable pub rebuild_entry : World → ℕ → QuickLaunchEntry → QuickLaunchEntry × ℕ × ℕ
rebuild_entry w done e =
    if needs_car e
    then (if leb 1 done
        then (e, e.maximum - cars e, 0)
        else (let filled = fill w e in (filled.0, e.maximum - cars e, filled.1)))
    else (e, 0, 0)

-- The loop: the pool, `todo` and `done`.
unfoldable pub rebuild_pool : World → ℕ → ℕ → List QuickLaunchEntry → List QuickLaunchEntry × ℕ × ℕ
rebuild_pool w todo done [] = ([], todo, done)
rebuild_pool w todo done (e ∷ pool) =
    let (e', more, filled) = rebuild_entry w done e in
    let (pool', todo', done') = rebuild_pool w (todo + more) (done + filled) pool in
    (e' ∷ pool', todo', done')

-- The failures of an entry that are in the interval.
abbrev pub recent_failures : World → Launcher → QuickLaunchEntry → List ℕ
recent_failures w l e =
    filter (λ ts. not (ltb (ts + l.failed_start_limit_interval_sec * 1000) w.current_msecs))
      e.failed_time_stamps

unfoldable pub check_entry : World → Launcher → QuickLaunchEntry → QuickLaunchEntry
check_entry w l e =
    if e.disabled
    then e
    else (if not (l.failed_start_limit == 0)
          && not (l.failed_start_limit_interval_sec == 0)
          && leb l.failed_start_limit (length (recent_failures w l e))
        then record e { disabled = true; failed_time_stamps = [] }
        else record e { failed_time_stamps = recent_failures w l e })

abbrev pub check_failed_starts : World → Launcher → Launcher
check_failed_starts w l = record l { pool = map (check_entry w l) l.pool }

unfoldable pub rebuild : World → Launcher → Launcher
rebuild w l =
    if l.shutting_down
    then l
    else (let (pool', todo, done) = rebuild_pool w 0 0 l.pool in
        let checked = check_failed_starts w (record l { pool = pool' }) in
        if ltb done todo then trigger_rebuild checked else checked)

-- `timerEvent` of the idle timer.
unfoldable pub timer_event : World → Bool → Launcher → Launcher
timer_event w now_idle l =
    let l' = record l { is_idle = now_idle } in
    if now_idle && not l.is_idle then rebuild w l' else l'

-- Which cars `removeEntry` removes: by the container, or by the runtime; a null pointer is none.
abbrev pub is_pointer : Option ℕ → Option ℕ → Bool
is_pointer none q = false
is_pointer (some p) none = false
is_pointer (some p) (some q) = q == p

abbrev pub is_removed : Option ℕ → Option ℕ → Car → Bool
is_removed container runtime car = is_pointer container (some car.0) || is_pointer runtime car.1

-- The inner loop, over the cars that are left of `size`: what stays, and what is added to `carCount`
-- and `carRemoved`. The count is that of the list at the end of each turn.
unfoldable pub scan_cars : (Car → Bool) → ℕ → List Car → List Car × ℕ × ℕ
scan_cars removed size [] = ([], 0, 0)
scan_cars removed size (car ∷ rest) =
    let now = if removed car then size - 1 else size in
    let (kept, car_count, car_removed) = scan_cars removed now rest in
    (
      if removed car then kept else car ∷ kept,
      now + car_count,
      if removed car then suc car_removed else car_removed,
    )

unfoldable pub scan_pool : (Car → Bool) → List QuickLaunchEntry → List QuickLaunchEntry × ℕ × ℕ
scan_pool removed [] = ([], 0, 0)
scan_pool removed (e ∷ pool) =
    let (kept, car_count, car_removed) = scan_cars removed (cars e) e.containers_and_runtimes in
    let (pool', count', removed') = scan_pool removed pool in
    (
      record e { containers_and_runtimes = kept } ∷ pool',
      car_count + count',
      car_removed + removed',
    )

unfoldable pub remove_entry : Option ℕ → Option ℕ → Launcher → Launcher
remove_entry container runtime l =
    let (pool', car_count, car_removed) = scan_pool (is_removed container runtime) l.pool in
    let l' = record l { pool = pool' } in
    if l.shutting_down && ltb 0 car_removed && car_count == 0
    then record l' { shut_down_signals = suc l.shut_down_signals }
    else l'

-- One pass of `take`: the first car of the first entry with the ids.
unfoldable pub take_pass :
    String → String → List QuickLaunchEntry → Option (Car × List QuickLaunchEntry)
take_pass container_id runtime_id [] = none
take_pass container_id runtime_id (e ∷ pool) =
    let rest = take_pass container_id runtime_id pool in
    let later : Option (Car × List QuickLaunchEntry) = elim rest [
      | none ↦ none
      | some (car, pool') ↦ some (car, e ∷ pool')
    ] in
    if str_eq e.container_id container_id && str_eq e.runtime_id runtime_id
    then elim e.containers_and_runtimes [
      | [] ↦ later
      | car ∷ left ↦ some (car, record e { containers_and_runtimes = left } ∷ pool)
    ]
    else later

-- The pass for the runtime, then the one for a container without a runtime.
unfoldable pub take : String → String → Launcher → Launcher × Option Car
take container_id runtime_id l = elim (take_pass container_id runtime_id l.pool) [
  | some (car, pool') ↦ (trigger_rebuild (record l { pool = pool' }), some car)
  | none ↦ elim (take_pass container_id "" l.pool) [
    | some (car, pool') ↦ (trigger_rebuild (record l { pool = pool' }), some car)
    | none ↦ (l, none)
  ]
]

-- How many cars the pool has.
abbrev pub size : List QuickLaunchEntry → ℕ
size [] = 0
size (e ∷ pool) = cars e + size pool

-- Every car has a container, so each one is waited for.
unfoldable pub shut_down : Launcher → Launcher
shut_down l =
    let l' = record l { shutting_down = true } in
    if ltb 0 (size l.pool) then l' else record l' { shut_down_signals = suc l.shut_down_signals }
