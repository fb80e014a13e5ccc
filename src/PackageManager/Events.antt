-- ===== src/PackageManager/Events.antt =====
-- The slots that `executeNextTask` connects to a task, and the calls that reach the manager. The
-- signals of a task's thread are delivered when the thread emits them.
use qtapplicationmanager.Prelude.{
  ℕ, zero, suc, Bool, true, false, String, List, [], ◌∷◌, ◌++◌, none, if◌then◌else◌,
}
use qtapplicationmanager.Qt.Queue.{remove_one}
use qtapplicationmanager.PackageManager.Task.{
  Error, TaskState, failed, finished, TaskKind, installation, Phase, not_started, running,
  extracted, over, is_failed,
}
use qtapplicationmanager.PackageManager.Queue.{
  Manager, modify, emit, delete, trigger_execute_next_task, handle_failure, is_active, set_state_of,
  task_finished, task_blocking_until_installation_acknowledge, start_package_installation,
  remove_package, acknowledge_package_installation, cancel_task, execute_next_task,
}

-- `if (d->activeTask == task) d->activeTask = nullptr;`
abbrev pub release_active : ℕ → Manager → Manager
release_active p m = record m {
  active_task = if is_active m.active_task p then none else m.active_task;
}

-- The slot of `finished`: what it emits.
unfoldable pub report_end : Bool → ℕ → Manager → Manager
unfolding set_state_of
report_end true p m = handle_failure p m
report_end false p m = let u = set_state_of p finished m in emit (task_finished p (u.task p).id) u

-- The slot of `finished`.
unfoldable pub task_ended : ℕ → Manager → Manager
unfolding report_end
task_ended p m =
    let u = release_active p (report_end (is_failed (m.task p).state) p m) in
    let v = record u { installation_task_list = remove_one p u.installation_task_list } in
    trigger_execute_next_task (delete p (modify p (λ t. record t { phase = over }) v))

-- The slot of `finishedPackageExtraction`.
unfoldable pub package_extracted : ℕ → Manager → Manager
package_extracted p m =
    let u =
      release_active p (emit (task_blocking_until_installation_acknowledge p (m.task p).id) m) in
    let v = record u { installation_task_list = u.installation_task_list ++ p ∷ [] } in
    trigger_execute_next_task (modify p (λ t. record t { phase = extracted }) v)

-- `setError` in `execute`.
unfoldable pub thread_failed : ℕ → Error → String → Manager → Manager
unfolding set_state_of
thread_failed p code text m =
    set_state_of p failed (modify p (λ t. record t { error_code = code; error_string = text }) m)

-- `m_canBeCanceled = false` in the `execute` of a deinstallation.
abbrev pub thread_committed : ℕ → Manager → Manager
thread_committed p m = modify p (λ t. record t { can_be_canceled = false }) m

-- The end of `registerPackages`, when the broken installations are cleaned up.
abbrev pub packages_registered : Manager → Manager
packages_registered m =
    trigger_execute_next_task (record m { cleanup_broken_installations_done = true })

pub data Event : Type 0 where
  registered : Event
  -- A posted call of `executeNextTask`.
  execute_next : Event
  -- The address and the id of the task.
  start_installation : ℕ → String → Event
  -- Whether the package is known, the address and the id of the task, and the package.
  start_removal : Bool → ℕ → String → String → Event
  acknowledgement : String → Event
  cancellation : String → Event
  -- What the thread of a task does: it only acts between its start and its end.
  failure : ℕ → Error → String → Event
  commit : ℕ → Event
  state_change : ℕ → TaskState → Event
  extraction : ℕ → Event
  end : ℕ → Event

abbrev pub run_trigger : ℕ → Manager → Manager
run_trigger zero m = m
run_trigger (suc n) m = execute_next_task (record m { triggers = n })

-- A thread acts only between its start and its end.
abbrev pub when_started : Phase → (Manager → Manager) → Manager → Manager
when_started not_started f m = m
when_started running f m = f m
when_started extracted f m = f m
when_started over f m = m

-- Only an installation extracts, and once.
abbrev pub when_extracting : Phase → TaskKind → (Manager → Manager) → Manager → Manager
when_extracting running installation f m = f m
when_extracting _ _ f m = m

unfoldable pub step : Event → Manager → Manager
unfolding execute_next_task start_package_installation remove_package
    acknowledge_package_installation cancel_task thread_failed set_state_of package_extracted
    task_ended
step registered m = packages_registered m
step execute_next m = run_trigger m.triggers m
step (start_installation p id) m = (start_package_installation p id m).0
step (start_removal is_known p id package_id) m = (remove_package is_known p id package_id m).0
step (acknowledgement id) m = acknowledge_package_installation id m
step (cancellation id) m = (cancel_task id m).0
step (failure p code text) m = when_started (m.task p).phase (thread_failed p code text) m
step (commit p) m = when_started (m.task p).phase (thread_committed p) m
step (state_change p state) m = when_started (m.task p).phase (set_state_of p state) m
step (extraction p) m = when_extracting (m.task p).phase (m.task p).kind (package_extracted p) m
step (end p) m = when_started (m.task p).phase (task_ended p) m

unfoldable pub run : List Event → Manager → Manager
run [] m = m
run (e ∷ events) m = run events (step e m)
