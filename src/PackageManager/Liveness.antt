-- ===== src/PackageManager/Liveness.antt =====
-- A task that waits while none is active has a posted call of `executeNextTask` to come.
use qtapplicationmanager.Prelude.{
  ℕ, zero, suc, ◌≤◌, ◌≡◌, ◌⊎◌, refl, ap, Bool, true, false, not, ◌||◌, String, List, [], ◌∷◌, some,
  is_some, find, arith, Bool-cases, Option-cases, inl, inr, ||-true, if-both,
}
use qtapplicationmanager.PackageManager.Task.{
  TaskState, TaskKind, executing, failed, is_failed, Phase, not_started, running, extracted, over,
  installation, deinstallation,
}
use qtapplicationmanager.PackageManager.Queue.{
  Manager, modify, has_id, all_tasks, state_eq, set_state_of, execute_task, execute_taken,
  execute_next_task, enqueue_task, start_package_installation, remove_package,
  acknowledge_package_installation, find_running, cancel_incoming, cancel_task,
}
use qtapplicationmanager.PackageManager.Calls.{acknowledges}
use qtapplicationmanager.PackageManager.Events.{
  Event, registered, execute_next, start_installation, start_removal, acknowledgement, cancellation,
  failure, commit, state_change, extraction, end, run_trigger, when_started, when_extracting,
  package_extracted, task_ended, thread_failed, step,
}

-- Nothing waits, a task is active, the packages are not registered, or a call is posted.
abbrev pub IsServed : Manager → Type 0
IsServed m =
    (m.incoming_task_list ≡ [])
    ⊎ ((is_some m.active_task ≡ true)
        ⊎ ((m.cleanup_broken_installations_done ≡ false) ⊎ (1 ≤ m.triggers)))

set_state_of-active :
    (p : ℕ) (state : TaskState) (m : Manager) → (set_state_of p state m).active_task ≡ m.active_task
unfolding set_state_of
set_state_of-active p state m =
    if-both (λ (u : Manager). u.active_task ≡ m.active_task) (state_eq (m.task p).state state) _ _
      refl refl

set_state_of-IsServed :
    (p : ℕ) (state : TaskState) (m : Manager) → IsServed m → IsServed (set_state_of p state m)
unfolding set_state_of
set_state_of-IsServed p state m h = if-both IsServed (state_eq (m.task p).state state) _ _ h h

execute_task-IsServed : (b : Bool) (p : ℕ) (m : Manager) → IsServed (execute_task b p m)
unfolding execute_task
execute_task-IsServed true p m = inr (inr (inr (omega arith)))
execute_task-IsServed false p m =
    inr (inl (ap is_some (set_state_of-active p executing (record m { active_task = some p }))))

execute_taken-IsServed :
    (xs : List ℕ) (m : Manager) → m.incoming_task_list ≡ xs → IsServed (execute_taken xs m)
unfolding execute_taken
execute_taken-IsServed [] m w = inl w
execute_taken-IsServed (p ∷ rest) m w =
    execute_task-IsServed (is_failed (m.task p).state) p (record m { incoming_task_list = rest })

not_done : (b : Bool) → not b ≡ true → b ≡ false
not_done true h = cc
not_done false h = refl

execute_next_task-IsServed : (m : Manager) → IsServed (execute_next_task m)
unfolding execute_next_task
execute_next_task-IsServed m =
    elim (Bool-cases (not m.cleanup_broken_installations_done || is_some m.active_task)) [
      | inl stop ↦ rw stop (elim (||-true _ _ stop) [
        | inl early ↦ inr (inr (inl (not_done _ early)))
        | inr busy ↦ inr (inl busy)
      ])
      | inr go ↦ rw go (execute_taken-IsServed m.incoming_task_list m refl)
    ]

trigger-IsServed : (k : ℕ) (m : Manager) → IsServed m → IsServed (run_trigger k m)
trigger-IsServed zero m h = h
trigger-IsServed (suc k) m h = execute_next_task-IsServed _

start_package_installation-IsServed :
    (p : ℕ) (id : String) (m : Manager)
    → IsServed m
    → IsServed (start_package_installation p id m).0
unfolding start_package_installation enqueue_task
start_package_installation-IsServed p id m h =
    if-both (λ (x : Manager × String). IsServed x.0) m.enable_installer _ _
      (inr (inr (inr (omega arith)))) h

remove_package-IsServed :
    (is_known : Bool) (p : ℕ) (id package_id : String) (m : Manager)
    → IsServed m
    → IsServed (remove_package is_known p id package_id m).0
unfolding remove_package enqueue_task
remove_package-IsServed is_known p id package_id m h =
    if-both (λ (x : Manager × String). IsServed x.0) m.enable_installer _ _
      (if-both (λ (x : Manager × String). IsServed x.0) is_known _ _ (inr (inr (inr (omega arith))))
        h)
      h

acknowledge-IsServed :
    (id : String) (m : Manager) → IsServed m → IsServed (acknowledge_package_installation id m)
unfolding acknowledge_package_installation
acknowledge-IsServed id m h =
    if-both IsServed m.enable_installer _ _
      (elim (Option-cases (find (acknowledges id m) (all_tasks m))) [
        | inl e ↦ rw e h
        | inr (p, e) ↦ rw e h
      ])
      h

cancel_incoming-IsServed : (p : ℕ) (m : Manager) → IsServed (cancel_incoming p m)
unfolding cancel_incoming
cancel_incoming-IsServed p m = inr (inr (inr (omega arith)))

cancel_task-IsServed : (id : String) (m : Manager) → IsServed m → IsServed (cancel_task id m).0
unfolding cancel_task
cancel_task-IsServed id m h =
    if-both (λ (x : Manager × Bool). IsServed x.0) m.enable_installer _ _
      (elim (Option-cases (find (has_id m id) m.incoming_task_list)) [
        | inr (p, e) ↦ rw e (cancel_incoming-IsServed p m)
        | inl e ↦
            rw e (elim (Option-cases (find_running id m)) [ inl f ↦ rw f h | inr (p, f) ↦ rw f h ])
      ])
      h

when_started-IsServed :
    (q : Phase) (f : Manager → Manager) (m : Manager)
    → IsServed (f m)
    → IsServed m
    → IsServed (when_started q f m)
when_started-IsServed not_started f m k h = h
when_started-IsServed running f m k h = k
when_started-IsServed extracted f m k h = k
when_started-IsServed over f m k h = h

when_extracting-IsServed :
    (q : Phase) (kind : TaskKind) (f : Manager → Manager) (m : Manager)
    → IsServed (f m)
    → IsServed m
    → IsServed (when_extracting q kind f m)
when_extracting-IsServed running installation f m k h = k
when_extracting-IsServed running deinstallation f m k h = h
when_extracting-IsServed not_started kind f m k h = h
when_extracting-IsServed extracted kind f m k h = h
when_extracting-IsServed over kind f m k h = h

-- When a task that waits, while none is active and the packages are registered, has a posted call of
-- `executeNextTask` to come, that is still so after any event.
pub step-IsServed : (e : Event) (m : Manager) → IsServed m → IsServed (step e m)
unfolding step task_ended package_extracted thread_failed
step-IsServed registered m h = inr (inr (inr (omega arith)))
step-IsServed execute_next m h = trigger-IsServed m.triggers m h
step-IsServed (start_installation p id) m h = start_package_installation-IsServed p id m h
step-IsServed (start_removal is_known p id package_id) m h =
    remove_package-IsServed is_known p id package_id m h
step-IsServed (acknowledgement id) m h = acknowledge-IsServed id m h
step-IsServed (cancellation id) m h = cancel_task-IsServed id m h
step-IsServed (failure p code text) m h =
    when_started-IsServed (m.task p).phase _ m
      (set_state_of-IsServed p failed
        (modify p (λ t. record t { error_code = code; error_string = text }) m) h)
      h
step-IsServed (commit p) m h = when_started-IsServed (m.task p).phase _ m h h
step-IsServed (state_change p state) m h =
    when_started-IsServed (m.task p).phase _ m (set_state_of-IsServed p state m h) h
step-IsServed (extraction p) m h =
    when_extracting-IsServed (m.task p).phase (m.task p).kind _ m (inr (inr (inr (omega arith)))) h
step-IsServed (end p) m h =
    when_started-IsServed (m.task p).phase _ m (inr (inr (inr (omega arith)))) h
