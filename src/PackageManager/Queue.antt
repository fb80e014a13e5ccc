-- ===== src/PackageManager/Queue.antt =====
-- The installer's tasks: the ones that wait, the one that runs, and the installations that wait for
-- their acknowledge while the next task runs. The lists hold pointers, as in the source.
use qtapplicationmanager.Prelude.{
  ℕ, suc, Bool, true, false, ◌&&◌, ◌||◌, not, String, str_eq, List, [], ◌∷◌, ◌++◌, Option, none,
  some, map, find, any, is_empty, is_some, ◌==◌, if◌then◌else◌,
}
use qtapplicationmanager.Qt.Queue.{remove_one}
use qtapplicationmanager.Qt.Heap.{update}
use qtapplicationmanager.PackageManager.Task.{
  Error, TaskState, invalid, executing, finished, awaiting_acknowledge, TaskKind, installation,
  deinstallation, running, Task, not_started, set_task_state, cancel, is_failed, force_cancel,
  acknowledge,
}

-- What the manager emits: the task that it is about, and what the signal carries.
pub data Signal : Type 0 where
  task_started : ℕ → String → Signal
  task_state_changed : ℕ → String → TaskState → Signal
  task_finished : ℕ → String → Signal
  task_failed : ℕ → String → Error → String → Signal
  task_blocking_until_installation_acknowledge : ℕ → String → Signal

-- `task` is what a pointer points to, `deleted` the tasks that were given to `delete` or
-- `deleteLater`, `triggers` the posted calls of `executeNextTask`; `outbox` has the newest signal
-- first.
pub record Manager : Type 0 where
  pub enable_installer : Bool
  pub cleanup_broken_installations_done : Bool
  pub task : ℕ → Task
  pub incoming_task_list : List ℕ
  pub active_task : Option ℕ
  pub installation_task_list : List ℕ
  pub deleted : List ℕ
  pub triggers : ℕ
  pub outbox : List Signal

abbrev pub modify : ℕ → (Task → Task) → Manager → Manager
modify p f m = record m { task = update m.task p (f (m.task p)) }

abbrev pub emit : Signal → Manager → Manager
emit x m = record m { outbox = x ∷ m.outbox }

abbrev pub delete : ℕ → Manager → Manager
delete p m = record m { deleted = p ∷ m.deleted }

abbrev pub trigger_execute_next_task : Manager → Manager
trigger_execute_next_task m = record m { triggers = suc m.triggers }

abbrev pub handle_failure : ℕ → Manager → Manager
handle_failure p m =
    emit (task_failed p (m.task p).id (m.task p).error_code (m.task p).error_string) m

abbrev pub pointer_list : Option ℕ → List ℕ
pointer_list none = []
pointer_list (some p) = p ∷ []

unfoldable pub all_tasks : Manager → List ℕ
all_tasks m =
    (if is_empty m.installation_task_list
      then m.incoming_task_list
      else m.incoming_task_list ++ m.installation_task_list)
    ++ pointer_list m.active_task

abbrev pub has_id : Manager → String → ℕ → Bool
has_id m task_id p = str_eq (m.task p).id task_id

-- Whether the active task is this one.
abbrev pub is_active : Option ℕ → ℕ → Bool
is_active none p = false
is_active (some q) p = q == p

abbrev pub is_installation : TaskKind → Bool
is_installation installation = true
is_installation deinstallation = false

-- The task that `start...` and `removePackage` allocate at `p`.
abbrev pub new_task : String → TaskKind → String → Task
new_task id kind package_id = record {
  id = id;
  package_id = package_id;
  kind = kind;
  state = TaskState.queued;
  error_code = Error.no_error;
  error_string = "";
  canceled = false;
  installation_acknowledged = false;
  can_be_canceled = true;
  phase = not_started;
}

-- What an installation task asks before it calls `startingPackageInstallation`. It gives up if so.
abbrev pub is_package_installation_active : String → Manager → Bool
is_package_installation_active package_id m =
    any (λ p. str_eq (m.task p).package_id package_id) m.installation_task_list

unfoldable pub enqueue_task : ℕ → Task → Manager → Manager × String
enqueue_task p t m =
    let allocated = record m { task = update m.task p t } in
    (
      trigger_execute_next_task
          (record allocated { incoming_task_list = m.incoming_task_list ++ p ∷ [] }),
      t.id,
    )

-- `id` is the fresh QUuid of the task at `p`.
unfoldable pub start_package_installation : ℕ → String → Manager → Manager × String
unfolding enqueue_task
start_package_installation p id m =
    if m.enable_installer then enqueue_task p (new_task id installation "") m else (m, "")

-- `is_known` is whether `fromId` finds the package.
unfoldable pub remove_package : Bool → ℕ → String → String → Manager → Manager × String
unfolding enqueue_task
remove_package is_known p id package_id m =
    if m.enable_installer
    then (if is_known then enqueue_task p (new_task id deinstallation package_id) m else (m, ""))
    else (m, "")

unfoldable pub acknowledge_package_installation : String → Manager → Manager
unfolding all_tasks acknowledge
acknowledge_package_installation task_id m =
    if m.enable_installer
    then (elim (find (λ p. is_installation (m.task p).kind && has_id m task_id p) (all_tasks m)) [
      | none ↦ m
      | some p ↦ modify p acknowledge m
    ])
    else m

unfoldable pub task_state : String → Manager → TaskState
unfolding all_tasks
task_state task_id m =
    if m.enable_installer
    then (elim (find (has_id m task_id) (all_tasks m)) [
      | none ↦ invalid
      | some p ↦ (m.task p).state
    ])
    else invalid

unfoldable pub task_package_id : String → Manager → String
unfolding all_tasks
task_package_id task_id m =
    if m.enable_installer
    then (elim (find (has_id m task_id) (all_tasks m)) [
      | none ↦ ""
      | some p ↦ (m.task p).package_id
    ])
    else ""

unfoldable pub active_task_ids : Manager → List String
unfolding all_tasks
active_task_ids m = if m.enable_installer then map (λ p. (m.task p).id) (all_tasks m) else []

-- The loop of `cancelTask` over the incoming tasks, for the one that has the id.
unfoldable pub cancel_incoming : ℕ → Manager → Manager
unfolding force_cancel
cancel_incoming p m =
    let failed' = handle_failure p (delete p (modify p (λ t. (force_cancel t).0) m)) in
    trigger_execute_next_task
      (record failed' { incoming_task_list = remove_one p failed'.incoming_task_list })

-- `task->cancel()`.
abbrev pub cancel_running : ℕ → Manager → Manager × Bool
cancel_running p m = (modify p (λ t. (cancel t).0) m, (cancel (m.task p)).1)

abbrev pub find_running : String → Manager → Option ℕ
find_running task_id m =
    find (has_id m task_id) (pointer_list m.active_task ++ m.installation_task_list)

unfoldable pub cancel_task : String → Manager → Manager × Bool
unfolding cancel_incoming
cancel_task task_id m =
    if m.enable_installer
    then (elim (find (has_id m task_id) m.incoming_task_list) [
      | some p ↦ (cancel_incoming p m, true)
      | none ↦ (elim (find_running task_id m) [ some p ↦ cancel_running p m | none ↦ (m, false) ])
    ])
    else (m, false)

-- `setState`, for a task whose signals are connected: it emits when the state changes.
abbrev pub state_eq : TaskState → TaskState → Bool
state_eq invalid invalid = true
state_eq TaskState.queued TaskState.queued = true
state_eq executing executing = true
state_eq TaskState.failed TaskState.failed = true
state_eq finished finished = true
state_eq awaiting_acknowledge awaiting_acknowledge = true
state_eq TaskState.installing TaskState.installing = true
state_eq TaskState.cleaning_up TaskState.cleaning_up = true
state_eq _ _ = false

unfoldable pub set_state_of : ℕ → TaskState → Manager → Manager
set_state_of p state m =
    if state_eq (m.task p).state state
    then m
    else emit (task_state_changed p (m.task p).id state) (modify p (set_task_state state) m)

-- A task that waits, by whether it has failed already. The rest of the list stays.
unfoldable pub execute_task : Bool → ℕ → Manager → Manager
unfolding set_state_of
execute_task true p m = trigger_execute_next_task (delete p (handle_failure p m))
execute_task false p m =
    let u = set_state_of p executing (record m { active_task = some p }) in
    emit (task_started p (u.task p).id) (modify p (λ t. record t { phase = running }) u)

unfoldable pub execute_taken : List ℕ → Manager → Manager
unfolding execute_task
execute_taken [] m = m
execute_taken (p ∷ rest) m =
    execute_task (is_failed (m.task p).state) p (record m { incoming_task_list = rest })

unfoldable pub execute_next_task : Manager → Manager
unfolding execute_taken
execute_next_task m =
    if not m.cleanup_broken_installations_done || is_some m.active_task
    then m
    else execute_taken m.incoming_task_list m
