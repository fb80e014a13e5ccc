-- ===== src/Starting/Start.antt =====
-- `startApplicationInternal`: its checks, and what it does by the runtime that the application has.
use qtapplicationmanager.Prelude.{
  ℕ, Bool, true, false, not, List, [], Option, none, some, ℤ, any, is_empty, length, ltb,
  if◌then◌else◌,
}
use qtapplicationmanager.Starting.DebugWrapper.{parse_specification}
use qtapplicationmanager.Starting.State.{
  RunState, not_running, starting_up, running, shutting_down, Application, emit_activated,
  close_descriptors, Manager, World, Request, StartError, manager_is_shutting_down, app_is_unknown,
  app_is_blocked, no_runtime_manager, invalid_redirections, wrapper_in_single_process,
  wrapper_in_process, invalid_wrapper, running_without_wrapper, running_without_redirections,
  not_running_with_runtime, Result, thrown, returned, call, from_id,
}
use qtapplicationmanager.Starting.Launch.{Plan, is_descriptor, open_documents, launch}

-- For an application that is starting or runs.
unfoldable pub activate : Request → Plan → ℕ → Manager → Manager × Result
activate r p rt m =
    if not (is_empty p.wrapper_command)
    then (m, thrown running_without_wrapper)
    else (if p.has_redirections
        then (m, thrown running_without_redirections)
        else (call (emit_activated p.app) (open_documents r (m.app_at p.app) rt m), returned true))

unfoldable pub start_in : RunState → Request → Plan → ℕ → Manager → Manager × Result
unfolding activate
start_in starting_up r p rt m = activate r p rt m
start_in running r p rt m = activate r p rt m
start_in shutting_down r p rt m = (m, returned false)
start_in not_running r p rt m = (m, thrown not_running_with_runtime)

unfoldable pub start_planned : World → Request → Plan → Manager → Manager × List ℤ × Result
unfolding launch start_in
start_planned w r p m = elim (m.app_at p.app).current_runtime [
  | none ↦ launch w r p m
  | some rt ↦
      let (done, result) = start_in (m.runtime_at rt).state r p rt m in
      (done, r.stdio_redirections, result)
]

pub data Checked : Type 0 where
  refused : StartError → Checked
  accepted : Plan → Checked

-- The validation of the debug wrapper.
unfoldable pub check_wrapper : World → Request → Plan → Checked
unfolding parse_specification
check_wrapper w r p =
    if is_empty r.debug_wrapper
    then accepted p
    else (if w.is_single_process
        then refused wrapper_in_single_process
        else (if p.is_in_process
            then refused wrapper_in_process
            else elim (parse_specification r.debug_wrapper) [
              | none ↦ refused invalid_wrapper
              | some (command, environment) ↦ accepted (record p { wrapper_command = command })
            ]))

unfoldable pub check_redirections : World → Request → ℕ → Bool → Checked
unfolding check_wrapper
check_redirections w r a is_in_process =
    if ltb 3 (length r.stdio_redirections)
    then refused invalid_redirections
    else check_wrapper w r (record {
      app = a;
      is_in_process = is_in_process;
      has_redirections = any is_descriptor r.stdio_redirections;
      wrapper_command = [];
    })

-- `inProcess` of the manager of the runtime that there is, or of the one that there would be.
abbrev pub in_process_of : World → Application → Manager → Option Bool
in_process_of w app m = elim app.current_runtime [
  | some rt ↦ some (m.runtime_at rt).is_in_process
  | none ↦ w.runtime_manager app.runtime_name
]

unfoldable pub check : World → Request → Manager → Checked
unfolding check_redirections
check w r m =
    if m.is_shutting_down then refused manager_is_shutting_down else elim (from_id r.app_id m) [
      | none ↦ refused app_is_unknown
      | some a ↦
          if (m.app_at a).is_blocked
          then refused app_is_blocked
          else elim (in_process_of w (m.app_at a) m) [
            | none ↦ refused no_runtime_manager
            | some is_in_process ↦ check_redirections w r a is_in_process
          ]
    ]

unfoldable pub start_checked : World → Request → Checked → Manager → Manager × List ℤ × Result
unfolding start_planned
start_checked w r (refused e) m = (m, r.stdio_redirections, thrown e)
start_checked w r (accepted p) m = start_planned w r p m

-- The guard closes the descriptors that are left, on every way out.
unfoldable pub start_application_internal : World → Request → Manager → Manager × Result
unfolding check start_checked
start_application_internal w r m =
    let (done, left, result) = start_checked w r (check w r m) m in
    (call (close_descriptors left) done, result)

-- `startApplication` and `debugApplication` turn an exception into false.
unfoldable pub start_application : World → Request → Manager → Manager × Bool
unfolding start_application_internal
start_application w r m =
    let (done, result) = start_application_internal w r m in
    (done, elim result [ thrown e ↦ false | returned ok ↦ ok ])
