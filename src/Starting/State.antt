-- ===== src/Starting/State.antt =====
-- What the application manager knows when it starts an application, and what it asks of others.
use qtapplicationmanager.Prelude.{ℕ, Bool, String, str_eq, List, ◌∷◌, Option, ℤ, find}
use qtapplicationmanager.Qt.Heap.{update}
use qtapplicationmanager.Starting.DebugWrapper.{Text}

-- Am::RunState.
pub data RunState : Type 0 where
  not_running starting_up running shutting_down : RunState

-- A runtime's state, and whether its manager says that it is in-process.
pub record Runtime : Type 0 where
  pub state : RunState
  pub is_in_process : Bool

-- What is read of an application; a QString that is null is none. OpenGL configurations are numbers.
pub record Application : Type 0 where
  pub id : String
  pub is_blocked : Bool
  pub document_url : Option String
  pub runtime_name : String
  pub has_environment_variables : Bool
  pub opengl_configuration : ℕ
  pub current_runtime : Option ℕ

-- What the manager does to others, and what it leaves to be done when a signal comes. Runtimes,
-- containers and applications are addresses.
pub data Call : Type 0 where
  open_document : ℕ → String → String → Call
  emit_activated : ℕ → Call
  -- QuickLauncher::take
  take_from_pool : String → String → Call
  delete_runtime_later : ℕ → Call
  delete_runtime : ℕ → Call
  delete_container : ℕ → Call
  -- the script function, with the application's id and the container that the configuration selects
  call_selection_function : String → String → Call
  create_container : String → List Text → Call
  -- the note of an in-process start, to a descriptor
  write_note : ℤ → Call
  set_application : ℕ → ℕ → Call
  new_runtime_created : ℕ → Call
  watch_run_state : ℕ → ℕ → Call
  start_runtime : ℕ → Call
  -- AbstractRuntime::stop, with forceKill
  stop_runtime : ℕ → Bool → Call
  attach_runtime : ℕ → ℕ → Call
  when_container_is_ready : ℕ → ℕ → Call
  when_compositor_is_ready : ℕ → ℕ → Call
  close_descriptors : List ℤ → Call

-- The newest call comes first.
pub record Manager : Type 0 where
  pub is_shutting_down : Bool
  pub apps : List ℕ
  pub app_at : ℕ → Application
  pub runtime_at : ℕ → Runtime
  pub container_selection : List (String × String)
  pub calls : List Call

-- The answers of the factories, the quick launcher, the plugins and the configuration.
pub record World : Type 0 where
  -- RuntimeFactory::manager, and whether that one is in-process
  pub runtime_manager : String → Option Bool
  -- the `create` of that manager
  pub created_runtime : Option ℕ
  pub has_container_manager : String → Bool
  -- ContainerFactory::create, with the descriptors that it does not take over
  pub created_container : String → List ℤ → Option ℕ × List ℤ
  pub is_single_process : Bool
  -- QString::contains of an asterisk, and QRegularExpression with the wildcards
  pub has_asterisk : String → Bool
  pub wildcard_matches : String → String → Bool
  -- the script function, when it is callable
  pub container_selection_function : Option (String → String → String)
  -- QuickLauncher::instance, with its `take`
  pub quick_launcher : Option (String → String → Option ℕ × Option ℕ)
  pub opengl_configuration : ℕ
  pub is_container_ready : ℕ → Bool
  pub is_compositor_ready : Bool
  -- AbstractRuntime::start and attachApplicationToQuickLauncher
  pub starts : ℕ → Bool
  pub attaches : ℕ → Bool

-- The arguments; the debug wrapper's specification is a list of UTF-16 codes.
pub record Request : Type 0 where
  pub app_id : String
  pub document_url : Option String
  pub document_mime_type : String
  pub debug_wrapper : Text
  pub stdio_redirections : List ℤ

-- The exceptions, in the order of the code.
pub data StartError : Type 0 where
  manager_is_shutting_down app_is_unknown app_is_blocked no_runtime_manager : StartError
  invalid_redirections wrapper_in_single_process wrapper_in_process invalid_wrapper : StartError
  running_without_wrapper running_without_redirections not_running_with_runtime : StartError
  no_container_manager : StartError

pub data Result : Type 0 where
  thrown : StartError → Result
  returned : Bool → Result

abbrev pub call : Call → Manager → Manager
call c m = record m { calls = c ∷ m.calls }

abbrev pub from_id : String → Manager → Option ℕ
from_id id m = find (λ a. str_eq (m.app_at a).id id) m.apps

abbrev pub set_current_runtime : ℕ → Option ℕ → Manager → Manager
set_current_runtime a rt m = record m {
  app_at = update m.app_at a (record (m.app_at a) { current_runtime = rt });
}
