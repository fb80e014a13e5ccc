-- ===== src/PackageManager/Task.antt =====
-- `AsynchronousTask`, with what `InstallationTask` and `DeinstallationTask` add to its control.
use qtapplicationmanager.Prelude.{Bool, true, false, String, if◌then◌else◌}

-- The program's error codes.
pub data Error : Type 0 where
  no_error canceled_error parse_error system_error io_error permissions_error : Error
  network_error storage_space_error dbus_error cryptography_error archive_error : Error
  package_error locked_error not_installed_error already_installed_error : Error
  medium_not_available_error wrong_medium_error intents_error : Error

pub data TaskState : Type 0 where
  invalid queued executing failed finished awaiting_acknowledge installing cleaning_up : TaskState

-- The class of the task, which `qobject_cast` tests.
pub data TaskKind : Type 0 where
  installation deinstallation : TaskKind

-- How far the task's thread is: an installation's thread says when its package is extracted.
pub data Phase : Type 0 where
  not_started running extracted over : Phase

pub record Task : Type 0 where
  pub id : String
  pub package_id : String
  pub kind : TaskKind
  pub state : TaskState
  pub error_code : Error
  pub error_string : String
  pub canceled : Bool
  -- of an installation
  pub installation_acknowledged : Bool
  -- of a deinstallation
  pub can_be_canceled : Bool
  pub phase : Phase

abbrev pub set_task_state : TaskState → Task → Task
set_task_state state t = record t { state = state }

abbrev pub set_error : Error → String → Task → Task
set_error code text t = record t { error_code = code; error_string = text; state = failed }

-- The virtual `cancel`: the task, and whether it will stop.
unfoldable pub cancel_kind : TaskKind → Task → Task × Bool
cancel_kind installation t =
    if t.installation_acknowledged then (t, false) else (record t { canceled = true }, true)
cancel_kind deinstallation t =
    let u = if t.can_be_canceled then record t { canceled = true } else t in (u, u.canceled)

abbrev pub cancel : Task → Task × Bool
cancel t = cancel_kind t.kind t

abbrev pub is_queued : TaskState → Bool
is_queued queued = true
is_queued _ = false

abbrev pub is_failed : TaskState → Bool
is_failed failed = true
is_failed _ = false

unfoldable pub force_cancel : Task → Task × Bool
force_cancel t =
    if is_queued t.state then (set_error canceled_error "canceled" t, true) else cancel t

unfoldable pub acknowledge : Task → Task
acknowledge t = if t.canceled then t else record t { installation_acknowledged = true }
