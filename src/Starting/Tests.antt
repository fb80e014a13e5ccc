-- ===== src/Starting/Tests.antt =====
-- An application that is started: the hypotheses of the theorems hold.
use qtapplicationmanager.Prelude.{
  is_empty, List, ◌≤◌, ◌≡◌, refl, Bool, true, false, [], ◌∷◌, none, some, pos, negsuc, arith,
}
use qtapplicationmanager.Starting.DebugWrapper.{Text, parse_specification}
use qtapplicationmanager.Starting.State.{
  running, Application, Manager, World, Request, app_is_blocked, thrown,
}
use qtapplicationmanager.Starting.Start.{start_application_internal, start_application}
use qtapplicationmanager.Starting.Wrapping.{join}
use qtapplicationmanager.Starting.Reading.{completed, parse_specification-join}
use qtapplicationmanager.Starting.Failing.{OnlyClosed, start_application_internal-Clean}
use qtapplicationmanager.Starting.Leaving.{start_application-Leaves}
use qtapplicationmanager.Starting.Pooling.{pool_takes}
use qtapplicationmanager.Starting.Stopping.{
  End, runtime_finishes, runtime_destroyed, shut_down, end_step, end_all, shutdown_helper,
}
use qtapplicationmanager.Starting.Finishing.{shut_down-Finishes}
use qtapplicationmanager.Starting.Restricting.{start_application_internal-Same}

-- `gdb` and `a b=`.
abbrev gdb : Text
gdb = 103 ∷ 100 ∷ 98 ∷ []

abbrev odd_word : Text
odd_word = 97 ∷ 32 ∷ 98 ∷ 61 ∷ []

parse_specification-join_example :
    parse_specification (join gdb (odd_word ∷ [])) ≡ some (completed (gdb ∷ odd_word ∷ []), [])
parse_specification-join_example =
    parse_specification-join gdb (odd_word ∷ [])
      (refl, (λ e. omega (arith, e), (λ e. omega (arith, e), (λ e. omega (arith, e), tt))))
      (λ e. omega (arith, e), (λ e. omega (arith, e), (λ e. omega (arith, e), tt)))
      (
        (
          refl,
          (
            λ e. omega (arith, e),
            (λ e. omega (arith, e), (λ e. omega (arith, e), (λ e. omega (arith, e), tt))),
          ),
        ),
        tt,
      )

-- No container and no runtime can be created.
abbrev no_factories : World
no_factories = record {
  runtime_manager = λ name. some false;
  created_runtime = none;
  has_container_manager = λ id. true;
  created_container = λ id fds. (none, fds);
  is_single_process = false;
  has_asterisk = λ key. false;
  wildcard_matches = λ key id. false;
  container_selection_function = none;
  quick_launcher = none;
  opengl_configuration = 0;
  is_container_ready = λ c. true;
  is_compositor_ready = true;
  starts = λ rt. true;
  attaches = λ rt. true;
}

abbrev tuner : Bool → Application
tuner is_blocked = record {
  id = "tuner";
  is_blocked = is_blocked;
  document_url = none;
  runtime_name = "native";
  has_environment_variables = false;
  opengl_configuration = 0;
  current_runtime = none;
}

abbrev one_app : Bool → Manager
one_app is_blocked = record {
  is_shutting_down = false;
  apps = 5 ∷ [];
  app_at = λ a. tuner is_blocked;
  runtime_at = λ rt. record { state = running; is_in_process = false };
  container_selection = [];
  calls = [];
}

abbrev request : Request
request = record {
  app_id = "tuner";
  document_url = none;
  document_mime_type = "";
  debug_wrapper = [];
  stdio_redirections = negsuc 0 ∷ pos 7 ∷ [];
}

blocked_throws :
    (start_application_internal no_factories request (one_app true)).1 ≡ thrown app_is_blocked
unfolding start_application_internal
blocked_throws = refl

start_application_internal-Clean_example :
    OnlyClosed no_factories request app_is_blocked
      (one_app true)
      (start_application_internal no_factories request (one_app true)).0
start_application_internal-Clean_example =
    start_application_internal-Clean no_factories request (one_app true) app_is_blocked
      blocked_throws

start_fails : (start_application no_factories request (one_app false)).1 ≡ false
unfolding start_application
start_fails = refl

start_application-Leaves_example :
    ((start_application no_factories request (one_app false)).0.app_at 5).current_runtime ≡ none
start_application-Leaves_example =
    start_application-Leaves no_factories request (one_app false) 5 refl refl start_fails

-- The request redirects its standard output to the descriptor 7.
start_application_internal-Same_example :
    pool_takes (start_application_internal no_factories request (one_app false)).0.calls ≡ 0
start_application_internal-Same_example =
    start_application_internal-Same no_factories request (one_app false) 5 refl refl

-- The tuner runs, and then ends.
abbrev running_app : Manager
running_app = record (one_app false) {
  app_at = λ a. record (tuner false) { current_runtime = some 8 };
}

abbrev tuner_ends : List End
tuner_ends = runtime_finishes 8 ∷ runtime_destroyed 8 ∷ []

nothing_watched : is_empty (end_all tuner_ends (shut_down running_app)).watched ≡ true
unfolding end_all end_step shut_down shutdown_helper
nothing_watched = refl

shut_down-Finishes_example : 1 ≤ (end_all tuner_ends (shut_down running_app)).finished
shut_down-Finishes_example = shut_down-Finishes tuner_ends running_app nothing_watched
