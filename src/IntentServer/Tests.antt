-- ===== src/IntentServer/Tests.antt =====
-- Runs of the intent server on small inputs, and the theorems at such inputs.
use qtapplicationmanager.Prelude.{
  ◌+◌, ◌*◌, ◌≡◌, refl, ◌↔◌, true, false, String, str_eq, List, [], ◌∷◌, ◌++◌, Option, none, some,
  arith, pos, inr, All,
}
use qtapplicationmanager.Qt.Variant.{Variant, null, str, list, object, scalar, VariantOps}
use qtapplicationmanager.Intent.{Intent, public, check_parameter_match}
use qtapplicationmanager.Intent.Match.{Accepts, check_parameter_match_iff}
use qtapplicationmanager.IntentServer.State.{
  Request, Server, World, received_request, waiting_for_disambiguation, sent_to_app_timer, Message,
  request_to_application,
}
use qtapplicationmanager.IntentServer.Process.{
  disambiguate_in, ask_for_disambiguation, start_app_in, send_out_in, send_reply_in,
  process_request, process_request_queue,
}
use qtapplicationmanager.IntentServer.Routing.{Alloc, request_to_system}
use qtapplicationmanager.IntentServer.Events.{
  Event, process, replied, timeout, timed_out, step, run,
}
use qtapplicationmanager.IntentServer.Invariant.{Inv}
use qtapplicationmanager.IntentServer.Histories.{Call, event, request}
use qtapplicationmanager.IntentServer.Safety.{Keeps, run-Inv}
use qtapplicationmanager.IntentServer.Liveness.{IsAwake, step-IsAwake}
use qtapplicationmanager.IntentServer.Draining.{turns, run-Empties, Empties}
use qtapplicationmanager.IntentServer.Entering.{IsFresh, request_to_system-Inv}
use qtapplicationmanager.IntentServer.Access.{Offered, request_to_system-Offered}
use qtapplicationmanager.IntentServer.Reentrancy.{RepliedAndQueued, reject_in_signal}

abbrev text_of : Variant → String
text_of (str s) = s
text_of null = ""
text_of (list xs) = ""
text_of (object m) = ""
text_of (scalar t n) = ""

abbrev ops : VariantOps
ops = record {
  to_string = text_of;
  can_convert = λ a b. true;
  equals = λ a b. str_eq (text_of a) (text_of b);
  has_match = str_eq;
}

abbrev maps : Intent
maps = record {
  self = 900;
  intent_id = "show-map";
  package_id = "navigation";
  application_id = "navi";
  required_capabilities = [];
  visibility = public;
  parameter_match = [];
  names = [];
  descriptions = [];
  icon = "";
  categories = [];
  handle_only_when_running = false;
}

abbrev phone_maps : Intent
phone_maps = record maps { self = 901; package_id = "phone"; application_id = "dialer" }

abbrev nobody : Request
nobody = record {
  id = 0;
  state = received_request;
  succeeded = false;
  broadcast = false;
  intent_id = "";
  requesting_application_id = "";
  selected_intent = none;
  potential_intents = [];
  parameters = [];
  result = [];
}

abbrev idle : Server
idle = record {
  known_applications = ("navigation", "navi" ∷ []) ∷ ("phone", "dialer" ∷ []) ∷ [];
  intents = maps ∷ phone_maps ∷ [];
  about_to_be_removed = false;
  isr = λ _. nobody;
  request_queue = [];
  disambiguation_queue = [];
  starting_app_queue = [];
  sent_to_app_queue = [];
  delete_later = [];
  disambiguation_timeout = pos 10000;
  logs_warnings = true;
  starting_app_timeout = pos 3000;
  sent_to_app_timeout = pos 5000;
  timers = [];
  triggers = 0;
  outbox = [];
}

abbrev all_running : World
all_running = record {
  is_signal_connected = false;
  on_disambiguation_request = λ id. [];
  find_client_ipc = λ app. true;
  check_application_capabilities = λ app caps. true;
  arg = λ text n. text;
}

abbrev alloc : Alloc
alloc = record { isr = λ k. k + 7; uuid = λ k. k + 100; copy = λ k j. 1000 + 10 * k + j }

abbrev narrow : Intent
narrow = record maps { parameter_match = ("zoom", str "12") ∷ [] }

-- The dialer asks for a map without naming an application.
abbrev queued : Server
queued = (request_to_system ops all_running alloc "dialer" "show-map" "" [] idle).0

queued_one : queued.request_queue ≡ 7 ∷ []
unfolding request_to_system check_parameter_match
queued_one = refl

abbrev messages : Option Server → List Message
messages none = []
messages (some s) = s.outbox

-- The request goes to the first match.
sent_to_first :
    messages (process_request_queue all_running queued) ≡ request_to_application 100 "navi" ∷ []
unfolding process_request_queue process_request disambiguate_in ask_for_disambiguation start_app_in
    send_out_in send_reply_in request_to_system check_parameter_match
sent_to_first = refl

check_parameter_match_iff_example :
    (check_parameter_match ops narrow (("zoom", str "12") ∷ []) ≡ true)
    ↔ All (Accepts ops (("zoom", str "12") ∷ [])) (("zoom", str "12") ∷ [])
check_parameter_match_iff_example = check_parameter_match_iff ops narrow (("zoom", str "12") ∷ [])

idle-Inv : Inv idle
idle-Inv = record {
  fit = record { queued = tt; asked = tt; starting = tt; sent = tt };
  single = λ q. omega arith;
}

alloc-IsFresh : IsFresh alloc 0 idle
alloc-IsFresh = record { unused = λ j le. omega arith; distinct = λ i j e. omega arith }

queued-Inv : Inv queued
queued-Inv =
    request_to_system-Inv ops all_running alloc "dialer" "show-map" "" [] idle alloc-IsFresh
      idle-Inv

abbrev history : List (World × Event)
history =
    (all_running, process)
    ∷ (all_running, replied "navi" 100 false [])
    ∷ (all_running, timeout (sent_to_app_timer 7))
    ∷ (all_running, process)
    ∷ []

run-Inv_example : Keeps queued (run ops history queued)
run-Inv_example =
    run-Inv ops history queued (λ id. refl, (λ id. refl, (λ id. refl, (λ id. refl, tt)))) queued-Inv

queued-IsAwake : IsAwake queued
unfolding request_to_system check_parameter_match
queued-IsAwake = inr (omega arith)

step-IsAwake_example : IsAwake (timed_out all_running (sent_to_app_timer 7) queued)
unfolding step
step-IsAwake_example =
    step-IsAwake ops all_running (timeout (sent_to_app_timer 7)) queued
      (timed_out all_running (sent_to_app_timer 7) queued) queued-IsAwake refl

run-Empties_example : Empties (run ops (turns 1 all_running) queued)
unfolding request_to_system check_parameter_match
run-Empties_example =
    run-Empties ops all_running 1 queued (λ id. refl) queued-Inv queued-IsAwake (omega arith)

request_to_system-Offered_example :
    All (Offered ops all_running "dialer" "show-map" [] idle) (queued.isr 7).potential_intents
    × (queued.request_queue ≡ [] ++ 7 ∷ [])
unfolding request_to_system check_parameter_match
request_to_system-Offered_example =
    request_to_system-Offered ops all_running alloc "dialer" "show-map" "" [] idle queued 7 refl

-- A request that waits for an answer.
abbrev undecided : Server
undecided = record idle {
  isr = λ _. record nobody { id = 5; state = waiting_for_disambiguation };
  disambiguation_queue = 7 ∷ [];
}

-- A System UI that rejects everything at once.
abbrev rejecting : World
rejecting = record all_running {
  is_signal_connected = true;
  on_disambiguation_request =
      λ id. record { request_id = id; reject = true; selected_intent = none } ∷ [];
}

reject_in_signal_example : RepliedAndQueued 7 idle (process_request rejecting 7 idle)
reject_in_signal_example = reject_in_signal rejecting 7 idle refl refl refl refl refl refl refl

-- The phone asks for the same while the dialer's request waits.
abbrev later_alloc : Alloc
later_alloc = record { isr = λ k. k + 50; uuid = λ k. k + 500; copy = λ k j. 5000 + 10 * k + j }

abbrev two_requests : List Call
two_requests =
    request all_running alloc "dialer" "show-map" "" []
    ∷ request all_running later_alloc "navi" "show-map" "" []
    ∷ event all_running process
    ∷ []
