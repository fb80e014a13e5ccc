-- ===== src/IntentServer/State.antt =====
-- The server's state: the requests, which the queues share by pointer, and the operations of
-- `IntentServerRequest` on one of them.
use qtapplicationmanager.Prelude.{
  ℕ, suc, Bool, true, false, String, List, [], ◌∷◌, ◌++◌, Option, none, some, ℤ, any, ◌==◌,
  if◌then◌else◌,
}
pub use qtapplicationmanager.Qt.Heap.{update}
use qtapplicationmanager.Qt.Map.{QMap, insert}
use qtapplicationmanager.Qt.Variant.{Variant, str}
use qtapplicationmanager.Intent.{Intent}

pub data State : Type 0 where
  received_request waiting_for_disambiguation disambiguated waiting_for_application_start : State
  started_application waiting_for_reply_from_application received_reply_from_application : State

pub record Request : Type 0 where
  pub id : ℕ
  pub state : State
  pub succeeded : Bool
  pub broadcast : Bool
  pub intent_id : String
  pub requesting_application_id : String
  pub selected_intent : Option Intent
  pub potential_intents : List Intent
  pub parameters : QMap Variant
  pub result : QMap Variant

-- `m_potentialIntents.contains(intent)`: a test of addresses; no null pointer is in the list.
abbrev pub contains_intent : List Intent → Option Intent → Bool
contains_intent intents none = false
contains_intent intents (some i) = any (λ j. j.self == i.self) intents

abbrev pub set_request_failed : String → Request → Request
set_request_failed error_message r = record r {
  succeeded = false;
  result = insert "errorMessage" (str error_message) [];
  state = received_reply_from_application;
}

abbrev pub set_request_succeeded : QMap Variant → Request → Request
set_request_succeeded result r = record r {
  succeeded = true;
  result = result;
  state = received_reply_from_application;
}

abbrev pub set_state : State → Request → Request
set_state new_state r = record r { state = new_state }

unfoldable pub set_selected_intent : Option Intent → Request → Request
set_selected_intent none r = record r { selected_intent = none }
set_selected_intent (some i) r =
    if contains_intent r.potential_intents (some i)
    then record r { selected_intent = some i }
    else r

-- What the server tells the system interface (with what that reads of the request) and emits.
pub data Message : Type 0 where
  -- the request's id and its potential intents
  disambiguation_request : ℕ → List Intent → Message
  start_application : String → Message
  -- the request's id and the handling application
  request_to_application : ℕ → String → Message
  -- the request's id, the requesting application, `succeeded` and `result`
  reply_from_system : ℕ → String → Bool → QMap Variant → Message

-- The `QTimer::singleShot` calls, by the queue that they watch.
pub data Timer : Type 0 where
  disambiguation_timer starting_app_timer sent_to_app_timer : ℕ → Timer

-- Queues and timers hold pointers; `isr` is what a pointer points to. `delete_later` holds the
-- requests that were given to `deleteLater`, and `triggers` counts the posted calls of
-- `processRequestQueue`. `outbox` is the newest message first.
pub record Server : Type 0 where
  pub known_applications : QMap (List String)
  pub intents : List Intent
  pub about_to_be_removed : Bool
  pub isr : ℕ → Request
  pub request_queue : List ℕ
  pub disambiguation_queue : List ℕ
  pub starting_app_queue : List ℕ
  pub sent_to_app_queue : List ℕ
  pub delete_later : List ℕ
  pub disambiguation_timeout : ℤ
  pub starting_app_timeout : ℤ
  pub sent_to_app_timeout : ℤ
  pub timers : List Timer
  pub triggers : ℕ
  -- whether warnings of the category LogIntents are enabled
  pub logs_warnings : Bool
  pub outbox : List Message

-- A call of a member function of the request that `p` points to.
abbrev pub modify : ℕ → (Request → Request) → Server → Server
modify p f s = record s { isr = update s.isr p (f (s.isr p)) }

abbrev pub send : Message → Server → Server
send m s = record s { outbox = m ∷ s.outbox }

abbrev pub start_timer : Timer → Server → Server
start_timer t s = record s { timers = t ∷ s.timers }

-- A call of the QML slot `acknowledgeDisambiguationRequest` or `rejectDisambiguationRequest`.
pub record Answer : Type 0 where
  pub request_id : ℕ
  pub reject : Bool
  pub selected_intent : Option Intent

-- What the server asks of its surroundings during one call. The calls that the receivers of
-- `disambiguationRequest` make from within the signal are part of it.
pub record World : Type 0 where
  pub is_signal_connected : Bool
  pub on_disambiguation_request : ℕ → List Answer
  pub find_client_ipc : String → Bool
  pub check_application_capabilities : String → List String → Bool
  -- QString::arg
  pub arg : String → ℤ → String

abbrev pub trigger_request_queue : Server → Server
trigger_request_queue s = record s { triggers = suc s.triggers }

unfoldable pub enqueue_request : ℕ → Server → Server
enqueue_request p s = trigger_request_queue (record s { request_queue = s.request_queue ++ p ∷ [] })
