-- ===== src/IntentClient/State.antt =====
-- One request, and the client's state.
use qtapplicationmanager.Prelude.{ℕ, Bool, true, false, String, List, [], ◌∷◌, Option, ℤ}
use qtapplicationmanager.Qt.Map.{QMap}
use qtapplicationmanager.Qt.Variant.{Variant}
use qtapplicationmanager.Qt.Heap.{update}

pub data Direction : Type 0 where
  to_system to_application : Direction

-- A QUuid that is null is none.
pub record ClientRequest : Type 0 where
  pub direction : Direction
  pub id : Option ℕ
  pub intent_id : String
  pub requesting_application_id : String
  pub application_id : String
  pub parameters : QMap Variant
  pub is_broadcast : Bool
  pub is_finished : Bool
  -- whether anything is connected to the signal replyReceived, which QML does
  pub is_connected : Bool
  pub is_succeeded : Bool
  pub error_message : String
  pub result : QMap Variant

-- What the client emits, and sends through its system interface. Requests and handlers are named by
-- their addresses.
pub data Message : Type 0 where
  request_to_system : ℕ → Message
  -- with m_succeeded and m_result at that time
  reply_from_application : ℕ → Bool → QMap Variant → Message
  reply_received : ℕ → Message
  request_id_changed : ℕ → Message
  -- AbstractIntentHandler::internalRequestReceived
  request_received : ℕ → ℕ → Message
  -- QTimer::singleShot, with the milliseconds
  timer_started : ℕ → ℤ → Message
  delete_later : ℕ → Message

-- `is_alive` is what a QPointer tells; the newest message comes first.
pub record Client : Type 0 where
  pub waiting : List ℕ
  pub handlers : List ((String × String) × ℕ)
  pub request_at : ℕ → ClientRequest
  pub is_alive : ℕ → Bool
  pub reply_from_system_timeout : ℤ
  pub reply_from_application_timeout : ℤ
  pub outbox : List Message

abbrev pub emit : Message → Client → Client
emit x c = record c { outbox = x ∷ c.outbox }

-- A signal that something is connected to, or nothing.
abbrev pub heard : Bool → Message → List Message → List Message
heard true x xs = x ∷ xs
heard false x xs = xs

abbrev pub modify : ℕ → (ClientRequest → ClientRequest) → Client → Client
modify p f c = record c { request_at = update c.request_at p (f (c.request_at p)) }

-- `new`, at a fresh address.
abbrev pub create : ℕ → ClientRequest → Client → Client
create p r c = record c {
  request_at = update c.request_at p r;
  is_alive = update c.is_alive p true;
}

abbrev pub new_request :
    Direction → String → Option ℕ → String → String → QMap Variant → Bool → ClientRequest
new_request direction requesting id intent_id application_id parameters is_broadcast = record {
  direction = direction;
  id = id;
  intent_id = intent_id;
  requesting_application_id = requesting;
  application_id = application_id;
  parameters = parameters;
  is_broadcast = is_broadcast;
  is_finished = false;
  is_connected = false;
  is_succeeded = false;
  error_message = "";
  result = [];
}
