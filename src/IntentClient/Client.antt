-- ===== src/IntentClient/Client.antt =====
-- The operations of `IntentClient` and `IntentClientRequest`, all of them on the client's thread.
use qtapplicationmanager.Prelude.{
  ℕ, Bool, true, false, ◌&&◌, ◌||◌, not, String, str_eq, List, [], ◌∷◌, ◌++◌, Option, none, some, ℤ,
  is_positive, find, filter, any, ◌==◌, if◌then◌else◌,
}
use qtapplicationmanager.Qt.Map.{QMap, value}
use qtapplicationmanager.Qt.Heap.{update}
use qtapplicationmanager.Qt.Queue.{remove_one}
use qtapplicationmanager.Qt.Variant.{Variant, null, str, VariantOps}
use qtapplicationmanager.IntentClient.State.{
  Direction, to_system, to_application, request_to_system, reply_from_application, reply_received,
  request_id_changed, request_received, timer_started, delete_later, Client, emit, modify, create,
  new_request, heard,
}

-- Whoever is connected hears of the reply, and is disconnected.
unfoldable pub do_finish : ℕ → Client → Client
do_finish p c =
    let finished = modify p (λ r. record r { is_finished = true }) c in
    modify p (λ r. record r { is_connected = false })
      (record finished {
        outbox = heard (c.request_at p).is_connected (reply_received p) finished.outbox;
      })

unfoldable pub set_result : ℕ → QMap Variant → Client → Client
unfolding do_finish
set_result p result c =
    do_finish p (modify p (λ r. record r { result = result; is_succeeded = true }) c)

unfoldable pub set_error_message : ℕ → String → Client → Client
unfolding do_finish
set_error_message p text c =
    do_finish p (modify p (λ r. record r { error_message = text; is_succeeded = false }) c)

abbrev pub same_id : Option ℕ → Option ℕ → Bool
same_id none none = true
same_id (some a) (some b) = a == b
same_id none (some b) = false
same_id (some a) none = false

unfoldable pub set_request_id : ℕ → Option ℕ → Client → Client
set_request_id p id c =
    if same_id (c.request_at p).id id
    then c
    else emit (request_id_changed p) (modify p (λ r. record r { id = id }) c)

abbrev pub is_to_application : Direction → Bool
is_to_application to_application = true
is_to_application to_system = false

-- `IntentClient::replyFromApplication` and `errorReplyFromApplication`.
unfoldable pub send_result : ℕ → Bool → QMap Variant → Client → Client
send_result p is_succeeded result c =
    if c.is_alive p && is_to_application (c.request_at p).direction
    then emit (reply_from_application p is_succeeded result) (
        modify p
          (λ r. record r { is_succeeded = is_succeeded; is_finished = true; result = result }) c)
    else c

abbrev pub error_result : String → QMap Variant
error_result text = ("errorMessage", str text) ∷ []

-- `sendReply` and `sendErrorReply`.
unfoldable pub send_reply : ℕ → QMap Variant → Client → Client
unfolding send_result
send_reply p result c =
    if not (is_to_application (c.request_at p).direction) || (c.request_at p).is_broadcast
    then c
    else send_result p true result c

unfoldable pub send_error_reply : ℕ → String → Client → Client
unfolding send_result
send_error_reply p text c =
    if not (is_to_application (c.request_at p).direction) || (c.request_at p).is_broadcast
    then c
    else send_result p false (error_result text) c

abbrev pub start_timeout : ℕ → ℤ → Client → Client
start_timeout p timeout c = if is_positive timeout then emit (timer_started p timeout) c else c

-- The slot of the timer; both texts end with the milliseconds.
unfoldable pub timed_out : ℕ → String → Client → Client
unfolding send_error_reply set_error_message
timed_out p text c =
    if c.is_alive p && not (c.request_at p).is_finished
    then (if is_to_application (c.request_at p).direction
        then send_error_reply p text c
        else set_error_message p text c)
    else c

-- The destructor.
unfoldable pub destroy : ℕ → Client → Client
unfolding send_error_reply
destroy p c =
    let r = c.request_at p in
    let told =
      if is_to_application r.direction && not r.is_finished && not r.is_broadcast
      then send_error_reply p "Request not handled" c
      else c in
    record told { is_alive = update told.is_alive p false }

abbrev pub broadcast : String
broadcast = ":broadcast:"

-- `requestToSystem`, for a new request at the address.
unfoldable pub send_request : ℕ → String → String → String → QMap Variant → Client → Client
send_request p requesting intent_id application_id parameters c = emit (request_to_system p) (
    create p
      (new_request to_system requesting none intent_id application_id parameters
        (str_eq application_id broadcast))
      c)

-- The result is the pointer, which may be null.
unfoldable pub send_intent_request :
    ℕ → String → String → String → QMap Variant → Client → Client × Option ℕ
unfolding send_request
send_intent_request p requesting intent_id application_id parameters c =
    if str_eq intent_id "" || str_eq application_id broadcast then (c, none) else (
      start_timeout p c.reply_from_system_timeout
          (send_request p requesting intent_id application_id parameters c),
      some p,
    )

unfoldable pub broadcast_intent_request :
    ℕ → String → String → QMap Variant → Client → Client × Bool
unfolding send_request
broadcast_intent_request p requesting intent_id parameters c =
    if str_eq intent_id ""
    then (c, false)
    else (send_request p requesting intent_id broadcast parameters c, true)

-- The system interface has the server's answer to a request: its id, or an error.
unfoldable pub request_to_system_finished : ℕ → Option ℕ → Bool → String → Client → Client
unfolding set_error_message set_request_id
request_to_system_finished p new_id is_error text c =
    if not (c.is_alive p)
    then c
    else (if (c.request_at p).is_broadcast
        then emit (delete_later p) c
        else (if is_error then set_error_message p text c else elim new_id [
          | none ↦ set_error_message p "No matching Intent found in the system" c
          | some id ↦
              let known = set_request_id p (some id) c in
              record known { waiting = known.waiting ++ p ∷ [] }
        ]))

abbrev pub waits_for : ℕ → Client → ℕ → Bool
waits_for id c p = c.is_alive p && same_id (c.request_at p).id (some id)

-- `cleans_up` is whether the last cleanup is more than a second ago.
abbrev pub take_waiting : Bool → ℕ → Client → Client
take_waiting cleans_up p c =
    let left = remove_one p c.waiting in
    record c { waiting = if cleans_up then filter c.is_alive left else left }

unfoldable pub reply_from_system : VariantOps → Bool → ℕ → Bool → QMap Variant → Client → Client
unfolding set_error_message set_result
reply_from_system ops cleans_up id is_error result c = elim (find (waits_for id c) c.waiting) [
  | none ↦ c
  | some p ↦
      let taken = take_waiting cleans_up p c in
      if is_error
      then set_error_message p (ops.to_string (value "errorMessage" null result)) taken
      else set_result p result taken
]

abbrev pub same_key : String × String → String × String → Bool
same_key (a, b) (x, y) = str_eq a x && str_eq b y

abbrev pub handler_for : String × String → List ((String × String) × ℕ) → Option ℕ
handler_for key [] = none
handler_for key ((k, h) ∷ rest) = if same_key k key then some h else handler_for key rest

-- `QMap::insert`, which gives a key that is there another value. No result depends on the order of the keys.
abbrev pub insert_handler :
    String × String → ℕ → List ((String × String) × ℕ) → List ((String × String) × ℕ)
insert_handler key h [] = (key, h) ∷ []
insert_handler key h ((k, g) ∷ rest) =
    if same_key k key then (k, h) ∷ rest else (k, g) ∷ insert_handler key h rest

-- The loop of `registerHandler`: the handler that registered first stays.
unfoldable pub register_handler : ℕ → String → List String → Client → Client
register_handler h application_id [] c = c
register_handler h application_id (intent_id ∷ ids) c =
    let key : String × String = (intent_id, application_id) in
    register_handler h application_id ids (
      if any (λ e. same_key e.0 key) c.handlers
      then c
      else record c { handlers = insert_handler key h c.handlers })

unfoldable pub unregister_handler : ℕ → Client → Client
unregister_handler h c = record c { handlers = filter (λ e. not (e.1 == h)) c.handlers }

-- A request of the system to this application.
unfoldable pub request_to_application :
    ℕ → ℕ → String → String → String → QMap Variant → Client → Client
unfolding send_result destroy
request_to_application p id intent_id requesting application_id parameters c =
    let is_broadcast = str_eq requesting broadcast in
    let created =
      create p
        (new_request to_application requesting (some id) intent_id application_id parameters
          is_broadcast)
        c in
    elim (handler_for (intent_id, application_id) c.handlers) [
      | some h ↦ emit (request_received h p) (
          if is_broadcast
          then created
          else start_timeout p c.reply_from_application_timeout created)
      | none ↦
          destroy p (send_result p false (error_result "No matching IntentHandler found.") created)
    ]
