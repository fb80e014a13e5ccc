-- ===== src/IntentServer/Process.antt =====
-- `IntentServer::processRequestQueue`: the four stages that a request at the head of the queue
-- passes through, each a test of the state that the one before it left.
use qtapplicationmanager.Prelude.{
  ℕ, Bool, true, false, ◌&&◌, ◌||◌, not, List, [], ◌∷◌, ◌++◌, Option, none, some, is_some,
  is_positive, if◌then◌else◌,
}
use qtapplicationmanager.Prelude.Maybe.{◌>>=◌}
use qtapplicationmanager.Intent.{Intent}
use qtapplicationmanager.IntentServer.State.{
  State, received_request, waiting_for_disambiguation, disambiguated, waiting_for_application_start,
  started_application, waiting_for_reply_from_application, received_reply_from_application, Request,
  set_request_failed, set_state, set_selected_intent, disambiguation_request, start_application,
  request_to_application, reply_from_system, disambiguation_timer, starting_app_timer,
  sent_to_app_timer, Server, modify, send, start_timer, World, trigger_request_queue,
}
use qtapplicationmanager.IntentServer.Answers.{answer_all}

-- `potentialIntents().constFirst()`: the constructor asserts that there is one.
unfoldable pub const_first : List Intent → Option Intent
const_first [] = none
const_first (i ∷ rest) = some i

-- Step 1, for a request that is not disambiguated yet.
unfoldable pub ask_for_disambiguation : World → ℕ → Server → Option Server
unfolding answer_all const_first set_selected_intent
ask_for_disambiguation w p s =
    if not w.is_signal_connected
    then (const_first (s.isr p).potential_intents >>= λ i.
        some (modify p (set_selected_intent (some i)) s))
    else (let waiting =
          modify p (set_state waiting_for_disambiguation)
            (record s { disambiguation_queue = s.disambiguation_queue ++ p ∷ [] }) in
        let timed =
          if is_positive s.disambiguation_timeout
          then start_timer (disambiguation_timer p) waiting
          else waiting in
        answer_all (w.on_disambiguation_request (s.isr p).id)
          (send (disambiguation_request (s.isr p).id (s.isr p).potential_intents) timed))

abbrev pub mark_disambiguated : ℕ → Server → Server
mark_disambiguated p s =
    if (s.isr p).broadcast || is_some (s.isr p).selected_intent
    then modify p (set_state disambiguated) s
    else s

-- Step 1: disambiguate.
unfoldable pub disambiguate_in : State → World → ℕ → Server → Option Server
disambiguate_in received_request w p s =
    (if not (s.isr p).broadcast && not (is_some (s.isr p).selected_intent)
      then ask_for_disambiguation w p s
      else some s)
    >>= λ t. some (mark_disambiguated p t)
disambiguate_in _ w p s = some s

-- Step 2, for a handler that is not running.
unfoldable pub start_handler : ℕ → Intent → Server → Server
start_handler p i s =
    if i.handle_only_when_running
    then modify p (set_request_failed "Skipping delivery due to handleOnlyWhenRunning") s
    else (let waiting =
          modify p (set_state waiting_for_application_start)
            (record s { starting_app_queue = s.starting_app_queue ++ p ∷ [] }) in
        let timed =
          if is_positive s.starting_app_timeout
          then start_timer (starting_app_timer p) waiting
          else waiting in
        send (start_application i.application_id) timed)

-- Step 2, for `selectedIntent()`: a null pointer faults.
unfoldable pub start_app_for : Option Intent → World → ℕ → Server → Option Server
unfolding start_handler
start_app_for none w p s = none
start_app_for (some i) w p s = some (
    if w.find_client_ipc i.application_id
    then modify p (set_state started_application) s
    else start_handler p i s)

-- Step 2: start the application.
unfoldable pub start_app_in : State → World → ℕ → Server → Option Server
unfolding start_app_for
start_app_in disambiguated w p s = start_app_for (s.isr p).selected_intent w p s
start_app_in _ w p s = some s

-- Step 3, by `isBroadcast()`: there are no replies for broadcasts.
unfoldable pub forward_in : Bool → ℕ → Server → Server
forward_in true p s = modify p (set_state received_reply_from_application) s
forward_in false p s =
    let waiting =
      modify p (set_state waiting_for_reply_from_application)
        (record s { sent_to_app_queue = s.sent_to_app_queue ++ p ∷ [] }) in
    if is_positive s.sent_to_app_timeout then start_timer (sent_to_app_timer p) waiting else waiting

-- Step 3, for a handler with an IPC connection.
unfoldable pub deliver : ℕ → Intent → Server → Server
unfolding forward_in
deliver p i s =
    send (request_to_application (s.isr p).id i.application_id) (forward_in (s.isr p).broadcast p s)

-- Step 3, for `selectedIntent()`: a null pointer faults.
unfoldable pub send_out_to : Option Intent → World → ℕ → Server → Option Server
unfolding deliver
send_out_to none w p s = none
send_out_to (some i) w p s = some (
    if w.find_client_ipc i.application_id
    then deliver p i s
    else modify p (set_request_failed "No IPC channel to reach target application.") s)

-- Step 3: send the request out.
unfoldable pub send_out_in : State → World → ℕ → Server → Option Server
unfolding send_out_to
send_out_in started_application w p s = send_out_to (s.isr p).selected_intent w p s
send_out_in _ w p s = some s

abbrev pub forward_reply : World → Request → Server → Server
forward_reply w r s =
    if not r.broadcast && w.find_client_ipc r.requesting_application_id
    then send (reply_from_system r.id r.requesting_application_id r.succeeded r.result) s
    else s

-- Step 5: send the reply to the requesting application, and let go of the request.
unfoldable pub send_reply_in : State → World → ℕ → Server → Server
send_reply_in received_reply_from_application w p s =
    let t = forward_reply w (s.isr p) s in record t { delete_later = p ∷ t.delete_later }
send_reply_in _ w p s = s

unfoldable pub process_request : World → ℕ → Server → Option Server
process_request w p s = disambiguate_in (s.isr p).state w p s >>= λ t.
    start_app_in (t.isr p).state w p t >>= λ u. send_out_in (u.isr p).state w p u >>= λ v.
    some (trigger_request_queue (send_reply_in (v.isr p).state w p v))

unfoldable pub process_taken : World → List ℕ → Server → Option Server
process_taken w [] s = some s
process_taken w (p ∷ rest) s = process_request w p (record s { request_queue = rest })

unfoldable pub process_request_queue : World → Server → Option Server
unfolding process_taken
process_request_queue w s = process_taken w s.request_queue s
