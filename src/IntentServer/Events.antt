-- ===== src/IntentServer/Events.antt =====
-- The calls that reach the server from its event loop: the posted `processRequestQueue`, answers of
-- the System UI, signals of the system interface, and timers.
use qtapplicationmanager.Prelude.{
  ℕ, zero, suc, Bool, true, false, ◌||◌, String, str_eq, List, [], ◌∷◌, ◌++◌, Option, none, some,
  if◌then◌else◌,
}
use qtapplicationmanager.Prelude.Maybe.{◌>>=◌}
use qtapplicationmanager.Qt.Queue.{remove_one, holds}
use qtapplicationmanager.Qt.Map.{QMap, value}
use qtapplicationmanager.Qt.Variant.{Variant, null, VariantOps}
use qtapplicationmanager.Intent.{Intent}
use qtapplicationmanager.IntentServer.State.{
  started_application, Request, set_request_failed, set_request_succeeded, set_state, Server,
  modify, World, Answer, Timer, disambiguation_timer, starting_app_timer, sent_to_app_timer,
  trigger_request_queue, enqueue_request,
}
use qtapplicationmanager.IntentServer.Answers.{take_request, internal_disambiguate_request}
use qtapplicationmanager.IntentServer.Process.{process_request_queue}

-- One request of the starting queue that waits for the application.
abbrev pub mark_started : ℕ → Server → Server
mark_started p s =
    modify p (set_state started_application)
      (record s { request_queue = s.request_queue ++ p ∷ [] })

-- The loop of `applicationWasStarted`: the server, the requests that stay, and `foundOne`. A null
-- `selectedIntent()` faults.
unfoldable pub start_waiting : String → List ℕ → Server → Option (Server × List ℕ × Bool)
start_waiting application_id [] s = some (s, [], false)
start_waiting application_id (p ∷ queue) s = (s.isr p).selected_intent >>= λ i.
    let hit = str_eq i.application_id application_id in
    start_waiting application_id queue (if hit then mark_started p s else s)
    >>= λ (t, kept, found_one). some (t, (if hit then kept else p ∷ kept), hit || found_one)

unfoldable pub application_was_started : String → Server → Option Server
unfolding start_waiting
application_was_started application_id s =
    start_waiting application_id s.starting_app_queue s >>= λ (t, kept, found_one).
    let u = record t { starting_app_queue = kept } in
    some (if found_one then trigger_request_queue u else u)

-- The branches of `replyFromApplication` for the request that was found.
abbrev pub is_wrong_application : Option Intent → String → Bool
is_wrong_application none replying = false
is_wrong_application (some i) replying = if str_eq i.application_id replying then false else true

unfoldable pub accept_reply : VariantOps → String → Bool → QMap Variant → Request → Request
accept_reply ops replying error result r =
    if is_wrong_application r.selected_intent replying
    then set_request_failed "Request reply received from wrong application" r
    else (if error
        then set_request_failed (ops.to_string (value "errorMessage" null result)) r
        else set_request_succeeded result r)

unfoldable pub reply_from_application :
    VariantOps → String → ℕ → Bool → QMap Variant → Server → Server
unfolding take_request accept_reply enqueue_request
reply_from_application ops replying request_id error result s =
    elim (take_request s.isr request_id s.sent_to_app_queue) [
      | none ↦ s
      | some (p, queue) ↦ enqueue_request p (
          modify p (accept_reply ops replying error result)
            (record s { sent_to_app_queue = queue }))
    ]

-- The slots of the three timers: they act on a request that is still in the timer's queue.
unfoldable pub timed_out : World → Timer → Server → Server
unfolding remove_one enqueue_request
timed_out w (disambiguation_timer p) s =
    if holds p s.disambiguation_queue
    then enqueue_request p (
        modify p
          (set_request_failed
            (w.arg "Disambiguation timed out after %1 ms" s.disambiguation_timeout))
          (record s { disambiguation_queue = remove_one p s.disambiguation_queue }))
    else s
timed_out w (starting_app_timer p) s =
    if holds p s.starting_app_queue
    then enqueue_request p (
        modify p
          (set_request_failed
            (w.arg "Starting handler application timed out after %1 ms" s.starting_app_timeout))
          (record s { starting_app_queue = remove_one p s.starting_app_queue }))
    else s
timed_out w (sent_to_app_timer p) s =
    if holds p s.sent_to_app_queue
    then enqueue_request p (
        modify p
          (set_request_failed (
            w.arg "Waiting for reply from handler application timed out after %1 ms"
              s.sent_to_app_timeout))
          (record s { sent_to_app_queue = remove_one p s.sent_to_app_queue }))
    else s

-- New requests come in by `request_to_system`, which is not one of these events.
pub data Event : Type 0 where
  -- A posted call of `processRequestQueue`.
  process : Event
  answer : Answer → Event
  started : String → Event
  replied : String → ℕ → Bool → QMap Variant → Event
  timeout : Timer → Event

-- The event loop delivers a posted call only if there is one.
abbrev pub run_trigger : ℕ → World → Server → Option Server
run_trigger zero w s = some s
run_trigger (suc n) w s = process_request_queue w (record s { triggers = n })

unfoldable pub step : VariantOps → World → Event → Server → Option Server
unfolding process_request_queue internal_disambiguate_request application_was_started
    reply_from_application timed_out
step ops w process s = run_trigger s.triggers w s
step ops w (answer a) s = internal_disambiguate_request a s
step ops w (started application_id) s = application_was_started application_id s
step ops w (replied app request_id error result) s =
    some (reply_from_application ops app request_id error result s)
step ops w (timeout t) s = some (timed_out w t s)

-- The surroundings may change from one event to the next.
unfoldable pub run : VariantOps → List (World × Event) → Server → Option Server
run ops [] s = some s
run ops ((w, e) ∷ events) s = step ops w e s >>= run ops events
