-- ===== src/IntentServer/Sending.antt =====
-- The steps of `processRequestQueue` after the disambiguation keep the queues in order and fault
-- nowhere: the start of the application, and the delivery of the request.
use qtapplicationmanager.Prelude.{
  ℕ, ◌≡◌, refl, subst, Bool, true, false, inl, inr, Option, none, some, is_some, arith, Bool-cases,
  is_positive,
}
use mathlib.Core.Bool.{false≢true}
use qtapplicationmanager.Intent.{Intent}
use qtapplicationmanager.IntentServer.State.{
  State, disambiguated, started_application, received_reply_from_application, Server, set_state,
  set_request_failed, send, Message, World,
}
use qtapplicationmanager.IntentServer.Process.{
  start_handler, start_app_for, start_app_in, forward_in, deliver, send_out_to, send_out_in,
}
use qtapplicationmanager.IntentServer.Invariant.{ReadyIn, Hand, promote, modify-Hand}
use qtapplicationmanager.IntentServer.Placing.{
  send-Placed, timed-Placed, place_starting, place_sent,
}
use qtapplicationmanager.IntentServer.Stages.{Outcome}

start_handler-Outcome :
    (p : ℕ) (total : ℕ → ℕ) (s : Server) (i : Intent)
    → Hand 1 p total s
    → is_some (s.isr p).selected_intent ≡ true
    → Outcome 2 p total (some (start_handler p i s))
unfolding start_handler
start_handler-Outcome p total s i h selected = elim (Bool-cases i.handle_only_when_running) [
  | inl skip ↦
      rw skip (_, refl, inl (modify-Hand 1 2 p total (set_request_failed _) s h tt (omega arith)))
  | inr wait ↦ rw wait (
    _,
    refl,
    inr (
        send-Placed _ p total _ (
          timed-Placed (is_positive s.starting_app_timeout) _ p total _
            (place_starting 1 p total s h selected))),
  )
]

start_app_for-Outcome :
    (o : Option Intent) (w : World) (p : ℕ) (total : ℕ → ℕ) (s : Server)
    → is_some o ≡ true
    → is_some (s.isr p).selected_intent ≡ true
    → Hand 1 p total s
    → Outcome 2 p total (start_app_for o w p s)
unfolding start_app_for
start_app_for-Outcome none w p total s known selected h = absurd (false≢true known)
start_app_for-Outcome (some i) w p total s known selected h =
    elim (Bool-cases (w.find_client_ipc i.application_id)) [
      | inl running ↦ rw running (
        _,
        refl,
        inl (modify-Hand 1 2 p total (set_state started_application) s h selected (omega arith)),
      )
      | inr stopped ↦ rw stopped (start_handler-Outcome p total s i h selected)
    ]

-- Step 2.
pub start_app-Outcome :
    (w : World) (p : ℕ) (total : ℕ → ℕ) (s : Server) (st : State)
    → (s.isr p).state ≡ st
    → Hand 1 p total s
    → Outcome 2 p total (start_app_in st w p s)
unfolding start_app_in
start_app-Outcome w p total s disambiguated e h =
    let selected : is_some (s.isr p).selected_intent ≡ true =
      subst (λ x. ReadyIn x (s.isr p)) e h.ready in
    start_app_for-Outcome (s.isr p).selected_intent w p total s selected selected h
start_app-Outcome w p total s st e h =
    (s, refl, inl (promote 1 2 p total s st e (λ reached. omega arith) h))

send-Hand :
    (m : Message) (k p : ℕ) (total : ℕ → ℕ) (s : Server)
    → Hand k p total s
    → Hand k p total (send m s)
send-Hand m k p total s h = record {
  fit = record {
    queued = h.fit.queued;
    asked = h.fit.asked;
    starting = h.fit.starting;
    sent = h.fit.sent;
  };
  held = h.held;
  free = h.free;
  ready = h.ready;
  reached = h.reached;
}

deliver-Outcome :
    (m : Message) (b : Bool) (p : ℕ) (total : ℕ → ℕ) (s : Server)
    → Hand 2 p total s
    → Outcome 3 p total (some (send m (forward_in b p s)))
unfolding forward_in
deliver-Outcome m true p total s h = (
  _,
  refl,
  inl (
      send-Hand m 3 p total _
        (modify-Hand 2 3 p total (set_state received_reply_from_application) s h tt (omega arith))),
)
deliver-Outcome m false p total s h = (
  _,
  refl,
  inr (
      send-Placed m p total _
        (timed-Placed (is_positive s.sent_to_app_timeout) _ p total _ (place_sent 2 p total s h))),
)

send_out_to-Outcome :
    (o : Option Intent) (w : World) (p : ℕ) (total : ℕ → ℕ) (s : Server)
    → is_some o ≡ true
    → Hand 2 p total s
    → Outcome 3 p total (send_out_to o w p s)
unfolding send_out_to deliver
send_out_to-Outcome none w p total s known h = absurd (false≢true known)
send_out_to-Outcome (some i) w p total s known h =
    elim (Bool-cases (w.find_client_ipc i.application_id)) [
      | inl running ↦ rw running (deliver-Outcome _ (s.isr p).broadcast p total s h)
      | inr stopped ↦
          rw stopped
            (_, refl, inl (modify-Hand 2 3 p total (set_request_failed _) s h tt (omega arith)))
    ]

-- Step 3.
pub send_out-Outcome :
    (w : World) (p : ℕ) (total : ℕ → ℕ) (s : Server) (st : State)
    → (s.isr p).state ≡ st
    → Hand 2 p total s
    → Outcome 3 p total (send_out_in st w p s)
unfolding send_out_in
send_out-Outcome w p total s started_application e h =
    let selected : is_some (s.isr p).selected_intent ≡ true =
      subst (λ x. ReadyIn x (s.isr p)) e h.ready in
    send_out_to-Outcome (s.isr p).selected_intent w p total s selected h
send_out-Outcome w p total s st e h =
    (s, refl, inl (promote 2 3 p total s st e (λ reached. omega arith) h))
