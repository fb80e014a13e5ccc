-- ===== src/IntentServer/Reentrancy.antt =====
-- What an answer of the System UI from within the signal does.
use qtapplicationmanager.Prelude.{
  ℕ, ◌≡◌, refl, ap, sym, subst, not, ◌&&◌, ◌||◌, is_some, ◌∙◌, is_positive, Bool, true, false, [],
  ◌∷◌, ◌++◌, Option, none, some, ==_iff, if◌then◌else◌,
}
use qtapplicationmanager.Prelude.Maybe.{◌>>=◌}
use qtapplicationmanager.Intent.{Intent}
use qtapplicationmanager.IntentServer.State.{
  waiting_for_disambiguation, disambiguated, set_state, received_request,
  received_reply_from_application, Message, trigger_request_queue, modify, Server, World, Answer,
  Request, reply_from_system, set_request_failed, enqueue_request,
}
use qtapplicationmanager.IntentServer.Answers.{
  take_request, answer_request, answer_all, internal_disambiguate_request,
}
use qtapplicationmanager.IntentServer.Invariant.{update_self}
use qtapplicationmanager.IntentServer.Stages.{asked_server}
use qtapplicationmanager.IntentServer.Process.{
  mark_disambiguated, ask_for_disambiguation, disambiguate_in, start_app_in, send_out_in,
  send_reply_in, process_request,
}

-- The reject that a receiver of the signal makes at once.
abbrev rejection : ℕ → Answer
rejection request_id = record { request_id = request_id; reject = true; selected_intent = none }

rejected : Request → Request
rejected r = set_request_failed "Disambiguation was rejected" r

-- The rejection of the one request that waits.
reject_waiting :
    (s : Server) (p request_id : ℕ)
    → s.disambiguation_queue ≡ p ∷ []
    → (s.isr p).id ≡ request_id
    → answer_all (rejection request_id ∷ []) s
      ≡ some (enqueue_request p (modify p rejected (record s { disambiguation_queue = [] })))
unfolding answer_all internal_disambiguate_request answer_request rejected
reject_waiting s p request_id dq id = rw (found, internal_disambiguate_request)
  where
    found : take_request s.isr request_id s.disambiguation_queue ≡ some (p, [])
    found = rw dq (rw ((==_iff (s.isr p).id request_id).1 id, take_request))

abbrev reply : Request → Message
reply r = reply_from_system r.id r.requesting_application_id r.succeeded r.result

-- What a request that is ready to be replied to meets in the last three stages.
record Replied (p : ℕ) (s t : Server) : Type 0 where
  queue : t.request_queue ≡ s.request_queue
  asked : t.disambiguation_queue ≡ s.disambiguation_queue
  deleted : t.delete_later ≡ p ∷ s.delete_later
  object : t.isr p ≡ s.isr p
  sent : t.outbox ≡ reply (s.isr p) ∷ s.outbox

finish_reply :
    (w : World) (p : ℕ) (s : Server)
    → (s.isr p).state ≡ received_reply_from_application
    → (s.isr p).broadcast ≡ false
    → w.find_client_ipc (s.isr p).requesting_application_id ≡ true
    → (t : Server) × ((start_app_in (s.isr p).state w p s >>= λ u.
          send_out_in (u.isr p).state w p u >>= λ v.
          some (trigger_request_queue (send_reply_in (v.isr p).state w p v)))
        ≡ some t)
      × Replied p s t
unfolding start_app_in send_out_in send_reply_in
finish_reply w p s st single ipc = (
  trigger_request_queue
      (record s { delete_later = p ∷ s.delete_later; outbox = reply (s.isr p) ∷ s.outbox }),
  rw (st, start_app_in) (rw (st, send_out_in) (rw (st, send_reply_in) (rw (single, ipc)))),
  record { queue = refl; asked = refl; deleted = refl; object = refl; sent = refl },
)

undecided-false : (b : Bool) (o : Option Intent) → b ≡ false → o ≡ none → (b || is_some o) ≡ false
undecided-false b o h k = rw (h, k)

needed_lem :
    (b : Bool) (o : Option Intent) → b ≡ false → o ≡ none → (not b && not (is_some o)) ≡ true
needed_lem b o h k = rw (h, k)

if_true {ℓ} : {A : Type ℓ} (b : Bool) (x y : A) → b ≡ true → (if b then x else y) ≡ x
if_true b x y h = rw h

if_false {ℓ} : {A : Type ℓ} (b : Bool) (x y : A) → b ≡ false → (if b then x else y) ≡ y
if_false b x y h = rw h

-- The server when the signal is emitted.
record Asks (p : ℕ) (s u : Server) : Type 0 where
  queue : u.request_queue ≡ s.request_queue
  asked : u.disambiguation_queue ≡ s.disambiguation_queue ++ p ∷ []
  deleted : u.delete_later ≡ s.delete_later
  object : u.isr p ≡ set_state waiting_for_disambiguation (s.isr p)

asked_server-Asks : (timed : Bool) (p : ℕ) (s : Server) → Asks p s (asked_server timed p s)
asked_server-Asks true p s = record {
  queue = refl;
  asked = refl;
  deleted = refl;
  object = update_self s.isr p _;
}
asked_server-Asks false p s = record {
  queue = refl;
  asked = refl;
  deleted = refl;
  object = update_self s.isr p _;
}

-- The answer from within the signal, for the server that emits it.
abbrev back : ℕ → Server → Server
back p u = enqueue_request p (modify p rejected (record u { disambiguation_queue = [] }))

back-object :
    (p : ℕ) (s u : Server)
    → Asks p s u
    → (back p u).isr p ≡ rejected (set_state waiting_for_disambiguation (s.isr p))
unfolding enqueue_request
back-object p s u a = update_self u.isr p _ ∙ ap rejected a.object

back-queue :
    (p : ℕ) (s u : Server) → Asks p s u → (back p u).request_queue ≡ s.request_queue ++ p ∷ []
unfolding enqueue_request
back-queue p s u a = ap (λ q. q ++ p ∷ []) a.queue

back-deleted : (p : ℕ) (s u : Server) → Asks p s u → (back p u).delete_later ≡ s.delete_later
unfolding enqueue_request
back-deleted p s u a = a.deleted

back-asked : (p : ℕ) (u : Server) → (back p u).disambiguation_queue ≡ []
unfolding enqueue_request
back-asked p u = refl

module _ (w : World) (p : ℕ) (s : Server) where
  asked_and_rejected :
      s.disambiguation_queue ≡ []
      → w.is_signal_connected ≡ true
      → w.on_disambiguation_request (s.isr p).id ≡ rejection (s.isr p).id ∷ []
      → ask_for_disambiguation w p s
        ≡ some (back p (asked_server (is_positive s.disambiguation_timeout) p s))
  unfolding ask_for_disambiguation
  asked_and_rejected dq conn ans =
      let a = asked_server-Asks (is_positive s.disambiguation_timeout) p s in
      rw (conn, ans)
        (reject_waiting _ p (s.isr p).id (a.asked ∙ ap (λ q. q ++ p ∷ []) dq)
          (ap (λ r. r.id) a.object))

  rejected_in_signal :
      (s.isr p).state ≡ received_request
      → (s.isr p).broadcast ≡ false
      → (s.isr p).selected_intent ≡ none
      → s.disambiguation_queue ≡ []
      → w.is_signal_connected ≡ true
      → w.on_disambiguation_request (s.isr p).id ≡ rejection (s.isr p).id ∷ []
      → disambiguate_in (s.isr p).state w p s
        ≡ some (back p (asked_server (is_positive s.disambiguation_timeout) p s))
  unfolding disambiguate_in rejected
  rejected_in_signal st single undecided dq conn ans =
      let u = asked_server (is_positive s.disambiguation_timeout) p s in
      let object =
        back-object p s u (asked_server-Asks (is_positive s.disambiguation_timeout) p s) in
      let needed = not (s.isr p).broadcast && not (is_some (s.isr p).selected_intent) in
      subst (λ x. disambiguate_in x w p s ≡ some (back p u)) (sym st)
        (ap (λ o. o >>= λ t. some (mark_disambiguated p t))
            (if_true needed (ask_for_disambiguation w p s) (some s)
                (needed_lem _ _ single undecided)
              ∙ asked_and_rejected dq conn ans)
          ∙ ap some (
              if_false _ (modify p (set_state disambiguated) (back p u)) (back p u) (
                undecided-false ((back p u).isr p).broadcast ((back p u).isr p).selected_intent
                  (ap (λ r. r.broadcast) object ∙ single)
                  (ap (λ r. r.selected_intent) object ∙ undecided))))

-- The request is to be deleted, and stands in the request queue all the same, ready for a reply.
abbrev pub RepliedAndQueued : ℕ → Server → Option Server → Type 0
RepliedAndQueued p s o =
    (t : Server) × (o ≡ some t)
    × (t.request_queue ≡ s.request_queue ++ p ∷ [])
    × (t.delete_later ≡ p ∷ s.delete_later)
    × ((t.isr p).state ≡ received_reply_from_application)

-- For a received request that is no broadcast and has no selected intent, from a connected
-- application, with the disambiguation queue empty and the signal connected to one receiver that
-- rejects at once: the call of `processRequestQueue` runs to its end, the request has been given to
-- `deleteLater`, and still it stands last in the request queue, in the state to send its reply.
pub reject_in_signal :
    (w : World) (p : ℕ) (s : Server)
    → (s.isr p).state ≡ received_request
    → (s.isr p).broadcast ≡ false
    → (s.isr p).selected_intent ≡ none
    → s.disambiguation_queue ≡ []
    → w.is_signal_connected ≡ true
    → w.on_disambiguation_request (s.isr p).id ≡ rejection (s.isr p).id ∷ []
    → w.find_client_ipc (s.isr p).requesting_application_id ≡ true
    → RepliedAndQueued p s (process_request w p s)
unfolding process_request rejected
reject_in_signal w p s st single undecided dq conn ans ipc =
    let u = asked_server (is_positive s.disambiguation_timeout) p s in
    let a = asked_server-Asks (is_positive s.disambiguation_timeout) p s in
    let object = back-object p s u a in
    let (t, e, r) =
      finish_reply w p (back p u) (ap (λ r. r.state) object) (ap (λ r. r.broadcast) object ∙ single)
        (ap (λ r. w.find_client_ipc r.requesting_application_id) object ∙ ipc) in
    (
      t,
      rw (rejected_in_signal w p s st single undecided dq conn ans) e,
      r.queue ∙ back-queue p s u a,
      r.deleted ∙ ap (λ d. p ∷ d) (back-deleted p s u a),
      ap (λ r. r.state) (r.object ∙ object),
    )
