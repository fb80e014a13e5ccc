-- ===== src/IntentServer/Liveness.antt =====
-- The posted calls of `processRequestQueue`: none is forgotten, and they empty the queue.
use qtapplicationmanager.Prelude.{
  ℕ, zero, suc, ◌<◌, ◌≡◌, refl, subst, ◌⊎◌, inl, inr, Bool, true, false, ◌||◌, String, str_eq, List,
  [], ◌∷◌, some, Option-cases, arith, if◌then◌else◌,
}
use mathlib.Core.Option.{some-injective}
use qtapplicationmanager.Prelude.Maybe.{◌>>=◌, >>=-eq-some}
use qtapplicationmanager.Qt.Map.{QMap}
use qtapplicationmanager.Qt.Variant.{Variant, VariantOps}
use qtapplicationmanager.IntentServer.State.{
  Answer, Server, World, Timer, disambiguation_timer, starting_app_timer, sent_to_app_timer,
  enqueue_request, trigger_request_queue,
}
use qtapplicationmanager.IntentServer.Answers.{
  take_request, answer_request, internal_disambiguate_request,
}
use qtapplicationmanager.IntentServer.Process.{process_taken, process_request_queue}
use qtapplicationmanager.IntentServer.Events.{
  Event, process, answer, started, replied, timeout, mark_started, start_waiting,
  application_was_started, reply_from_application, timed_out, run_trigger, step,
}
use qtapplicationmanager.IntentServer.Posting.{SameQueue, process-posts}

-- While a request is queued, a call of `processRequestQueue` is posted.
abbrev pub IsAwake : Server → Type 0
IsAwake s = (s.request_queue ≡ []) ⊎ (0 < s.triggers)

enqueue-IsAwake : (p : ℕ) (s : Server) → IsAwake (enqueue_request p s)
unfolding enqueue_request
enqueue-IsAwake p s = inr (omega arith)

disambiguate-IsAwake :
    (a : Answer) (s t : Server) → IsAwake s → internal_disambiguate_request a s ≡ some t → IsAwake t
unfolding internal_disambiguate_request
disambiguate-IsAwake a s t h e =
    elim (Option-cases (take_request s.isr a.request_id s.disambiguation_queue)) [
      | inl f ↦ subst IsAwake (some-injective _ _ (rw (f, internal_disambiguate_request) at e)) h
      | inr ((p, kept), f) ↦
          let (u, _, g) =
            >>=-eq-some
              (answer_request p a.reject a.selected_intent
                (record s { disambiguation_queue = kept }))
              (λ v. some (enqueue_request p v)) (rw (f, internal_disambiguate_request) at e) in
          subst IsAwake (some-injective _ _ g) (enqueue-IsAwake p u)
    ]

timed_out-IsAwake : (w : World) (k : Timer) (s : Server) → IsAwake s → IsAwake (timed_out w k s)
unfolding timed_out
timed_out-IsAwake w (disambiguation_timer p) s h = ground arith
timed_out-IsAwake w (starting_app_timer p) s h = ground arith
timed_out-IsAwake w (sent_to_app_timer p) s h = ground arith

turn-found :
    (hit : Bool) (app : String) (p : ℕ) (queue : List ℕ) (s t : Server) (kept : List ℕ)
    (found : Bool)
    → ((u v : Server) (left : List ℕ) (b : Bool)
        → start_waiting app queue u ≡ some (v, left, b)
        → (b ≡ true) ⊎ SameQueue u v)
    → ◌>>=◌ {B = Server × List ℕ × Bool}
        (start_waiting app queue (if hit then mark_started p s else s))
        (λ (u, left, b). some (u, (if hit then left else p ∷ left), hit || b))
      ≡ some (t, kept, found)
    → (found ≡ true) ⊎ SameQueue s t
turn-found true app p queue s t kept found ih e =
    let (r, f, g) = >>=-eq-some (start_waiting app queue (mark_started p s)) _ e in
    inl (ground arith)
turn-found false app p queue s t kept found ih e =
    let (r, f, g) = >>=-eq-some (start_waiting app queue s) _ e in
    elim (ih s r.0 r.1 r.2 f) [ inl b ↦ inl (ground arith) | inr same ↦ inr (ground arith) ]

-- The loop of `applicationWasStarted` queues a request only if it says so.
start_waiting-found :
    (app : String) (queue : List ℕ) (s t : Server) (kept : List ℕ) (found : Bool)
    → start_waiting app queue s ≡ some (t, kept, found)
    → (found ≡ true) ⊎ SameQueue s t
unfolding start_waiting
start_waiting-found app [] s t kept found e = inr (ground arith)
start_waiting-found app (p ∷ queue) s t kept found e =
    let (i, known, e') = >>=-eq-some (s.isr p).selected_intent _ e in
    turn-found (str_eq i.application_id app) app p queue s t kept found
      (start_waiting-found app queue) e'

finish-IsAwake :
    (b : Bool) (s u : Server) (kept : List ℕ)
    → (b ≡ true) ⊎ SameQueue s u
    → IsAwake s
    → let v = record u { starting_app_queue = kept } in
      IsAwake (if b then trigger_request_queue v else v)
finish-IsAwake true s u kept h awake = inr (omega arith)
finish-IsAwake false s u kept h awake = ground arith

started-IsAwake :
    (app : String) (s t : Server) → IsAwake s → application_was_started app s ≡ some t → IsAwake t
unfolding application_was_started
started-IsAwake app s t h e =
    let (r, f, g) = >>=-eq-some (start_waiting app s.starting_app_queue s) _ e in
    subst IsAwake (some-injective _ _ g) (
      finish-IsAwake r.2 s r.0 r.1 (start_waiting-found app s.starting_app_queue s r.0 r.1 r.2 f) h)

reply-IsAwake :
    (ops : VariantOps) (app : String) (request_id : ℕ) (error : Bool) (result : QMap Variant)
    (s : Server)
    → IsAwake s
    → IsAwake (reply_from_application ops app request_id error result s)
unfolding reply_from_application
reply-IsAwake ops app request_id error result s h = ground arith

run_trigger-IsAwake :
    (w : World) (queue : List ℕ) (n : ℕ) (s t : Server)
    → s.request_queue ≡ queue
    → process_taken w queue (record s { triggers = n }) ≡ some t
    → IsAwake t
unfolding process_taken
run_trigger-IsAwake w [] n s t q e = inl (ground arith)
run_trigger-IsAwake w (p ∷ rest) n s t q e = inr (process-posts w p _ t e)

trigger-IsAwake :
    (n : ℕ) (w : World) (s t : Server) → IsAwake s → run_trigger n w s ≡ some t → IsAwake t
unfolding process_request_queue
trigger-IsAwake zero w s t h e = subst IsAwake (some-injective _ _ e) h
trigger-IsAwake (suc n) w s t h e = run_trigger-IsAwake w s.request_queue n s t refl e

-- When every queued request has a posted call of `processRequestQueue` to come, that is still so
-- after any event that runs to its end, whatever the receivers of the signal answer.
pub step-IsAwake :
    (ops : VariantOps) (w : World) (e : Event) (s t : Server)
    → IsAwake s
    → step ops w e s ≡ some t
    → IsAwake t
unfolding step
step-IsAwake ops w process s t h e = trigger-IsAwake s.triggers w s t h e
step-IsAwake ops w (answer a) s t h e = disambiguate-IsAwake a s t h e
step-IsAwake ops w (started app) s t h e = started-IsAwake app s t h e
step-IsAwake ops w (replied app id error result) s t h e =
    subst IsAwake (some-injective _ _ e) (reply-IsAwake ops app id error result s h)
step-IsAwake ops w (timeout k) s t h e =
    subst IsAwake (some-injective _ _ e) (timed_out-IsAwake w k s h)
