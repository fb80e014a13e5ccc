-- ===== src/IntentServer/Processing.antt =====
-- `processRequestQueue` as a whole: it faults nowhere and loses no request.
use qtapplicationmanager.Prelude.{
  ℕ, Bool, true, false, if◌then◌else◌, ◌≤◌, ◌≡◌, refl, subst, inl, inr, List, [], ◌∷◌, Option, some,
  arith, All, ap,
}
use qtapplicationmanager.Prelude.Maybe.{◌>>=◌}
use qtapplicationmanager.IntentServer.State.{
  State, disambiguated, started_application, received_reply_from_application, Message, send, Server,
  World, trigger_request_queue,
}
use qtapplicationmanager.IntentServer.Process.{
  start_app_in, send_out_in, send_reply_in, process_request, process_taken, process_request_queue,
}
use qtapplicationmanager.IntentServer.Invariant.{
  one_if_self, occurrences, rank, Waits, Ready, ReadyIn, count, QueuesFit, Inv, Hand, Placed,
}
use qtapplicationmanager.IntentServer.Stages.{Outcome, IsQuiet, disambiguate-Outcome}
use qtapplicationmanager.IntentServer.Sending.{start_app-Outcome, send_out-Outcome}

-- The later stages leave a request alone that waits.
start_app-Waits :
    (w : World) (p : ℕ) (s : Server) (st : State) → Waits st → start_app_in st w p s ≡ some s
unfolding start_app_in
start_app-Waits w p s disambiguated h = absurd h
start_app-Waits w p s st h = refl

send_out-Waits :
    (w : World) (p : ℕ) (s : Server) (st : State) → Waits st → send_out_in st w p s ≡ some s
unfolding send_out_in
send_out-Waits w p s started_application h = absurd h
send_out-Waits w p s st h = refl

send_reply-Waits :
    (w : World) (p : ℕ) (s : Server) (st : State) → Waits st → send_reply_in st w p s ≡ s
unfolding send_reply_in
send_reply-Waits w p s received_reply_from_application h = absurd h
send_reply-Waits w p s st h = refl

-- Every request is held as often as `total` says, and the queues are in order.
pub record Settled (total : ℕ → ℕ) (s : Server) : Type 0 where
  pub fit : QueuesFit s
  pub held : (q : ℕ) → occurrences q s ≡ total q

trigger-Settled :
    (total : ℕ → ℕ) (s : Server) → Settled total s → Settled total (trigger_request_queue s)
trigger-Settled total s h = record {
  fit = record {
    queued = h.fit.queued;
    asked = h.fit.asked;
    starting = h.fit.starting;
    sent = h.fit.sent;
  };
  held = h.held;
}

Placed-Settled : (p : ℕ) (total : ℕ → ℕ) (s : Server) → Placed p total s → Settled total s
Placed-Settled p total s h = record { fit = h.fit; held = h.held }

release-Settled :
    (b : Bool) (m : Message) (p : ℕ) (total : ℕ → ℕ) (s : Server)
    → Hand 3 p total s
    → let t = if b then send m s else s in
      Settled total (record t { delete_later = p ∷ t.delete_later })
release-Settled true m p total s h = record {
  fit = record {
    queued = h.fit.queued;
    asked = h.fit.asked;
    starting = h.fit.starting;
    sent = h.fit.sent;
  };
  held = λ q. omega (arith, h.held q);
}
release-Settled false m p total s h = record {
  fit = record {
    queued = h.fit.queued;
    asked = h.fit.asked;
    starting = h.fit.starting;
    sent = h.fit.sent;
  };
  held = λ q. omega (arith, h.held q);
}

-- Step 5 lets go of a request that came through to it.
send_reply-Settled :
    (w : World) (p : ℕ) (total : ℕ → ℕ) (s : Server) (st : State)
    → (s.isr p).state ≡ st
    → Hand 3 p total s
    → Settled total (send_reply_in st w p s)
unfolding send_reply_in
send_reply-Settled w p total s received_reply_from_application e h = release-Settled _ _ p total s h
send_reply-Settled w p total s st e h =
    let ready : ReadyIn st (s.isr p) = subst (λ x. ReadyIn x (s.isr p)) e h.ready in
    let reached : 3 ≤ rank st = subst (λ x. 3 ≤ rank x) e h.reached in absurd (ground arith)

-- What is left of the call, for the result of each stage.
abbrev Finishes : (ℕ → ℕ) → Option Server → Type 0
Finishes total o = (t : Server) × (o ≡ some t) × Settled total t

finish_reply :
    (w : World) (p : ℕ) (total : ℕ → ℕ) (o : Option Server)
    → Outcome 3 p total o
    → Finishes total (o >>= λ v. some (trigger_request_queue (send_reply_in (v.isr p).state w p v)))
finish_reply w p total o (v, e, inl h) =
    rw e (_, refl, trigger-Settled total _ (send_reply-Settled w p total v (v.isr p).state refl h))
finish_reply w p total o (v, e, inr h) =
    rw (e, send_reply-Waits w p v (v.isr p).state h.waits)
      (_, refl, trigger-Settled total v (Placed-Settled p total v h))

finish_send_out :
    (w : World) (p : ℕ) (total : ℕ → ℕ) (o : Option Server)
    → Outcome 2 p total o
    → Finishes total (
        o >>= λ u. send_out_in (u.isr p).state w p u >>= λ v.
        some (trigger_request_queue (send_reply_in (v.isr p).state w p v)))
finish_send_out w p total o (u, e, inl h) =
    rw e (finish_reply w p total _ (send_out-Outcome w p total u (u.isr p).state refl h))
finish_send_out w p total o (u, e, inr h) =
    rw (e, send_out-Waits w p u (u.isr p).state h.waits)
      (finish_reply w p total (some u) (u, refl, inr h))

finish_start_app :
    (w : World) (p : ℕ) (total : ℕ → ℕ) (o : Option Server)
    → Outcome 1 p total o
    → Finishes total (
        o >>= λ t. start_app_in (t.isr p).state w p t >>= λ u.
        send_out_in (u.isr p).state w p u >>= λ v.
        some (trigger_request_queue (send_reply_in (v.isr p).state w p v)))
finish_start_app w p total o (t, e, inl h) =
    rw e (finish_send_out w p total _ (start_app-Outcome w p total t (t.isr p).state refl h))
finish_start_app w p total o (t, e, inr h) =
    rw (e, start_app-Waits w p t (t.isr p).state h.waits)
      (finish_send_out w p total (some t) (t, refl, inr h))

process_request-Settled :
    (w : World) (p : ℕ) (total : ℕ → ℕ) (s : Server)
    → IsQuiet w
    → Hand 0 p total s
    → Finishes total (process_request w p s)
unfolding process_request
process_request-Settled w p total s quiet h =
    finish_start_app w p total _ (disambiguate-Outcome w p total s (s.isr p).state quiet refl h)

-- The head of the queue, taken in hand.
take_head :
    (s : Server) (p : ℕ) (rest : List ℕ)
    → Inv s
    → s.request_queue ≡ p ∷ rest
    → Hand 0 p (λ q. occurrences q s) (record s { request_queue = rest })
take_head s p rest v e =
    let queued : Ready (s.isr p) × All (λ q. Ready (s.isr q)) rest =
      subst (All (λ q. Ready (s.isr q))) e v.fit.queued in
    record {
      fit = record {
        queued = queued.1;
        asked = v.fit.asked;
        starting = v.fit.starting;
        sent = v.fit.sent;
      };
      held = λ q. omega (arith, ap (count q) e);
      free = omega (arith, ap (count p) e, v.single p, one_if_self p);
      ready = queued.0;
      reached = omega arith;
    }

process_taken-Settled :
    (w : World) (s : Server) (queue : List ℕ)
    → IsQuiet w
    → s.request_queue ≡ queue
    → Inv s
    → Finishes (λ q. occurrences q s) (process_taken w queue s)
unfolding process_taken
process_taken-Settled w s [] quiet e v = (s, refl, record { fit = v.fit; held = λ q. refl })
process_taken-Settled w s (p ∷ rest) quiet e v =
    process_request-Settled w p (λ q. occurrences q s) _ quiet (take_head s p rest v e)

-- `processRequestQueue` dereferences no null pointer, keeps the queues in order, and loses no request
-- and makes none up.
pub process_request_queue-Settled :
    (w : World) (s : Server)
    → IsQuiet w
    → Inv s
    → (t : Server) × (process_request_queue w s ≡ some t)
      × Inv t
      × ((q : ℕ) → occurrences q t ≡ occurrences q s)
unfolding process_request_queue
process_request_queue-Settled w s quiet v =
    let (t, e, h) = process_taken-Settled w s s.request_queue quiet refl v in
    (t, e, record { fit = h.fit; single = λ q. omega (arith, h.held q, v.single q) }, h.held)
