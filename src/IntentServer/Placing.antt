-- ===== src/IntentServer/Placing.antt =====
-- A stage that puts the request in hand at the end of a queue keeps the queues in order.
use qtapplicationmanager.Prelude.{
  ℕ, ◌≡◌, refl, sym, subst, Bool, true, false, List, [], ◌∷◌, ◌++◌, is_some, arith, All, All-append,
  if◌then◌else◌,
}
use qtapplicationmanager.IntentServer.State.{
  waiting_for_disambiguation, waiting_for_application_start, waiting_for_reply_from_application,
  Request, Server, update, modify, set_state, Message, Timer, send, start_timer,
}
use qtapplicationmanager.IntentServer.Invariant.{
  count, count-append, Ready, Waits, Asked, Starting, Sent, update_self, All-update, Hand, Placed,
}

pub send-Placed :
    (m : Message) (p : ℕ) (total : ℕ → ℕ) (s : Server)
    → Placed p total s
    → Placed p total (send m s)
send-Placed m p total s h = record {
  fit = record {
    queued = h.fit.queued;
    asked = h.fit.asked;
    starting = h.fit.starting;
    sent = h.fit.sent;
  };
  held = h.held;
  waits = h.waits;
}

pub timed-Placed :
    (b : Bool) (t : Timer) (p : ℕ) (total : ℕ → ℕ) (s : Server)
    → Placed p total s
    → Placed p total (if b then start_timer t s else s)
timed-Placed false t p total s h = h
timed-Placed true t p total s h = record {
  fit = record {
    queued = h.fit.queued;
    asked = h.fit.asked;
    starting = h.fit.starting;
    sent = h.fit.sent;
  };
  held = h.held;
  waits = h.waits;
}

-- A queue that gets the pointer in hand at its end, with the request written through it.
pub All-place :
    (P : Request → Type 0) (isr : ℕ → Request) (p : ℕ) (r : Request) (ps : List ℕ)
    → count p ps ≡ 0
    → P r
    → All (λ q. P (isr q)) ps
    → All (λ q. P (update isr p r q)) (ps ++ p ∷ [])
All-place P isr p r ps h here a =
    All-append (λ q. P (update isr p r q)) ps (p ∷ []) (All-update P isr p r ps h a)
      (subst P (sym (update_self isr p r)) here, tt)

module _ (k p : ℕ) (total : ℕ → ℕ) (s : Server) (h : Hand k p total s) where
  pub place_asked : Placed p total (
      modify p
        (set_state waiting_for_disambiguation)
        (record s { disambiguation_queue = s.disambiguation_queue ++ p ∷ [] }))
  place_asked = record {
    fit = record {
      queued = All-update Ready s.isr p _ s.request_queue (omega (arith, h.free)) h.fit.queued;
      asked =
          All-place Asked s.isr p _ s.disambiguation_queue (omega (arith, h.free)) refl h.fit.asked;
      starting =
          All-update Starting s.isr p _ s.starting_app_queue (omega (arith, h.free)) h.fit.starting;
      sent = All-update Sent s.isr p _ s.sent_to_app_queue (omega (arith, h.free)) h.fit.sent;
    };
    held = λ q. omega (arith, h.held q, count-append q s.disambiguation_queue (p ∷ []));
    waits = subst (λ r. Waits r.state) (sym (update_self s.isr p _)) tt;
  }

  pub place_starting :
      is_some (s.isr p).selected_intent ≡ true
      → Placed p total (
          modify p
            (set_state waiting_for_application_start)
            (record s { starting_app_queue = s.starting_app_queue ++ p ∷ [] }))
  place_starting selected = record {
    fit = record {
      queued = All-update Ready s.isr p _ s.request_queue (omega (arith, h.free)) h.fit.queued;
      asked = All-update Asked s.isr p _ s.disambiguation_queue (omega (arith, h.free)) h.fit.asked;
      starting =
          All-place Starting s.isr p _ s.starting_app_queue (omega (arith, h.free)) (refl, selected)
            h.fit.starting;
      sent = All-update Sent s.isr p _ s.sent_to_app_queue (omega (arith, h.free)) h.fit.sent;
    };
    held = λ q. omega (arith, h.held q, count-append q s.starting_app_queue (p ∷ []));
    waits = subst (λ r. Waits r.state) (sym (update_self s.isr p _)) tt;
  }

  pub place_sent : Placed p total (
      modify p
        (set_state waiting_for_reply_from_application)
        (record s { sent_to_app_queue = s.sent_to_app_queue ++ p ∷ [] }))
  place_sent = record {
    fit = record {
      queued = All-update Ready s.isr p _ s.request_queue (omega (arith, h.free)) h.fit.queued;
      asked = All-update Asked s.isr p _ s.disambiguation_queue (omega (arith, h.free)) h.fit.asked;
      starting =
          All-update Starting s.isr p _ s.starting_app_queue (omega (arith, h.free)) h.fit.starting;
      sent = All-place Sent s.isr p _ s.sent_to_app_queue (omega (arith, h.free)) refl h.fit.sent;
    };
    held = λ q. omega (arith, h.held q, count-append q s.sent_to_app_queue (p ∷ []));
    waits = subst (λ r. Waits r.state) (sym (update_self s.isr p _)) tt;
  }
