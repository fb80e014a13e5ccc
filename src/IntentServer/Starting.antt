-- ===== src/IntentServer/Starting.antt =====
-- The loop of `applicationWasStarted` faults nowhere and keeps every request.
use qtapplicationmanager.Prelude.{
  ℕ, ◌+◌, ◌≤◌, ◌≡◌, ◌≢◌, refl, sym, subst, ◌∙◌, Bool, true, false, ◌||◌, String, str_eq, List, [],
  ◌∷◌, Option, none, some, is_some, arith, All, if◌then◌else◌,
}
use mathlib.Core.Bool.{false≢true}
use qtapplicationmanager.Prelude.Maybe.{◌>>=◌}
use qtapplicationmanager.Intent.{Intent}
use qtapplicationmanager.IntentServer.State.{Server, trigger_request_queue}
use qtapplicationmanager.IntentServer.Events.{mark_started, start_waiting, application_was_started}
use qtapplicationmanager.IntentServer.Invariant.{
  one_if_self, count, count-append, occurrences, Ready, Asked, Starting, Sent, Inv, update-other,
  All-update,
}
use qtapplicationmanager.IntentServer.Placing.{All-place}
use qtapplicationmanager.IntentServer.Processing.{Settled}

-- How often a request is held outside the starting queue.
abbrev elsewhere : ℕ → Server → ℕ
elsewhere q s =
    count q s.request_queue
    + count q s.disambiguation_queue
    + count q s.sent_to_app_queue
    + count q s.delete_later

-- The state of the loop, with the part of the starting queue that it has not dropped.
record Loop (total : ℕ → ℕ) (s : Server) (queue : List ℕ) : Type 0 where
  queued : All (λ p. Ready (s.isr p)) s.request_queue
  asked : All (λ p. Asked (s.isr p)) s.disambiguation_queue
  starting : All (λ p. Starting (s.isr p)) queue
  sent : All (λ p. Sent (s.isr p)) s.sent_to_app_queue
  held : (q : ℕ) → elsewhere q s + count q queue ≡ total q
  single : (q : ℕ) → total q ≤ 1

started-Loop :
    (total : ℕ → ℕ) (s : Server) (p : ℕ) (queue : List ℕ)
    → Loop total s (p ∷ queue)
    → Loop total (mark_started p s) queue
started-Loop total s p queue l = record {
  queued =
      All-place Ready s.isr p _ s.request_queue (omega (arith, l.held p, l.single p, one_if_self p))
        l.starting.0.1 l.queued;
  asked =
      All-update Asked s.isr p _ s.disambiguation_queue
        (omega (arith, l.held p, l.single p, one_if_self p)) l.asked;
  starting =
      All-update Starting s.isr p _ queue (omega (arith, l.held p, l.single p, one_if_self p))
        l.starting.1;
  sent =
      All-update Sent s.isr p _ s.sent_to_app_queue
        (omega (arith, l.held p, l.single p, one_if_self p)) l.sent;
  held = λ q. omega (arith, l.held q, count-append q s.request_queue (p ∷ []));
  single = l.single;
}

-- A request that does not match stays: the loop goes on with the rest.
skipped-Loop :
    (total : ℕ → ℕ) (s : Server) (p : ℕ) (queue : List ℕ)
    → Loop total s (p ∷ queue)
    → Loop (λ q. elsewhere q s + count q queue) s queue
skipped-Loop total s p queue l = record {
  queued = l.queued;
  asked = l.asked;
  starting = l.starting.1;
  sent = l.sent;
  held = λ q. refl;
  single = λ q. omega (arith, l.held q, l.single q);
}

kept-Loop :
    (total : ℕ → ℕ) (s t : Server) (p : ℕ) (queue kept : List ℕ)
    → Loop total s (p ∷ queue)
    → Loop (λ q. elsewhere q s + count q queue) t kept
    → t.isr p ≡ s.isr p
    → Loop total t (p ∷ kept)
kept-Loop total s t p queue kept l m e = record {
  queued = m.queued;
  asked = m.asked;
  starting = (subst Starting (sym e) l.starting.0, m.starting);
  sent = m.sent;
  held = λ q. omega (arith, l.held q, m.held q);
  single = l.single;
}

-- The loop returns, and writes only through the pointers that it was given.
abbrev Ends : (ℕ → ℕ) → Server → List ℕ → Option (Server × List ℕ × Bool) → Type 0
Ends total s queue o =
    (r : Server × List ℕ × Bool) × (o ≡ some r)
    × Loop total r.0 r.1
    × ((q : ℕ) → count q queue ≡ 0 → r.0.isr q ≡ s.isr q)

not_head : (p q : ℕ) (queue : List ℕ) → count q (p ∷ queue) ≡ 0 → q ≢ p
not_head p q queue h = ground arith

turn-Ends :
    (hit : Bool) (app : String) (p : ℕ) (queue : List ℕ) (total : ℕ → ℕ) (s : Server)
    → ((rest : ℕ → ℕ) (u : Server)
        → Loop rest u queue
        → Ends rest u queue (start_waiting app queue u))
    → Loop total s (p ∷ queue)
    → Ends total s (p ∷ queue) (
        start_waiting app queue (if hit then mark_started p s else s) >>= λ (t, kept, found_one).
        some (t, (if hit then kept else p ∷ kept), hit || found_one))
turn-Ends true app p queue total s ih l =
    let ((t, kept, found), e, m, frame) =
      ih total (mark_started p s) (started-Loop total s p queue l) in
    rw e
      (_, refl, m, λ q h. frame q (omega arith) ∙ update-other s.isr p _ q (not_head p q queue h))
turn-Ends false app p queue total s ih l =
    let ((t, kept, found), e, m, frame) =
      ih (λ q. elsewhere q s + count q queue) s (skipped-Loop total s p queue l) in
    rw e (
      _,
      refl,
      kept-Loop total s t p queue kept l m
          (frame p (omega (arith, l.held p, l.single p, one_if_self p))),
      λ q h. frame q (omega arith),
    )

-- The turn for `selectedIntent()`, which is not null in the starting queue.
selected-Ends :
    (o : Option Intent) (app : String) (p : ℕ) (queue : List ℕ) (total : ℕ → ℕ) (s : Server)
    → is_some o ≡ true
    → ((rest : ℕ → ℕ) (u : Server)
        → Loop rest u queue
        → Ends rest u queue (start_waiting app queue u))
    → Loop total s (p ∷ queue)
    → Ends total s (p ∷ queue) (
        o >>= λ i.
        let hit = str_eq i.application_id app in
        start_waiting app queue (if hit then mark_started p s else s) >>= λ (t, kept, found_one).
        some (t, (if hit then kept else p ∷ kept), hit || found_one))
selected-Ends none app p queue total s known ih l = absurd (false≢true known)
selected-Ends (some i) app p queue total s known ih l =
    turn-Ends (str_eq i.application_id app) app p queue total s ih l

start_waiting-Ends :
    (app : String) (queue : List ℕ) (total : ℕ → ℕ) (s : Server)
    → Loop total s queue
    → Ends total s queue (start_waiting app queue s)
unfolding start_waiting
start_waiting-Ends app [] total s l = ((s, [], false), refl, l, λ q h. refl)
start_waiting-Ends app (p ∷ queue) total s l =
    selected-Ends (s.isr p).selected_intent app p queue total s l.starting.0.1
      (start_waiting-Ends app queue) l

finish-Settled :
    (b : Bool) (total : ℕ → ℕ) (t : Server) (kept : List ℕ)
    → Loop total t kept
    → let u = record t { starting_app_queue = kept } in
      Settled total (if b then trigger_request_queue u else u)
finish-Settled true total t kept l = record {
  fit = record { queued = l.queued; asked = l.asked; starting = l.starting; sent = l.sent };
  held = λ q. omega (arith, l.held q);
}
finish-Settled false total t kept l = record {
  fit = record { queued = l.queued; asked = l.asked; starting = l.starting; sent = l.sent };
  held = λ q. omega (arith, l.held q);
}

pub started-Settled :
    (app : String) (s : Server)
    → Inv s
    → (t : Server) × (application_was_started app s ≡ some t) × Settled (λ q. occurrences q s) t
unfolding application_was_started
started-Settled app s v =
    let ((t, kept, found), e, l, frame) =
      start_waiting-Ends app s.starting_app_queue (λ q. occurrences q s) s
        (record {
          queued = v.fit.queued;
          asked = v.fit.asked;
          starting = v.fit.starting;
          sent = v.fit.sent;
          held = λ q. omega arith;
          single = v.single;
        }) in
    rw e (_, refl, finish-Settled found _ t kept l)
