-- ===== src/IntentServer/Invariant.antt =====
-- Who holds a request: every request is in one queue at most, in a state that fits the queue.
use qtapplicationmanager.Prelude.{
  ℕ, ◌+◌, ◌≤◌, ◌≡◌, ◌≢◌, sym, subst, true, [], is_some, arith, All, ◌==◌,
}
pub use qtapplicationmanager.Qt.Queue.{one_if, one_if_self, count, count-append}
pub use qtapplicationmanager.Qt.Heap.{update-other, update_self, All-update}
use qtapplicationmanager.IntentServer.State.{
  State, received_request, waiting_for_disambiguation, disambiguated, waiting_for_application_start,
  started_application, waiting_for_reply_from_application, received_reply_from_application, Request,
  Server, modify,
}

-- How often a request is held: by the queues, or for its deletion.
abbrev pub occurrences : ℕ → Server → ℕ
occurrences q s =
    count q s.request_queue
    + count q s.disambiguation_queue
    + count q s.starting_app_queue
    + count q s.sent_to_app_queue
    + count q s.delete_later

-- How far a request has come: which stage acts on it next, and 4 for none.
abbrev pub rank : State → ℕ
rank received_request = 0
rank disambiguated = 1
rank started_application = 2
rank received_reply_from_application = 3
rank waiting_for_disambiguation = 4
rank waiting_for_application_start = 4
rank waiting_for_reply_from_application = 4

-- A request that a stage of `processRequestQueue` can go on with.
abbrev pub ReadyIn : State → Request → Type 0
ReadyIn received_request r =
    (r.potential_intents ≢ []) × (r.broadcast ≡ true → is_some r.selected_intent ≡ true)
ReadyIn disambiguated r = is_some r.selected_intent ≡ true
ReadyIn started_application r = is_some r.selected_intent ≡ true
ReadyIn received_reply_from_application r = Unit
ReadyIn waiting_for_disambiguation r = ⊥
ReadyIn waiting_for_application_start r = ⊥
ReadyIn waiting_for_reply_from_application r = ⊥

abbrev pub Waits : State → Type 0
Waits waiting_for_disambiguation = Unit
Waits waiting_for_application_start = Unit
Waits waiting_for_reply_from_application = Unit
Waits received_request = ⊥
Waits disambiguated = ⊥
Waits started_application = ⊥
Waits received_reply_from_application = ⊥

abbrev pub Ready : Request → Type 0
Ready r = ReadyIn r.state r

abbrev pub Asked : Request → Type 0
Asked r = r.state ≡ waiting_for_disambiguation

abbrev pub Starting : Request → Type 0
Starting r = (r.state ≡ waiting_for_application_start) × (is_some r.selected_intent ≡ true)

abbrev pub Sent : Request → Type 0
Sent r = r.state ≡ waiting_for_reply_from_application

pub record QueuesFit (s : Server) : Type 0 where
  pub queued : All (λ p. Ready (s.isr p)) s.request_queue
  pub asked : All (λ p. Asked (s.isr p)) s.disambiguation_queue
  pub starting : All (λ p. Starting (s.isr p)) s.starting_app_queue
  pub sent : All (λ p. Sent (s.isr p)) s.sent_to_app_queue

pub record Inv (s : Server) : Type 0 where
  pub fit : QueuesFit s
  pub single : (q : ℕ) → occurrences q s ≤ 1

-- The request in hand: in no queue, at a stage `k` at least, with everything else in order. `total`
-- says how often each request is held, the one in hand counted.
pub record Hand (k p : ℕ) (total : ℕ → ℕ) (s : Server) : Type 0 where
  pub fit : QueuesFit s
  pub held : (q : ℕ) → occurrences q s + one_if (p == q) ≡ total q
  pub free : occurrences p s ≡ 0
  pub ready : Ready (s.isr p)
  pub reached : k ≤ rank (s.isr p).state

-- The request was put into one of the queues, and waits there.
pub record Placed (p : ℕ) (total : ℕ → ℕ) (s : Server) : Type 0 where
  pub fit : QueuesFit s
  pub held : (q : ℕ) → occurrences q s ≡ total q
  pub waits : Waits (s.isr p).state

pub promote :
    (j k p : ℕ) (total : ℕ → ℕ) (s : Server) (st : State)
    → (s.isr p).state ≡ st
    → (j ≤ rank st → k ≤ rank st)
    → Hand j p total s
    → Hand k p total s
promote j k p total s st e more h = record {
  fit = h.fit;
  held = h.held;
  free = h.free;
  ready = h.ready;
  reached = subst (λ x. k ≤ rank x) (sym e) (more (subst (λ x. j ≤ rank x) e h.reached));
}

-- Writing through the pointer in hand.
pub modify-fit :
    (p : ℕ) (f : Request → Request) (s : Server)
    → occurrences p s ≡ 0
    → QueuesFit s
    → QueuesFit (modify p f s)
modify-fit p f s h w = record {
  queued = All-update Ready s.isr p _ s.request_queue (omega arith) w.queued;
  asked = All-update Asked s.isr p _ s.disambiguation_queue (omega arith) w.asked;
  starting = All-update Starting s.isr p _ s.starting_app_queue (omega arith) w.starting;
  sent = All-update Sent s.isr p _ s.sent_to_app_queue (omega arith) w.sent;
}

pub modify-Hand :
    (j k p : ℕ) (total : ℕ → ℕ) (f : Request → Request) (s : Server)
    → Hand j p total s
    → Ready (f (s.isr p))
    → k ≤ rank (f (s.isr p)).state
    → Hand k p total (modify p f s)
modify-Hand j k p total f s h ready reached = record {
  fit = modify-fit p f s h.free h.fit;
  held = h.held;
  free = h.free;
  ready = subst Ready (sym (update_self s.isr p (f (s.isr p)))) ready;
  reached = subst (λ r. k ≤ rank r.state) (sym (update_self s.isr p (f (s.isr p)))) reached;
}
