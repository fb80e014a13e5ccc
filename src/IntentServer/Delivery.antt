-- ===== src/IntentServer/Delivery.antt =====
-- Answers, replies and timeouts: each takes one request out of its queue and enqueues it again.
use qtapplicationmanager.Prelude.{
  ℕ, ◌≡◌, refl, sym, subst, Bool, true, false, String, List, Option, none, some, is_some, arith,
  Bool-cases, Option-cases, ◌⊎◌, inl, inr,
}
use qtapplicationmanager.Prelude.Maybe.{◌>>=◌}
use qtapplicationmanager.Qt.Map.{QMap}
use qtapplicationmanager.Qt.Variant.{Variant, VariantOps}
use qtapplicationmanager.Intent.{Intent}
use qtapplicationmanager.IntentServer.State.{
  Request, disambiguated, received_reply_from_application, contains_intent, set_request_failed,
  set_state, set_selected_intent, Server, modify, Answer, World, Timer, disambiguation_timer,
  starting_app_timer, sent_to_app_timer, enqueue_request,
}
use qtapplicationmanager.IntentServer.Answers.{
  take_request, answer_request, internal_disambiguate_request,
}
use qtapplicationmanager.Qt.Queue.{holds}
use qtapplicationmanager.IntentServer.Events.{accept_reply, reply_from_application, timed_out}
use qtapplicationmanager.IntentServer.Invariant.{
  one_if_self, occurrences, Ready, ReadyIn, Asked, Starting, Sent, Inv,
}
use qtapplicationmanager.IntentServer.Processing.{Settled}
use qtapplicationmanager.IntentServer.Taking.{
  Taken, take_request-Taken, remove_one-Taken, enqueue-Settled,
}

-- The servers without the request that was taken out of one of the queues.
module _ (s : Server) (p : ℕ) (kept : List ℕ) (f : Request → Request) (v : Inv s) where
  from_disambiguation :
      Taken s.isr s.disambiguation_queue p kept
      → Ready (f (s.isr p))
      → Settled
          (λ q. occurrences q s)
          (enqueue_request p (modify p f (record s { disambiguation_queue = kept })))
  from_disambiguation t ready =
      enqueue-Settled p _ f _
        (record {
          queued = v.fit.queued;
          asked = (t.keeps Asked v.fit.asked).0;
          starting = v.fit.starting;
          sent = v.fit.sent;
        })
        (λ q. omega (arith, t.counts q)) (omega (arith, t.counts p, one_if_self p, v.single p))
        ready

  from_starting :
      Taken s.isr s.starting_app_queue p kept
      → Ready (f (s.isr p))
      → Settled
          (λ q. occurrences q s)
          (enqueue_request p (modify p f (record s { starting_app_queue = kept })))
  from_starting t ready =
      enqueue-Settled p _ f _
        (record {
          queued = v.fit.queued;
          asked = v.fit.asked;
          starting = (t.keeps Starting v.fit.starting).0;
          sent = v.fit.sent;
        })
        (λ q. omega (arith, t.counts q)) (omega (arith, t.counts p, one_if_self p, v.single p))
        ready

  from_sent :
      Taken s.isr s.sent_to_app_queue p kept
      → Ready (f (s.isr p))
      → Settled
          (λ q. occurrences q s)
          (enqueue_request p (modify p f (record s { sent_to_app_queue = kept })))
  from_sent t ready =
      enqueue-Settled p _ f _
        (record {
          queued = v.fit.queued;
          asked = v.fit.asked;
          starting = v.fit.starting;
          sent = (t.keeps Sent v.fit.sent).0;
        })
        (λ q. omega (arith, t.counts q)) (omega (arith, t.counts p, one_if_self p, v.single p))
        ready

unchanged : (s : Server) → Inv s → Settled (λ q. occurrences q s) s
unchanged s v = record { fit = v.fit; held = λ q. refl }

-- The System UI does not acknowledge with a null intent.
abbrev pub IsProper : Answer → Type 0
IsProper a = (a.reject ≡ true) ⊎ (is_some a.selected_intent ≡ true)

choose_ready :
    (i : Intent) (r : Request)
    → contains_intent r.potential_intents (some i) ≡ true
    → Ready (set_state disambiguated (set_selected_intent (some i) r))
unfolding set_selected_intent
choose_ready i r h = rw h refl

accept_ready :
    (ops : VariantOps) (app : String) (error : Bool) (result : QMap Variant) (r : Request)
    → (accept_reply ops app error result r).state ≡ received_reply_from_application
unfolding accept_reply
accept_ready ops app error result r = ground arith

-- What `answer_request` writes, if it does not fault.
answer-Settled :
    (reject : Bool) (selected : Option Intent) (s : Server) (p : ℕ) (kept : List ℕ)
    → (reject ≡ true) ⊎ (is_some selected ≡ true)
    → Inv s
    → Taken s.isr s.disambiguation_queue p kept
    → (t : Server) × ((answer_request p reject selected (record s { disambiguation_queue = kept })
          >>= λ u. some (enqueue_request p u))
        ≡ some t)
      × Settled (λ q. occurrences q s) t
unfolding answer_request
answer-Settled true selected s p kept proper v t =
    (_, refl, from_disambiguation s p kept (set_request_failed _) v t tt)
answer-Settled false none s p kept proper v t = absurd (ground arith)
answer-Settled false (some i) s p kept proper v t =
    elim (Bool-cases (contains_intent (s.isr p).potential_intents (some i))) [
      | inl known ↦ rw known (
        _,
        refl,
        from_disambiguation s p kept (λ r. set_state disambiguated (set_selected_intent (some i) r))
            v t (choose_ready i (s.isr p) known),
      )
      | inr other ↦ rw other (_, refl, from_disambiguation s p kept (set_request_failed _) v t tt)
    ]

pub disambiguate-Settled :
    (a : Answer) (s : Server)
    → IsProper a
    → Inv s
    → (t : Server) × (internal_disambiguate_request a s ≡ some t) × Settled (λ q. occurrences q s) t
unfolding internal_disambiguate_request
disambiguate-Settled a s proper v =
    elim (Option-cases (take_request s.isr a.request_id s.disambiguation_queue)) [
      | inl e ↦ rw (e, internal_disambiguate_request) (s, refl, unchanged s v)
      | inr ((p, kept), e) ↦
          rw (e, internal_disambiguate_request)
            (answer-Settled a.reject a.selected_intent s p kept proper v
              (take_request-Taken s.isr a.request_id s.disambiguation_queue p kept e).0)
    ]

pub reply-Settled :
    (ops : VariantOps) (app : String) (request_id : ℕ) (error : Bool) (result : QMap Variant)
    (s : Server)
    → Inv s
    → Settled (λ q. occurrences q s) (reply_from_application ops app request_id error result s)
unfolding reply_from_application
reply-Settled ops app request_id error result s v =
    elim (Option-cases (take_request s.isr request_id s.sent_to_app_queue)) [
      | inl e ↦ rw (e, reply_from_application) (unchanged s v)
      | inr ((p, kept), e) ↦
          rw (e, reply_from_application)
            (from_sent s p kept (accept_reply ops app error result) v
              (take_request-Taken s.isr request_id s.sent_to_app_queue p kept e).0
              (subst (λ st. ReadyIn st (accept_reply ops app error result (s.isr p)))
                (sym (accept_ready ops app error result (s.isr p))) tt))
    ]

pub timed_out-Settled :
    (w : World) (t : Timer) (s : Server) → Inv s → Settled (λ q. occurrences q s) (timed_out w t s)
unfolding timed_out
timed_out-Settled w (disambiguation_timer p) s v =
    elim (Bool-cases (holds p s.disambiguation_queue)) [
      | inl in' ↦ rw in' (
          from_disambiguation s p _ (set_request_failed _) v
            (remove_one-Taken s.isr p s.disambiguation_queue in') tt)
      | inr out ↦ rw out (unchanged s v)
    ]
timed_out-Settled w (starting_app_timer p) s v = elim (Bool-cases (holds p s.starting_app_queue)) [
  | inl in' ↦ rw in' (
      from_starting s p _ (set_request_failed _) v
        (remove_one-Taken s.isr p s.starting_app_queue in') tt)
  | inr out ↦ rw out (unchanged s v)
]
timed_out-Settled w (sent_to_app_timer p) s v = elim (Bool-cases (holds p s.sent_to_app_queue)) [
  | inl in' ↦ rw in' (
      from_sent s p _ (set_request_failed _) v (remove_one-Taken s.isr p s.sent_to_app_queue in')
        tt)
  | inr out ↦ rw out (unchanged s v)
]
