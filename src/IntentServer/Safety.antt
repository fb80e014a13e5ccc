-- ===== src/IntentServer/Safety.antt =====
-- The invariant over every event, and over every history of events.
use qtapplicationmanager.Prelude.{ℕ, zero, suc, ◌≡◌, refl, List, [], ◌∷◌, Option, some, arith, ◌∙◌}
use qtapplicationmanager.Qt.Variant.{VariantOps}
use qtapplicationmanager.IntentServer.State.{Server, World}
use qtapplicationmanager.IntentServer.Events.{
  Event, process, answer, started, replied, timeout, run_trigger, step, run,
}
use qtapplicationmanager.IntentServer.Invariant.{occurrences, Inv}
use qtapplicationmanager.IntentServer.Stages.{IsQuiet}
use qtapplicationmanager.IntentServer.Processing.{Settled, process_request_queue-Settled}
use qtapplicationmanager.IntentServer.Delivery.{
  IsProper, disambiguate-Settled, reply-Settled, timed_out-Settled,
}
use qtapplicationmanager.IntentServer.Starting.{started-Settled}

-- No answer acknowledges with a null intent, and none comes from within the signal.
abbrev pub IsFair : (World × Event) → Type 0
IsFair (w, answer a) = IsQuiet w × IsProper a
IsFair (w, process) = IsQuiet w
IsFair (w, started app) = IsQuiet w
IsFair (w, replied app id error result) = IsQuiet w
IsFair (w, timeout t) = IsQuiet w

abbrev pub Keeps : Server → Option Server → Type 0
Keeps s o = (t : Server) × (o ≡ some t) × Inv t × ((q : ℕ) → occurrences q t ≡ occurrences q s)

Settled-Inv : (s t : Server) → Inv s → Settled (λ q. occurrences q s) t → Inv t
Settled-Inv s t v h = record { fit = h.fit; single = λ q. omega (arith, h.held q, v.single q) }

run_trigger-Keeps :
    (n : ℕ) (w : World) (s : Server) → IsQuiet w → Inv s → Keeps s (run_trigger n w s)
run_trigger-Keeps zero w s quiet v = (s, refl, v, λ q. refl)
run_trigger-Keeps (suc n) w s quiet v =
    process_request_queue-Settled w (record s { triggers = n }) quiet
      (record {
        fit = record {
          queued = v.fit.queued;
          asked = v.fit.asked;
          starting = v.fit.starting;
          sent = v.fit.sent;
        };
        single = v.single;
      })

-- From a server in order, one event of which no receiver of the signal answers at once and which
-- does not acknowledge with a null intent runs to its end, leaves the server in order, and keeps
-- every request held (by a queue, or for its deletion) as often as it was.
pub step-Inv :
    (ops : VariantOps) (w : World) (e : Event) (s : Server)
    → IsFair (w, e)
    → Inv s
    → (t : Server) × (step ops w e s ≡ some t)
      × Inv t
      × ((q : ℕ) → occurrences q t ≡ occurrences q s)
unfolding step
step-Inv ops w process s fair v = run_trigger-Keeps s.triggers w s fair v
step-Inv ops w (answer a) s fair v =
    let (t, e, h) = disambiguate-Settled a s fair.1 v in (t, e, Settled-Inv s t v h, h.held)
step-Inv ops w (started app) s fair v =
    let (t, e, h) = started-Settled app s v in (t, e, Settled-Inv s t v h, h.held)
step-Inv ops w (replied app id error result) s fair v =
    let h = reply-Settled ops app id error result s v in (_, refl, Settled-Inv s _ v h, h.held)
step-Inv ops w (timeout t) s fair v =
    let h = timed_out-Settled w t s v in (_, refl, Settled-Inv s _ v h, h.held)

abbrev pub AllFair : List (World × Event) → Type 0
AllFair [] = Unit
AllFair (e ∷ events) = IsFair e × AllFair events

-- From a server in order, every history of events of which no receiver of the signal answers at once
-- and none acknowledges with a null intent runs to its end, leaves the server in order, and keeps
-- every request held (by a queue, or for its deletion) as often as it was.
pub run-Inv :
    (ops : VariantOps) (events : List (World × Event)) (s : Server)
    → AllFair events
    → Inv s
    → (t : Server) × (run ops events s ≡ some t)
      × Inv t
      × ((q : ℕ) → occurrences q t ≡ occurrences q s)
unfolding run
run-Inv ops [] s fair v = (s, refl, v, λ q. refl)
run-Inv ops ((w, e) ∷ events) s fair v =
    let (t, h, vt, same) = step-Inv ops w e s fair.0 v in
    let (u, k, vu, same') = run-Inv ops events t fair.1 vt in rw h (u, k, vu, λ q. same' q ∙ same q)
