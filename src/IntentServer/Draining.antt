-- ===== src/IntentServer/Draining.antt =====
-- The posted calls of `processRequestQueue` work the queue off.
use qtapplicationmanager.Prelude.{
  ℕ, zero, suc, ◌≤◌, ◌≡◌, refl, ap, List, [], ◌∷◌, Option, some, arith, length,
}
use qtapplicationmanager.Qt.Variant.{VariantOps}
use qtapplicationmanager.IntentServer.State.{Server, World}
use qtapplicationmanager.IntentServer.Process.{process_taken, process_request_queue}
use qtapplicationmanager.IntentServer.Events.{Event, process, run_trigger, step, run}
use qtapplicationmanager.IntentServer.Invariant.{Inv}
use qtapplicationmanager.IntentServer.Stages.{IsQuiet}
use qtapplicationmanager.IntentServer.Safety.{step-Inv}
use qtapplicationmanager.IntentServer.Posting.{process_request-queue}
use qtapplicationmanager.IntentServer.Liveness.{IsAwake, step-IsAwake}

-- n turns of the event loop that deliver a posted call each.
abbrev pub turns : ℕ → World → List (World × Event)
turns zero w = []
turns (suc n) w = (w, process) ∷ turns n w

taken-shorter :
    (w : World) (queue : List ℕ) (n m : ℕ) (s t : Server)
    → IsQuiet w
    → length queue ≤ suc m
    → process_taken w queue (record s { triggers = n }) ≡ some t
    → s.request_queue ≡ queue
    → length t.request_queue ≤ m
unfolding process_taken
taken-shorter w [] n m s t quiet short e q = ground arith
taken-shorter w (p ∷ rest) n m s t quiet short e q =
    let (same, _) = process_request-queue w p _ t quiet e in omega (arith, ap length same)

trigger-shorter :
    (n : ℕ) (w : World) (m : ℕ) (s t : Server)
    → s.triggers ≡ n
    → IsQuiet w
    → IsAwake s
    → length s.request_queue ≤ suc m
    → run_trigger n w s ≡ some t
    → length t.request_queue ≤ m
unfolding process_request_queue
trigger-shorter zero w m s t k quiet awake short e = ground arith
trigger-shorter (suc n) w m s t k quiet awake short e =
    taken-shorter w s.request_queue n m s t quiet short e refl

step-shorter :
    (ops : VariantOps) (w : World) (m : ℕ) (s t : Server)
    → IsQuiet w
    → IsAwake s
    → length s.request_queue ≤ suc m
    → step ops w process s ≡ some t
    → length t.request_queue ≤ m
unfolding step
step-shorter ops w m s t quiet awake short e =
    trigger-shorter s.triggers w m s t refl quiet awake short e

no_length : (xs : List ℕ) → length xs ≤ 0 → xs ≡ []
no_length [] h = refl
no_length (x ∷ xs) h = absurd (omega arith)

-- The events run to the end, and leave the request queue empty.
abbrev pub Empties : Option Server → Type 0
Empties o = (t : Server) × (o ≡ some t) × (t.request_queue ≡ [])

-- From a server in order where a queued request has a posted call to come, and with no receiver of
-- the signal that answers at once, at least as many turns of the event loop as there are queued
-- requests run to the end and leave the request queue empty.
pub run-Empties :
    (ops : VariantOps) (w : World) (n : ℕ) (s : Server)
    → IsQuiet w
    → Inv s
    → IsAwake s
    → length s.request_queue ≤ n
    → Empties (run ops (turns n w) s)
unfolding run
run-Empties ops w zero s quiet v awake short = (s, refl, no_length s.request_queue short)
run-Empties ops w (suc n) s quiet v awake short =
    let (t, e, vt, _) = step-Inv ops w process s quiet v in
    let (u, f, empty) =
      run-Empties ops w n t quiet vt (step-IsAwake ops w process s t awake e)
        (step-shorter ops w n s t quiet awake short e) in
    rw e (u, f, empty)
