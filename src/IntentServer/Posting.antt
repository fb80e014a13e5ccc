-- ===== src/IntentServer/Posting.antt =====
-- A call of `processRequestQueue` that finds a request posts the next call, and leaves the rest of the
-- queue as it was.
use qtapplicationmanager.Prelude.{
  ℕ, suc, ◌<◌, ◌≡◌, refl, ◌∙◌, Bool, true, false, Option, some, arith, not, ◌&&◌, is_some,
  if◌then◌else◌,
}
use qtapplicationmanager.Prelude.Maybe.{>>=-eq-some}
use qtapplicationmanager.Intent.{Intent}
use qtapplicationmanager.IntentServer.State.{
  State, received_request, disambiguated, started_application, received_reply_from_application,
  Server, World,
}
use qtapplicationmanager.IntentServer.Answers.{answer_request}
use qtapplicationmanager.IntentServer.Process.{
  mark_disambiguated, ask_for_disambiguation, disambiguate_in, start_app_in, send_out_in,
  send_reply_in, process_request,
}
use qtapplicationmanager.IntentServer.Stages.{IsQuiet}

-- The two fields that matter here are the same.
abbrev pub SameQueue : Server → Server → Type 0
SameQueue s t = (t.request_queue ≡ s.request_queue) × (t.triggers ≡ s.triggers)

answer-SameQueue :
    (p : ℕ) (reject : Bool) (selected : Option Intent) (s t : Server)
    → answer_request p reject selected s ≡ some t
    → SameQueue s t
unfolding answer_request
answer-SameQueue p reject selected s t e = ground arith

ask-SameQueue :
    (w : World) (p : ℕ) (s t : Server)
    → IsQuiet w
    → ask_for_disambiguation w p s ≡ some t
    → SameQueue s t
unfolding ask_for_disambiguation
ask-SameQueue w p s t quiet e = ground (arith, quiet (s.isr p).id)

mark-SameQueue : (p : ℕ) (s t : Server) → some (mark_disambiguated p s) ≡ some t → SameQueue s t
mark-SameQueue p s t e = ground arith

asked-SameQueue :
    (b : Bool) (w : World) (p : ℕ) (s t : Server)
    → IsQuiet w
    → (if b then ask_for_disambiguation w p s else some s) ≡ some t
    → SameQueue s t
asked-SameQueue true w p s t quiet e = ask-SameQueue w p s t quiet e
asked-SameQueue false w p s t quiet e = ground arith

disambiguate-SameQueue :
    (w : World) (p : ℕ) (s t : Server) (st : State)
    → IsQuiet w
    → disambiguate_in st w p s ≡ some t
    → SameQueue s t
unfolding disambiguate_in
disambiguate-SameQueue w p s t received_request quiet e =
    let needed = not (s.isr p).broadcast && not (is_some (s.isr p).selected_intent) in
    let (u, f, g) =
      >>=-eq-some (if needed then ask_for_disambiguation w p s else some s)
        (λ v. some (mark_disambiguated p v)) e in
    let a = asked-SameQueue needed w p s u quiet f in
    let b = mark-SameQueue p u t g in (b.0 ∙ a.0, b.1 ∙ a.1)
disambiguate-SameQueue w p s t _ quiet e = ground arith

start_app-SameQueue :
    (w : World) (p : ℕ) (s t : Server) (st : State) → start_app_in st w p s ≡ some t → SameQueue s t
unfolding start_app_in
start_app-SameQueue w p s t disambiguated e = ground arith
start_app-SameQueue w p s t _ e = ground arith

send_out-SameQueue :
    (w : World) (p : ℕ) (s t : Server) (st : State) → send_out_in st w p s ≡ some t → SameQueue s t
unfolding send_out_in
send_out-SameQueue w p s t started_application e = ground arith
send_out-SameQueue w p s t _ e = ground arith

send_reply-SameQueue :
    (w : World) (p : ℕ) (s : Server) (st : State) → SameQueue s (send_reply_in st w p s)
unfolding send_reply_in
send_reply-SameQueue w p s received_reply_from_application = ground arith
send_reply-SameQueue w p s _ = (refl, refl)

-- A request in hand leaves the queue of the others alone, and the call posts the next one.
pub process_request-queue :
    (w : World) (p : ℕ) (s t : Server)
    → IsQuiet w
    → process_request w p s ≡ some t
    → (t.request_queue ≡ s.request_queue) × (t.triggers ≡ suc s.triggers)
unfolding process_request
process_request-queue w p s t quiet e =
    let (a, ea, e') = >>=-eq-some (disambiguate_in (s.isr p).state w p s) _ e in
    let (b, eb, e'') = >>=-eq-some (start_app_in (a.isr p).state w p a) _ e' in
    let (c, ec, e''') = >>=-eq-some (send_out_in (b.isr p).state w p b) _ e'' in
    let fa = disambiguate-SameQueue w p s a _ quiet ea in
    let fb = start_app-SameQueue w p a b _ eb in
    let fc = send_out-SameQueue w p b c _ ec in
    let fd = send_reply-SameQueue w p c (c.isr p).state in ground arith

-- Whatever happens, a queued request has a posted call to process it.
pub process-posts :
    (w : World) (p : ℕ) (s t : Server) → process_request w p s ≡ some t → 0 < t.triggers
unfolding process_request
process-posts w p s t e =
    let (a, ea, e') = >>=-eq-some (disambiguate_in (s.isr p).state w p s) _ e in
    let (b, eb, e'') = >>=-eq-some (start_app_in (a.isr p).state w p a) _ e' in
    let (c, ec, e''') = >>=-eq-some (send_out_in (b.isr p).state w p b) _ e'' in ground arith
