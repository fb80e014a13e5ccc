-- ===== src/IntentServer/Answers.antt =====
-- The System UI's answers to a disambiguation request.
use qtapplicationmanager.Prelude.{
  ℕ, Bool, true, false, List, [], ◌∷◌, Option, none, some, ◌==◌, if◌then◌else◌,
}
use qtapplicationmanager.Prelude.Maybe.{◌>>=◌}
use qtapplicationmanager.Intent.{Intent}
use qtapplicationmanager.IntentServer.State.{
  Request, disambiguated, contains_intent, set_request_failed, set_state, set_selected_intent,
  Server, modify, Answer, enqueue_request,
}

-- The loop that takes the first request with the given id out of a queue.
unfoldable pub take_request : (ℕ → Request) → ℕ → List ℕ → Option (ℕ × List ℕ)
take_request isr request_id [] = none
take_request isr request_id (p ∷ queue) =
    let rest = take_request isr request_id queue in
    if (isr p).id == request_id
    then some (p, queue)
    else (rest >>= λ (q, queue'). some (q, p ∷ queue'))

-- The three branches for a request that was found. A null intent is never one of the request's. The
-- warning of the last branch reads `selectedIntent->intentId()` when its category is enabled, so it
-- faults on a null pointer then.
unfoldable pub answer_request : ℕ → Bool → Option Intent → Server → Option Server
answer_request p true selected s =
    some (modify p (set_request_failed "Disambiguation was rejected") s)
answer_request p false none s =
    if s.logs_warnings
    then none
    else some (modify p (set_request_failed "Failed to disambiguate") s)
answer_request p false (some i) s =
    if contains_intent (s.isr p).potential_intents (some i)
    then some (modify p (λ r. set_state disambiguated (set_selected_intent (some i) r)) s)
    else some (modify p (set_request_failed "Failed to disambiguate") s)

unfoldable pub internal_disambiguate_request : Answer → Server → Option Server
unfolding take_request answer_request enqueue_request
internal_disambiguate_request a s = elim (take_request s.isr a.request_id s.disambiguation_queue) [
  | none ↦ some s
  | some (p, queue) ↦
      answer_request p a.reject a.selected_intent (record s { disambiguation_queue = queue })
      >>= λ t. some (enqueue_request p t)
]

-- The receivers of a signal run one after the other.
unfoldable pub answer_all : List Answer → Server → Option Server
unfolding internal_disambiguate_request
answer_all [] s = some s
answer_all (a ∷ rest) s = internal_disambiguate_request a s >>= answer_all rest
