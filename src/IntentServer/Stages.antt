-- ===== src/IntentServer/Stages.antt =====
-- The disambiguation step of `processRequestQueue` keeps the queues in order and faults nowhere, as
-- long as no receiver of the disambiguation signal calls back from within it.
use qtapplicationmanager.Prelude.{
  ℕ, ◌≡◌, ◌≢◌, refl, sym, subst, Bool, true, false, not, ◌&&◌, ◌||◌, ◌⊎◌, inl, inr, List, [], ◌∷◌,
  ◌++◌, Option, some, is_some, arith, Bool-cases, true-||, if◌then◌else◌, is_positive,
}
use qtapplicationmanager.Prelude.Maybe.{◌>>=◌}
use qtapplicationmanager.Intent.{Intent}
use qtapplicationmanager.IntentServer.State.{
  State, received_request, waiting_for_disambiguation, disambiguated, Request, Server, modify,
  set_state, set_selected_intent, send, disambiguation_request, disambiguation_timer, start_timer,
  World,
}
use qtapplicationmanager.IntentServer.Process.{
  const_first, ask_for_disambiguation, mark_disambiguated, disambiguate_in,
}
use qtapplicationmanager.IntentServer.Answers.{answer_all}
use qtapplicationmanager.IntentServer.Invariant.{
  Ready, ReadyIn, update_self, Hand, Placed, promote, modify-Hand,
}
use qtapplicationmanager.IntentServer.Placing.{send-Placed, timed-Placed, place_asked}

-- A stage returns a server with the request in hand, further on, or in a queue.
abbrev pub Outcome : ℕ → ℕ → (ℕ → ℕ) → Option Server → Type 0
Outcome k p total o = (t : Server) × (o ≡ some t) × (Hand k p total t ⊎ Placed p total t)

abbrev pub IsQuiet : World → Type 0
IsQuiet w = (request_id : ℕ) → w.on_disambiguation_request request_id ≡ []

select_first :
    (r : Request) (i : Intent) (rest : List Intent)
    → r.potential_intents ≡ i ∷ rest
    → set_selected_intent (some i) r ≡ record r { selected_intent = some i }
unfolding set_selected_intent
select_first r i rest e = ground arith

mark-Hand :
    (p : ℕ) (total : ℕ → ℕ) (s : Server)
    → Hand 0 p total s
    → is_some (s.isr p).selected_intent ≡ true
    → Hand 1 p total (mark_disambiguated p s)
mark-Hand p total s h selected =
    rw (true-|| (s.isr p).broadcast _ (inr selected))
      (modify-Hand 0 1 p total (set_state disambiguated) s h selected (omega arith))

-- A request that is left without an answer is in the queue, and stays unmarked.
mark-Placed :
    (p : ℕ) (total : ℕ → ℕ) (s : Server)
    → Placed p total s
    → ((s.isr p).broadcast || is_some (s.isr p).selected_intent) ≡ false
    → Placed p total (mark_disambiguated p s)
mark-Placed p total s h e = rw e h

-- Step 1 where nobody listens: the first potential intent is taken.
choose_first :
    (p : ℕ) (total : ℕ → ℕ) (s : Server) (intents : List Intent)
    → Hand 0 p total s
    → (s.isr p).state ≡ received_request
    → (s.isr p).potential_intents ≡ intents
    → intents ≢ []
    → Outcome 1 p total (
        (const_first intents >>= λ i. some (modify p (set_selected_intent (some i)) s)) >>= λ t.
        some (mark_disambiguated p t))
unfolding const_first
choose_first p total s [] h st e ne = absurd (ne refl)
choose_first p total s (i ∷ rest) h st e ne =
    let sel = select_first (s.isr p) i rest e in
    let chosen = record (s.isr p) { selected_intent = some i } in
    let ready : Ready chosen = subst (λ x. ReadyIn x chosen) (sym st) (ground arith) in
    (
      _,
      refl,
      inl (
          mark-Hand p total _
            (modify-Hand 0 0 p total (set_selected_intent (some i)) s h
              (subst Ready (sym sel) ready) (omega arith))
            (rw (update_self s.isr p (set_selected_intent (some i) (s.isr p)), sel))),
    )

-- The server once the signal is emitted; `timed` says whether a timer runs.
abbrev pub asked_server : Bool → ℕ → Server → Server
asked_server timed p s =
    let waiting =
      modify p (set_state waiting_for_disambiguation)
        (record s { disambiguation_queue = s.disambiguation_queue ++ p ∷ [] }) in
    send (disambiguation_request (s.isr p).id (s.isr p).potential_intents)
      (if timed then start_timer (disambiguation_timer p) waiting else waiting)

asked_server-undecided :
    (timed : Bool) (p : ℕ) (s : Server)
    → ((s.isr p).broadcast || is_some (s.isr p).selected_intent) ≡ false
    → let r = (asked_server timed p s).isr p in (r.broadcast || is_some r.selected_intent) ≡ false
asked_server-undecided true p s e = rw (update_self s.isr p) e
asked_server-undecided false p s e = rw (update_self s.isr p) e

-- Step 1 where the System UI listens and does not answer at once.
wait_for_answer :
    (w : World) (p : ℕ) (total : ℕ → ℕ) (s : Server)
    → IsQuiet w
    → Hand 0 p total s
    → w.is_signal_connected ≡ true
    → ((s.isr p).broadcast || is_some (s.isr p).selected_intent) ≡ false
    → Outcome 1 p total (ask_for_disambiguation w p s >>= λ t. some (mark_disambiguated p t))
unfolding ask_for_disambiguation answer_all
wait_for_answer w p total s quiet h connected undecided =
    let timed = is_positive s.disambiguation_timeout in
    (
      mark_disambiguated p (asked_server timed p s),
      rw (connected, quiet (s.isr p).id, answer_all),
      inr (
          mark-Placed p total (asked_server timed p s)
            (send-Placed _ p total _ (timed-Placed timed _ p total _ (place_asked 0 p total s h)))
            (asked_server-undecided timed p s undecided)),
    )

undecided_of : (b c : Bool) → (not b && not c) ≡ true → (b || c) ≡ false
undecided_of b c h = ground arith

decided_of : (b c : Bool) → (not b && not c) ≡ false → (b ≡ true → c ≡ true) → c ≡ true
decided_of b c h k = ground arith

-- Step 1.
pub disambiguate-Outcome :
    (w : World) (p : ℕ) (total : ℕ → ℕ) (s : Server) (st : State)
    → IsQuiet w
    → (s.isr p).state ≡ st
    → Hand 0 p total s
    → Outcome 1 p total (disambiguate_in st w p s)
unfolding disambiguate_in ask_for_disambiguation
disambiguate-Outcome w p total s received_request quiet e h =
    let ready : ReadyIn received_request (s.isr p) = subst (λ x. ReadyIn x (s.isr p)) e h.ready in
    elim (Bool-cases (not (s.isr p).broadcast && not (is_some (s.isr p).selected_intent))) [
      | inl ask ↦ rw ask (elim (Bool-cases w.is_signal_connected) [
        | inl yes' ↦ wait_for_answer w p total s quiet h yes' (undecided_of _ _ ask)
        | inr no' ↦
            rw (no', ask_for_disambiguation)
              (choose_first p total s (s.isr p).potential_intents h e refl ready.0)
      ])
      | inr known ↦ rw known (_, refl, inl (mark-Hand p total s h (decided_of _ _ known ready.1)))
    ]
disambiguate-Outcome w p total s st quiet e h =
    (s, refl, inl (promote 0 1 p total s st e (λ reached. omega arith) h))
