-- ===== src/IntentClient/Answering.antt =====
-- Replies that come late, and replies that are sent twice.
use mathlib.Core.Path.{◌∙◌, fun_ext}
use qtapplicationmanager.Prelude.{
  ℕ, ◌≡◌, ◌≢◌, refl, sym, ap, subst, Bool, true, false, ◌&&◌, String, ◌∷◌, some, find, Bool-cases,
  inl, inr, ◌==◌, ==_iff,
}
use qtapplicationmanager.Qt.Map.{QMap}
use qtapplicationmanager.Qt.Variant.{Variant, VariantOps}
use qtapplicationmanager.Qt.Heap.{update, update_self, update-other}
use qtapplicationmanager.IntentClient.State.{
  to_system, to_application, ClientRequest, reply_from_application, Client, modify, heard,
  reply_received,
}
use qtapplicationmanager.IntentClient.Client.{
  do_finish, set_result, set_error_message, send_result, send_reply, timed_out, same_id, waits_for,
  reply_from_system, take_waiting,
}

do_finish-at :
    (p : ℕ) (c : Client)
    → (do_finish p c).request_at p
      ≡ record (c.request_at p) { is_finished = true; is_connected = false }
unfolding do_finish
do_finish-at p c =
    let done : ClientRequest = record (c.request_at p) { is_finished = true } in
    let once = update c.request_at p done in
    update_self once p (record (once p) { is_connected = false })
    ∙ ap (λ (r : ClientRequest). record r { is_connected = false })
        (update_self c.request_at p done)

do_finish-elsewhere :
    (p : ℕ) (c : Client) (q : ℕ) → q ≢ p → (do_finish p c).request_at q ≡ c.request_at q
unfolding do_finish
do_finish-elsewhere p c q ne =
    let done : ClientRequest = record (c.request_at p) { is_finished = true } in
    let once = update c.request_at p done in
    update-other once p (record (once p) { is_connected = false }) q ne
    ∙ update-other c.request_at p done q ne

-- The request after `setErrorMessage`, and after `setResult`.
set_error-at :
    (p : ℕ) (text : String) (c : Client)
    → (set_error_message p text c).request_at p ≡ record (c.request_at p) {
      error_message = text;
      is_succeeded = false;
      is_finished = true;
      is_connected = false;
    }
unfolding set_error_message
set_error-at p text c =
    let failed : ClientRequest → ClientRequest =
      (λ r. record r { error_message = text; is_succeeded = false }) in
    do_finish-at p (modify p failed c)
    ∙ ap (λ (r : ClientRequest). record r { is_finished = true; is_connected = false })
        (update_self c.request_at p (failed (c.request_at p)))

set_result-at :
    (p : ℕ) (result : QMap Variant) (c : Client)
    → (set_result p result c).request_at p ≡ record (c.request_at p) {
      result = result;
      is_succeeded = true;
      is_finished = true;
      is_connected = false;
    }
unfolding set_result
set_result-at p result c =
    let done : ClientRequest → ClientRequest =
      (λ r. record r { result = result; is_succeeded = true }) in
    do_finish-at p (modify p done c)
    ∙ ap (λ (r : ClientRequest). record r { is_finished = true; is_connected = false })
        (update_self c.request_at p (done (c.request_at p)))

set_error-elsewhere :
    (p : ℕ) (text : String) (c : Client) (q : ℕ)
    → q ≢ p
    → (set_error_message p text c).request_at q ≡ c.request_at q
unfolding set_error_message
set_error-elsewhere p text c q ne =
    let failed : ClientRequest → ClientRequest =
      (λ r. record r { error_message = text; is_succeeded = false }) in
    do_finish-elsewhere p (modify p failed c) q ne
    ∙ update-other c.request_at p (failed (c.request_at p)) q ne

-- A result for a request that nothing is connected to is told to nobody.
set_result-silent :
    (p : ℕ) (result : QMap Variant) (c : Client)
    → (c.request_at p).is_connected ≡ false
    → (set_result p result c).outbox ≡ c.outbox
unfolding set_result do_finish
set_result-silent p result c quiet =
    let done : ClientRequest = record (c.request_at p) { result = result; is_succeeded = true } in
    ap (λ b. heard b (reply_received p) c.outbox)
      (ap (λ (r : ClientRequest). r.is_connected) (update_self c.request_at p done) ∙ quiet)

set_error-id :
    (p : ℕ) (text : String) (c : Client) (q : ℕ)
    → ((set_error_message p text c).request_at q).id ≡ (c.request_at q).id
set_error-id p text c q = elim (Bool-cases (q == p)) [
  | inl hit ↦
      subst (λ x. ((set_error_message p text c).request_at x).id ≡ (c.request_at x).id)
        (sym ((==_iff q p).0 hit)) (ap (λ (r : ClientRequest). r.id) (set_error-at p text c))
  | inr miss ↦
      ap (λ (r : ClientRequest). r.id) (set_error-elsewhere p text c q (λ e. cc ((==_iff q p).1 e)))
]

-- The error does not change which request waits for a reply.
waits-same :
    (p id : ℕ) (text : String) (c : Client)
    → find (waits_for id (set_error_message p text c)) (set_error_message p text c).waiting
      ≡ find (waits_for id c) c.waiting
unfolding set_error_message do_finish
waits-same p id text c =
    ap (λ (f : ℕ → Bool). find f c.waiting)
      (fun_ext (λ q. ap (λ i. c.is_alive q && same_id i (some id)) (set_error-id p text c q)))

timed_out-eq :
    (p : ℕ) (text : String) (c : Client)
    → c.is_alive p ≡ true
    → (c.request_at p).is_finished ≡ false
    → (c.request_at p).direction ≡ to_system
    → timed_out p text c ≡ set_error_message p text c
unfolding timed_out
timed_out-eq p text c alive unfinished direction = rw (alive, unfinished, direction) refl

-- What the request looks like when its reply comes.
reply-at :
    (ops : VariantOps) (cleans_up : Bool) (p id : ℕ) (result : QMap Variant) (c : Client)
    → find (waits_for id c) c.waiting ≡ some p
    → (reply_from_system ops cleans_up id false result c).request_at p ≡ record (c.request_at p) {
      result = result;
      is_succeeded = true;
      is_finished = true;
      is_connected = false;
    }
unfolding reply_from_system
reply-at ops cleans_up p id result c found =
    rw (found, reply_from_system) (set_result-at p result (take_waiting cleans_up p c))

reply-silent :
    (ops : VariantOps) (cleans_up : Bool) (p id : ℕ) (result : QMap Variant) (c : Client)
    → find (waits_for id c) c.waiting ≡ some p
    → (c.request_at p).is_connected ≡ false
    → (reply_from_system ops cleans_up id false result c).outbox ≡ c.outbox
unfolding reply_from_system
reply-silent ops cleans_up p id result c found quiet =
    rw (found, reply_from_system) (set_result-silent p result (take_waiting cleans_up p c) quiet)

-- For a request that was sent, is still referenced, has no reply yet, and is the first one that waits
-- for the reply with the id `id`: when its timer ends and the reply comes after that, the
-- request has first failed with the timer's text, and has then succeeded with the late reply's result,
-- with the text still there as its error message. Nobody hears of the late result: the signal of the
-- failure has disconnected everything, and the late reply sends nothing.
pub late_reply-Succeeds :
    (ops : VariantOps) (cleans_up : Bool) (p id : ℕ) (text : String) (result : QMap Variant)
    (c : Client)
    → c.is_alive p ≡ true
    → (c.request_at p).is_finished ≡ false
    → (c.request_at p).direction ≡ to_system
    → find (waits_for id c) c.waiting ≡ some p
    → ((timed_out p text c).request_at p ≡ record (c.request_at p) {
      error_message = text;
      is_succeeded = false;
      is_finished = true;
      is_connected = false;
    })
      × ((reply_from_system ops cleans_up id false result (timed_out p text c)).request_at p
          ≡ record (c.request_at p) {
            error_message = text;
            result = result;
            is_succeeded = true;
            is_finished = true;
            is_connected = false;
          })
      × ((reply_from_system ops cleans_up id false result (timed_out p text c)).outbox
          ≡ (timed_out p text c).outbox)
late_reply-Succeeds ops cleans_up p id text result c alive unfinished direction found =
    let failed = set_error_message p text c in
    let waits = waits-same p id text c ∙ found in
    let late =
      reply-at ops cleans_up p id result failed waits
      ∙ ap
          (λ (r : ClientRequest). record r {
            result = result;
            is_succeeded = true;
            is_finished = true;
            is_connected = false;
          })
          (set_error-at p text c) in
    let quiet =
      reply-silent ops cleans_up p id result failed waits
        (ap (λ (r : ClientRequest). r.is_connected) (set_error-at p text c)) in
    let e = sym (timed_out-eq p text c alive unfinished direction) in
    (
      ap (λ d. d.request_at p) (sym e) ∙ set_error-at p text c,
      ap (λ d. (reply_from_system ops cleans_up id false result d).request_at p) (sym e) ∙ late,
      subst (λ (d : Client). (reply_from_system ops cleans_up id false result d).outbox ≡ d.outbox)
          e quiet,
    )

send_reply-eq :
    (p : ℕ) (result : QMap Variant) (c : Client)
    → c.is_alive p ≡ true
    → (c.request_at p).direction ≡ to_application
    → (c.request_at p).is_broadcast ≡ false
    → send_reply p result c ≡ record c {
      request_at =
          update c.request_at p
            (record (c.request_at p) { is_succeeded = true; is_finished = true; result = result });
      outbox = reply_from_application p true result ∷ c.outbox;
    }
unfolding send_reply send_result
send_reply-eq p result c alive direction own = rw (alive, direction, own) refl

-- A handler that replies to the same request a second time, while the request is still referenced, sends
-- a second reply to the system: nothing looks at whether the request is finished.
pub second_reply-Sent :
    (p : ℕ) (first second : QMap Variant) (c : Client)
    → c.is_alive p ≡ true
    → (c.request_at p).direction ≡ to_application
    → (c.request_at p).is_broadcast ≡ false
    → (send_reply p second (send_reply p first c)).outbox
      ≡ reply_from_application p true second ∷ reply_from_application p true first ∷ c.outbox
second_reply-Sent p first second c alive direction own =
    let e = send_reply-eq p first c alive direction own in
    let d = send_reply p first c in
    let at_p =
      ap (λ (x : Client). x.request_at p) e
      ∙ update_self c.request_at p
          (record (c.request_at p) { is_succeeded = true; is_finished = true; result = first }) in
    let again =
      send_reply-eq p second d (ap (λ (x : Client). x.is_alive p) e ∙ alive)
        (ap (λ (r : ClientRequest). r.direction) at_p ∙ direction)
        (ap (λ (r : ClientRequest). r.is_broadcast) at_p ∙ own) in
    ap (λ (x : Client). x.outbox) again
    ∙ ap (λ o. reply_from_application p true second ∷ o) (ap (λ (x : Client). x.outbox) e)
