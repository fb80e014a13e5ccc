-- ===== src/IntentServer/Taking.antt =====
-- Taking a request out of a queue, and putting it back at the end of the request queue.
use qtapplicationmanager.Prelude.{
  ℕ, ◌+◌, ◌≡◌, subst, true, List, [], ◌∷◌, Option, some, arith, All, ◌==◌, ==_iff, Bool-cases, inl,
  inr,
}
use qtapplicationmanager.Prelude.Maybe.{>>=-eq-some}
use qtapplicationmanager.IntentServer.State.{Request, Server, modify, enqueue_request}
use qtapplicationmanager.IntentServer.Answers.{take_request}
use qtapplicationmanager.Qt.Queue.{remove_one, holds}
use qtapplicationmanager.IntentServer.Invariant.{
  one_if, count, count-append, occurrences, Ready, Asked, Starting, Sent, QueuesFit, All-update,
}
use qtapplicationmanager.IntentServer.Placing.{All-place}
use qtapplicationmanager.IntentServer.Processing.{Settled}

-- `p` was taken out of `queue`, which leaves `kept`.
pub record Taken (isr : ℕ → Request) (queue : List ℕ) (p : ℕ) (kept : List ℕ) : Type 1 where
  pub counts : (q : ℕ) → count q queue ≡ count q kept + one_if (p == q)
  pub keeps :
      (P : Request → Type 0) → All (λ q. P (isr q)) queue → All (λ q. P (isr q)) kept × P (isr p)

Taken-head : (isr : ℕ → Request) (p : ℕ) (queue : List ℕ) → Taken isr (p ∷ queue) p queue
Taken-head isr p queue = record { counts = λ q. omega arith; keeps = λ P a. (a.1, a.0) }

Taken-tail :
    (isr : ℕ → Request) (x p : ℕ) (queue kept : List ℕ)
    → Taken isr queue p kept
    → Taken isr (x ∷ queue) p (x ∷ kept)
Taken-tail isr x p queue kept t = record {
  counts = λ q. omega (arith, t.counts q);
  keeps = λ P a. let b = t.keeps P a.1 in ((a.0, b.0), b.1);
}

pub take_request-Taken :
    (isr : ℕ → Request) (id : ℕ) (queue : List ℕ) (p : ℕ) (kept : List ℕ)
    → take_request isr id queue ≡ some (p, kept)
    → Taken isr queue p kept × ((isr p).id ≡ id)
unfolding take_request
take_request-Taken isr id [] p kept e = cc
take_request-Taken isr id (x ∷ queue) p kept e = elim (Bool-cases ((isr x).id == id)) [
  | inl hit ↦
      let f : ◌≡◌ {A = Option (ℕ × List ℕ)} (some (x, queue)) (some (p, kept)) = rw hit at e in
      let a : x ≡ p = cc in
      let b : queue ≡ kept = cc in
      subst (λ y. Taken isr (x ∷ queue) y kept × ((isr y).id ≡ id)) a
        (subst (λ ys. Taken isr (x ∷ queue) x ys) b (Taken-head isr x queue), (==_iff _ id).0 hit)
  | inr miss ↦
      let (y, found, f) = >>=-eq-some (take_request isr id queue) _ (rw miss at e) in
      let a : y.0 ≡ p = cc in
      let b : x ∷ y.1 ≡ kept = cc in
      let (taken, named) = take_request-Taken isr id queue y.0 y.1 found in
      subst (λ z. Taken isr (x ∷ queue) z kept × ((isr z).id ≡ id)) a
        (subst (λ zs. Taken isr (x ∷ queue) y.0 zs) b (Taken-tail isr x y.0 queue y.1 taken), named)
]

pub remove_one-Taken :
    (isr : ℕ → Request) (p : ℕ) (queue : List ℕ)
    → holds p queue ≡ true
    → Taken isr queue p (remove_one p queue)
unfolding remove_one
remove_one-Taken isr p [] h = cc
remove_one-Taken isr p (x ∷ queue) h = elim (Bool-cases (x == p)) [
  | inl hit ↦
      rw hit
        (subst (λ y. Taken isr (x ∷ queue) y queue) ((==_iff x p).0 hit) (Taken-head isr x queue))
  | inr miss ↦ rw miss (Taken-tail isr x p queue _ (remove_one-Taken isr p queue (rw miss at h)))
]

-- A request out of all queues goes back into the request queue.
pub enqueue-Settled :
    (p : ℕ) (total : ℕ → ℕ) (f : Request → Request) (s : Server)
    → QueuesFit s
    → ((q : ℕ) → occurrences q s + one_if (p == q) ≡ total q)
    → occurrences p s ≡ 0
    → Ready (f (s.isr p))
    → Settled total (enqueue_request p (modify p f s))
unfolding enqueue_request
enqueue-Settled p total f s v held free ready = record {
  fit = record {
    queued = All-place Ready s.isr p _ s.request_queue (omega arith) ready v.queued;
    asked = All-update Asked s.isr p _ s.disambiguation_queue (omega arith) v.asked;
    starting = All-update Starting s.isr p _ s.starting_app_queue (omega arith) v.starting;
    sent = All-update Sent s.isr p _ s.sent_to_app_queue (omega arith) v.sent;
  };
  held = λ q. omega (arith, held q, count-append q s.request_queue (p ∷ []));
}
