-- ===== src/Notifications/Accounting.antt =====
-- The ids that were handed out: each one is held, or was closed, and never both.
use qtapplicationmanager.Prelude.{
  ℕ, ◌+◌, ◌^◌, ◌≤◌, ◌<◌, ◌≡◌, refl, ap, List, [], ◌∷◌, arith, ◌==◌, Option-cases, inl, inr, if-both,
}
use qtapplicationmanager.Qt.Queue.{one_if}
use qtapplicationmanager.Notifications.State.{
  user_dismissed, close_notification_called, Manager, find_notification_by_id,
}
use qtapplicationmanager.Notifications.Manager.{
  HintOps, World, Request, fill, next_id, new_notification, show_new, show_notification, Event,
  show, posted_call, close, dismiss, trigger, expire, is_running, step, run,
}
use qtapplicationmanager.Notifications.Held.{
  handed, Balanced, Kept, append_pending, show_replacement-Kept, close-Kept, trigger-Kept,
  expired-Kept, deliver-Kept,
}

Kept-Balanced : (m m' : Manager) → ((q : ℕ) → Kept q m m') → Balanced m → Balanced m'
Kept-Balanced m m' k b q = omega (arith, (k q).account, b q, ap (handed q) (k q).counter)

-- The next id is one that was never handed out.
handed_next : (q c : ℕ) → handed q (c + 1) ≡ handed q c + one_if (c + 1 == q)
handed_next q c = ground arith

next_id-lem : (m : Manager) → m.id_counter + 1 < 2 ^ 32 → next_id m ≡ m.id_counter + 1
next_id-lem m room = omega arith

show_new-Balanced :
    (ops : HintOps) (w : World) (r : Request) (m : Manager)
    → m.id_counter + 1 < 2 ^ 32
    → Balanced m
    → Balanced (show_new ops w r m).0
unfolding show_new fill
show_new-Balanced ops w r m room b q = omega (
  arith,
  b q,
  append_pending q m.pending
      (fill ops r (w.from_id r.app_name) (new_notification (next_id m) w.now)) r.timeout,
  handed_next q m.id_counter,
  ap (handed q) (next_id-lem m room),
  ap (λ x. one_if (x == q)) (next_id-lem m room),
)

show-Balanced :
    (ops : HintOps) (w : World) (r : Request) (m : Manager)
    → m.id_counter + 1 < 2 ^ 32
    → Balanced m
    → Balanced (show_notification ops w r m).0
unfolding show_notification
show-Balanced ops w r m room b =
    if-both (λ (x : Manager × ℕ). Balanced x.0) (r.replaces_id == 0) _ _
      (show_new-Balanced ops w r m room b)
      (elim (Option-cases (find_notification_by_id r.replaces_id m.notifications)) [
        | inl e ↦ rw e b
        | inr (n, e) ↦ rw e (Kept-Balanced m _ (λ q. show_replacement-Kept ops w r q n m) b)
      ])

-- How many ids an event can take.
abbrev pub takes : Event → ℕ
takes (show w r) = 1
takes posted_call = 0
takes (close id) = 0
takes (dismiss id) = 0
takes (trigger id action) = 0
takes (expire t) = 0

abbrev pub all_takes : List Event → ℕ
all_takes [] = 0
all_takes (e ∷ events) = takes e + all_takes events

pub step-Balanced :
    (ops : HintOps) (e : Event) (m : Manager)
    → m.id_counter + takes e < 2 ^ 32
    → Balanced m
    → Balanced (step ops e m)
unfolding step
step-Balanced ops (show w r) m room b = show-Balanced ops w r m room b
step-Balanced ops posted_call m room b = Kept-Balanced m _ (λ q. deliver-Kept m.pending q m refl) b
step-Balanced ops (close id) m room b =
    Kept-Balanced m _ (λ q. close-Kept close_notification_called id q m) b
step-Balanced ops (dismiss id) m room b =
    Kept-Balanced m _ (λ q. close-Kept user_dismissed id q m) b
step-Balanced ops (trigger id action_id) m room b =
    Kept-Balanced m _ (λ q. trigger-Kept id action_id q m) b
step-Balanced ops (expire t) m room b =
    if-both Balanced (is_running t m) _ _ (Kept-Balanced m _ (λ q. expired-Kept t q m) b) b

show-counter :
    (ops : HintOps) (w : World) (r : Request) (m : Manager)
    → (show_notification ops w r m).0.id_counter ≤ m.id_counter + 1
unfolding show_notification show_new
show-counter ops w r m =
    if-both (λ (x : Manager × ℕ). x.0.id_counter ≤ m.id_counter + 1) (r.replaces_id == 0) _ _
      (omega arith)
      (elim (Option-cases (find_notification_by_id r.replaces_id m.notifications)) [
        | inl e ↦ rw e (omega arith)
        | inr (n, e) ↦ rw e (omega (arith, (show_replacement-Kept ops w r 0 n m).counter))
      ])

pub step-counter :
    (ops : HintOps) (e : Event) (m : Manager) → (step ops e m).id_counter ≤ m.id_counter + takes e
unfolding step
step-counter ops (show w r) m = show-counter ops w r m
step-counter ops posted_call m = omega (arith, (deliver-Kept m.pending 0 m refl).counter)
step-counter ops (close id) m = omega (arith, (close-Kept close_notification_called id 0 m).counter)
step-counter ops (dismiss id) m = omega (arith, (close-Kept user_dismissed id 0 m).counter)
step-counter ops (trigger id action_id) m = omega (arith, (trigger-Kept id action_id 0 m).counter)
step-counter ops (expire t) m =
    if-both (λ (u : Manager). u.id_counter ≤ m.id_counter + 0) (is_running t m) _ _
      (omega (arith, (expired-Kept t 0 m).counter)) (omega arith)

-- From a manager whose accounts balance, and for a history of calls that cannot use up the 2 ^ 32 ids
-- (a call that replaces a notification counts as if it took one): after the history, an id that was handed out is either held by exactly one notification
-- (shown, or posted to be shown) and was never reported as closed, or held by none and reported
-- exactly once, and no other id is held or was reported.
pub run-Balanced :
    (ops : HintOps) (events : List Event) (m : Manager)
    → m.id_counter + all_takes events < 2 ^ 32
    → Balanced m
    → Balanced (run ops events m)
unfolding run
run-Balanced ops [] m room b = b
run-Balanced ops (e ∷ events) m room b =
    run-Balanced ops events (step ops e m) (omega (arith, step-counter ops e m))
      (step-Balanced ops e m (omega arith) b)
