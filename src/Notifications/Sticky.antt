-- ===== src/Notifications/Sticky.antt =====
-- A notification that is replaced by one without a timeout, while its timer runs.
use qtapplicationmanager.Prelude.{
  ℕ, suc, ◌≡◌, ◌≢◌, refl, sym, subst, true, false, List, [], ◌∷◌, some, ℤ, arith, ◌==◌, Bool-cases,
  inl, inr, if-both, is_positive, ==_iff,
}
use qtapplicationmanager.Notifications.State.{
  Timer, NotificationData, Manager, find_notification_by_id, put,
}
use qtapplicationmanager.Notifications.Manager.{
  HintOps, World, Request, fill, start_timer, replace_notification, same_application,
  show_replacement, show_notification, close_with, timer_expired, is_running, expire, step,
}
use qtapplicationmanager.Notifications.Held.{closed, find-id}
use qtapplicationmanager.Notifications.Serving.{no_timeout}

find-put :
    (id : ℕ) (n n' : NotificationData) (ns : List NotificationData)
    → find_notification_by_id id ns ≡ some n
    → n'.id ≡ id
    → find_notification_by_id id (put n' ns) ≡ some n'
unfolding find_notification_by_id put
find-put id n n' [] e same = cc
find-put id n n' (k ∷ ns) e same = elim (Bool-cases (k.id == n'.id)) [
  | inl hit ↦ rw hit (rw ((==_iff n'.id id).1 same) refl)
  | inr miss ↦
      let other : (k.id == id) ≡ false = subst (λ x. (k.id == x) ≡ false) same miss in
      rw miss (rw other (find-put id n n' ns (rw other at e) same))
]

-- The notification is shown with the timeout 0, and no timer was stopped.
record Stuck (id : ℕ) (m m' : Manager) : Type 0 where
  shown :
      (k : NotificationData) × (find_notification_by_id id m'.notifications ≡ some k)
      × (k.timeout ≡ 0)
  timers : m'.timers ≡ m.timers

replace-Stuck :
    (w : World) (id : ℕ) (n k : NotificationData) (timeout : ℤ) (m : Manager)
    → find_notification_by_id id m.notifications ≡ some k
    → n.id ≡ id
    → n.timeout ≡ 0
    → is_positive timeout ≡ false
    → Stuck id m (replace_notification w n timeout m)
unfolding replace_notification start_timer
replace-Stuck w id n k timeout m e same zero_timeout sticky =
    let shown' = find-put id k n m.notifications e same in
    rw (sticky, start_timer)
      (if-both (Stuck id m) w.is_changed_connected _ _
        (record { shown = (n, shown', zero_timeout); timers = refl })
        (record { shown = (n, shown', zero_timeout); timers = refl }))

show-Stuck :
    (ops : HintOps) (w : World) (r : Request) (n : NotificationData) (m : Manager)
    → r.replaces_id ≢ 0
    → find_notification_by_id r.replaces_id m.notifications ≡ some n
    → same_application (w.from_id r.app_name) n.application ≡ true
    → is_positive r.timeout ≡ false
    → Stuck r.replaces_id m (show_notification ops w r m).0
unfolding show_notification show_replacement fill
show-Stuck ops w r n m is_old e own sticky = elim (Bool-cases (r.replaces_id == 0)) [
  | inl new ↦ elim (is_old ((==_iff r.replaces_id 0).0 new)) [ ]
  | inr old ↦
      rw (old, e, own)
        (replace-Stuck w r.replaces_id _ n r.timeout m e (find-id r.replaces_id m.notifications n e)
          (no_timeout r.timeout sticky) sticky)
]

expire-closes :
    (ops : HintOps) (t : Timer) (k : NotificationData) (m : Manager)
    → is_running t m ≡ true
    → find_notification_by_id t.id m.notifications ≡ some k
    → closed t.id (step ops (expire t) m).outbox ≡ suc (closed t.id m.outbox)
unfolding step timer_expired
expire-closes ops t k m runs e =
    rw (runs, e, close_with) (rw ((==_iff t.id t.id).1 refl) (omega arith))

-- When an application replaces its own notification by one with the timeout 0, or a negative one,
-- which is meant to stay until it is closed, while a timer that was made for its id still runs:
-- then it is shown with the timeout 0, and still the end of that timer closes it, with
-- `notificationClosed` once more for its id.
pub stale_timer-closes :
    (ops : HintOps) (w : World) (r : Request) (t : Timer) (n : NotificationData) (m : Manager)
    → r.replaces_id ≢ 0
    → find_notification_by_id r.replaces_id m.notifications ≡ some n
    → same_application (w.from_id r.app_name) n.application ≡ true
    → is_positive r.timeout ≡ false
    → t.id ≡ r.replaces_id
    → is_running t m ≡ true
    → ((k : NotificationData) × (find_notification_by_id t.id
            (show_notification ops w r m).0.notifications
          ≡ some k)
        × (k.timeout ≡ 0))
      × (closed t.id (step ops (expire t) (show_notification ops w r m).0).outbox
          ≡ suc (closed t.id (show_notification ops w r m).0.outbox))
stale_timer-closes ops w r t n m is_old e own sticky same runs =
    let s = show-Stuck ops w r n m is_old e own sticky in
    let m' = (show_notification ops w r m).0 in
    let (k, found, none') = s.shown in
    let found' : find_notification_by_id t.id m'.notifications ≡ some k =
      subst (λ i. find_notification_by_id i m'.notifications ≡ some k) (sym same) found in
    ((k, found', none'), expire-closes ops t k m' (rw (is_running, s.timers) runs) found')
