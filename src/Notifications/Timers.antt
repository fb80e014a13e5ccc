-- ===== src/Notifications/Timers.antt =====
-- The timers: a notification with a timeout is never left without one.
use qtapplicationmanager.Prelude.{
  ℕ, ◌+◌, ◌^◌, ◌≤◌, ◌<◌, ◌≡◌, refl, sym, ap, subst, String, List, [], ◌∷◌, some, ℤ, arith, All,
  All-append, ◌==◌, Option-cases, inl, inr, if-both,
}
use qtapplicationmanager.Qt.Queue.{count}
use qtapplicationmanager.Notifications.State.{
  Timer, NotificationData, CloseReason, user_dismissed, close_notification_called, action_invoked,
  Manager, find_notification_by_id, put, delete_timer,
}
use qtapplicationmanager.Notifications.Manager.{
  HintOps, World, Request, fill, max_zero, start_timer, add_notification, replace_notification,
  same_application, show_replacement, show_new, show_notification, close_with,
  trigger_notification_action, timer_expired, deliver_from, Event, show, posted_call, close,
  dismiss, trigger, expire, is_running, step, run,
}
use qtapplicationmanager.Notifications.Held.{ids, Balanced}
use qtapplicationmanager.Notifications.Accounting.{all_takes, step-counter, step-Balanced}
use qtapplicationmanager.Notifications.Serving.{
  Own, Watched, Fresh, AllWatched, Serves, Serves-delete, start_timer-Started, serve_all, put_all,
  take_all, take_same, Watched-find, not_found, grow_all, handed_le,
}

add-AllWatched :
    (n : NotificationData) (timeout : ℤ) (m : Manager)
    → Fresh (n, timeout)
    → AllWatched m
    → AllWatched (add_notification n timeout m)
unfolding add_notification
add-AllWatched n timeout m fresh a =
    let r = start_timer timeout n m in
    let s = start_timer-Started timeout n m (subst (λ o. Own o n.id) (sym fresh.0) tt) fresh.1 in
    record {
      shown =
          All-append (Watched r.1.timers) r.1.notifications (r.0 ∷ [])
            (subst (All (Watched r.1.timers)) (sym s.notifications)
              (grow_all m.timers r.1.timers m.notifications (λ k w. s.grows k fresh.0 w) a.shown))
            (s.watched, tt);
      posted = subst (All Fresh) (sym s.pending) a.posted;
    }

replace-AllWatched :
    (w : World) (n : NotificationData) (timeout : ℤ) (m : Manager)
    → Own n.timer n.id
    → n.timeout ≡ max_zero timeout
    → count n.id (ids m.notifications) ≤ 1
    → AllWatched m
    → AllWatched (replace_notification w n timeout m)
unfolding replace_notification
replace-AllWatched w n timeout m own e c a =
    let r = start_timer timeout n m in
    let s = start_timer-Started timeout n m own e in
    let shown' : All (Watched r.1.timers) (put r.0 r.1.notifications) =
      put_all m.timers r.1.timers r.0 r.1.notifications
        (subst (λ i. Serves i m.timers r.1.timers) (sym s.id) s.serves) s.watched
        (omega (
          arith,
          c,
          ap (λ i. count i (ids r.1.notifications)) s.id,
          ap (λ ns. count n.id (ids ns)) s.notifications,
        ))
        (subst (All (Watched m.timers)) (sym s.notifications) a.shown) in
    let posted' : All Fresh r.1.pending = subst (All Fresh) (sym s.pending) a.posted in
    if-both AllWatched w.is_changed_connected _ _ (record { shown = shown'; posted = posted' })
      (record { shown = shown'; posted = posted' })

show_replacement-AllWatched :
    (ops : HintOps) (w : World) (r : Request) (n : NotificationData) (m : Manager)
    → Own n.timer n.id
    → count n.id (ids m.notifications) ≤ 1
    → AllWatched m
    → AllWatched (show_replacement ops w r n m).0
unfolding show_replacement fill
show_replacement-AllWatched ops w r n m own c a =
    if-both (λ (x : Manager × ℕ). AllWatched x.0)
      (same_application (w.from_id r.app_name) n.application) _ _
      (replace-AllWatched w (fill ops r (w.from_id r.app_name) (record n { updated = w.now }))
        r.timeout m own refl c a)
      a

show_new-AllWatched :
    (ops : HintOps) (w : World) (r : Request) (m : Manager)
    → AllWatched m
    → AllWatched (show_new ops w r m).0
unfolding show_new fill
show_new-AllWatched ops w r m a = record {
  shown = a.shown;
  posted = All-append Fresh m.pending _ a.posted ((refl, refl), tt);
}

one_at_most : (q : ℕ) (m : Manager) → Balanced m → count q (ids m.notifications) ≤ 1
one_at_most q m b = handed_le (count q (ids m.notifications)) q m.id_counter (omega (arith, b q))

show-AllWatched :
    (ops : HintOps) (w : World) (r : Request) (m : Manager)
    → Balanced m
    → AllWatched m
    → AllWatched (show_notification ops w r m).0
unfolding show_notification
show-AllWatched ops w r m b a =
    if-both (λ (x : Manager × ℕ). AllWatched x.0) (r.replaces_id == 0) _ _
      (show_new-AllWatched ops w r m a)
      (elim (Option-cases (find_notification_by_id r.replaces_id m.notifications)) [
        | inl e ↦ rw e a
        | inr (n, e) ↦ rw e (
            show_replacement-AllWatched ops w r n m
              (Watched-find r.replaces_id m.timers m.notifications n e a.shown).0
              (one_at_most n.id m b) a)
      ])

close-AllWatched :
    (reason : CloseReason) (id : ℕ) (m : Manager)
    → AllWatched m
    → AllWatched (close_with reason id m)
unfolding close_with
close-AllWatched reason id m a = elim (Option-cases (find_notification_by_id id m.notifications)) [
  | inl e ↦ rw (e, close_with) a
  | inr (n, e) ↦
      rw (e, close_with)
        (record { shown = take_same id m.timers m.notifications a.shown; posted = a.posted })
]

trigger-AllWatched :
    (id : ℕ) (action_id : String) (m : Manager)
    → AllWatched m
    → AllWatched (trigger_notification_action id action_id m)
unfolding trigger_notification_action
trigger-AllWatched id action_id m a =
    elim (Option-cases (find_notification_by_id id m.notifications)) [
      | inl e ↦ rw (e, trigger_notification_action) a
      | inr (n, e) ↦
          let invoked : AllWatched (record m { outbox = action_invoked id action_id ∷ m.outbox }) =
            record { shown = a.shown; posted = a.posted } in
          rw (e, trigger_notification_action)
            (if-both AllWatched n.dismiss_on_action _ _
              (close-AllWatched user_dismissed id _ invoked) invoked)
    ]

expired-AllWatched :
    (t : Timer) (m : Manager) → Balanced m → AllWatched m → AllWatched (timer_expired t m)
unfolding timer_expired close_with
expired-AllWatched t m b a = elim (Option-cases (find_notification_by_id t.id m.notifications)) [
  | inl e ↦
      rw (e, close_with)
        (record {
          shown =
              serve_all t.id m.timers (delete_timer (some t) m.timers) m.notifications
                (Serves-delete t.id (some t) m.timers refl) (not_found t.id m.notifications e)
                a.shown;
          posted = a.posted;
        })
  | inr (n, e) ↦
      rw (e, close_with)
        (record {
          shown =
              take_all t.id m.timers (delete_timer (some t) m.timers) m.notifications
                (Serves-delete t.id (some t) m.timers refl) (one_at_most t.id m b) a.shown;
          posted = a.posted;
        })
]

deliver-AllWatched :
    (ps : List (NotificationData × ℤ)) (m : Manager)
    → m.pending ≡ ps
    → AllWatched m
    → AllWatched (deliver_from ps m)
unfolding deliver_from
deliver-AllWatched [] m w a = a
deliver-AllWatched ((n, timeout) ∷ rest) m w a =
    let p : All Fresh ((n, timeout) ∷ rest) = subst (All Fresh) w a.posted in
    add-AllWatched n timeout (record m { pending = rest }) p.0
      (record { shown = a.shown; posted = p.1 })

step-AllWatched :
    (ops : HintOps) (e : Event) (m : Manager)
    → Balanced m
    → AllWatched m
    → AllWatched (step ops e m)
unfolding step
step-AllWatched ops (show w r) m b a = show-AllWatched ops w r m b a
step-AllWatched ops posted_call m b a = deliver-AllWatched m.pending m refl a
step-AllWatched ops (close id) m b a = close-AllWatched close_notification_called id m a
step-AllWatched ops (dismiss id) m b a = close-AllWatched user_dismissed id m a
step-AllWatched ops (trigger id action_id) m b a = trigger-AllWatched id action_id m a
step-AllWatched ops (expire t) m b a =
    if-both AllWatched (is_running t m) _ _ (expired-AllWatched t m b a) a

-- From a manager whose accounts balance and whose timed notifications have their timers, and for a
-- history of calls that cannot use up the 2 ^ 32 ids (a call that replaces a notification counts as
-- if it took one): after the history every shown
-- notification with a timeout has a timer that runs, and that was made for its id, and every posted
-- one will be given one.
pub run-AllWatched :
    (ops : HintOps) (events : List Event) (m : Manager)
    → m.id_counter + all_takes events < 2 ^ 32
    → Balanced m
    → AllWatched m
    → AllWatched (run ops events m)
unfolding run
run-AllWatched ops [] m room b a = a
run-AllWatched ops (e ∷ events) m room b a =
    run-AllWatched ops events (step ops e m) (omega (arith, step-counter ops e m))
      (step-Balanced ops e m (omega arith) b) (step-AllWatched ops e m b a)
