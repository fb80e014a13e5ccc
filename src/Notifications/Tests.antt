-- ===== src/Notifications/Tests.antt =====
-- Two applications and their notifications: the hypotheses of the theorems hold.
use qtapplicationmanager.Prelude.{
  ℕ, suc, ◌≡◌, refl, true, false, String, str_eq, List, [], ◌∷◌, Option, none, some, ℤ, pos, arith,
  if◌then◌else◌,
}
use qtapplicationmanager.Notifications.State.{
  Timer, NotificationData, Manager, find_notification_by_id,
}
use qtapplicationmanager.Notifications.Manager.{
  HintOps, World, new_notification, Request, Event, show, posted_call, close, expire,
  show_notification, step, run,
}
use qtapplicationmanager.Notifications.Held.{closed, Balanced}
use qtapplicationmanager.Notifications.Accounting.{run-Balanced}
use qtapplicationmanager.Notifications.Serving.{AllWatched}
use qtapplicationmanager.Notifications.Timers.{run-AllWatched}
use qtapplicationmanager.Notifications.Sticky.{stale_timer-closes}

abbrev no_hints : HintOps
no_hints = record { to_uint = λ v. 0; to_string = λ v. ""; to_bool = λ v. false; to_map = λ v. [] }

abbrev radio_app : String → Option ℕ
radio_app name = if str_eq name "radio" then some 3 else none

abbrev noon : World
noon = record { from_id = radio_app; now = 12; is_changed_connected = true }

abbrev request : ℕ → ℤ → Request
request replaces timeout = record {
  app_name = "radio";
  replaces_id = replaces;
  app_icon = "";
  summary = "Now playing";
  body = "";
  actions = "default" ∷ "Open" ∷ [];
  hints = [];
  timeout = timeout;
}

abbrev no_notifications : Manager
no_notifications = record {
  notifications = [];
  id_counter = 0;
  pending = [];
  timers = [];
  next_serial = 0;
  outbox = [];
}

abbrev first_timer : Timer
first_timer = record { id = 1; serial = 0 }

-- Two are shown, one of them is replaced, one is closed, and a timer ends.
abbrev history : List Event
history =
    show noon (request 0 (pos 5000))
    ∷ posted_call
    ∷ show noon (request 0 (pos 0))
    ∷ posted_call
    ∷ show noon (request 1 (pos 300))
    ∷ close 2
    ∷ expire first_timer
    ∷ expire (record { id = 1; serial = 1 })
    ∷ []

empty-Balanced : Balanced no_notifications
empty-Balanced q = ground arith

empty-AllWatched : AllWatched no_notifications
empty-AllWatched = record { shown = tt; posted = tt }

run-Balanced_example : Balanced (run no_hints history no_notifications)
run-Balanced_example = run-Balanced no_hints history no_notifications (ground arith) empty-Balanced

run-AllWatched_example : AllWatched (run no_hints history no_notifications)
run-AllWatched_example =
    run-AllWatched no_hints history no_notifications (ground arith) empty-Balanced empty-AllWatched

-- A song is shown, for five seconds.
abbrev song : NotificationData
song = record (new_notification 1 0) {
  application = some 3;
  timeout = 5000;
  timer = some first_timer;
}

abbrev one_shown : Manager
one_shown = record {
  notifications = song ∷ [];
  id_counter = 1;
  pending = [];
  timers = first_timer ∷ [];
  next_serial = 1;
  outbox = [];
}

stale_timer-closes_example :
    ((k : NotificationData) × (find_notification_by_id 1
          (show_notification no_hints noon (request 1 (pos 0)) one_shown).0.notifications
        ≡ some k)
      × (k.timeout ≡ 0))
    × (closed 1
          (step no_hints
            (expire first_timer)
            (show_notification no_hints noon (request 1 (pos 0)) one_shown).0).outbox
        ≡ suc (closed 1 (show_notification no_hints noon (request 1 (pos 0)) one_shown).0.outbox))
unfolding find_notification_by_id
stale_timer-closes_example =
    stale_timer-closes no_hints noon (request 1 (pos 0)) first_timer song one_shown
      (λ e. omega (arith, e)) refl refl refl refl refl
