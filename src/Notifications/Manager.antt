-- ===== src/Notifications/Manager.antt =====
-- The operations of `NotificationManager`, and the calls that reach it.
use qtapplicationmanager.Prelude.{
  ℕ, suc, ◌+◌, ◌%◌, ◌^◌, Bool, true, false, not, String, List, [], ◌∷◌, ◌++◌, Option, none, some, ℤ,
  pos, negsuc, is_positive, any, ◌==◌, if◌then◌else◌,
}
use qtapplicationmanager.Qt.Map.{QMap, contains, value}
use qtapplicationmanager.Qt.Variant.{Variant, null}
use qtapplicationmanager.Notifications.State.{
  Timer, NotificationData, CloseReason, timeout_expired, user_dismissed, close_notification_called,
  notification_added, notification_changed, notification_about_to_be_removed, notification_closed,
  action_invoked, Manager, emit, find_notification_by_id, put, take_by_id, same_timer, delete_timer,
}

-- What the manager uses of QVariant; `to_uint` of a missing value is that of a null one, 0.
pub record HintOps : Type 0 where
  pub to_uint : Variant → ℕ
  pub to_string : Variant → String
  pub to_bool : Variant → Bool
  -- convertFromDBusVariant(v).toMap()
  pub to_map : Variant → QMap Variant

-- The application manager's `fromId`, the clock, and whether anything listens to
-- `notificationChanged`.
pub record World : Type 0 where
  pub from_id : String → Option ℕ
  pub now : ℕ
  pub is_changed_connected : Bool

-- The arguments of `showNotification`.
pub record Request : Type 0 where
  pub app_name : String
  pub replaces_id : ℕ
  pub app_icon : String
  pub summary : String
  pub body : String
  pub actions : List String
  pub hints : QMap Variant
  pub timeout : ℤ

-- The loop over the actions, two at a time.
unfoldable pub pair_up : List String → List (String × String)
pair_up [] = []
pair_up (key ∷ []) = []
pair_up (key ∷ text ∷ rest) = (key, text) ∷ pair_up rest

abbrev pub max_zero : ℤ → ℕ
max_zero (pos n) = n
max_zero (negsuc n) = 0

abbrev pub image_of : HintOps → QMap Variant → String → String
image_of ops hints old =
    if contains "image-data" hints
    then old
    else (if contains "image-path" hints
        then ops.to_string (value "image-path" null hints)
        else old)

-- What `showNotification` writes to a new or an old notification.
unfoldable pub fill : HintOps → Request → Option ℕ → NotificationData → NotificationData
unfolding pair_up
fill ops r app n = record n {
  application = app;
  priority = ops.to_uint (value "urgency" null r.hints);
  summary = r.summary;
  body = r.body;
  category = ops.to_string (value "category" null r.hints);
  icon_url = r.app_icon;
  image_url = image_of ops r.hints n.image_url;
  show_action_icons = ops.to_bool (value "action-icons" null r.hints);
  actions = pair_up r.actions;
  dismiss_on_action = not (ops.to_bool (value "resident" null r.hints));
  is_system_notification = ops.to_bool (value "x-pelagicore-system-notification" null r.hints);
  is_showing_progress = ops.to_bool (value "x-pelagicore-show-progress" null r.hints);
  timeout = max_zero r.timeout;
  extended = ops.to_map (value "x-pelagicore-extended" null r.hints);
}

abbrev pub new_notification : ℕ → ℕ → NotificationData
new_notification id now = record {
  id = id;
  application = none;
  priority = 0;
  summary = "";
  body = "";
  category = "";
  icon_url = "";
  image_url = "";
  show_action_icons = false;
  actions = [];
  dismiss_on_action = false;
  is_system_notification = false;
  is_showing_progress = false;
  timeout = 0;
  extended = [];
  created = now;
  updated = now;
  timer = none;
}

abbrev pub new_timer : NotificationData → Manager → Timer
new_timer n m = record { id = n.id; serial = m.next_serial }

-- The end of `notifyHelper`: with a timeout, the old timer goes and a new one starts.
unfoldable pub start_timer : ℤ → NotificationData → Manager → NotificationData × Manager
start_timer timeout n m =
    if is_positive timeout
    then (
      record n { timer = some (new_timer n m) },
      record m {
        timers = new_timer n m ∷ delete_timer n.timer m.timers;
        next_serial = suc m.next_serial;
      },
    )
    else (n, m)

-- `notifyHelper`, for a new notification and for one that is replaced.
unfoldable pub add_notification : NotificationData → ℤ → Manager → Manager
unfolding start_timer
add_notification n timeout m =
    let (n', m') = start_timer timeout n m in
    emit (notification_added n.id) (record m' { notifications = m'.notifications ++ n' ∷ [] })

unfoldable pub replace_notification : World → NotificationData → ℤ → Manager → Manager
unfolding start_timer
replace_notification w n timeout m =
    let (n', m') = start_timer timeout n m in
    let placed = record m' { notifications = put n' m'.notifications } in
    if w.is_changed_connected then emit (notification_changed n.id) placed else placed

abbrev pub same_application : Option ℕ → Option ℕ → Bool
same_application none none = true
same_application (some a) (some b) = a == b
same_application none (some b) = false
same_application (some a) none = false

-- `static uint idCounter`, which wraps.
abbrev pub next_id : Manager → ℕ
next_id m = (m.id_counter + 1) % 2 ^ 32

-- The replacement of a notification that was found: only its own application may do that.
unfoldable pub show_replacement :
    HintOps → World → Request → NotificationData → Manager → Manager × ℕ
unfolding replace_notification fill
show_replacement ops w r n m =
    if same_application (w.from_id r.app_name) n.application
    then (
      replace_notification w (fill ops r (w.from_id r.app_name) (record n { updated = w.now }))
          r.timeout m,
      n.id,
    )
    else (m, 0)

unfoldable pub show_new : HintOps → World → Request → Manager → Manager × ℕ
unfolding fill
show_new ops w r m =
    let n = fill ops r (w.from_id r.app_name) (new_notification (next_id m) w.now) in
    (record m { id_counter = next_id m; pending = m.pending ++ (n, r.timeout) ∷ [] }, n.id)

unfoldable pub show_notification : HintOps → World → Request → Manager → Manager × ℕ
unfolding show_new show_replacement find_notification_by_id
show_notification ops w r m =
    if r.replaces_id == 0
    then show_new ops w r m
    else elim (find_notification_by_id r.replaces_id m.notifications) [
      | none ↦ (m, 0)
      | some n ↦ show_replacement ops w r n m
    ]

-- `NotificationManagerPrivate::closeNotification`. No receiver of its signals calls it again, which
-- would end the program.
unfoldable pub close_with : CloseReason → ℕ → Manager → Manager
unfolding find_notification_by_id take_by_id
close_with reason id m = elim (find_notification_by_id id m.notifications) [
  | none ↦ m
  | some n ↦
      emit (notification_closed id reason) (record (emit (notification_about_to_be_removed id) m) {
        notifications = take_by_id id m.notifications;
      })
]

abbrev pub close_notification : ℕ → Manager → Manager
close_notification = close_with close_notification_called

abbrev pub dismiss_notification : ℕ → Manager → Manager
dismiss_notification = close_with user_dismissed

-- An action that is not registered is only logged.
unfoldable pub trigger_notification_action : ℕ → String → Manager → Manager
unfolding find_notification_by_id close_with
trigger_notification_action id action_id m = elim (find_notification_by_id id m.notifications) [
  | none ↦ m
  | some n ↦
      let invoked = emit (action_invoked id action_id) m in
      if n.dismiss_on_action then dismiss_notification id invoked else invoked
]

abbrev pub acknowledge_notification : ℕ → Manager → Manager
acknowledge_notification id = trigger_notification_action id "default"

-- The slot of a timer's `timeout`.
unfoldable pub timer_expired : Timer → Manager → Manager
unfolding close_with
timer_expired t m =
    let closed = close_with timeout_expired t.id m in
    record closed { timers = delete_timer (some t) closed.timers }

-- The posted call of `notifyHelper`.
unfoldable pub deliver_from : List (NotificationData × ℤ) → Manager → Manager
unfolding add_notification
deliver_from [] m = m
deliver_from ((n, timeout) ∷ rest) m = add_notification n timeout (record m { pending = rest })

abbrev pub deliver : Manager → Manager
deliver m = deliver_from m.pending m

pub data Event : Type 0 where
  show : World → Request → Event
  posted_call : Event
  close : ℕ → Event
  dismiss : ℕ → Event
  trigger : ℕ → String → Event
  -- A timer that runs reaches its end.
  expire : Timer → Event

abbrev pub is_running : Timer → Manager → Bool
is_running t m = any (λ u. same_timer u t) m.timers

unfoldable pub step : HintOps → Event → Manager → Manager
unfolding show_notification deliver_from trigger_notification_action timer_expired close_with
step ops (show w r) m = (show_notification ops w r m).0
step ops posted_call m = deliver m
step ops (close id) m = close_notification id m
step ops (dismiss id) m = dismiss_notification id m
step ops (trigger id action_id) m = trigger_notification_action id action_id m
step ops (expire t) m = if is_running t m then timer_expired t m else m

unfoldable pub run : HintOps → List Event → Manager → Manager
run ops [] m = m
run ops (e ∷ events) m = run ops events (step ops e m)
