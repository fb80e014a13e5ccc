-- ===== src/Notifications/State.antt =====
-- One notification, the manager's state, and the searches by id.
use qtapplicationmanager.Prelude.{
  ℕ, Bool, ◌&&◌, not, String, List, [], ◌∷◌, Option, none, some, ℤ, filter, ◌==◌, if◌then◌else◌,
}
use qtapplicationmanager.Qt.Map.{QMap}
use qtapplicationmanager.Qt.Variant.{Variant}

-- A QTimer: the id that its slot has captured, and which of the timers made so far it is. Two timers
-- are the same object exactly when both agree.
pub record Timer : Type 0 where
  pub id : ℕ
  pub serial : ℕ

-- `actions` has the key and the text of each one-element map; times are in milliseconds. `isSticky`,
-- which nothing sets, and the progress, a floating point number that nothing here reads, are left out.
pub record NotificationData : Type 0 where
  pub id : ℕ
  pub application : Option ℕ
  pub priority : ℕ
  pub summary : String
  pub body : String
  pub category : String
  pub icon_url : String
  pub image_url : String
  pub show_action_icons : Bool
  pub actions : List (String × String)
  pub dismiss_on_action : Bool
  pub is_system_notification : Bool
  pub is_showing_progress : Bool
  pub timeout : ℕ
  pub extended : QMap Variant
  pub created : ℕ
  pub updated : ℕ
  pub timer : Option Timer

pub data CloseReason : Type 0 where
  timeout_expired user_dismissed close_notification_called : CloseReason

pub data Signal : Type 0 where
  notification_added : ℕ → Signal
  notification_changed : ℕ → Signal
  notification_about_to_be_removed : ℕ → Signal
  notification_closed : ℕ → CloseReason → Signal
  action_invoked : ℕ → String → Signal

-- `pending` has the posted calls of `notifyHelper`, oldest first, with the notification that each one
-- has captured and its timeout; `timers` are the ones that run; the newest signal comes first.
pub record Manager : Type 0 where
  pub notifications : List NotificationData
  pub id_counter : ℕ
  pub pending : List (NotificationData × ℤ)
  pub timers : List Timer
  pub next_serial : ℕ
  pub outbox : List Signal

abbrev pub emit : Signal → Manager → Manager
emit x m = record m { outbox = x ∷ m.outbox }

-- `findNotificationById`, with the notification for its index.
unfoldable pub find_notification_by_id : ℕ → List NotificationData → Option NotificationData
find_notification_by_id id [] = none
find_notification_by_id id (n ∷ ns) = if n.id == id then some n else find_notification_by_id id ns

-- A write to the notification that the search finds.
unfoldable pub put : NotificationData → List NotificationData → List NotificationData
put n [] = []
put n (k ∷ ns) = if k.id == n.id then n ∷ ns else k ∷ put n ns

-- `takeAt` of the index that the search finds.
unfoldable pub take_by_id : ℕ → List NotificationData → List NotificationData
take_by_id id [] = []
take_by_id id (n ∷ ns) = if n.id == id then ns else n ∷ take_by_id id ns

abbrev pub same_timer : Timer → Timer → Bool
same_timer t u = t.id == u.id && t.serial == u.serial

-- `delete n->timer`; a null pointer is none.
abbrev pub delete_timer : Option Timer → List Timer → List Timer
delete_timer none ts = ts
delete_timer (some t) ts = filter (λ u. not (same_timer u t)) ts
