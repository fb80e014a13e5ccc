-- ===== src/Notifications/Held.antt =====
-- What each operation does to an id's account: how often it is held, and how often it was closed.
use qtapplicationmanager.Prelude.{
  ℕ, ◌+◌, ◌≡◌, refl, ap, subst, ◌&&◌, String, List, [], ◌∷◌, ◌++◌, some, ℤ, arith, map, ltb, leb,
  ◌==◌, Bool-cases, Option-cases, inl, inr, if-both, is_positive, ==_iff,
}
use mathlib.Core.Option.{some-injective}
use qtapplicationmanager.Qt.Queue.{one_if, count}
use qtapplicationmanager.Notifications.State.{
  Timer, NotificationData, CloseReason, Signal, notification_added, notification_changed,
  notification_about_to_be_removed, notification_closed, action_invoked, timeout_expired,
  user_dismissed, Manager, find_notification_by_id, put, take_by_id,
}
use qtapplicationmanager.Notifications.Manager.{
  HintOps, World, Request, start_timer, add_notification, replace_notification, same_application,
  show_replacement, close_with, trigger_notification_action, timer_expired, deliver_from,
}

abbrev pub ids : List NotificationData → List ℕ
ids ns = map (λ n. n.id) ns

abbrev pub pending_ids : List (NotificationData × ℤ) → List ℕ
pending_ids ps = map (λ p. p.0.id) ps

-- How often the manager holds a notification with the id: shown, or about to be shown.
abbrev pub held : ℕ → Manager → ℕ
held q m = count q (ids m.notifications) + count q (pending_ids m.pending)

-- How often `notificationClosed` was emitted for the id.
abbrev pub closed : ℕ → List Signal → ℕ
closed q [] = 0
closed q (notification_closed id reason ∷ xs) = one_if (id == q) + closed q xs
closed q (notification_added id ∷ xs) = closed q xs
closed q (notification_changed id ∷ xs) = closed q xs
closed q (notification_about_to_be_removed id ∷ xs) = closed q xs
closed q (action_invoked id action ∷ xs) = closed q xs

-- 1 for an id that was handed out, and 0 for any other number.
abbrev pub handed : ℕ → ℕ → ℕ
handed q counter = one_if (ltb 0 q && leb q counter)

abbrev pub Balanced : Manager → Type 0
Balanced m = (q : ℕ) → held q m + closed q m.outbox ≡ handed q m.id_counter

-- The id's account is the same, and the counter too.
pub record Kept (q : ℕ) (m m' : Manager) : Type 0 where
  pub account : held q m' + closed q m'.outbox ≡ held q m + closed q m.outbox
  pub counter : m'.id_counter ≡ m.id_counter

pub Kept-refl : (q : ℕ) (m : Manager) → Kept q m m
Kept-refl q m = record { account = refl; counter = refl }

pub find-id :
    (id : ℕ) (ns : List NotificationData) (n : NotificationData)
    → find_notification_by_id id ns ≡ some n
    → n.id ≡ id
unfolding find_notification_by_id
find-id id [] n e = cc
find-id id (k ∷ ns) n e = elim (Bool-cases (k.id == id)) [
  | inl hit ↦ subst (λ x. x.id ≡ id) (some-injective k n (rw hit at e)) ((==_iff k.id id).0 hit)
  | inr miss ↦ find-id id ns n (rw miss at e)
]

count-take :
    (id q : ℕ) (ns : List NotificationData) (n : NotificationData)
    → find_notification_by_id id ns ≡ some n
    → count q (ids ns) ≡ count q (ids (take_by_id id ns)) + one_if (id == q)
unfolding find_notification_by_id take_by_id
count-take id q [] n e = cc
count-take id q (k ∷ ns) n e = elim (Bool-cases (k.id == id)) [
  | inl hit ↦ rw hit (omega (arith, ap (λ x. one_if (x == q)) ((==_iff k.id id).0 hit)))
  | inr miss ↦ rw miss (omega (arith, count-take id q ns n (rw miss at e)))
]

pub ids-put : (n : NotificationData) (ns : List NotificationData) → ids (put n ns) ≡ ids ns
unfolding put
ids-put n [] = refl
ids-put n (k ∷ ns) = elim (Bool-cases (k.id == n.id)) [
  | inl hit ↦ rw hit (ap (λ x. x ∷ ids ns) (omega (arith, (==_iff k.id n.id).0 hit)))
  | inr miss ↦ rw miss (ap (λ xs. k.id ∷ xs) (ids-put n ns))
]

-- A timer that starts leaves all this alone.
record Timed (n n' : NotificationData) (m m' : Manager) : Type 0 where
  id : n'.id ≡ n.id
  notifications : m'.notifications ≡ m.notifications
  pending : m'.pending ≡ m.pending
  counter : m'.id_counter ≡ m.id_counter
  outbox : m'.outbox ≡ m.outbox

start_timer-Timed :
    (timeout : ℤ) (n : NotificationData) (m : Manager)
    → Timed n (start_timer timeout n m).0 m (start_timer timeout n m).1
unfolding start_timer
start_timer-Timed timeout n m =
    if-both (λ (r : NotificationData × Manager). Timed n r.0 m r.1) (is_positive timeout) _ _
      (record { id = refl; notifications = refl; pending = refl; counter = refl; outbox = refl })
      (record { id = refl; notifications = refl; pending = refl; counter = refl; outbox = refl })

map_append_ids :
    (q : ℕ) (ns : List NotificationData) (n : NotificationData)
    → count q (ids (ns ++ n ∷ [])) ≡ count q (ids ns) + one_if (n.id == q)
map_append_ids q [] n = omega arith
map_append_ids q (k ∷ ns) n = omega (arith, map_append_ids q ns n)

pub append_pending :
    (q : ℕ) (ps : List (NotificationData × ℤ)) (n : NotificationData) (timeout : ℤ)
    → count q (pending_ids (ps ++ (n, timeout) ∷ []))
      ≡ count q (pending_ids ps) + one_if (n.id == q)
append_pending q [] n timeout = omega arith
append_pending q (p ∷ ps) n timeout = omega (arith, append_pending q ps n timeout)

add-Kept :
    (q : ℕ) (n : NotificationData) (timeout : ℤ) (rest : List (NotificationData × ℤ)) (m : Manager)
    → m.pending ≡ (n, timeout) ∷ rest
    → Kept q m (add_notification n timeout (record m { pending = rest }))
unfolding add_notification
add-Kept q n timeout rest m w =
    let u = record m { pending = rest } in
    let (n', m') = start_timer timeout n u in
    let t = start_timer-Timed timeout n u in
    record {
      account = omega (
        arith,
        map_append_ids q m'.notifications n',
        ap (λ x. one_if (x == q)) t.id,
        ap (λ xs. count q (ids xs)) t.notifications,
        ap (λ xs. count q (pending_ids xs)) t.pending,
        ap (closed q) t.outbox,
        ap (λ xs. count q (pending_ids xs)) w,
      );
      counter = t.counter;
    }

placed-Kept :
    (q : ℕ) (n n' : NotificationData) (m m' : Manager)
    → Timed n n' m m'
    → Kept q m (record m' { notifications = put n' m'.notifications })
placed-Kept q n n' m m' t = record {
  account = omega (
    arith,
    ap (count q) (ids-put n' m'.notifications),
    ap (λ xs. count q (ids xs)) t.notifications,
    ap (λ xs. count q (pending_ids xs)) t.pending,
    ap (closed q) t.outbox,
  );
  counter = t.counter;
}

replace-Kept :
    (w : World) (q : ℕ) (n : NotificationData) (timeout : ℤ) (m : Manager)
    → Kept q m (replace_notification w n timeout m)
unfolding replace_notification
replace-Kept w q n timeout m =
    let k =
      placed-Kept q n (start_timer timeout n m).0 m (start_timer timeout n m).1
        (start_timer-Timed timeout n m) in
    if-both (Kept q m) w.is_changed_connected _ _
      (record { account = k.account; counter = k.counter })
      (record { account = k.account; counter = k.counter })

pub show_replacement-Kept :
    (ops : HintOps) (w : World) (r : Request) (q : ℕ) (n : NotificationData) (m : Manager)
    → Kept q m (show_replacement ops w r n m).0
unfolding show_replacement
show_replacement-Kept ops w r q n m =
    if-both (λ (x : Manager × ℕ). Kept q m x.0)
      (same_application (w.from_id r.app_name) n.application) _ _ (replace-Kept w q _ r.timeout m)
      (Kept-refl q m)

pub close-Kept : (reason : CloseReason) (id q : ℕ) (m : Manager) → Kept q m (close_with reason id m)
unfolding close_with
close-Kept reason id q m = elim (Option-cases (find_notification_by_id id m.notifications)) [
  | inl e ↦ rw (e, close_with) (Kept-refl q m)
  | inr (n, e) ↦
      rw (e, close_with)
        (record { account = omega (arith, count-take id q m.notifications n e); counter = refl })
]

pub trigger-Kept :
    (id : ℕ) (action_id : String) (q : ℕ) (m : Manager)
    → Kept q m (trigger_notification_action id action_id m)
unfolding trigger_notification_action
trigger-Kept id action_id q m = elim (Option-cases (find_notification_by_id id m.notifications)) [
  | inl e ↦ rw (e, trigger_notification_action) (Kept-refl q m)
  | inr (n, e) ↦
      let c =
        close-Kept user_dismissed id q
          (record m { outbox = action_invoked id action_id ∷ m.outbox }) in
      rw (e, trigger_notification_action)
        (if-both (Kept q m) n.dismiss_on_action _ _
          (record { account = c.account; counter = c.counter })
          (record { account = refl; counter = refl }))
]

pub expired-Kept : (t : Timer) (q : ℕ) (m : Manager) → Kept q m (timer_expired t m)
unfolding timer_expired
expired-Kept t q m =
    let c = close-Kept timeout_expired t.id q m in
    record { account = c.account; counter = c.counter }

pub deliver-Kept :
    (ps : List (NotificationData × ℤ)) (q : ℕ) (m : Manager)
    → m.pending ≡ ps
    → Kept q m (deliver_from ps m)
unfolding deliver_from
deliver-Kept [] q m w = Kept-refl q m
deliver-Kept ((n, timeout) ∷ rest) q m w = add-Kept q n timeout rest m w
