-- ===== src/Notifications/Serving.antt =====
-- Which timers a notification needs, and what becomes of them when timers start and are deleted.
use mathlib.Core.Option.{some-injective}
use qtapplicationmanager.Prelude.{
  ℕ, zero, suc, ◌+◌, ◌≤◌, ◌≡◌, ◌≢◌, ◌⊎◌, refl, sym, subst, Bool, true, false, not, List, [], ◌∷◌,
  Option, none, some, ℤ, pos, negsuc, arith, All, any, ◌==◌, Bool-cases, inl, inr, if-both,
  if-cases, is_positive, ==_iff,
}
use qtapplicationmanager.Qt.Queue.{count}
use qtapplicationmanager.Notifications.State.{
  Timer, NotificationData, Manager, find_notification_by_id, put, take_by_id, same_timer,
  delete_timer,
}
use qtapplicationmanager.Notifications.Manager.{max_zero, new_timer, start_timer}
use qtapplicationmanager.Notifications.Held.{ids, handed}

abbrev pub has_timer : Timer → List Timer → Bool
has_timer t ts = any (λ u. same_timer u t) ts

-- A notification's timer, also one that has been deleted, was made for its id.
abbrev pub Own : Option Timer → ℕ → Type 0
Own none id = Unit
Own (some t) id = t.id ≡ id

-- With a timeout, the notification's timer runs.
abbrev pub Watched : List Timer → NotificationData → Type 0
Watched ts n =
    Own n.timer n.id
    × ((n.timeout ≡ 0) ⊎ ((t : Timer) × (n.timer ≡ some t) × (has_timer t ts ≡ true)))

-- A posted notification has no timer yet, and will get one if it has a timeout.
abbrev pub Fresh : NotificationData × ℤ → Type 0
Fresh (n, timeout) = (n.timer ≡ none) × (n.timeout ≡ max_zero timeout)

pub record AllWatched (m : Manager) : Type 0 where
  pub shown : All (Watched m.timers) m.notifications
  pub posted : All Fresh m.pending

same_self : (t : Timer) → same_timer t t ≡ true
same_self t = ground arith

same-ids : (t u : Timer) → same_timer t u ≡ true → t.id ≡ u.id
same-ids t u h = ground arith

other_kept : (u t x : Timer) → same_timer u t ≡ true → t.id ≢ x.id → same_timer u x ≡ false
other_kept u t x h ne = ground arith

has-delete :
    (t x : Timer) (ts : List Timer)
    → t.id ≢ x.id
    → has_timer t ts ≡ true
    → has_timer t (delete_timer (some x) ts) ≡ true
has-delete t x [] ne h = h
has-delete t x (u ∷ ts) ne h = elim (Bool-cases (same_timer u t)) [
  | inl same ↦ rw (other_kept u t x same ne) (rw same refl)
  | inr other ↦
      let rest = has-delete t x ts ne (rw other at h) in
      if-both (λ (us : List Timer). has_timer t us ≡ true) (not (same_timer u x)) _ _
        (rw other rest) rest
]

-- The timers `us` serve every notification that `ts` served, but perhaps not those with the id `i`.
abbrev pub Serves : ℕ → List Timer → List Timer → Type 0
Serves i ts us = (k : NotificationData) → k.id ≢ i → Watched ts k → Watched us k

pub Serves-delete :
    (i : ℕ) (o : Option Timer) (ts : List Timer) → Own o i → Serves i ts (delete_timer o ts)
Serves-delete i none ts own k ne w = w
Serves-delete i (some x) ts own k ne (mine, inl sticky) = (mine, inl sticky)
Serves-delete i (some x) ts own k ne (mine, inr (t, e, h)) =
    let same : t.id ≡ k.id = subst (λ o. Own o k.id) e mine in
    (mine, inr (t, e, has-delete t x ts (λ c. ne (omega (arith, c, same, own))) h))

Watched-cons :
    (x : Timer) (ts : List Timer) (k : NotificationData) → Watched ts k → Watched (x ∷ ts) k
Watched-cons x ts k (mine, inl sticky) = (mine, inl sticky)
Watched-cons x ts k (mine, inr (t, e, h)) = (
  mine,
  inr (
    t,
    e,
    elim (Bool-cases (same_timer x t)) [ inl same ↦ rw same refl | inr other ↦ rw other h ],
  ),
)

-- What `start_timer` promises.
pub record Started (n : NotificationData) (m : Manager) (r : NotificationData × Manager)
    : Type 0 where
  pub id : r.0.id ≡ n.id
  pub watched : Watched r.1.timers r.0
  pub serves : Serves n.id m.timers r.1.timers
  pub grows : (k : NotificationData) → n.timer ≡ none → Watched m.timers k → Watched r.1.timers k
  pub notifications : r.1.notifications ≡ m.notifications
  pub pending : r.1.pending ≡ m.pending

pub no_timeout : (z : ℤ) → is_positive z ≡ false → max_zero z ≡ 0
no_timeout (pos zero) h = refl
no_timeout (pos (suc k)) h = cc
no_timeout (negsuc k) h = refl

pub start_timer-Started :
    (timeout : ℤ) (n : NotificationData) (m : Manager)
    → Own n.timer n.id
    → n.timeout ≡ max_zero timeout
    → Started n m (start_timer timeout n m)
unfolding start_timer
start_timer-Started timeout n m own e =
    if-cases (Started n m) (is_positive timeout) _ _
      (λ timed. record {
        id = refl;
        watched = (refl, inr (new_timer n m, refl, rw (same_self (new_timer n m)) refl));
        serves = λ k ne w.
            Watched-cons (new_timer n m) (delete_timer n.timer m.timers) k
              (Serves-delete n.id n.timer m.timers own k ne w);
        grows = λ k none' w.
            Watched-cons (new_timer n m) (delete_timer n.timer m.timers) k
              (subst (λ o. Watched (delete_timer o m.timers) k) (sym none') w);
        notifications = refl;
        pending = refl;
      })
      (λ sticky. record {
        id = refl;
        watched = (own, inl (omega (arith, e, no_timeout timeout sticky)));
        serves = λ k ne w. w;
        grows = λ k none' w. w;
        notifications = refl;
        pending = refl;
      })

count_hit :
    (i : ℕ) (k : NotificationData) (ns : List NotificationData)
    → (k.id == i) ≡ true
    → count i (ids (k ∷ ns)) ≡ count i (ids ns) + 1
count_hit i k ns h = rw h (omega arith)

count_head :
    (i : ℕ) (k : NotificationData) (ns : List NotificationData)
    → k.id ≡ i
    → count i (ids (k ∷ ns)) ≡ 0
    → ⊥
count_head i k ns e c = omega (arith, count_hit i k ns ((==_iff k.id i).1 e))

pub handed_le : (n q c : ℕ) → n ≤ handed q c → n ≤ 1
handed_le n q c h = ground arith

pub serve_all :
    (i : ℕ) (ts us : List Timer) (ns : List NotificationData)
    → Serves i ts us
    → count i (ids ns) ≡ 0
    → All (Watched ts) ns
    → All (Watched us) ns
serve_all i ts us [] s c a = tt
serve_all i ts us (k ∷ ns) s c a =
    (s k (λ e. count_head i k ns e c) a.0, serve_all i ts us ns s (omega arith) a.1)

pub put_all :
    (ts us : List Timer) (n : NotificationData) (ns : List NotificationData)
    → Serves n.id ts us
    → Watched us n
    → count n.id (ids ns) ≤ 1
    → All (Watched ts) ns
    → All (Watched us) (put n ns)
unfolding put
put_all ts us n [] s w c a = tt
put_all ts us n (k ∷ ns) s w c a = elim (Bool-cases (k.id == n.id)) [
  | inl hit ↦ rw hit (w, serve_all n.id ts us ns s (omega (arith, count_hit n.id k ns hit)) a.1)
  | inr miss ↦
      rw miss (s k (λ e. cc ((==_iff k.id n.id).1 e)) a.0, put_all ts us n ns s w (omega arith) a.1)
]

pub take_all :
    (i : ℕ) (ts us : List Timer) (ns : List NotificationData)
    → Serves i ts us
    → count i (ids ns) ≤ 1
    → All (Watched ts) ns
    → All (Watched us) (take_by_id i ns)
unfolding take_by_id
take_all i ts us [] s c a = tt
take_all i ts us (k ∷ ns) s c a = elim (Bool-cases (k.id == i)) [
  | inl hit ↦ rw hit (serve_all i ts us ns s (omega (arith, count_hit i k ns hit)) a.1)
  | inr miss ↦
      rw miss (s k (λ e. cc ((==_iff k.id i).1 e)) a.0, take_all i ts us ns s (omega arith) a.1)
]

pub take_same :
    (i : ℕ) (ts : List Timer) (ns : List NotificationData)
    → All (Watched ts) ns
    → All (Watched ts) (take_by_id i ns)
unfolding take_by_id
take_same i ts [] a = tt
take_same i ts (k ∷ ns) a =
    if-both (All (Watched ts)) (k.id == i) _ _ a.1 (a.0, take_same i ts ns a.1)

pub Watched-find :
    (i : ℕ) (ts : List Timer) (ns : List NotificationData) (n : NotificationData)
    → find_notification_by_id i ns ≡ some n
    → All (Watched ts) ns
    → Watched ts n
unfolding find_notification_by_id
Watched-find i ts [] n e a = cc
Watched-find i ts (k ∷ ns) n e a = elim (Bool-cases (k.id == i)) [
  | inl hit ↦ subst (Watched ts) (some-injective k n (rw hit at e)) a.0
  | inr miss ↦ Watched-find i ts ns n (rw miss at e) a.1
]

pub not_found :
    (i : ℕ) (ns : List NotificationData)
    → find_notification_by_id i ns ≡ none
    → count i (ids ns) ≡ 0
unfolding find_notification_by_id
not_found i [] e = refl
not_found i (k ∷ ns) e = elim (Bool-cases (k.id == i)) [
  | inl hit ↦ cc (rw hit at e)
  | inr miss ↦ rw miss (omega (arith, not_found i ns (rw miss at e)))
]

pub grow_all :
    (ts us : List Timer) (ns : List NotificationData)
    → ((k : NotificationData) → Watched ts k → Watched us k)
    → All (Watched ts) ns
    → All (Watched us) ns
grow_all ts us [] f a = tt
grow_all ts us (k ∷ ns) f a = (f k a.0, grow_all ts us ns f a.1)
