-- ===== src/Starting/Finishing.antt =====
-- A shutdown that all runtimes have ended in has been reported.
use qtapplicationmanager.Prelude.{
  ℕ, ◌≤◌, ◌≡◌, ◌⊎◌, refl, sym, ◌∙◌, subst, Bool, true, false, not, List, [], ◌∷◌, Option, none,
  some, any, filter, is_empty, All, arith, Bool-cases, Option-cases, inl, inr, if-both, if-cases,
  ◌==◌, ==_iff,
}
use qtapplicationmanager.Starting.State.{Application, Manager}
use qtapplicationmanager.Starting.Stopping.{
  Shutdown, stop_current, stop_all, has_runtime, shutdown_helper, with_current, runtimes_of,
  shut_down, clear_in, clear_runtime, End, runtime_finishes, runtime_destroyed, end_step, end_all,
}

abbrev is_watched : List ℕ → Option ℕ → Bool
is_watched ws none = true
is_watched ws (some rt) = any (λ w. w == rt) ws

abbrev AllWatched : List ℕ → Manager → List ℕ → Type 0
AllWatched ws m apps = All (λ a. is_watched ws (m.app_at a).current_runtime ≡ true) apps

-- Either a runtime that is watched is still there, or the end was reported.
record Reports (s : Shutdown) : Type 0 where
  watched : AllWatched s.watched s.manager s.manager.apps
  reports : (is_empty s.watched ≡ false) ⊎ (1 ≤ s.finished)

some_watched :
    (ws : List ℕ) (m : Manager) (apps : List ℕ)
    → AllWatched ws m apps
    → any (has_runtime m) apps ≡ true
    → is_empty ws ≡ false
some_watched (w ∷ ws) m apps a h = refl
some_watched [] m [] a h = cc
some_watched [] m (b ∷ apps) a h = elim (Option-cases (m.app_at b).current_runtime) [
  | inl e ↦ some_watched [] m apps a.1 (rw e at h)
  | inr (rt, e) ↦ cc (rw e at a.0)
]

helper-Reports :
    (s : Shutdown) → AllWatched s.watched s.manager s.manager.apps → Reports (shutdown_helper s)
unfolding shutdown_helper
helper-Reports s a =
    if-cases Reports (any (has_runtime s.manager) s.manager.apps) _ _
      (λ h. record {
        watched = a;
        reports = inl (some_watched s.watched s.manager s.manager.apps a h);
      })
      (λ h. record { watched = a; reports = inr (omega arith) })

clear-watched :
    (ws : List ℕ) (rt : ℕ) (o : Option ℕ)
    → is_watched ws o ≡ true
    → is_watched ws (clear_in rt o) ≡ true
clear-watched ws rt none h = refl
clear-watched ws rt (some x) h =
    if-both (λ (o : Option ℕ). is_watched ws o ≡ true) (x == rt) _ _ refl h

still_any :
    (x rt : ℕ) (ws : List ℕ)
    → (x == rt) ≡ false
    → any (λ w. w == x) ws ≡ true
    → any (λ w. w == x) (filter (λ w. not (w == rt)) ws) ≡ true
still_any x rt [] ne h = h
still_any x rt (w ∷ ws) ne h = elim (Bool-cases (w == x)) [
  | inl hit ↦
      let other : (w == rt) ≡ false =
        subst (λ y. (y == rt) ≡ false) (sym ((==_iff w x).0 hit)) ne in
      rw other (rw hit refl)
  | inr miss ↦
      let rest = still_any x rt ws ne (rw miss at h) in
      if-both (λ (us : List ℕ). any (λ w. w == x) us ≡ true) (not (w == rt)) _ _ (rw miss rest) rest
]

destroy-watched :
    (ws : List ℕ) (rt : ℕ) (o : Option ℕ)
    → is_watched ws o ≡ true
    → is_watched (filter (λ w. not (w == rt)) ws) (clear_in rt o) ≡ true
destroy-watched ws rt none h = refl
destroy-watched ws rt (some x) h =
    if-cases (λ (o : Option ℕ). is_watched (filter (λ w. not (w == rt)) ws) o ≡ true) (x == rt) _ _
      (λ e. refl) (λ ne. still_any x rt ws ne h)

map_watched :
    (ws us : List ℕ) (rt : ℕ) (m : Manager) (apps : List ℕ)
    → ((o : Option ℕ) → is_watched ws o ≡ true → is_watched us (clear_in rt o) ≡ true)
    → AllWatched ws m apps
    → AllWatched us (clear_runtime rt m) apps
map_watched ws us rt m [] f a = tt
map_watched ws us rt m (b ∷ apps) f a =
    (f (m.app_at b).current_runtime a.0, map_watched ws us rt m apps f a.1)

end_step-Reports : (e : End) (s : Shutdown) → Reports s → Reports (end_step e s)
unfolding end_step
end_step-Reports (runtime_finishes rt) s r = record {
  watched =
      map_watched s.watched s.watched rt s.manager s.manager.apps (clear-watched s.watched rt)
        r.watched;
  reports = r.reports;
}
end_step-Reports (runtime_destroyed rt) s r =
    if-both Reports (any (λ w. w == rt) s.watched) _ _
      (helper-Reports
        (record s {
          manager = clear_runtime rt s.manager;
          watched = filter (λ w. not (w == rt)) s.watched;
        })
        (map_watched s.watched (filter (λ w. not (w == rt)) s.watched) rt s.manager s.manager.apps
          (destroy-watched s.watched rt) r.watched))
      (record {
        watched =
            map_watched s.watched s.watched rt s.manager s.manager.apps (clear-watched s.watched rt)
              r.watched;
        reports = r.reports;
      })

end_all-Reports : (ends : List End) (s : Shutdown) → Reports s → Reports (end_all ends s)
unfolding end_all
end_all-Reports [] s r = r
end_all-Reports (e ∷ ends) s r = end_all-Reports ends (end_step e s) (end_step-Reports e s r)

more_watched :
    (o p : Option ℕ) (ws : List ℕ)
    → is_watched ws p ≡ true
    → is_watched (with_current o ws) p ≡ true
more_watched none p ws h = h
more_watched (some rt) none ws h = refl
more_watched (some rt) (some x) ws h = ground arith

all_more_watched :
    (o : Option ℕ) (ws : List ℕ) (m : Manager) (apps : List ℕ)
    → AllWatched ws m apps
    → AllWatched (with_current o ws) m apps
all_more_watched o ws m [] a = tt
all_more_watched o ws m (b ∷ apps) a =
    (more_watched o (m.app_at b).current_runtime ws a.0, all_more_watched o ws m apps a.1)

own_watched : (o : Option ℕ) (ws : List ℕ) → is_watched (with_current o ws) o ≡ true
own_watched none ws = refl
own_watched (some rt) ws = ground arith

runtimes-watched : (m : Manager) (apps : List ℕ) → AllWatched (runtimes_of m apps) m apps
runtimes-watched m [] = tt
runtimes-watched m (a ∷ apps) = (
  own_watched (m.app_at a).current_runtime (runtimes_of m apps),
  all_more_watched (m.app_at a).current_runtime (runtimes_of m apps) m apps
      (runtimes-watched m apps),
)

-- A call of `stop` changes nothing in the applications.
record Stopped (m n : Manager) : Type 0 where
  apps : n.apps ≡ m.apps
  app_at : n.app_at ≡ m.app_at

stop_current-Stopped : (f : Bool) (o : Option ℕ) (m : Manager) → Stopped m (stop_current f o m)
stop_current-Stopped f none m = record { apps = refl; app_at = refl }
stop_current-Stopped f (some rt) m = record { apps = refl; app_at = refl }

stop_all-Stopped : (apps : List ℕ) (f : Bool) (m : Manager) → Stopped m (stop_all apps f m)
unfolding stop_all
stop_all-Stopped [] f m = record { apps = refl; app_at = refl }
stop_all-Stopped (a ∷ apps) f m =
    let one = stop_current-Stopped f (m.app_at a).current_runtime m in
    let rest = stop_all-Stopped apps f (stop_current f (m.app_at a).current_runtime m) in
    record { apps = rest.apps ∙ one.apps; app_at = rest.app_at ∙ one.app_at }

shut_down-Reports : (m : Manager) → Reports (shut_down m)
unfolding shut_down
shut_down-Reports m =
    let closing = record m { is_shutting_down = true } in
    let n = stop_all m.apps false closing in
    let s = stop_all-Stopped m.apps false closing in
    helper-Reports (record { manager = n; watched = runtimes_of m m.apps; finished = 0 })
      (subst (λ apps. AllWatched (runtimes_of m m.apps) n apps) (sym s.apps)
        (subst
          (λ (f : ℕ → Application).
            All (λ a. is_watched (runtimes_of m m.apps) (f a).current_runtime ≡ true) m.apps)
          (sym s.app_at) (runtimes-watched m m.apps)))

-- After shutDown, and any sequence of runtimes that finish and are destroyed, in any order: once every
-- runtime that an application had at the shutdown is destroyed, shutDownFinished was emitted at
-- least once. When no application had one, that is so at once.
pub shut_down-Finishes :
    (ends : List End) (m : Manager)
    → is_empty (end_all ends (shut_down m)).watched ≡ true
    → 1 ≤ (end_all ends (shut_down m)).finished
shut_down-Finishes ends m none' =
    elim (end_all-Reports ends (shut_down m) (shut_down-Reports m)).reports [
      | inl h ↦ cc
      | inr h ↦ h
    ]
