-- ===== src/QuickLauncher/Counting.antt =====
-- What the end of a container's process does to the failures of the pool's entries.
use qtapplicationmanager.Prelude.{
  ℤ, ◌*◌, Bool-cases, inl, inr, ℕ, suc, ◌≡◌, refl, ◌∙◌, Bool, true, false, ◌&&◌, List, [], ◌∷◌, any,
  length, length-append, arith, map, ap, ◌+◌, ◌++◌, filter, ltb, leb, not, ◌==◌, if◌then◌else◌,
}
use qtapplicationmanager.QuickLauncher.Pool.{
  Car, QuickLaunchEntry, Launcher, World, add_failure, check_entry, recent_failures,
}
use qtapplicationmanager.QuickLauncher.Crashing.{
  has_car, ExitStatus, is_failure, process_finished, map-append, fail_from-once,
}

filter-append :
    (p : ℕ → Bool) (xs : List ℕ) (x : ℕ)
    → p x ≡ true
    → filter p (xs ++ x ∷ []) ≡ filter p xs ++ x ∷ []
filter-append p [] x h = rw h refl
filter-append p (y ∷ xs) x h = elim (Bool-cases (p y)) [
  | inl yes' ↦ rw (yes', filter-append p xs x h) refl
  | inr no' ↦ rw (no', filter-append p xs x h) refl
]

is_recent : (now interval : ℕ) → not (ltb (now + interval * 1000) now) ≡ true
is_recent now interval = ground arith

-- The failure that is added now is in the interval.
recent-add_failure :
    (w : World) (l : Launcher) (e : QuickLaunchEntry)
    → recent_failures w l (add_failure w e) ≡ recent_failures w l e ++ w.current_msecs ∷ []
recent-add_failure w l e =
    filter-append (λ ts. not (ltb (ts + l.failed_start_limit_interval_sec * 1000) w.current_msecs))
      e.failed_time_stamps w.current_msecs
      (is_recent w.current_msecs l.failed_start_limit_interval_sec)

-- Whether one failure more than there are in the interval is too many.
abbrev pub is_too_many : World → Launcher → QuickLaunchEntry → Bool
is_too_many w l e =
    not (l.failed_start_limit == 0)
    && not (l.failed_start_limit_interval_sec == 0)
    && leb l.failed_start_limit (suc (length (recent_failures w l e)))

-- The entry after a failure: it is disabled, or knows of the failure.
abbrev pub counted : World → Launcher → QuickLaunchEntry → QuickLaunchEntry
counted w l e =
    if is_too_many w l e
    then record e { disabled = true; failed_time_stamps = [] }
    else record e { failed_time_stamps = recent_failures w l e ++ w.current_msecs ∷ [] }

check-add_failure :
    (w : World) (l : Launcher) (e : QuickLaunchEntry)
    → e.disabled ≡ false
    → check_entry w l (add_failure w e) ≡ counted w l e
unfolding check_entry
check-add_failure w l e on =
    let Stamps : Type 0 = List ℕ in
    let judge : Stamps → QuickLaunchEntry = λ stamps.
      if not (l.failed_start_limit == 0)
        && not (l.failed_start_limit_interval_sec == 0)
        && leb l.failed_start_limit (length stamps)
      then record e { disabled = true; failed_time_stamps = [] }
      else record e { failed_time_stamps = stamps } in
    let stamps = recent_failures w l e ++ w.current_msecs ∷ [] in
    let more : length stamps ≡ suc (length (recent_failures w l e)) =
      omega (arith, length-append (recent_failures w l e) (w.current_msecs ∷ [])) in
    ap (λ b. if b then add_failure w e else judge (recent_failures w l (add_failure w e))) on
    ∙ (ap judge (recent-add_failure w l e)
        ∙ ap
            (λ n.
              if not (l.failed_start_limit == 0)
                && not (l.failed_start_limit_interval_sec == 0)
                && leb l.failed_start_limit n
              then record e { disabled = true; failed_time_stamps = [] }
              else record e { failed_time_stamps = stamps })
            more)

-- What the end of a process does to the launcher, if it was a failure and if not.
abbrev pub FailureCounted :
    World
    → Launcher
    → List QuickLaunchEntry
    → QuickLaunchEntry
    → List QuickLaunchEntry
    → Bool
    → Launcher
    → Type 0
FailureCounted w l before e after true l' = l' ≡ record l {
  pool = map (check_entry w l) before ++ counted w l e ∷ map (check_entry w l) after;
}
FailureCounted w l before e after false l' = l' ≡ l

-- For a process whose container and runtime are in exactly one entry of the pool, and that entry is not
-- disabled: when the process crashes, or exits by itself with a code other than 0, one failure is added
-- to this entry. The entry is disabled, and its failures are forgotten, if the limit and the interval
-- are not 0 and the failures in the interval, with the new one, have reached the limit; otherwise it
-- keeps those in the interval. Every other entry is checked once, with the failures that it had. After any
-- other exit nothing changes.
pub process_finished-Counts :
    (w : World) (exit_code : ℤ) (status : ExitStatus) (car : Car) (l : Launcher)
    (before : List QuickLaunchEntry) (e : QuickLaunchEntry) (after : List QuickLaunchEntry)
    → l.pool ≡ before ++ e ∷ after
    → has_car car e ≡ true
    → any (has_car car) before ≡ false
    → any (has_car car) after ≡ false
    → e.disabled ≡ false
    → FailureCounted w l before e after
        (is_failure status exit_code)
        (process_finished w exit_code status car l)
unfolding process_finished check_entry
process_finished-Counts w exit_code status car l before e after parts hit no_before no_after on =
    let l' = record l { pool = before ++ add_failure w e ∷ after } in
    elim (Bool-cases (is_failure status exit_code)) [
      | inr calm ↦ rw (calm, process_finished) refl
      | inl failed ↦
          rw (failed, process_finished)
            (fail_from-once w car before e after l parts hit no_before no_after
              ∙ ap (λ pool. record l { pool = pool })
                  (map-append (check_entry w l') before (add_failure w e ∷ after)
                    ∙ ap (λ x. map (check_entry w l') before ++ x ∷ map (check_entry w l') after)
                        (check-add_failure w l' e on)))
    ]
