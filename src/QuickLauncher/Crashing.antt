-- ===== src/QuickLauncher/Crashing.antt =====
-- The slot of a container process that has finished: a crash counts as a failure of the entry.
use qtapplicationmanager.Prelude.{
  ℤ, is_zero, ℕ, zero, suc, ◌≡◌, refl, ◌∙◌, Bool, true, false, ◌&&◌, List, [], ◌∷◌, Option, none,
  some, any, length, length-append, append_assoc, append_nil, arith, map, ap, sym, ◌+◌, ◌++◌, ◌||◌,
  not, ◌==◌, if◌then◌else◌, if-both,
}
use qtapplicationmanager.QuickLauncher.Pool.{
  Car, QuickLaunchEntry, Launcher, World, add_failure, check_failed_starts, check_entry,
  recent_failures,
}

abbrev pub same_runtime : Option ℕ → Option ℕ → Bool
same_runtime none none = true
same_runtime (some r) (some q) = r == q
same_runtime none (some q) = false
same_runtime (some r) none = false

abbrev pub has_car : Car → QuickLaunchEntry → Bool
has_car car e = any (λ c. c.0 == car.0 && same_runtime c.1 car.1) e.containers_and_runtimes

-- The entry at an index: whether it has the car, which adds a failure to it.
unfoldable pub fail_at : World → Car → ℕ → List QuickLaunchEntry → List QuickLaunchEntry × Bool
fail_at w car k [] = ([], false)
fail_at w car zero (e ∷ pool) =
    if has_car car e then (add_failure w e ∷ pool, true) else (e ∷ pool, false)
fail_at w car (suc k) (e ∷ pool) = let (pool', hit) = fail_at w car k pool in (e ∷ pool', hit)

-- The loop over the entries from index `k` on: each hit checks the whole pool.
unfoldable pub fail_from : World → Car → ℕ → ℕ → Launcher → Launcher
fail_from w car zero k l = l
fail_from w car (suc n) k l =
    let (pool', hit) = fail_at w car k l.pool in
    fail_from w car n (suc k) (if hit then check_failed_starts w (record l { pool = pool' }) else l)

-- Am::ExitStatus.
pub data ExitStatus : Type 0 where
  normal_exit crash_exit forced_exit : ExitStatus

abbrev pub is_failure : ExitStatus → ℤ → Bool
is_failure crash_exit exit_code = true
is_failure normal_exit exit_code = not (is_zero exit_code)
is_failure forced_exit exit_code = false

unfoldable pub process_finished : World → ℤ → ExitStatus → Car → Launcher → Launcher
unfolding fail_from
process_finished w exit_code status car l =
    if is_failure status exit_code then fail_from w car (length l.pool) 0 l else l

-- What `check_failed_starts` is to one hit of the loop.
abbrev after_entry : World → Launcher → List QuickLaunchEntry × Bool → Launcher
after_entry w l (pool', hit) = if hit then check_failed_starts w (record l { pool = pool' }) else l

fail_from_turn :
    (w : World) (car : Car) (n k : ℕ) (l : Launcher)
    → fail_from w car (suc n) k l
      ≡ fail_from w car n (suc k) (after_entry w l (fail_at w car k l.pool))
unfolding fail_from
fail_from_turn w car n k l = refl

fail_at-hit :
    (w : World) (car : Car) (front : List QuickLaunchEntry) (e : QuickLaunchEntry)
    (rest : List QuickLaunchEntry)
    → has_car car e ≡ true
    → fail_at w car (length front) (front ++ e ∷ rest) ≡ (front ++ add_failure w e ∷ rest, true)
unfolding fail_at
fail_at-hit w car [] e rest h = rw h refl
fail_at-hit w car (x ∷ front) e rest h =
    ap (λ (r : List QuickLaunchEntry × Bool). (x ∷ r.0, r.1)) (fail_at-hit w car front e rest h)

fail_at-miss :
    (w : World) (car : Car) (front : List QuickLaunchEntry) (e : QuickLaunchEntry)
    (rest : List QuickLaunchEntry)
    → has_car car e ≡ false
    → fail_at w car (length front) (front ++ e ∷ rest) ≡ (front ++ e ∷ rest, false)
unfolding fail_at
fail_at-miss w car [] e rest h = rw h refl
fail_at-miss w car (x ∷ front) e rest h =
    ap (λ (r : List QuickLaunchEntry × Bool). (x ∷ r.0, r.1)) (fail_at-miss w car front e rest h)

none_of : (a b : Bool) → (a || b) ≡ false → (a ≡ false) × (b ≡ false)
none_of a b h = ground arith

-- The turns of the loop over entries that do not have the car.
fail_from-skip :
    (w : World) (car : Car) (front skip tail : List QuickLaunchEntry) (n : ℕ) (l : Launcher)
    → l.pool ≡ front ++ (skip ++ tail)
    → any (has_car car) skip ≡ false
    → fail_from w car (length skip + n) (length front) l
      ≡ fail_from w car n (length (front ++ skip)) l
fail_from-skip w car front [] tail n l e h =
    ap (λ m. fail_from w car m (length front) l) (omega arith)
    ∙ ap (λ xs. fail_from w car n (length xs) l) (sym (append_nil front))
fail_from-skip w car front (x ∷ skip) tail n l e h =
    let (here, later) = none_of (has_car car x) (any (has_car car) skip) h in
    let missed : fail_at w car (length front) l.pool ≡ (front ++ x ∷ (skip ++ tail), false) =
      ap (fail_at w car (length front)) e ∙ fail_at-miss w car front x (skip ++ tail) here in
    ap (λ m. fail_from w car m (length front) l) (omega arith)
    ∙ (fail_from_turn w car (length skip + n) (length front) l
        ∙ (ap (λ r. fail_from w car (length skip + n) (suc (length front)) (after_entry w l r))
              missed
            ∙ (ap (λ k. fail_from w car (length skip + n) k l)
                  (omega (arith, length-append front (x ∷ [])))
                ∙ (fail_from-skip w car (front ++ x ∷ []) skip tail n l
                      (e ∙ sym (append_assoc front x (skip ++ tail))) later
                    ∙ ap (λ xs. fail_from w car n (length xs) l) (append_assoc front x skip)))))

-- The failures do not move a car.
check_entry-has_car :
    (w : World) (car : Car) (l : Launcher) (e : QuickLaunchEntry)
    → has_car car (check_entry w l e) ≡ has_car car e
unfolding check_entry
check_entry-has_car w car l e =
    let P : QuickLaunchEntry → Type 0 = λ x. has_car car x ≡ has_car car e in
    if-both P e.disabled e _ refl (
      if-both P _ (record e { disabled = true; failed_time_stamps = [] })
        (record e { failed_time_stamps = recent_failures w l e }) refl refl)

any-check :
    (w : World) (car : Car) (l : Launcher) (pool : List QuickLaunchEntry)
    → any (has_car car) (map (check_entry w l) pool) ≡ any (has_car car) pool
any-check w car l [] = refl
any-check w car l (e ∷ pool) =
    ap (λ b. b || any (has_car car) (map (check_entry w l) pool)) (check_entry-has_car w car l e)
    ∙ ap (λ b. has_car car e || b) (any-check w car l pool)

pub map-append :
    (f : QuickLaunchEntry → QuickLaunchEntry) (xs ys : List QuickLaunchEntry)
    → map f (xs ++ ys) ≡ map f xs ++ map f ys
map-append f [] ys = refl
map-append f (x ∷ xs) ys = ap (λ zs. f x ∷ zs) (map-append f xs ys)

length-map :
    (f : QuickLaunchEntry → QuickLaunchEntry) (xs : List QuickLaunchEntry)
    → length (map f xs) ≡ length xs
length-map f [] = refl
length-map f (x ∷ xs) = ap suc (length-map f xs)

-- The loop over a pool in which one entry has the car.
pub fail_from-once :
    (w : World) (car : Car) (before : List QuickLaunchEntry) (e : QuickLaunchEntry)
    (after : List QuickLaunchEntry) (l : Launcher)
    → l.pool ≡ before ++ e ∷ after
    → has_car car e ≡ true
    → any (has_car car) before ≡ false
    → any (has_car car) after ≡ false
    → fail_from w car (length l.pool) 0 l
      ≡ check_failed_starts w (record l { pool = before ++ add_failure w e ∷ after })
unfolding fail_from
fail_from-once w car before e after l parts hit no_before no_after =
    let l' = record l { pool = before ++ add_failure w e ∷ after } in
    let check = check_entry w l' in
    let checked = check_failed_starts w l' in
    let front = map check before ++ check (add_failure w e) ∷ [] in
    let left = map check after in
    let parts' : checked.pool ≡ front ++ (left ++ []) =
      map-append check before (add_failure w e ∷ after)
      ∙ (sym (append_assoc (map check before) (check (add_failure w e)) left)
          ∙ ap (λ xs. front ++ xs) (sym (append_nil left))) in
    let place : suc (length before) ≡ length front = omega (
      arith,
      length-append (map check before) (check (add_failure w e) ∷ []),
      length-map check before,
    ) in
    let all : length after ≡ length left + 0 = omega (arith, length-map check after) in
    ap (λ n. fail_from w car n 0 l) (ap length parts ∙ length-append before (e ∷ after))
    ∙ (fail_from-skip w car [] before (e ∷ after) (suc (length after)) l parts no_before
        ∙ (fail_from_turn w car (length after) (length before) l
            ∙ (ap (λ r. fail_from w car (length after) (suc (length before)) (after_entry w l r))
                  (ap (fail_at w car (length before)) parts ∙ fail_at-hit w car before e after hit)
                ∙ (ap (λ k. fail_from w car (length after) k checked) place
                    ∙ (ap (λ n. fail_from w car n (length front) checked) all
                        ∙ fail_from-skip w car front left [] 0 checked parts'
                            (any-check w car l' after ∙ no_after))))))
