-- ===== src/QuickLauncher/Removing.antt =====
-- The end of a shutdown: when `removeEntry` emits `shutDownFinished`.
use qtapplicationmanager.Prelude.{
  ℕ, suc, ◌+◌, ◌-◌, ◌≤◌, ◌<◌, ◌≡◌, ◌↔◌, refl, Bool, true, false, ◌&&◌, List, [], ◌∷◌, Option, arith,
  All, length, ltb, ◌==◌, Bool-cases, inl, inr, if-cases,
}
use qtapplicationmanager.QuickLauncher.Pool.{
  Car, QuickLaunchEntry, Launcher, cars, size, is_removed, scan_cars, scan_pool, remove_entry,
}

-- What the inner loop does, when `before` cars of the list stay in front of the ones to scan.
record Scanned (before : ℕ) (xs kept : List Car) (car_count car_removed : ℕ) : Type 0 where
  balance : car_removed + length kept ≡ length xs
  -- A count of 0 is the end of a list that has become empty.
  sound : car_count ≡ 0 → 1 ≤ length xs → before + length kept ≡ 0
  complete : car_removed ≤ 1 → before + length kept ≡ 0 → car_count ≡ 0

scan_cars-Scanned :
    (removed : Car → Bool) (before n : ℕ) (xs : List Car)
    → n ≡ before + length xs
    → Scanned before xs
        (scan_cars removed n xs).0
        (scan_cars removed n xs).1
        (scan_cars removed n xs).2
unfolding scan_cars
scan_cars-Scanned removed before n [] e = record {
  balance = omega arith;
  sound = λ z le. omega arith;
  complete = λ z le. refl;
}
scan_cars-Scanned removed before n (car ∷ rest) e = elim (Bool-cases (removed car)) [
  | inl gone ↦
      let s = scan_cars-Scanned removed before (n - 1) rest (omega arith) in
      rw gone (record {
        balance = omega (arith, s.balance);
        sound = λ none' le. omega (arith, s.balance);
        complete = λ once empty. omega (arith, s.balance, s.complete (omega arith) (omega arith));
      })
  | inr stays ↦
      let s = scan_cars-Scanned removed (suc before) n rest (omega arith) in
      rw stays (record {
        balance = omega (arith, s.balance);
        sound = λ none' le. omega arith;
        complete = λ once empty. omega arith;
      })
]

-- At most one car of the entry is removed.
abbrev pub RemovesOne : (Car → Bool) → QuickLaunchEntry → Type 0
RemovesOne removed e = (scan_cars removed (cars e) e.containers_and_runtimes).2 ≤ 1

record AllScanned (removed : Car → Bool) (pool pool' : List QuickLaunchEntry)
    (car_count car_removed : ℕ) : Type 0 where
  balance : car_removed + size pool' ≡ size pool
  sound : car_count ≡ 0 → size pool' ≡ 0
  complete : All (RemovesOne removed) pool → size pool' ≡ 0 → car_count ≡ 0

empty_sound :
    (removed : Car → Bool) (xs : List Car)
    → (scan_cars removed (length xs) xs).1 ≡ 0
    → length (scan_cars removed (length xs) xs).0 ≡ 0
unfolding scan_cars
empty_sound removed [] h = refl
empty_sound removed (x ∷ xs) h =
    let s = scan_cars-Scanned removed 0 (length (x ∷ xs)) (x ∷ xs) (omega arith) in
    omega (arith, s.sound h (omega arith))

scan_pool-AllScanned :
    (removed : Car → Bool) (pool : List QuickLaunchEntry)
    → AllScanned removed pool
        (scan_pool removed pool).0
        (scan_pool removed pool).1
        (scan_pool removed pool).2
unfolding scan_pool
scan_pool-AllScanned removed [] = record {
  balance = omega arith;
  sound = λ z. refl;
  complete = λ a z. refl;
}
scan_pool-AllScanned removed (e ∷ pool) =
    let s = scan_cars-Scanned removed 0 (cars e) e.containers_and_runtimes (omega arith) in
    let rest = scan_pool-AllScanned removed pool in
    record {
      balance = omega (arith, s.balance, rest.balance);
      sound = λ none'. omega (
        arith,
        empty_sound removed e.containers_and_runtimes (omega arith),
        rest.sound (omega arith),
      );
      complete = λ single empty.
          omega (arith, s.complete single.0 (omega arith), rest.complete single.1 (omega arith));
    }

-- `shutDownFinished` is emitted by this removal.
abbrev pub IsLast : Launcher → Launcher → Type 0
IsLast l l' = l'.shut_down_signals ≡ suc l.shut_down_signals

guard_holds : (a : Bool) (n k : ℕ) → (a && ltb 0 n && k == 0) ≡ true → (0 < n) × (k ≡ 0)
guard_holds a n k h = ground arith

guard_fails : (a : Bool) (n k : ℕ) → a ≡ true → (a && ltb 0 n && k == 0) ≡ false → 0 < n → k ≡ 0 → ⊥
guard_fails a n k on h le e = ground arith

suc_ne : (n : ℕ) → n ≡ suc n → ⊥
suc_ne n e = omega arith

-- During a shutdown, and when at most one car of each entry is removed: the removal emits
-- `shutDownFinished` exactly when it empties a pool that was not empty.
pub remove_entry-IsLast :
    (container runtime : Option ℕ) (l : Launcher)
    → l.shutting_down ≡ true
    → All (RemovesOne (is_removed container runtime)) l.pool
    → IsLast l (remove_entry container runtime l)
      ↔ ((0 < size l.pool) × (size (remove_entry container runtime l).pool ≡ 0))
unfolding remove_entry
remove_entry-IsLast container runtime l shut single =
    let (pool', car_count, car_removed) = scan_pool (is_removed container runtime) l.pool in
    let s = scan_pool-AllScanned (is_removed container runtime) l.pool in
    if-cases (λ (l' : Launcher). IsLast l l' ↔ ((0 < size l.pool) × (size l'.pool ≡ 0)))
      (l.shutting_down && ltb 0 car_removed && car_count == 0) _ _
      (λ emitted.
        let g = guard_holds l.shutting_down car_removed car_count emitted in
        (λ e. (omega (arith, g, s.balance), s.sound g.1), λ h. refl))
      (λ silent. (
        λ e. absurd (suc_ne l.shut_down_signals e),
        λ (some', empty). absurd (
            guard_fails l.shutting_down car_removed car_count shut silent (omega (arith, s.balance))
              (s.complete single empty)),
      ))
