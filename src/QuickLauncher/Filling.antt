-- ===== src/QuickLauncher/Filling.antt =====
-- How `rebuild` fills the pool: what it adds, and when it goes on.
use qtapplicationmanager.Prelude.{
  ℕ, suc, ◌+◌, ◌-◌, ◌≤◌, ◌<◌, ◌≡◌, ◌⊎◌, refl, Bool, true, false, ◌&&◌, not, List, [], ◌∷◌, ◌++◌,
  Option, none, some, map, arith, All, length, length-append, ltb, leb, Bool-cases, inl, inr,
  if◌then◌else◌, if-both, if-cases,
}
use qtapplicationmanager.QuickLauncher.Growing.{AllGrown, rebuild_pool-AllGrown, check-AllGrown}
use qtapplicationmanager.QuickLauncher.Pool.{
  Car, QuickLaunchEntry, Launcher, World, fill_with, make_car, cars, needs_car, rebuild_entry,
  rebuild_pool, recent_failures, check_entry, rebuild, size,
}

-- How many cars an entry lacks.
abbrev pub lacks : QuickLaunchEntry → ℕ
lacks e = if e.disabled then 0 else e.maximum - cars e

abbrev pub all_lack : List QuickLaunchEntry → ℕ
all_lack [] = 0
all_lack (e ∷ pool) = lacks e + all_lack pool

abbrev pub IsWithin : QuickLaunchEntry → Type 0
IsWithin e = cars e ≤ e.maximum

needs_car_iff : (off : Bool) (n k : ℕ) → (not off && ltb n k) ≡ true → (off ≡ false) × (n < k)
needs_car_iff off n k h = ground arith

full_or_off : (off : Bool) (n k : ℕ) → (not off && ltb n k) ≡ false → (if off then 0 else k - n) ≡ 0
full_or_off off n k h = ground arith

-- What one turn of the loop does to an entry.
record Filled (e e' : QuickLaunchEntry) (todo done : ℕ) : Type 0 where
  balance : lacks e' + done ≡ todo
  within : IsWithin e → IsWithin e'
  grows : cars e' ≡ cars e + done
  once : done ≤ 1

lacks_on : (off : Bool) (n k : ℕ) → off ≡ false → (if off then 0 else k - n) ≡ k - n
lacks_on off n k h = ground arith

fill_with-Filled :
    (car : Option Car) (w : World) (e : QuickLaunchEntry)
    → e.disabled ≡ false
    → cars e < e.maximum
    → Filled e (fill_with car w e).0 (e.maximum - cars e) (fill_with car w e).1
unfolding fill_with
fill_with-Filled none w e on room = record {
  balance = omega (arith, lacks_on e.disabled (cars e) e.maximum on);
  within = λ h. h;
  grows = omega arith;
  once = omega arith;
}
fill_with-Filled (some car) w e on room =
    let n = length-append e.containers_and_runtimes (car ∷ []) in
    record {
      balance = omega (
        arith,
        n,
        lacks_on e.disabled (length (e.containers_and_runtimes ++ car ∷ [])) e.maximum on,
      );
      within = λ h. omega (arith, n);
      grows = omega (arith, n);
      once = omega arith;
    }

rebuild_entry-Filled :
    (w : World) (done : ℕ) (e : QuickLaunchEntry)
    → Filled e (rebuild_entry w done e).0 (rebuild_entry w done e).1 (rebuild_entry w done e).2
unfolding rebuild_entry
rebuild_entry-Filled w done e = elim (Bool-cases (needs_car e)) [
  | inr no' ↦ rw no' (record {
    balance = omega (arith, full_or_off e.disabled (cars e) e.maximum no');
    within = λ h. h;
    grows = omega arith;
    once = omega arith;
  })
  | inl yes' ↦
      let (on, room) = needs_car_iff e.disabled (cars e) e.maximum yes' in
      rw yes' (elim (Bool-cases (leb 1 done)) [
        | inl enough ↦ rw enough (record {
          balance = omega (arith, lacks_on e.disabled (cars e) e.maximum on);
          within = λ h. h;
          grows = omega arith;
          once = omega arith;
        })
        | inr more ↦ rw more (fill_with-Filled _ w e on room)
      ])
]

not_one : (n : ℕ) → leb 1 n ≡ false → n ≡ 0
not_one n h = ground arith

fill_with-once : (car : Option Car) (w : World) (e : QuickLaunchEntry) → (fill_with car w e).1 ≤ 1
unfolding fill_with
fill_with-once none w e = omega arith
fill_with-once (some car) w e = omega arith

rebuild_entry-once :
    (w : World) (done : ℕ) (e : QuickLaunchEntry) → done ≤ 1 → done + (rebuild_entry w done e).2 ≤ 1
unfolding rebuild_entry
rebuild_entry-once w done e h = elim (Bool-cases (needs_car e)) [
  | inr no' ↦ rw no' (omega arith)
  | inl yes' ↦ rw yes' (elim (Bool-cases (leb 1 done)) [
    | inl enough ↦ rw enough (omega arith)
    | inr more ↦ rw more (
        omega (
          arith,
          not_one done more,
          fill_with-once (make_car w e.runtime_id (w.create e.container_id)) w e,
        ))
  ])
]

-- The whole loop.
record AllFilled (pool pool' : List QuickLaunchEntry) (todo done todo' done' : ℕ) : Type 0 where
  balance : all_lack pool' + done' + todo ≡ todo' + done
  within : All IsWithin pool → All IsWithin pool'
  once : done ≤ 1 → done' ≤ 1
  grows : size pool' + done ≡ size pool + done'

rebuild_pool-AllFilled :
    (w : World) (todo done : ℕ) (pool : List QuickLaunchEntry)
    → AllFilled pool
        (rebuild_pool w todo done pool).0
        todo
        done
        (rebuild_pool w todo done pool).1
        (rebuild_pool w todo done pool).2
unfolding rebuild_pool
rebuild_pool-AllFilled w todo done [] = record {
  balance = omega arith;
  within = λ h. h;
  once = λ h. h;
  grows = omega arith;
}
rebuild_pool-AllFilled w todo done (e ∷ pool) =
    let f = rebuild_entry-Filled w done e in
    let rest =
      rebuild_pool-AllFilled w (todo + (rebuild_entry w done e).1)
        (done + (rebuild_entry w done e).2) pool in
    record {
      balance = omega (arith, f.balance, rest.balance);
      within = λ h. (f.within h.0, rest.within h.1);
      once = λ h. rest.once (rebuild_entry-once w done e h);
      grows = omega (arith, f.grows, rest.grows);
    }

-- The check of the failures only disables entries.
check_entry-lacks :
    (w : World) (l : Launcher) (e : QuickLaunchEntry) → lacks (check_entry w l e) ≤ lacks e
unfolding check_entry
check_entry-lacks w l e =
    if-both (λ x. lacks x ≤ lacks e) e.disabled e _ (omega arith)
      (if-both (λ x. lacks x ≤ lacks e) _ (record e { disabled = true; failed_time_stamps = [] })
        (record e { failed_time_stamps = recent_failures w l e }) (omega arith) (omega arith))

check_entry-cars :
    (w : World) (l : Launcher) (e : QuickLaunchEntry)
    → (cars (check_entry w l e) ≡ cars e) × (IsWithin e → IsWithin (check_entry w l e))
unfolding check_entry
check_entry-cars w l e =
    let P = λ (x : QuickLaunchEntry). (cars x ≡ cars e) × (IsWithin e → IsWithin x) in
    if-both P e.disabled e _ (refl, λ h. h)
      (if-both P _ (record e { disabled = true; failed_time_stamps = [] })
        (record e { failed_time_stamps = recent_failures w l e }) (refl, λ h. h) (refl, λ h. h))

-- The pool after the check.
record Checked (pool pool' : List QuickLaunchEntry) : Type 0 where
  lacks_less : all_lack pool' ≤ all_lack pool
  within : All IsWithin pool → All IsWithin pool'
  same : size pool' ≡ size pool

check-Checked :
    (w : World) (l : Launcher) (pool : List QuickLaunchEntry)
    → Checked pool (map (check_entry w l) pool)
check-Checked w l [] = record { lacks_less = omega arith; within = λ h. h; same = refl }
check-Checked w l (e ∷ pool) =
    let rest = check-Checked w l pool in
    let c = check_entry-cars w l e in
    record {
      lacks_less = omega (arith, check_entry-lacks w l e, rest.lacks_less);
      within = λ h. (c.1 h.0, rest.within h.1);
      same = omega (arith, c.0, rest.same);
    }

not_less : (a b : ℕ) → ltb a b ≡ false → b ≤ a
not_less a b h = ground arith

clash : (b : Bool) → b ≡ true → b ≡ false → ⊥
clash true h k = cc
clash false h k = cc

-- What a rebuild promises: no entry gets more cars than its maximum, each entry keeps its cars, at most
-- one car is added in all, and if an entry that is not disabled still lacks a car, the next rebuild is
-- posted.
abbrev pub Rebuilt : World → Launcher → Launcher → Type 0
Rebuilt w l l' =
    All IsWithin l'.pool
    × AllGrown w l.pool l'.pool
    × (size l.pool ≤ size l'.pool)
    × (size l'.pool ≤ suc (size l.pool))
    × ((all_lack l'.pool ≡ 0) ⊎ (l'.rebuilds ≡ suc l.rebuilds))

-- For a launcher that is not shutting down, and whose entries have at most their maximum of cars:
-- after `rebuild` they still have, and each entry has its ids, its maximum and its cars in their order,
-- with at most one car more at the end, which is the one made for the entry's ids. At most one
-- car was added in all, and either no entry that is not disabled lacks a car, or the next rebuild is
-- posted.
pub rebuild-Rebuilt :
    (w : World) (l : Launcher)
    → All IsWithin l.pool
    → l.shutting_down ≡ false
    → Rebuilt w l (rebuild w l)
unfolding rebuild
rebuild-Rebuilt w l h open' =
    let (pool', todo, done) = rebuild_pool w 0 0 l.pool in
    let f = rebuild_pool-AllFilled w 0 0 l.pool in
    let c = check-Checked w (record l { pool = pool' }) pool' in
    let within = c.within (f.within h) in
    let checked = map (check_entry w (record l { pool = pool' })) pool' in
    let grown =
      check-AllGrown w (record l { pool = pool' }) l.pool pool'
        (rebuild_pool-AllGrown w 0 0 l.pool) in
    let more : size l.pool ≤ size checked = omega (arith, f.grows, c.same) in
    let one : size checked ≤ suc (size l.pool) =
      omega (arith, f.grows, c.same, f.once (omega arith)) in
    if-cases (Rebuilt w l) l.shutting_down _ _ (λ shut. absurd (clash l.shutting_down shut open'))
      (λ _.
        if-cases (Rebuilt w l) (ltb done todo) _ _ (λ lacking. (within, grown, more, one, inr refl))
          (λ filled'. (
            within,
            grown,
            more,
            one,
            inl (omega (arith, not_less done todo filled', f.balance, c.lacks_less)),
          )))
