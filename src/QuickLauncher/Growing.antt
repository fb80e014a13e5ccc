-- ===== src/QuickLauncher/Growing.antt =====
-- What `rebuild` leaves of each entry: its ids, its maximum, and the cars that it has.
use qtapplicationmanager.Prelude.{
  ℕ, ◌+◌, ◌≡◌, ◌⊎◌, refl, true, List, [], ◌∷◌, ◌++◌, Option, none, some, map, leb, inl, inr,
  if-both,
}
use qtapplicationmanager.QuickLauncher.Pool.{
  Car, QuickLaunchEntry, Launcher, World, fill_with, make_car, needs_car, rebuild_entry,
  rebuild_pool, recent_failures, check_entry,
}

-- An entry is what it was, but for one more car at most: the one that is made for its ids.
abbrev pub IsGrown : World → QuickLaunchEntry → QuickLaunchEntry → Type 0
IsGrown w e e' =
    (e'.container_id ≡ e.container_id)
    × (e'.runtime_id ≡ e.runtime_id)
    × (e'.maximum ≡ e.maximum)
    × ((e'.containers_and_runtimes ≡ e.containers_and_runtimes)
        ⊎ ((car : Car) × (make_car w e.runtime_id (w.create e.container_id) ≡ some car)
            × (e'.containers_and_runtimes ≡ e.containers_and_runtimes ++ car ∷ [])))

abbrev pub AllGrown : World → List QuickLaunchEntry → List QuickLaunchEntry → Type 0
AllGrown w [] [] = Unit
AllGrown w [] (e' ∷ pool') = ⊥
AllGrown w (e ∷ pool) [] = ⊥
AllGrown w (e ∷ pool) (e' ∷ pool') = IsGrown w e e' × AllGrown w pool pool'

unchanged-IsGrown : (w : World) (e : QuickLaunchEntry) → IsGrown w e e
unchanged-IsGrown w e = (refl, refl, refl, inl refl)

fill_with-IsGrown :
    (car : Option Car) (w : World) (e : QuickLaunchEntry)
    → make_car w e.runtime_id (w.create e.container_id) ≡ car
    → IsGrown w e (fill_with car w e).0
unfolding fill_with
fill_with-IsGrown none w e made = (refl, refl, refl, inl refl)
fill_with-IsGrown (some car) w e made = (refl, refl, refl, inr (car, made, refl))

rebuild_entry-IsGrown :
    (w : World) (done : ℕ) (e : QuickLaunchEntry) → IsGrown w e (rebuild_entry w done e).0
unfolding rebuild_entry
rebuild_entry-IsGrown w done e =
    let P : QuickLaunchEntry × ℕ × ℕ → Type 0 = λ x. IsGrown w e x.0 in
    if-both P (needs_car e) _ _
      (if-both P (leb 1 done) _ _ (unchanged-IsGrown w e) (fill_with-IsGrown _ w e refl))
      (unchanged-IsGrown w e)

pub rebuild_pool-AllGrown :
    (w : World) (todo done : ℕ) (pool : List QuickLaunchEntry)
    → AllGrown w pool (rebuild_pool w todo done pool).0
unfolding rebuild_pool
rebuild_pool-AllGrown w todo done [] = tt
rebuild_pool-AllGrown w todo done (e ∷ pool) = (
  rebuild_entry-IsGrown w done e,
  rebuild_pool-AllGrown w (todo + (rebuild_entry w done e).1) (done + (rebuild_entry w done e).2)
      pool,
)

check_entry-IsGrown :
    (w : World) (l : Launcher) (e e' : QuickLaunchEntry)
    → IsGrown w e e'
    → IsGrown w e (check_entry w l e')
unfolding check_entry
check_entry-IsGrown w l e e' g = if-both (IsGrown w e) e'.disabled e' _ g (
    if-both (IsGrown w e) _ (record e' { disabled = true; failed_time_stamps = [] })
      (record e' { failed_time_stamps = recent_failures w l e' }) g g)

pub check-AllGrown :
    (w : World) (l : Launcher) (pool pool' : List QuickLaunchEntry)
    → AllGrown w pool pool'
    → AllGrown w pool (map (check_entry w l) pool')
check-AllGrown w l [] [] g = tt
check-AllGrown w l [] (e' ∷ pool') g = absurd g
check-AllGrown w l (e ∷ pool) [] g = absurd g
check-AllGrown w l (e ∷ pool) (e' ∷ pool') g =
    (check_entry-IsGrown w l e e' g.0, check-AllGrown w l pool pool' g.1)
