-- ===== src/PackageManager/Holding.antt =====
-- Which list holds a task, by how far the task is, and when it ends.
use qtapplicationmanager.Prelude.{
  ℕ, ◌+◌, ◌≤◌, ◌≡◌, refl, sym, ap, subst, true, false, List, [], ◌∷◌, Option, none, some, arith,
  ◌==◌, ==_iff, Bool-cases, inl, inr, if◌then◌else◌,
}
use qtapplicationmanager.Qt.Queue.{
  one_if, one_if_self, count, remove_one, holds, count-remove_one, remove_one-missing, holds-count,
}
use qtapplicationmanager.PackageManager.Task.{
  TaskState, deinstallation, Phase, not_started, running, extracted, over, Task, set_task_state,
}
use qtapplicationmanager.PackageManager.Queue.{
  Signal, task_started, task_state_changed, task_finished, task_failed,
  task_blocking_until_installation_acknowledge, Manager, modify, emit, pointer_list, is_active,
  state_eq, set_state_of,
}

-- How often a task was reported as finished or failed.
abbrev pub ends : ℕ → List Signal → ℕ
ends q [] = 0
ends q (task_finished p id ∷ xs) = one_if (p == q) + ends q xs
ends q (task_failed p id code text ∷ xs) = one_if (p == q) + ends q xs
ends q (task_started p id ∷ xs) = ends q xs
ends q (task_state_changed p id state ∷ xs) = ends q xs
ends q (task_blocking_until_installation_acknowledge p id ∷ xs) = ends q xs

-- A task waits once at most before its start, is the active one while it runs, waits with the
-- extracted ones after that, and is nowhere when it is over.
abbrev pub Fits : Phase → ℕ → ℕ → ℕ → Type 0
Fits not_started waiting active installing = (waiting ≤ 1) × (active ≡ 0) × (installing ≡ 0)
Fits running waiting active installing = (waiting ≡ 0) × (active ≡ 1) × (installing ≡ 0)
Fits extracted waiting active installing = (waiting ≡ 0) × (active ≡ 0) × (installing ≡ 1)
Fits over waiting active installing = (waiting ≡ 0) × (active ≡ 0) × (installing ≡ 0)

-- No task is both canceled and acknowledged, and only installations are acknowledged.
abbrev pub Chosen : Task → Type 0
Chosen t =
    (t.canceled ≡ true → t.installation_acknowledged ≡ false)
    × (t.kind ≡ deinstallation → t.installation_acknowledged ≡ false)

-- Where a task is held, together with how often it has ended.
abbrev pub held : ℕ → Manager → ℕ
held q m =
    count q m.incoming_task_list
    + count q (pointer_list m.active_task)
    + count q m.installation_task_list

pub record Sound (q n : ℕ) (m : Manager) : Type 0 where
  pub fits :
      Fits
        (m.task q).phase
        (count q m.incoming_task_list)
        (count q (pointer_list m.active_task))
        (count q m.installation_task_list)
  pub chosen : Chosen (m.task q)
  pub balance : held q m + ends q m.outbox ≡ n

abbrev pub Inv : Manager → Type 0
Inv m = (q : ℕ) → Sound q (held q m + ends q m.outbox) m

pub eq_self : (p : ℕ) → (p == p) ≡ true
eq_self p = (==_iff p p).1 refl

-- A change of a task that does not move it.
pub record Stays (f : Task → Task) (t : Task) : Type 0 where
  pub phase : (f t).phase ≡ t.phase
  pub chosen : Chosen t → Chosen (f t)

-- A change of a task that is elsewhere.
modify_self :
    (q n : ℕ) (f : Task → Task) (m : Manager)
    → Stays f (m.task q)
    → Sound q n m
    → Sound q n (modify q f m)
modify_self q n f m st s = record {
  fits = rw (eq_self q) (
      subst
        (λ h.
          Fits h (count q m.incoming_task_list) (count q (pointer_list m.active_task))
            (count q m.installation_task_list))
        (sym st.phase) s.fits);
  chosen = rw (eq_self q) (st.chosen s.chosen);
  balance = s.balance;
}

pub modify-Sound :
    (p q n : ℕ) (f : Task → Task) (m : Manager)
    → Stays f (m.task p)
    → Sound q n m
    → Sound q n (modify p f m)
modify-Sound p q n f m st s = elim (Bool-cases (p == q)) [
  | inl hit ↦
      let e : p ≡ q = (==_iff p q).0 hit in
      subst (λ x. Sound q n (modify x f m)) (sym e)
        (modify_self q n f m (subst (λ x. Stays f (m.task x)) e st) s)
  | inr miss ↦ record { fits = rw miss s.fits; chosen = rw miss s.chosen; balance = s.balance }
]

emit-Sound :
    (q n : ℕ) (x : Signal) (m : Manager)
    → ends q (x ∷ []) ≡ 0
    → ends q (x ∷ m.outbox) ≡ ends q (x ∷ []) + ends q m.outbox
    → Sound q n m
    → Sound q n (emit x m)
emit-Sound q n x m h k s = record {
  fits = s.fits;
  chosen = s.chosen;
  balance = omega (arith, h, k, s.balance);
}

pub set_state_of-Sound :
    (p q n : ℕ) (state : TaskState) (m : Manager) → Sound q n m → Sound q n (set_state_of p state m)
unfolding set_state_of
set_state_of-Sound p q n state m s = elim (Bool-cases (state_eq (m.task p).state state)) [
  | inl same ↦ rw same s
  | inr other ↦ rw other (
      let t =
        modify-Sound p q n (set_task_state state) m (record { phase = refl; chosen = λ c. c }) s in
      record { fits = t.fits; chosen = t.chosen; balance = t.balance })
]

-- The active task is let go.
pub release_self :
    (p : ℕ) (a : Option ℕ) → count p (pointer_list (if is_active a p then none else a)) ≡ 0
release_self p none = refl
release_self p (some x) = ground arith

pub release_other :
    (p q : ℕ) (a : Option ℕ)
    → (p == q) ≡ false
    → count q (pointer_list (if is_active a p then none else a)) ≡ count q (pointer_list a)
release_other p q none h = refl
release_other p q (some x) h = ground arith

pub remove_self : (p : ℕ) (xs : List ℕ) → count p xs ≤ 1 → count p (remove_one p xs) ≡ 0
remove_self p xs h = elim (Bool-cases (holds p xs)) [
  | inl yes' ↦ omega (arith, count-remove_one p p xs yes', one_if_self p)
  | inr no' ↦ rw (remove_one-missing p xs no') (holds-count p xs no')
]

pub remove_other :
    (p q : ℕ) (xs : List ℕ) → (p == q) ≡ false → count q (remove_one p xs) ≡ count q xs
remove_other p q xs h = elim (Bool-cases (holds p xs)) [
  | inl yes' ↦ omega (arith, count-remove_one p q xs yes', ap one_if h)
  | inr no' ↦ ap (count q) (remove_one-missing p xs no')
]
