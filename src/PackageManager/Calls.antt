-- ===== src/PackageManager/Calls.antt =====
-- The calls that add, acknowledge and cancel tasks, and the acts of a task's thread.
use qtapplicationmanager.Prelude.{
  ℕ, ◌+◌, ◌≡◌, refl, sym, ap, subst, Bool, true, false, ◌&&◌, String, [], ◌∷◌, ◌++◌, find,
  find-some, arith, ◌==◌, ==_iff, Bool-cases, Option-cases, inl, inr, &&-true, if-both,
}
use qtapplicationmanager.Qt.Queue.{one_if, one_if_self, count, count-append}
use qtapplicationmanager.PackageManager.Task.{
  Error, failed, TaskKind, installation, deinstallation, Task, cancel, acknowledge,
}
use qtapplicationmanager.PackageManager.Queue.{
  Manager, all_tasks, has_id, is_installation, new_task, enqueue_task,
  acknowledge_package_installation, cancel_running, find_running, cancel_task,
}
use qtapplicationmanager.PackageManager.Events.{thread_failed, thread_committed}
use qtapplicationmanager.PackageManager.Holding.{
  held, Sound, eq_self, Stays, modify-Sound, set_state_of-Sound,
}
use qtapplicationmanager.PackageManager.Canceling.{cancel-Stays, cancel_incoming-Sound}

-- The address is not in use.
abbrev pub IsFree : ℕ → Manager → Type 0
IsFree p m = held p m ≡ 0

new_self :
    (p n : ℕ) (id package_id : String) (kind : TaskKind) (m : Manager)
    → IsFree p m
    → Sound p n m
    → Sound p (n + 1) (enqueue_task p (new_task id kind package_id) m).0
unfolding enqueue_task
new_self p n id package_id kind m free s =
    let c = count-append p m.incoming_task_list (p ∷ []) in
    record {
      fits = rw (eq_self p) (omega (arith, c, free, one_if_self p), omega arith, omega arith);
      chosen = rw (eq_self p) ((λ h. refl), λ h. refl);
      balance = omega (arith, s.balance, c, one_if_self p);
    }

new_other :
    (p q n : ℕ) (id package_id : String) (kind : TaskKind) (m : Manager)
    → (p == q) ≡ false
    → Sound q n m
    → Sound q n (enqueue_task p (new_task id kind package_id) m).0
unfolding enqueue_task
new_other p q n id package_id kind m miss s =
    let c : count q (m.incoming_task_list ++ p ∷ []) ≡ count q m.incoming_task_list =
      omega (arith, count-append q m.incoming_task_list (p ∷ []), ap one_if miss) in
    record {
      fits = rw (miss, c) s.fits;
      chosen = rw miss s.chosen;
      balance = omega (arith, s.balance, c);
    }

-- A new task waits.
pub enqueue_task-Sound :
    (p q n : ℕ) (id package_id : String) (kind : TaskKind) (m : Manager)
    → IsFree p m
    → Sound q n m
    → Sound q (n + one_if (p == q)) (enqueue_task p (new_task id kind package_id) m).0
enqueue_task-Sound p q n id package_id kind m free s = elim (Bool-cases (p == q)) [
  | inl hit ↦
      let e : p ≡ q = (==_iff p q).0 hit in
      subst (λ x. Sound q (n + x) (enqueue_task p (new_task id kind package_id) m).0)
        (sym (ap one_if hit))
        (subst (λ x. Sound x (n + 1) (enqueue_task p (new_task id kind package_id) m).0) e
          (new_self p n id package_id kind m free (subst (λ x. Sound x n m) (sym e) s)))
  | inr miss ↦
      subst (λ x. Sound q x (enqueue_task p (new_task id kind package_id) m).0)
        (omega (arith, ap one_if miss)) (new_other p q n id package_id kind m miss s)
]

installation_of : (k : TaskKind) → is_installation k ≡ true → k ≡ installation
installation_of installation h = refl
installation_of deinstallation h = cc

acknowledge-Stays : (t : Task) → t.kind ≡ installation → Stays acknowledge t
unfolding acknowledge
acknowledge-Stays t e = elim (Bool-cases t.canceled) [
  | inl yes' ↦ record { phase = rw yes' refl; chosen = λ c. rw yes' (rw yes' at c) }
  | inr no' ↦ record { phase = rw no' refl; chosen = λ c. rw no' ((λ h. cc), λ h. cc) }
]

abbrev pub acknowledges : String → Manager → ℕ → Bool
acknowledges id m p = is_installation (m.task p).kind && has_id m id p

pub acknowledge-Sound :
    (q n : ℕ) (id : String) (m : Manager)
    → Sound q n m
    → Sound q n (acknowledge_package_installation id m)
unfolding acknowledge_package_installation
acknowledge-Sound q n id m s =
    if-both (Sound q n) m.enable_installer _ _
      (elim (Option-cases (find (acknowledges id m) (all_tasks m))) [
        | inl e ↦ rw e s
        | inr (p, e) ↦
            let f = find-some (acknowledges id m) (all_tasks m) p e in
            rw e (
              modify-Sound p q n acknowledge m
                (acknowledge-Stays (m.task p) (installation_of (m.task p).kind (&&-true _ _ f.1).0))
                s)
      ])
      s

cancel_running-Sound : (p q n : ℕ) (m : Manager) → Sound q n m → Sound q n (cancel_running p m).0
cancel_running-Sound p q n m s =
    modify-Sound p q n (λ t. (cancel t).0) m (cancel-Stays (m.task p)) s

pub cancel_task-Sound :
    (q n : ℕ) (id : String) (m : Manager) → Sound q n m → Sound q n (cancel_task id m).0
unfolding cancel_task
cancel_task-Sound q n id m s =
    if-both (λ (x : Manager × Bool). Sound q n x.0) m.enable_installer _ _
      (elim (Option-cases (find (has_id m id) m.incoming_task_list)) [
        | inr (p, e) ↦
            rw e
              (cancel_incoming-Sound p q n m (find-some (has_id m id) m.incoming_task_list p e).0 s)
        | inl e ↦ rw e (elim (Option-cases (find_running id m)) [
          | inl f ↦ rw f s
          | inr (p, f) ↦ rw f (cancel_running-Sound p q n m s)
        ])
      ])
      s

pub thread_failed-Sound :
    (p q n : ℕ) (code : Error) (text : String) (m : Manager)
    → Sound q n m
    → Sound q n (thread_failed p code text m)
unfolding thread_failed
thread_failed-Sound p q n code text m s = set_state_of-Sound p q n failed _ (
    modify-Sound p q n (λ t. record t { error_code = code; error_string = text }) m
      (record { phase = refl; chosen = λ c. c }) s)

pub thread_committed-Sound :
    (p q n : ℕ) (m : Manager) → Sound q n m → Sound q n (thread_committed p m)
thread_committed-Sound p q n m s =
    modify-Sound p q n (λ t. record t { can_be_canceled = false }) m
      (record { phase = refl; chosen = λ c. c }) s
