-- ===== src/PackageManager/Ending.antt =====
-- The end of a task's thread, and of an extraction: where the task is held after it.
use qtapplicationmanager.Prelude.{
  ℕ, ◌+◌, ◌≤◌, ◌≡◌, refl, sym, ap, subst, Bool, true, false, [], ◌∷◌, ◌++◌, arith, ◌==◌, ==_iff,
  Bool-cases, inl, inr,
}
use qtapplicationmanager.Qt.Queue.{one_if, one_if_self, count, count-append}
use qtapplicationmanager.PackageManager.Task.{
  TaskState, finished, Phase, not_started, running, extracted, over, is_failed,
}
use qtapplicationmanager.PackageManager.Queue.{Manager, pointer_list, state_eq, set_state_of}
use qtapplicationmanager.PackageManager.Events.{report_end, task_ended, package_extracted}
use qtapplicationmanager.PackageManager.Holding.{
  Fits, Sound, eq_self, set_state_of-Sound, release_self, release_other, remove_self, remove_other,
}

abbrev pub Started : Phase → Type 0
Started not_started = ⊥
Started running = Unit
Started extracted = Unit
Started over = ⊥

-- A task that runs is held once, and does not wait.
held-Started :
    (h : Phase) (a b c : ℕ) → Fits h a b c → Started h → (a ≡ 0) × (b ≤ 1) × (c ≤ 1) × (b + c ≡ 1)
held-Started not_started a b c f s = absurd s
held-Started running a b c f s = (f.0, omega (arith, f.1), omega (arith, f.1), omega (arith, f.1))
held-Started extracted a b c f s = (f.0, omega (arith, f.1), omega (arith, f.1), omega (arith, f.1))
held-Started over a b c f s = absurd s

set_state_of-phase :
    (p q : ℕ) (state : TaskState) (m : Manager)
    → ((set_state_of p state m).task q).phase ≡ (m.task q).phase
unfolding set_state_of
set_state_of-phase p q state m = elim (Bool-cases (state_eq (m.task p).state state)) [
  | inl same ↦ rw same refl
  | inr other ↦ rw other (elim (Bool-cases (p == q)) [
    | inl hit ↦ rw hit (ap (λ x. (m.task x).phase) ((==_iff p q).0 hit))
    | inr miss ↦ rw miss refl
  ])
]

report_end-phase :
    (b : Bool) (p q : ℕ) (m : Manager) → ((report_end b p m).task q).phase ≡ (m.task q).phase
unfolding report_end
report_end-phase true p q m = refl
report_end-phase false p q m = set_state_of-phase p q finished m

-- A task that ends is reported once.
report_end-Sound :
    (b : Bool) (p q n : ℕ) (m : Manager)
    → Sound q n m
    → Sound q (n + one_if (p == q)) (report_end b p m)
unfolding report_end
report_end-Sound true p q n m s = record {
  fits = s.fits;
  chosen = s.chosen;
  balance = omega (arith, s.balance);
}
report_end-Sound false p q n m s =
    let t = set_state_of-Sound p q n finished m s in
    record { fits = t.fits; chosen = t.chosen; balance = omega (arith, t.balance) }

ended_self :
    (b : Bool) (p n : ℕ) (m : Manager)
    → Started (m.task p).phase
    → Sound p n m
    → is_failed (m.task p).state ≡ b
    → Sound p n (task_ended p m)
unfolding task_ended
ended_self b p n m st s e =
    let r = report_end-Sound b p p n m s in
    let u = report_end b p m in
    let h =
      held-Started (u.task p).phase _ _ _ r.fits
        (subst Started (sym (report_end-phase b p p m)) st) in
    rw e (record {
      fits =
          rw (eq_self p)
            (h.0, release_self p u.active_task, remove_self p u.installation_task_list h.2);
      chosen = rw (eq_self p) r.chosen;
      balance = omega (
        arith,
        r.balance,
        one_if_self p,
        h,
        release_self p u.active_task,
        remove_self p u.installation_task_list h.2,
      );
    })

ended_other :
    (b : Bool) (p q n : ℕ) (m : Manager)
    → (p == q) ≡ false
    → Sound q n m
    → is_failed (m.task p).state ≡ b
    → Sound q n (task_ended p m)
unfolding task_ended
ended_other b p q n m miss s e =
    let r = report_end-Sound b p q n m s in
    let u = report_end b p m in
    let a = release_other p q u.active_task miss in
    let c = remove_other p q u.installation_task_list miss in
    rw e (record {
      fits = rw (miss, a, c) r.fits;
      chosen = rw miss r.chosen;
      balance = omega (arith, r.balance, ap one_if miss, a, c);
    })

-- The task that ends is reported, and held by nothing more.
pub task_ended-Sound :
    (p q n : ℕ) (m : Manager) → Started (m.task p).phase → Sound q n m → Sound q n (task_ended p m)
task_ended-Sound p q n m st s = elim (Bool-cases (p == q)) [
  | inl hit ↦
      let e : p ≡ q = (==_iff p q).0 hit in
      subst (λ x. Sound x n (task_ended p m)) e
        (ended_self _ p n m st (subst (λ x. Sound x n m) (sym e) s) refl)
  | inr miss ↦ ended_other _ p q n m miss s refl
]

extracted_self :
    (p n : ℕ) (m : Manager)
    → (m.task p).phase ≡ running
    → Sound p n m
    → Sound p n (package_extracted p m)
unfolding package_extracted
extracted_self p n m st s =
    let f =
      subst
        (λ h.
          Fits h (count p m.incoming_task_list) (count p (pointer_list m.active_task))
            (count p m.installation_task_list))
        st s.fits in
    let c = count-append p m.installation_task_list (p ∷ []) in
    record {
      fits =
          rw (eq_self p) (f.0, release_self p m.active_task, omega (arith, f.2, c, one_if_self p));
      chosen = rw (eq_self p) s.chosen;
      balance = omega (arith, f.1, c, one_if_self p, s.balance, release_self p m.active_task);
    }

extracted_other :
    (p q n : ℕ) (m : Manager) → (p == q) ≡ false → Sound q n m → Sound q n (package_extracted p m)
unfolding package_extracted
extracted_other p q n m miss s =
    let a = release_other p q m.active_task miss in
    let c : count q (m.installation_task_list ++ p ∷ []) ≡ count q m.installation_task_list =
      omega (arith, count-append q m.installation_task_list (p ∷ []), ap one_if miss) in
    record {
      fits = rw (miss, a, c) s.fits;
      chosen = rw miss s.chosen;
      balance = omega (arith, s.balance, a, c);
    }

-- The installation that has extracted its package makes room for the next task.
pub package_extracted-Sound :
    (p q n : ℕ) (m : Manager)
    → (m.task p).phase ≡ running
    → Sound q n m
    → Sound q n (package_extracted p m)
package_extracted-Sound p q n m st s = elim (Bool-cases (p == q)) [
  | inl hit ↦
      let e : p ≡ q = (==_iff p q).0 hit in
      subst (λ x. Sound x n (package_extracted p m)) e
        (extracted_self p n m st (subst (λ x. Sound x n m) (sym e) s))
  | inr miss ↦ extracted_other p q n m miss s
]
