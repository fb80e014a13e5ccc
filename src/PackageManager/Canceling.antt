-- ===== src/PackageManager/Canceling.antt =====
-- The cancellation of a task, while it waits and later.
use qtapplicationmanager.Prelude.{
  ℕ, ◌≤◌, ◌≡◌, refl, sym, ap, subst, true, false, List, [], ◌∷◌, In, head, tail, arith, ◌==◌,
  ==_iff, Bool-cases, inl, inr,
}
use qtapplicationmanager.Qt.Queue.{one_if, one_if_self, count, remove_one, holds, count-remove_one}
use qtapplicationmanager.PackageManager.Task.{
  TaskKind, is_queued, Phase, not_started, running, extracted, over, Task, cancel_kind, cancel,
  force_cancel, installation, deinstallation,
}
use qtapplicationmanager.PackageManager.Queue.{Manager, pointer_list, cancel_incoming}
use qtapplicationmanager.PackageManager.Holding.{
  Fits, Sound, eq_self, Stays, modify-Sound, remove_other,
}

-- A task that waits has not started, and is in no other list.
pub waiting-Fits :
    (h : Phase) (a b c : ℕ) → Fits h a b c → 1 ≤ a → (h ≡ not_started) × (a ≡ 1) × (b ≡ 0) × (c ≡ 0)
waiting-Fits not_started a b c f le = (refl, omega (arith, f.0), f.1, f.2)
waiting-Fits running a b c f le = absurd (omega (arith, f.0))
waiting-Fits extracted a b c f le = absurd (omega (arith, f.0))
waiting-Fits over a b c f le = absurd (omega (arith, f.0))

pub count-In : (p : ℕ) (xs : List ℕ) → In p xs → 1 ≤ count p xs
count-In p [] h = elim h [ ]
count-In p (x ∷ xs) (head e) = omega (arith, one_if_self p, ap (λ y. one_if (y == p)) e)
count-In p (x ∷ xs) (tail h) = omega (arith, count-In p xs h)

holds-In : (p : ℕ) (xs : List ℕ) → In p xs → holds p xs ≡ true
holds-In p [] h = elim h [ ]
holds-In p (x ∷ xs) (head e) = subst (λ y. holds p (y ∷ xs) ≡ true) e (rw (eq_self p) refl)
holds-In p (x ∷ xs) (tail h) = elim (Bool-cases (x == p)) [
  | inl hit ↦ rw hit refl
  | inr miss ↦ rw miss (holds-In p xs h)
]

-- A cancellation keeps the choice between cancel and acknowledge.
cancel_kind-Stays : (k : TaskKind) (t : Task) → t.kind ≡ k → Stays (λ u. (cancel_kind k u).0) t
unfolding cancel_kind
cancel_kind-Stays installation t e = elim (Bool-cases t.installation_acknowledged) [
  | inl yes' ↦ record { phase = rw yes' refl; chosen = λ c. rw yes' (rw yes' at c) }
  | inr no' ↦ record { phase = rw no' refl; chosen = λ c. rw no' ((λ h. refl), λ h. refl) }
]
cancel_kind-Stays deinstallation t e = elim (Bool-cases t.can_be_canceled) [
  | inl yes' ↦ record { phase = rw yes' refl; chosen = λ c. rw yes' ((λ h. c.1 e), c.1) }
  | inr no' ↦ record { phase = rw no' refl; chosen = λ c. rw no' c }
]

pub cancel-Stays : (t : Task) → Stays (λ u. (cancel u).0) t
cancel-Stays t =
    let h = cancel_kind-Stays t.kind t refl in record { phase = h.phase; chosen = h.chosen }

force_cancel-Stays : (t : Task) → Stays (λ u. (force_cancel u).0) t
unfolding force_cancel
force_cancel-Stays t = elim (Bool-cases (is_queued t.state)) [
  | inl yes' ↦ record { phase = rw yes' refl; chosen = λ c. rw yes' c }
  | inr no' ↦
      let h = cancel-Stays t in record { phase = rw no' h.phase; chosen = λ c. rw no' (h.chosen c) }
]

-- A task that waits and is canceled is reported, and held by nothing more.
cancel_self :
    (p n : ℕ) (m : Manager)
    → In p m.incoming_task_list
    → Sound p n m
    → Sound p n (cancel_incoming p m)
unfolding cancel_incoming
cancel_self p n m in' s =
    let t = modify-Sound p p n (λ u. (force_cancel u).0) m (force_cancel-Stays (m.task p)) s in
    let f = waiting-Fits _ _ _ _ t.fits (count-In p m.incoming_task_list in') in
    let c = count-remove_one p p m.incoming_task_list (holds-In p m.incoming_task_list in') in
    record {
      fits =
          subst
            (λ h.
              Fits h (count p (remove_one p m.incoming_task_list))
                (count p (pointer_list m.active_task)) (count p m.installation_task_list))
            (sym f.0) (omega (arith, c), f.2, f.3);
      chosen = t.chosen;
      balance = omega (arith, c, one_if_self p, t.balance);
    }

cancel_other :
    (p q n : ℕ) (m : Manager) → (p == q) ≡ false → Sound q n m → Sound q n (cancel_incoming p m)
unfolding cancel_incoming
cancel_other p q n m miss s =
    let t = modify-Sound p q n (λ u. (force_cancel u).0) m (force_cancel-Stays (m.task p)) s in
    let c = remove_other p q m.incoming_task_list miss in
    record {
      fits = rw c t.fits;
      chosen = t.chosen;
      balance = omega (arith, c, ap one_if miss, t.balance);
    }

pub cancel_incoming-Sound :
    (p q n : ℕ) (m : Manager)
    → In p m.incoming_task_list
    → Sound q n m
    → Sound q n (cancel_incoming p m)
cancel_incoming-Sound p q n m in' s = elim (Bool-cases (p == q)) [
  | inl hit ↦
      let e : p ≡ q = (==_iff p q).0 hit in
      subst (λ x. Sound x n (cancel_incoming p m)) e
        (cancel_self p n m in' (subst (λ x. Sound x n m) (sym e) s))
  | inr miss ↦ cancel_other p q n m miss s
]
