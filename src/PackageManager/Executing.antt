-- ===== src/PackageManager/Executing.antt =====
-- The start of a task.
use qtapplicationmanager.Prelude.{
  ℕ, ◌+◌, ◌≡◌, refl, sym, ap, subst, Bool, true, false, not, ◌||◌, List, [], ◌∷◌, Option, none,
  some, is_some, arith, ◌==◌, ==_iff, Bool-cases, inl, inr, ||-false,
}
use qtapplicationmanager.Qt.Queue.{one_if, one_if_self, count}
use qtapplicationmanager.PackageManager.Task.{TaskState, executing, Phase, not_started}
use qtapplicationmanager.PackageManager.Queue.{
  Manager, pointer_list, set_state_of, state_eq, execute_task, execute_taken, execute_next_task,
}
use qtapplicationmanager.PackageManager.Holding.{
  ends, Fits, Chosen, Sound, eq_self, set_state_of-Sound,
}
use qtapplicationmanager.PackageManager.Canceling.{waiting-Fits}

-- The manager with the first task taken out, and nothing active.
taken-Fits :
    (h : Phase) (p q : ℕ) (rest : List ℕ) (b c : ℕ)
    → Fits h (count q (p ∷ rest)) b c
    → p ≡ q
    → (h ≡ not_started) × (count q rest ≡ 0) × (b ≡ 0) × (c ≡ 0)
taken-Fits h p q rest b c f e =
    let one : one_if (p == q) ≡ 1 = ap one_if ((==_iff p q).1 e) in
    let w = waiting-Fits h _ b c f (omega (arith, one)) in (w.0, omega (arith, w.1, one), w.2, w.3)

failed_self :
    (p q n : ℕ) (rest : List ℕ) (m : Manager)
    → m.incoming_task_list ≡ p ∷ rest
    → p ≡ q
    → Sound q n m
    → Sound q n (execute_task true p (record m { incoming_task_list = rest }))
unfolding execute_task
failed_self p q n rest m w e s =
    let f =
      taken-Fits (m.task q).phase p q rest _ _
        (subst
          (λ xs.
            Fits (m.task q).phase (count q xs) (count q (pointer_list m.active_task))
              (count q m.installation_task_list))
          w s.fits)
        e in
    record {
      fits =
          subst
            (λ h.
              Fits h (count q rest) (count q (pointer_list m.active_task))
                (count q m.installation_task_list))
            (sym f.0) (omega (arith, f.1), f.2, f.3);
      chosen = s.chosen;
      balance = omega (arith, s.balance, ap (count q) w);
    }

failed_other :
    (p q n : ℕ) (rest : List ℕ) (m : Manager)
    → m.incoming_task_list ≡ p ∷ rest
    → (p == q) ≡ false
    → Sound q n m
    → Sound q n (execute_task true p (record m { incoming_task_list = rest }))
unfolding execute_task
failed_other p q n rest m w miss s =
    let same : count q m.incoming_task_list ≡ count q rest =
      omega (arith, ap (count q) w, ap one_if miss) in
    record {
      fits =
          subst
            (λ a.
              Fits (m.task q).phase a (count q (pointer_list m.active_task))
                (count q m.installation_task_list))
            same s.fits;
      chosen = s.chosen;
      balance = omega (arith, s.balance, same, ap one_if miss);
    }

-- What a change of the state leaves alone.
record Moved (q : ℕ) (m u : Manager) : Type 0 where
  incoming : u.incoming_task_list ≡ m.incoming_task_list
  active : u.active_task ≡ m.active_task
  installing : u.installation_task_list ≡ m.installation_task_list
  ended : ends q u.outbox ≡ ends q m.outbox
  chosen : Chosen (m.task q) → Chosen (u.task q)

set_state_of-Moved :
    (p q : ℕ) (state : TaskState) (m : Manager) → Moved q m (set_state_of p state m)
unfolding set_state_of
set_state_of-Moved p q state m = elim (Bool-cases (state_eq (m.task p).state state)) [
  | inl same ↦
      rw same (record {
        incoming = refl;
        active = refl;
        installing = refl;
        ended = refl;
        chosen = λ c. c;
      })
  | inr other ↦ rw other (record {
    incoming = refl;
    active = refl;
    installing = refl;
    ended = refl;
    chosen = λ c. elim (Bool-cases (p == q)) [
      | inl hit ↦ rw hit (subst (λ x. Chosen (m.task x)) (sym ((==_iff p q).0 hit)) c)
      | inr miss ↦ rw miss c
    ];
  })
]

started_self :
    (p n : ℕ) (rest : List ℕ) (m : Manager)
    → m.incoming_task_list ≡ p ∷ rest
    → m.active_task ≡ none
    → Sound p n m
    → Sound p n (execute_task false p (record m { incoming_task_list = rest }))
unfolding execute_task
started_self p n rest m w idle s =
    let f =
      taken-Fits (m.task p).phase p p rest _ _
        (subst
          (λ xs.
            Fits (m.task p).phase (count p xs) (count p (pointer_list m.active_task))
              (count p m.installation_task_list))
          w s.fits)
        refl in
    let v =
      set_state_of-Moved p p executing
        (record m { incoming_task_list = rest; active_task = some p }) in
    record {
      fits = rw (eq_self p) (
        omega (arith, f.1, ap (count p) v.incoming),
        omega (arith, one_if_self p, ap (λ a. count p (pointer_list a)) v.active),
        omega (arith, f.3, ap (count p) v.installing),
      );
      chosen = rw (eq_self p) (v.chosen s.chosen);
      balance = omega (
        arith,
        s.balance,
        ap (count p) w,
        f,
        one_if_self p,
        ap (count p) v.incoming,
        ap (λ a. count p (pointer_list a)) v.active,
        ap (count p) v.installing,
        v.ended,
      );
    }

started_other :
    (p q n : ℕ) (rest : List ℕ) (m : Manager)
    → m.incoming_task_list ≡ p ∷ rest
    → m.active_task ≡ none
    → (p == q) ≡ false
    → Sound q n m
    → Sound q n (execute_task false p (record m { incoming_task_list = rest }))
unfolding execute_task
started_other p q n rest m w idle miss s =
    let a : count q m.incoming_task_list ≡ count q rest =
      omega (arith, ap (count q) w, ap one_if miss) in
    let b : count q (pointer_list m.active_task) ≡ one_if (p == q) + 0 =
      omega (arith, ap (λ x. count q (pointer_list x)) idle, ap one_if miss) in
    let t =
      set_state_of-Sound p q n executing
        (record m { incoming_task_list = rest; active_task = some p })
        (record {
          fits =
              subst (λ x. Fits (m.task q).phase (count q rest) x (count q m.installation_task_list))
                b
                (subst
                  (λ x.
                    Fits (m.task q).phase x (count q (pointer_list m.active_task))
                      (count q m.installation_task_list))
                  a s.fits);
          chosen = s.chosen;
          balance = omega (arith, s.balance, a, b);
        }) in
    record { fits = rw miss t.fits; chosen = rw miss t.chosen; balance = t.balance }

execute_task-Sound :
    (b : Bool) (p q n : ℕ) (rest : List ℕ) (m : Manager)
    → m.incoming_task_list ≡ p ∷ rest
    → m.active_task ≡ none
    → Sound q n m
    → Sound q n (execute_task b p (record m { incoming_task_list = rest }))
execute_task-Sound true p q n rest m w idle s = elim (Bool-cases (p == q)) [
  | inl hit ↦ failed_self p q n rest m w ((==_iff p q).0 hit) s
  | inr miss ↦ failed_other p q n rest m w miss s
]
execute_task-Sound false p q n rest m w idle s = elim (Bool-cases (p == q)) [
  | inl hit ↦
      let e : p ≡ q = (==_iff p q).0 hit in
      subst (λ x. Sound x n (execute_task false p (record m { incoming_task_list = rest }))) e
        (started_self p n rest m w idle (subst (λ x. Sound x n m) (sym e) s))
  | inr miss ↦ started_other p q n rest m w idle miss s
]

execute_taken-Sound :
    (xs : List ℕ) (q n : ℕ) (m : Manager)
    → m.incoming_task_list ≡ xs
    → m.active_task ≡ none
    → Sound q n m
    → Sound q n (execute_taken xs m)
unfolding execute_taken
execute_taken-Sound [] q n m w idle s = s
execute_taken-Sound (p ∷ rest) q n m w idle s = execute_task-Sound _ p q n rest m w idle s

idle_of : (a : Option ℕ) → is_some a ≡ false → a ≡ none
idle_of none h = refl
idle_of (some p) h = cc

-- The next task starts, or what failed before its start is reported.
pub execute_next_task-Sound :
    (q n : ℕ) (m : Manager) → Sound q n m → Sound q n (execute_next_task m)
unfolding execute_next_task
execute_next_task-Sound q n m s =
    elim (Bool-cases (not m.cleanup_broken_installations_done || is_some m.active_task)) [
      | inl stop ↦ rw stop s
      | inr go ↦ rw go (
          execute_taken-Sound m.incoming_task_list q n m refl
            (idle_of m.active_task ((||-false _ _ go).1)) s)
    ]
