-- ===== src/Starting/Failing.antt =====
-- What a start that throws, or that fails, leaves behind.
use qtapplicationmanager.Prelude.{
  ℕ, ◌≡◌, ◌⊎◌, refl, ap, sym, subst, ◌∙◌, true, is_some, not, String, List, Option, none, some, ℤ,
  Option-cases, inl, inr, if-both, is_empty,
}
use qtapplicationmanager.Starting.Checking.{IsPlanFor, check-IsPlanFor}
use qtapplicationmanager.Starting.State.{
  RunState, not_running, starting_up, running, shutting_down, close_descriptors,
  call_selection_function, no_container_manager, from_id, Manager, World, Request, StartError,
  Result, thrown, returned, call,
}
use qtapplicationmanager.Starting.Launch.{
  Plan, launch_with, select_container, launch, preselected, ask_script,
}
use qtapplicationmanager.Starting.Start.{
  Checked, refused, accepted, activate, start_in, start_planned, check, start_checked,
  start_application_internal,
}

-- The script function was asked for the container of an application, and nothing else was done.
abbrev pub IsAsked : World → ℕ → Manager → Manager → Type 0
IsAsked w a m n =
    (is_some w.container_selection_function ≡ true)
    × (n ≡ call (call_selection_function (m.app_at a).id (preselected w (m.app_at a).id m)) m)

-- What a start of an application that throws has done so far.
abbrev pub IsUnchanged : World → ℕ → StartError → Manager → Manager → Type 0
IsUnchanged w a e m n = (n ≡ m) ⊎ ((e ≡ no_container_manager) × IsAsked w a m n)

-- A part that throws has taken no descriptor.
Clean : World → ℕ → Manager → Request → Manager × List ℤ × Result → Type 0
Clean w a m r (n, left, thrown e) = IsUnchanged w a e m n × (left ≡ r.stdio_redirections)
Clean w a m r (n, left, returned b) = Unit

launch_with-Clean :
    (w : World) (r : Request) (p : Plan) (id : String) (c rt : Option ℕ) (a : ℕ) (m n : Manager)
    → Clean w a n r (launch_with w r p id c rt m)
unfolding launch_with Clean
launch_with-Clean w r p id (some c) (some rt) a m n = tt
launch_with-Clean w r p id (some c) none a m n = tt
launch_with-Clean w r p id none (some rt) a m n = tt
launch_with-Clean w r p id none none a m n =
    elim (Option-cases (w.created_container id r.stdio_redirections).0) [
      | inl e ↦ rw (e, launch_with) tt
      | inr (c, e) ↦ rw (e, launch_with) tt
    ]

script_called :
    (script : Option (String → String → String)) (id chosen : String) (m : Manager)
    → ((ask_script script id chosen m).0 ≡ m)
      ⊎ ((is_some script ≡ true)
          × ((ask_script script id chosen m).0 ≡ call (call_selection_function id chosen) m))
script_called none id chosen m = inl refl
script_called (some choose) id chosen m = inr (refl, refl)

select-IsUnchanged :
    (w : World) (a : ℕ) (m : Manager)
    → IsUnchanged w a no_container_manager m (select_container w (m.app_at a).id m).0
unfolding select_container
select-IsUnchanged w a m =
    let id = (m.app_at a).id in
    elim (script_called w.container_selection_function id (preselected w id m) m) [
      | inl same ↦ inl same
      | inr (callable, called) ↦ inr (refl, (callable, called))
    ]

launch-Clean :
    (w : World) (r : Request) (p : Plan) (m : Manager) → Clean w p.app m r (launch w r p m)
unfolding launch Clean
launch-Clean w r p m =
    let (selected, id) = select_container w (m.app_at p.app).id m in
    if-both (Clean w p.app m r) p.is_in_process _ _ tt (
      if-both (Clean w p.app m r) (not (w.has_container_manager id)) _ _
        (select-IsUnchanged w p.app m, refl) (launch_with-Clean w r p id _ _ p.app _ m))

activate-Clean :
    (w : World) (a : ℕ) (r : Request) (p : Plan) (rt : ℕ) (m : Manager)
    → Clean w a m r ((activate r p rt m).0, r.stdio_redirections, (activate r p rt m).1)
unfolding activate Clean
activate-Clean w a r p rt m =
    let P : Manager × Result → Type 0 = λ x. Clean w a m r (x.0, r.stdio_redirections, x.1) in
    if-both P (not (is_empty p.wrapper_command)) _ _ (inl refl, refl)
      (if-both P p.has_redirections _ _ (inl refl, refl) tt)

start_in-Clean :
    (w : World) (a : ℕ) (s : RunState) (r : Request) (p : Plan) (rt : ℕ) (m : Manager)
    → Clean w a m r ((start_in s r p rt m).0, r.stdio_redirections, (start_in s r p rt m).1)
unfolding start_in Clean
start_in-Clean w a starting_up r p rt m = activate-Clean w a r p rt m
start_in-Clean w a running r p rt m = activate-Clean w a r p rt m
start_in-Clean w a shutting_down r p rt m = tt
start_in-Clean w a not_running r p rt m = (inl refl, refl)

start_planned-Clean :
    (w : World) (r : Request) (p : Plan) (m : Manager) → Clean w p.app m r (start_planned w r p m)
unfolding start_planned
start_planned-Clean w r p m = elim (Option-cases (m.app_at p.app).current_runtime) [
  | inl e ↦ rw (e, start_planned) (launch-Clean w r p m)
  | inr (rt, e) ↦ rw (e, start_planned) (start_in-Clean w p.app (m.runtime_at rt).state r p rt m)
]

-- What a start that throws has done, when the application's id is known, and when it is not.
Outcome : World → Request → StartError → Manager → Manager → Type 0
Outcome w r e m n =
    (n ≡ m)
    ⊎ ((e ≡ no_container_manager) × (a : ℕ) × (from_id r.app_id m ≡ some a) × IsAsked w a m n)

Cleaned : World → Request → Manager → Manager × List ℤ × Result → Type 0
Cleaned w r m (n, left, thrown e) = Outcome w r e m n × (left ≡ r.stdio_redirections)
Cleaned w r m (n, left, returned b) = Unit

Clean-Cleaned :
    (w : World) (a : ℕ) (r : Request) (m : Manager) (x : Manager × List ℤ × Result)
    → from_id r.app_id m ≡ some a
    → Clean w a m r x
    → Cleaned w r m x
unfolding Clean Cleaned Outcome
Clean-Cleaned w a r m (n, left, returned b) f c = tt
Clean-Cleaned w a r m (n, left, thrown e) f (inl same, kept) = (inl same, kept)
Clean-Cleaned w a r m (n, left, thrown e) f (inr (k, asked), kept) = (inr (k, a, f, asked), kept)

start_checked-Cleaned :
    (w : World) (r : Request) (c : Checked) (m : Manager) (a : ℕ)
    → from_id r.app_id m ≡ some a
    → IsPlanFor a r c
    → Cleaned w r m (start_checked w r c m)
unfolding start_checked Cleaned Outcome
start_checked-Cleaned w r (refused e) m a f i = (inl refl, refl)
start_checked-Cleaned w r (accepted p) m a f i =
    Clean-Cleaned w p.app r m (start_planned w r p m) (f ∙ ap some (sym i.0))
      (start_planned-Clean w r p m)

check_unknown :
    (w : World) (r : Request) (m : Manager)
    → from_id r.app_id m ≡ none
    → (e : StartError) × (check w r m ≡ refused e)
unfolding check
check_unknown w r m f =
    if-both (λ (c : Checked). (e : StartError) × (c ≡ refused e)) m.is_shutting_down _ _ (_, refl)
      (rw f (_, refl))

all_checked-Cleaned :
    (w : World) (r : Request) (m : Manager) → Cleaned w r m (start_checked w r (check w r m) m)
unfolding start_checked Cleaned Outcome
all_checked-Cleaned w r m = elim (Option-cases (from_id r.app_id m)) [
  | inr (a, f) ↦ start_checked-Cleaned w r (check w r m) m a f (check-IsPlanFor w r m a f)
  | inl f ↦
      let (e, refused') = check_unknown w r m f in
      subst (λ c. Cleaned w r m (start_checked w r c m)) (sym refused') (inl refl, refl)
]

-- All that a start that throws has done: it has closed the descriptors of the redirections, and, only
-- when there is no manager for the container, it may have asked the script function before.
abbrev pub OnlyClosed : World → Request → StartError → Manager → Manager → Type 0
OnlyClosed w r e m n =
    (n ≡ call (close_descriptors r.stdio_redirections) m)
    ⊎ ((e ≡ no_container_manager)
        × (a : ℕ) × (from_id r.app_id m ≡ some a)
        × (o : Manager) × IsAsked w a m o
        × (n ≡ call (close_descriptors r.stdio_redirections) o))

Cleaned-OnlyClosed :
    (w : World) (r : Request) (m : Manager) (x : Manager × List ℤ × Result) (e : StartError)
    → x.2 ≡ thrown e
    → Cleaned w r m x
    → OnlyClosed w r e m (call (close_descriptors x.1) x.0)
unfolding Cleaned Outcome
Cleaned-OnlyClosed w r m (n, left, returned b) e h c = cc
Cleaned-OnlyClosed w r m (n, left, thrown d) e h (inl same, kept) =
    inl (ap (λ l. call (close_descriptors l) n) kept ∙ ap (call (close_descriptors _)) same)
Cleaned-OnlyClosed w r m (n, left, thrown d) e h (inr (k, a, f, asked), kept) =
    inr (cc, a, f, n, asked, ap (λ l. call (close_descriptors l) n) kept)

-- A start that throws, whichever of its checks does so, leaves the applications and their runtimes as they
-- are, and closes the descriptors of the redirections. It asks nothing of anybody, but for one case:
-- when the exception is that there is no manager for the container, the script function that selects
-- containers, if it is callable, may have been called once before, for the application of the given id
-- and with the container that the configuration selects for it.
pub start_application_internal-Clean :
    (w : World) (r : Request) (m : Manager) (e : StartError)
    → (start_application_internal w r m).1 ≡ thrown e
    → OnlyClosed w r e m (start_application_internal w r m).0
unfolding start_application_internal
start_application_internal-Clean w r m e h =
    Cleaned-OnlyClosed w r m (start_checked w r (check w r m) m) e h (all_checked-Cleaned w r m)
