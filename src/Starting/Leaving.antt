-- ===== src/Starting/Leaving.antt =====
-- A start that fails leaves the application without a runtime.
use qtapplicationmanager.Prelude.{
  ℕ, ◌≡◌, refl, ap, ◌∙◌, subst, Bool, true, false, ◌||◌, not, String, str_eq, List, Option, none,
  some, is_some, ℤ, Option-cases, inl, inr, if-both, if◌then◌else◌,
}
use qtapplicationmanager.Qt.Heap.{update_self}
use qtapplicationmanager.Starting.State.{
  Application, Manager, World, Request, Result, thrown, returned, call, from_id,
  set_current_runtime, delete_runtime, new_runtime_created, set_application, create_container,
  watch_run_state,
}
use qtapplicationmanager.Starting.Checking.{IsPlanFor, check-IsPlanFor}
use qtapplicationmanager.Starting.Pooling.{select-apps}
use qtapplicationmanager.Starting.Launch.{
  cannot_use_quick_launch, ask_runtime, Plan, open_documents, do_start_in_container,
  try_start_in_container, start_runtime_of, delete_unused, factory_create, create_and_start,
  look_in_pool, launch_with, select_container, launch, warn_redirected, note_descriptor,
  is_descriptor,
}
use qtapplicationmanager.Starting.Start.{
  Checked, refused, accepted, start_planned, check, start_checked, start_application_internal,
  start_application,
}

-- If it is false, the application has no runtime.
abbrev Leaves : ℕ → Manager → Bool → Type 0
Leaves a n b = b ≡ false → (n.app_at a).current_runtime ≡ none

no_runtime_set :
    (a : ℕ) (m : Manager) → ((set_current_runtime a none m).app_at a).current_runtime ≡ none
no_runtime_set a m =
    ap (λ (x : Application). x.current_runtime)
      (update_self m.app_at a (record (m.app_at a) { current_runtime = none }))

do_start-Leaves :
    (w : World) (a rt : ℕ) (is_attached : Bool) (m : Manager)
    → Leaves a
        (do_start_in_container w a rt is_attached m).0
        (do_start_in_container w a rt is_attached m).1
unfolding do_start_in_container
do_start-Leaves w a rt is_attached m =
    if-both (λ (x : Manager × Bool). Leaves a x.0 x.1)
      (if is_attached then w.attaches rt else w.starts rt) _ _ (λ h. cc)
      (λ h. no_runtime_set a (call (delete_runtime rt) (ask_runtime is_attached a rt m)))

try_start-Leaves :
    (w : World) (a rt : ℕ) (is_attached : Bool) (c : Option ℕ) (m : Manager)
    → Leaves a
        (try_start_in_container w a rt is_attached c m).0
        (try_start_in_container w a rt is_attached c m).1
unfolding try_start_in_container
try_start-Leaves w a rt is_attached none m = do_start-Leaves w a rt is_attached m
try_start-Leaves w a rt is_attached (some c) m =
    if-both (λ (x : Manager × Bool). Leaves a x.0 x.1) (w.is_container_ready c) _ _
      (do_start-Leaves w a rt is_attached m) (λ h. cc)

start_runtime_of-Leaves :
    (w : World) (r : Request) (a rt : ℕ) (is_attached : Bool) (c : Option ℕ) (m : Manager)
    → Leaves a
        (start_runtime_of w r a rt is_attached c m).0
        (start_runtime_of w r a rt is_attached c m).1
unfolding start_runtime_of
start_runtime_of-Leaves w r a rt is_attached c m =
    if-both (λ (x : Manager × Bool). Leaves a x.0 x.1) (not (is_some c) || w.is_compositor_ready) _
      _
      (try_start-Leaves w a rt is_attached c
        (open_documents r (m.app_at a) rt (call (watch_run_state rt a) m)))
      (λ h. cc)

-- A factory that creates nothing leaves the application as it is.
delete_unused-apps : (c : Option ℕ) (m : Manager) → (delete_unused c m).app_at ≡ m.app_at
delete_unused-apps none m = refl
delete_unused-apps (some c) m = refl

factory-Leaves :
    (w : World) (a : ℕ) (c : Option ℕ) (m : Manager)
    → (factory_create w a c m).1 ≡ none
    → (factory_create w a c m).0.app_at ≡ m.app_at
unfolding factory_create
factory-Leaves w a c m =
    let P : Manager × Option ℕ → Type 0 = λ x. x.1 ≡ none → x.0.app_at ≡ m.app_at in
    if-both P (str_eq (m.app_at a).runtime_name "" || is_some (m.app_at a).current_runtime) _ _
      (λ h. delete_unused-apps c m)
      (elim (Option-cases (w.runtime_manager (m.app_at a).runtime_name)) [
        | inl e ↦ rw e (λ h. delete_unused-apps c m)
        | inr (b, e) ↦ rw e (elim (Option-cases w.created_runtime) [
          | inl no_runtime ↦ rw no_runtime (λ h. refl)
          | inr (rt, one) ↦ rw one (λ h. cc)
        ])
      ])

create_and_start-Leaves :
    (w : World) (r : Request) (a : ℕ) (c : Option ℕ) (m : Manager)
    → (m.app_at a).current_runtime ≡ none
    → Leaves a (create_and_start w r a c m).0 (create_and_start w r a c m).1
unfolding create_and_start
create_and_start-Leaves w r a c m free = elim (Option-cases (factory_create w a c m).1) [
  | inl e ↦
      rw (e, create_and_start)
        (λ h. ap (λ (f : ℕ → Application). (f a).current_runtime) (factory-Leaves w a c m e) ∙ free)
  | inr (rt, e) ↦
      rw (e, create_and_start)
        (start_runtime_of-Leaves w r a rt false c
          (call (new_runtime_created rt) (factory_create w a c m).0))
]

-- The same of a result: an exception leaves the application without a runtime, too.
Ends : ℕ → Manager → Result → Type 0
Ends a n (thrown e) = (n.app_at a).current_runtime ≡ none
Ends a n (returned b) = Leaves a n b

launch_with-Ends :
    (w : World) (r : Request) (p : Plan) (id : String) (c rt : Option ℕ) (m : Manager)
    → (m.app_at p.app).current_runtime ≡ none
    → Ends p.app (launch_with w r p id c rt m).0 (launch_with w r p id c rt m).2
unfolding launch_with Ends
launch_with-Ends w r p id (some c) (some rt) m free =
    start_runtime_of-Leaves w r p.app rt true (some c)
      (call (new_runtime_created rt) (call (set_application c p.app) m))
launch_with-Ends w r p id (some c) none m free =
    create_and_start-Leaves w r p.app (some c) (call (set_application c p.app) m) free
launch_with-Ends w r p id none (some rt) m free = λ h. free
launch_with-Ends w r p id none none m free =
    elim (Option-cases (w.created_container id r.stdio_redirections).0) [
      | inl e ↦ rw (e, launch_with) (λ h. free)
      | inr (c, e) ↦
          rw (e, launch_with)
            (create_and_start-Leaves w r p.app (some c)
              (call (create_container id p.wrapper_command) m) free)
    ]

look_in_pool-apps :
    (w : World) (p : Plan) (id : String) (m : Manager) → (look_in_pool w p id m).0.app_at ≡ m.app_at
unfolding look_in_pool
look_in_pool-apps w p id m = elim (Option-cases w.quick_launcher) [
  | inl e ↦ rw (e, look_in_pool) refl
  | inr (f, e) ↦
      rw (e, look_in_pool)
        (if-both (λ (x : Manager × Option ℕ × Option ℕ). x.0.app_at ≡ m.app_at)
          (cannot_use_quick_launch w p (m.app_at p.app)) _ _ refl refl)
]

warn-apps : (b : Bool) (fds : List ℤ) (m : Manager) → (warn_redirected b fds m).app_at ≡ m.app_at
unfolding warn_redirected
warn-apps false fds m = refl
warn-apps true fds m =
    if-both (λ (n : Manager). n.app_at ≡ m.app_at) (is_descriptor (note_descriptor fds)) _ _ refl
      refl

launch-Ends :
    (w : World) (r : Request) (p : Plan) (m : Manager)
    → (m.app_at p.app).current_runtime ≡ none
    → Ends p.app (launch w r p m).0 (launch w r p m).2
unfolding launch Ends
launch-Ends w r p m free =
    let P : Manager × List ℤ × Result → Type 0 = λ x. Ends p.app x.0 x.2 in
    let runtime : (ℕ → Application) → Option ℕ = λ f. (f p.app).current_runtime in
    let (selected, id) = select_container w (m.app_at p.app).id m in
    let still = ap runtime (select-apps w (m.app_at p.app).id m) ∙ free in
    let warned = warn_redirected p.has_redirections r.stdio_redirections m in
    if-both P p.is_in_process _ _
      (create_and_start-Leaves w r p.app none warned
        (ap runtime (warn-apps p.has_redirections r.stdio_redirections m) ∙ free))
      (if-both P (not (w.has_container_manager id)) _ _ still (
        launch_with-Ends w r p id (look_in_pool w p id selected).1 (look_in_pool w p id selected).2
          (look_in_pool w p id selected).0
          (ap runtime (look_in_pool-apps w p id selected) ∙ still)))

start_checked-Ends :
    (w : World) (r : Request) (m : Manager) (a : ℕ) (c : Checked)
    → (m.app_at a).current_runtime ≡ none
    → IsPlanFor a r c
    → Ends a (start_checked w r c m).0 (start_checked w r c m).2
unfolding start_checked start_planned Ends
start_checked-Ends w r m a (refused e) free same = free
start_checked-Ends w r m a (accepted p) free same =
    let free' : (m.app_at p.app).current_runtime ≡ none =
      ap (λ b. (m.app_at b).current_runtime) same.0 ∙ free in
    rw (free', start_planned)
      (subst (λ b. Ends b (launch w r p m).0 (launch w r p m).2) same.0 (launch-Ends w r p m free'))

Ends-false :
    (a : ℕ) (n : Manager) (x : Result)
    → Ends a n x
    → elim x [ thrown e ↦ false | returned ok ↦ ok ] ≡ false
    → (n.app_at a).current_runtime ≡ none
unfolding Ends
Ends-false a n (thrown e) l h = l
Ends-false a n (returned b) l h = l h

-- When startApplication or debugApplication returns false for an application that is known and has no
-- runtime, the application has no runtime afterwards either, whether the start threw an exception, the
-- container or the runtime could not be created, or the runtime did not start.
pub start_application-Leaves :
    (w : World) (r : Request) (m : Manager) (a : ℕ)
    → from_id r.app_id m ≡ some a
    → (m.app_at a).current_runtime ≡ none
    → (start_application w r m).1 ≡ false
    → ((start_application w r m).0.app_at a).current_runtime ≡ none
unfolding start_application start_application_internal
start_application-Leaves w r m a e free =
    let x = start_checked w r (check w r m) m in
    Ends-false a x.0 x.2 (start_checked-Ends w r m a (check w r m) free (check-IsPlanFor w r m a e))
