-- ===== src/Starting/Pooling.antt =====
-- When the quick launcher's pool is left alone.
use qtapplicationmanager.Prelude.{
  ℕ, ◌+◌, ◌≡◌, refl, ap, ◌∙◌, Bool, true, false, ◌||◌, not, String, str_eq, List, [], ◌∷◌, Option,
  none, some, is_some, ℤ, Option-cases, inl, inr, if-both, if-cases, is_empty, if◌then◌else◌,
}
use qtapplicationmanager.Starting.State.{
  RunState, not_running, starting_up, running, shutting_down, Application, Call, take_from_pool,
  Manager, World, Request, Result, call, new_runtime_created, set_application, create_container,
  watch_run_state,
}
use qtapplicationmanager.Starting.Launch.{
  Plan, open_documents, ask_runtime, do_start_in_container, try_start_in_container,
  start_runtime_of, delete_unused, factory_create, create_and_start, cannot_use_quick_launch,
  look_in_pool, launch_with, select_container, launch, warn_redirected, note_descriptor,
  is_descriptor,
}
use qtapplicationmanager.Starting.Start.{activate, start_in}

-- How often something was taken from the pool.
abbrev pub pool_takes : List Call → ℕ
pool_takes [] = 0
pool_takes (take_from_pool container_id name ∷ calls) = 1 + pool_takes calls
pool_takes (_ ∷ calls) = pool_takes calls

-- The second manager has taken no more.
abbrev pub Same : Manager → Manager → Type 0
Same m n = pool_takes n.calls ≡ pool_takes m.calls

open_documents-Same :
    (r : Request) (app : Application) (rt : ℕ) (m : Manager) → Same m (open_documents r app rt m)
open_documents-Same r app rt m = elim (Option-cases r.document_url) [
  | inr (url, e) ↦ rw e refl
  | inl e ↦
      rw e (elim (Option-cases app.document_url) [ inr (url, f) ↦ rw f refl | inl f ↦ rw f refl ])
]

ask-Same : (is_attached : Bool) (a rt : ℕ) (m : Manager) → Same m (ask_runtime is_attached a rt m)
ask-Same true a rt m = refl
ask-Same false a rt m = refl

do_start-Same :
    (w : World) (a rt : ℕ) (is_attached : Bool) (m : Manager)
    → Same m (do_start_in_container w a rt is_attached m).0
unfolding do_start_in_container
do_start-Same w a rt is_attached m =
    if-both (λ (x : Manager × Bool). Same m x.0)
      (if is_attached then w.attaches rt else w.starts rt) _ _ (ask-Same is_attached a rt m)
      (ask-Same is_attached a rt m)

try_start-Same :
    (w : World) (a rt : ℕ) (is_attached : Bool) (c : Option ℕ) (m : Manager)
    → Same m (try_start_in_container w a rt is_attached c m).0
unfolding try_start_in_container
try_start-Same w a rt is_attached none m = do_start-Same w a rt is_attached m
try_start-Same w a rt is_attached (some c) m =
    if-both (λ (x : Manager × Bool). Same m x.0) (w.is_container_ready c) _ _
      (do_start-Same w a rt is_attached m) refl

start_runtime_of-Same :
    (w : World) (r : Request) (a rt : ℕ) (is_attached : Bool) (c : Option ℕ) (m : Manager)
    → Same m (start_runtime_of w r a rt is_attached c m).0
unfolding start_runtime_of
start_runtime_of-Same w r a rt is_attached c m =
    let opened = open_documents r (m.app_at a) rt (call (watch_run_state rt a) m) in
    let same = open_documents-Same r (m.app_at a) rt (call (watch_run_state rt a) m) in
    if-both (λ (x : Manager × Bool). Same m x.0) (not (is_some c) || w.is_compositor_ready) _ _
      (try_start-Same w a rt is_attached c opened ∙ same) same

delete_unused-Same : (c : Option ℕ) (m : Manager) → Same m (delete_unused c m)
delete_unused-Same none m = refl
delete_unused-Same (some c) m = refl

factory-Same : (w : World) (a : ℕ) (c : Option ℕ) (m : Manager) → Same m (factory_create w a c m).0
unfolding factory_create
factory-Same w a c m =
    if-both (λ (x : Manager × Option ℕ). Same m x.0)
      (str_eq (m.app_at a).runtime_name "" || is_some (m.app_at a).current_runtime) _ _
      (delete_unused-Same c m)
      (elim (Option-cases (w.runtime_manager (m.app_at a).runtime_name)) [
        | inl e ↦ rw e (delete_unused-Same c m)
        | inr (b, e) ↦ rw e (elim (Option-cases w.created_runtime) [
          | inl no_runtime ↦ rw no_runtime refl
          | inr (rt, one) ↦ rw one refl
        ])
      ])

create_and_start-Same :
    (w : World) (r : Request) (a : ℕ) (c : Option ℕ) (m : Manager)
    → Same m (create_and_start w r a c m).0
unfolding create_and_start
create_and_start-Same w r a c m = elim (Option-cases (factory_create w a c m).1) [
  | inl e ↦ rw (e, create_and_start) (factory-Same w a c m)
  | inr (rt, e) ↦
      rw (e, create_and_start)
        (start_runtime_of-Same w r a rt false c
            (call (new_runtime_created rt) (factory_create w a c m).0)
          ∙ factory-Same w a c m)
]

launch_with-Same :
    (w : World) (r : Request) (p : Plan) (id : String) (c rt : Option ℕ) (m : Manager)
    → Same m (launch_with w r p id c rt m).0
unfolding launch_with
launch_with-Same w r p id (some c) (some rt) m =
    start_runtime_of-Same w r p.app rt true (some c)
      (call (new_runtime_created rt) (call (set_application c p.app) m))
launch_with-Same w r p id (some c) none m =
    create_and_start-Same w r p.app (some c) (call (set_application c p.app) m)
launch_with-Same w r p id none (some rt) m = refl
launch_with-Same w r p id none none m =
    elim (Option-cases (w.created_container id r.stdio_redirections).0) [
      | inl e ↦ rw (e, launch_with) refl
      | inr (c, e) ↦
          rw (e, launch_with)
            (create_and_start-Same w r p.app (some c)
              (call (create_container id p.wrapper_command) m))
    ]

look_in_pool-Same :
    (w : World) (p : Plan) (id : String) (m : Manager)
    → cannot_use_quick_launch w p (m.app_at p.app) ≡ true
    → Same m (look_in_pool w p id m).0
unfolding look_in_pool
look_in_pool-Same w p id m h = elim (Option-cases w.quick_launcher) [
  | inl e ↦ rw (e, look_in_pool) refl
  | inr (f, e) ↦
      rw (e, look_in_pool)
        (if-cases (λ (x : Manager × Option ℕ × Option ℕ). Same m x.0)
          (cannot_use_quick_launch w p (m.app_at p.app)) _ _ (λ k. refl) (λ k. cc))
]

select-Same : (w : World) (id : String) (m : Manager) → Same m (select_container w id m).0
unfolding select_container
select-Same w id m = elim (Option-cases w.container_selection_function) [
  | inl e ↦ rw (e, select_container) refl
  | inr (f, e) ↦ rw (e, select_container) refl
]

pub select-apps :
    (w : World) (id : String) (m : Manager) → (select_container w id m).0.app_at ≡ m.app_at
unfolding select_container
select-apps w id m = elim (Option-cases w.container_selection_function) [
  | inl e ↦ rw (e, select_container) refl
  | inr (f, e) ↦ rw (e, select_container) refl
]

warn-Same : (b : Bool) (fds : List ℤ) (m : Manager) → Same m (warn_redirected b fds m)
unfolding warn_redirected
warn-Same false fds m = refl
warn-Same true fds m =
    if-both (λ (n : Manager). Same m n) (is_descriptor (note_descriptor fds)) _ _ refl refl

pub launch-Same :
    (w : World) (r : Request) (p : Plan) (m : Manager)
    → cannot_use_quick_launch w p (m.app_at p.app) ≡ true
    → Same m (launch w r p m).0
unfolding launch
launch-Same w r p m h =
    let P : Manager × List ℤ × Result → Type 0 = λ x. Same m x.0 in
    let app_id = (m.app_at p.app).id in
    let (selected, id) = select_container w app_id m in
    let looked = look_in_pool w p id selected in
    let asked = select-Same w app_id m in
    let cannot : cannot_use_quick_launch w p (selected.app_at p.app) ≡ true =
      ap (λ (f : ℕ → Application). cannot_use_quick_launch w p (f p.app)) (select-apps w app_id m)
      ∙ h in
    if-both P p.is_in_process _ _
      (create_and_start-Same w r p.app none
          (warn_redirected p.has_redirections r.stdio_redirections m)
        ∙ warn-Same p.has_redirections r.stdio_redirections m)
      (if-both P (not (w.has_container_manager id)) _ _ asked (
        launch_with-Same w r p id looked.1 looked.2 looked.0
        ∙ (look_in_pool-Same w p id selected cannot ∙ asked)))

activate-Same : (r : Request) (p : Plan) (rt : ℕ) (m : Manager) → Same m (activate r p rt m).0
unfolding activate
activate-Same r p rt m =
    let P : Manager × Result → Type 0 = λ x. Same m x.0 in
    if-both P (not (is_empty p.wrapper_command)) _ _ refl
      (if-both P p.has_redirections _ _ refl (open_documents-Same r (m.app_at p.app) rt m))

pub start_in-Same :
    (s : RunState) (r : Request) (p : Plan) (rt : ℕ) (m : Manager) → Same m (start_in s r p rt m).0
unfolding start_in
start_in-Same shutting_down r p rt m = refl
start_in-Same not_running r p rt m = refl
start_in-Same starting_up r p rt m = activate-Same r p rt m
start_in-Same running r p rt m = activate-Same r p rt m
