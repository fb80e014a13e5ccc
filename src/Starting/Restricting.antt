-- ===== src/Starting/Restricting.antt =====
-- Which applications are not started from the quick launcher's pool.
use qtapplicationmanager.Prelude.{
  arith, ℕ, ◌≡◌, refl, ap, ◌∙◌, Bool, true, ◌||◌, not, some, Option-cases, inl, inr, is_empty, any,
  ◌==◌,
}
use qtapplicationmanager.Starting.State.{Application, Manager, World, Request, from_id}
use qtapplicationmanager.Starting.Launch.{cannot_use_quick_launch, is_descriptor}
use qtapplicationmanager.Starting.Start.{
  Checked, refused, accepted, start_planned, check, start_checked, start_application_internal,
}
use qtapplicationmanager.Starting.Checking.{IsPlanFor, check-IsPlanFor}
use qtapplicationmanager.Starting.Pooling.{pool_takes, Same, launch-Same, start_in-Same}

-- The application wants something that what is in the pool was not started with.
abbrev pub is_special : World → Request → Application → Bool
is_special w r app =
    any is_descriptor r.stdio_redirections
    || app.has_environment_variables
    || not (app.opengl_configuration == w.opengl_configuration)

special_cannot : (a b c d : Bool) → (b || c || d) ≡ true → (a || b || c || d) ≡ true
special_cannot a b c d h = ground arith

start_checked-Same :
    (w : World) (r : Request) (m : Manager) (a : ℕ) (c : Checked)
    → is_special w r (m.app_at a) ≡ true
    → IsPlanFor a r c
    → Same m (start_checked w r c m).0
unfolding start_checked start_planned
start_checked-Same w r m a (refused e) h same = refl
start_checked-Same w r m a (accepted p) h same =
    let app = m.app_at p.app in
    let special : is_special w r app ≡ true = ap (λ b. is_special w r (m.app_at b)) same.0 ∙ h in
    let cannot : cannot_use_quick_launch w p app ≡ true =
      special_cannot (not (is_empty p.wrapper_command)) p.has_redirections
        app.has_environment_variables (not (app.opengl_configuration == w.opengl_configuration))
        (ap
            (λ b.
              b
              || app.has_environment_variables
              || not (app.opengl_configuration == w.opengl_configuration))
            same.1
          ∙ special) in
    elim (Option-cases app.current_runtime) [
      | inl e ↦ rw (e, start_planned) (launch-Same w r p m cannot)
      | inr (rt, e) ↦ rw (e, start_planned) (start_in-Same (m.runtime_at rt).state r p rt m)
    ]

-- For an application that is known, and that is started with standard I/O redirected to a descriptor, or
-- asks for environment variables, or for another OpenGL configuration than the application manager's:
-- a start takes nothing from the quick launcher's pool, however it ends.
pub start_application_internal-Same :
    (w : World) (r : Request) (m : Manager) (a : ℕ)
    → from_id r.app_id m ≡ some a
    → is_special w r (m.app_at a) ≡ true
    → pool_takes (start_application_internal w r m).0.calls ≡ pool_takes m.calls
unfolding start_application_internal
start_application_internal-Same w r m a e h =
    start_checked-Same w r m a (check w r m) h (check-IsPlanFor w r m a e)
