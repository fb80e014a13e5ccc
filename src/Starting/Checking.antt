-- ===== src/Starting/Checking.antt =====
-- What the checks of a start find out.
use qtapplicationmanager.Prelude.{
  ℕ, ◌≡◌, refl, some, Option-cases, inl, inr, if-both, is_empty, any, length, ltb,
}
use qtapplicationmanager.Starting.DebugWrapper.{parse_specification}
use qtapplicationmanager.Starting.State.{Manager, World, Request, from_id}
use qtapplicationmanager.Starting.Launch.{Plan, is_descriptor}
use qtapplicationmanager.Starting.Start.{
  Checked, refused, accepted, check_wrapper, check_redirections, in_process_of, check,
}

-- The plan notes the application, and whether there are redirections.
abbrev pub IsPlanFor : ℕ → Request → Checked → Type 0
IsPlanFor a r (refused e) = Unit
IsPlanFor a r (accepted p) =
    (p.app ≡ a) × (p.has_redirections ≡ any is_descriptor r.stdio_redirections)

check_wrapper-IsPlanFor :
    (w : World) (r : Request) (p : Plan)
    → p.has_redirections ≡ any is_descriptor r.stdio_redirections
    → IsPlanFor p.app r (check_wrapper w r p)
unfolding check_wrapper
check_wrapper-IsPlanFor w r p e =
    let P = IsPlanFor p.app r in
    if-both P (is_empty r.debug_wrapper) _ _ (refl, e)
      (if-both P w.is_single_process _ _ tt (
        if-both P p.is_in_process _ _ tt
          (elim (Option-cases (parse_specification r.debug_wrapper)) [
            | inl f ↦ rw f tt
            | inr ((command, environment), f) ↦ rw f (refl, e)
          ])))

pub check-IsPlanFor :
    (w : World) (r : Request) (m : Manager) (a : ℕ)
    → from_id r.app_id m ≡ some a
    → IsPlanFor a r (check w r m)
unfolding check check_redirections
check-IsPlanFor w r m a e =
    let P = IsPlanFor a r in
    if-both P m.is_shutting_down _ _ tt (
      rw e (
        if-both P (m.app_at a).is_blocked _ _ tt
          (elim (Option-cases (in_process_of w (m.app_at a) m)) [
            | inl none' ↦ rw none' tt
            | inr (b, known) ↦ rw known (
                if-both P (ltb 3 (length r.stdio_redirections)) _ _ tt
                  (check_wrapper-IsPlanFor w r _ refl))
          ])))
