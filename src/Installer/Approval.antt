-- ===== src/Installer/Approval.antt =====
-- The package manager's side of a removal: what is blocked for it, and what a cancellation gives back.
use mathlib.Core.Path.{◌∙◌, fun_ext}
use qtapplicationmanager.Prelude.{
  ℕ, ◌≡◌, ◌≢◌, ◌⊎◌, refl, sym, ap, subst, Bool, true, false, ◌&&◌, ◌||◌, not, String, str_eq, List,
  [], ◌∷◌, some, find, pos, Bool-cases, inl, inr, if-cases, if-both, ◌==◌, ==_iff, &&-true,
  ||-false, if◌then◌else◌,
}
use qtapplicationmanager.Qt.Heap.{update, update_self, update-other}
use qtapplicationmanager.PackageManager.Package.{
  PackageState, installed, being_removed, being_downgraded, Package, info, is_built_in,
  built_in_has_removable_update, is_blocked, block, unblock, application_stopped_due_to_block,
  remove_app,
}
use qtapplicationmanager.PackageManager.Installing.{
  Packages, modify_package, from_id, is_installed, set_package_state, start_removal_of,
  starting_package_removal, restore_package, cancel_in, canceled_package_install,
}
use qtapplicationmanager.PackageManager.Blocking.{
  same_package, block_free, unblock_last, restore_at,
}
use qtapplicationmanager.Installer.Deinstallation.{stop_applications}

-- A package that is free, and found by its id, while no other one is just being removed.
pub record Free (id : String) (p : ℕ) (m : Packages) : Type 0 where
  pub found : from_id id m ≡ some p
  pub free : (m.package_at p).blocked ≡ pos 0
  pub no_apps : (m.package_at p).blocked_apps ≡ []
  pub is_quiet : m.about_to_be_removed ≡ false

-- The packages, and everything that is known of them, are the same.
pub record Untouched (m n : Packages) : Type 0 where
  pub packages : n.packages ≡ m.packages
  pub package_at : (q : ℕ) → n.package_at q ≡ m.package_at q

-- Between the approval and the end of a removal of the package.
pub record InRemoval (p : ℕ) (m n : Packages) : Type 0 where
  pub state : PackageState
  pub apps : List String
  pub goes :
      (state ≡ being_removed) ⊎ ((state ≡ being_downgraded) × (is_built_in (m.package_at p) ≡ true))
  pub was_installed : (m.package_at p).state ≡ installed
  pub packages : n.packages ≡ m.packages
  pub still : n.about_to_be_removed ≡ m.about_to_be_removed
  pub blocked :
      n.package_at p
      ≡ record (m.package_at p) { state = state; blocked = pos 1; blocked_apps = apps }
  pub others : (q : ℕ) → q ≢ p → n.package_at q ≡ m.package_at q

is_installed_eq : (s : PackageState) → is_installed s ≡ true → s ≡ installed
is_installed_eq installed h = refl
is_installed_eq PackageState.being_installed h = cc
is_installed_eq PackageState.being_updated h = cc
is_installed_eq being_downgraded h = cc
is_installed_eq being_removed h = cc

not-false : (b : Bool) → not b ≡ false → b ≡ true
not-false true h = refl
not-false false h = cc

abbrev removal_state : Package → PackageState
removal_state k = if built_in_has_removable_update k then being_downgraded else being_removed

-- A removal that starts blocks the package; one that is refused changes nothing.
abbrev pub Starts : ℕ → Packages → Packages × Bool → Type 0
Starts p m r = ((r.1 ≡ true) × InRemoval p m r.0) ⊎ ((r.1 ≡ false) × (r.0 ≡ m))

start_removal_of-Starts :
    (p : ℕ) (m : Packages) → (m.package_at p).blocked ≡ pos 0 → Starts p m (start_removal_of p m)
unfolding start_removal_of
start_removal_of-Starts p m b =
    let k = m.package_at p in
    let e = block_free k b in
    let once = update m.package_at p (block k).0 in
    let mark : Package → Package = λ x. set_package_state (removal_state x) x in
    if-cases (Starts p m) (is_blocked k || not (is_installed k.state)) _ _ (λ h. inr (refl, refl))
      (λ h.
        if-both (Starts p m) (is_built_in k && not (built_in_has_removable_update k)) _ _
          (inr (refl, refl))
          (if-cases (Starts p m) (not (block k).1) _ _ (λ c. cc (ap (λ x. x.1) e))
            (λ c. inl (
              refl,
              record {
                state = removal_state k;
                apps = (info k).applications;
                goes =
                    if-cases
                      (λ (s : PackageState).
                        (s ≡ being_removed) ⊎ ((s ≡ being_downgraded) × (is_built_in k ≡ true)))
                      (built_in_has_removable_update k) _ _
                      (λ u. inr (refl, (&&-true (is_built_in k) _ u).0)) (λ u. inl refl);
                was_installed =
                    is_installed_eq k.state (not-false _ (||-false (is_blocked k) _ h).1);
                packages = refl;
                still = refl;
                blocked =
                    update_self once p (mark (once p))
                    ∙ ap mark (update_self m.package_at p (block k).0 ∙ ap (λ x. x.0) e);
                others = λ q ne.
                    update-other once p (mark (once p)) q ne
                    ∙ update-other m.package_at p (block k).0 q ne;
              },
            ))))

pub starting_package_removal-Starts :
    (id : String) (p : ℕ) (m : Packages) → Free id p m → Starts p m (starting_package_removal id m)
unfolding starting_package_removal
starting_package_removal-Starts id p m f =
    rw (f.found, starting_package_removal) (start_removal_of-Starts p m f.free)

-- An application that stops is taken from those that the package waits for.
stop_one :
    (app : String) (p : ℕ) (m n : Packages)
    → InRemoval p m n
    → InRemoval p m (modify_package p (application_stopped_due_to_block app) n)
unfolding application_stopped_due_to_block
stop_one app p m n r = record {
  state = r.state;
  apps = remove_app app r.apps;
  goes = r.goes;
  was_installed = r.was_installed;
  packages = r.packages;
  still = r.still;
  blocked = update_self n.package_at p _ ∙ ap (application_stopped_due_to_block app) r.blocked;
  others = λ q ne. update-other n.package_at p _ q ne ∙ r.others q ne;
}

pub stop_applications-InRemoval :
    (apps : List String) (p : ℕ) (m n : Packages)
    → InRemoval p m n
    → InRemoval p m (stop_applications apps p n)
unfolding stop_applications
stop_applications-InRemoval [] p m n r = r
stop_applications-InRemoval (app ∷ apps) p m n r =
    stop_applications-InRemoval apps p m _ (stop_one app p m n r)

-- The search by id finds the same packages.
same_info :
    (p : ℕ) (m n : Packages)
    → InRemoval p m n
    → (q : ℕ) → (info (n.package_at q)).id ≡ (info (m.package_at q)).id
same_info p m n r q = elim (Bool-cases (q == p)) [
  | inl hit ↦
      let e = (==_iff q p).0 hit in
      subst (λ x. (info (n.package_at x)).id ≡ (info (m.package_at x)).id) (sym e)
        (ap (λ k. (info k).id) r.blocked)
  | inr miss ↦ ap (λ k. (info k).id) (r.others q (λ e. cc ((==_iff q p).1 e)))
]

pub still_found :
    (id : String) (p : ℕ) (m n : Packages)
    → InRemoval p m n
    → from_id id m ≡ some p
    → from_id id n ≡ some p
still_found id p m n r e =
    ap (λ ps. find (λ q. str_eq (info (n.package_at q)).id id) ps) r.packages
    ∙ (ap (λ (f : ℕ → Bool). find f m.packages)
          (fun_ext (λ q. ap (λ x. str_eq x id) (same_info p m n r q)))
        ∙ e)

restore-Untouched :
    (id : String) (p : ℕ) (m n : Packages)
    → Free id p m
    → InRemoval p m n
    → Untouched m (restore_package p n)
unfolding restore_package
restore-Untouched id p m n f r =
    let k = m.package_at p in
    let e =
      restore_at p n
      ∙ (ap (λ x. (unblock (set_package_state installed x)).0) r.blocked
          ∙ (unblock_last _ refl ∙ same_package k r.was_installed f.free f.no_apps)) in
    record {
      packages = r.packages;
      package_at = λ q. elim (Bool-cases (q == p)) [
        | inl hit ↦
            subst (λ x. (restore_package p n).package_at x ≡ m.package_at x)
              (sym ((==_iff q p).0 hit)) e
        | inr miss ↦
            let ne : q ≢ p = λ c. cc ((==_iff q p).1 c) in
            update-other n.package_at p _ q ne ∙ r.others q ne
      ];
    }

-- A removal that is canceled leaves the packages as they were.
pub canceled-Untouched :
    (id : String) (p : ℕ) (m n : Packages)
    → Free id p m
    → InRemoval p m n
    → Untouched m (canceled_package_install id n).0
unfolding canceled_package_install cancel_in
canceled-Untouched id p m n f r =
    let back = restore-Untouched id p m n f r in
    rw (still_found id p m n r f.found, canceled_package_install)
      (subst (λ (k : Package). Untouched m (cancel_in k.state p n).0) (sym r.blocked)
        (elim r.goes [
          | inl e ↦ subst (λ s. Untouched m (cancel_in s p n).0) (sym e) back
          | inr (e, built_in) ↦ subst (λ s. Untouched m (cancel_in s p n).0) (sym e) back
        ]))
