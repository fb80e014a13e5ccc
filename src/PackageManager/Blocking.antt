-- ===== src/PackageManager/Blocking.antt =====
-- The count of a package's blocks over an update: what a cancellation restores.
use qtapplicationmanager.Prelude.{
  ℕ, ◌≡◌, refl, sym, ap, ◌∙◌, subst, Bool, true, [], none, some, pos, ◌==◌, ==_iff,
}
use qtapplicationmanager.PackageManager.Package.{
  PackageInfo, installed, being_updated, Package, info, block, unblock,
}
use qtapplicationmanager.PackageManager.Installing.{
  Packages, set_package_state, start_update, restore_package, cancel_in,
}

pub eq_self : (p : ℕ) → (p == p) ≡ true
eq_self p = (==_iff p p).1 refl

pub same_package :
    (k : Package)
    → k.state ≡ installed
    → k.blocked ≡ pos 0
    → k.blocked_apps ≡ []
    → record k { state = installed; blocked = pos 0; blocked_apps = [] } ≡ k
same_package k st b apps =
    ap (λ x. record k { state = x; blocked = pos 0; blocked_apps = [] }) (sym st)
    ∙ (ap (λ x. record k { blocked = x; blocked_apps = [] }) (sym b)
        ∙ ap (λ x. record k { blocked_apps = x }) (sym apps))

pub restore_pending : (p : ℕ) (m : Packages) → (restore_package p m).pending p ≡ none
unfolding restore_package
restore_pending p m = rw (eq_self p) refl

pub block_free :
    (k : Package)
    → k.blocked ≡ pos 0
    → block k ≡ (record k { blocked = pos 1; blocked_apps = (info k).applications }, true)
unfolding block
block_free k b = rw b refl

pub unblock_last :
    (k : Package)
    → k.blocked ≡ pos 1
    → (unblock k).0 ≡ record k { blocked = pos 0; blocked_apps = [] }
unfolding unblock
unblock_last k b = rw b refl

-- An update of a package that is free.
start_update_free :
    (p : ℕ) (i : PackageInfo) (m : Packages)
    → (m.package_at p).blocked ≡ pos 0
    → (start_update p i m).0.package_at p ≡ record (m.package_at p) {
      state = being_updated;
      blocked = pos 1;
      blocked_apps = (info (m.package_at p)).applications;
    }
unfolding start_update
start_update_free p i m b =
    let e = block_free (m.package_at p) b in
    rw (ap (λ x. x.1) e, eq_self p) (ap (λ x. set_package_state being_updated x.0) e)

start_update_pending :
    (p : ℕ) (i : PackageInfo) (m : Packages)
    → (m.package_at p).blocked ≡ pos 0
    → (start_update p i m).0.pending p ≡ some i
unfolding start_update
start_update_pending p i m b = rw (ap (λ x. x.1) (block_free (m.package_at p) b), eq_self p) refl

pub restore_at :
    (p : ℕ) (m : Packages)
    → (restore_package p m).package_at p
      ≡ (unblock (set_package_state installed (m.package_at p))).0
unfolding restore_package
restore_at p m = rw (eq_self p) refl

-- What an update that is canceled leaves behind, for a package that was installed and free.
abbrev pub Restored : ℕ → Packages → Packages × Bool → Type 0
Restored p m r = (r.1 ≡ true) × (r.0.package_at p ≡ m.package_at p) × (r.0.pending p ≡ none)

-- For a package that is installed, not blocked, and has no application to wait for: an update that
-- is started and then canceled is canceled with success, and leaves the package as it was, with no
-- pending info.
pub cancel_update-Restored :
    (p : ℕ) (i : PackageInfo) (m : Packages)
    → (m.package_at p).state ≡ installed
    → (m.package_at p).blocked ≡ pos 0
    → (m.package_at p).blocked_apps ≡ []
    → Restored p m (cancel_in ((start_update p i m).0.package_at p).state p (start_update p i m).0)
unfolding cancel_in
cancel_update-Restored p i m st b apps =
    let u = (start_update p i m).0 in
    let k = m.package_at p in
    let e = start_update_free p i m b in
    let back : (restore_package p u).package_at p ≡ k =
      restore_at p u
      ∙ (ap (λ x. (unblock (set_package_state installed x)).0) e
          ∙ (unblock_last _ refl ∙ same_package k st b apps)) in
    subst (λ h. Restored p m (cancel_in h p u)) (sym (ap (λ x. x.state) e))
      (refl, back, restore_pending p u)
