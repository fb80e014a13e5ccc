-- ===== src/PackageManager/Package.antt =====
-- A package: its infos, its state, and the count of its blocks.
use qtapplicationmanager.Prelude.{
  ℕ, Bool, true, false, ◌&&◌, String, str_eq, List, [], ◌∷◌, Option, none, some, is_some, ℤ, pos,
  increment, decrement, is_zero, is_positive, not, if◌then◌else◌,
}

-- What is read of a package info: `self` is its address.
pub record PackageInfo : Type 0 where
  pub self : ℕ
  pub id : String
  pub is_built_in : Bool
  pub applications : List String

pub data PackageState : Type 0 where
  installed being_installed being_updated being_downgraded being_removed : PackageState

-- `blocked_apps` are the applications that have to stop first.
pub record Package : Type 0 where
  pub base_info : PackageInfo
  pub updated_info : Option PackageInfo
  pub state : PackageState
  pub blocked : ℤ
  pub blocked_apps : List String

-- The constructor.
abbrev pub is_being_installed : PackageState → Bool
is_being_installed being_installed = true
is_being_installed _ = false

unfoldable pub new_package : PackageInfo → PackageState → Package
new_package info state = record {
  base_info = info;
  updated_info = none;
  state = state;
  blocked = if is_being_installed state then pos 1 else pos 0;
  blocked_apps = [];
}

abbrev pub info : Package → PackageInfo
info p = elim p.updated_info [ some i ↦ i | none ↦ p.base_info ]

abbrev pub is_built_in : Package → Bool
is_built_in p = p.base_info.is_built_in

abbrev pub built_in_has_removable_update : Package → Bool
built_in_has_removable_update p = is_built_in p && is_some p.updated_info

abbrev pub is_blocked : Package → Bool
is_blocked p = is_positive p.blocked

-- The counter goes up whether or not the package was blocked already.
unfoldable pub block : Package → Package × Bool
block p =
    let blocked_now = is_zero p.blocked in
    let q = record p { blocked = increment p.blocked } in
    (if blocked_now then record q { blocked_apps = (info p).applications } else q, blocked_now)

-- `fetchAndSub` returns the old value.
abbrev pub is_one : ℤ → Bool
is_one i = is_zero (decrement i)

unfoldable pub unblock : Package → Package × Bool
unblock p =
    let unblocked_now = is_one p.blocked in
    let q = record p { blocked = decrement p.blocked } in
    (if unblocked_now then record q { blocked_apps = [] } else q, unblocked_now)

-- `std::find_if` and `removeOne`, for infos that are told apart by their ids.
abbrev pub remove_app : String → List String → List String
remove_app app_id [] = []
remove_app app_id (a ∷ apps) = if str_eq a app_id then apps else a ∷ remove_app app_id apps

unfoldable pub application_stopped_due_to_block : String → Package → Package
application_stopped_due_to_block app_id p =
    if not (is_blocked p) then p else record p { blocked_apps = remove_app app_id p.blocked_apps }

abbrev pub no_apps : List String → Bool
no_apps [] = true
no_apps (a ∷ apps) = false

unfoldable pub are_all_applications_stopped_due_to_block : Package → Bool
are_all_applications_stopped_due_to_block p = is_blocked p && no_apps p.blocked_apps
