-- ===== src/IntentServer/Registry.antt =====
-- The packages, applications and intents that the server knows.
use qtapplicationmanager.Prelude.{
  ℕ, Bool, true, false, ◌&&◌, not, String, str_eq, List, [], ◌∷◌, ◌++◌, Option, none, some, is_some,
  any, find, ◌==◌, if◌then◌else◌,
}
use qtapplicationmanager.Prelude.Maybe.{◌>>=◌}
use qtapplicationmanager.Qt.Map.{QMap, contains, value, insert, remove}
use qtapplicationmanager.Qt.Variant.{Variant, VariantOps}
use qtapplicationmanager.Intent.{Intent, check_parameter_match}
use qtapplicationmanager.IntentServer.State.{Server}

unfoldable pub add_package : String → Server → Server × Bool
add_package package_id s =
    if contains package_id s.known_applications
    then (s, false)
    else (record s { known_applications = insert package_id [] s.known_applications }, true)

unfoldable pub remove_package : String → Server → Server
remove_package package_id s = record s {
  known_applications = remove package_id s.known_applications;
}

-- `QStringList::contains`.
abbrev pub has_id : List String → String → Bool
has_id ids id = any (λ j. str_eq j id) ids

unfoldable pub add_application : String → String → Server → Server × Bool
add_application application_id package_id s =
    if not (contains package_id s.known_applications)
    then (s, false)
    else (if has_id (value package_id [] s.known_applications) application_id then (s, false) else (
      record s {
        known_applications =
            insert package_id (value package_id [] s.known_applications ++ application_id ∷ [])
              s.known_applications;
      },
      true,
    ))

-- `QStringList::removeAll`.
unfoldable pub remove_all : String → List String → List String
remove_all id [] = []
remove_all id (j ∷ ids) = let rest = remove_all id ids in if str_eq j id then rest else j ∷ rest

-- `m_knownApplications[packageId]` inserts an empty list for a package that is not known.
unfoldable pub remove_application : String → String → Server → Server
unfolding remove_all
remove_application application_id package_id s = record s {
  known_applications =
      insert package_id (remove_all application_id (value package_id [] s.known_applications))
        s.known_applications;
}

unfoldable pub application_intent :
    VariantOps → String → String → QMap Variant → Server → Option Intent
application_intent ops intent_id application_id parameters s =
    find
      (λ i.
        (str_eq i.application_id application_id && str_eq i.intent_id intent_id)
        && check_parameter_match ops i parameters)
      s.intents

unfoldable pub package_intent : VariantOps → String → String → QMap Variant → Server → Option Intent
package_intent ops intent_id package_id parameters s =
    find
      (λ i.
        (str_eq i.package_id package_id && str_eq i.intent_id intent_id)
        && check_parameter_match ops i parameters)
      s.intents

-- The overload with an application id.
unfoldable pub package_application_intent :
    VariantOps → String → String → String → QMap Variant → Server → Option Intent
package_application_intent ops intent_id package_id application_id parameters s =
    find
      (λ i.
        ((str_eq i.package_id package_id && str_eq i.application_id application_id)
          && str_eq i.intent_id intent_id)
        && check_parameter_match ops i parameters)
      s.intents

-- `addIntent`: the checks in their order, with the message of the exception that each throws.
unfoldable pub refusal : VariantOps → Intent → Server → Option String
unfolding application_intent
refusal ops i s =
    if str_eq i.intent_id ""
    then some "no id specified"
    else (if str_eq i.package_id ""
        then some "no packageId specified"
        else (if str_eq i.application_id ""
            then some "no handlingApplicationId specified"
            else (if not (contains i.package_id s.known_applications)
                then some "packageId is not known"
                else (if not (has_id (value i.package_id [] s.known_applications) i.application_id)
                    then some "applicationId is not known or not part of the specified package"
                    else (if is_some (application_intent ops i.intent_id i.application_id [] s)
                        then some "intent with given id/handlingApplicationId already exists"
                        else none)))))

-- The new object is given with its address; the result is null if it is refused.
unfoldable pub add_intent : VariantOps → Intent → Server → Server × Option Intent
unfolding refusal
add_intent ops i s = elim (refusal ops i s) [
  | none ↦ (record s { intents = s.intents ++ i ∷ [] }, some i)
  | some message ↦ (s, none)
]

-- The list without the first intent at an address; `none` if there is none.
unfoldable pub without_intent : ℕ → List Intent → Option (List Intent)
without_intent self [] = none
without_intent self (i ∷ intents) =
    let rest = without_intent self intents in
    if i.self == self then some intents else (rest >>= λ kept. some (i ∷ kept))

-- `removeIntent`. `none` is the fatal error of a recursive call; the guard is reset on leaving.
unfoldable pub remove_intent : ℕ → Server → Option Server
unfolding without_intent
remove_intent self s = elim (without_intent self s.intents) [
  | none ↦ some s
  | some kept ↦ (if s.about_to_be_removed then none else some (record s { intents = kept }))
]
