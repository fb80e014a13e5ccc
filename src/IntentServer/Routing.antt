-- ===== src/IntentServer/Routing.antt =====
-- Which intents a request may reach, and `requestToSystem`, which starts a request.
use qtapplicationmanager.Prelude.{
  ℕ, suc, Bool, true, false, ◌&&◌, ◌||◌, not, String, str_eq, List, [], ◌∷◌, Option, none, some,
  is_empty, filter, if◌then◌else◌,
}
use qtapplicationmanager.Qt.Map.{QMap}
use qtapplicationmanager.Qt.Variant.{Variant, VariantOps}
use qtapplicationmanager.Intent.{Intent, Visibility, public, private, check_parameter_match}
use qtapplicationmanager.IntentServer.State.{
  received_request, Request, Server, update, World, enqueue_request,
}
use qtapplicationmanager.IntentServer.Registry.{has_id, application_intent}

unfoldable pub filter_by_intent_id : VariantOps → List Intent → String → QMap Variant → List Intent
filter_by_intent_id ops intents intent_id parameters =
    filter (λ i. str_eq i.intent_id intent_id && check_parameter_match ops i parameters) intents

-- The null string is the empty one.
unfoldable pub package_id_for_application_id : String → QMap (List String) → String
package_id_for_application_id application_id [] = ""
package_id_for_application_id application_id ((package_id, applications) ∷ known) =
    if has_id applications application_id
    then package_id
    else package_id_for_application_id application_id known

abbrev pub is_private : Visibility → Bool
is_private public = false
is_private private = true

-- The predicate of `filterByRequestingApplicationId`.
unfoldable pub may_request : World → String → String → Intent → Bool
may_request w requesting_package_id requesting_application_id i =
    if not (str_eq i.package_id requesting_package_id)
    then (if is_private i.visibility
        then false
        else (if not (is_empty i.required_capabilities)
              && not (
                  w.check_application_capabilities requesting_application_id
                    i.required_capabilities)
            then false
            else true))
    else true

unfoldable pub filter_by_requesting_application_id :
    World → List Intent → String → Server → List Intent
unfolding package_id_for_application_id may_request
filter_by_requesting_application_id w intents requesting s =
    filter
      (may_request w (package_id_for_application_id requesting s.known_applications) requesting)
      intents

-- The addresses and ids that `new IntentServerRequest`, `Intent::copy` and `QUuid::createUuid` give
-- to the k-th request of one call.
pub record Alloc : Type 0 where
  pub isr : ℕ → ℕ
  pub uuid : ℕ → ℕ
  pub copy : ℕ → ℕ → ℕ

unfoldable pub copy_intents : (ℕ → ℕ) → ℕ → List Intent → List Intent
copy_intents address k [] = []
copy_intents address k (i ∷ intents) =
    record i { self = address k } ∷ copy_intents address (suc k) intents

-- `if (potentialIntents.size() == 1)`
abbrev pub sole : List Intent → Option Intent
sole [] = none
sole (i ∷ []) = some i
sole (i ∷ j ∷ rest) = none

-- The constructor of `IntentServerRequest`.
unfoldable pub new_request :
    Alloc → ℕ → String → String → List Intent → QMap Variant → Bool → Request
unfolding copy_intents
new_request a k requesting intent_id intents parameters broadcast =
    let copies = copy_intents (a.copy k) 0 intents in
    record {
      id = a.uuid k;
      state = received_request;
      succeeded = false;
      broadcast = broadcast;
      intent_id = intent_id;
      requesting_application_id = requesting;
      selected_intent = sole copies;
      potential_intents = copies;
      parameters = parameters;
      result = [];
    }

-- `new IntentServerRequest(…)` and `enqueueRequest(isr)`.
unfoldable pub enqueue_new : Alloc → ℕ → Request → Server → Server
unfolding enqueue_request
enqueue_new a k r s = enqueue_request (a.isr k) (record s { isr = update s.isr (a.isr k) r })

unfoldable pub enqueue_broadcast :
    Alloc → ℕ → String → String → QMap Variant → List Intent → Server → Server
unfolding enqueue_new new_request
enqueue_broadcast a k requesting intent_id parameters [] s = s
enqueue_broadcast a k requesting intent_id parameters (i ∷ intents) s =
    enqueue_broadcast a (suc k) requesting intent_id parameters intents
      (enqueue_new a k (new_request a k requesting intent_id (i ∷ []) parameters true) s)

abbrev pub broadcast_id : String
broadcast_id = ":broadcast:"

abbrev pub intent_list : Option Intent → List Intent
intent_list none = []
intent_list (some i) = i ∷ []

-- The intents that match, before the check of the requesting application.
unfoldable pub matching_intents : VariantOps → String → String → QMap Variant → Server → List Intent
unfolding filter_by_intent_id application_intent
matching_intents ops intent_id application_id parameters s =
    if str_eq application_id "" || str_eq application_id broadcast_id
    then filter_by_intent_id ops s.intents intent_id parameters
    else intent_list (application_intent ops intent_id application_id parameters s)

-- The end of `requestToSystem`, for the intents that are left.
unfoldable pub enqueue_matches :
    Alloc → String → String → QMap Variant → Bool → List Intent → Server → Server × Option ℕ
unfolding enqueue_broadcast enqueue_new new_request
enqueue_matches a requesting intent_id parameters broadcast [] s = (s, none)
enqueue_matches a requesting intent_id parameters true (i ∷ intents) s =
    (enqueue_broadcast a 0 requesting intent_id parameters (i ∷ intents) s, none)
enqueue_matches a requesting intent_id parameters false (i ∷ intents) s = (
  enqueue_new a 0 (new_request a 0 requesting intent_id (i ∷ intents) parameters false) s,
  some (a.isr 0),
)

-- `requestToSystem`: the server and the new request's address, null for none.
unfoldable pub request_to_system :
    VariantOps
    → World
    → Alloc
    → String
    → String
    → String
    → QMap Variant
    → Server
    → Server × Option ℕ
unfolding matching_intents filter_by_requesting_application_id enqueue_matches
request_to_system ops w a requesting intent_id application_id parameters s =
    if not (w.find_client_ipc requesting)
    then (s, none)
    else enqueue_matches a requesting intent_id parameters (str_eq application_id broadcast_id)
        (filter_by_requesting_application_id w
          (matching_intents ops intent_id application_id parameters s) requesting s)
        s
