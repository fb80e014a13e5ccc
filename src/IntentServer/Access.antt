-- ===== src/IntentServer/Access.antt =====
-- Which intents a request can reach: `requestToSystem` never offers an intent that the requesting
-- application may not see.
use qtapplicationmanager.Prelude.{
  ℕ, suc, ◌≡◌, ◌⊎◌, inl, inr, refl, sym, subst, ap, Bool, true, false, not, ◌||◌, String, str_eq,
  str_eq_iff, List, [], ◌∷◌, ◌++◌, Option, none, some, arith, All, filter, is_empty, Bool-cases,
  &&-true, Option-cases, In, All-map, filter-All, find-some,
}
use qtapplicationmanager.Qt.Map.{QMap}
use qtapplicationmanager.Qt.Variant.{Variant, VariantOps}
use qtapplicationmanager.Intent.{Intent, Visibility, public, private, check_parameter_match}
use qtapplicationmanager.IntentServer.State.{Server, World}
use mathlib.Core.Option.{some-injective}
use qtapplicationmanager.IntentServer.Invariant.{update_self}
use qtapplicationmanager.IntentServer.Registry.{application_intent}
use qtapplicationmanager.IntentServer.Routing.{
  Alloc, copy_intents, new_request, enqueue_matches, matching_intents, may_request,
  filter_by_requesting_application_id, package_id_for_application_id, request_to_system,
  broadcast_id, is_private,
}

-- An intent of the same package, or a public one whose capabilities the application has.
abbrev pub MayReach : World → String → String → Intent → Type 0
MayReach w package_id requesting i =
    (i.package_id ≡ package_id)
    ⊎ ((i.visibility ≡ public)
        × ((i.required_capabilities ≡ [])
            ⊎ (w.check_application_capabilities requesting i.required_capabilities ≡ true)))

empty_of : (xs : List String) → is_empty xs ≡ true → xs ≡ []
empty_of [] h = refl
empty_of (x ∷ xs) h = cc

public_of : (v : Visibility) → is_private v ≡ false → v ≡ public
public_of public h = refl
public_of private h = cc

may_request-MayReach :
    (w : World) (package_id requesting : String) (i : Intent)
    → may_request w package_id requesting i ≡ true
    → MayReach w package_id requesting i
unfolding may_request
may_request-MayReach w package_id requesting i h = ground (
  arith,
  str_eq_iff i.package_id package_id,
  empty_of i.required_capabilities,
  public_of i.visibility,
)

-- `c` is the copy of an intent of the server that the request names, that accepts its parameters, and
-- that the requesting application may see.
abbrev pub Offered : VariantOps → World → String → String → QMap Variant → Server → Intent → Type 0
Offered ops w requesting intent_id parameters s c =
    (i : Intent) × In i s.intents
    × (c ≡ record i { self = c.self })
    × (i.intent_id ≡ intent_id)
    × (check_parameter_match ops i parameters ≡ true)
    × MayReach w (package_id_for_application_id requesting s.known_applications) requesting i

-- What the search for the intents by id and application promises.
abbrev Matches : VariantOps → String → QMap Variant → Server → Intent → Type 0
Matches ops intent_id parameters s i =
    In i s.intents × (i.intent_id ≡ intent_id) × (check_parameter_match ops i parameters ≡ true)

matching_intents-Matches :
    (ops : VariantOps) (intent_id application_id : String) (parameters : QMap Variant) (s : Server)
    → All
        (Matches ops intent_id parameters s)
        (matching_intents ops intent_id application_id parameters s)
unfolding matching_intents
matching_intents-Matches ops intent_id application_id parameters s =
    elim (Bool-cases (str_eq application_id "" || str_eq application_id broadcast_id)) [
      | inl many ↦ rw many (
          All-map _ (Matches ops intent_id parameters s) _
            (λ i h. let b = &&-true _ _ h.1 in (h.0, (str_eq_iff _ _).0 b.0, b.1))
            (filter-All _ s.intents))
      | inr one ↦
          rw one
            (elim (Option-cases (application_intent ops intent_id application_id parameters s)) [
              | inl e ↦ rw e tt
              | inr (i, e) ↦
                  let f = find-some _ s.intents i e in
                  let b = &&-true _ _ f.1 in
                  let c = &&-true _ _ b.0 in rw e ((f.0, (str_eq_iff _ _).0 c.1, b.1), tt)
            ])
    ]

filter-keeps :
    (P : Intent → Type 0) (p : Intent → Bool) (xs : List Intent)
    → All P xs
    → All (λ i. P i × (p i ≡ true)) (filter p xs)
filter-keeps P p [] h = tt
filter-keeps P p (x ∷ xs) h = elim (Bool-cases (p x)) [
  | inl keep ↦ rw keep ((h.0, keep), filter-keeps P p xs h.1)
  | inr drop ↦ rw drop (filter-keeps P p xs h.1)
]

copies-Offered :
    (ops : VariantOps) (w : World) (requesting intent_id : String) (parameters : QMap Variant)
    (s : Server) (address : ℕ → ℕ) (k : ℕ) (xs : List Intent)
    → All
        (λ i.
          Matches ops intent_id parameters s i
          × (may_request w
                (package_id_for_application_id requesting s.known_applications)
                requesting
                i
              ≡ true))
        xs
    → All (Offered ops w requesting intent_id parameters s) (copy_intents address k xs)
unfolding copy_intents
copies-Offered ops w requesting intent_id parameters s address k [] h = tt
copies-Offered ops w requesting intent_id parameters s address k (i ∷ xs) h = (
  (i, h.0.0.0, refl, h.0.0.1, h.0.0.2, may_request-MayReach w _ requesting i h.0.1),
  copies-Offered ops w requesting intent_id parameters s address (suc k) xs h.1,
)

enqueue_matches-new :
    (a : Alloc) (requesting intent_id : String) (parameters : QMap Variant) (broadcast : Bool)
    (intents : List Intent) (s t : Server) (p : ℕ)
    → enqueue_matches a requesting intent_id parameters broadcast intents s ≡ (t, some p)
    → ((t.isr p).potential_intents ≡ copy_intents (a.copy 0) 0 intents)
      × (t.request_queue ≡ s.request_queue ++ p ∷ [])
unfolding enqueue_matches
enqueue_matches-new a requesting intent_id parameters true [] s t p e = cc
enqueue_matches-new a requesting intent_id parameters false [] s t p e = cc
enqueue_matches-new a requesting intent_id parameters true (i ∷ intents) s t p e = cc
enqueue_matches-new a requesting intent_id parameters false (i ∷ intents) s t p e =
    let u = (enqueue_matches a requesting intent_id parameters false (i ∷ intents) s).0 in
    let same : u ≡ t = ap (λ x. x.0) e in
    let address : a.isr 0 ≡ p = some-injective (a.isr 0) p (ap (λ x. x.1) e) in
    let made = new_request a 0 requesting intent_id (i ∷ intents) parameters false in
    (
      subst (λ v. (v.isr p).potential_intents ≡ copy_intents (a.copy 0) 0 (i ∷ intents)) same
          (subst (λ q. (u.isr q).potential_intents ≡ copy_intents (a.copy 0) 0 (i ∷ intents))
            address (ap (λ r. r.potential_intents) (update_self s.isr (a.isr 0) made))),
      subst (λ v. v.request_queue ≡ s.request_queue ++ p ∷ []) same
          (ap (λ q. s.request_queue ++ q ∷ []) address),
    )

none-some : {p : ℕ} → ◌≡◌ {A = Option ℕ} none (some p) → ⊥
none-some e = cc

-- When `requestToSystem` returns a request, that stands at the end of the request queue, and each of
-- its potential intents is the copy of an intent of the server with the id asked for, that accepts
-- the parameters, and that is of the requesting application's package, or public with its
-- capabilities (if it needs any) granted to that application.
pub request_to_system-Offered :
    (ops : VariantOps) (w : World) (a : Alloc) (requesting intent_id application_id : String)
    (parameters : QMap Variant) (s t : Server) (p : ℕ)
    → request_to_system ops w a requesting intent_id application_id parameters s ≡ (t, some p)
    → All (Offered ops w requesting intent_id parameters s) (t.isr p).potential_intents
      × (t.request_queue ≡ s.request_queue ++ p ∷ [])
unfolding request_to_system filter_by_requesting_application_id
request_to_system-Offered ops w a requesting intent_id application_id parameters s t p e =
    elim (Bool-cases (not (w.find_client_ipc requesting))) [
      | inl unknown ↦ absurd (none-some (ap (λ x. x.1) (rw unknown at e)))
      | inr known ↦
          let made =
            enqueue_matches-new a requesting intent_id parameters _ _ s t p (rw known at e) in
          (
            subst (All (Offered ops w requesting intent_id parameters s)) (sym made.0) (
                copies-Offered ops w requesting intent_id parameters s (a.copy 0) 0 _ (
                  filter-keeps (Matches ops intent_id parameters s) _ _
                    (matching_intents-Matches ops intent_id application_id parameters s))),
            made.1,
          )
    ]
