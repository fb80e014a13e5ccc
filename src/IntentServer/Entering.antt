-- ===== src/IntentServer/Entering.antt =====
-- New requests enter the request queue in order.
use mathlib.Core.Bool.{false≢true}
use qtapplicationmanager.Prelude.{
  ℕ, suc, ◌+◌, ◌≤◌, ◌≡◌, ◌≢◌, refl, subst, ap, ==_iff, Bool, true, false, not, String, str_eq, List,
  [], ◌∷◌, arith, ◌==◌, Bool-cases, inl, inr, if-both, Option,
}
use qtapplicationmanager.Qt.Map.{QMap}
use qtapplicationmanager.Qt.Variant.{Variant, VariantOps}
use qtapplicationmanager.Intent.{Intent}
use qtapplicationmanager.IntentServer.State.{Request, Server, World}
use qtapplicationmanager.IntentServer.Routing.{
  Alloc, copy_intents, new_request, enqueue_new, enqueue_broadcast, enqueue_matches,
  request_to_system, broadcast_id,
}
use qtapplicationmanager.IntentServer.Invariant.{one_if, occurrences, Ready, Inv}
use qtapplicationmanager.IntentServer.Processing.{Settled}
use qtapplicationmanager.IntentServer.Taking.{enqueue-Settled}

-- What the allocator promises: the addresses from the k-th on are in no queue, and all differ.
pub record IsFresh (a : Alloc) (k : ℕ) (s : Server) : Type 0 where
  pub unused : (j : ℕ) → k ≤ j → occurrences (a.isr j) s ≡ 0
  pub distinct : (i j : ℕ) → a.isr i ≡ a.isr j → i ≡ j

enqueue_new-Settled :
    (a : Alloc) (k : ℕ) (r : Request) (s : Server)
    → IsFresh a k s
    → Ready r
    → Inv s
    → Settled (λ q. occurrences q s + one_if (a.isr k == q)) (enqueue_new a k r s)
unfolding enqueue_new
enqueue_new-Settled a k r s fresh ready v =
    enqueue-Settled (a.isr k) _ (λ _. r) s v.fit (λ q. refl) (fresh.unused k (omega arith)) ready

held_once :
    (a : Alloc) (k : ℕ) (s t : Server)
    → IsFresh a k s
    → Inv s
    → Settled (λ q. occurrences q s + one_if (a.isr k == q)) t
    → Inv t
held_once a k s t fresh v h = record {
  fit = h.fit;
  single = λ q. elim (Bool-cases (a.isr k == q)) [
    | inl same ↦
        let e : a.isr k ≡ q = (==_iff (a.isr k) q).0 same in
        omega (
          arith,
          h.held q,
          subst (λ x. occurrences x s ≡ 0) e (fresh.unused k (omega arith)),
          ap one_if same,
        )
    | inr other ↦ omega (arith, h.held q, v.single q, ap one_if other)
  ];
}

one_if-ne : (p q : ℕ) → p ≢ q → one_if (p == q) ≡ 0
one_if-ne p q h = ground arith

still-IsFresh :
    (a : Alloc) (k : ℕ) (s t : Server)
    → IsFresh a k s
    → Settled (λ q. occurrences q s + one_if (a.isr k == q)) t
    → IsFresh a (suc k) t
still-IsFresh a k s t fresh h = record {
  unused = λ j le. omega (
    arith,
    h.held (a.isr j),
    fresh.unused j (omega arith),
    one_if-ne (a.isr k) (a.isr j) (λ e. absurd (omega (arith, fresh.distinct k j e))),
  );
  distinct = fresh.distinct;
}

-- A broadcast goes to one intent, which is selected.
broadcast-ready :
    (a : Alloc) (k : ℕ) (requesting intent_id : String) (i : Intent) (parameters : QMap Variant)
    → Ready (new_request a k requesting intent_id (i ∷ []) parameters true)
unfolding new_request copy_intents
broadcast-ready a k requesting intent_id i parameters = (λ e. cc, λ _. refl)

single-ready :
    (a : Alloc) (k : ℕ) (requesting intent_id : String) (i : Intent) (intents : List Intent)
    (parameters : QMap Variant)
    → Ready (new_request a k requesting intent_id (i ∷ intents) parameters false)
unfolding new_request copy_intents
single-ready a k requesting intent_id i intents parameters = (λ e. cc, λ e. absurd (false≢true e))

enqueue_broadcast-Inv :
    (a : Alloc) (k : ℕ) (requesting intent_id : String) (parameters : QMap Variant)
    (intents : List Intent) (s : Server)
    → IsFresh a k s
    → Inv s
    → Inv (enqueue_broadcast a k requesting intent_id parameters intents s)
unfolding enqueue_broadcast
enqueue_broadcast-Inv a k requesting intent_id parameters [] s fresh v = v
enqueue_broadcast-Inv a k requesting intent_id parameters (i ∷ intents) s fresh v =
    let h =
      enqueue_new-Settled a k _ s fresh (broadcast-ready a k requesting intent_id i parameters) v in
    enqueue_broadcast-Inv a (suc k) requesting intent_id parameters intents _
      (still-IsFresh a k s _ fresh h) (held_once a k s _ fresh v h)

enqueue_matches-Inv :
    (a : Alloc) (requesting intent_id : String) (parameters : QMap Variant) (broadcast : Bool)
    (intents : List Intent) (s : Server)
    → IsFresh a 0 s
    → Inv s
    → Inv (enqueue_matches a requesting intent_id parameters broadcast intents s).0
unfolding enqueue_matches
enqueue_matches-Inv a requesting intent_id parameters true [] s fresh v = v
enqueue_matches-Inv a requesting intent_id parameters false [] s fresh v = v
enqueue_matches-Inv a requesting intent_id parameters true (i ∷ intents) s fresh v =
    enqueue_broadcast-Inv a 0 requesting intent_id parameters (i ∷ intents) s fresh v
enqueue_matches-Inv a requesting intent_id parameters false (i ∷ intents) s fresh v =
    held_once a 0 s _ fresh v (
      enqueue_new-Settled a 0 _ s fresh (single-ready a 0 requesting intent_id i intents parameters)
        v)

pub request_to_system-Inv :
    (ops : VariantOps) (w : World) (a : Alloc) (requesting intent_id application_id : String)
    (parameters : QMap Variant) (s : Server)
    → IsFresh a 0 s
    → Inv s
    → Inv (request_to_system ops w a requesting intent_id application_id parameters s).0
unfolding request_to_system
request_to_system-Inv ops w a requesting intent_id application_id parameters s fresh v =
    elim (Bool-cases (not (w.find_client_ipc requesting))) [
      | inl unknown ↦ rw unknown v
      | inr known ↦ rw known (
          enqueue_matches-Inv a requesting intent_id parameters (str_eq application_id broadcast_id)
            _ s fresh v)
    ]

-- New requests take no place from the others.
enqueue_broadcast_holds :
    (a : Alloc) (k : ℕ) (requesting intent_id : String) (parameters : QMap Variant)
    (intents : List Intent) (s : Server) (q : ℕ)
    → IsFresh a k s
    → Inv s
    → occurrences q s
      ≤ occurrences q (enqueue_broadcast a k requesting intent_id parameters intents s)
unfolding enqueue_broadcast
enqueue_broadcast_holds a k requesting intent_id parameters [] s q fresh v = omega arith
enqueue_broadcast_holds a k requesting intent_id parameters (i ∷ intents) s q fresh v =
    let h =
      enqueue_new-Settled a k (new_request a k requesting intent_id (i ∷ []) parameters true) s
        fresh (broadcast-ready a k requesting intent_id i parameters) v in
    let rest =
      enqueue_broadcast_holds a (suc k) requesting intent_id parameters intents _ q
        (still-IsFresh a k s _ fresh h) (held_once a k s _ fresh v h) in
    omega (arith, h.held q, rest)

enqueue_matches_holds :
    (a : Alloc) (requesting intent_id : String) (parameters : QMap Variant) (broadcast : Bool)
    (intents : List Intent) (s : Server) (q : ℕ)
    → IsFresh a 0 s
    → Inv s
    → occurrences q s
      ≤ occurrences q (enqueue_matches a requesting intent_id parameters broadcast intents s).0
unfolding enqueue_matches
enqueue_matches_holds a requesting intent_id parameters true [] s q fresh v = omega arith
enqueue_matches_holds a requesting intent_id parameters false [] s q fresh v = omega arith
enqueue_matches_holds a requesting intent_id parameters true (i ∷ intents) s q fresh v =
    enqueue_broadcast_holds a 0 requesting intent_id parameters (i ∷ intents) s q fresh v
enqueue_matches_holds a requesting intent_id parameters false (i ∷ intents) s q fresh v = omega (
  arith,
  (enqueue_new-Settled a 0 (new_request a 0 requesting intent_id (i ∷ intents) parameters false) s
        fresh (single-ready a 0 requesting intent_id i intents parameters) v).held
      q,
)

pub request_to_system_holds :
    (ops : VariantOps) (w : World) (a : Alloc) (requesting intent_id application_id : String)
    (parameters : QMap Variant) (s : Server) (q : ℕ)
    → IsFresh a 0 s
    → Inv s
    → occurrences q s
      ≤ occurrences q (request_to_system ops w a requesting intent_id application_id parameters s).0
unfolding request_to_system
request_to_system_holds ops w a requesting intent_id application_id parameters s q fresh v =
    if-both (λ (x : Server × Option ℕ). occurrences q s ≤ occurrences q x.0)
      (not (w.find_client_ipc requesting)) _ _ (omega arith)
      (enqueue_matches_holds a requesting intent_id parameters (str_eq application_id broadcast_id)
        _ s q fresh v)
