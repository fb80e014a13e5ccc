-- ===== src/IntentServer/Histories.antt =====
-- Histories in which applications make new requests while others are under way.
use qtapplicationmanager.Prelude.{ℕ, ◌≤◌, ◌≡◌, String, List, [], ◌∷◌, Option, some}
use qtapplicationmanager.Prelude.Maybe.{◌>>=◌}
use qtapplicationmanager.Qt.Map.{QMap}
use qtapplicationmanager.Qt.Variant.{Variant, VariantOps}
use qtapplicationmanager.IntentServer.State.{Server, World}
use qtapplicationmanager.IntentServer.Routing.{Alloc, request_to_system}
use qtapplicationmanager.IntentServer.Events.{Event, step}
use qtapplicationmanager.IntentServer.Invariant.{occurrences, Inv}
use qtapplicationmanager.IntentServer.Entering.{IsFresh}
use qtapplicationmanager.IntentServer.Safety.{IsFair}

-- An event of the event loop, or a call of `requestToSystem` with what `new` and `createUuid` return.
pub data Call : Type 0 where
  event : World → Event → Call
  request : World → Alloc → String → String → String → QMap Variant → Call

unfoldable pub serve : VariantOps → Call → Server → Option Server
unfolding step request_to_system
serve ops (event w e) s = step ops w e s
serve ops (request w a requesting intent_id application_id parameters) s =
    some (request_to_system ops w a requesting intent_id application_id parameters s).0

unfoldable pub serve_all : VariantOps → List Call → Server → Option Server
unfolding serve
serve_all ops [] s = some s
serve_all ops (c ∷ calls) s = serve ops c s >>= serve_all ops calls

-- An event is fair as in Safety; a request's addresses are new to the server at that time.
abbrev pub IsFairCall : Call → Server → Type 0
IsFairCall (event w e) s = IsFair (w, e)
IsFairCall (request w a requesting intent_id application_id parameters) s = IsFresh a 0 s

abbrev pub IsFairRun : VariantOps → List Call → Server → Type 0
IsFairRun ops [] s = Unit
IsFairRun ops (c ∷ calls) s =
    IsFairCall c s × ((t : Server) → serve ops c s ≡ some t → IsFairRun ops calls t)

-- The calls have a result, in which every request that was held is held.
abbrev pub Served : Server → Option Server → Type 0
Served s o = (t : Server) × (o ≡ some t) × Inv t × ((q : ℕ) → occurrences q s ≤ occurrences q t)
