-- ===== src/IntentClient/Tests.antt =====
-- An application with a request that it sent, one that it handles, and a handler.
use qtapplicationmanager.Prelude.{◌≡◌, refl, true, false, [], ◌∷◌, some, pos, ◌==◌, if◌then◌else◌}
use qtapplicationmanager.Qt.Variant.{VariantOps}
use qtapplicationmanager.IntentClient.State.{
  to_system, to_application, reply_from_application, Client, new_request,
}
use qtapplicationmanager.IntentClient.Client.{
  send_reply, timed_out, reply_from_system, handler_for, register_handler,
}
use qtapplicationmanager.IntentClient.Answering.{late_reply-Succeeds, second_reply-Sent}
use qtapplicationmanager.IntentClient.Handlers.{register, register_handler-Refines}

abbrev no_ops : VariantOps
no_ops = record {
  to_string = λ v. "";
  can_convert = λ a b. false;
  equals = λ a b. false;
  has_match = λ a b. false;
}

-- The request 1 was sent and has the id 100; the request 2 came in.
abbrev player : Client
player = record {
  waiting = 1 ∷ [];
  handlers = (("show-image", "player"), 9) ∷ [];
  request_at = λ p.
      if p == 1
      then record (new_request to_system "player" (some 100) "open-map" "" [] false) {
        is_connected = true;
      }
      else new_request to_application "maps" (some 200) "show-image" "player" [] false;
  is_alive = λ p. true;
  reply_from_system_timeout = pos 3000;
  reply_from_application_timeout = pos 3000;
  outbox = [];
}

late_reply-Succeeds_example :
    ((timed_out 1 "too late" player).request_at 1 ≡ record (player.request_at 1) {
      error_message = "too late";
      is_succeeded = false;
      is_finished = true;
      is_connected = false;
    })
    × ((reply_from_system no_ops false 100 false [] (timed_out 1 "too late" player)).request_at 1
        ≡ record (player.request_at 1) {
          error_message = "too late";
          result = [];
          is_succeeded = true;
          is_finished = true;
          is_connected = false;
        })
    × ((reply_from_system no_ops false 100 false [] (timed_out 1 "too late" player)).outbox
        ≡ (timed_out 1 "too late" player).outbox)
late_reply-Succeeds_example =
    late_reply-Succeeds no_ops false 1 100 "too late" [] player refl refl refl refl

second_reply-Sent_example :
    (send_reply 2 [] (send_reply 2 [] player)).outbox
    ≡ reply_from_application 2 true [] ∷ reply_from_application 2 true [] ∷ []
second_reply-Sent_example = second_reply-Sent 2 [] [] player refl refl refl

register_handler-Refines_example :
    handler_for
      ("show-image", "player")
      (register_handler 12 "player" ("show-image" ∷ "play" ∷ []) player).handlers
    ≡ register 12 "player"
        ("show-image" ∷ "play" ∷ [])
        (λ k. handler_for k player.handlers)
        ("show-image", "player")
register_handler-Refines_example =
    register_handler-Refines 12 "player" ("show-image" ∷ "play" ∷ []) player
      ("show-image", "player")
