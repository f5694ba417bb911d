-- ===== src/Examples/Tools.antt =====
-- A DevTools client at concrete commands, messages and listeners.
use chromedriver.Base.{
  ℕ, String, ◌≡◌, refl, true, false, ◌==◌, Option, none, some, [], ◌∷◌, if◌then◌else◌, pos, negsuc,
  arith, eqb,
}
use chromedriver.Dictionary.{lookup, assign, erase, nat_eq}
use chromedriver.Status.{Status, status, status_details, ok, unknown_error, is_error}
use chromedriver.DevTools.Commands.{
  Client, Response, ResponseInfo, waiting, returns, answers, alert_status, send, receive, finish,
  block,
}
use chromedriver.DevTools.Pending.{is_id}
use chromedriver.DevTools.Awaiting.{
  Steps, stay, after, sends, receives, new_client, finish-receive, finish-block,
}
use chromedriver.DevTools.Answers.{Received, finish-answers}
use chromedriver.DevTools.Notify.{Listeners, Call, notify_of_event}
use chromedriver.DevTools.Order.{told_of_event, notify_of_event-ends, notify_of_event-everyone}
use chromedriver.DevTools.Messages.{response, parse_inspector_message}
use chromedriver.DevTools.Transparency.{
  fails, plain_response, plain_event, mapper_response, mapper_event, binding_call,
  parse_inspector_message-response, parse_inspector_message-event,
}
use chromedriver.Examples.Json.{Json, Dict, dict, int, entry, nil, json, json_laws}

abbrev parse_error : String → Status
parse_error text = status_details unknown_error text

abbrev fresh : Client String
fresh = new_client parse_error 1 true

-- Two commands were sent, and the second one was answered first.
abbrev second : Client String
second = send false true true "Page.enable" (send false true true "Runtime.enable" fresh)

abbrev reply : ℕ → Response String
reply n = record { id = pos n; result = some "{}"; error = "" }

abbrev answered : Client String
answered = (receive parse_error (reply 2) second).1

sent : Steps parse_error fresh second
sent =
    after (after stay (sends false true true "Runtime.enable"))
      (sends false true true "Page.enable")

reached : Steps parse_error fresh answered
reached = after sent (receives (reply 2))

abbrev waits : ResponseInfo String
waits = record { state = waiting; method = "Runtime.enable"; response = none }

finish-receive_example :
    ((receive parse_error (reply 1) answered).0 ≡ status ok)
    × ((finish parse_error none 1 (receive parse_error (reply 1) answered).1).0
        ≡ some (answers "{}"))
unfolding send receive lookup assign erase
finish-receive_example = finish-receive parse_error reached none 1 (reply 1) waits refl refl refl

finish-block_example :
    ((finish parse_error (some "Sure?") 1 (block 2 answered)).0
      ≡ some (returns (alert_status (some "Sure?"))))
    × ((receive parse_error (reply 1) (finish parse_error (some "Sure?") 1 (block 2 answered)).1).0
        ≡ status ok)
unfolding send receive lookup assign erase
finish-block_example =
    finish-block parse_error reached (some "Sure?") 1 2 (reply 1) waits refl refl (omega arith) refl

finish-answers_example :
    (r : Response String) × Received parse_error r reached
    × (is_id 2 r.id ≡ true)
    × (r.result ≡ some "{}")
unfolding send receive finish lookup assign erase
finish-answers_example = finish-answers parse_error reached none 2 "{}" refl

abbrev listeners : Listeners ℕ
listeners = record {
  listeners = 1 ∷ 2 ∷ 3 ∷ [];
  unnotified_connect_listeners = 1 ∷ 2 ∷ 3 ∷ [];
  unnotified_event_listeners = 1 ∷ 2 ∷ 3 ∷ [];
  unnotified_cmd_response_listeners = [];
}

-- The first listener sends a command while it is called.
abbrev calm : ℕ → Call
calm l = record { nests = eqb l 1; result = status ok }

-- The second one fails.
abbrev failing : ℕ → Call
failing l = record { nests = false; result = status (if eqb l 2 then unknown_error else ok) }

calm_succeeds : (l : ℕ) → is_error (calm l).result ≡ false
calm_succeeds l = refl

notify_of_event-ends_example : (notify_of_event failing listeners).1.unnotified_event_listeners ≡ []
notify_of_event-ends_example = notify_of_event-ends failing listeners

notify_of_event-everyone_example :
    (told_of_event calm listeners ≡ 1 ∷ 2 ∷ 3 ∷ [])
    × ((notify_of_event calm listeners).0 ≡ status ok)
notify_of_event-everyone_example = notify_of_event-everyone calm listeners calm_succeeds

abbrev error : Dict
error = entry "code" (int (negsuc 32600)) nil

-- Texts as a target sends them and as the mapper does
abbrev texts : String → Option Json
texts s =
    if s == "plain"
    then some (dict (plain_response json json_laws (pos 5) "S" (fails error)))
    else if s == "tunnelled"
    then some (dict (binding_call json json_laws "M" "payload"))
    else some (dict (plain_event json json_laws "Page.loadEventFired" "S" nil))

abbrev response_payload : String → Option Json
response_payload text = some (dict (mapper_response json json_laws (pos 5) "S" (fails error)))

abbrev event_payload : String → Option Json
event_payload text = some (dict (mapper_event json json_laws "Page.loadEventFired" "S" nil))

abbrev write : Dict → String
write d = "{\"code\":-32601}"

parse_inspector_message-response_example :
    (parse_inspector_message json write texts response_payload "plain"
      ≡ some (response "S" (pos 5) none (write error)))
    × (parse_inspector_message json write texts response_payload "tunnelled"
        ≡ some (response "S" (pos 5) none (write error)))
parse_inspector_message-response_example =
    parse_inspector_message-response json json_laws write texts response_payload "plain" "tunnelled"
      "payload" "S" "M" (pos 5) (fails error) refl refl refl

parse_inspector_message-event_example :
    parse_inspector_message json write texts event_payload "tunnelled"
    ≡ parse_inspector_message json write texts event_payload "event"
parse_inspector_message-event_example =
    parse_inspector_message-event json json_laws write texts event_payload "event" "tunnelled"
      "payload" "Page.loadEventFired" "S" "M" nil refl refl refl refl
