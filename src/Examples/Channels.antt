-- ===== src/Examples/Channels.antt =====
-- A BiDi command of the connection 7 with a channel of its own, and its response.
use chromedriver.Base.{String, ◌≡◌, refl, Option, none, some, [], ◌∷◌, ◌==◌, if◌then◌else◌, ℤ, pos}
use chromedriver.DevTools.Messages.{parse_inspector_message}
use chromedriver.DevTools.Transparency.{binding_call}
use chromedriver.Sessions.Channels.{forward_bidi_command, post_bidi_command, deliver, is_connected}
use chromedriver.Sessions.Trip.{deliver-forward_bidi_command}
use chromedriver.Examples.Json.{Json, int, string, dict, Dict, nil, entry, find, json, json_laws}

abbrev number_to_string : ℤ → String
number_to_string i = "7"

abbrev string_to_int : String → Option ℤ
string_to_int s = if s == "7" then some (pos 7) else none

abbrev command : Dict
command = entry "goog:channel" (string "mine") nil

abbrev params : Dict
params = entry "bidiCommand" (dict command) (entry "connectionId" (int (pos 7)) nil)

abbrev posted : Dict
posted = entry "goog:channel" (string "mine/7/chan") command

abbrev payload : Dict
payload = entry "goog:channel" (string "mine/7/chan/bidi") (entry "id" (int (pos 3)) nil)

abbrev read : String → Option Json
read message = some (dict (binding_call json json_laws "M" "text"))

abbrev read_payload : String → Option Json
read_payload text = some (dict payload)

abbrev write : Dict → Option String
write d = some "written"

abbrev write_error : Dict → String
write_error d = ""

deliver-forward_bidi_command_example :
    (sent : Dict) × (deliver json string_to_int write
        (pos 4 ∷ pos 7 ∷ [])
        (parse_inspector_message json write_error read read_payload "message")
      ≡ (elim (write sent) [
        | none ↦ []
        | some out ↦ if is_connected (pos 7) (pos 4 ∷ pos 7 ∷ []) then (pos 7, out) ∷ [] else []
      ]))
    × ((k : String)
        → json.find sent k
          ≡ (if "goog:channel" == k then some (string "mine") else json.find payload k))
unfolding find forward_bidi_command post_bidi_command
deliver-forward_bidi_command_example =
    deliver-forward_bidi_command json json_laws number_to_string string_to_int write write_error
      read read_payload (pos 4 ∷ pos 7 ∷ []) params command posted payload (pos 7) "message" "text"
      "M" refl refl refl refl refl refl refl refl
