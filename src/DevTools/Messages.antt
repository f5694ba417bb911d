-- ===== src/DevTools/Messages.antt =====
-- ParseInspectorMessage, ParseCdpTunnelMessage, IsBidiMessage and DeserializePayload of
-- chrome/devtools_client_impl.cc. `read` and `read_payload` stand for JSONReader::Read with the
-- options of the two calls, and `write` for JSONWriter::Write.
use Prim.Native.String.{len, slice}
use chromedriver.Base.{
  String, Bool, false, ◌&&◌, ◌||◌, Option, none, some, ◌==◌, if◌then◌else◌, ℤ, leb, ◌-◌,
  starts_with,
}
use chromedriver.Values.{Values, find_string, find_dict, find_int}

-- A message with the id of its session.
pub data Message (D : Type 0) : Type 0 where
  event : String → String → D → Message D
  -- a response with its id and its result, or its error
  response : String → ℤ → Option D → String → Message D

abbrev pub cdp_tunnel_channel : String
cdp_tunnel_channel = "/cdp"

abbrev pub bidi_channel_suffix : String
bidi_channel_suffix = "/bidi"

abbrev pub ends_with : String → String → Bool
ends_with s t = leb (len t) (len s) && slice s (len s - len t) (len s) == t

abbrev pub text_or_empty : Option String → String
text_or_empty none = ""
text_or_empty (some s) = s

-- The channel without the suffix, if it ends in it
abbrev pub drop_suffix : String → String
drop_suffix channel =
    if ends_with channel bidi_channel_suffix
    then slice channel 0 (len channel - len bidi_channel_suffix)
    else channel

module _ {V D : Type 0} (api : Values V D) (write : D → String) where
  open api use {as_int, find, set, of_string, of_dict, empty_dict}

  abbrev dict_or_empty : Option D → D
  dict_or_empty none = empty_dict
  dict_or_empty (some d) = d

  -- The response of a target: "result", or else "error", or else an empty result
  unfoldable pub response_of : String → ℤ → D → Message D
  response_of session_id id d = elim (find_dict api d "result") [
    | some r ↦ response session_id id (some r) ""
    | none ↦ elim (find_dict api d "error") [
      | some e ↦ response session_id id none (write e)
      | none ↦ response session_id id (some empty_dict) ""
    ]
  ]

  -- The response in a payload of the mapper
  unfoldable pub tunnelled_response_of : String → ℤ → D → Message D
  tunnelled_response_of session_id id d = elim (find_dict api d "result") [
    | some r ↦ response session_id id (some r) ""
    | none ↦ elim (find_dict api d "error") [
      | some e ↦ response session_id id none (write e)
      | none ↦ response session_id id (some empty_dict) ""
    ]
  ]

  abbrev tunnelled_event : D → Option (Message D)
  tunnelled_event payload = elim (find_dict api payload "params") [
    | none ↦ none
    | some p ↦ elim (find_string api p "method") [
      | none ↦ none
      | some m ↦ some (
          event (text_or_empty (find_string api p "session")) m
            (dict_or_empty (find_dict api p "params")))
    ]
  ]

  abbrev tunnelled_response : D → Option (Message D)
  tunnelled_response payload = elim (find_int api payload "id") [
    | none ↦ none
    | some i ↦
        some (tunnelled_response_of (text_or_empty (find_string api payload "session")) i payload)
  ]

  abbrev is_cdp_event : Option String → Bool
  is_cdp_event none = false
  is_cdp_event (some m) = starts_with m "goog:cdp."

  unfoldable pub parse_cdp_tunnel_message : D → Option (Message D)
  parse_cdp_tunnel_message payload =
      if is_cdp_event (find_string api payload "method")
      then tunnelled_event payload
      else tunnelled_response payload

  module _ (read read_payload : String → Option V) where
    unfoldable pub deserialize_payload : D → Option D
    deserialize_payload params = elim (find_string api params "payload") [
      | none ↦ none
      | some text ↦ elim (read_payload text) [ none ↦ none | some v ↦ api.as_dict v ]
    ]

    -- IsBidiMessage, where `none` is an error
    unfoldable pub is_bidi_message : String → D → Option Bool
    is_bidi_message method params =
        if method == "Runtime.bindingCalled"
        then elim (find_string api params "name") [
          | none ↦ none
          | some name ↦ some (name == "sendBidiResponse" || name == "sendDebugMessage")
        ]
        else some false

    -- A payload that is not on the channel of the tunnel stays an event, with the payload in place
    -- of its text.
    abbrev bidi_event : String → String → D → D → Message D
    bidi_event session_id method params payload = event session_id method (
        set params "payload" (
          of_dict (elim (find_string api payload "goog:channel") [
            | none ↦ payload
            | some channel ↦
                if ends_with channel bidi_channel_suffix
                then set payload "goog:channel" (of_string (drop_suffix channel))
                else payload
          ])))

    abbrev is_tunnel : Option String → Bool
    is_tunnel none = false
    is_tunnel (some channel) = channel == cdp_tunnel_channel

    unfoldable pub parse_bidi_message : String → String → D → Option (Message D)
    parse_bidi_message session_id method params = elim (deserialize_payload params) [
      | none ↦ none
      | some payload ↦
          if is_tunnel (find_string api payload "goog:channel")
          then parse_cdp_tunnel_message payload
          else some (bidi_event session_id method params payload)
    ]

    unfoldable pub parse_event : String → String → D → Option (Message D)
    parse_event session_id method d = elim (find_dict api d "params") [
      | none ↦ some (event session_id method empty_dict)
      | some params ↦ elim (is_bidi_message method params) [
        | none ↦ none
        | some bidi ↦
            if bidi
            then parse_bidi_message session_id method params
            else some (event session_id method params)
      ]
    ]

    abbrev parse_dict : D → Option (Message D)
    parse_dict d =
        let session_id = text_or_empty (find_string api d "sessionId") in
        elim (find d "id") [
          | none ↦ elim (find_string api d "method") [
            | none ↦ none
            | some method ↦ parse_event session_id method d
          ]
          | some id ↦ elim (as_int id) [ none ↦ none | some i ↦ some (response_of session_id i d) ]
        ]

    -- ParseInspectorMessage, where `none` is false
    unfoldable pub parse_inspector_message : String → Option (Message D)
    parse_inspector_message message = elim (read message) [
      | none ↦ none
      | some v ↦ elim (api.as_dict v) [ none ↦ none | some d ↦ parse_dict d ]
    ]
