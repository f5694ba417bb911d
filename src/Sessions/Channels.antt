-- ===== src/Sessions/Channels.antt =====
-- The channels of BiDi messages: ForwardBidiCommand of session_commands.cc, PostBidiCommand of
-- chrome/devtools_client_impl.cc, BidiTracker of chrome/bidi_tracker.cc, and SplitChannel and
-- OnBidiResponse of session.cc. `number_to_string` and `string_to_int` stand for NumberToString and
-- StringToInt, and `write` for JSONWriter::Write.
use Prim.Native.Char.{code}
use chromedriver.Base.{
  String, Bool, true, false, not, ◌||◌, Option, none, some, List, [], ◌∷◌, ◌++◌, ◌<>◌, ◌==◌,
  if◌then◌else◌, is_empty, ℤ, pos, negsuc, eqb,
}
use chromedriver.Values.{Values, find_string, find_dict, find_int}
use chromedriver.Result.{Result, done, fail}
use chromedriver.Status.{
  Status, status, status_details, is_error, ok, unknown_error, unknown_command, invalid_argument,
}
use chromedriver.DevTools.Messages.{Message, event, response, ends_with, bidi_channel_suffix}
use chromedriver.DevTools.Tunnel.{serialize, evaluation}

abbrev pub channel_suffix : String
channel_suffix = "/chan"

abbrev pub no_channel_suffix : String
no_channel_suffix = "/nochan"

-- What stands before and behind the last slash
unfoldable pub split_last : String → Option (String × String)
split_last String.[] = none
split_last (String.◌∷◌ c s) = elim (split_last s) [
  | some (a, b) ↦ some (String.◌∷◌ c a, b)
  | none ↦ if eqb (code c) b'/' then some ("", s) else none
]

pub record Split : Type 0 where
  pub channel : String
  pub connection_id : ℤ
  pub suffix : String

abbrev split_connection : (String → Option ℤ) → String → Option (String × String) → Result Split
split_connection string_to_int suffix none =
    fail (status_details unknown_error "goog:channel does not contain connection_id")
split_connection string_to_int suffix (some (channel, connection)) =
    elim (string_to_int connection) [
      | none ↦ fail (status_details unknown_error "connection_id in the channel must be integer")
      | some i ↦ done (record { channel = channel; connection_id = i; suffix = "/" <> suffix })
    ]

unfoldable pub split_channel : (String → Option ℤ) → String → Result Split
split_channel string_to_int channel = elim (split_last channel) [
  | none ↦ fail (status_details unknown_error "goog:channel does not end with an expected suffix")
  | some (rest, suffix) ↦ split_connection string_to_int suffix (split_last rest)
]

abbrev pub is_same : ℤ → ℤ → Bool
is_same (pos m) (pos n) = eqb m n
is_same (negsuc m) (negsuc n) = eqb m n
is_same _ _ = false

abbrev pub is_connected : ℤ → List ℤ → Bool
is_connected i [] = false
is_connected i (c ∷ cs) = is_same c i || is_connected i cs

abbrev pub user_channel : String → Option String → String
user_channel id none = "/" <> (id <> no_channel_suffix)
user_channel id (some channel) = channel <> ("/" <> (id <> channel_suffix))

module _ {V D : Type 0} (api : Values V D) where
  open api use {set, remove, of_string, of_dict}

  module _ (number_to_string : ℤ → String) where
    abbrev tagged : D → ℤ → Result D
    tagged command connection_id = elim (find_string api command "channel") [
      | some c ↦ fail (
          status_details invalid_argument
            "Legacy `channel` parameter is deprecated and not supported. Use `goog:channel` instead.")
      | none ↦ done (
          set command "goog:channel" (
            of_string (
              user_channel (number_to_string connection_id)
                (find_string api command "goog:channel"))))
    ]

    -- ForwardBidiCommand up to PostBidiCommand; `page` is the status of GetActivePageByWebViewId
    -- for the page of the mapper.
    unfoldable pub forward_bidi_command : Bool → Status → D → Result D
    forward_bidi_command false page params =
        fail (status_details invalid_argument "session not found")
    forward_bidi_command true page params = elim (find_dict api params "bidiCommand") [
      | none ↦ fail (status_details unknown_error "bidiCommand is missing in params")
      | some command ↦ elim (find_int api params "connectionId") [
        | none ↦ fail (status_details unknown_command "connectionId is missing in params")
        | some i ↦ if is_error page then fail page else tagged command i
      ]
    ]

  -- PostBidiCommand, with the command that PostBidiCommandInternal serializes
  unfoldable pub post_bidi_command : D → D
  post_bidi_command command = elim (find_string api command "goog:channel") [
    | none ↦ command
    | some channel ↦ set command "goog:channel" (of_string (channel <> bidi_channel_suffix))
  ]

  -- The parameters of the Runtime.evaluate that PostBidiCommandInternal sends
  unfoldable pub post_evaluation :
      (D → Option String) → (String → Option String) → String → D → Result D
  post_evaluation write write_text tunnel_session_id command =
      if is_empty tunnel_session_id
      then fail (
          status_details unknown_error
            "uanble to send BiDi commands without BiDi server session id")
      else elim (serialize api write write_text (write command)) [
        | fail e ↦ fail e
        | done json ↦ elim (serialize api write write_text (write_text json)) [
          | fail e ↦ fail e
          | done arg ↦ done (evaluation api write write_text arg)
        ]
      ]

  -- What a call of OnBidiResponse or of a tracker does: the status, and the text that is sent to a
  -- connection, if any.
  abbrev pub Sent : Type 0
  Sent = Status × List (ℤ × String)

  abbrev refuse : String → Sent
  refuse message = (status_details unknown_error message, [])

  module _ (string_to_int : String → Option ℤ) (write : D → Option String)
      (connections : List ℤ) where
    abbrev send_to : ℤ → Option String → Sent
    send_to i none = refuse "unable to serialize a BiDi response"
    send_to i (some message) =
        (status ok, if is_connected i connections then (i, message) ∷ [] else [])

    abbrev send_split : D → Result Split → Sent
    send_split payload (fail e) = (e, [])
    send_split payload (done s) =
        let payload' = set payload "goog:channel" (of_string s.channel) in
        if s.suffix == no_channel_suffix
        then send_to s.connection_id (write (remove payload' "goog:channel"))
        else if s.suffix == channel_suffix
        then send_to s.connection_id (write payload')
        else refuse "unexpected channel name in the BiDi response"

    unfoldable pub on_bidi_response : D → Sent
    on_bidi_response payload = elim (find_string api payload "goog:channel") [
      | none ↦ refuse "goog:channel is missing in the BiDi response"
      | some channel ↦ send_split payload (split_channel string_to_int channel)
    ]

    abbrev on_payload : String → D → Option String → Sent
    on_payload suffix payload none = refuse "goog:channel is missing in the payload"
    on_payload suffix payload (some channel) =
        if is_empty channel
        then refuse "goog:channel is missing in the payload"
        else if ends_with channel suffix
        then on_bidi_response payload
        else (status ok, [])

    -- BidiTracker::OnEvent of the tracker of a suffix, whose callback is OnBidiResponse
    unfoldable pub on_event : String → String → D → Sent
    on_event suffix method params =
        if not (method == "Runtime.bindingCalled")
        then (status ok, [])
        else elim (find_string api params "name") [
          | none ↦ refuse "Runtime.bindingCalled missing 'name'"
          | some name ↦
              if not (name == "sendBidiResponse")
              then (status ok, [])
              else elim (find_dict api params "payload") [
                | none ↦ refuse "Runtime.bindingCalled missing 'payload'"
                | some payload ↦ on_payload suffix payload (find_string api payload "goog:channel")
              ]
        ]

    -- What the two trackers of a session send for a message of the browser
    unfoldable pub deliver : Option (Message D) → List (ℤ × String)
    deliver none = []
    deliver (some (response s i r e)) = []
    deliver (some (event s method params)) =
        let first = on_event channel_suffix method params in
        if is_error first.0
        then first.1
        else first.1 ++ (on_event no_channel_suffix method params).1
