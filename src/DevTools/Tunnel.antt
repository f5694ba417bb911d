-- ===== src/DevTools/Tunnel.antt =====
-- The text of a command: SendCommandInternal up to SendRaw, WrapCdpCommandInBidiCommand and
-- WrapBidiCommandInMapperCdpCommand of chrome/devtools_client_impl.cc. `write` and `write_text`
-- stand for JSONWriter::Write of a dictionary and of a text, which may fail.
use chromedriver.Base.{
  String, not, ◌&&◌, Option, none, some, ◌<>◌, ◌==◌, if◌then◌else◌, is_empty, ℤ,
}
use chromedriver.Values.{Values, find_string, find_dict, find_int}
use chromedriver.Result.{Result, done, fail}
use chromedriver.Status.{status_details, unknown_error}
use chromedriver.DevTools.Messages.{cdp_tunnel_channel}

module _ {V D : Type 0} (api : Values V D) where
  open api use {set, of_string, of_dict, of_int, empty_dict}

  abbrev set_string : String → Option String → D → D
  set_string k none d = d
  set_string k (some s) d = set d k (of_string s)

  abbrev set_dict : String → Option D → D → D
  set_dict k none d = d
  set_dict k (some e) d = set d k (of_dict e)

  unfoldable pub cdp_command : ℤ → String → D → String → D
  cdp_command id method params session_id =
      let command =
        set (set (set empty_dict "id" (of_int id)) "method" (of_string method)) "params"
          (of_dict params) in
      if is_empty session_id then command else set command "sessionId" (of_string session_id)

  abbrev bidi_command : ℤ → String → D → D
  bidi_command id method cdp =
      let params = set empty_dict "method" (of_string method) in
      let params' = set_string "session" (find_string api cdp "sessionId") params in
      let params'' = set_dict "params" (find_dict api cdp "params") params' in
      set
        (set (set (set empty_dict "id" (of_int id)) "method" (of_string "goog:cdp.sendCommand"))
          "params" (of_dict params''))
        "goog:channel" (of_string cdp_tunnel_channel)

  unfoldable pub wrap_cdp_command : D → Result D
  wrap_cdp_command cdp = elim (find_int api cdp "id") [
    | none ↦ fail (status_details unknown_error "CDP command has no 'id' field")
    | some id ↦ elim (find_string api cdp "method") [
      | none ↦ fail (status_details unknown_error "CDP command has no 'method' field")
      | some method ↦ done (bidi_command id method cdp)
    ]
  ]

  module _ (write : D → Option String) (write_text : String → Option String) where
    -- SerializeAsJson
    abbrev pub serialize : Option String → Result String
    serialize none = fail (status_details unknown_error "cannot serialize the argument as JSON")
    serialize (some json) = done json

    abbrev pub evaluation : String → D
    evaluation arg = set empty_dict "expression" (of_string ("onBidiMessage(" <> (arg <> ")")))

    abbrev mapper_command : ℤ → String → String → D
    mapper_command id arg mapper_session_id =
        set
          (set (set (set empty_dict "id" (of_int id)) "method" (of_string "Runtime.evaluate"))
            "params" (of_dict (evaluation arg)))
          "sessionId" (of_string mapper_session_id)

    unfoldable pub wrap_bidi_command : ℤ → D → String → Result D
    wrap_bidi_command id bidi mapper_session_id = elim (serialize (write bidi)) [
      | fail e ↦ fail e
      | done json ↦ elim (serialize (write_text json)) [
        | fail e ↦ fail e
        | done arg ↦ done (mapper_command id arg mapper_session_id)
      ]
    ]

    -- The command that is sent over the tunnel, if there is one and it is not the session of the
    -- command; `outer_id` is what AdvanceNextMessageId answers for it.
    unfoldable pub route_command : String → String → ℤ → D → Result D
    route_command tunnel_session_id session_id outer_id command =
        if not (is_empty tunnel_session_id) && not (tunnel_session_id == session_id)
        then elim (wrap_cdp_command command) [
          | fail e ↦ fail e
          | done bidi ↦ wrap_bidi_command outer_id bidi tunnel_session_id
        ]
        else done command

    unfoldable pub command_message : String → String → ℤ → ℤ → String → D → Result String
    command_message tunnel_session_id session_id id outer_id method params =
        elim (route_command tunnel_session_id session_id outer_id
          (cdp_command id method params session_id)) [
            | fail e ↦ fail e
            | done command ↦ serialize (write command)
          ]
