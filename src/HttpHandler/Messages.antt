-- ===== src/HttpHandler/Messages.antt =====
-- Messages over the web sockets: OnWebSocketMessage, SendResponseOverWebSocket, ParseBidiCommand,
-- CreateBidiErrorResponse and `kKnownBidiSessionCommands` of server/http_handler.cc. JSONReader and
-- FindDouble are parameters. `C` stands for the type of commands.
use chromedriver.Base.{
  ℕ, String, Bool, true, false, Option, none, some, List, [], ◌∷◌, ◌<>◌, ◌==◌, if◌then◌else◌,
  is_some, is_empty,
}
use chromedriver.Dictionary.{string_eq, nat_eq, lookup}
use chromedriver.Values.{Values, find_string, find_dict}
use chromedriver.Status.{
  Status, status, status_details, is_ok, is_error, status_code_to_string, ok, invalid_argument,
  invalid_session_id, unknown_command,
}
use chromedriver.HttpHandler.Connections.{Connections}

abbrev pub known_bidi_session_commands : List String
known_bidi_session_commands =
    "session.end" ∷ "session.subscribe" ∷ "session.unsubscribe" ∷ "browsingContext.activate"
    ∷ "browsingContext.captureScreenshot" ∷ "browsingContext.close" ∷ "browsingContext.create"
    ∷ "browsingContext.getTree" ∷ "browsingContext.handleUserPropmpt" ∷ "browsingContext.navigate"
    ∷ "browsingContext.print" ∷ "browsingContext.reload" ∷ "browsingContext.setViewport"
    ∷ "network.addIntercept" ∷ "network.continueRequest" ∷ "network.continueResponse"
    ∷ "network.continueWithAuth" ∷ "network.failRequest" ∷ "network.provideResponse"
    ∷ "network.removeIntercept" ∷ "script.addPreloadScript" ∷ "script.disown"
    ∷ "script.callFunction" ∷ "script.evaluate" ∷ "script.getRealms" ∷ "script.removePreloadScript"
    ∷ "input.performActions" ∷ "input.releaseActions" ∷ []

abbrev pub contains_text : String → List String → Bool
contains_text s [] = false
contains_text s (t ∷ l) = if t == s then true else contains_text s l

-- kKnownBidiSessionCommands.contains(method)
unfoldable pub is_known_command : String → Bool
is_known_command method = contains_text method known_bidi_session_commands

-- The parameter `parsed` that ParseBidiCommand fills, with its status.
pub record Parsed (D : Type 0) : Type 0 where
  pub dict : D
  pub result : Status

-- The callback of a command.
pub data Callback (V : Type 0) : Type 0 where
  send_response : ℕ → Option V → Callback V
  new_bidi_session : ℕ → Option V → Callback V

-- What OnWebSocketMessage does.
pub data Reply (V D C : Type 0) : Type 0 where
  -- SendResponseOverWebSocket with a status, without a result
  respond : ℕ → Option V → Status → String → Reply V D C
  -- a command with its parameters and the id of its session
  run : C → D → String → Callback V → Reply V D C
  -- `forward_session_command_`, with the command and the connection among the parameters
  forward : D → ℕ → String → Callback V → Reply V D C

module _ {V D : Type 0} (api : Values V D) where
  open api use {set, of_string, empty_dict}

  abbrev set_id : Option V → D → D
  set_id none d = d
  set_id (some i) d = set d "id" i

  unfoldable pub create_bidi_error_response : Status → Option V → D
  create_bidi_error_response s id =
      let type = set empty_dict "type" (of_string "error") in
      let message = set type "message" (of_string s.message) in
      set_id id (set message "error" (of_string (status_code_to_string s.code)))

  -- SendResponseOverWebSocket: what is sent, if anything is. JSONWriter is taken to write every
  -- dictionary.
  unfoldable pub response_over_web_socket : Option V → Status → Option V → Option D
  response_over_web_socket id s result =
      if is_ok s
      then elim result [
        | none ↦ none
        | some r ↦ some (set (set_id id (set empty_dict "type" (of_string "success"))) "result" r)
      ]
      else some (create_bidi_error_response s id)

module _ {V D : Type 0} (api : Values V D) (read : String → Option V) (is_double : V → Bool) where
  open api use {as_dict, find, set, of_dict, empty_dict}

  abbrev has_id : D → Bool
  has_id d = elim (find d "id") [ none ↦ false | some v ↦ is_double v ]

  unfoldable pub parse_bidi_command : String → Parsed D
  parse_bidi_command text = elim (read text) [
    | none ↦ record {
      dict = empty_dict;
      result = status_details invalid_argument ("unable to parse BiDi command: " <> text);
    }
    | some v ↦ elim (as_dict v) [
      | none ↦ record {
        dict = empty_dict;
        result =
            status_details invalid_argument
              ("a JSON dictionary is expected as a BiDi command: " <> text);
      }
      | some d ↦ record {
        dict = d;
        result =
            if has_id d
            then if is_some (find_string api d "method")
              then if is_some (find_dict api d "params")
                then status ok
                else status_details invalid_argument
                    ("BiDi command has no 'params' of type dictionary: " <> text)
              else status_details invalid_argument
                  ("BiDi command has no 'method' of type string: " <> text)
            else status_details invalid_argument
                ("BiDi command has no 'id' of type js-uint: " <> text);
      }
    ]
  ]

  module _ {C : Type 0} (statics sessions : List (String × C)) where
    -- The commands of a connection that has no session yet
    abbrev refuse_unbound : String → ℕ → Option V → String → Reply V D C
    refuse_unbound method c id s =
        if is_known_command method
        then respond c id (status_details invalid_session_id "session not found") ""
        else respond c id (status_details unknown_command method) s

    -- A parsed command with its method, for a connection that is in `connection_session_map_`.
    unfoldable pub dispatch : String → D → String → ℕ → Option V → Reply V D C
    dispatch method d s c id = elim (lookup method statics) [
      | some cmd ↦
          run cmd d s
            (if method == "session.new" then new_bidi_session c id else send_response c id)
      | none ↦ if is_empty s then refuse_unbound method c id s else elim (lookup method sessions) [
        | some cmd ↦ run cmd d s (send_response c id)
        | none ↦ forward (set empty_dict "bidiCommand" (of_dict d)) c s (send_response c id)
      ]
    ]

    -- The method is dereferenced after the status was tested.
    abbrev method_of : Option String → String
    method_of none = ""
    method_of (some m) = m

    unfoldable pub on_web_socket_message : ℕ → String → Connections → Reply V D C
    on_web_socket_message c text h =
        let parsed = parse_bidi_command text in
        let id = find parsed.dict "id" in
        elim (lookup c h.connection_session_map) [
          | none ↦ respond c id (status_details invalid_session_id "session not found") ""
          | some s ↦
              if is_error parsed.result
              then respond c id parsed.result s
              else dispatch (method_of (find_string api parsed.dict "method")) parsed.dict s c id
        ]
