-- ===== src/HttpHandler/Replies.antt =====
-- What a message over a web socket leads to.
use chromedriver.Base.{
  ℕ, String, ◌≡◌, Bool, true, false, ◌&&◌, not, Option, none, some, List, is_empty, arith,
  Option-cases, inl, inr,
}
use chromedriver.Dictionary.{string_eq, nat_eq, lookup, contains}
use chromedriver.Values.{Values, ValueLaws, find_string, find_dict, find_string-of}
use chromedriver.Status.{Status, is_error, status_code_to_string}
use chromedriver.HttpHandler.Connections.{Connections}
use chromedriver.HttpHandler.Messages.{
  send_response, new_bidi_session, Reply, respond, run, forward, parse_bidi_command,
  create_bidi_error_response, response_over_web_socket, dispatch, on_web_socket_message,
}

abbrev pub connection_of : {V D C : Type 0} → Reply V D C → ℕ
connection_of (respond c id s session) = c
connection_of (run cmd d session (send_response c id)) = c
connection_of (run cmd d session (new_bidi_session c id)) = c
connection_of (forward d c session k) = c

abbrev pub id_of : {V D C : Type 0} → Reply V D C → Option V
id_of (respond c id s session) = id
id_of (run cmd d session (send_response c id)) = id
id_of (run cmd d session (new_bidi_session c id)) = id
id_of (forward d c session (send_response e id)) = id
id_of (forward d c session (new_bidi_session e id)) = id

abbrev pub is_forward : {V D C : Type 0} → Reply V D C → Bool
is_forward (forward d c session k) = true
is_forward _ = false

module _ {V D : Type 0} (api : Values V D) (read : String → Option V) (is_double : V → Bool) where
  -- A message is a BiDi command, with its dictionary and its method.
  pub record IsCommand (text : String) (d : D) (method : String) : Type 0 where
    pub value : V
    pub id : V
    pub params : D
    pub reads : read text ≡ some value
    pub is_dict : api.as_dict value ≡ some d
    pub has_id : api.find d "id" ≡ some id
    pub id_is_double : is_double id ≡ true
    pub has_method : find_string api d "method" ≡ some method
    pub has_params : find_dict api d "params" ≡ some params

  abbrev pub Parses : String → Type 0
  Parses text = is_error (parse_bidi_command api read is_double text).result ≡ false

  Parses-IsCommand :
      (text : String)
      → Parses text
      → (method : String) × IsCommand text (parse_bidi_command api read is_double text).dict method
  unfolding parse_bidi_command
  Parses-IsCommand text p = elim (Option-cases (read text)) [
    | inl e ↦ absurd (ground (arith, p))
    | inr (v, e) ↦ elim (Option-cases (api.as_dict v)) [
      | inl f ↦ absurd (ground (arith, p))
      | inr (d, f) ↦ elim (Option-cases (api.find d "id")) [
        | inl g ↦ absurd (ground (arith, p))
        | inr (i, g) ↦ elim (Option-cases (find_string api d "method")) [
          | inl k ↦ absurd (ground (arith, p))
          | inr (m, k) ↦ elim (Option-cases (find_dict api d "params")) [
            | inl l ↦ absurd (ground (arith, p))
            | inr (q, l) ↦ (
              m,
              record {
                value = v;
                id = i;
                params = q;
                reads = e;
                is_dict = ground arith;
                has_id = ground arith;
                id_is_double = ground (arith, p);
                has_method = ground arith;
                has_params = ground arith;
              },
            )
          ]
        ]
      ]
    ]
  ]

  -- A message parses without an error exactly if it is a dictionary with a number under "id", a text
  -- under "method" and a dictionary under "params", and the dictionary that is parsed is this one.
  pub parse_bidi_command-IsCommand :
      (text : String)
      → (Parses text
          → (method : String) × IsCommand text
              (parse_bidi_command api read is_double text).dict
              method)
        × ((method : String) (d : D)
            → IsCommand text d method
            → Parses text × ((parse_bidi_command api read is_double text).dict ≡ d))
  unfolding parse_bidi_command
  parse_bidi_command-IsCommand text = (
    Parses-IsCommand text,
    λ method d k. (
      ground (arith, k.reads, k.is_dict, k.has_id, k.id_is_double, k.has_method, k.has_params),
      ground (arith, k.reads, k.is_dict),
    ),
  )

  module _ {C : Type 0} (statics sessions : List (String × C)) where
    -- Every message is answered over the connection that it came from, with the id that it has.
    pub on_web_socket_message-answers :
        (c : ℕ) (text : String) (h : Connections)
        → (connection_of (on_web_socket_message api read is_double statics sessions c text h) ≡ c)
          × (id_of (on_web_socket_message api read is_double statics sessions c text h)
              ≡ api.find (parse_bidi_command api read is_double text).dict "id")
    unfolding on_web_socket_message dispatch
    on_web_socket_message-answers c text h = (ground arith, ground arith)

    -- A BiDi command over a connection that has a session is forwarded exactly if the session is
    -- not the empty one and the method is neither a static command nor a command of the session.
    pub on_web_socket_message-forwards_iff :
        (c : ℕ) (text method s : String) (d : D) (h : Connections)
        → IsCommand text d method
        → lookup c h.connection_session_map ≡ some s
        → is_forward (on_web_socket_message api read is_double statics sessions c text h)
          ≡ (not (is_empty s) && not (contains method statics) && not (contains method sessions))
    unfolding on_web_socket_message dispatch
    on_web_socket_message-forwards_iff c text method s d h k l =
        ground (arith, parse_bidi_command-IsCommand text, parsed.0, parsed.1, k.has_method)
      where
        parsed : Parses text × ((parse_bidi_command api read is_double text).dict ≡ d)
        parsed = (parse_bidi_command-IsCommand text).1 method d k

module _ {V D : Type 0} (api : Values V D) (laws : ValueLaws api) where
  -- The response to a command that failed has the type "error", the code and the message of the
  -- status, and the id of the command, if that had one.
  pub response_over_web_socket-error :
      (id : Option V) (s : Status) (result : Option V)
      → is_error s ≡ true
      → (d : D) × (response_over_web_socket api id s result ≡ some d)
        × (find_string api d "type" ≡ some "error")
        × (find_string api d "error" ≡ some (status_code_to_string s.code))
        × (find_string api d "message" ≡ some s.message)
        × (api.find d "id" ≡ id)
  unfolding response_over_web_socket create_bidi_error_response
  response_over_web_socket-error none s result e = (
    create_bidi_error_response api s none,
    ground arith,
    find_string-of laws _ _ _ (simp laws.find-set),
    find_string-of laws _ _ _ (simp laws.find-set),
    find_string-of laws _ _ _ (simp laws.find-set),
    simp (laws.find-set, laws.find-empty_dict),
  )
  response_over_web_socket-error (some i) s result e = (
    create_bidi_error_response api s (some i),
    ground arith,
    find_string-of laws _ _ _ (simp laws.find-set),
    find_string-of laws _ _ _ (simp laws.find-set),
    find_string-of laws _ _ _ (simp laws.find-set),
    simp laws.find-set,
  )
