-- ===== src/HttpHandler/Connections.antt =====
-- The WebSocket connections of sessions: OnWebSocketRequest, OnWebSocketAttachToSessionRequest,
-- OnWebSocketUnboundConnectionRequest, OnNewSessionCreated, OnNewBidiSessionOnCmdThread,
-- OnSessionTerminated and OnClose of server/http_handler.cc, with session_connection_map.h and
-- connection_session_map.h. Each runs on the command thread, and what it posts to other threads or
-- sends is a list of tasks. The session id of a connection that is not bound is the empty text.
use chromedriver.Base.{
  ℕ, String, Bool, true, false, Option, none, some, List, [], ◌∷◌, ◌++◌, ◌<>◌, ◌==◌, eqb,
  if◌then◌else◌, is_some,
}
use chromedriver.Dictionary.{string_eq, nat_eq, lookup, assign, insert, erase}

pub record Connections : Type 0 where
  pub session_connection_map : List (String × List ℕ)
  pub connection_session_map : List (ℕ × String)
  -- the sessions of `session_thread_map_`, with their modes
  pub session_thread_map : List (String × Bool)

pub data Task : Type 0 where
  -- AcceptWebSocket and SendWebSocketRejectResponse, on the IO thread
  accept_web_socket : ℕ → Task
  reject_web_socket : ℕ → String → Task
  -- AddBidiConnectionOnSessionThread and RemoveBidiConnectionOnSessionThread
  add_bidi_connection : String → ℕ → Task
  remove_bidi_connection : String → ℕ → Task
  -- SendResponseOverWebSocket
  send_response : ℕ → Task

abbrev pub mem : ℕ → List ℕ → Bool
mem c [] = false
mem c (d ∷ b) = if eqb d c then true else mem c b

-- std::find and erase in a vector
abbrev pub remove_first : ℕ → List ℕ → List ℕ
remove_first c [] = []
remove_first c (d ∷ b) = if eqb d c then b else d ∷ remove_first c b

-- The bucket that `session_connection_map_[s]` gives, which is new and empty if there was none.
abbrev pub bucket_or_new : Option (List ℕ) → List ℕ
bucket_or_new none = []
bucket_or_new (some b) = b

unfoldable pub bucket : String → Connections → List ℕ
bucket s h = bucket_or_new (lookup s h.session_connection_map)

-- session_connection_map_[s].push_back(c); connection_session_map_[c] = s
unfoldable pub bind : String → ℕ → Connections → Connections
bind s c h = record h {
  session_connection_map = assign s (bucket s h ++ c ∷ []) h.session_connection_map;
  connection_session_map = assign c s h.connection_session_map;
}

abbrev pub is_alive : String → Connections → Bool
is_alive s h = is_some (lookup s h.session_thread_map)

unfoldable pub attach_to_session : String → ℕ → Connections → Connections × List Task
attach_to_session s c h = elim (lookup s h.session_connection_map) [
  | none ↦ (h, reject_web_socket c ("bad request invalid session id " <> s) ∷ [])
  | some b ↦ (
    bind s c h,
    if is_alive s h
        then add_bidi_connection s c ∷ accept_web_socket c ∷ []
        else reject_web_socket c ("session not found session_id=" <> s) ∷ [],
  )
]

unfoldable pub unbound_connection : ℕ → Connections → Connections × List Task
unbound_connection c h = elim (lookup c h.connection_session_map) [
  | some s ↦ (h, reject_web_socket c ("connection is already bound to session_id=" <> s) ∷ [])
  | none ↦ (bind "" c h, accept_web_socket c ∷ [])
]

-- OnWebSocketRequest, with the path and the parts that SplitString makes of it.
unfoldable pub on_web_socket_request :
    String → List String → ℕ → Connections → Connections × List Task
on_web_socket_request path (part ∷ []) c h =
    if part == "session"
    then unbound_connection c h
    else (h, reject_web_socket c ("bad request received path " <> path) ∷ [])
on_web_socket_request path (part ∷ s ∷ []) c h =
    if part == "session"
    then attach_to_session s c h
    else (h, reject_web_socket c ("bad request received path " <> path) ∷ [])
on_web_socket_request path _ c h =
    (h, reject_web_socket c ("bad request received path " <> path) ∷ [])

-- OnNewSessionCreated; `has_url` tells that the status is kOk and the result has a web socket URL.
unfoldable pub on_new_session_created : Bool → String → Connections → Connections
on_new_session_created has_url s h =
    if has_url
    then record h { session_connection_map = insert s [] h.session_connection_map }
    else h

unfoldable pub on_session_terminated : String → Connections → Connections
on_session_terminated s h = record h {
  session_thread_map = erase s h.session_thread_map;
  session_connection_map = erase s h.session_connection_map;
}

-- OnNewBidiSessionOnCmdThread
unfoldable pub on_new_bidi_session : ℕ → String → Connections → Connections × List Task
on_new_bidi_session c s h =
    let unbound = assign "" (remove_first c (bucket "" h)) h.session_connection_map in
    (
      record h {
        session_connection_map = insert s (c ∷ []) unbound;
        connection_session_map = assign c s h.connection_session_map;
      },
      if is_alive s h then add_bidi_connection s c ∷ send_response c ∷ [] else send_response c ∷ [],
    )

-- OnClose with the bucket of the session of the connection.
unfoldable pub close_in : String → List ℕ → ℕ → Connections → Connections × List Task
close_in s b c h =
    if mem c b
    then (
      record h {
        session_connection_map = assign s (remove_first c b) h.session_connection_map;
        connection_session_map = erase c h.connection_session_map;
      },
      if is_alive s h then remove_bidi_connection s c ∷ [] else [],
    )
    else (h, [])

unfoldable pub on_close : ℕ → Connections → Connections × List Task
on_close c h = elim (lookup c h.connection_session_map) [
  | none ↦ (h, [])
  | some s ↦ elim (lookup s h.session_connection_map) [ none ↦ (h, []) | some b ↦ close_in s b c h ]
]
