-- ===== src/Examples/Bidi.antt =====
-- Web sockets at concrete events and messages.
use chromedriver.Base.{
  String, ◌≡◌, refl, Bool, true, false, Option, none, some, List, [], ◌∷◌, if◌then◌else◌, ◌==◌,
}
use chromedriver.Dictionary.{string_eq, nat_eq, lookup}
use chromedriver.HttpHandler.Connections.{Connections, on_web_socket_request, on_new_bidi_session}
use chromedriver.HttpHandler.Steps.{Steps, no_connections}
use chromedriver.HttpHandler.Messages.{on_web_socket_message}
use chromedriver.HttpHandler.Replies.{IsCommand, is_forward, on_web_socket_message-forwards_iff}
use chromedriver.Examples.Json.{Json, Dict, string, dict, nil, entry, find, json}

abbrev bound : Connections
bound = record {
  session_connection_map = ("a1", 7 ∷ []) ∷ [];
  connection_session_map = (7, "a1") ∷ [];
  session_thread_map = ("a1", true) ∷ [];
}

-- A connection whose two commands for a new session both succeed
abbrev opened : Connections
opened = (on_web_socket_request "/session" ("session" ∷ []) 7 (no_connections [])).0

abbrev twice : Connections
twice = (on_new_bidi_session 7 "T" (on_new_bidi_session 7 "S" opened).0).0

abbrev waits : Connections
waits = (on_web_socket_request "/session" ("session" ∷ []) 7 (no_connections [])).0

abbrev command : Dict
command =
    entry "id" (string "1")
      (entry "method" (string "browsingContext.getTree") (entry "params" (dict nil) nil))

abbrev read : String → Option Json
read s = if s == "m" then some (dict command) else none

abbrev is_double : Json → Bool
is_double (string s) = true
is_double _ = false

is_command : IsCommand json read is_double "m" command "browsingContext.getTree"
unfolding find
is_command = record {
  value = dict command;
  id = string "1";
  params = nil;
  reads = refl;
  is_dict = refl;
  has_id = refl;
  id_is_double = refl;
  has_method = refl;
  has_params = refl;
}

abbrev statics : List (String × String)
statics = ("session.new", "New") ∷ []

abbrev sessions : List (String × String)
sessions = ("session.end", "End") ∷ []

on_web_socket_message-forwards_iff_example :
    is_forward (on_web_socket_message json read is_double statics sessions 7 "m" bound) ≡ true
unfolding lookup
on_web_socket_message-forwards_iff_example =
    on_web_socket_message-forwards_iff json read is_double statics sessions 7 "m"
      "browsingContext.getTree" "a1" command bound is_command refl
