-- ===== src/DevTools/Routing.antt =====
-- ProcessNextMessage, HandleMessage and HandleEventsUntil of chrome/devtools_client_impl.cc: how a
-- client that waits reaches the socket of the root, and how a message reaches the client of its
-- session. `S` is the state of all clients, and a client is known by its session.
pub mod Isolated
use chromedriver.Base.{
  ℕ, zero, suc, String, Bool, true, false, not, ◌&&◌, ◌||◌, Option, none, some, List, [], ◌∷◌, ◌<>◌,
  ◌==◌, if◌then◌else◌, ℤ,
}
use chromedriver.Status.{
  Status, status, status_details, is_error, code_eq, ok, unknown_error, disconnected, timeout,
  tab_crashed, target_detached,
}
use chromedriver.DevTools.Messages.{Message, event, response}

-- What ReceiveNextMessage of a socket gives
pub data Received : Type 0 where
  text : String → Received
  lost : Received
  timed_out : Received

-- What the loops ask of the clients; the listeners are notified of the connection, of an event and
-- of a response, and the durations are texts of the messages.
pub record Clients (S D : Type 0) : Type 0 where
  pub notify_listeners : String → S → Status × S
  -- whether a response is awaited
  pub is_waiting : String → ℤ → S → Bool
  pub is_crashed : String → S → Bool
  pub is_detached : String → S → Bool
  pub is_connected : String → S → Bool
  pub children : S → List String
  pub receive : S → Received × S
  pub process : String → Message D → S → Status × S
  pub parse : String → Option (Message D)
  pub duration : String
  -- HasMessageForAnySession, and whether the timeout has expired
  pub has_message : S → Bool
  pub is_expired : S → Bool

abbrev pub session_of : {D : Type 0} → Message D → String
session_of (event s m p) = s
session_of (response s i r e) = s

abbrev pub has : String → List String → Bool
has x [] = false
has x (y ∷ ys) = y == x || has x ys

module _ {S D : Type 0} (clients : Clients S D) where
  open clients use {
    notify_listeners, is_waiting, is_crashed, is_detached, children, receive, process, parse,
    duration,
  }

  abbrev forwarded : Bool → Status × S → Status × S
  forwarded concerns (e, s) = (if concerns then e else status ok, s)

  abbrev pub handle_parsed : String → String → Option (Message D) → String → S → Status × S
  handle_parsed root caller none message s =
      (status_details unknown_error ("bad inspector message: " <> message), s)
  handle_parsed root caller (some m) message s =
      let session = session_of m in
      if not (session == root) && not (has session (children s))
      then (status ok, s)
      else forwarded (caller == session || root == session) (process session m s)

  -- HandleMessage of the root, for the client that is waiting
  unfoldable pub handle_message : String → String → String → S → Status × S
  handle_message root caller message s = handle_parsed root caller (parse message) message s

  abbrev receive_at : String → String → Received × S → Status × S
  receive_at root caller (text message, s) = handle_message root caller message s
  receive_at root caller (lost, s) =
      (status_details disconnected "Unable to receive message from renderer", s)
  receive_at root caller (timed_out, s) =
      (status_details timeout ("Timed out receiving message from renderer: " <> duration), s)

  -- whether the response that is expected came or was blocked
  abbrev is_settled : String → Option ℤ → S → Bool
  is_settled client none s = false
  is_settled client (some i) s = not (is_waiting client i s)

  -- What ProcessNextMessage returns before it looks for a message, if anything
  abbrev pub stops : String → Option ℤ → Status × S → Option Status
  stops client expected (e, s) =
      if is_error e
      then some e
      else if is_settled client expected s
      then some (status ok)
      else if is_crashed client s
      then some (status tab_crashed)
      else if is_detached client s
      then some (status target_detached)
      else none

  -- ProcessNextMessage of a client with its parents, of which the last is the root
  unfoldable pub process_next_message : String → List String → Option ℤ → String → S → Status × S
  process_next_message client [] expected caller s =
      let n = notify_listeners client s in
      elim (stops client expected n) [
        | some e ↦ (e, n.1)
        | none ↦ receive_at client caller (receive n.1)
      ]
  process_next_message client (p ∷ ps) expected caller s =
      let n = notify_listeners client s in
      elim (stops client expected n) [
        | some e ↦ (e, n.1)
        | none ↦ process_next_message p ps none caller n.1
      ]

  -- What a round of HandleEventsUntil comes to: a status, or another round
  abbrev judge_next : Status × S → Option Status × S
  judge_next (e, s) =
      if code_eq e.code timeout
      then (
        if clients.is_expired s
            then some
                (status_details timeout ("Timed out receiving message from renderer: " <> duration))
            else none,
        s,
      )
      else if is_error e
      then (some e, s)
      else (none, s)

  abbrev round : String → List String → (S → Status × Bool × S) → S → Option Status × S
  round client parents condition s =
      let c = condition s in
      if clients.has_message s
      then judge_next (process_next_message client parents none client s)
      else if is_error c.0
      then (some c.0, c.2)
      else if c.1
      then (some (status ok), c.2)
      else judge_next (process_next_message client parents none client c.2)

  -- The loop for a number of rounds, where `none` says that it goes on
  unfoldable pub rounds : ℕ → String → List String → (S → Status × Bool × S) → S → Option Status × S
  rounds zero client parents condition s = (none, s)
  rounds (suc n) client parents condition s =
      let r = round client parents condition s in
      elim r.0 [ some e ↦ (some e, r.1) | none ↦ rounds n client parents condition r.1 ]

  -- HandleEventsUntil
  unfoldable pub handle_events_until :
      ℕ → String → List String → (S → Status × Bool × S) → S → Option Status × S
  handle_events_until n client parents condition s =
      if clients.is_connected client s
      then rounds n client parents condition s
      else (some (status_details disconnected "not connected to DevTools"), s)
