-- ===== src/Dispatch.antt =====
-- commands.cc: how a command reaches the thread of its session and what is made of its result, with
-- NotifyCommandListenersBeforeCommand of util.cc and Session::Terminate, CloseAllConnections and
-- HandleMessagesAndTerminateIfNecessary of session.cc. A task for the command thread is a value.
-- The browser is a parameter, and logging is left out.
pub mod Endings
pub mod Replies
use chromedriver.Base.{
  ℕ, String, Bool, true, false, not, ◌&&◌, ◌||◌, Option, none, some, List, [], ◌∷◌, ◌++◌, map, ◌<>◌,
  ◌==◌, if◌then◌else◌, ℤ, ltb,
}
use chromedriver.Status.{
  Status, status, status_details, status_details_cause, add_details, is_error, is_ok, code_eq, ok,
  invalid_session_id, unknown_command, unknown_error, disconnected, target_detached,
}

-- kW3CDefault
abbrev pub w3c_default : Bool
w3c_default = true

-- What a session asks of its browser
pub record Chrome (B : Type 0) : Type 0 where
  pub quit : B → Status × B
  pub has_crashed_web_view : B → Bool
  pub get_top_level_web_view_ids : Bool → B → Status × List String × B
  -- HandleReceivedEvents of the client of the browser
  pub handle_received_events : B → Status × B
  pub web_view_count : B → ℕ
  pub send_bidi_session_end : B → Status × B
  -- browser_name and browser_version, joined by "="
  pub browser_info : B → String

pub record Session (B : Type 0) : Type 0 where
  pub id : String
  pub w3c_compliant : Bool
  pub web_socket_url : Bool
  pub quit : Bool
  pub detach : Bool
  pub window : String
  -- whether `chrome` is set
  pub has_chrome : Bool
  pub browser : B
  pub connections : List ℤ
  pub terminate_on_cmd : Bool

-- What the thread of a session posts to the command thread, and the connections that it closes.
pub data Task (A : Type 0) : Type 0 where
  reply : Status → Option A → String → Bool → Task A
  close_connection : ℤ → Task A
  terminated : Task A

abbrev contains : String → List String → Bool
contains x [] = false
contains x (y ∷ ys) = y == x || contains x ys

module _ {B : Type 0} (api : Chrome B) where
  -- Quit of the browser, unless it is detached, and what is added to the message
  unfoldable pub kill : String → Session B → String × Session B
  kill message s =
      let q = api.quit s.browser in
      if s.detach then (message, s) else (
        if is_error q.0
            then message <> (", but failed to kill browser:" <> q.0.message)
            else message,
        record s { browser = q.1 },
      )

  abbrev mark : Session B → Session B
  mark s = record s { quit = true }

  abbrev with_info : Session B → Status → Status
  with_info s e = add_details e ("Session info: " <> api.browser_info s.browser)

  abbrev with_chrome_info : Session B → Status → Status
  with_chrome_info s e = if s.has_chrome then with_info s e else e

  abbrev kill_started : String → Session B → String × Session B
  kill_started message s = if s.has_chrome then kill message s else (message, s)

  -- The end of NotifyCommandListenersBeforeCommand at the first listener that fails
  unfoldable pub refuse_command : String → Status → Session B → Status × Session B
  refuse_command name e s =
      let message =
        "session deleted because error encountered when notifying listeners of '"
        <> (name <> "' command") in
      let k = kill_started message (mark s) in
      if s.quit
      then (with_chrome_info s e, s)
      else (with_chrome_info k.1 (status_details_cause unknown_error k.0 e), k.1)

  unfoldable pub notify_command_listeners :
      String → List (String → Session B → Status × Session B) → Session B → Status × Session B
  notify_command_listeners name [] s = (status ok, s)
  notify_command_listeners name (l ∷ ls) s =
      let r = l name s in
      elim (is_error r.0) [
        | true ↦ refuse_command name r.0 r.1
        | false ↦ notify_command_listeners name ls r.1
      ]

  abbrev crashed : Status → Session B → Status × Session B
  crashed e s =
      let k = kill "session deleted because of page crash" (mark s) in
      (status_details_cause unknown_error k.0 e, k.1)

  abbrev lost : Status → Session B → Status × Session B
  lost e s =
      let k = kill "session deleted as the browser has closed the connection" (mark s) in
      (status_details_cause invalid_session_id k.0 e, k.1)

  abbrev detached : Status → Session B → Status × Session B
  detached e s =
      let r = api.get_top_level_web_view_ids s.w3c_compliant s.browser in
      (
        if is_error r.0
            then add_details e ("failed to check if window was closed: " <> r.0.message)
            else if not (contains s.window r.1)
            then status ok
            else e,
        record s { browser = r.2 },
      )

  abbrev with_error_info : Status × Session B → Status × Session B
  with_error_info (e, s) = (if is_error e then with_info s e else e, s)

  -- What is made of the status of a command
  unfoldable pub judge_result : Status → Session B → Status × Session B
  judge_result e s =
      if is_error e && s.has_chrome
      then with_error_info (
          if not s.quit && api.has_crashed_web_view s.browser
          then crashed e s
          else if code_eq e.code disconnected
          then lost e s
          else if code_eq e.code target_detached
          then detached e s
          else (e, s))
      else (e, s)

  abbrev ends_bidi_session : Status → Session B → Session B
  ends_bidi_session e s =
      if is_error e then s else record s { browser = (api.send_bidi_session_end s.browser).1 }

  module _ {A : Type 0} where
    -- CloseAllConnections and Terminate
    unfoldable pub terminate : Session B → List (Task A)
    terminate s =
        map (λ (c : ℤ). Task.close_connection c) s.connections
        ++ (if s.terminate_on_cmd then Task.terminated ∷ [] else [])

    abbrev run_notified :
        (Session B → Status × Option A × Session B)
        → Status × Session B
        → Status × Option A × Session B
    run_notified command (e, s) =
        let r = command s in
        let j = judge_result r.0 r.2 in if is_error e then (e, none, s) else (j.0, r.1, j.1)

    -- The status, the value and the session behind a command
    unfoldable pub run_command :
        (Session B → Status × Option A × Session B)
        → Bool
        → Status × Session B
        → Status × Option A × Session B
    run_command command w3c_standard_command notified =
        if notified.1.w3c_compliant && not w3c_standard_command
        then (
          status_details unknown_command "Cannot call non W3C standard command while in W3C mode",
          none,
          notified.1,
        )
        else run_notified command notified

    abbrev pub close : Status × Option A × Session B → List (Task A) × Option (Session B)
    close (e, value, s) =
        let answer = reply e value s.id s.w3c_compliant in
        if s.quit then (answer ∷ terminate s, none) else (answer ∷ [], some s)

    -- ExecuteSessionCommandOnSessionThread, with the session of the thread
    unfoldable pub execute_on_session_thread :
        String
        → String
        → (Session B → Status × Option A × Session B)
        → Bool
        → Bool
        → List (String → Session B → Status × Session B)
        → Option (Session B)
        → List (Task A) × Option (Session B)
    execute_on_session_thread name session_id command w3c_standard_command ok_without_session
          listeners none =
        (
          reply (status (if ok_without_session then ok else invalid_session_id)) none session_id
                w3c_default
              ∷ [],
          none,
        )
    execute_on_session_thread name session_id command w3c_standard_command ok_without_session
          listeners (some s) =
        close (run_command command w3c_standard_command (notify_command_listeners name listeners s))

    abbrev gone : Session B → List (Task A) × Option (Session B)
    gone s = (terminate (kill "" (mark s)).1, none)

    abbrev judge_messages : Status → Session B → List (Task A) × Option (Session B)
    judge_messages e s =
        if ltb 1 (api.web_view_count s.browser) && not (code_eq e.code disconnected)
        then ([], some s)
        else gone (ends_bidi_session e s)

    -- HandleMessagesAndTerminateIfNecessary. The message that `fatal_errors` gives is only logged.
    unfoldable pub handle_messages_and_terminate :
        Option (Session B) → List (Task A) × Option (Session B)
    handle_messages_and_terminate none = ([], none)
    handle_messages_and_terminate (some s) =
        let r = api.handle_received_events s.browser in
        if s.web_socket_url then judge_messages r.0 (record s { browser = r.1 }) else ([], some s)
