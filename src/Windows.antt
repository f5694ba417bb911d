-- ===== src/Windows.antt =====
-- ExecuteWindowCommand of window_commands.cc, over a session whose web view has the dialogs of
-- `Dialogs`. What the web view does besides is an operation of `View`: the model is of the calls
-- and of what is made of their results.
pub mod Handles
pub mod Print
pub mod Cookies
pub mod Runs
pub mod Retries
pub mod Prompts
use chromedriver.Base.{
  ℕ, zero, suc, String, Bool, true, false, not, ◌&&◌, ◌||◌, Option, none, some, List, [], ◌∷◌, ◌<>◌,
  if◌then◌else◌, eqb, is_some, find?,
}
use chromedriver.Result.{Result, done, fail}
use chromedriver.Status.{
  StatusCode, Status, status, status_details, status_cause, is_error, is_ok, code_eq, ok,
  unknown_error, timeout, disconnected, target_detached, unexpected_alert_open,
  unexpected_alert_open_keep, no_such_execution_context, aborted_by_navigation,
}
use chromedriver.PromptBehavior.{
  PromptBehavior, Configuration, PromptHandlerType, accept, dismiss, ignore, get_configuration,
}
use chromedriver.Values.{Values}
use chromedriver.Dialogs.{
  dialog_params, Dialogs, Attempt, is_dialog_open, get_dialog_message, get_type_of_dialog,
  handle_dialog,
}
use chromedriver.Sessions.Frames.{FrameInfo, Focus, current_frame_id, switch_to_top_frame}

-- kNavigationHints
unfoldable pub is_navigation_hint : StatusCode → Bool
is_navigation_hint no_such_execution_context = true
is_navigation_hint aborted_by_navigation = true
is_navigation_hint _ = false

abbrev pub target_closed_message : String
target_closed_message = "Inspected target navigated or closed"

-- The session with its web view; `view` is what else the web view and the browser keep.
pub record Session (V W : Type 0) : Type 0 where
  pub prompt_text : Option String
  pub unhandled_prompt_behavior : PromptBehavior V
  pub focus : Focus
  pub dialogs : Dialogs
  pub view : W

-- The calls of the web view, each with the state that it leaves. `attempts` are the two attempts of
-- HandleDialog to send Page.handleJavaScriptDialog with these parameters.
pub record View (V W : Type 0) : Type 0 where
  pub get_target_window : Session V W → Status
  pub handle_received_events : Session V W → Status × Session V W
  pub attempts : Bool × String → Session V W → Attempt × Attempt
  pub wait_for_pending_navigations : String → Session V W → Status × Session V W
  pub is_pending_navigation : Session V W → Status × Bool × Session V W
  pub is_non_blocking : Bool

-- What a step decides: the command returns a status, or it goes on.
abbrev pub Stop : Type 0
Stop = Option Status

-- How an attempt ends: with a status that is returned, with another attempt, or behind the loop.
pub data Verdict : Type 0 where
  returns : Status → Verdict
  again leaves : Verdict

-- The text of a dialog, which is undefined where the queue is empty
abbrev pub text_or_empty : Option String → String
text_or_empty none = ""
text_or_empty (some text) = text

abbrev pub notified : Bool → String → Stop
notified notify text =
    if notify
    then some (status_details unexpected_alert_open ("{Alert text : " <> (text <> "}")))
    else none

-- The status behind the loop and the last wait
unfoldable pub final_status : Status → Status → Status
final_status e wait =
    if is_ok e && (is_error wait && not (code_eq wait.code unexpected_alert_open))
    then wait
    else if code_eq e.code unexpected_alert_open
    then status ok
    else if code_eq e.code unexpected_alert_open_keep
    then status_details unexpected_alert_open e.message
    else if is_navigation_hint e.code
    then status_cause timeout e
    else e

module _ {V D W : Type 0} (api : Values V D) (web : View V W) where
  open web use {
    get_target_window, handle_received_events, attempts, wait_for_pending_navigations,
    is_pending_navigation, is_non_blocking,
  }

  -- HandleDialog with the prompt text of the session
  abbrev pub handled : Bool → Session V W → Status × Dialogs
  handled accepts s =
      let sent = attempts (dialog_params accepts s.prompt_text s.dialogs) s in
      handle_dialog sent.0 sent.1 s.dialogs

  abbrev pub close_dialog : Bool → Bool → String → Session V W → Stop × Session V W
  close_dialog accepts notify text s =
      let r = handled accepts s in
      (if is_error r.0 then some r.0 else notified notify text, record s { dialogs = r.1 })

  unfoldable pub answer_dialog : Configuration → String → Session V W → Stop × Session V W
  answer_dialog c text s = elim c.type [
    | accept ↦ close_dialog true c.notify text s
    | dismiss ↦ close_dialog false c.notify text s
    | ignore ↦ (notified c.notify text, s)
  ]

  unfoldable pub answer_typed : Option String → Option String → Session V W → Stop × Session V W
  answer_typed text type s =
      elim (get_configuration api s.unhandled_prompt_behavior (text_or_empty type)) [
        | fail e ↦ (some e, s)
        | done c ↦ answer_dialog c (text_or_empty text) s
      ]

  -- The block of ExecuteWindowCommand, and of ExecuteClose, for an open dialog
  unfoldable pub handle_open_dialog : Session V W → Stop × Session V W
  handle_open_dialog s =
      if is_dialog_open s.dialogs
      then elim (get_dialog_message s.dialogs) [
        | fail e ↦ (some e, s)
        | done text ↦ elim (get_type_of_dialog s.dialogs) [
          | fail e ↦ (some e, s)
          | done type ↦ answer_typed text type s
        ]
      ]
      else (none, s)

  abbrev judge_error : Status × Bool × Session V W → Verdict × Session V W
  judge_error (e, pending, s) =
      (if is_error e then returns e else if pending then again else leaves, s)

  -- What is made of the status of the command
  unfoldable pub judge : Status → Session V W → Verdict × Session V W
  judge e s =
      if is_navigation_hint e.code
      then (again, s)
      else if code_eq e.code timeout
      then (again, s)
      else if code_eq e.code unknown_error
          && (is_non_blocking && is_some (find? e.message target_closed_message))
      then (again, s)
      else if code_eq e.code disconnected || code_eq e.code target_detached
      then (returns e, s)
      else if is_error e
      then judge_error (is_pending_navigation s)
      else (leaves, s)

  abbrev pub to_top : Session V W → Session V W
  to_top s = record s { focus = switch_to_top_frame (is_ok (get_target_window s)) s.focus }

  abbrev pub waited : Session V W → Status × Session V W
  waited s = wait_for_pending_navigations (current_frame_id s.focus.frames) s

  module _ {A : Type 0} (run : Session V W → Option A → Status × Option A × Session V W) where
    -- What the loop leaves: the status that is returned from it, if any, and the status and the
    -- value of the command.
    abbrev pub Attempted : Type 0
    Attempted = Stop × Status × Option A × Session V W

    -- The loop with the number of attempts that are left; the last one is at the top frame.
    unfoldable pub attempt : ℕ → Status → Option A → Session V W → Attempted
    attempt zero e value s = (none, e, value, s)
    attempt (suc n) e value s =
        let w = waited (if eqb n 0 then to_top s else s) in
        let r = run w.1 value in
        let j = judge r.0 r.2 in
        elim (is_error w.0) [
          | true ↦ (some w.0, e, value, w.1)
          | false ↦ elim j.0 [
            | returns e' ↦ (some e', r.0, r.1, j.1)
            | leaves ↦ (none, r.0, r.1, j.1)
            | again ↦ attempt n r.0 r.1 j.1
          ]
        ]

    unfoldable pub finish : Attempted → Status × Option A × Session V W
    finish (some e, e', value, s) = (e, value, s)
    finish (none, e, value, s) = let w = waited s in (final_status e w.0, value, w.1)

    abbrev pub behind_dialog : Stop × Session V W → Option A → Status × Option A × Session V W
    behind_dialog (some e, s) value = (e, value, s)
    behind_dialog (none, s) value = finish (attempt 3 (status ok) value s)

    abbrev pub behind_events : Status × Session V W → Option A → Status × Option A × Session V W
    behind_events (e, s) value =
        if is_error e then (e, value, s) else behind_dialog (handle_open_dialog s) value

    unfoldable pub execute_window_command : Option A → Session V W → Status × Option A × Session V W
    execute_window_command value s =
        let window = get_target_window s in
        if is_error window
        then (window, value, s)
        else behind_events (handle_received_events s) value
