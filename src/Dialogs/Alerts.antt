-- ===== src/Dialogs/Alerts.antt =====
-- alert_commands.cc. The session keeps the text for the next prompt; the web view passes each call
-- on to its client.
use chromedriver.Base.{
  String, Bool, true, false, not, ◌&&◌, ◌||◌, Option, none, some, ◌==◌, if◌then◌else◌,
}
use chromedriver.Result.{done, fail}
use chromedriver.Status.{
  Status, status, status_details, is_error, code_eq, ok, invalid_argument, no_such_alert,
  element_not_interactable, unsupported_operation, unexpected_alert_open,
}
use chromedriver.Dialogs.{
  Dialogs, Attempt, Events, is_dialog_open, get_dialog_message, get_type_of_dialog, handle_dialog,
  dialog_params, on_events,
}

-- What the commands see: `prompt_text` of the session, and the dialogs of the web view.
pub record State : Type 0 where
  pub prompt_text : Option String
  pub dialogs : Dialogs

-- The value that a command writes.
pub data Value : Type 0 where
  nothing : Value
  open_value : Bool → Value
  text_value : Option String → Value

pub data AlertCommand : Type 0 where
  get_alert : AlertCommand
  get_alert_text : AlertCommand
  -- with the string under "text"
  set_alert_text : Option String → AlertCommand
  accept_alert dismiss_alert : Attempt → Attempt → AlertCommand

abbrev pub Outcome : Type 0
Outcome = Status × Value × State

-- ExecuteSetAlertText behind GetTypeOfDialog
unfoldable pub set_text_for : Option String → String → State → Outcome
set_text_for (some type) text s =
    if type == "prompt"
    then (status ok, nothing, record s { prompt_text = some text })
    else if type == "alert" || type == "confirm"
    then (
      status_details element_not_interactable "User dialog does not have a text box input field.",
      nothing,
      s,
    )
    else (
      status_details unsupported_operation "Text can only be sent to window.prompt dialogs.",
      nothing,
      s,
    )
-- the type of an open dialog was read off an empty queue, which is undefined
set_text_for none text s = (status ok, nothing, s)

abbrev pub answer_handled : Status × Dialogs → State → Outcome
answer_handled (e, d) s = (e, nothing, record s { prompt_text = none; dialogs = d })

unfoldable pub run_alert_command : AlertCommand → State → Outcome
run_alert_command get_alert s = (status ok, open_value (is_dialog_open s.dialogs), s)
run_alert_command get_alert_text s = elim (get_dialog_message s.dialogs) [
  | done m ↦ (status ok, text_value m, s)
  | fail e ↦ (e, nothing, s)
]
run_alert_command (set_alert_text none) s =
    (status_details invalid_argument "missing or invalid 'text'", nothing, s)
run_alert_command (set_alert_text (some text)) s =
    if not (is_dialog_open s.dialogs)
    then (status no_such_alert, nothing, s)
    else elim (get_type_of_dialog s.dialogs) [
      | done type ↦ set_text_for type text s
      | fail e ↦ (e, nothing, s)
    ]
run_alert_command (accept_alert first second) s =
    answer_handled (handle_dialog first second s.dialogs) s
run_alert_command (dismiss_alert first second) s =
    answer_handled (handle_dialog first second s.dialogs) s

-- The parameters of Page.handleJavaScriptDialog that a command sends, if it sends any.
unfoldable pub sent_params : AlertCommand → State → Option (Bool × String)
sent_params (accept_alert first second) s =
    if is_dialog_open s.dialogs then some (dialog_params true s.prompt_text s.dialogs) else none
sent_params (dismiss_alert first second) s =
    if is_dialog_open s.dialogs then some (dialog_params false s.prompt_text s.dialogs) else none
sent_params _ s = none

-- ExecuteAlertCommand, with the status of GetTargetWindow, and the statuses of HandleReceivedEvents
-- and of WaitForPendingNavigations with the events of dialogs that they handle.
unfoldable pub execute_alert_command :
    AlertCommand → Status → Events × Status → Events × Status → State → Outcome
execute_alert_command command window (received, r) (waited, w) s =
    let s' = record s { dialogs = on_events received s.dialogs } in
    let s'' = record s { dialogs = on_events waited s'.dialogs } in
    if is_error window
    then (window, nothing, s)
    else if is_error r
    then (r, nothing, s')
    else if is_error w && not (code_eq w.code unexpected_alert_open)
    then (w, nothing, s'')
    else run_alert_command command s''
