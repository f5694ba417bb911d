-- ===== src/Dialogs/Texts.antt =====
-- The text that a prompt is given.
use chromedriver.Base.{String, ◌≡◌, true, false, not, none, some, ◌==◌, if◌then◌else◌, arith}
use chromedriver.Result.{done}
use chromedriver.Status.{is_error}
use chromedriver.Dialogs.{Attempt, is_dialog_open, get_type_of_dialog, dialog_params}
use chromedriver.Dialogs.Alerts.{
  State, AlertCommand, set_alert_text, accept_alert, dismiss_alert, run_alert_command, set_text_for,
  sent_params,
}

abbrev pub after : AlertCommand → State → State
after command s = (run_alert_command command s).2

-- The text of an open dialog is set exactly for a prompt; for every other dialog the command fails
-- and the state stays as it was.
pub set_alert_text-prompt :
    (text type : String) (s : State)
    → is_dialog_open s.dialogs ≡ true
    → get_type_of_dialog s.dialogs ≡ done (some type)
    → (after (set_alert_text (some text)) s
        ≡ (if type == "prompt" then record s { prompt_text = some text } else s))
      × (is_error (run_alert_command (set_alert_text (some text)) s).0 ≡ not (type == "prompt"))
unfolding run_alert_command set_text_for
set_alert_text-prompt text type s o t = (ground arith, ground arith)

-- The text that is set for a prompt is what the accept sends, whatever the page proposes. It is sent
-- once: a dialog that is accepted or dismissed after that is given the text that the page proposes.
pub accept_alert-sends_text :
    (text : String) (first second third fourth : Attempt) (s : State)
    → is_dialog_open s.dialogs ≡ true
    → get_type_of_dialog s.dialogs ≡ done (some "prompt")
    → let typed = after (set_alert_text (some text)) s in
      let accepted = after (accept_alert first second) typed in
      (sent_params (accept_alert first second) typed ≡ some (true, text))
      × (sent_params (accept_alert third fourth) accepted ≡ (
          if is_dialog_open accepted.dialogs
          then some (true, accepted.dialogs.prompt_text)
          else none))
      × (sent_params (dismiss_alert third fourth) accepted ≡ (
          if is_dialog_open accepted.dialogs
          then some (false, accepted.dialogs.prompt_text)
          else none))
unfolding run_alert_command set_text_for sent_params dialog_params
accept_alert-sends_text text a b c d s o t = (ground arith, ground arith, ground arith)
