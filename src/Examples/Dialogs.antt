-- ===== src/Examples/Dialogs.antt =====
-- The dialogs of a page at concrete events.
use chromedriver.Base.{◌≡◌, refl, true, false, none, some, [], ◌∷◌, if◌then◌else◌}
use chromedriver.Status.{status, ok}
use chromedriver.Dialogs.{
  Dialogs, opening, Attempt, attempt, Events, no_events, next, is_dialog_open, get_type_of_dialog,
}
use chromedriver.Dialogs.Alerts.{State, set_alert_text, accept_alert, dismiss_alert, sent_params}
use chromedriver.Dialogs.Texts.{after, accept_alert-sends_text}

abbrev pub none_open : Dialogs
none_open = record {
  unhandled_dialog_queue = [];
  dialog_type_queue = [];
  prompt_text = "";
  autoaccept_beforeunload = false;
}

abbrev quiet : Attempt
quiet = attempt no_events (status ok)

abbrev pub prompts : Events
prompts = next (opening (some "Name?") (some "prompt") (some "Bob") quiet quiet) no_events

abbrev pub asking : Dialogs
asking = record {
  unhandled_dialog_queue = "Name?" ∷ "Sure?" ∷ [];
  dialog_type_queue = "prompt" ∷ "confirm" ∷ [];
  prompt_text = "Bob";
  autoaccept_beforeunload = false;
}

abbrev session : State
session = record { prompt_text = none; dialogs = asking }

accept_alert-sends_text_example :
    let typed = after (set_alert_text (some "Ann")) session in
    let accepted = after (accept_alert quiet quiet) typed in
    (sent_params (accept_alert quiet quiet) typed ≡ some (true, "Ann"))
    × (sent_params (accept_alert quiet quiet) accepted ≡ (
        if is_dialog_open accepted.dialogs
        then some (true, accepted.dialogs.prompt_text)
        else none))
    × (sent_params (dismiss_alert quiet quiet) accepted ≡ (
        if is_dialog_open accepted.dialogs
        then some (false, accepted.dialogs.prompt_text)
        else none))
unfolding get_type_of_dialog
accept_alert-sends_text_example =
    accept_alert-sends_text "Ann" quiet quiet quiet quiet session refl refl
