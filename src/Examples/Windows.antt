-- ===== src/Examples/Windows.antt =====
-- A command that meets a navigation whenever it runs, with the number of its runs in the state, and
-- an open dialog.
use chromedriver.Base.{
  ℕ, suc, ◌+◌, ◌≤◌, String, ◌≡◌, refl, true, false, Option, none, some, List, [], ◌∷◌,
}
use chromedriver.Status.{
  Status, status, status_details, ok, timeout, aborted_by_navigation, unexpected_alert_open,
  invalid_argument,
}
use chromedriver.PromptBehavior.{configuration, accept, ignore, dismiss, prompt}
use chromedriver.Dialogs.{attempt, no_events, handle_dialog, handle_dialog_with, send}
use chromedriver.HttpHandler.AlertText.{alert_message}
use chromedriver.Windows.{Session, View, execute_window_command, handled, is_navigation_hint}
use chromedriver.Windows.Retries.{execute_window_command-runs, execute_window_command-gives_up}
use chromedriver.Windows.Prompts.{
  execute_window_command-notifies, execute_window_command-beforeunload,
}
use chromedriver.Examples.Json.{Json, null, json}

abbrev pub web : View Json ℕ
web = record {
  get_target_window = λ s. status ok;
  handle_received_events = λ s. (status ok, s);
  attempts = λ params s. (attempt no_events (status ok), attempt no_events (status ok));
  wait_for_pending_navigations = λ frame s. (status ok, s);
  is_pending_navigation = λ s. (status ok, false, s);
  is_non_blocking = false;
}

abbrev run : Session Json ℕ → Option String → Status × Option String × Session Json ℕ
run s value = (status aborted_by_navigation, value, record s { view = suc s.view })

abbrev pub with_dialogs : List String → List String → Session Json ℕ
with_dialogs texts types = record {
  prompt_text = some "typed";
  unhandled_prompt_behavior = record {
    original_capability_value = null;
    alert_handler = configuration dismiss true;
    before_unload_handler = configuration accept false;
    confirm_handler = configuration ignore true;
    prompt_handler = configuration accept true;
  };
  focus = record { frames = []; view_frame = "" };
  dialogs = record {
    unhandled_dialog_queue = texts;
    dialog_type_queue = types;
    prompt_text = "";
    autoaccept_beforeunload = false;
  };
  view = 0;
}

abbrev pub calm : Session Json ℕ
calm = with_dialogs [] []

abbrev asking : Session Json ℕ
asking = with_dialogs ("name?" ∷ []) ("prompt" ∷ [])

abbrev leaving : Session Json ℕ
leaving = with_dialogs ("leave?" ∷ []) ("beforeunload" ∷ [])

execute_window_command-runs_example : (execute_window_command json web run none calm).2.view ≤ 3 + 0
execute_window_command-runs_example =
    execute_window_command-runs json web run (λ n. n) (λ s. refl) (λ frame s. refl) (λ s. refl)
      (λ s value. refl) none calm

execute_window_command-gives_up_example :
    ((execute_window_command json web run none calm).0.code ≡ timeout)
    × ((execute_window_command json web run none calm).2.focus.frames ≡ [])
unfolding is_navigation_hint
execute_window_command-gives_up_example =
    execute_window_command-gives_up json web run (λ s value. refl) (λ s value. refl)
      (λ frame s. refl) (λ frame s. refl) none calm calm refl refl refl

execute_window_command-notifies_example : execute_window_command json web run none asking ≡ (
  record { code = unexpected_alert_open; message = alert_message "name?" },
  none,
  record asking { dialogs = (handled json web true asking).1 },
)
unfolding handle_dialog handle_dialog_with send
execute_window_command-notifies_example =
    execute_window_command-notifies json web run prompt "name?" [] [] none asking asking refl refl
      refl refl refl refl

execute_window_command-beforeunload_example :
    execute_window_command json web run none leaving
    ≡ (status_details invalid_argument "Unexpected dialog type beforeunload", none, leaving)
execute_window_command-beforeunload_example =
    execute_window_command-beforeunload json web run "leave?" [] [] none leaving leaving refl refl
      refl refl
