-- ===== src/Examples/Fed.antt =====
-- Federated sign-in at concrete commands.
use chromedriver.Base.{ℕ, ◌≡◌, refl, true, false, none, some, [], ◌∷◌, if◌then◌else◌, pos}
use chromedriver.Status.{status, ok}
use chromedriver.FedCm.{FedCmTracker, dialog_shown, has_dialog, on_events}
use chromedriver.FedCm.Commands.{Reply, Command, select_account, execute}
use chromedriver.FedCm.Closing.{all_name, dialog_left, ends_dialog, listens, execute-dialog_left}

abbrev chooser : FedCmTracker ℕ
chooser = record {
  last_dialog_id = "7";
  last_title = "Sign in";
  last_subtitle = none;
  last_dialog_type = "AccountChooser";
  last_accounts = 2;
}

-- While the command waits, the page shows another dialog.
abbrev another : Reply ℕ
another = record {
  events = dialog_shown (some "8") (some "Again") none (some "AccountChooser") (some 1) ∷ [];
  result = status ok;
}

abbrev command : Command ℕ
command = select_account (some (pos 1))

execute-dialog_left_example :
    (all_name "7" (execute 0 command another another (some chooser)).sent ≡ true)
    × (dialog_left (execute 0 command another another (some chooser)).tracker ≡ (
        if ends_dialog command another
        then false
        else has_dialog (
            on_events 0
              (listens (execute 0 command another another (some chooser)).sent another.events)
              chooser)))
execute-dialog_left_example = execute-dialog_left 0 command another another chooser refl
