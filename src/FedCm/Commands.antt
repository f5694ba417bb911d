-- ===== src/FedCm/Commands.antt =====
-- fedcm_commands.cc. Each command first asks the web view for its tracker; the first time that
-- enables the events of the browser, which may fail.
use chromedriver.Base.{
  String, Bool, true, false, not, ◌||◌, ◌&&◌, Option, none, some, List, [], ◌∷◌, if◌then◌else◌,
  ◌==◌, ℤ,
}
use chromedriver.Status.{Status, status, status_details, is_ok, ok, no_such_alert, invalid_argument}
use chromedriver.FedCm.{FedCmTracker, Event, new_tracker, has_dialog, close_dialog, on_events}

-- What the browser does until it replies, and its status.
pub record Reply (A : Type 0) : Type 0 where
  pub events : List (Event A)
  pub result : Status

pub data Command (A : Type 0) : Type 0 where
  cancel_dialog : Command A
  select_account : Option ℤ → Command A
  click_dialog_button : Option String → Option ℤ → Command A
  get_accounts get_dialog_type get_title : Command A
  set_delay_enabled : Option Bool → Command A
  reset_cooldown : Command A

pub data Value (A : Type 0) : Type 0 where
  nothing : Value A
  accounts_value : A → Value A
  type_value : String → Value A
  title_value : String → Option String → Value A

-- What is sent to the browser
pub data Sent : Type 0 where
  fedcm_enable : Option Bool → Sent
  dismiss_dialog : String → Sent
  select_account_of : String → ℤ → Sent
  open_url : String → ℤ → String → Sent
  click_button_of : String → String → Sent
  reset : Sent

pub record Outcome (A : Type 0) : Type 0 where
  pub result : Status
  pub value : Value A
  pub sent : List Sent
  -- the tracker of the web view, if it has one
  pub tracker : Option (FedCmTracker A)

abbrev pub is_url : String → Bool
is_url button = button == "TermsOfService" || button == "PrivacyPolicy"

module _ {A : Type 0} where
  abbrev pub needs_dialog : Command A → Bool
  needs_dialog (set_delay_enabled b) = false
  needs_dialog reset_cooldown = false
  needs_dialog _ = true

module _ {A : Type 0} (no_accounts : A) where
  abbrev refuse : Status → FedCmTracker A → Outcome A
  refuse s t = record { result = s; value = nothing; sent = []; tracker = some t }

  abbrev answer : Value A → FedCmTracker A → Outcome A
  answer v t = record { result = status ok; value = v; sent = []; tracker = some t }

  -- A command whose tracker is left open, and one that closes the dialog when the reply is there
  abbrev ask : Sent → Reply A → FedCmTracker A → Outcome A
  ask x r t = record {
    result = r.result;
    value = nothing;
    sent = x ∷ [];
    tracker = some (on_events no_accounts r.events t);
  }

  abbrev ask_and_close : Sent → Reply A → FedCmTracker A → Outcome A
  ask_and_close x r t = record {
    result = r.result;
    value = nothing;
    sent = x ∷ [];
    tracker = some (close_dialog no_accounts (on_events no_accounts r.events t));
  }

  unfoldable pub select : Option ℤ → Reply A → FedCmTracker A → Outcome A
  select none r t = refuse (status_details invalid_argument "accountIndex must be specified") t
  select (some i) r t =
      if is_ok r.result
      then ask_and_close (select_account_of t.last_dialog_id i) r t
      else ask (select_account_of t.last_dialog_id i) r t

  unfoldable pub click : Option String → Option ℤ → Reply A → FedCmTracker A → Outcome A
  click none index r t = refuse (status_details invalid_argument "dialogButton must be specified") t
  click (some button) none r t =
      if is_url button
      then refuse (status_details invalid_argument "index must be specified") t
      else ask_and_close (click_button_of t.last_dialog_id button) r t
  click (some button) (some i) r t =
      if is_url button
      then ask (open_url t.last_dialog_id i button) r t
      else ask_and_close (click_button_of t.last_dialog_id button) r t

  -- The commands that ask for the tracker, when there is one and its dialog is open if they need it
  unfoldable pub run_on_dialog : Command A → Reply A → FedCmTracker A → Outcome A
  run_on_dialog cancel_dialog r t = ask_and_close (dismiss_dialog t.last_dialog_id) r t
  run_on_dialog (select_account index) r t = select index r t
  run_on_dialog (click_dialog_button button index) r t = click button index r t
  run_on_dialog get_accounts r t = answer (accounts_value t.last_accounts) t
  run_on_dialog get_dialog_type r t = answer (type_value t.last_dialog_type) t
  run_on_dialog get_title r t = answer (title_value t.last_title t.last_subtitle) t
  run_on_dialog (set_delay_enabled none) r t =
      refuse (status_details invalid_argument "enabled must be specified") t
  run_on_dialog (set_delay_enabled (some b)) r t = ask (fedcm_enable (some (not b))) r t
  run_on_dialog reset_cooldown r t = ask reset r t

  unfoldable pub run_with_tracker : Command A → Reply A → FedCmTracker A → Outcome A
  run_with_tracker command r t =
      if needs_dialog command && not (has_dialog t)
      then refuse (status no_such_alert) t
      else run_on_dialog command r t

  -- GetFedCmTracker, with the reply to FedCm.enable: a new tracker listens from the start, and is
  -- dropped when the command fails.
  unfoldable pub get_tracker : Reply A → Option (FedCmTracker A) → Status × Option (FedCmTracker A)
  get_tracker enable (some t) = (status ok, some t)
  get_tracker enable none =
      if is_ok enable.result
      then (status ok, some (on_events no_accounts enable.events (new_tracker no_accounts)))
      else (enable.result, none)

  abbrev after_tracker : Command A → Reply A → Status × Option (FedCmTracker A) → Outcome A
  after_tracker command r (s, some t) = run_with_tracker command r t
  after_tracker command r (s, none) = record {
    result = s;
    value = nothing;
    sent = [];
    tracker = none;
  }

  -- A command with the tracker of its web view: the reply to FedCm.enable comes first. Resetting the
  -- cooldown does not ask for the tracker.
  unfoldable pub execute : Command A → Reply A → Reply A → Option (FedCmTracker A) → Outcome A
  execute reset_cooldown enable r none = record {
    result = r.result;
    value = nothing;
    sent = reset ∷ [];
    tracker = none;
  }
  execute reset_cooldown enable r (some t) = run_with_tracker reset_cooldown r t
  execute command enable r o = after_tracker command r (get_tracker enable o)
