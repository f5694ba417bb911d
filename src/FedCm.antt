-- ===== src/FedCm.antt =====
-- chrome/fedcm_tracker.h, chrome/fedcm_tracker.cc and fedcm_commands.cc, with GetFedCmTracker of
-- chrome/web_view_impl.cc: the dialogs of federated sign-in. A command carries the events that arrive
-- while it waits for its reply. `A` stands for the type of lists of accounts.
pub mod Commands
pub mod Closing
use chromedriver.Base.{
  String, Bool, true, false, not, Option, none, some, List, [], ◌∷◌, if◌then◌else◌, is_empty, ◌==◌,
}
use chromedriver.Status.{Status, is_ok_code}

pub record FedCmTracker (A : Type 0) : Type 0 where
  pub last_dialog_id : String
  pub last_title : String
  pub last_subtitle : Option String
  pub last_dialog_type : String
  pub last_accounts : A

-- FedCm.dialogShown with its members, where they are there with their types, and FedCm.dialogClosed.
pub data Event (A : Type 0) : Type 0 where
  dialog_shown : Option String → Option String → Option String → Option String → Option A → Event A
  dialog_closed : Event A
  other : Event A

abbrev text_or_empty : Option String → String
text_or_empty none = ""
text_or_empty (some s) = s

module _ {A : Type 0} where
  abbrev pub has_dialog : FedCmTracker A → Bool
  has_dialog t = not (is_empty t.last_dialog_id)

module _ {A : Type 0} (no_accounts : A) where
  abbrev pub new_tracker : FedCmTracker A
  new_tracker = record {
    last_dialog_id = "";
    last_title = "";
    last_subtitle = none;
    last_dialog_type = "";
    last_accounts = no_accounts;
  }

  -- DialogClosed
  unfoldable pub close_dialog : FedCmTracker A → FedCmTracker A
  close_dialog t = record t {
    last_dialog_id = "";
    last_title = "";
    last_subtitle = some "";
    last_dialog_type = "";
    last_accounts = no_accounts;
  }

  abbrev accounts_or_none : Option A → A
  accounts_or_none none = no_accounts
  accounts_or_none (some a) = a

  unfoldable pub on_event : Event A → FedCmTracker A → FedCmTracker A
  on_event dialog_closed t = close_dialog t
  on_event (dialog_shown id title subtitle type accounts) t = record {
    last_dialog_id = text_or_empty id;
    last_title = text_or_empty title;
    last_subtitle = subtitle;
    last_dialog_type = text_or_empty type;
    last_accounts = accounts_or_none accounts;
  }
  on_event other t = t

  unfoldable pub on_events : List (Event A) → FedCmTracker A → FedCmTracker A
  on_events [] t = t
  on_events (e ∷ es) t = on_events es (on_event e t)
