-- ===== src/WebView.antt =====
-- IsNotPendingNavigation of chrome/web_view_impl.cc, where a web view asks its two trackers and its
-- client whether a command has to wait.
pub mod Waits
use chromedriver.Base.{
  String, Bool, true, false, not, ◌&&◌, Option, none, some, ◌<>◌, if◌then◌else◌, is_empty,
}
use chromedriver.Result.{Result, done, fail}
use chromedriver.Status.{Status, status, status_details, is_error, ok, unexpected_alert_open}
use chromedriver.FrameTracker.{FrameTracker, is_known_frame}
use chromedriver.NavigationTracker.{NavigationTracker}
use chromedriver.NavigationTracker.Commands.{PendingReplies, Outcome, is_pending_navigation}
use chromedriver.Dialogs.{Dialogs, Events, is_dialog_open, get_dialog_message, on_events}

-- The status, `*is_not_pending` if it is written, the navigation tracker and the dialogs.
pub record Waiting : Type 0 where
  pub result : Status
  pub is_not_pending : Option Bool
  pub tracker : NavigationTracker
  pub dialogs : Dialogs

-- What the navigation tracker is told of the dialogs.
abbrev pub replies_with : PendingReplies → Dialogs → PendingReplies
replies_with r d = record r { is_dialog_open = is_dialog_open d }

-- The dialogs behind IsPendingNavigation, which returns at once if one is open.
abbrev pub dialogs_after : Events → Dialogs → Dialogs
dialogs_after during d = if is_dialog_open d then d else on_events during d

-- `is_pending` is false unless it is written.
abbrev negated : Option Bool → Bool
negated none = true
negated (some b) = not b

abbrev message_text : Option String → String
message_text none = ""
message_text (some m) = m

abbrev alert_status : Result (Option String) → Status
alert_status (fail e) = status unexpected_alert_open
alert_status (done m) =
    status_details unexpected_alert_open ("{Alert text : " <> (message_text m <> "}"))

-- The code behind the test for the frame.
unfoldable pub judge_pending : Outcome → Dialogs → Waiting
judge_pending (s, pending, t) d =
    if is_error s
    then record { result = s; is_not_pending = none; tracker = t; dialogs = d }
    else if is_dialog_open d
    then record {
      result = alert_status (get_dialog_message d);
      is_not_pending = none;
      tracker = t;
      dialogs = d;
    }
    else record {
      result = status ok;
      is_not_pending = some (negated pending);
      tracker = t;
      dialogs = d;
    }

-- IsNotPendingNavigation; `during` are the events of dialogs that arrive while the tracker is asked.
unfoldable pub is_not_pending_navigation :
    String → FrameTracker → NavigationTracker → PendingReplies → Events → Dialogs → Waiting
is_not_pending_navigation frame_id f t r during d =
    if not (is_empty frame_id) && not (is_known_frame f frame_id)
    then record { result = status ok; is_not_pending = some true; tracker = t; dialogs = d }
    else judge_pending (is_pending_navigation (replies_with r d) t) (dialogs_after during d)
