-- ===== src/WebView/Waits.antt =====
-- What a command waits for.
use chromedriver.Base.{String, ◌≡◌, Bool, true, false, not, ◌||◌, Option, some, is_empty, arith}
use chromedriver.Result.{done}
use chromedriver.Values.{Values}
use chromedriver.Status.{is_error, unexpected_alert_open, status_code_to_string}
use chromedriver.Status.Codes.{code_eq_iff}
use chromedriver.FrameTracker.{FrameTracker, is_known_frame}
use chromedriver.NavigationTracker.{NavigationTracker}
use chromedriver.NavigationTracker.Pointers.{IsValid}
use chromedriver.NavigationTracker.Pending.{expected, is_pending_navigation-expected}
use chromedriver.NavigationTracker.Commands.{PendingReplies, Outcome, is_pending_navigation}
use chromedriver.Dialogs.{Dialogs, Events, is_dialog_open, get_dialog_message}
use chromedriver.HttpHandler.Response.{error_body, prepare_standard_response}
use chromedriver.HttpHandler.AlertText.{alert_message, alert_text-alert_message}
use chromedriver.WebView.{replies_with, dialogs_after, judge_pending, is_not_pending_navigation}

-- The frame is the top frame, or the frame tracker knows it.
abbrev pub has_frame : String → FrameTracker → Bool
has_frame frame_id f = is_empty frame_id || is_known_frame f frame_id

known :
    (frame_id : String) (f : FrameTracker) (t : NavigationTracker) (r : PendingReplies)
    (during : Events) (d : Dialogs)
    → has_frame frame_id f ≡ true
    → is_not_pending_navigation frame_id f t r during d
      ≡ judge_pending (is_pending_navigation (replies_with r d) t) (dialogs_after during d)
unfolding is_not_pending_navigation
known frame_id f t r during d k = ground arith

judge_pending-alert :
    (o : Outcome) (d : Dialogs) (m : String)
    → is_error o.0 ≡ false
    → get_dialog_message d ≡ done (some m)
    → (judge_pending o d).result
      ≡ record { code = unexpected_alert_open; message = alert_message m }
unfolding judge_pending get_dialog_message
judge_pending-alert (s, p, t) d m e g = ground (arith, g)

judge_pending-answer :
    (o : Outcome) (d : Dialogs) (b : Bool)
    → is_error (judge_pending o d).result ≡ false
    → (is_error o.0 ≡ false → o.1 ≡ some b)
    → (is_dialog_open (judge_pending o d).dialogs ≡ false)
      × ((judge_pending o d).is_not_pending ≡ some (not b))
unfolding judge_pending get_dialog_message
judge_pending-answer (s, p, t) d b e k = (ground (arith, e, k), ground (arith, e, k))

judge_pending-tracker : (o : Outcome) (d : Dialogs) → (judge_pending o d).tracker ≡ o.2
unfolding judge_pending
judge_pending-tracker (s, p, t) d = ground arith

-- Whenever IsNotPendingNavigation succeeds for a frame that is there, no dialog is open, and it has
-- written the opposite of what the navigation tracker is to answer in the state that the call leaves.
pub is_not_pending_navigation-answer :
    (frame_id : String) (f : FrameTracker) (t : NavigationTracker) (r : PendingReplies)
    (during : Events) (d : Dialogs)
    → has_frame frame_id f ≡ true
    → IsValid t
    → is_error (is_not_pending_navigation frame_id f t r during d).result ≡ false
    → let w = is_not_pending_navigation frame_id f t r during d in
      (is_dialog_open w.dialogs ≡ false)
      × (w.is_not_pending ≡ some (not (expected (replies_with r d) w.tracker)))
is_not_pending_navigation-answer frame_id f t r during d k v e =
    let o = is_pending_navigation (replies_with r d) t in
    let judged =
      judge_pending-answer o (dialogs_after during d) (expected (replies_with r d) o.2)
        (ground (arith, known frame_id f t r during d k, e))
        (is_pending_navigation-expected (replies_with r d) t v) in
    (
      ground (arith, known frame_id f t r during d k, judged.0),
      ground (
        arith,
        known frame_id f t r during d k,
        judged.1,
        judge_pending-tracker o (dialogs_after during d),
      ),
    )

-- When a dialog with a text is open after the navigation tracker has answered, the standard
-- response to the status of IsNotPendingNavigation has the error "unexpected alert open", and
-- "data.text" is the text of the dialog.
pub is_not_pending_navigation-response :
    {V D : Type 0} (api : Values V D) (frame_id : String) (f : FrameTracker) (t : NavigationTracker)
    (r : PendingReplies) (during : Events) (d : Dialogs) (text trace : String) (value : Option V)
    → has_frame frame_id f ≡ true
    → is_error (is_pending_navigation (replies_with r d) t).0 ≡ false
    → get_dialog_message (dialogs_after during d) ≡ done (some text)
    → is_empty text ≡ false
    → (prepare_standard_response api
        (is_not_pending_navigation frame_id f t r during d).result
        trace
        value).body
      ≡ error_body "unexpected alert open" (alert_message text) trace (some text)
unfolding prepare_standard_response status_code_to_string
is_not_pending_navigation-response api frame_id f t r during d text trace value k e g n = ground (
  arith,
  known frame_id f t r during d k,
  judge_pending-alert (is_pending_navigation (replies_with r d) t) (dialogs_after during d) text e
      g,
  alert_text-alert_message text,
  code_eq_iff unexpected_alert_open unexpected_alert_open,
)
