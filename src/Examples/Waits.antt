-- ===== src/Examples/Waits.antt =====
-- A web view with the trackers and the dialogs of the other examples.
use chromedriver.Base.{◌≡◌, refl, false, not, none, some}
use chromedriver.Dictionary.{lookup}
use chromedriver.Status.{code_eq}
use chromedriver.FrameTracker.{is_known_frame, find_target}
use chromedriver.NavigationTracker.{deliver, get_loading_state}
use chromedriver.NavigationTracker.Pending.{expected}
use chromedriver.NavigationTracker.Commands.{is_pending_navigation}
use chromedriver.Dialogs.{
  is_dialog_open, no_events, get_dialog_message, on_events, handle_dialog_opening,
}
use chromedriver.HttpHandler.Response.{error_body, prepare_standard_response}
use chromedriver.HttpHandler.AlertText.{alert_message}
use chromedriver.WebView.{replies_with, judge_pending, is_not_pending_navigation}
use chromedriver.WebView.Waits.{
  is_not_pending_navigation-answer, is_not_pending_navigation-response,
}
use chromedriver.Examples.Json.{json}
use chromedriver.Examples.Navigation.{page, asked}
use chromedriver.Examples.Dialogs.{none_open, prompts}
use chromedriver.Examples.Frames.{frames}

is_not_pending_navigation-answer_example :
    let w = is_not_pending_navigation "inner" frames page asked no_events none_open in
    (is_dialog_open w.dialogs ≡ false)
    × (w.is_not_pending ≡ some (not (expected (replies_with asked none_open) w.tracker)))
unfolding is_known_frame is_not_pending_navigation is_pending_navigation deliver get_loading_state
    judge_pending code_eq lookup on_events find_target
is_not_pending_navigation-answer_example =
    is_not_pending_navigation-answer "inner" frames page asked no_events none_open refl (refl, refl)
      refl

is_not_pending_navigation-response_example :
    (prepare_standard_response json
      (is_not_pending_navigation "inner" frames page asked prompts none_open).result
      ""
      none).body
    ≡ error_body "unexpected alert open" (alert_message "Name?") "" (some "Name?")
unfolding is_known_frame is_pending_navigation deliver get_loading_state code_eq lookup on_events
    get_dialog_message handle_dialog_opening find_target
is_not_pending_navigation-response_example =
    is_not_pending_navigation-response json "inner" frames page asked prompts none_open "Name?" ""
      none refl refl refl refl
