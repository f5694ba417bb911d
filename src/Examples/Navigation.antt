-- ===== src/Examples/Navigation.antt =====
-- The navigation tracker of a page "top" at concrete calls.
use chromedriver.Base.{String, ◌≡◌, refl, true, false, Option, none, some, [], ◌∷◌, ℤ}
use chromedriver.Dictionary.{string_eq, lookup}
use chromedriver.Status.{status, ok, code_eq}
use chromedriver.NavigationTracker.{
  NavigationTracker, event, evaluation, no_events, new_tracker, loading, unknown, get_loading_state,
  entry, is_not_loading, deliver,
}
use chromedriver.NavigationTracker.Pointers.{IsValid}
use chromedriver.NavigationTracker.Pending.{expected, is_pending_navigation-expected}
use chromedriver.NavigationTracker.Navigations.{on_command_success_waits}
use chromedriver.NavigationTracker.Runs.{
  sets_frame, receives, connects, run, run-new_tracker-IsValid,
}
use chromedriver.NavigationTracker.Commands.{
  ScriptReply, PendingReplies, is_pending_navigation, on_command_success,
}

abbrev pub page : NavigationTracker
page = record {
  top_frame_id = "top";
  current_frame_id = "top";
  is_main_page = true;
  is_eager = false;
  timed_out = false;
  frame_to_state_map = ("top", loading) ∷ ("child", unknown) ∷ [];
  loading_state = entry "top";
  dummy_state = unknown;
}

abbrev reply : ScriptReply
reply = record { events = no_events; status = status ok; value = some "about:blank" }

abbrev codes : String → Option ℤ
codes s = none

-- A page that is loading stays so while the client asks.
abbrev pub asked : PendingReplies
asked = record {
  is_dialog_open = false;
  probe = record { events = no_events; status = status ok; value_is_one = true };
  document = reply;
  node = record {
    events = no_events;
    status = status ok;
    base_url = some "about:blank";
    document_url = some "about:blank";
  };
  ready_state = evaluation no_events (status ok) "complete";
}

run-new_tracker-IsValid_example : IsValid (
    run codes
      (connects
        ∷ receives (event "Page.frameAttached" (some "child") (evaluation no_events (status ok) ""))
        ∷ sets_frame "child"
        ∷ receives (event "Page.frameDetached" (some "child") (evaluation no_events (status ok) ""))
        ∷ [])
      (new_tracker "top" true unknown false unknown))
run-new_tracker-IsValid_example = run-new_tracker-IsValid codes "top" true unknown false unknown (
    connects
    ∷ receives (event "Page.frameAttached" (some "child") (evaluation no_events (status ok) ""))
    ∷ sets_frame "child"
    ∷ receives (event "Page.frameDetached" (some "child") (evaluation no_events (status ok) ""))
    ∷ [])

is_pending_navigation-expected_example :
    (is_pending_navigation asked page).1
    ≡ some (expected asked (is_pending_navigation asked page).2)
unfolding is_pending_navigation get_loading_state lookup code_eq deliver
is_pending_navigation-expected_example = is_pending_navigation-expected asked page (refl, refl) refl

on_command_success_waits_example :
    is_not_loading (
      get_loading_state
        (on_command_success codes "Page.navigate" none false reply (λ n. reply) page).1)
    ≡ false
unfolding lookup
on_command_success_waits_example =
    on_command_success_waits codes "Page.navigate" reply (λ n. reply) page (refl, refl) refl refl
      refl (λ n. refl)
