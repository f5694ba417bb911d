-- ===== src/Windows/Runs.antt =====
-- What a window command reports, and how often it runs.
use chromedriver.Base.{String, ◌≡◌, ◌⊎◌, Bool, false, ◌||◌, none, some}
use chromedriver.Values.{Values}
use chromedriver.Status.{StatusCode, Status, code_eq, unexpected_alert_open_keep}
use chromedriver.PromptBehavior.{Configuration, PromptBehavior}
use chromedriver.Result.{Result, done, fail}
use chromedriver.Windows.{
  Session, View, Stop, Verdict, returns, is_navigation_hint, handled, answer_dialog,
}

-- The codes that only the driver itself reads
unfoldable pub is_internal : StatusCode → Bool
is_internal c = is_navigation_hint c || code_eq c unexpected_alert_open_keep

module _ {V D W : Type 0} (api : Values V D) (web : View V W) where
  open web use {
    get_target_window, handle_received_events, wait_for_pending_navigations, is_pending_navigation,
  }

  -- The status is what a call of the web view answers, or the answer to a dialog.
  abbrev pub FromView : Status → Type 0
  FromView e =
      ((s : Session V W) × (e ≡ get_target_window s))
      ⊎ ((s : Session V W) × (e ≡ (handle_received_events s).0))
      ⊎ ((accepts : Bool) × (s : Session V W) × (e ≡ (handled api web accepts s).0))
      ⊎ ((frame : String) × (s : Session V W) × (e ≡ (wait_for_pending_navigations frame s).0))
      ⊎ ((s : Session V W) × (e ≡ (is_pending_navigation s).0))

  -- The status is not internal, or it is one of the web view.
  abbrev pub Reported : Status → Type 0
  Reported e = (is_internal e.code ≡ false) ⊎ FromView e

  -- A status that is returned at once is such.
  abbrev Stopped : Stop → Type 0
  Stopped none = Unit
  Stopped (some e) = Reported e

  abbrev Judged : Verdict → Type 0
  Judged (returns e) = Reported e
  Judged _ = Unit

  abbrev typed : String → Session V W → Result Configuration → Stop × Session V W
  typed text s (fail e) = (some e, s)
  typed text s (done c) = answer_dialog api web c text s
