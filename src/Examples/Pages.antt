-- ===== src/Examples/Pages.antt =====
-- The pages of a tab at concrete events.
use chromedriver.Base.{◌≡◌, refl, true, false, [], ◌∷◌}
use chromedriver.Dictionary.{string_eq, lookup}
use chromedriver.PageTracker.{PageTracker, event, Events, no_events, next, on_events}
use chromedriver.PageTracker.Locked.{has_locked, on_events-has_locked}
use chromedriver.Examples.Json.{Dict, bool, string, dict, nil, entry, json}

-- A tab whose page is locked by a command
abbrev held : PageTracker
held = record {
  active_page = "Q";
  page_to_target_map = ("Q", record { is_locked = true; is_detached = false }) ∷ [];
}

abbrev attached : Dict
attached = entry "sessionId" (string "S") (
    entry "targetInfo"
      (dict (
        entry "targetId" (string "P")
          (entry "type" (string "page") (entry "attached" (bool true) nil))))
      nil)

-- The locked page is detached while another one is being attached.
abbrev gone : Events Dict
gone =
    next (event "Target.detachedFromTarget" (entry "targetId" (string "Q") nil) no_events) no_events

abbrev events : Events Dict
events = next (event "Target.attachedToTarget" attached gone) no_events

on_events-has_locked_example : has_locked "Q" (on_events json events held) ≡ true
unfolding lookup
on_events-has_locked_example = on_events-has_locked json "Q" events held refl
