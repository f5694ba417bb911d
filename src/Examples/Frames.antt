-- ===== src/Examples/Frames.antt =====
-- A frame tracker with a child target at concrete events.
use chromedriver.Base.{◌≡◌, refl, true, false, [], ◌∷◌}
use chromedriver.FrameTracker.{FrameTracker, tracker, view, no_targets, target, find_target}
use chromedriver.FrameTracker.Events.{Event, event, no_events, next, on_event}
use chromedriver.FrameTracker.Locks.{has_locked, on_event-has_locked}
use chromedriver.Examples.Json.{Dict, bool, string, dict, nil, entry, json}

abbrev pub frames : FrameTracker
frames =
    tracker "top" (("top", "c1") ∷ [])
      (target "child"
        (view "child" true false (tracker "child" (("inner", "c2") ∷ []) no_targets [])) no_targets)
      ("top" ∷ [])

abbrev aux : Dict
aux = entry "isDefault" (bool true) (entry "frameId" (string "child") nil)

abbrev context : Dict
context = entry "uniqueId" (string "c9") (entry "auxData" (dict aux) nil)

abbrev created : Dict
created = entry "context" (dict context) nil

-- The child target is detached while another target is attached.
abbrev attaching : Event Dict
attaching =
    event "Target.attachedToTarget"
      (entry "targetInfo"
        (dict (entry "type" (string "iframe") (entry "targetId" (string "other") nil)))
        (entry "sessionId" (string "s") nil))
      (next (event "Target.detachedFromTarget" (entry "targetId" (string "other") nil) no_events)
        no_events)

on_event-has_locked_example : has_locked "child" (on_event json (λ d. "") attaching frames) ≡ true
unfolding has_locked find_target
on_event-has_locked_example = on_event-has_locked json (λ d. "") "child" attaching frames refl
