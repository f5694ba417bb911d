-- ===== src/FrameTracker/Events.antt =====
-- FrameTracker::OnEvent of chrome/frame_tracker.cc. `write` stands for JSONWriter::Write.
use chromedriver.Base.{
  String, Bool, true, false, ◌&&◌, ◌||◌, not, Option, none, some, [], ◌∷◌, ◌<>◌, ◌==◌,
  if◌then◌else◌, is_some, is_empty,
}
use chromedriver.Dictionary.{string_eq}
use chromedriver.Values.{Values, find_string, find_dict, find_bool, find_string_in}
use chromedriver.Status.{Status, status, status_details, ok, unknown_error}
use chromedriver.FrameTracker.{
  FrameTracker, tracker, View, view, no_targets, find_target, put_target, erase_context, remove,
  mem, detach, release, set_context_id_for_frame,
}

module _ (D : Type 0) where
  mutual
    -- An event with its method, its parameters, and the events that reach the tracker while
    -- AttachChildView runs for it.
    pub data Event : Type 0 where
      event : String → D → Events → Event

    pub data Events : Type 0 where
      no_events : Events
      next : Event → Events → Events

-- What an event asks of the tracker: its parameters are read before anything is changed.
pub data Action : Type 0 where
  nothing : Action
  refuse : String → Action
  set_context : String → String → Action
  drop_context : String → Action
  clear_contexts : Action
  attach_frame : String → Action
  detach_frame : String → Action
  attach_target : String → Action
  detach_target : String → Action

-- CreateChild with the lock of WebViewImplHolder: the child has a tracker of its own.
abbrev child : String → View
child i = view i true false (tracker i [] no_targets [])

abbrev pub put_child : String → FrameTracker → FrameTracker
put_child i (tracker w c m a) = tracker w c (put_target i (child i) m) a

abbrev pub has_target : String → FrameTracker → Bool
has_target i (tracker w c m a) = is_some (find_target i m)

-- The changes, with what the tracker is after the events that arrive while a child is attached.
unfoldable pub perform : Action → (FrameTracker → FrameTracker) → FrameTracker → FrameTracker
perform nothing during t = t
perform (refuse message) during t = t
perform (set_context f i) during t = set_context_id_for_frame f i t
perform (drop_context i) during (tracker w c m a) = tracker w (erase_context i c) m a
perform clear_contexts during (tracker w c m a) = tracker w [] m a
perform (attach_frame f) during (tracker w c m a) = tracker w c m (if mem f a then a else f ∷ a)
perform (detach_frame f) during (tracker w c m a) = tracker w c m (remove f a)
perform (attach_target i) during t =
    if has_target i t then t else release i (during (put_child i t))
perform (detach_target i) during t = detach i t

abbrev pub outcome : Action → Status
outcome (refuse message) = status_details unknown_error message
outcome _ = status ok

module _ {V D : Type 0} (api : Values V D) (write : D → String) where
  open api use {as_dict, find}

  -- The part on "auxData"
  abbrev read_aux : String → String → Option V → Action
  read_aux method i none = nothing
  read_aux method i (some aux) = elim (as_dict aux) [
    | none ↦ refuse (method <> " has invalid 'auxData' value")
    | some d ↦ elim (find_bool api d "isDefault") [
      | none ↦ refuse (method <> " has invalid 'isDefault' value")
      | some b ↦ elim (find_string api d "frameId") [
        | none ↦ refuse (method <> " has invalid 'frameId' value")
        | some f ↦ if b && not (is_empty f) then set_context f i else nothing
      ]
    ]
  ]

  unfoldable pub read_created : String → D → Action
  read_created method params = elim (find_dict api params "context") [
    | none ↦ refuse "Runtime.executionContextCreated missing dict 'context'"
    | some context ↦ elim (find_string api context "uniqueId") [
      | none ↦ refuse (method <> " has invalid 'context': " <> write context)
      | some i ↦ read_aux method i (find context "auxData")
    ]
  ]

  unfoldable pub read_attached : D → Action
  read_attached params = elim (find_string_in api params "targetInfo" "type") [
    | none ↦ refuse "missing target type in Target.attachedToTarget event"
    | some type ↦
        if type == "iframe" || type == "page"
        then elim (find_string_in api params "targetInfo" "targetId") [
          | none ↦ refuse "missing target ID in Target.attachedToTarget event"
          | some i ↦ elim (find_string api params "sessionId") [
            | none ↦ refuse "missing session ID in Target.attachedToTarget event"
            | some s ↦ attach_target i
          ]
        ]
        else nothing
  ]

  abbrev read_string : String → String → (String → Action) → D → Action
  read_string key message act params = elim (find_string api params key) [
    | none ↦ refuse message
    | some f ↦ act f
  ]

  -- The branches of OnEvent up to their changes.
  unfoldable pub action : String → D → Action
  action method params =
      if method == "Runtime.executionContextCreated"
      then read_created method params
      else if method == "Runtime.executionContextDestroyed"
      then read_string "executionContextUniqueId"
          (method <> " contains no unique context id information") drop_context params
      else if method == "Runtime.executionContextsCleared"
      then clear_contexts
      else if method == "Page.frameAttached"
      then read_string "frameId" "missing frameId in Page.frameAttached event" attach_frame params
      else if method == "Page.frameDetached"
      then read_string "frameId" "missing frameId in Page.frameDetached event" detach_frame params
      else if method == "Target.attachedToTarget"
      then read_attached params
      else if method == "Target.detachedFromTarget"
      then elim (find_string api params "targetId") [ none ↦ nothing | some i ↦ detach_target i ]
      else nothing

  unfoldable mutual
    pub on_event : Event D → FrameTracker → FrameTracker
    on_event (event method params during) = perform (action method params) (on_events during)

    pub on_events : Events D → FrameTracker → FrameTracker
    on_events no_events t = t
    on_events (next e es) t = on_events es (on_event e t)

  -- The status that OnEvent returns does not depend on the tracker.
  unfoldable pub on_event_status : Event D → Status
  on_event_status (event method params during) = outcome (action method params)
