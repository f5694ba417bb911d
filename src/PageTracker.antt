-- ===== src/PageTracker.antt =====
-- chrome/page_tracker.h and chrome/page_tracker.cc: the pages of a tab and the one that is active,
-- with the type of a target of chrome/web_view_info.cc. A view is its lock and whether it was
-- detached.
pub mod Locked
use chromedriver.Base.{
  String, Bool, true, false, ◌&&◌, Option, none, some, List, [], ◌==◌, if◌then◌else◌, is_empty,
  is_some,
}
use chromedriver.Dictionary.{lookup, contains, assign, erase, string_eq}
use chromedriver.Values.{Values, find_string, find_dict, find_bool, find_string_in}
use chromedriver.Result.{Result, done, fail}
use chromedriver.Status.{Status, status, status_details, ok, unknown_error, no_active_page}

pub record Page : Type 0 where
  pub is_locked : Bool
  pub is_detached : Bool

pub record PageTracker : Type 0 where
  pub active_page : String
  pub page_to_target_map : List (String × Page)

abbrev pub new_tracker : PageTracker
new_tracker = record { active_page = ""; page_to_target_map = [] }

abbrev pub has_page : String → PageTracker → Bool
has_page i t = contains i t.page_to_target_map

module _ (D : Type 0) where
  mutual
    -- An event with its method, its parameters, and the events that reach the tracker while
    -- AttachChildView runs for it.
    pub data Event : Type 0 where
      event : String → D → Events → Event

    pub data Events : Type 0 where
      no_events : Events
      next : Event → Events → Events

-- What an event asks of the tracker; a page that is created may be activated at once.
pub data Action : Type 0 where
  nothing : Action
  refuse : String → Action
  create_page : String → Bool → Action
  activate_page disconnect_page : String → Action

-- OnPageActivated
unfoldable pub activate : String → PageTracker → PageTracker
activate i t = if has_page i t then record t { active_page = i } else t

abbrev pub removed : String → Page → List (String × Page) → List (String × Page)
removed i p m = if p.is_locked then assign i (record p { is_detached = true }) m else erase i m

abbrev pub gone : String → Page → PageTracker → PageTracker
gone i p t = record {
  active_page = if t.active_page == i then "" else t.active_page;
  page_to_target_map = removed i p t.page_to_target_map;
}

-- OnPageDisconnected
unfoldable pub disconnect : String → PageTracker → PageTracker
disconnect i t = elim (lookup i t.page_to_target_map) [ none ↦ t | some p ↦ gone i p t ]

-- DeletePage
unfoldable pub delete_page : String → PageTracker → PageTracker
delete_page i t = record t { page_to_target_map = erase i t.page_to_target_map }

abbrev pub put_page : String → PageTracker → PageTracker
put_page i t = record t {
  page_to_target_map =
      assign i (record { is_locked = false; is_detached = false }) t.page_to_target_map;
}

-- OnPageCreated, with what the tracker is after the events that arrive while the page is attached
unfoldable pub create : String → (PageTracker → PageTracker) → PageTracker → PageTracker
create i during t = if has_page i t then t else during (put_page i t)

unfoldable pub perform : Action → (PageTracker → PageTracker) → PageTracker → PageTracker
perform nothing during t = t
perform (refuse message) during t = t
perform (create_page i false) during t = create i during t
perform (create_page i true) during t = activate i (create i during t)
perform (activate_page i) during t = activate i t
perform (disconnect_page i) during t = disconnect i t

abbrev outcome : Action → Status
outcome (refuse message) = status_details unknown_error message
outcome _ = status ok

-- GetActivePage
unfoldable pub get_active_page : PageTracker → Result String
get_active_page t =
    if is_empty t.active_page
    then fail (status_details no_active_page "active page not found")
    else if has_page t.active_page t
    then done t.active_page
    else fail (status_details no_active_page "active page not found")

-- IsPendingActivePage
abbrev pub is_pending_active_page : PageTracker → Bool
is_pending_active_page t = is_empty t.active_page

module _ {V D : Type 0} (api : Values V D) where
  -- `Dict::FindBoolByDottedPath` with a path of two parts
  abbrev find_bool_in : D → String → String → Option Bool
  find_bool_in d j k = elim (find_dict api d j) [ none ↦ none | some e ↦ find_bool api e k ]

  abbrev none_or_empty : Option String → Bool
  none_or_empty none = true
  none_or_empty (some s) = is_empty s

  abbrev is_true : Option Bool → Bool
  is_true none = false
  is_true (some b) = b

  -- The test whether the page of an event is activated
  abbrev is_activated : D → Bool
  is_activated params =
      is_true (find_bool_in params "targetInfo" "attached")
      && none_or_empty (find_string_in api params "targetInfo" "subtype")

  unfoldable pub read_attached : D → Action
  read_attached params = elim (find_string api params "sessionId") [
    | none ↦ refuse "missing session ID in Target.attachedToTarget event"
    | some s ↦ elim (find_string_in api params "targetInfo" "targetId") [
      | none ↦ refuse "missing target ID in Target.attachedToTarget event"
      | some i ↦ elim (find_string_in api params "targetInfo" "type") [
        | none ↦ refuse "missing target type in Target.attachedToTarget event"
        | some type ↦
            if is_empty type
            then refuse "unknown target page type in Target.attachedToTarget event"
            else create_page i (is_activated params)
      ]
    ]
  ]

  unfoldable pub read_changed : D → Action
  read_changed params = elim (find_string_in api params "targetInfo" "targetId") [
    | none ↦ refuse "missing target ID in Target.attachedToTarget event"
    | some i ↦ if is_activated params then activate_page i else nothing
  ]

  -- The branches of OnEvent up to their changes; ParseType fails only for an empty text.
  unfoldable pub action : String → D → Action
  action method params =
      if method == "Target.attachedToTarget"
      then read_attached params
      else if method == "Target.targetInfoChanged"
      then read_changed params
      else if method == "Target.detachedFromTarget"
      then elim (find_string api params "targetId") [
        | none ↦ refuse "missing target ID in Target.detachedFromTarget event"
        | some i ↦ disconnect_page i
      ]
      else nothing

  unfoldable mutual
    pub on_event : Event D → PageTracker → PageTracker
    on_event (event method params during) = perform (action method params) (on_events during)

    pub on_events : Events D → PageTracker → PageTracker
    on_events no_events t = t
    on_events (next e es) t = on_events es (on_event e t)

  -- The status that OnEvent returns
  unfoldable pub on_event_status : Event D → Status
  on_event_status (event method params during) = outcome (action method params)
