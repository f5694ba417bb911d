-- ===== src/NavigationTracker.antt =====
-- chrome/navigation_tracker.h and chrome/navigation_tracker.cc: the loading state of the frames of
-- a page. `loading_state_` is a pointer to an entry of `frame_to_state_map_` or to `dummy_state_`.
-- While a command waits for its reply the client delivers further events to the tracker: a reply
-- carries the events that arrive before it, and these carry the replies to the scripts that they
-- evaluate.
pub mod Commands
pub mod Pointers
pub mod Pending
pub mod Frames
pub mod Navigations
pub mod Runs
use chromedriver.Base.{
  String, Bool, true, false, not, ◌&&◌, ◌||◌, Option, none, some, List, [], ◌∷◌, ◌==◌,
  if◌then◌else◌, is_empty, is_some, find?,
}
use chromedriver.Dictionary.{string_eq, lookup, assign, insert, erase}
use chromedriver.Status.{
  Status, code_eq, status, status_details, status_details_cause, is_error, ok, unknown_error,
  unexpected_alert_open, timeout, aborted_by_navigation, no_such_execution_context, disconnected,
  tab_crashed,
}

pub data LoadingState : Type 0 where
  unknown loading not_loading : LoadingState

pub data Pointer : Type 0 where
  dummy : Pointer
  entry : String → Pointer

pub record NavigationTracker : Type 0 where
  pub top_frame_id : String
  pub current_frame_id : String
  -- what `client_->IsMainPage()` answers; it is fixed before the client is connected
  pub is_main_page : Bool
  pub is_eager : Bool
  pub timed_out : Bool
  pub frame_to_state_map : List (String × LoadingState)
  pub loading_state : Pointer
  pub dummy_state : LoadingState

mutual
  -- An event with its method, the string under "frameId" if there is one, and the reply to the
  -- script that the tracker evaluates when it handles the event.
  pub data Event : Type 0 where
    event : String → Option String → Evaluation → Event

  -- What EvaluateScript does: the events that it delivers, its status, and its result.
  pub data Evaluation : Type 0 where
    evaluation : Events → Status → String → Evaluation

  pub data Events : Type 0 where
    no_events : Events
    next : Event → Events → Events

-- kTargetClosedMessage
abbrev pub target_closed_message : String
target_closed_message = "Inspected target navigated or closed"

abbrev pub mentions : String → String → Bool
mentions text part = is_some (find? text part)

-- MakeNavigationCheckFailedStatus
unfoldable pub check_failed : Status → Status
check_failed command_status =
    if code_eq command_status.code unexpected_alert_open
      || code_eq command_status.code timeout
      || code_eq command_status.code aborted_by_navigation
      || code_eq command_status.code no_such_execution_context
      || code_eq command_status.code disconnected
      || code_eq command_status.code tab_crashed
    then command_status
    else status_details_cause unknown_error "cannot determine loading status" command_status

-- `*loading_state_`. A read through a pointer to an erased entry would be undefined: `Pointers` shows
-- that there is none.
abbrev pub load : NavigationTracker → LoadingState
load t = elim t.loading_state [
  | dummy ↦ t.dummy_state
  | entry k ↦ elim (lookup k t.frame_to_state_map) [ none ↦ t.dummy_state | some s ↦ s ]
]

-- `*loading_state_ = s`
unfoldable pub store : LoadingState → NavigationTracker → NavigationTracker
store s t = elim t.loading_state [
  | dummy ↦ record t { dummy_state = s }
  | entry k ↦ record t { frame_to_state_map = assign k s t.frame_to_state_map }
]

abbrev pub has_current_frame : NavigationTracker → Bool
has_current_frame t = not (is_empty t.current_frame_id)

unfoldable pub get_loading_state : NavigationTracker → LoadingState
get_loading_state t = if not (has_current_frame t) || t.timed_out then not_loading else load t

abbrev pub is_loading : LoadingState → Bool
is_loading loading = true
is_loading _ = false

abbrev pub is_unknown : LoadingState → Bool
is_unknown unknown = true
is_unknown _ = false

abbrev pub is_not_loading : LoadingState → Bool
is_not_loading not_loading = true
is_not_loading _ = false

unfoldable pub set_current_frame_invalid : NavigationTracker → NavigationTracker
set_current_frame_invalid t = record t { current_frame_id = ""; loading_state = dummy }

unfoldable pub init_current_frame : LoadingState → NavigationTracker → NavigationTracker
init_current_frame s t = record t {
  current_frame_id = t.top_frame_id;
  frame_to_state_map = insert t.top_frame_id s t.frame_to_state_map;
  loading_state = entry t.top_frame_id;
}

unfoldable pub clear_frame_states : NavigationTracker → NavigationTracker
clear_frame_states t = record (set_current_frame_invalid t) { frame_to_state_map = [] }

-- The constructors; the indeterminate value of `dummy_state_` is an argument.
unfoldable pub new_tracker : String → Bool → LoadingState → Bool → LoadingState → NavigationTracker
new_tracker id is_main_page known_state is_eager indeterminate =
    init_current_frame known_state (record {
      top_frame_id = id;
      current_frame_id = "";
      is_main_page = is_main_page;
      is_eager = is_eager;
      timed_out = false;
      frame_to_state_map = [];
      loading_state = dummy;
      dummy_state = indeterminate;
    })

unfoldable pub set_timed_out : Bool → NavigationTracker → NavigationTracker
set_timed_out b t = record t { timed_out = b }

unfoldable pub set_frame : String → NavigationTracker → NavigationTracker
set_frame new_frame_id t =
    let id = if is_empty new_frame_id then t.top_frame_id else new_frame_id in
    elim (lookup id t.frame_to_state_map) [
      | none ↦ set_current_frame_invalid (record t { current_frame_id = id })
      | some s ↦ record t { current_frame_id = id; loading_state = entry id }
    ]

unfoldable pub on_connected : NavigationTracker → Status × NavigationTracker
on_connected t = (status ok, init_current_frame unknown (clear_frame_states t))

abbrev pub missing_frame_id : Status
missing_frame_id = status_details unknown_error "missing or invalid 'frameId'"

-- The branches of OnEvent below the first one.
unfoldable pub on_frame_event :
    String → Option String → NavigationTracker → Status × NavigationTracker
on_frame_event method frame_id t =
    if method == "Page.frameAttached"
    then elim frame_id [
      | none ↦ (missing_frame_id, t)
      | some f ↦
          (status ok, record t { frame_to_state_map = assign f unknown t.frame_to_state_map })
    ]
    else if method == "Page.frameDetached"
    then elim frame_id [
      | none ↦ (missing_frame_id, t)
      | some f ↦
          let t' = if f == t.current_frame_id then set_current_frame_invalid t else t in
          (status ok, record t' { frame_to_state_map = erase f t'.frame_to_state_map })
    ]
    else if method == "Page.frameStartedLoading"
    then elim frame_id [
      | none ↦ (missing_frame_id, t)
      | some f ↦
          (status ok, record t { frame_to_state_map = assign f loading t.frame_to_state_map })
    ]
    else if method == "Page.frameStoppedLoading"
    then elim frame_id [
      | none ↦ (missing_frame_id, t)
      | some f ↦
          (status ok, record t { frame_to_state_map = assign f not_loading t.frame_to_state_map })
    ]
    else if method == "Inspector.targetCrashed"
    then (status ok, init_current_frame not_loading (clear_frame_states t))
    else (status ok, t)

-- The condition of the first branch of OnEvent.
abbrev pub ends_loading : NavigationTracker → String → Bool
ends_loading t method =
    t.is_main_page
    && (method == "Page.loadEventFired" || (t.is_eager && method == "Page.domContentEventFired"))

-- The part of UpdateCurrentLoadingState behind the evaluation.
unfoldable pub judge_ready_state : Status → String → NavigationTracker → Status × NavigationTracker
judge_ready_state s ready_state t =
    if is_not_loading (get_loading_state t)
    then (status ok, t)
    else if code_eq s.code no_such_execution_context
    then (status ok, store loading t)
    else if is_error s
    then (check_failed s, t)
    else if ready_state == "complete" || (t.is_eager && ready_state == "interactive")
    then (status ok, store not_loading t)
    else (status ok, store loading t)

unfoldable mutual
  -- UpdateCurrentLoadingState
  pub update_current_loading_state : Evaluation → NavigationTracker → Status × NavigationTracker
  update_current_loading_state (evaluation events s ready_state) t =
      let judged = judge_ready_state s ready_state (deliver events t) in
      if has_current_frame t then judged else (status ok, t)

  -- OnEvent
  pub on_event : Event → NavigationTracker → Status × NavigationTracker
  on_event (event method frame_id reply) t =
      let updated = update_current_loading_state reply (record t {
        frame_to_state_map = assign t.top_frame_id not_loading t.frame_to_state_map;
      }) in
      if ends_loading t method then updated else on_frame_event method frame_id t

  -- The events that arrive while a command waits.
  pub deliver : Events → NavigationTracker → NavigationTracker
  deliver no_events t = t
  deliver (next e rest) t = deliver rest (on_event e t).1
