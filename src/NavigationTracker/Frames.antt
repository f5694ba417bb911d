-- ===== src/NavigationTracker/Frames.antt =====
-- What each event does to the state of the current frame.
use chromedriver.Base.{
  String, ◌≡◌, refl, true, false, not, ◌&&◌, Option, some, arith, ◌==◌, if◌then◌else◌, eq_iff,
  eq_refl, Bool-cases, inl, inr,
}
use chromedriver.Dictionary.{string_eq, assign, erase, contains, lookup-assign, lookup-erase}
use chromedriver.Status.{Status, status, ok}
use chromedriver.NavigationTracker.{
  NavigationTracker, LoadingState, Evaluation, event, evaluation, no_events,
  set_current_frame_invalid, on_frame_event, judge_ready_state, on_event, loading, not_loading,
  unknown, has_current_frame, get_loading_state,
}
use chromedriver.NavigationTracker.Pointers.{IsValid}

pub data FrameChange : Type 0 where
  attached started stopped : FrameChange

abbrev pub method_of : FrameChange → String
method_of attached = "Page.frameAttached"
method_of started = "Page.frameStartedLoading"
method_of stopped = "Page.frameStoppedLoading"

abbrev pub state_of : FrameChange → LoadingState
state_of attached = unknown
state_of started = loading
state_of stopped = not_loading

get_loading_state-assign :
    (f : String) (s : LoadingState) (t : NavigationTracker)
    → IsValid t
    → get_loading_state (record t { frame_to_state_map = assign f s t.frame_to_state_map }) ≡ (
        if f == t.current_frame_id && has_current_frame t && not t.timed_out
        then s
        else get_loading_state t)
unfolding get_loading_state
get_loading_state-assign f s t h =
    ground (
      arith,
      lookup-assign f t.current_frame_id s t.frame_to_state_map,
      eq_iff t.current_frame_id "",
    )

-- A frame that is attached, starts or stops loading changes the state that the tracker reports
-- exactly when it is the current frame and no timeout is set, and then to the state of the event.
pub get_loading_state-on_event :
    (c : FrameChange) (f : String) (e : Evaluation) (t : NavigationTracker)
    → IsValid t
    → get_loading_state (on_event (event (method_of c) (some f) e) t).1 ≡ (
        if f == t.current_frame_id && has_current_frame t && not t.timed_out
        then state_of c
        else get_loading_state t)
unfolding on_event on_frame_event
get_loading_state-on_event attached f e t h = ground (arith, get_loading_state-assign f unknown t h)
get_loading_state-on_event started f e t h = ground (arith, get_loading_state-assign f loading t h)
get_loading_state-on_event stopped f e t h =
    ground (arith, get_loading_state-assign f not_loading t h)

get_loading_state-erase :
    (f : String) (t : NavigationTracker)
    → IsValid t
    → let t' = if f == t.current_frame_id then set_current_frame_invalid t else t in
      get_loading_state (record t' { frame_to_state_map = erase f t'.frame_to_state_map })
      ≡ (if f == t.current_frame_id then not_loading else get_loading_state t)
unfolding set_current_frame_invalid get_loading_state
get_loading_state-erase f t h = elim (Bool-cases (f == t.current_frame_id)) [
  | inl same ↦ rw same refl
  | inr other ↦ rw other (
      ground (
        arith,
        lookup-erase f t.current_frame_id t.frame_to_state_map,
        eq_iff t.current_frame_id "",
      ))
]

-- A detached frame is forgotten. If it was the current frame there is none from then on, and else the
-- current frame and its state stay.
pub on_event_detached :
    (f : String) (e : Evaluation) (t : NavigationTracker)
    → IsValid t
    → let t' = (on_event (event "Page.frameDetached" (some f) e) t).1 in
      (contains f t'.frame_to_state_map ≡ false)
      × (t'.current_frame_id ≡ (if f == t.current_frame_id then "" else t.current_frame_id))
      × (get_loading_state t'
          ≡ (if f == t.current_frame_id then not_loading else get_loading_state t))
unfolding on_event on_frame_event set_current_frame_invalid
on_event_detached f e t h = (
  ground (arith, lookup-erase f f t.frame_to_state_map, eq_refl f),
  ground arith,
  ground (arith, get_loading_state-erase f t h),
)

get_loading_state-no_frame :
    (t : NavigationTracker) → has_current_frame t ≡ false → get_loading_state t ≡ not_loading
unfolding get_loading_state
get_loading_state-no_frame t h = ground arith

get_loading_state_timed_out :
    (t : NavigationTracker) → t.timed_out ≡ true → get_loading_state t ≡ not_loading
unfolding get_loading_state
get_loading_state_timed_out t h = ground arith

-- The load event of a main page ends the loading of its top frame, whatever the evaluation of
-- document.readyState says, provided that no other event arrives meanwhile.
pub on_event_loaded :
    (f : Option String) (s : Status) (ready_state : String) (t : NavigationTracker)
    → IsValid t
    → t.is_main_page ≡ true
    → t.current_frame_id ≡ t.top_frame_id
    → ((on_event (event "Page.loadEventFired" f (evaluation no_events s ready_state)) t).0
        ≡ status ok)
      × (get_loading_state
            (on_event (event "Page.loadEventFired" f (evaluation no_events s ready_state)) t).1
          ≡ not_loading)
unfolding on_event judge_ready_state
on_event_loaded f s r t h m c = ground (
  arith,
  get_loading_state-assign t.top_frame_id not_loading t h,
  get_loading_state-no_frame
      (record t { frame_to_state_map = assign t.top_frame_id not_loading t.frame_to_state_map }),
  get_loading_state_timed_out
      (record t { frame_to_state_map = assign t.top_frame_id not_loading t.frame_to_state_map }),
  eq_iff t.top_frame_id t.current_frame_id,
)
