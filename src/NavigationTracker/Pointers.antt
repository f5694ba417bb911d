-- ===== src/NavigationTracker/Pointers.antt =====
-- `loading_state_` never dangles.
use chromedriver.Base.{
  String, ◌≡◌, refl, true, Option, none, some, arith, ◌==◌, if◌then◌else◌, if_elim,
}
use chromedriver.Dictionary.{
  string_eq, assign, erase, contains, contains-assign_self, contains-assign, contains-insert_self,
  contains-erase,
}
use chromedriver.Status.{Status}
use chromedriver.NavigationTracker.{
  NavigationTracker, LoadingState, Pointer, dummy, entry, Event, Evaluation, Events, event,
  evaluation, no_events, next, store, set_current_frame_invalid, init_current_frame,
  clear_frame_states, set_frame, on_frame_event, judge_ready_state, on_event, deliver,
  update_current_loading_state, loading, not_loading, unknown, ends_loading, has_current_frame,
}

-- The pointer is to the entry of the current frame, which is there, or the frame is invalid.
abbrev PointsTo : NavigationTracker → Pointer → Type 0
PointsTo t dummy = t.current_frame_id ≡ ""
PointsTo t (entry k) =
    (k ≡ t.current_frame_id) × (contains t.current_frame_id t.frame_to_state_map ≡ true)

abbrev pub IsValid : NavigationTracker → Type 0
IsValid t = PointsTo t t.loading_state

abbrev Valid : Status × NavigationTracker → Type 0
Valid (s, t) = IsValid t

pub store-IsValid : (s : LoadingState) (t : NavigationTracker) → IsValid t → IsValid (store s t)
unfolding store
store-IsValid s t h = ground (arith, contains-assign_self t.current_frame_id s t.frame_to_state_map)

pub init_current_frame-IsValid :
    (s : LoadingState) (t : NavigationTracker) → IsValid (init_current_frame s t)
unfolding init_current_frame
init_current_frame-IsValid s t = (refl, contains-insert_self t.top_frame_id s t.frame_to_state_map)

judge_ready_state-IsValid :
    (s : Status) (r : String) (t : NavigationTracker)
    → IsValid t
    → IsValid (judge_ready_state s r t).1
unfolding judge_ready_state
judge_ready_state-IsValid s r t h =
    ground (arith, store-IsValid loading t h, store-IsValid not_loading t h)

-- A write into the map keeps the entry of the current frame.
assign-IsValid :
    (f : String) (s : LoadingState) (t : NavigationTracker)
    → IsValid t
    → IsValid (record t { frame_to_state_map = assign f s t.frame_to_state_map })
assign-IsValid f s t h = ground (arith, contains-assign f t.current_frame_id s t.frame_to_state_map)

detach-IsValid :
    (f : String) (t : NavigationTracker)
    → IsValid t
    → let t' = if f == t.current_frame_id then set_current_frame_invalid t else t in
      IsValid (record t' { frame_to_state_map = erase f t'.frame_to_state_map })
unfolding set_current_frame_invalid
detach-IsValid f t h = ground (arith, contains-erase f t.current_frame_id t.frame_to_state_map)

on_frame_event-IsValid :
    (method : String) (f : Option String) (t : NavigationTracker)
    → IsValid t
    → IsValid (on_frame_event method f t).1
unfolding on_frame_event
on_frame_event-IsValid method none t h =
    ground (arith, init_current_frame-IsValid not_loading (clear_frame_states t))
on_frame_event-IsValid method (some f) t h = ground (
  arith,
  assign-IsValid f unknown t h,
  assign-IsValid f loading t h,
  assign-IsValid f not_loading t h,
  detach-IsValid f t h,
  init_current_frame-IsValid not_loading (clear_frame_states t),
)

pub set_frame-IsValid : (f : String) (t : NavigationTracker) → IsValid (set_frame f t)
unfolding set_frame set_current_frame_invalid
set_frame-IsValid f t = ground arith

mutual
  unfolding on_event

  pub update-IsValid :
      (e : Evaluation) (t : NavigationTracker)
      → IsValid t
      → IsValid (update_current_loading_state e t).1
  update-IsValid (evaluation events s r) t h =
      if_elim Valid (has_current_frame t)
        (λ _. judge_ready_state-IsValid s r (deliver events t) (deliver-IsValid events t h))
        (λ _. h)

  pub on_event-IsValid : (e : Event) (t : NavigationTracker) → IsValid t → IsValid (on_event e t).1
  on_event-IsValid (event method f e) t h =
      if_elim Valid (ends_loading t method)
        (λ _. update-IsValid e _ (assign-IsValid t.top_frame_id not_loading t h))
        (λ _. on_frame_event-IsValid method f t h)

  pub deliver-IsValid : (e : Events) (t : NavigationTracker) → IsValid t → IsValid (deliver e t)
  deliver-IsValid no_events t h = h
  deliver-IsValid (next e rest) t h = deliver-IsValid rest (on_event e t).1 (on_event-IsValid e t h)
