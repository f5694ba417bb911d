-- ===== src/FrameTracker/Locks.antt =====
-- The locks of the targets of a frame tracker.
use chromedriver.Base.{
  String, ◌≡◌, refl, Bool, true, false, ◌&&◌, not, none, some, [], ◌==◌, if◌then◌else◌, arith,
  Bool-cases, inl, inr, Option-cases, eq_iff,
}
use chromedriver.Dictionary.{string_eq}
use chromedriver.Values.{Values}
use chromedriver.FrameTracker.{
  FrameTracker, tracker, View, view, plain_view, Targets, no_targets, target, find_target,
  put_target, erase_target, is_locked, is_detached, detach, release, set_context_id_for_frame,
}
use chromedriver.FrameTracker.Events.{
  Event, event, Events, no_events, next, Action, nothing, refuse, set_context, drop_context,
  clear_contexts, attach_frame, detach_frame, attach_target, detach_target, perform, action,
  on_event, on_events, put_child, has_target,
}

find_target-put_target :
    (f g : String) (v : View) (m : Targets)
    → find_target g (put_target f v m) ≡ (if f == g then some v else find_target g m)
unfolding find_target put_target
find_target-put_target f g v no_targets = refl
find_target-put_target f g v (target k w m) =
    ground (arith, eq_iff f g, eq_iff k f, eq_iff k g, find_target-put_target f g v m)

find_target-erase_target :
    (f g : String) (m : Targets)
    → find_target g (erase_target f m) ≡ (if f == g then none else find_target g m)
unfolding find_target erase_target
find_target-erase_target f g no_targets = ground arith
find_target-erase_target f g (target k w m) =
    ground (arith, eq_iff f g, eq_iff k f, eq_iff k g, find_target-erase_target f g m)

-- The tracker has a target for the frame, and its view is locked.
unfoldable pub has_locked : String → FrameTracker → Bool
has_locked f (tracker w c m a) = elim (find_target f m) [ none ↦ false | some v ↦ is_locked v ]

-- The tracker has a target for the frame, and its view is detached, but not locked.
unfoldable pub has_stale : String → FrameTracker → Bool
has_stale f (tracker w c m a) = elim (find_target f m) [
  | none ↦ false
  | some v ↦ is_detached v && not (is_locked v)
]

release-has_locked :
    (i f : String) (t : FrameTracker)
    → (i == f) ≡ false
    → has_locked f t ≡ true
    → has_locked f (release i t) ≡ true
unfolding has_locked release
release-has_locked i f (tracker w c m a) ne h = elim (Option-cases (find_target i m)) [
  | inl e ↦ ground arith
  | inr (view x l d t, e) ↦
      ground
        (arith, find_target-put_target i f (view x false d t) m, find_target-erase_target i f m)
  | inr (plain_view x l d, e) ↦
      ground
        (arith, find_target-put_target i f (plain_view x false d) m, find_target-erase_target i f m)
]

release-has_stale :
    (i f : String) (t : FrameTracker) → has_stale f t ≡ false → has_stale f (release i t) ≡ false
unfolding has_stale release
release-has_stale i f (tracker w c m a) h = elim (Option-cases (find_target i m)) [
  | inl e ↦ ground arith
  | inr (view x l d t, e) ↦
      ground
        (arith, find_target-put_target i f (view x false d t) m, find_target-erase_target i f m)
  | inr (plain_view x l d, e) ↦
      ground
        (arith, find_target-put_target i f (plain_view x false d) m, find_target-erase_target i f m)
]

detach-has_locked :
    (i f : String) (t : FrameTracker) → has_locked f t ≡ true → has_locked f (detach i t) ≡ true
unfolding has_locked detach
detach-has_locked i f (tracker w c m a) h = elim (Option-cases (find_target i m)) [
  | inl e ↦ ground arith
  | inr (view x l d t, e) ↦ ground (
    arith,
    eq_iff i f,
    find_target-put_target i f (view x l true t) m,
    find_target-erase_target i f m,
  )
  | inr (plain_view x l d, e) ↦ ground (
    arith,
    eq_iff i f,
    find_target-put_target i f (plain_view x l true) m,
    find_target-erase_target i f m,
  )
]

detach-has_stale :
    (i f : String) (t : FrameTracker) → has_stale f t ≡ false → has_stale f (detach i t) ≡ false
unfolding has_stale detach
detach-has_stale i f (tracker w c m a) h = elim (Option-cases (find_target i m)) [
  | inl e ↦ ground arith
  | inr (view x l d t, e) ↦
      ground (arith, find_target-put_target i f (view x l true t) m, find_target-erase_target i f m)
  | inr (plain_view x l d, e) ↦
      ground
        (arith, find_target-put_target i f (plain_view x l true) m, find_target-erase_target i f m)
]

put_child-has_locked :
    (i f : String) (t : FrameTracker) → has_locked f t ≡ true → has_locked f (put_child i t) ≡ true
unfolding has_locked
put_child-has_locked i f (tracker w c m a) h =
    ground (arith, find_target-put_target i f (view i true false (tracker i [] no_targets [])) m)

put_child-has_stale :
    (i f : String) (t : FrameTracker) → has_stale f t ≡ false → has_stale f (put_child i t) ≡ false
unfolding has_stale
put_child-has_stale i f (tracker w c m a) h =
    ground (arith, find_target-put_target i f (view i true false (tracker i [] no_targets [])) m)

has_locked-ne :
    (i f : String) (t : FrameTracker)
    → has_target i t ≡ false
    → has_locked f t ≡ true
    → (i == f) ≡ false
unfolding has_locked
has_locked-ne i f (tracker w c m a) n h = ground (arith, eq_iff i f)

perform-has_locked :
    (f : String) (x : Action) (during : FrameTracker → FrameTracker) (t : FrameTracker)
    → ((u : FrameTracker) → has_locked f u ≡ true → has_locked f (during u) ≡ true)
    → has_locked f t ≡ true
    → has_locked f (perform x during t) ≡ true
unfolding perform has_locked set_context_id_for_frame
perform-has_locked f nothing during t k h = h
perform-has_locked f (refuse m) during t k h = h
perform-has_locked f (set_context g i) during (tracker w c m a) k h = h
perform-has_locked f (drop_context i) during (tracker w c m a) k h = h
perform-has_locked f clear_contexts during (tracker w c m a) k h = h
perform-has_locked f (attach_frame g) during (tracker w c m a) k h = h
perform-has_locked f (detach_frame g) during (tracker w c m a) k h = h
perform-has_locked f (attach_target i) during t k h = elim (Bool-cases (has_target i t)) [
  | inl e ↦ rw (e) h
  | inr e ↦ rw (e) (
      release-has_locked i f (during (put_child i t)) (has_locked-ne i f t e h)
        (k (put_child i t) (put_child-has_locked i f t h)))
]
perform-has_locked f (detach_target i) during t k h = detach-has_locked i f t h

perform-has_stale :
    (f : String) (x : Action) (during : FrameTracker → FrameTracker) (t : FrameTracker)
    → ((u : FrameTracker) → has_stale f u ≡ false → has_stale f (during u) ≡ false)
    → has_stale f t ≡ false
    → has_stale f (perform x during t) ≡ false
unfolding perform has_stale set_context_id_for_frame
perform-has_stale f nothing during t k h = h
perform-has_stale f (refuse m) during t k h = h
perform-has_stale f (set_context g i) during (tracker w c m a) k h = h
perform-has_stale f (drop_context i) during (tracker w c m a) k h = h
perform-has_stale f clear_contexts during (tracker w c m a) k h = h
perform-has_stale f (attach_frame g) during (tracker w c m a) k h = h
perform-has_stale f (detach_frame g) during (tracker w c m a) k h = h
perform-has_stale f (attach_target i) during t k h = elim (Bool-cases (has_target i t)) [
  | inl e ↦ rw (e) h
  | inr e ↦ rw (e) (
      release-has_stale i f (during (put_child i t))
        (k (put_child i t) (put_child-has_stale i f t h)))
]
perform-has_stale f (detach_target i) during t k h = detach-has_stale i f t h

module _ {V D : Type 0} (api : Values V D) (write : D → String) where
  mutual
    unfolding on_event

    event-has_locked :
        (f : String) (e : Event D) (t : FrameTracker)
        → has_locked f t ≡ true
        → has_locked f (on_event api write e t) ≡ true
    event-has_locked f (event method params during) t h =
        perform-has_locked f (action api write method params) (on_events api write during) t
          (events-has_locked f during) h

    events-has_locked :
        (f : String) (es : Events D) (t : FrameTracker)
        → has_locked f t ≡ true
        → has_locked f (on_events api write es t) ≡ true
    events-has_locked f no_events t h = h
    events-has_locked f (next e es) t h =
        events-has_locked f es (on_event api write e t) (event-has_locked f e t h)

  mutual
    unfolding on_event

    event-has_stale :
        (f : String) (e : Event D) (t : FrameTracker)
        → has_stale f t ≡ false
        → has_stale f (on_event api write e t) ≡ false
    event-has_stale f (event method params during) t h =
        perform-has_stale f (action api write method params) (on_events api write during) t
          (events-has_stale f during) h

    events-has_stale :
        (f : String) (es : Events D) (t : FrameTracker)
        → has_stale f t ≡ false
        → has_stale f (on_events api write es t) ≡ false
    events-has_stale f no_events t h = h
    events-has_stale f (next e es) t h =
        events-has_stale f es (on_event api write e t) (event-has_stale f e t h)

  -- A target whose view is locked stays with its lock through every event, and through the events
  -- that arrive while the event is handled.
  pub on_event-has_locked :
      (f : String) (e : Event D) (t : FrameTracker)
      → has_locked f t ≡ true
      → has_locked f (on_event api write e t) ≡ true
  on_event-has_locked f e t h = event-has_locked f e t h

  -- No event leaves the tracker with a view that is detached and not locked for a frame for which
  -- it had no such view, whatever events arrive while the event is handled.
  pub on_event-has_stale :
      (f : String) (e : Event D) (t : FrameTracker)
      → has_stale f t ≡ false
      → has_stale f (on_event api write e t) ≡ false
  on_event-has_stale f e t h = event-has_stale f e t h
