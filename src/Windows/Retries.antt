-- ===== src/Windows/Retries.antt =====
-- How often a window command runs, and where the last attempt runs.
use chromedriver.Base.{
  ℕ, zero, suc, String, ◌≡◌, refl, ap, ◌∙◌, true, false, Option, none, [], if◌then◌else◌, eqb, ◌≤◌,
  ◌+◌, arith,
}
use chromedriver.Values.{Values}
use chromedriver.Status.{
  Status, status, is_error, code_eq, ok, timeout, StatusCode, code_number, aborted_by_navigation,
  no_such_execution_context, status_cause,
}
use chromedriver.Dialogs.{is_dialog_open}
use chromedriver.Sessions.Frames.{
  Focus, current_frame_id, switch_to_top_frame, switch_frame_internal,
}
use chromedriver.Windows.{
  Session, View, again, is_navigation_hint, final_status, answer_dialog, answer_typed,
  handle_open_dialog, judge, to_top, waited, attempt, finish, execute_window_command,
}

module _ {V D W : Type 0} (api : Values V D) (web : View V W) where
  open web use {
    get_target_window, handle_received_events, wait_for_pending_navigations, is_pending_navigation,
  }

  handle_open_dialog-view : (s : Session V W) → (handle_open_dialog api web s).1.view ≡ s.view
  unfolding handle_open_dialog answer_typed answer_dialog
  handle_open_dialog-view s = ground arith

  to_top-frames : (s : Session V W) → (to_top api web s).focus.frames ≡ []
  unfolding switch_to_top_frame switch_frame_internal
  to_top-frames s = ground arith

  module _ {A : Type 0} (run : Session V W → Option A → Status × Option A × Session V W) where
    module _ (count : W → ℕ)
        (events_count : (s : Session V W) → count (handle_received_events s).1.view ≡ count s.view)
        (wait_count : (frame : String) (s : Session V W)
          → count (wait_for_pending_navigations frame s).1.view ≡ count s.view)
        (pending_count : (s : Session V W) → count (is_pending_navigation s).2.view ≡ count s.view)
        (run_count : (s : Session V W) (value : Option A)
          → count (run s value).2.view ≡ suc (count s.view)) where
      judge-count : (e : Status) (s : Session V W) → count (judge api web e s).1.view ≡ count s.view
      unfolding judge
      judge-count e s = ground (arith, pending_count s)

      attempt-count :
          (n : ℕ) (e : Status) (value : Option A) (s : Session V W)
          → count (attempt api web run n e value s).3.view ≤ n + count s.view
      unfolding attempt
      attempt-count zero e value s = ground arith
      attempt-count (suc n) e value s =
          let x = if eqb n 0 then to_top api web s else s in
          let same : count x.view ≡ count s.view = ground arith in
          let w = waited api web x in
          let r = run w.1 value in
          let j = judge api web r.0 r.2 in
          ground (
            arith,
            same,
            wait_count (current_frame_id x.focus.frames) x,
            run_count w.1 value,
            judge-count r.0 r.2,
            attempt-count n r.0 r.1 j.1,
          )

      -- A window command runs at most three times: `count` is any number that each run of the
      -- command raises by one and that nothing else changes.
      pub execute_window_command-runs :
          (value : Option A) (s : Session V W)
          → count (execute_window_command api web run value s).2.view ≤ 3 + count s.view
      unfolding execute_window_command finish
      execute_window_command-runs value s =
          let t = (handle_received_events s).1 in
          let d = (handle_open_dialog api web t).1 in
          let a = attempt api web run 3 (status ok) value d in
          ground (
            arith,
            events_count s,
            ap count (handle_open_dialog-view t),
            attempt-count 3 (status ok) value d,
            wait_count (current_frame_id a.3.focus.frames) a.3,
          )

    module _
        (hint : (s : Session V W) (value : Option A)
          → is_navigation_hint (run s value).0.code ≡ true)
        (run_focus : (s : Session V W) (value : Option A) → (run s value).2.focus ≡ s.focus)
        (waits : (frame : String) (s : Session V W)
          → is_error (wait_for_pending_navigations frame s).0 ≡ false)
        (wait_focus : (frame : String) (s : Session V W)
          → (wait_for_pending_navigations frame s).1.focus ≡ s.focus) where
      judge-hint :
          (e : Status) (s : Session V W)
          → is_navigation_hint e.code ≡ true
          → judge api web e s ≡ (again, s)
      unfolding judge
      judge-hint e s h = rw h refl

      attempt-again :
          (n : ℕ) (e : Status) (value : Option A) (s : Session V W)
          → let r = run (waited api web (if eqb n 0 then to_top api web s else s)).1 value in
            attempt api web run (suc n) e value s ≡ attempt api web run n r.0 r.1 r.2
      unfolding attempt
      attempt-again n e value s =
          let x = if eqb n 0 then to_top api web s else s in
          let r = run (waited api web x).1 value in
          ground (
            arith,
            waits (current_frame_id x.focus.frames) x,
            judge-hint r.0 r.2 (hint (waited api web x).1 value),
          )

      attempt-hint :
          (n : ℕ) (e : Status) (value : Option A) (s : Session V W)
          → let a = attempt api web run (suc n) e value s in
            (a.0 ≡ none) × (is_navigation_hint a.1.code ≡ true) × (a.3.focus.frames ≡ [])
      unfolding attempt
      attempt-hint zero e value s =
          let x = to_top api web s in
          let w = waited api web x in
          let r = run w.1 value in
          let kept : r.2.focus.frames ≡ [] =
            ap (λ (f : Focus). f.frames)
              (run_focus w.1 value ∙ wait_focus (current_frame_id x.focus.frames) x)
            ∙ to_top-frames s in
          rw (attempt-again 0 e value s) (refl, hint w.1 value, kept)
      attempt-hint (suc n) e value s =
          let r = run (waited api web (if eqb (suc n) 0 then to_top api web s else s)).1 value in
          rw (attempt-again (suc n) e value s) (attempt-hint n r.0 r.1 r.2)

      final_status-hint :
          (c : StatusCode) (message : String) (wait : Status)
          → is_navigation_hint c ≡ true
          → final_status (record { code = c; message = message }) wait
            ≡ status_cause timeout (record { code = c; message = message })
      unfolding final_status is_navigation_hint code_eq code_number
      final_status-hint c message wait =
          elim c
            as (λ (k : StatusCode).
              is_navigation_hint k ≡ true
              → final_status (record { code = k; message = message }) wait
                ≡ status_cause timeout (record { code = k; message = message })) [
                  | no_such_execution_context ↦ λ h. refl
                  | aborted_by_navigation ↦ λ h. refl
                  | _ ↦ λ h. absurd (ground (arith, h))
                ]

      -- A command that meets a navigation every time is given up with a timeout, and its last
      -- attempt was at the top frame, if no dialog is open, the waits succeed, and neither they nor
      -- the command switch frames.
      pub execute_window_command-gives_up :
          (value : Option A) (s t : Session V W)
          → is_error (get_target_window s) ≡ false
          → handle_received_events s ≡ (status ok, t)
          → is_dialog_open t.dialogs ≡ false
          → let r = execute_window_command api web run value s in
            (r.0.code ≡ timeout) × (r.2.focus.frames ≡ [])
      unfolding execute_window_command finish handle_open_dialog
      execute_window_command-gives_up value s t target events closed =
          let a = attempt api web run 3 (status ok) value t in
          let h = attempt-hint 2 (status ok) value t in
          ground (
            arith,
            target,
            events,
            closed,
            h,
            final_status-hint a.1.code a.1.message (waited api web a.3).0 h.1,
            wait_focus (current_frame_id a.3.focus.frames) a.3,
          )
