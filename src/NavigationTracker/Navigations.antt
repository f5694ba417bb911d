-- ===== src/NavigationTracker/Navigations.antt =====
-- A navigation command that succeeds makes the tracker wait.
use chromedriver.Base.{
  ℕ, zero, suc, String, ◌≡◌, refl, true, false, Option, none, arith, ◌∙◌, ℤ, Bool-cases, inl, inr,
  if_elim, sym,
}
use mathlib.Core.Path.{subst}
use chromedriver.Dictionary.{string_eq}
use chromedriver.NavigationTracker.{
  NavigationTracker, LoadingState, no_events, store, on_event, deliver, loading, unknown,
  has_current_frame, get_loading_state, is_not_loading, is_loading,
}
use chromedriver.NavigationTracker.Commands.{
  ScriptReply, starts_navigation, target_closed, ask_url, judge_url, expect_load,
  on_command_success,
}
use chromedriver.NavigationTracker.Pointers.{IsValid, store-IsValid}
use chromedriver.NavigationTracker.Pending.{get_loading_state-store}

-- Without events the attempts change nothing.
ask_url_quiet :
    (left : ℕ) (last : ScriptReply) (replies : ℕ → ScriptReply) (t : NavigationTracker)
    → ((n : ℕ) → (replies n).events ≡ no_events)
    → (ask_url left last replies t).1 ≡ t
unfolding ask_url
ask_url_quiet zero last replies t quiet = refl
ask_url_quiet (suc left) last replies t quiet =
    if_elim (λ (p : ScriptReply × NavigationTracker). p.1 ≡ t) (target_closed (replies left).status)
      (λ _.
        ask_url_quiet left (replies left) replies (deliver (replies left).events t) quiet ∙ same)
      (λ _. same)
  where
    same : deliver (replies left).events t ≡ t
    same = rw (quiet left) (unfold on_event in refl)

judge_url_waits :
    (r : ScriptReply) (t : NavigationTracker)
    → IsValid t
    → has_current_frame t ≡ true
    → t.timed_out ≡ false
    → is_not_loading (get_loading_state t) ≡ false
    → is_not_loading (get_loading_state (judge_url (r, t)).1) ≡ false
unfolding judge_url
judge_url_waits r t h c o u = ground (arith, get_loading_state-store loading t h c o)

store-current_frame_id :
    (s : LoadingState) (t : NavigationTracker)
    → ((store s t).current_frame_id ≡ t.current_frame_id) × ((store s t).timed_out ≡ t.timed_out)
unfolding store
store-current_frame_id s t = (ground arith, ground arith)

expect_load_waits :
    (method : String) (unset : ScriptReply) (replies : ℕ → ScriptReply) (t : NavigationTracker)
    → IsValid t
    → starts_navigation method ≡ true
    → has_current_frame t ≡ true
    → t.timed_out ≡ false
    → ((n : ℕ) → (replies n).events ≡ no_events)
    → is_not_loading (get_loading_state (expect_load method false unset replies t).1) ≡ false
unfolding expect_load
expect_load_waits method unset replies t h m c o quiet =
    elim (Bool-cases (is_loading (get_loading_state t))) [
      | inl busy ↦ ground arith
      | inr idle ↦ rw (c, m, idle) asked
    ]
  where
    t' : NavigationTracker
    t' = store unknown t

    last : ScriptReply × NavigationTracker
    last = ask_url 3 unset replies t'

    asked : is_not_loading (get_loading_state (judge_url last).1) ≡ false
    asked =
        subst (λ x. is_not_loading (get_loading_state (judge_url (last.0, x)).1) ≡ false)
          (sym (ask_url_quiet 3 unset replies t' quiet))
          (judge_url_waits last.0 t' (store-IsValid unknown t h)
            (rw (store-current_frame_id unknown t).0 c) ((store-current_frame_id unknown t).1 ∙ o)
            (rw (get_loading_state-store unknown t h c o)))

-- After Page.navigate or Page.navigateToHistoryEntry has succeeded with no "errorText" and before its
-- timeout, the tracker with a current frame and no timeout set does not report that loading is over,
-- whatever the renderer replies, provided that no event arrives while it is asked.
pub on_command_success_waits :
    (error_codes : String → Option ℤ) (method : String) (unset : ScriptReply)
    (replies : ℕ → ScriptReply) (t : NavigationTracker)
    → IsValid t
    → starts_navigation method ≡ true
    → has_current_frame t ≡ true
    → t.timed_out ≡ false
    → ((n : ℕ) → (replies n).events ≡ no_events)
    → is_not_loading
        (get_loading_state (on_command_success error_codes method none false unset replies t).1)
      ≡ false
unfolding on_command_success
on_command_success_waits error_codes method unset replies t h m c o quiet =
    ground (arith, expect_load_waits method unset replies t h m c o quiet)
