-- ===== src/NavigationTracker/Runs.antt =====
-- All calls of the tracker in any order.
use chromedriver.Base.{ℕ, zero, suc, String, Bool, Option, some, arith, if_elim, List, [], ◌∷◌, ℤ}
use chromedriver.Status.{Status, is_error}
use chromedriver.NavigationTracker.{
  NavigationTracker, LoadingState, Event, Evaluation, store, on_event, deliver, loading,
  not_loading, unknown, new_tracker, set_timed_out, set_frame, on_connected,
  update_current_loading_state, clear_frame_states,
}
use chromedriver.NavigationTracker.Commands.{
  ScriptReply, PendingReplies, Outcome, NodeReply, answer_by_ready_state, judge_urls, judge_node,
  resolve_node, resolve_unknown, is_pending_navigation, check_function_exists, ask_url, judge_url,
  expect_load, on_command_success,
}
use chromedriver.NavigationTracker.Pointers.{
  IsValid, store-IsValid, init_current_frame-IsValid, set_frame-IsValid, update-IsValid,
  on_event-IsValid, deliver-IsValid,
}

-- A call of a public method, with what the browser does meanwhile.
pub data Call : Type 0 where
  sets_frame : String → Call
  sets_timed_out : Bool → Call
  connects : Call
  receives : Event → Call
  asks_pending : PendingReplies → Call
  checks_function : ScriptReply → Call
  succeeds : String → Option String → Bool → ScriptReply → (ℕ → ScriptReply) → Call

module _ (error_codes : String → Option ℤ) where
  pub call : Call → NavigationTracker → NavigationTracker
  call (sets_frame f) t = set_frame f t
  call (sets_timed_out b) t = set_timed_out b t
  call connects t = (on_connected t).1
  call (receives e) t = (on_event e t).1
  call (asks_pending r) t = (is_pending_navigation r t).2
  call (checks_function r) t = (check_function_exists r t).2
  call (succeeds method error_text is_expired unset replies) t =
      (on_command_success error_codes method error_text is_expired unset replies t).1

  pub run : List Call → NavigationTracker → NavigationTracker
  run [] t = t
  run (c ∷ cs) t = run cs (call c t)

abbrev ValidOutcome : Outcome → Type 0
ValidOutcome (s, answer, t) = IsValid t

abbrev ValidPair : Status × NavigationTracker → Type 0
ValidPair (s, t) = IsValid t

answer_by_ready_state-IsValid :
    (p : Status × NavigationTracker) → IsValid p.1 → IsValid (answer_by_ready_state p).2
unfolding answer_by_ready_state
answer_by_ready_state-IsValid (s, t) h = ground (arith, store-IsValid loading t h)

judge_urls-IsValid :
    (b d : String) (e : Evaluation) (t : NavigationTracker)
    → IsValid t
    → IsValid (judge_urls b d e t).2
unfolding judge_urls
judge_urls-IsValid b d e t h = ground (
  arith,
  store-IsValid loading t h,
  store-IsValid not_loading t h,
  answer_by_ready_state-IsValid (update_current_loading_state e t) (update-IsValid e t h),
)

judge_node-IsValid :
    (b d : Option String) (s : Status) (e : Evaluation) (t : NavigationTracker)
    → IsValid t
    → IsValid (judge_node b d s e t).2
unfolding judge_node
judge_node-IsValid (some b) (some d) s e t h = judge_urls-IsValid b d e t h
judge_node-IsValid _ _ s e t h = h

resolve_node-IsValid :
    (n : NodeReply) (e : Evaluation) (t : NavigationTracker)
    → IsValid t
    → IsValid (resolve_node n e t).2
unfolding resolve_node
resolve_node-IsValid n e t h =
    if_elim ValidOutcome (is_error n.status) (λ _. h)
      (λ _. judge_node-IsValid n.base_url n.document_url n.status e t h)

resolve_unknown-IsValid :
    (r : PendingReplies) (t : NavigationTracker) → IsValid t → IsValid (resolve_unknown r t).2
unfolding resolve_unknown
resolve_unknown-IsValid r t h =
    let h' = deliver-IsValid r.document.events t h in
    ground (
      arith,
      h',
      resolve_node-IsValid r.node r.ready_state
          (deliver r.node.events (deliver r.document.events t))
          (deliver-IsValid r.node.events (deliver r.document.events t) h'),
    )

is_pending_navigation-IsValid :
    (r : PendingReplies) (t : NavigationTracker) → IsValid t → IsValid (is_pending_navigation r t).2
unfolding is_pending_navigation
is_pending_navigation-IsValid r t h =
    let h' = deliver-IsValid r.probe.events t h in
    ground (arith, h', resolve_unknown-IsValid r (deliver r.probe.events t) h')

check_function_exists-IsValid :
    (r : ScriptReply) (t : NavigationTracker) → IsValid t → IsValid (check_function_exists r t).2
unfolding check_function_exists
check_function_exists-IsValid r t h = ground (arith, deliver-IsValid r.events t h)

ask_url-IsValid :
    (left : ℕ) (last : ScriptReply) (replies : ℕ → ScriptReply) (t : NavigationTracker)
    → IsValid t
    → IsValid (ask_url left last replies t).1
unfolding ask_url
ask_url-IsValid zero last replies t h = h
ask_url-IsValid (suc left) last replies t h =
    let h' = deliver-IsValid (replies left).events t h in
    ground
      (arith, h', ask_url-IsValid left (replies left) replies (deliver (replies left).events t) h')

judge_url-IsValid : (p : ScriptReply × NavigationTracker) → IsValid p.1 → IsValid (judge_url p).1
unfolding judge_url
judge_url-IsValid (r, t) h = ground (arith, store-IsValid loading t h)

expect_load-IsValid :
    (method : String) (x : Bool) (u : ScriptReply) (replies : ℕ → ScriptReply)
    (t : NavigationTracker)
    → IsValid t
    → IsValid (expect_load method x u replies t).1
unfolding expect_load
expect_load-IsValid method x u replies t h = ground (
  arith,
  judge_url-IsValid (ask_url 3 u replies (store unknown t))
      (ask_url-IsValid 3 u replies (store unknown t) (store-IsValid unknown t h)),
)

call-IsValid :
    (error_codes : String → Option ℤ) (c : Call) (t : NavigationTracker)
    → IsValid t
    → IsValid (call error_codes c t)
unfolding call set_timed_out on_connected on_command_success
call-IsValid error_codes (sets_frame f) t h = set_frame-IsValid f t
call-IsValid error_codes (sets_timed_out b) t h = h
call-IsValid error_codes connects t h = init_current_frame-IsValid unknown (clear_frame_states t)
call-IsValid error_codes (receives e) t h = on_event-IsValid e t h
call-IsValid error_codes (asks_pending r) t h = is_pending_navigation-IsValid r t h
call-IsValid error_codes (checks_function r) t h = check_function_exists-IsValid r t h
call-IsValid error_codes (succeeds method text x u replies) t h =
    ground (arith, expect_load-IsValid method x u replies t h)

run-IsValid :
    (error_codes : String → Option ℤ) (cs : List Call) (t : NavigationTracker)
    → IsValid t
    → IsValid (run error_codes cs t)
unfolding run
run-IsValid error_codes [] t h = h
run-IsValid error_codes (c ∷ cs) t h =
    run-IsValid error_codes cs (call error_codes c t) (call-IsValid error_codes c t h)

-- After any calls, with any events arriving while their commands wait, `loading_state_` points to the
-- entry of the current frame, which is in the map, or to the dummy with no current frame.
pub run-new_tracker-IsValid :
    (error_codes : String → Option ℤ) (id : String) (is_main_page : Bool) (s : LoadingState)
    (is_eager : Bool) (indeterminate : LoadingState) (cs : List Call)
    → IsValid (run error_codes cs (new_tracker id is_main_page s is_eager indeterminate))
unfolding new_tracker
run-new_tracker-IsValid error_codes id m s e i cs =
    run-IsValid error_codes cs _ (init_current_frame-IsValid s _)
