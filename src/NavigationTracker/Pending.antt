-- ===== src/NavigationTracker/Pending.antt =====
-- What IsPendingNavigation answers, against the state that the tracker is left in.
use chromedriver.Base.{
  String, ◌≡◌, refl, Bool, true, false, not, Option, some, arith, ◌==◌, if◌then◌else◌, if_elim,
  starts_with, ◌||◌, ◌∙◌,
}
use chromedriver.Dictionary.{string_eq, assign, lookup-assign, beq_refl}
use chromedriver.Status.{
  Status, is_error, code_eq, disconnected, target_detached, unexpected_alert_open, timeout,
  aborted_by_navigation, no_such_execution_context, tab_crashed,
}
use chromedriver.Status.Codes.{code_eq_iff}
use chromedriver.NavigationTracker.{
  NavigationTracker, LoadingState, Event, Evaluation, Events, event, evaluation, no_events, next,
  store, set_current_frame_invalid, init_current_frame, clear_frame_states, on_frame_event,
  judge_ready_state, on_event, deliver, is_loading, is_unknown, check_failed,
  update_current_loading_state, loading, not_loading, ends_loading, has_current_frame,
  get_loading_state,
}
use chromedriver.NavigationTracker.Commands.{
  PendingReplies, Outcome, answer_by_ready_state, judge_urls, judge_node, resolve_node, NodeReply,
  resolve_unknown, is_pending_navigation, target_closed,
}
use chromedriver.NavigationTracker.Pointers.{IsValid, deliver-IsValid}

pub get_loading_state-store :
    (s : LoadingState) (t : NavigationTracker)
    → IsValid t
    → has_current_frame t ≡ true
    → t.timed_out ≡ false
    → get_loading_state (store s t) ≡ s
unfolding get_loading_state store
get_loading_state-store s t h c o = ground (
  arith,
  lookup-assign t.current_frame_id t.current_frame_id s t.frame_to_state_map,
  beq_refl t.current_frame_id,
)

get_loading_state-no_frame :
    (t : NavigationTracker) → not (has_current_frame t) ≡ true → get_loading_state t ≡ not_loading
unfolding get_loading_state
get_loading_state-no_frame t h = ground arith

get_loading_state-timed_out :
    (t : NavigationTracker) → is_unknown (get_loading_state t) ≡ true → t.timed_out ≡ false
unfolding get_loading_state
get_loading_state-timed_out t h = ground arith

abbrev SameTimeout : NavigationTracker → Status × NavigationTracker → Type 0
SameTimeout t (s, t') = t'.timed_out ≡ t.timed_out

on_frame_event-timed_out :
    (method : String) (f : Option String) (t : NavigationTracker)
    → (on_frame_event method f t).1.timed_out ≡ t.timed_out
unfolding on_frame_event init_current_frame clear_frame_states set_current_frame_invalid
on_frame_event-timed_out method f t = ground arith

judge_ready_state-timed_out :
    (s : Status) (r : String) (t : NavigationTracker)
    → (judge_ready_state s r t).1.timed_out ≡ t.timed_out
unfolding judge_ready_state store
judge_ready_state-timed_out s r t = ground arith

mutual
  unfolding on_event

  update-timed_out :
      (e : Evaluation) (t : NavigationTracker)
      → (update_current_loading_state e t).1.timed_out ≡ t.timed_out
  update-timed_out (evaluation events s r) t =
      if_elim (SameTimeout t) (has_current_frame t)
        (λ _. judge_ready_state-timed_out s r (deliver events t) ∙ deliver-timed_out events t)
        (λ _. refl)

  on_event-timed_out :
      (e : Event) (t : NavigationTracker) → (on_event e t).1.timed_out ≡ t.timed_out
  on_event-timed_out (event method f e) t =
      if_elim (SameTimeout t) (ends_loading t method)
        (λ _. update-timed_out e (record t {
          frame_to_state_map = assign t.top_frame_id not_loading t.frame_to_state_map;
        }))
        (λ _. on_frame_event-timed_out method f t)

  deliver-timed_out : (e : Events) (t : NavigationTracker) → (deliver e t).timed_out ≡ t.timed_out
  deliver-timed_out no_events t = refl
  deliver-timed_out (next e rest) t =
      deliver-timed_out rest (on_event e t).1 ∙ on_event-timed_out e t

check_failed-is_error : (s : Status) → is_error (check_failed s) ≡ true
unfolding check_failed
check_failed-is_error s = ground (
  arith,
  code_eq_iff s.code unexpected_alert_open,
  timeout,
  aborted_by_navigation,
  no_such_execution_context,
  tab_crashed,
  code_eq_iff s.code timeout,
  code_eq_iff s.code aborted_by_navigation,
  code_eq_iff s.code no_such_execution_context,
  code_eq_iff s.code disconnected,
  code_eq_iff s.code tab_crashed,
)

-- A call that succeeds has written an answer, and it is whether the state that it leaves is loading.
abbrev Agrees : Outcome → Type 0
Agrees (s, answer, t) = is_error s ≡ false → answer ≡ some (is_loading (get_loading_state t))

answer_by_ready_state-Agrees : (p : Status × NavigationTracker) → Agrees (answer_by_ready_state p)
unfolding answer_by_ready_state
answer_by_ready_state-Agrees (s, t) = λ k. ground (arith, check_failed-is_error s)

judge_urls-Agrees :
    (base_url doc_url : String) (e : Evaluation) (t : NavigationTracker)
    → IsValid t
    → t.timed_out ≡ false
    → Agrees (judge_urls base_url doc_url e t)
unfolding judge_urls
judge_urls-Agrees base_url doc_url e t h o =
    if_elim Agrees (not (has_current_frame t))
      (λ c k. ground (arith, get_loading_state-no_frame t c))
      λ c.
        if_elim Agrees (base_url == "about:blank")
          (λ _.
            if_elim Agrees (starts_with doc_url "about:blank")
              (λ _ k. ground (arith, get_loading_state-store not_loading t h))
              (λ _ k. ground (arith, get_loading_state-store loading t h)))
          (λ _. answer_by_ready_state-Agrees (update_current_loading_state e t))

judge_node-Agrees :
    (base_url doc_url : Option String) (s : Status) (e : Evaluation) (t : NavigationTracker)
    → IsValid t
    → t.timed_out ≡ false
    → Agrees (judge_node base_url doc_url s e t)
unfolding judge_node
judge_node-Agrees (some b) (some d) s e t h o = judge_urls-Agrees b d e t h o
judge_node-Agrees _ _ s e t h o = λ k. ground (arith, check_failed-is_error s)

resolve_node-Agrees :
    (n : NodeReply) (e : Evaluation) (t : NavigationTracker)
    → IsValid t
    → t.timed_out ≡ false
    → Agrees (resolve_node n e t)
unfolding resolve_node
resolve_node-Agrees n e t h o =
    if_elim Agrees (is_error n.status) (λ _ k. ground (arith, check_failed-is_error n.status))
      (λ _. judge_node-Agrees n.base_url n.document_url n.status e t h o)

resolve_unknown-Agrees :
    (r : PendingReplies) (t : NavigationTracker)
    → IsValid t
    → t.timed_out ≡ false
    → Agrees (resolve_unknown r t)
unfolding resolve_unknown
resolve_unknown-Agrees r t h o =
    let t' = deliver r.document.events t in
    let valid = deliver-IsValid r.node.events t' (deliver-IsValid r.document.events t h) in
    let running = deliver-timed_out r.node.events t' ∙ deliver-timed_out r.document.events t ∙ o in
    λ k. ground (
      arith,
      check_failed-is_error r.document.status,
      resolve_node-Agrees r.node r.ready_state (deliver r.node.events t') valid running,
    )

-- What the answer should be, given the state that the call leaves.
abbrev pub expected : PendingReplies → NavigationTracker → Bool
expected r t =
    if r.is_dialog_open
    then false
    else if code_eq r.probe.status.code unexpected_alert_open
    then false
    else if target_closed r.probe.status
    then true
    else is_loading (get_loading_state t)

abbrev Expected : PendingReplies → Outcome → Type 0
Expected r (s, answer, t) = is_error s ≡ false → answer ≡ some (expected r t)

-- Whenever IsPendingNavigation succeeds, it has written an answer: no behind a dialog or an alert,
-- yes when the target was closed, and else whether the state that the call leaves is loading.
pub is_pending_navigation-expected :
    (r : PendingReplies) (t : NavigationTracker)
    → IsValid t
    → is_error (is_pending_navigation r t).0 ≡ false
    → (is_pending_navigation r t).1 ≡ some (expected r (is_pending_navigation r t).2)
unfolding is_pending_navigation
is_pending_navigation-expected r t h =
    let s = r.probe.status in
    let t' = deliver r.probe.events t in
    let valid = deliver-IsValid r.probe.events t h in
    if_elim (Expected r) r.is_dialog_open (λ a k. ground arith)
      λ a.
        if_elim (Expected r) (code_eq s.code disconnected)
          (λ b k. absurd (ground (arith, code_eq_iff s.code disconnected)))
          λ b.
            if_elim (Expected r) (code_eq s.code target_detached)
              (λ c k. absurd (ground (arith, code_eq_iff s.code target_detached)))
              λ c.
                if_elim (Expected r) (code_eq s.code unexpected_alert_open) (λ d k. ground arith)
                  λ d.
                    if_elim (Expected r) (target_closed s) (λ f k. ground arith)
                      λ f.
                        if_elim (Expected r) (is_error s || not r.probe.value_is_one)
                          (λ g k. absurd (ground (arith, check_failed-is_error s)))
                          λ g.
                            if_elim (Expected r) (not (has_current_frame t'))
                              (λ j k. ground (arith, get_loading_state-no_frame t' j))
                              λ j.
                                if_elim (Expected r) (is_unknown (get_loading_state t'))
                                  (λ u k. ground (
                                    arith,
                                    resolve_unknown-Agrees r t' valid
                                        (get_loading_state-timed_out t' u),
                                  ))
                                  (λ u k. ground arith)
