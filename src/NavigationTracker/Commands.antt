-- ===== src/NavigationTracker/Commands.antt =====
-- The commands that the navigation tracker sends: IsPendingNavigation, CheckFunctionExists and
-- OnCommandSuccess of chrome/navigation_tracker.cc. What a command does is a value that the caller
-- gives: the events that arrive before the reply, the status, and what the code reads of the result.
use Prim.Native.String.{len, slice}
use chromedriver.Base.{
  ℕ, zero, suc, String, Bool, true, false, not, ◌&&◌, ◌||◌, Option, none, some, ◌==◌, leb, ℤ,
  negsuc, if◌then◌else◌, is_empty, starts_with,
}
use chromedriver.Status.{
  Status, code_eq, status, status_details, is_error, ok, unknown_error, unexpected_alert_open,
  aborted_by_navigation, no_such_execution_context, disconnected, target_detached,
}
use chromedriver.NavigationTracker.{
  NavigationTracker, Evaluation, Events, target_closed_message, mentions, check_failed, store,
  has_current_frame, get_loading_state, is_loading, is_unknown, loading, not_loading, unknown,
  update_current_loading_state, deliver,
}

-- Runtime.evaluate of "1", with whether "result.value" is 1.
pub record ProbeReply : Type 0 where
  pub events : Events
  pub status : Status
  pub value_is_one : Bool

-- A script with the string at "result.value", or at "result.objectId".
pub record ScriptReply : Type 0 where
  pub events : Events
  pub status : Status
  pub value : Option String

-- DOM.describeNode with "node.baseURL" and "node.documentURL".
pub record NodeReply : Type 0 where
  pub events : Events
  pub status : Status
  pub base_url : Option String
  pub document_url : Option String

-- What the browser does during one call of IsPendingNavigation.
pub record PendingReplies : Type 0 where
  pub is_dialog_open : Bool
  pub probe : ProbeReply
  pub document : ScriptReply
  pub node : NodeReply
  pub ready_state : Evaluation

-- The status, `*is_pending` if it is written, and the tracker.
abbrev pub Outcome : Type 0
Outcome = Status × Option Bool × NavigationTracker

-- The code from UpdateCurrentLoadingState on.
unfoldable pub answer_by_ready_state : Status × NavigationTracker → Outcome
answer_by_ready_state (s, t) =
    if code_eq s.code no_such_execution_context || code_eq s.code aborted_by_navigation
    then (let t' = store loading t in (status ok, some (is_loading (get_loading_state t')), t'))
    else if is_error s
    then (check_failed s, none, t)
    else (status ok, some (is_loading (get_loading_state t)), t)

unfoldable pub judge_urls : String → String → Evaluation → NavigationTracker → Outcome
judge_urls base_url doc_url ready_state t =
    if not (has_current_frame t)
    then (status ok, some false, t)
    else if base_url == "about:blank"
    then (if starts_with doc_url "about:blank"
        then (status ok, some false, store not_loading t)
        else (status ok, some true, store loading t))
    else answer_by_ready_state (update_current_loading_state ready_state t)

-- The base URL and the document URL of the node; without both the check has failed.
unfoldable pub judge_node :
    Option String → Option String → Status → Evaluation → NavigationTracker → Outcome
judge_node (some base_url) (some doc_url) s ready_state t =
    judge_urls base_url doc_url ready_state t
judge_node _ _ s ready_state t = (check_failed s, none, t)

-- The block for an unknown state, from the reply to DOM.describeNode on.
unfoldable pub resolve_node : NodeReply → Evaluation → NavigationTracker → Outcome
resolve_node node ready_state t =
    if is_error node.status
    then (check_failed node.status, none, t)
    else judge_node node.base_url node.document_url node.status ready_state t

-- The block for an unknown state.
unfoldable pub resolve_unknown : PendingReplies → NavigationTracker → Outcome
resolve_unknown r t =
    let t' = deliver r.document.events t in
    if is_error r.document.status
    then (check_failed r.document.status, none, t')
    else elim r.document.value [
      | none ↦ (check_failed r.document.status, none, t')
      | some object_id ↦ resolve_node r.node r.ready_state (deliver r.node.events t')
    ]

-- IsPendingNavigation
unfoldable pub is_pending_navigation : PendingReplies → NavigationTracker → Outcome
is_pending_navigation r t =
    let s = r.probe.status in
    let t' = deliver r.probe.events t in
    if r.is_dialog_open
    then (status ok, some false, t)
    else if code_eq s.code disconnected
    then (s, some false, t')
    else if code_eq s.code target_detached
    then (s, some false, t')
    else if code_eq s.code unexpected_alert_open
    then (status ok, some false, t')
    else if code_eq s.code unknown_error && mentions s.message target_closed_message
    then (status ok, some true, t')
    else if is_error s || not r.probe.value_is_one
    then (check_failed s, none, t')
    else if not (has_current_frame t')
    then (status ok, some false, t')
    else if is_unknown (get_loading_state t')
    then resolve_unknown r t'
    else (status ok, some (is_loading (get_loading_state t')), t')

-- CheckFunctionExists: the status, `*exists` if it is written, and the tracker.
unfoldable pub check_function_exists : ScriptReply → NavigationTracker → Outcome
check_function_exists r t =
    let t' = deliver r.events t in
    if is_error r.status then (check_failed r.status, none, t') else elim r.value [
      | none ↦ (check_failed r.status, none, t')
      | some type ↦ (status ok, some (type == "function"), t')
    ]

-- IsNetworkError; `error_codes` is the table that net/base/net_error_list.h fills.
abbrev pub is_connection_code : Option ℤ → Bool
is_connection_code (some (negsuc n)) = leb 99 n && leb n 198
is_connection_code _ = false

unfoldable pub is_network_error : (String → Option ℤ) → String → Bool
is_network_error error_codes error_text =
    if not (starts_with error_text "net::ERR_")
    then false
    else is_connection_code (error_codes (slice error_text 9 (len error_text)))

abbrev pub target_closed : Status → Bool
target_closed s = code_eq s.code unknown_error && mentions s.message target_closed_message

-- The loop over `attempt`, with the attempts that are left; the last reply stands.
unfoldable pub ask_url :
    ℕ → ScriptReply → (ℕ → ScriptReply) → NavigationTracker → ScriptReply × NavigationTracker
ask_url zero last replies t = (last, t)
ask_url (suc left) last replies t =
    let r = replies left in
    let t' = deliver r.events t in
    let again = ask_url left r replies t' in if target_closed r.status then again else (r, t')

abbrev pub starts_navigation : String → Bool
starts_navigation method = method == "Page.navigate" || method == "Page.navigateToHistoryEntry"

-- The end of OnCommandSuccess, behind the loop.
unfoldable pub judge_url : ScriptReply × NavigationTracker → Status × NavigationTracker
judge_url (r, t) = if is_error r.status then (check_failed r.status, t) else elim r.value [
  | none ↦ (check_failed r.status, t)
  | some url ↦
      if is_unknown (get_loading_state t) && is_empty url
      then (status ok, store loading t)
      else (status ok, t)
]

-- The check for the start of a navigation.
unfoldable pub expect_load :
    String → Bool → ScriptReply → (ℕ → ScriptReply) → NavigationTracker → Status × NavigationTracker
expect_load method is_expired unset replies t =
    if has_current_frame t
      && starts_navigation method
      && not (is_loading (get_loading_state t))
      && not is_expired
    then judge_url (ask_url 3 unset replies (store unknown t))
    else (status ok, t)

-- OnCommandSuccess; `error_text` is the string under "errorText" of a result that is not null,
-- `unset` the status and result before the loop, and `replies` is indexed by the attempts left.
unfoldable pub on_command_success :
    (String → Option ℤ)
    → String
    → Option String
    → Bool
    → ScriptReply
    → (ℕ → ScriptReply)
    → NavigationTracker
    → Status × NavigationTracker
on_command_success error_codes method error_text is_expired unset replies t =
    let go = expect_load method is_expired unset replies t in
    if method == "Page.navigate"
    then elim error_text [
      | none ↦ go
      | some text ↦
          if is_network_error error_codes text then (status_details unknown_error text, t) else go
    ]
    else go
