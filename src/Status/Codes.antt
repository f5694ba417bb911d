-- ===== src/Status/Codes.antt =====
-- Which status codes the error strings and the enumerator values tell apart.
use chromedriver.Base.{ℕ, String, ◌≡◌, refl, sym, ap, ◌∙◌, ◌↔◌, if◌then◌else◌, ◌==◌, eqb}
use chromedriver.Base.{true, eqb_iff}
use chromedriver.Status.{
  StatusCode, code_number, code_eq, status_code_to_string, ok, invalid_session_id, no_such_element,
  no_such_frame, unknown_command, stale_element_reference, element_not_visible,
  invalid_element_state, unknown_error, javascript_error, xpath_lookup_error, timeout,
  no_such_window, invalid_cookie_domain, unable_to_set_cookie, unexpected_alert_open, no_such_alert,
  script_timeout, invalid_selector, session_not_created, move_target_out_of_bounds,
  element_not_interactable, invalid_argument, no_such_cookie, element_click_intercepted,
  no_such_shadow_root, detached_shadow_root, unsupported_operation, chrome_not_reachable,
  no_such_execution_context, disconnected, tab_crashed, target_detached, unexpected_alert_open_keep,
  aborted_by_navigation, test_error, no_active_page,
}

-- The code that stands for all codes with its string.
abbrev pub canonical : StatusCode → StatusCode
canonical element_not_visible = element_not_interactable
canonical xpath_lookup_error = invalid_selector
canonical unexpected_alert_open_keep = no_active_page
canonical c = c

-- Reading a string back, the first code that has it.
of_string : String → StatusCode
of_string s =
    if s == "ok"
    then ok
    else if s == "invalid session id"
    then invalid_session_id
    else if s == "no such element"
    then no_such_element
    else if s == "no such frame"
    then no_such_frame
    else if s == "unknown command"
    then unknown_command
    else if s == "stale element reference"
    then stale_element_reference
    else if s == "invalid element state"
    then invalid_element_state
    else if s == "unknown error"
    then unknown_error
    else if s == "javascript error"
    then javascript_error
    else if s == "timeout"
    then timeout
    else if s == "no such window"
    then no_such_window
    else if s == "invalid cookie domain"
    then invalid_cookie_domain
    else if s == "unable to set cookie"
    then unable_to_set_cookie
    else if s == "unexpected alert open"
    then unexpected_alert_open
    else if s == "no such alert"
    then no_such_alert
    else if s == "script timeout"
    then script_timeout
    else if s == "invalid selector"
    then invalid_selector
    else if s == "session not created"
    then session_not_created
    else if s == "move target out of bounds"
    then move_target_out_of_bounds
    else if s == "element not interactable"
    then element_not_interactable
    else if s == "invalid argument"
    then invalid_argument
    else if s == "no such cookie"
    then no_such_cookie
    else if s == "element click intercepted"
    then element_click_intercepted
    else if s == "no such shadow root"
    then no_such_shadow_root
    else if s == "detached shadow root"
    then detached_shadow_root
    else if s == "unsupported operation"
    then unsupported_operation
    else if s == "chrome not reachable"
    then chrome_not_reachable
    else if s == "no such execution context"
    then no_such_execution_context
    else if s == "disconnected"
    then disconnected
    else if s == "tab crashed"
    then tab_crashed
    else if s == "target frame detached"
    then target_detached
    else if s == "aborted by navigation"
    then aborted_by_navigation
    else if s == "test error"
    then test_error
    else no_active_page

of_string-status_code_to_string :
    (c : StatusCode) → of_string (status_code_to_string c) ≡ canonical c
unfolding of_string status_code_to_string
of_string-status_code_to_string ok = refl
of_string-status_code_to_string _ = refl

string-canonical : (c : StatusCode) → status_code_to_string (canonical c) ≡ status_code_to_string c
unfolding status_code_to_string
string-canonical ok = refl
string-canonical _ = refl

-- Two codes have one error string exactly when they are the same code up to three aliases:
-- kElementNotVisible reads as kElementNotInteractable, kXPathLookupError as kInvalidSelector, and
-- kUnexpectedAlertOpen_Keep as kNoActivePage.
pub status_code_to_string-eq_iff :
    (a b : StatusCode)
    → (status_code_to_string a ≡ status_code_to_string b) ↔ (canonical a ≡ canonical b)
status_code_to_string-eq_iff a b = (
  λ e. sym (of_string-status_code_to_string a) ∙ ap of_string e ∙ of_string-status_code_to_string b,
  λ e. sym (string-canonical a) ∙ ap status_code_to_string e ∙ string-canonical b,
)

of_number : ℕ → StatusCode
of_number n =
    if eqb n 0
    then ok
    else if eqb n 6
    then invalid_session_id
    else if eqb n 7
    then no_such_element
    else if eqb n 8
    then no_such_frame
    else if eqb n 9
    then unknown_command
    else if eqb n 10
    then stale_element_reference
    else if eqb n 11
    then element_not_visible
    else if eqb n 12
    then invalid_element_state
    else if eqb n 13
    then unknown_error
    else if eqb n 17
    then javascript_error
    else if eqb n 19
    then xpath_lookup_error
    else if eqb n 21
    then timeout
    else if eqb n 23
    then no_such_window
    else if eqb n 24
    then invalid_cookie_domain
    else if eqb n 25
    then unable_to_set_cookie
    else if eqb n 26
    then unexpected_alert_open
    else if eqb n 27
    then no_such_alert
    else if eqb n 28
    then script_timeout
    else if eqb n 32
    then invalid_selector
    else if eqb n 33
    then session_not_created
    else if eqb n 34
    then move_target_out_of_bounds
    else if eqb n 60
    then element_not_interactable
    else if eqb n 61
    then invalid_argument
    else if eqb n 62
    then no_such_cookie
    else if eqb n 64
    then element_click_intercepted
    else if eqb n 65
    then no_such_shadow_root
    else if eqb n 66
    then detached_shadow_root
    else if eqb n 405
    then unsupported_operation
    else if eqb n 100
    then chrome_not_reachable
    else if eqb n 101
    then no_such_execution_context
    else if eqb n 102
    then disconnected
    else if eqb n 103
    then tab_crashed
    else if eqb n 104
    then target_detached
    else if eqb n 105
    then unexpected_alert_open_keep
    else if eqb n 106
    then aborted_by_navigation
    else if eqb n 107
    then test_error
    else no_active_page

of_number-code_number : (c : StatusCode) → of_number (code_number c) ≡ c
unfolding of_number code_number
of_number-code_number ok = refl
of_number-code_number _ = refl

-- No two codes share a number, so the `status` field of a legacy response determines the code.
pub code_number-injective : (a b : StatusCode) → code_number a ≡ code_number b → a ≡ b
code_number-injective a b e =
    sym (of_number-code_number a) ∙ ap of_number e ∙ of_number-code_number b

pub code_eq_iff : (a b : StatusCode) → (code_eq a b ≡ true) ↔ (a ≡ b)
unfolding code_eq
code_eq_iff a b = (
  λ h. code_number-injective a b ((eqb_iff (code_number a) (code_number b)).0 h),
  λ h. (eqb_iff (code_number a) (code_number b)).1 (ap code_number h),
)
