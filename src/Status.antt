-- ===== src/Status.antt =====
-- chrome/status.h and chrome/status.cc: the status codes and the statuses that every command returns.
-- `stack_trace_` is not modelled: it is text for diagnosis, and no code branches on it.
pub mod Codes
use chromedriver.Base.{ℕ, String, Bool, true, false, not, ◌<>◌, eqb}

pub data StatusCode : Type 0 where
  ok invalid_session_id no_such_element no_such_frame unknown_command : StatusCode
  stale_element_reference element_not_visible invalid_element_state unknown_error : StatusCode
  javascript_error xpath_lookup_error timeout no_such_window invalid_cookie_domain : StatusCode
  unable_to_set_cookie unexpected_alert_open no_such_alert script_timeout : StatusCode
  invalid_selector session_not_created move_target_out_of_bounds : StatusCode
  element_not_interactable invalid_argument no_such_cookie element_click_intercepted : StatusCode
  no_such_shadow_root detached_shadow_root unsupported_operation : StatusCode
  chrome_not_reachable no_such_execution_context disconnected tab_crashed : StatusCode
  target_detached unexpected_alert_open_keep aborted_by_navigation test_error : StatusCode
  no_active_page : StatusCode

-- The enumerator values.
unfoldable pub code_number : StatusCode → ℕ
code_number ok = 0
code_number invalid_session_id = 6
code_number no_such_element = 7
code_number no_such_frame = 8
code_number unknown_command = 9
code_number stale_element_reference = 10
code_number element_not_visible = 11
code_number invalid_element_state = 12
code_number unknown_error = 13
code_number javascript_error = 17
code_number xpath_lookup_error = 19
code_number timeout = 21
code_number no_such_window = 23
code_number invalid_cookie_domain = 24
code_number unable_to_set_cookie = 25
code_number unexpected_alert_open = 26
code_number no_such_alert = 27
code_number script_timeout = 28
code_number invalid_selector = 32
code_number session_not_created = 33
code_number move_target_out_of_bounds = 34
code_number element_not_interactable = 60
code_number invalid_argument = 61
code_number no_such_cookie = 62
code_number element_click_intercepted = 64
code_number no_such_shadow_root = 65
code_number detached_shadow_root = 66
code_number unsupported_operation = 405
code_number chrome_not_reachable = 100
code_number no_such_execution_context = 101
code_number disconnected = 102
code_number tab_crashed = 103
code_number target_detached = 104
code_number unexpected_alert_open_keep = 105
code_number aborted_by_navigation = 106
code_number test_error = 107
code_number no_active_page = 108

unfoldable pub status_code_to_string : StatusCode → String
status_code_to_string ok = "ok"
status_code_to_string invalid_session_id = "invalid session id"
status_code_to_string no_such_element = "no such element"
status_code_to_string no_such_frame = "no such frame"
status_code_to_string unknown_command = "unknown command"
status_code_to_string stale_element_reference = "stale element reference"
status_code_to_string element_not_visible = "element not interactable"
status_code_to_string invalid_element_state = "invalid element state"
status_code_to_string unknown_error = "unknown error"
status_code_to_string javascript_error = "javascript error"
status_code_to_string xpath_lookup_error = "invalid selector"
status_code_to_string timeout = "timeout"
status_code_to_string no_such_window = "no such window"
status_code_to_string invalid_cookie_domain = "invalid cookie domain"
status_code_to_string unable_to_set_cookie = "unable to set cookie"
status_code_to_string unexpected_alert_open = "unexpected alert open"
status_code_to_string no_such_alert = "no such alert"
status_code_to_string script_timeout = "script timeout"
status_code_to_string invalid_selector = "invalid selector"
status_code_to_string session_not_created = "session not created"
status_code_to_string move_target_out_of_bounds = "move target out of bounds"
status_code_to_string element_not_interactable = "element not interactable"
status_code_to_string invalid_argument = "invalid argument"
status_code_to_string no_such_cookie = "no such cookie"
status_code_to_string element_click_intercepted = "element click intercepted"
status_code_to_string no_such_shadow_root = "no such shadow root"
status_code_to_string detached_shadow_root = "detached shadow root"
status_code_to_string unsupported_operation = "unsupported operation"
status_code_to_string chrome_not_reachable = "chrome not reachable"
status_code_to_string no_such_execution_context = "no such execution context"
status_code_to_string disconnected = "disconnected"
status_code_to_string tab_crashed = "tab crashed"
status_code_to_string target_detached = "target frame detached"
status_code_to_string aborted_by_navigation = "aborted by navigation"
status_code_to_string test_error = "test error"
status_code_to_string _ = "<unknown>"

-- `==` on codes
unfoldable pub code_eq : StatusCode → StatusCode → Bool
unfolding code_number
code_eq a b = eqb (code_number a) (code_number b)

abbrev pub is_ok_code : StatusCode → Bool
is_ok_code ok = true
is_ok_code _ = false

pub record Status : Type 0 where
  pub code : StatusCode
  pub message : String

-- Status(code)
abbrev pub status : StatusCode → Status
status c = record { code = c; message = status_code_to_string c }

-- Status(code, details)
abbrev pub status_details : StatusCode → String → Status
status_details c details = record { code = c; message = status_code_to_string c <> ": " <> details }

-- Status(code, cause)
abbrev pub status_cause : StatusCode → Status → Status
status_cause c cause = record {
  code = c;
  message = status_code_to_string c <> "\nfrom " <> cause.message;
}

-- Status(code, details, cause)
abbrev pub status_details_cause : StatusCode → String → Status → Status
status_details_cause c details cause = record {
  code = c;
  message = status_code_to_string c <> ": " <> details <> "\nfrom " <> cause.message;
}

-- AddDetails
abbrev pub add_details : Status → String → Status
add_details s details = record s { message = s.message <> "\n  (" <> details <> ")" }

abbrev pub is_ok : Status → Bool
is_ok s = is_ok_code s.code

abbrev pub is_error : Status → Bool
is_error s = not (is_ok_code s.code)
