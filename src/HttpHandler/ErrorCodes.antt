-- ===== src/HttpHandler/ErrorCodes.antt =====
-- The HTTP status of each error, against the table of error codes of the WebDriver standard
-- (https://w3c.github.io/webdriver/#errors), which lists a status for each error string.
use chromedriver.Base.{String, ◌≡◌, ◌↔◌, refl, Option, none, some, if◌then◌else◌, ◌==◌}
use chromedriver.Status.{StatusCode, status_code_to_string, ok}
use chromedriver.HttpHandler.Response.{
  HttpStatusCode, http_ok, http_bad_request, http_not_found, http_internal_server_error,
  http_status,
}

abbrev pub standard_status : String → Option HttpStatusCode
standard_status error =
    if error == "element click intercepted"
    then some http_bad_request
    else if error == "element not interactable"
    then some http_bad_request
    else if error == "invalid argument"
    then some http_bad_request
    else if error == "invalid cookie domain"
    then some http_bad_request
    else if error == "invalid element state"
    then some http_bad_request
    else if error == "invalid selector"
    then some http_bad_request
    else if error == "invalid session id"
    then some http_not_found
    else if error == "javascript error"
    then some http_internal_server_error
    else if error == "move target out of bounds"
    then some http_internal_server_error
    else if error == "no such alert"
    then some http_not_found
    else if error == "no such cookie"
    then some http_not_found
    else if error == "no such element"
    then some http_not_found
    else if error == "no such frame"
    then some http_not_found
    else if error == "no such window"
    then some http_not_found
    else if error == "no such shadow root"
    then some http_not_found
    else if error == "script timeout"
    then some http_internal_server_error
    else if error == "session not created"
    then some http_internal_server_error
    else if error == "stale element reference"
    then some http_not_found
    else if error == "detached shadow root"
    then some http_not_found
    else if error == "timeout"
    then some http_internal_server_error
    else if error == "unable to set cookie"
    then some http_internal_server_error
    else if error == "unexpected alert open"
    then some http_internal_server_error
    else if error == "unknown command"
    then some http_not_found
    else if error == "unknown error"
    then some http_internal_server_error
    else if error == "unsupported operation"
    then some http_internal_server_error
    else none

-- Every status code whose error string the standard lists is answered with the HTTP status that the
-- standard lists for that string.
pub http_status-eq_standard :
    (c : StatusCode) {h : HttpStatusCode}
    → standard_status (status_code_to_string c) ≡ some h
    → http_status c ≡ h
unfolding status_code_to_string http_status
http_status-eq_standard ok e = cc
http_status-eq_standard _ e = cc

-- The HTTP status is 200 exactly for kOk.
pub http_status-eq_ok_iff : (c : StatusCode) → (http_status c ≡ http_ok) ↔ (c ≡ ok)
unfolding http_status
http_status-eq_ok_iff ok = (λ _. refl, λ _. refl)
http_status-eq_ok_iff _ = (λ e. cc, λ e. cc)
