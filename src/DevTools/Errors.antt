-- ===== src/DevTools/Errors.antt =====
-- ParseInspectorError of chrome/devtools_client_impl.cc. `read` stands for JSONReader::Read.
use chromedriver.Base.{
  String, Bool, false, ◌||◌, Option, none, some, ◌<>◌, ◌==◌, if◌then◌else◌, ℤ, pos, negsuc, eqb,
}
use chromedriver.Values.{Values, find_string, find_int}
use chromedriver.Status.{
  Status, status, status_details, unknown_error, unknown_command, no_such_frame,
  no_such_execution_context, invalid_argument, no_such_element, aborted_by_navigation,
  no_such_window,
}

abbrev pub is_code : ℤ → Option ℤ → Bool
is_code c none = false
is_code (pos m) (some (pos n)) = eqb m n
is_code (negsuc m) (some (negsuc n)) = eqb m n
is_code _ _ = false

-- kCdpMethodNotFoundCode, kSessionNotFoundInspectorCode and kInvalidParamsInspectorCode
abbrev pub method_not_found_code : ℤ
method_not_found_code = negsuc 32600

abbrev pub session_not_found_code : ℤ
session_not_found_code = negsuc 32000

abbrev pub invalid_params_code : ℤ
invalid_params_code = negsuc 32601

abbrev pub message_or : String → Option String → String
message_or s none = s
message_or s (some m) = m

abbrev pub is_context_error : String → Bool
is_context_error m =
    m == "Cannot find default execution context"
    || m == "Cannot find context with specified id"
    || m == "uniqueContextId not found"

abbrev pub is_navigation_error : String → Bool
is_navigation_error m =
    m == "Execution context was destroyed."
    || m == "Inspected target navigated or closed"
    || m == "Not attached to an active page"

abbrev pub unhandled : String → Status
unhandled json = status_details unknown_error ("unhandled inspector error: " <> json)

-- The tests of the message, and then of the code for invalid parameters.
unfoldable pub error_of_message : String → Option ℤ → String → Status
error_of_message m code json =
    if is_context_error m
    then status no_such_execution_context
    else if m == "Cannot navigate to invalid URL"
    then status invalid_argument
    else if m == "Permission can't be granted in current context."
    then status_details invalid_argument "feature cannot be used in insecure context"
    else if m == "Push Permission without userVisibleOnly:true isn't supported"
        || m == "Permission can't be granted to opaque origins."
    then status_details invalid_argument m
    else if m == "Frame with the given id was not found."
        || m == "Frame with the given id does not belong to the target."
    then status_details no_such_frame m
    else if m == "No node found for given backend id" || m == "No node with given id found"
    then status_details no_such_element m
    else if is_navigation_error m
    then status_details aborted_by_navigation m
    else if is_code invalid_params_code code
    then if m == "No target with given id found"
      then status_details no_such_window m
      else status_details invalid_argument m
    else unhandled json

abbrev error_of : Option ℤ → Option String → String → Status
error_of code message json =
    if is_code method_not_found_code code
    then status_details unknown_command (message_or "UnknownCommand" message)
    else if is_code session_not_found_code code
    then status_details no_such_frame (message_or "inspector detached" message)
    else elim message [ none ↦ unhandled json | some m ↦ error_of_message m code json ]

module _ {V D : Type 0} (api : Values V D) (read : String → Option V) where
  unfoldable pub parse_inspector_error : String → Status
  parse_inspector_error json = elim (read json) [
    | none ↦ status_details unknown_error "inspector error with no error message"
    | some v ↦ elim (api.as_dict v) [
      | none ↦ status_details unknown_error "inspector error with no error message"
      | some d ↦ error_of (find_int api d "code") (find_string api d "message") json
    ]
  ]
