-- ===== src/HttpHandler/Response.antt =====
-- PrepareStandardResponse and PrepareLegacyResponse of server/http_handler.cc.
use Prim.Native.Char.{Char}
use chromedriver.Base.{
  ℕ, ◌+◌, ◌-◌, String, Option, none, some, List, ◌<>◌, length, ltb, if◌then◌else◌,
}
use chromedriver.Values.{Values}
use chromedriver.HttpHandler.Text.{chars, of_chars, find_char, find_last_char, take, drop}
use chromedriver.Status.{
  StatusCode, Status, is_error, code_eq, code_number, status_code_to_string, add_details, ok,
  invalid_session_id, no_such_element, no_such_frame, unknown_command, stale_element_reference,
  element_not_visible, invalid_element_state, unknown_error, javascript_error, xpath_lookup_error,
  timeout, no_such_window, invalid_cookie_domain, unable_to_set_cookie, unexpected_alert_open,
  no_such_alert, script_timeout, invalid_selector, session_not_created, move_target_out_of_bounds,
  element_not_interactable, invalid_argument, no_such_cookie, element_click_intercepted,
  no_such_shadow_root, detached_shadow_root, unsupported_operation, no_such_execution_context,
  disconnected, tab_crashed, target_detached,
}

-- The enumerators of net::HttpStatusCode that the code names.
pub data HttpStatusCode : Type 0 where
  http_ok http_bad_request http_not_found : HttpStatusCode
  http_internal_server_error http_not_implemented : HttpStatusCode

-- The switch of PrepareStandardResponse.
unfoldable pub http_status : StatusCode → HttpStatusCode
http_status ok = http_ok
http_status invalid_session_id = http_not_found
http_status no_such_element = http_not_found
http_status no_such_frame = http_not_found
http_status unknown_command = http_not_found
http_status stale_element_reference = http_not_found
http_status element_not_visible = http_bad_request
http_status invalid_element_state = http_bad_request
http_status unknown_error = http_internal_server_error
http_status javascript_error = http_internal_server_error
http_status xpath_lookup_error = http_bad_request
http_status timeout = http_internal_server_error
http_status no_such_window = http_not_found
http_status invalid_cookie_domain = http_bad_request
http_status unable_to_set_cookie = http_internal_server_error
http_status unexpected_alert_open = http_internal_server_error
http_status no_such_alert = http_not_found
http_status script_timeout = http_internal_server_error
http_status invalid_selector = http_bad_request
http_status session_not_created = http_internal_server_error
http_status move_target_out_of_bounds = http_internal_server_error
http_status element_not_interactable = http_bad_request
http_status invalid_argument = http_bad_request
http_status no_such_cookie = http_not_found
http_status element_click_intercepted = http_bad_request
http_status no_such_shadow_root = http_not_found
http_status detached_shadow_root = http_not_found
http_status unsupported_operation = http_internal_server_error
http_status no_such_execution_context = http_bad_request
http_status disconnected = http_internal_server_error
http_status tab_crashed = http_internal_server_error
http_status target_detached = http_not_found
http_status _ = http_internal_server_error

-- The text behind the first colon and one more character, if there is any.
abbrev pub after_colon : List Char → String
after_colon s = elim (find_char b':' s) [
  | none ↦ of_chars s
  | some colon ↦ if ltb (colon + 2) (length s) then of_chars (drop (colon + 2) s) else of_chars s
]

-- The text that the code puts under "data.text" when an alert is open, from the characters of the
-- message. The difference `last - first` wraps around when the brace that closes stands first, and
-- `substr` then takes all that is left.
unfoldable pub extract_alert_text : List Char → String
extract_alert_text s = elim (find_char b'{' s) [
  | none ↦ ""
  | some first ↦ elim (find_last_char b'}' s) [
    | none ↦ ""
    | some last ↦
        after_colon (if ltb last first then drop first s else take (last - first) (drop first s))
  ]
]

unfoldable pub alert_text : String → String
alert_text message = extract_alert_text (chars message)

-- The members of the JSON document that is the body of a standard response.
pub data Body (V : Type 0) : Type 0 where
  error_body : String → String → String → Option String → Body V
  value_body : V → Body V

pub record Response (V : Type 0) : Type 0 where
  pub code : HttpStatusCode
  pub body : Body V

pub data LegacyBody (V : Type 0) : Type 0 where
  plain_text : String → LegacyBody V
  json_body : ℕ → V → String → LegacyBody V

pub record LegacyResponse (V : Type 0) : Type 0 where
  pub code : HttpStatusCode
  pub body : LegacyBody V

module _ {V D : Type 0} (api : Values V D) where
  open api use {none_value, of_string, of_dict, empty_dict, set}

  abbrev value_or_none : Option V → V
  value_or_none none = none_value
  value_or_none (some v) = v

  -- PrepareStandardResponse; `stack_trace` is what `status.stack_trace()` answers.
  unfoldable pub prepare_standard_response : Status → String → Option V → Response V
  prepare_standard_response s stack_trace value = record {
    code = http_status s.code;
    body =
        if is_error s
        then error_body (status_code_to_string s.code) s.message stack_trace
            (if code_eq s.code unexpected_alert_open then some (alert_text s.message) else none)
        else value_body (value_or_none value);
  }

  -- PrepareLegacyResponse; `driver_info` is the formatted text about the driver and the system.
  unfoldable pub prepare_legacy_response :
      String → Status → Option V → String → String → LegacyResponse V
  prepare_legacy_response trimmed_path s value session_id driver_info =
      if code_eq s.code unknown_command
      then record {
        code = http_not_implemented;
        body = plain_text ("unimplemented command: " <> trimmed_path);
      }
      else record {
        code = http_ok;
        body =
            json_body (code_number s.code)
              (if is_error s
                then of_dict
                    (set empty_dict "message" (of_string (add_details s driver_info).message))
                else value_or_none value)
              session_id;
      }
