-- ===== src/Examples/Dispatching.antt =====
-- A session with two connections whose browser closes the connection while a command runs.
use chromedriver.Base.{
  ℕ, String, ◌≡◌, refl, Bool, true, false, Option, none, some, List, [], ◌∷◌, pos, if◌then◌else◌,
  is_some,
}
use chromedriver.Status.{Status, status, ok, disconnected}
use chromedriver.Dispatch.{Chrome, Session, Task, reply, execute_on_session_thread}
use chromedriver.Dispatch.Replies.{answered, closed, execute_on_session_thread-answers}

-- The number of views that are left
abbrev browser : Chrome ℕ
browser = record {
  quit = λ b. (status ok, 0);
  has_crashed_web_view = λ b. false;
  get_top_level_web_view_ids = λ w b. (status ok, [], b);
  handle_received_events = λ b. (status ok, b);
  web_view_count = λ b. b;
  send_bidi_session_end = λ b. (status ok, b);
  browser_info = λ b. "chrome=1";
}

abbrev session : Session ℕ
session = record {
  id = "S";
  w3c_compliant = true;
  web_socket_url = true;
  quit = false;
  detach = false;
  window = "tab";
  has_chrome = true;
  browser = 2;
  connections = pos 4 ∷ pos 7 ∷ [];
  terminate_on_cmd = true;
}

abbrev lose : Session ℕ → Status × Option String × Session ℕ
lose s = (status disconnected, none, s)

abbrev listener : String → Session ℕ → Status × Session ℕ
listener name s = (status ok, s)

execute_on_session_thread-answers_example :
    let r =
      execute_on_session_thread browser "click" "S" lose true false
        (listener ∷ [])
        (some session) in
    (e : Status) × (value : Option String) × (w3c : Bool) × (rest : List (Task String)) × (r.0
      ≡ reply e value "S" w3c ∷ rest)
    × (answered rest ≡ [])
    × (closed rest ≡ (if is_some r.1 then [] else pos 4 ∷ pos 7 ∷ []))
execute_on_session_thread-answers_example =
    execute_on_session_thread-answers browser "click" "S" lose true false (listener ∷ []) session
      (λ name s. refl, tt) (λ t. refl)
