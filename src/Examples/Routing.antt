-- ===== src/Examples/Routing.antt =====
-- A root with one child, whose events fail; the state counts the messages.
use chromedriver.Base.{
  ℕ, suc, ◌≡◌, refl, true, false, ◌⊎◌, none, some, [], ◌∷◌, ◌==◌, if◌then◌else◌,
}
use chromedriver.Status.{status, ok, unknown_error, is_error}
use chromedriver.DevTools.Messages.{Message, event}
use chromedriver.DevTools.Routing.{Clients, text, handle_message, session_of}
use chromedriver.DevTools.Routing.Isolated.{Concerns, handle_message-Concerns}

abbrev clients : Clients ℕ ℕ
clients = record {
  notify_listeners = λ client s. (status ok, s);
  is_waiting = λ client i s. true;
  is_crashed = λ client s. false;
  is_detached = λ client s. false;
  is_connected = λ client s. true;
  children = λ s. "child" ∷ [];
  receive = λ s. (text "message", s);
  process = λ session m s. (status (if session == "child" then unknown_error else ok), suc s);
  parse = λ message. some (event "child" "Page.frameDetached" 0);
  duration = "0";
  has_message = λ s. false;
  is_expired = λ s. false;
}

-- Another client is not told of the failure.
other_client : (handle_message clients "" "other" "message" 0).0 ≡ status ok
unfolding handle_message
other_client = refl

handle_message-Concerns_example :
    (clients.parse "message" ≡ none)
    ⊎ ((m : Message ℕ) × (clients.parse "message" ≡ some m)
        × Concerns clients "" "child" m
        × (is_error (clients.process (session_of m) m 0).0 ≡ true))
unfolding handle_message
handle_message-Concerns_example = handle_message-Concerns clients "" "child" "message" 0 refl
