-- ===== src/Dispatch/Endings.antt =====
-- When a session ends, and what the command thread is told.
use chromedriver.Base.{String, ◌≡◌, Bool, not, ◌&&◌, ◌||◌, Option, List, [], ◌∷◌, arith}
use chromedriver.Status.{Status, is_error, code_eq, disconnected}
use chromedriver.Dispatch.{Chrome, Session, kill}

module _ {B : Type 0} (api : Chrome B) where
  kill-quit : (message : String) (s : Session B) → (kill api message s).1.quit ≡ s.quit
  unfolding kill
  kill-quit message s = ground arith

  -- No listener changes the marks of the session.
  abbrev pub Keeps : List (String → Session B → Status × Session B) → Type 0
  Keeps [] = Unit
  Keeps (l ∷ ls) = ((name : String) (s : Session B) → (l name s).1.quit ≡ s.quit) × Keeps ls

  module _ {A : Type 0} where
    -- Whether a command ends the session, by what its listeners and itself do
    abbrev pub ends : (Session B → Status × Option A × Session B) → Bool → Status × Session B → Bool
    ends command w3c_standard_command (e, s) =
        let r = command s in
        is_error e
        || (not (s.w3c_compliant && not w3c_standard_command)
            && (r.2.quit
                || (is_error r.0
                    && r.2.has_chrome
                    && (api.has_crashed_web_view r.2.browser || code_eq r.0.code disconnected))))
