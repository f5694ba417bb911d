-- ===== src/Windows/Prompts.antt =====
-- What a window command does while a dialog is open.
use chromedriver.Base.{String, ◌≡◌, refl, ◌∙◌, Bool, true, false, Option, some, List, ◌∷◌, arith}
use chromedriver.Values.{Values}
use chromedriver.Status.{
  Status, status, status_details, is_error, ok, unexpected_alert_open, invalid_argument,
}
use chromedriver.PromptBehavior.{
  Configuration, PromptHandlerType, accept, dismiss, ignore, get_configuration, Slot, alert,
  handler, dialog_type,
}
use chromedriver.Dialogs.{Dialogs, get_dialog_message, get_type_of_dialog}
use chromedriver.HttpHandler.AlertText.{alert_message}
use chromedriver.Windows.{
  Session, View, handled, answer_dialog, answer_typed, handle_open_dialog, execute_window_command,
}

module _ {V D W : Type 0} (api : Values V D) (web : View V W) where
  open web use {get_target_window, handle_received_events}

  -- The dialogs that a configuration leaves
  abbrev pub dialogs_left : Configuration → Session V W → Status × Dialogs
  dialogs_left c s = elim c.type [
    | accept ↦ handled api web true s
    | dismiss ↦ handled api web false s
    | ignore ↦ (status ok, s.dialogs)
  ]

  abbrev after : Configuration → Session V W → Session V W
  after c t = record t { dialogs = (dialogs_left c t).1 }

  answer_dialog-notifies :
      (c : Configuration) (text : String) (t : Session V W)
      → c.notify ≡ true
      → is_error (dialogs_left c t).0 ≡ false
      → answer_dialog api web c text t
        ≡ (some (record { code = unexpected_alert_open; message = alert_message text }), after c t)
  unfolding answer_dialog
  answer_dialog-notifies c text t n good = cases c.type c.notify n good
    where
      cases :
          (k : PromptHandlerType) (b : Bool)
          → b ≡ true
          → is_error (dialogs_left (record { type = k; notify = b }) t).0 ≡ false
          → answer_dialog api web (record { type = k; notify = b }) text t ≡ (
            some (record { code = unexpected_alert_open; message = alert_message text }),
            after (record { type = k; notify = b }) t,
          )
      cases accept b n good = rw (good, n) refl
      cases dismiss b n good = rw (good, n) refl
      cases ignore b n good = rw n refl

  answer_typed-slot :
      (slot : Slot) (text : String) (t : Session V W)
      → answer_typed api web (some text) (some (dialog_type slot)) t
        ≡ answer_dialog api web (handler t.unhandled_prompt_behavior slot) text t
  unfolding answer_typed get_configuration
  answer_typed-slot slot text t =
      elim slot
        as (λ (k : Slot).
          answer_typed api web (some text) (some (dialog_type k)) t
          ≡ answer_dialog api web (handler t.unhandled_prompt_behavior k) text t) [
            | alert ↦ refl
            | _ ↦ refl
          ]

  handle_open_dialog-typed :
      (text type : String) (texts types : List String) (t : Session V W)
      → t.dialogs.unhandled_dialog_queue ≡ text ∷ texts
      → t.dialogs.dialog_type_queue ≡ type ∷ types
      → handle_open_dialog api web t ≡ answer_typed api web (some text) (some type) t
  unfolding handle_open_dialog get_dialog_message get_type_of_dialog
  handle_open_dialog-typed text type texts types t q p = ground (arith, q, p)

  module _ {A : Type 0} (run : Session V W → Option A → Status × Option A × Session V W) where
    -- A window command that finds a dialog open whose configuration notifies does not run: it
    -- answers with the text of the dialog, and of the session only the dialogs change, as the
    -- configuration says, if the window is there, the events were handled and the dialog could be.
    pub execute_window_command-notifies :
        (slot : Slot) (text : String) (texts types : List String) (value : Option A)
        (s t : Session V W)
        → is_error (get_target_window s) ≡ false
        → handle_received_events s ≡ (status ok, t)
        → t.dialogs.unhandled_dialog_queue ≡ text ∷ texts
        → t.dialogs.dialog_type_queue ≡ dialog_type slot ∷ types
        → (handler t.unhandled_prompt_behavior slot).notify ≡ true
        → is_error (dialogs_left (handler t.unhandled_prompt_behavior slot) t).0 ≡ false
        → execute_window_command api web run value s ≡ (
          record { code = unexpected_alert_open; message = alert_message text },
          value,
          record t { dialogs = (dialogs_left (handler t.unhandled_prompt_behavior slot) t).1 },
        )
    unfolding execute_window_command
    execute_window_command-notifies slot text texts types value s t target events queue type notify
          good =
        let c = handler t.unhandled_prompt_behavior slot in
        let answered =
          handle_open_dialog-typed text (dialog_type slot) texts types t queue type
          ∙ answer_typed-slot slot text t
          ∙ answer_dialog-notifies c text t notify good in
        rw (target, events, answered) refl

    -- While a dialog for leaving the page is open, as the browser names it, every window command
    -- fails and leaves the dialog open: no configuration is found for its type. The window is there
    -- and the events were handled.
    pub execute_window_command-beforeunload :
        (text : String) (texts types : List String) (value : Option A) (s t : Session V W)
        → is_error (get_target_window s) ≡ false
        → handle_received_events s ≡ (status ok, t)
        → t.dialogs.unhandled_dialog_queue ≡ text ∷ texts
        → t.dialogs.dialog_type_queue ≡ "beforeunload" ∷ types
        → execute_window_command api web run value s
          ≡ (status_details invalid_argument "Unexpected dialog type beforeunload", value, t)
    unfolding execute_window_command answer_typed get_configuration
    execute_window_command-beforeunload text texts types value s t target events queue type =
        rw (target, events, handle_open_dialog-typed text "beforeunload" texts types t queue type)
          refl
