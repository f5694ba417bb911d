-- ===== src/Dialogs.antt =====
-- The JavaScript dialogs of chrome/devtools_client_impl.cc: HandleDialogOpening,
-- HandleDialogClosed, HandleDialog, SetAutoAcceptBeforeunload, IsDialogOpen, GetDialogMessage and
-- GetTypeOfDialog. While the client waits for the reply to Page.handleJavaScriptDialog it handles
-- further events of dialogs: an attempt to send the command carries these, with its status.
pub mod Alerts
pub mod Queues
pub mod Texts
use chromedriver.Base.{
  String, Bool, true, false, not, ◌&&◌, Option, none, some, List, [], ◌∷◌, ◌++◌, ◌==◌,
  if◌then◌else◌, is_some,
}
use chromedriver.Result.{Result, done, fail}
use chromedriver.Status.{Status, status, status_details, is_error, ok, unknown_error, no_such_alert}

pub record Dialogs : Type 0 where
  pub unhandled_dialog_queue : List String
  pub dialog_type_queue : List String
  pub prompt_text : String
  pub autoaccept_beforeunload : Bool

mutual
  -- Page.javascriptDialogOpening with "message", "type" and "defaultPrompt", where they are
  -- strings, and the two attempts to accept the dialog; and Page.javascriptDialogClosed.
  pub data Event : Type 0 where
    opening : Option String → Option String → Option String → Attempt → Attempt → Event
    closed : Event

  pub data Attempt : Type 0 where
    attempt : Events → Status → Attempt

  pub data Events : Type 0 where
    no_events : Events
    next : Event → Events → Events

abbrev pub is_nonempty {ℓ} : {A : Type ℓ} → List A → Bool
is_nonempty [] = false
is_nonempty (x ∷ xs) = true

abbrev pub set_auto_accept_beforeunload : Bool → Dialogs → Dialogs
set_auto_accept_beforeunload value d = record d { autoaccept_beforeunload = value }

-- front(), where `none` is the read of an empty list
abbrev pub front : List String → Option String
front [] = none
front (x ∷ xs) = some x

-- The guarded pop_front()
abbrev pub pop_front : List String → List String
pop_front [] = []
pop_front (x ∷ xs) = xs

abbrev pub is_dialog_open : Dialogs → Bool
is_dialog_open d = is_nonempty d.unhandled_dialog_queue

unfoldable pub get_dialog_message : Dialogs → Result (Option String)
get_dialog_message d =
    if is_dialog_open d then done (front d.unhandled_dialog_queue) else fail (status no_such_alert)

unfoldable pub get_type_of_dialog : Dialogs → Result (Option String)
get_type_of_dialog d =
    if is_dialog_open d then done (front d.dialog_type_queue) else fail (status no_such_alert)

-- The parameters of Page.handleJavaScriptDialog
unfoldable pub dialog_params : Bool → Option String → Dialogs → Bool × String
dialog_params accept none d = (accept, d.prompt_text)
dialog_params accept (some text) d = (accept, text)

abbrev pub pop : Dialogs → Dialogs
pop d = record d {
  unhandled_dialog_queue = pop_front d.unhandled_dialog_queue;
  dialog_type_queue = pop_front d.dialog_type_queue;
}

-- HandleDialog with what the two attempts do.
unfoldable pub handle_dialog_with :
    (Dialogs → Status × Dialogs) → (Dialogs → Status × Dialogs) → Dialogs → Status × Dialogs
handle_dialog_with first second d =
    let r = first d in
    let q = second r.1 in
    if not (is_dialog_open d)
    then (status no_such_alert, d)
    else if is_error r.0
    then (if is_error q.0 then q else (status ok, pop q.1))
    else (status ok, pop r.1)

-- HandleDialogOpening, where `accept` is HandleDialog(true, std::nullopt).
unfoldable pub handle_dialog_opening :
    Option String
    → Option String
    → Option String
    → (Dialogs → Status × Dialogs)
    → Dialogs
    → Status × Dialogs
handle_dialog_opening none type default_prompt accept d =
    (status_details unknown_error "dialog event missing or invalid 'message'", d)
handle_dialog_opening (some message) none default_prompt accept d = (
  status_details unknown_error "dialog has invalid 'type'",
  record d { unhandled_dialog_queue = d.unhandled_dialog_queue ++ message ∷ [] },
)
handle_dialog_opening (some message) (some type) none accept d = (
  status_details unknown_error "dialog event missing or invalid 'defaultPrompt'",
  record d {
    unhandled_dialog_queue = d.unhandled_dialog_queue ++ message ∷ [];
    dialog_type_queue = d.dialog_type_queue ++ type ∷ [];
  },
)
handle_dialog_opening (some message) (some type) (some default_prompt) accept d =
    let d' = record d {
      unhandled_dialog_queue = d.unhandled_dialog_queue ++ message ∷ [];
      dialog_type_queue = d.dialog_type_queue ++ type ∷ [];
      prompt_text = default_prompt;
    } in
    if type == "beforeunload" && d.autoaccept_beforeunload then accept d' else (status ok, d')

unfoldable pub handle_dialog_closed : Dialogs → Status × Dialogs
handle_dialog_closed d =
    (status ok, record d { unhandled_dialog_queue = []; dialog_type_queue = [] })

unfoldable mutual
  pub on_event : Event → Dialogs → Status × Dialogs
  on_event (opening message type default_prompt first second) d =
      handle_dialog_opening message type default_prompt
        (handle_dialog_with (send first) (send second)) d
  on_event closed d = handle_dialog_closed d

  -- SendCommand
  pub send : Attempt → Dialogs → Status × Dialogs
  send (attempt events s) d = (s, on_events events d)

  pub on_events : Events → Dialogs → Dialogs
  on_events no_events d = d
  on_events (next e es) d = on_events es (on_event e d).1

-- HandleDialog
unfoldable pub handle_dialog : Attempt → Attempt → Dialogs → Status × Dialogs
handle_dialog first second d = handle_dialog_with (send first) (send second) d
