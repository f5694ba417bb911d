-- ===== src/FedCm/Closing.antt =====
-- The dialogs that the commands of fedcm_commands.cc answer, and the one that is open behind them.
use chromedriver.Base.{
  String, ◌≡◌, refl, ap, Bool, true, false, not, ◌&&◌, Bool-cases, Option, none, some, List, [],
  ◌∷◌, inl, inr, if◌then◌else◌, is_some, ◌==◌, eq_refl, arith,
}
use chromedriver.Status.{status, is_ok, no_such_alert}
use chromedriver.FedCm.{FedCmTracker, Event, has_dialog, close_dialog, on_events}
use chromedriver.FedCm.Commands.{
  Reply, Command, cancel_dialog, select_account, click_dialog_button, get_accounts, get_dialog_type,
  get_title, set_delay_enabled, reset_cooldown, Sent, fedcm_enable, dismiss_dialog,
  select_account_of, open_url, click_button_of, reset, is_url, select, click, run_on_dialog,
  needs_dialog, run_with_tracker, get_tracker, execute,
}

-- The dialog that a message to the browser names
abbrev names : String → Sent → Bool
names id (fedcm_enable b) = true
names id reset = true
names id (dismiss_dialog d) = d == id
names id (select_account_of d i) = d == id
names id (open_url d i u) = d == id
names id (click_button_of d b) = d == id

abbrev pub all_name : String → List Sent → Bool
all_name id [] = true
all_name id (x ∷ xs) = names id x && all_name id xs

module _ {A : Type 0} where
  -- The commands that take their dialog away when the browser has answered
  abbrev pub ends_dialog : Command A → Reply A → Bool
  ends_dialog cancel_dialog r = true
  ends_dialog (select_account i) r = is_some i && is_ok r.result
  ends_dialog (click_dialog_button (some b) i) r = not (is_url b)
  ends_dialog _ r = false

  abbrev pub dialog_left : Option (FedCmTracker A) → Bool
  dialog_left none = false
  dialog_left (some t) = has_dialog t

  abbrev pub listens : List Sent → List (Event A) → List (Event A)
  listens [] es = []
  listens (x ∷ xs) es = es

module _ {A : Type 0} (no_accounts : A) where
  execute-run_on_dialog :
      (command : Command A) (enable r : Reply A) (t : FedCmTracker A)
      → has_dialog t ≡ true
      → execute no_accounts command enable r (some t) ≡ run_on_dialog no_accounts command r t
  unfolding execute get_tracker run_with_tracker
  execute-run_on_dialog cancel_dialog e r t h = ground arith
  execute-run_on_dialog (select_account i) e r t h = ground arith
  execute-run_on_dialog (click_dialog_button b i) e r t h = ground arith
  execute-run_on_dialog get_accounts e r t h = ground arith
  execute-run_on_dialog get_dialog_type e r t h = ground arith
  execute-run_on_dialog get_title e r t h = ground arith
  execute-run_on_dialog (set_delay_enabled b) e r t h = ground arith
  execute-run_on_dialog reset_cooldown e r t h = ground arith

  run_on_dialog-ends :
      (command : Command A) (r : Reply A) (t : FedCmTracker A)
      → ends_dialog command r ≡ true
      → dialog_left (run_on_dialog no_accounts command r t).tracker ≡ false
  unfolding run_on_dialog select click close_dialog
  run_on_dialog-ends cancel_dialog r t e = refl
  run_on_dialog-ends (select_account (some i)) r t e = ground arith
  run_on_dialog-ends (click_dialog_button (some b) none) r t e = ground arith
  run_on_dialog-ends (click_dialog_button (some b) (some i)) r t e = ground arith
  run_on_dialog-ends (select_account none) r t e = ground arith
  run_on_dialog-ends (click_dialog_button none i) r t e = ground arith
  run_on_dialog-ends get_accounts r t e = ground arith
  run_on_dialog-ends get_dialog_type r t e = ground arith
  run_on_dialog-ends get_title r t e = ground arith
  run_on_dialog-ends (set_delay_enabled b) r t e = ground arith
  run_on_dialog-ends reset_cooldown r t e = ground arith

  run_on_dialog-stays :
      (command : Command A) (r : Reply A) (t : FedCmTracker A)
      → ends_dialog command r ≡ false
      → let o = run_on_dialog no_accounts command r t in
        o.tracker ≡ some (on_events no_accounts (listens o.sent r.events) t)
  unfolding run_on_dialog select click on_events
  run_on_dialog-stays cancel_dialog r t e = ground arith
  run_on_dialog-stays (select_account (some i)) r t e = ground arith
  run_on_dialog-stays (click_dialog_button (some b) none) r t e = ground arith
  run_on_dialog-stays (click_dialog_button (some b) (some i)) r t e = ground arith
  run_on_dialog-stays (select_account none) r t e = refl
  run_on_dialog-stays (click_dialog_button none i) r t e = refl
  run_on_dialog-stays get_accounts r t e = refl
  run_on_dialog-stays get_dialog_type r t e = refl
  run_on_dialog-stays get_title r t e = refl
  run_on_dialog-stays (set_delay_enabled none) r t e = refl
  run_on_dialog-stays (set_delay_enabled (some b)) r t e = refl
  run_on_dialog-stays reset_cooldown r t e = refl

  run_on_dialog-names :
      (command : Command A) (r : Reply A) (t : FedCmTracker A)
      → all_name t.last_dialog_id (run_on_dialog no_accounts command r t).sent ≡ true
  unfolding run_on_dialog select click
  run_on_dialog-names cancel_dialog r t = rw (eq_refl t.last_dialog_id) refl
  run_on_dialog-names (select_account (some i)) r t = ground (arith, eq_refl t.last_dialog_id)
  run_on_dialog-names (click_dialog_button (some b) none) r t =
      ground (arith, eq_refl t.last_dialog_id)
  run_on_dialog-names (click_dialog_button (some b) (some i)) r t =
      ground (arith, eq_refl t.last_dialog_id)
  run_on_dialog-names (select_account none) r t = refl
  run_on_dialog-names (click_dialog_button none i) r t = refl
  run_on_dialog-names get_accounts r t = refl
  run_on_dialog-names get_dialog_type r t = refl
  run_on_dialog-names get_title r t = refl
  run_on_dialog-names (set_delay_enabled none) r t = refl
  run_on_dialog-names (set_delay_enabled (some b)) r t = refl
  run_on_dialog-names reset_cooldown r t = refl

  -- For a dialog that is open, what a command sends names that dialog. No dialog is left if the
  -- command is a cancel, a click on a button that opens no page, or an account that the browser
  -- accepts, whatever the page has shown while the command waited; otherwise the events of the
  -- wait, if anything was sent, decide whether one is left.
  pub execute-dialog_left :
      (command : Command A) (enable r : Reply A) (t : FedCmTracker A)
      → has_dialog t ≡ true
      → let o = execute no_accounts command enable r (some t) in
        (all_name t.last_dialog_id o.sent ≡ true)
        × (dialog_left o.tracker ≡ (
            if ends_dialog command r
            then false
            else has_dialog (on_events no_accounts (listens o.sent r.events) t)))
  execute-dialog_left command enable r t h = rw (execute-run_on_dialog command enable r t h) (
    run_on_dialog-names command r t,
    elim (Bool-cases (ends_dialog command r)) [
      | inl e ↦ rw e (run_on_dialog-ends command r t e)
      | inr e ↦ rw e (ap dialog_left (run_on_dialog-stays command r t e))
    ],
  )

  -- A command that needs a dialog is refused with kNoSuchAlert when none is open, sends nothing and
  -- leaves the tracker as it is.
  pub execute-no_such_alert :
      (command : Command A) (enable r : Reply A) (t : FedCmTracker A)
      → needs_dialog command ≡ true
      → has_dialog t ≡ false
      → let o = execute no_accounts command enable r (some t) in
        (o.result ≡ status no_such_alert) × (o.sent ≡ []) × (o.tracker ≡ some t)
  unfolding execute get_tracker run_with_tracker
  execute-no_such_alert cancel_dialog enable r t n h = (ground arith, ground arith, ground arith)
  execute-no_such_alert (select_account i) enable r t n h =
      (ground arith, ground arith, ground arith)
  execute-no_such_alert (click_dialog_button b i) enable r t n h =
      (ground arith, ground arith, ground arith)
  execute-no_such_alert get_accounts enable r t n h = (ground arith, ground arith, ground arith)
  execute-no_such_alert get_dialog_type enable r t n h = (ground arith, ground arith, ground arith)
  execute-no_such_alert get_title enable r t n h = (ground arith, ground arith, ground arith)
  execute-no_such_alert (set_delay_enabled b) enable r t n h = ground arith
  execute-no_such_alert reset_cooldown enable r t n h = ground arith
