-- ===== src/Timeouts/Legacy.antt =====
-- The timeouts of the legacy protocol: ExecuteSetTimeoutLegacy, ExecuteSetScriptTimeout and
-- ExecuteImplicitlyWait of session_commands.cc. A double is given by whether it is negative and by
-- its integral part, which is an int.
use chromedriver.Base.{
  ℕ, ◌≡◌, refl, String, Bool, false, Option, none, some, [], ◌∷◌, ◌<>◌, ◌==◌, if◌then◌else◌, ℤ, pos,
}
use chromedriver.Status.{Status, status, status_details, ok, invalid_argument}
use chromedriver.Timeouts.{Time, Session, int, store, set_timeouts, delta_of, get_optional_safe_int}

pub record Double : Type 0 where
  pub is_negative : Bool
  pub integral : ℤ

-- Milliseconds of an int, the test for a negative time, and kDefaultPageLoadTimeout
pub record SignedTime (T : Type 0) : Type 0 where
  pub milliseconds : ℤ → T
  pub is_negative : T → Bool
  pub default_page_load : T

module _ {T : Type 0} (time : SignedTime T) where
  open time use {milliseconds, is_negative, default_page_load}

  abbrev pub store_legacy : String → T → Session T → Status × Session T
  store_legacy type d s =
      if type == "implicit"
      then (status ok, record s { implicit_wait = d })
      else if type == "script"
      then (status ok, record s { script_timeout = d })
      else if type == "page load"
      then (
        status ok,
        record s { page_load_timeout = if is_negative d then default_page_load else d },
      )
      else (status_details invalid_argument ("unknown type of timeout:" <> type), s)

  -- ExecuteSetTimeoutLegacy, with the double under "ms" and the string under "type"
  unfoldable pub set_timeout_legacy : Option Double → Option String → Session T → Status × Session T
  set_timeout_legacy none type s = (status_details invalid_argument "'ms' must be a double", s)
  set_timeout_legacy (some ms) none s =
      (status_details invalid_argument "'type' must be a string", s)
  set_timeout_legacy (some ms) (some type) s = store_legacy type (milliseconds ms.integral) s

  abbrev refused : Status
  refused = status_details invalid_argument "'ms' must be a non-negative number"

  unfoldable pub set_script_timeout : Option Double → Session T → Status × Session T
  set_script_timeout none s = (refused, s)
  set_script_timeout (some ms) s =
      if ms.is_negative
      then (refused, s)
      else (status ok, record s { script_timeout = milliseconds ms.integral })

  unfoldable pub implicitly_wait : Option Double → Session T → Status × Session T
  implicitly_wait none s = (refused, s)
  implicitly_wait (some ms) s =
      if ms.is_negative
      then (refused, s)
      else (status ok, record s { implicit_wait = milliseconds ms.integral })

  -- The types of a timeout in the two protocols
  pub data Pair : String → String → Type 0 where
    script : Pair "script" "script"
    implicit : Pair "implicit" "implicit"
    page_load : Pair "page load" "pageLoad"

  -- A timeout that is not negative is set alike by both protocols.
  pub set_timeout_legacy-eq :
      (standard : Time T) (type legacy_type : String) (n : ℕ) (s : Session T)
      → Pair legacy_type type
      → standard.milliseconds n ≡ milliseconds (pos n)
      → is_negative (milliseconds (pos n)) ≡ false
      → set_timeout_legacy
          (some (record { is_negative = false; integral = pos n }))
          (some legacy_type)
          s
        ≡ set_timeouts standard
            ((type, record { is_null = false; at_path = some (int (pos n)) }) ∷ [])
            s
  unfolding set_timeout_legacy set_timeouts delta_of get_optional_safe_int store
  set_timeout_legacy-eq standard type legacy_type n s script same positive = rw same refl
  set_timeout_legacy-eq standard type legacy_type n s implicit same positive = rw same refl
  set_timeout_legacy-eq standard type legacy_type n s page_load same positive =
      rw (same, positive) refl
