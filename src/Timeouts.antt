-- ===== src/Timeouts.antt =====
-- The timeouts of a session: ExecuteSetTimeoutsW3C and ExecuteGetTimeouts of session_commands.cc,
-- with GetOptionalSafeInt of util.cc. `T` stands for base::TimeDelta.
pub mod Reported
pub mod Legacy
pub mod Bounds
use chromedriver.Base.{
  ℕ, suc, ◌≡◌, ◌<◌, String, Bool, true, false, ◌&&◌, Option, none, some, List, [], ◌∷◌, ◌==◌,
  if◌then◌else◌, ℤ, pos, negsuc, ltb,
}
use chromedriver.Result.{Result, done, fail}
use chromedriver.Status.{Status, status, status_details, ok, invalid_argument}

-- Milliseconds(n), InMilliseconds(), Max() and the comparison with it
pub record Time (T : Type 0) : Type 0 where
  pub milliseconds : ℕ → T
  pub in_milliseconds : T → ℕ
  pub max : T
  pub is_max : T → Bool

-- 2^53, from which on an integer is not safe
abbrev pub safe_limit : ℕ
safe_limit = 9007199254740992

-- A safe integer of milliseconds has its microseconds in 64 bits.
pub record TimeLaws {T : Type 0} (time : Time T) : Type 0 where
  pub in_milliseconds-milliseconds :
      (n : ℕ) → n < safe_limit → time.in_milliseconds (time.milliseconds n) ≡ n
  pub is_max-milliseconds : (n : ℕ) → n < safe_limit → time.is_max (time.milliseconds n) ≡ false
  pub is_max-max : time.is_max time.max ≡ true

-- A value of a parameter: a double is its integral part, with whether that is all of it.
pub data Number : Type 0 where
  int : ℤ → Number
  double : ℤ → Bool → Number
  other : Number

-- An entry of the parameters: whether it is null, and what is found at its key as a path
pub record Setting : Type 0 where
  pub is_null : Bool
  pub at_path : Option Number

abbrev pub is_safe_int : ℤ → Bool
is_safe_int (pos n) = ltb n safe_limit
is_safe_int (negsuc n) = ltb (suc n) safe_limit

-- GetOptionalSafeInt: what it returns, and what it writes. An int has 32 bits.
unfoldable pub get_optional_safe_int : Option Number → Bool × Option ℤ
get_optional_safe_int none = (true, none)
get_optional_safe_int (some (int i)) = (true, some i)
get_optional_safe_int (some (double i is_integral)) =
    if is_integral && is_safe_int i then (true, some i) else (false, none)
get_optional_safe_int (some other) = (false, none)

pub record Session (T : Type 0) : Type 0 where
  pub implicit_wait : T
  pub page_load_timeout : T
  pub script_timeout : T

-- The answer of ExecuteGetTimeouts, where `none` is null
pub record Timeouts : Type 0 where
  pub script : Option ℕ
  pub page_load : Option ℕ
  pub implicit : Option ℕ

module _ {T : Type 0} where
  unfoldable pub store : String → T → Session T → Session T
  store type d s =
      if type == "script"
      then record s { script_timeout = d }
      else if type == "pageLoad"
      then record s { page_load_timeout = d }
      else if type == "implicit"
      then record s { implicit_wait = d }
      else s

module _ {T : Type 0} (time : Time T) where
  abbrev pub delta_of_int : Bool × Option ℤ → Result T
  delta_of_int (true, some (pos n)) = done (time.milliseconds n)
  delta_of_int _ = fail (status_details invalid_argument "value must be a non-negative integer")

  unfoldable pub delta_of : String → Setting → Result T
  delta_of type s =
      if s.is_null
      then if type == "script"
        then done time.max
        else fail (status_details invalid_argument "timeout can not be null")
      else delta_of_int (get_optional_safe_int s.at_path)

  -- The loop over the parameters; what was stored before an error stays.
  unfoldable pub set_timeouts : List (String × Setting) → Session T → Status × Session T
  set_timeouts [] s = (status ok, s)
  set_timeouts ((type, setting) ∷ params) s = elim (delta_of type setting) [
    | fail e ↦ (e, s)
    | done d ↦ set_timeouts params (store type d s)
  ]

  abbrev pub reported : T → Option ℕ
  reported d = if time.is_max d then none else some (time.in_milliseconds d)

  unfoldable pub get_timeouts : Session T → Timeouts
  get_timeouts s = record {
    script = reported s.script_timeout;
    page_load = some (time.in_milliseconds s.page_load_timeout);
    implicit = some (time.in_milliseconds s.implicit_wait);
  }
