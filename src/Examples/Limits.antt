-- ===== src/Examples/Limits.antt =====
-- Timeouts in microseconds.
use chromedriver.Base.{
  ℕ, ◌*◌, ◌/◌, ◌<◌, ◌≡◌, String, true, false, refl, some, none, List, [], ◌∷◌, eqb, arith, pos,
}
use chromedriver.Timeouts.{
  Time, TimeLaws, Setting, Session, double, get_timeouts, set_timeouts, safe_limit, delta_of, store,
  get_optional_safe_int,
}
use chromedriver.Timeouts.Reported.{asked, set_timeouts-get_timeouts}
use chromedriver.Timeouts.Bounds.{is_bounded, set_timeouts-is_bounded}

abbrev micro : Time ℕ
micro = record {
  milliseconds = λ n. n * 1000;
  in_milliseconds = λ t. t / 1000;
  max = 9223372036854775807;
  is_max = λ t. eqb t 9223372036854775807;
}

back : (n : ℕ) → n < safe_limit → n * 1000 / 1000 ≡ n
back n h = omega arith

not_max : (n : ℕ) → n < safe_limit → eqb (n * 1000) 9223372036854775807 ≡ false
not_max n h = ground arith

micro_laws : TimeLaws micro
micro_laws = record {
  in_milliseconds-milliseconds = back;
  is_max-milliseconds = not_max;
  is_max-max = refl;
}

abbrev session : Session ℕ
session = record { implicit_wait = 0; page_load_timeout = 300000000; script_timeout = 30000000 }

-- No limit for scripts, and ten thousand days for a page
abbrev params : List (String × Setting)
params =
    ("pageLoad", record { is_null = false; at_path = some (double (pos 864000000000) true) })
    ∷ ("script", record { is_null = true; at_path = none })
    ∷ []

set_timeouts-get_timeouts_example :
    let old = get_timeouts micro session in
    let new = get_timeouts micro (set_timeouts micro params session).1 in
    (new.script ≡ asked "script" params old.script)
    × (new.page_load ≡ asked "pageLoad" params old.page_load)
    × (new.implicit ≡ asked "implicit" params old.implicit)
unfolding set_timeouts delta_of store get_optional_safe_int
set_timeouts-get_timeouts_example =
    set_timeouts-get_timeouts micro micro_laws params session refl refl

set_timeouts-is_bounded_example : is_bounded micro (set_timeouts micro params session).1 ≡ true
set_timeouts-is_bounded_example = set_timeouts-is_bounded micro micro_laws params session refl refl
