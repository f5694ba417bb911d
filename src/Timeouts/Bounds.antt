-- ===== src/Timeouts/Bounds.antt =====
-- The timeouts of a session are safe integers of milliseconds.
use chromedriver.Base.{
  ◌≡◌, String, Bool, true, ◌&&◌, ◌||◌, Option, none, some, List, [], ◌∷◌, ◌==◌, ltb, pos, negsuc,
  arith, Bool-cases, inl, inr,
}
use chromedriver.Result.{done, Result-cases}
use chromedriver.Timeouts.{
  Time, TimeLaws, Number, int, double, other, Setting, Session, safe_limit, get_optional_safe_int,
  delta_of_int, delta_of, store, set_timeouts,
}
use chromedriver.Timeouts.Reported.{fits, all_fit}

module _ {T : Type 0} (time : Time T) where
  abbrev is_safe : T → Bool
  is_safe d = ltb (time.in_milliseconds d) safe_limit

  -- Every timeout is below 2^53 milliseconds, but that of scripts may have no limit.
  abbrev pub is_bounded : Session T → Bool
  is_bounded s =
      (time.is_max s.script_timeout || is_safe s.script_timeout)
      && is_safe s.page_load_timeout
      && is_safe s.implicit_wait

module _ {T : Type 0} (time : Time T) (laws : TimeLaws time) where
  number_safe :
      (o : Option Number) (d : T)
      → fits o ≡ true
      → delta_of_int time (get_optional_safe_int o) ≡ done d
      → is_safe time d ≡ true
  unfolding get_optional_safe_int
  number_safe none d f e = ground (arith, e)
  number_safe (some (int (pos n))) d f e = ground (arith, e, f, laws.in_milliseconds-milliseconds n)
  number_safe (some (int (negsuc n))) d f e = ground (arith, e)
  number_safe (some (double (pos n) b)) d f e =
      ground (arith, e, f, laws.in_milliseconds-milliseconds n)
  number_safe (some (double (negsuc n) b)) d f e = ground (arith, e)
  number_safe (some other) d f e = ground (arith, e)

  delta_of-is_safe :
      (type : String) (v : Setting) (d : T)
      → fits v.at_path ≡ true
      → delta_of time type v ≡ done d
      → (is_safe time d || (time.is_max d && type == "script")) ≡ true
  unfolding delta_of
  delta_of-is_safe type v d f e = elim (Bool-cases v.is_null) [
    | inl k ↦ ground (arith, e, k, laws.is_max-max)
    | inr k ↦ ground (arith, k, number_safe v.at_path d f (ground (arith, e, k)))
  ]

  store-is_bounded :
      (type : String) (v : Setting) (d : T) (s : Session T)
      → fits v.at_path ≡ true
      → delta_of time type v ≡ done d
      → is_bounded time s ≡ true
      → is_bounded time (store type d s) ≡ true
  unfolding store
  store-is_bounded type v d s f e b = ground (arith, b, delta_of-is_safe type v d f e)

  -- Timeouts stay below 2^53 milliseconds, or without a limit for scripts, whatever entries are
  -- given, if every int has 32 bits, and also when an entry is refused.
  pub set_timeouts-is_bounded :
      (params : List (String × Setting)) (s : Session T)
      → all_fit params ≡ true
      → is_bounded time s ≡ true
      → is_bounded time (set_timeouts time params s).1 ≡ true
  unfolding set_timeouts
  set_timeouts-is_bounded [] s f b = b
  set_timeouts-is_bounded ((type, v) ∷ params) s f b = elim (Result-cases (delta_of time type v)) [
    | inr (x, e) ↦ ground (arith, e, b)
    | inl (d, e) ↦ ground (
      arith,
      e,
      set_timeouts-is_bounded params (store type d s) (ground (arith, f))
          (store-is_bounded type v d s (ground (arith, f)) e b),
    )
  ]
