-- ===== src/Timeouts/Reported.antt =====
-- The timeouts that are reported after they were set.
use mathlib.Core.Path.{subst}
use chromedriver.Base.{
  ℕ, ◌≡◌, refl, String, Bool, true, false, ◌&&◌, Option, none, some, List, [], ◌∷◌, ◌==◌,
  if◌then◌else◌, ltb, ℤ, pos, negsuc, arith, sym, eq_of_==, ap, ◌∙◌, Bool-cases, inl, inr,
}
use chromedriver.Result.{done, fail, Result-cases}
use chromedriver.Status.{Status, is_ok}
use chromedriver.Timeouts.{
  Time, TimeLaws, Number, int, double, other, Setting, Session, get_optional_safe_int, delta_of_int,
  delta_of, store, set_timeouts, get_timeouts, reported,
}

abbrev natural : Option ℤ → Option ℕ
natural (some (pos n)) = some n
natural _ = none

-- The milliseconds that an entry asks for; `none` is no limit.
abbrev pub value_of : Setting → Option ℕ
value_of s = if s.is_null then none else natural (get_optional_safe_int s.at_path).1

-- The last entry for a key decides.
abbrev pub asked : String → List (String × Setting) → Option ℕ → Option ℕ
asked key [] old = old
asked key ((k, s) ∷ params) old = asked key params (if k == key then value_of s else old)

-- An int of //base has 32 bits.
abbrev is_int : ℤ → Bool
is_int (pos n) = ltb n 2147483648
is_int (negsuc n) = ltb n 2147483648

abbrev pub fits : Option Number → Bool
fits none = true
fits (some (int i)) = is_int i
fits (some (double i b)) = true
fits (some other) = true

abbrev pub all_fit : List (String × Setting) → Bool
all_fit [] = true
all_fit ((k, s) ∷ params) = fits s.at_path && all_fit params

differs : (type j k : String) → (j == k) ≡ false → (type == j) ≡ true → (type == k) ≡ false
differs type j k n e = subst (λ (t : String). (t == k) ≡ false) (sym (eq_of_== type j e)) n

module _ {T : Type 0} (time : Time T) (laws : TimeLaws time) where
  number_delta :
      (o : Option Number) (d : T)
      → fits o ≡ true
      → delta_of_int time (get_optional_safe_int o) ≡ done d
      → (reported time d ≡ natural (get_optional_safe_int o).1)
        × (some (time.in_milliseconds d) ≡ natural (get_optional_safe_int o).1)
  unfolding get_optional_safe_int
  number_delta none d f e = (ground (arith, e), ground (arith, e))
  number_delta (some (int (pos n))) d f e = (
    ground (arith, e, f, laws.is_max-milliseconds n, laws.in_milliseconds-milliseconds n),
    ground (arith, e, f, laws.in_milliseconds-milliseconds n),
  )
  number_delta (some (int (negsuc n))) d f e = (ground (arith, e), ground (arith, e))
  number_delta (some (double (pos n) b)) d f e = (
    ground (arith, e, f, laws.is_max-milliseconds n, laws.in_milliseconds-milliseconds n),
    ground (arith, e, f, laws.in_milliseconds-milliseconds n),
  )
  number_delta (some (double (negsuc n) b)) d f e = (ground (arith, e), ground (arith, e))
  number_delta (some other) d f e = (ground (arith, e), ground (arith, e))

  delta_of-reported :
      (type : String) (s : Setting) (d : T)
      → fits s.at_path ≡ true
      → delta_of time type s ≡ done d
      → reported time d ≡ value_of s
  unfolding delta_of
  delta_of-reported type s d f e = elim (Bool-cases s.is_null) [
    | inl n ↦ ground (arith, e, n, laws.is_max-max)
    | inr n ↦ ground (arith, e, n, (number_delta s.at_path d f (ground (arith, e, n))).0)
  ]

  -- Only the script timeout may be null.
  delta_of-milliseconds :
      (type : String) (s : Setting) (d : T)
      → fits s.at_path ≡ true
      → (type == "script") ≡ false
      → delta_of time type s ≡ done d
      → some (time.in_milliseconds d) ≡ value_of s
  unfolding delta_of
  delta_of-milliseconds type s d f n e = elim (Bool-cases s.is_null) [
    | inl k ↦ ground (arith, e, n, k)
    | inr k ↦ ground (arith, e, k, (number_delta s.at_path d f (ground (arith, e, k))).1)
  ]

  number_fails :
      (o : Option Number) (x : Status)
      → delta_of_int time (get_optional_safe_int o) ≡ fail x
      → is_ok x ≡ false
  unfolding get_optional_safe_int
  number_fails none x e = ground (arith, e)
  number_fails (some (int (pos n))) x e = ground (arith, e)
  number_fails (some (int (negsuc n))) x e = ground (arith, e)
  number_fails (some (double (pos n) b)) x e = ground (arith, e)
  number_fails (some (double (negsuc n) b)) x e = ground (arith, e)
  number_fails (some other) x e = ground (arith, e)

  delta_of-fails :
      (type : String) (s : Setting) (x : Status) → delta_of time type s ≡ fail x → is_ok x ≡ false
  unfolding delta_of
  delta_of-fails type s x e = elim (Bool-cases s.is_null) [
    | inl k ↦ ground (arith, e, k)
    | inr k ↦ number_fails s.at_path x (ground (arith, e, k))
  ]

  store-script :
      (type : String) (v : Setting) (d : T) (s : Session T)
      → fits v.at_path ≡ true
      → delta_of time type v ≡ done d
      → (get_timeouts time (store type d s)).script
        ≡ (if type == "script" then value_of v else (get_timeouts time s).script)
  unfolding store get_timeouts
  store-script type v d s f e = ground (arith, delta_of-reported type v d f e)

  store-page_load :
      (type : String) (v : Setting) (d : T) (s : Session T)
      → fits v.at_path ≡ true
      → delta_of time type v ≡ done d
      → (get_timeouts time (store type d s)).page_load
        ≡ (if type == "pageLoad" then value_of v else (get_timeouts time s).page_load)
  unfolding store get_timeouts
  store-page_load type v d s f e = elim (Bool-cases (type == "script")) [
    | inl k ↦ ground (arith, k, differs type "script" "pageLoad" refl k)
    | inr k ↦ ground (arith, k, delta_of-milliseconds type v d f k e)
  ]

  store-implicit :
      (type : String) (v : Setting) (d : T) (s : Session T)
      → fits v.at_path ≡ true
      → delta_of time type v ≡ done d
      → (get_timeouts time (store type d s)).implicit
        ≡ (if type == "implicit" then value_of v else (get_timeouts time s).implicit)
  unfolding store get_timeouts
  store-implicit type v d s f e = elim (Bool-cases (type == "script")) [
    | inl k ↦ ground (arith, k, differs type "script" "implicit" refl k)
    | inr k ↦
        ground
          (arith, k, differs type "pageLoad" "implicit" refl, delta_of-milliseconds type v d f k e)
  ]

  -- If the timeouts are set without an error, and every int has 32 bits, then what is reported for
  -- each of the three is the last value that was given for it, in milliseconds or null for no
  -- limit, or what was reported before if none was given.
  pub set_timeouts-get_timeouts :
      (params : List (String × Setting)) (s : Session T)
      → all_fit params ≡ true
      → is_ok (set_timeouts time params s).0 ≡ true
      → let old = get_timeouts time s in
        let new = get_timeouts time (set_timeouts time params s).1 in
        (new.script ≡ asked "script" params old.script)
        × (new.page_load ≡ asked "pageLoad" params old.page_load)
        × (new.implicit ≡ asked "implicit" params old.implicit)
  unfolding set_timeouts
  set_timeouts-get_timeouts [] s f h = (refl, refl, refl)
  set_timeouts-get_timeouts ((type, v) ∷ params) s f h =
      elim (Result-cases (delta_of time type v)) [
        | inr (x, e) ↦ absurd (ground (arith, e, h, delta_of-fails type v x e))
        | inl (d, e) ↦
            let g : fits v.at_path ≡ true = ground (arith, f) in
            let step : set_timeouts time ((type, v) ∷ params) s
                ≡ set_timeouts time params (store type d s) =
              ground (arith, e) in
            let rest =
              set_timeouts-get_timeouts params (store type d s) (ground (arith, f))
                (ground (arith, e, h)) in
            (
              ap (λ (r : Status × Session T). (get_timeouts time r.1).script) step
                  ∙ rest.0
                  ∙ ap (asked "script" params) (store-script type v d s g e),
              ap (λ (r : Status × Session T). (get_timeouts time r.1).page_load) step
                  ∙ rest.1
                  ∙ ap (asked "pageLoad" params) (store-page_load type v d s g e),
              ap (λ (r : Status × Session T). (get_timeouts time r.1).implicit) step
                  ∙ rest.2
                  ∙ ap (asked "implicit" params) (store-implicit type v d s g e),
            )
      ]
