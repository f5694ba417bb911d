-- ===== src/HttpHandler/Paths.antt =====
-- When a pattern fits a path, and what its variables are bound to.
use Prim.Native.String.{len, slice}
use chromedriver.Base.{
  String, ◌≡◌, refl, ap, Bool, true, false, ◌&&◌, ◌||◌, Option, none, some, List, [], ◌∷◌, ◌==◌,
  if◌then◌else◌, starts_with, arith, ◌⊎◌, inl, inr, Bool-cases, length, eqb,
}
use chromedriver.Dictionary.{string_eq, assign}
use chromedriver.HttpHandler.Routing.{
  HttpMethod, get, post, delete, Params, Ending, crash, mismatch, match, Matching, match_part,
  match_parts, matches_method,
}

-- A part of a pattern fits a part of a path: it is a variable, or the same text.
abbrev fits_part : String → String → Bool
fits_part pattern part = starts_with pattern ":" || pattern == part

-- A pattern fits a path: it has as many parts, and they fit one by one.
abbrev pub fits : List String → List String → Bool
fits [] [] = true
fits (pattern ∷ ps) (part ∷ qs) = fits_part pattern part && fits ps qs
fits _ _ = false

-- The methods of requests that a method of a mapping stands for
abbrev pub method_names : HttpMethod → List String
method_names get = "get" ∷ []
method_names post = "post" ∷ "put" ∷ []
method_names delete = "delete" ∷ []

abbrev pub is_among : String → List String → Bool
is_among name [] = false
is_among name (n ∷ ns) = name == n || is_among name ns

pub Ending-cases : (x : Ending) → (x ≡ match) ⊎ (x ≡ mismatch) ⊎ (x ≡ crash)
Ending-cases match = inl refl
Ending-cases mismatch = inr (inl refl)
Ending-cases crash = inr (inr refl)

-- The name of a variable
abbrev name_of : String → Option String
name_of pattern = if starts_with pattern ":" then some (slice pattern 1 (len pattern)) else none

module _ {V : Type 0} (decode : String → String) (of_string : String → V) where
  abbrev id_of : Option String → String → String → String
  id_of none part id = id
  id_of (some name) part id = if name == "sessionId" then decode part else id

  abbrev params_of : Option String → String → Params V → Params V
  params_of none part params = params
  params_of (some name) part params =
      if name == "sessionId" then params else assign name (of_string (decode part)) params

  -- The session id that a path gives for a pattern, or else the one before
  abbrev pub bound_id : List String → List String → String → String
  bound_id (pattern ∷ ps) (part ∷ qs) id = bound_id ps qs (id_of (name_of pattern) part id)
  bound_id _ _ id = id

  -- The other variables of a pattern with their decoded parts of a path
  abbrev pub bound_params : List String → List String → Params V → Params V
  bound_params (pattern ∷ ps) (part ∷ qs) params =
      bound_params ps qs (params_of (name_of pattern) part params)
  bound_params _ _ params = params

  -- What a loop that ended shows of the pattern and the path
  abbrev pub Walked : Bool → String → Params V → Matching V → Type 0
  Walked fit id params r =
      (r.ending ≡ match → (fit ≡ true) × (r.session_id ≡ id) × (r.params ≡ params))
      × (r.ending ≡ mismatch → fit ≡ false)

  match_part-Walked :
      (p q s : String) (params : Params V)
      → Walked
          (fits_part p q)
          (id_of (name_of p) q s)
          (params_of (name_of p) q params)
          (match_part decode of_string p q s params)
  match_part-Walked p q s params = (
    λ e. ground (arith, e, Bool-cases (starts_with p ":")),
    λ e. ground (arith, e, Bool-cases (starts_with p ":")),
  )

  pub match_parts-Walked :
      (ps qs : List String) (s : String) (params : Params V)
      → Walked
          (fits ps qs)
          (bound_id ps qs s)
          (bound_params ps qs params)
          (match_parts decode of_string ps qs s params)
  unfolding match_parts
  match_parts-Walked [] [] s params = (λ e. (refl, refl, refl), λ e. absurd (ground (arith, e)))
  match_parts-Walked [] (q ∷ qs) s params = (λ e. absurd (ground (arith, e)), λ e. refl)
  match_parts-Walked (p ∷ ps) [] s params = (λ e. absurd (ground (arith, e)), λ e. refl)
  match_parts-Walked (p ∷ ps) (q ∷ qs) s params =
      let here = match_part decode of_string p q s params in
      let part = match_part-Walked p q s params in
      let rest = match_parts-Walked ps qs here.session_id here.params in
      elim (Ending-cases here.ending) [
        | inl h ↦
            let k = part.0 h in
            let same_id = ap (bound_id ps qs) k.1 in
            let same_params = ap (bound_params ps qs) k.2 in
            (
              λ e.
                  let r = rest.0 (ground (arith, e, h)) in
                  (
                    ground (arith, k.0, r.0),
                    ground (arith, h, r.1, same_id),
                    ground (arith, h, r.2, same_params),
                  ),
              λ e. let r = rest.1 (ground (arith, e, h)) in ground (arith, r),
            )
        | inr (inl h) ↦
            (λ e. absurd (ground (arith, e, h)), λ e. let k = part.1 h in ground (arith, k))
        | inr (inr h) ↦ (λ e. absurd (ground (arith, e, h)), λ e. absurd (ground (arith, e, h)))
      ]

pub fits-length : (ps qs : List String) → fits ps qs ≡ true → eqb (length qs) (length ps) ≡ true
fits-length [] [] h = refl
fits-length [] (q ∷ qs) h = absurd (ground (arith, h))
fits-length (p ∷ ps) [] h = absurd (ground (arith, h))
fits-length (p ∷ ps) (q ∷ qs) h = ground (arith, h, fits-length ps qs)

pub matches_method-names :
    (lower : String → String) (m : HttpMethod) (method : String)
    → matches_method lower m method ≡ is_among (lower method) (method_names m)
unfolding matches_method
matches_method-names lower get method = ground arith
matches_method-names lower post method = ground arith
matches_method-names lower delete method = ground arith
