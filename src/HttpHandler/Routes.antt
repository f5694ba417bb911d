-- ===== src/HttpHandler/Routes.antt =====
-- Which requests reach a command, and with what.
use mathlib.Core.Path.{subst}
use chromedriver.Base.{
  String, ◌≡◌, refl, Bool, true, false, ◌&&◌, some, List, [], ◌∷◌, ◌==◌, if◌then◌else◌, is_empty,
  arith, ◌⊎◌, inl, inr, Bool-cases, Option-cases,
}
use chromedriver.Dictionary.{string_eq, lookup}
use chromedriver.HttpHandler.Routing.{
  HttpMethod, get, post, delete, CommandMapping, Params, mismatch, match, Matching, Libraries, runs,
  Search, found, not_found, crashed, Request, w3c_mode, is_post, is_new_session, matches_command,
  find_command, run_found, handle_command,
}
use chromedriver.HttpHandler.Paths.{
  fits, method_names, is_among, bound_id, bound_params, match_parts-Walked, Ending-cases,
  fits-length, matches_method-names,
}

-- POST of the path "session"
abbrev pub opens_session : HttpMethod → String → Bool
opens_session post pattern = pattern == "session"
opens_session get pattern = false
opens_session delete pattern = false

-- A session that is known and was opened in the legacy mode
abbrev pub IsLegacy : String → List (String × Bool) → Type 0
IsLegacy id threads = (is_empty id ≡ false) × (lookup id threads ≡ some false)

w3c_mode-IsLegacy :
    (id : String) (threads : List (String × Bool))
    → w3c_mode id threads ≡ false
    → IsLegacy id threads
unfolding w3c_mode
w3c_mode-IsLegacy id threads h =
    (ground (arith, h), ground (arith, h, Option-cases (lookup id threads)))

module _ {C V : Type 0} (lib : Libraries V) where
  -- The request asks for the mapping: by its method and by its path.
  abbrev pub asks : String → String → CommandMapping C → Bool
  asks method path m =
      is_among (lib.lower method) (method_names m.method)
      && fits (lib.split m.path_pattern) (lib.split path)

  -- The mapping is the first that the request asks for.
  abbrev pub IsFirst : String → String → CommandMapping C → List (CommandMapping C) → Type 0
  IsFirst method path m [] = ⊥
  IsFirst method path m (n ∷ ns) =
      ((n ≡ m) × (asks method path n ≡ true))
      ⊎ ((asks method path n ≡ false) × IsFirst method path m ns)

  -- The result of a match, from the session id before it
  abbrev Matched : String → CommandMapping C → String → Matching V → Type 0
  Matched path m id r =
      (r.session_id
        ≡ bound_id lib.decode lib.of_string (lib.split m.path_pattern) (lib.split path) id)
      × (r.params
          ≡ lib.merge [] (
              bound_params lib.decode lib.of_string (lib.split m.path_pattern) (lib.split path) []))

  matches_command-asks :
      (m : CommandMapping C) (method path id : String)
      → let r = matches_command lib m method path id [] in
        (r.ending ≡ match → (asks method path m ≡ true) × Matched path m id r)
        × (r.ending ≡ mismatch → asks method path m ≡ false)
  unfolding matches_command
  matches_command-asks m method path id =
      let ps = lib.split m.path_pattern in
      let qs = lib.split path in
      let w = match_parts-Walked lib.decode lib.of_string ps qs id [] in
      let named = matches_method-names lib.lower m.method method in
      (
        λ e.
            let k = w.0 (ground (arith, e)) in
            (ground (arith, e, named, k), (ground (arith, e, k), ground (arith, e, k))),
        λ e. ground (arith, e, named, w.1, fits-length ps qs),
      )

  find_command-IsFirst :
      (ms : List (CommandMapping C)) (method path s : String) (m : CommandMapping C)
      (r : Matching V)
      → find_command lib ms method path s ≡ found m r
      → IsFirst method path m ms × ((id : String) × Matched path m id r)
  unfolding find_command
  find_command-IsFirst [] method path s m r e = cc
  find_command-IsFirst (n ∷ ms) method path s m r e =
      let t = matches_command lib n method path s [] in
      let a = matches_command-asks n method path s in
      elim (Ending-cases t.ending) [
        | inl p ↦
            let k = a.0 p in
            let same : n ≡ m = ground (arith, e, p) in
            let result : t ≡ r = ground (arith, e, p) in
            (
              inl (same, k.0),
              (
                s,
                subst (λ (x : CommandMapping C). Matched path x s r) same
                    (subst (λ (x : Matching V). Matched path n s x) result k.1),
              ),
            )
        | inr (inl p) ↦
            let rest =
              find_command-IsFirst ms method path t.session_id m r (ground (arith, e, p)) in
            (inr (a.1 p, rest.0), rest.1)
        | inr (inr p) ↦ absurd (ground (arith, e, p))
      ]

  -- What a command of a mapping is given, from a session id that an earlier mapping may have left
  abbrev pub Supplied :
      List (String × Bool)
      → Request
      → String
      → CommandMapping C
      → String
      → Params V
      → String
      → Type 0
  Supplied threads q path m left params arg =
      let ps = lib.split m.path_pattern in
      let qs = lib.split path in
      let id = bound_id lib.decode lib.of_string ps qs left in
      let own = lib.merge [] (bound_params lib.decode lib.of_string ps qs []) in
      (arg ≡ (if opens_session m.method m.path_pattern then q.host else id))
      × (((b : Params V) × (is_empty q.body ≡ false)
            × (lib.parse q.body ≡ some b)
            × (params ≡ lib.merge own b))
          ⊎ ((is_empty q.body ≡ true)
              × ((is_post m.method ≡ false) ⊎ IsLegacy id threads)
              × (params ≡ own)))

  is_new_session-opens :
      (m : CommandMapping C) → is_new_session m ≡ opens_session m.method m.path_pattern
  is_new_session-opens m = by_method m.method refl
    where
      by_method :
          (x : HttpMethod) → m.method ≡ x → is_new_session m ≡ opens_session m.method m.path_pattern
      by_method get e = ground (arith, e)
      by_method post e = ground (arith, e)
      by_method delete e = ground (arith, e)

  run_found-Supplied :
      (threads : List (String × Bool)) (q : Request) (path left : String) (m : CommandMapping C)
      (r : Matching V) (c : C) (params : Params V) (arg : String)
      → Matched path m left r
      → run_found lib threads q m r ≡ runs c params arg
      → (m.command ≡ c) × Supplied threads q path m left params arg
  unfolding run_found
  run_found-Supplied threads q path left m r c params arg k e =
      let opens = is_new_session-opens m in
      elim (Bool-cases (is_empty q.body)) [
        | inr b ↦ elim (Option-cases (lib.parse q.body)) [
          | inl p ↦ absurd (ground (arith, e, b, p))
          | inr (more, p) ↦ (
            ground (arith, e, b, p),
            (ground (arith, e, b, p, k, opens), inl (more, b, p, ground (arith, e, b, p, k))),
          )
        ]
        | inl b ↦ elim (Bool-cases (is_post m.method && w3c_mode r.session_id threads)) [
          | inl p ↦ absurd (ground (arith, e, b, p))
          | inr p ↦ (
            ground (arith, e, b, p),
            (ground (arith, e, b, p, k, opens), inr (b, legacy p, ground (arith, e, b, p, k))),
          )
        ]
      ]
    where
      legacy :
          (is_post m.method && w3c_mode r.session_id threads) ≡ false
          → (is_post m.method ≡ false)
            ⊎ IsLegacy
                (bound_id lib.decode lib.of_string (lib.split m.path_pattern) (lib.split path) left)
                threads
      legacy p = elim (Bool-cases (is_post m.method)) [
        | inr n ↦ inl n
        | inl y ↦ inr (
            subst (λ (id : String). IsLegacy id threads) k.0
              (w3c_mode-IsLegacy r.session_id threads (ground (arith, p, y))))
      ]

  Search-cases :
      (x : Search C V)
      → (x ≡ crashed)
        ⊎ ((s : String) × (x ≡ not_found s))
        ⊎ ((m : CommandMapping C) × (r : Matching V) × (x ≡ found m r))
  Search-cases crashed = inl refl
  Search-cases (not_found s) = inr (inl (s, refl))
  Search-cases (found m r) = inr (inr (m, r, refl))

  -- A command runs only for the first mapping whose method and path the request has; PUT counts as
  -- POST. It is given the decoded session id of the path, or, for the POST of a new session, the
  -- host; where the pattern has no session id, it may be one that a mapping before has left. Its
  -- parameters are the decoded variables of the path merged with the JSON object in the body;
  -- without a body they are those of the path, and then the command is no POST, or one of a session
  -- that was opened in the legacy mode.
  pub handle_command-runs :
      (ms : List (CommandMapping C)) (threads : List (String × Bool)) (q : Request) (path : String)
      (c : C) (params : Params V) (arg : String)
      → handle_command lib ms threads q path ≡ runs c params arg
      → (m : CommandMapping C) × (left : String) × IsFirst q.method path m ms
        × (m.command ≡ c)
        × Supplied threads q path m left params arg
  unfolding handle_command
  handle_command-runs ms threads q path c params arg e =
      elim (Search-cases (find_command lib ms q.method path "")) [
        | inl p ↦ absurd (ground (arith, e, p))
        | inr (inl (s, p)) ↦ absurd (ground (arith, e, p))
        | inr (inr (m, r, p)) ↦
            let f = find_command-IsFirst ms q.method path "" m r p in
            let t =
              run_found-Supplied threads q path f.1.0 m r c params arg f.1.1
                (ground (arith, e, p)) in
            (m, f.1.0, f.0, t.0, t.1)
      ]
