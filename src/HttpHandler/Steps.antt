-- ===== src/HttpHandler/Steps.antt =====
-- What the command thread does with the connections, as steps.
use chromedriver.Base.{
  ℕ, String, ◌≡◌, ◌≢◌, refl, Bool, true, false, none, some, List, [], ◌∷◌, ◌==◌, eqb, if◌then◌else◌,
  eq_iff, eqb_iff, arith, inl, inr, Option-cases, Bool-cases,
}
use chromedriver.Dictionary.{
  string_eq, nat_eq, lookup, assign, insert, lookup-assign, lookup-insert, lookup-erase,
}
use chromedriver.HttpHandler.Connections.{
  Connections, mem, remove_first, bucket, attach_to_session, unbound_connection,
  on_web_socket_request, on_new_session_created, on_session_terminated, on_new_bidi_session,
  on_close,
}
use chromedriver.HttpHandler.Buckets.{
  IsDistinct, IsDistinct-of_some, IsDistinct-remove_first, mem-remove_first_ne,
}
use chromedriver.HttpHandler.Bindings.{Agree, bind-Agree, close_in-Agree}

-- No connection was ever bound to the session.
abbrev pub IsNew : String → Connections → Type 0
IsNew s h =
    (lookup s h.session_connection_map ≡ none)
    × ((c : ℕ) → lookup c h.connection_session_map ≢ some s)

-- The connection is in no bucket.
abbrev pub IsFresh : ℕ → Connections → Type 0
IsFresh c h =
    (s : String) (b : List ℕ) → lookup s h.session_connection_map ≡ some b → mem c b ≡ false

-- One event of the command thread. The HTTP server numbers each connection anew, and the id of a
-- session is new and not empty. `session.new` may come to its end over any connection: one that
-- waits, one that was closed, or one that has a session.
pub data Step : Connections → Connections → Type 0 where
  request :
      {h : Connections} (path : String) (parts : List String) (c : ℕ)
      → IsFresh c h
      → Step h (on_web_socket_request path parts c h).0
  new_session :
      {h : Connections} (has_url : Bool) (s : String)
      → IsNew s h
      → Step h (on_new_session_created has_url s h)
  new_bidi_session :
      {h : Connections} (c : ℕ) (s : String)
      → s ≢ ""
      → IsNew s h
      → Step h (on_new_bidi_session c s h).0
  terminated : {h : Connections} (s : String) → s ≢ "" → Step h (on_session_terminated s h)
  closed : {h : Connections} (c : ℕ) → Step h (on_close c h).0

pub data Steps : Connections → Connections → Type 0 where
  stay : {h : Connections} → Steps h h
  after : {h k l : Connections} → Steps h k → Step k l → Steps h l

Agree-of_eq : {h k : Connections} → k ≡ h → Agree h → Agree k
Agree-of_eq e a = rw (e) a

module _ (h : Connections) (a : Agree h) where
  attach-Agree : (s : String) (c : ℕ) → IsFresh c h → Agree (attach_to_session s c h).0
  unfolding attach_to_session
  attach-Agree s c new = elim (Option-cases (lookup s h.session_connection_map)) [
    | inl e ↦ Agree-of_eq (ground arith) a
    | inr (b, e) ↦ Agree-of_eq (ground arith) (bind-Agree s c h a new (λ d l. ground arith))
  ]

  unbound-Agree : (c : ℕ) → IsFresh c h → Agree (unbound_connection c h).0
  unfolding unbound_connection
  unbound-Agree c new = elim (Option-cases (lookup c h.connection_session_map)) [
    | inl e ↦ Agree-of_eq (ground arith) (bind-Agree "" c h a new (λ d l. a.waiting))
    | inr (t, e) ↦ Agree-of_eq (ground arith) a
  ]

  request-Agree :
      (path : String) (parts : List String) (c : ℕ)
      → IsFresh c h
      → Agree (on_web_socket_request path parts c h).0
  unfolding on_web_socket_request
  request-Agree path [] c new = a
  request-Agree path (p ∷ []) c new = elim (Bool-cases (p == "session")) [
    | inl e ↦ Agree-of_eq (ground arith) (unbound-Agree c new)
    | inr e ↦ Agree-of_eq (ground arith) a
  ]
  request-Agree path (p ∷ s ∷ []) c new = elim (Bool-cases (p == "session")) [
    | inl e ↦ Agree-of_eq (ground arith) (attach-Agree s c new)
    | inr e ↦ Agree-of_eq (ground arith) a
  ]
  request-Agree path (p ∷ s ∷ t ∷ r) c new = a

  close-Agree : (c : ℕ) → Agree (on_close c h).0
  unfolding on_close
  close-Agree c = elim (Option-cases (lookup c h.connection_session_map)) [
    | inl e ↦ Agree-of_eq (ground arith) a
    | inr (s, e) ↦ elim (Option-cases (lookup s h.session_connection_map)) [
      | inl f ↦ Agree-of_eq (ground arith) a
      | inr (b, f) ↦ Agree-of_eq (ground arith) (close_in-Agree s b c h a e f)
    ]
  ]

  terminated-Agree : (s : String) → s ≢ "" → Agree (on_session_terminated s h)
  unfolding on_session_terminated
  terminated-Agree s n = record {
    listed =
        λ c s' b p q. ground (arith, lookup-erase s s' h.session_connection_map, a.listed c s' b);
    waiting = ground (arith, lookup-erase s "" h.session_connection_map, eq_iff s "", a.waiting);
    distinct =
        λ s' b p. a.distinct s' b (ground (arith, lookup-erase s s' h.session_connection_map));
  }

  insert-IsDistinct :
      (s s' : String) (b0 b : List ℕ)
      → IsDistinct b0
      → lookup s' (insert s b0 h.session_connection_map) ≡ some b
      → IsDistinct b
  insert-IsDistinct s s' b0 b k p = elim (Bool-cases (s == s')) [
    | inl m ↦ elim (Option-cases (lookup s h.session_connection_map)) [
      | inl f ↦
          IsDistinct-of_some b0 b
            (ground (arith, eq_iff s s', lookup-insert s s' b0 h.session_connection_map)) k
      | inr (x, f) ↦
          a.distinct s' b
            (ground (arith, eq_iff s s', lookup-insert s s' b0 h.session_connection_map))
    ]
    | inr m ↦ a.distinct s' b (ground (arith, lookup-insert s s' b0 h.session_connection_map))
  ]

  created-Agree : (u : Bool) (s : String) → IsNew s h → Agree (on_new_session_created u s h)
  unfolding on_new_session_created
  created-Agree false s n = a
  created-Agree true s n = record {
    listed = λ c s' b p q. ground (
      arith,
      lookup-insert s s' [] h.session_connection_map,
      eq_iff s s',
      n.1 c,
      a.listed c s' b,
    );
    waiting = ground (arith, lookup-insert s "" [] h.session_connection_map, a.waiting);
    distinct = λ s' b p. insert-IsDistinct s s' [] b tt p;
  }

-- `session.new` over a connection moves it from the empty session to the new one.
module _ (h : Connections) (a : Agree h) (c : ℕ) (s : String) (b : List ℕ) (named : s ≢ "")
    (new : IsNew s h) (l : lookup "" h.session_connection_map ≡ some b) where
  lookup-bidi :
      (s' : String)
      → lookup s' (on_new_bidi_session c s h).0.session_connection_map ≡ (
          if s == s'
          then some (c ∷ [])
          else if "" == s'
          then some (remove_first c b)
          else lookup s' h.session_connection_map)
  unfolding on_new_bidi_session bucket
  lookup-bidi s' = ground (
    arith,
    lookup-insert s s' (c ∷ []) (assign "" (remove_first c b) h.session_connection_map),
    lookup-assign "" s' (remove_first c b) h.session_connection_map,
    lookup-assign "" s (remove_first c b) h.session_connection_map,
    eq_iff "" s,
    eq_iff s s',
    new.0,
  )

  lookup-bidi_connection :
      (d : ℕ)
      → lookup d (on_new_bidi_session c s h).0.connection_session_map
        ≡ (if eqb c d then some s else lookup d h.connection_session_map)
  unfolding on_new_bidi_session
  lookup-bidi_connection d = lookup-assign c d s h.connection_session_map

  bidi-Agree : Agree (on_new_bidi_session c s h).0
  bidi-Agree = record {
    listed = λ d s' b' p q. ground (
      arith,
      lookup-bidi s',
      lookup-bidi_connection d,
      eqb_iff c d,
      eq_iff s s',
      eq_iff "" s',
      new.1 d,
      mem-remove_first_ne c d b,
      a.listed d s' b,
      a.listed d s' b',
    );
    waiting = ground (arith, lookup-bidi "", eq_iff s "");
    distinct = λ s' b' p. elim (Bool-cases (s == s')) [
      | inl m ↦ IsDistinct-of_some (c ∷ []) b' (ground (arith, lookup-bidi s')) (refl, tt)
      | inr m ↦ elim (Bool-cases ("" == s')) [
        | inl n ↦
            IsDistinct-of_some (remove_first c b) b' (ground (arith, lookup-bidi s'))
              (IsDistinct-remove_first c b (a.distinct "" b l))
        | inr n ↦ a.distinct s' b' (ground (arith, lookup-bidi s'))
      ]
    ];
  }

step-Agree : {h k : Connections} → Step h k → Agree h → Agree k
step-Agree {h} (request path parts c new) a = request-Agree h a path parts c new
step-Agree {h} (new_session u s new) a = created-Agree h a u s new
step-Agree {h} (new_bidi_session c s named new) a =
    elim (Option-cases (lookup "" h.session_connection_map)) [
      | inl e ↦ absurd (ground (arith, a.waiting))
      | inr (b, e) ↦ bidi-Agree h a c s b named new e
    ]
step-Agree {h} (terminated s named) a = terminated-Agree h a s named
step-Agree {h} (closed c) a = close-Agree h a c

pub Steps-Agree : {h k : Connections} → Steps h k → Agree h → Agree k
Steps-Agree stay a = a
Steps-Agree (after r s) a = step-Agree s (Steps-Agree r a)

-- The state of the constructor, with the sessions that there are
abbrev pub no_connections : List (String × Bool) → Connections
no_connections threads = record {
  session_connection_map = ("", []) ∷ [];
  connection_session_map = [];
  session_thread_map = threads;
}
