-- ===== src/HttpHandler/Closes.antt =====
-- The close of a connection.
use chromedriver.Base.{
  ℕ, String, ◌≡◌, ◌≢◌, none, some, List, [], ◌∷◌, if◌then◌else◌, eq_iff, eqb_iff, arith, is_some,
}
use chromedriver.Dictionary.{string_eq, nat_eq, lookup, lookup-assign, lookup-erase}
use chromedriver.HttpHandler.Connections.{
  Connections, remove_bidi_connection, remove_first, on_session_terminated, close_in, on_close,
}
use chromedriver.HttpHandler.Bindings.{Agree}

-- When a session ends while a connection is bound to it, the close of that connection later changes
-- nothing and posts nothing, so that the connection keeps an entry in `connection_session_map_`.
pub on_close-after_terminated :
    (c : ℕ) (s : String) (h : Connections)
    → lookup c h.connection_session_map ≡ some s
    → (on_close c (on_session_terminated s h) ≡ (on_session_terminated s h, []))
      × (lookup c (on_close c (on_session_terminated s h)).0.connection_session_map ≡ some s)
unfolding on_close on_session_terminated
on_close-after_terminated c s h bound = (
  ground (arith, lookup-erase s s h.session_connection_map, eq_iff s s),
  ground (arith, lookup-erase s s h.session_connection_map, eq_iff s s),
)

-- The close of a bound connection of a session that has a bucket takes the connection out of both
-- maps, leaves every other connection, and tells the session thread if it is there.
pub on_close-agreed :
    (c : ℕ) (s : String) (b : List ℕ) (h : Connections)
    → Agree h
    → lookup c h.connection_session_map ≡ some s
    → lookup s h.session_connection_map ≡ some b
    → (lookup c (on_close c h).0.connection_session_map ≡ none)
      × (lookup s (on_close c h).0.session_connection_map ≡ some (remove_first c b))
      × ((d : ℕ)
          → d ≢ c
          → lookup d (on_close c h).0.connection_session_map ≡ lookup d h.connection_session_map)
      × ((on_close c h).1 ≡ (
          if is_some (lookup s h.session_thread_map) then remove_bidi_connection s c ∷ [] else []))
unfolding on_close close_in
on_close-agreed c s b h a bound there = (
  ground (arith, lookup-erase c c h.connection_session_map, eqb_iff c c, a.listed c s b),
  ground (
    arith,
    lookup-assign s s (remove_first c b) h.session_connection_map,
    eq_iff s s,
    a.listed c s b,
  ),
  λ d n. ground (arith, lookup-erase c d h.connection_session_map, eqb_iff c d, a.listed c s b),
  ground (arith, a.listed c s b),
)
