-- ===== src/DevTools/Routing/Isolated.antt =====
-- Which failures a client that waits is told of.
use chromedriver.Base.{
  String, ◌≡◌, true, ◌||◌, none, some, ◌==◌, ◌⊎◌, inl, inr, arith, eq_iff, eq_of_==, Option-cases,
  Bool-cases,
}
use chromedriver.Status.{is_error}
use chromedriver.DevTools.Messages.{Message}
use chromedriver.DevTools.Routing.{Clients, session_of, has, handle_parsed, handle_message}

module _ {S D : Type 0} (clients : Clients S D) where
  open clients use {
    notify_listeners, is_waiting, is_crashed, is_detached, receive, process, parse, children,
  }

  -- A message is of a session that concerns the caller.
  abbrev pub Concerns : String → String → Message D → Type 0
  Concerns root caller m = (session_of m ≡ root) ⊎ (caller ≡ session_of m)

  handle_parsed-Concerns :
      (root caller : String) (m : Message D) (message : String) (s : S)
      → is_error (handle_parsed clients root caller (some m) message s).0 ≡ true
      → Concerns root caller m × (is_error (process (session_of m) m s).0 ≡ true)
  handle_parsed-Concerns root caller m message s h =
      let session = session_of m in
      elim (Bool-cases (session == root)) [
        | inl e ↦ (
          inl (eq_of_== session root e),
          ground (arith, h, e, Bool-cases (caller == session || root == session)),
        )
        | inr e ↦ elim (Bool-cases (caller == session)) [
          | inl c ↦ (
            inr (eq_of_== caller session c),
            ground (arith, h, e, c, Bool-cases (has session (children s))),
          )
          | inr c ↦ absurd (
              ground (
                arith,
                h,
                e,
                c,
                eq_iff session root,
                eq_iff root session,
                Bool-cases (has session (children s)),
              ))
        ]
      ]

  -- A client that waits is told of a failure to handle a message only if the message cannot be
  -- parsed, or it failed at the root or at that client itself: a failure in another session is not
  -- its concern.
  pub handle_message-Concerns :
      (root caller message : String) (s : S)
      → is_error (handle_message clients root caller message s).0 ≡ true
      → (parse message ≡ none)
        ⊎ ((m : Message D) × (parse message ≡ some m)
            × Concerns root caller m
            × (is_error (process (session_of m) m s).0 ≡ true))
  unfolding handle_message
  handle_message-Concerns root caller message s h = elim (Option-cases (parse message)) [
    | inl e ↦ inl e
    | inr (m, e) ↦
        let c = handle_parsed-Concerns root caller m message s (ground (arith, h, e)) in
        inr (m, e, c.0, c.1)
  ]
