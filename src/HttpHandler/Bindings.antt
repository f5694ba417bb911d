-- ===== src/HttpHandler/Bindings.antt =====
-- Binding and closing a connection keep the buckets of the sessions complete.
use chromedriver.Base.{
  ℕ, String, ◌≡◌, refl, true, false, some, List, [], ◌∷◌, ◌++◌, ◌==◌, eq_iff, eqb_iff, arith, inl,
  inr, Option-cases, Bool-cases, is_some,
}
use chromedriver.Dictionary.{string_eq, nat_eq, lookup, lookup-assign, lookup-erase}
use chromedriver.HttpHandler.Buckets.{
  IsDistinct, mem-concat, mem-remove_first_ne, IsDistinct-concat, IsDistinct-remove_first,
  IsDistinct-of_some,
}
use chromedriver.HttpHandler.Connections.{Connections, mem, remove_first, bucket, bind, close_in}

-- A connection is in the bucket of its session, if that has one, and no bucket has a connection
-- twice.
pub record Agree (h : Connections) : Type 0 where
  pub listed :
      (c : ℕ) (s : String) (b : List ℕ)
      → lookup c h.connection_session_map ≡ some s
      → lookup s h.session_connection_map ≡ some b
      → mem c b ≡ true
  -- the bucket of the connections that wait for a session is always there
  pub waiting : is_some (lookup "" h.session_connection_map) ≡ true
  pub distinct :
      (s : String) (b : List ℕ) → lookup s h.session_connection_map ≡ some b → IsDistinct b

module _ (s : String) (c : ℕ) (h : Connections) (a : Agree h)
    (absent : (s' : String) (b : List ℕ)
      → lookup s' h.session_connection_map ≡ some b
      → mem c b ≡ false)
    (full : (d : ℕ)
      → lookup d h.connection_session_map ≡ some s
      → is_some (lookup s h.session_connection_map) ≡ true) where
  bind_listed :
      (d : ℕ) (s' : String) (b : List ℕ)
      → lookup d (bind s c h).connection_session_map ≡ some s'
      → lookup s' (bind s c h).session_connection_map ≡ some b
      → mem d b ≡ true
  unfolding bind bucket
  bind_listed d s' b p q = elim (Option-cases (lookup s h.session_connection_map)) [
    | inl e ↦ ground (
      arith,
      lookup-assign c d s h.connection_session_map,
      lookup-assign s s' (c ∷ []) h.session_connection_map,
      eqb_iff c d,
      eq_iff s s',
      full d,
      a.listed d s' b,
    )
    | inr (b', e) ↦ ground (
      arith,
      lookup-assign c d s h.connection_session_map,
      lookup-assign s s' (b' ++ c ∷ []) h.session_connection_map,
      mem-concat d c b',
      eqb_iff c d,
      eq_iff s s',
      a.listed d s' b',
      a.listed d s' b,
    )
  ]

  bind-IsDistinct :
      (s' : String) (b : List ℕ)
      → lookup s' (bind s c h).session_connection_map ≡ some b
      → IsDistinct b
  unfolding bind bucket
  bind-IsDistinct s' b p = elim (Option-cases (lookup s h.session_connection_map)) [
    | inl e ↦ elim (Bool-cases (s == s')) [
      | inl m ↦
          IsDistinct-of_some (c ∷ []) b
            (ground (arith, lookup-assign s s' (c ∷ []) h.session_connection_map)) (refl, tt)
      | inr m ↦
          a.distinct s' b (ground (arith, lookup-assign s s' (c ∷ []) h.session_connection_map))
    ]
    | inr (b', e) ↦ elim (Bool-cases (s == s')) [
      | inl m ↦
          IsDistinct-of_some (b' ++ c ∷ []) b
            (ground (arith, lookup-assign s s' (b' ++ c ∷ []) h.session_connection_map))
            (IsDistinct-concat c b' (a.distinct s b' e) (absent s b' e))
      | inr m ↦
          a.distinct s' b
            (ground (arith, lookup-assign s s' (b' ++ c ∷ []) h.session_connection_map))
    ]
  ]

  bind_waiting : is_some (lookup "" (bind s c h).session_connection_map) ≡ true
  unfolding bind
  bind_waiting =
      ground (arith, lookup-assign s "" (bucket s h ++ c ∷ []) h.session_connection_map, a.waiting)

  pub bind-Agree : Agree (bind s c h)
  bind-Agree = record { listed = bind_listed; waiting = bind_waiting; distinct = bind-IsDistinct }

-- Taking a connection out of the bucket of its session.
module _ (s : String) (b : List ℕ) (c : ℕ) (h : Connections) (a : Agree h)
    (ls : lookup c h.connection_session_map ≡ some s)
    (lb : lookup s h.session_connection_map ≡ some b) where
  close_in_listed :
      (d : ℕ) (s' : String) (b' : List ℕ)
      → lookup d (close_in s b c h).0.connection_session_map ≡ some s'
      → lookup s' (close_in s b c h).0.session_connection_map ≡ some b'
      → mem d b' ≡ true
  unfolding close_in
  close_in_listed d s' b' p q = ground (
    arith,
    lookup-erase c d h.connection_session_map,
    lookup-assign s s' (remove_first c b) h.session_connection_map,
    eqb_iff c d,
    eq_iff s s',
    mem-remove_first_ne c d b,
    a.listed d s' b',
    a.listed d s' b,
    a.listed c s b,
  )

  close_in_waiting : is_some (lookup "" (close_in s b c h).0.session_connection_map) ≡ true
  unfolding close_in
  close_in_waiting =
      ground (arith, lookup-assign s "" (remove_first c b) h.session_connection_map, a.waiting)

  close_in-IsDistinct :
      (s' : String) (b' : List ℕ)
      → lookup s' (close_in s b c h).0.session_connection_map ≡ some b'
      → IsDistinct b'
  unfolding close_in
  close_in-IsDistinct s' b' p = elim (Bool-cases (s == s')) [
    | inl m ↦
        IsDistinct-of_some (remove_first c b) b'
          (ground (
            arith,
            lookup-assign s s' (remove_first c b) h.session_connection_map,
            a.listed c s b ls lb,
          ))
          (IsDistinct-remove_first c b (a.distinct s b lb))
    | inr m ↦ a.distinct s' b' (
        ground (
          arith,
          lookup-assign s s' (remove_first c b) h.session_connection_map,
          a.listed c s b ls lb,
        ))
  ]

  pub close_in-Agree : Agree (close_in s b c h).0
  close_in-Agree = record {
    listed = close_in_listed;
    waiting = close_in_waiting;
    distinct = close_in-IsDistinct;
  }
