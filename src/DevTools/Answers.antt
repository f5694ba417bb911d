-- ===== src/DevTools/Answers.antt =====
-- Where the result of a command comes from.
use chromedriver.Base.{
  ℕ, String, ◌≡◌, refl, Bool, true, Option, none, some, ◌⊎◌, inl, inr, eqb_iff, arith, Option-cases,
}
use chromedriver.Dictionary.{nat_eq, lookup, lookup-assign}
use chromedriver.Status.{Status}
use chromedriver.DevTools.Commands.{
  ResponseState, waiting, blocked, ignored, received, Response, ResponseInfo, Client, answers,
  find_info, update_info, accept, send, receive, finish, abandon, block,
}
use chromedriver.DevTools.Pending.{is_id, lookup-update_info, lookup-block_all}
use chromedriver.DevTools.Awaiting.{
  Step, sends, receives, finishes, abandons, blocks, advances, Steps, stay, after, Steps-Good,
  new_client, new_client-Good,
}

-- The response that is stored for a command
abbrev stored : {R : Type 0} → Option (ResponseInfo R) → Option (Response R)
stored none = none
stored (some i) = i.response

module _ {R : Type 0} (parse_error : String → Status) where
  abbrev response_at : ℕ → Client R → Option (Response R)
  response_at h c = stored (lookup h c.infos)

  -- The step is that the response arrives.
  abbrev pub Receives : {c d : Client R} → Response R → Step parse_error c d → Type 0
  Receives r (receives q) = q ≡ r
  Receives r (sends tunnelled sent expect_response method) = ⊥
  Receives r (finishes text h) = ⊥
  Receives r (abandons h) = ⊥
  Receives r (blocks max_id) = ⊥
  Receives r (advances n) = ⊥

  -- The response arrived in one of the steps.
  abbrev pub Received : {c d : Client R} → Response R → Steps parse_error c d → Type 0
  Received r stay = ⊥
  Received r (after s t) = Receives r t ⊎ Received r s

  send-response_at :
      (tunnelled sent expect : Bool) (method : String) (h : ℕ) (r : Response R) (c : Client R)
      → response_at h (send tunnelled sent expect method c) ≡ some r
      → response_at h c ≡ some r
  unfolding send
  send-response_at tunnelled sent expect method h r c e =
      let i : ResponseInfo R = record { state = waiting; method = method; response = none } in
      ground (arith, e, lookup-assign c.next_id h i c.infos)

  receive-response_at :
      (q : Response R) (h : ℕ) (r : Response R) (c : Client R)
      → response_at h (receive parse_error q c).1 ≡ some r
      → (q ≡ r) ⊎ (response_at h c ≡ some r)
  unfolding receive
  receive-response_at q h r c e = elim (Option-cases (find_info q.id c.response_info_map)) [
    | inl o ↦ inr (ground (arith, e, o))
    | inr ((id, g), o) ↦ accepted g (ground (arith, e, o))
  ]
    where
      accepted :
          (g : ℕ)
          → stored (lookup h (update_info (accept q) g c.infos)) ≡ some r
          → (q ≡ r) ⊎ (response_at h c ≡ some r)
      accepted g e = ground (
        arith,
        e,
        lookup-update_info (accept q) g h c.infos,
        eqb_iff g h,
        Option-cases (lookup g c.infos),
      )

  finish-response_at :
      (text : Option String) (g h : ℕ) (r : Response R) (c : Client R)
      → response_at h (finish parse_error text g c).1 ≡ some r
      → response_at h c ≡ some r
  unfolding finish
  finish-response_at text g h r c e = elim (Option-cases (lookup g c.infos)) [
    | inl o ↦ ground (arith, e, o)
    | inr (i, o) ↦ known i i.state o refl
  ]
    where
      known :
          (i : ResponseInfo R) (s : ResponseState)
          → lookup g c.infos ≡ some i
          → i.state ≡ s
          → response_at h c ≡ some r
      known i waiting o q = ground (arith, e)
      known i blocked o q =
          ground (arith, e, eqb_iff g h, lookup-assign g h (record i { state = ignored }) c.infos)
      known i ignored o q = ground (arith, e)
      known i received o q = ground (arith, e, Option-cases i.response)

  block-response_at :
      (max_id h : ℕ) (r : Response R) (c : Client R)
      → response_at h (block max_id c) ≡ some r
      → response_at h c ≡ some r
  unfolding block
  block-response_at max_id h r c e =
      ground (arith, e, lookup-block_all max_id h c.response_info_map c.infos)

  step-response_at :
      {c d : Client R} (t : Step parse_error c d) (h : ℕ) (r : Response R)
      → response_at h d ≡ some r
      → Receives r t ⊎ (response_at h c ≡ some r)
  unfolding abandon
  step-response_at {c} (sends tunnelled sent expect method) h r e =
      inr (send-response_at tunnelled sent expect method h r c e)
  step-response_at {c} (receives q) h r e = receive-response_at q h r c e
  step-response_at {c} (finishes text g) h r e = inr (finish-response_at text g h r c e)
  step-response_at {c} (abandons g) h r e = inr (ground (arith, e, Option-cases (lookup g c.infos)))
  step-response_at {c} (blocks max_id) h r e = inr (block-response_at max_id h r c e)
  step-response_at {c} (advances n) h r e = inr e

  Steps-response_at :
      {c d : Client R} (s : Steps parse_error c d) (h : ℕ) (r : Response R)
      → response_at h d ≡ some r
      → Received r s ⊎ (response_at h c ≡ some r)
  Steps-response_at stay h r e = inr e
  Steps-response_at (after s t) h r e = elim (step-response_at t h r e) [
    | inl now ↦ inl (inl now)
    | inr before ↦ elim (Steps-response_at s h r before) [
      | inl then ↦ inl (inr then)
      | inr first ↦ inr first
    ]
  ]

  -- The result that a command returns is the result of a response with its id that was received
  -- since the client was made.
  pub finish-answers :
      {n : ℕ} {is_root : Bool} {c : Client R}
      (steps : Steps parse_error (new_client parse_error n is_root) c) (text : Option String)
      (h : ℕ) (v : R)
      → (finish parse_error text h c).0 ≡ some (answers v)
      → (r : Response R) × Received r steps × (is_id h r.id ≡ true) × (r.result ≡ some v)
  unfolding finish lookup
  finish-answers {n} {is_root} {c} steps text h v f = elim (Option-cases (lookup h c.infos)) [
    | inl e ↦ absurd (ground (arith, f))
    | inr (i, e) ↦ elim (Option-cases i.response) [
      | inl o ↦ absurd (told_nothing i i.state e o refl)
      | inr (r, o) ↦ told i r i.state e o refl
    ]
  ]
    where
      told_nothing :
          (i : ResponseInfo R) (s : ResponseState)
          → lookup h c.infos ≡ some i
          → i.response ≡ none
          → i.state ≡ s
          → ⊥
      told_nothing i waiting e o q = ground (arith, f)
      told_nothing i blocked e o q = ground (arith, f)
      told_nothing i ignored e o q = ground (arith, f)
      told_nothing i received e o q = ground (arith, f)

      arrived :
          (i : ResponseInfo R) (r : Response R)
          → lookup h c.infos ≡ some i
          → i.response ≡ some r
          → Received r steps
      arrived i r e o = elim (Steps-response_at steps h r (ground (arith, e, o))) [
        | inl seen ↦ seen
        | inr first ↦ absurd (ground (arith, first))
      ]

      told :
          (i : ResponseInfo R) (r : Response R) (s : ResponseState)
          → lookup h c.infos ≡ some i
          → i.response ≡ some r
          → i.state ≡ s
          → (r : Response R) × Received r steps × (is_id h r.id ≡ true) × (r.result ≡ some v)
      told i r waiting e o q = absurd (ground (arith, f))
      told i r blocked e o q = absurd (ground (arith, f))
      told i r ignored e o q = absurd (ground (arith, f))
      told i r received e o q = (
        r,
        arrived i r e o,
        ground (
          arith,
          (Steps-Good parse_error steps (new_client-Good parse_error n is_root)).answered h i e,
        ),
        ground (arith, f, Option-cases r.result),
      )
