-- ===== src/DevTools/Awaiting.antt =====
-- What a command that waits is told.
use chromedriver.Base.{
  ℕ, ◌+◌, ◌≤◌, String, ◌≡◌, refl, Bool, true, Option, some, [], pos, eqb_iff, arith, inl, inr,
  Option-cases, Bool-cases,
}
use chromedriver.Dictionary.{nat_eq, lookup, assign, erase, lookup-assign, lookup-erase}
use chromedriver.Status.{Status, status, ok}
use chromedriver.DevTools.Commands.{
  ResponseState, waiting, blocked, ignored, received, Response, ResponseInfo, Client, returns,
  is_received, is_waiting, alert_status, accept, answer_of, send, receive, finish, abandon, block,
}
use chromedriver.DevTools.Pending.{
  Good, covers-lookup, lookup-block_all, lookup-update_info, Good-of_eq, send-Good, receive-Good,
  block-Good,
}

module _ {R : Type 0} (parse_error : String → Status) where
  -- The pieces of calls, in the order in which they run. Other clients of the root advance the
  -- counter.
  pub data Step : Client R → Client R → Type 0 where
    sends :
        {c : Client R} (tunnelled sent expect_response : Bool) (method : String)
        → Step c (send tunnelled sent expect_response method c)
    receives : {c : Client R} (r : Response R) → Step c (receive parse_error r c).1
    finishes :
        {c : Client R} (text : Option String) (h : ℕ) → Step c (finish parse_error text h c).1
    abandons : {c : Client R} (h : ℕ) → Step c (abandon h c)
    blocks : {c : Client R} (max_id : ℕ) → Step c (block max_id c)
    advances : {c : Client R} (n : ℕ) → Step c (record c { next_id = c.next_id + n })

  pub data Steps : Client R → Client R → Type 0 where
    stay : {c : Client R} → Steps c c
    after : {c d e : Client R} → Steps c d → Step d e → Steps c e

  ignore-Good :
      (h : ℕ) (i : ResponseInfo R) (c : Client R)
      → Good c
      → lookup h c.infos ≡ some i
      → Good (record c { infos = assign h (record i { state = ignored }) c.infos })
  ignore-Good h i c g l =
      let law = λ (k : ℕ). lookup-assign h k (record i { state = ignored }) c.infos in
      record {
        named = g.named;
        fresh = λ k j e. ground (arith, law k, eqb_iff h k, g.fresh k j, g.fresh h i l);
        known = λ id k e. ground (arith, law k, g.known id k);
        pending = λ id k j e o. ground (arith, law k, g.pending id k j);
        listed = λ k j e o. ground (arith, law k, g.listed k j);
        answered = λ k j e o. ground (arith, law k, g.answered k j);
      }

  finish_known-Good :
      (text : Option String) (h : ℕ) (c : Client R) (i : ResponseInfo R) (s : ResponseState)
      → Good c
      → lookup h c.infos ≡ some i
      → i.state ≡ s
      → Good (finish parse_error text h c).1
  unfolding finish
  finish_known-Good text h c i blocked g e f = Good-of_eq (ground arith) (ignore-Good h i c g e)
  finish_known-Good text h c i waiting g e f = Good-of_eq (ground arith) g
  finish_known-Good text h c i ignored g e f = Good-of_eq (ground arith) g
  finish_known-Good text h c i received g e f = Good-of_eq (ground arith) g

  finish-Good :
      (text : Option String) (h : ℕ) (c : Client R) → Good c → Good (finish parse_error text h c).1
  unfolding finish
  finish-Good text h c g = elim (Option-cases (lookup h c.infos)) [
    | inl e ↦ Good-of_eq (ground arith) g
    | inr (i, e) ↦ finish_known-Good text h c i i.state g e refl
  ]

  -- Erasing a command that was told its response changes no entry.
  erase-Good :
      (h : ℕ) (i : ResponseInfo R) (c : Client R)
      → Good c
      → lookup h c.infos ≡ some i
      → is_received i.state ≡ true
      → Good (record c { response_info_map = erase h c.response_info_map })
  erase-Good h i c g l r =
      let law = λ (k : ℕ). lookup-erase h k c.response_info_map in
      record {
        named = λ id k e. ground (arith, law id, g.named id k);
        fresh = g.fresh;
        known = λ id k e. ground (arith, law id, g.known id k);
        pending = λ id k j e o. ground (arith, law id, g.pending id k j);
        listed = λ k j e o. ground (arith, law k, eqb_iff h k, g.listed k j, l, r);
        answered = g.answered;
      }

  abandon-Good : (h : ℕ) (c : Client R) → Good c → Good (abandon h c)
  unfolding abandon
  abandon-Good h c g = elim (Option-cases (lookup h c.infos)) [
    | inl e ↦ Good-of_eq (ground arith) g
    | inr (i, e) ↦ elim (Bool-cases (is_received i.state)) [
      | inl r ↦ Good-of_eq (ground arith) (erase-Good h i c g e r)
      | inr r ↦ Good-of_eq (ground arith) g
    ]
  ]

  advance-Good : (n : ℕ) (c : Client R) → Good c → Good (record c { next_id = c.next_id + n })
  advance-Good n c g = record {
    named = g.named;
    fresh = λ h i e. ground (arith, g.fresh h i);
    known = g.known;
    pending = g.pending;
    listed = g.listed;
    answered = g.answered;
  }

  step-Good : {c d : Client R} → Step c d → Good c → Good d
  step-Good {c} (sends tunnelled sent expect method) g = send-Good tunnelled sent expect method c g
  step-Good {c} (receives r) g = receive-Good parse_error r c g
  step-Good {c} (finishes text h) g = finish-Good text h c g
  step-Good {c} (abandons h) g = abandon-Good h c g
  step-Good {c} (blocks max_id) g = block-Good max_id c g
  step-Good {c} (advances n) g = advance-Good n c g

  pub Steps-Good : {c d : Client R} → Steps c d → Good c → Good d
  Steps-Good stay g = g
  Steps-Good (after s r) g = step-Good r (Steps-Good s g)

  abbrev pub new_client : ℕ → Bool → Client R
  new_client next_id is_root = record {
    next_id = next_id;
    response_info_map = [];
    infos = [];
    is_root = is_root;
  }

  pub new_client-Good : (n : ℕ) (is_root : Bool) → Good (new_client n is_root)
  unfolding lookup
  new_client-Good n is_root = record {
    named = λ id h l. ground (arith, l);
    fresh = λ h i l. ground (arith, l);
    known = λ id h l. ground (arith, l);
    pending = λ id h i l o. ground (arith, l);
    listed = λ h i l o. ground (arith, l);
    answered = λ h i l o. ground (arith, l);
  }

  -- A command that waits is told the response with its id, in whatever order commands were sent,
  -- responses received, commands marked as blocked, finished and given up before that. The response
  -- is taken without an error.
  pub finish-receive :
      {n : ℕ} {is_root : Bool} {c : Client R}
      → Steps (new_client n is_root) c
      → (text : Option String) (h : ℕ) (r : Response R) (i : ResponseInfo R)
      → lookup h c.infos ≡ some i
      → is_waiting i.state ≡ true
      → r.id ≡ pos h
      → ((receive parse_error r c).0 ≡ status ok)
        × ((finish parse_error text h (receive parse_error r c).1).0
            ≡ some (answer_of parse_error r))
  unfolding receive finish
  finish-receive {n} {is_root} {c} steps text h r i l w e =
      let listed = (Steps-Good steps (new_client-Good n is_root)).listed h i l in
      (
        ground (arith, listed, w),
        ground (arith, listed, w, lookup-update_info (accept r) h h c.infos, eqb_iff h h),
      )

  -- A command that waits when a dialog is found to block it is told so, with the text of the
  -- dialog, if its id is not above the limit. The response that comes for it later is still taken
  -- without an error.
  pub finish-block :
      {n : ℕ} {is_root : Bool} {c : Client R}
      → Steps (new_client n is_root) c
      → (text : Option String) (h max_id : ℕ) (r : Response R) (i : ResponseInfo R)
      → lookup h c.infos ≡ some i
      → is_waiting i.state ≡ true
      → h ≤ max_id
      → r.id ≡ pos h
      → ((finish parse_error text h (block max_id c)).0 ≡ some (returns (alert_status text)))
        × ((receive parse_error r (finish parse_error text h (block max_id c)).1).0 ≡ status ok)
  unfolding receive finish block
  finish-block {n} {is_root} {c} steps text h max_id r i l w k e =
      let listed = (Steps-Good steps (new_client-Good n is_root)).listed h i l in
      let marked = lookup-block_all max_id h c.response_info_map c.infos in
      let covered = covers-lookup max_id h c.response_info_map in
      (ground (arith, listed, w, marked, covered), ground (arith, listed, w, marked, covered))
