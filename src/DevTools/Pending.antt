-- ===== src/DevTools/Pending.antt =====
-- The table of the responses that are awaited, over all orders of the pieces of nested calls.
use chromedriver.Base.{
  ℕ, ◌≤◌, ◌<◌, String, ◌≡◌, refl, Bool, true, false, ◌&&◌, not, Option, none, some, List, [], ◌∷◌,
  if◌then◌else◌, ℤ, pos, negsuc, leb, eqb, eqb_iff, is_some, arith, inl, inr, Option-cases,
}
use chromedriver.Dictionary.{nat_eq, lookup, erase, lookup-assign, lookup-erase}
use chromedriver.Status.{Status}
use chromedriver.DevTools.Commands.{
  ResponseState, waiting, Response, ResponseInfo, Client, is_received, is_ignored, accept,
  block_info, update_info, send, receive, block_all, block,
}

-- The call is still to be told something: it waits, or it is blocked.
abbrev pub is_open : ResponseState → Bool
is_open s = not (is_received s) && not (is_ignored s)

-- The marking reaches the entry.
abbrev pub covers : ℕ → List (ℕ × ℕ) → ℕ → Bool
covers max_id [] g = false
covers max_id ((id, h) ∷ m) g = if leb id max_id && eqb h g then true else covers max_id m g

pub covers-lookup :
    (max_id g : ℕ) (m : List (ℕ × ℕ)) → lookup g m ≡ some g → g ≤ max_id → covers max_id m g ≡ true
unfolding lookup
covers-lookup max_id g [] l k = absurd (ground (arith, l))
covers-lookup max_id g ((id, h) ∷ m) l k = ground (arith, eqb_iff id g, covers-lookup max_id g m)

abbrev pub is_id : ℕ → ℤ → Bool
is_id h (pos n) = eqb n h
is_id h (negsuc n) = false

abbrev pub answers_id : {R : Type 0} → ℕ → Option (Response R) → Bool
answers_id h none = false
answers_id h (some r) = is_id h r.id

module _ {R : Type 0} where
  pub record Good (c : Client R) : Type 0 where
    pub named : (id h : ℕ) → lookup id c.response_info_map ≡ some h → h ≡ id
    pub fresh : (h : ℕ) (i : ResponseInfo R) → lookup h c.infos ≡ some i → h < c.next_id
    pub known :
        (id h : ℕ) → lookup id c.response_info_map ≡ some h → is_some (lookup h c.infos) ≡ true
    pub pending :
        (id h : ℕ) (i : ResponseInfo R)
        → lookup id c.response_info_map ≡ some h
        → lookup h c.infos ≡ some i
        → is_received i.state ≡ false
    pub listed :
        (h : ℕ) (i : ResponseInfo R)
        → lookup h c.infos ≡ some i
        → is_open i.state ≡ true
        → lookup h c.response_info_map ≡ some h
    pub answered :
        (h : ℕ) (i : ResponseInfo R)
        → lookup h c.infos ≡ some i
        → is_received i.state ≡ true
        → answers_id h i.response ≡ true

  pub lookup-update_info :
      (f : ResponseInfo R → ResponseInfo R) (h g : ℕ) (infos : List (ℕ × ResponseInfo R))
      → lookup g (update_info f h infos) ≡ (
          if eqb h g
          then elim (lookup h infos) [ none ↦ none | some i ↦ some (f i) ]
          else lookup g infos)
  lookup-update_info f h g infos = elim (Option-cases (lookup h infos)) [
    | inl e ↦ ground (arith, eqb_iff h g)
    | inr (i, e) ↦ ground (arith, lookup-assign h g (f i) infos, eqb_iff h g)
  ]

  pub lookup-block_all :
      (max_id g : ℕ) (m : List (ℕ × ℕ)) (infos : List (ℕ × ResponseInfo R))
      → lookup g (block_all max_id m infos) ≡ (
          if covers max_id m g
          then elim (lookup g infos) [ none ↦ none | some i ↦ some (block_info i) ]
          else lookup g infos)
  unfolding block_all
  lookup-block_all max_id g [] infos = refl
  lookup-block_all max_id g ((id, h) ∷ m) infos = ground (
    arith,
    lookup-block_all max_id g m infos,
    lookup-block_all max_id g m (update_info block_info h infos),
    lookup-update_info block_info h g infos,
    eqb_iff h g,
  )

  pub send-Good :
      (tunnelled sent expect : Bool) (method : String) (c : Client R)
      → Good c
      → Good (send tunnelled sent expect method c)
  unfolding send
  send-Good tunnelled sent expect method c g = record {
    named = λ id h l. ground (
      arith,
      lookup-assign c.next_id id c.next_id c.response_info_map,
      eqb_iff c.next_id id,
      g.named id h,
    );
    fresh = λ h i l.
        ground
          (arith, lookup-assign c.next_id h (new method) c.infos, eqb_iff c.next_id h, g.fresh h i);
    known = λ id h l. ground (
      arith,
      lookup-assign c.next_id id c.next_id c.response_info_map,
      lookup-assign c.next_id h (new method) c.infos,
      eqb_iff c.next_id id,
      eqb_iff c.next_id h,
      g.known id h,
    );
    pending = λ id h i l k. ground (
      arith,
      lookup-assign c.next_id id c.next_id c.response_info_map,
      lookup-assign c.next_id h (new method) c.infos,
      eqb_iff c.next_id id,
      eqb_iff c.next_id h,
      g.pending id h i,
      g.named id h,
    );
    listed = λ h i l o. ground (
      arith,
      lookup-assign c.next_id h (new method) c.infos,
      lookup-assign c.next_id h c.next_id c.response_info_map,
      eqb_iff c.next_id h,
      g.listed h i,
    );
    answered = λ h i l o. ground (
      arith,
      lookup-assign c.next_id h (new method) c.infos,
      eqb_iff c.next_id h,
      g.answered h i,
    );
  }
    where
      new : String → ResponseInfo R
      new m = record { state = waiting; method = m; response = none }

  pub Good-of_eq : {c d : Client R} → d ≡ c → Good c → Good d
  Good-of_eq e g = rw (e) g

  -- The client behind a response that a command is listed for
  abbrev taken : Response R → ℕ → Client R → Client R
  taken r h c = record c {
    response_info_map = erase h c.response_info_map;
    infos = update_info (accept r) h c.infos;
  }

  update_info-origin :
      (f : ResponseInfo R → ResponseInfo R) (h g : ℕ) (infos : List (ℕ × ResponseInfo R))
      (i : ResponseInfo R)
      → lookup g (update_info f h infos) ≡ some i
      → (j : ResponseInfo R) × (lookup g infos ≡ some j) × (i ≡ (if eqb h g then f j else j))
  update_info-origin f h g infos i e = elim (Option-cases (lookup g infos)) [
    | inl n ↦ absurd (ground (arith, lookup-update_info f h g infos, eqb_iff h g, e))
    | inr (j, n) ↦ (j, n, ground (arith, lookup-update_info f h g infos, eqb_iff h g, e))
  ]

  taken-Good :
      (r : Response R) (h : ℕ) (c : Client R)
      → Good c
      → lookup h c.response_info_map ≡ some h
      → is_id h r.id ≡ true
      → Good (taken r h c)
  taken-Good r h c g l k = record {
    named = λ id h' e. ground (arith, lookup-erase h id c.response_info_map, g.named id h');
    fresh = λ h' i e. let o = update_info-origin (accept r) h h' c.infos i e in g.fresh h' o.0 o.1;
    known = λ id h' e. ground (
      arith,
      lookup-erase h id c.response_info_map,
      lookup-update_info (accept r) h h' c.infos,
      eqb_iff h id,
      eqb_iff h h',
      g.known id h',
      g.named id h',
    );
    pending = λ id h' i e o. ground (
      arith,
      lookup-erase h id c.response_info_map,
      lookup-update_info (accept r) h h' c.infos,
      eqb_iff h id,
      eqb_iff h h',
      g.pending id h' i,
      g.named id h',
    );
    listed = λ h' i e o.
        let q = update_info-origin (accept r) h h' c.infos i e in
        ground
          (arith, q, o, lookup-erase h h' c.response_info_map, eqb_iff h h', g.listed h' q.0 q.1);
    answered = λ h' i e o.
        let q = update_info-origin (accept r) h h' c.infos i e in
        ground (arith, q, o, k, eqb_iff h h', g.answered h' q.0 q.1, g.pending h h q.0 l);
  }

  pub receive-Good :
      (parse_error : String → Status) (r : Response R) (c : Client R)
      → Good c
      → Good (receive parse_error r c).1
  unfolding receive
  receive-Good parse_error r c g = go r.id refl
    where
      go : (n : ℤ) → r.id ≡ n → Good (receive parse_error r c).1
      go (negsuc n) e = Good-of_eq (ground arith) g
      go (pos n) e = elim (Option-cases (lookup n c.response_info_map)) [
        | inl l ↦ Good-of_eq (ground arith) g
        | inr (h, l) ↦
            Good-of_eq (ground (arith, g.named n h))
              (taken-Good r n c g (ground (arith, g.named n h)) (ground (arith, eqb_iff n n)))
      ]

  block_all-origin :
      (max_id h : ℕ) (m : List (ℕ × ℕ)) (infos : List (ℕ × ResponseInfo R)) (i : ResponseInfo R)
      → lookup h (block_all max_id m infos) ≡ some i
      → (j : ResponseInfo R) × (lookup h infos ≡ some j)
        × (i ≡ (if covers max_id m h then block_info j else j))
  block_all-origin max_id h m infos i e = elim (Option-cases (lookup h infos)) [
    | inl n ↦ absurd (ground (arith, lookup-block_all max_id h m infos, e))
    | inr (j, n) ↦ (j, n, ground (arith, lookup-block_all max_id h m infos, e))
  ]

  pub block-Good : (max_id : ℕ) (c : Client R) → Good c → Good (block max_id c)
  unfolding block
  block-Good max_id c g = record {
    named = g.named;
    fresh = λ h i e.
        let q = block_all-origin max_id h c.response_info_map c.infos i e in g.fresh h q.0 q.1;
    known = λ id h e.
        ground (arith, lookup-block_all max_id h c.response_info_map c.infos, g.known id h);
    pending = λ id h i e o.
        let q = block_all-origin max_id h c.response_info_map c.infos i o in
        ground (arith, q, g.pending id h q.0 e q.1);
    listed = λ h i e o.
        let q = block_all-origin max_id h c.response_info_map c.infos i e in
        ground (arith, q, o, g.listed h q.0 q.1);
    answered = λ h i e o.
        let q = block_all-origin max_id h c.response_info_map c.infos i e in
        ground (arith, q, o, g.answered h q.0 q.1);
  }
