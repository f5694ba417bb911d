-- ===== src/DevTools/Commands.antt =====
-- The commands that wait for a response: SendCommandInternal, ProcessCommandResponse and the end of
-- ProcessEvent of chrome/devtools_client_impl.cc, cut where messages are awaited or listeners are
-- called, so that the pieces of nested calls can follow each other in any order. A `ResponseInfo`
-- is shared by the table and by the call that waits for it; it is named by the id of the command
-- that it was made for. `R` stands for the type of results, and `parse_error` for
-- ParseInspectorError.
use chromedriver.Base.{
  ℕ, suc, String, Bool, true, false, ◌&&◌, not, Option, none, some, List, [], ◌∷◌, ◌<>◌,
  if◌then◌else◌, ℤ, pos, negsuc, leb, is_some,
}
use chromedriver.Dictionary.{nat_eq, lookup, assign, erase}
use chromedriver.Status.{
  Status, status, status_details, code_eq, ok, unknown_error, no_such_frame, unexpected_alert_open,
}

pub data ResponseState : Type 0 where
  waiting blocked ignored received : ResponseState

-- InspectorCommandResponse
pub record Response (R : Type 0) : Type 0 where
  pub id : ℤ
  pub result : Option R
  pub error : String

pub record ResponseInfo (R : Type 0) : Type 0 where
  pub state : ResponseState
  pub method : String
  pub response : Option (Response R)

pub record Client (R : Type 0) : Type 0 where
  -- `next_id_` of the root
  pub next_id : ℕ
  pub response_info_map : List (ℕ × ℕ)
  pub infos : List (ℕ × ResponseInfo R)
  -- `parent_ == nullptr`
  pub is_root : Bool

-- What SendCommandInternal returns: a command that does not wait succeeds without a result.
pub data Returned (R : Type 0) : Type 0 where
  returns : Status → Returned R
  answers : R → Returned R
  crashes : Returned R

abbrev pub is_received : ResponseState → Bool
is_received received = true
is_received _ = false

abbrev pub is_ignored : ResponseState → Bool
is_ignored ignored = true
is_ignored _ = false

abbrev pub is_waiting : ResponseState → Bool
is_waiting waiting = true
is_waiting _ = false

-- response_info_map_.find(id)
abbrev pub find_info : ℤ → List (ℕ × ℕ) → Option (ℕ × ℕ)
find_info (pos n) m = elim (lookup n m) [ none ↦ none | some h ↦ some (n, h) ]
find_info (negsuc n) m = none

abbrev pub alert_status : Option String → Status
alert_status none = status unexpected_alert_open
alert_status (some text) = status_details unexpected_alert_open ("{Alert text : " <> (text <> "}"))

module _ {R : Type 0} where
  -- AdvanceNextMessageId, which is called once more for a tunnelled command
  abbrev advance : Bool → Client R → Client R
  advance tunnelled c = record c {
    next_id = if tunnelled then suc (suc c.next_id) else suc c.next_id;
  }

  abbrev new_info : String → ResponseInfo R
  new_info method = record { state = waiting; method = method; response = none }

  -- SendCommandInternal up to the loop, for a command of the driver; `sent` tells that the command
  -- was serialized and sent.
  unfoldable pub send : Bool → Bool → Bool → String → Client R → Client R
  send tunnelled sent expect_response method c =
      let c' = advance tunnelled c in
      if sent && expect_response
      then record c' {
        response_info_map = assign c.next_id c.next_id c.response_info_map;
        infos = assign c.next_id (new_info method) c.infos;
      }
      else c'

  abbrev pub accept : Response R → ResponseInfo R → ResponseInfo R
  accept r i = if is_ignored i.state then i else record i { state = received; response = some r }

  abbrev pub block_info : ResponseInfo R → ResponseInfo R
  block_info i = if is_waiting i.state then record i { state = blocked } else i

  abbrev pub update_info :
      (ResponseInfo R → ResponseInfo R) → ℕ → List (ℕ × ResponseInfo R) → List (ℕ × ResponseInfo R)
  update_info f h infos = elim (lookup h infos) [ none ↦ infos | some i ↦ assign h (f i) infos ]

  module _ (parse_error : String → Status) where
    -- A response that no command waits for
    abbrev pub unexpected : Response R → Bool → Status
    unexpected r is_root =
        if is_root && not (is_some r.result) && code_eq (parse_error r.error).code no_such_frame
        then status ok
        else status_details unknown_error "unexpected command response"

    -- ProcessCommandResponse up to the notification of the listeners
    unfoldable pub receive : Response R → Client R → Status × Client R
    receive r c = elim (find_info r.id c.response_info_map) [
      | none ↦ (unexpected r c.is_root, c)
      | some (id, h) ↦ (
        status ok,
        record c {
          response_info_map = erase id c.response_info_map;
          infos = update_info (accept r) h c.infos;
        },
      )
    ]

    abbrev pub answer_of : Response R → Returned R
    answer_of r = elim r.result [ none ↦ returns (parse_error r.error) | some v ↦ answers v ]

    -- SendCommandInternal behind the loop, or `none` while the state is kWaiting; the text is that
    -- of the open dialog.
    abbrev finish_info :
        Option String → ℕ → ResponseInfo R → Client R → Option (Returned R) × Client R
    finish_info text h i c = elim i.state [
      | waiting ↦ (none, c)
      | blocked ↦ (
        some (returns (alert_status text)),
        record c { infos = assign h (record i { state = ignored }) c.infos },
      )
      | received ↦ elim i.response [ none ↦ (some crashes, c) | some r ↦ (some (answer_of r), c) ]
      | ignored ↦ (some crashes, c)
    ]

    unfoldable pub finish : Option String → ℕ → Client R → Option (Returned R) × Client R
    finish text h c = elim (lookup h c.infos) [
      | none ↦ (some crashes, c)
      | some i ↦ finish_info text h i c
    ]

  -- An error of ProcessNextMessage ends the loop.
  unfoldable pub abandon : ℕ → Client R → Client R
  abandon h c = elim (lookup h c.infos) [
    | none ↦ c
    | some i ↦
        if is_received i.state
        then record c { response_info_map = erase h c.response_info_map }
        else c
  ]

  -- The loop over `response_info_map_` at the end of ProcessEvent
  unfoldable pub block_all :
      ℕ → List (ℕ × ℕ) → List (ℕ × ResponseInfo R) → List (ℕ × ResponseInfo R)
  block_all max_id [] infos = infos
  block_all max_id ((id, h) ∷ m) infos =
      let skipped = block_all max_id m infos in
      let marked = block_all max_id m (update_info block_info h infos) in
      if leb id max_id then marked else skipped

  unfoldable pub block : ℕ → Client R → Client R
  block max_id c = record c { infos = block_all max_id c.response_info_map c.infos }
