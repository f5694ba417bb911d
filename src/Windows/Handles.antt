-- ===== src/Windows/Handles.antt =====
-- The windows of a session: ExecuteQuit, ExecuteBidiSessionEnd, ExecuteClose,
-- ExecuteGetWindowHandles and ExecuteSwitchToWindow of session_commands.cc. The browser is the
-- interface `Browser`.
pub mod Switched
pub mod Listed
use chromedriver.Base.{
  String, Bool, true, false, not, ◌&&◌, ◌||◌, Option, none, some, List, [], ◌∷◌, ◌==◌,
  if◌then◌else◌, ℕ, leb, eqb, length,
}
use chromedriver.Values.{Values}
use chromedriver.Result.{Result, done, fail}
use chromedriver.Status.{
  Status, status, status_details, is_error, is_ok, code_eq, ok, invalid_argument, no_active_page,
  no_such_window, unknown_error,
}
use chromedriver.Windows.{Session, View, Stop, handle_open_dialog, to_top}

-- What the commands ask of the browser. A page is known by its id; `active_page` is
-- GetActivePageByWebViewId without waiting, `window_name` the result of the script for the name of
-- a window, where `none` is no text, and `apply_overrides` the calls that repeat the overrides of
-- the session in a page.
pub record Browser (V W : Type 0) : Type 0 where
  pub get_top_level_web_view_ids : Bool → Session V W → Status × List String × Session V W
  pub active_page : String → Session V W → Result String × Session V W
  pub close_web_view : Session V W → Status × Session V W
  pub quit : Session V W → Status × Session V W
  pub window_name : String → Session V W → Result (Option String) × Session V W
  pub apply_overrides : String → Session V W → Status × Session V W
  pub activate_web_view : String → Session V W → Status × Session V W
  -- the entries of a std::unordered_map in the order of its iterator, which is not specified
  pub order : List (String × String) → List (String × String)

pub record Windows (V W : Type 0) : Type 0 where
  pub window : String
  pub bidi_mapper_web_view_id : String
  pub w3c_compliant : Bool
  pub web_socket_url : Bool
  pub quit : Bool
  pub detach : Bool
  -- whether `mouse_position` is the origin
  pub mouse_at_origin : Bool
  pub session : Session V W

-- The value that a command writes
pub data Value : Type 0 where
  nothing empty_dict empty_list : Value
  handles : List String → Value

-- window_ids.erase of the first that is found
abbrev pub erase_first : String → List String → List String
erase_first x [] = []
erase_first x (y ∷ ys) = if y == x then ys else y ∷ erase_first x ys

abbrev pub has_tab : String → List (String × String) → Bool
has_tab t [] = false
has_tab t (p ∷ ps) = p.0 == t || has_tab t ps

-- The map that the assignments of the list make
abbrev pub as_map : List (String × String) → List (String × String)
as_map [] = []
as_map (p ∷ ps) = let rest = as_map ps in if has_tab p.0 ps then rest else p ∷ rest

abbrev pub find_id : String → List (String × String) → Option (String × String)
find_id name [] = none
find_id name (p ∷ ps) = if p.0 == name || p.1 == name then some p else find_id name ps

-- `web` is the web view of the window with an id.
module _ {V D W : Type 0} (api : Values V D) (web : String → View V W) (browser : Browser V W) where
  open browser use {
    get_top_level_web_view_ids, active_page, close_web_view, window_name, apply_overrides,
    activate_web_view, order,
  }

  abbrev Outcome : Type 0
  Outcome = Status × Value × Windows V W

  abbrev pub with_session : Windows V W → Session V W → Windows V W
  with_session w s = record w { session = s }

  -- ExecuteQuit
  unfoldable pub quit_session : Bool → Windows V W → Outcome
  quit_session allow_detach w =
      let q = browser.quit w.session in
      if allow_detach && w.detach
      then (status ok, nothing, record w { quit = true })
      else (q.0, nothing, record w { quit = true; session = q.1 })

  -- The end of ExecuteBidiSessionEnd, with the session that the pending responses leave
  unfoldable pub bidi_session_end : Session V W → Windows V W → Outcome
  bidi_session_end s w =
      let q = browser.quit s in
      (q.0, if is_ok q.0 then empty_dict else nothing, record w { quit = true; session = q.1 })

  -- The pages of the tabs that have one
  unfoldable pub active_pages :
      List String → Session V W → Result (List (String × String)) × Session V W
  active_pages [] s = (done [], s)
  active_pages (t ∷ ts) s =
      let r = active_page t s in
      let rest = active_pages ts r.1 in
      elim r.0 [
        | fail e ↦ if code_eq e.code no_active_page then rest else (fail e, r.1)
        | done p ↦ (elim rest.0 [ fail e ↦ fail e | done ps ↦ done ((t, p) ∷ ps) ], rest.1)
      ]

  abbrev pub page_ids : List (String × String) → List String
  page_ids [] = []
  page_ids (p ∷ ps) = p.1 ∷ page_ids ps

  abbrev pub visible : Windows V W → List String → List String
  visible w ids = if w.web_socket_url then erase_first w.bidi_mapper_web_view_id ids else ids

  abbrev list_pages : Windows V W → Result (List (String × String)) × Session V W → Outcome
  list_pages w (fail e, s) = (e, nothing, with_session w s)
  list_pages w (done ps, s) = (status ok, handles (visible w (page_ids ps)), with_session w s)

  unfoldable pub get_window_handles : Windows V W → Outcome
  get_window_handles w =
      let r = get_top_level_web_view_ids w.w3c_compliant w.session in
      if is_error r.0
      then (r.0, nothing, with_session w r.2)
      else list_pages w (active_pages r.1 r.2)

  -- ExecuteClose behind the dialog
  unfoldable pub close_window : Bool → Windows V W → Outcome
  close_window is_last w =
      let c = close_web_view w.session in
      let q = browser.quit c.1 in
      if is_error c.0
      then (c.0, nothing, with_session w c.1)
      else if is_last
      then (q.0, if is_ok q.0 then empty_list else nothing, record w { quit = true; session = q.1 })
      else get_window_handles (with_session w c.1)

  abbrev behind_dialog : Bool → Windows V W → Stop × Session V W → Outcome
  behind_dialog is_last w (some e, s) = (e, nothing, with_session w s)
  behind_dialog is_last w (none, s) = close_window is_last (with_session w s)

  abbrev pub is_last_web_view : Windows V W → List String → Bool
  is_last_web_view w ids = if w.web_socket_url then leb (length ids) 2 else eqb (length ids) 1

  unfoldable pub close : Windows V W → Outcome
  close w =
      let r = get_top_level_web_view_ids w.w3c_compliant w.session in
      let e = (web w.window).handle_received_events r.2 in
      if is_error r.0
      then (r.0, nothing, with_session w r.2)
      else if is_error ((web w.window).get_target_window r.2)
      then ((web w.window).get_target_window r.2, nothing, with_session w r.2)
      else if is_error e.0
      then (e.0, nothing, with_session w e.1)
      else behind_dialog (is_last_web_view w r.1) w (handle_open_dialog api (web w.window) e.1)

  -- The first page whose window has the name
  unfoldable pub find_window :
      String
      → List (String × String)
      → Session V W
      → Result (Option (String × String)) × Session V W
  find_window name [] s = (done none, s)
  find_window name (p ∷ ps) s =
      let r = window_name p.1 s in
      let rest = find_window name ps r.1 in
      elim r.0 [
        | fail e ↦ (fail e, r.1)
        | done o ↦ elim o [
          | none ↦ (fail (status_details unknown_error "failed to get window name"), r.1)
          | some n ↦ if n == name then (done (some p), r.1) else rest
        ]
      ]

  unfoldable pub find_page :
      String
      → List (String × String)
      → Session V W
      → Result (Option (String × String)) × Session V W
  find_page name tabs s = elim (find_id name tabs) [
    | some p ↦ (done (some p), s)
    | none ↦ find_window name tabs s
  ]

  abbrev pub activated : String → Windows V W → Status × Session V W → Status × Windows V W
  activated tab w (e, s) = if is_error e then (e, with_session w s) else (
    status ok,
    record w { window = tab; mouse_at_origin = true; session = to_top api (web tab) s },
  )

  abbrev pub overridden : String → Windows V W → Status × Session V W → Status × Windows V W
  overridden tab w (e, s) =
      if is_error e then (e, with_session w s) else activated tab w (activate_web_view tab s)

  abbrev pub switch_found :
      Windows V W → Result (Option (String × String)) × Session V W → Status × Windows V W
  switch_found w (fail e, s) = (e, with_session w s)
  switch_found w (done none, s) = (status no_such_window, with_session w s)
  switch_found w (done (some p), s) = overridden p.0 w (apply_overrides p.1 s)

  abbrev pub switch_among :
      String → Windows V W → Result (List (String × String)) × Session V W → Status × Windows V W
  switch_among name w (fail e, s) = (e, with_session w s)
  switch_among name w (done ps, s) = switch_found w (find_page name (order (as_map ps)) s)

  abbrev pub switch_named : Option String → Windows V W → Status × Windows V W
  switch_named none w = (
    status_details invalid_argument
        (if w.w3c_compliant then "'handle' must be a string" else "'name' must be a string"),
    w,
  )
  switch_named (some n) w =
      let r = get_top_level_web_view_ids w.w3c_compliant w.session in
      if is_error r.0 then (r.0, with_session w r.2) else switch_among n w (active_pages r.1 r.2)

  -- ExecuteSwitchToWindow, with the strings under "handle" and "name"
  unfoldable pub switch_to_window :
      Option String → Option String → Windows V W → Status × Windows V W
  switch_to_window handle name w = switch_named (if w.w3c_compliant then handle else name) w
