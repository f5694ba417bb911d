-- ===== src/HttpHandler/Routing.antt =====
-- Routing of HTTP requests: MatchesMethod, MatchesCommand, IsNewSession, Handle and HandleCommand
-- of server/http_handler.cc. What the code takes from //base and //url is a parameter: `split` is
-- SplitString at "/", `decode` the decoding of a path part up to ReplaceSubstringsAfterOffset,
-- `lower` is ToLowerASCII, and `parse` is JSONReader::Read with GetIfDict. The dictionary of
-- parameters holds strings of the path, and then the members of the body; `merge` is Dict::Merge.
use Prim.Native.String.{len, slice}
use chromedriver.Base.{
  String, Bool, true, false, not, ◌&&◌, ◌||◌, Option, none, some, List, [], ◌∷◌, ◌<>◌, ◌==◌,
  if◌then◌else◌, is_empty, starts_with, eqb, length,
}
use chromedriver.Status.{Status, status_details, invalid_argument, unknown_command}
use chromedriver.HttpHandler.Response.{HttpStatusCode, http_bad_request, http_not_found}
use chromedriver.Dictionary.{string_eq, lookup, assign}

pub data HttpMethod : Type 0 where
  get post delete : HttpMethod

-- `C` stands for the type of commands.
pub record CommandMapping (C : Type 0) : Type 0 where
  pub method : HttpMethod
  pub path_pattern : String
  pub command : C

abbrev pub Params : Type 0 → Type 0
Params V = List (String × V)

-- MatchesMethod
unfoldable pub matches_method : (String → String) → HttpMethod → String → Bool
matches_method lower get method = lower method == "get"
matches_method lower post method = lower method == "post" || lower method == "put"
matches_method lower delete method = lower method == "delete"

-- The loop of MatchesCommand ends by a CHECK that fails, by a mismatch or at the end; the session id
-- and the parameters that were written are kept.
pub data Ending : Type 0 where
  crash mismatch match : Ending

pub record Matching (V : Type 0) : Type 0 where
  pub ending : Ending
  pub session_id : String
  pub params : Params V

-- What the code takes from libraries.
pub record Libraries (V : Type 0) : Type 0 where
  pub lower : String → String
  pub split : String → List String
  pub decode : String → String
  pub of_string : String → V
  pub merge : Params V → Params V → Params V
  pub parse : String → Option (Params V)

module _ {V : Type 0} (decode : String → String) (of_string : String → V) where
  -- One part of the pattern that begins with a colon; the name is what follows the colon.
  abbrev bind_part : String → String → String → Params V → Matching V
  bind_part name decoded session_id params =
      if is_empty name
      then record { ending = crash; session_id = session_id; params = params }
      else if name == "sessionId"
      then record { ending = match; session_id = decoded; params = params }
      else record {
        ending = match;
        session_id = session_id;
        params = assign name (of_string decoded) params;
      }

  abbrev pub match_part : String → String → String → Params V → Matching V
  match_part pattern part session_id params =
      if is_empty pattern
      then record { ending = crash; session_id = session_id; params = params }
      else if starts_with pattern ":"
      then bind_part (slice pattern 1 (len pattern)) (decode part) session_id params
      else record {
        ending = if pattern == part then match else mismatch;
        session_id = session_id;
        params = params;
      }

  -- The loop over the parts, for lists of one length.
  unfoldable pub match_parts : List String → List String → String → Params V → Matching V
  match_parts [] [] session_id params = record {
    ending = match;
    session_id = session_id;
    params = params;
  }
  match_parts (pattern ∷ ps) (part ∷ qs) session_id params =
      let here = match_part pattern part session_id params in
      let rest = match_parts ps qs here.session_id here.params in
      elim here.ending [ match ↦ rest | crash ↦ here | mismatch ↦ here ]
  match_parts _ _ session_id params = record {
    ending = mismatch;
    session_id = session_id;
    params = params;
  }

-- What a request leads to: a response by PrepareResponse in standard mode, a response with plain
-- text, or a command that runs with parameters and a session id or host. A failed CHECK ends the
-- process.
pub data Reply (C V : Type 0) : Type 0 where
  standard_error : Status → String → Reply C V
  plain : HttpStatusCode → String → Reply C V
  runs : C → Params V → String → Reply C V
  crashes : Reply C V

pub data Search (C V : Type 0) : Type 0 where
  found : CommandMapping C → Matching V → Search C V
  not_found : String → Search C V
  crashed : Search C V

pub record Request : Type 0 where
  pub method : String
  pub path : String
  pub body : String
  pub host : String

-- w3cMode, over the modes of the sessions in `session_thread_map_`; kW3CDefault is true.
unfoldable pub w3c_mode : String → List (String × Bool) → Bool
w3c_mode session_id threads =
    if is_empty session_id
    then true
    else elim (lookup session_id threads) [ none ↦ true | some mode ↦ mode ]

abbrev pub is_post : HttpMethod → Bool
is_post post = true
is_post _ = false

-- internal::IsNewSession
abbrev pub is_new_session : {C : Type 0} → CommandMapping C → Bool
is_new_session m = is_post m.method && m.path_pattern == "session"

module _ {C V : Type 0} (lib : Libraries V) where
  -- internal::MatchesCommand with the session id and the parameters that it writes to
  unfoldable pub matches_command :
      CommandMapping C → String → String → String → Params V → Matching V
  matches_command m method path session_id out_params =
      let parts = lib.split path in
      let pattern_parts = lib.split m.path_pattern in
      let r = match_parts lib.decode lib.of_string pattern_parts parts session_id [] in
      if not (matches_method lib.lower m.method method)
      then record { ending = mismatch; session_id = session_id; params = out_params }
      else if not (eqb (length parts) (length pattern_parts))
      then record { ending = mismatch; session_id = session_id; params = out_params }
      else elim r.ending [
        | match ↦ record r { params = lib.merge out_params r.params }
        | mismatch ↦ record r { params = out_params }
        | crash ↦ record r { params = out_params }
      ]

  -- The loop of HandleCommand over `command_map_`. A mapping that does not match may still have
  -- written the session id.
  unfoldable pub find_command : List (CommandMapping C) → String → String → String → Search C V
  find_command [] method path session_id = not_found session_id
  find_command (m ∷ ms) method path session_id =
      let r = matches_command m method path session_id [] in
      let rest = find_command ms method path r.session_id in
      elim r.ending [ match ↦ found m r | mismatch ↦ rest | crash ↦ crashed ]

  abbrev missing_parameters : Bool → String → Reply C V
  missing_parameters w3c session_id =
      if w3c
      then standard_error (status_details invalid_argument "missing command parameters") session_id
      else plain http_bad_request "missing command parameters"

  abbrev run_command : CommandMapping C → Request → Params V → String → Reply C V
  run_command m q params session_id =
      runs m.command params (if is_new_session m then q.host else session_id)

  -- HandleCommand behind the loop.
  unfoldable pub run_found :
      List (String × Bool) → Request → CommandMapping C → Matching V → Reply C V
  run_found threads q m r =
      if not (is_empty q.body)
      then elim (lib.parse q.body) [
        | none ↦ missing_parameters (w3c_mode r.session_id threads) r.session_id
        | some body_params ↦ run_command m q (lib.merge r.params body_params) r.session_id
      ]
      else if is_post m.method && w3c_mode r.session_id threads
      then missing_parameters true r.session_id
      else run_command m q r.params r.session_id

  unfoldable pub handle_command :
      List (CommandMapping C) → List (String × Bool) → Request → String → Reply C V
  handle_command mappings threads q trimmed_path =
      elim (find_command mappings q.method trimmed_path "") [
        | crashed ↦ crashes
        | found m r ↦ run_found threads q m r
        | not_found session_id ↦
            if w3c_mode session_id threads
            then standard_error
                (status_details unknown_command ("unknown command: " <> trimmed_path)) session_id
            else plain http_not_found ("unknown command: " <> trimmed_path)
      ]

  -- Handle: the reply, if there is one, and `received_shutdown_`.
  unfoldable pub handle :
      String
      → List (CommandMapping C)
      → List (String × Bool)
      → Request
      → Bool
      → Option (Reply C V) × Bool
  handle url_base mappings threads q received_shutdown =
      let path = slice q.path (len url_base) (len q.path) in
      if received_shutdown
      then (none, true)
      else if not (starts_with q.path url_base)
      then (some (plain http_bad_request "unhandled request"), false)
      else (some (handle_command mappings threads q path), path == "shutdown")
