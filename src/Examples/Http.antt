-- ===== src/Examples/Http.antt =====
-- Requests at concrete values.
use chromedriver.Base.{String, ◌≡◌, refl, none, List, [], ◌∷◌, ◌++◌, if◌then◌else◌, ◌==◌}
use chromedriver.HttpHandler.Routing.{
  CommandMapping, get, match_parts, Libraries, Request, handle_command, matches_command,
  matches_method, find_command, run_found,
}
use chromedriver.HttpHandler.Routes.{IsFirst, Supplied, handle_command-runs}

abbrev split : String → List String
split path =
    if path == "session/:sessionId/url"
    then "session" ∷ ":sessionId" ∷ "url" ∷ []
    else if path == "session/a1/url"
    then "session" ∷ "a1" ∷ "url" ∷ []
    else path ∷ []

abbrev libraries : Libraries String
libraries = record {
  lower = λ s. if s == "GET" then "get" else s;
  split = split;
  decode = λ s. s;
  of_string = λ s. s;
  merge = λ p q. p ++ q;
  parse = λ s. none;
}

abbrev get_url : CommandMapping String
get_url = record { method = get; path_pattern = "session/:sessionId/url"; command = "GetUrl" }

abbrev request : Request
request = record { method = "GET"; path = "/session/a1/url"; body = ""; host = "localhost" }

handle_command-runs_example :
    (m : CommandMapping String) × (left : String) × IsFirst libraries "GET" "session/a1/url" m
      (get_url ∷ [])
    × (m.command ≡ "GetUrl")
    × Supplied libraries [] request "session/a1/url" m left [] "a1"
unfolding handle_command find_command matches_command match_parts run_found matches_method
handle_command-runs_example =
    handle_command-runs libraries (get_url ∷ []) [] request "session/a1/url" "GetUrl" [] "a1" refl
