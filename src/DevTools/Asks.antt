-- ===== src/DevTools/Asks.antt =====
-- What the mapper is asked for a command that goes through the tunnel of
-- chrome/devtools_client_impl.cc.

use chromedriver.Base.{String, ◌≡◌, Option, none, some, if◌then◌else◌, is_empty, ℤ, arith, if_elim}
use chromedriver.Values.{
  Values, ValueLaws, find_string, find_dict, find_int, find_string-of, find_dict-of, find_int-of,
}
use chromedriver.Result.{done}
use chromedriver.DevTools.Messages.{cdp_tunnel_channel}
use chromedriver.DevTools.Tunnel.{cdp_command, wrap_cdp_command}

module _ {V D : Type 0} (api : Values V D) (laws : ValueLaws api) where
  open api use {set, of_string, of_dict, of_int, empty_dict}

  abbrev asked_params : String → Option String → D → D
  asked_params method none params =
      set (set empty_dict "method" (of_string method)) "params" (of_dict params)
  asked_params method (some s) params =
      set (set (set empty_dict "method" (of_string method)) "session" (of_string s)) "params"
        (of_dict params)

  abbrev asked : ℤ → D → D
  asked id p =
      set
        (set (set (set empty_dict "id" (of_int id)) "method" (of_string "goog:cdp.sendCommand"))
          "params" (of_dict p))
        "goog:channel" (of_string cdp_tunnel_channel)

  -- What the mapper is asked
  pub record Asks (b : D) (id : ℤ) (method : String) (s : Option String) (params : D) : Type 0 where
    pub inner : D
    pub asks_id : find_int api b "id" ≡ some id
    pub asks_channel : find_string api b "goog:channel" ≡ some "/cdp"
    pub asks_params : find_dict api b "params" ≡ some inner
    pub asks_method : find_string api inner "method" ≡ some method
    pub asks_session : find_string api inner "session" ≡ s
    pub asks_inner : find_dict api inner "params" ≡ some params

  asked-session :
      (method : String) (o : Option String) (params : D)
      → (find_string api (asked_params method o params) "session" ≡ o)
        × (find_string api (asked_params method o params) "method" ≡ some method)
        × (find_dict api (asked_params method o params) "params" ≡ some params)
  asked-session method none params = (
    ground (arith, missing),
    find_string-of laws _ "method" method (simp laws.find-set),
    find_dict-of laws _ "params" params (simp laws.find-set),
  )
    where
      missing : api.find (asked_params method none params) "session" ≡ none
      missing = simp (laws.find-set, laws.find-empty_dict)
  asked-session method (some s) params = (
    find_string-of laws _ "session" s (simp laws.find-set),
    find_string-of laws _ "method" method (simp laws.find-set),
    find_dict-of laws _ "params" params (simp laws.find-set),
  )

  asked-Asks :
      (id : ℤ) (method : String) (o : Option String) (params : D)
      → Asks (asked id (asked_params method o params)) id method o params
  asked-Asks id method o params = record {
    inner = asked_params method o params;
    asks_id = find_int-of laws _ "id" id (simp laws.find-set);
    asks_channel = find_string-of laws _ "goog:channel" "/cdp" (simp laws.find-set);
    asks_params = find_dict-of laws _ "params" (asked_params method o params) (simp laws.find-set);
    asks_method = (asked-session method o params).1;
    asks_session = (asked-session method o params).0;
    asks_inner = (asked-session method o params).2;
  }

  wrap_cdp_command-asked :
      (cdp : D) (id : ℤ) (method : String) (o : Option String) (params : D)
      → find_int api cdp "id" ≡ some id
      → find_string api cdp "method" ≡ some method
      → find_string api cdp "sessionId" ≡ o
      → find_dict api cdp "params" ≡ some params
      → wrap_cdp_command api cdp ≡ done (asked id (asked_params method o params))
  unfolding wrap_cdp_command
  wrap_cdp_command-asked cdp id method none params i m s p = ground (arith, i, m, s, p)
  wrap_cdp_command-asked cdp id method (some k) params i m s p = ground (arith, i, m, s, p)

  abbrev pub session_of : String → Option String
  session_of s = if is_empty s then none else some s

  cdp_command-session :
      (id : ℤ) (method s : String) (params : D)
      → (api.find (cdp_command api id method params s) "sessionId"
          ≡ (if is_empty s then none else some (of_string s)))
        × (api.find (cdp_command api id method params s) "id" ≡ some (of_int id))
        × (api.find (cdp_command api id method params s) "method" ≡ some (of_string method))
        × (api.find (cdp_command api id method params s) "params" ≡ some (of_dict params))
  unfolding cdp_command
  cdp_command-session id method s params = (
    if_elim (λ d. api.find d "sessionId" ≡ (if is_empty s then none else some (of_string s)))
        (is_empty s) (λ e. rw (e) (simp (laws.find-set, laws.find-empty_dict)))
        (λ e. rw (e) (simp laws.find-set)),
    if_elim (λ d. api.find d "id" ≡ some (of_int id)) (is_empty s) (λ e. simp laws.find-set)
        (λ e. simp laws.find-set),
    if_elim (λ d. api.find d "method" ≡ some (of_string method)) (is_empty s)
        (λ e. simp laws.find-set) (λ e. simp laws.find-set),
    if_elim (λ d. api.find d "params" ≡ some (of_dict params)) (is_empty s)
        (λ e. simp laws.find-set) (λ e. simp laws.find-set),
  )

  -- The mapper is asked for the method, the parameters and the session of the command, under its
  -- id, and to answer over the channel of the tunnel.
  pub wrap_cdp_command-Asks :
      (id : ℤ) (method s : String) (params : D)
      → (b : D) × (wrap_cdp_command api (cdp_command api id method params s) ≡ done b)
        × Asks b id method (session_of s) params
  wrap_cdp_command-Asks id method s params =
      let cdp = cdp_command api id method params s in
      let found = cdp_command-session id method s params in
      (
        asked id (asked_params method (session_of s) params),
        wrap_cdp_command-asked cdp id method (session_of s) params
            (find_int-of laws cdp "id" id found.1) (find_string-of laws cdp "method" method found.2)
            (ground (arith, found.0, laws.as_string-of_string s))
            (find_dict-of laws cdp "params" params found.3),
        asked-Asks id method (session_of s) params,
      )
