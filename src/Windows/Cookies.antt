-- ===== src/Windows/Cookies.antt =====
-- The cookies of window_commands.cc: ExecuteAddCookie, ExecuteGetNamedCookie and
-- ExecuteDeleteCookie with GetVisibleCookies, and GetOptionalValue of util.cc with what uses it.
-- `E` stands for double, and `number` reads a value for GetOptionalSafeInt. The operations of //url
-- and //base on a URL and a domain are the parameter `Urls`.
pub mod Added
use Prim.Native.Char.{code}
use Prim.Native.String.{len}
use chromedriver.Base.{
  String, Bool, true, false, not, ◌&&◌, ◌||◌, Option, none, some, List, [], ◌∷◌, ◌<>◌, ◌==◌,
  if◌then◌else◌, is_empty, ltb, eqb, ℤ, pos, negsuc,
}
use chromedriver.Values.{Values, find_string, find_dict, find_bool}
use chromedriver.Result.{Result, done, fail, ◌>>=◌}
use chromedriver.Status.{
  Status, status, status_details, is_error, ok, invalid_argument, invalid_cookie_domain,
  no_such_cookie, unknown_error,
}
use chromedriver.Timeouts.{Number, get_optional_safe_int, is_safe_int}

-- Doubles: a negative one, the conversion of an integer, its integral part, and the time from which
-- a cookie that names no expiry in the legacy mode expires
pub record Doubles (V E : Type 0) : Type 0 where
  pub as_double : V → Option E
  pub is_negative : E → Bool
  pub of_int : ℤ → E
  pub integral : E → ℤ
  pub default_expiry : E

-- url::HostIsIPAddress, GURL::DomainIs, and base::StartsWith with INSENSITIVE_ASCII
pub record Urls : Type 0 where
  pub is_ip_address : String → Bool
  pub domain_is : String → String → Bool
  pub starts_with : String → String → Bool

-- The arguments of AddCookie
pub record NewCookie (E : Type 0) : Type 0 where
  pub name : String
  pub url : String
  pub value : String
  pub domain : String
  pub path : String
  pub samesite : String
  pub secure : Bool
  pub http_only : Bool
  pub expiry : E

pub record Cookie : Type 0 where
  pub name : String
  pub value : String
  pub domain : String
  pub path : String
  pub samesite : String
  pub expiry : ℤ
  pub http_only : Bool
  pub secure : Bool
  pub session : Bool

abbrev pub invalid : String → Status
invalid message = status_details invalid_argument message

abbrev pub or_default {ℓ} : {T : Type ℓ} → T → Option T → T
or_default d none = d
or_default d (some t) = t

abbrev pub strip_dot : String → String
strip_dot String.[] = String.[]
strip_dot (String.◌∷◌ c s) = if eqb (code c) b'.' then s else String.◌∷◌ c s

unfoldable pub has_cookies : Urls → String → Bool
has_cookies urls url =
    urls.starts_with url "http://"
    || (urls.starts_with url "https://" || urls.starts_with url "ftp://")

-- The domain that is sent for a domain that is asked for
unfoldable pub cookie_domain : Urls → Bool → String → String → Result String
cookie_domain urls w3c_compliant url domain =
    let d = strip_dot domain in
    if not (w3c_compliant && (not (is_empty domain) && not (urls.is_ip_address domain)))
    then done domain
    else if ltb (len d) 2
    then fail (status_details invalid_cookie_domain "invalid 'domain'")
    else if not (urls.domain_is url d)
    then fail (status_details invalid_cookie_domain "Cookie 'domain' mismatch")
    else done ("." <> d)

unfoldable pub same_site : String → Result String
same_site s =
    if is_empty s || (s == "Strict" || (s == "Lax" || s == "None"))
    then done s
    else fail (invalid "invalid 'sameSite'")

module _ {V D : Type 0} (api : Values V D) where
  -- GetOptionalValue, and GetOptionalString: what is read under a key, where the outer `none` is
  -- false
  unfoldable pub get_optional : {T : Type 0} → (V → Option T) → D → String → Option (Option T)
  get_optional getter d key = elim (api.find d key) [
    | none ↦ some none
    | some v ↦ elim (getter v) [ none ↦ none | some t ↦ some (some t) ]
  ]

  abbrev pub optional : {T : Type 0} → (V → Option T) → T → D → String → Result T
  optional getter default d key = elim (get_optional getter d key) [
    | none ↦ fail (invalid ("invalid '" <> (key <> "'")))
    | some o ↦ done (or_default default o)
  ]

  abbrev pub required : D → String → Result String
  required d key = elim (find_string api d key) [
    | none ↦ fail (invalid ("missing '" <> (key <> "'")))
    | some s ↦ done s
  ]

  module _ {E : Type 0} (doubles : Doubles V E) (number : V → Number) where
    open doubles use {as_double, is_negative, of_int, integral, default_expiry}

    abbrev pub number_at : Option V → Option Number
    number_at none = none
    number_at (some v) = some (number v)

    abbrev pub expiry_of_int : Bool × Option ℤ → Result E
    expiry_of_int (false, o) = fail (invalid "invalid 'expiry'")
    expiry_of_int (true, none) = done (of_int (negsuc 0))
    expiry_of_int (true, some (negsuc n)) = fail (invalid "invalid 'expiry'")
    expiry_of_int (true, some (pos n)) = done (of_int (pos n))

    abbrev expiry_of_double : Option (Option E) → Result E
    expiry_of_double none = fail (invalid "invalid 'expiry'")
    expiry_of_double (some none) = done default_expiry
    expiry_of_double (some (some e)) =
        if is_negative e then fail (invalid "invalid 'expiry'") else done e

    unfoldable pub cookie_expiry : Bool → D → Result E
    cookie_expiry w3c_compliant d =
        if w3c_compliant
        then expiry_of_int (get_optional_safe_int (number_at (api.find d "expiry")))
        else expiry_of_double (get_optional as_double d "expiry")

    abbrev pub checked_url : Urls → Result String → Result String
    checked_url urls (fail e) = fail e
    checked_url urls (done url) =
        if has_cookies urls url then done url else fail (status invalid_cookie_domain)

    abbrev pub cookie_from : Urls → Bool → Result String → D → Result (NewCookie E)
    cookie_from urls w3c_compliant current cookie = required cookie "name" >>= λ name.
        required cookie "value" >>= λ value. checked_url urls current >>= λ url.
        optional api.as_string "" cookie "domain" >>= λ asked.
        cookie_domain urls w3c_compliant url asked >>= λ domain.
        optional api.as_string "/" cookie "path" >>= λ path.
        optional api.as_string "" cookie "sameSite" >>= λ site. same_site site >>= λ samesite.
        optional api.as_bool false cookie "secure" >>= λ secure.
        optional api.as_bool false cookie "httpOnly" >>= λ http_only.
        cookie_expiry w3c_compliant cookie >>= λ expiry. done (record {
          name = name;
          url = url;
          value = value;
          domain = domain;
          path = path;
          samesite = samesite;
          secure = secure;
          http_only = http_only;
          expiry = expiry;
        })

    -- ExecuteAddCookie up to AddCookie, with the result of GetUrl
    unfoldable pub add_cookie : Urls → Bool → Result String → D → Result (NewCookie E)
    add_cookie urls w3c_compliant current params = elim (find_dict api params "cookie") [
      | none ↦ fail (invalid "missing 'cookie'")
      | some cookie ↦ cookie_from urls w3c_compliant current cookie
    ]

    abbrev pub visible_expiry : Option E → ℤ
    visible_expiry none = pos 0
    visible_expiry (some e) = let i = integral e in if is_safe_int i then i else pos 0

    abbrev double_at : D → String → Option E
    double_at d key = elim (api.find d key) [ none ↦ none | some v ↦ as_double v ]

    -- A cookie as the browser gives it; a text that is missing there is read through a null
    -- pointer, and is empty here.
    unfoldable pub visible_cookie : D → Cookie
    visible_cookie d = record {
      name = or_default "" (find_string api d "name");
      value = or_default "" (find_string api d "value");
      domain = or_default "" (find_string api d "domain");
      path = or_default "" (find_string api d "path");
      samesite = or_default "" (find_string api d "sameSite");
      expiry = visible_expiry (double_at d "expires");
      http_only = or_default false (find_bool api d "httpOnly");
      secure = or_default false (find_bool api d "secure");
      session = or_default false (find_bool api d "session");
    }

    -- GetVisibleCookies behind GetCookies
    unfoldable pub visible_cookies : List V → Result (List Cookie)
    visible_cookies [] = done []
    visible_cookies (v ∷ vs) =
        let rest = visible_cookies vs in
        elim (api.as_dict v) [
          | none ↦ fail (status_details unknown_error "DevTools returns a non-dictionary cookie")
          | some d ↦ rest >>= λ cs. done (visible_cookie d ∷ cs)
        ]

    unfoldable pub first_named : String → List Cookie → Result Cookie
    first_named name [] = fail (status no_such_cookie)
    first_named name (c ∷ cs) =
        let rest = first_named name cs in if name == c.name then done c else rest

    -- ExecuteGetNamedCookie up to CreateDictionaryFrom
    unfoldable pub get_named_cookie : Result (List V) → D → Result Cookie
    get_named_cookie cookies params = elim (find_string api params "name") [
      | none ↦ fail (invalid "missing 'cookie name'")
      | some name ↦ cookies >>= visible_cookies >>= first_named name
    ]

    -- The calls of DeleteCookie in the loop of ExecuteDeleteCookie, up to the first that fails
    unfoldable pub delete_named : (Cookie → Status) → String → List Cookie → Status × List Cookie
    delete_named delete name [] = (status ok, [])
    delete_named delete name (c ∷ cs) =
        let rest = delete_named delete name cs in
        if name == c.name
        then (if is_error (delete c) then (delete c, c ∷ []) else (rest.0, c ∷ rest.1))
        else rest
