-- ===== src/Windows/Cookies/Added.antt =====
-- What AddCookie is asked for.
use mathlib.Core.Path.{subst}
use Prim.Native.String.{len}
use chromedriver.Base.{
  String, ◌≡◌, refl, sym, Bool, true, false, ◌||◌, Option, none, some, ◌<>◌, ◌==◌, is_empty, ltb,
  ◌⊎◌, inl, inr, arith, Bool-cases, Option-cases, ℤ, pos, negsuc, ℕ,
}
use chromedriver.Values.{Values, find_dict}
use chromedriver.Result.{Result, done, fail, bind_elim, done-inj}
use chromedriver.Timeouts.{Number, get_optional_safe_int}
use chromedriver.Windows.Cookies.{
  Doubles, Urls, NewCookie, has_cookies, cookie_domain, same_site, optional, checked_url, number_at,
  required, cookie_expiry, cookie_from, expiry_of_int, add_cookie, strip_dot,
}

-- The domain is the one that was asked for, where that is none or an address; otherwise it begins
-- with a dot, and behind it stand at least two bytes of a domain of the page.
abbrev pub Domain : Urls → String → String → Type 0
Domain urls url domain =
    (is_empty domain ≡ true)
    ⊎ (urls.is_ip_address domain ≡ true)
    ⊎ ((d : String) × (domain ≡ "." <> d) × (urls.domain_is url d ≡ true) × (ltb (len d) 2 ≡ false))

-- The URL has one of the three schemes that have cookies.
abbrev pub Scheme : Urls → String → Type 0
Scheme urls url =
    (scheme : String) × ((scheme ≡ "http://") ⊎ (scheme ≡ "https://") ⊎ (scheme ≡ "ftp://"))
    × (urls.starts_with url scheme ≡ true)

has_cookies-Scheme : (urls : Urls) (url : String) → has_cookies urls url ≡ true → Scheme urls url
unfolding has_cookies
has_cookies-Scheme urls url h = elim (Bool-cases (urls.starts_with url "http://")) [
  | inl t ↦ ("http://", inl refl, t)
  | inr f ↦ elim (Bool-cases (urls.starts_with url "https://")) [
    | inl t ↦ ("https://", inr (inl refl), t)
    | inr g ↦ ("ftp://", inr (inr refl), ground (arith, h, f, g))
  ]
]

cookie_domain-Domain :
    (urls : Urls) (url asked domain : String)
    → cookie_domain urls true url asked ≡ done domain
    → Domain urls url domain
unfolding cookie_domain
cookie_domain-Domain urls url asked domain h =
    let d = strip_dot asked in
    elim (Bool-cases (is_empty asked)) [
      | inl e ↦ inl (ground (arith, e, h))
      | inr e ↦ elim (Bool-cases (urls.is_ip_address asked)) [
        | inl i ↦ inr (inl (ground (arith, e, i, h)))
        | inr i ↦
            inr (inr (d, ground (arith, e, i, h), ground (arith, e, i, h), ground (arith, e, i, h)))
      ]
    ]

same_site-is_known :
    (s site : String)
    → same_site s ≡ done site
    → (is_empty site || (site == "Strict" || (site == "Lax" || site == "None"))) ≡ true
unfolding same_site
same_site-is_known s site h =
    ground (arith, h, Bool-cases (is_empty s || (s == "Strict" || (s == "Lax" || s == "None"))))

module _ {V D E : Type 0} (api : Values V D) (doubles : Doubles V E) (number : V → Number) where
  -- The expiry is a time that is not negative, or the mark for none.
  abbrev pub Expiry : E → Type 0
  Expiry e = (e ≡ doubles.of_int (negsuc 0)) ⊎ ((n : ℕ) × (e ≡ doubles.of_int (pos n)))

  expiry_of_int-Expiry :
      (r : Bool × Option ℤ) (e : E) → expiry_of_int api doubles number r ≡ done e → Expiry e
  expiry_of_int-Expiry (false, o) e h = absurd (ground (arith, h))
  expiry_of_int-Expiry (true, none) e h = inl (sym (done-inj h))
  expiry_of_int-Expiry (true, some (negsuc n)) e h = absurd (ground (arith, h))
  expiry_of_int-Expiry (true, some (pos n)) e h = inr (n, sym (done-inj h))

  checked_url-done :
      (urls : Urls) (current : Result String) (url : String)
      → checked_url api doubles number urls current ≡ done url
      → (current ≡ done url) × (has_cookies urls url ≡ true)
  checked_url-done urls (fail e) url h = absurd (ground (arith, h))
  checked_url-done urls (done u) url h = ground (arith, h, Bool-cases (has_cookies urls u))

  -- What a cookie that is added for the page at a URL is like
  abbrev pub IsAllowed : Urls → String → NewCookie E → Type 0
  IsAllowed urls url c =
      (c.url ≡ url)
      × Scheme urls url
      × Domain urls url c.domain
      × ((is_empty c.samesite
            || (c.samesite == "Strict" || (c.samesite == "Lax" || c.samesite == "None")))
          ≡ true)
      × Expiry c.expiry

  cookie_from-IsAllowed :
      (urls : Urls) (current : Result String) (cookie : D) (c : NewCookie E)
      → cookie_from api doubles number urls true current cookie ≡ done c
      → (url : String) × (current ≡ done url) × IsAllowed urls url c
  unfolding cookie_expiry
  cookie_from-IsAllowed urls current cookie c h =
      bind_elim (required api cookie "name") h λ name e1 h1.
        bind_elim (required api cookie "value") h1 λ value e2 h2.
          bind_elim (checked_url api doubles number urls current) h2 λ url e3 h3.
            bind_elim (optional api api.as_string "" cookie "domain") h3 λ asked e4 h4.
              bind_elim (cookie_domain urls true url asked) h4 λ domain e5 h5.
                bind_elim (optional api api.as_string "/" cookie "path") h5 λ path e6 h6.
                  bind_elim (optional api api.as_string "" cookie "sameSite") h6 λ site e7 h7.
                    bind_elim (same_site site) h7 λ samesite e8 h8.
                      bind_elim (optional api api.as_bool false cookie "secure") h8 λ secure e9 h9.
                        bind_elim (optional api api.as_bool false cookie "httpOnly") h9
                          λ http_only e10 h10.
                            bind_elim (cookie_expiry api doubles number true cookie) h10
                              λ expiry e11 h11.
                                let u = checked_url-done urls current url e3 in
                                subst
                                  (λ (x : NewCookie E).
                                    (v : String) × (current ≡ done v) × IsAllowed urls v x)
                                  (done-inj h11)
                                  (
                                    url,
                                    u.0,
                                    (
                                      refl,
                                      has_cookies-Scheme urls url u.1,
                                      cookie_domain-Domain urls url asked domain e5,
                                      same_site-is_known site samesite e8,
                                      expiry_of_int-Expiry
                                          (get_optional_safe_int (
                                            number_at api doubles number
                                              (api.find cookie "expiry")))
                                          expiry e11,
                                    ),
                                  )

  -- A cookie that is added in the standard mode is for the URL of the page, which begins with
  -- http://, https:// or ftp://. Its domain is empty, an IP address, which is not compared with the
  -- page, or a dot and a domain of the page; its same-site mode is empty or known; and its expiry
  -- is not negative, or the mark for none.
  pub add_cookie-IsAllowed :
      (urls : Urls) (current : Result String) (params : D) (c : NewCookie E)
      → add_cookie api doubles number urls true current params ≡ done c
      → (url : String) × (current ≡ done url) × IsAllowed urls url c
  unfolding add_cookie cookie_expiry
  add_cookie-IsAllowed urls current params c h =
      elim (Option-cases (find_dict api params "cookie")) [
        | inl e ↦ absurd (ground (arith, e, h))
        | inr (cookie, e) ↦ cookie_from-IsAllowed urls current cookie c (ground (arith, e, h))
      ]
