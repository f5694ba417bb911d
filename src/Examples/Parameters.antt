-- ===== src/Examples/Parameters.antt =====
-- A cookie for a domain, and the parameters of a print. Doubles are integers here.

use chromedriver.Base.{
  String, ◌≡◌, refl, Bool, true, false, Option, none, some, ◌==◌, ℤ, pos, negsuc, ℕ, ◌*◌, ◌/◌, ltb,
  starts_with, arith,
}
use chromedriver.Result.{Result, done}
use chromedriver.Timeouts.{Number, int, other, get_optional_safe_int}
use chromedriver.Windows.Cookies.{
  Doubles, Urls, NewCookie, has_cookies, add_cookie, get_optional, cookie_domain, same_site,
  cookie_expiry,
}
use chromedriver.Windows.Cookies.Added.{IsAllowed, add_cookie-IsAllowed}
use chromedriver.Windows.Print.{
  Lengths, Print, parse_print, parse_orientation, parse_scale, parse_boolean, parse_page,
  parse_margin, parse_page_ranges, non_negative_double, inches,
}
use chromedriver.Windows.Print.Printed.{IsPrint, parse_print-IsPrint}
use chromedriver.Examples.Json.{Json, int as json_int, string, dict, Dict, nil, entry, find, json}
use chromedriver.Examples.Matching.{as_list}

abbrev is_negative : ℤ → Bool
is_negative (pos n) = false
is_negative (negsuc n) = true

abbrev as_double : Json → Option ℤ
as_double (json_int i) = some i
as_double _ = none

abbrev number : Json → Number
number (json_int i) = int i
number _ = other

abbrev doubles : Doubles Json ℤ
doubles = record {
  as_double = as_double;
  is_negative = is_negative;
  of_int = λ i. i;
  integral = λ i. i;
  default_expiry = pos 1;
}

abbrev urls : Urls
urls = record {
  is_ip_address = λ domain. false;
  domain_is = λ url domain. domain == "example.com";
  starts_with = λ url prefix. starts_with url prefix;
}

abbrev cookie : Dict
cookie = entry "name" (string "n") (
    entry "value" (string "v")
      (entry "domain" (string "example.com") (entry "expiry" (json_int (pos 7)) nil)))

abbrev added : NewCookie ℤ
added = record {
  name = "n";
  url = "http://www.example.com/";
  value = "v";
  domain = ".example.com";
  path = "/";
  samesite = "";
  secure = false;
  http_only = false;
  expiry = pos 7;
}

add_cookie-IsAllowed_example :
    (url : String) × (Result.done "http://www.example.com/" ≡ done url)
    × IsAllowed json doubles number urls url added
unfolding add_cookie get_optional find has_cookies cookie_domain same_site cookie_expiry
    get_optional_safe_int
add_cookie-IsAllowed_example =
    add_cookie-IsAllowed json doubles number urls (done "http://www.example.com/")
      (entry "cookie" (dict cookie) nil) added refl

-- Doubles are hundredths here.
abbrev hundredths : Json → Option ℤ
hundredths (json_int (pos n)) = some (pos (n * 100))
hundredths _ = none

abbrev less : ℤ → ℤ → Bool
less (pos m) (pos n) = ltb m n
less (pos m) (negsuc n) = false
less (negsuc m) (pos n) = true
less (negsuc m) (negsuc n) = ltb n m

abbrev divide : ℤ → ℤ → ℤ
divide (pos m) (pos n) = pos (m * 100 / n)
divide d e = d

abbrev lengths : Lengths Json ℤ
lengths = record {
  as_double = hundredths;
  of_double = json_int;
  less = less;
  divide = divide;
  literal = pos;
}

less_zero : (n : ℕ) → ltb n 0 ≡ false
less_zero n = ground arith

abbrev print : Print ℤ
print = record {
  orientation = "landscape";
  scale = pos 200;
  background = false;
  page = record { width = pos 850; height = pos 1181 };
  margin = record { top = pos 39; bottom = pos 39; left = pos 39; right = pos 39 };
  shrink_to_fit = true;
  page_ranges = "";
}

parse_print-IsPrint_example : IsPrint json as_list (λ i. "1") lengths print
unfolding parse_print parse_orientation parse_scale parse_boolean parse_page parse_margin
    parse_page_ranges get_optional find non_negative_double inches
parse_print-IsPrint_example =
    parse_print-IsPrint json as_list (λ i. "1") lengths
      (record { ordered = λ m n. refl; quotient = λ m n. less_zero (m * 100 / n) })
      (entry "orientation" (string "landscape") (
        entry "scale" (json_int (pos 2))
          (entry "page" (dict (entry "height" (json_int (pos 30)) nil)) nil)))
      print refl
