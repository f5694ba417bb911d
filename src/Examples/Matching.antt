-- ===== src/Examples/Matching.antt =====
-- A request with two entries, of which the second matches.
use chromedriver.Base.{
  ℕ, String, ◌≡◌, refl, Bool, true, false, ◌&&◌, Option, none, some, List, [], ◌∷◌, if◌then◌else◌,
  is_some, arith,
}
use chromedriver.Values.{find_dict}
use chromedriver.Status.{Status, status, ok}
use chromedriver.Capabilities.{
  Lists, Product, merge_capabilities, match_capabilities, process_capabilities,
  required_capabilities, all_first_match, validate, merge_all, first_matching, get_chrome_options,
}
use chromedriver.Capabilities.Merged.{
  Valid, Requires, Entries, IsFirst, process_capabilities-IsFirst,
}
use chromedriver.Capabilities.Keys.{has, ListLaws, merge_capabilities-find}
use chromedriver.Examples.Json.{
  Json, null, bool, string, dict, list, Elements, no_elements, element, Dict, nil, entry, find,
  json,
}

abbrev pub elements : Elements → List Json
elements no_elements = []
elements (element j js) = j ∷ elements js

abbrev pub as_list : Json → Option (List Json)
as_list (list js) = some (elements js)
as_list _ = none

abbrev is_none : Json → Bool
is_none null = true
is_none _ = false

abbrev keys : Dict → List String
keys nil = []
keys (entry k v d) = k ∷ keys d

-- The entries of the second in front of those of the first
abbrev merge : Dict → Dict → Dict
merge d nil = d
merge d (entry k v e) = entry k v (merge d e)

abbrev lists : Lists Json Dict
lists = record { as_list = as_list; is_none = is_none; keys = keys; merge = merge }

has-keys : (d : Dict) (k : String) → has k (keys d) ≡ is_some (find d k)
unfolding find
has-keys nil k = refl
has-keys (entry j v d) k = ground (arith, has-keys d k)

find-merge_right : (d e : Dict) (k : String) → find d k ≡ none → find (merge d e) k ≡ find e k
unfolding find
find-merge_right d nil k h = h
find-merge_right d (entry j v e) k h = ground (arith, find-merge_right d e k h)

find-merge_left : (d e : Dict) (k : String) → find e k ≡ none → find (merge d e) k ≡ find d k
unfolding find
find-merge_left d nil k h = refl
find-merge_left d (entry j v e) k h = ground (arith, h, find-merge_left d e k)

list_laws : ListLaws json lists
list_laws = record {
  has-keys = has-keys;
  find-merge_right = find-merge_right;
  find-merge_left = find-merge_left;
}

abbrev product : Product
product = record {
  browser_name = "chrome";
  headless_shell_name = "chrome-headless-shell";
  options_key_prefixed = "goog:chromeOptions";
  options_key = "chromeOptions";
  platform_name = "linux";
}

abbrev always : Dict
always = entry "acceptInsecureCerts" (bool true) nil

abbrev other_browser : Dict
other_browser = entry "browserName" (string "firefox") nil

abbrev own_browser : Dict
own_browser = entry "browserName" (string "chrome") nil

abbrev params : Dict
params =
    entry "capabilities"
      (dict (
        entry "alwaysMatch" (dict always) (
          entry "firstMatch"
            (list (element (dict other_browser) (element (dict own_browser) no_elements))) nil)))
      nil

abbrev parse : Dict → Status
parse d = status ok

abbrev print : ℕ → String
print n = "n"

process_capabilities-IsFirst_example :
    (request : Dict) × (required : Dict) × (entries : List Json) × (ds : List Dict) × (d : Dict)
    × (find_dict json params "capabilities" ≡ some request)
    × Requires json product lists parse print (find request "alwaysMatch") required
    × Entries json product lists parse print (find request "firstMatch") entries
    × Valid json product lists parse print entries ds
    × IsFirst json product lists required ds d (merge always own_browser)
unfolding process_capabilities required_capabilities all_first_match validate merge_all
    first_matching match_capabilities merge_capabilities get_chrome_options find
process_capabilities-IsFirst_example =
    process_capabilities-IsFirst json product lists parse print params (merge always own_browser)
      refl

merge_capabilities-find_example :
    (find (merge always own_browser) "browserName" ≡ (
      if is_some (find always "browserName")
      then find always "browserName"
      else find own_browser "browserName"))
    × ((is_some (find always "browserName") && is_some (find own_browser "browserName")) ≡ false)
unfolding merge_capabilities find
merge_capabilities-find_example =
    merge_capabilities-find json product lists list_laws always own_browser
      (merge always own_browser) "browserName" refl
