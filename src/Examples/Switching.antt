-- ===== src/Examples/Switching.antt =====
-- A session with two tabs and the page of the mapper.
use chromedriver.Base.{
  ℕ, String, ◌≡◌, refl, true, false, not, ◌&&◌, none, some, List, [], ◌∷◌, ◌==◌, if◌then◌else◌,
  arith,
}
use chromedriver.Result.{Result, done, fail}
use chromedriver.Status.{Status, status, ok, no_active_page, is_error, code_eq}
use chromedriver.Windows.{Session, View}
use chromedriver.Windows.Handles.{Browser, Windows, handles, get_window_handles, switch_to_window}
use chromedriver.Windows.Handles.Switched.{Outcome, switch_to_window-Switched}
use chromedriver.Windows.Handles.Listed.{has, get_window_handles-has}
use chromedriver.Examples.Json.{Json, json}
use chromedriver.Examples.Windows.{web, calm}

abbrev tabs : String → View Json ℕ
tabs window = web

abbrev page : String → Result String
page tab =
    if tab == "tab1"
    then done "page1"
    else if tab == "tab2"
    then done "mapper"
    else if tab == "tab3"
    then fail (status no_active_page)
    else done "page4"

abbrev browser : Browser Json ℕ
browser = record {
  get_top_level_web_view_ids = λ w s. (status ok, "tab1" ∷ "tab2" ∷ "tab3" ∷ "tab4" ∷ [], s);
  active_page = λ tab s. (page tab, s);
  close_web_view = λ s. (status ok, s);
  quit = λ s. (status ok, s);
  window_name = λ page s. (done (some (if page == "page4" then "popup" else "")), s);
  apply_overrides = λ page s. (status ok, s);
  activate_web_view = λ tab s. (status ok, s);
  order = λ ps. ps;
}

abbrev windows : Windows Json ℕ
windows = record {
  window = "tab1";
  bidi_mapper_web_view_id = "mapper";
  w3c_compliant = true;
  web_socket_url = true;
  quit = false;
  detach = false;
  mouse_at_origin = false;
  session = calm;
}

page_fails :
    (tab : String) (s : Session Json ℕ) (e : Status)
    → (browser.active_page tab s).0 ≡ fail e
    → is_error e ≡ true
page_fails tab s e h = ground (arith, h)

switch_to_window-Switched_example :
    Outcome json tabs browser
      (some "popup")
      windows
      ("tab1" ∷ "tab2" ∷ "tab3" ∷ "tab4" ∷ [])
      (switch_to_window json tabs browser (some "popup") none windows)
switch_to_window-Switched_example =
    switch_to_window-Switched json tabs browser (λ page s e h. absurd (ground (arith, h)))
      (λ ps p i. i) page_fails (some "popup") none windows

get_window_handles-has_example :
    (ids : List String) × ((get_window_handles json tabs browser windows).0 ≡ status ok)
    × ((get_window_handles json tabs browser windows).1 ≡ handles ids)
    × (has "page4" ids
        ≡ (has "page4" ("page1" ∷ "mapper" ∷ "page4" ∷ []) && not ("page4" == "mapper")))
unfolding code_eq
get_window_handles-has_example =
    get_window_handles-has json tabs browser page (λ tab s. refl) windows "page4" refl refl refl
      refl
