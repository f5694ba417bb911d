-- ===== src/Windows/Handles/Listed.antt =====
-- Which windows a session lists.
use chromedriver.Base.{
  String, ◌≡◌, refl, sym, ap, Bool, true, false, not, ◌&&◌, ◌||◌, List, [], ◌∷◌, ◌==◌, arith,
  eq_iff, eq_of_==, inl, inr,
}
use chromedriver.Values.{Values}
use chromedriver.Result.{Result, done, fail, Result-cases}
use chromedriver.Status.{is_error, ok, status, code_eq, no_active_page}
use chromedriver.Windows.{Session, View}
use chromedriver.Windows.Handles.{
  Browser, Windows, handles, erase_first, page_ids, active_pages, get_window_handles,
}

abbrev pub has : String → List String → Bool
has x [] = false
has x (y ∷ ys) = y == x || has x ys

abbrev pub is_distinct : List String → Bool
is_distinct [] = true
is_distinct (x ∷ xs) = not (has x xs) && is_distinct xs

has-eq : (x y : String) (ys : List String) → (y == x) ≡ true → has x ys ≡ has y ys
has-eq x y ys h = ap (λ (t : String). has t ys) (sym (eq_of_== y x h))

has-erase_first :
    (x m : String) (ys : List String)
    → is_distinct ys ≡ true
    → has x (erase_first m ys) ≡ (has x ys && not (x == m))
has-erase_first x m [] d = refl
has-erase_first x m (y ∷ ys) d =
    ground (arith, d, eq_iff y m, eq_iff y x, eq_iff x m, has-eq x y ys, has-erase_first x m ys)

-- What the browser answers for the active page of each tab: a page, or a failure
module _ (page : String → Result String) where
  -- The active pages of the tabs that have one
  abbrev pub pages_of : List String → List String
  pages_of [] = []
  pages_of (t ∷ ts) = elim (page t) [ done p ↦ p ∷ pages_of ts | fail e ↦ pages_of ts ]

  -- A tab without a page has no active page, and fails with no other code.
  abbrev pub all_known : List String → Bool
  all_known [] = true
  all_known (t ∷ ts) =
      elim (page t) [ done p ↦ true | fail e ↦ code_eq e.code no_active_page ] && all_known ts

module _ {V D W : Type 0} (api : Values V D) (web : String → View V W) (browser : Browser V W) where
  module _ (page : String → Result String)
      (active : (tab : String) (s : Session V W) → (browser.active_page tab s).0 ≡ page tab) where
    active_pages-pages_of :
        (tabs : List String) (s : Session V W)
        → all_known page tabs ≡ true
        → (ps : List (String × String)) × ((active_pages api web browser tabs s).0 ≡ done ps)
          × (page_ids api web browser ps ≡ pages_of page tabs)
    unfolding active_pages
    active_pages-pages_of [] s k = ([], refl, refl)
    active_pages-pages_of (t ∷ ts) s k =
        let r = browser.active_page t s in
        elim (Result-cases (page t)) [
          | inl (p, e) ↦
              let rest = active_pages-pages_of ts r.1 (ground (arith, k, e)) in
              ((t, p) ∷ rest.0, ground (arith, active t s, e, rest.1), ground (arith, e, rest.2))
          | inr (f, e) ↦
              let rest = active_pages-pages_of ts r.1 (ground (arith, k, e)) in
              (rest.0, ground (arith, k, active t s, e, rest.1), ground (arith, e, rest.2))
        ]

    -- In a BiDi session a page is reported as a window handle exactly if it is the active page of a
    -- listed tab and not the page of the mapper; tabs without an active page are left out. No two
    -- active pages have the same id, and no tab fails in another way.
    pub get_window_handles-has :
        (w : Windows V W) (x : String)
        → let r = browser.get_top_level_web_view_ids w.w3c_compliant w.session in
          is_error r.0 ≡ false
          → w.web_socket_url ≡ true
          → all_known page r.1 ≡ true
          → is_distinct (pages_of page r.1) ≡ true
          → (ids : List String) × ((get_window_handles api web browser w).0 ≡ status ok)
            × ((get_window_handles api web browser w).1 ≡ handles ids)
            × (has x ids ≡ (has x (pages_of page r.1) && not (x == w.bidi_mapper_web_view_id)))
    unfolding get_window_handles
    get_window_handles-has w x e b k d =
        let r = browser.get_top_level_web_view_ids w.w3c_compliant w.session in
        let m = w.bidi_mapper_web_view_id in
        let p = active_pages-pages_of r.1 r.2 k in
        (
          erase_first m (pages_of page r.1),
          ground (arith, e, p.1),
          ground (arith, e, b, p.1, p.2),
          has-erase_first x m (pages_of page r.1) d,
        )
