-- ===== src/Windows/Handles/Switched.antt =====
-- Which window a session is switched to.
use mathlib.Core.Path.{subst}
use chromedriver.Base.{
  String, ◌≡◌, refl, sym, ap, ◌∙◌, Bool, true, false, ◌||◌, Option, none, some, List, [], ◌∷◌, ◌==◌,
  if◌then◌else◌, ◌⊎◌, inl, inr, arith, Bool-cases, Option-cases, eq_of_==, eq_refl, if_elim,
}
use chromedriver.Values.{Values}
use chromedriver.Result.{Result, done, fail, Result-cases, done-inj}
use chromedriver.Status.{Status, is_error, code_eq, no_active_page}
use chromedriver.Sessions.Frames.{switch_to_top_frame, switch_frame_internal}
use chromedriver.Windows.{Session, View, to_top}
use chromedriver.Windows.Handles.{
  Browser, Windows, activated, overridden, switch_named, find_id, as_map, active_pages, find_window,
  find_page, switch_to_window, switch_found, switch_among, has_tab,
}
use chromedriver.Windows.Handles.Listed.{has}

-- The pair is in the list.
abbrev pub In : String × String → List (String × String) → Type 0
In p [] = ⊥
In p (q ∷ qs) = (q ≡ p) ⊎ In p qs

-- A map has only pairs that were assigned.
as_map-In : (p : String × String) (ps : List (String × String)) → In p (as_map ps) → In p ps
as_map-In p [] i = i
as_map-In p (q ∷ qs) i =
    if_elim (λ (m : List (String × String)). In p m → In p (q ∷ qs)) (has_tab q.0 qs)
      (λ b j. inr (as_map-In p qs j))
      (λ b j. elim j [ inl e ↦ inl e | inr k ↦ inr (as_map-In p qs k) ]) i

some-inj : {A : Type 0} {a b : A} → some a ≡ some b → a ≡ b
some-inj h = ground (arith, h)

module _ {V D W : Type 0} (api : Values V D) (web : String → View V W) (browser : Browser V W) where
  -- The tab or its page has the name, or a script in the page answers it.
  abbrev pub Named : String → String × String → Type 0
  Named n p =
      (p.0 ≡ n) ⊎ (p.1 ≡ n) ⊎ ((s : Session V W) × ((browser.window_name p.1 s).0 ≡ done (some n)))

  -- The tab is one of the ids, and the page is what the browser answered for its active page.
  abbrev pub Active : List String → String × String → Type 0
  Active ids p =
      (has p.0 ids ≡ true) × ((s : Session V W) × ((browser.active_page p.0 s).0 ≡ done p.1))

  active_pages-Active :
      (ids : List String) (s : Session V W) (tabs : List (String × String)) (p : String × String)
      → (active_pages api web browser ids s).0 ≡ done tabs
      → In p tabs
      → Active ids p
  unfolding active_pages
  active_pages-Active [] s [] p h i = absurd i
  active_pages-Active [] s (q ∷ qs) p h i = absurd (ground (arith, h))
  active_pages-Active (t ∷ ts) s tabs p h i =
      let r = browser.active_page t s in
      let rest = active_pages api web browser ts r.1 in
      let later : (qs : List (String × String)) → rest.0 ≡ done qs → In p qs → Active (t ∷ ts) p =
        λ qs e j. let a = active_pages-Active ts r.1 qs p e j in (ground (arith, a.0), a.1) in
      elim (Result-cases r.0) [
        | inr (e, f) ↦
            later tabs (ground (arith, h, f, Bool-cases (code_eq e.code no_active_page))) i
        | inl (page, f) ↦ elim (Result-cases rest.0) [
          | inr (e, g) ↦ absurd (ground (arith, h, f, g))
          | inl (qs, g) ↦
              let both : (t, page) ∷ qs ≡ tabs = done-inj (ground (arith, h, f, g)) in
              elim (subst (In p) (sym both) i) [
                | inl same ↦ subst (Active (t ∷ ts)) same (ground (arith, eq_refl t), (s, f))
                | inr j ↦ later qs g j
              ]
        ]
      ]

  find_id-Named :
      (n : String) (tabs : List (String × String)) (p : String × String)
      → find_id n tabs ≡ some p
      → Named n p × In p tabs
  find_id-Named n [] p h = absurd (ground (arith, h))
  find_id-Named n (q ∷ qs) p h =
      let same : (q.0 == n || q.1 == n) ≡ true → q ≡ p =
        λ b. some-inj (sym (ap (λ (c : Bool). if c then some q else find_id n qs) b) ∙ h) in
      elim (Bool-cases (q.0 == n)) [
        | inl t ↦
            let e = same (ground (arith, t)) in
            (inl (ap (λ (r : String × String). r.0) (sym e) ∙ eq_of_== q.0 n t), inl e)
        | inr f ↦ elim (Bool-cases (q.1 == n)) [
          | inl t ↦
              let e = same (ground (arith, t)) in
              (inr (inl (ap (λ (r : String × String). r.1) (sym e) ∙ eq_of_== q.1 n t)), inl e)
          | inr g ↦
              let neither : (q.0 == n || q.1 == n) ≡ false = ground (arith, f, g) in
              let rest =
                find_id-Named n qs p
                  (sym (ap (λ (c : Bool). if c then some q else find_id n qs) neither) ∙ h) in
              (rest.0, inr rest.1)
        ]
      ]

  find_window-Named :
      (n : String) (tabs : List (String × String)) (s : Session V W) (p : String × String)
      → (find_window api web browser n tabs s).0 ≡ done (some p)
      → Named n p × In p tabs
  unfolding find_window
  find_window-Named n [] s p h = absurd (ground (arith, h))
  find_window-Named n (q ∷ qs) s p h =
      let r = browser.window_name q.1 s in
      elim (Result-cases r.0) [
        | inr (e, f) ↦ absurd (ground (arith, h, f))
        | inl (o, f) ↦ elim (Option-cases o) [
          | inl g ↦ absurd (ground (arith, h, f, g))
          | inr (m, g) ↦ elim (Bool-cases (m == n)) [
            | inl t ↦
                let e : q ≡ p = ground (arith, h, f, g, t) in
                let answer : r.0 ≡ done (some n) = f ∙ ap done (g ∙ ap some (eq_of_== m n t)) in
                (
                  inr (
                      inr (
                        s,
                        ap (λ (x : String × String). (browser.window_name x.1 s).0) (sym e)
                            ∙ answer,
                      )),
                  inl e,
                )
            | inr t ↦
                let rest = find_window-Named n qs r.1 p (ground (arith, h, f, g, t)) in
                (rest.0, inr rest.1)
          ]
        ]
      ]

  find_page-Named :
      (n : String) (tabs : List (String × String)) (s : Session V W) (p : String × String)
      → (find_page api web browser n tabs s).0 ≡ done (some p)
      → Named n p × In p tabs
  unfolding find_page
  find_page-Named n tabs s p h = elim (Option-cases (find_id n tabs)) [
    | inl e ↦ find_window-Named n tabs s p (ground (arith, h, e))
    | inr (q, e) ↦ find_id-Named n tabs p (ground (arith, h, e))
  ]

  -- What a switch to one of the tabs and pages with a property leaves
  abbrev pub Switched : String → (String × String → Type 0) → Status × Windows V W → Type 0
  Switched n P r =
      (p : String × String) × (is_error r.0 ≡ false)
      × (r.1.window ≡ p.0)
      × Named n p
      × P p
      × (r.1.session.focus.frames ≡ [])
      × (r.1.mouse_at_origin ≡ true)

  -- What a switch that fails leaves
  abbrev pub Kept : Windows V W → Status × Windows V W → Type 0
  Kept w r =
      (is_error r.0 ≡ true) × (r.1.window ≡ w.window) × (r.1.mouse_at_origin ≡ w.mouse_at_origin)

  module _ (n : String) (tabs : List (String × String)) (w : Windows V W) where
    abbrev End : Status × Windows V W → Type 0
    End r = Kept w r ⊎ Switched n (λ p. In p tabs) r

    activated-End :
        (p : String × String) (r : Status × Session V W)
        → Named n p
        → In p tabs
        → End (activated api web browser p.0 w r)
    unfolding switch_to_top_frame switch_frame_internal
    activated-End p r named i =
        if_elim End (is_error r.0) (λ e. inl (e, refl, refl))
          (λ e. inr (p, refl, refl, named, i, to_top-frames (web p.0) r.1, refl))
      where
        to_top-frames : (v : View V W) (s : Session V W) → (to_top api v s).focus.frames ≡ []
        to_top-frames v s = ground arith

    overridden-End :
        (p : String × String) (r : Status × Session V W)
        → Named n p
        → In p tabs
        → End (overridden api web browser p.0 w r)
    overridden-End p r named i =
        if_elim End (is_error r.0) (λ e. inl (e, refl, refl))
          (λ e. activated-End p (browser.activate_web_view p.0 r.1) named i)

    switch_found-End :
        (r : Result (Option (String × String))) (s : Session V W)
        → ((p : String × String) → r ≡ done (some p) → Named n p × In p tabs)
        → ((e : Status) → r ≡ fail e → is_error e ≡ true)
        → End (switch_found api web browser w (r, s))
    switch_found-End (fail e) s h k = inl (k e refl, refl, refl)
    switch_found-End (done none) s h k = inl (refl, refl, refl)
    switch_found-End (done (some p)) s h k =
        let f = h p refl in overridden-End p (browser.apply_overrides p.1 s) f.0 f.1

  -- What a switch to a requested name among the tabs with the ids does
  abbrev pub Outcome : Option String → Windows V W → List String → Status × Windows V W → Type 0
  Outcome o w ids r = Kept w r ⊎ ((n : String) × (o ≡ some n) × Switched n (Active ids) r)

  module _
      (name_fails : (page : String) (s : Session V W) (e : Status)
        → (browser.window_name page s).0 ≡ fail e
        → is_error e ≡ true)
      (ordered : (ps : List (String × String)) (p : String × String)
        → In p (browser.order ps)
        → In p ps)
      (page_fails : (tab : String) (s : Session V W) (e : Status)
        → (browser.active_page tab s).0 ≡ fail e
        → is_error e ≡ true) where
    find_window-is_error :
        (n : String) (tabs : List (String × String)) (s : Session V W) (e : Status)
        → (find_window api web browser n tabs s).0 ≡ fail e
        → is_error e ≡ true
    unfolding find_window
    find_window-is_error n [] s e h = absurd (ground (arith, h))
    find_window-is_error n (q ∷ qs) s e h =
        let r = browser.window_name q.1 s in
        ground (arith, h, Result-cases r.0, name_fails q.1 s e, find_window-is_error n qs r.1 e)

    find_page-is_error :
        (n : String) (tabs : List (String × String)) (s : Session V W) (e : Status)
        → (find_page api web browser n tabs s).0 ≡ fail e
        → is_error e ≡ true
    unfolding find_page
    find_page-is_error n tabs s e h =
        ground (arith, h, Option-cases (find_id n tabs), find_window-is_error n tabs s e)

    active_pages-is_error :
        (tabs : List String) (s : Session V W) (e : Status)
        → (active_pages api web browser tabs s).0 ≡ fail e
        → is_error e ≡ true
    unfolding active_pages
    active_pages-is_error [] s e h = absurd (ground (arith, h))
    active_pages-is_error (t ∷ ts) s e h =
        let r = browser.active_page t s in
        let rest = active_pages api web browser ts r.1 in
        ground (
          arith,
          h,
          Result-cases r.0,
          Result-cases rest.0,
          page_fails t s e,
          active_pages-is_error ts r.1 e,
        )

    switch_among-Outcome :
        (n : String) (w : Windows V W) (ids : List String) (s t : Session V W)
        (pages : Result (List (String × String)))
        → (active_pages api web browser ids s).0 ≡ pages
        → Outcome (some n) w ids (switch_among api web browser n w (pages, t))
    switch_among-Outcome n w ids s t (fail e) k = inl (active_pages-is_error ids s e k, refl, refl)
    switch_among-Outcome n w ids s t (done tabs) k =
        let map = browser.order (as_map tabs) in
        let f = find_page api web browser n map t in
        elim (switch_found-End n map w f.0 f.1 (find_page-Named n map t)
          (find_page-is_error n map t)) [
            | inl kept ↦ inl kept
            | inr (p, ok, window, named, i, top, mouse) ↦
                let tab = as_map-In p tabs (ordered (as_map tabs) p i) in
                inr (
                  n,
                  refl,
                  (p, ok, window, named, active_pages-Active ids s tabs p k tab, top, mouse),
                )
          ]

    switch_named-Outcome :
        (o : Option String) (w : Windows V W)
        → Outcome o w
            (browser.get_top_level_web_view_ids w.w3c_compliant w.session).1
            (switch_named api web browser o w)
    switch_named-Outcome none w = inl (refl, refl, refl)
    switch_named-Outcome (some n) w =
        let r = browser.get_top_level_web_view_ids w.w3c_compliant w.session in
        let pages = active_pages api web browser r.1 r.2 in
        if_elim (Outcome (some n) w r.1) (is_error r.0) (λ e. inl (e, refl, refl))
          (λ e. switch_among-Outcome n w r.1 r.2 pages.1 pages.0 refl)

    -- A switch that fails leaves the window of the session, and where the mouse is. A switch that
    -- succeeds goes to a listed tab that has an active page; the tab or the page has the name that
    -- is asked for, or the window of the page answers it. It goes to the top frame, with the mouse
    -- at the origin. What the browser fails with is an error, and the iterator of the map gives
    -- only entries of it.
    pub switch_to_window-Switched :
        (handle name : Option String) (w : Windows V W)
        → Outcome
            (if w.w3c_compliant then handle else name)
            w
            (browser.get_top_level_web_view_ids w.w3c_compliant w.session).1
            (switch_to_window api web browser handle name w)
    unfolding switch_to_window
    switch_to_window-Switched handle name w =
        switch_named-Outcome (if w.w3c_compliant then handle else name) w
