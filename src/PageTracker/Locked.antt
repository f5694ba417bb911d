-- ===== src/PageTracker/Locked.antt =====
-- The locked pages of a page tracker.

use chromedriver.Base.{
  String, ◌≡◌, Bool, true, false, Option, none, some, Option-cases, List, inl, inr, if_elim, arith,
  eq_iff,
}
use chromedriver.Dictionary.{lookup, string_eq, lookup-assign, lookup-erase}
use chromedriver.Values.{Values}
use chromedriver.PageTracker.{
  Page, PageTracker, has_page, Event, event, Events, no_events, next, Action, nothing, refuse,
  create_page, activate_page, disconnect_page, activate, disconnect, removed, put_page, create,
  perform, action, on_event, on_events,
}

abbrev locked_in : Option Page → Bool
locked_in none = false
locked_in (some p) = p.is_locked

-- The tracker has the page, and it is locked.
abbrev pub has_locked : String → PageTracker → Bool
has_locked i t = locked_in (lookup i t.page_to_target_map)

activate-has_locked :
    (i j : String) (t : PageTracker) → has_locked i t ≡ true → has_locked i (activate j t) ≡ true
unfolding activate
activate-has_locked i j t k = ground (arith, k)

removed-has_locked :
    (i j : String) (p : Page) (m : List (String × Page))
    → lookup j m ≡ some p
    → locked_in (lookup i m) ≡ true
    → locked_in (lookup i (removed j p m)) ≡ true
removed-has_locked i j p m e k =
    if_elim (λ (u : List (String × Page)). locked_in (lookup i u) ≡ true) p.is_locked
      (λ b. ground (arith, b, k, lookup-assign j i (record p { is_detached = true }) m))
      (λ b. ground (arith, b, k, e, lookup-erase j i m, eq_iff j i))

disconnect-has_locked :
    (i j : String) (t : PageTracker) → has_locked i t ≡ true → has_locked i (disconnect j t) ≡ true
unfolding disconnect
disconnect-has_locked i j t k = elim (Option-cases (lookup j t.page_to_target_map)) [
  | inl e ↦ ground (arith, e, k)
  | inr (p, e) ↦ ground (arith, e, removed-has_locked i j p t.page_to_target_map e k)
]

create-has_locked :
    (i j : String) (during : PageTracker → PageTracker) (t : PageTracker)
    → ((u : PageTracker) → has_locked i u ≡ true → has_locked i (during u) ≡ true)
    → has_locked i t ≡ true
    → has_locked i (create j during t) ≡ true
unfolding create
create-has_locked i j during t d k =
    if_elim (λ (u : PageTracker). has_locked i u ≡ true) (has_page j t) (λ h. k)
      (λ h. d (put_page j t) (
        ground (
          arith,
          h,
          k,
          eq_iff j i,
          lookup-assign j i (record { is_locked = false; is_detached = false })
              t.page_to_target_map,
        )))

perform-has_locked :
    (i : String) (a : Action) (during : PageTracker → PageTracker) (t : PageTracker)
    → ((u : PageTracker) → has_locked i u ≡ true → has_locked i (during u) ≡ true)
    → has_locked i t ≡ true
    → has_locked i (perform a during t) ≡ true
unfolding perform
perform-has_locked i nothing during t d k = k
perform-has_locked i (refuse m) during t d k = k
perform-has_locked i (create_page j false) during t d k = create-has_locked i j during t d k
perform-has_locked i (create_page j true) during t d k =
    activate-has_locked i j (create j during t) (create-has_locked i j during t d k)
perform-has_locked i (activate_page j) during t d k = activate-has_locked i j t k
perform-has_locked i (disconnect_page j) during t d k = disconnect-has_locked i j t k

module _ {V D : Type 0} (api : Values V D) where
  mutual
    unfolding on_event on_events

    event-has_locked :
        (i : String) (e : Event D) (t : PageTracker)
        → has_locked i t ≡ true
        → has_locked i (on_event api e t) ≡ true
    event-has_locked i (event method params during) t k =
        perform-has_locked i (action api method params) (on_events api during) t
          (events-has_locked i during) k

    events-has_locked :
        (i : String) (es : Events D) (t : PageTracker)
        → has_locked i t ≡ true
        → has_locked i (on_events api es t) ≡ true
    events-has_locked i no_events t k = k
    events-has_locked i (next e es) t k =
        events-has_locked i es (on_event api e t) (event-has_locked i e t k)

  -- A page that is locked is neither deleted nor unlocked by any events, in any state of the
  -- tracker, those that arrive while a page is attached included.
  pub on_events-has_locked :
      (i : String) (es : Events D) (t : PageTracker)
      → has_locked i t ≡ true
      → has_locked i (on_events api es t) ≡ true
  on_events-has_locked i es t k = events-has_locked i es t k
