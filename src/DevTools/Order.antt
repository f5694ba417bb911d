-- ===== src/DevTools/Order.antt =====
-- The order in which the listeners are called.
use mathlib.Core.List.{append-nil, append_assoc}
use chromedriver.Base.{
  ℕ, zero, suc, ◌≤◌, ◌≡◌, refl, ap, ◌∙◌, Bool, true, false, List, [], ◌∷◌, ◌++◌, length, arith,
  Bool-cases, inl, inr,
}
use chromedriver.Status.{status, is_error, ok}
use chromedriver.DevTools.Notify.{
  Listeners, Call, Notified, notify, notify_of_event, notify_of_connect,
}

module _ {L : Type 0} where
  abbrev everyone : List L → Notified L
  everyone q = record { told = q; remaining = []; result = status ok }

  notify-everyone :
      (clears : Bool) (n : ℕ) (calls : L → Call) (q : List L)
      → length q ≤ n
      → ((l : L) → is_error (calls l).result ≡ false)
      → notify clears n calls q ≡ everyone q
  unfolding notify
  notify-everyone clears zero calls [] k h = refl
  notify-everyone clears zero calls (l ∷ q) k h = absurd (ground (arith, k))
  notify-everyone clears (suc n) calls [] k h = refl
  notify-everyone clears (suc n) calls (l ∷ q) k h =
      let inner = notify-everyone clears n calls q (ground (arith, k)) h in
      elim (Bool-cases (calls l).nests) [
        | inl e ↦
            rw (e, h l, inner, notify-everyone clears n calls [] (ground arith) h)
              (ap (λ (t : List L). everyone (l ∷ t)) (append-nil q))
        | inr e ↦ rw (e, h l, inner) refl
      ]

  length-append : (xs ys : List L) → length ys ≤ length (xs ++ ys)
  length-append [] ys = ground arith
  length-append (x ∷ xs) ys = ground (arith, length-append xs ys)

  -- Whoever was not called is still in the queue, in the order of the queue.
  notify-append :
      (n : ℕ) (calls : L → Call) (q : List L)
      → length q ≤ n
      → (notify false n calls q).told ++ (notify false n calls q).remaining ≡ q
  unfolding notify
  notify-append zero calls q k = refl
  notify-append (suc n) calls [] k = refl
  notify-append (suc n) calls (l ∷ q) k =
      let inner = notify false n calls q in
      let whole = notify-append n calls q (ground (arith, k)) in
      elim (Bool-cases (calls l).nests) [
        | inl e ↦ elim (Bool-cases (is_error (calls l).result)) [
          | inl f ↦ rw (e, f) (ap (◌∷◌ l) whole)
          | inr f ↦
              rw (e, f)
                (ap (◌∷◌ l) (
                  append_assoc inner.told (notify false n calls inner.remaining).told _
                  ∙ ap (λ (t : List L). inner.told ++ t)
                      (notify-append n calls inner.remaining
                        (ground (arith, whole, k, length-append inner.told inner.remaining)))
                  ∙ whole))
        ]
        | inr e ↦ elim (Bool-cases (is_error (calls l).result)) [
          | inl f ↦ rw (e, f) refl
          | inr f ↦ rw (e, f) (ap (◌∷◌ l) whole)
        ]
      ]

  notify-empties :
      (n : ℕ) (calls : L → Call) (q : List L)
      → length q ≤ n
      → (notify true n calls q).remaining ≡ []
  unfolding notify
  notify-empties zero calls [] k = refl
  notify-empties zero calls (l ∷ q) k = absurd (ground (arith, k))
  notify-empties (suc n) calls [] k = refl
  notify-empties (suc n) calls (l ∷ q) k =
      let inner = notify-empties n calls q (ground (arith, k)) in
      elim (Bool-cases (calls l).nests) [
        | inl e ↦ elim (Bool-cases (is_error (calls l).result)) [
          | inl f ↦ rw (e, f) refl
          | inr f ↦
              rw (e, f)
                (notify-empties n calls (notify true n calls q).remaining
                  (rw (inner) (ground arith)))
        ]
        | inr e ↦ elim (Bool-cases (is_error (calls l).result)) [
          | inl f ↦ rw (e, f) refl
          | inr f ↦ rw (e, f) inner
        ]
      ]

  -- Who was called for an event
  abbrev pub told_of_event : (L → Call) → Listeners L → List L
  told_of_event calls s =
      (notify true (length s.unnotified_event_listeners) calls s.unnotified_event_listeners).told

  -- The loop for an event ends with an empty queue, however listeners run it again while they are
  -- called and whether they fail or not: as many calls as the queue is long are enough.
  pub notify_of_event-ends :
      (calls : L → Call) (s : Listeners L)
      → (notify_of_event calls s).1.unnotified_event_listeners ≡ []
  unfolding notify_of_event
  notify_of_event-ends calls s =
      let q = s.unnotified_event_listeners in notify-empties (length q) calls q (ground arith)

  -- If no listener fails, the loop for an event succeeds, and every listener of the queue was
  -- called exactly once, in the order of the queue, however listeners run the loop again while they
  -- are called.
  pub notify_of_event-everyone :
      (calls : L → Call) (s : Listeners L)
      → ((l : L) → is_error (calls l).result ≡ false)
      → (told_of_event calls s ≡ s.unnotified_event_listeners)
        × ((notify_of_event calls s).0 ≡ status ok)
  unfolding notify_of_event
  notify_of_event-everyone calls s h =
      let q = s.unnotified_event_listeners in
      let all = notify-everyone true (length q) calls q (ground arith) h in
      (ap (λ (r : Notified L). r.told) all, ap (λ (r : Notified L). r.result) all)

  -- Who was called for the connection
  abbrev pub told_of_connect : (L → Call) → Listeners L → List L
  told_of_connect calls s =
      (notify false (length s.unnotified_connect_listeners) calls
        s.unnotified_connect_listeners).told

  -- However listeners run the loop for a connection again while they are called, those that were
  -- called and those that are still queued are together the queue, in its order; so no listener is
  -- called twice or lost, and after an error the others are still to be told.
  pub notify_of_connect-keeps :
      (calls : L → Call) (s : Listeners L)
      → told_of_connect calls s ++ (notify_of_connect calls s).1.unnotified_connect_listeners
        ≡ s.unnotified_connect_listeners
  unfolding notify_of_connect
  notify_of_connect-keeps calls s =
      let q = s.unnotified_connect_listeners in notify-append (length q) calls q (ground arith)
