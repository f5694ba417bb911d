-- ===== src/Dialogs/Queues.antt =====
-- The two queues of the dialogs.
use chromedriver.Base.{
  suc, String, ◌≡◌, refl, Bool, true, ◌&&◌, none, some, List, [], ◌∷◌, ◌++◌, if◌then◌else◌, is_some,
  length, arith,
}
use chromedriver.Result.{done, fail}
use chromedriver.Status.{Status, status, is_error, ok, no_such_alert}
use chromedriver.Dialogs.{
  Dialogs, Event, opening, closed, Attempt, attempt, Events, no_events, next, pop_front, pop, front,
  is_nonempty, is_dialog_open, get_type_of_dialog, handle_dialog_with, handle_dialog_opening,
  handle_dialog_closed, on_event, send, on_events, handle_dialog,
}

-- Every dialog that opens has a message, a type and a default text.
unfoldable mutual
  pub is_whole : Event → Bool
  is_whole (opening message type default_prompt first second) =
      is_some message
      && is_some type
      && is_some default_prompt
      && is_whole_attempt first
      && is_whole_attempt second
  is_whole closed = true

  pub is_whole_attempt : Attempt → Bool
  is_whole_attempt (attempt es s) = is_whole_events es

  pub is_whole_events : Events → Bool
  is_whole_events no_events = true
  is_whole_events (next e es) = is_whole e && is_whole_events es

-- The queues are as long as each other.
abbrev pub Aligned : Dialogs → Type 0
Aligned d = length d.unhandled_dialog_queue ≡ length d.dialog_type_queue

length-snoc : (xs : List String) (x : String) → length (xs ++ x ∷ []) ≡ suc (length xs)
length-snoc [] x = refl
length-snoc (y ∷ xs) x = ground (arith, length-snoc xs x)

length-pop_front :
    (xs ys : List String) → length xs ≡ length ys → length (pop_front xs) ≡ length (pop_front ys)
length-pop_front [] [] h = refl
length-pop_front [] (y ∷ ys) h = absurd (ground (arith, h))
length-pop_front (x ∷ xs) [] h = absurd (ground (arith, h))
length-pop_front (x ∷ xs) (y ∷ ys) h = ground (arith, h)

handle_dialog_with-Aligned :
    (first second : Dialogs → Status × Dialogs) (d : Dialogs)
    → ((e : Dialogs) → Aligned e → Aligned (first e).1)
    → ((e : Dialogs) → Aligned e → Aligned (second e).1)
    → Aligned d
    → Aligned (handle_dialog_with first second d).1
unfolding handle_dialog_with
handle_dialog_with-Aligned first second d f g a =
    let r = (first d).1 in
    let q = (second r).1 in
    ground (
      arith,
      f d a,
      g r (f d a),
      length-pop_front r.unhandled_dialog_queue r.dialog_type_queue,
      length-pop_front q.unhandled_dialog_queue q.dialog_type_queue,
    )

handle_dialog_opening-Aligned :
    (m t p : String) (accept : Dialogs → Status × Dialogs) (d : Dialogs)
    → ((e : Dialogs) → Aligned e → Aligned (accept e).1)
    → Aligned d
    → Aligned (handle_dialog_opening (some m) (some t) (some p) accept d).1
unfolding handle_dialog_opening
handle_dialog_opening-Aligned m t p accept d f a =
    let d' = record d {
      unhandled_dialog_queue = d.unhandled_dialog_queue ++ m ∷ [];
      dialog_type_queue = d.dialog_type_queue ++ t ∷ [];
      prompt_text = p;
    } in
    let grown : Aligned d' =
      ground (arith, length-snoc d.unhandled_dialog_queue m, length-snoc d.dialog_type_queue t) in
    ground (arith, f d' grown, grown)

mutual
  unfolding on_event is_whole handle_dialog_closed

  event-Aligned :
      (e : Event) (d : Dialogs) → is_whole e ≡ true → Aligned d → Aligned (on_event e d).1
  event-Aligned (opening (some m) (some t) (some p) first second) d w a =
      handle_dialog_opening-Aligned m t p (handle_dialog_with (send first) (send second)) d
        (λ e k.
          handle_dialog_with-Aligned (send first) (send second) e
            (λ x l. send-Aligned first x (ground (arith, w)) l)
            (λ x l. send-Aligned second x (ground (arith, w)) l) k)
        a
  event-Aligned (opening (some m) (some t) none first second) d w a = absurd (ground (arith, w))
  event-Aligned (opening (some m) none p first second) d w a = absurd (ground (arith, w))
  event-Aligned (opening none t p first second) d w a = absurd (ground (arith, w))
  event-Aligned closed d w a = refl

  send-Aligned :
      (t : Attempt) (d : Dialogs) → is_whole_attempt t ≡ true → Aligned d → Aligned (send t d).1
  send-Aligned (attempt es s) d w a = events-Aligned es d w a

  events-Aligned :
      (es : Events) (d : Dialogs) → is_whole_events es ≡ true → Aligned d → Aligned (on_events es d)
  events-Aligned no_events d w a = a
  events-Aligned (next e es) d w a =
      events-Aligned es (on_event e d).1 (ground (arith, w))
        (event-Aligned e d (ground (arith, w)) a)

Aligned-get_type_of_dialog :
    (d : Dialogs)
    → Aligned d
    → is_dialog_open d ≡ true
    → (t : String) × (get_type_of_dialog d ≡ done (some t))
unfolding get_type_of_dialog
Aligned-get_type_of_dialog d a o = go d.unhandled_dialog_queue d.dialog_type_queue a o
  where
    go :
        (xs ys : List String)
        → length xs ≡ length ys
        → is_nonempty xs ≡ true
        → (t : String) × ((if is_nonempty xs then done (front ys) else fail (status no_such_alert))
            ≡ done (some t))
    go [] ys l o = absurd (ground (arith, o))
    go (x ∷ xs) [] l o = absurd (ground (arith, l))
    go (x ∷ xs) (y ∷ ys) l o = (y, refl)

-- After any events in which every dialog that opens has a message, a type and a default text, an open
-- dialog has a type: from queues of one length, GetTypeOfDialog never reads an empty queue.
pub on_events-get_type_of_dialog :
    (es : Events) (d : Dialogs)
    → is_whole_events es ≡ true
    → Aligned d
    → is_dialog_open (on_events es d) ≡ true
    → (t : String) × (get_type_of_dialog (on_events es d) ≡ done (some t))
on_events-get_type_of_dialog es d w a o =
    Aligned-get_type_of_dialog (on_events es d) (events-Aligned es d w a) o

-- When no event arrives meanwhile, HandleDialog of an open dialog takes the first dialog off both
-- queues if one of the two attempts succeeds, and else returns the status of the second and changes
-- nothing.
pub handle_dialog-quiet :
    (a b : Status) (d : Dialogs)
    → is_dialog_open d ≡ true
    → handle_dialog (attempt no_events a) (attempt no_events b) d
      ≡ (if is_error a && is_error b then (b, d) else (status ok, pop d))
unfolding handle_dialog handle_dialog_with send
handle_dialog-quiet a b d o = ground arith
