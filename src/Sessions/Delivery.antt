-- ===== src/Sessions/Delivery.antt =====
-- The way of a BiDi command and of its response: the connection and the channel come back.
use text.Mathlib.TextLemmas.{append_assoc, cons-append, nil-append}
use text.Mathlib.TextPositions.{slice-append_left, slice-append_right, len-append, slice_all}
use Prim.Native.Char.{Char, code, len_utf8}
use Prim.Native.String.{len, slice}
use Prim.Native.String.len.{cons as len_cons}
use Prim.Native.String.slice.{nil as slice_nil, cons-suc as slice_cons}
use chromedriver.Base.{
  String, ◌≡◌, refl, ap, sym, ◌∙◌, Bool, true, not, ◌&&◌, Option, none, some, ◌<>◌, ℤ, eqb, arith,
  eq_refl, ◌-◌, ℕ, zero, suc,
}
use chromedriver.Result.{done}
use chromedriver.DevTools.Messages.{ends_with, bidi_channel_suffix, drop_suffix}
use chromedriver.Sessions.Channels.{
  channel_suffix, no_channel_suffix, split_last, split_channel, user_channel,
}

-- The text has no slash.
abbrev pub is_plain : String → Bool
is_plain String.[] = true
is_plain (String.◌∷◌ c s) = not (eqb (code c) b'/') && is_plain s

split_last-plain : (s : String) → is_plain s ≡ true → split_last s ≡ none
unfolding split_last
split_last-plain String.[] p = refl
split_last-plain (String.◌∷◌ c s) p = ground (arith, split_last-plain s (ground arith))

split_last-cons :
    (c : Char) (s a b : String)
    → split_last s ≡ some (a, b)
    → split_last (String.◌∷◌ c s) ≡ some (String.◌∷◌ c a, b)
unfolding split_last
split_last-cons c s a b e = ground (arith, e)

split_last-append : (s t : String) → is_plain t ≡ true → split_last (s <> ("/" <> t)) ≡ some (s, t)
unfolding split_last
split_last-append String.[] t p =
    let h = split_last-plain t p in
    let slash : Char = "/" in
    rw (nil-append ("/" <> t), cons-append slash "" t, nil-append t, h) refl
split_last-append (String.◌∷◌ c s) t p =
    rw (cons-append c s ("/" <> t))
      (split_last-cons c (s <> ("/" <> t)) s t (split_last-append s t p))

len-ends : (s t : String) → len (s <> t) - len t ≡ len s
len-ends s t = omega (arith, len-append s t)

pub ends_with-append : (s t : String) → ends_with (s <> t) t ≡ true
ends_with-append s t =
    let back : slice (s <> t) (len s) (len (s <> t)) ≡ t =
      rw (len-append s t) (slice-append_right s t) in
    rw (len-ends s t, back, eq_refl t) (ground (arith, len-append s t))

pub drop_suffix-append : (s : String) → drop_suffix (s <> bidi_channel_suffix) ≡ s
drop_suffix-append s =
    rw (ends_with-append s bidi_channel_suffix, len-ends s bidi_channel_suffix)
      (slice-append_left s bidi_channel_suffix)

module _ (string_to_int : String → Option ℤ) where
  split_channel-append :
      (u n t : String) (i : ℤ)
      → is_plain n ≡ true
      → is_plain t ≡ true
      → string_to_int n ≡ some i
      → split_channel string_to_int ((u <> ("/" <> n)) <> ("/" <> t))
        ≡ done (record { channel = u; connection_id = i; suffix = "/" <> t })
  unfolding split_channel
  split_channel-append u n t i p q e =
      ground (arith, split_last-append (u <> ("/" <> n)) t q, split_last-append u n p, e)

abbrev pub suffix_of : Option String → String
suffix_of none = no_channel_suffix
suffix_of (some u) = channel_suffix

abbrev pub text_of : Option String → String
text_of none = ""
text_of (some u) = u

pub split_channel-user_channel :
    (string_to_int : String → Option ℤ) (n : String) (o : Option String) (i : ℤ)
    → is_plain n ≡ true
    → string_to_int n ≡ some i
    → split_channel string_to_int (user_channel n o)
      ≡ done (record { channel = text_of o; connection_id = i; suffix = suffix_of o })
split_channel-user_channel string_to_int n none i p e =
    let joined : user_channel n none ≡ ("" <> ("/" <> n)) <> ("/" <> "nochan") =
      rw (nil-append ("/" <> n), append_assoc "/" n no_channel_suffix) refl in
    rw joined (split_channel-append string_to_int "" n "nochan" i p refl e)
split_channel-user_channel string_to_int n (some u) i p e =
    let joined : user_channel n (some u) ≡ (u <> ("/" <> n)) <> ("/" <> "chan") =
      rw (append_assoc u ("/" <> n) channel_suffix, append_assoc "/" n channel_suffix) refl in
    rw joined (split_channel-append string_to_int u n "chan" i p refl e)

-- A text is some text and what follows a position.
pub split_at : (s : String) (k : ℕ) → (p : String) × (s ≡ p <> slice s k (len s))
split_at String.[] k = ("", rw (slice_nil k (len ""), nil-append "") refl)
split_at (String.◌∷◌ c s) zero =
    ("", rw (slice_all (String.◌∷◌ c s), nil-append (String.◌∷◌ c s)) refl)
split_at (String.◌∷◌ c s) (suc a) =
    let r = split_at s (suc a - len_utf8 c) in
    let ends : len (String.◌∷◌ c s) - len_utf8 c ≡ len s = omega (arith, len_cons c s) in
    let back : slice (String.◌∷◌ c s) (suc a) (len (String.◌∷◌ c s))
        ≡ slice s (suc a - len_utf8 c) (len s) =
      slice_cons c s a (len (String.◌∷◌ c s)) ∙ ap (slice s (suc a - len_utf8 c)) ends in
    (
      String.◌∷◌ c r.0,
      ap (String.◌∷◌ c) r.1
          ∙ sym (rw back (cons-append c r.0 (slice s (suc a - len_utf8 c) (len s)))),
    )
