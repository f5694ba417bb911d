-- ===== src/Sessions/Suffixes.antt =====
-- Which tracker takes the channel of a response: the two suffixes exclude each other.
use text.Mathlib.TextLemmas.{append_assoc}
use text.Mathlib.TextPositions.{slice-append_right, len-append}
use Prim.Native.String.{len, slice}
use chromedriver.Base.{
  String, ◌≡◌, ◌≢◌, refl, ap, sym, ◌∙◌, true, false, Option, none, some, ◌<>◌, ◌==◌, is_empty,
  arith, ◌-◌, ◌+◌, eq_of_==, Bool-cases, inl, inr,
}
use chromedriver.DevTools.Messages.{ends_with}
use chromedriver.Sessions.Channels.{channel_suffix, no_channel_suffix, user_channel}
use chromedriver.Sessions.Delivery.{ends_with-append, suffix_of, split_at}

-- The last five bytes of a text that ends with five bytes
last-append : (s t : String) → len t ≡ 5 → slice (s <> t) (len (s <> t) - 5) (len (s <> t)) ≡ t
last-append s t e =
    let back : slice (s <> t) (len s) (len s + len t) ≡ t = slice-append_right s t in
    let a : len (s <> t) ≡ len s + len t = len-append s t in
    let b : len (s <> t) - 5 ≡ len s = omega (arith, a, e) in rw (b, a) back

append-chan : (s p : String) → s <> channel_suffix ≢ p <> no_channel_suffix
append-chan s p e =
    let h : s <> channel_suffix ≡ (p <> "/n") <> "ochan" =
      e ∙ rw (append_assoc p "/n" "ochan") refl in
    let l = last-append s channel_suffix refl in
    let r = last-append (p <> "/n") "ochan" refl in
    let same : channel_suffix ≡ "ochan" =
      sym l ∙ ap (λ (t : String). slice t (len t - 5) (len t)) h ∙ r in
    ground (arith, ap (λ (t : String). t == "ochan") same)

-- Each tracker leaves the channels of the other alone.
pub ends_with-user_channel :
    (n : String) (o : Option String) → ends_with (user_channel n o) (suffix_of o) ≡ true
ends_with-user_channel n none =
    rw (sym (append_assoc "/" n no_channel_suffix)) (ends_with-append ("/" <> n) no_channel_suffix)
ends_with-user_channel n (some u) =
    rw (sym (append_assoc "/" n channel_suffix), sym (append_assoc u ("/" <> n) channel_suffix))
      (ends_with-append (u <> ("/" <> n)) channel_suffix)

pub ends_with-chan : (s : String) → ends_with (s <> channel_suffix) no_channel_suffix ≡ false
ends_with-chan s =
    let t = s <> channel_suffix in
    let r = split_at t (len t - 7) in
    elim (Bool-cases (slice t (len t - 7) (len t) == no_channel_suffix)) [
      | inl e ↦ absurd (
          append-chan s r.0 (
            r.1
            ∙ ap (λ (u : String). r.0 <> u)
                (eq_of_== (slice t (len t - 7) (len t)) no_channel_suffix e)))
      | inr e ↦ ground (arith, e)
    ]

pub ends_with-nochan : (s : String) → ends_with (s <> no_channel_suffix) channel_suffix ≡ false
ends_with-nochan s =
    let whole : s <> no_channel_suffix ≡ (s <> "/n") <> "ochan" =
      rw (append_assoc s "/n" "ochan") refl in
    let t = (s <> "/n") <> "ochan" in
    let differ : (slice t (len t - 5) (len t) == channel_suffix) ≡ false =
      ap (λ (u : String). u == channel_suffix) (last-append (s <> "/n") "ochan" refl) in
    rw whole (ground (arith, differ))

ends_with-nothing : (o : Option String) → ends_with "" (suffix_of o) ≡ false
ends_with-nothing none = refl
ends_with-nothing (some u) = refl

pub user_channel-is_empty : (n : String) (o : Option String) → is_empty (user_channel n o) ≡ false
user_channel-is_empty n o = elim (Bool-cases (is_empty (user_channel n o))) [
  | inl h ↦
      let same =
        ap (λ (u : String). ends_with u (suffix_of o)) (eq_of_== (user_channel n o) "" h) in
      absurd (ground (arith, same, ends_with-user_channel n o, ends_with-nothing o))
  | inr h ↦ h
]
