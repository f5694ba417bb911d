-- ===== src/HttpHandler/AlertText.antt =====
-- What a client reads under "data.text" of an unexpected alert.
use Prim.Native.Char.{Char}
use text.Mathlib.TextLemmas.{cons-ne-nil}
use chromedriver.Base.{
  Bool-cases, inl, inr, eq_iff, ◌-◌, String, ◌≡◌, refl, ap, ◌∙◌, false, List, [], ◌∷◌, ◌++◌, length,
  ltb, if◌then◌else◌, arith, ◌<>◌, is_empty,
}
use chromedriver.HttpHandler.Text.{
  chars, of_chars, of_chars-chars, chars-append, find_last_char-concat, take-length-append,
}
use chromedriver.HttpHandler.Response.{alert_text, extract_alert_text, after_colon}
use chromedriver.Status.{status_details, unexpected_alert_open, status_code_to_string}

-- The message with which a command is refused while an alert with this text is open.
abbrev pub alert_message : String → String
alert_message text =
    (status_details unexpected_alert_open ("{Alert text : " <> (text <> "}"))).message

chars-alert_message :
    (text : String)
    → chars (alert_message text)
      ≡ chars "unexpected alert open: {Alert text : " ++ (chars text ++ chars "}")
unfolding status_code_to_string
chars-alert_message text =
    chars-append "unexpected alert open" (": " <> ("{Alert text : " <> (text <> "}")))
    ∙ ap (λ s. chars "unexpected alert open" ++ s)
        (chars-append ": " ("{Alert text : " <> (text <> "}"))
          ∙ ap (λ s. chars ": " ++ s)
              (chars-append "{Alert text : " (text <> "}")
                ∙ ap (λ s. chars "{Alert text : " ++ s) (chars-append text "}")))

after_colon-alert :
    (t : List Char)
    → after_colon (chars "{Alert text : " ++ t)
      ≡ (elim t [ [] ↦ "{Alert text : " | c ∷ cs ↦ of_chars (c ∷ cs) ])
after_colon-alert [] = refl
after_colon-alert (c ∷ cs) = ground arith

extract_alert_text-message :
    (t : List Char)
    → extract_alert_text (chars "unexpected alert open: {Alert text : " ++ (t ++ chars "}"))
      ≡ after_colon (chars "{Alert text : " ++ t)
unfolding extract_alert_text
extract_alert_text-message t =
    let start = chars "unexpected alert open: {Alert text : " in
    rw (find_last_char-concat "}" (start ++ t), extract_alert_text)
      (rw (last_after_first t, length_inside t)
        (ap after_colon (take-length-append (chars "{Alert text : " ++ t) (chars "}"))))
  where
    last_after_first :
        (t : List Char)
        → ltb (length (chars "unexpected alert open: {Alert text : " ++ t)) 23 ≡ false
    last_after_first t = ground arith

    length_inside :
        (t : List Char)
        → length (chars "unexpected alert open: {Alert text : " ++ t) - 23
          ≡ length (chars "{Alert text : " ++ t)
    length_inside t = omega arith

is_empty-cons : (c : Char) (s : String) → is_empty (String.◌∷◌ c s) ≡ false
is_empty-cons c s = elim (Bool-cases (is_empty (String.◌∷◌ c s))) [
  | inl e ↦ absurd (cons-ne-nil c s ((eq_iff (String.◌∷◌ c s) "").0 e))
  | inr e ↦ e
]

text_or_words :
    (text : String)
    → (elim (chars text) [ [] ↦ "{Alert text : " | c ∷ cs ↦ of_chars (c ∷ cs) ])
      ≡ (if is_empty text then "{Alert text : " else text)
text_or_words String.[] = refl
text_or_words (String.◌∷◌ c s) = rw (is_empty-cons c s) (of_chars-chars (String.◌∷◌ c s))

-- For an alert with a text, "data.text" is that text. For an alert with an empty text it is not empty
-- but the words with which the message begins.
pub alert_text-alert_message :
    (text : String)
    → alert_text (alert_message text) ≡ (if is_empty text then "{Alert text : " else text)
unfolding alert_text
alert_text-alert_message text =
    ap extract_alert_text (chars-alert_message text)
    ∙ extract_alert_text-message (chars text)
    ∙ after_colon-alert (chars text)
    ∙ text_or_words text
