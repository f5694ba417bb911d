-- ===== src/Examples/Keys.antt =====
-- Keys on a layout that has the letters of the alphabet.
use chromedriver.Base.{
  ℕ, ◌≡◌, refl, true, false, ◌&&◌, ◌==◌, some, List, [], ◌∷◌, if◌then◌else◌, leb, arith,
}
use chromedriver.Dictionary.{string_eq}
use chromedriver.Result.{Result, done, fail}
use chromedriver.KeyConverter.{
  other, Modifiers, no_modifiers, KeyEvent, converted, Platform, generate,
}
use chromedriver.KeyConverter.Tables.{
  key_code_from_special_key, key_code_from_shorthand_key, is_modifier_key, special_keys,
}
use chromedriver.KeyConverter.Keys.{
  convert_keys_to_key_events, convert_loop, convert_key, find_stroke, stroke_events, special_texts,
  modifier_of_key,
}
use chromedriver.KeyConverter.Held.{held_after, is_none, mask_of}
use chromedriver.KeyConverter.Sticky.{convert_keys_to_key_events-released}
use chromedriver.KeyConverter.Actions.{InputState, convert_key_action}

-- An upper case letter needs the shift key.
abbrev upper : ℕ → Modifiers
upper key = if leb 65 key && leb key 90 then record no_modifiers { shift = true } else no_modifiers

abbrev letters : Platform
letters = record {
  convert_key_code_to_text = λ k m. converted (if m.shift then "A" else "a");
  convert_char_to_key_code = λ key. (other 65, upper key, "");
  to_utf8 = λ key. "?";
  key_string = λ k m. "a";
  number = λ k. 0;
  read_character = λ s. if s == "a" then 97 else 57352;
  print = λ n. "";
}

no_code : (key : ℕ) → is_none (mask_of (letters.convert_char_to_key_code key).0) ≡ true
no_code key = refl

no_meta : (key : ℕ) → (letters.convert_char_to_key_code key).1.meta ≡ false
no_meta key = ground arith

-- Control, and an A behind it
abbrev keys : List ℕ
keys = 57353 ∷ 65 ∷ []

abbrev events_in : Result (List KeyEvent × Modifiers) → List KeyEvent
events_in (done (es, m)) = es
events_in (fail s) = []

convert_keys_to_key_events-released_example :
    (no_modifiers ≡ no_modifiers)
    × (held_after
          (events_in (convert_keys_to_key_events letters keys true no_modifiers))
          no_modifiers
        ≡ no_modifiers)
unfolding convert_keys_to_key_events convert_loop convert_key find_stroke stroke_events
    special_texts modifier_of_key generate key_code_from_special_key key_code_from_shorthand_key
    is_modifier_key special_keys
convert_keys_to_key_events-released_example =
    convert_keys_to_key_events-released letters no_code no_meta keys no_modifiers no_modifiers
      (events_in (convert_keys_to_key_events letters keys true no_modifiers)) refl refl

-- The shift key goes down while "a" is held.
abbrev held_a : InputState
held_a = record { pressed = some (("a", true) ∷ []); modifiers = some no_modifiers }

abbrev both : InputState
both = record {
  pressed = some (("a", true) ∷ ("Shift", true) ∷ []);
  modifiers = some (record no_modifiers { shift = true });
}

abbrev acted : Result (InputState × List KeyEvent) → List KeyEvent
acted (done (t, es)) = es
acted (fail s) = []

abbrev shift_down : Result (InputState × List KeyEvent)
shift_down = convert_key_action letters (some "shift") true held_a
