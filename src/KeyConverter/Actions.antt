-- ===== src/KeyConverter/Actions.antt =====
-- ConvertKeyActionToKeyEvent of key_converter.cc: one key of an action sequence, with the state of
-- its input source. A function that takes a char16_t is given the lower 16 bits of the code point.
use chromedriver.Base.{
  ℕ, ◌-◌, ◌%◌, String, Bool, true, false, not, ◌||◌, ◌&&◌, Option, none, some, List, [], ◌∷◌,
  if◌then◌else◌, is_empty, eqb, ltb,
}
use chromedriver.Dictionary.{contains, assign, erase, string_eq}
use chromedriver.Status.{status_details, unknown_error}
use chromedriver.Result.{Result, done, fail}
use chromedriver.KeyConverter.{
  KeyboardCode, vkey_shift, vkey_rshift, vkey_control, vkey_rcontrol, vkey_menu, vkey_rmenu,
  vkey_command, vkey_rwin, Modifiers, no_modifiers, Mask, shift_mask, control_mask, alt_mask,
  meta_mask, write, union, KeyEvent, key_down, key_up, Platform,
}
use chromedriver.KeyConverter.Tables.{
  get_elem?, is_modifier_key, key_code_from_special_key, key_code_from_shorthand_key,
  normalised_key_values, code_for_key, get_key_location,
}
use chromedriver.KeyConverter.Keys.{is_unknown, special_texts, texts_with, none_if_one_empty}

-- The members "pressed" and "modifiers" of the state, where they are there
pub record InputState : Type 0 where
  pub pressed : Option (List (String × Bool))
  pub modifiers : Option Modifiers

-- What a key sends
pub record Action : Type 0 where
  pub key_code : KeyboardCode
  pub modifiers : Modifiers
  pub is_modifier : Bool
  pub unmodified : String
  pub modified : String

abbrev non_empty_or : String → Option String → String
non_empty_or raw none = raw
non_empty_or raw (some v) = if is_empty v then raw else v

unfoldable pub normalised_key : ℕ → String → String
normalised_key c raw =
    if ltb c 57344 then raw else non_empty_or raw (get_elem? normalised_key_values (c - 57344))

abbrev find_code : ℕ → List (ℕ × ℕ × String) → String
find_code c [] = ""
find_code c ((key, alternate_key, code) ∷ rows) =
    let later = find_code c rows in if eqb key c || eqb alternate_key c then code else later

unfoldable pub code_of : ℕ → String
code_of c = if eqb c 0 then "" else find_code c code_for_key

-- The branches of the modifier keys
unfoldable pub modifier_action : ℕ → Option (Mask × KeyboardCode)
modifier_action c =
    if eqb c 57352
    then some (shift_mask, vkey_shift)
    else if eqb c 57424
    then some (shift_mask, vkey_rshift)
    else if eqb c 57353
    then some (control_mask, vkey_control)
    else if eqb c 57425
    then some (control_mask, vkey_rcontrol)
    else if eqb c 57354
    then some (alt_mask, vkey_menu)
    else if eqb c 57426
    then some (alt_mask, vkey_rmenu)
    else if eqb c 57405
    then some (meta_mask, vkey_command)
    else if eqb c 57427
    then some (meta_mask, vkey_rwin)
    else none

module _ (p : Platform) where
  abbrev with_texts : KeyboardCode → Modifiers → Result (String × String) → Result (Option Action)
  with_texts k m (fail s) = fail s
  with_texts k m (done (u, t)) = done (
      some
        (record { key_code = k; modifiers = m; is_modifier = false; unmodified = u; modified = t }))

  abbrev modified_action : Bool → Modifiers → Option (Mask × KeyboardCode) → Result (Option Action)
  modified_action is_key_down m none = fail (status_details unknown_error "unknown modifier key")
  modified_action is_key_down m (some (mask, k)) = done (
      some (record {
        key_code = k;
        modifiers = write mask is_key_down m;
        is_modifier = true;
        unmodified = "";
        modified = "";
      }))

  abbrev texts_or_none : Result (String × String) → Result (String × String)
  texts_or_none (fail s) = fail s
  texts_or_none (done t) = done (none_if_one_empty t)

  abbrev layout_action :
      Modifiers → String → KeyboardCode × Modifiers × String → Result (Option Action)
  layout_action m raw (k, necessary, message) =
      if not (is_empty message)
      then fail (status_details unknown_error message)
      else if is_unknown k
      then with_texts k m (done (raw, raw))
      else with_texts k (union m necessary)
          (texts_or_none (texts_with p k no_modifiers (union m necessary)))

  abbrev shorthand_action :
      ℕ → Modifiers → String → Option (KeyboardCode × Bool) → Result (Option Action)
  shorthand_action unit m raw (some (k, true)) = done none
  shorthand_action unit m raw (some (k, false)) = with_texts k m (special_texts p false k m)
  shorthand_action unit m raw none = layout_action m raw (p.convert_char_to_key_code unit)

  abbrev special_action : ℕ → Modifiers → String → Option KeyboardCode → Result (Option Action)
  special_action unit m raw (some k) = with_texts k m (special_texts p true k m)
  special_action unit m raw none = shorthand_action unit m raw (key_code_from_shorthand_key unit)

  -- What the key of a code point sends, or none if it is to be skipped
  unfoldable pub find_action : Bool → ℕ → String → Modifiers → Result (Option Action)
  find_action is_key_down c raw m =
      if is_modifier_key (c % 65536)
      then modified_action is_key_down m (modifier_action c)
      else special_action (c % 65536) m raw (key_code_from_special_key (c % 65536))

  abbrev action_event : Bool → ℕ → String → Action → KeyEvent
  action_event is_key_down c key a = record {
    type = if is_key_down then key_down else key_up;
    modifiers = a.modifiers;
    modified_text = if a.is_modifier then "" else a.modified;
    unmodified_text = if a.is_modifier then "" else a.unmodified;
    key =
        if is_empty (p.key_string a.key_code a.modifiers)
        then key
        else p.key_string a.key_code a.modifiers;
    key_code = a.key_code;
    location = get_key_location c;
    code = code_of c;
    is_from_action = true;
  }

  abbrev pub perform :
      Bool
      → ℕ
      → String
      → List (String × Bool)
      → InputState
      → Option Action
      → InputState × List KeyEvent
  perform is_key_down c key pressed s none = (s, [])
  perform is_key_down c key pressed s (some a) = (
    record {
      pressed = some (if is_key_down then assign key true pressed else erase key pressed);
      modifiers = if a.is_modifier then some a.modifiers else s.modifiers;
    },
    action_event is_key_down c key a ∷ [],
  )

  abbrev pub performed :
      Bool
      → ℕ
      → String
      → List (String × Bool)
      → InputState
      → Result (Option Action)
      → Result (InputState × List KeyEvent)
  performed is_key_down c key pressed s (fail e) = fail e
  performed is_key_down c key pressed s (done a) = done (perform is_key_down c key pressed s a)

  abbrev pub run :
      Bool
      → ℕ
      → String
      → String
      → List (String × Bool)
      → Option Modifiers
      → InputState
      → Result (InputState × List KeyEvent)
  run is_key_down c raw key pressed none s =
      fail (status_details unknown_error "missing 'modifiers'")
  run is_key_down c raw key pressed (some m) s =
      performed is_key_down c key pressed s (find_action is_key_down c raw m)

  abbrev pub with_pressed :
      Bool
      → ℕ
      → String
      → String
      → Option (List (String × Bool))
      → InputState
      → Result (InputState × List KeyEvent)
  with_pressed is_key_down c raw key none s =
      fail (status_details unknown_error "missing 'pressed'")
  with_pressed is_key_down c raw key (some pressed) s =
      if not is_key_down && not (contains key pressed)
      then done (s, [])
      else run is_key_down c raw key pressed s.modifiers s

  unfoldable pub convert_key_action :
      Option String → Bool → InputState → Result (InputState × List KeyEvent)
  convert_key_action none is_key_down s = fail (status_details unknown_error "missing 'value'")
  convert_key_action (some raw) is_key_down s =
      with_pressed is_key_down (p.read_character raw) raw
        (normalised_key (p.read_character raw) raw) s.pressed s
