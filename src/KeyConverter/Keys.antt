-- ===== src/KeyConverter/Keys.antt =====
-- ConvertKeysToKeyEvents of key_converter.cc: the keys of a text with modifiers that stay held.
use chromedriver.Base.{
  ℕ, String, ◌<>◌, Bool, true, false, not, ◌||◌, ◌&&◌, Option, none, some, List, [], ◌∷◌, ◌++◌, suc,
  if◌then◌else◌, is_empty, eqb, leb,
}
use chromedriver.Status.{status_details, unknown_error}
use chromedriver.Result.{Result, done, fail, ◌>>=◌}
use chromedriver.KeyConverter.{
  KeyboardCode, vkey_unknown, vkey_return, vkey_shift, vkey_control, vkey_menu, vkey_command,
  vkey_numpad0, vkey_numpad9, Modifiers, no_modifiers, Mask, shift_mask, control_mask, alt_mask,
  meta_mask, has, toggle, union, modifier_keys, KeyEvent, KeyEventType, key_up, raw_key_down,
  Platform, Converted, converted, failed, build, generate,
}
use chromedriver.KeyConverter.Tables.{
  null_key, is_special_key_printable, is_modifier_key, key_code_from_special_key,
  key_code_from_shorthand_key,
}

-- The branches of the modifier keys
unfoldable pub modifier_of_key : ℕ → Option (Mask × KeyboardCode)
modifier_of_key key =
    if eqb key 57352 || eqb key 57424
    then some (shift_mask, vkey_shift)
    else if eqb key 57353 || eqb key 57425
    then some (control_mask, vkey_control)
    else if eqb key 57354 || eqb key 57426
    then some (alt_mask, vkey_menu)
    else if eqb key 57405 || eqb key 57427
    then some (meta_mask, vkey_command)
    else none

abbrev pub is_unknown : KeyboardCode → Bool
is_unknown vkey_unknown = true
is_unknown _ = false

abbrev pub is_return : KeyboardCode → Bool
is_return vkey_return = true
is_return _ = false

abbrev pub text_or_error : Converted → Result String
text_or_error (converted t) = done t
text_or_error (failed e) = fail (status_details unknown_error e)

-- The code, all modifiers, and the two texts of a key
pub record Stroke : Type 0 where
  pub key_code : KeyboardCode
  pub modifiers : Modifiers
  pub unmodified : String
  pub modified : String

abbrev pub none_if_one_empty : String × String → String × String
none_if_one_empty (u, m) = if is_empty u || is_empty m then ("", "") else (u, m)

abbrev pub is_necessary : Modifiers → Modifiers → Mask → Bool
is_necessary all sticky mask = has mask all && not (has mask sticky)

module _ (p : Platform) where
  abbrev pub num_lock_for : KeyboardCode → Modifiers
  num_lock_for k =
      if leb (p.number vkey_numpad0) (p.number k) && leb (p.number k) (p.number vkey_numpad9)
      then record no_modifiers { num_lock = true }
      else no_modifiers

  abbrev pub texts_with : KeyboardCode → Modifiers → Modifiers → Result (String × String)
  texts_with k first second =
      text_or_error (p.convert_key_code_to_text k first) >>= (λ (u : String).
        text_or_error (p.convert_key_code_to_text k second) >>= (λ (m : String). done (u, m)))

  -- The texts of a special or a shorthand key
  unfoldable pub special_texts : Bool → KeyboardCode → Modifiers → Result (String × String)
  special_texts is_special k m =
      if is_return k
      then done ("\r", "\r")
      else if is_special && not (is_special_key_printable p k)
      then done ("", "")
      else texts_with k (num_lock_for k) (union m (num_lock_for k))

  abbrev pub stroke : KeyboardCode → Modifiers → Result (String × String) → Result (Option Stroke)
  stroke k m (fail s) = fail s
  stroke k m (done (u, t)) =
      done (some (record { key_code = k; modifiers = m; unmodified = u; modified = t }))

  abbrev pub special_stroke : ℕ → ℕ → Bool → KeyboardCode → Modifiers → Result (Option Stroke)
  special_stroke i key is_special k sticky =
      if is_unknown k
      then fail (
          status_details unknown_error
            ("unknown WebDriver key(" <> p.print key <> ") at string index (" <> p.print i <> ")"))
      else stroke k sticky (special_texts is_special k sticky)

  abbrev pub layout_texts : KeyboardCode → Modifiers → String → Result (String × String)
  layout_texts k m raw =
      if is_unknown k
      then done (raw, raw)
      else texts_with k no_modifiers m >>= (λ (t : String × String). done (none_if_one_empty t))

  abbrev pub layout_stroke :
      ℕ → Modifiers → KeyboardCode × Modifiers × String → Result (Option Stroke)
  layout_stroke key sticky (k, necessary, message) =
      if not (is_empty message)
      then fail (status_details unknown_error message)
      else stroke k (union sticky necessary)
          (layout_texts k (union sticky necessary) (p.to_utf8 key))

  abbrev pub shorthand_stroke :
      ℕ → ℕ → Modifiers → Option (KeyboardCode × Bool) → Result (Option Stroke)
  shorthand_stroke i key sticky (some (k, true)) = done none
  shorthand_stroke i key sticky (some (k, false)) = special_stroke i key false k sticky
  shorthand_stroke i key sticky none = layout_stroke key sticky (p.convert_char_to_key_code key)

  abbrev pub stroke_of_special : ℕ → ℕ → Modifiers → Option KeyboardCode → Result (Option Stroke)
  stroke_of_special i key sticky (some k) = special_stroke i key true k sticky
  stroke_of_special i key sticky none =
      shorthand_stroke i key sticky (key_code_from_shorthand_key key)

  -- The stroke of a key that is no modifier, or none if the key is to be skipped
  unfoldable pub find_stroke : ℕ → ℕ → Modifiers → Result (Option Stroke)
  find_stroke i key sticky = stroke_of_special i key sticky (key_code_from_special_key key)

  abbrev pub events_for :
      KeyEventType → Modifiers → (Mask → Bool) → List (Mask × KeyboardCode) → List KeyEvent
  events_for type m test [] = []
  events_for type m test ((mask, k) ∷ masks) =
      let rest = events_for type m test masks in
      if test mask then build p type k m "" "" ∷ rest else rest

  -- The loop that releases goes down from the third entry of kModifiers.
  unfoldable pub stroke_events : Stroke → Modifiers → List KeyEvent
  stroke_events s sticky =
      events_for raw_key_down sticky (is_necessary s.modifiers sticky) modifier_keys
      ++ generate p s.key_code s.modifiers s.unmodified s.modified
      ++ events_for key_up sticky (is_necessary s.modifiers sticky)
          ((alt_mask, vkey_menu) ∷ (control_mask, vkey_control) ∷ (shift_mask, vkey_shift) ∷ [])

  abbrev pub press_modifier :
      Option (Mask × KeyboardCode) → Modifiers → Result (List KeyEvent × Modifiers)
  press_modifier none sticky = fail (status_details unknown_error "unknown modifier key")
  press_modifier (some (mask, k)) sticky =
      let now = toggle mask sticky in
      done (build p (if has mask now then raw_key_down else key_up) k now "" "" ∷ [], now)

  abbrev pub after_stroke : Modifiers → Option Stroke → Result (List KeyEvent × Modifiers)
  after_stroke sticky none = done ([], sticky)
  after_stroke sticky (some s) = done (stroke_events s sticky, sticky)

  -- One round of the loop: the events of the key and the sticky modifiers after it
  unfoldable pub convert_key : ℕ → ℕ → Modifiers → Result (List KeyEvent × Modifiers)
  convert_key i key sticky =
      if eqb key null_key
      then done
          (events_for key_up no_modifiers (λ mask. has mask sticky) modifier_keys, no_modifiers)
      else if is_modifier_key key
      then press_modifier (modifier_of_key key) sticky
      else find_stroke i key sticky >>= after_stroke sticky

  unfoldable pub convert_loop : ℕ → List ℕ → Modifiers → Result (List KeyEvent × Modifiers)
  convert_loop i [] sticky = done ([], sticky)
  convert_loop i (key ∷ keys) sticky =
      convert_key i key sticky >>= (λ (now : List KeyEvent × Modifiers).
        convert_loop (suc i) keys now.1
        >>= (λ (rest : List KeyEvent × Modifiers). done (now.0 ++ rest.0, rest.1)))

  unfoldable pub convert_keys_to_key_events :
      List ℕ → Bool → Modifiers → Result (List KeyEvent × Modifiers)
  convert_keys_to_key_events keys release_modifiers m =
      convert_loop 0 (if release_modifiers then keys ++ (null_key ∷ []) else keys) m
