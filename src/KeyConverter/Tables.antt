-- ===== src/KeyConverter/Tables.antt =====
-- The tables of key_converter.cc, from the units 0xE000 on, and the tests on keys.
use chromedriver.Base.{
  ℕ, ◌-◌, String, Bool, true, false, ◌||◌, ◌&&◌, Option, none, some, List, [], ◌∷◌, zero, suc,
  if◌then◌else◌, eqb, leb, ltb,
}
use chromedriver.KeyConverter.{
  KeyboardCode, vkey_unknown, vkey_cancel, vkey_help, vkey_back, vkey_tab, vkey_clear, vkey_return,
  vkey_shift, vkey_control, vkey_menu, vkey_pause, vkey_escape, vkey_space, vkey_prior, vkey_next,
  vkey_end, vkey_home, vkey_left, vkey_up, vkey_right, vkey_down, vkey_insert, vkey_delete,
  vkey_oem_1, vkey_oem_plus, vkey_numpad0, vkey_numpad1, vkey_numpad2, vkey_numpad3, vkey_numpad4,
  vkey_numpad5, vkey_numpad6, vkey_numpad7, vkey_numpad8, vkey_numpad9, vkey_multiply, vkey_add,
  vkey_oem_comma, vkey_subtract, vkey_decimal, vkey_divide, vkey_f1, vkey_f2, vkey_f3, vkey_f4,
  vkey_f5, vkey_f6, vkey_f7, vkey_f8, vkey_f9, vkey_f10, vkey_f11, vkey_f12, vkey_lwin,
  vkey_dbe_dbcschar, vkey_rshift, vkey_rcontrol, vkey_rmenu, vkey_rwin, Platform,
}

-- 0xE000
abbrev pub null_key : ℕ
null_key = 57344

abbrev pub get_elem? {ℓ} : {A : Type ℓ} → List A → ℕ → Option A
get_elem? [] n = none
get_elem? (x ∷ xs) zero = some x
get_elem? (x ∷ xs) (suc n) = get_elem? xs n

-- kSpecialWebDriverKeys
unfoldable pub special_keys : List KeyboardCode
special_keys =
    vkey_unknown ∷ vkey_cancel ∷ vkey_help ∷ vkey_back ∷ vkey_tab ∷ vkey_clear ∷ vkey_return
    ∷ vkey_return ∷ vkey_shift ∷ vkey_control ∷ vkey_menu ∷ vkey_pause ∷ vkey_escape ∷ vkey_space
    ∷ vkey_prior ∷ vkey_next ∷ vkey_end ∷ vkey_home ∷ vkey_left ∷ vkey_up ∷ vkey_right ∷ vkey_down
    ∷ vkey_insert ∷ vkey_delete ∷ vkey_oem_1 ∷ vkey_oem_plus ∷ vkey_numpad0 ∷ vkey_numpad1
    ∷ vkey_numpad2 ∷ vkey_numpad3 ∷ vkey_numpad4 ∷ vkey_numpad5 ∷ vkey_numpad6 ∷ vkey_numpad7
    ∷ vkey_numpad8 ∷ vkey_numpad9 ∷ vkey_multiply ∷ vkey_add ∷ vkey_oem_comma ∷ vkey_subtract
    ∷ vkey_decimal ∷ vkey_divide ∷ vkey_unknown ∷ vkey_unknown ∷ vkey_unknown ∷ vkey_unknown
    ∷ vkey_unknown ∷ vkey_unknown ∷ vkey_unknown ∷ vkey_f1 ∷ vkey_f2 ∷ vkey_f3 ∷ vkey_f4 ∷ vkey_f5
    ∷ vkey_f6 ∷ vkey_f7 ∷ vkey_f8 ∷ vkey_f9 ∷ vkey_f10 ∷ vkey_f11 ∷ vkey_f12 ∷ vkey_lwin
    ∷ vkey_unknown ∷ vkey_unknown ∷ vkey_dbe_dbcschar ∷ vkey_unknown ∷ vkey_unknown ∷ vkey_unknown
    ∷ vkey_unknown ∷ vkey_unknown ∷ vkey_unknown ∷ vkey_unknown ∷ vkey_unknown ∷ vkey_unknown
    ∷ vkey_unknown ∷ vkey_unknown ∷ vkey_unknown ∷ vkey_unknown ∷ vkey_unknown ∷ vkey_unknown
    ∷ vkey_rshift ∷ vkey_rcontrol ∷ vkey_rmenu ∷ vkey_rwin ∷ vkey_prior ∷ vkey_next ∷ vkey_end
    ∷ vkey_home ∷ vkey_left ∷ vkey_up ∷ vkey_right ∷ vkey_down ∷ vkey_insert ∷ vkey_delete ∷ []

-- IsSpecialKeyPrintable
unfoldable pub is_special_key_printable : Platform → KeyboardCode → Bool
is_special_key_printable p vkey_tab = true
is_special_key_printable p vkey_space = true
is_special_key_printable p vkey_oem_1 = true
is_special_key_printable p vkey_oem_plus = true
is_special_key_printable p vkey_oem_comma = true
is_special_key_printable p k =
    leb (p.number vkey_numpad0) (p.number k) && leb (p.number k) (p.number vkey_divide)

-- IsModifierKey: 0xE008, 0xE009, 0xE00A, 0xE03D, 0xE050, 0xE051, 0xE052, 0xE053
unfoldable pub is_modifier_key : ℕ → Bool
is_modifier_key key =
    eqb key 57352
    || eqb key 57353
    || eqb key 57354
    || eqb key 57405
    || eqb key 57424
    || eqb key 57425
    || eqb key 57426
    || eqb key 57427

-- KeyCodeFromSpecialWebDriverKey
unfoldable pub key_code_from_special_key : ℕ → Option KeyboardCode
key_code_from_special_key key = if ltb key 57344 then none else get_elem? special_keys (key - 57344)

-- KeyCodeFromShorthandKey, with whether the key is to be skipped
unfoldable pub key_code_from_shorthand_key : ℕ → Option (KeyboardCode × Bool)
key_code_from_shorthand_key key =
    if eqb key 10
    then some (vkey_return, false)
    else if eqb key 9
    then some (vkey_tab, false)
    else if eqb key 8
    then some (vkey_back, false)
    else if eqb key 32
    then some (vkey_space, false)
    else if eqb key 13
    then some (vkey_unknown, true)
    else none

-- kNormalisedKeyValue
abbrev pub normalised_key_values : List String
normalised_key_values =
    "Unidentified" ∷ "Cancel" ∷ "Help" ∷ "Backspace" ∷ "Tab" ∷ "Clear" ∷ "Return" ∷ "Enter"
    ∷ "Shift" ∷ "Control" ∷ "Alt" ∷ "Pause" ∷ "Escape" ∷ " " ∷ "PageUp" ∷ "PageDown" ∷ "End"
    ∷ "Home" ∷ "ArrowLeft" ∷ "ArrowUp" ∷ "ArrowRight" ∷ "ArrowDown" ∷ "Insert" ∷ "Delete" ∷ ";"
    ∷ "=" ∷ "0" ∷ "1" ∷ "2" ∷ "3" ∷ "4" ∷ "5" ∷ "6" ∷ "7" ∷ "8" ∷ "9" ∷ "*" ∷ "+" ∷ "," ∷ "-" ∷ "."
    ∷ "/" ∷ "" ∷ "" ∷ "" ∷ "" ∷ "" ∷ "" ∷ "" ∷ "F1" ∷ "F2" ∷ "F3" ∷ "F4" ∷ "F5" ∷ "F6" ∷ "F7" ∷ "F8"
    ∷ "F9" ∷ "F10" ∷ "F11" ∷ "F12" ∷ "Meta" ∷ "" ∷ "" ∷ "ZenkakuHankaku" ∷ "" ∷ "" ∷ "" ∷ "" ∷ ""
    ∷ "" ∷ "" ∷ "" ∷ "" ∷ "" ∷ "" ∷ "" ∷ "" ∷ "" ∷ "" ∷ "Shift" ∷ "Control" ∷ "Alt" ∷ "Meta"
    ∷ "PageUp" ∷ "PageDown" ∷ "End" ∷ "Home" ∷ "ArrowLeft" ∷ "ArrowUp" ∷ "ArrowRight" ∷ "ArrowDown"
    ∷ "Insert" ∷ "Delete" ∷ []

-- kCodeForKey
abbrev pub code_for_key : List (ℕ × ℕ × String)
code_for_key =
    (96, 126, "Backquote")
    ∷ (92, 124, "Backslash")
    ∷ (57347, 0, "Backspace")
    ∷ (91, 123, "BracketLeft")
    ∷ (93, 125, "BracketRight")
    ∷ (44, 60, "Comma")
    ∷ (48, 41, "Digit0")
    ∷ (49, 33, "Digit1")
    ∷ (50, 64, "Digit2")
    ∷ (51, 35, "Digit3")
    ∷ (52, 36, "Digit4")
    ∷ (53, 37, "Digit5")
    ∷ (54, 94, "Digit6")
    ∷ (55, 38, "Digit7")
    ∷ (56, 42, "Digit8")
    ∷ (57, 40, "Digit9")
    ∷ (61, 43, "Equal")
    ∷ (60, 62, "IntlBackslash")
    ∷ (97, 65, "KeyA")
    ∷ (98, 66, "KeyB")
    ∷ (99, 67, "KeyC")
    ∷ (100, 68, "KeyD")
    ∷ (101, 69, "KeyE")
    ∷ (102, 70, "KeyF")
    ∷ (103, 71, "KeyG")
    ∷ (104, 72, "KeyH")
    ∷ (105, 73, "KeyI")
    ∷ (106, 74, "KeyJ")
    ∷ (107, 75, "KeyK")
    ∷ (108, 76, "KeyL")
    ∷ (109, 77, "KeyM")
    ∷ (110, 78, "KeyN")
    ∷ (111, 79, "KeyO")
    ∷ (112, 80, "KeyP")
    ∷ (113, 81, "KeyQ")
    ∷ (114, 82, "KeyR")
    ∷ (115, 83, "KeyS")
    ∷ (116, 84, "KeyT")
    ∷ (117, 85, "KeyU")
    ∷ (118, 86, "KeyV")
    ∷ (119, 87, "KeyW")
    ∷ (120, 88, "KeyX")
    ∷ (121, 89, "KeyY")
    ∷ (122, 90, "KeyZ")
    ∷ (45, 95, "Minus")
    ∷ (46, 62, "Period")
    ∷ (39, 34, "Quote")
    ∷ (59, 58, "Semicolon")
    ∷ (47, 63, "Slash")
    ∷ (57354, 0, "AltLeft")
    ∷ (57426, 0, "AltRight")
    ∷ (57353, 0, "ControlLeft")
    ∷ (57425, 0, "ControlRight")
    ∷ (57350, 0, "Enter")
    ∷ (57405, 0, "MetaLeft")
    ∷ (57427, 0, "MetaRight")
    ∷ (57352, 0, "ShiftLeft")
    ∷ (57424, 0, "ShiftRight")
    ∷ (32, 57357, "Space")
    ∷ (57348, 0, "Tab")
    ∷ (57367, 0, "Delete")
    ∷ (57360, 0, "End")
    ∷ (57346, 0, "Help")
    ∷ (57361, 0, "Home")
    ∷ (57366, 0, "Insert")
    ∷ (57359, 0, "PageDown")
    ∷ (57358, 0, "PageUp")
    ∷ (57365, 0, "ArrowDown")
    ∷ (57362, 0, "ArrowLeft")
    ∷ (57364, 0, "ArrowRight")
    ∷ (57363, 0, "ArrowUp")
    ∷ (57356, 0, "Escape")
    ∷ (57393, 0, "F1")
    ∷ (57394, 0, "F2")
    ∷ (57395, 0, "F3")
    ∷ (57396, 0, "F4")
    ∷ (57397, 0, "F5")
    ∷ (57398, 0, "F6")
    ∷ (57399, 0, "F7")
    ∷ (57400, 0, "F8")
    ∷ (57401, 0, "F9")
    ∷ (57402, 0, "F10")
    ∷ (57403, 0, "F11")
    ∷ (57404, 0, "F12")
    ∷ (57370, 57436, "Numpad0")
    ∷ (57371, 57430, "Numpad1")
    ∷ (57372, 57435, "Numpad2")
    ∷ (57373, 57429, "Numpad3")
    ∷ (57374, 57432, "Numpad4")
    ∷ (57375, 0, "Numpad5")
    ∷ (57376, 57434, "Numpad6")
    ∷ (57377, 57431, "Numpad7")
    ∷ (57378, 57433, "Numpad8")
    ∷ (57379, 57428, "Numpad9")
    ∷ (57381, 0, "NumpadAdd")
    ∷ (57382, 0, "NumpadComma")
    ∷ (57384, 57437, "NumpadDecimal")
    ∷ (57385, 0, "NumpadDivide")
    ∷ (57351, 0, "NumpadEnter")
    ∷ (57380, 0, "NumpadMultiply")
    ∷ (57383, 0, "NumpadSubtract")
    ∷ []

-- GetKeyLocation
unfoldable pub get_key_location : ℕ → ℕ
get_key_location c =
    if leb 57351 c && leb c 57354
    then 1
    else if leb 57370 c && leb c 57385
    then 3
    else if eqb c 57405
    then 1
    else if leb 57424 c && leb c 57427
    then 2
    else if leb 57428 c && leb c 57437
    then 3
    else 0
