-- ===== src/KeyConverter.antt =====
-- key_converter.cc with the events of chrome/ui_events.h and chrome/ui_events.cc: keys of WebDriver
-- are turned into events of a keyboard. A bit of KeyModifierMask is a field of `Modifiers`, a
-- UTF-16 unit is its number, and what the keyboard layout of the platform answers is a parameter.
pub mod Tables
pub mod Keys
pub mod Actions
pub mod Held
pub mod Sticky
pub mod Pressed
use chromedriver.Base.{
  ℕ, ◌+◌, ◌-◌, String, Bool, true, false, not, ◌||◌, ◌&&◌, Option, none, some, List, [], ◌∷◌, ◌++◌,
  if◌then◌else◌, is_empty, eqb, leb,
}

-- ui::KeyboardCode: the names that the code uses; `other` are the further codes of a layout.
pub data KeyboardCode : Type 0 where
  vkey_unknown vkey_cancel vkey_help vkey_back vkey_tab vkey_clear vkey_return vkey_shift
        vkey_control vkey_menu vkey_pause vkey_escape vkey_space vkey_prior vkey_next vkey_end
        vkey_home vkey_left vkey_up vkey_right vkey_down vkey_insert vkey_delete vkey_oem_1
        vkey_oem_plus vkey_numpad0 vkey_numpad1 vkey_numpad2 vkey_numpad3 vkey_numpad4 vkey_numpad5
        vkey_numpad6 vkey_numpad7 vkey_numpad8 vkey_numpad9 vkey_multiply vkey_add vkey_oem_comma
        vkey_subtract vkey_decimal vkey_divide vkey_f1 vkey_f2 vkey_f3 vkey_f4 vkey_f5 vkey_f6
        vkey_f7 vkey_f8 vkey_f9 vkey_f10 vkey_f11 vkey_f12 vkey_lwin vkey_dbe_dbcschar vkey_rshift
        vkey_rcontrol vkey_rmenu vkey_rwin vkey_command :
      KeyboardCode
  other : ℕ → KeyboardCode

pub record Modifiers : Type 0 where
  pub alt : Bool
  pub control : Bool
  pub meta : Bool
  pub shift : Bool
  pub num_lock : Bool

pub data Mask : Type 0 where
  alt_mask control_mask meta_mask shift_mask : Mask

abbrev pub no_modifiers : Modifiers
no_modifiers = record {
  alt = false;
  control = false;
  meta = false;
  shift = false;
  num_lock = false;
}

-- modifiers & mask, modifiers | mask, modifiers & ~mask, modifiers ^ mask
abbrev pub has : Mask → Modifiers → Bool
has alt_mask m = m.alt
has control_mask m = m.control
has meta_mask m = m.meta
has shift_mask m = m.shift

abbrev pub write : Mask → Bool → Modifiers → Modifiers
write alt_mask b m = record m { alt = b }
write control_mask b m = record m { control = b }
write meta_mask b m = record m { meta = b }
write shift_mask b m = record m { shift = b }

abbrev pub toggle : Mask → Modifiers → Modifiers
toggle mask m = write mask (not (has mask m)) m

abbrev pub union : Modifiers → Modifiers → Modifiers
union m n = record {
  alt = m.alt || n.alt;
  control = m.control || n.control;
  meta = m.meta || n.meta;
  shift = m.shift || n.shift;
  num_lock = m.num_lock || n.num_lock;
}

-- kModifiers
abbrev pub modifier_keys : List (Mask × KeyboardCode)
modifier_keys =
    (shift_mask, vkey_shift)
    ∷ (control_mask, vkey_control)
    ∷ (alt_mask, vkey_menu)
    ∷ (meta_mask, vkey_command)
    ∷ []

pub data KeyEventType : Type 0 where
  key_down key_up raw_key_down char_event pause_event invalid_event : KeyEventType

pub record KeyEvent : Type 0 where
  pub type : KeyEventType
  pub modifiers : Modifiers
  pub modified_text : String
  pub unmodified_text : String
  pub key : String
  pub key_code : KeyboardCode
  pub location : ℕ
  pub code : String
  pub is_from_action : Bool

-- The functions of a platform: ConvertKeyCodeToText and ConvertCharToKeyCode, UTF16ToUTF8 of one
-- unit, the name of a key with its modifiers, the number of a key code, ReadUnicodeCharacter of the
-- first character, and %d.
pub data Converted : Type 0 where
  converted failed : String → Converted

pub record Platform : Type 0 where
  pub convert_key_code_to_text : KeyboardCode → Modifiers → Converted
  pub convert_char_to_key_code : ℕ → KeyboardCode × Modifiers × String
  pub to_utf8 : ℕ → String
  pub key_string : KeyboardCode → Modifiers → String
  pub number : KeyboardCode → ℕ
  pub read_character : String → ℕ
  pub print : ℕ → String

-- The event of a builder after SetType, SetKeyCode, SetModifiers and SetText
abbrev pub build : Platform → KeyEventType → KeyboardCode → Modifiers → String → String → KeyEvent
build p type k m unmodified modified = record {
  type = type;
  modifiers = m;
  modified_text = modified;
  unmodified_text = unmodified;
  key = p.key_string k m;
  key_code = k;
  location = 0;
  code = "";
  is_from_action = false;
}

-- Generate
unfoldable pub generate : Platform → KeyboardCode → Modifiers → String → String → List KeyEvent
generate p k m unmodified modified =
    build p raw_key_down k m unmodified modified
    ∷ (if not (is_empty modified) || not (is_empty unmodified)
        then build p char_event k m unmodified modified
          ∷ build p key_up k m unmodified modified
          ∷ []
        else build p key_up k m unmodified modified ∷ [])
