-- ===== src/KeyConverter/Pressed.antt =====
-- The pressed keys and the events of an action of key_converter.cc.
use chromedriver.Base.{
  String, ◌≡◌, Bool, true, false, not, ◌&&◌, Option, none, some, List, [], ◌∷◌, ◌⊎◌, if◌then◌else◌,
}
use chromedriver.Dictionary.{contains, string_eq}
use chromedriver.Result.{Result, done, fail}
use chromedriver.KeyConverter.{Modifiers, KeyEvent, KeyEventType, key_down, key_up, Platform}
use chromedriver.KeyConverter.Actions.{InputState, find_action}

abbrev is_in : String → Option (List (String × Bool)) → Bool
is_in key none = false
is_in key (some pressed) = contains key pressed

abbrev pub is_pressed : String → InputState → Bool
is_pressed key s = is_in key s.pressed

-- A key up of a key that is not pressed
abbrev pub is_idle : Bool → String → InputState → Bool
is_idle is_key_down key s = not is_key_down && not (is_pressed key s)

-- The key is one that find_action skips.
abbrev pub Skipped : Platform → Bool → String → InputState → Type 0
Skipped p is_key_down raw s =
    (m : Modifiers) × (s.modifiers ≡ some m)
    × (find_action p is_key_down (p.read_character raw) raw m ≡ done none)

abbrev pub types : List KeyEvent → List KeyEventType
types [] = []
types (e ∷ es) = e.type ∷ types es

-- What an action has to show: nothing happens, for a reason, or one key is pressed or released.
abbrev Acts :
    Platform
    → Bool
    → String
    → String
    → String
    → InputState
    → Result (InputState × List KeyEvent)
    → Type 0
Acts p is_key_down raw key other s (fail e) = true ≡ true
Acts p is_key_down raw key other s (done (t, es)) =
    (((is_idle is_key_down key s ≡ true) ⊎ Skipped p is_key_down raw s) × (es ≡ []) × (t ≡ s))
    ⊎ ((is_idle is_key_down key s ≡ false)
        × (types es ≡ (if is_key_down then key_down else key_up) ∷ [])
        × (is_pressed key t ≡ is_key_down)
        × (is_pressed other t ≡ is_pressed other s))
