-- ===== src/KeyConverter/Held.antt =====
-- The modifier keys that the events of key_converter.cc leave held.
use chromedriver.Base.{
  ℕ, suc, ◌+◌, ◌-◌, String, ◌≡◌, refl, ap, ◌∙◌, Bool, true, false, not, ◌||◌, ◌&&◌, Bool-cases,
  Option, none, some, List, [], ◌∷◌, ◌++◌, inl, inr, if_elim, is_empty, ltb, ◌≤◌, arith, zero,
}
use mathlib.Core.Path.{subst}
use chromedriver.KeyConverter.{
  KeyboardCode, vkey_shift, vkey_rshift, vkey_control, vkey_rcontrol, vkey_menu, vkey_rmenu,
  vkey_command, vkey_rwin, vkey_lwin, Modifiers, no_modifiers, Mask, shift_mask, control_mask,
  alt_mask, meta_mask, has, write, modifier_keys, KeyEvent, KeyEventType, key_down, key_up,
  raw_key_down, Platform, build, generate,
}
use chromedriver.KeyConverter.Tables.{
  get_elem?, special_keys, is_modifier_key, key_code_from_special_key,
}
use chromedriver.KeyConverter.Keys.{Stroke, stroke_events, events_for, is_necessary}

-- The modifier that a key code stands for
abbrev pub mask_of : KeyboardCode → Option Mask
mask_of vkey_shift = some shift_mask
mask_of vkey_rshift = some shift_mask
mask_of vkey_control = some control_mask
mask_of vkey_rcontrol = some control_mask
mask_of vkey_menu = some alt_mask
mask_of vkey_rmenu = some alt_mask
mask_of vkey_command = some meta_mask
mask_of vkey_lwin = some meta_mask
mask_of vkey_rwin = some meta_mask
mask_of _ = none

-- A keyboard on which the events are played: the modifiers that are held
abbrev pub press : KeyEventType → Option Mask → Modifiers → Modifiers
press raw_key_down (some mask) held = write mask true held
press key_down (some mask) held = write mask true held
press key_up (some mask) held = write mask false held
press _ _ held = held

abbrev pub held_after : List KeyEvent → Modifiers → Modifiers
held_after [] held = held
held_after (e ∷ es) held = held_after es (press e.type (mask_of e.key_code) held)

pub held_after-++ :
    (es fs : List KeyEvent) (h : Modifiers)
    → held_after (es ++ fs) h ≡ held_after fs (held_after es h)
held_after-++ [] fs h = refl
held_after-++ (e ∷ es) fs h = held_after-++ es fs (press e.type (mask_of e.key_code) h)

abbrev pub is_none : Option Mask → Bool
is_none none = true
is_none (some m) = false

-- No entry of the table of special keys is a modifier, but for the keys that IsModifierKey names.
abbrev all_apart : ℕ → List KeyboardCode → Bool
all_apart i [] = true
all_apart i (k ∷ ks) = (is_modifier_key i || is_none (mask_of k)) && all_apart (suc i) ks

special_keys-apart : all_apart 57344 special_keys ≡ true
unfolding special_keys is_modifier_key
special_keys-apart = refl

get_elem?-apart :
    (i n : ℕ) (ks : List KeyboardCode) (k : KeyboardCode)
    → all_apart i ks ≡ true
    → get_elem? ks n ≡ some k
    → is_modifier_key (n + i) ≡ false
    → is_none (mask_of k) ≡ true
get_elem?-apart i n [] k a g f = ground arith
get_elem?-apart i zero (j ∷ ks) k a g f = ground arith
get_elem?-apart i (suc n) (j ∷ ks) k a g f =
    get_elem?-apart (suc i) n ks k (ground arith) g
      (subst (λ (m : ℕ). is_modifier_key m ≡ false) (omega arith) f)

ge_of_ltb : (m n : ℕ) → ltb m n ≡ false → n ≤ m
ge_of_ltb m n h = ground arith

sub_add : (key : ℕ) → 57344 ≤ key → key ≡ key - 57344 + 57344
sub_add key h = omega arith

pub key_code_from_special_key-apart :
    (key : ℕ) (k : KeyboardCode)
    → key_code_from_special_key key ≡ some k
    → is_modifier_key key ≡ false
    → is_none (mask_of k) ≡ true
unfolding key_code_from_special_key
key_code_from_special_key-apart key k g f = elim (Bool-cases (ltb key 57344)) [
  | inl below ↦ ground arith
  | inr above ↦
      get_elem?-apart 57344 (key - 57344) special_keys k special_keys-apart (ground arith)
        (subst (λ (m : ℕ). is_modifier_key m ≡ false) (sub_add key (ge_of_ltb key 57344 above)) f)
]

-- What a stroke presses was not held before.
back :
    (all h : Modifiers)
    → is_necessary all h meta_mask ≡ false
    → record h {
      alt = not (is_necessary all h alt_mask) && (is_necessary all h alt_mask || h.alt);
      control =
          not (is_necessary all h control_mask) && (is_necessary all h control_mask || h.control);
      meta = is_necessary all h meta_mask || h.meta;
      shift = not (is_necessary all h shift_mask) && (is_necessary all h shift_mask || h.shift);
    }
      ≡ h
back all h n = ground arith

module _ (p : Platform) where
  generate-held :
      (k : KeyboardCode) (m h : Modifiers) (u t : String)
      → mask_of k ≡ none
      → held_after (generate p k m u t) h ≡ h
  unfolding generate
  generate-held k m h u t e =
      if_elim (λ (es : List KeyEvent). held_after (build p raw_key_down k m u t ∷ es) h ≡ h)
        (not (is_empty t) || not (is_empty u)) (λ b. rw e refl) (λ b. rw e refl)

  -- The modifiers that are pressed for one stroke are held, and let go again, but for meta.
  events_for-held_down :
      (test : Mask → Bool) (m h : Modifiers)
      → held_after (events_for p raw_key_down m test modifier_keys) h ≡ record h {
        alt = test alt_mask || h.alt;
        control = test control_mask || h.control;
        meta = test meta_mask || h.meta;
        shift = test shift_mask || h.shift;
      }
  events_for-held_down test m h = ground arith

  events_for-held_up :
      (test : Mask → Bool) (m h : Modifiers)
      → held_after
          (events_for p key_up m test
            ((alt_mask, vkey_menu) ∷ (control_mask, vkey_control) ∷ (shift_mask, vkey_shift) ∷ []))
          h
        ≡ record h {
          alt = not (test alt_mask) && h.alt;
          control = not (test control_mask) && h.control;
          shift = not (test shift_mask) && h.shift;
        }
  events_for-held_up test m h = ground arith

  pub events_for-released :
      (m h : Modifiers)
      → h.num_lock ≡ false
      → held_after (events_for p key_up m (λ (mask : Mask). has mask h) modifier_keys) h
        ≡ no_modifiers
  events_for-released m h n = ground arith

  -- Meta is not released, so it must not be pressed either.
  pub stroke_events-held :
      (s : Stroke) (h : Modifiers)
      → mask_of s.key_code ≡ none
      → is_necessary s.modifiers h meta_mask ≡ false
      → held_after (stroke_events p s h) h ≡ h
  unfolding stroke_events
  stroke_events-held s h e n =
      let test : Mask → Bool = is_necessary s.modifiers h in
      let down : List KeyEvent = events_for p raw_key_down h test modifier_keys in
      let up : List KeyEvent =
        events_for p key_up h test
          ((alt_mask, vkey_menu) ∷ (control_mask, vkey_control) ∷ (shift_mask, vkey_shift) ∷ []) in
      let stroke : List KeyEvent = generate p s.key_code s.modifiers s.unmodified s.modified in
      let pressed : Modifiers = record h {
        alt = test alt_mask || h.alt;
        control = test control_mask || h.control;
        meta = test meta_mask || h.meta;
        shift = test shift_mask || h.shift;
      } in
      held_after-++ (down ++ stroke) up h
      ∙ ap (held_after up) (
          held_after-++ down stroke h
          ∙ ap (held_after stroke) (events_for-held_down test h h)
          ∙ generate-held s.key_code s.modifiers pressed s.unmodified s.modified e)
      ∙ events_for-held_up test h pressed
      ∙ back s.modifiers h n
