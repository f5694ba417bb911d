-- ===== src/KeyConverter/Sticky.antt =====
-- The modifiers that ConvertKeysToKeyEvents of key_converter.cc returns, and those that its events
-- leave held.
use chromedriver.Base.{
  ℕ, suc, String, ◌≡◌, refl, ap, ◌∙◌, Bool, true, false, not, ◌||◌, ◌&&◌, Option, none, some,
  Option-cases, List, [], ◌∷◌, ◌++◌, inl, inr, if_elim, if◌then◌else◌, is_empty, eqb, arith,
}
use mathlib.Core.Path.{subst}
use chromedriver.Result.{Result, done, fail, ◌>>=◌}
use chromedriver.KeyConverter.{
  KeyboardCode, vkey_shift, vkey_control, vkey_menu, vkey_command, Modifiers, no_modifiers, Mask,
  shift_mask, control_mask, alt_mask, meta_mask, has, toggle, union, KeyEvent, key_up, raw_key_down,
  Platform,
}
use chromedriver.KeyConverter.Tables.{
  null_key, is_modifier_key, key_code_from_special_key, key_code_from_shorthand_key,
}
use chromedriver.KeyConverter.Keys.{
  modifier_of_key, Stroke, find_stroke, convert_key, convert_loop, convert_keys_to_key_events,
  is_necessary, stroke, special_stroke, press_modifier, special_texts, is_unknown, layout_stroke,
  layout_texts, after_stroke,
}
use chromedriver.KeyConverter.Held.{
  mask_of, press, held_after, held_after-++, is_none, key_code_from_special_key-apart,
  events_for-released, stroke_events-held,
}

not_necessary : (n h : Modifiers) → n.meta ≡ false → is_necessary (union h n) h meta_mask ≡ false
not_necessary n h e = ground arith

-- What a conversion that succeeds has to show
abbrev Ends : Modifiers → Result (List KeyEvent × Modifiers) → Type 0
Ends h (fail s) = true ≡ true
Ends h (done (es, m)) = (held_after es h ≡ m) × (m.num_lock ≡ false)

eq_none : (o : Option Mask) → is_none o ≡ true → o ≡ none
eq_none none e = refl
eq_none (some m) e = ground arith

press-toggle :
    (mask : Mask) (h : Modifiers)
    → press (if has mask (toggle mask h) then raw_key_down else key_up) (some mask) h
      ≡ toggle mask h
press-toggle alt_mask h = ground arith
press-toggle control_mask h = ground arith
press-toggle meta_mask h = ground arith
press-toggle shift_mask h = ground arith

abbrev then_more :
    Result (List KeyEvent × Modifiers)
    → (Modifiers → Result (List KeyEvent × Modifiers))
    → Result (List KeyEvent × Modifiers)
then_more r f = r >>= (λ (now : List KeyEvent × Modifiers).
    f now.1 >>= (λ (rest : List KeyEvent × Modifiers). done (now.0 ++ rest.0, rest.1)))

then_rest-Ends :
    (h m : Modifiers) (es : List KeyEvent) (r : Result (List KeyEvent × Modifiers))
    → held_after es h ≡ m
    → Ends m r
    → Ends h (r >>= (λ (rest : List KeyEvent × Modifiers). done (es ++ rest.0, rest.1)))
then_rest-Ends h m es (fail s) e a = refl
then_rest-Ends h m es (done (fs, k)) e a = (held_after-++ es fs h ∙ ap (held_after fs) e ∙ a.0, a.1)

then_more-Ends :
    (h : Modifiers) (r : Result (List KeyEvent × Modifiers))
    (f : Modifiers → Result (List KeyEvent × Modifiers))
    → Ends h r
    → ((m : Modifiers) → m.num_lock ≡ false → Ends m (f m))
    → Ends h (then_more r f)
then_more-Ends h (fail s) f a b = refl
then_more-Ends h (done (es, m)) f a b = then_rest-Ends h m es (f m) a.0 (b m a.1)

abbrev all_plain : Modifiers → Result (Option Stroke) → Bool
all_plain h (fail s) = true
all_plain h (done none) = true
all_plain h (done (some s)) =
    is_none (mask_of s.key_code) && not (is_necessary s.modifiers h meta_mask)

module _ (p : Platform) where
  stroke-plain :
      (k : KeyboardCode) (m h : Modifiers) (r : Result (String × String))
      → is_none (mask_of k) ≡ true
      → is_necessary m h meta_mask ≡ false
      → all_plain h (stroke p k m r) ≡ true
  stroke-plain k m h (fail s) e n = refl
  stroke-plain k m h (done (u, t)) e n = rw (e, n) refl

  special_stroke-plain :
      (i key : ℕ) (is_special : Bool) (k : KeyboardCode) (h : Modifiers)
      → is_none (mask_of k) ≡ true
      → all_plain h (special_stroke p i key is_special k h) ≡ true
  special_stroke-plain i key is_special k h e =
      if_elim (λ (r : Result (Option Stroke)). all_plain h r ≡ true) (is_unknown k) (λ b. refl)
        (λ b. stroke-plain k h h (special_texts p is_special k h) e (ground arith))

  shorthand-apart :
      (key : ℕ) (k : KeyboardCode) (b : Bool)
      → key_code_from_shorthand_key key ≡ some (k, b)
      → is_none (mask_of k) ≡ true
  unfolding key_code_from_shorthand_key
  shorthand-apart key k b e = ground arith

  module _
      (no_modifier_code : (key : ℕ) → is_none (mask_of (p.convert_char_to_key_code key).0) ≡ true)
      (no_meta : (key : ℕ) → (p.convert_char_to_key_code key).1.meta ≡ false) where
    layout_stroke-plain :
        (key : ℕ) (h : Modifiers)
        → all_plain h (layout_stroke p key h (p.convert_char_to_key_code key)) ≡ true
    layout_stroke-plain key h =
        let k : KeyboardCode = (p.convert_char_to_key_code key).0 in
        let m : Modifiers = union h (p.convert_char_to_key_code key).1 in
        if_elim (λ (r : Result (Option Stroke)). all_plain h r ≡ true)
          (not (is_empty (p.convert_char_to_key_code key).2)) (λ b. refl)
          (λ b.
            stroke-plain k m h (layout_texts p k m (p.to_utf8 key)) (no_modifier_code key)
              (not_necessary (p.convert_char_to_key_code key).1 h (no_meta key)))

    find_stroke-plain :
        (i key : ℕ) (h : Modifiers)
        → is_modifier_key key ≡ false
        → all_plain h (find_stroke p i key h) ≡ true
    unfolding find_stroke
    find_stroke-plain i key h m = elim (Option-cases (key_code_from_special_key key)) [
      | inr (k, e) ↦
          rw e (special_stroke-plain i key true k h (key_code_from_special_key-apart key k e m))
      | inl e ↦ rw e (elim (Option-cases (key_code_from_shorthand_key key)) [
        | inl f ↦ rw f (layout_stroke-plain key h)
        | inr ((k, true), f) ↦ rw f refl
        | inr ((k, false), f) ↦
            rw f (special_stroke-plain i key false k h (shorthand-apart key k false f))
      ])
    ]

    after_stroke-Ends :
        (h : Modifiers) (r : Result (Option Stroke))
        → h.num_lock ≡ false
        → all_plain h r ≡ true
        → Ends h (r >>= after_stroke p h)
    after_stroke-Ends h (fail s) n a = refl
    after_stroke-Ends h (done none) n a = (refl, n)
    after_stroke-Ends h (done (some s)) n a =
        (stroke_events-held p s h (eq_none (mask_of s.key_code) (ground arith)) (ground arith), n)

    toggled :
        (mask : Mask) (k : KeyboardCode) (h : Modifiers)
        → h.num_lock ≡ false
        → mask_of k ≡ some mask
        → Ends h (press_modifier p (some (mask, k)) h)
    toggled alt_mask k h n e = (rw e (press-toggle alt_mask h), n)
    toggled control_mask k h n e = (rw e (press-toggle control_mask h), n)
    toggled meta_mask k h n e = (rw e (press-toggle meta_mask h), n)
    toggled shift_mask k h n e = (rw e (press-toggle shift_mask h), n)

    press_modifier-Ends :
        (key : ℕ) (h : Modifiers)
        → h.num_lock ≡ false
        → Ends h (press_modifier p (modifier_of_key key) h)
    unfolding modifier_of_key
    press_modifier-Ends key h n =
        if_elim (λ (o : Option (Mask × KeyboardCode)). Ends h (press_modifier p o h))
          (eqb key 57352 || eqb key 57424) (λ b. toggled shift_mask vkey_shift h n refl)
          (λ b.
            if_elim (λ (o : Option (Mask × KeyboardCode)). Ends h (press_modifier p o h))
              (eqb key 57353 || eqb key 57425) (λ b. toggled control_mask vkey_control h n refl)
              (λ b.
                if_elim (λ (o : Option (Mask × KeyboardCode)). Ends h (press_modifier p o h))
                  (eqb key 57354 || eqb key 57426) (λ b. toggled alt_mask vkey_menu h n refl)
                  (λ b.
                    if_elim (λ (o : Option (Mask × KeyboardCode)). Ends h (press_modifier p o h))
                      (eqb key 57405 || eqb key 57427)
                      (λ b. toggled meta_mask vkey_command h n refl) (λ b. refl))))

    convert_key-Ends :
        (i key : ℕ) (h : Modifiers) → h.num_lock ≡ false → Ends h (convert_key p i key h)
    unfolding convert_key
    convert_key-Ends i key h n =
        if_elim (Ends h) (eqb key null_key) (λ b. (events_for-released p no_modifiers h n, refl))
          (λ b.
            if_elim (Ends h) (is_modifier_key key) (λ f. press_modifier-Ends key h n)
              (λ f. after_stroke-Ends h (find_stroke p i key h) n (find_stroke-plain i key h f)))

    convert_loop-Ends :
        (i : ℕ) (keys : List ℕ) (h : Modifiers)
        → h.num_lock ≡ false
        → Ends h (convert_loop p i keys h)
    unfolding convert_loop
    convert_loop-Ends i [] h n = (refl, n)
    convert_loop-Ends i (key ∷ keys) h n =
        then_more-Ends h (convert_key p i key h) (convert_loop p (suc i) keys)
          (convert_key-Ends i key h n) (convert_loop-Ends (suc i) keys)

    convert_keys-Ends :
        (keys : List ℕ) (release_modifiers : Bool) (h : Modifiers)
        → h.num_lock ≡ false
        → Ends h (convert_keys_to_key_events p keys release_modifiers h)
    unfolding convert_keys_to_key_events
    convert_keys-Ends keys b h n =
        convert_loop-Ends 0 (if b then keys ++ (null_key ∷ []) else keys) h n

    -- Let the keyboard hold the modifiers that are sticky. For a layout that asks for no modifier
    -- key and not for meta, the events of any keys leave it with the modifiers that the conversion
    -- returns.
    pub convert_keys_to_key_events-held :
        (keys : List ℕ) (release_modifiers : Bool) (h m : Modifiers) (es : List KeyEvent)
        → h.num_lock ≡ false
        → convert_keys_to_key_events p keys release_modifiers h ≡ done (es, m)
        → held_after es h ≡ m
    convert_keys_to_key_events-held keys b h m es n c =
        (subst (Ends h) c (convert_keys-Ends keys b h n)).0

-- With the null key at the end no modifier is sticky after the conversion.
module _ (p : Platform) where
  abbrev Clears : Result (List KeyEvent × Modifiers) → Type 0
  Clears (fail s) = true ≡ true
  Clears (done (es, m)) = m ≡ no_modifiers

  then_rest-Clears :
      (es : List KeyEvent) (r : Result (List KeyEvent × Modifiers))
      → Clears r
      → Clears (r >>= (λ (rest : List KeyEvent × Modifiers). done (es ++ rest.0, rest.1)))
  then_rest-Clears es (fail s) a = refl
  then_rest-Clears es (done (fs, k)) a = a

  then_more-Clears :
      (r : Result (List KeyEvent × Modifiers)) (f : Modifiers → Result (List KeyEvent × Modifiers))
      → ((m : Modifiers) → Clears (f m))
      → Clears (then_more r f)
  then_more-Clears (fail s) f b = refl
  then_more-Clears (done (es, m)) f b = then_rest-Clears es (f m) (b m)

  convert_loop-Clears :
      (i : ℕ) (keys : List ℕ) (h : Modifiers)
      → Clears (convert_loop p i (keys ++ (null_key ∷ [])) h)
  unfolding convert_loop convert_key
  convert_loop-Clears i [] h = refl
  convert_loop-Clears i (key ∷ keys) h =
      then_more-Clears (convert_key p i key h) (convert_loop p (suc i) (keys ++ (null_key ∷ [])))
        (convert_loop-Clears (suc i) keys)

  -- When the modifiers are to be released, none is sticky after the conversion, and for a layout that
  -- asks for no modifier key and not for meta, the events leave none held on the keyboard.
  pub convert_keys_to_key_events-released :
      (no_modifier_code : (key : ℕ) → is_none (mask_of (p.convert_char_to_key_code key).0) ≡ true)
      (no_meta : (key : ℕ) → (p.convert_char_to_key_code key).1.meta ≡ false) (keys : List ℕ)
      (h m : Modifiers) (es : List KeyEvent)
      → h.num_lock ≡ false
      → convert_keys_to_key_events p keys true h ≡ done (es, m)
      → (m ≡ no_modifiers) × (held_after es h ≡ no_modifiers)
  unfolding convert_keys_to_key_events
  convert_keys_to_key_events-released a b keys h m es n c =
      let clear : m ≡ no_modifiers = subst Clears c (convert_loop-Clears 0 keys h) in
      (clear, convert_keys_to_key_events-held p a b keys true h m es n c ∙ clear)
