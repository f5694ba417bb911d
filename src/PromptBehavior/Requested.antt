-- ===== src/PromptBehavior/Requested.antt =====
-- What the capability `unhandledPromptBehavior` asks for, as a relation between the dictionary, a
-- dialog type and a configuration.
use chromedriver.Base.{
  String, ◌≡◌, ◌≢◌, refl, ◌⊎◌, inl, inr, Bool, true, false, none, some, if◌then◌else◌, Option-cases,
}
use chromedriver.Status.{Status, invalid_argument}
use chromedriver.Result.{done, fail}
use chromedriver.Values.{Values}
use chromedriver.PromptBehavior.{
  Configuration, configuration, Slot, alert, before_unload, confirm, prompt, accept, dismiss,
  ignore, dialog_type, word_configuration, with_compliance, parse_word, parse_value,
  fill_in_handler_configuration, unexpected_type, unexpected_value,
}

module _ {V D : Type 0} (api : Values V D) where
  open api use {as_string, as_dict, find}

  -- The value names a configuration.
  pub data Names (w3c : Bool) (v : V) : Configuration → Type 0 where
    word :
        {s : String} {c : Configuration}
        → as_string v ≡ some s
        → word_configuration s ≡ some c
        → Names w3c v (with_compliance w3c c)

  pub Unreadable : V → Type 0
  Unreadable v =
      (as_string v ≡ none) ⊎ ((s : String) × (as_string v ≡ some s) × (word_configuration s ≡ none))

  -- An entry for the dialog type goes before the entry "default", and that before the built-in
  -- choice.
  pub data Requested (w3c : Bool) (d : D) (s : Slot) (c : Configuration) : Type 0 where
    own : {v : V} → find d (dialog_type s) ≡ some v → Names w3c v c → Requested w3c d s c
    shared :
        {v : V}
        → find d (dialog_type s) ≡ none
        → find d "default" ≡ some v
        → Names w3c v c
        → Requested w3c d s c
    built_in_accept :
        find d (dialog_type s) ≡ none
        → find d "default" ≡ none
        → s ≡ before_unload
        → c ≡ configuration accept false
        → Requested w3c d s c
    built_in :
        find d (dialog_type s) ≡ none
        → find d "default" ≡ none
        → s ≢ before_unload
        → c ≡ configuration (if w3c then dismiss else ignore) true
        → Requested w3c d s c

  -- The entry that decides about the dialog type cannot be read.
  pub data Malformed (d : D) (s : Slot) : Type 0 where
    own_entry : {v : V} → find d (dialog_type s) ≡ some v → Unreadable v → Malformed d s
    default_entry :
        {v : V}
        → find d (dialog_type s) ≡ none
        → find d "default" ≡ some v
        → Unreadable v
        → Malformed d s

  parse_value_cases :
      (w3c : Bool) (v : V)
      → ((c : Configuration) × (parse_value api (some v) w3c ≡ done c) × Names w3c v c)
        ⊎ ((e : Status) × (parse_value api (some v) w3c ≡ fail e)
            × (e.code ≡ invalid_argument)
            × Unreadable v)
  unfolding parse_value parse_word Unreadable
  parse_value_cases w3c v = elim (Option-cases (as_string v)) [
    | inl e ↦ inr (unexpected_type, rw e, refl, inl e)
    | inr (s, e) ↦ elim (Option-cases (word_configuration s)) [
      | inl u ↦ inr (unexpected_value s, rw e (rw (u, parse_word)), refl, inr (s, e, u))
      | inr (c, u) ↦ inl (with_compliance w3c c, rw e (rw (u, parse_word)), word e u)
    ]
  ]

  pub fill_in_cases :
      (w3c : Bool) (d : D) (s : Slot)
      → ((c : Configuration) × (fill_in_handler_configuration api (dialog_type s) d w3c ≡ done c)
          × Requested w3c d s c)
        ⊎ ((e : Status) × (fill_in_handler_configuration api (dialog_type s) d w3c ≡ fail e)
            × (e.code ≡ invalid_argument)
            × Malformed d s)
  unfolding fill_in_handler_configuration
  fill_in_cases w3c d s = elim (Option-cases (find d (dialog_type s))) [
    | inr (v, e) ↦ elim (parse_value_cases w3c v) [
      | inl (c, p, n) ↦ inl (c, rw e p, own e n)
      | inr (x, p, k, u) ↦ inr (x, rw e p, k, own_entry e u)
    ]
    | inl e ↦ elim (Option-cases (find d "default")) [
      | inr (v, f) ↦ elim (parse_value_cases w3c v) [
        | inl (c, p, n) ↦ inl (c, rw (e, f) p, shared e f n)
        | inr (x, p, k, u) ↦ inr (x, rw (e, f) p, k, default_entry e f u)
      ]
      | inl f ↦ built_in_cases s e f
    ]
  ]
    where
      built_in_cases :
          (s : Slot)
          → find d (dialog_type s) ≡ none
          → find d "default" ≡ none
          → ((c : Configuration) × (fill_in_handler_configuration api (dialog_type s) d w3c
                ≡ done c)
              × Requested w3c d s c)
            ⊎ ((e : Status) × (fill_in_handler_configuration api (dialog_type s) d w3c ≡ fail e)
                × (e.code ≡ invalid_argument)
                × Malformed d s)
      built_in_cases before_unload e f =
          inl (configuration accept false, rw (e, f), built_in_accept e f refl refl)
      built_in_cases alert e f = inl (
        configuration (if w3c then dismiss else ignore) true,
        rw (e, f),
        built_in e f (λ q. cc) refl,
      )
      built_in_cases confirm e f = inl (
        configuration (if w3c then dismiss else ignore) true,
        rw (e, f),
        built_in e f (λ q. cc) refl,
      )
      built_in_cases prompt e f = inl (
        configuration (if w3c then dismiss else ignore) true,
        rw (e, f),
        built_in e f (λ q. cc) refl,
      )

  parse_value-Unreadable :
      (w3c : Bool) (v : V) → Unreadable v → (e : Status) × (parse_value api (some v) w3c ≡ fail e)
  unfolding Unreadable parse_value parse_word
  parse_value-Unreadable w3c v (inl e) = (unexpected_type, rw e refl)
  parse_value-Unreadable w3c v (inr (s, e, u)) = (unexpected_value s, rw e (rw (u, parse_word)))

  pub fill_in-Malformed :
      (w3c : Bool) (d : D) (s : Slot)
      → Malformed d s
      → (e : Status) × (fill_in_handler_configuration api (dialog_type s) d w3c ≡ fail e)
  unfolding fill_in_handler_configuration
  fill_in-Malformed w3c d s (own_entry {v} e u) =
      let (x, p) = parse_value-Unreadable w3c v u in (x, rw e p)
  fill_in-Malformed w3c d s (default_entry {v} e f u) =
      let (x, p) = parse_value-Unreadable w3c v u in (x, rw (e, f) p)
