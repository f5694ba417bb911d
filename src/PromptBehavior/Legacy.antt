-- ===== src/PromptBehavior/Legacy.antt =====
-- In legacy mode a configuration that is read from the capability always notifies.
use chromedriver.Base.{
  String, ◌≡◌, ◌≢◌, refl, inl, inr, Bool, true, false, Option, none, some, arith, Option-cases,
}
use chromedriver.Status.{Status, is_error}
use chromedriver.Result.{done, fail, Result-cases}
use chromedriver.Values.{Values}
use chromedriver.PromptBehavior.{
  PromptBehavior, Configuration, Slot, before_unload, dialog_type, handler, parse_word, parse_value,
  fill_in_handler_configuration, create_string, create, keep_original,
}
use chromedriver.PromptBehavior.Create.{create_cases}

module _ {V D : Type 0} (api : Values V D) where
  open api use {as_string, as_dict, find}

  create_of_string :
      (w3c : Bool) (v : V) (r : PromptBehavior V) (t : String)
      → as_string v ≡ some t
      → create api w3c v r ≡ keep_original api v (create_string api w3c t)
  unfolding create
  create_of_string w3c v r t e = ground arith

  create_of_neither :
      (w3c : Bool) (v : V) (r : PromptBehavior V)
      → as_string v ≡ none
      → as_dict v ≡ none
      → is_error (create api w3c v r).0 ≡ true
  unfolding create
  create_of_neither w3c v r e f = ground arith

  parse_word-notify :
      (t : String) (c : Configuration) → parse_word t false ≡ done c → c.notify ≡ true
  unfolding parse_word
  parse_word-notify t c h = ground arith

  parse_word-error : (t : String) (e : Status) → parse_word t false ≡ fail e → is_error e ≡ true
  unfolding parse_word
  parse_word-error t e h = ground arith

  parse_value-notify :
      (o : Option V) (c : Configuration) → parse_value api o false ≡ done c → c.notify ≡ true
  unfolding parse_value
  parse_value-notify none c h = cc
  parse_value-notify (some v) c h = elim (Option-cases (as_string v)) [
    | inl e ↦ cc (rw e at h)
    | inr (t, e) ↦ parse_word-notify t c (rw e at h)
  ]

  fill_in-notify :
      (d : D) (s : Slot) (c : Configuration)
      → s ≢ before_unload
      → fill_in_handler_configuration api (dialog_type s) d false ≡ done c
      → c.notify ≡ true
  unfolding fill_in_handler_configuration
  fill_in-notify d before_unload c ne h = absurd (ne refl)
  fill_in-notify d s c ne h = ground (
    arith,
    parse_value-notify (find d (dialog_type s)) c,
    parse_value-notify (find d "default") c,
  )

  create_string-notify :
      (v : V) (t : String) (s : Slot)
      → s ≢ before_unload
      → is_error (keep_original api v (create_string api false t)).0 ≡ false
      → (handler (keep_original api v (create_string api false t)).1 s).notify ≡ true
  unfolding create_string
  create_string-notify v t before_unload ne h = absurd (ne refl)
  create_string-notify v t _ ne h = elim (Result-cases (parse_word t false)) [
    | inl (c, p) ↦ ground (arith, parse_word-notify t c p)
    | inr (e, p) ↦ ground (arith, parse_word-error t e p)
  ]

  -- In legacy mode every accepted capability makes the handlers of alert, confirm and prompt
  -- dialogs notify.
  pub create-notify :
      (v : V) (r : PromptBehavior V) (s : Slot)
      → s ≢ before_unload
      → is_error (create api false v r).0 ≡ false
      → (handler (create api false v r).1 s).notify ≡ true
  create-notify v r s ne h = elim (Option-cases (as_string v)) [
    | inr (t, e) ↦
        rw (create_of_string false v r t e)
          (create_string-notify v t s ne (rw (create_of_string false v r t e) at h))
    | inl e ↦ elim (Option-cases (as_dict v)) [
      | inl f ↦ absurd (ground (arith, create_of_neither false v r e f))
      | inr (d, f) ↦ elim (create_cases api false v r d e f) [
        | inl (k, _) ↦ absurd (ground arith)
        | inr (_, _, q) ↦ fill_in-notify d s _ ne (q s)
      ]
    ]
  ]
