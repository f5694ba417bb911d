-- ===== src/PromptBehavior/Create.antt =====
-- `create` reads exactly what the capability asks for.
use chromedriver.Base.{
  ◌≡◌, refl, ◌⊎◌, inl, inr, Bool, true, false, none, some, arith, ◌↔◌, sym, ap, ◌∙◌,
}
use chromedriver.Status.{Status, ok, invalid_argument, is_error, status}
use chromedriver.Result.{Result, done, fail, Result-cases}
use chromedriver.Values.{Values}
use chromedriver.PromptBehavior.{
  PromptBehavior, Configuration, Slot, alert, before_unload, confirm, prompt, dialog_type, handler,
  fill_in_handler_configuration, create_dict, create, get_configuration, capability_view, fill,
  keep_original,
}
use chromedriver.PromptBehavior.Requested.{Requested, Malformed, fill_in_cases, fill_in-Malformed}

module _ {V D : Type 0} (api : Values V D) where
  open api use {as_string, as_dict, find}

  -- `get_configuration` answers with the handler of the dialog type.
  get_configuration-dialog_type :
      (b : PromptBehavior V) (s : Slot)
      → get_configuration api b (dialog_type s) ≡ done (handler b s)
  unfolding get_configuration
  get_configuration-dialog_type b alert = refl
  get_configuration-dialog_type b _ = refl

  abbrev pub asked : Bool → D → Slot → Result Configuration
  asked w3c d s = fill_in_handler_configuration api (dialog_type s) d w3c

  -- The dictionary is refused with the status of a dialog type, or all four handlers are filled.
  create_dict_cases :
      (w3c : Bool) (d : D)
      → ((s : Slot) × (e : Status) × (asked w3c d s ≡ fail e) × ((create_dict api w3c d).0 ≡ e))
        ⊎ (((create_dict api w3c d).0 ≡ status ok)
            × ((s : Slot) → asked w3c d s ≡ done (handler (create_dict api w3c d).1 s)))
  unfolding create_dict fill
  create_dict_cases w3c d = elim (Result-cases (asked w3c d alert)) [
    | inr (e, p) ↦ inl (alert, e, p, ground arith)
    | inl (a, p) ↦ elim (Result-cases (asked w3c d before_unload)) [
      | inr (e, q) ↦ inl (before_unload, e, q, ground arith)
      | inl (b, q) ↦ elim (Result-cases (asked w3c d confirm)) [
        | inr (e, r) ↦ inl (confirm, e, r, ground arith)
        | inl (c, r) ↦ elim (Result-cases (asked w3c d prompt)) [
          | inr (e, t) ↦ inl (prompt, e, t, ground arith)
          | inl (f, t) ↦ inr (
            ground arith,
            elim [
              | alert ↦ ground arith
              | before_unload ↦ ground arith
              | confirm ↦ ground arith
              | prompt ↦ ground arith
            ],
          )
        ]
      ]
    ]
  ]

  create_of_dict :
      (w3c : Bool) (v : V) (r : PromptBehavior V) (d : D)
      → as_string v ≡ none
      → as_dict v ≡ some d
      → create api w3c v r ≡ keep_original api v (create_dict api w3c d)
  unfolding create
  create_of_dict w3c v r d e f = ground arith

  keep_original-fail :
      (v : V) (p : Status × PromptBehavior V)
      → p.0.code ≡ invalid_argument
      → (keep_original api v p).0.code ≡ invalid_argument
  keep_original-fail v p h = ground arith

  keep_original_ok :
      (v : V) (p : Status × PromptBehavior V)
      → p.0 ≡ status ok
      → ((keep_original api v p).0.code ≡ ok)
        × ((keep_original api v p).1.original_capability_value ≡ v)
        × ((s : Slot) → handler (keep_original api v p).1 s ≡ handler p.1 s)
  keep_original_ok v p h = (ground arith, ground arith, λ s. handlers s)
    where
      handlers : (s : Slot) → handler (keep_original api v p).1 s ≡ handler p.1 s
      handlers alert = ground arith
      handlers before_unload = ground arith
      handlers confirm = ground arith
      handlers prompt = ground arith

  pub create_cases :
      (w3c : Bool) (v : V) (r : PromptBehavior V) (d : D)
      → as_string v ≡ none
      → as_dict v ≡ some d
      → (((create api w3c v r).0.code ≡ invalid_argument) × ((s : Slot) × Malformed api d s))
        ⊎ (((create api w3c v r).0.code ≡ ok)
            × ((create api w3c v r).1.original_capability_value ≡ v)
            × ((s : Slot) → asked w3c d s ≡ done (handler (create api w3c v r).1 s)))
  create_cases w3c v r d e f = rw (create_of_dict w3c v r d e f) (outcome (create_dict_cases w3c d))
    where
      outcome :
          ((s : Slot) × (x : Status) × (asked w3c d s ≡ fail x) × ((create_dict api w3c d).0 ≡ x))
            ⊎ (((create_dict api w3c d).0 ≡ status ok)
                × ((s : Slot) → asked w3c d s ≡ done (handler (create_dict api w3c d).1 s)))
          → (((keep_original api v (create_dict api w3c d)).0.code ≡ invalid_argument)
              × ((s : Slot) × Malformed api d s))
            ⊎ (((keep_original api v (create_dict api w3c d)).0.code ≡ ok)
                × ((keep_original api v (create_dict api w3c d)).1.original_capability_value ≡ v)
                × ((s : Slot)
                    → asked w3c d s
                      ≡ done (handler (keep_original api v (create_dict api w3c d)).1 s)))
      outcome (inl (s, x, p, q)) = elim (fill_in_cases api w3c d s) [
        | inl (c, p', n) ↦ absurd (ground arith)
        | inr (y, p', k, m) ↦
            inl (keep_original-fail v (create_dict api w3c d) (ground arith), (s, m))
      ]
      outcome (inr (p, q)) =
          let (a, b, c) = keep_original_ok v (create_dict api w3c d) p in
          inr (a, b, λ s. q s ∙ ap done (sym (c s)))

  -- A dictionary is accepted exactly when no dialog type has a malformed entry, and is refused with
  -- kInvalidArgument.
  pub create-is_error_iff :
      (w3c : Bool) (v : V) (r : PromptBehavior V) (d : D)
      → as_string v ≡ none
      → as_dict v ≡ some d
      → ((is_error (create api w3c v r).0 ≡ true) ↔ ((s : Slot) × Malformed api d s))
        × (is_error (create api w3c v r).0 ≡ true → (create api w3c v r).0.code ≡ invalid_argument)
  create-is_error_iff w3c v r d e f = elim (create_cases w3c v r d e f) [
    | inl (k, m) ↦ ((λ _. m, λ _. ground arith), λ _. k)
    | inr (k, _, q) ↦ (
      (
        λ h. absurd (ground arith),
        λ (s, m). let (x, p) = fill_in-Malformed api w3c d s m in absurd (ground (arith, q s)),
      ),
      λ h. absurd (ground arith),
    )
  ]

  -- An accepted dictionary is kept as the capability, and every dialog type gets the configuration
  -- that the dictionary requests for it.
  pub create-Requested :
      (w3c : Bool) (v : V) (r : PromptBehavior V) (d : D)
      → as_string v ≡ none
      → as_dict v ≡ some d
      → is_error (create api w3c v r).0 ≡ false
      → (capability_view api (create api w3c v r).1 ≡ v)
        × ((s : Slot)
            → (c : Configuration) × (get_configuration api (create api w3c v r).1 (dialog_type s)
                ≡ done c)
              × Requested api w3c d s c)
  unfolding capability_view
  create-Requested w3c v r d e f h = elim (create_cases w3c v r d e f) [
    | inl (k, _) ↦ absurd (ground arith)
    | inr (k, o, q) ↦ (o, λ s. requested s (q s) (fill_in_cases api w3c d s))
  ]
    where
      requested :
          (s : Slot)
          → asked w3c d s ≡ done (handler (create api w3c v r).1 s)
          → ((c : Configuration) × (asked w3c d s ≡ done c) × Requested api w3c d s c)
            ⊎ ((x : Status) × (asked w3c d s ≡ fail x)
                × (x.code ≡ invalid_argument)
                × Malformed api d s)
          → (c : Configuration) × (get_configuration api (create api w3c v r).1 (dialog_type s)
              ≡ done c)
            × Requested api w3c d s c
      requested s q (inl (c, p, n)) =
          (c, get_configuration-dialog_type (create api w3c v r).1 s ∙ sym q ∙ p, n)
      requested s q (inr (x, p, _, _)) = absurd (ground arith)
