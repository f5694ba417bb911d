-- ===== src/PromptBehavior/Views.antt =====
-- What CapabilityView and MapperOptionsView show can be read back.
use chromedriver.Base.{◌≡◌, refl, inl, inr, Bool, true, false, some, arith}
use chromedriver.Status.{ok, is_error, status}
use chromedriver.Result.{done}
use chromedriver.Values.{Values, ValueLaws}
use chromedriver.PromptBehavior.{
  PromptBehavior, PromptHandlerType, Configuration, configuration, Slot, alert, accept, dismiss,
  ignore, dialog_type, handler, with_compliance, parse_word, parse_value,
  fill_in_handler_configuration, create_string, create, capability_view, mapper_options_view,
  mapper_options, handler_type_word, default_behavior,
}
use chromedriver.PromptBehavior.Requested.{fill_in-Malformed}
use chromedriver.PromptBehavior.Create.{create_cases}

parse_word-handler_type_word :
    (w3c : Bool) (t : PromptHandlerType)
    → (c : Configuration) × (parse_word (handler_type_word t) w3c ≡ done c) × (c.type ≡ t)
unfolding parse_word
parse_word-handler_type_word w3c accept =
    (with_compliance w3c (configuration accept false), refl, ground arith)
parse_word-handler_type_word w3c dismiss =
    (with_compliance w3c (configuration dismiss false), refl, ground arith)
parse_word-handler_type_word w3c ignore =
    (with_compliance w3c (configuration ignore true), refl, ground arith)

module _ {V D : Type 0} (api : Values V D) (laws : ValueLaws api) where
  open api use {as_string, as_dict, find}

  -- The capability that a new behavior reports configures the same behavior when it is given back,
  -- in either mode.
  pub create-capability_view :
      (w3c : Bool) (r : PromptBehavior V)
      → create api w3c (capability_view api (default_behavior api w3c)) r
        ≡ (status ok, default_behavior api w3c)
  unfolding create create_string capability_view default_behavior parse_word
  create-capability_view true r = rw (laws.as_string-of_string "dismiss and notify", create)
  create-capability_view false r = rw (laws.as_string-of_string "ignore", create)

  find-mapper_options :
      (b : PromptBehavior V) (s : Slot)
      → find (mapper_options api b) (dialog_type s)
        ≡ some (api.of_string (handler_type_word (handler b s).type))
  unfolding mapper_options
  find-mapper_options b alert = simp laws.find-set
  find-mapper_options b _ = simp laws.find-set

  fill_in-mapper_options :
      (w3c : Bool) (b : PromptBehavior V) (s : Slot)
      → (c : Configuration) × (fill_in_handler_configuration api
            (dialog_type s)
            (mapper_options api b)
            w3c
          ≡ done c)
        × (c.type ≡ (handler b s).type)
  unfolding fill_in_handler_configuration parse_value
  fill_in-mapper_options w3c b s =
      let t = (handler b s).type in
      let (c, p, q) = parse_word-handler_type_word w3c t in
      (c, rw (find-mapper_options b s) (rw (laws.as_string-of_string (handler_type_word t)) p), q)

  -- The options that the BiDi mapper is given are themselves a capability: reading them back
  -- succeeds, and gives every dialog type the handler type that it had.
  pub create-mapper_options_view :
      (w3c : Bool) (b r : PromptBehavior V)
      → (is_error (create api w3c (mapper_options_view api b) r).0 ≡ false)
        × ((s : Slot)
            → (handler (create api w3c (mapper_options_view api b) r).1 s).type
              ≡ (handler b s).type)
  unfolding mapper_options_view
  create-mapper_options_view w3c b r =
      elim (create_cases api w3c (mapper_options_view api b) r (mapper_options api b)
        (laws.as_string-of_dict (mapper_options api b))
        (laws.as_dict-of_dict (mapper_options api b))) [
          | inl (_, (s, m)) ↦
              let (e, p) = fill_in-Malformed api w3c (mapper_options api b) s m in
              absurd (ground (arith, (fill_in-mapper_options w3c b s).1))
          | inr (k, _, q) ↦ (
            ground arith,
            λ s. ground (
              arith,
              q s,
              (fill_in-mapper_options w3c b s).1,
              (fill_in-mapper_options w3c b s).2,
            ),
          )
        ]
