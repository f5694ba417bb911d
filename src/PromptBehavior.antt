-- ===== src/PromptBehavior.antt =====
-- prompt_behavior.h and prompt_behavior.cc: the capability `unhandledPromptBehavior`. The
-- references to the four handlers that the loop of `Create` fills are `Slot`s.
pub mod Requested
pub mod Create
pub mod Legacy
pub mod Views
use chromedriver.Base.{
  String, Bool, true, false, Option, none, some, List, [], ◌∷◌, ◌<>◌, ◌==◌, if◌then◌else◌, is_some,
}
use chromedriver.Status.{Status, StatusCode, ok, invalid_argument, status, status_details, is_error}
use chromedriver.Result.{Result, done, fail}
use chromedriver.Values.{Values}

pub data PromptHandlerType : Type 0 where
  accept dismiss ignore : PromptHandlerType

pub record Configuration : Type 0 where
  pub type : PromptHandlerType
  pub notify : Bool

pub data Slot : Type 0 where
  alert before_unload confirm prompt : Slot

abbrev pub configuration : PromptHandlerType → Bool → Configuration
configuration t n = record { type = t; notify = n }

-- The names in `dialog_types`.
abbrev pub dialog_type : Slot → String
dialog_type alert = "alert"
dialog_type before_unload = "beforeUnload"
dialog_type confirm = "confirm"
dialog_type prompt = "prompt"

pub record PromptBehavior (V : Type 0) : Type 0 where
  pub original_capability_value : V
  pub alert_handler : Configuration
  pub before_unload_handler : Configuration
  pub confirm_handler : Configuration
  pub prompt_handler : Configuration

abbrev pub handler : {V : Type 0} → PromptBehavior V → Slot → Configuration
handler b alert = b.alert_handler
handler b before_unload = b.before_unload_handler
handler b confirm = b.confirm_handler
handler b prompt = b.prompt_handler

-- A write through the reference in `prompt_types_to_fill`.
abbrev pub set_handler : {V : Type 0} → PromptBehavior V → Slot → Configuration → PromptBehavior V
set_handler b alert c = record b { alert_handler = c }
set_handler b before_unload c = record b { before_unload_handler = c }
set_handler b confirm c = record b { confirm_handler = c }
set_handler b prompt c = record b { prompt_handler = c }

-- prompt_behavior_to_configuration_map
abbrev pub word_configuration : String → Option Configuration
word_configuration s =
    if s == "dismiss"
    then some (configuration dismiss false)
    else if s == "dismiss and notify"
    then some (configuration dismiss true)
    else if s == "accept"
    then some (configuration accept false)
    else if s == "accept and notify"
    then some (configuration accept true)
    else if s == "ignore"
    then some (configuration ignore true)
    else none

-- In legacy mode every configuration that is read notifies.
abbrev pub with_compliance : Bool → Configuration → Configuration
with_compliance true c = c
with_compliance false c = record c { notify = true }

abbrev pub unexpected_value : String → Status
unexpected_value s =
    status_details invalid_argument ("Unexpected value " <> s <> " in capabilities")

abbrev pub unexpected_type : Status
unexpected_type = status_details invalid_argument "Unexpected type value in capabilities"

-- ParsePromptHandlerConfiguration of a string
unfoldable pub parse_word : String → Bool → Result Configuration
parse_word type_str w3c_compliant = elim (word_configuration type_str) [
  | none ↦ fail (unexpected_value type_str)
  | some c ↦ done (with_compliance w3c_compliant c)
]

-- prompt_handler_type_to_string
abbrev pub handler_type_word : PromptHandlerType → String
handler_type_word accept = "accept"
handler_type_word dismiss = "dismiss"
handler_type_word ignore = "ignore"

abbrev pub prompt_types_to_fill : List Slot
prompt_types_to_fill = alert ∷ before_unload ∷ confirm ∷ prompt ∷ []

module _ {V D : Type 0} (api : Values V D) where
  open api use {as_string, as_dict, of_string, of_dict, empty_dict, find, set}

  -- PromptBehavior(w3c_compliant)
  unfoldable pub default_behavior : Bool → PromptBehavior V
  default_behavior w3c_compliant =
      let default =
        if w3c_compliant then configuration dismiss true else configuration ignore true in
      record {
        original_capability_value =
            if w3c_compliant then of_string "dismiss and notify" else of_string "ignore";
        alert_handler = default;
        before_unload_handler = configuration accept false;
        confirm_handler = default;
        prompt_handler = default;
      }

  -- Create(w3c_compliant, result)
  unfoldable pub create_default : Bool → Status × PromptBehavior V
  create_default w3c_compliant = (status ok, default_behavior w3c_compliant)

  parse_string : Option String → Bool → Result Configuration
  parse_string none w3c_compliant = fail unexpected_type
  parse_string (some s) w3c_compliant = parse_word s w3c_compliant

  -- ParsePromptHandlerConfiguration of a value, which may be missing
  unfoldable pub parse_value : Option V → Bool → Result Configuration
  unfolding parse_string
  parse_value none w3c_compliant = parse_string none w3c_compliant
  parse_value (some v) w3c_compliant = parse_string (as_string v) w3c_compliant

  -- GetDefaultHandlerConfiguration
  unfoldable pub default_handler_configuration : String → D → Bool → Result Configuration
  default_handler_configuration type d w3c_compliant =
      if is_some (find d "default")
      then parse_value (find d "default") w3c_compliant
      else if type == "beforeUnload"
      then done (configuration accept false)
      else done (configuration (if w3c_compliant then dismiss else ignore) true)

  -- FillInHandlerConfiguration
  unfoldable pub fill_in_handler_configuration : String → D → Bool → Result Configuration
  unfolding default_handler_configuration
  fill_in_handler_configuration type d w3c_compliant =
      if is_some (find d type)
      then parse_value (find d type) w3c_compliant
      else default_handler_configuration type d w3c_compliant

  -- Create(w3c_compliant, string, result)
  unfoldable pub create_string : Bool → String → Status × PromptBehavior V
  create_string w3c_compliant s =
      let result = default_behavior w3c_compliant in
      elim (parse_word s w3c_compliant) [
        | fail e ↦ (e, result)
        | done c ↦ (
          status ok,
          record result {
            alert_handler = c;
            confirm_handler = c;
            prompt_handler = c;
            before_unload_handler = configuration accept false;
          },
        )
      ]

  -- The loop of Create(w3c_compliant, dict, result).
  unfoldable pub fill : Bool → D → List Slot → PromptBehavior V → Status × PromptBehavior V
  fill w3c_compliant d [] result = (status ok, result)
  fill w3c_compliant d (s ∷ rest) result =
      elim (fill_in_handler_configuration (dialog_type s) d w3c_compliant) [
        | fail e ↦ (e, result)
        | done c ↦ fill w3c_compliant d rest (set_handler result s c)
      ]

  unfoldable pub create_dict : Bool → D → Status × PromptBehavior V
  create_dict w3c_compliant d =
      fill w3c_compliant d prompt_types_to_fill (default_behavior w3c_compliant)

  -- The tail of Create(w3c_compliant, value, result): the value is kept only after success.
  abbrev pub keep_original : V → Status × PromptBehavior V → Status × PromptBehavior V
  keep_original v (e, result) =
      if is_error e
      then (e, result)
      else (status ok, record result { original_capability_value = v })

  -- Create(w3c_compliant, value, result); `result` comes in and goes out.
  unfoldable pub create : Bool → V → PromptBehavior V → Status × PromptBehavior V
  create w3c_compliant v result = elim (as_string v) [
    | some s ↦ keep_original v (create_string w3c_compliant s)
    | none ↦ elim (as_dict v) [
      | some d ↦ keep_original v (create_dict w3c_compliant d)
      | none ↦ (
        status_details invalid_argument
            "Capability `unhandledPromptBehavior` should be a string or a dictionary.",
        result,
      )
    ]
  ]

  -- GetConfiguration
  unfoldable pub get_configuration : PromptBehavior V → String → Result Configuration
  get_configuration b type =
      if type == "alert"
      then done b.alert_handler
      else if type == "beforeUnload"
      then done b.before_unload_handler
      else if type == "confirm"
      then done b.confirm_handler
      else if type == "prompt"
      then done b.prompt_handler
      else fail (status_details invalid_argument ("Unexpected dialog type " <> type))

  fill_options : List Slot → PromptBehavior V → D → D
  fill_options [] b d = d
  fill_options (s ∷ rest) b d =
      fill_options rest b (set d (dialog_type s) (of_string (handler_type_word (handler b s).type)))

  -- `result_dict` of MapperOptionsView
  unfoldable pub mapper_options : PromptBehavior V → D
  unfolding fill_options
  mapper_options b = fill_options prompt_types_to_fill b empty_dict

  -- MapperOptionsView
  unfoldable pub mapper_options_view : PromptBehavior V → V
  mapper_options_view b = of_dict (mapper_options b)

  -- CapabilityView
  unfoldable pub capability_view : PromptBehavior V → V
  capability_view b = b.original_capability_value
