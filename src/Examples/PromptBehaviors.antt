-- ===== src/Examples/PromptBehaviors.antt =====
-- The capability `unhandledPromptBehavior` at concrete values.
use chromedriver.Base.{◌≡◌, refl, true, false}
use chromedriver.Result.{done}
use chromedriver.PromptBehavior.{
  PromptBehavior, Configuration, configuration, Slot, prompt, ignore, dialog_type, handler, create,
  get_configuration, capability_view, create_dict, create_string, fill, parse_word, parse_value,
  fill_in_handler_configuration,
}
use chromedriver.PromptBehavior.Requested.{Requested}
use chromedriver.PromptBehavior.Create.{create-Requested}
use chromedriver.Examples.Json.{Json, Dict, null, string, dict, nil, entry, find, json}

abbrev accept_all : Dict
accept_all = entry "default" (string "accept") (entry "alert" (string "dismiss and notify") nil)

abbrev start : PromptBehavior Json
start = record {
  original_capability_value = null;
  alert_handler = configuration ignore true;
  before_unload_handler = configuration ignore true;
  confirm_handler = configuration ignore true;
  prompt_handler = configuration ignore true;
}

create-Requested_example :
    (capability_view json (create json true (dict accept_all) start).1 ≡ dict accept_all)
    × ((s : Slot)
        → (c : Configuration) × (get_configuration json
              (create json true (dict accept_all) start).1
              (dialog_type s)
            ≡ done c)
          × Requested json true accept_all s c)
unfolding create create_dict fill fill_in_handler_configuration parse_value parse_word find
create-Requested_example =
    create-Requested json true (dict accept_all) start accept_all refl refl refl

notify_not_kept : (handler (create json true (string "accept") start).1 prompt).notify ≡ false
unfolding create create_string parse_word
notify_not_kept = refl
