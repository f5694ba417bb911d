-- ===== src/Capabilities.antt =====
-- The processing of the capabilities of a new session: GetW3CSetting, MergeCapabilities,
-- MatchCapabilities and ProcessCapabilities of session_commands.cc, and GetChromeOptionsDictionary
-- of capabilities.cc. `parse` is the status of Capabilities::Parse, and `print` writes the number
-- of an entry.
pub mod Merged
pub mod Keys
use Prim.Native.String.{slice}
use chromedriver.Base.{
  ℕ, zero, suc, String, Bool, true, false, not, ◌&&◌, ◌||◌, Option, none, some, List, [], ◌∷◌, ◌<>◌,
  ◌==◌, if◌then◌else◌, is_some, find?, ◌≡◌,
}
use chromedriver.Values.{Values, find_string, find_dict, find_bool}
use chromedriver.Result.{Result, done, fail, ◌>>=◌}
use chromedriver.Status.{
  Status, status, status_details, status_details_cause, is_error, invalid_argument,
  session_not_created,
}
use chromedriver.Dispatch.{w3c_default}

-- Lists, keys and the merge of dictionaries of //base: `GetIfList()`, `is_none()`, the keys in the
-- order of the iterator, and `Dict::Merge`
pub record Lists (V D : Type 0) : Type 0 where
  pub as_list : V → Option (List V)
  pub is_none : V → Bool
  pub keys : D → List String
  pub merge : D → D → D

-- The names that the build generates for the product, and the name of the operating system in lower
-- case
pub record Product : Type 0 where
  pub browser_name : String
  pub headless_shell_name : String
  pub options_key_prefixed : String
  pub options_key : String
  pub platform_name : String

-- The part before the first space
abbrev pub first_token : String → String
first_token s = elim (find? s " ") [ none ↦ s | some k ↦ slice s 0 k ]

module _ {V D : Type 0} (api : Values V D) (product : Product) where
  open api use {as_string, as_dict, as_bool, of_dict, empty_dict, find}

  -- GetChromeOptionsDictionary
  unfoldable pub get_chrome_options : D → Option D
  get_chrome_options d = elim (find_dict api d product.options_key_prefixed) [
    | some o ↦ some o
    | none ↦ find_dict api d product.options_key
  ]

  abbrev w3c_of : Option D → Option Bool
  w3c_of none = none
  w3c_of (some d) = elim (get_chrome_options d) [ none ↦ none | some o ↦ find_bool api o "w3c" ]

  abbrev option_string : Option D → String → Bool
  option_string none key = false
  option_string (some o) key = is_some (find_string api o key)

  module _ (lists : Lists V D) where
    open lists use {as_list, is_none, keys, merge}

    abbrev first_dict : Option V → Option D
    first_dict none = none
    first_dict (some v) = elim (as_list v) [
      | none ↦ none
      | some l ↦ elim l [ [] ↦ none | w ∷ ws ↦ as_dict w ]
    ]

    abbrev or_else : Option Bool → Bool → Bool
    or_else none b = b
    or_else (some a) b = a

    -- GetW3CSetting
    unfoldable pub get_w3c_setting : D → Bool
    get_w3c_setting params =
        let capabilities = find_dict api params "capabilities" in
        let always : Option D = elim capabilities [
          | none ↦ none
          | some c ↦ find_dict api c "alwaysMatch"
        ] in
        let first : Option D = elim capabilities [
          | none ↦ none
          | some c ↦ first_dict (find c "firstMatch")
        ] in
        or_else (w3c_of always) (
          or_else (w3c_of first) (
            or_else (w3c_of (find_dict api params "desiredCapabilities")) (
              if not (is_some (find params "capabilities"))
                && is_some (find params "desiredCapabilities")
              then false
              else w3c_default)))

    abbrev pub collides : D → List String → Bool
    collides always [] = false
    collides always (k ∷ ks) = is_some (find always k) || collides always ks

    -- MergeCapabilities, where `none` is false
    unfoldable pub merge_capabilities : D → D → Option D
    merge_capabilities always first =
        if collides always (keys first) then none else some (merge always first)

    abbrev matches_name : Option V → Bool
    matches_name none = true
    matches_name (some v) = is_none v || (elim (as_string v) [
      | none ↦ false
      | some name ↦ name == product.browser_name || name == product.headless_shell_name
    ])

    abbrev is_known_system : String → Bool
    is_known_system token = token == "mac" || (token == "windows" || token == "linux")

    abbrev pub matches_requested : Bool → Bool → String → Bool
    matches_requested is_android is_remote requested =
        if requested == "any" || (is_remote || (is_android && requested == "android"))
        then true
        else if is_android && not (requested == "android")
        then false
        else if is_known_system (first_token requested)
        then first_token product.platform_name == first_token requested
        else requested == product.platform_name

    abbrev matches_platform : Bool → Bool → Option V → Bool
    matches_platform is_android is_remote none = true
    matches_platform is_android is_remote (some v) = is_none v || (elim (as_string v) [
      | none ↦ false
      | some requested ↦ matches_requested is_android is_remote requested
    ])

    -- A Boolean that must not be set on Android
    abbrev matches_authenticator : Bool → Option V → Bool
    matches_authenticator is_android none = true
    matches_authenticator is_android (some v) = elim (as_bool v) [
      | none ↦ false
      | some b ↦ not (b && is_android)
    ]

    abbrev matches_accounts : Option V → Bool
    matches_accounts none = true
    matches_accounts (some v) = elim (as_bool v) [ none ↦ false | some b ↦ b ]

    unfoldable pub match_capabilities : D → Bool
    match_capabilities d =
        let options = get_chrome_options d in
        let is_android = option_string options "androidPackage" in
        matches_name (find d "browserName")
        && (matches_platform is_android (option_string options "debuggerAddress")
              (find d "platformName")
            && (matches_authenticator is_android (find d "webauthn:virtualAuthenticators")
                && (matches_authenticator is_android (find d "webauthn:extension:largeBlob")
                    && matches_accounts (find d "fedcm:accounts"))))

    module _ (parse : D → Status) (print : ℕ → String) where
      abbrev checked : D → Result D
      checked d = if is_error (parse d) then fail (parse d) else done d

      abbrev pub required_of : Option V → Result D
      required_of none = done empty_dict
      required_of (some v) = elim (as_dict v) [
        | none ↦ fail (status_details invalid_argument "'alwaysMatch' must be a JSON object")
        | some d ↦ checked d
      ]

      -- Step 2
      unfoldable pub required_capabilities : D → Result D
      required_capabilities request = required_of (find request "alwaysMatch")

      abbrev nonempty : List V → Result (List V)
      nonempty [] =
          fail (status_details invalid_argument "'firstMatch' must contain at least one entry")
      nonempty (v ∷ vs) = done (v ∷ vs)

      abbrev pub entries_of : Option V → Result (List V)
      entries_of none = done (of_dict empty_dict ∷ [])
      entries_of (some v) = elim (as_list v) [
        | none ↦ fail (status_details invalid_argument "'firstMatch' must be a JSON list")
        | some l ↦ nonempty l
      ]

      -- Step 3
      unfoldable pub all_first_match : D → Result (List V)
      all_first_match request = entries_of (find request "firstMatch")

      abbrev pub validated : ℕ → V → Result D
      validated i v = elim (as_dict v) [
        | none ↦ fail (
            status_details invalid_argument
              ("entry " <> (print i <> " of 'firstMatch' must be a JSON object")))
        | some d ↦
            if is_error (parse d)
            then fail (
                status_details_cause invalid_argument
                  ("entry " <> (print i <> " of 'firstMatch' is invalid")) (parse d))
            else done d
      ]

      -- Steps 4 and 5, from the entry with this number on
      unfoldable pub validate : ℕ → List V → Result (List D)
      validate i [] = done []
      validate i (v ∷ vs) =
          let rest = validate (suc i) vs in validated i v >>= λ d. rest >>= λ ds. done (d ∷ ds)

      abbrev pub merged_entry : D → ℕ → D → Result D
      merged_entry required i d = elim (merge_capabilities required d) [
        | none ↦ fail (
            status_details invalid_argument
              ("unable to merge 'alwaysMatch' with entry " <> (print i <> " of 'firstMatch'")))
        | some m ↦ done m
      ]

      -- Steps 6 and 7
      unfoldable pub merge_all : D → ℕ → List D → Result (List D)
      merge_all required i [] = done []
      merge_all required i (d ∷ ds) =
          let rest = merge_all required (suc i) ds in
          merged_entry required i d >>= λ m. rest >>= λ ms. done (m ∷ ms)

      -- Steps 8 and 9
      unfoldable pub first_matching : List D → Result D
      first_matching [] = fail (status_details session_not_created "No matching capabilities found")
      first_matching (d ∷ ds) =
          let rest = first_matching ds in if match_capabilities d then done d else rest

      abbrev pub processed : D → Result D
      processed request = required_capabilities request >>= λ required.
          all_first_match request >>= λ entries.
          validate 0 entries >>= λ ds. merge_all required 0 ds >>= first_matching

      unfoldable pub process_capabilities : D → Result D
      process_capabilities params = elim (find_dict api params "capabilities") [
        | none ↦ fail (status_details invalid_argument "'capabilities' must be a JSON object")
        | some request ↦ processed request
      ]
