-- ===== src/Windows/Print.antt =====
-- The parameters of ExecutePrint of window_commands.cc. `E` stands for double.
pub mod Printed
use chromedriver.Base.{
  String, Bool, true, false, not, ◌&&◌, ◌||◌, Option, none, some, List, [], ◌∷◌, ◌<>◌, ◌==◌,
  if◌then◌else◌, ℤ, pos, negsuc, ℕ,
}
use chromedriver.Values.{Values}
use chromedriver.Result.{Result, done, fail, ◌>>=◌}
use chromedriver.Windows.Cookies.{get_optional, invalid, or_default}

-- Doubles: their place in a value, the order, division, and the double of a literal, which is given
-- in hundredths
pub record Lengths (V E : Type 0) : Type 0 where
  pub as_double : V → Option E
  pub of_double : E → V
  pub less : E → E → Bool
  pub divide : E → E → E
  pub literal : ℕ → E

pub record Page (E : Type 0) : Type 0 where
  pub width : E
  pub height : E

pub record Margin (E : Type 0) : Type 0 where
  pub top : E
  pub bottom : E
  pub left : E
  pub right : E

pub record Print (E : Type 0) : Type 0 where
  pub orientation : String
  pub scale : E
  pub background : Bool
  pub page : Page E
  pub margin : Margin E
  pub shrink_to_fit : Bool
  pub page_ranges : String

-- base::JoinString with ","
unfoldable pub join : List String → String
join [] = ""
join (s ∷ ss) = let rest = join ss in elim ss [ [] ↦ s | _ ∷ _ ↦ s <> ("," <> rest) ]

module _ {V D E : Type 0} (api : Values V D) (as_list : V → Option (List V))
    (number_to_string : ℤ → String) (lengths : Lengths V E) where
  open api use {set, of_string, of_bool, empty_dict}
  open lengths use {as_double, of_double, less, divide, literal}

  -- ConvertCentimeterToInch
  unfoldable pub inches : E → E
  inches centimeter = divide centimeter (literal 254)

  abbrev pub orientation_of : Option (Option String) → Result String
  orientation_of none = fail (invalid "'orientation' must be a string")
  orientation_of (some none) = done "portrait"
  orientation_of (some (some o)) =
      if o == "portrait" || o == "landscape"
      then done o
      else fail (invalid "'orientation' must be 'portrait' or 'landscape'")

  unfoldable pub parse_orientation : D → Result String
  parse_orientation params = orientation_of (get_optional api api.as_string params "orientation")

  abbrev pub scale_of : Option (Option E) → Result E
  scale_of none = fail (invalid "'scale' must be a double")
  scale_of (some none) = done (literal 100)
  scale_of (some (some s)) =
      if less s (literal 10) || less (literal 200) s
      then fail (invalid "'scale' must not be < 0.1 or > 2")
      else done s

  unfoldable pub parse_scale : D → Result E
  parse_scale params = scale_of (get_optional api as_double params "scale")

  unfoldable pub parse_boolean : D → String → Bool → Result Bool
  parse_boolean params name default = elim (get_optional api api.as_bool params name) [
    | none ↦ fail (invalid ("'" <> (name <> "' must be a boolean")))
    | some o ↦ done (or_default default o)
  ]

  abbrev pub length_of : String → E → Option (Option E) → Result E
  length_of name default none = fail (invalid (name <> " must be a double"))
  length_of name default (some none) = done default
  length_of name default (some (some e)) =
      if less (inches e) (literal 0)
      then fail (invalid (name <> " must not be less than 0"))
      else done (inches e)

  -- GetNonNegativeDouble, with what is there before
  unfoldable pub non_negative_double : D → String → String → E → Result E
  non_negative_double d parent child default =
      length_of ("'" <> (parent <> ("." <> (child <> "'")))) default
        (get_optional api as_double d child)

  abbrev pub page_of : Option (Option D) → Result (Page E)
  page_of none = fail (invalid "'page' must be an object")
  page_of (some none) =
      done (record { width = inches (literal 2159); height = inches (literal 2794) })
  page_of (some (some d)) = non_negative_double d "page" "width" (inches (literal 2159)) >>= λ w.
      non_negative_double d "page" "height" (inches (literal 2794)) >>= λ h.
      done (record { width = w; height = h })

  unfoldable pub parse_page : D → Result (Page E)
  parse_page params = page_of (get_optional api api.as_dict params "page")

  abbrev pub margin_of : Option (Option D) → Result (Margin E)
  margin_of none = fail (invalid "'margin' must be an object")
  margin_of (some none) = done (record {
    top = inches (literal 100);
    bottom = inches (literal 100);
    left = inches (literal 100);
    right = inches (literal 100);
  })
  margin_of (some (some d)) = non_negative_double d "margin" "top" (inches (literal 100)) >>= λ t.
      non_negative_double d "margin" "bottom" (inches (literal 100)) >>= λ b.
      non_negative_double d "margin" "left" (inches (literal 100)) >>= λ l.
      non_negative_double d "margin" "right" (inches (literal 100)) >>= λ r.
      done (record { top = t; bottom = b; left = l; right = r })

  unfoldable pub parse_margin : D → Result (Margin E)
  parse_margin params = margin_of (get_optional api api.as_dict params "margin")

  abbrev range_of_int : ℤ → Result String
  range_of_int (negsuc n) = fail (invalid "a Number entry in 'pageRanges' must not be less than 0")
  range_of_int (pos n) = done (number_to_string (pos n))

  unfoldable pub page_range : V → Result String
  page_range v = elim (api.as_int v) [
    | some i ↦ range_of_int i
    | none ↦ elim (api.as_string v) [
      | some s ↦ done s
      | none ↦ fail (invalid "an entry in 'pageRanges' must be a Number or String")
    ]
  ]

  unfoldable pub page_range_list : List V → Result (List String)
  page_range_list [] = done []
  page_range_list (v ∷ vs) =
      let rest = page_range_list vs in page_range v >>= λ s. rest >>= λ ss. done (s ∷ ss)

  abbrev ranges_of : Option (Option (List V)) → Result String
  ranges_of none = fail (invalid "'pageRanges' must be an array")
  ranges_of (some none) = done ""
  ranges_of (some (some vs)) = page_range_list vs >>= λ ss. done (join ss)

  unfoldable pub parse_page_ranges : D → Result String
  parse_page_ranges params = ranges_of (get_optional api as_list params "pageRanges")

  unfoldable pub parse_print : D → Result (Print E)
  parse_print params = parse_orientation params >>= λ orientation. parse_scale params >>= λ scale.
      parse_boolean params "background" false >>= λ background. parse_page params >>= λ page.
      parse_margin params >>= λ margin. parse_boolean params "shrinkToFit" true >>= λ shrink_to_fit.
      parse_page_ranges params >>= λ page_ranges. done (record {
        orientation = orientation;
        scale = scale;
        background = background;
        page = page;
        margin = margin;
        shrink_to_fit = shrink_to_fit;
        page_ranges = page_ranges;
      })

  -- The parameters of PrintToPDF
  unfoldable pub print_params : Print E → D
  print_params p =
      let size =
        set
          (set
            (set
              (set (set empty_dict "landscape" (of_bool (p.orientation == "landscape"))) "scale"
                (of_double p.scale))
              "printBackground" (of_bool p.background))
            "paperWidth" (of_double p.page.width))
          "paperHeight" (of_double p.page.height) in
      let margins =
        set
          (set
            (set (set size "marginTop" (of_double p.margin.top)) "marginBottom"
              (of_double p.margin.bottom))
            "marginLeft" (of_double p.margin.left))
          "marginRight" (of_double p.margin.right) in
      set
        (set (set margins "preferCSSPageSize" (of_bool (not p.shrink_to_fit))) "pageRanges"
          (of_string p.page_ranges))
        "transferMode" (of_string "ReturnAsBase64")
