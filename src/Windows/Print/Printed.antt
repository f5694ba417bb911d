-- ===== src/Windows/Print/Printed.antt =====
-- What is printed for the parameters of a print.
use mathlib.Core.Path.{subst}
use chromedriver.Base.{
  String, ◌≡◌, refl, true, false, ◌||◌, Option, none, some, List, ◌==◌, ltb, ℤ, ℕ, arith,
  Bool-cases,
}
use chromedriver.Values.{Values}
use chromedriver.Result.{done, bind_elim, done-inj}
use chromedriver.Windows.Cookies.{get_optional}
use chromedriver.Windows.Print.{
  Lengths, Page, Margin, Print, inches, orientation_of, scale_of, length_of, page_of, margin_of,
  parse_orientation, parse_scale, parse_boolean, non_negative_double, parse_page, parse_margin,
  parse_page_ranges, parse_print,
}

module _ {V D E : Type 0} (api : Values V D) (as_list : V → Option (List V))
    (number_to_string : ℤ → String) (lengths : Lengths V E) where
  open lengths use {less, divide, literal}

  -- Literals are ordered as their hundredths, and no quotient of two of them is negative.
  pub record LengthLaws : Type 0 where
    pub ordered : (m n : ℕ) → less (literal m) (literal n) ≡ ltb m n
    pub quotient : (m n : ℕ) → less (divide (literal m) (literal n)) (literal 0) ≡ false

  -- The length is a number of centimeters in inches, of which there are 2.54 centimeters in one, and
  -- it is not negative.
  abbrev pub IsLength : E → Type 0
  IsLength e = (cm : E) × (e ≡ divide cm (literal 254)) × (less e (literal 0) ≡ false)

  abbrev pub IsPage : Page E → Type 0
  IsPage p = IsLength p.width × IsLength p.height

  abbrev pub IsMargin : Margin E → Type 0
  IsMargin m = IsLength m.top × IsLength m.bottom × IsLength m.left × IsLength m.right

  -- The scale is between 0.1 and 2.
  abbrev pub IsPrint : Print E → Type 0
  IsPrint p =
      ((p.orientation == "portrait" || p.orientation == "landscape") ≡ true)
      × (less p.scale (literal 10) ≡ false)
      × (less (literal 200) p.scale ≡ false)
      × IsPage p.page
      × IsMargin p.margin

  orientation_of-is_known :
      (o : Option (Option String)) (s : String)
      → orientation_of api as_list number_to_string lengths o ≡ done s
      → (s == "portrait" || s == "landscape") ≡ true
  orientation_of-is_known none s h = absurd (ground (arith, h))
  orientation_of-is_known (some none) s h =
      subst (λ (t : String). (t == "portrait" || t == "landscape") ≡ true) (done-inj h) refl
  orientation_of-is_known (some (some o)) s h =
      ground (arith, h, Bool-cases (o == "portrait" || o == "landscape"))

  length_of-IsLength :
      (name : String) (default : E) (o : Option (Option E)) (e : E)
      → IsLength default
      → length_of api as_list number_to_string lengths name default o ≡ done e
      → IsLength e
  unfolding inches
  length_of-IsLength name default none e n h = absurd (ground (arith, h))
  length_of-IsLength name default (some none) e n h = subst IsLength (done-inj h) n
  length_of-IsLength name default (some (some a)) e n h =
      let i : E = divide a (literal 254) in
      (
        a,
        ground (arith, h, Bool-cases (less i (literal 0))),
        ground (arith, h, Bool-cases (less i (literal 0))),
      )

  double-IsLength :
      (d : D) (parent child : String) (default e : E)
      → IsLength default
      → non_negative_double api as_list number_to_string lengths d parent child default ≡ done e
      → IsLength e
  unfolding non_negative_double
  double-IsLength d parent child default e n h =
      length_of-IsLength _ default (get_optional api lengths.as_double d child) e n h

  module _ (laws : LengthLaws) where
    literal-IsLength : (n : ℕ) → IsLength (inches api as_list number_to_string lengths (literal n))
    unfolding inches
    literal-IsLength n = (literal n, refl, laws.quotient n 254)

    scale_of-bounded :
        (o : Option (Option E)) (e : E)
        → scale_of api as_list number_to_string lengths o ≡ done e
        → (less e (literal 10) ≡ false) × (less (literal 200) e ≡ false)
    scale_of-bounded none e h = absurd (ground (arith, h))
    scale_of-bounded (some none) e h =
        subst (λ (x : E). (less x (literal 10) ≡ false) × (less (literal 200) x ≡ false))
          (done-inj h) (laws.ordered 100 10, laws.ordered 200 100)
    scale_of-bounded (some (some s)) e h =
        ground (arith, h, Bool-cases (less s (literal 10)), Bool-cases (less (literal 200) s))

    page_of-IsPage :
        (o : Option (Option D)) (p : Page E)
        → page_of api as_list number_to_string lengths o ≡ done p
        → IsPage p
    page_of-IsPage none p h = absurd (ground (arith, h))
    page_of-IsPage (some none) p h =
        subst IsPage (done-inj h) (literal-IsLength 2159, literal-IsLength 2794)
    page_of-IsPage (some (some d)) p h =
        bind_elim
          (non_negative_double api as_list number_to_string lengths d "page" "width"
            (inches api as_list number_to_string lengths (literal 2159)))
          h
          λ w e1 h1.
            bind_elim
              (non_negative_double api as_list number_to_string lengths d "page" "height"
                (inches api as_list number_to_string lengths (literal 2794)))
              h1
              λ k e2 h2. subst IsPage (done-inj h2) (
                double-IsLength d "page" "width"
                    (inches api as_list number_to_string lengths (literal 2159)) w
                    (literal-IsLength 2159) e1,
                double-IsLength d "page" "height"
                    (inches api as_list number_to_string lengths (literal 2794)) k
                    (literal-IsLength 2794) e2,
              )

    margin_of-IsMargin :
        (o : Option (Option D)) (m : Margin E)
        → margin_of api as_list number_to_string lengths o ≡ done m
        → IsMargin m
    margin_of-IsMargin none m h = absurd (ground (arith, h))
    margin_of-IsMargin (some none) m h =
        let l = (literal-IsLength 100) in subst IsMargin (done-inj h) (l, l, l, l)
    margin_of-IsMargin (some (some d)) m h =
        let side = λ (child : String).
          non_negative_double api as_list number_to_string lengths d "margin" child
            (inches api as_list number_to_string lengths (literal 100)) in
        let good = λ (child : String) (e : E) (q : side child ≡ done e).
          double-IsLength d "margin" child
            (inches api as_list number_to_string lengths (literal 100)) e (literal-IsLength 100)
            q in
        bind_elim (side "top") h λ t e1 h1. bind_elim (side "bottom") h1 λ b e2 h2.
          bind_elim (side "left") h2 λ l e3 h3. bind_elim (side "right") h3 λ r e4 h4.
            subst IsMargin (done-inj h4)
              (good "top" t e1, good "bottom" b e2, good "left" l e3, good "right" r e4)

    -- Parameters of a print that are accepted have a known orientation, a scale that is neither
    -- less than 0.1 nor more than 2, and lengths that are centimeters divided by 2.54 and not
    -- negative.
    pub parse_print-IsPrint :
        (params : D) (p : Print E)
        → parse_print api as_list number_to_string lengths params ≡ done p
        → IsPrint p
    unfolding parse_print parse_orientation parse_scale parse_page parse_margin
    parse_print-IsPrint params p h =
        bind_elim (parse_orientation api as_list number_to_string lengths params) h
          λ orientation e1 h1.
            bind_elim (parse_scale api as_list number_to_string lengths params) h1 λ scale e2 h2.
              bind_elim
                (parse_boolean api as_list number_to_string lengths params "background" false) h2
                λ background e3 h3.
                  bind_elim (parse_page api as_list number_to_string lengths params) h3
                    λ page e4 h4.
                      bind_elim (parse_margin api as_list number_to_string lengths params) h4
                        λ margin e5 h5.
                          bind_elim
                            (parse_boolean api as_list number_to_string lengths params "shrinkToFit"
                              true)
                            h5
                            λ shrink e6 h6.
                              bind_elim
                                (parse_page_ranges api as_list number_to_string lengths params) h6
                                λ ranges e7 h7. subst IsPrint (done-inj h7) (
                                  orientation_of-is_known
                                      (get_optional api api.as_string params "orientation")
                                      orientation e1,
                                  (scale_of-bounded
                                      (get_optional api lengths.as_double params "scale") scale
                                      e2).0,
                                  (scale_of-bounded
                                      (get_optional api lengths.as_double params "scale") scale
                                      e2).1,
                                  page_of-IsPage (get_optional api api.as_dict params "page") page
                                      e4,
                                  margin_of-IsMargin (get_optional api api.as_dict params "margin")
                                      margin e5,
                                )
