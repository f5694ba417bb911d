-- ===== src/Examples/Json.antt =====
-- JSON values that meet the laws of `Values`.
use chromedriver.Base.{
  ℤ, String, refl, Bool, Option, none, some, if◌then◌else◌, ◌==◌, ◌≡◌, eq_iff, arith,
}
use chromedriver.Values.{Values, ValueLaws}

mutual
  pub data Json : Type 0 where
    null : Json
    bool : Bool → Json
    int : ℤ → Json
    string : String → Json
    dict : Dict → Json
    list : Elements → Json

  pub data Dict : Type 0 where
    nil : Dict
    entry : String → Json → Dict → Dict

  pub data Elements : Type 0 where
    no_elements : Elements
    element : Json → Elements → Elements

unfoldable pub find : Dict → String → Option Json
find nil k = none
find (entry j v d) k = if j == k then some v else find d k

unfoldable pub remove : Dict → String → Dict
remove nil k = nil
remove (entry j v d) k = let rest = remove d k in if j == k then rest else entry j v rest

find-remove : (d : Dict) (j k : String) → find (remove d j) k ≡ (if j == k then none else find d k)
unfolding find remove
find-remove nil j k = ground arith
find-remove (entry i v d) j k =
    ground (arith, eq_iff i j, eq_iff i k, eq_iff j k, find-remove d j k)

abbrev as_string : Json → Option String
as_string (string s) = some s
as_string _ = none

abbrev as_dict : Json → Option Dict
as_dict (dict d) = some d
as_dict _ = none

abbrev as_bool : Json → Option Bool
as_bool (bool b) = some b
as_bool _ = none

abbrev as_int : Json → Option ℤ
as_int (int i) = some i
as_int _ = none

abbrev pub json : Values Json Dict
json = record {
  as_string = as_string;
  as_dict = as_dict;
  as_bool = as_bool;
  as_int = as_int;
  none_value = null;
  of_bool = bool;
  of_string = string;
  of_dict = dict;
  of_int = int;
  empty_dict = nil;
  find = find;
  set = λ d k v. entry k v d;
  remove = remove;
}

pub json_laws : ValueLaws json
unfolding find
json_laws = record {
  as_string-of_string = λ s. refl;
  as_dict-of_string = λ s. refl;
  as_string-of_dict = λ d. refl;
  as_int-of_int = λ i. refl;
  as_dict-of_dict = λ d. refl;
  find-empty_dict = λ k. refl;
  find-set = λ d j k v. refl;
  find-remove = find-remove;
}
