-- ===== src/Values.antt =====
-- What the code relies on of the JSON values of //base (`base::Value`, `base::Value::Dict`): the
-- operations are parameters of the model, and the laws are the documented behaviour of those
-- operations.
use chromedriver.Base.{arith, ℤ, String, ◌≡◌, Option, none, some, if◌then◌else◌, ◌==◌, Bool}

-- `V` stands for base::Value and `D` for base::Value::Dict.
pub record Values (V D : Type 0) : Type 0 where
  -- `GetIfString()` and `GetIfDict()`
  pub as_string : V → Option String
  pub as_dict : V → Option D
  -- `GetIfBool()`
  pub as_bool : V → Option Bool
  -- `GetIfInt()`
  pub as_int : V → Option ℤ
  -- the constructors of base::Value
  pub none_value : V
  pub of_bool : Bool → V
  pub of_string : String → V
  pub of_dict : D → V
  pub of_int : ℤ → V
  -- `Dict()`, `Dict::Find` and `Dict::Set`
  pub empty_dict : D
  pub find : D → String → Option V
  pub set : D → String → V → D
  -- `Dict::Remove`
  pub remove : D → String → D

pub record ValueLaws {V D : Type 0} (api : Values V D) : Type 0 where
  pub as_string-of_string : (s : String) → api.as_string (api.of_string s) ≡ some s
  pub as_dict-of_string : (s : String) → api.as_dict (api.of_string s) ≡ none
  pub as_string-of_dict : (d : D) → api.as_string (api.of_dict d) ≡ none
  pub as_int-of_int : (i : ℤ) → api.as_int (api.of_int i) ≡ some i
  pub as_dict-of_dict : (d : D) → api.as_dict (api.of_dict d) ≡ some d
  pub find-empty_dict : (k : String) → api.find api.empty_dict k ≡ none
  pub find-set :
      (d : D) (j k : String) (v : V)
      → api.find (api.set d j v) k ≡ (if j == k then some v else api.find d k)
  pub find-remove :
      (d : D) (j k : String) → api.find (api.remove d j) k ≡ (if j == k then none else api.find d k)

module _ {V D : Type 0} (api : Values V D) where
  open api use {as_string, as_dict, as_bool, as_int, find}

  -- `Dict::FindString`, `Dict::FindDict` and `Dict::FindBool`
  abbrev pub find_string : D → String → Option String
  find_string d k = elim (find d k) [ none ↦ none | some v ↦ as_string v ]

  abbrev pub find_dict : D → String → Option D
  find_dict d k = elim (find d k) [ none ↦ none | some v ↦ as_dict v ]

  abbrev pub find_bool : D → String → Option Bool
  find_bool d k = elim (find d k) [ none ↦ none | some v ↦ as_bool v ]

  -- `Dict::FindInt`
  abbrev pub find_int : D → String → Option ℤ
  find_int d k = elim (find d k) [ none ↦ none | some v ↦ as_int v ]

  -- `Dict::FindStringByDottedPath` with a path of two parts
  abbrev pub find_string_in : D → String → String → Option String
  find_string_in d j k = elim (find_dict d j) [ none ↦ none | some e ↦ find_string e k ]

-- What is found in a dictionary that was built by `set`, given the value that `find` answers.
module _ {V D : Type 0} {api : Values V D} (laws : ValueLaws api) where
  pub find_string-of :
      (d : D) (k t : String) → api.find d k ≡ some (api.of_string t) → find_string api d k ≡ some t
  find_string-of d k t h = ground (arith, h, laws.as_string-of_string t)

  pub find_dict-of :
      (d : D) (k : String) (e : D)
      → api.find d k ≡ some (api.of_dict e)
      → find_dict api d k ≡ some e
  find_dict-of d k e h = ground (arith, h, laws.as_dict-of_dict e)

  pub find_int-of :
      (d : D) (k : String) (i : ℤ) → api.find d k ≡ some (api.of_int i) → find_int api d k ≡ some i
  find_int-of d k i h = ground (arith, h, laws.as_int-of_int i)
