-- ===== src/HttpHandler/Text.antt =====
-- The operations of std::string that PrepareStandardResponse uses, on the characters of a text.
use Prim.Native.Char.{Char, code}
use text.Mathlib.TextLemmas.{nil-append, cons-append}
use chromedriver.Base.{
  ℕ, zero, suc, String, ◌≡◌, refl, ap, ◌∙◌, Option, none, some, List, [], ◌∷◌, ◌++◌, length, eqb,
  if◌then◌else◌, arith, ◌<>◌,
}

abbrev pub chars : String → List Char
chars String.[] = []
chars (String.◌∷◌ c s) = c ∷ chars s

abbrev pub of_chars : List Char → String
of_chars [] = ""
of_chars (c ∷ cs) = String.◌∷◌ c (of_chars cs)

-- find(c)
abbrev pub find_char : ℕ → List Char → Option ℕ
find_char c [] = none
find_char c (d ∷ s) =
    let rest = find_char c s in
    if eqb (code d) c then some 0 else elim rest [ none ↦ none | some i ↦ some (suc i) ]

-- find_last_of(c)
abbrev pub find_last_char : ℕ → List Char → Option ℕ
find_last_char c [] = none
find_last_char c (d ∷ s) = elim (find_last_char c s) [
  | some i ↦ some (suc i)
  | none ↦ if eqb (code d) c then some 0 else none
]

abbrev pub take {ℓ} : {A : Type ℓ} → ℕ → List A → List A
take zero xs = []
take (suc n) [] = []
take (suc n) (x ∷ xs) = x ∷ take n xs

-- substr(n)
abbrev pub drop {ℓ} : {A : Type ℓ} → ℕ → List A → List A
drop zero xs = xs
drop (suc n) [] = []
drop (suc n) (x ∷ xs) = drop n xs

pub of_chars-chars : (s : String) → of_chars (chars s) ≡ s
of_chars-chars String.[] = refl
of_chars-chars (String.◌∷◌ c s) = ap (String.◌∷◌ c) (of_chars-chars s)

pub chars-append : (s t : String) → chars (s <> t) ≡ chars s ++ chars t
chars-append String.[] t = ap chars (nil-append t)
chars-append (String.◌∷◌ c s) t = ap chars (cons-append c s t) ∙ ap (◌∷◌ c) (chars-append s t)

-- The last occurrence of a character that ends a text.
pub find_last_char-concat :
    (d : Char) (s : List Char) → find_last_char (code d) (s ++ d ∷ []) ≡ some (length s)
find_last_char-concat d [] = ground arith
find_last_char-concat d (c ∷ s) = rw (find_last_char-concat d s)

pub take-length-append {ℓ} : {A : Type ℓ} (s t : List A) → take (length s) (s ++ t) ≡ s
take-length-append [] t = refl
take-length-append (c ∷ s) t = ap (◌∷◌ c) (take-length-append s t)
