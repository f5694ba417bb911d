-- ===== src/Dictionary.antt =====
-- std::map and std::unordered_map with the operations that the code uses, as association lists.
-- The laws say what a lookup sees, so nothing depends on the order of the entries.
use mathlib.Core.Bool.{not}
use chromedriver.Base.{
  ℕ, String, ◌≡◌, ◌≢◌, ◌↔◌, refl, Bool, true, false, Option, none, some, List, [], ◌∷◌, arith,
  if◌then◌else◌, is_some, eqb, ◌&&◌, eqb_iff, eq_iff, ◌==◌,
}

pub record Eq {ℓ} (K : Type ℓ) : Type ℓ where
  pub beq : K → K → Bool
  pub beq_iff : (a b : K) → (beq a b ≡ true) ↔ (a ≡ b)

instance abbrev pub nat_eq : Eq ℕ
nat_eq = record { beq = eqb; beq_iff = eqb_iff }

instance abbrev pub string_eq : Eq String
string_eq = record { beq = ◌==◌; beq_iff = eq_iff }

module _ {K : Type 0} ⦃e : Eq K⦄ where
  pub beq_refl : (k : K) → e.beq k k ≡ true
  beq_refl k = (e.beq_iff k k).1 refl

  pub beq_ne : (j k : K) → j ≢ k → e.beq j k ≡ false
  beq_ne j k h = ground (arith, e.beq_iff j k)

module _ {K V : Type 0} ⦃e : Eq K⦄ where
  -- find(k), with its iterator's value
  unfoldable pub lookup : K → List (K × V) → Option V
  lookup k [] = none
  lookup k ((j, v) ∷ m) = if e.beq j k then some v else lookup k m

  abbrev pub contains : K → List (K × V) → Bool
  contains k m = is_some (lookup k m)

  -- m[k] = v, insert_or_assign(k, v)
  unfoldable pub assign : K → V → List (K × V) → List (K × V)
  assign k v [] = (k, v) ∷ []
  assign k v ((j, w) ∷ m) = if e.beq j k then (j, v) ∷ m else (j, w) ∷ assign k v m

  -- m[k] = v in a std::map, which keeps its entries in the order `before` of the keys
  unfoldable pub put : (K → K → Bool) → K → V → List (K × V) → List (K × V)
  put before k v [] = (k, v) ∷ []
  put before k v ((j, w) ∷ m) =
      if e.beq j k
      then (j, v) ∷ m
      else if before k j
      then (k, v) ∷ (j, w) ∷ m
      else (j, w) ∷ put before k v m

  -- insert({k, v}), emplace(k, v): an entry that is there stays.
  unfoldable pub insert : K → V → List (K × V) → List (K × V)
  insert k v m = elim (lookup k m) [ none ↦ (k, v) ∷ m | some w ↦ m ]

  -- erase(k)
  unfoldable pub erase : K → List (K × V) → List (K × V)
  erase k [] = []
  erase k ((j, v) ∷ m) = let rest = erase k m in if e.beq j k then rest else (j, v) ∷ rest

  pub lookup-assign :
      (k j : K) (v : V) (m : List (K × V))
      → lookup j (assign k v m) ≡ (if e.beq k j then some v else lookup j m)
  unfolding lookup assign
  lookup-assign k j v [] = refl
  lookup-assign k j v ((i, w) ∷ m) =
      ground (arith, e.beq_iff k j, e.beq_iff i k, e.beq_iff i j, lookup-assign k j v m)

  pub lookup-put :
      (before : K → K → Bool) (k j : K) (v : V) (m : List (K × V))
      → lookup j (put before k v m) ≡ (if e.beq k j then some v else lookup j m)
  unfolding lookup put
  lookup-put before k j v [] = refl
  lookup-put before k j v ((i, w) ∷ m) =
      ground (arith, e.beq_iff k j, e.beq_iff i k, e.beq_iff i j, lookup-put before k j v m)

  pub lookup-insert :
      (k j : K) (v : V) (m : List (K × V))
      → lookup j (insert k v m) ≡ (if e.beq k j && not (contains k m) then some v else lookup j m)
  unfolding lookup insert
  lookup-insert k j v m = ground arith

  pub lookup-erase :
      (k j : K) (m : List (K × V)) → lookup j (erase k m) ≡ (if e.beq k j then none else lookup j m)
  unfolding lookup erase
  lookup-erase k j [] = ground arith
  lookup-erase k j ((i, w) ∷ m) =
      ground (arith, e.beq_iff k j, e.beq_iff i k, e.beq_iff i j, lookup-erase k j m)

pub ruleset dictionary_laws = (lookup-assign, lookup-insert, lookup-erase, beq_refl)

module _ {K V : Type 0} ⦃e : Eq K⦄ where
  pub contains-assign_self : (k : K) (v : V) (m : List (K × V)) → contains k (assign k v m) ≡ true
  contains-assign_self k v m = ground (arith, lookup-assign k k v m, beq_refl k)

  pub contains-assign :
      (j k : K) (v : V) (m : List (K × V)) → contains k m ≡ true → contains k (assign j v m) ≡ true
  contains-assign j k v m h = ground (arith, lookup-assign j k v m)

  pub contains-insert_self : (k : K) (v : V) (m : List (K × V)) → contains k (insert k v m) ≡ true
  contains-insert_self k v m = ground (arith, lookup-insert k k v m, beq_refl k)

  pub contains-erase :
      (j k : K) (m : List (K × V))
      → e.beq j k ≡ false
      → contains k m ≡ true
      → contains k (erase j m) ≡ true
  contains-erase j k m ne h = ground (arith, lookup-erase j k m)
