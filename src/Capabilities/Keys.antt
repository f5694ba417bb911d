-- ===== src/Capabilities/Keys.antt =====
-- What a merge of capabilities has under each key.
use chromedriver.Base.{
  String, ◌≡◌, Bool, true, false, ◌&&◌, ◌||◌, none, some, List, [], ◌∷◌, ◌==◌, if◌then◌else◌,
  is_some, arith, eq_iff, Option-cases,
}
use chromedriver.Values.{Values}
use chromedriver.Capabilities.{Lists, Product, merge_capabilities, collides}

abbrev pub has : String → List String → Bool
has k [] = false
has k (j ∷ js) = j == k || has k js

-- The documented behaviour of the iterator of a dictionary and of `Dict::Merge`, as far as no key
-- is in both
pub record ListLaws {V D : Type 0} (api : Values V D) (lists : Lists V D) : Type 0 where
  pub has-keys : (d : D) (k : String) → has k (lists.keys d) ≡ is_some (api.find d k)
  pub find-merge_right :
      (d e : D) (k : String) → api.find d k ≡ none → api.find (lists.merge d e) k ≡ api.find e k
  pub find-merge_left :
      (d e : D) (k : String) → api.find e k ≡ none → api.find (lists.merge d e) k ≡ api.find d k

module _ {V D : Type 0} (api : Values V D) (product : Product) (lists : Lists V D)
    (laws : ListLaws api lists) where
  open api use {find}

  collides-has :
      (always : D) (k : String) (ks : List String)
      → collides api product lists always ks ≡ false
      → has k ks ≡ true
      → find always k ≡ none
  collides-has always k [] h i = absurd (ground (arith, i))
  collides-has always k (j ∷ ks) h i =
      ground (arith, h, i, eq_iff j k, Option-cases (find always j), collides-has always k ks)

  -- Capabilities are merged only if no key is in both, and the merge has under every key what one of
  -- the two has there.
  pub merge_capabilities-find :
      (always first merged : D) (k : String)
      → merge_capabilities api product lists always first ≡ some merged
      → (find merged k ≡ (if is_some (find always k) then find always k else find first k))
        × ((is_some (find always k) && is_some (find first k)) ≡ false)
  unfolding merge_capabilities
  merge_capabilities-find always first merged k h = ground (
    arith,
    h,
    laws.has-keys first k,
    collides-has always k (lists.keys first),
    laws.find-merge_right always first k,
    laws.find-merge_left always first k,
    Option-cases (find always k),
    Option-cases (find first k),
  )
