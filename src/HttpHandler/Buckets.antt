-- ===== src/HttpHandler/Buckets.antt =====
-- The lists of connections of the sessions.
use chromedriver.Base.{
  ℕ, ◌≡◌, ◌≢◌, refl, true, false, List, [], ◌∷◌, ◌++◌, eqb, if◌then◌else◌, arith, some,
}
use chromedriver.HttpHandler.Connections.{mem, remove_first}

abbrev pub IsDistinct : List ℕ → Type 0
IsDistinct [] = Unit {0}
IsDistinct (c ∷ b) = (mem c b ≡ false) × IsDistinct b

pub mem-concat : (c d : ℕ) (b : List ℕ) → mem c (b ++ d ∷ []) ≡ (if eqb d c then true else mem c b)
mem-concat c d [] = refl
mem-concat c d (x ∷ b) = ground (arith, mem-concat c d b)

pub mem-remove_first_self : (c : ℕ) (b : List ℕ) → IsDistinct b → mem c (remove_first c b) ≡ false
mem-remove_first_self c [] h = refl
mem-remove_first_self c (d ∷ b) (n, h) = ground (arith, mem-remove_first_self c b h)

pub mem-remove_first_ne : (c d : ℕ) (b : List ℕ) → c ≢ d → mem d (remove_first c b) ≡ mem d b
mem-remove_first_ne c d [] h = refl
mem-remove_first_ne c d (x ∷ b) h = ground (arith, mem-remove_first_ne c d b)

pub IsDistinct-concat :
    (c : ℕ) (b : List ℕ) → IsDistinct b → mem c b ≡ false → IsDistinct (b ++ c ∷ [])
IsDistinct-concat c [] h n = (refl, tt)
IsDistinct-concat c (x ∷ b) (k, h) n =
    (ground (arith, mem-concat x c b), IsDistinct-concat c b h (ground arith))

pub IsDistinct-remove_first : (c : ℕ) (b : List ℕ) → IsDistinct b → IsDistinct (remove_first c b)
IsDistinct-remove_first c [] h = tt
IsDistinct-remove_first c (x ∷ b) (k, h) =
    ground (arith, IsDistinct-remove_first c b h, mem-remove_first_ne c x b)

pub IsDistinct-of_some : (b b' : List ℕ) → some b ≡ some b' → IsDistinct b → IsDistinct b'
IsDistinct-of_some b b' e k = rw (← b≡b') k
  where
    b≡b' : b ≡ b'
    b≡b' = ground arith
