-- ===== src/Result.antt =====
-- A function that returns a `Status` and writes an output parameter only when the status is kOk.
use chromedriver.Base.{◌≡◌, refl, ◌⊎◌, inl, inr, ap, arith, Bool, true, false}
use chromedriver.Status.{Status}

pub data Result {ℓ} (A : Type ℓ) : Type ℓ where
  done : A → Result A
  fail : Status → Result A

infixl 5 ◌>>=◌
abbrev pub ◌>>=◌ {ℓ κ} : {A : Type ℓ} {B : Type κ} → Result A → (A → Result B) → Result B
done a >>= f = f a
fail s >>= f = fail s

abbrev pub is_done {ℓ} : {A : Type ℓ} → Result A → Bool
is_done (done a) = true
is_done (fail s) = false

pub Result-cases {ℓ} :
    {A : Type ℓ} (r : Result A) → ((a : A) × (r ≡ done a)) ⊎ ((s : Status) × (r ≡ fail s))
Result-cases (done a) = inl (a, refl)
Result-cases (fail s) = inr (s, refl)

pub done-inj {ℓ} : {A : Type ℓ} {a b : A} → done a ≡ done b → a ≡ b
done-inj {A = A} {a = a} h = ap (value a) h
  where
    value : A → Result A → A
    value a (done b) = b
    value a (fail s) = a

-- What is done twice was done once.
pub bind-done :
    {A B : Type 0} (r : Result A) (f : A → Result B) (b : B)
    → (r >>= f) ≡ done b
    → (a : A) × (r ≡ done a) × (f a ≡ done b)
bind-done (done a) f b h = (a, refl, h)
bind-done (fail e) f b h = absurd (ground (arith, h))

pub bind_elim :
    {A B P : Type 0} {f : A → Result B} {b : B} (r : Result A)
    → (r >>= f) ≡ done b
    → ((a : A) → r ≡ done a → f a ≡ done b → P)
    → P
bind_elim (done a) h k = k a refl h
bind_elim (fail e) h k = absurd (ground (arith, h))
