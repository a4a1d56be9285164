-- ===== src/Prelude/Fallible.antt =====
-- Go's `(T, error)`: a value or an error, and the chain of calls with early returns.
use mathlib.Core.Path.{◌≡◌, refl, ap, ◌∙◌}
use mathlib.Core.Logic.{◌⊎◌, inl, inr}

pub data Result {ℓ κ} (E : Type κ) (A : Type ℓ) : Type (ℓ ⊔ κ) where
  ok : A → Result E A
  err : E → Result E A

infixl 5 ◌>>=◌
abbrev pub ◌>>=◌ {ℓ κ μ} :
    {E : Type μ} {A : Type ℓ} {B : Type κ} → Result E A → (A → Result E B) → Result E B
ok a >>= f = f a
err e >>= f = err e

module _ {ℓ κ} {E : Type κ} {A : Type ℓ} where
  pub Result-cases : (r : Result E A) → ((a : A) × (r ≡ ok a)) ⊎ ((e : E) × (r ≡ err e))
  Result-cases (ok a) = inl (a, refl)
  Result-cases (err e) = inr (e, refl)

  ok_or : Result E A → A → A
  ok_or (ok a) d = a
  ok_or (err e) d = d

  pub ok-injective : {a b : A} → ◌≡◌ {A = Result E A} (ok a) (ok b) → a ≡ b
  unfolding ok_or
  ok-injective {a} e = ap (λ r. ok_or r a) e

-- A chain of two calls that succeeds: both succeed.
pub bind-ok :
    {E A B : Type 0} (r : Result E A) (f : A → Result E B) {b : B}
    → r >>= f ≡ ok b
    → (a : A) × ((r ≡ ok a) × (f a ≡ ok b))
bind-ok (ok a) f e = (a, (refl, e))
bind-ok (err x) f e = absurd (cc e)

-- An error that neither call gives is not given by the chain.
pub bind-avoids :
    {E A B : Type 0} (x : E) (r : Result E A) (f : A → Result E B)
    → ¬ (r ≡ err x)
    → ((a : A) → ¬ (f a ≡ err x))
    → ¬ (r >>= f ≡ err x)
bind-avoids x (ok a) f h k e = k a e
bind-avoids x (err y) f h k e = h (cc e)

-- A chain of two calls that succeed.
pub bind_of :
    {E A B : Type 0} {r : Result E A} (f : A → Result E B) {a : A} {b : B}
    → r ≡ ok a
    → f a ≡ ok b
    → r >>= f ≡ ok b
bind_of f e k = ap (λ r. r >>= f) e ∙ k

-- An error of a chain comes from the first call, if the second never gives it.
pub bind-err_first :
    {E A B : Type 0} (x : E) (r : Result E A) (f : A → Result E B)
    → ((a : A) → ¬ (f a ≡ err x))
    → r >>= f ≡ err x
    → r ≡ err x
bind-err_first x (ok a) f k e = absurd (k a e)
bind-err_first x (err y) f k e = cc e

-- It comes from the second, if the first never gives it.
pub bind-err_second :
    {E A B : Type 0} (x : E) (r : Result E A) (f : A → Result E B)
    → ¬ (r ≡ err x)
    → r >>= f ≡ err x
    → (a : A) × ((r ≡ ok a) × (f a ≡ err x))
bind-err_second x (ok a) f k e = (a, (refl, e))
bind-err_second x (err y) f k e = absurd (k (cc e))

module _ {E A B : Type 0} {r : Result E A} (f : A → Result E B) where
  pub bind-eq : {a : A} → r ≡ ok a → r >>= f ≡ f a
  bind-eq e = ap (λ r. r >>= f) e

  pub bind_err : {x : E} → r ≡ err x → r >>= f ≡ err x
  bind_err e = ap (λ r. r >>= f) e
