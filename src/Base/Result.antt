-- ===== src/Base/Result.antt =====
-- A call of the host that succeeds or fails, with the failure that it reports.
use mathlib.Core.Logic.{◌⊎◌, inl, inr}
use mathlib.Core.Path.{◌≡◌, refl}

pub data Result {ℓ κ} (E : Type κ) (A : Type ℓ) : Type (ℓ ⊔ κ) where
  ok : A → Result E A
  err : E → Result E A

infixl 5 ◌>>=◌
abbrev pub ◌>>=◌ {ℓ} : {E A B : Type ℓ} → Result E A → (A → Result E B) → Result E B
ok a >>= f = f a
err e >>= f = err e

pub bind-eq-ok {ℓ} :
    {E A B : Type ℓ} (m : Result E A) (k : A → Result E B) {y : B}
    → (m >>= k) ≡ ok y
    → (x : A) × (m ≡ ok x) × (k x ≡ ok y)
bind-eq-ok (err e) k e' = cc
bind-eq-ok (ok x) k e' = (x, refl, e')

pub bind-eq-err {ℓ} :
    {E A B : Type ℓ} (m : Result E A) (k : A → Result E B) {e : E}
    → (m >>= k) ≡ err e
    → (m ≡ err e) ⊎ ((x : A) × (m ≡ ok x) × (k x ≡ err e))
bind-eq-err (err e') k e'' = inl cc
bind-eq-err (ok x) k e'' = inr (x, refl, e'')

pub Result-cases {ℓ κ} :
    {E : Type κ} {A : Type ℓ} (r : Result E A) → ((a : A) × (r ≡ ok a)) ⊎ ((e : E) × (r ≡ err e))
Result-cases (ok a) = inl (a, refl)
Result-cases (err e) = inr (e, refl)

pub ok-injective {ℓ κ} :
    {E : Type κ} {A : Type ℓ} {a b : A} → ◌≡◌ {A = Result E A} (ok a) (ok b) → a ≡ b
ok-injective h = cc
