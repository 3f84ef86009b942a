-- ===== src/Prelude/Results.antt =====
-- The result of code that may throw.
use mathlib.Core.Path.{◌≡◌, refl}
use mathlib.Core.Logic.{◌⊎◌, inl, inr}

pub data Result {ℓ κ} (E : Type κ) (A : Type ℓ) : Type (ℓ ⊔ κ) where
  err : E → Result E A
  ok : A → Result E A

infixl 5 ◌>>=◌
abbrev pub ◌>>=◌ {ℓ κ μ} :
    {E : Type κ} {A : Type ℓ} {B : Type μ} → Result E A → (A → Result E B) → Result E B
err thrown >>= next = err thrown
ok value >>= next = next value

module _ {ℓ κ μ} {E : Type κ} {A : Type ℓ} {B : Type μ} where
  -- What ran before a result that was returned.
  pub >>=-eq-ok :
      (run : Result E A) (next : A → Result E B) {out : B}
      → (run >>= next) ≡ ok out
      → (value : A) × (run ≡ ok value) × (next value ≡ ok out)
  >>=-eq-ok (err thrown) next h = cc
  >>=-eq-ok (ok value) next h = (value, refl, h)

  pub >>=-ok :
      (run : Result E A) (next : A → Result E B) {value : A} {out : B}
      → run ≡ ok value
      → next value ≡ ok out
      → (run >>= next) ≡ ok out
  >>=-ok run next h k = rw h k

module _ {ℓ κ} {E : Type κ} {A : Type ℓ} where
  pub Result-cases :
      (run : Result E A) → ((thrown : E) × (run ≡ err thrown)) ⊎ ((value : A) × (run ≡ ok value))
  Result-cases (err thrown) = inl (thrown, refl)
  Result-cases (ok value) = inr (value, refl)
