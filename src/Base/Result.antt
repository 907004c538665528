-- ===== src/Base/Result.antt =====
-- A value or an error, for Go's `(T, error)`.
use mathlib.Core.Path.{◌≡◌, refl}
use mathlib.Core.Logic.{◌⊎◌, inl, inr}
use any_ns.Base.Texts.{Text}

pub data Result {ℓ} (A : Type ℓ) : Type ℓ where
  err : Text → Result A
  ok : A → Result A

module _ {ℓ} {A : Type ℓ} where
  pub ok-injective : {a b : A} → ok a ≡ ok b → a ≡ b
  ok-injective h = cc

  pub Result-cases : (r : Result A) → ((e : Text) × (r ≡ err e)) ⊎ ((a : A) × (r ≡ ok a))
  Result-cases (err e) = inl (e, refl)
  Result-cases (ok a) = inr (a, refl)

  module _ {κ} {B : Type κ} where
    infixl 5 ◌>>=◌
    abbrev pub ◌>>=◌ : Result A → (A → Result B) → Result B
    err e >>= next = err e
    ok a >>= next = next a

    -- Where a chain succeeds, its first part has a value, and the rest succeeds on that value.
    pub >>=-eq-ok :
        (first : Result A) (next : A → Result B) {b : B}
        → (first >>= next) ≡ ok b
        → (a : A) × (first ≡ ok a) × (next a ≡ ok b)
    >>=-eq-ok (err e) next succeeded = cc
    >>=-eq-ok (ok a) next succeeded = (a, refl, succeeded)
