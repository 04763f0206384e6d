-- ===== src/Base/Results.antt =====
-- A Go result with an error: the error alone, or a value.
use mathlib.Core.Logic.{◌⊎◌, inl, inr}
use mathlib.Core.Option.{Option, none, some}
use mathlib.Core.Path.{◌≡◌, refl}

pub data Result {ℓ κ} (E : Type ℓ) (A : Type κ) : Type (ℓ ⊔ κ) where
  err : E → Result E A
  ok : A → Result E A

module _ {ℓ κ} {E : Type ℓ} {A : Type κ} where
  pub Result-cases :
      (result : Result E A) → ((v : A) × (result ≡ ok v)) ⊎ ((e : E) × (result ≡ err e))
  Result-cases (err e) = inr (e, refl)
  Result-cases (ok v) = inl (v, refl)

  abbrev pub of_option : Option A → E → Result E A
  of_option (some v) e = ok v
  of_option none e = err e

  pub of_option-eq-ok : (o : Option A) (e : E) {v : A} → of_option o e ≡ ok v → o ≡ some v
  of_option-eq-ok (some w) e returned = cc
  of_option-eq-ok none e returned = cc

  pub ok-injective : {v w : A} → ◌≡◌ {A = Result E A} (ok v) (ok w) → v ≡ w
  ok-injective same = cc

module _ {ℓ κ μ} {E : Type ℓ} {A : Type κ} {C : Type μ} where
  -- What Go code with `if err != nil { return err }` between two calls does.
  infixl 5 ◌>>=◌
  abbrev pub ◌>>=◌ : Result E A → (A → Result E C) → Result E C
  err e >>= next = err e
  ok v >>= next = next v

  pub >>=-eq-ok :
      (first : Result E A) (next : A → Result E C) {w : C}
      → (first >>= next) ≡ ok w
      → (v : A) × (first ≡ ok v) × (next v ≡ ok w)
  >>=-eq-ok (err e) next returned = cc
  >>=-eq-ok (ok v) next returned = (v, refl, returned)
