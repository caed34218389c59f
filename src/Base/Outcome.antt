-- ===== src/Base/Outcome.antt =====
-- Go's pair of a value and an error, of which the caller reads one.
use mathlib.Core.Path.{◌≡◌, refl}
use mathlib.Core.Logic.{◌≢◌}
use mathlib.Core.Bool.{Bool, true, false}
use secure_crt.Base.Tests.{if◌then◌else◌}

pub data Outcome {ℓ κ} (E : Type ℓ) (A : Type κ) : Type (ℓ ⊔ κ) where
  failed : E → Outcome E A
  returned : A → Outcome E A

module _ {ℓ κ μ} {E : Type ℓ} {A : Type κ} {B : Type μ} where
  -- The rest of the body, behind `if err != nil { return err }`.
  infixl 5 ◌>>=◌
  abbrev pub ◌>>=◌ : Outcome E A → (A → Outcome E B) → Outcome E B
  failed e >>= rest = failed e
  returned a >>= rest = rest a

  pub >>=-returned :
      (first : Outcome E A) (rest : A → Outcome E B) {b : B}
      → (first >>= rest) ≡ returned b
      → (a : A) × (first ≡ returned a) × (rest a ≡ returned b)
  >>=-returned (failed e) rest h = cc
  >>=-returned (returned a) rest h = (a, refl, h)

module _ {ℓ κ} {E : Type ℓ} {A : Type κ} where
  pub failed-ne-returned : {e : E} {a : A} → failed e ≢ returned a
  failed-ne-returned h = cc

  -- A body that returned has passed its guards.
  pub guard-returned :
      (b : Bool) (e : E) (rest : Outcome E A) {a : A}
      → (if b then failed e else rest) ≡ returned a
      → (b ≡ false) × (rest ≡ returned a)
  guard-returned true e rest h = absurd (failed-ne-returned h)
  guard-returned false e rest h = (refl, h)

  pub returned-injective : {a b : A} → ◌≡◌ {A = Outcome E A} (returned a) (returned b) → a ≡ b
  returned-injective h = cc
