-- ===== src/Base/Results.antt =====
-- Chains of steps that may stop and keep no state; reads from a file as optional values.
use mathlib.Core.Path.{◌≡◌, refl}
use mathlib.Core.Option.{Option, none, some}
use irid.Base.{Result, ok, stop}

module _ {ℓ κ} {E : Type 0} {A : Type ℓ} {B : Type κ} where
  infixl 5 ◌>>=◌ ◌>>◌
  abbrev pub ◌>>=◌ : Result E A → (A → Result E B) → Result E B
  ok a >>= f = f a
  stop e >>= f = stop e

  abbrev pub ◌>>◌ : Result E A → Result E B → Result E B
  m >> n = m >>= λ _. n

  -- A chain that ends well has a first step that ends well.
  pub >>=-eq-ok :
      (step : Result E A) (next : A → Result E B) {last : B}
      → step >>= next ≡ ok last
      → (first : A) × (step ≡ ok first) × (next first ≡ ok last)
  >>=-eq-ok (stop why) next ends = cc
  >>=-eq-ok (ok first) next ends = (first, refl, ends)

-- The value, or a stop with `e` where there is none.
abbrev pub or_stop {ℓ} : {E : Type 0} {A : Type ℓ} → E → Option A → Result E A
or_stop e none = stop e
or_stop e (some a) = ok a
