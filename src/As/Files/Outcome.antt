-- ===== src/As/Files/Outcome.antt =====
-- Chains of steps of the assembler that do not run out of files.
use irid.Base.{
  ◌⊎◌, ◌≡◌, ◌≢◌, refl, Bool, true, false, Option, none, some, ok, stop, if◌then◌else◌, inl, inr,
}
use irid.Base.Results.{◌>>=◌, or_stop}
use irid.As.Numbers.{Stop, Assembling, error, crash, out_of_fuel}

-- Files are nested deeply enough for what runs.
abbrev pub Returns : {A : Type 0} → Assembling A → Type 0
Returns run = run ≢ stop out_of_fuel

pub error-Returns : (A : Type 0) → Returns {A = A} (stop error)
error-Returns A h = cc

pub crash-Returns : (A : Type 0) → Returns {A = A} (stop crash)
crash-Returns A h = cc

module _ {A : Type 0} where
  pub ok-Returns : (a : A) → Returns (ok a)
  ok-Returns a h = cc

  pub if-Returns :
      (b : Bool) (x y : Assembling A) → Returns x → Returns y → Returns (if b then x else y)
  if-Returns true x y rx ry = rx
  if-Returns false x y rx ry = ry

  pub or_stop-Returns : (o : Option A) → Returns (or_stop error o)
  or_stop-Returns none h = cc
  or_stop-Returns (some a) h = cc

module _ {A B : Type 0} where
  pub >>=-Returns :
      (run : Assembling A) (f : A → Assembling B)
      → Returns run
      → ((a : A) → Returns (f a))
      → Returns (run >>= f)
  >>=-Returns (ok a) f r k h = k a h
  >>=-Returns (stop e) f r k h = r cc

  pub option-Returns :
      (o : Option A) (x : Assembling B) (f : A → Assembling B)
      → Returns x
      → ((a : A) → Returns (f a))
      → Returns (elim o [ none ↦ x | some a ↦ f a ])
  option-Returns none x f rx rf = rx
  option-Returns (some a) x f rx rf = rf a

module _ {A : Type 0} where
  pub Result-cases : (run : Assembling A) → ((a : A) × (run ≡ ok a)) ⊎ ((e : Stop) × (run ≡ stop e))
  Result-cases (ok a) = inl (a, refl)
  Result-cases (stop e) = inr (e, refl)
