-- ===== src/Base.antt =====
-- The names that the other modules share: the libraries', passed on, the results of fallible code,
-- and the names of two children.
mod Tests
mod Lists
pub mod Bytes
pub mod Results
pub use Tests.*
pub use Lists.*
pub use Prim.Native.Nat.{ℕ, zero, suc, ◌+◌, ◌-◌, ◌*◌, ◌/◌, ◌%◌, ◌^◌, ◌≤◌, ◌<◌}
pub use mathlib.Core.Path.{◌≡◌, refl, sym, ap, ◌∙◌}
pub use mathlib.Core.Logic.{◌≢◌, ◌↔◌, ◌⊎◌, inl, inr}
pub use mathlib.Core.Bool.{Bool, true, false, not, ◌&&◌, ◌||◌}
pub use mathlib.Core.Option.{Option, none, some}
pub use mathlib.Core.List.{List, [], ◌∷◌, ◌++◌, map}
pub use native.Mathlib.Omega.{arith}

-- What a piece of code yields: a value, or the reason why the process stops.
pub data Result {ℓ κ} (E : Type ℓ) (A : Type κ) : Type (ℓ ⊔ κ) where
  ok : A → Result E A
  stop : E → Result E A

-- Code over a mutable state `S`.
abbrev pub Cmd : Type 0 → Type 0 → Type 0 → Type 0
Cmd E S A = S → Result E (A × S)

module _ {E S : Type 0} where
  abbrev pub pure : {A : Type 0} → A → Cmd E S A
  pure a s = ok (a, s)

  abbrev pub fail : {A : Type 0} → E → Cmd E S A
  fail e s = stop e

  abbrev pub and_then : {A B : Type 0} → Result E (A × S) → (A → Cmd E S B) → Result E (B × S)
  and_then (ok (a, s)) k = k a s
  and_then (stop e) k = stop e

  infixl 5 ◌>>=◌ ◌>>◌
  abbrev pub ◌>>=◌ : {A B : Type 0} → Cmd E S A → (A → Cmd E S B) → Cmd E S B
  m >>= k = λ s. and_then (m s) k

  abbrev pub ◌>>◌ : {A B : Type 0} → Cmd E S A → Cmd E S B → Cmd E S B
  m >> n = m >>= λ _. n

-- Inversion of a chain that ended well.
pub and_then-eq-ok :
    {E S A B : Type 0} (m : Result E (A × S)) (k : A → Cmd E S B) {b : B × S}
    → and_then m k ≡ ok b
    → (a : A) × (s : S) × (m ≡ ok (a, s)) × (k a s ≡ ok b)
and_then-eq-ok (ok (a, s)) k h = (a, s, refl, h)
and_then-eq-ok (stop e) k h = cc
