-- ===== src/Lc/Parser/Runs.antt =====
-- What the runs of the parser ensure, over tokens that end with the null token: where the cursor is, and that an
-- error is reported at a token.
pub mod Cursor
pub mod Values
pub mod Expression
pub mod Statements
pub mod Blocks
pub mod Declarations
pub mod File
use Prim.Native.Nat.{min}
use Prim.Native.Nat.{min}
use irid.Base.{
  ◌⊎◌, ==_iff, ap, ℕ, zero, suc, ◌+◌, ◌-◌, ◌≤◌, ◌<◌, ◌≡◌, refl, Bool, true, false, List, [], ◌∷◌,
  some, Result, ok, stop, ◌==◌, arith, length, get_elem?, if◌then◌else◌, and_then, Bool-cases, inl,
  inr,
}
use irid.Base.{◌>>◌, pure}
use irid.Base.Bytes.{Bytes}
use irid.Lc.Stop.{Stop, error_at}
use irid.Lc.Tokens.{Tok}
use irid.Lc.Tokens.Order.{Ends}
use irid.Lc.Parser.{
  expect, parse_type, next_is, TokType, is, Parsing, value, pe, tok_at, tokcur, toknext, tokpeek,
}

module _ (toks : List Tok) where
  abbrev pub At : ℕ → Tok → Type 0
  At i t = get_elem? toks i ≡ some t

  -- A place in the source where a token stands.
  abbrev pub Reported : ℕ → Type 0
  Reported p = (i : ℕ) × (t : Tok) × At i t × (t.pos ≡ p)

  -- The run ends with a value and a cursor for which `P` holds, or with an error at a token.
  pub data Ensures {A : Type 0} (P : A → ℕ → Type 0) : Result Stop (A × ℕ) → Type 0 where
    holds : {a : A} {s : ℕ} → P a s → Ensures P (ok (a, s))
    rejected : {p : ℕ} → Reported p → Ensures P (stop (error_at p))

  -- From `s` the cursor never goes back, and it ends at a token behind which there is another one.
  abbrev pub Forward : {A : Type 0} → ℕ → (A → Type 0) → A → ℕ → Type 0
  Forward s P a s' = (s ≤ s') × (s' + 2 ≤ length toks) × P a

  module _ {A B : Type 0} {P : A → ℕ → Type 0} {Q : B → ℕ → Type 0} where
    pub Ensures-bind :
        {r : Result Stop (A × ℕ)} {k : A → Parsing B}
        → Ensures P r
        → ((a : A) (s : ℕ) → P a s → Ensures Q (k a s))
        → Ensures Q (and_then r k)
    Ensures-bind (holds {a} {s} p) next = next a s p
    Ensures-bind (rejected at) next = rejected at

  module _ {A : Type 0} {P : A → ℕ → Type 0} where
    pub Ensures-if :
        (b : Bool) (m n : Parsing A) {s : ℕ}
        → (b ≡ true → Ensures P (m s))
        → (b ≡ false → Ensures P (n s))
        → Ensures P ((if b then m else n) s)
    Ensures-if true m n hm hn = hm refl
    Ensures-if false m n hm hn = hn refl

    pub Ensures-imp :
        {Q : A → ℕ → Type 0} {r : Result Stop (A × ℕ)}
        → Ensures P r
        → ((a : A) (s : ℕ) → P a s → Q a s)
        → Ensures Q r
    Ensures-imp (holds {a} {s} p) f = holds (f a s p)
    Ensures-imp (rejected at) f = rejected at

    pub Ensures-cases :
        {r : Result Stop (A × ℕ)}
        → Ensures P r
        → ((a : A) × (s : ℕ) × (r ≡ ok (a, s)) × P a s)
          ⊎ ((p : ℕ) × (r ≡ stop (error_at p)) × Reported p)
    Ensures-cases (holds {a} {s} p) = inl (a, s, refl, p)
    Ensures-cases (rejected {p} at) = inr (p, refl, at)

    pub pe-Ensures : (i s : ℕ) {t : Tok} → At i t → Ensures P (pe t s)
    unfolding pe
    pe-Ensures i s {t} at = rejected (i, t, at, refl)
