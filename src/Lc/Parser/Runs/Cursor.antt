-- ===== src/Lc/Parser/Runs/Cursor.antt =====
-- What the moves of the cursor ensure, over tokens that end with the null token.
use Prim.Native.Nat.{min}
use Prim.Native.Nat.{min}
use irid.Base.{
  ==_iff, ap, ℕ, zero, suc, ◌+◌, ◌-◌, ◌≤◌, ◌<◌, ◌≡◌, refl, true, false, List, [], ◌∷◌, some, ok,
  ◌==◌, arith, length, get_elem?, if◌then◌else◌, and_then, Bool-cases, inl, inr,
}
use irid.Base.{◌>>◌, pure}
use irid.Base.Bytes.{Bytes}
use irid.Lc.Tokens.{Tok}
use irid.Lc.Tokens.Order.{Ends}
use irid.Lc.Parser.{
  expect, parse_type, next_is, TokType, is, Parsing, value, tok_at, tokcur, toknext, tokpeek,
}
use irid.Lc.Parser.Runs.{
  At, Ensures, holds, Forward, Ensures-bind, Ensures-if, Ensures-imp, pe-Ensures,
}

get_elem?-lt : (xs : List Tok) (i : ℕ) → i < length xs → (t : Tok) × (get_elem? xs i ≡ some t)
get_elem?-lt [] i h = elim h [ ]
get_elem?-lt (x ∷ xs) zero h = (x, refl)
get_elem?-lt (x ∷ xs) (suc i) h = get_elem?-lt xs i (omega arith)

-- A token that is not the null token is not the last one.
pub Ends-inner :
    (toks : List Tok) (n i : ℕ) {t : Tok}
    → Ends toks n
    → get_elem? toks i ≡ some t
    → 1 ≤ value t.type
    → i + 2 ≤ length toks
Ends-inner [] n i ends at h = elim ends [ ]
Ends-inner (u ∷ []) n zero {t} (_, _, e) at h =
    let same : u ≡ t = cc in absurd (omega (arith, ap value (rw same at e)))
Ends-inner (u ∷ []) n (suc i) ends at h = cc
Ends-inner (u ∷ v ∷ ts) n zero ends at h = omega arith
Ends-inner (u ∷ v ∷ ts) n (suc i) ends at h = omega (arith, Ends-inner (v ∷ ts) n i ends at h)

module _ (toks : List Tok) where
  tok_at-Ensures :
      (i s : ℕ) → i < length toks → Ensures toks (λ t s'. (s' ≡ s) × At toks i t) (tok_at toks i s)
  unfolding tok_at
  tok_at-Ensures i s h =
      let (t, e) = get_elem?-lt toks i h in
      let read : tok_at toks i s ≡ ok (t, s) = rw (tok_at, e) refl in rw read (holds (refl, e))

  -- A peek at the last token moves the cursor to the one before.
  tokpeek-Ensures :
      (s : ℕ)
      → s < length toks
      → 2 ≤ length toks
      → Ensures toks (λ t s'. (s' ≡ min s (length toks - 2)) × At toks (suc s') t) (tokpeek toks s)
  unfolding tokpeek
  tokpeek-Ensures zero h two =
      let e : (1 == length toks) ≡ false = ground arith in
      rw e (
        Ensures-imp toks (tok_at-Ensures 1 zero (omega arith))
          λ t s' (same, at). (omega arith, rw same at))
  tokpeek-Ensures (suc s) h two = elim (Bool-cases (suc (suc s) == length toks)) [
    | inl last ↦ rw last (
        Ensures-imp toks (tok_at-Ensures (suc s) s h) λ t s' (same, at). (ground arith, rw same at))
    | inr before ↦ rw before (
        Ensures-imp toks (tok_at-Ensures (suc (suc s)) (suc s) (ground arith))
          λ t s' (same, at). (ground arith, rw same at))
  ]

  pub toknext-Ensures :
      (s : ℕ)
      → s + 2 ≤ length toks
      → Ensures toks (λ t s'. (s' ≡ suc s) × At toks (suc s) t) (toknext toks s)
  unfolding toknext
  toknext-Ensures s h =
      let e : (suc s == length toks) ≡ false = ground arith in
      rw e (tok_at-Ensures (suc s) (suc s) (omega arith))

  module _ {A : Type 0} {Q : A → ℕ → Type 0} (k : Tok → Parsing A) where
    pub after_tokcur :
        (s : ℕ)
        → s < length toks
        → ((t : Tok) → At toks s t → Ensures toks Q (k t s))
        → Ensures toks Q (and_then (tokcur toks s) k)
    unfolding tokcur
    after_tokcur s h next =
        Ensures-bind toks (tok_at-Ensures s s h) λ t s' (e, at). rw e (next t at)

    pub after_toknext :
        (s : ℕ)
        → s + 2 ≤ length toks
        → ((t : Tok) → At toks (suc s) t → Ensures toks Q (k t (suc s)))
        → Ensures toks Q (and_then (toknext toks s) k)
    after_toknext s h next =
        Ensures-bind toks (toknext-Ensures s h) λ t s' (e, at). rw e (next t at)

    -- A peek where the cursor may be at the last token.
    pub after_tokpeek :
        (lo s : ℕ)
        → lo ≤ s
        → lo + 2 ≤ length toks
        → s < length toks
        → ((t : Tok) (s' : ℕ)
            → lo ≤ s'
            → s' + 2 ≤ length toks
            → At toks (suc s') t
            → Ensures toks Q (k t s'))
        → Ensures toks Q (and_then (tokpeek toks s) k)
    after_tokpeek lo s h h' h'' next =
        Ensures-bind toks (tokpeek-Ensures s h'' (omega arith))
          λ t s' (e, at). next t s' (omega arith) (omega arith) at

    pub after_peek :
        (s : ℕ)
        → s + 2 ≤ length toks
        → ((t : Tok) → At toks (suc s) t → Ensures toks Q (k t s))
        → Ensures toks Q (and_then (tokpeek toks s) k)
    after_peek s h next =
        Ensures-bind toks (tokpeek-Ensures s (omega arith) (omega arith))
          λ t s' (e, at). let same : s' ≡ s = omega arith in rw same (next t (rw same at at))

module _ (toks : List Tok) (n : ℕ) (ends : Ends toks n) where
  -- A token of a type that is not null is not the last one.
  pub inner :
      (type : TokType) (i : ℕ) {t : Tok}
      → At toks i t
      → is type t ≡ true
      → 1 ≤ value type
      → i + 2 ≤ length toks
  inner type i {t} at h pos =
      Ends-inner toks n i ends at (omega (arith, (==_iff (value t.type) (value type)).0 h))

  -- A test of the type of a token.
  pub Ensures-is :
      {A : Type 0} {P : A → ℕ → Type 0} (type : TokType) (i : ℕ) {t : Tok} (m k : Parsing A) {s : ℕ}
      → At toks i t
      → 1 ≤ value type
      → (i + 2 ≤ length toks → Ensures toks P (m s))
      → Ensures toks P (k s)
      → Ensures toks P ((if is type t then m else k) s)
  Ensures-is type i {t} m k at pos hm hk =
      Ensures-if toks (is type t) m k (λ h. hm (inner type i at h pos)) (λ _. hk)

  module _ {A : Type 0} {Q : A → ℕ → Type 0} where
    pub after_expect :
        (type : TokType) (i s : ℕ) {t : Tok} (k : Unit {0} → Parsing A)
        → At toks i t
        → 1 ≤ value type
        → (i + 2 ≤ length toks → Ensures toks Q (k tt s))
        → Ensures toks Q (and_then (expect type t s) k)
    unfolding expect
    after_expect type i s {t} k at pos next =
        Ensures-bind toks
          (Ensures-is {P = λ _ s'. (s' ≡ s) × (i + 2 ≤ length toks)} type i _ _ at pos
            (λ h. holds (refl, h)) (pe-Ensures toks i s at))
          λ _ s' (e, h). rw e (next h)

  next_is-Ensures :
      (type : TokType) (s : ℕ)
      → 1 ≤ value type
      → s + 2 ≤ length toks
      → Ensures toks
          (λ t s'. (s' ≡ suc s) × At toks (suc s) t × (suc s + 2 ≤ length toks))
          (next_is toks type s)
  unfolding next_is
  next_is-Ensures type s pos h =
      after_toknext toks _ s h
        λ t at. after_expect type (suc s) (suc s) _ at pos λ h'. holds (refl, at, h')

  module _ {A : Type 0} {Q : A → ℕ → Type 0} where
    pub after_next_is :
        (type : TokType) (s : ℕ) (k : Tok → Parsing A)
        → 1 ≤ value type
        → s + 2 ≤ length toks
        → ((t : Tok) → At toks (suc s) t → suc s + 2 ≤ length toks → Ensures toks Q (k t (suc s)))
        → Ensures toks Q (and_then (next_is toks type s) k)
    after_next_is type s k pos h next =
        Ensures-bind toks (next_is-Ensures type s pos h) λ t s' (e, at, h'). rw e (next t at h')

  module _ (source : Bytes) where
    pointer-Ensures :
        (t : Tok) (s : ℕ)
        → s + 2 ≤ length toks
        → At toks (suc s) t
        → Ensures toks
            (Forward toks s (λ _. Unit {0}))
            ((if is TokType.ampersand t then (toknext toks >> pure tt) else pure tt) s)
    pointer-Ensures t s h at =
        Ensures-is TokType.ampersand (suc s) _ _ at (omega arith)
          (λ inside. after_toknext toks _ s h λ _ _. holds (omega arith, omega arith, tt))
          (holds (omega arith, h, tt))

    pub parse_type-Ensures :
        (s : ℕ)
        → s < length toks
        → Ensures toks (Forward toks s (λ _. Unit {0})) (parse_type toks source s)
    unfolding parse_type
    parse_type-Ensures s h = after_tokcur toks _ s h λ place at.
        after_expect TokType.sym s s _ at (omega arith) λ inside.
          after_peek toks _ s inside λ t at'.
            Ensures-bind toks (pointer-Ensures t s inside at')
              λ _ s' (le, inside', _). holds (le, inside', tt)
