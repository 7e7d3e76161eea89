-- ===== src/Lc/Tokens/Order.antt =====
-- Where the tokens stand in the source, and that the tokenizer ends.
use mathlib.Core.List.{append-nil}
use irid.Base.{
  zero, length-drop, drop, refl, inr, ◌⊎◌, ◌++◌, suc, inl, ◌||◌, stop, ◌==◌, ok, Option-cases, List,
  ℕ, ◌+◌, ◌≤◌, ◌<◌, ◌≡◌, Bool, true, [], ◌∷◌, some, arith, length,
}
use irid.Base.Bytes.{Bytes}
use irid.Base.Results.{>>=-eq-ok}
use irid.Lc.Tokens.{
  Compiling, crash, null, lexeme, TokType, isdigit, Tok, isstartsymchar, isxdigit, lex,
  tokenize_from, replace_sym, replace_syms_with_kw, tokens_tokenize, tnew, issymchar, peek, Lexeme,
  span, until_quote, single, punctuation,
}

-- The token lies in what the loop moves over, which is at least one of the `n` bytes left.
pub record Fits (n : ℕ) (lx : Lexeme) : Type 0 where
  pub moves : 1 ≤ lx.advance
  pub within : lx.advance ≤ n
  pub inside : lx.offset + lx.len ≤ lx.advance

span-le-length : (f : ℕ → Bool) (cs : Bytes) → span f cs ≤ length cs
unfolding span
span-le-length f [] = omega arith
span-le-length f (c ∷ cs) = ground (arith, span-le-length f cs)

span_pos : (f : ℕ → Bool) (c : ℕ) (cs : Bytes) → f c ≡ true → 1 ≤ span f (c ∷ cs)
unfolding span
span_pos f c cs h = rw h (omega arith)

until_quote-lt : (cs : Bytes) (n : ℕ) → until_quote cs ≡ some n → n < length cs
unfolding until_quote
until_quote-lt [] n h = cc
until_quote-lt (c ∷ cs) n h = elim (Option-cases (until_quote cs)) [
  | inl e ↦ ground arith
  | inr (m, e) ↦ ground (arith, until_quote-lt cs m)
]

single-Fits : (c : ℕ) (cs : Bytes) → Fits (length (c ∷ cs)) (single c)
unfolding single
single-Fits c cs = ground arith

punctuation-Fits : (c : ℕ) (cs : Bytes) → Fits (length (c ∷ cs)) (punctuation c cs)
unfolding punctuation
punctuation-Fits c [] = ground (arith, single-Fits c [])
punctuation-Fits c (d ∷ []) = ground (arith, single-Fits c (d ∷ []))
punctuation-Fits c (d ∷ e ∷ cs) = ground (arith, single-Fits c (d ∷ e ∷ cs))

sym-Fits :
    (c : ℕ) (cs : Bytes)
    → isstartsymchar c ≡ true
    → Fits (length (c ∷ cs)) (lexeme TokType.sym (span issymchar (c ∷ cs)))
unfolding issymchar
sym-Fits c cs h = record {
  moves = span_pos issymchar c cs (rw h);
  within = span-le-length issymchar (c ∷ cs);
  inside = omega arith;
}

-- The bytes of a number.
abbrev isnum : ℕ → Bool
isnum d = isxdigit d || d == b'x'

num-Fits :
    (c : ℕ) (cs : Bytes)
    → isdigit c ≡ true
    → Fits (length (c ∷ cs)) (lexeme TokType.num (span isnum (c ∷ cs)))
unfolding isxdigit
num-Fits c cs h = record {
  moves = span_pos isnum c cs (ground arith);
  within = span-le-length isnum (c ∷ cs);
  inside = omega arith;
}

char-Fits :
    (c : ℕ) (cs : Bytes)
    → (peek 1 cs == b'\'') ≡ true
    → Fits
        (length (c ∷ cs))
        (record { token = some TokType.char; offset = 1; len = 1; advance = 3 })
char-Fits c [] h = cc
char-Fits c (d ∷ []) h = cc
char-Fits c (d ∷ e ∷ cs) h = omega arith

pub lex-Fits : (c : ℕ) (cs : Bytes) (lx : Lexeme) → lex c cs ≡ ok lx → Fits (length (c ∷ cs)) lx
unfolding lex
lex-Fits c cs lx h = elim (Option-cases (until_quote cs)) [
  | inl unclosed ↦
      ground (arith, sym-Fits c cs, num-Fits c cs, char-Fits c cs, punctuation-Fits c cs)
  | inr (n, closed) ↦ ground (
    arith,
    until_quote-lt cs n,
    sym-Fits c cs,
    num-Fits c cs,
    char-Fits c cs,
    punctuation-Fits c cs,
  )
]

-- A value, or a stop by a read past the end.
abbrev EndsWell : Compiling Lexeme → Type 0
EndsWell (ok lx) = Unit {0}
EndsWell (stop crash) = Unit {0}
EndsWell (stop _) = ⊥

lex-EndsWell : (c : ℕ) (cs : Bytes) → EndsWell (lex c cs)
unfolding lex
lex-EndsWell c cs = elim (Option-cases (until_quote cs)) [
  | inl e ↦ ground arith
  | inr (n, e) ↦ ground arith
]

EndsWell-cases :
    (m : Compiling Lexeme) → EndsWell m → (m ≡ stop crash) ⊎ ((lx : Lexeme) × (m ≡ ok lx))
EndsWell-cases (ok lx) h = inr (lx, refl)
EndsWell-cases (stop crash) h = inl refl
EndsWell-cases (stop _) h = elim h [ ]

lex-cases : (c : ℕ) (cs : Bytes) → (lex c cs ≡ stop crash) ⊎ ((lx : Lexeme) × (lex c cs ≡ ok lx))
lex-cases c cs = EndsWell-cases (lex c cs) (lex-EndsWell c cs)

-- The tokens stand in order between two places of the source, and none overlaps the next.
abbrev pub Ordered : ℕ → List Tok → ℕ → Type 0
Ordered lo [] hi = lo ≤ hi
Ordered lo (t ∷ ts) hi = (lo ≤ t.pos) × Ordered (t.pos + t.len) ts hi

Ordered-append :
    (lo : ℕ) (ts us : List Tok) (mid hi : ℕ)
    → Ordered lo ts mid
    → Ordered mid us hi
    → Ordered lo (ts ++ us) hi
Ordered-append lo [] [] mid hi p q = omega arith
Ordered-append lo [] (u ∷ us) mid hi p q = (omega arith, q.1)
Ordered-append lo (t ∷ ts) us mid hi p q = (p.0, Ordered-append (t.pos + t.len) ts us mid hi p.1 q)

tnew-Ordered :
    (toks : List Tok) (lx : Lexeme) (p n : ℕ)
    → Fits n lx
    → Ordered 0 toks p
    → Ordered 0 (tnew toks lx p) (p + lx.advance)
unfolding tnew
tnew-Ordered toks lx p n fits h = elim (Option-cases lx.token) [
  | inl e ↦ rw (e, ← append-nil toks) (Ordered-append 0 toks [] p (p + lx.advance) h (omega arith))
  | inr (type, e) ↦
      rw e (Ordered-append 0 toks _ p (p + lx.advance) h (omega arith, omega (arith, fits.inside)))
]

-- The tokens end with the null token, at place `n`.
abbrev pub Ends : List Tok → ℕ → Type 0
Ends [] n = ⊥
Ends (t ∷ []) n = (t.pos ≡ n) × (t.len ≡ 0) × (t.type ≡ null)
Ends (t ∷ u ∷ ts) n = Ends (u ∷ ts) n

Ends-append :
    (ts : List Tok) (n : ℕ) → Ends (ts ++ (record { pos = n; len = 0; type = null } ∷ [])) n
Ends-append [] n = (refl, refl, refl)
Ends-append (t ∷ []) n = (refl, refl, refl)
Ends-append (t ∷ u ∷ ts) n = Ends-append (u ∷ ts) n

tokenize_from-Ordered :
    (fuel p : ℕ) (rest : Bytes) (toks : List Tok) {out : List Tok}
    → Ordered 0 toks p
    → tokenize_from fuel p rest toks ≡ ok out
    → Ordered 0 out (p + length rest) × Ends out (p + length rest)
unfolding tokenize_from
tokenize_from-Ordered zero p rest toks o h = cc
tokenize_from-Ordered (suc fuel) p [] toks {out} o h =
    let e : toks ++ (record { pos = p; len = 0; type = null } ∷ []) ≡ out = cc in
    let e' : p + 0 ≡ p = omega arith in
    rw (← e, e') (Ordered-append 0 toks _ p p o (omega arith, omega arith), Ends-append toks p)
tokenize_from-Ordered (suc fuel) p (c ∷ cs) toks {out} o h =
    let (lx, at, later) = >>=-eq-ok (lex c cs) _ h in
    let fits = lex-Fits c cs lx at in
    let all =
      tokenize_from-Ordered fuel (p + lx.advance) (drop lx.advance (c ∷ cs)) (tnew toks lx p)
        (tnew-Ordered toks lx p (length (c ∷ cs)) fits o) later in
    let e : p + lx.advance + length (drop lx.advance (c ∷ cs)) ≡ p + length (c ∷ cs) =
      omega (arith, length-drop lx.advance (c ∷ cs), fits.within) in
    rw e at all

tokenize_from-fuel :
    (fuel p : ℕ) (rest : Bytes) (toks : List Tok)
    → length rest < fuel
    → ((out : List Tok) × (tokenize_from fuel p rest toks ≡ ok out))
      ⊎ (tokenize_from fuel p rest toks ≡ stop crash)
unfolding tokenize_from
tokenize_from-fuel zero p rest toks h = absurd (omega arith)
tokenize_from-fuel (suc fuel) p [] toks h = inl (_, refl)
tokenize_from-fuel (suc fuel) p (c ∷ cs) toks h = elim (lex-cases c cs) [
  | inl e ↦ inr (rw e)
  | inr (lx, e) ↦
      let fits = lex-Fits c cs lx e in
      rw e (
        tokenize_from-fuel fuel (p + lx.advance) (drop lx.advance (c ∷ cs)) (tnew toks lx p)
          (omega (arith, length-drop lx.advance (c ∷ cs), fits.moves)))
]

replace-Ordered :
    (source : Bytes) (lo : ℕ) (ts : List Tok) (hi : ℕ)
    → Ordered lo ts hi
    → Ordered lo (replace_syms_with_kw source ts) hi
unfolding replace_syms_with_kw replace_sym
replace-Ordered source lo [] hi o = o
replace-Ordered source lo (t ∷ ts) hi o =
    ground (arith, replace-Ordered source (t.pos + t.len) ts hi o.1)

replace-Ends :
    (source : Bytes) (ts : List Tok) (n : ℕ) → Ends ts n → Ends (replace_syms_with_kw source ts) n
unfolding replace_syms_with_kw replace_sym
replace-Ends source [] n e = elim e [ ]
replace-Ends source (t ∷ []) n e = ground arith
replace-Ends source (t ∷ u ∷ ts) n e = replace-Ends source (u ∷ ts) n e

-- The tokens of a source stand in it in order, none overlaps the next, and the last is the null token,
-- at the end of the source.
pub tokens_tokenize-Ordered :
    (source : Bytes) {toks : List Tok}
    → tokens_tokenize source ≡ ok toks
    → Ordered 0 toks (length source) × Ends toks (length source)
unfolding tokens_tokenize
tokens_tokenize-Ordered source {toks} h =
    let (out, at, later) = >>=-eq-ok (tokenize_from (suc (length source)) 0 source []) _ h in
    let e : replace_syms_with_kw source out ≡ toks = cc in
    let (o, ends) = tokenize_from-Ordered (suc (length source)) 0 source [] (omega arith) at in
    let e' : 0 + length source ≡ length source = omega arith in
    rw (← e) (
      replace-Ordered source 0 out (length source) (rw e' at o),
      replace-Ends source out (length source) (rw e' at ends),
    )

-- The fuel is enough: the tokenizer gives tokens, or reads past the end of the source.
pub tokens_tokenize_total :
    (source : Bytes)
    → ((toks : List Tok) × (tokens_tokenize source ≡ ok toks))
      ⊎ (tokens_tokenize source ≡ stop crash)
unfolding tokens_tokenize
tokens_tokenize_total source =
    elim (tokenize_from-fuel (suc (length source)) 0 source [] (omega arith)) [
      | inl (out, e) ↦ inl (replace_syms_with_kw source out, rw e)
      | inr e ↦ inr (rw e)
    ]
