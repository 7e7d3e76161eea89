-- ===== src/Lc/Tokens.antt =====
-- lc/src/tok.c: the tokenizer. The source is its bytes without the NUL that ends it; `preproc_replace_tabs`
-- has put 15 more zero bytes behind it, so that `p[1]` and `p[2]` are always there.
pub mod Order
use irid.Base.{
  ℕ, zero, suc, ◌+◌, ◌-◌, Bool, true, false, ◌&&◌, ◌||◌, List, [], ◌∷◌, ◌++◌, Option, none, some,
  ◌==◌, leb, if◌then◌else◌, ok, stop, length, take, drop, map,
}
use irid.Base.Bytes.{Bytes, codes, equal}
use irid.Base.Results.{◌>>=◌}
use irid.Lc.Stop.{Compiling, crash, out_of_fuel}

-- `enum tok_type`.
pub data TokType : Type 0 where
  null num char str sym : TokType
  kw_type kw_decl kw_func kw_let kw_if kw_else kw_return kw_for : TokType
  semicolon colon lbrace rbrace lparen rparen lbracket rbracket : TokType
  arrow plus minus star slash eq cmpeq cmpneq not dot comma : TokType
  ampersand quote percent threedot : TokType

-- `struct tok`; `pos` is an index into the source.
pub record Tok : Type 0 where
  pub pos : ℕ
  pub len : ℕ
  pub type : TokType

abbrev within : ℕ → ℕ → ℕ → Bool
within lo hi c = leb lo c && leb c hi

-- The classes of <ctype.h> in the C locale.
unfoldable pub isalpha : ℕ → Bool
isalpha c = within b'a' b'z' c || within b'A' b'Z' c

unfoldable pub isdigit : ℕ → Bool
isdigit c = within b'0' b'9' c

unfoldable pub isxdigit : ℕ → Bool
unfolding isdigit
isxdigit c = isdigit c || within b'a' b'f' c || within b'A' b'F' c

unfoldable pub isstartsymchar : ℕ → Bool
isstartsymchar c = isalpha c || c == b'_'

unfoldable pub issymchar : ℕ → Bool
issymchar c = isstartsymchar c || isdigit c

-- The `while (f(*q)) q++` loops: how many bytes pass the test. The NUL never does.
unfoldable pub span : (ℕ → Bool) → Bytes → ℕ
span f [] = 0
span f (c ∷ cs) = if f c then suc (span f cs) else 0

-- `while (*q != '"') q++`: how many bytes stand before the quote; `none` if there is none.
unfoldable pub until_quote : Bytes → Option ℕ
until_quote [] = none
until_quote (c ∷ cs) =
    let rest = until_quote cs in
    if c == b'"' then some 0 else elim rest [ none ↦ none | some n ↦ some (suc n) ]

-- `p[k]`.
abbrev pub peek : ℕ → Bytes → ℕ
peek k [] = 0
peek zero (c ∷ cs) = c
peek (suc k) (c ∷ cs) = peek k cs

-- One round of the loop of `tokens_tokenize`: the token that starts `offset` bytes behind `p`, if there
-- is one, and by how much `p` advances.
pub record Lexeme : Type 0 where
  pub token : Option TokType
  pub offset : ℕ
  pub len : ℕ
  pub advance : ℕ

abbrev pub lexeme : TokType → ℕ → Lexeme
lexeme type n = record { token = some type; offset = 0; len = n; advance = n }

-- A byte that no rule takes is skipped.
abbrev pub skip : Lexeme
skip = record { token = none; offset = 0; len = 0; advance = 1 }

-- The cases of the `switch` that look at the byte alone.
unfoldable pub single : ℕ → Lexeme
single c =
    if c == b';'
    then lexeme semicolon 1
    else if c == b':'
    then lexeme colon 1
    else if c == b'{'
    then lexeme lbrace 1
    else if c == b'}'
    then lexeme rbrace 1
    else if c == b'('
    then lexeme lparen 1
    else if c == b')'
    then lexeme rparen 1
    else if c == b'['
    then lexeme lbracket 1
    else if c == b']'
    then lexeme rbracket 1
    else if c == b'+'
    then lexeme plus 1
    else if c == b'*'
    then lexeme star 1
    else if c == b'/'
    then lexeme slash 1
    else if c == b','
    then lexeme comma 1
    else if c == b'&'
    then lexeme ampersand 1
    else if c == b'\''
    then lexeme quote 1
    else if c == b'%'
    then lexeme percent 1
    else skip

-- The `switch`, with the cases that look further.
unfoldable pub punctuation : ℕ → Bytes → Lexeme
punctuation c cs =
    if c == b'-'
    then (if peek 0 cs == b'>' then lexeme arrow 2 else lexeme minus 1)
    else if c == b'='
    then (if peek 0 cs == b'=' then lexeme cmpeq 2 else lexeme eq 1)
    else if c == b'!'
    then (if peek 0 cs == b'=' then lexeme cmpneq 2 else lexeme not 1)
    else if c == b'.'
    then (if peek 0 cs == b'.' && peek 1 cs == b'.' then lexeme threedot 3 else lexeme dot 1)
    else single c

-- The body of the loop, at `p` with byte `c` and the bytes `cs` behind it.
unfoldable pub lex : ℕ → Bytes → Compiling Lexeme
lex c cs =
    if c == b'"'
    then (elim (until_quote cs) [ none ↦ stop crash | some n ↦ ok (lexeme str (n + 2)) ])
    else if isstartsymchar c
    then ok (lexeme sym (span issymchar (c ∷ cs)))
    else if c == b'\'' && peek 1 cs == b'\''
    then ok (record { token = some char; offset = 1; len = 1; advance = 3 })
    else if isdigit c
    then ok (lexeme num (span (λ d. isxdigit d || d == b'x') (c ∷ cs)))
    else ok (punctuation c cs)

-- `tnew` at the end of the tokens so far.
unfoldable pub tnew : List Tok → Lexeme → ℕ → List Tok
tnew toks lx p = elim lx.token [
  | none ↦ toks
  | some type ↦ toks ++ (record { pos = p + lx.offset; len = lx.len; type = type } ∷ [])
]

-- The loop, on fuel, from index `p` on, where the bytes `rest` are left.
unfoldable pub tokenize_from : ℕ → ℕ → Bytes → List Tok → Compiling (List Tok)
tokenize_from zero p rest toks = stop out_of_fuel
tokenize_from (suc fuel) p [] toks = ok (toks ++ (record { pos = p; len = 0; type = null } ∷ []))
tokenize_from (suc fuel) p (c ∷ cs) toks = lex c cs >>= λ lx.
    tokenize_from fuel (p + lx.advance) (drop lx.advance (c ∷ cs)) (tnew toks lx p)

-- The text of a token: the bytes of the source from its place on, which are all there for the tokens of
-- `tokens_tokenize`. For a token that leads out of the source it is only those that are there.
abbrev pub text : Bytes → Tok → Bytes
text source t = take t.len (drop t.pos source)

abbrev pub keywords : List (Bytes × TokType)
keywords =
    (codes "type", kw_type)
    ∷ (codes "decl", kw_decl)
    ∷ (codes "func", kw_func)
    ∷ (codes "let", kw_let)
    ∷ (codes "if", kw_if)
    ∷ (codes "else", kw_else)
    ∷ (codes "return", kw_return)
    ∷ (codes "for", kw_for)
    ∷ []

-- The inner loop of `replace_syms_with_kw`.
unfoldable pub keyword_type : List (Bytes × TokType) → Bytes → TokType → TokType
keyword_type [] word type = type
keyword_type ((name, kw) ∷ ks) word type = if equal word name then kw else keyword_type ks word type

-- One token in `replace_syms_with_kw`.
unfoldable pub replace_sym : Bytes → Tok → Tok
replace_sym source t =
    if t.len == 0 then t else record t { type = keyword_type keywords (text source t) t.type }

-- `replace_syms_with_kw`.
unfoldable pub replace_syms_with_kw : Bytes → List Tok → List Tok
replace_syms_with_kw source toks = map (replace_sym source) toks

-- `tokens_tokenize`: every round takes at least one byte.
unfoldable pub tokens_tokenize : Bytes → Compiling (List Tok)
tokens_tokenize source = tokenize_from (suc (length source)) 0 source [] >>= λ toks.
    ok (replace_syms_with_kw source toks)
