-- ===== src/Lc/Parser.antt =====
-- lc/src/parser.c: the cursor in the tokens, and types. A parser keeps `sel_tok`; the tokens and the source
-- do not change.
pub mod Nodes
pub mod Expression
pub mod Statements
pub mod Declarations
pub mod Runs
pub mod Shape
pub mod Extends
pub mod Steps
pub mod Precedence
pub mod Source
use irid.Base.{
  ℕ, zero, suc, Bool, true, false, List, none, some, stop, ◌==◌, if◌then◌else◌, Cmd, pure, length,
  get_elem?, ◌>>=◌, ◌>>◌,
}
use irid.Base.Bytes.{Bytes}
use irid.Lc.Stop.{Stop, crash, error_at}
use irid.Lc.Tokens.{Tok, TokType, text}

abbrev pub Parsing : Type 0 → Type 0
Parsing = Cmd Stop ℕ

-- The value of an enumerator of `enum tok_type`.
abbrev pub value : TokType → ℕ
value TokType.null = 0
value TokType.num = 1
value TokType.char = 2
value TokType.str = 3
value TokType.sym = 4
value TokType.kw_type = 5
value TokType.kw_decl = 6
value TokType.kw_func = 7
value TokType.kw_let = 8
value TokType.kw_if = 9
value TokType.kw_else = 10
value TokType.kw_return = 11
value TokType.kw_for = 12
value TokType.semicolon = 13
value TokType.colon = 14
value TokType.lbrace = 15
value TokType.rbrace = 16
value TokType.lparen = 17
value TokType.rparen = 18
value TokType.lbracket = 19
value TokType.rbracket = 20
value TokType.arrow = 21
value TokType.plus = 22
value TokType.minus = 23
value TokType.star = 24
value TokType.slash = 25
value TokType.eq = 26
value TokType.cmpeq = 27
value TokType.cmpneq = 28
value TokType.not = 29
value TokType.dot = 30
value TokType.comma = 31
value TokType.ampersand = 32
value TokType.quote = 33
value TokType.percent = 34
value TokType.threedot = 35

-- `tok->type == type`.
abbrev pub is : TokType → Tok → Bool
is type t = value t.type == value type

-- `struct parsed_type`. The nodes hold the types; the register, which is only written, is left out.
pub record ParsedType : Type 0 where
  pub name : Bytes
  pub is_pointer : Bool
  pub place : Tok
  pub count : ℕ

-- `pe`, `pef` and `peh`: an error at a token ends the compiler.
unfoldable pub pe : {A : Type 0} → Tok → Parsing A
pe t sel = stop (error_at t.pos)

-- `if (tok->type != type) pe(..)`.
unfoldable pub expect : TokType → Tok → Parsing (Unit {0})
expect type t = if is type t then pure tt else pe t

module _ (toks : List Tok) where
  -- A read of `tokens[i]`.
  unfoldable pub tok_at : ℕ → Parsing Tok
  tok_at i sel = elim (get_elem? toks i) [ none ↦ stop crash | some t ↦ pure t sel ]

  unfoldable pub tokcur : Parsing Tok
  tokcur sel = tok_at sel sel

  -- The last token is followed by itself.
  unfoldable pub toknext : Parsing Tok
  toknext sel = if suc sel == length toks then tok_at sel sel else tok_at (suc sel) (suc sel)

  -- At the last token, the one before it is selected. If there is one token alone, `sel_tok` would be -1; no
  -- caller peeks there.
  unfoldable pub tokpeek : Parsing Tok
  tokpeek sel =
      if suc sel == length toks
      then elim sel [ zero ↦ stop crash | suc before ↦ tok_at (suc before) before ]
      else tok_at (suc sel) sel

  -- `toknext` and a test of the type.
  unfoldable pub next_is : TokType → Parsing Tok
  next_is type = do tok ← toknext; expect type tok; pure tok

  module _ (source : Bytes) where
    -- `parse_type`.
    unfoldable pub parse_type : Parsing ParsedType
    parse_type = do
      place ← tokcur
      expect TokType.sym place
      tok ← tokpeek
      let is_pointer = is TokType.ampersand tok
      if is_pointer then (toknext >> pure tt) else pure tt
      pure (record { name = text source place; is_pointer = is_pointer; place = place; count = 0 })
