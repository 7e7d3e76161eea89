-- ===== src/Lc/Parser/Source.antt =====
-- The parser on the tokens of a source.
use irid.Base.{
  ℕ, ◌+◌, ◌≤◌, ◌≡◌, ◌⊎◌, inl, inr, zero, suc, refl, List, [], ◌∷◌, some, ok, stop, arith, length,
  get_elem?, false,
}
use irid.Base.Bytes.{Bytes}
use irid.Lc.Stop.{error_at}
use irid.Lc.Tokens.{Tok, TokType, tokens_tokenize}
use irid.Lc.Tokens.Order.{Ordered, tokens_tokenize-Ordered}
use irid.Lc.Parser.{is, pe, expect}
use irid.Lc.Parser.Nodes.{Node, Nodes}
use irid.Lc.Parser.Statements.{parse_return, end_statement, parse_block}
use irid.Lc.Parser.Declarations.{parser_parse}
use irid.Lc.Parser.Runs.{At}
use irid.Lc.Parser.Steps.{token, tokcur-eq, toknext-eq}
use irid.Lc.Parser.Runs.File.{IsTree, parser_parse_total}

Ordered-start : (lo hi : ℕ) (toks : List Tok) → Ordered lo toks hi → lo ≤ hi
Ordered-start lo hi [] o = o
Ordered-start lo hi (u ∷ us) (le, o) = omega (arith, Ordered-start (u.pos + u.len) hi us o)

-- A token that stands in order lies before the end.
Ordered-le :
    (lo hi : ℕ) (toks : List Tok) (i : ℕ) {t : Tok}
    → Ordered lo toks hi
    → get_elem? toks i ≡ some t
    → t.pos ≤ hi
Ordered-le lo hi [] i o at = cc
Ordered-le lo hi (u ∷ us) zero {t} (le, o) at =
    let same : u ≡ t = cc in rw (← same) (omega (arith, Ordered-start (u.pos + u.len) hi us o))
Ordered-le lo hi (u ∷ us) (suc i) (le, o) at = Ordered-le (u.pos + u.len) hi us i o at

-- Every source that the tokenizer accepts gets an answer from the parser: the tree of a file, or an error at a
-- place that lies in the source.
pub parse_source_total :
    (source : Bytes) {toks : List Tok}
    → tokens_tokenize source ≡ ok toks
    → ((tree : Node) × (parser_parse toks source ≡ ok tree) × IsTree tree)
      ⊎ ((p : ℕ) × (parser_parse toks source ≡ stop (error_at p)) × (p ≤ length source))
parse_source_total source {toks} h =
    let (ordered, ends) = tokens_tokenize-Ordered source h in
    elim (parser_parse_total toks (length source) source ends) [
      | inl parsed ↦ inl parsed
      | inr (p, e, (i, t, at, place)) ↦
          inr (p, e, rw (← place) (Ordered-le 0 (length source) toks i ordered at))
    ]

-- A `return;` without a value takes its semicolon itself, so that the block wants a second one: any other token
-- than a semicolon or the end of the block, such as the first one of another statement, is an error.
pub return_semicolon :
    (toks : List Tok) (source : Bytes) (i fuel : ℕ) (children : Nodes) (a b : ℕ × ℕ) (t : Tok)
    → At toks (suc i) (token TokType.kw_return a)
    → At toks (suc (suc i)) (token TokType.semicolon b)
    → At toks (suc (suc (suc i))) t
    → is TokType.rbrace t ≡ false
    → is TokType.semicolon t ≡ false
    → parse_block toks source (suc fuel) children i ≡ stop (error_at t.pos)
unfolding parse_block parse_return end_statement expect pe
return_semicolon toks source i fuel children a b t at at' at'' no_brace no_semicolon =
    simp
      (
        toknext-eq toks i at,
        tokcur-eq toks (suc i) at,
        toknext-eq toks (suc i) at',
        toknext-eq toks (suc (suc i)) at'',
        no_brace,
        no_semicolon,
      )
      refl
