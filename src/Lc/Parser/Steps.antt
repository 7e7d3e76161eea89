-- ===== src/Lc/Parser/Steps.antt =====
-- The steps of `parse_expr_inside` on known tokens, where nothing follows a value, or an operator.
use irid.Base.{ℕ, suc, ◌≡◌, refl, false, List, none, some, ok, ◌==◌, arith, length, get_elem?-bound}
use irid.Base.Bytes.{Bytes}
use irid.Lc.Tokens.{Tok, TokType, text}
use irid.Lc.Parser.{Parsing, is, tok_at, tokcur, toknext, tokpeek}
use irid.Lc.Parser.Nodes.{Node, NodeType, leaf, pair, node_label}
use irid.Lc.Parser.Expression.{
  operator, parse_value, parse_field, parse_call, parse_index, parse_right, parse_operator,
  parse_assign,
}
use irid.Lc.Parser.Runs.{At}

-- A token with its type left open.
abbrev pub token : TokType → ℕ × ℕ → Tok
token type (pos, len) = record { pos = pos; len = len; type = type }

module _ (toks : List Tok) where
  tok_at-eq : (i s : ℕ) {t : Tok} → At toks i t → tok_at toks i s ≡ ok (t, s)
  unfolding tok_at
  tok_at-eq i s at = rw (tok_at, at) refl

  pub tokcur-eq : (i : ℕ) {t : Tok} → At toks i t → tokcur toks i ≡ ok (t, i)
  unfolding tokcur
  tokcur-eq i at = tok_at-eq i i at

  inside_tokens : (i : ℕ) {t : Tok} → At toks (suc i) t → (suc i == length toks) ≡ false
  inside_tokens i at = let lt = get_elem?-bound toks (suc i) at in ground arith

  pub toknext-eq : (i : ℕ) {t : Tok} → At toks (suc i) t → toknext toks i ≡ ok (t, suc i)
  unfolding toknext
  toknext-eq i at = rw (inside_tokens i at) (tok_at-eq (suc i) (suc i) at)

  pub tokpeek-eq : (i : ℕ) {t : Tok} → At toks (suc i) t → tokpeek toks i ≡ ok (t, i)
  unfolding tokpeek
  tokpeek-eq i at = rw (inside_tokens i at) (tok_at-eq (suc i) i at)

  module _ (source : Bytes) (inside : Parsing Node) where
    pub value-eq :
        (i : ℕ) (place : ℕ × ℕ)
        → At toks i (token TokType.sym place)
        → parse_value toks source inside i
          ≡ ok (
            leaf (node_label (text source (token TokType.sym place))) (token TokType.sym place),
            i,
          )
    unfolding parse_value
    value-eq i place at = simp (tokcur-eq i at) refl

    pub field-eq :
        (i : ℕ) (e : Node) {t : Tok}
        → At toks (suc i) t
        → is TokType.dot t ≡ false
        → parse_field toks source inside e i ≡ ok (e, i)
    unfolding parse_field
    field-eq i e at h = simp (tokpeek-eq i at, h) refl

    pub call-eq :
        (fuel i : ℕ) (e : Node) {t : Tok}
        → At toks (suc i) t
        → is TokType.lparen t ≡ false
        → parse_call toks source inside fuel e i ≡ ok (e, i)
    unfolding parse_call
    call-eq fuel i e at h = simp (tokpeek-eq i at, h) refl

    pub index-eq :
        (i : ℕ) (e : Node) {t : Tok}
        → At toks (suc i) t
        → is TokType.lbracket t ≡ false
        → parse_index toks source inside e i ≡ ok (e, i)
    unfolding parse_index
    index-eq i e at h = simp (tokpeek-eq i at, h) refl

    pub unchanged_operator :
        (i : ℕ) (e : Node) {t : Tok}
        → At toks (suc i) t
        → operator t ≡ none
        → parse_operator toks source inside e i ≡ ok (e, i)
    unfolding parse_operator parse_right
    unchanged_operator i e {t} at h =
        let last : parse_right toks source inside e t (operator t) i ≡ ok (e, i) = rw h refl in
        rw (tokpeek-eq i at) last

    pub applied_operator :
        (i j : ℕ) (e right : Node) {t t' : Tok} {type : NodeType}
        → At toks (suc i) t
        → At toks (suc (suc i)) t'
        → operator t ≡ some type
        → inside (suc (suc i)) ≡ ok (right, j)
        → parse_operator toks source inside e i ≡ ok (pair type t e right, j)
    unfolding parse_operator parse_right
    applied_operator i j e right {t} {type = type} at at' h ih =
        let last : parse_right toks source inside e t (operator t) i ≡ ok (pair type t e right, j) =
          rw h (simp (toknext-eq i at, toknext-eq (suc i) at', ih) refl) in
        rw (tokpeek-eq i at) last

    pub assign-eq :
        (i : ℕ) (e : Node) {t : Tok}
        → At toks (suc i) t
        → is TokType.eq t ≡ false
        → parse_assign toks source inside e i ≡ ok (e, i)
    unfolding parse_assign
    assign-eq i e at h = simp (tokpeek-eq i at, h) refl
