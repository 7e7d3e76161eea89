-- ===== src/Lc/Parser/Precedence.antt =====
-- Operators in the parser: what follows an operator is its right side, whatever the operators are.
use mathlib.Core.List.{◌++◌}
use irid.Base.{ℕ, zero, suc, ◌+◌, ◌*◌, ◌<◌, ◌≡◌, refl, false, List, [], ◌∷◌, none, some, ok, arith}
use irid.Base.Bytes.{Bytes}
use irid.Lc.Tokens.{Tok, TokType, text}
use irid.Lc.Parser.{is}
use irid.Lc.Parser.Nodes.{
  Node, NodeType, leaf, pair, node_label, node_add, node_sub, node_mul, node_div, node_mod,
  node_cmpeq, node_cmpneq,
}
use irid.Lc.Parser.Expression.{operator, parse_expr_inside}
use irid.Lc.Parser.Runs.{At}
use irid.Lc.Parser.Steps.{
  token, tokpeek-eq, value-eq, field-eq, call-eq, index-eq, unchanged_operator, applied_operator,
  assign-eq,
}

pub data Operator : Type 0 where
  plus minus star slash percent cmpeq cmpneq : Operator

abbrev pub token_type : Operator → TokType
token_type plus = TokType.plus
token_type minus = TokType.minus
token_type star = TokType.star
token_type slash = TokType.slash
token_type percent = TokType.percent
token_type cmpeq = TokType.cmpeq
token_type cmpneq = TokType.cmpneq

abbrev pub node_type : Operator → NodeType
node_type plus = node_add
node_type minus = node_sub
node_type star = node_mul
node_type slash = node_div
node_type percent = node_mod
node_type cmpeq = node_cmpeq
node_type cmpneq = node_cmpneq

-- Symbols with operators between them, by the places of their tokens.
pub data Chain : Type 0 where
  one : ℕ × ℕ → Chain
  infixed : ℕ × ℕ → Operator → ℕ × ℕ → Chain → Chain

-- The tokens of a chain.
abbrev pub flat : Chain → List Tok
flat (one place) = token TokType.sym place ∷ []
flat (infixed place op at rest) = token TokType.sym place ∷ token (token_type op) at ∷ flat rest

-- The first operator is at the root, and all the others are in its right side.
abbrev pub nested : Bytes → Chain → Node
nested source (one place) = let t = token TokType.sym place in leaf (node_label (text source t)) t
nested source (infixed place op at rest) =
    let t = token TokType.sym place in
    pair (node_type op) (token (token_type op) at) (leaf (node_label (text source t)) t)
      (nested source rest)

abbrev pub operators : Chain → ℕ
operators (one _) = 0
operators (infixed _ _ _ rest) = suc (operators rest)

-- From index `i` on, the tokens are these.
abbrev pub Reads : List Tok → ℕ → List Tok → Type 0
Reads toks i [] = Unit
Reads toks i (t ∷ ts) = At toks i t × Reads toks (suc i) ts

-- The token goes on with no expression.
pub record Stops (t : Tok) : Type 0 where
  pub dot : is TokType.dot t ≡ false
  pub lparen : is TokType.lparen t ≡ false
  pub lbracket : is TokType.lbracket t ≡ false
  pub op : operator t ≡ none
  pub eq : is TokType.eq t ≡ false

operator-eq :
    (op : Operator) (at : ℕ × ℕ) → operator (token (token_type op) at) ≡ some (node_type op)
unfolding operator
operator-eq plus at = refl
operator-eq minus at = refl
operator-eq star at = refl
operator-eq slash at = refl
operator-eq percent at = refl
operator-eq cmpeq at = refl
operator-eq cmpneq at = refl

-- No operator is what may stand in front of it behind a value.
not_suffix :
    (op : Operator) (at : ℕ × ℕ)
    → (is TokType.dot (token (token_type op) at) ≡ false)
      × (is TokType.lparen (token (token_type op) at) ≡ false)
      × (is TokType.lbracket (token (token_type op) at) ≡ false)
not_suffix plus at = (refl, refl, refl)
not_suffix minus at = (refl, refl, refl)
not_suffix star at = (refl, refl, refl)
not_suffix slash at = (refl, refl, refl)
not_suffix percent at = (refl, refl, refl)
not_suffix cmpeq at = (refl, refl, refl)
not_suffix cmpneq at = (refl, refl, refl)

first_symbol :
    (toks : List Tok) (i : ℕ) (c : Chain) (ts : List Tok)
    → Reads toks i (flat c ++ ts)
    → (t : Tok) × At toks i t
first_symbol toks i (one place) ts (at, _) = (_, at)
first_symbol toks i (infixed place op at' rest) ts (at, _) = (_, at)

-- The token behind a chain is the one that ends it.
behind_chain :
    (toks : List Tok) (i : ℕ) (c : Chain) (e : Tok)
    → Reads toks i (flat c ++ (e ∷ []))
    → At toks (suc (i + 2 * operators c)) e
behind_chain toks i (one place) e (_, (at, _)) =
    let same : suc (i + 2 * 0) ≡ suc i = omega arith in rw same at
behind_chain toks i (infixed place op at' rest) e (_, (_, later)) =
    let same : suc (i + 2 * suc (operators rest)) ≡ suc (suc (suc i) + 2 * operators rest) =
      omega arith in
    rw same (behind_chain toks (suc (suc i)) rest e later)

-- Symbols with operators between them, in front of a token that goes on with no expression, are parsed with the
-- first operator at the root and all the others in its right side, whatever the operators are: `a - b - c` is
-- `a - (b - c)`, and `a * b + c` is `a * (b + c)`.
pub parse_chain :
    (toks : List Tok) (source : Bytes) (c : Chain) (e : Tok) (i fuel : ℕ)
    → Reads toks i (flat c ++ (e ∷ []))
    → Stops e
    → operators c < fuel
    → parse_expr_inside toks source fuel i ≡ ok (nested source c, i + 2 * operators c)
unfolding parse_expr_inside
parse_chain toks source c e i zero reads stops enough = absurd (omega arith)
parse_chain toks source (one place) e i (suc fuel) (at, (next, _)) stops enough =
    let inside = parse_expr_inside toks source fuel in
    let same : i + 2 * 0 ≡ i = omega arith in
    rw same (
      simp
        (
          value-eq toks source inside i place at,
          tokpeek-eq toks i next,
          field-eq toks source inside i _ next stops.dot,
          call-eq toks source inside fuel i _ next stops.lparen,
          index-eq toks source inside i _ next stops.lbracket,
          unchanged_operator toks source inside i _ next stops.op,
          assign-eq toks source inside i _ next stops.eq,
        )
        refl)
parse_chain toks source (infixed place op at' rest) e i (suc fuel) (at, (next, later)) stops
      enough =
    let inside = parse_expr_inside toks source fuel in
    let (no_dot, no_lparen, no_lbracket) = not_suffix op at' in
    let (t, following) = first_symbol toks (suc (suc i)) rest _ later in
    let same : i + 2 * suc (operators rest) ≡ suc (suc i) + 2 * operators rest = omega arith in
    rw same (
      simp
        (
          value-eq toks source inside i place at,
          tokpeek-eq toks i next,
          field-eq toks source inside i _ next no_dot,
          call-eq toks source inside fuel i _ next no_lparen,
          index-eq toks source inside i _ next no_lbracket,
          applied_operator toks source inside i _ _ _ next following (operator-eq op at')
              (parse_chain toks source rest e (suc (suc i)) fuel later stops (omega arith)),
          assign-eq toks source inside _ _ (behind_chain toks (suc (suc i)) rest e later) stops.eq,
        )
        refl)
