-- ===== src/Lc/Parser/Statements.antt =====
-- lc/src/parser.c: variable declarations, statements and blocks.
use irid.Base.{
  false, ℕ, zero, suc, Bool, List, none, some, if◌then◌else◌, pure, fail, length, ◌>>=◌, ◌>>◌,
}
use irid.Base.Bytes.{Bytes}
use irid.Lc.Stop.{out_of_fuel}
use irid.Lc.Tokens.{Tok, TokType, text}
use irid.Lc.Parser.{Parsing, is, pe, expect, tokcur, toknext, tokpeek, next_is, parse_type}
use irid.Lc.Parser.Nodes.{
  Node, Nodes, node, nil, cons, add_child, leaf, node_var_decl, node_return, node_if, node_loop,
}
use irid.Lc.Parser.Expression.{int_value, parse_expr_inside}

module _ (toks : List Tok) (source : Bytes) where
  -- `parse_expr_inside` with the fuel that is enough at each token.
  unfoldable pub parse_expr : Parsing Node
  parse_expr = parse_expr_inside toks source (length toks)

  -- `'[' number ']'` behind the name of a variable, or no array.
  unfoldable pub parse_count : Parsing ℕ
  parse_count = tokpeek toks >>= λ tok.
      if is TokType.lbracket tok
      then (do
        toknext toks
        size ← next_is toks TokType.num
        next_is toks TokType.rbracket
        pure (int_value (text source size)))
      else pure 0

  -- `parse_var_decl`.
  unfoldable pub parse_var_decl : Bool → Parsing Node
  parse_var_decl end_with_semicolon = do
    first ← tokcur toks
    expect TokType.kw_let first
    next_is toks TokType.sym
    type ← parse_type toks source
    name ← next_is toks TokType.sym
    count ← parse_count
    if end_with_semicolon then (next_is toks TokType.semicolon >> pure tt) else pure tt
    pure (leaf (node_var_decl (record type { count = count }) (text source name)) name)

  -- `parse_return`.
  unfoldable pub parse_return : Parsing Node
  parse_return = do
    first ← tokcur toks
    expect TokType.kw_return first
    tok ← toknext toks
    if is TokType.semicolon tok
        then pure (leaf node_return first)
        else (parse_expr >>= λ e. pure (node node_return (some first) none (cons e nil)))

  -- `parse_if`; `block` stands for `parse_block`, which adds to the children that it is given.
  unfoldable pub parse_if : (Nodes → Parsing Nodes) → Parsing Node
  parse_if block = do
    first ← tokcur toks
    expect TokType.kw_if first
    next_is toks TokType.lparen
    condition ← parse_expr
    next_is toks TokType.lbrace
    children ← block (cons condition nil)
    pure (node node_if (some first) none children)

  -- `parse_for`.
  unfoldable pub parse_for : (Nodes → Parsing Nodes) → Parsing Node
  parse_for block = do
    first ← tokcur toks
    expect TokType.kw_for first
    next_is toks TokType.lparen
    index ← next_is toks TokType.sym
    next_is toks TokType.comma
    toknext toks
    start ← parse_expr
    next_is toks TokType.comma
    toknext toks
    end ← parse_expr
    next_is toks TokType.rparen
    next_is toks TokType.lbrace
    children ← block (cons start (cons end nil))
    pure (node (node_loop (text source index)) (some first) none children)

  -- What follows a statement in `parse_block`; `rest` goes on behind a semicolon.
  unfoldable pub end_statement : Nodes → (Nodes → Parsing Nodes) → Node → Parsing Nodes
  end_statement children rest statement = toknext toks >>= λ tok.
      if is TokType.rbrace tok
      then pure (add_child children statement)
      else if is TokType.semicolon tok
      then rest (add_child children statement)
      else pe tok

  -- `parse_block`, on fuel, which adds the statements to the children of the parent.
  unfoldable pub parse_block : ℕ → Nodes → Parsing Nodes
  parse_block zero children = fail out_of_fuel
  parse_block (suc fuel) children = toknext toks >>= λ tok.
      if is TokType.rbrace tok
      then pure children
      else if is TokType.kw_let tok
      then parse_var_decl false >>= end_statement children (parse_block fuel)
      else if is TokType.kw_return tok
      then parse_return >>= end_statement children (parse_block fuel)
      else if is TokType.kw_if tok
      then parse_if (parse_block fuel) >>= (λ s. parse_block fuel (add_child children s))
      else if is TokType.kw_for tok
      then parse_for (parse_block fuel) >>= (λ s. parse_block fuel (add_child children s))
      else parse_expr >>= end_statement children (parse_block fuel)
