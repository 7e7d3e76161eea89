-- ===== src/Lc/Parser/Expression.antt =====
-- lc/src/parser.c: expressions. A first value is followed by what can stand behind one, each at most once and in
-- this order: a field, a call, an index, an operator, an assignment. The tokens stand in order in the source, so
-- the length of a place that the parser makes is never negative.
use irid.Base.{
  ℕ, zero, suc, ◌+◌, ◌-◌, ◌^◌, ◌%◌, true, false, List, Option, none, some, leb, if◌then◌else◌, pure,
  fail, take, drop, ◌>>=◌, ◌>>◌,
}
use irid.Base.Bytes.{Bytes}
use irid.As.Numbers.{strtol, int_of_char}
use irid.Lc.Stop.{crash, out_of_fuel}
use irid.Lc.Tokens.{Tok, TokType, text, peek}
use irid.Lc.Parser.{Parsing, is, pe, expect, tokcur, toknext, tokpeek, next_is, parse_type}
use irid.Lc.Parser.Nodes.{
  node_assign, node_add, node_sub, node_mul, node_div, node_mod, node_cmpeq, node_cmpneq,
  node_index, node_call, node_label, node_addr, node_integer, node_string, node_field, Node, Nodes,
  NodeType, node, nil, cons, add_child, place_of, cast_node, leaf, pair,
}

-- A token of the parser's own, from a place in the source to the end of a token.
abbrev pub virtual_tok : ℕ → Tok → Tok
virtual_tok start last = record {
  pos = start;
  len = (last.pos + last.len) - start;
  type = TokType.null;
}

-- `strtol(.., 0)` as an `int`; a value that is no `long` becomes the greatest or the least one.
unfoldable pub int_value : Bytes → ℕ
int_value word = elim (strtol word) [
  | none ↦ 0
  | some (false, n) ↦ if leb (2 ^ 63) n then 2 ^ 32 - 1 else n % 2 ^ 32
  | some (true, n) ↦ if leb (2 ^ 63) n then 0 else (2 ^ 32 - n % 2 ^ 32) % 2 ^ 32
]

-- `node->place->pos`.
abbrev pub place_pos : Node → Parsing ℕ
place_pos e = elim (place_of e) [ none ↦ fail crash | some place ↦ pure place.pos ]

-- The node for an operator token.
unfoldable pub operator : Tok → Option NodeType
operator tok =
    if is TokType.plus tok
    then some node_add
    else if is TokType.minus tok
    then some node_sub
    else if is TokType.star tok
    then some node_mul
    else if is TokType.slash tok
    then some node_div
    else if is TokType.percent tok
    then some node_mod
    else if is TokType.cmpeq tok
    then some node_cmpeq
    else if is TokType.cmpneq tok
    then some node_cmpneq
    else none

-- `inside` stands for `parse_expr_inside` in the code that calls it again.
module _ (toks : List Tok) (source : Bytes) (inside : Parsing Node) where
  -- `'(' expr ')'`; what stands in the place of the closing parenthesis is not looked at.
  unfoldable pub parse_parenthesized : Parsing Node
  parse_parenthesized = do toknext toks; e ← inside; toknext toks; pure e

  -- `'&' symbol`.
  unfoldable pub parse_addr : Tok → Parsing Node
  parse_addr first = do
    tok ← next_is toks TokType.sym
    pure (leaf (node_addr (text source tok)) (virtual_tok first.pos tok))

  -- `'[' type expr ']'`.
  unfoldable pub parse_cast : Tok → Parsing Node
  parse_cast first = do
    toknext toks
    into ← parse_type toks source
    toknext toks
    e ← inside
    last ← next_is toks TokType.rbracket
    pure (cast_node (virtual_tok first.pos last) into e)

  -- The first value.
  unfoldable pub parse_value : Parsing Node
  parse_value = tokcur toks >>= λ tok.
      if is TokType.lparen tok
      then parse_parenthesized
      else if is TokType.sym tok
      then pure (leaf (node_label (text source tok)) tok)
      else if is TokType.num tok
      then pure (leaf (node_integer (int_value (text source tok))) tok)
      else if is TokType.str tok
      then pure (leaf (node_string (take (tok.len - 2) (drop (tok.pos + 1) source))) tok)
      else if is TokType.char tok
      then pure (leaf (node_integer (int_of_char (peek tok.pos source))) tok)
      else if is TokType.ampersand tok
      then parse_addr tok
      else if is TokType.lbracket tok
      then parse_cast tok
      else pe tok

  -- `expr '.' symbol`.
  unfoldable pub parse_field : Node → Parsing Node
  parse_field left = tokpeek toks >>= λ tok.
      if is TokType.dot tok
      then (do
        toknext toks
        name ← toknext toks
        start ← place_pos left
        expect TokType.sym name
        let label = node (node_label (text source name)) none none nil
        pure (pair (node_field name) (virtual_tok start name) left label))
      else pure left

  -- `parse_call_args`, on fuel; `args` are the children of the call so far.
  unfoldable pub parse_call_args : ℕ → Nodes → Parsing Nodes
  parse_call_args zero args = fail out_of_fuel
  parse_call_args (suc fuel) args = tokcur toks >>= λ first.
      if is TokType.rparen first then pure args else (do
        arg ← inside
        tok ← toknext toks
        if is TokType.rparen tok
            then pure (add_child args arg)
            else if is TokType.comma tok
            then toknext toks >> parse_call_args fuel (add_child args arg)
            else pe tok)

  -- `expr '(' .. ')'`.
  unfoldable pub parse_call : ℕ → Node → Parsing Node
  parse_call fuel left = tokpeek toks >>= λ tok.
      if is TokType.lparen tok
      then (do
        toknext toks
        toknext toks
        start ← place_pos left
        args ← parse_call_args fuel (cons left nil)
        last ← tokcur toks
        pure (node (node_call last) (some (virtual_tok start last)) none args))
      else pure left

  -- `expr '[' expr ']'`; what stands in the place of the closing bracket is not looked at.
  unfoldable pub parse_index : Node → Parsing Node
  parse_index left = tokpeek toks >>= λ tok.
      if is TokType.lbracket tok
      then (do
        toknext toks
        toknext toks
        start ← place_pos left
        index ← inside
        toknext toks
        last ← tokcur toks
        pure (pair node_index (virtual_tok start last) left index))
      else pure left

  -- `expr operator expr`, once the operator is known: all that follows it is its right side.
  unfoldable pub parse_right : Node → Tok → Option NodeType → Parsing Node
  parse_right left tok none = pure left
  parse_right left tok (some type) = do
    toknext toks
    toknext toks
    right ← inside
    pure (pair type tok left right)

  unfoldable pub parse_operator : Node → Parsing Node
  parse_operator left = tokpeek toks >>= λ tok. parse_right left tok (operator tok)

  -- `expr '=' expr`.
  unfoldable pub parse_assign : Node → Parsing Node
  parse_assign left = tokpeek toks >>= λ tok.
      if is TokType.eq tok
      then (do
        toknext toks
        toknext toks
        start ← place_pos left
        right ← inside
        last ← tokcur toks
        pure (pair node_assign (virtual_tok start last) left right))
      else pure left

-- `parse_expr_inside`, on fuel for the calls of itself and the arguments of a call.
unfoldable pub parse_expr_inside : List Tok → Bytes → ℕ → Parsing Node
parse_expr_inside toks source zero = fail out_of_fuel
parse_expr_inside toks source (suc fuel) = do
  let inside = parse_expr_inside toks source fuel
  value ← parse_value toks source inside
  tokpeek toks
  access ← parse_field toks source inside value
  call ← parse_call toks source inside fuel access
  index ← parse_index toks source inside call
  operation ← parse_operator toks source inside index
  parse_assign toks source inside operation
