-- ===== src/Tests/Parser.antt =====
-- The parser of the compiler on small sources.
use irid.Base.{false, true, Bool, ℕ, ◌≤◌, ◌≡◌, ◌⊎◌, refl, List, [], ◌∷◌, ok, stop, arith, length}
use irid.Base.Bytes.{Bytes, codes, equal}
use irid.Base.Results.{◌>>=◌}
use irid.Lc.Stop.{Compiling, error_at}
use irid.Lc.Tokens.{
  Tok, TokType, tokens_tokenize, isalpha, isdigit, isxdigit, isstartsymchar, issymchar, span,
  until_quote, single, punctuation, lex, tnew, tokenize_from, keyword_type, replace_sym,
  replace_syms_with_kw,
}
use irid.Lc.Parser.Nodes.{cast_node, add_child, Node, nil}
use irid.As.Numbers.{strtol, prefixed, number, digits, digit, skip_spaces}
use irid.As.Text.{isspace}
use irid.Lc.Parser.{pe, expect, tok_at, tokcur, toknext, tokpeek, next_is, parse_type}
use irid.Lc.Parser.Declarations.{
  parser_parse, attr_flag, add_flag, collect_params, func_decl_collect_params, parse_return_type,
  parse_func_head, attributes_from, parse_attributes, parse_func, field_count, parse_type_decl_body,
  parse_type_decl, parse_declaration, parse_file,
}
use irid.Lc.Parser.Expression.{
  int_value, operator, parse_parenthesized, parse_addr, parse_cast, parse_value, parse_field,
  parse_call_args, parse_call, parse_index, parse_right, parse_operator, parse_assign,
  parse_expr_inside,
}
use irid.Lc.Parser.Statements.{
  parse_expr, parse_count, parse_var_decl, parse_return, parse_if, parse_for, end_statement,
  parse_block,
}
use irid.Lc.Parser.Runs.{Reported}
use irid.Lc.Parser.Runs.File.{IsTree, parser_parse_total}
use irid.Lc.Parser.Source.{parse_source_total, return_semicolon}
use irid.Lc.Parser.Steps.{token}
use irid.Lc.Parser.Precedence.{Chain, one, infixed, minus, nested, parse_chain, Stops}

-- `func f ( ) { return ; return ; }`, each token at the place of its number.
abbrev returns : List Tok
returns =
    token TokType.kw_func (0, 1)
    ∷ token TokType.sym (1, 1)
    ∷ token TokType.lparen (2, 1)
    ∷ token TokType.rparen (3, 1)
    ∷ token TokType.lbrace (4, 1)
    ∷ token TokType.kw_return (5, 1)
    ∷ token TokType.semicolon (6, 1)
    ∷ token TokType.kw_return (7, 1)
    ∷ token TokType.semicolon (8, 1)
    ∷ token TokType.rbrace (9, 1)
    ∷ token TokType.null (10, 0)
    ∷ []

-- The tokens of `func f(){}`.
abbrev empty_func : List Tok
empty_func =
    token TokType.kw_func (0, 4)
    ∷ token TokType.sym (5, 1)
    ∷ token TokType.lparen (6, 1)
    ∷ token TokType.rparen (7, 1)
    ∷ token TokType.lbrace (8, 1)
    ∷ token TokType.rbrace (9, 1)
    ∷ token TokType.null (10, 0)
    ∷ []

parser_parse_total_example :
    ((tree : Node) × (parser_parse empty_func (codes "func f(){}") ≡ ok tree) × IsTree tree)
    ⊎ ((p : ℕ) × (parser_parse empty_func (codes "func f(){}") ≡ stop (error_at p))
        × Reported empty_func p)
parser_parse_total_example =
    parser_parse_total empty_func 10 (codes "func f(){}") (refl, refl, refl)

return_semicolon_example : parse_block returns (codes "") 1 nil 4 ≡ stop (error_at 7)
return_semicolon_example =
    return_semicolon returns (codes "") 4 0 nil (5, 1) (6, 1) (token TokType.kw_return (7, 1)) refl
      refl refl refl refl

-- `a - b - c ;`, likewise.
abbrev differences : Chain
differences = infixed (0, 1) minus (1, 1) (infixed (2, 1) minus (3, 1) (one (4, 1)))

abbrev difference_tokens : List Tok
difference_tokens =
    token TokType.sym (0, 1)
    ∷ token TokType.minus (1, 1)
    ∷ token TokType.sym (2, 1)
    ∷ token TokType.minus (3, 1)
    ∷ token TokType.sym (4, 1)
    ∷ token TokType.semicolon (5, 1)
    ∷ []

semicolon-Stops : Stops (token TokType.semicolon (5, 1))
unfolding operator
semicolon-Stops = record { dot = refl; lparen = refl; lbracket = refl; op = refl; eq = refl }

parse_chain_example :
    parse_expr_inside difference_tokens (codes "a-b-c;") 3 0
    ≡ ok (nested (codes "a-b-c;") differences, 4)
parse_chain_example =
    parse_chain difference_tokens (codes "a-b-c;") differences (token TokType.semicolon (5, 1)) 0 3
      (refl, (refl, (refl, (refl, (refl, (refl, tt)))))) semicolon-Stops (omega arith)

-- `let int x;`, and its tokens.
abbrev variable : Bytes
variable = codes "let int x;"

abbrev variable_tokens : List Tok
variable_tokens =
    token TokType.kw_let (0, 3)
    ∷ token TokType.sym (4, 3)
    ∷ token TokType.sym (8, 1)
    ∷ token TokType.semicolon (9, 1)
    ∷ token TokType.null (10, 0)
    ∷ []

tokenize_variable : tokens_tokenize variable ≡ ok variable_tokens
unfolding isalpha isdigit isxdigit isstartsymchar issymchar span until_quote single punctuation lex
    tnew tokenize_from keyword_type replace_sym replace_syms_with_kw tokens_tokenize equal
tokenize_variable = refl

parse_source_total_example :
    ((tree : Node) × (parser_parse variable_tokens variable ≡ ok tree) × IsTree tree)
    ⊎ ((p : ℕ) × (parser_parse variable_tokens variable ≡ stop (error_at p))
        × (p ≤ length variable))
parse_source_total_example = parse_source_total variable tokenize_variable

-- Runs of the whole parser: a type, a global array and a function with a loop, a call and a cast are accepted; so
-- is an expression whose parenthesis a bracket closes; a second statement behind `return;` is not.
abbrev parse_source : Bytes → Compiling Node
parse_source source = tokens_tokenize source >>= λ toks. parser_parse toks source

is_accepted : Bytes → Bool
is_accepted source = elim (parse_source source) [ ok tree ↦ true | stop why ↦ false ]

accepts_file :
    is_accepted (
      codes
        "type t { int a[2]; char& b } let int x[3]; func h(int p, ...) -> int [naked] { for (i, 0, 10) { f(&i, p.b)[1] = [char& x] } if (x == 0x10) { return x; } }")
    ≡ true
unfolding isalpha isdigit isxdigit isstartsymchar issymchar span until_quote single punctuation lex
    tnew tokenize_from keyword_type replace_sym replace_syms_with_kw tokens_tokenize equal
    is_accepted pe expect tok_at tokcur toknext tokpeek next_is parse_type add_child cast_node
    int_value operator parse_parenthesized parse_addr parse_cast parse_value parse_field
    parse_call_args parse_call parse_index parse_right parse_operator parse_assign parse_expr_inside
    parse_expr parse_count parse_var_decl parse_return parse_if parse_for end_statement parse_block
    attr_flag add_flag collect_params func_decl_collect_params parse_return_type parse_func_head
    attributes_from parse_attributes parse_func field_count parse_type_decl_body parse_type_decl
    parse_declaration parse_file parser_parse strtol prefixed number digits digit skip_spaces
    isspace
accepts_file = refl

accepts_mismatch : is_accepted (codes "func f() { x = (c]; }") ≡ true
unfolding isalpha isdigit isxdigit isstartsymchar issymchar span until_quote single punctuation lex
    tnew tokenize_from keyword_type replace_sym replace_syms_with_kw tokens_tokenize equal
    is_accepted pe expect tok_at tokcur toknext tokpeek next_is parse_type add_child cast_node
    int_value operator parse_parenthesized parse_addr parse_cast parse_value parse_field
    parse_call_args parse_call parse_index parse_right parse_operator parse_assign parse_expr_inside
    parse_expr parse_count parse_var_decl parse_return parse_if parse_for end_statement parse_block
    attr_flag add_flag collect_params func_decl_collect_params parse_return_type parse_func_head
    attributes_from parse_attributes parse_func field_count parse_type_decl_body parse_type_decl
    parse_declaration parse_file parser_parse strtol prefixed number digits digit skip_spaces
    isspace
accepts_mismatch = refl

rejects_return : is_accepted (codes "func f() { return; g(); }") ≡ false
unfolding isalpha isdigit isxdigit isstartsymchar issymchar span until_quote single punctuation lex
    tnew tokenize_from keyword_type replace_sym replace_syms_with_kw tokens_tokenize equal
    is_accepted pe expect tok_at tokcur toknext tokpeek next_is parse_type add_child cast_node
    int_value operator parse_parenthesized parse_addr parse_cast parse_value parse_field
    parse_call_args parse_call parse_index parse_right parse_operator parse_assign parse_expr_inside
    parse_expr parse_count parse_var_decl parse_return parse_if parse_for end_statement parse_block
    attr_flag add_flag collect_params func_decl_collect_params parse_return_type parse_func_head
    attributes_from parse_attributes parse_func field_count parse_type_decl_body parse_type_decl
    parse_declaration parse_file parser_parse strtol prefixed number digits digit skip_spaces
    isspace
rejects_return = refl
