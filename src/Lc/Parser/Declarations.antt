-- ===== src/Lc/Parser/Declarations.antt =====
-- lc/src/parser.c: functions, types and the file.
use irid.Base.{
  ℕ, zero, suc, Bool, true, false, List, [], ◌∷◌, ◌++◌, Option, none, some, ok, stop, ◌==◌,
  if◌then◌else◌, pure, fail, length, ◌>>=◌, ◌>>◌,
}
use irid.Base.Bytes.{Bytes, codes, equal}
use irid.Lc.Stop.{Compiling, out_of_fuel}
use irid.Lc.Tokens.{Tok, TokType, text}
use irid.Lc.Parser.{
  Parsing, ParsedType, is, pe, expect, tokcur, toknext, tokpeek, next_is, parse_type,
}
use irid.Lc.Parser.Nodes.{
  Node, Nodes, FuncDecl, node, nil, add_child, leaf, node_file, node_func_decl, node_func_def,
  node_type_decl,
}
use irid.Lc.Parser.Expression.{int_value}
use irid.Lc.Parser.Statements.{parse_var_decl, parse_block}

-- What `func_decl_add_param` adds: a type, a place and a name.
abbrev pub Param : Type 0
Param = ParsedType × Tok × Bytes

-- `attr_flag`: ATTR_NAKED is 1, ATTR_LOCAL is 2, and 0 stands for an unknown attribute.
unfoldable pub attr_flag : Bytes → ℕ
attr_flag name =
    if equal name (codes "naked") then 1 else if equal name (codes "local") then 2 else 0

-- `flags |= flag` for the flags 1 and 2.
unfoldable pub add_flag : ℕ → ℕ → ℕ
add_flag flags flag = if flags == 0 then flag else if flags == flag then flag else 3

module _ (toks : List Tok) (source : Bytes) where
  -- The loop of `func_decl_collect_params`, on fuel, from the token that `tokcur` reads; whether the
  -- function is variadic, and the parameters.
  unfoldable pub collect_params : ℕ → List Param → Parsing (Bool × List Param)
  collect_params zero params = fail out_of_fuel
  collect_params (suc fuel) params = tokcur toks >>= λ first.
      if is TokType.threedot first then toknext toks >> pure (true, params) else (do
        expect TokType.sym first
        type ← parse_type toks source
        name ← next_is toks TokType.sym
        let params' = params ++ ((type, name, text source name) ∷ [])
        tok ← toknext toks
        if is TokType.rparen tok
            then pure (false, params')
            else if is TokType.comma tok
            then (λ sel. collect_params fuel params' (suc sel))
            else pe tok)

  -- `func_decl_collect_params`.
  unfoldable pub func_decl_collect_params : Parsing (Bool × List Param)
  func_decl_collect_params = toknext toks >>= λ tok.
      if is TokType.rparen tok then pure (false, []) else collect_params (length toks) []

  -- The optional return type.
  unfoldable pub parse_return_type : Parsing (Option ParsedType)
  parse_return_type = tokpeek toks >>= λ tok.
      if is TokType.arrow tok
      then (do
        toknext toks
        next_is toks TokType.sym
        type ← parse_type toks source
        pure (some type))
      else pure none

  -- `parse_func_head`: the place of the name, and the declaration.
  unfoldable pub parse_func_head : Parsing (Tok × FuncDecl)
  parse_func_head = do
    funcname ← next_is toks TokType.sym
    next_is toks TokType.lparen
    (is_variadic, params) ← func_decl_collect_params
    tok ← tokcur toks
    expect TokType.rparen tok
    return_type ← parse_return_type
    pure (
      funcname,
      record {
        name = text source funcname;
        params = params;
        return_type = return_type;
        flags = 0;
        is_variadic = is_variadic;
      },
    )

  -- The loop of `parse_attributes`, on fuel.
  unfoldable pub attributes_from : ℕ → ℕ → Parsing ℕ
  attributes_from zero flags = fail out_of_fuel
  attributes_from (suc fuel) flags = toknext toks >>= λ name.
      if is TokType.rbracket name then pure flags else (do
        expect TokType.sym name
        let flag = attr_flag (text source name)
        if flag == 0 then pe name else pure tt
        tok ← toknext toks
        if is TokType.rbracket tok
            then pure (add_flag flags flag)
            else (expect TokType.comma tok >> attributes_from fuel (add_flag flags flag)))

  unfoldable pub parse_attributes : Parsing ℕ
  parse_attributes = do
    tok ← tokcur toks
    expect TokType.lbracket tok
    attributes_from (length toks) 0

  -- `parse_func`, which adds a declaration, and a definition if there is a body, to the children.
  unfoldable pub parse_func : Nodes → Parsing Nodes
  parse_func children = do
    first ← tokcur toks
    expect TokType.kw_func first
    (place, head) ← parse_func_head
    tok ← toknext toks
    if is TokType.semicolon tok
        then pure (add_child children (leaf (node_func_decl head) place))
        else (do
          flags ← (if is TokType.lbracket tok then parse_attributes else pure 0)
          brace ← (if is TokType.lbracket tok then toknext toks else pure tok)
          expect TokType.lbrace brace
          body ← parse_block toks source (length toks) nil
          let decl = record head { flags = flags }
          pure (
              add_child (add_child children (leaf (node_func_decl decl) place))
                (node (node_func_def decl) (some brace) none body)))

  -- The number of an array field, with its closing bracket, behind the opening one.
  unfoldable pub field_count : Parsing ℕ
  field_count = do
    size ← next_is toks TokType.num
    next_is toks TokType.rbracket
    pure (int_value (text source size))

  -- The loop of `parse_type_decl_body`, on fuel, with the fields so far.
  unfoldable pub parse_type_decl_body :
      ℕ → List (ParsedType × Bytes) → Parsing (List (ParsedType × Bytes))
  parse_type_decl_body zero fields = fail out_of_fuel
  parse_type_decl_body (suc fuel) fields = tokcur toks >>= λ first.
      if is TokType.rbrace first then pure fields else (do
        expect TokType.sym first
        type ← parse_type toks source
        name ← next_is toks TokType.sym
        tok ← toknext toks
        count ← (if is TokType.lbracket tok then field_count else pure 0)
        last ← (if is TokType.lbracket tok then toknext toks else pure tok)
        let fields' = fields ++ ((record type { count = count }, text source name) ∷ [])
        if is TokType.rbrace last then pure fields' else (do
          expect TokType.semicolon last
          toknext toks
          parse_type_decl_body fuel fields'))

  -- `parse_type_decl`.
  unfoldable pub parse_type_decl : Parsing Node
  parse_type_decl = do
    first ← tokcur toks
    expect TokType.kw_type first
    name ← next_is toks TokType.sym
    next_is toks TokType.lbrace
    toknext toks
    fields ← parse_type_decl_body (length toks) []
    pure (leaf (node_type_decl (text source name) fields) name)

  -- A declaration, by its first token.
  unfoldable pub parse_declaration : Tok → Nodes → Parsing Nodes
  parse_declaration tok children =
      if is TokType.kw_func tok
      then parse_func children
      else if is TokType.kw_type tok
      then parse_type_decl >>= (λ decl. pure (add_child children decl))
      else if is TokType.kw_let tok
      then parse_var_decl toks source true >>= (λ decl. pure (add_child children decl))
      else pe tok

  -- The loop of `parser_parse`, on fuel, with the children of the file so far.
  unfoldable pub parse_file : ℕ → Nodes → Parsing Nodes
  parse_file zero children = fail out_of_fuel
  parse_file (suc fuel) children = tokcur toks >>= λ tok.
      if is TokType.null tok
      then pure children
      else parse_declaration tok children >>= (λ more sel. parse_file fuel more (suc sel))

  -- `parser_parse`: the tree.
  unfoldable pub parser_parse : Compiling Node
  parser_parse = elim (parse_file (length toks) nil 0) [
    | stop why ↦ stop why
    | ok (children, _) ↦ ok (node node_file none none children)
  ]
