-- ===== src/Lc/Parser/Shape.antt =====
-- The trees that the parser builds: which children a node of each type has, and which nodes have a place.
use irid.Base.{List, ℕ, ◌≡◌, refl, Bool, true, false, Option, some, none, ok}
use irid.Base.Bytes.{Bytes}
use irid.Lc.Tokens.{Tok}
use irid.Lc.Parser.{ParsedType}
use irid.Lc.Parser.Expression.{place_pos}
use irid.Lc.Parser.Nodes.{
  Node, Nodes, NodeType, FuncDecl, node, nil, cons, add_child, cast_node, node_assign, node_add,
  node_sub, node_mul, node_div, node_mod, node_cmpeq, node_cmpneq, node_index, node_label,
  node_integer, node_string, node_addr, node_field, node_call, node_var_decl, node_return, node_if,
  node_loop, node_func_decl, node_func_def, node_type_decl,
}

abbrev pub is_value : NodeType → Bool
is_value (node_label name) = true
is_value (node_addr name) = true
is_value (node_integer value) = true
is_value (node_string value) = true
is_value _ = false

abbrev pub is_pair : NodeType → Bool
is_pair node_assign = true
is_pair node_add = true
is_pair node_sub = true
is_pair node_mul = true
is_pair node_div = true
is_pair node_mod = true
is_pair node_cmpeq = true
is_pair node_cmpneq = true
is_pair node_index = true
is_pair _ = false

mutual
  -- An expression has a place, and expressions as children; a field has its name as the second one.
  pub data IsExpr : Node → Type 0 where
    atom :
        {type : NodeType} {t : Tok} {c : Option ParsedType}
        → is_value type ≡ true
        → IsExpr (node type (some t) c nil)
    two :
        {type : NodeType} {t : Tok} {c : Option ParsedType} {left right : Node}
        → is_pair type ≡ true
        → IsExpr left
        → IsExpr right
        → IsExpr (node type (some t) c (cons left (cons right nil)))
    field :
        {name t : Tok} {c : Option ParsedType} {left : Node} {word : Bytes}
        → IsExpr left
        → IsExpr (
            node
              (node_field name)
              (some t)
              c
              (cons left (cons (node (node_label word) none none nil) nil)))
    call :
        {last t : Tok} {c : Option ParsedType} {callee : Node} {args : Nodes}
        → IsExpr callee
        → AreExprs args
        → IsExpr (node (node_call last) (some t) c (cons callee args))

  pub data AreExprs : Nodes → Type 0 where
    empty : AreExprs nil
    more : {first : Node} {rest : Nodes} → IsExpr first → AreExprs rest → AreExprs (cons first rest)

mutual
  -- A statement of a block.
  pub data IsStatement : Node → Type 0 where
    expr : {e : Node} → IsExpr e → IsStatement e
    var_decl :
        {type : ParsedType} {name : Bytes} {t : Tok}
        → IsStatement (node (node_var_decl type name) (some t) none nil)
    return_nothing : {t : Tok} → IsStatement (node node_return (some t) none nil)
    return_value :
        {t : Tok} {e : Node} → IsExpr e → IsStatement (node node_return (some t) none (cons e nil))
    if_then :
        {t : Tok} {condition : Node} {body : Nodes}
        → IsExpr condition
        → AreStatements body
        → IsStatement (node node_if (some t) none (cons condition body))
    loop :
        {index : Bytes} {t : Tok} {start end : Node} {body : Nodes}
        → IsExpr start
        → IsExpr end
        → AreStatements body
        → IsStatement (node (node_loop index) (some t) none (cons start (cons end body)))

  pub data AreStatements : Nodes → Type 0 where
    empty : AreStatements nil
    more :
        {first : Node} {rest : Nodes}
        → IsStatement first
        → AreStatements rest
        → AreStatements (cons first rest)

-- What stands in a file: declarations, and definitions of functions, each right behind its declaration.
pub data IsFile : Nodes → Type 0 where
  empty : IsFile nil
  func_decl :
      {decl : FuncDecl} {t : Tok} {rest : Nodes}
      → IsFile rest
      → IsFile (cons (node (node_func_decl decl) (some t) none nil) rest)
  func_def :
      {decl : FuncDecl} {t brace : Tok} {body rest : Nodes}
      → AreStatements body
      → IsFile rest
      → IsFile (
          cons
            (node (node_func_decl decl) (some t) none nil)
            (cons (node (node_func_def decl) (some brace) none body) rest))
  type_decl :
      {name : Bytes} {fields : List (ParsedType × Bytes)} {t : Tok} {rest : Nodes}
      → IsFile rest
      → IsFile (cons (node (node_type_decl name fields) (some t) none nil) rest)
  var_decl :
      {type : ParsedType} {name : Bytes} {t : Tok} {rest : Nodes}
      → IsFile rest
      → IsFile (cons (node (node_var_decl type name) (some t) none nil) rest)

-- The place of an expression can be read.
pub IsExpr-place : {e : Node} (s : ℕ) → IsExpr e → (p : ℕ) × (place_pos e s ≡ ok (p, s))
IsExpr-place s (atom {t} _) = (t.pos, refl)
IsExpr-place s (two {t} _ _ _) = (t.pos, refl)
IsExpr-place s (field {t} _) = (t.pos, refl)
IsExpr-place s (call {t} _ _) = (t.pos, refl)

pub cast-IsExpr : {e : Node} (t : Tok) (into : ParsedType) → IsExpr e → IsExpr (cast_node t into e)
unfolding cast_node
cast-IsExpr t into (atom h) = atom h
cast-IsExpr t into (two h l r) = two h l r
cast-IsExpr t into (field l) = field l
cast-IsExpr t into (call f args) = call f args

pub add_child-AreExprs :
    {args : Nodes} {e : Node} → AreExprs args → IsExpr e → AreExprs (add_child args e)
unfolding add_child
add_child-AreExprs empty h = more h empty
add_child-AreExprs (more first rest) h = more first (add_child-AreExprs rest h)

pub add_child-AreStatements :
    {body : Nodes} {s : Node}
    → AreStatements body
    → IsStatement s
    → AreStatements (add_child body s)
unfolding add_child
add_child-AreStatements empty h = more h empty
add_child-AreStatements (more first rest) h = more first (add_child-AreStatements rest h)

pub add_child-IsFile :
    {file : Nodes} {decl : Node}
    → IsFile file
    → IsFile (cons decl nil)
    → IsFile (add_child file decl)
unfolding add_child
add_child-IsFile empty h = h
add_child-IsFile (func_decl rest) h = func_decl (add_child-IsFile rest h)
add_child-IsFile (func_def body rest) h = func_def body (add_child-IsFile rest h)
add_child-IsFile (type_decl rest) h = type_decl (add_child-IsFile rest h)
add_child-IsFile (var_decl rest) h = var_decl (add_child-IsFile rest h)

pub add_function-IsFile :
    {file : Nodes} {decl def : Node}
    → IsFile file
    → IsFile (cons decl (cons def nil))
    → IsFile (add_child (add_child file decl) def)
unfolding add_child
add_function-IsFile empty h = h
add_function-IsFile (func_decl rest) h = func_decl (add_function-IsFile rest h)
add_function-IsFile (func_def body rest) h = func_def body (add_function-IsFile rest h)
add_function-IsFile (type_decl rest) h = type_decl (add_function-IsFile rest h)
add_function-IsFile (var_decl rest) h = var_decl (add_function-IsFile rest h)
