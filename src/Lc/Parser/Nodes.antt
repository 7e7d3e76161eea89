-- ===== src/Lc/Parser/Nodes.antt =====
-- lc/src/node.c and lc/src/lc.h: the tree of nodes. A node holds its children in order; the pointer to the
-- parent is left out, since only the compiler's later passes follow it.
use irid.Base.{ℕ, Bool, List, Option, none, some}
use irid.Base.Bytes.{Bytes}
use irid.Lc.Tokens.{Tok}
use irid.Lc.Parser.{ParsedType}

-- `struct node_func_decl`, without its head; a parameter is its type, its place and its name.
pub record FuncDecl : Type 0 where
  pub name : Bytes
  pub params : List (ParsedType × Tok × Bytes)
  pub return_type : Option ParsedType
  pub flags : ℕ
  pub is_variadic : Bool

-- `enum node_type`, with what the structs of the nodes hold behind their heads. An `int` is its 32 bits.
pub data NodeType : Type 0 where
  node_file node_assign node_add node_sub node_mul node_div node_mod : NodeType
  node_cmpeq node_cmpneq node_return node_if node_index : NodeType
  node_func_decl node_func_def : FuncDecl → NodeType
  node_type_decl : Bytes → List (ParsedType × Bytes) → NodeType
  node_var_decl : ParsedType → Bytes → NodeType
  node_call : Tok → NodeType
  node_label node_addr node_loop : Bytes → NodeType
  node_integer : ℕ → NodeType
  node_string : Bytes → NodeType
  node_field : Tok → NodeType

mutual
  -- `struct node`: its type, place, cast and children.
  pub data Node : Type 0 where
    node : NodeType → Option Tok → Option ParsedType → Nodes → Node

  pub data Nodes : Type 0 where
    nil : Nodes
    cons : Node → Nodes → Nodes

-- `node_add_child` on the children: the new one is the last.
unfoldable pub add_child : Nodes → Node → Nodes
add_child nil child = cons child nil
add_child (cons first rest) child = cons first (add_child rest child)

abbrev pub place_of : Node → Option Tok
place_of (node type place cast children) = place

-- The new place and cast of the node under a cast.
unfoldable pub cast_node : Tok → ParsedType → Node → Node
cast_node place into (node type _ _ children) = node type (some place) (some into) children

abbrev pub leaf : NodeType → Tok → Node
leaf type place = node type (some place) none nil

-- A node with two children.
abbrev pub pair : NodeType → Tok → Node → Node → Node
pair type place left right = node type (some place) none (cons left (cons right nil))
