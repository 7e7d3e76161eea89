-- ===== src/Lc/Compiler/Statements.antt =====
-- lc/src/compiler.c and lc/src/comp-loop.c: statements.
use irid.Base.{
  and_then, ℕ, zero, suc, true, false, ◌∷◌, ◌++◌, Option, none, some, ok, if◌then◌else◌, pure, fail,
  ◌>>=◌, ◌>>◌, length, take, drop,
}
use irid.Base.Bytes.{Bytes, codes}
use irid.Lc.Stop.{crash, out_of_fuel}
use irid.Lc.Tokens.{Tok}
use irid.Lc.Types.{type_at, type_is_null, register_resolve}
use irid.Lc.Emit.{Local, OpType, Value}
use irid.Lc.Emit.Blocks.{Block, JmpType, eq, neq, always}
use irid.Lc.Parser.{ParsedType}
use irid.Lc.Parser.Nodes.{
  Node, Nodes, node, nil, cons, place_of, node_cmpeq, node_cmpneq, node_var_decl, node_assign,
  node_call, node_return, node_if, node_loop,
}
use irid.Lc.Compiler.{
  Context, Compile, ce, gets, with_types, make_real_type, add_block, alloc_local, find_local,
  new_label,
}
use irid.Lc.Compiler.Values.{Draft, to_value, or_crash}
use irid.Lc.Compiler.Assign.{compile_assign}
use irid.Lc.Compiler.Calls.{compile_call, convert_node_into_value}

-- `compile_var_decl`.
unfoldable pub compile_var_decl : Option Tok → ParsedType → Bytes → Compile (Unit {0})
compile_var_decl place var_type name = find_local name >>= λ found. elim found [
  | some v ↦ ce place
  | none ↦ do type ← make_real_type var_type; alloc_local type name true; pure tt
]

-- The function with a block at an index.
abbrev pub put_at : ℕ → Block → Context → Context
put_at n block s = record s {
  func = record s.func { blocks = take n s.func.blocks ++ (block ∷ drop n s.func.blocks) };
}

module _ (fuel : ℕ) where
  abbrev convert : Node → Compile Draft
  convert = convert_node_into_value fuel

  -- `compile_return`.
  unfoldable pub compile_return : Option Tok → Nodes → Compile (Unit {0})
  compile_return place children = do
    returned ← gets (λ s. s.func.return_type)
    type ← (elim returned [
      | none ↦ pure none
      | some id ↦ with_types (λ types. type_at types id) >>= λ t. pure (some t)
    ])
    elim children [
      | nil ↦ if type_is_null type then pure tt else ce place
      | cons value more ↦
          if type_is_null type
          then ce (place_of value)
          else convert value >>= λ v. add_block (Block.store_return (to_value false v))
    ]
    add_block (Block.jmp always (codes "E"))

  -- The comparison of an `if`: how to jump, and the sides.
  unfoldable pub compare_node : Node → Compile (JmpType × Draft × Draft)
  compare_node (node node_cmpeq place c (cons left (cons right more))) = do
    l ← convert left
    r ← convert right
    pure (eq, l, r)
  compare_node (node node_cmpneq place c (cons left (cons right more))) = do
    l ← convert left
    r ← convert right
    pure (neq, l, r)
  compare_node (node node_cmpeq place c _) = fail crash
  compare_node (node node_cmpneq place c _) = fail crash
  compare_node (node type place c n) = ce place

  -- `block_alloc` in front of the blocks that the value of the block makes.
  unfoldable pub block_before : (Value → Block) → Node → Compile (Unit {0})
  block_before make value s =
      and_then (convert value s)
        λ v s'. ok (tt, put_at (length s.func.blocks) (make (to_value false v)) s')

  -- `compile_if`, where `place_nodes` puts what stands in the block.
  unfoldable pub compile_if : (Nodes → Compile (Unit {0})) → Nodes → Compile (Unit {0})
  compile_if place_nodes (cons condition body) = do
    yes_label ← new_label b'L'
    no_label ← new_label b'L'
    (jump, left, right) ← compare_node condition
    add_block (Block.cmp (to_value false left) (to_value false right))
    add_block (Block.jmp jump yes_label)
    add_block (Block.jmp always no_label)
    add_block (Block.label yes_label)
    place_nodes body
    add_block (Block.label no_label)
  compile_if place_nodes nil = fail crash

  -- `loop_end`.
  unfoldable pub loop_end : Local → Bytes → Node → Compile (Unit {0})
  loop_end i loop_label end = do
    let current = Value.local i 0 false false
    add_block (Block.store i (Value.op OpType.add current (Value.immediate 1)) 0 none)
    block_before (Block.cmp current) end
    end_label ← new_label b'E'
    add_block (Block.jmp eq end_label)
    add_block (Block.jmp always loop_label)
    add_block (Block.label end_label)

  -- `compile_loop`, with `loop_start`.
  unfoldable pub compile_loop : (Nodes → Compile (Unit {0})) → Bytes → Nodes → Compile (Unit {0})
  compile_loop place_nodes name (cons start (cons end body)) = do
    found ← gets (λ s. register_resolve s.compiler.types (codes "int"))
    int ← or_crash found
    i ← alloc_local int name false
    block_before (λ v. Block.store i v 0 none) start
    loop_label ← new_label b'L'
    add_block (Block.label loop_label)
    place_nodes body
    loop_end i loop_label end
  compile_loop place_nodes name _ = fail crash

-- The walk along the statements of a block.
unfoldable pub walk : (Node → Compile (Unit {0})) → Nodes → Compile (Unit {0})
walk place_node nil = pure tt
walk place_node (cons statement rest) = place_node statement >> walk place_node rest

-- `place_node`, on fuel above the depth of the node.
unfoldable pub place_node : ℕ → Node → Compile (Unit {0})
place_node zero n = fail out_of_fuel
place_node (suc fuel) (node (node_var_decl type name) place c children) =
    compile_var_decl place type name
place_node (suc fuel) (node node_assign place c children) = compile_assign fuel children
place_node (suc fuel) (node (node_call end) place c children) =
    compile_call (convert_node_into_value fuel) place end children
place_node (suc fuel) (node node_return place c children) = compile_return fuel place children
place_node (suc fuel) (node node_if place c children) =
    compile_if fuel (walk (place_node fuel)) children
place_node (suc fuel) (node (node_loop name) place c children) =
    compile_loop fuel (walk (place_node fuel)) name children
place_node (suc fuel) (node type place c children) = ce place
