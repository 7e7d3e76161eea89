-- ===== src/Tests/Compiler.antt =====
-- The compiler from nodes to blocks on small functions.
use irid.Base.{◌≡◌, refl, true, false, none, some, List, [], ◌∷◌, ◌++◌, ok}
use irid.Base.Bytes.{codes, equal}
use irid.Lc.Tokens.{Tok, TokType}
use irid.Lc.Types.{register_resolve, find_type, type_at, type_is_null}
use irid.Lc.Parser.{ParsedType}
use irid.Lc.Parser.Nodes.{
  node_loop, Node, Nodes, FuncDecl, node, nil, cons, leaf, pair, node_integer, node_label,
  node_call, node_assign, node_var_decl,
}
use irid.Lc.Emit.{Local, OpType, Value}
use irid.Lc.Emit.Blocks.{Block, FileBlock, eq, always}
use irid.Lc.Compiler.{
  new_label, Context, found_type, make_real_type, add_block, alloc_local, find_variable, find_sig,
  decimal, numbered_name,
}
use irid.Lc.Compiler.Values.{Draft, immediate, find_var}
use irid.Lc.Compiler.Calls.{
  decay_arrays_to_pointers, validate_types, validate_call_args, collect_args, compile_call,
  new_name, convert_call_node_into_value, convert_type, convert_node_into_value,
}
use irid.Lc.Compiler.Assign.{resolve_local, assign_var, compile_assign}
use irid.Lc.Compiler.Statements.{
  loop_end, compile_loop, block_before, compile_var_decl, walk, place_node,
}
use irid.Lc.Compiler.Functions.{
  builtin_types, optional_type, insert_locals, add_local_blocks, store_arguments,
  func_store_arguments, compile_body, compile_func,
}
use irid.Lc.Compiler.Frame.{IsFramed, compile_func-IsFramed, value_comes_late}

abbrev place : Tok
place = record { pos = 0; len = 1; type = TokType.sym }

abbrev int : ParsedType
int = record { name = codes "int"; is_pointer = false; place = place; count = 0 }

-- `func f() -> int`.
abbrev decl : FuncDecl
decl = record {
  name = codes "f";
  params = [];
  return_type = some int;
  flags = 0;
  is_variadic = false;
}

abbrev start : Context
start = record {
  compiler = record {
    types = builtin_types;
    globals = [];
    strings = [];
    funcs = record { name = codes "f"; param_types = []; return_type = some 0; decl = decl } ∷ [];
    fresh = 0;
  };
  func = record { locals = []; return_type = none; var_index = 0; label_index = 0; blocks = [] };
}

-- `let int x; x = 1;`.
abbrev body : Nodes
body = cons (leaf (node_var_decl int (codes "x")) place) (
    cons
      (pair node_assign place (leaf (node_label (codes "x")) place) (leaf (node_integer 1) place))
      nil)

abbrev x : Local
x = record { type = 0; name = codes "x"; is_global = false; block = 0 }

abbrev compiled : FileBlock
compiled = FileBlock.func true (codes "f") (
    Block.preamble
    ∷ Block.local x
    ∷ Block.store x (Value.immediate 1) 0 none
    ∷ Block.label (codes "E")
    ∷ Block.epilogue
    ∷ [])

abbrev end : Context
end = record {
  compiler = record start.compiler { fresh = 1 };
  func = record {
    locals = record { local = x; has_decl = true } ∷ [];
    return_type = some 0;
    var_index = 0;
    label_index = 0;
    blocks =
        Block.preamble
        ∷ Block.local x
        ∷ Block.store x (Value.immediate 1) 0 none
        ∷ Block.label (codes "E")
        ∷ Block.epilogue
        ∷ [];
  };
}

compile_f : compile_func 3 decl body start ≡ ok (compiled, end)
unfolding compile_func compile_body optional_type make_real_type found_type register_resolve
    find_type equal add_block func_store_arguments store_arguments find_sig walk place_node
    compile_var_decl find_variable alloc_local compile_assign assign_var resolve_local find_var
    convert_node_into_value convert_type add_local_blocks insert_locals
compile_f = refl

compile_func-IsFramed_example : IsFramed decl compiled end
compile_func-IsFramed_example = compile_func-IsFramed 3 decl body start refl compile_f

-- `f()`, whose result is kept in `%0`.
abbrev call_f : Node
call_f = node (node_call place) (some place) none (cons (leaf (node_label (codes "f")) place) nil)

abbrev i : Local
i = record { type = 0; name = codes "i"; is_global = false; block = 0 }

abbrev result : Local
result = record { type = 0; name = codes "%0"; is_global = false; block = 1 }

abbrev looped : Context
looped = record start {
  compiler = record start.compiler { fresh = 1 };
  func = record start.func { locals = record { local = i; has_decl = false } ∷ [] };
}

abbrev made : List Block
made = Block.call (codes "f") [] ∷ Block.store_result result 0 ∷ []

abbrev called : Context
called = record {
  compiler = record start.compiler { fresh = 2 };
  func = record looped.func {
    locals = looped.func.locals ++ (record { local = result; has_decl = false } ∷ []);
    var_index = 1;
    blocks = made;
  };
}

int_resolved : register_resolve builtin_types (codes "int") ≡ some 0
unfolding register_resolve find_type equal
int_resolved = refl

looped_is : alloc_local 0 (codes "i") false start ≡ ok (i, looped)
unfolding alloc_local
looped_is = refl

convert_call :
    convert_node_into_value 3 call_f looped ≡ ok (Draft.local result 0 none false, called)
unfolding convert_node_into_value convert_type convert_call_node_into_value find_sig equal type_at
    type_is_null new_name numbered_name decimal alloc_local compile_call collect_args
    decay_arrays_to_pointers validate_call_args validate_types add_block
convert_call = refl

-- `i` from `f()` to 3.
abbrev loop : Node
loop =
    node (node_loop (codes "i")) (some place) none
      (cons call_f (cons (leaf (node_integer 3) place) nil))

abbrev finished : Context
finished = record called {
  func = record called.func {
    label_index = 2;
    blocks =
        Block.store i (Value.local result 0 false false) 0 none
        ∷ Block.call (codes "f") []
        ∷ Block.store_result result 0
        ∷ Block.label (codes "L0")
        ∷ Block.store i (Value.op OpType.add (Value.local i 0 false false) (Value.immediate 1)) 0
            none
        ∷ Block.cmp (Value.local i 0 false false) (Value.immediate 3)
        ∷ Block.jmp eq (codes "E1")
        ∷ Block.jmp always (codes "L0")
        ∷ Block.label (codes "E1")
        ∷ [];
  };
}

loop_is_placed : place_node 4 loop start ≡ ok (tt, finished)
unfolding place_node compile_loop loop_end block_before new_label walk convert_node_into_value
    convert_type convert_call_node_into_value find_sig equal type_at type_is_null new_name
    numbered_name decimal alloc_local compile_call collect_args decay_arrays_to_pointers
    validate_call_args validate_types add_block register_resolve find_type
loop_is_placed = refl

value_comes_late_example :
    (behind : List Block) × (finished.func.blocks
      ≡ ([] ++ (Block.store i (Value.local result 0 false false) 0 none ∷ made)) ++ behind)
value_comes_late_example =
    value_comes_late 3 (codes "i") (some place) none call_f (leaf (node_integer 3) place) nil start
      looped called finished 0 i (Draft.local result 0 none false) made int_resolved looped_is
      convert_call refl loop_is_placed
