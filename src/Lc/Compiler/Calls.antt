-- ===== src/Lc/Compiler/Calls.antt =====
-- lc/src/comp-call.c, lc/src/comp-asm.c and lc/src/comp-convert.c: calls, and every node as a value. `convert`
-- stands for `convert_node_into_value` in the code that calls it again.
use irid.Base.{
  ℕ, zero, suc, Bool, true, false, not, ◌&&◌, List, [], ◌∷◌, ◌++◌, Option, none, some, ok, ◌==◌,
  ltb, map, if◌then◌else◌, pure, fail, ◌>>=◌, ◌>>◌, length, get_elem?,
}
use irid.Base.Bytes.{Bytes, codes, equal}
use irid.Lc.Stop.{crash, out_of_fuel}
use irid.Lc.Tokens.{Tok}
use irid.Lc.Types.{TypeId, LeafType, pointer, array, type_at, type_cmp, type_is_null}
use irid.Lc.Emit.{OpType}
use irid.Lc.Emit.Blocks.{Block}
use irid.Lc.Parser.Nodes.{
  Node, Nodes, NodeType, node, nil, cons, place_of, node_integer, node_string, node_label,
  node_call, node_field, node_addr, node_index,
}
use irid.Lc.Compiler.{
  Compile, FuncSig, ce, with_types, make_real_type, add_block, alloc_local, find_local, find_func,
  numbered_name,
}
use irid.Lc.Compiler.Values.{
  Draft, immediate, string, local, global, op, addr, index, with_cast, to_value, or_crash, base_of,
  type_size_of, resolve_value_type, make_string_id, find_var, convert_field_into_value, op_of,
}

-- A value with its `decay_into_pointer` and `place`.
pub record Arg : Type 0 where
  pub value : Draft
  pub decay : Bool
  pub place : Option Tok

-- `decay_arrays_to_pointers`, on one argument: the type that is expected, and the types that both are made of.
unfoldable pub decays : LeafType → LeafType → Compile Bool
decays (array n base count) (pointer m base') = do
  type ← with_types (λ types. type_at types base)
  type' ← with_types (λ types. type_at types base')
  pure (type_cmp type type')
decays _ _ = pure false

unfoldable pub decay_arrays_to_pointers : List Arg → List TypeId → Compile (List Arg)
decay_arrays_to_pointers [] params = pure []
decay_arrays_to_pointers (arg ∷ args) [] = pure (arg ∷ args)
decay_arrays_to_pointers (arg ∷ args) (param ∷ params) = do
  found ← resolve_value_type false arg.value
  id ← or_crash found
  type ← with_types (λ types. type_at types id)
  expected ← with_types (λ types. type_at types param)
  decay ← decays type expected
  rest ← decay_arrays_to_pointers args params
  pure (record arg { decay = decay } ∷ rest)

-- The loop of `validate_call_args`.
unfoldable pub validate_types : List Arg → List TypeId → Compile (Unit {0})
validate_types args [] = pure tt
validate_types [] (param ∷ params) = fail crash
validate_types (arg ∷ args) (param ∷ params) = resolve_value_type arg.decay arg.value >>= λ found.
    elim found [
      | none ↦ ce arg.place
      | some id ↦ do
        type ← with_types (λ types. type_at types id)
        expected ← with_types (λ types. type_at types param)
        if type_cmp expected type then validate_types args params else ce arg.place
    ]

-- `validate_call_args`; `end` is the place of the end of the call.
unfoldable pub validate_call_args : Tok → List Arg → FuncSig → Compile (Unit {0})
validate_call_args end args sig =
    if ltb (length args) (length sig.param_types)
    then ce (some end)
    else if not sig.decl.is_variadic && ltb (length sig.param_types) (length args)
    then elim (get_elem? args (length sig.param_types)) [
      | none ↦ fail crash
      | some arg ↦ ce arg.place
    ]
    else validate_types args sig.param_types

-- `compile_asm_call`, on the children of the call.
unfoldable pub compile_asm_call : Option Tok → Nodes → Compile (Unit {0})
compile_asm_call place (cons label (cons (node (node_string source) p c n) more)) =
    add_block (Block.asm source)
compile_asm_call place (cons label (cons (node type p c n) more)) = ce p
compile_asm_call place _ = ce place

-- A name from `var_index++`.
unfoldable pub new_name : Compile Bytes
new_name s = ok (
  numbered_name b'%' s.func.var_index,
  record s { func = record s.func { var_index = suc s.func.var_index } },
)

abbrev is_pointer_type : LeafType → Bool
is_pointer_type (pointer n base) = true
is_pointer_type _ = false

module _ (convert : Node → Compile Draft) where
  -- The arguments of a call, of which there are at most four (MAX_ARG); `args` are those so far.
  unfoldable pub collect_args : List Arg → Nodes → Compile (List Arg)
  collect_args args nil = pure args
  collect_args args (cons arg more) =
      if length args == 4
      then ce (place_of arg)
      else convert arg >>= λ value.
          collect_args
            (args ++ (record { value = value; decay = false; place = place_of arg } ∷ [])) more

  -- `compile_call`, on the places and the children of the call.
  unfoldable pub compile_call : Option Tok → Tok → Nodes → Compile (Unit {0})
  compile_call place end (cons (node (node_label name) p c n) params) =
      if equal name (codes "__asm")
      then compile_asm_call place (cons (node (node_label name) p c n) params)
      else find_func name >>= λ found. elim found [
        | none ↦ ce p
        | some sig ↦ do
          args ← collect_args [] params
          decayed ← decay_arrays_to_pointers args sig.param_types
          validate_call_args end decayed sig
          add_block (Block.call sig.name (map (λ arg. to_value arg.decay arg.value) decayed))
      ]
  compile_call place end (cons (node type p c n) params) = ce p
  compile_call place end nil = fail crash

  -- `convert_call_node_into_value`: the result is kept in a variable of its own.
  unfoldable pub convert_call_node_into_value : Option Tok → Tok → Nodes → Compile Draft
  convert_call_node_into_value place end (cons (node (node_label name) p c n) params) =
      find_func name >>= λ found. elim found [
        | none ↦ ce p
        | some sig ↦ elim sig.return_type [
          | none ↦ ce p
          | some id ↦ do
            type ← with_types (λ types. type_at types id)
            if type_is_null (some type) then ce p else pure tt
            result_name ← new_name
            result ← alloc_local id result_name false
            compile_call place end (cons (node (node_label name) p c n) params)
            add_block (Block.store_result result 0)
            pure (local result 0 none false)
        ]
      ]
  convert_call_node_into_value place end (cons (node type p c n) params) = ce p
  convert_call_node_into_value place end nil = fail crash

  -- A variable or an element, an operation, and the other nodes.
  unfoldable pub convert_index : Option Tok → Nodes → Compile Draft
  convert_index place (cons left (cons right more)) = do
    var ← convert left
    found ← resolve_value_type false var
    id ← or_crash found
    type ← with_types (λ types. type_at types id)
    elim (base_of type) [
      | none ↦ ce place
      | some base ↦ do
        size ← with_types (λ types. type_size_of types base)
        offset ← convert right
        pure (index var offset size (is_pointer_type type))
    ]
  convert_index place _ = fail crash

  unfoldable pub convert_op : Option Tok → Option OpType → Nodes → Compile Draft
  convert_op place none children = ce place
  convert_op place (some type) (cons left (cons right more)) = do
    l ← convert left
    r ← convert right
    pure (op type l r)
  convert_op place (some type) _ = ce place

  unfoldable pub convert_type : NodeType → Option Tok → Nodes → Compile Draft
  convert_type (node_integer n) place children = pure (immediate n)
  convert_type (node_string value) place children = make_string_id value >>= λ id. pure (string id)
  convert_type (node_label name) place children = find_var name >>= λ found. elim found [
    | none ↦ ce place
    | some (is_global, v) ↦
        pure (if is_global then global v.local 0 none false else local v.local 0 none false)
  ]
  convert_type (node_call end) place children = convert_call_node_into_value place end children
  convert_type (node_field name) place children = convert_field_into_value children
  convert_type (node_addr name) place children =
      find_local name >>= λ found. elim found [ none ↦ ce place | some v ↦ pure (addr v.local) ]
  convert_type node_index place children = convert_index place children
  convert_type type place children = convert_op place (op_of type) children

-- `convert_node_into_value`, on fuel above the depth of the node.
unfoldable pub convert_node_into_value : ℕ → Node → Compile Draft
convert_node_into_value zero n = fail out_of_fuel
convert_node_into_value (suc fuel) (node type place cast children) = do
  value ← convert_type (convert_node_into_value fuel) type place children
  elim cast [
    | none ↦ pure value
    | some into ↦ make_real_type into >>= λ cast_type. pure (with_cast cast_type value)
  ]
