-- ===== src/Lc/Compiler/Values.antt =====
-- lc/src/compiler.c and lc/src/comp-convert.c: the types of values, and nodes as values.
use irid.Base.{
  ℕ, suc, Bool, true, false, List, [], ◌∷◌, ◌++◌, Option, none, some, ok, stop, pure, fail, ◌>>=◌,
  length,
}
use irid.Base.Bytes.{Bytes, codes}
use irid.Lc.Stop.{Compiling, crash, die}
use irid.Lc.Types.{
  TypeId, LeafType, Types, Field, pointer, struct, array, type_at, type_size, find_field,
  field_offset, register_resolve,
}
use irid.Lc.Emit.{Local, OpType, Value}
use irid.Lc.Parser.Nodes.{
  Nodes, NodeType, node, nil, cons, node_label, node_add, node_sub, node_mul, node_cmpeq,
  node_cmpneq,
}
use irid.Lc.Compiler.{Compile, Variable, ce, gets, with_types, add_pointer, find_local, find_global}

-- `struct value` while it is made, with `field_type`. A value with a `cast_type` is `with_cast` of the others.
pub data Draft : Type 0 where
  immediate string : ℕ → Draft
  local global : Local → ℕ → Option TypeId → Bool → Draft
  op : OpType → Draft → Draft → Draft
  addr : Local → Draft
  index : Draft → Draft → ℕ → Bool → Draft
  with_cast : TypeId → Draft → Draft

-- The value that the emitter reads, with `decay_into_pointer`.
abbrev pub to_value : Bool → Draft → Value
to_value decay (immediate n) = Value.immediate n
to_value decay (string id) = Value.string id
to_value decay (local l offset type deref) = Value.local l offset deref decay
to_value decay (global l offset type deref) = Value.global l offset deref decay
to_value decay (op type left right) = Value.op type (to_value false left) (to_value false right)
to_value decay (addr l) = Value.addr l 0
to_value decay (index var offset size deref) =
    Value.index (to_value false var) (to_value false offset) size deref
to_value decay (with_cast type value) = to_value decay value

abbrev pub or_crash : {A : Type 0} → Option A → Compile A
or_crash none = fail crash
or_crash (some a) = pure a

-- What an index into a value of a type has.
abbrev pub base_of : LeafType → Option TypeId
base_of (pointer n base) = some base
base_of (array n base count) = some base
base_of _ = none

-- `resolve_value_type` before the value may decay; `none` is NULL. It starts with `cast_type`, but every case of the
-- `switch` writes over that or returns.
unfoldable pub resolve_type : Draft → Compile (Option TypeId)
resolve_type (immediate n) = gets (λ s. register_resolve s.compiler.types (codes "int"))
resolve_type (string id) = do
  base ← gets (λ s. register_resolve s.compiler.types (codes "char"))
  char ← or_crash base
  type ← add_pointer char
  pure (some type)
resolve_type (local l offset (some type) deref) = pure (some type)
resolve_type (local l offset none deref) = pure (some l.type)
resolve_type (global l offset (some type) deref) = pure (some type)
resolve_type (global l offset none deref) = pure (some l.type)
resolve_type (op type left right) = resolve_type left
resolve_type (addr l) = add_pointer l.type >>= λ type. pure (some type)
resolve_type (index var offset size deref) = resolve_type var >>= λ found. elim found [
  | none ↦ pure none
  | some id ↦ do
    type ← with_types (λ types. type_at types id)
    elim (base_of type) [ none ↦ fail die | some base ↦ pure (some base) ]
]
resolve_type (with_cast type value) = resolve_type value

-- A NULL type, before the test whether it decays: an index has returned it by then, else it is read.
abbrev pub null_type : Draft → Compile (Option TypeId)
null_type (index var offset size deref) = pure none
null_type (with_cast type value) = null_type value
null_type value = fail crash

-- An array becomes a pointer.
unfoldable pub decayed : TypeId → LeafType → Compile (Option TypeId)
decayed id (array n base count) = add_pointer base >>= λ type. pure (some type)
decayed id type = pure (some id)

-- `resolve_value_type` of a value that may decay.
unfoldable pub resolve_value_type : Bool → Draft → Compile (Option TypeId)
resolve_value_type false value = resolve_type value
resolve_value_type true value = resolve_type value >>= λ found. elim found [
  | none ↦ null_type value
  | some id ↦ with_types (λ types. type_at types id) >>= decayed id
]

-- `make_string_id`.
unfoldable pub make_string_id : Bytes → Compile ℕ
make_string_id value s =
    let strings = s.compiler.strings ++ (value ∷ []) in
    ok (length strings, record s { compiler = record s.compiler { strings = strings } })

-- `find_local`, else `find_global`; the flag is whether it is a global.
unfoldable pub find_var : Bytes → Compile (Option (Bool × Variable))
find_var name = find_local name >>= λ found. elim found [
  | some v ↦ pure (some (false, v))
  | none ↦ find_global name >>= λ found'. elim found' [
    | none ↦ pure none
    | some v ↦ pure (some (true, v))
  ]
]

-- The fields of a structure; a pointer is followed once, and the flag is whether it was.
unfoldable pub fields_of : Types → LeafType → Compiling (Bool × Option (List Field))
fields_of types (struct n fields) = ok (false, some fields)
fields_of types (pointer n base) = elim (type_at types base) [
  | stop why ↦ stop why
  | ok (struct m fields) ↦ ok (true, some fields)
  | ok _ ↦ ok (true, none)
]
fields_of types _ = ok (false, none)

abbrev pub type_size_of : Types → TypeId → Compiling ℕ
type_size_of types id = type_size (suc (length types)) types id

-- `convert_field_into_value`. Where there is no such field, the error is at the label of the field, which has
-- no place; where the variable is no structure, it is at the place of the value, which has none either.
unfoldable pub convert_field_into_value : Nodes → Compile Draft
convert_field_into_value
      (cons (node (node_label name) place c n) (cons (node (node_label field) place' c' n') more)) =
    find_var name >>= λ found. elim found [
      | none ↦ ce place
      | some (is_global, v) ↦ do
        type ← with_types (λ types. type_at types v.local.type)
        (deref, fields) ← with_types (λ types. fields_of types type)
        elim fields [
          | none ↦ ce none
          | some fs ↦ elim (find_field fs field) [
            | none ↦ ce place'
            | some field_type ↦ do
              offset ← with_types (λ types. field_offset (type_size_of types) fs field)
              pure (local v.local offset (some field_type) deref)
          ]
        ]
    ]
convert_field_into_value (cons (node (node_label name) place c n) (cons other more)) = ce place
convert_field_into_value (cons (node (node_label name) place c n) nil) = fail crash
convert_field_into_value (cons (node type place c n) more) = ce place
convert_field_into_value nil = fail crash

abbrev pub op_of : NodeType → Option OpType
op_of node_add = some OpType.add
op_of node_sub = some OpType.sub
op_of node_mul = some OpType.mul
op_of node_cmpeq = some OpType.cmpeq
op_of node_cmpneq = some OpType.cmpneq
op_of _ = none
