-- ===== src/Lc/Compiler/Assign.antt =====
-- lc/src/comp-assign.c: assignments.
use irid.Base.{ℕ, false, List, Option, none, some, ok, stop, if◌then◌else◌, pure, fail, ◌>>=◌}
use irid.Base.Bytes.{Bytes}
use irid.Lc.Stop.{Compiling, crash}
use irid.Lc.Tokens.{Tok}
use irid.Lc.Types.{TypeId, Types, Field, pointer, struct, array, type_at, find_field, field_offset}
use irid.Lc.Emit.{Local, Value}
use irid.Lc.Emit.Blocks.{Block}
use irid.Lc.Parser.Nodes.{Node, Nodes, node, nil, cons, node_label, node_field, node_index}
use irid.Lc.Compiler.{Compile, Variable, ce, with_types, add_block}
use irid.Lc.Compiler.Values.{Draft, to_value, type_size_of, find_var}
use irid.Lc.Compiler.Calls.{convert_node_into_value}

-- `resolve_local`.
unfoldable pub resolve_local : Option Tok → Bytes → Compile Variable
resolve_local place name =
    find_var name >>= λ found. elim found [ none ↦ ce place | some (is_global, v) ↦ pure v ]

unfoldable pub base_fields : Types → TypeId → Compiling (Option (List Field))
base_fields types id = elim (type_at types id) [
  | stop why ↦ stop why
  | ok (struct n fields) ↦ ok (some fields)
  | ok _ ↦ ok none
]

-- The fields of the structure that a variable is, points to or has as its elements (`get_underlying_type`).
unfoldable pub struct_fields : Types → TypeId → Compiling (Option (List Field))
struct_fields types id = elim (type_at types id) [
  | stop why ↦ stop why
  | ok (struct n fields) ↦ ok (some fields)
  | ok (pointer n base) ↦ base_fields types base
  | ok (array n base count) ↦ base_fields types base
  | ok _ ↦ ok none
]

-- `resolve_field`: the variable and the offset of the field. The warning about a variable that is no structure
-- reads its declaration.
unfoldable pub resolve_field : Nodes → Compile (Local × ℕ)
resolve_field
      (cons (node (node_label name) place c n) (cons (node (node_label field) p c' n') more)) =
    do
      v ← resolve_local place name
      fields ← with_types (λ types. struct_fields types v.local.type)
      elim fields [
        | none ↦ if v.has_decl then ce place else fail crash
        | some fs ↦ elim (find_field fs field) [
          | none ↦ ce place
          | some type ↦ do
            offset ← with_types (λ types. field_offset (type_size_of types) fs field)
            pure (v.local, offset)
        ]
      ]
resolve_field (cons (node (node_label name) place c n) (cons other more)) = do
  v ← resolve_local place name
  fields ← with_types (λ types. struct_fields types v.local.type)
  elim fields [ none ↦ if v.has_decl then ce place else fail crash | some fs ↦ ce place ]
resolve_field (cons (node (node_label name) place c n) nil) = fail crash
resolve_field (cons (node type place c n) more) = ce place
resolve_field nil = fail crash

-- Where a store goes: a variable, an offset in it and an index.
abbrev pub Target : Type 0
Target = Option (Local × ℕ) × Option Value

module _ (fuel : ℕ) where
  abbrev convert : Node → Compile Draft
  convert = convert_node_into_value fuel

  unfoldable pub convert_first : Nodes → Compile Value
  convert_first nil = fail crash
  convert_first (cons at more) = convert at >>= λ i. pure (to_value false i)

  -- `resolve_index`.
  unfoldable pub resolve_index : Nodes → Compile Target
  resolve_index (cons (node (node_label name) place c n) more) = do
    v ← resolve_local place name
    i ← convert_first more
    pure (some (v.local, 0), some i)
  resolve_index (cons (node (node_field name) place c n) more) = do
    field ← resolve_field n
    i ← convert_first more
    pure (some field, some i)
  resolve_index (cons (node type place c n) more) = ce place
  resolve_index nil = fail crash

  -- `assign_var`; to anything else there is no variable.
  unfoldable pub assign_var : Node → Compile Target
  assign_var (node (node_label name) place c n) =
      resolve_local place name >>= λ v. pure (some (v.local, 0), none)
  assign_var (node (node_field name) place c n) =
      resolve_field n >>= λ field. pure (some field, none)
  assign_var (node node_index place c n) = resolve_index n
  assign_var _ = pure (none, none)

  -- `compile_assign`. The emitter reads the variable that the store is to.
  unfoldable pub compile_assign : Nodes → Compile (Unit {0})
  compile_assign (cons var (cons value more)) = do
    (target, at) ← assign_var var
    v ← convert value
    elim target [
      | none ↦ fail crash
      | some (l, offset) ↦ add_block (Block.store l (to_value false v) offset at)
    ]
  compile_assign _ = fail crash
