-- ===== src/Lc/Compiler/Functions.antt =====
-- lc/src/comp-func.c and lc/src/compiler.c: functions and the file. Warnings change nothing and are left out.
use irid.Base.{
  ℕ, suc, Bool, true, false, not, List, [], ◌∷◌, ◌++◌, Option, none, some, ok, stop, ◌==◌, ◌%◌, ◌/◌,
  if◌then◌else◌, pure, fail, ◌>>=◌, ◌>>◌, length, set, get_elem?,
}
use irid.Base.Bytes.{Bytes, codes}
use irid.Lc.Stop.{crash}
use irid.Lc.Tokens.{Tok}
use irid.Lc.Types.{
  TypeId, Types, integer, struct, register_resolve, register_alloc_struct, struct_add_field,
}
use irid.Lc.Emit.{Local}
use irid.Lc.Emit.Blocks.{Block, FileBlock}
use irid.Lc.Parser.{ParsedType}
use irid.Lc.Parser.Nodes.{
  Nodes, FuncDecl, node, nil, cons, node_func_decl, node_func_def, node_type_decl, node_var_decl,
}
use irid.Lc.Parser.Declarations.{Param}
use irid.Lc.Compiler.{
  FuncSig, Variable, Compiler, Func, Compile, ce, gets, make_real_type, add_block, alloc_local,
  find_global, find_func,
}
use irid.Lc.Compiler.Statements.{walk, place_node}

-- A function under construction, with no block in it.
abbrev pub empty_func : Func
empty_func = record { locals = []; return_type = none; var_index = 0; label_index = 0; blocks = [] }

-- A change of the compiler.
abbrev modify : (Compiler → Compiler) → Compile (Unit {0})
modify f s = ok (tt, record s { compiler = f s.compiler })

abbrev pub set_func : Func → Compile (Unit {0})
set_func func s = ok (tt, record s { func = func })

unfoldable pub optional_type : Option ParsedType → Compile (Option TypeId)
optional_type none = pure none
optional_type (some type) = make_real_type type >>= λ id. pure (some id)

unfoldable pub real_types : List Param → Compile (List TypeId)
real_types [] = pure []
real_types ((type, place, name) ∷ params) = do
  id ← make_real_type type
  ids ← real_types params
  pure (id ∷ ids)

-- `compile_func_decl`.
unfoldable pub compile_func_decl : Option Tok → FuncDecl → Compile (Unit {0})
compile_func_decl place decl = find_func decl.name >>= λ found. elim found [
  | some sig ↦ ce place
  | none ↦ do
    return_type ← optional_type decl.return_type
    param_types ← real_types decl.params
    let sig : FuncSig = record {
      name = decl.name;
      param_types = param_types;
      return_type = return_type;
      decl = decl;
    }
    modify (λ self. record self { funcs = self.funcs ++ (sig ∷ []) })
]

-- `block_insert_next` behind the first block, for each of the locals in turn.
unfoldable pub insert_locals : Block → List Variable → List Block → List Block
insert_locals first [] behind = first ∷ behind
insert_locals first (v ∷ vs) behind = insert_locals first vs (Block.local v.local ∷ behind)

-- `add_local_blocks`.
unfoldable pub add_local_blocks : Compile (Unit {0})
add_local_blocks s = elim s.func.blocks [
  | [] ↦ (elim s.func.locals [ [] ↦ ok (tt, s) | v ∷ vs ↦ stop crash ])
  | first ∷ behind ↦
      ok (
        tt,
        record s { func = record s.func { blocks = insert_locals first s.func.locals behind } },
      )
]

-- The loop of `func_store_arguments`, from argument `i` on.
unfoldable pub store_arguments : ℕ → List TypeId → List Param → Compile (Unit {0})
store_arguments i [] params = pure tt
store_arguments i (type ∷ types) [] = fail crash
store_arguments i (type ∷ types) ((parsed, place, name) ∷ params) = do
  arg ← alloc_local type name false
  add_block (Block.store_arg arg i)
  store_arguments (suc i) types params

-- `func_store_arguments`.
unfoldable pub func_store_arguments : FuncDecl → Compile (Unit {0})
func_store_arguments decl = find_func decl.name >>= λ found. elim found [
  | none ↦ fail crash
  | some sig ↦ store_arguments 0 sig.param_types decl.params
]

-- ATTR_NAKED and ATTR_LOCAL.
abbrev pub is_naked : FuncDecl → Bool
is_naked decl = decl.flags % 2 == 1

abbrev pub is_local : FuncDecl → Bool
is_local decl = decl.flags / 2 % 2 == 1

-- `compile_func` from the preamble on; `naked` functions have none.
unfoldable pub compile_body : Bool → ℕ → FuncDecl → Nodes → Compile FileBlock
compile_body naked fuel decl body = do
  if naked then pure tt else add_block Block.preamble
  func_store_arguments decl
  walk (place_node fuel) body
  add_local_blocks
  add_block (Block.label (codes "E"))
  if naked then pure tt else add_block Block.epilogue
  gets (λ s. FileBlock.func (not (is_local decl)) decl.name s.func.blocks)

-- `compile_func`: its block in the file. `fuel` is for the depth of the nodes.
unfoldable pub compile_func : ℕ → FuncDecl → Nodes → Compile FileBlock
compile_func fuel decl body = do
  return_type ← optional_type decl.return_type
  set_func (record empty_func { return_type = return_type })
  compile_body (is_naked decl) fuel decl body

-- `type_struct_add_field` on the type at an index.
unfoldable pub add_field : TypeId → TypeId → Bytes → Types → Types
add_field id type name types = elim (get_elem? types id) [
  | some (struct n fields) ↦ set types id (struct n (struct_add_field fields type name))
  | _ ↦ types
]

unfoldable pub add_fields : TypeId → List (ParsedType × Bytes) → Compile (Unit {0})
add_fields id [] = pure tt
add_fields id ((parsed, name) ∷ fields) = do
  type ← make_real_type parsed
  modify (λ self. record self { types = add_field id type name self.types })
  add_fields id fields

-- `compile_type_decl`.
unfoldable pub compile_type_decl :
    Option Tok → Bytes → List (ParsedType × Bytes) → Compile (Unit {0})
compile_type_decl place name fields =
    gets (λ s. register_resolve s.compiler.types name) >>= λ found. elim found [
      | some id ↦ ce place
      | none ↦ do
        id ← gets (λ s. length s.compiler.types)
        modify (λ self. record self { types = (register_alloc_struct self.types name).1 })
        add_fields id fields
    ]

-- `compile_global`.
unfoldable pub compile_global : Option Tok → ParsedType → Bytes → Compile (Unit {0})
compile_global place parsed name = find_global name >>= λ found. elim found [
  | some v ↦ ce place
  | none ↦ do
    type ← make_real_type parsed
    modify λ self.
        let local : Local = record {
          type = type;
          name = name;
          is_global = true;
          block = self.fresh;
        } in
        record self {
          globals = self.globals ++ (record { local = local; has_decl = true } ∷ []);
          fresh = suc self.fresh;
        }
]

-- The first walk along the tree, for declarations.
unfoldable pub compile_declarations : Nodes → Compile (Unit {0})
compile_declarations nil = pure tt
compile_declarations (cons (node (node_func_decl decl) place c n) rest) =
    compile_func_decl place decl >> compile_declarations rest
compile_declarations (cons (node (node_type_decl name fields) place c n) rest) =
    compile_type_decl place name fields >> compile_declarations rest
compile_declarations (cons (node (node_var_decl type name) place c n) rest) =
    compile_global place type name >> compile_declarations rest
compile_declarations (cons other rest) = compile_declarations rest

-- The second walk, for the definitions of functions.
unfoldable pub compile_functions : ℕ → Nodes → Compile (List FileBlock)
compile_functions fuel nil = pure []
compile_functions fuel (cons (node (node_func_def decl) place c body) rest) = do
  one ← compile_func fuel decl body
  blocks ← compile_functions fuel rest
  pure (one ∷ blocks)
compile_functions fuel (cons other rest) = compile_functions fuel rest

-- `add_global_blocks`: the last global first.
unfoldable pub global_blocks : List Variable → List FileBlock
global_blocks [] = []
global_blocks (v ∷ vs) = global_blocks vs ++ (FileBlock.global v.local ∷ [])

-- The string blocks, numbered_name from one on.
unfoldable pub string_blocks : ℕ → List Bytes → List FileBlock
string_blocks id [] = []
string_blocks id (value ∷ values) = FileBlock.string id value ∷ string_blocks (suc id) values

-- `add_builtin_types`.
abbrev pub builtin_types : Types
builtin_types = integer (codes "int") 16 ∷ integer (codes "char") 8 ∷ []

-- `compiler_compile`: the blocks of the file.
unfoldable pub compiler_compile : ℕ → Nodes → Compile (List FileBlock)
compiler_compile fuel tree = do
  modify (λ _. record { types = builtin_types; globals = []; strings = []; funcs = []; fresh = 0 })
  compile_declarations tree
  functions ← compile_functions fuel tree
  gets λ s. functions ++ (global_blocks s.compiler.globals ++ string_blocks 1 s.compiler.strings)
