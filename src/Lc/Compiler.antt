-- ===== src/Lc/Compiler.antt =====
-- lc/src/compiler.c: the state of the compiler from nodes to blocks, types and names. `used`, which only warnings
-- read, is left out; of the declaration of a variable, which they read too, it is kept whether there is one.
pub mod Values
pub mod Calls
pub mod Assign
pub mod Statements
pub mod Keeps
pub mod Frame
pub mod Functions
use irid.Base.{
  ℕ, zero, suc, ◌+◌, ◌/◌, ◌%◌, Bool, true, false, List, [], ◌∷◌, ◌++◌, Option, none, some, Result,
  ok, stop, ltb, ◌==◌, if◌then◌else◌, Cmd, pure, fail, ◌>>=◌, length, take,
}
use irid.Base.Bytes.{Bytes, codes, equal}
use irid.Lc.Stop.{Stop, Compiling, crash, error_at}
use irid.Lc.Tokens.{Tok}
use irid.Lc.Types.{
  TypeId, Types, LeafType, kind_of, type_at, type_is_null, type_size, register_resolve,
  register_add_pointer, register_add_array,
}
use irid.Lc.Emit.{Local}
use irid.Lc.Emit.Blocks.{Block}
use irid.Lc.Parser.{ParsedType}
use irid.Lc.Parser.Nodes.{FuncDecl}

-- `struct func_sig`.
pub record FuncSig : Type 0 where
  pub name : Bytes
  pub param_types : List TypeId
  pub return_type : Option TypeId
  pub decl : FuncDecl

-- `struct local`, and whether it has a declaration.
pub record Variable : Type 0 where
  pub local : Local
  pub has_decl : Bool

-- `struct compiler`; `fresh` numbers the blocks of locals and globals.
pub record Compiler : Type 0 where
  pub types : Types
  pub globals : List Variable
  pub strings : List Bytes
  pub funcs : List FuncSig
  pub fresh : ℕ

-- `struct block_func` while its blocks are made.
pub record Func : Type 0 where
  pub locals : List Variable
  pub return_type : Option TypeId
  pub var_index : ℕ
  pub label_index : ℕ
  pub blocks : List Block

pub record Context : Type 0 where
  pub compiler : Compiler
  pub func : Func

abbrev pub Compile : Type 0 → Type 0
Compile = Cmd Stop Context

-- `ce`, which reads the place.
unfoldable pub ce : {A : Type 0} → Option Tok → Compile A
ce none s = stop crash
ce (some place) s = stop (error_at place.pos)

abbrev pub gets : {A : Type 0} → (Context → A) → Compile A
gets f s = ok (f s, s)

-- Code that needs the register of types alone, and code that changes it.
abbrev pub with_types : {A : Type 0} → (Types → Compiling A) → Compile A
with_types f s = elim (f s.compiler.types) [ stop why ↦ stop why | ok a ↦ ok (a, s) ]

abbrev pub set_types : Context → Types → Context
set_types s types = record s { compiler = record s.compiler { types = types } }

abbrev pub on_types : {A : Type 0} → (Types → Compiling (A × Types)) → Compile A
on_types f s = elim (f s.compiler.types) [
  | stop why ↦ stop why
  | ok (a, types) ↦ ok (a, set_types s types)
]

abbrev pub add_pointer : TypeId → Compile TypeId
add_pointer base = on_types (λ types. register_add_pointer types base)

-- `make_real_type`, once the type of the name is looked up.
unfoldable pub found_type : ParsedType → Option TypeId → Compile TypeId
found_type parsed none = ce (some parsed.place)
found_type parsed (some named) = do
  base ← (if parsed.is_pointer then add_pointer named else pure named)
  if parsed.count == 0
      then pure base
      else on_types (λ types. register_add_array types base parsed.count)

-- `make_real_type`.
unfoldable pub make_real_type : ParsedType → Compile TypeId
make_real_type parsed s = found_type parsed (register_resolve s.compiler.types parsed.name) s

-- `block_add_child` on the function.
unfoldable pub add_block : Block → Compile (Unit {0})
add_block b s = ok (tt, record s { func = record s.func { blocks = s.func.blocks ++ (b ∷ []) } })

-- `alloc_local`, with the fields that its callers set.
unfoldable pub alloc_local : TypeId → Bytes → Bool → Compile Local
alloc_local type name has_decl s =
    let local : Local = record {
      type = type;
      name = name;
      is_global = false;
      block = s.compiler.fresh;
    } in
    ok (
      local,
      record {
        compiler = record s.compiler { fresh = suc s.compiler.fresh };
        func = record s.func {
          locals = s.func.locals ++ (record { local = local; has_decl = has_decl } ∷ []);
        };
      },
    )

unfoldable pub find_variable : List Variable → Bytes → Option Variable
find_variable [] name = none
find_variable (v ∷ vs) name = if equal v.local.name name then some v else find_variable vs name

-- `find_local` and `find_global`.
abbrev pub find_local : Bytes → Compile (Option Variable)
find_local name = gets (λ s. find_variable s.func.locals name)

abbrev pub find_global : Bytes → Compile (Option Variable)
find_global name = gets (λ s. find_variable s.compiler.globals name)

unfoldable pub find_sig : List FuncSig → Bytes → Option FuncSig
find_sig [] name = none
find_sig (f ∷ fs) name = if equal f.name name then some f else find_sig fs name

-- `find_func`.
abbrev pub find_func : Bytes → Compile (Option FuncSig)
find_func name = gets (λ s. find_sig s.compiler.funcs name)

-- A number as `%d` prints it, on fuel above its digits.
unfoldable pub decimal : ℕ → ℕ → Bytes
decimal zero n = []
decimal (suc fuel) n =
    let front = decimal fuel (n / 10) in
    if ltb n 10 then (b'0' + n) ∷ [] else front ++ ((b'0' + n % 10) ∷ [])

-- `snprintf(.., 8, "c%d", n)`.
unfoldable pub numbered_name : ℕ → ℕ → Bytes
numbered_name c n = take 7 (c ∷ decimal (suc n) n)

-- A label from `label_index++`.
unfoldable pub new_label : ℕ → Compile Bytes
new_label c s = ok (
  numbered_name c s.func.label_index,
  record s { func = record s.func { label_index = suc s.func.label_index } },
)
