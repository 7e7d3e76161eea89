-- ===== src/Lc/Emit.antt =====
-- lc/src/emit.c: from blocks to lines of assembly. A line is the data of one `fprintf`; a C int is its 32 bits
-- as a number.
pub mod Run
pub mod Meaning
pub mod Computes
pub mod Sides
pub mod Expression
pub mod Blocks
pub mod Slots
use irid.Base.{
  ℕ, zero, suc, ◌+◌, ◌*◌, ◌-◌, ◌/◌, ◌%◌, Bool, true, false, not, ◌&&◌, List, [], ◌∷◌, ◌++◌, Option,
  none, some, ◌==◌, ltb, if◌then◌else◌, Result, ok, stop, length,
}
use irid.Base.Bytes.{Bytes}
use irid.Base.Results.{◌>>=◌}
use irid.Emul.Cpu.{Register, sp, bp}
use irid.Lc.Stop.{Compiling, crash, die}
use irid.Lc.Types.{TypeId, Types, LeafType, pointer, array, type_at, type_size, type_element_size}

-- The second operand of an instruction; `global` is `_G_…`, `string` is `_S_…`.
pub data Operand : Type 0 where
  reg : Register → Operand
  int : ℕ → Operand
  global : Bytes → Operand
  string : ℕ → Operand

-- A line of the output.
pub data Line : Type 0 where
  push pop : Register → Line
  mov add sub mul and cmp : Register → Operand → Line
  load store : Register → Register → Line
  cfs ret blank : Line
  call jmp jeq label func export asm comment global_label string_data : Bytes → Line
  string_label resv org call_arg : ℕ → Line

-- `struct local`; `block` tells its block from the others.
pub record Local : Type 0 where
  pub type : TypeId
  pub name : Bytes
  pub is_global : Bool
  pub block : ℕ

-- `enum op_type`.
pub data OpType : Type 0 where
  add sub mul div cmpeq cmpneq : OpType

-- `struct value`, by `enum value_type`: a local or global has its offset, `deref` and
-- `decay_into_pointer`; an index has `index_var`, `index_offset`, `index_elem_size` and `deref`.
pub data Value : Type 0 where
  null : Value
  immediate : ℕ → Value
  local : Local → ℕ → Bool → Bool → Value
  global : Local → ℕ → Bool → Bool → Value
  string : ℕ → Value
  op : OpType → Value → Value → Value
  addr : Local → ℕ → Value
  index : Value → Value → ℕ → Bool → Value

-- `struct emitter` with the options that it reads; `offset` is `emit_offset` of each local's block.
pub record Emitter : Type 0 where
  pub types : Types
  pub f_fold_constants : Bool
  pub f_comment_asm : Bool
  pub f_cmp_literal : Bool
  pub offset : ℕ → ℕ

abbrev pub Lines : Type 0
Lines = List Line

abbrev pub word : ℕ
word = 4294967296

-- Operations on ints; an overflow wraps around.
abbrev pub int_sub : ℕ → ℕ → ℕ
int_sub a b = (a + (word - b % word)) % word

abbrev pub magnitude : ℕ → ℕ
magnitude a = if ltb a 2147483648 then a else word - a

unfoldable pub int_div : ℕ → ℕ → Compiling ℕ
int_div a b =
    let q = magnitude a / magnitude b in
    if b == 0
    then stop crash
    else if ltb a 2147483648
    then ok (if ltb b 2147483648 then q else (word - q) % word)
    else ok (if ltb b 2147483648 then (word - q) % word else q)

-- The `switch` of `fold_constants`.
unfoldable pub fold_result : OpType → ℕ → ℕ → Compiling ℕ
fold_result OpType.add left right = ok ((left + right) % word)
fold_result OpType.sub left right = ok (int_sub left right)
fold_result OpType.mul left right = ok (left * right % word)
fold_result OpType.div left right = int_div left right
fold_result OpType.cmpeq left right = ok (if left == right then 1 else 0)
fold_result OpType.cmpneq left right = ok (if left == right then 0 else 1)

-- `fold_constants`.
unfoldable pub fold_constants : Register → OpType → ℕ → ℕ → Compiling Lines
fold_constants result_register type left right = fold_result type left right >>= λ result.
    ok (Line.mov result_register (Operand.int result) ∷ [])

-- The two immediates of an operation that is folded.
unfoldable pub foldable : Bool → Value → Value → Option (ℕ × ℕ)
foldable true (Value.immediate left) (Value.immediate right) = some (left, right)
foldable _ _ _ = none

-- The last part of `emit_op`: the operation on the result register and r4.
unfoldable pub op_line : Register → OpType → Compiling Lines
op_line r OpType.add = ok (Line.add r (Operand.reg 4) ∷ [])
op_line r OpType.sub = ok (Line.sub r (Operand.reg 4) ∷ [])
op_line r OpType.mul = ok (Line.mul r (Operand.reg 4) ∷ [])
op_line r _ = stop die

-- `emit_op` after the folding, where `right` and `left` are the lines of the two sides.
unfoldable pub op_lines : Register → OpType → Compiling Lines → Compiling Lines → Compiling Lines
op_lines r type right left = do
  rs ← right
  ls ← left
  last ← op_line r type
  ok (rs ++ (Line.push r ∷ (ls ++ (Line.pop 4 ∷ last))))

-- `emit_op`.
unfoldable pub emit_op :
    Register → OpType → Option (ℕ × ℕ) → Compiling Lines → Compiling Lines → Compiling Lines
emit_op r type (some (left, right)) _ _ = fold_constants r type left right
emit_op r type none right left = op_lines r type right left

-- `local_block->emit_offset`; the block of a global has no such member.
unfoldable pub emit_offset : Emitter → Local → Compiling ℕ
emit_offset self l = if l.is_global then stop crash else ok (self.offset l.block)

-- `store_value_addr_into_register`.
unfoldable pub value_addr : Emitter → Register → Value → Compiling Lines
value_addr self r (Value.local l offset deref _) = emit_offset self l >>= λ base. ok (
    if deref
    then Line.mov 4 (Operand.reg bp)
      ∷ Line.sub 4 (Operand.int base)
      ∷ Line.load r 4
      ∷ Line.add r (Operand.int offset)
      ∷ []
    else Line.mov r (Operand.reg bp) ∷ Line.sub r (Operand.int (int_sub base offset)) ∷ [])
value_addr self r (Value.global l _ _ _) = ok (Line.mov r (Operand.global l.name) ∷ [])
value_addr self r _ = stop die

-- The value behind the address in r4, or that address itself.
abbrev pub at_r4 : Register → Bool → Line
at_r4 r decay = if decay then Line.mov r (Operand.reg 4) else Line.load r 4

-- The index in r6 and the base in r4: the element goes to the register.
unfoldable pub index_lines : Register → ℕ → Compiling Lines → Compiling Lines → Compiling Lines
index_lines r size offset base = do
  os ← offset
  bs ← base
  ok (
      os
      ++ (Line.mul 6 (Operand.int size)
          ∷ (bs
              ++ (Line.add 4 (Operand.reg 6)
                  ∷ Line.load r 4
                  ∷ (if size == 1 then Line.and r (Operand.int 255) ∷ [] else [])))))

-- `store_value_into_register`.
unfoldable pub store_value : Emitter → Register → Value → Compiling Lines
store_value self r Value.null = stop die
store_value self r (Value.immediate n) = ok (Line.mov r (Operand.int n) ∷ [])
store_value self r (Value.local l offset deref decay) =
    value_addr self 4 (Value.local l offset deref decay) >>= λ lines.
    ok (lines ++ (at_r4 r decay ∷ []))
store_value self r (Value.global l offset deref decay) =
    value_addr self 4 (Value.global l offset deref decay) >>= λ lines.
    ok (lines ++ (at_r4 r decay ∷ []))
store_value self r (Value.string id) = ok (Line.mov r (Operand.string id) ∷ [])
store_value self r (Value.op type left right) =
    emit_op r type (foldable self.f_fold_constants left right) (store_value self r right)
      (store_value self r left)
store_value self r (Value.addr l offset) = emit_offset self l >>= λ base.
    ok (Line.mov r (Operand.reg bp) ∷ Line.sub r (Operand.int ((base + offset) % word)) ∷ [])
store_value self r (Value.index var offset size deref) =
    let from_value = store_value self 4 var in
    index_lines r size (store_value self 6 offset)
      (if deref then from_value else value_addr self 4 var)
