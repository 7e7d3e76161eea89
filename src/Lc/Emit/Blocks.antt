-- ===== src/Lc/Emit/Blocks.antt =====
-- lc/src/emit.c: the blocks of a function, and the file. The comment behind `sub sp` is left out.
use irid.Base.{
  ℕ, suc, ◌+◌, Bool, true, List, [], ◌∷◌, ◌++◌, Option, none, some, ◌==◌, if◌then◌else◌, ok, stop,
  length,
}
use irid.Base.Bytes.{Bytes, codes}
use irid.Base.Results.{◌>>=◌}
use irid.Emul.Cpu.{Register, sp, bp}
use irid.Lc.Stop.{Compiling, die}
use irid.Lc.Types.{int, TypeId, LeafType, pointer, array, type_at, type_size, type_element_size}
use irid.Lc.Emit.{Operand, Line, Lines, Local, Value, Emitter, int_sub, emit_offset, store_value}

-- `enum jmp_type`.
pub data JmpType : Type 0 where
  always eq neq : JmpType

-- `struct block` in a function, by `enum block_type`; `other` is any type that is not emitted.
pub data Block : Type 0 where
  preamble epilogue other : Block
  local : Local → Block
  store : Local → Value → ℕ → Option Value → Block
  store_return : Value → Block
  store_result : Local → ℕ → Block
  store_arg : Local → ℕ → Block
  call : Bytes → List Value → Block
  asm label : Bytes → Block
  jmp : JmpType → Bytes → Block
  cmp : Value → Value → Block

-- `type_size` and `type_element_size`; calls no deeper than there are types.
abbrev pub size_of : Emitter → TypeId → Compiling ℕ
size_of self type = type_size (suc (length self.types)) self.types type

abbrev element_size : Emitter → TypeId → Compiling ℕ
element_size self type = type_element_size (suc (length self.types)) self.types type

-- `emit_func_preamble` and `emit_func_epilogue`.
abbrev pub emit_func_preamble : Lines
emit_func_preamble =
    Line.push bp
    ∷ Line.push 4
    ∷ Line.push 5
    ∷ Line.push 6
    ∷ Line.push 7
    ∷ Line.mov bp (Operand.reg sp)
    ∷ []

abbrev pub emit_func_epilogue : Lines
emit_func_epilogue =
    Line.mov sp (Operand.reg bp)
    ∷ Line.pop 7
    ∷ Line.pop 6
    ∷ Line.pop 5
    ∷ Line.pop 4
    ∷ Line.pop bp
    ∷ []

-- The function's part of the state: `emit_locals_size`, and the offsets of the blocks in the emitter.
pub record Frame : Type 0 where
  pub emitter : Emitter
  pub locals_size : ℕ

-- The frame with room for one more local.
abbrev pub with_local : Frame → Local → ℕ → Frame
with_local func l alloc_size =
    let size = int (func.locals_size + alloc_size) in
    let e = func.emitter in
    record {
      emitter = record e { offset = λ b. if b == l.block then size else e.offset b };
      locals_size = size;
    }

-- `emit_local`.
unfoldable pub emit_local : Frame → Local → Compiling (Lines × Frame)
emit_local func l = size_of func.emitter l.type >>= λ alloc_size.
    ok (Line.sub sp (Operand.int alloc_size) ∷ [], with_local func l alloc_size)

-- The address of an element goes to the scratch register, by the type of the local.
unfoldable pub store_index :
    Emitter → Register → Register → TypeId → ℕ → Value → LeafType → Compiling Lines
store_index self result scratch type access at (array _ _ _) = do
  lines ← store_value self scratch at
  size ← element_size self type
  ok (
      lines
      ++ (Line.mul scratch (Operand.int size)
          ∷ Line.add scratch (Operand.reg bp)
          ∷ Line.sub scratch (Operand.int access)
          ∷ []))
store_index self result scratch type access at (pointer _ _) = do
  lines ← store_value self result at
  size ← element_size self type
  ok (
      Line.push result
      ∷ (lines
          ++ (Line.mul result (Operand.int size)
              ∷ Line.mov scratch (Operand.reg bp)
              ∷ Line.sub scratch (Operand.int access)
              ∷ Line.load scratch scratch
              ∷ Line.add scratch (Operand.reg result)
              ∷ Line.pop result
              ∷ [])))
store_index self result scratch type access at _ = stop die

-- The part of `store_register_into_local` for a local that is not global.
unfoldable pub store_local :
    Emitter → Register → Register → Local → ℕ → Option Value → Compiling Lines
store_local self result scratch l access none = ok (
    Line.mov scratch (Operand.reg bp)
    ∷ Line.sub scratch (Operand.int access)
    ∷ Line.store result scratch
    ∷ [])
store_local self result scratch l access (some at) = do
  type ← type_at self.types l.type
  lines ← store_index self result scratch l.type access at type
  ok (lines ++ (Line.store result scratch ∷ []))

-- `store_register_into_local`.
unfoldable pub store_register_into_local :
    Emitter → Register → Register → Local → ℕ → Option Value → Compiling Lines
store_register_into_local self result scratch l offset index =
    if l.is_global
    then ok (Line.mov scratch (Operand.global l.name) ∷ Line.store result scratch ∷ [])
    else emit_offset self l >>= λ base.
        store_local self result scratch l (int_sub base offset) index

-- A comment, where `f_comment_asm` asks for it.
abbrev commented : Emitter → Bytes → Lines → Lines
commented self text lines = if self.f_comment_asm then Line.comment text ∷ lines else lines

-- `emit_store`.
unfoldable pub emit_store : Emitter → Local → Value → ℕ → Option Value → Compiling Lines
emit_store self l value offset index = do
  lines ← store_value self 5 value
  rest ← store_register_into_local self 5 4 l offset index
  ok (commented self (codes "store " ++ l.name) (lines ++ rest))

-- The loop of `emit_call`, from argument `i` on.
unfoldable pub emit_args : Emitter → ℕ → List Value → Compiling Lines
emit_args self i [] = ok []
emit_args self i (arg ∷ args) = do
  lines ← store_value self i arg
  rest ← emit_args self (i + 1) args
  ok (if self.f_comment_asm then Line.call_arg i ∷ (lines ++ rest) else lines ++ rest)

-- `emit_call`; r0 is register 0.
unfoldable pub emit_call : Emitter → Bytes → List Value → Compiling Lines
emit_call self name args = emit_args self 0 args >>= λ lines.
    ok (commented self (codes "call " ++ name) (lines ++ (Line.call name ∷ [])))

-- `emit_jmp`.
unfoldable pub emit_jmp : JmpType → Bytes → Lines
emit_jmp always dest = Line.jmp dest ∷ []
emit_jmp eq dest = Line.jeq dest ∷ []
emit_jmp neq dest = Line.cfs ∷ Line.jeq dest ∷ []

-- The right side of `emit_cmp`.
unfoldable pub cmp_right : Emitter → Bool → Value → Compiling Lines
cmp_right self true (Value.immediate n) = ok (Line.cmp 5 (Operand.int n) ∷ [])
cmp_right self _ right =
    store_value self 6 right >>= λ lines. ok (lines ++ (Line.cmp 5 (Operand.reg 6) ∷ []))

-- `emit_cmp`.
unfoldable pub emit_cmp : Emitter → Value → Value → Compiling Lines
emit_cmp self left right = do
  lines ← store_value self 5 left
  rest ← cmp_right self self.f_cmp_literal right
  ok (commented self (codes "cmp") (lines ++ rest))

-- The frame does not change.
abbrev pub kept : Frame → Compiling Lines → Compiling (Lines × Frame)
kept func m = m >>= λ lines. ok (lines, func)

-- The `switch` of `emit_func`.
unfoldable pub emit_block : Frame → Block → Compiling (Lines × Frame)
emit_block func Block.preamble = ok (emit_func_preamble, record func { locals_size = 0 })
emit_block func (Block.local l) = emit_local func l
emit_block func Block.epilogue = ok (emit_func_epilogue, func)
emit_block func (Block.store l value offset index) =
    kept func (emit_store func.emitter l value offset index)
emit_block func (Block.call name args) = kept func (emit_call func.emitter name args)
emit_block func (Block.asm source) = ok (Line.asm source ∷ [], func)
emit_block func (Block.label name) = ok (Line.label name ∷ [], func)
emit_block func (Block.jmp type dest) = ok (emit_jmp type dest, func)
emit_block func (Block.store_return value) = kept func (store_value func.emitter 0 value)
emit_block func (Block.store_result l offset) =
    kept func (store_register_into_local func.emitter 0 4 l offset none)
emit_block func (Block.store_arg l arg) =
    kept func (store_register_into_local func.emitter arg 4 l 0 none)
emit_block func (Block.cmp left right) = kept func (emit_cmp func.emitter left right)
emit_block func Block.other = stop die

-- The loop of `emit_func`.
unfoldable pub emit_blocks : Frame → List Block → Compiling (Lines × Frame)
emit_blocks func [] = ok ([], func)
emit_blocks func (b ∷ bs) =
    emit_block func b >>= λ one. emit_blocks one.1 bs >>= λ rest. ok (one.0 ++ rest.0, rest.1)

-- `emit_func`.
unfoldable pub emit_func : Frame → Bool → Bytes → List Block → Compiling (Lines × Frame)
emit_func func exported name blocks = emit_blocks func blocks >>= λ body.
    let start = Line.func name ∷ (body.0 ++ (Line.ret ∷ [])) in
    ok (Line.blank ∷ (if exported then Line.export name ∷ start else start), body.1)

-- A block of the file: `struct block_func`, `struct block_string` or `struct block_global`.
pub data FileBlock : Type 0 where
  func : Bool → Bytes → List Block → FileBlock
  string : ℕ → Bytes → FileBlock
  global : Local → FileBlock

-- The `switch` of `emitter_emit`, with `emit_string` and `emit_global`.
unfoldable pub emit_file_block : Emitter → FileBlock → Compiling (Lines × Emitter)
emit_file_block self (FileBlock.func exported name blocks) =
    emit_func (record { emitter = self; locals_size = 0 }) exported name blocks >>= λ out.
    ok (out.0, out.1.emitter)
emit_file_block self (FileBlock.string id value) =
    ok (Line.string_label id ∷ Line.string_data value ∷ [], self)
emit_file_block self (FileBlock.global l) =
    size_of self l.type >>= λ size. ok (Line.global_label l.name ∷ Line.resv size ∷ [], self)

-- The loop of `emitter_emit`.
unfoldable pub emit_file_blocks : Emitter → List FileBlock → Compiling Lines
emit_file_blocks self [] = ok []
emit_file_blocks self (b ∷ bs) =
    emit_file_block self b >>= λ one. emit_file_blocks one.1 bs >>= λ rest. ok (one.0 ++ rest)

-- `emitter_emit` on an open file; `origin` is there if `set_origin` is true.
unfoldable pub emitter_emit : Emitter → Option ℕ → List FileBlock → Compiling Lines
emitter_emit self origin blocks =
    let head : Lines = elim origin [ none ↦ [] | some n ↦ Line.org n ∷ [] ] in
    emit_file_blocks self blocks >>= λ lines.
    ok (Line.comment (codes "Generated by irid-lc") ∷ (head ++ lines))
