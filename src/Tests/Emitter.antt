-- ===== src/Tests/Emitter.antt =====
-- The emitter on a small function.
use irid.Base.{◌==◌, if◌then◌else◌, ℕ, ◌≡◌, refl, true, false, List, [], ◌∷◌, none, ok, arith}
use irid.Base.Bytes.{codes}
use irid.Emul.Cpu.{CpuState, sp, bp}
use irid.Lc.Types.{integer, type_at, size_step, type_size}
use irid.Lc.Emit.{
  Line, int_sub, foldable, Operand, Local, OpType, Value, Emitter, Lines, emit_offset, value_addr,
  store_value,
}
use irid.Lc.Emit.Meaning.{IsArith, Plain, calculate, depth, value_of}
use irid.Lc.Emit.Computes.{Computes}
use irid.Lc.Emit.Expression.{Room, store_value_r4}
use irid.Lc.Emit.Blocks.{
  Block, Frame, emit_local, store_local, store_register_into_local, emit_store, emit_block,
  emit_blocks,
}
use irid.Lc.Emit.Slots.{Slots, emit_blocks-Slots}

abbrev no_labels : Operand → ℕ
no_labels o = 0

-- A local variable `x` of 16 bits, in block 0, two bytes below the base pointer.
abbrev x : Local
x = record { type = 0; name = codes "x"; is_global = false; block = 0 }

abbrev y : Local
y = record { type = 0; name = codes "y"; is_global = false; block = 1 }

abbrev emitter : Emitter
emitter = record {
  types = integer (codes "i16") 16 ∷ [];
  f_fold_constants = true;
  f_comment_asm = false;
  f_cmp_literal = true;
  offset = λ b. 2;
}

-- The base pointer is at 0x2000, the stack pointer four bytes below it.
abbrev machine : CpuState
machine = record {
  reg = λ i. if i == bp then 0x2000 else if i == sp then 0x1ffc else 0;
  mem = λ a. if a == 0x1ffe then 7 else 0;
  total_size = 65536;
}

-- `x * 3 - (x + 1)`.
abbrev expression : Value
expression =
    Value.op OpType.sub (Value.op OpType.mul (Value.local x 0 false false) (Value.immediate 3))
      (Value.op OpType.add (Value.local x 0 false false) (Value.immediate 1))

value_of-expression : value_of no_labels emitter machine expression ≡ 13
unfolding value_of calculate
value_of-expression = refl

-- `x + 1`, as the index of an array.
abbrev next : Value
next = Value.op OpType.add (Value.local x 0 false false) (Value.immediate 1)

next-Plain : Plain emitter machine next
unfolding Plain IsArith foldable int_sub
next-Plain = (tt, (refl, refl, omega arith, omega arith, omega arith), omega arith, λ a b n h. cc)

next-Room : Room machine 4 next
unfolding depth
next-Room = record {
  stack = omega arith;
  in_range = omega arith;
  in_memory = omega arith;
  not_sp = λ e. absurd (omega arith);
  not_bp = λ e. absurd (omega arith);
}

next_unfolded : foldable true (Value.local x 0 false false) (Value.immediate 1) ≡ none
unfolding foldable
next_unfolded = refl

store_value_r4_example :
    Computes no_labels machine 4
      (calculate OpType.add
        (value_of no_labels emitter machine (Value.immediate 1))
        (value_of no_labels emitter machine (Value.immediate 1)))
      (store_value emitter 4 next)
store_value_r4_example =
    store_value_r4 no_labels emitter machine OpType.add (Value.local x 0 false false)
      (Value.immediate 1) next-Plain next-Room tt tt next_unfolded

-- Two locals and an assignment to the first.
abbrev blocks : List Block
blocks = Block.local x ∷ Block.local y ∷ Block.store x (Value.immediate 3) 0 none ∷ []

abbrev start : Frame
start = record { emitter = emitter; locals_size = 0 }

abbrev finish : Frame
finish = record {
  emitter = record emitter { offset = λ b. if b == 1 then 4 else if b == 0 then 2 else 2 };
  locals_size = 4;
}

abbrev finish_lines : Lines
finish_lines =
    Line.sub sp (Operand.int 2)
    ∷ Line.sub sp (Operand.int 2)
    ∷ Line.mov 5 (Operand.int 3)
    ∷ Line.mov 4 (Operand.reg bp)
    ∷ Line.sub 4 (Operand.int 2)
    ∷ Line.store 5 4
    ∷ []

emit_two : emit_blocks start blocks ≡ ok (finish_lines, finish)
unfolding type_at size_step type_size emit_offset value_addr store_value emit_local store_local
    store_register_into_local emit_store emit_block emit_blocks
emit_two = refl

emit_blocks-Slots_example : Slots finish.emitter 0 (x ∷ y ∷ []) 4
emit_blocks-Slots_example =
    emit_blocks-Slots start blocks tt (((λ e. absurd (omega arith)), tt), (tt, tt)) emit_two
