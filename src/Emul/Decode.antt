-- ===== src/Emul/Decode.antt =====
-- include/irid/arch.h and the `switch` of cpu::mainloop: what the bytes at the instruction pointer say.
use irid.Base.{ℕ, ◌+◌, List, [], ◌∷◌, ◌==◌, if◌then◌else◌, ok}
use irid.Base.Results.{◌>>=◌}
use irid.Emul.Cpu.{CpuState, Running, u16, read16}
use irid.Emul.Registers.{ip, read8}
use irid.Emul.Instructions.{Operation, Comparison}

-- An instruction with its operands: numbers of registers, bytes and words.
pub data Instruction : Type 0 where
  nop cpucall rti sti dsi cfs ret : Instruction
  push push8 push16 pop null not callr jmp jeq call : ℕ → Instruction
  load store load16 store16 jnz shr shr8 shl shl8 : ℕ → ℕ → Instruction
  operation operation_imm : Operation → ℕ → ℕ → Instruction
  comparison comparison8 comparison16 : Comparison → ℕ → ℕ → Instruction

-- Which operands the instruction reads: a byte or a word behind the opcode, two bytes, or a byte and a word.
pub data Form : Type 0 where
  plain : Instruction → Form
  byte word : (ℕ → Instruction) → Form
  bytes byte_word : (ℕ → ℕ → Instruction) → Form

-- The forms with a register, a byte and a word at one opcode and the two behind it; a byte and a word are
-- both taken as they are.
abbrev operation_forms : ℕ → Operation → List (ℕ × Form) → List (ℕ × Form)
operation_forms op o rest =
    (op, Form.bytes (operation o))
    ∷ (op + 1, Form.bytes (operation_imm o))
    ∷ (op + 2, Form.byte_word (operation_imm o))
    ∷ rest

abbrev comparison_forms : ℕ → Comparison → List (ℕ × Form) → List (ℕ × Form)
comparison_forms op o rest =
    (op, Form.bytes (comparison o))
    ∷ (op + 1, Form.bytes (comparison8 o))
    ∷ (op + 2, Form.byte_word (comparison16 o))
    ∷ rest

-- The `switch`.
abbrev pub forms : List (ℕ × Form)
forms =
    (0x01, Form.plain cpucall)
    ∷ (0x02, Form.plain rti)
    ∷ (0x03, Form.plain sti)
    ∷ (0x04, Form.plain dsi)
    ∷ (0x10, Form.byte push)
    ∷ (0x11, Form.byte push8)
    ∷ (0x12, Form.word push16)
    ∷ (0x13, Form.byte pop)
    ∷ operation_forms 0x14 Operation.mov (
        (0x17, Form.bytes load)
        ∷ (0x18, Form.bytes store)
        ∷ (0x19, Form.byte null)
        ∷ comparison_forms 0x1a Comparison.cmp (
            comparison_forms 0x1d Comparison.cmg (
              comparison_forms 0x20 Comparison.cml (
                (0x23, Form.byte_word load16)
                ∷ (0x24, Form.byte_word store16)
                ∷ (0x25, Form.plain cfs)
                ∷ (0x30, Form.word jmp)
                ∷ (0x31, Form.byte_word jnz)
                ∷ (0x32, Form.word jeq)
                ∷ (0x33, Form.word call)
                ∷ (0x34, Form.byte callr)
                ∷ (0x35, Form.plain ret)
                ∷ operation_forms 0x36 Operation.add (
                    operation_forms 0x39 Operation.sub (
                      operation_forms 0x3c Operation.and (
                        operation_forms 0x3f Operation.or (
                          (0x42, Form.byte not)
                          ∷ (0x43, Form.bytes shr)
                          ∷ (0x44, Form.bytes shr8)
                          ∷ (0x45, Form.bytes shl)
                          ∷ (0x46, Form.bytes shl8)
                          ∷ operation_forms 0x47 Operation.mul []))))))))

-- An opcode that no case takes does nothing.
abbrev pub find_form : List (ℕ × Form) → ℕ → Form
find_form [] op = Form.plain nop
find_form ((code, form) ∷ fs) op = if code == op then form else find_form fs op

-- The operands are read at the places behind the opcode; addresses are of type u16.
unfoldable pub read_form : Form → ℕ → CpuState → Running Instruction
read_form (Form.plain i) at c = ok i
read_form (Form.byte f) at c = read8 (u16 (at + 1)) c >>= λ a. ok (f a)
read_form (Form.word f) at c = read16 (u16 (at + 1)) c >>= λ a. ok (f a)
read_form (Form.bytes f) at c =
    read8 (u16 (at + 1)) c >>= λ a. read8 (u16 (at + 2)) c >>= λ b. ok (f a b)
read_form (Form.byte_word f) at c =
    read8 (u16 (at + 1)) c >>= λ a. read16 (u16 (at + 2)) c >>= λ b. ok (f a b)

-- The instruction at the instruction pointer.
unfoldable pub fetch : CpuState → Running Instruction
fetch c = read8 (c.reg ip) c >>= λ op. read_form (find_form forms op) (c.reg ip) c
