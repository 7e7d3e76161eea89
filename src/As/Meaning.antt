-- ===== src/As/Meaning.antt =====
-- doc/arch and include/irid/arch.h: which instruction of the processor a line of assembly is taken as, told from
-- the operands alone, and which lines are in the language of doc/arch, so that this is what they name.
use irid.Base.{
  ℕ, Bool, true, false, not, ◌&&◌, ◌||◌, List, [], ◌∷◌, none, some, ltb, if◌then◌else◌, ok, stop,
}
use irid.Base.Bytes.{Bytes, codes}
use irid.Base.Results.{◌>>=◌, or_stop}
use irid.Emul.Cpu.{u16, u8}
use irid.Emul.Instructions.{Operation, Comparison}
use irid.Emul.Decode.{Instruction}
use irid.As.Numbers.{Assembling, error, is_negative, parse_int}
use irid.As.Symbols.{is_valid_symbol, entry}
use irid.As.State.{Assembler, find_value}
use irid.As.Instructions.{register}

-- The operands: none; a register; an address; a register and a register, a byte or a word; a register and a
-- register or a byte; a register and an address; a register and a register or an address.
pub data Operands : Type 0 where
  nothing : Instruction → Operands
  one : (ℕ → Instruction) → Operands
  target : (ℕ → Instruction) → Operands
  any : (ℕ → ℕ → Instruction) → (ℕ → ℕ → Instruction) → (ℕ → ℕ → Instruction) → Operands
  branch : (ℕ → ℕ → Instruction) → Operands
  count place : (ℕ → ℕ → Instruction) → (ℕ → ℕ → Instruction) → Operands

abbrev operation : Operation → Operands
operation o =
    any (Instruction.operation o) (Instruction.operation_imm o) (Instruction.operation_imm o)

abbrev comparison : Comparison → Operands
comparison o =
    any (Instruction.comparison o) (Instruction.comparison8 o) (Instruction.comparison16 o)

abbrev pub language : List (Bytes × Operands)
language =
    (codes "cpucall", nothing Instruction.cpucall)
    ∷ (codes "ret", nothing Instruction.ret)
    ∷ (codes "rti", nothing Instruction.rti)
    ∷ (codes "sti", nothing Instruction.sti)
    ∷ (codes "dsi", nothing Instruction.dsi)
    ∷ (codes "cfs", nothing Instruction.cfs)
    ∷ (codes "mov", operation Operation.mov)
    ∷ (codes "add", operation Operation.add)
    ∷ (codes "sub", operation Operation.sub)
    ∷ (codes "cmp", comparison Comparison.cmp)
    ∷ (codes "cmg", comparison Comparison.cmg)
    ∷ (codes "cml", comparison Comparison.cml)
    ∷ (codes "and", operation Operation.and)
    ∷ (codes "or", operation Operation.or)
    ∷ (codes "mul", operation Operation.mul)
    ∷ (codes "push", one Instruction.push)
    ∷ (codes "pop", one Instruction.pop)
    ∷ (codes "shr", count Instruction.shr Instruction.shr8)
    ∷ (codes "shl", count Instruction.shl Instruction.shl8)
    ∷ (codes "jnz", branch Instruction.jnz)
    ∷ (codes "load", place Instruction.load Instruction.load16)
    ∷ (codes "store", place Instruction.store Instruction.store16)
    ∷ (codes "jmp", target Instruction.jmp)
    ∷ (codes "jeq", target Instruction.jeq)
    ∷ (codes "call", target Instruction.call)
    ∷ []

-- What an address stands for: a value by its name, 0 for a label that is linked later, or a number.
unfoldable pub number_of : Bytes → Assembler → Assembling ℕ
number_of text s =
    if is_valid_symbol text
    then elim (find_value s.values text) [ none ↦ ok 0 | some value ↦ ok value ]
    else parse_int text

-- The source of an operation that is not a register: a symbol is a word, and a number below 256 a byte, also a
-- negative one.
unfoldable pub immediate :
    (ℕ → Instruction) → (ℕ → Instruction) → Bytes → Assembler → Assembling Instruction
immediate byte word text s = number_of text s >>= λ value.
    if is_valid_symbol text
    then ok (word (u16 value))
    else if is_negative value || ltb value 256
    then ok (byte (u8 value))
    else ok (word (u16 value))

-- The instruction of the operands.
unfoldable pub meant : Operands → List Bytes → Assembler → Assembling Instruction
meant (nothing i) parts s = ok i
meant (one f) (reg ∷ parts) s = register reg >>= λ r. ok (f r)
meant (target f) (text ∷ parts) s = number_of text s >>= λ addr. ok (f (u16 addr))
meant (branch f) (reg ∷ text ∷ parts) s =
    register reg >>= λ r. number_of text s >>= λ addr. ok (f r (u16 addr))
meant (any f byte word) (reg ∷ text ∷ parts) s = register reg >>= λ r. elim (register text) [
  | ok p ↦ ok (f r p)
  | stop e ↦ immediate (byte r) (word r) text s
]
meant (count f byte) (reg ∷ text ∷ parts) s = register reg >>= λ r. elim (register text) [
  | ok p ↦ ok (f r p)
  | stop e ↦ parse_int text >>= λ value. ok (byte r (u8 value))
]
meant (place f g) (reg ∷ text ∷ parts) s = register reg >>= λ r. elim (register text) [
  | ok p ↦ ok (f r p)
  | stop e ↦ number_of text s >>= λ addr. ok (g r (u16 addr))
]
meant operands parts s = stop error

-- The instruction that the assembler takes a line as.
unfoldable pub taken_instruction : List Bytes → Assembler → Assembling Instruction
taken_instruction [] s = stop error
taken_instruction (mnemonic ∷ parts) s =
    or_stop error (entry language mnemonic) >>= λ operands. meant operands parts s

-- An operand is not a negative number, which no instruction has.
unfoldable pub is_unsigned : Bytes → Bool
is_unsigned text =
    is_valid_symbol text
    || elim (parse_int text) [ ok value ↦ not (is_negative value) | stop e ↦ true ]

-- The operands are as many as there are to be, no number is negative, and an address is not a register: a jump to
-- a register is no instruction that the assembler has.
unfoldable pub is_documented : Operands → List Bytes → Bool
is_documented (nothing i) [] = true
is_documented (one f) (reg ∷ []) = true
is_documented (target f) (text ∷ []) =
    is_unsigned text && elim (register text) [ ok r ↦ false | stop e ↦ true ]
is_documented (branch f) (reg ∷ text ∷ []) =
    is_unsigned text && elim (register text) [ ok r ↦ false | stop e ↦ true ]
is_documented (any f byte word) (reg ∷ text ∷ []) = is_unsigned text
is_documented (count f byte) (reg ∷ text ∷ []) = is_unsigned text
is_documented (place f g) (reg ∷ text ∷ []) = is_unsigned text
is_documented operands parts = false

unfoldable pub in_language : List Bytes → Bool
in_language [] = false
in_language (mnemonic ∷ parts) = elim (entry language mnemonic) [
  | none ↦ false
  | some operands ↦ is_documented operands parts
]

-- The instruction that a line names, if it is in the language.
unfoldable pub line_instruction : List Bytes → Assembler → Assembling Instruction
unfolding in_language
line_instruction parts s = if in_language parts then taken_instruction parts s else stop error
