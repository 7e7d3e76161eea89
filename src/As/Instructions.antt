-- ===== src/As/Instructions.antt =====
-- as/src/assembler.cc: the instructions in a line, by the operands that they take.
use irid.Base.{
  ℕ, ◌+◌, not, ◌&&◌, ◌||◌, List, [], ◌∷◌, none, some, ◌==◌, ltb, if◌then◌else◌, ok, stop,
}
use irid.Base.Bytes.{Bytes, codes}
use irid.Base.Results.{◌>>=◌, or_stop}
use irid.As.Numbers.{Assembling, error, crash, is_negative, parse_int}
use irid.As.Symbols.{is_valid_symbol, try_parse_register, instruction_id_from_mnemonic, entry}
use irid.As.State.{Assembler, size, low, high, insert_instruction, resolve_address_or_link}

-- The parts of a line, the mnemonic first.
abbrev pub Handler : Type 0
Handler = List Bytes → Assembler → Assembling Assembler

-- The number of a register, or an error.
unfoldable pub register : Bytes → Assembling ℕ
register text = or_stop error (try_parse_register text)

-- The number of the instruction, of which 0 is an exception.
unfoldable pub known_instruction : Bytes → Assembling ℕ
known_instruction mnemonic =
    let id = instruction_id_from_mnemonic mnemonic in if id == 0 then stop crash else ok id

-- An address: a symbol, whose value goes `behind` bytes behind the position, or a number.
unfoldable pub address : Bytes → ℕ → Assembler → Assembling (ℕ × Assembler)
address text behind s =
    if is_valid_symbol text
    then resolve_address_or_link text (size (s.pos + behind)) s
    else parse_int text >>= λ addr. ok (addr, s)

-- `ins_no_arguments`.
unfoldable pub ins_no_arguments : Handler
ins_no_arguments [] s = stop crash
ins_no_arguments (mnemonic ∷ []) s =
    insert_instruction (instruction_id_from_mnemonic mnemonic ∷ []) s
ins_no_arguments (mnemonic ∷ part ∷ parts) s = stop error

-- An immediate as the source of an instruction: a number below 256 takes a byte.
unfoldable pub insert_immediate : ℕ → ℕ → ℕ → Assembler → Assembling Assembler
insert_immediate id dest immediate s =
    if is_negative immediate || ltb immediate 256
    then insert_instruction ((id + 1) ∷ dest ∷ low immediate ∷ []) s
    else insert_instruction ((id + 2) ∷ dest ∷ low immediate ∷ high immediate ∷ []) s

-- A source that is not a register.
unfoldable pub insert_value : ℕ → ℕ → Bytes → Assembler → Assembling Assembler
insert_value id dest source s =
    if is_valid_symbol source
    then (resolve_address_or_link source (size (s.pos + 2)) s >>= λ (addr, s').
        insert_instruction ((id + 2) ∷ dest ∷ low addr ∷ high addr ∷ []) s')
    else parse_int source >>= λ immediate. insert_immediate id dest immediate s

-- `ins_dest_and_any`.
unfoldable pub ins_dest_and_any : Handler
ins_dest_and_any (mnemonic ∷ dest ∷ source ∷ []) s = known_instruction mnemonic >>= λ id.
    register dest >>= λ r. elim (try_parse_register source) [
      | some p ↦ insert_instruction (id ∷ r ∷ p ∷ []) s
      | none ↦ insert_value id r source s
    ]
ins_dest_and_any [] s = stop crash
ins_dest_and_any parts s = stop error

-- A count, which takes a byte.
unfoldable pub insert_count : ℕ → ℕ → ℕ → Assembler → Assembling Assembler
insert_count id dest value s =
    if not (is_negative value) && ltb 255 value
    then stop error
    else insert_instruction ((id + 1) ∷ dest ∷ low value ∷ []) s

-- `ins_dest_and_r8`.
unfoldable pub ins_dest_and_r8 : Handler
ins_dest_and_r8 (mnemonic ∷ dest ∷ source ∷ parts) s = known_instruction mnemonic >>= λ id.
    register dest >>= λ r. elim (try_parse_register source) [
      | some p ↦ insert_instruction (id ∷ r ∷ p ∷ []) s
      | none ↦ parse_int source >>= λ value. insert_count id r value s
    ]
ins_dest_and_r8 [] s = stop crash
ins_dest_and_r8 parts s = stop error

-- `ins_dest_and_addr`.
unfoldable pub ins_dest_and_addr : Handler
ins_dest_and_addr (mnemonic ∷ dest ∷ addr_str ∷ []) s = register dest >>= λ r.
    address addr_str 2 s >>= λ (addr, s').
    insert_instruction (instruction_id_from_mnemonic mnemonic ∷ r ∷ low addr ∷ high addr ∷ []) s'
ins_dest_and_addr [] s = stop crash
ins_dest_and_addr parts s = stop error

-- `ins_addr`.
unfoldable pub ins_addr : Handler
ins_addr (mnemonic ∷ addr_str ∷ parts) s = address addr_str 1 s >>= λ (addr, s').
    insert_instruction (instruction_id_from_mnemonic mnemonic ∷ low addr ∷ high addr ∷ []) s'
ins_addr [] s = stop crash
ins_addr parts s = stop error

-- `ins_register`.
unfoldable pub ins_register : Handler
ins_register (mnemonic ∷ reg ∷ parts) s =
    register reg >>= λ r. insert_instruction (instruction_id_from_mnemonic mnemonic ∷ r ∷ []) s
ins_register [] s = stop crash
ins_register parts s = stop error

-- `ins_load_and_store`.
unfoldable pub ins_load_and_store : ℕ → ℕ → Handler
ins_load_and_store r_instruction imm16_instruction (mnemonic ∷ reg ∷ addr_str ∷ parts) s =
    register reg >>= λ r. elim (try_parse_register addr_str) [
      | some p ↦ insert_instruction (r_instruction ∷ r ∷ p ∷ []) s
      | none ↦ address addr_str 2 s >>= λ (addr, s').
          insert_instruction (imm16_instruction ∷ r ∷ low addr ∷ high addr ∷ []) s'
    ]
ins_load_and_store r_instruction imm16_instruction [] s = stop crash
ins_load_and_store r_instruction imm16_instruction parts s = stop error

-- `ins_load` and `ins_store`.
abbrev pub ins_load : Handler
ins_load = ins_load_and_store 0x17 0x23

abbrev pub ins_store : Handler
ins_store = ins_load_and_store 0x18 0x24

-- `register_instruction_methods`.
abbrev pub instructions : List (Bytes × Handler)
instructions =
    (codes "cpucall", ins_no_arguments)
    ∷ (codes "ret", ins_no_arguments)
    ∷ (codes "rti", ins_no_arguments)
    ∷ (codes "sti", ins_no_arguments)
    ∷ (codes "dsi", ins_no_arguments)
    ∷ (codes "cfs", ins_no_arguments)
    ∷ (codes "mov", ins_dest_and_any)
    ∷ (codes "add", ins_dest_and_any)
    ∷ (codes "sub", ins_dest_and_any)
    ∷ (codes "cmp", ins_dest_and_any)
    ∷ (codes "cmg", ins_dest_and_any)
    ∷ (codes "cml", ins_dest_and_any)
    ∷ (codes "and", ins_dest_and_any)
    ∷ (codes "or", ins_dest_and_any)
    ∷ (codes "mul", ins_dest_and_any)
    ∷ (codes "push", ins_register)
    ∷ (codes "pop", ins_register)
    ∷ (codes "shr", ins_dest_and_r8)
    ∷ (codes "shl", ins_dest_and_r8)
    ∷ (codes "jnz", ins_dest_and_addr)
    ∷ (codes "load", ins_load)
    ∷ (codes "store", ins_store)
    ∷ (codes "jmp", ins_addr)
    ∷ (codes "jeq", ins_addr)
    ∷ (codes "call", ins_addr)
    ∷ []

-- `parse_instruction`.
unfoldable pub parse_instruction : Handler
parse_instruction [] s = stop crash
parse_instruction (mnemonic ∷ parts) s = elim (entry instructions mnemonic) [
  | none ↦ stop error
  | some method ↦ method (mnemonic ∷ parts) s
]
