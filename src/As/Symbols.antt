-- ===== src/As/Symbols.antt =====
-- as/src/assembler.cc: names of symbols, registers and instructions.
use irid.Base.{
  ℕ, ◌+◌, ◌-◌, Bool, true, false, ◌&&◌, ◌||◌, List, [], ◌∷◌, Option, none, some, ◌==◌, leb,
  if◌then◌else◌,
}
use irid.Base.Bytes.{Bytes, codes, equal}

abbrev is_letter : ℕ → Bool
is_letter c = leb b'a' c && leb c b'z' || leb b'A' c && leb c b'Z'

-- `is_valid_start_symbol_char` and `is_valid_symbol_char`.
unfoldable pub is_valid_start_symbol_char : ℕ → Bool
is_valid_start_symbol_char c = is_letter c || c == b'_' || c == b'.'

unfoldable pub is_valid_symbol_char : ℕ → Bool
is_valid_symbol_char c = is_letter c || leb b'0' c && leb c b'9' || c == b'_' || c == b'.'

unfoldable pub all_symbol_chars : Bytes → Bool
all_symbol_chars [] = true
all_symbol_chars (c ∷ cs) = is_valid_symbol_char c && all_symbol_chars cs

-- `is_valid_symbol`; the first byte of an empty text is its NUL. A single byte passes both tests.
unfoldable pub is_valid_symbol : Bytes → Bool
is_valid_symbol [] = false
is_valid_symbol (c ∷ cs) = (c == b'@' || is_valid_start_symbol_char c) && all_symbol_chars cs

-- A digit that is at most `last`, behind the number of the first register.
abbrev numbered : ℕ → ℕ → ℕ → Option ℕ
numbered first last c = if leb b'0' c && leb c last then some (first + (c - b'0')) else none

-- `try_parse_register`.
unfoldable pub try_parse_register : Bytes → Option ℕ
try_parse_register (c ∷ d ∷ []) =
    if c == b'r'
    then numbered 0x00 b'7' d
    else if c == b'h'
    then numbered 0x10 b'3' d
    else if c == b'l'
    then numbered 0x20 b'3' d
    else if c == b'i' && d == b'p'
    then some 0x70
    else if c == b's' && d == b'p'
    then some 0x71
    else if c == b'b' && d == b'p'
    then some 0x72
    else none
try_parse_register reg = none

-- `mnemonic_map`.
abbrev pub mnemonic_map : List (Bytes × ℕ)
mnemonic_map =
    (codes "cpucall", 0x01)
    ∷ (codes "call", 0x33)
    ∷ (codes "ret", 0x35)
    ∷ (codes "rti", 0x02)
    ∷ (codes "sti", 0x03)
    ∷ (codes "dsi", 0x04)
    ∷ (codes "mov", 0x14)
    ∷ (codes "jmp", 0x30)
    ∷ (codes "jeq", 0x32)
    ∷ (codes "add", 0x36)
    ∷ (codes "sub", 0x39)
    ∷ (codes "jnz", 0x31)
    ∷ (codes "push", 0x10)
    ∷ (codes "pop", 0x13)
    ∷ (codes "load", 0x17)
    ∷ (codes "store", 0x18)
    ∷ (codes "cmg", 0x1d)
    ∷ (codes "cml", 0x20)
    ∷ (codes "cmp", 0x1a)
    ∷ (codes "cfs", 0x25)
    ∷ (codes "and", 0x3c)
    ∷ (codes "or", 0x3f)
    ∷ (codes "shr", 0x43)
    ∷ (codes "shl", 0x45)
    ∷ (codes "mul", 0x47)
    ∷ []

-- The first entry of the name.
unfoldable pub entry {ℓ} : {A : Type ℓ} → List (Bytes × A) → Bytes → Option A
entry [] name = none
entry ((name', a) ∷ rest) name =
    let later = entry rest name in if equal name' name then some a else later

-- `instruction_id_from_mnemonic`.
unfoldable pub instruction_id_from_mnemonic : Bytes → ℕ
instruction_id_from_mnemonic mnemonic = elim (entry mnemonic_map mnemonic) [
  | none ↦ 0
  | some id ↦ id
]

-- `get_register_width`: whether it is the one of a byte.
abbrev pub is_byte_register : ℕ → Bool
is_byte_register id = leb 0x10 id && leb id 0x23
