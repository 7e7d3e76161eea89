-- ===== src/As/Numbers.antt =====
-- as/src/assembler.cc: the values in a line. An `int` is its 32 bits, and a `char` is a byte.
use irid.Base.{
  ℕ, ◌+◌, ◌*◌, ◌-◌, ◌^◌, ◌%◌, Bool, true, false, ◌&&◌, ◌||◌, [], ◌∷◌, Option, none, some, ◌==◌, leb,
  ltb, if◌then◌else◌, Result, ok, stop,
}
use irid.Base.Bytes.{Bytes}
use irid.As.Text.{isspace, starts_with, ends_with}

-- Why the assembler stops: an error that it reports, an exception or undefined behaviour, or a nesting of files
-- of values that is out of fuel.
pub data Stop : Type 0 where
  error crash out_of_fuel : Stop

abbrev pub Assembling : Type 0 → Type 0
Assembling A = Result Stop A

abbrev pub is_negative : ℕ → Bool
is_negative value = leb (2 ^ 31) value

-- A `char`, which is signed, as an `int`.
abbrev pub int_of_char : ℕ → ℕ
int_of_char c = if ltb c 128 then c else c + (2 ^ 32 - 256)

-- An `int` as a `size_t`.
abbrev pub size_of_int : ℕ → ℕ
size_of_int value = if is_negative value then value + (2 ^ 64 - 2 ^ 32) else value

-- `escape_char_to_byte`.
unfoldable pub escape_char_to_byte : ℕ → ℕ
escape_char_to_byte c =
    if c == b'a'
    then 7
    else if c == b'b'
    then 8
    else if c == b'e'
    then 27
    else if c == b'f'
    then 12
    else if c == b'n'
    then 10
    else if c == b'r'
    then 13
    else if c == b't'
    then 9
    else if c == b'v'
    then 11
    else if c == b'\\' || c == b'"' || c == b'\''
    then c
    else 0

-- The value of a digit in a base of at most sixteen.
unfoldable pub digit : ℕ → ℕ → Option ℕ
digit base c =
    let value =
      if leb b'0' c && leb c b'9'
      then c - b'0'
      else if leb b'a' c && leb c b'f'
      then c - 87
      else if leb b'A' c && leb c b'F'
      then c - 55
      else 16 in
    if ltb value base then some value else none

-- The number that the digits at the start of the text go on with.
unfoldable pub digits : ℕ → ℕ → Bytes → ℕ
digits base value [] = value
digits base value (c ∷ cs) = elim (digit base c) [
  | none ↦ value
  | some d ↦ digits base (value * base + d) cs
]

-- `none` if the text does not start with a digit.
unfoldable pub number : ℕ → Bytes → Option ℕ
number base [] = none
number base (c ∷ cs) = elim (digit base c) [ none ↦ none | some d ↦ some (digits base d cs) ]

-- A number in base 0, which shows its base; `0x` without a digit behind it is a zero.
unfoldable pub prefixed : Bytes → Option ℕ
prefixed [] = none
prefixed (c ∷ []) = number 10 (c ∷ [])
prefixed (c ∷ d ∷ cs) =
    if c == b'0'
    then (if d == b'x' || d == b'X'
        then elim (number 16 cs) [ none ↦ some 0 | some n ↦ some n ]
        else number 8 (c ∷ d ∷ cs))
    else number 10 (c ∷ d ∷ cs)

-- Without the spaces in front.
unfoldable pub skip_spaces : Bytes → Bytes
skip_spaces [] = []
skip_spaces (c ∷ cs) = let rest = skip_spaces cs in if isspace c then rest else c ∷ cs

abbrev signed : Bool → Option ℕ → Option (Bool × ℕ)
signed negative none = none
signed negative (some n) = some (negative, n)

-- `strtol(.., 0)` before the value is cut to a `long`: whether there is a minus sign, and the magnitude.
unfoldable pub strtol : Bytes → Option (Bool × ℕ)
strtol text = elim (skip_spaces text) [
  | [] ↦ none
  | c ∷ cs ↦
      if c == b'-'
      then signed true (prefixed cs)
      else if c == b'+'
      then signed false (prefixed cs)
      else signed false (prefixed (c ∷ cs))
]

-- The checks on what `strtol` returns, and its value as an `int`.
unfoldable pub checked : Bool × ℕ → Assembling ℕ
checked (true, n) = if leb (2 ^ 63) n then stop error else ok ((2 ^ 32 - n % 2 ^ 32) % 2 ^ 32)
checked (false, n) = if ltb 65535 n then stop error else ok n

-- The value of a character, quotes included.
unfoldable pub character : Bytes → Assembling ℕ
character (q ∷ c ∷ q' ∷ []) = if c == b'\\' then stop error else ok (int_of_char c)
character (q ∷ c ∷ d ∷ q' ∷ []) = if c == b'\\' then ok (escape_char_to_byte d) else stop error
character text = stop error

-- `parse_int`.
unfoldable pub parse_int : Bytes → Assembling ℕ
parse_int source =
    if starts_with b'\'' source
    then (if ends_with b'\'' source then character source else stop error)
    else elim (strtol source) [ none ↦ stop error | some value ↦ checked value ]

-- The bytes between the quotes, with escapes; `none` for a backslash at the end.
unfoldable pub unescape : Bytes → Option Bytes
unescape [] = some []
unescape (c ∷ []) = if c == b'\\' then none else some (c ∷ [])
unescape (c ∷ d ∷ cs) =
    let behind = unescape cs in
    let next = unescape (d ∷ cs) in
    if c == b'\\'
    then elim behind [ none ↦ none | some text ↦ some (escape_char_to_byte d ∷ text) ]
    else elim next [ none ↦ none | some text ↦ some (c ∷ text) ]

-- A text without its last byte.
unfoldable pub init : Bytes → Bytes
init [] = []
init (c ∷ []) = []
init (c ∷ d ∷ cs) = c ∷ init (d ∷ cs)

-- `parse_string`. A single quote is the start and the end of the text at once, and `substr` takes what there
-- is, nothing.
unfoldable pub parse_string : Bytes → Assembling Bytes
parse_string text =
    if starts_with b'"' text && ends_with b'"' text
    then elim (unescape (init (elim text [ [] ↦ [] | c ∷ cs ↦ cs ]))) [
      | none ↦ stop error
      | some bytes ↦ ok bytes
    ]
    else stop error
