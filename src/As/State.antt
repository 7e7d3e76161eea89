-- ===== src/As/State.antt =====
-- as/src/as.h and as/src/assembler.cc: the state of an assembler, and what is inserted into it. A `size_t` has
-- 64 bits. Memory for less than 2^63 bytes is taken to be there; for more there is none.
use irid.Base.{
  ℕ, ◌+◌, ◌-◌, ◌^◌, ◌%◌, ◌/◌, List, [], ◌∷◌, ◌++◌, Option, none, some, ◌==◌, ltb, if◌then◌else◌, ok,
  stop, length,
}
use irid.Base.Bytes.{Bytes, equal}
use irid.Base.Results.{◌>>=◌}
use irid.Tools.Contents.{put}
use irid.As.Numbers.{Assembling, error, crash}

pub record Label : Type 0 where
  pub name : Bytes
  pub offset : ℕ

pub record LinkPoint : Type 0 where
  pub symbol : Bytes
  pub offset : ℕ

-- `value` is an `int`.
pub record NamedValue : Type 0 where
  pub name : Bytes
  pub value : ℕ

-- The state variables; lists grow at their end. The lines kept for messages are left out.
pub record Assembler : Type 0 where
  pub link_points : List LinkPoint
  pub exports : List Bytes
  pub values : List NamedValue
  pub labels : List Label
  pub last_label : Bytes
  pub code : Bytes
  pub origin : ℕ
  pub pos : ℕ

abbrev pub invalid_origin : ℕ
invalid_origin = 2 ^ 64 - 1

-- `reset_state_variables`.
abbrev pub initial : Assembler
initial = record {
  link_points = [];
  exports = [];
  values = [];
  labels = [];
  last_label = [];
  code = [];
  origin = invalid_origin;
  pos = 0;
}

abbrev pub size : ℕ → ℕ
size n = n % 2 ^ 64

-- The bytes of an address.
abbrev pub low : ℕ → ℕ
low addr = addr % 256

abbrev pub high : ℕ → ℕ
high addr = addr / 256 % 256

-- Bytes written into the code.
unfoldable pub insert_code : Bytes → ℕ → Assembler → Assembling Assembler
insert_code bytes at s =
    if ltb (at + length bytes) (2 ^ 63)
    then ok (record s { code = put bytes at s.code })
    else stop crash

-- The first label at the position moves to the next one.
unfoldable pub move_label : ℕ → ℕ → List Label → List Label
move_label pos to [] = []
move_label pos to (l ∷ ls) =
    let rest = move_label pos to ls in
    if l.offset == pos then record l { offset = to } ∷ ls else l ∷ rest

-- Where the next instruction goes.
abbrev pub aligned : ℕ → ℕ
aligned pos = if pos % 4 == 0 then pos else size (pos + (4 - pos % 4))

-- The four bytes of an instruction.
abbrev pub padded : Bytes → Bytes
padded [] = 0 ∷ 0 ∷ 0 ∷ 0 ∷ []
padded (a ∷ []) = a ∷ 0 ∷ 0 ∷ 0 ∷ []
padded (a ∷ b ∷ []) = a ∷ b ∷ 0 ∷ 0 ∷ []
padded (a ∷ b ∷ c ∷ []) = a ∷ b ∷ c ∷ 0 ∷ []
padded (a ∷ b ∷ c ∷ d ∷ rest) = a ∷ b ∷ c ∷ d ∷ []

-- `insert_instruction`, of at most four bytes.
unfoldable pub insert_instruction : Bytes → Assembler → Assembling Assembler
insert_instruction bytes s =
    let at = aligned s.pos in
    let labels = if s.pos % 4 == 0 then s.labels else move_label s.pos at s.labels in
    insert_code (padded bytes) at (record s { labels = labels; pos = size (at + 4) })

-- The whole name of a symbol, a local one with the label in front of it.
unfoldable pub qualified : Bytes → Assembler → Assembling Bytes
qualified [] s = ok []
qualified (c ∷ cs) s =
    if c == b'@'
    then elim (s.last_label) [ [] ↦ stop error | l ∷ ls ↦ ok (s.last_label ++ (c ∷ cs)) ]
    else ok (c ∷ cs)

-- `add_link_point`.
unfoldable pub add_link_point : Bytes → ℕ → Assembler → Assembling Assembler
add_link_point symbol offset s = qualified symbol s >>= λ name.
    ok
      (record s { link_points = s.link_points ++ (record { symbol = name; offset = offset } ∷ []) })

unfoldable pub find_value : List NamedValue → Bytes → Option ℕ
find_value [] name = none
find_value (v ∷ vs) name =
    let rest = find_value vs name in if equal v.name name then some v.value else rest

-- `resolve_address_or_link`.
unfoldable pub resolve_address_or_link : Bytes → ℕ → Assembler → Assembling (ℕ × Assembler)
resolve_address_or_link symbol offset s = elim (find_value s.values symbol) [
  | some value ↦ ok (value, s)
  | none ↦ add_link_point symbol offset s >>= λ s'. ok (0, s')
]

unfoldable pub find_label : List Label → Bytes → Option ℕ
find_label [] name = none
find_label (l ∷ ls) name =
    let rest = find_label ls name in if equal l.name name then some l.offset else rest

-- `link`.
unfoldable pub link : LinkPoint → Assembler → Assembling Assembler
link point s = elim (find_label s.labels point.symbol) [
  | none ↦ stop error
  | some offset ↦ insert_code (low offset ∷ []) point.offset s >>= λ s'.
      insert_code (high offset ∷ []) (size (point.offset + 1)) s'
]

-- The links, in their order.
unfoldable pub link_all : List LinkPoint → Assembler → Assembling Assembler
link_all [] s = ok s
link_all (p ∷ ps) s = link p s >>= link_all ps

-- `as_raw_binary`.
unfoldable pub as_raw_binary : Assembler → Assembling Bytes
as_raw_binary s = link_all s.link_points s >>= λ s'. ok (s'.code)
