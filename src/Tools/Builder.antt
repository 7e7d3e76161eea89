-- ===== src/Tools/Builder.antt =====
-- libiridtools/src/iof_section_builder.cc and iof_builder.cc: the bytes of an object file.
pub mod Reads
pub mod Strings
pub mod Section
use irid.Base.{
  ℕ, zero, suc, ◌+◌, ◌*◌, ◌-◌, ◌/◌, ◌%◌, Bool, true, false, List, [], ◌∷◌, ◌++◌, Option, none, some,
  leb, ◌==◌, if◌then◌else◌, length, drop,
}
use irid.Base.Bytes.{Bytes, equal}
use irid.Emul.Cpu.{u16, u8}
use irid.Ld.Section.{IofSection, IofItem}

-- `iof_section_builder`. The strings are numbered in their order. `origin` is arbitrary before it is set.
pub record SectionBuilder : Type 0 where
  pub origin_set : Bool
  pub flag : ℕ
  pub origin : ℕ
  pub code : Bytes
  pub name : Bytes
  pub strings : List Bytes
  pub symbols : List IofItem
  pub links : List IofItem
  pub exports : List IofItem

-- `set_origin`; the flag is IOF_SFLAG_STATIC_ORIGIN.
unfoldable pub set_origin : ℕ → SectionBuilder → SectionBuilder
set_origin origin b = record b {
  flag = if b.flag % 2 == 0 then b.flag + 1 else b.flag;
  origin = u16 origin;
  origin_set = true;
}

-- The index of the first string that is the same, counted from `i`.
unfoldable pub index_of : List Bytes → Bytes → ℕ → Option ℕ
index_of [] text i = none
index_of (s ∷ ss) text i =
    let rest = index_of ss text (suc i) in if equal s text then some i else rest

-- `string_id`.
unfoldable pub string_id : Bytes → SectionBuilder → ℕ × SectionBuilder
string_id text b = elim (index_of b.strings text 0) [
  | some i ↦ (u16 i, b)
  | none ↦ (u16 (length b.strings), record b { strings = b.strings ++ (text ∷ []) })
]

-- `add_symbol`, `add_link` and `add_export`.
unfoldable pub add_symbol : Bytes → ℕ → SectionBuilder → SectionBuilder
add_symbol name offset b =
    let (id, b') = string_id name b in
    record b' { symbols = b'.symbols ++ (record { id = id; addr = u16 offset } ∷ []) }

unfoldable pub add_link : Bytes → ℕ → SectionBuilder → SectionBuilder
add_link to addr b =
    let (id, b') = string_id to b in
    record b' { links = b'.links ++ (record { id = id; addr = u16 addr } ∷ []) }

unfoldable pub add_export : Bytes → ℕ → SectionBuilder → SectionBuilder
add_export label offset b =
    let (id, b') = string_id label b in
    record b' { exports = b'.exports ++ (record { id = id; addr = u16 offset } ∷ []) }

-- A u16 in the file.
abbrev pub word : ℕ → Bytes
word v = u8 v ∷ u8 (v / 256) ∷ []

abbrev pub item_bytes : IofItem → Bytes
item_bytes item = u8 item.id ∷ u8 (item.id / 256) ∷ u8 item.addr ∷ u8 (item.addr / 256) ∷ []

unfoldable pub items_bytes : List IofItem → Bytes
items_bytes [] = []
items_bytes (item ∷ items) = item_bytes item ++ items_bytes items

-- The header of a section, 28 bytes; what goes in is cut to a u16.
unfoldable pub header_bytes : IofSection → Bytes → Bytes
header_bytes h rest =
    word h.flag
    ++ (word h.origin
        ++ (word h.code_size
            ++ (word h.code_addr
                ++ (word h.links_count
                    ++ (word h.links_addr
                        ++ (word h.symbols_count
                            ++ (word h.symbols_addr
                                ++ (word h.exports_count
                                    ++ (word h.exports_addr
                                        ++ (word h.strings_count
                                            ++ (word h.strings_addr
                                                ++ (word h.sname_size
                                                    ++ (word h.sname_addr ++ rest)))))))))))))

-- The code that is written: without the padding in front of the origin; `none` where `get_range` throws.
unfoldable pub written_code : SectionBuilder → Option Bytes
written_code b =
    if b.origin_set
    then (elim b.code [
      | [] ↦ some []
      | c ∷ cs ↦ if leb (length b.code) b.origin then none else some (drop b.origin b.code)
    ])
    else some b.code

-- The records of the strings from an address on, and the strings.
unfoldable pub string_items : ℕ → ℕ → List Bytes → List IofItem
string_items id addr [] = []
string_items id addr (s ∷ ss) =
    record { id = id; addr = addr } ∷ string_items (suc id) (addr + length s + 1) ss

unfoldable pub string_bytes : List Bytes → Bytes
string_bytes [] = []
string_bytes (s ∷ ss) = s ++ (0 ∷ string_bytes ss)

-- The header that `build` fills in, with the code that is written.
unfoldable pub header_of : SectionBuilder → Bytes → IofSection
header_of b code =
    let symbols = 28 + length code in
    let links = symbols + 4 * length b.symbols in
    let exports = links + 4 * length b.links in
    let sname = exports + 4 * length b.exports in
    record {
      flag = b.flag;
      origin = b.origin;
      code_size = if b.origin_set then length b.code + (65536 - b.origin) else length b.code;
      code_addr = 28;
      links_count = length b.links;
      links_addr = links;
      symbols_count = length b.symbols;
      symbols_addr = symbols;
      exports_count = length b.exports;
      exports_addr = exports;
      strings_count = length b.strings;
      strings_addr = sname + length b.name + 1;
      sname_size = length b.name;
      sname_addr = sname;
    }

-- What `build` puts behind the header and the code.
unfoldable pub tables : SectionBuilder → ℕ → Bytes
tables b strings_addr =
    items_bytes b.symbols
    ++ (items_bytes b.links
        ++ (items_bytes b.exports
            ++ (b.name
                ++ (0
                    ∷ (items_bytes (string_items 0 (strings_addr + 4 * length b.strings) b.strings)
                        ++ string_bytes b.strings)))))

-- `iof_section_builder::build`.
unfoldable pub build_section : SectionBuilder → Option Bytes
build_section b = elim (written_code b) [
  | none ↦ none
  | some code ↦ let h = header_of b code in some (header_bytes h (code ++ tables b h.strings_addr))
]

-- The pointers to sections that stand from an address on.
unfoldable pub pointers : ℕ → List Bytes → Bytes
pointers addr [] = []
pointers addr (s ∷ ss) = word addr ++ pointers (addr + length s) ss

unfoldable pub concat : List Bytes → Bytes
concat [] = []
concat (s ∷ ss) = s ++ concat ss

-- `iof_builder::build`: the header of the file, the pointers to the sections, and the sections.
unfoldable pub build_file : List Bytes → Bytes
build_file sections =
    b'I'
    ∷ b'O'
    ∷ b'F'
    ∷ 0x7f
    ∷ 2
    ∷ 2
    ∷ (word (length sections)
        ++ (word 16
            ++ (0
                ∷ 0
                ∷ 0
                ∷ 0
                ∷ 0
                ∷ 0
                ∷ (pointers (16 + 2 * length sections) sections ++ concat sections))))
