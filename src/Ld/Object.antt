-- ===== src/Ld/Object.antt =====
-- ld/src/object.c: loading an object file. The mapping of the file itself is the argument `file`.
pub mod Load
use irid.Base.{
  true, false, ℕ, zero, suc, ◌+◌, ◌*◌, Bool, not, List, [], ◌∷◌, ◌++◌, none, some, ◌==◌,
  if◌then◌else◌, ok, stop,
}
use irid.Base.Bytes.{Bytes, equal}
use irid.Base.Results.{◌>>=◌}
use irid.Ld.Store.{bad_magic, bad_format, no_file}
use irid.Ld.Section.{IofHeader, IofSection, LdSection, Fallible, read_u8, read_u16, find_item}

-- `struct ld_object`; the chain of its sections is a list.
pub record LdObject : Type 0 where
  pub sections : List LdSection
  pub file : Bytes
  pub source_path : Bytes
  pub header : IofHeader

abbrev pub iof_magic : Bytes
iof_magic = b'I' ∷ b'O' ∷ b'F' ∷ 0x7f ∷ []

abbrev pub iof_format : ℕ
iof_format = 2

unfoldable pub read_header : Bytes → Fallible IofHeader
unfolding read_u8 read_u16
read_header file = do
  m0 ← read_u8 file 0
  m1 ← read_u8 file 1
  m2 ← read_u8 file 2
  m3 ← read_u8 file 3
  format ← read_u8 file 4
  addrwidth ← read_u8 file 5
  count ← read_u16 file 6
  addr ← read_u16 file 8
  endianness ← read_u8 file 10
  reserved ← read_u8 file 15
  ok (record {
    magic = m0 ∷ m1 ∷ m2 ∷ m3 ∷ [];
    format = format;
    addrwidth = addrwidth;
    section_count = count;
    section_addr = addr;
    endianness = endianness;
  })

-- `load_and_validate_header`.
unfoldable pub load_and_validate_header : Bytes → Fallible IofHeader
load_and_validate_header file = do
  header ← read_header file
  if not (equal header.magic iof_magic)
      then stop bad_magic
      else if not (header.format == iof_format)
      then stop bad_format
      else ok header

unfoldable pub read_section_header : Bytes → ℕ → Fallible IofSection
read_section_header file at = do
  flag ← read_u16 file at
  origin ← read_u16 file (at + 2)
  code_size ← read_u16 file (at + 4)
  code_addr ← read_u16 file (at + 6)
  links_count ← read_u16 file (at + 8)
  links_addr ← read_u16 file (at + 10)
  symbols_count ← read_u16 file (at + 12)
  symbols_addr ← read_u16 file (at + 14)
  exports_count ← read_u16 file (at + 16)
  exports_addr ← read_u16 file (at + 18)
  strings_count ← read_u16 file (at + 20)
  strings_addr ← read_u16 file (at + 22)
  sname_size ← read_u16 file (at + 24)
  sname_addr ← read_u16 file (at + 26)
  ok (record {
    flag = flag;
    origin = origin;
    code_size = code_size;
    code_addr = code_addr;
    links_count = links_count;
    links_addr = links_addr;
    symbols_count = symbols_count;
    symbols_addr = symbols_addr;
    exports_count = exports_count;
    exports_addr = exports_addr;
    strings_count = strings_count;
    strings_addr = strings_addr;
    sname_size = sname_size;
    sname_addr = sname_addr;
  })

-- `ld_object_section_new`: a section goes behind those that the object has.
unfoldable pub object_section_new : LdObject → LdSection → LdObject
object_section_new self section = record self { sections = self.sections ++ (section ∷ []) }

-- `load_section`.
unfoldable pub load_section : LdObject → ℕ → Fallible LdObject
unfolding object_section_new
load_section self ptr = do
  header ← read_section_header self.file ptr
  ok (object_section_new self (record { header = header; file_offset = ptr; file = self.file }))

-- The loop of `ld_object_from_file` over the section pointers, from the `i`th on.
unfoldable pub load_sections : LdObject → ℕ → ℕ → Fallible LdObject
load_sections self zero i = ok self
load_sections self (suc n) i = read_u16 self.file (self.header.section_addr + 2 * i) >>= λ ptr.
    load_section self ptr >>= λ o. load_sections o n (i + 1)

-- `ld_object_from_file`; an empty file is one that could not be opened.
unfoldable pub object_from_file : Bytes → Bytes → Fallible LdObject
object_from_file path [] = stop no_file
object_from_file path (c ∷ cs) = do
  let file = c ∷ cs
  header ← load_and_validate_header file
  let self : LdObject = record { sections = []; file = file; source_path = path; header = header }
  load_sections self header.section_count 0

-- `is_exported_symbol`.
unfoldable pub is_exported_symbol : LdSection → ℕ → Fallible Bool
is_exported_symbol self strid = do
  found ← find_item self self.header.exports_addr strid self.header.exports_count 0
  elim found [ none ↦ ok false | some _ ↦ ok true ]
