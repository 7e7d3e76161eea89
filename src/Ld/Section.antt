-- ===== src/Ld/Section.antt =====
-- include/irid/iof.h and ld/src/section.c: the records of an object file, and the look-ups in a
-- section. A read past the end of the file is a fault.
pub mod Find
use irid.Base.{
  ℕ, zero, suc, ◌+◌, ◌*◌, Option, none, some, [], ◌∷◌, ◌==◌, if◌then◌else◌, get_elem?, drop, Result,
  ok, stop,
}
use irid.Base.Bytes.{Bytes}
use irid.Base.Results.{◌>>=◌, or_stop}
use irid.Ld.Store.{Stop, crash, no_string}

abbrev pub Fallible : Type 0 → Type 0
Fallible A = Result Stop A

-- One byte, and a little-endian `u16`, at an offset of the file.
unfoldable pub read_u8 : Bytes → ℕ → Fallible ℕ
read_u8 file at = or_stop crash (get_elem? file at)

unfoldable pub read_u16 : Bytes → ℕ → Fallible ℕ
unfolding read_u8
read_u16 file at = do low ← read_u8 file at; high ← read_u8 file (at + 1); ok (low + 256 * high)

-- A C string: the bytes up to the first NUL.
unfoldable pub c_string : Bytes → Fallible Bytes
c_string [] = stop crash
c_string (c ∷ cs) = let rest = c_string cs in if c == 0 then ok [] else rest >>= λ s. ok (c ∷ s)

-- `struct iof_header`, 16 bytes.
pub record IofHeader : Type 0 where
  pub magic : Bytes
  pub format : ℕ
  pub addrwidth : ℕ
  pub section_count : ℕ
  pub section_addr : ℕ
  pub endianness : ℕ

-- `struct iof_section`, fourteen `u16`.
pub record IofSection : Type 0 where
  pub flag : ℕ
  pub origin : ℕ
  pub code_size : ℕ
  pub code_addr : ℕ
  pub links_count : ℕ
  pub links_addr : ℕ
  pub symbols_count : ℕ
  pub symbols_addr : ℕ
  pub exports_count : ℕ
  pub exports_addr : ℕ
  pub strings_count : ℕ
  pub strings_addr : ℕ
  pub sname_size : ℕ
  pub sname_addr : ℕ

-- `iof_symbol`, `iof_string`, `iof_link` and `iof_export` are each two `u16`: the string's ID, and an
-- address or an offset in the section.
pub record IofItem : Type 0 where
  pub id : ℕ
  pub addr : ℕ

-- `struct ld_section`: `base_ptr` is the offset `file_offset` into the object's file.
pub record LdSection : Type 0 where
  pub header : IofSection
  pub file_offset : ℕ
  pub file : Bytes

unfoldable pub read_item : LdSection → ℕ → ℕ → Fallible IofItem
unfolding read_u16
read_item self table i = do
  id ← read_u16 self.file (self.file_offset + table + 4 * i)
  addr ← read_u16 self.file (self.file_offset + table + 4 * i + 2)
  ok (record { id = id; addr = addr })

-- The first item with that ID among the `n` items from the `i`th on. An item is read as a whole, so one whose second
-- half is behind the end of the file is a fault here also where the source looks at its ID only.
unfoldable pub find_item : LdSection → ℕ → ℕ → ℕ → ℕ → Fallible (Option IofItem)
find_item self table strid zero i = ok none
find_item self table strid (suc n) i =
    let rest = find_item self table strid n (i + 1) in
    read_item self table i >>= λ item. if item.id == strid then ok (some item) else rest

-- `ld_section_symbol_reladdr`; `none` is INVALID_ADDR.
unfoldable pub section_symbol_reladdr : LdSection → ℕ → Fallible (Option ℕ)
section_symbol_reladdr self strid = do
  found ← find_item self self.header.symbols_addr strid self.header.symbols_count 0
  elim found [ none ↦ ok none | some item ↦ ok (some item.addr) ]

-- `ld_section_name`.
unfoldable pub section_name : LdSection → Fallible Bytes
section_name self = c_string (drop (self.file_offset + self.header.sname_addr) self.file)

-- `ld_section_string_record_by_id`; `none` is NULL.
unfoldable pub section_string_record_by_id : LdSection → ℕ → Fallible (Option IofItem)
section_string_record_by_id self strid =
    find_item self self.header.strings_addr strid self.header.strings_count 0

-- `ld_section_string_by_id`.
unfoldable pub section_string_by_id : LdSection → ℕ → Fallible Bytes
unfolding section_string_record_by_id
section_string_by_id self strid = do
  found ← section_string_record_by_id self strid
  elim found [
    | none ↦ stop (no_string strid)
    | some str ↦ c_string (drop (self.file_offset + str.addr) self.file)
  ]
