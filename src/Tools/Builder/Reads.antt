-- ===== src/Tools/Builder/Reads.antt =====
-- What the linker reads in the bytes that the builder writes.
use irid.Base.{
  ℕ, zero, suc, ◌+◌, ◌*◌, ◌/◌, ◌≡◌, ◌∙◌, refl, ap, List, [], ◌∷◌, ◌++◌, some, ok, arith, length,
  get_elem?,
}
use irid.Base.Bytes.{Bytes}
use irid.Emul.Cpu.{u16, u8}
use irid.Ld.Section.{IofSection, IofItem, LdSection, read_u8, read_u16, read_item}
use irid.Ld.Object.{read_section_header}
use irid.Tools.Builder.{item_bytes, items_bytes, header_bytes}

get_elem?-behind :
    (pre xs : Bytes) (i : ℕ) → get_elem? (pre ++ xs) (length pre + i) ≡ get_elem? xs i
get_elem?-behind [] xs i = ap (get_elem? xs) (omega arith)
get_elem?-behind (p ∷ pre) xs i =
    let e : suc (length pre) + i ≡ suc (length pre + i) = omega arith in
    rw e (get_elem?-behind pre xs i)

-- Behind other bytes the same is read.
pub read_u16-behind :
    (pre xs : Bytes) (i : ℕ) → read_u16 (pre ++ xs) (length pre + i) ≡ read_u16 xs i
unfolding read_u16 read_u8
read_u16-behind pre xs i =
    let next : length pre + i + 1 ≡ length pre + (i + 1) = omega arith in
    rw (next, get_elem?-behind pre xs i, get_elem?-behind pre xs (i + 1)) refl

word-u16 : (v : ℕ) → u8 v + 256 * u8 (v / 256) ≡ u16 v
word-u16 v = omega arith

-- The header as it is read: every value as a u16.
abbrev pub cut : IofSection → IofSection
cut h = record {
  flag = u16 h.flag;
  origin = u16 h.origin;
  code_size = u16 h.code_size;
  code_addr = u16 h.code_addr;
  links_count = u16 h.links_count;
  links_addr = u16 h.links_addr;
  symbols_count = u16 h.symbols_count;
  symbols_addr = u16 h.symbols_addr;
  exports_count = u16 h.exports_count;
  exports_addr = u16 h.exports_addr;
  strings_count = u16 h.strings_count;
  strings_addr = u16 h.strings_addr;
  sname_size = u16 h.sname_size;
  sname_addr = u16 h.sname_addr;
}

header-read :
    (h : IofSection) (rest : Bytes) → read_section_header (header_bytes h rest) 0 ≡ ok (cut h)
unfolding read_section_header read_u16 read_u8 header_bytes
header-read h rest = simp word-u16 refl

header-behind :
    (pre xs : Bytes) → read_section_header (pre ++ xs) (length pre) ≡ read_section_header xs 0
unfolding read_section_header
header-behind pre xs =
    let zero : length pre + 0 ≡ length pre = omega arith in
    let first : read_u16 (pre ++ xs) (length pre) ≡ read_u16 xs 0 =
      rw zero at (read_u16-behind pre xs 0) in
    simp (first, read_u16-behind pre xs) refl

-- Behind other bytes, the header that was written is read as u16s.
pub section_header-read :
    (pre : Bytes) (h : IofSection) (rest : Bytes)
    → read_section_header (pre ++ header_bytes h rest) (length pre) ≡ ok (cut h)
section_header-read pre h rest = header-behind pre (header_bytes h rest) ∙ header-read h rest

-- An item of a table, and the one that is read.
item-read :
    (items : List IofItem) (rest : Bytes) (i : ℕ) {item : IofItem}
    → get_elem? items i ≡ some item
    → (read_u16 (items_bytes items ++ rest) (4 * i) ≡ ok (u16 item.id))
      × (read_u16 (items_bytes items ++ rest) (4 * i + 2) ≡ ok (u16 item.addr))
unfolding items_bytes read_u16 read_u8
item-read [] rest i h = cc
item-read (x ∷ items) rest zero {item} h =
    let e : x ≡ item = cc in rw (← e) (simp word-u16 refl, simp word-u16 refl)
item-read (x ∷ items) rest (suc i) h =
    let (id, addr) = item-read items rest i h in
    let four : 4 * suc i ≡ 4 + 4 * i = omega arith in
    let six : 4 * suc i + 2 ≡ 4 + (4 * i + 2) = omega arith in
    (
      rw four (read_u16-behind (item_bytes x) (items_bytes items ++ rest) (4 * i) ∙ id),
      rw six (read_u16-behind (item_bytes x) (items_bytes items ++ rest) (4 * i + 2) ∙ addr),
    )

-- The section whose table of items stands behind `pre`, of which `lead` is in front of the section.
pub table-read :
    (lead body : Bytes) (items : List IofItem) (rest : Bytes) (section : LdSection) (i : ℕ)
    {item : IofItem}
    → section.file ≡ lead ++ (body ++ (items_bytes items ++ rest))
    → section.file_offset ≡ length lead
    → get_elem? items i ≡ some item
    → read_item section (length body) i ≡ ok (record { id = u16 item.id; addr = u16 item.addr })
unfolding read_item
table-read lead body items rest section i file at h =
    let (id, addr) = item-read items rest i h in
    let place : length lead + length body + 4 * i ≡ length lead + (length body + 4 * i) =
      omega arith in
    let place' : length lead + length body + 4 * i + 2 ≡ length lead + (length body + (4 * i + 2)) =
      omega arith in
    let id' = read_u16-behind lead _ (length body + 4 * i) ∙ read_u16-behind body _ (4 * i) ∙ id in
    let addr' =
      read_u16-behind lead _ (length body + (4 * i + 2))
      ∙ read_u16-behind body _ (4 * i + 2)
      ∙ addr in
    rw (file, at, place', place, addr', id') refl
