-- ===== src/Ld/Object/Load.antt =====
-- What a loaded object file is.
use mathlib.Core.List.{append_assoc, append-nil}
use irid.Base.{
  ℕ, zero, suc, ◌+◌, ◌*◌, ◌≡◌, refl, ap, sym, ◌∙◌, List, [], ◌∷◌, ◌++◌, some, ◌==◌, ok, stop, arith,
  inl, inr, Bool-cases, length, get_elem?,
}
use irid.Base.Bytes.{Bytes, equal, equal_iff}
use irid.Base.Results.{>>=-eq-ok}
use irid.Ld.Store.{bad_magic, bad_format}
use irid.Ld.Section.{IofHeader, LdSection, read_u16}
use irid.Ld.Object.{
  LdObject, iof_magic, iof_format, read_header, load_and_validate_header, read_section_header,
  object_section_new, load_section, load_sections, object_from_file,
}

-- The magic bytes and the format number are those that the linker implements.
pub record IsSupported (header : IofHeader) : Type 0 where
  pub magic_is : header.magic ≡ iof_magic
  pub format_is : header.format ≡ iof_format

validated :
    (file : Bytes) {header : IofHeader}
    → load_and_validate_header file ≡ ok header
    → (read_header file ≡ ok header) × IsSupported header
unfolding load_and_validate_header
validated file {header} h =
    let (got, at, later) = >>=-eq-ok (read_header file) _ h in
    elim (Bool-cases (equal got.magic iof_magic)) [
      | inl m ↦ elim (Bool-cases (got.format == iof_format)) [
        | inl f ↦
            let e : ok got ≡ ok header = rw (m, f) at later in
            let e' : got ≡ header = cc in
            rw (← e') (
              at,
              record { magic_is = (equal_iff got.magic iof_magic).0 m; format_is = ground arith },
            )
        | inr f ↦ let e : stop bad_format ≡ ok header = rw (m, f) at later in cc
      ]
      | inr m ↦ let e : stop bad_magic ≡ ok header = rw m at later in cc
    ]

-- A section stands where the object's table of pointers says, with the header that is there.
pub record IsSection (self : LdObject) (i : ℕ) (section : LdSection) : Type 0 where
  pub pointer : read_u16 self.file (self.header.section_addr + 2 * i) ≡ ok section.file_offset
  pub header_is : read_section_header self.file section.file_offset ≡ ok section.header
  pub file_is : section.file ≡ self.file

-- `o` is `self` with sections `m`, `m + 1`, … of the table behind its own.
record Extends (self o : LdObject) (m n : ℕ) : Type 0 where
  same_file : o.file ≡ self.file
  same_path : o.source_path ≡ self.source_path
  same_header : o.header ≡ self.header
  new : List LdSection
  appended : o.sections ≡ self.sections ++ new
  count : length new ≡ n
  each :
      (j : ℕ) (section : LdSection)
      → get_elem? new j ≡ some section
      → IsSection self (m + j) section

load_section-new :
    (self : LdObject) (ptr : ℕ) {o : LdObject}
    → load_section self ptr ≡ ok o
    → (section : LdSection) × (o ≡ object_section_new self section)
      × (section.file_offset ≡ ptr)
      × (read_section_header self.file ptr ≡ ok section.header)
      × (section.file ≡ self.file)
unfolding load_section
load_section-new self ptr h =
    let (header, at, later) = >>=-eq-ok (read_section_header self.file ptr) _ h in
    (record { header = header; file_offset = ptr; file = self.file }, cc, refl, at, refl)

Extends-cons :
    (self o : LdObject) (section : LdSection) (i n : ℕ)
    → IsSection self i section
    → section.file ≡ self.file
    → Extends (object_section_new self section) o (i + 1) n
    → Extends self o i (suc n)
unfolding object_section_new
Extends-cons self o section i n first same rest = record {
  same_file = rest.same_file;
  same_path = rest.same_path;
  same_header = rest.same_header;
  new = section ∷ rest.new;
  appended = rest.appended ∙ append_assoc self.sections (section ∷ []) rest.new;
  count = ap suc rest.count;
  each = places;
}
  where
    places :
        (j : ℕ) (other : LdSection)
        → get_elem? (section ∷ rest.new) j ≡ some other
        → IsSection self (i + j) other
    places zero other at =
        let e : i + 0 ≡ i = omega arith in let e' : section ≡ other = cc in rw (e, ← e') first
    places (suc j) other at =
        let there = rest.each j other at in
        let e : i + suc j ≡ i + 1 + j = omega arith in
        rw e
          (record { pointer = there.pointer; header_is = there.header_is; file_is = there.file_is })

load_sections-Extends :
    (n i : ℕ) (self : LdObject) {o : LdObject} → load_sections self n i ≡ ok o → Extends self o i n
unfolding load_sections
load_sections-Extends zero i self {o} h =
    let e : self ≡ o = cc in
    rw (← e) (record {
      same_file = refl;
      same_path = refl;
      same_header = refl;
      new = [];
      appended = sym (append-nil self.sections);
      count = refl;
      each = λ j section at. cc;
    })
load_sections-Extends (suc n) i self {o} h =
    let (ptr, at, later) = >>=-eq-ok (read_u16 self.file (self.header.section_addr + 2 * i)) _ h in
    let (mid, loaded, last) = >>=-eq-ok (load_section self ptr) _ later in
    let (section, e, offset, header, same) = load_section-new self ptr loaded in
    Extends-cons self o section i n
      (record { pointer = rw offset at; header_is = rw offset header; file_is = same }) same
      (load_sections-Extends n (i + 1) (object_section_new self section) (rw e at last))

-- A loaded object has a supported header, and exactly the sections that its table of pointers lists,
-- in that order, each with the header at its pointer.
pub object_from_file-IsSection :
    (path file : Bytes) {o : LdObject}
    → object_from_file path file ≡ ok o
    → (o.file ≡ file)
      × (o.source_path ≡ path)
      × (read_header file ≡ ok o.header)
      × IsSupported o.header
      × (length o.sections ≡ o.header.section_count)
      × ((i : ℕ) (section : LdSection)
          → get_elem? o.sections i ≡ some section
          → IsSection o i section)
unfolding object_from_file
object_from_file-IsSection path [] h = cc
object_from_file-IsSection path (c ∷ cs) {o} h =
    let (header, at, later) = >>=-eq-ok (load_and_validate_header (c ∷ cs)) _ h in
    let (got, supported) = validated (c ∷ cs) at in
    let all = load_sections-Extends header.section_count 0 _ later in
    let header_is : o.header ≡ header = all.same_header in
    let sections_are : o.sections ≡ all.new = all.appended in
    (
      all.same_file,
      all.same_path,
      rw header_is got,
      rw header_is supported,
      rw (header_is, sections_are) all.count,
      λ i section there.
          let e : 0 + i ≡ i = omega arith in
          let there' = rw e at (all.each i section (rw sections_are at there)) in
          record {
            pointer = rw (all.same_file, header_is) there'.pointer;
            header_is = rw all.same_file there'.header_is;
            file_is = rw all.same_file there'.file_is;
          },
    )
