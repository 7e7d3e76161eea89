-- ===== src/As/Object/Loaded.antt =====
-- The object file of the assembler, as the linker loads it.
use mathlib.Core.List.{append-nil}
use irid.Base.{
  Bool-cases, sym, zero, suc, ℕ, ◌<◌, ◌≡◌, ◌∙◌, refl, ap, List, [], ◌∷◌, ◌++◌, Option, none, some,
  ok, arith, ◌==◌, if◌then◌else◌, length, get_elem?, get_elem?-bound, length-append, Option-cases,
  inl, inr, All,
}
use irid.Base.Bytes.{Bytes, equal}
use irid.Base.Results.{>>=-eq-ok, or_stop}
use irid.Emul.Cpu.{u16}
use irid.Ld.Section.{
  IofSection, IofItem, LdSection, read_u8, read_u16, read_item, section_string_by_id,
}
use irid.Ld.Object.{
  LdObject, read_header, load_and_validate_header, read_section_header, object_section_new,
  load_section, load_sections, object_from_file,
}
use irid.As.Numbers.{crash}
use irid.As.State.{Assembler, Label, LinkPoint, invalid_origin}
use irid.As.Object.{builder, add_links, add_exports, add_symbols, as_object}
use irid.As.Object.Named.{
  Place, Named, Matches, Matches-Kept, Matches-item, Matches-length, link_places, label_places,
  length-link_places, length-label_places, add_links-Matches, add_symbols-Matches, add_exports-Kept,
}
use irid.Tools.Builder.{
  SectionBuilder, header_of, set_origin, written_code, build_section, build_file, pointers, concat,
}
use irid.Tools.Builder.Reads.{cut, section_header-read}
use irid.Tools.Builder.Section.{
  section_bytes, section, header, links-read, symbols-read, string_by_id-read, few_strings,
}
use irid.Tools.Builder.Strings.{NoNul}

-- What a file with one section has in front of it.
abbrev lead : Bytes
lead = b'I' ∷ b'O' ∷ b'F' ∷ 0x7f ∷ 2 ∷ 2 ∷ 1 ∷ 0 ∷ 16 ∷ 0 ∷ 0 ∷ 0 ∷ 0 ∷ 0 ∷ 0 ∷ 0 ∷ 18 ∷ 0 ∷ []

file-is : (bytes : Bytes) → build_file (bytes ∷ []) ≡ lead ++ bytes
unfolding build_file pointers concat
file-is bytes = rw (append-nil bytes) refl

loaded :
    (path bytes : Bytes) (h : IofSection)
    → read_section_header (lead ++ bytes) 18 ≡ ok h
    → (o : LdObject) × (object_from_file path (lead ++ bytes) ≡ ok o)
      × (o.sections ≡ record { header = h; file_offset = 18; file = lead ++ bytes } ∷ [])
unfolding object_from_file load_and_validate_header read_header read_u8 read_u16 equal load_sections
    load_section object_section_new
loaded path bytes h e = (
  record {
    sections = record { header = h; file_offset = 18; file = lead ++ bytes } ∷ [];
    file = lead ++ bytes;
    source_path = path;
    header = record {
      magic = b'I' ∷ b'O' ∷ b'F' ∷ 0x7f ∷ [];
      format = 2;
      addrwidth = 2;
      section_count = 1;
      section_addr = 16;
      endianness = 0;
    };
  },
  rw e refl,
  refl,
)

built :
    (b : SectionBuilder) {bytes : Bytes}
    → build_section b ≡ some bytes
    → (code : Bytes) × (bytes ≡ section_bytes b code lead)
unfolding build_section
built b h = elim (Option-cases (written_code b)) [
  | inl missing ↦ cc (rw (build_section, missing) at h)
  | inr (code, found) ↦ let e = rw (build_section, found) at h in (code, cc)
]

-- The `i`th item of a table is the address of a name.
pub record ItemOf (self : LdSection) (table i : ℕ) (name : Bytes) (addr : ℕ) : Type 0 where
  pub item : IofItem
  pub is_read : read_item self table i ≡ ok item
  pub addr_is : item.addr ≡ u16 addr
  pub name_is : section_string_by_id self item.id ≡ ok name

module _ (b : SectionBuilder) (code : Bytes)
    (small : length (section_bytes b code lead) < 65536) where
  -- An item that stands for a name is read as that.
  item_of :
      (table i : ℕ) (item : IofItem) (place : Place)
      → read_item (section b code lead) table i
        ≡ ok (record { id = u16 item.id; addr = u16 item.addr })
      → Named b.strings item place
      → NoNul place.0
      → ItemOf (section b code lead) table i place.0 place.1
  item_of table i item place is n clean =
      let few = few_strings b code lead small in
      let inside = get_elem?-bound b.strings n.k n.string_is in
      let id : u16 item.id ≡ n.k = omega (arith, n.id_is) in
      record {
        item = record { id = u16 item.id; addr = u16 item.addr };
        is_read = is;
        addr_is = omega (arith, n.addr_is);
        name_is = rw id (string_by_id-read b code lead n.k small n.string_is clean);
      }

  link_of :
      (places : List Place) (i : ℕ) {place : Place}
      → Matches b.strings b.links places
      → get_elem? places i ≡ some place
      → NoNul place.0
      → ItemOf (section b code lead) (section b code lead).header.links_addr i place.0 place.1
  link_of places i {place} m h clean =
      let (item, there, n) = Matches-item b.strings b.links places i m h in
      item_of _ i item place (links-read b code lead i small there) n clean

  symbol_of :
      (places : List Place) (i : ℕ) {place : Place}
      → Matches b.strings b.symbols places
      → get_elem? places i ≡ some place
      → NoNul place.0
      → ItemOf (section b code lead) (section b code lead).header.symbols_addr i place.0 place.1
  symbol_of places i {place} m h clean =
      let (item, there, n) = Matches-item b.strings b.symbols places i m h in
      item_of _ i item place (symbols-read b code lead i small there) n clean

link_place :
    (ps : List LinkPoint) (i : ℕ) {p : LinkPoint}
    → All (λ p. NoNul p.symbol) ps
    → get_elem? ps i ≡ some p
    → (get_elem? (link_places ps) i ≡ some (p.symbol, p.offset)) × NoNul p.symbol
link_place [] i all h = cc
link_place (q ∷ ps) zero {p} (clean, all) h = let e : q ≡ p = cc in rw (← e) (refl, clean)
link_place (q ∷ ps) (suc i) (clean, all) h = link_place ps i all h

label_place :
    (ls : List Label) (i : ℕ) {l : Label}
    → All (λ l. NoNul l.name) ls
    → get_elem? ls i ≡ some l
    → (get_elem? (label_places ls) i ≡ some (l.name, l.offset)) × NoNul l.name
label_place [] i all h = cc
label_place (k ∷ ls) zero {l} (clean, all) h = let e : k ≡ l = cc in rw (← e) (refl, clean)
label_place (k ∷ ls) (suc i) (clean, all) h = label_place ls i all h

-- What the linker finds in the section of an assembled file: the counts of the link points and of the labels, and
-- all of them, in their order.
pub record Holds (s : Assembler) (self : LdSection) : Type 0 where
  pub links_count : self.header.links_count ≡ u16 (length s.link_points)
  pub symbols_count : self.header.symbols_count ≡ u16 (length s.labels)
  pub links :
      (i : ℕ) (p : LinkPoint)
      → get_elem? s.link_points i ≡ some p
      → ItemOf self self.header.links_addr i p.symbol p.offset
  pub symbols :
      (i : ℕ) (l : Label)
      → get_elem? s.labels i ≡ some l
      → ItemOf self self.header.symbols_addr i l.name l.offset

section-Holds :
    (s : Assembler) (b b' : SectionBuilder) (code : Bytes)
    → b.strings ≡ []
    → b.links ≡ []
    → b.symbols ≡ []
    → add_exports s.labels s.exports (add_links s.link_points b) ≡ ok b'
    → length (section_bytes (add_symbols s.labels b') code lead) < 65536
    → All (λ p. NoNul p.symbol) s.link_points
    → All (λ l. NoNul l.name) s.labels
    → Holds s (section (add_symbols s.labels b') code lead)
unfolding header_of
section-Holds s b b' code strings links symbols exported small points names =
    let (linked, same) = add_links-Matches s.link_points [] b (rw (strings, links) tt) in
    let (kept, links', symbols') =
      add_exports-Kept s.labels s.exports (add_links s.link_points b) exported in
    let (labelled, links'', kept') =
      add_symbols-Matches s.labels [] b' (rw (symbols', same, symbols) tt) in
    let last = add_symbols s.labels b' in
    let points_named : Matches last.strings last.links (link_places s.link_points) =
      rw (links'' ∙ links') (
        Matches-Kept (add_links s.link_points b).strings last.strings
          (add_links s.link_points b).links (link_places s.link_points)
          (λ k t h. kept' k t (kept k t h)) linked) in
    record {
      links_count = ap u16 (
          Matches-length last.strings last.links (link_places s.link_points) points_named
          ∙ length-link_places s.link_points);
      symbols_count = ap u16 (
          Matches-length last.strings last.symbols (label_places s.labels) labelled
          ∙ length-label_places s.labels);
      links = λ i p h.
          let (there, clean) = link_place s.link_points i points h in
          link_of (add_symbols s.labels b') code small (link_places s.link_points) i points_named
            there clean;
      symbols = λ i l h.
          let (there, clean) = label_place s.labels i names h in
          symbol_of (add_symbols s.labels b') code small (label_places s.labels) i labelled there
            clean;
    }

or_stop-ok : {A : Type 0} (o : Option A) {a : A} → or_stop crash o ≡ ok a → o ≡ some a
or_stop-ok none h = cc
or_stop-ok (some a) h = cc

-- The builder that the names go into.
abbrev start : ℕ → Assembler → SectionBuilder
start arbitrary s =
    if s.origin == invalid_origin
    then builder arbitrary s
    else set_origin s.origin (builder arbitrary s)

start-empty :
    (arbitrary : ℕ) (s : Assembler)
    → ((start arbitrary s).strings ≡ [])
      × ((start arbitrary s).links ≡ [])
      × ((start arbitrary s).symbols ≡ [])
unfolding set_origin
start-empty arbitrary s = elim (Bool-cases (s.origin == invalid_origin)) [
  | inl unset ↦ rw unset (refl, refl, refl)
  | inr set ↦ rw set (refl, refl, refl)
]

-- What an object file is made of.
record Parts (arbitrary : ℕ) (s : Assembler) (file : Bytes) : Type 0 where
  exported : SectionBuilder
  exports :
      add_exports s.labels s.exports (add_links s.link_points (start arbitrary s)) ≡ ok exported
  code : Bytes
  file_is : file ≡ lead ++ section_bytes (add_symbols s.labels exported) code lead

as_object-Parts :
    (arbitrary : ℕ) (s : Assembler) {file : Bytes}
    → as_object arbitrary s ≡ ok file
    → Parts arbitrary s file
unfolding as_object
as_object-Parts arbitrary s {file} h =
    let (b', exported, next) =
      >>=-eq-ok (add_exports s.labels s.exports (add_links s.link_points (start arbitrary s))) _
        h in
    let b = add_symbols s.labels b' in
    let (bytes, is, last) = >>=-eq-ok (or_stop crash (build_section b)) _ next in
    let (code, e) = built b (or_stop-ok _ is) in
    let made : build_file (bytes ∷ []) ≡ file = cc in
    record {
      exported = b';
      exports = exported;
      code = code;
      file_is = sym made ∙ file-is bytes ∙ ap (λ bs. lead ++ bs) e;
    }

section-loaded :
    (path file : Bytes) (b : SectionBuilder) (code : Bytes)
    → file ≡ lead ++ section_bytes b code lead
    → (o : LdObject) × (object_from_file path file ≡ ok o) × (o.sections ≡ section b code lead ∷ [])
section-loaded path file b code e =
    let (o, opens, sections) =
      loaded path (section_bytes b code lead) (cut (header b code lead))
        (section_header-read lead (header b code lead) _) in
    (o, ap (object_from_file path) e ∙ opens, sections)

-- The linker loads the object file of the assembler, if it is smaller than 65536 bytes and no name has a NUL:
-- it has one section, whose header counts the link points and the labels of the assembler as its links and its
-- symbols, as u16, and whose items are, in their order, those, with their names and their offsets as u16.
pub as_object-loaded :
    (arbitrary : ℕ) (s : Assembler) (path : Bytes) {file : Bytes}
    → as_object arbitrary s ≡ ok file
    → length file < 65536
    → All (λ p. NoNul p.symbol) s.link_points
    → All (λ l. NoNul l.name) s.labels
    → (o : LdObject) × (self : LdSection) × (object_from_file path file ≡ ok o)
      × (o.sections ≡ self ∷ [])
      × Holds s self
as_object-loaded arbitrary s path {file} h small points names =
    let parts = as_object-Parts arbitrary s h in
    let b = add_symbols s.labels parts.exported in
    let (strings, links, symbols) = start-empty arbitrary s in
    let small' : length (section_bytes b parts.code lead) < 65536 =
      omega
        (arith, ap length parts.file_is, length-append lead (section_bytes b parts.code lead)) in
    let (o, opens, sections) = section-loaded path file b parts.code parts.file_is in
    (
      o,
      section b parts.code lead,
      opens,
      sections,
      section-Holds s (start arbitrary s) parts.exported parts.code strings links symbols
          parts.exports small' points names,
    )
