-- ===== src/Tools/Builder/Section.antt =====
-- libiridtools/src/iof_section_builder.cc: a section that is built, as the linker reads it.
use mathlib.Core.List.{append_assoc}
use irid.Base.{
  get_elem?-before, Bool-cases, inl, inr, get_elem?-bound, ℕ, zero, suc, ◌+◌, ◌*◌, ◌<◌, ◌≤◌, ◌≡◌,
  ◌∙◌, refl, ap, true, false, List, [], ◌∷◌, ◌++◌, some, ok, arith, ◌==◌, length, drop, get_elem?,
  length-append,
}
use irid.Base.Bytes.{Bytes}
use irid.Emul.Cpu.{u16}
use irid.Ld.Section.{
  IofSection, IofItem, LdSection, read_item, find_item, section_string_record_by_id,
  section_string_by_id,
}
use irid.Tools.Builder.{
  SectionBuilder, items_bytes, header_bytes, string_items, string_bytes, header_of, tables,
}
use irid.Tools.Builder.Reads.{cut, table-read}
use irid.Tools.Builder.Strings.{
  NoNul, c_string-text, drop-behind, length-items_bytes, length-string_items, stored,
}

module _ (b : SectionBuilder) (code lead : Bytes) where
  abbrev pub header : IofSection
  header = header_of b code

  abbrev pub section_bytes : Bytes
  section_bytes = header_bytes header (code ++ tables b header.strings_addr)

  -- The section, behind `lead` in its file.
  abbrev pub section : LdSection
  section = record { header = cut header; file_offset = length lead; file = lead ++ section_bytes }

  abbrev front : Bytes
  front = header_bytes header [] ++ code

  abbrev string_table : List IofItem
  string_table = string_items 0 (header.strings_addr + 4 * length b.strings) b.strings

  abbrev names : Bytes
  names =
      items_bytes b.symbols
      ++ (items_bytes b.links ++ (items_bytes b.exports ++ (b.name ++ (0 ∷ []))))

  abbrev behind_exports : Bytes
  behind_exports = b.name ++ (0 ∷ (items_bytes string_table ++ string_bytes b.strings))

  at_symbols :
      section_bytes
      ≡ front
        ++ (items_bytes b.symbols
            ++ (items_bytes b.links ++ (items_bytes b.exports ++ behind_exports)))
  unfolding header_bytes tables
  at_symbols = simp append_assoc refl

  at_links :
      section_bytes
      ≡ (front ++ items_bytes b.symbols)
        ++ (items_bytes b.links ++ (items_bytes b.exports ++ behind_exports))
  unfolding header_bytes tables
  at_links = simp append_assoc refl

  at_exports :
      section_bytes
      ≡ (front ++ (items_bytes b.symbols ++ items_bytes b.links))
        ++ (items_bytes b.exports ++ behind_exports)
  unfolding header_bytes tables
  at_exports = simp append_assoc refl

  at_strings :
      section_bytes ≡ (front ++ names) ++ (items_bytes string_table ++ string_bytes b.strings)
  unfolding header_bytes tables
  at_strings = simp append_assoc refl

  length-front : length front ≡ 28 + length code
  unfolding header_bytes
  length-front = omega arith

  -- The places of the tables.
  links_place : length (front ++ items_bytes b.symbols) ≡ header.links_addr
  unfolding header_of
  links_place = omega (
    arith,
    length-append front (items_bytes b.symbols),
    length-front,
    length-items_bytes b.symbols,
  )

  symbols_place : length front ≡ header.symbols_addr
  unfolding header_of
  symbols_place = length-front

  exports_place :
      length (front ++ (items_bytes b.symbols ++ items_bytes b.links)) ≡ header.exports_addr
  unfolding header_of
  exports_place = omega (
    arith,
    length-append front (items_bytes b.symbols ++ items_bytes b.links),
    length-append (items_bytes b.symbols) (items_bytes b.links),
    length-front,
    length-items_bytes b.symbols,
    length-items_bytes b.links,
  )

  strings_place : length (front ++ names) ≡ header.strings_addr
  unfolding header_of
  strings_place = omega (
    arith,
    length-append front names,
    length-append (items_bytes b.symbols)
        (items_bytes b.links ++ (items_bytes b.exports ++ (b.name ++ (0 ∷ [])))),
    length-append (items_bytes b.links) (items_bytes b.exports ++ (b.name ++ (0 ∷ []))),
    length-append (items_bytes b.exports) (b.name ++ (0 ∷ [])),
    length-append b.name (0 ∷ []),
    length-front,
    length-items_bytes b.symbols,
    length-items_bytes b.links,
    length-items_bytes b.exports,
  )

  -- A table of the section is read as it was built.
  table :
      (body : Bytes) (items : List IofItem) (rest : Bytes) (addr i : ℕ) {item : IofItem}
      → length section_bytes < 65536
      → section_bytes ≡ body ++ (items_bytes items ++ rest)
      → length body ≡ addr
      → get_elem? items i ≡ some item
      → read_item section (u16 addr) i ≡ ok (record { id = u16 item.id; addr = u16 item.addr })
  table body items rest addr i small split place h =
      let long : length section_bytes ≡ length body + length (items_bytes items ++ rest) =
        ap length split ∙ length-append body (items_bytes items ++ rest) in
      let same : u16 addr ≡ length body = omega (arith, place, long) in
      rw same (table-read lead body items rest section i (ap (λ bytes. lead ++ bytes) split) refl h)

  pub links-read :
      (i : ℕ) {item : IofItem}
      → length section_bytes < 65536
      → get_elem? b.links i ≡ some item
      → read_item section section.header.links_addr i
        ≡ ok (record { id = u16 item.id; addr = u16 item.addr })
  links-read i small h = table _ b.links _ header.links_addr i small at_links links_place h

  pub symbols-read :
      (i : ℕ) {item : IofItem}
      → length section_bytes < 65536
      → get_elem? b.symbols i ≡ some item
      → read_item section section.header.symbols_addr i
        ≡ ok (record { id = u16 item.id; addr = u16 item.addr })
  symbols-read i small h =
      table _ b.symbols _ header.symbols_addr i small at_symbols symbols_place h

  pub exports-read :
      (i : ℕ) {item : IofItem}
      → length section_bytes < 65536
      → get_elem? b.exports i ≡ some item
      → read_item section section.header.exports_addr i
        ≡ ok (record { id = u16 item.id; addr = u16 item.addr })
  exports-read i small h =
      table _ b.exports _ header.exports_addr i small at_exports exports_place h

  -- The record and the bytes of a string, as they are read.
  record StringRead (k : ℕ) (s : Bytes) : Type 0 where
    item : IofItem
    is_read : read_item section section.header.strings_addr k ≡ ok item
    id_is : item.id ≡ k
    after : Bytes
    text : drop (length lead + item.addr) section.file ≡ s ++ (0 ∷ after)

  string-read :
      (k : ℕ) {s : Bytes}
      → length section_bytes < 65536
      → get_elem? b.strings k ≡ some s
      → StringRead k s
  string-read k {s} small h =
      let st = stored b.strings 0 (header.strings_addr + 4 * length b.strings) k h in
      let pre = (front ++ names) ++ (items_bytes string_table ++ st.before) in
      let split : section_bytes ≡ pre ++ (s ++ (0 ∷ st.after)) =
        at_strings ∙ rw (st.bytes) (simp append_assoc refl) in
      let long : length section_bytes ≡ length pre + length (s ++ (0 ∷ st.after)) =
        ap length split ∙ length-append pre (s ++ (0 ∷ st.after)) in
      let pre_long : length pre ≡ header.strings_addr + 4 * length b.strings + length st.before =
        omega (
          arith,
          strings_place,
          length-append (front ++ names) (items_bytes string_table ++ st.before),
          length-append (items_bytes string_table) st.before,
          length-items_bytes string_table,
          length-string_items b.strings 0 (header.strings_addr + 4 * length b.strings),
        ) in
      let place : length lead + u16 st.item.addr ≡ length lead + (length pre + 0) =
        omega (arith, st.addr_is, pre_long, long) in
      record {
        item = record { id = u16 st.item.id; addr = u16 st.item.addr };
        is_read =
            table (front ++ names) string_table (string_bytes b.strings) header.strings_addr k small
              at_strings strings_place st.record_is;
        id_is = omega (arith, st.id_is, get_elem?-bound b.strings k h, pre_long, long);
        after = st.after;
        text =
            ap (λ n. drop n section.file) place
            ∙ drop-behind lead section_bytes (length pre + 0)
            ∙ ap (drop (length pre + 0)) split
            ∙ drop-behind pre (s ++ (0 ∷ st.after)) 0;
      }

  -- A look-up by the number of a string finds its record, as the records before it have smaller numbers.
  find_string :
      (k n i : ℕ) {s : Bytes}
      → length section_bytes < 65536
      → get_elem? b.strings k ≡ some s
      → (found : StringRead k s) → i ≤ k
      → k < i + n
      → find_item section section.header.strings_addr k n i ≡ ok (some found.item)
  unfolding find_item
  find_string k zero i small h found le lt = absurd (omega arith)
  find_string k (suc n) i small h found le lt = elim (Bool-cases (i == k)) [
    | inl here ↦
        let e : i ≡ k = ground arith in
        let same : (found.item.id == k) ≡ true = ground (arith, found.id_is) in
        rw (e, found.is_read, same) refl
    | inr there ↦
        let (t, h') = get_elem?-before b.strings k i h le in
        let r = string-read i small h' in
        let other : (r.item.id == k) ≡ false = ground (arith, r.id_is) in
        rw (r.is_read, other) (find_string k n (i + 1) small h found (ground arith) (omega arith))
  ]

  string_count : section.header.strings_count ≡ u16 (length b.strings)
  unfolding header_of
  string_count = refl

  pub few_strings : length section_bytes < 65536 → length b.strings < 65536
  few_strings small = omega (
    arith,
    ap length at_strings,
    length-append (front ++ names) (items_bytes string_table ++ string_bytes b.strings),
    length-append (items_bytes string_table) (string_bytes b.strings),
    length-items_bytes string_table,
    length-string_items b.strings 0 (header.strings_addr + 4 * length b.strings),
  )

  -- The string of a number is the one that got the number.
  pub string_by_id-read :
      (k : ℕ) {s : Bytes}
      → length section_bytes < 65536
      → get_elem? b.strings k ≡ some s
      → NoNul s
      → section_string_by_id section k ≡ ok s
  unfolding section_string_by_id section_string_record_by_id
  string_by_id-read k {s} small h clean =
      let found = string-read k small h in
      let looked =
        find_string k section.header.strings_count 0 small h found (omega arith)
          (omega (arith, string_count, few_strings small, get_elem?-bound b.strings k h)) in
      rw (looked, found.text) (c_string-text s found.after clean)
