-- ===== src/Tests/Object.antt =====
-- The object file of a jump to a label.
use irid.Base.{◌≡◌, refl, [], ◌∷◌, ok, arith}
use irid.Base.Bytes.{Bytes, codes, equal}
use irid.Ld.Section.{LdSection}
use irid.Ld.Object.{LdObject, object_from_file}
use irid.As.State.{Assembler, initial, find_label}
use irid.As.Labels.{label_at}
use irid.As.Object.{add_links, add_exports, add_symbols, as_object}
use irid.As.Object.Loaded.{Holds, as_object-loaded}
use irid.Tools.Builder.{
  set_origin, index_of, string_id, add_link, add_export, add_symbol, items_bytes, header_bytes,
  written_code, string_items, string_bytes, header_of, tables, build_section, pointers, concat,
  build_file,
}

-- `jmp end`, with `end` at 8 and exported.
abbrev jump : Assembler
jump = record initial {
  link_points = record { symbol = codes "end"; offset = 1 } ∷ [];
  exports = codes "end" ∷ [];
  labels = label_at (codes "end") 8 ∷ [];
  code = 0x30 ∷ 0 ∷ 0 ∷ 0 ∷ [];
  pos = 4;
}

abbrev jump_file : Bytes
jump_file =
    73 ∷ 79 ∷ 70 ∷ 127 ∷ 2 ∷ 2 ∷ 1 ∷ 0 ∷ 16 ∷ 0 ∷ 0 ∷ 0 ∷ 0 ∷ 0 ∷ 0 ∷ 0 ∷ 18 ∷ 0 ∷ 0 ∷ 0 ∷ 0 ∷ 0 ∷ 4
    ∷ 0 ∷ 28 ∷ 0 ∷ 1 ∷ 0 ∷ 36 ∷ 0 ∷ 1 ∷ 0 ∷ 32 ∷ 0 ∷ 1 ∷ 0 ∷ 40 ∷ 0 ∷ 1 ∷ 0 ∷ 49 ∷ 0 ∷ 4 ∷ 0 ∷ 44
    ∷ 0 ∷ 48 ∷ 0 ∷ 0 ∷ 0 ∷ 0 ∷ 0 ∷ 8 ∷ 0 ∷ 0 ∷ 0 ∷ 1 ∷ 0 ∷ 0 ∷ 0 ∷ 8 ∷ 0 ∷ 99 ∷ 111 ∷ 100 ∷ 101 ∷ 0
    ∷ 0 ∷ 0 ∷ 53 ∷ 0 ∷ 101 ∷ 110 ∷ 100 ∷ 0 ∷ []

jump_object : as_object 0 jump ≡ ok jump_file
unfolding as_object add_links add_exports add_symbols find_label equal index_of string_id add_link
    add_export add_symbol items_bytes header_bytes written_code string_items string_bytes header_of
    tables build_section pointers concat build_file set_origin
jump_object = refl

as_object-loaded_example :
    (o : LdObject) × (self : LdSection) × (object_from_file (codes "a.iof") jump_file ≡ ok o)
    × (o.sections ≡ self ∷ [])
    × Holds jump self
as_object-loaded_example =
    as_object-loaded 0 jump (codes "a.iof") jump_object (omega arith)
      (((λ e. cc), ((λ e. cc), ((λ e. cc), tt))), tt)
      (((λ e. cc), ((λ e. cc), ((λ e. cc), tt))), tt)
