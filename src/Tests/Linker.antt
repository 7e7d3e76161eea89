-- ===== src/Tests/Linker.antt =====
-- The linker on small object files.
use irid.Base.{
  get_elem?, length, ◌⊎◌, stop, ℕ, ◌++◌, List, ◌≤◌, ◌≡◌, refl, [], ◌∷◌, none, some, ok, arith,
}
use irid.Base.Bytes.{Bytes, codes, equal}
use irid.Ld.Store.{null, free, allocated, Store, write, load}
use irid.Ld.Region.{region_insert}
use irid.Ld.Region.Block.{Block, Slots, region, head_or, Seg, nil, cons}
use irid.Ld.Region.Insert.{Chained, IsNew}
use irid.Ld.Region.Refines.{inserted, insert-inserted}
use irid.Ld.Region.Tiles.{Tiles, region_insert-Tiles}
use irid.Ld.Section.{
  read_u8, IofSection, LdSection, read_u16, c_string, read_item, find_item, section_string_by_id,
}
use irid.Ld.Section.{IofHeader}
use irid.Ld.Store.{bad_magic}
use irid.Ld.Object.{
  LdObject, iof_magic, read_header, load_and_validate_header, read_section_header,
  object_section_new, load_section, load_sections, object_from_file,
}
use irid.Ld.Object.Load.{IsSupported, IsSection, object_from_file-IsSection}
use irid.Ld.Linker.{largest_nonplaced}
use irid.Ld.Linker.Largest.{NonplacedLe, IsLargest, largest_nonplaced-IsLargest}
use irid.Ld.Section.Find.{FindsFirst, find_item-FindsFirst}
use irid.Ld.Linker.{Entry, LdSymbol, Linker, on_store, reading}
use irid.Ld.Output.{
  link_point, write_output, overwrite, resolve, resolve_local, resolve_global, or_global, or_fail,
}
use irid.Ld.Output.Resolve.{IsResolved, resolve-IsResolved}
use irid.Ld.Output.Link.{Patched, link_point-Patched}

-- A free region of 0xffff bytes at address 1 of the store, and a region of 16 bytes from 0x100 on at
-- address 2.
abbrev whole : Block
whole = record { kind = free; start = 0; size = 0xffff; section = none }

abbrev small : Block
small = record { kind = allocated; start = 0x100; size = 16; section = some 0 }

abbrev two_regions : Store
two_regions = record {
  cells = write (write (λ _. none) 1 (some (region 0 0 whole))) 2 (some (region 0 0 small));
  fresh = 3;
}

whole-Chained : Chained two_regions 1 [] 1 whole []
unfolding write
whole-Chained = record {
  next = 0;
  prev = 0;
  before = nil;
  here = record { ne_null = omega arith; holds = refl };
  behind = nil;
  apart = λ a i. cc;
  out = refl;
  prev_is = refl;
}

small-IsNew : IsNew two_regions 2 small
unfolding write
small-IsNew = record {
  here = record { ne_null = omega arith; holds = refl };
  fresh_ne_null = omega arith;
  unused = refl;
}

insert-inserted_example :
    (t : Store) × (region_insert 1 2 two_regions ≡ ok (0, t))
    × (let zs = inserted 1 2 3 whole small [] [] in Seg t.cells null (head_or null zs) zs)
insert-inserted_example =
    insert-inserted whole-Chained small-IsNew refl refl
      (record { low = omega arith; high = omega arith })

-- An allocated region follows the free one.
abbrev busy : Block
busy = record { kind = allocated; start = 0x8000; size = 32; section = some 1 }

abbrev half : Block
half = record { kind = free; start = 0; size = 0x8000; section = none }

abbrev chained_regions : Store
chained_regions = record {
  cells =
      write (write (write (λ _. none) 1 (some (region 3 0 half))) 2 (some (region 0 0 small))) 3
        (some (region 0 1 busy));
  fresh = 4;
}

half-Chained : Chained chained_regions 1 [] 1 half ((3, busy) ∷ [])
unfolding write
half-Chained = record {
  next = 3;
  prev = 0;
  before = nil;
  here = record { ne_null = omega arith; holds = refl };
  behind = cons (record { ne_null = omega arith; holds = refl }) refl nil;
  apart = λ a i. cc;
  out = refl;
  prev_is = refl;
}

chained-IsNew : IsNew chained_regions 2 small
unfolding write
chained-IsNew = record {
  here = record { ne_null = omega arith; holds = refl };
  fresh_ne_null = omega arith;
  unused = refl;
}

region_insert-Tiles_example :
    (t : Store) × (zs : Slots) × (region_insert 1 2 chained_regions ≡ ok (0, t))
    × Seg t.cells null (head_or null zs) zs
    × Tiles 0 zs 0x8000
    × (0x8000 ≤ 0x8020)
region_insert-Tiles_example =
    region_insert-Tiles half-Chained chained-IsNew refl refl
      (record { low = omega arith; high = omega arith }) 0 0x8020 (refl, (refl, refl))

-- Two strings, one link to "f" at offset 1 of the code, and no local symbols.
abbrev file : Bytes
file = 1 ∷ 0 ∷ 14 ∷ 0 ∷ 2 ∷ 0 ∷ 12 ∷ 0 ∷ 2 ∷ 0 ∷ 1 ∷ 0 ∷ b'f' ∷ 0 ∷ b'g' ∷ 0 ∷ []

abbrev header : IofSection
header = record {
  flag = 0;
  origin = 0;
  code_size = 4;
  code_addr = 0;
  links_count = 1;
  links_addr = 8;
  symbols_count = 0;
  symbols_addr = 0;
  exports_count = 0;
  exports_addr = 0;
  strings_count = 2;
  strings_addr = 0;
  sname_size = 1;
  sname_addr = 12;
}

abbrev section : LdSection
section = record { header = header; file_offset = 0; file = file }

find_item-FindsFirst_example : FindsFirst section 0 2 2 0 (some (record { id = 2; addr = 12 }))
unfolding find_item read_item read_u16
find_item-FindsFirst_example = find_item-FindsFirst section 0 2 2 0 refl

abbrev entry : Entry
entry = record { section = section; parent = codes "a.iof"; region = 2 }

abbrev symbol_f : LdSymbol
symbol_f = record { symbol = codes "f"; real_addr = 0x1234; entry = 0 }

abbrev linker : Linker
linker = record {
  objects = [];
  entries = entry ∷ [];
  symbols = symbol_f ∷ [];
  region_chain = 1;
  store = record two_regions {
    cells = write (λ _. none) 2 (some (region 0 0 (record small { start = 1 })));
  };
  output = none ∷ none ∷ some 7 ∷ none ∷ none ∷ [];
}

abbrev linked : Linker
linked = record linker { output = none ∷ none ∷ some 0x34 ∷ some 0x12 ∷ none ∷ [] }

resolve-IsResolved_example :
    IsResolved linker 0 entry (codes "f") symbol_f × (◌≡◌ {A = Linker} linker linker)
unfolding resolve resolve_local resolve_global or_global or_fail equal
resolve-IsResolved_example = resolve-IsResolved linker 0 entry (codes "f") refl

link_point-Patched_example : Patched 0 entry 0 linker linked
unfolding link_point write_output overwrite reading on_store load write read_item read_u16
    section_string_by_id find_item c_string resolve resolve_local resolve_global or_global or_fail
    equal
link_point-Patched_example = link_point-Patched 0 entry 0 linker refl

-- An object file: the header, one pointer at 16, and the section's header at 18.
abbrev object_file : Bytes
object_file =
    (iof_magic ++ (2 ∷ 16 ∷ 1 ∷ 0 ∷ 16 ∷ 0 ∷ 0 ∷ 0 ∷ 0 ∷ 0 ∷ 0 ∷ 0 ∷ []))
    ++ (18 ∷ 0 ∷ [])
    ++ (1 ∷ 0 ∷ 0 ∷ 2 ∷ 4 ∷ 0 ∷ 0 ∷ 0 ∷ 1 ∷ 0 ∷ 8 ∷ 0 ∷ 0 ∷ 0 ∷ [])
    ++ (0 ∷ 0 ∷ 0 ∷ 0 ∷ 0 ∷ 0 ∷ 2 ∷ 0 ∷ 0 ∷ 0 ∷ 1 ∷ 0 ∷ 12 ∷ 0 ∷ [])

abbrev object_header : IofHeader
object_header = record {
  magic = iof_magic;
  format = 2;
  addrwidth = 16;
  section_count = 1;
  section_addr = 16;
  endianness = 0;
}

abbrev object : LdObject
object = record {
  sections =
      record {
        header = record header { flag = 1; origin = 0x200 };
        file_offset = 18;
        file = object_file;
      }
      ∷ [];
  file = object_file;
  source_path = codes "a.iof";
  header = object_header;
}

object_from_file-IsSection_example :
    (object.file ≡ object_file)
    × (object.source_path ≡ codes "a.iof")
    × (read_header object_file ≡ ok object.header)
    × IsSupported object.header
    × (length object.sections ≡ object.header.section_count)
    × ((i : ℕ) (s : LdSection) → get_elem? object.sections i ≡ some s → IsSection object i s)
unfolding object_from_file load_and_validate_header read_header read_u8 read_u16 equal load_sections
    load_section read_section_header object_section_new
object_from_file-IsSection_example = object_from_file-IsSection (codes "a.iof") object_file refl

-- A file with other magic bytes is refused.
bad_magic_run : object_from_file (codes "b.iof") (0 ∷ object_file) ≡ stop bad_magic
unfolding object_from_file load_and_validate_header read_header read_u8 read_u16 equal
bad_magic_run = refl

abbrev entries : List Entry
entries =
    record entry { region = 0 }
    ∷ record {
      section = record section { header = record header { code_size = 9 } };
      parent = [];
      region = 0;
    }
    ∷ []

largest_nonplaced-IsLargest_example :
    ((i : ℕ) × (largest_nonplaced entries 0 none 0 ≡ some i) × IsLargest entries i)
    ⊎ ((largest_nonplaced entries 0 none 0 ≡ none) × NonplacedLe entries 0)
largest_nonplaced-IsLargest_example = largest_nonplaced-IsLargest entries
