-- ===== src/Ld/Output.antt =====
-- ld/src/link.c: symbols, the output buffer, link points, and ld_linker_link.
pub mod Link
pub mod Resolve
use irid.Base.{
  ℕ, zero, suc, ◌+◌, ◌/◌, ◌%◌, List, [], ◌∷◌, ◌++◌, map, Option, none, some, ◌==◌, leb,
  if◌then◌else◌, length, take, drop, replicate, ok, stop, pure, fail, ◌>>=◌, ◌>>◌,
}
use irid.Base.Bytes.{Bytes, equal}
use irid.Ld.Store.{crash, out_of_fuel, no_symbol, Ptr, null, is_free, Region, Regions, load}
use irid.Ld.Section.{Fallible, read_item, section_string_by_id}
use irid.Ld.Linker.{
  Entry, LdSymbol, Buffer, Linking, get, on_store, reading, entry_at, collect_sections,
  create_empty_region, get_first_region, place_static_regions, place_movable_regions,
}

-- `add_symbol`.
unfoldable pub add_symbol : LdSymbol → Linking (Unit {0})
add_symbol sym l = ok (tt, record l { symbols = l.symbols ++ (sym ∷ []) })

-- `collect_symbols_from_section` for entry `i`: `n` exports from the `k`th on.
unfoldable pub collect_symbols : ℕ → Entry → ℕ → ℕ → Linking (Unit {0})
collect_symbols i entry zero k = pure tt
collect_symbols i entry (suc n) k = do
  item ← reading (read_item entry.section entry.section.header.exports_addr k)
  name ← reading (section_string_by_id entry.section item.id)
  r ← on_store (load entry.region)
  add_symbol (record { symbol = name; real_addr = r.start + item.addr; entry = i })
  collect_symbols i entry n (k + 1)

unfoldable pub collect_symbols_from_section : ℕ → Linking (Unit {0})
collect_symbols_from_section i = do
  entry ← entry_at i
  collect_symbols i entry entry.section.header.exports_count 0

-- `resolve_global_symbol`.
unfoldable pub resolve_global : List LdSymbol → Bytes → Option LdSymbol
resolve_global [] name = none
resolve_global (s ∷ ss) name = if equal s.symbol name then some s else resolve_global ss name

-- `resolve_local_symbol` for entry `i`: `n` symbols from the `k`th on.
unfoldable pub resolve_local : ℕ → Entry → Bytes → ℕ → ℕ → Linking (Option LdSymbol)
resolve_local i entry name zero k = pure none
resolve_local i entry name (suc n) k =
    let rest = resolve_local i entry name n (k + 1) in
    do
      item ← reading (read_item entry.section entry.section.header.symbols_addr k)
      cmpname ← reading (section_string_by_id entry.section item.id)
      if equal cmpname name
          then (do
            r ← on_store (load entry.region)
            pure (some (record { symbol = name; real_addr = r.start + item.addr; entry = i })))
          else rest

-- The tests of `link_section`: a local symbol, else a global one, else `die`.
unfoldable pub or_fail : Bytes → Option LdSymbol → Linking LdSymbol
or_fail name (some symbol) = pure symbol
or_fail name none = fail (no_symbol name)

unfoldable pub or_global : Bytes → Option LdSymbol → Linking LdSymbol
or_global name (some symbol) = pure symbol
or_global name none = do l ← get; or_fail name (resolve_global l.symbols name)

unfoldable pub resolve : ℕ → Entry → Bytes → Linking LdSymbol
resolve i entry name =
    resolve_local i entry name entry.section.header.symbols_count 0 >>= or_global name

-- `memcpy` into a buffer; a write past its end is a fault.
unfoldable pub overwrite : Buffer → ℕ → Buffer → Fallible Buffer
overwrite buf at src =
    if leb (at + length src) (length buf)
    then ok (take at buf ++ (src ++ drop (at + length src) buf))
    else stop crash

-- The two bytes of `*pointer = value` through a `u16 *`, on a little-endian host.
abbrev pub u16_bytes : ℕ → Buffer
u16_bytes value = some (value % 256) ∷ some (value / 256 % 256) ∷ []

unfoldable pub write_output : ℕ → Buffer → Linking (Unit {0})
write_output at src l = elim (overwrite l.output at src) [
  | ok buf ↦ ok (tt, record l { output = buf })
  | stop e ↦ stop e
]

-- One link point of `link_section`, the `k`th of entry `i`.
unfoldable pub link_point : ℕ → Entry → ℕ → Linking (Unit {0})
link_point i entry k = do
  item ← reading (read_item entry.section entry.section.header.links_addr k)
  symname ← reading (section_string_by_id entry.section item.id)
  symbol ← resolve i entry symname
  r ← on_store (load entry.region)
  write_output (r.start + item.addr) (u16_bytes symbol.real_addr)

unfoldable pub link_points : ℕ → Entry → ℕ → ℕ → Linking (Unit {0})
link_points i entry zero k = pure tt
link_points i entry (suc n) k = link_point i entry k >>= λ _. link_points i entry n (k + 1)

-- `link_section`.
unfoldable pub link_section : ℕ → Linking (Unit {0})
link_section i = do entry ← entry_at i; link_points i entry entry.section.header.links_count 0

-- The loop of `create_output_buffer`: the end of the last allocated region, from `p` on.
unfoldable pub end_from : ℕ → ℕ → Ptr → Regions ℕ
end_from zero maxaddr p = fail out_of_fuel
end_from (suc fuel) maxaddr p =
    if p == null
    then pure maxaddr
    else do r ← load p; end_from fuel (if is_free r.kind then maxaddr else r.start + r.size) r.next

-- `create_output_buffer`.
unfoldable pub create_output_buffer : Linking (Unit {0})
create_output_buffer = do
  first ← get_first_region
  l ← get
  maxaddr ← on_store (end_from l.store.fresh 0 first)
  λ l. ok (tt, record l { output = replicate maxaddr none })

-- The `n` bytes of a file from an offset on.
unfoldable pub read_range : Bytes → ℕ → ℕ → Fallible Buffer
read_range file at n =
    if leb (at + n) (length file) then ok (map some (take n (drop at file))) else stop crash

-- One region in `copy_code_sections`.
unfoldable pub copy_region : Region → Linking (Unit {0})
copy_region r = if is_free r.kind then pure tt else (elim r.section [
  | none ↦ fail crash
  | some i ↦ do
    entry ← entry_at i
    let section = entry.section
    code ← reading (read_range section.file (section.file_offset + section.header.code_addr) r.size)
    write_output r.start code
])

unfoldable pub copy_from : ℕ → Ptr → Linking (Unit {0})
copy_from zero p = fail out_of_fuel
copy_from (suc fuel) p =
    if p == null then pure tt else do r ← on_store (load p); copy_region r; copy_from fuel r.next

-- `copy_code_sections`.
unfoldable pub copy_code_sections : Linking (Unit {0})
copy_code_sections = do first ← get_first_region; l ← get; copy_from l.store.fresh first

-- The loop of `zero_free_sections`, which leaves the last region alone.
unfoldable pub zero_from : ℕ → Ptr → Linking (Unit {0})
zero_from zero p = fail out_of_fuel
zero_from (suc fuel) p = do
  r ← on_store (load p)
  if r.next == null then pure tt else do
    if is_free r.kind then write_output r.start (replicate r.size (some 0)) else pure tt
    zero_from fuel r.next

-- `zero_free_sections`.
unfoldable pub zero_free_sections : Linking (Unit {0})
zero_free_sections = do first ← get_first_region; l ← get; zero_from l.store.fresh first

-- `for (i = 0; i < n_entries; i++) step(self, entries[i])`.
unfoldable pub for_entries : (ℕ → Linking (Unit {0})) → ℕ → ℕ → Linking (Unit {0})
for_entries step zero i = pure tt
for_entries step (suc n) i = step i >>= λ _. for_entries step n (i + 1)

-- `ld_linker_link` up to the writing of the file; the result is what is written.
unfoldable pub linker_link : Linking Buffer
linker_link = do
  collect_sections
  create_empty_region
  l ← get
  let n = length l.entries
  place_static_regions n 0
  place_movable_regions (n + 1)
  for_entries collect_symbols_from_section n 0
  create_output_buffer
  copy_code_sections
  zero_free_sections
  for_entries link_section n 0
  l ← get
  pure l.output
