-- ===== src/Ld/Linker.antt =====
-- ld/src/link.c: the linker's state and its steps.
pub mod Largest
use irid.Base.{
  ℕ, zero, suc, ◌+◌, ◌%◌, Bool, not, ◌&&◌, List, [], ◌∷◌, ◌++◌, Option, none, some, ◌==◌, ltb, leb,
  if◌then◌else◌, get_elem?, set, ok, stop, Cmd, pure, fail, ◌>>=◌, ◌>>◌,
}
use irid.Base.Bytes.{Bytes}
use irid.Ld.Store.{
  Stop, crash, out_of_fuel, no_region, overlap, no_space, insert_failed, Ptr, null, allocated,
  is_free, Store, Regions, load, update, region_new,
}
use irid.Ld.Region.{region_insert}
use irid.Ld.Section.{LdSection, Fallible}
use irid.Ld.Object.{LdObject}

-- `struct ld_section_entry`.
pub record Entry : Type 0 where
  pub section : LdSection
  pub parent : Bytes
  pub region : Ptr

-- `struct ld_symbol`; `entry` is an index among the linker's entries.
pub record LdSymbol : Type 0 where
  pub symbol : Bytes
  pub real_addr : ℕ
  pub entry : ℕ

-- Memory from `realloc`: `none` is a byte that nothing was written to.
abbrev pub Buffer : Type 0
Buffer = List (Option ℕ)

-- `struct ld_linker`, with the store that holds its regions.
pub record Linker : Type 0 where
  pub objects : List LdObject
  pub entries : List Entry
  pub symbols : List LdSymbol
  pub region_chain : Ptr
  pub store : Store
  pub output : Buffer

abbrev pub Linking : Type 0 → Type 0
Linking A = Cmd Stop Linker A

abbrev pub get : Linking Linker
get l = ok (l, l)

-- Steps of the other modules, as steps of the linker.
unfoldable pub on_store : {A : Type 0} → Regions A → Linking A
on_store m l = elim (m l.store) [ ok (a, s) ↦ ok (a, record l { store = s }) | stop e ↦ stop e ]

unfoldable pub reading : {A : Type 0} → Fallible A → Linking A
reading m l = elim m [ ok a ↦ ok (a, l) | stop e ↦ stop e ]

-- `ld_linker_new`, over a store in which nothing was allocated.
abbrev pub linker_new : Linker
linker_new = record {
  objects = [];
  entries = [];
  symbols = [];
  region_chain = null;
  store = record { cells = λ _. none; fresh = 1 };
  output = [];
}

-- `ld_linker_add_object_chain`.
unfoldable pub linker_add_object_chain : List LdObject → Linker → Linker
linker_add_object_chain chain l = record l { objects = l.objects ++ chain }

-- `append_section_entry`.
unfoldable pub append_section_entry : LdObject → LdSection → Linker → Linker
append_section_entry parent section l = record l {
  entries =
      l.entries ++ (record { section = section; parent = parent.source_path; region = null } ∷ []);
}

-- `collect_sections`: the two nested loops.
unfoldable pub collect_object : LdObject → List LdSection → Linker → Linker
collect_object o [] l = l
collect_object o (s ∷ ss) l = collect_object o ss (append_section_entry o s l)

unfoldable pub collect_objects : List LdObject → Linker → Linker
collect_objects [] l = l
collect_objects (o ∷ os) l = collect_objects os (collect_object o o.sections l)

unfoldable pub collect_sections : Linking (Unit {0})
collect_sections l = ok (tt, collect_objects l.objects l)

-- IRID_MAX_ADDR.
abbrev pub irid_max_addr : ℕ
irid_max_addr = 0xffff

-- `create_empty_region`.
unfoldable pub create_empty_region : Linking (Unit {0})
create_empty_region = do
  region ← on_store region_new
  λ l. ok (tt, record l { region_chain = region })
  on_store (update region (λ r. record r { start = 0 }))
  on_store (update region (λ r. record r { size = irid_max_addr }))

-- The loop of `get_first_region`: the first region from `p` back.
unfoldable pub first_from : ℕ → Ptr → Regions Ptr
first_from zero p = fail out_of_fuel
first_from (suc fuel) p = do r ← load p; if r.prev == null then pure p else first_from fuel r.prev

-- `get_first_region`. No chain is longer than the number of regions ever allocated.
unfoldable pub get_first_region : Linking Ptr
get_first_region = do
  l ← get
  p ← on_store (first_from l.store.fresh l.region_chain)
  λ l. ok (tt, record l { region_chain = p })
  pure p

-- The loop of `find_region_with_addr`, from `p` on; null if there is none.
unfoldable pub find_from : ℕ → ℕ → Ptr → Regions Ptr
find_from zero addr p = fail out_of_fuel
find_from (suc fuel) addr p = if p == null then pure null else do
  r ← load p
  if leb r.start addr && ltb addr (r.start + r.size) then pure p else find_from fuel addr r.next

-- `find_region_with_addr`.
unfoldable pub find_region_with_addr : ℕ → Linking Ptr
find_region_with_addr addr = do
  first ← get_first_region
  l ← get
  on_store (find_from l.store.fresh addr first)

unfoldable pub entry_at : ℕ → Linking Entry
entry_at i l = elim (get_elem? l.entries i) [ none ↦ stop crash | some e ↦ ok (e, l) ]

-- A region for entry `i` at `start`, noted in the entry, then put into the region `into`.
unfoldable pub place_entry : ℕ → Entry → ℕ → Ptr → Linking (Unit {0})
place_entry i entry start into = do
  new ← on_store region_new
  on_store (update new (λ r. record r { kind = allocated }))
  on_store (update new (λ r. record r { size = entry.section.header.code_size }))
  on_store (update new (λ r. record r { start = start }))
  on_store (update new (λ r. record r { section = some i }))
  λ l. ok (tt, record l { entries = set l.entries i (record entry { region = new }) })
  code ← on_store (region_insert into new)
  if not (code == 0) then fail insert_failed else pure tt

-- IOF_SFLAG_STATIC_ORIGIN is bit 0.
abbrev pub is_static : LdSection → Bool
is_static s = s.header.flag % 2 == 1

-- One round of `place_static_regions`.
unfoldable pub place_static : ℕ → Linking (Unit {0})
place_static i = do
  entry ← entry_at i
  if not (is_static entry.section) then pure tt else do
    into ← find_region_with_addr entry.section.header.origin
    if into == null then fail (no_region entry.section.header.origin) else do
      r ← on_store (load into)
      if not (is_free r.kind)
          then fail (overlap i)
          else place_entry i entry entry.section.header.origin into

-- `place_static_regions`: `n` rounds from the `i`th entry on.
unfoldable pub place_static_regions : ℕ → ℕ → Linking (Unit {0})
place_static_regions zero i = pure tt
place_static_regions (suc n) i = place_static i >>= λ _. place_static_regions n (i + 1)

-- `largest_nonplaced_section`: the index of the entry, from the `i`th on, among those that have no
-- region yet; `best` and `size` are the loop's `entry` and `size`.
unfoldable pub largest_nonplaced : List Entry → ℕ → Option ℕ → ℕ → Option ℕ
largest_nonplaced [] i best size = best
largest_nonplaced (e ∷ es) i best size =
    let better = e.region == null && ltb size e.section.header.code_size in
    largest_nonplaced es (i + 1) (if better then some i else best)
      (if better then e.section.header.code_size else size)

-- The first free region of at least `size` bytes, from `p` on.
unfoldable pub space_from : ℕ → ℕ → Ptr → Regions Ptr
space_from zero size p = fail out_of_fuel
space_from (suc fuel) size p = if p == null then pure null else do
  r ← load p
  if is_free r.kind && leb size r.size then pure p else space_from fuel size r.next

-- One round of `place_movable_regions`, for entry `i`.
unfoldable pub place_movable : ℕ → Linking (Unit {0})
place_movable i = do
  entry ← entry_at i
  first ← get_first_region
  l ← get
  into ← on_store (space_from l.store.fresh entry.section.header.code_size first)
  if into == null
      then fail (no_space i)
      else do r ← on_store (load into); place_entry i entry r.start into

-- `place_movable_regions`, on fuel.
unfoldable pub place_movable_regions : ℕ → Linking (Unit {0})
place_movable_regions zero = fail out_of_fuel
place_movable_regions (suc fuel) = do
  l ← get
  elim (largest_nonplaced l.entries 0 none 0) [
    | none ↦ pure tt
    | some i ↦ place_movable i >>= λ _. place_movable_regions fuel
  ]
