-- ===== src/Ld/Output/Link.antt =====
-- What linking writes into the output.
use irid.Base.{
  some, ℕ, ◌+◌, ◌-◌, ◌≤◌, ◌<◌, ◌≡◌, refl, ap, ◌∙◌, ◌⊎◌, ◌++◌, ok, stop, arith, inl, inr, leb,
  Bool-cases, length, length-append, length-take, length-drop, take, drop, get_elem?,
  get_elem?-append, get_elem?-take, get_elem?-drop, Result, and_then-eq-ok,
}
use irid.Base.Bytes.{Bytes}
use irid.Ld.Store.{Stop, crash, Region, load}
use irid.Ld.Section.{IofItem, Fallible, read_item, section_string_by_id}
use irid.Ld.Linker.{Linker, Entry, Buffer, LdSymbol, on_store, reading}
use irid.Ld.Output.{resolve, link_point, write_output, overwrite, u16_bytes}
use irid.Ld.Output.Resolve.{IsResolved, reading-ok, load-found, resolve-IsResolved}

-- `new` is `old` but for the bytes `src` at `at`, which lie within it.
pub record Overwritten (old : Buffer) (at : ℕ) (src : Buffer) (new : Buffer) : Type 0 where
  pub fits : at + length src ≤ length old
  pub same_length : length new ≡ length old
  pub inside : (j : ℕ) → j < length src → get_elem? new (at + j) ≡ get_elem? src j
  pub outside : (i : ℕ) → (i < at) ⊎ (at + length src ≤ i) → get_elem? new i ≡ get_elem? old i

overwritten :
    (old : Buffer) (at : ℕ) (src : Buffer)
    → at + length src ≤ length old
    → Overwritten old at src (take at old ++ (src ++ drop (at + length src) old))
overwritten old at src fits = record {
  fits = fits;
  same_length = omega (
    arith,
    length-append (take at old) (src ++ drop (at + length src) old),
    length-append src (drop (at + length src) old),
    length-take at old,
    length-drop (at + length src) old,
  );
  inside = λ j lt. ground (
    arith,
    length-take at old,
    get_elem?-append (take at old) (src ++ drop (at + length src) old) (at + j),
    get_elem?-append src (drop (at + length src) old) (at + j - length (take at old)),
    ap (get_elem? src) (index j),
  );
  outside = kept;
}
  where
    kept :
        (i : ℕ)
        → (i < at) ⊎ (at + length src ≤ i)
        → get_elem? (take at old ++ (src ++ drop (at + length src) old)) i ≡ get_elem? old i
    kept i (inl lt) = ground (
      arith,
      length-take at old,
      get_elem?-append (take at old) (src ++ drop (at + length src) old) i,
      get_elem?-take at i old,
    )
    kept i (inr le) =
        let e : at + length src + (i - at - length src) ≡ i = omega arith in
        ground (
          arith,
          length-take at old,
          get_elem?-append (take at old) (src ++ drop (at + length src) old) i,
          get_elem?-append src (drop (at + length src) old) (i - at),
          get_elem?-drop (at + length src) (i - at - length src) old,
          ap (get_elem? old) e,
        )

    index : (j : ℕ) → at + j - length (take at old) ≡ j
    index j = omega (arith, length-take at old)

pub overwrite-Overwritten :
    (old : Buffer) (at : ℕ) (src : Buffer) {new : Buffer}
    → overwrite old at src ≡ ok new
    → Overwritten old at src new
unfolding overwrite
overwrite-Overwritten old at src {new} h = elim (Bool-cases (leb (at + length src) (length old))) [
  | inl fits ↦
      let e : ok (take at old ++ (src ++ drop (at + length src) old)) ≡ ok new = rw fits at h in
      let e' : take at old ++ (src ++ drop (at + length src) old) ≡ new = cc in
      rw (← e') (overwritten old at src (ground arith))
  | inr no_fit ↦ let e : stop crash ≡ ok new = rw no_fit at h in cc
]

write_output-Overwritten :
    (at : ℕ) (src : Buffer) (l : Linker) {u : Unit {0}} {l' : Linker}
    → write_output at src l ≡ ok (u, l')
    → Overwritten l.output at src l'.output × (l' ≡ record l { output = l'.output })
unfolding write_output
write_output-Overwritten at src l {l'} h = written (overwrite l.output at src) refl h
  where
    written :
        (m : Fallible Buffer)
        → overwrite l.output at src ≡ m
        → (elim m as (λ _. Result Stop (Unit {0} × Linker)) [
          | ok buf ↦ ok (tt, record l { output = buf })
          | stop e ↦ stop e
        ])
          ≡ ok (_, l')
        → Overwritten l.output at src l'.output × (l' ≡ record l { output = l'.output })
    written (ok buf) e h =
        let e' : record l { output = buf } ≡ l' = cc in
        (rw (← e') (overwrite-Overwritten l.output at src e), rw (← e'))
    written (stop e) e' h = cc

-- Link point `k` of entry `i` holds the address of the symbol that its name stands for, low byte first,
-- at its place in the output; every other byte of the output, and all else, is as it was.
pub record Patched (i : ℕ) (entry : Entry) (k : ℕ) (l l' : Linker) : Type 0 where
  pub item : IofItem
  pub name : Bytes
  pub symbol : LdSymbol
  pub region : Region
  pub read : read_item entry.section entry.section.header.links_addr k ≡ ok item
  pub string : section_string_by_id entry.section item.id ≡ ok name
  pub resolved : IsResolved l i entry name symbol
  pub at : l.store.cells entry.region ≡ some region
  pub written :
      Overwritten l.output (region.start + item.addr) (u16_bytes symbol.real_addr) l'.output
  pub kept : l' ≡ record l { output = l'.output }

-- A link point that is linked is patched.
pub link_point-Patched :
    (i : ℕ) (entry : Entry) (k : ℕ) (l : Linker) {u : Unit {0}} {l' : Linker}
    → link_point i entry k l ≡ ok (u, l')
    → Patched i entry k l l'
unfolding link_point
link_point-Patched i entry k l h =
    let (item, l1, h1, rest1) =
      and_then-eq-ok (reading (read_item entry.section entry.section.header.links_addr k) l) _ h in
    let (read, same1) = reading-ok _ l h1 in
    let (name, l2, h2, rest2) =
      and_then-eq-ok (reading (section_string_by_id entry.section item.id) l1) _ rest1 in
    let (string, same2) = reading-ok _ l1 h2 in
    let same : l2 ≡ l = same2 ∙ same1 in
    let (symbol, l3, h3, rest3) = and_then-eq-ok (resolve i entry name l) _ (rw same at rest2) in
    let (resolved, same3) = resolve-IsResolved l i entry name h3 in
    let (region, l4, h4, rest4) =
      and_then-eq-ok (on_store (load entry.region) l) _ (rw same3 at rest3) in
    let (at, same4) = load-found entry.region l h4 in
    let (written, kept) =
      write_output-Overwritten (region.start + item.addr) (u16_bytes symbol.real_addr) l
        (rw same4 at rest4) in
    record {
      item = item;
      name = name;
      symbol = symbol;
      region = region;
      read = read;
      string = string;
      resolved = resolved;
      at = at;
      written = written;
      kept = kept;
    }
