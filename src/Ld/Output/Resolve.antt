-- ===== src/Ld/Output/Resolve.antt =====
-- Which symbol a name stands for.
use irid.Base.{
  ℕ, zero, suc, ◌+◌, ◌<◌, ◌≡◌, ◌≢◌, refl, ap, sym, ◌∙◌, ◌⊎◌, List, [], ◌∷◌, Option, none, some,
  false, ok, stop, arith, inl, inr, Bool-cases, and_then-eq-ok,
}
use irid.Base.Bytes.{Bytes, equal, equal_iff}
use irid.Ld.Store.{Ptr, Region, load}
use irid.Ld.Section.{IofItem, Fallible, read_item, section_string_by_id}
use irid.Ld.Linker.{Entry, LdSymbol, Linker, on_store, reading}
use irid.Ld.Output.{resolve_local, resolve_global, or_fail, or_global, resolve}

pub reading-ok :
    {A : Type 0} (m : Fallible A) (l : Linker) {a : A} {l' : Linker}
    → reading m l ≡ ok (a, l')
    → (m ≡ ok a) × (l' ≡ l)
unfolding reading
reading-ok (ok a) l h = (cc, cc)
reading-ok (stop e) l h = cc

pub load-found :
    (p : Ptr) (l : Linker) {r : Region} {l' : Linker}
    → on_store (load p) l ≡ ok (r, l')
    → (l.store.cells p ≡ some r) × (l' ≡ l)
unfolding on_store load
load-found p l h = ground arith

-- Entry `i`'s table of symbols has an item at place `k` whose string is `name`.
pub record Names (entry : Entry) (name : Bytes) (k : ℕ) (item : IofItem) : Type 0 where
  pub read : read_item entry.section entry.section.header.symbols_addr k ≡ ok item
  pub string : section_string_by_id entry.section item.id ≡ ok name

-- `symbol` is the local symbol of entry `i` at a place from `k` on, before the `n`th.
pub record IsLocal (l : Linker) (i : ℕ) (entry : Entry) (name : Bytes) (n k : ℕ) (symbol : LdSymbol)
    : Type 0 where
  pub place : ℕ
  pub within : place < n
  pub item : IofItem
  pub region : Region
  pub names : Names entry name (k + place) item
  pub at : l.store.cells entry.region ≡ some region
  pub symbol_is : symbol ≡ record { symbol = name; real_addr = region.start + item.addr; entry = i }

abbrev pub LocalOutcome : Linker → ℕ → Entry → Bytes → ℕ → ℕ → Option LdSymbol → Type 0
LocalOutcome l i entry name n k (some symbol) = IsLocal l i entry name n k symbol
LocalOutcome l i entry name n k none =
    (j : ℕ) (item : IofItem) → j < n → Names entry name (k + j) item → ⊥

module _ (l : Linker) (i : ℕ) (entry : Entry) (name : Bytes) where
  none-cons :
      (n k : ℕ) (item : IofItem) (other : Bytes)
      → read_item entry.section entry.section.header.symbols_addr k ≡ ok item
      → section_string_by_id entry.section item.id ≡ ok other
      → equal other name ≡ false
      → LocalOutcome l i entry name n (k + 1) none
      → LocalOutcome l i entry name (suc n) k none
  none-cons n k item other read string differs t zero item' lt named =
      let e : k + 0 ≡ k = omega arith in
      let same : ok item ≡ ok item' = sym read ∙ rw e at named.read in
      let same' : item ≡ item' = cc in
      let name_is : ok other ≡ ok name =
        sym string
        ∙ ap (λ (x : IofItem). section_string_by_id entry.section x.id) same'
        ∙ named.string in
      let name_is' : other ≡ name = cc in cc (differs, (equal_iff other name).1 name_is')
  none-cons n k item other read string differs t (suc j) item' lt named =
      let e : k + suc j ≡ k + 1 + j = omega arith in
      t j item' (omega arith) (record { read = rw e at named.read; string = named.string })

  some-cons :
      (n k : ℕ) (symbol : LdSymbol)
      → IsLocal l i entry name n (k + 1) symbol
      → IsLocal l i entry name (suc n) k symbol
  some-cons n k symbol is =
      let e : k + suc is.place ≡ k + 1 + is.place = omega arith in
      record {
        place = suc is.place;
        within = omega (arith, is.within);
        item = is.item;
        region = is.region;
        names = rw e is.names;
        at = is.at;
        symbol_is = is.symbol_is;
      }

  abbrev symbol_at : IofItem → Region → LdSymbol
  symbol_at item r = record { symbol = name; real_addr = r.start + item.addr; entry = i }

  here :
      (n k : ℕ) (item : IofItem) (r : Region)
      → read_item entry.section entry.section.header.symbols_addr k ≡ ok item
      → section_string_by_id entry.section item.id ≡ ok name
      → l.store.cells entry.region ≡ some r
      → LocalOutcome l i entry name (suc n) k (some (symbol_at item r))
  here n k item r read string at =
      let e : k + 0 ≡ k = omega arith in
      record {
        place = 0;
        within = omega arith;
        item = item;
        region = r;
        names = rw e (record { read = read; string = string });
        at = at;
        symbol_is = refl;
      }

  outcome-cons :
      (n k : ℕ) (item : IofItem) (other : Bytes) (found : Option LdSymbol)
      → read_item entry.section entry.section.header.symbols_addr k ≡ ok item
      → section_string_by_id entry.section item.id ≡ ok other
      → equal other name ≡ false
      → LocalOutcome l i entry name n (k + 1) found
      → LocalOutcome l i entry name (suc n) k found
  outcome-cons n k item other none read string differs t =
      none-cons n k item other read string differs t
  outcome-cons n k item other (some symbol) read string differs t = some-cons n k symbol t

  -- A search among the local symbols that does not stop finds a symbol of that name, with its address
  -- in the output, or there is none; the linker is unchanged.
  pub resolve_local-LocalOutcome :
      (n k : ℕ) {found : Option LdSymbol} {l' : Linker}
      → resolve_local i entry name n k l ≡ ok (found, l')
      → LocalOutcome l i entry name n k found × (l' ≡ l)
  unfolding resolve_local
  resolve_local-LocalOutcome zero k {found = none} h = (λ j item lt _. elim lt [ ], cc)
  resolve_local-LocalOutcome zero k {found = some symbol} h = cc
  resolve_local-LocalOutcome (suc n) k {found} {l'} h =
      let (item, l1, h1, rest1) =
        and_then-eq-ok (reading (read_item entry.section entry.section.header.symbols_addr k) l) _
          h in
      let (read, same1) = reading-ok _ l h1 in
      let (other, l2, h2, rest2) =
        and_then-eq-ok (reading (section_string_by_id entry.section item.id) l1) _ rest1 in
      let (string, same2) = reading-ok _ l1 h2 in
      let same : l2 ≡ l = same2 ∙ same1 in
      elim (Bool-cases (equal other name)) [
        | inl is ↦
            let rest3 = rw (same, is) at rest2 in
            let (r, l3, h3, rest4) = and_then-eq-ok (on_store (load entry.region) l) _ rest3 in
            let (at, same3) = load-found entry.region l h3 in
            let e : some (symbol_at item r) ≡ found = cc in
            let e' : l3 ≡ l' = cc in
            let string' = rw ((equal_iff other name).0 is) at string in
            (rw (← e) (here n k item r read string' at), sym e' ∙ same3)
        | inr isnt ↦
            let rest3 = rw (same, isnt) at rest2 in
            let (outcome, kept) = resolve_local-LocalOutcome n (k + 1) rest3 in
            (outcome-cons n k item other found read string isnt outcome, kept)
      ]

-- `symbol` is the first of the global symbols with that name.
pub data IsFirstGlobal (name : Bytes) (symbol : LdSymbol) : List LdSymbol → Type 0 where
  found : {ss : List LdSymbol} → symbol.symbol ≡ name → IsFirstGlobal name symbol (symbol ∷ ss)
  later :
      {s : LdSymbol} {ss : List LdSymbol}
      → s.symbol ≢ name
      → IsFirstGlobal name symbol ss
      → IsFirstGlobal name symbol (s ∷ ss)

resolve_global-IsFirstGlobal :
    (name : Bytes) (ss : List LdSymbol) {symbol : LdSymbol}
    → resolve_global ss name ≡ some symbol
    → IsFirstGlobal name symbol ss
unfolding resolve_global
resolve_global-IsFirstGlobal name [] h = cc
resolve_global-IsFirstGlobal name (s ∷ ss) {symbol} h = elim (Bool-cases (equal s.symbol name)) [
  | inl is ↦
      let e : some s ≡ some symbol = rw is at h in
      let e' : s ≡ symbol = cc in rw (← e') (found ((equal_iff s.symbol name).0 is))
  | inr isnt ↦
      later (λ e. cc (isnt, (equal_iff s.symbol name).1 e))
        (resolve_global-IsFirstGlobal name ss (rw isnt at h))
]

-- `symbol` is what `name` stands for in entry `i`: a local symbol of the entry, or, where there is
-- none of that name, the first exported one.
abbrev pub IsResolved : Linker → ℕ → Entry → Bytes → LdSymbol → Type 0
IsResolved l i entry name symbol =
    IsLocal l i entry name entry.section.header.symbols_count 0 symbol
    ⊎ (LocalOutcome l i entry name entry.section.header.symbols_count 0 none
        × IsFirstGlobal name symbol l.symbols)

module _ (l : Linker) (i : ℕ) (entry : Entry) (name : Bytes) {symbol : LdSymbol} {l' : Linker} where
  global_resolved :
      (global : Option LdSymbol)
      → resolve_global l.symbols name ≡ global
      → or_fail name global l ≡ ok (symbol, l')
      → IsFirstGlobal name symbol l.symbols × (l' ≡ l)
  unfolding or_fail
  global_resolved none e h = cc
  global_resolved (some s) e h =
      let e' : s ≡ symbol = cc in (resolve_global-IsFirstGlobal name l.symbols (rw e' at e), cc)

  -- A name that is resolved stands for a local symbol of the entry, with its address in the output,
  -- or, where the entry has none of that name, for the first exported one; the linker is unchanged.
  pub resolve-IsResolved :
      resolve i entry name l ≡ ok (symbol, l') → IsResolved l i entry name symbol × (l' ≡ l)
  unfolding resolve or_global
  resolve-IsResolved h =
      let (local, l1, h1, rest1) =
        and_then-eq-ok (resolve_local i entry name entry.section.header.symbols_count 0 l) _ h in
      split local l1
        (resolve_local-LocalOutcome l i entry name entry.section.header.symbols_count 0 h1) rest1
    where
      split :
          (local : Option LdSymbol) (l1 : Linker)
          → LocalOutcome l i entry name entry.section.header.symbols_count 0 local × (l1 ≡ l)
          → or_global name local l1 ≡ ok (symbol, l')
          → IsResolved l i entry name symbol × (l' ≡ l)
      split (some s) l1 (outcome, same) rest =
          let e : s ≡ symbol = cc in let e' : l1 ≡ l' = cc in (inl (rw e at outcome), sym e' ∙ same)
      split none l1 (outcome, same) rest =
          let (first, kept) =
            global_resolved (resolve_global l.symbols name) refl (rw same at rest) in
          (inr (outcome, first), kept)
