-- ===== src/As/Object/Named.antt =====
-- Items of a section that is built, and the names that they stand for.
use mathlib.Core.Path.{subst}
use mathlib.Core.List.{append_assoc, append-nil}
use irid.Base.{
  ℕ, zero, suc, ◌+◌, ◌≡◌, ◌∙◌, refl, sym, ap, true, false, List, [], ◌∷◌, ◌++◌, some, ok, arith,
  length, get_elem?, get_elem?-bound, get_elem?-append, Option-cases, Bool-cases, inl, inr,
}
use irid.Base.Bytes.{Bytes, equal, equal_iff}
use irid.Base.Results.{>>=-eq-ok, or_stop}
use irid.Emul.Cpu.{u16}
use irid.Ld.Section.{IofItem}
use irid.As.Numbers.{error}
use irid.As.State.{Label, LinkPoint, find_label}
use irid.As.Object.{add_links, add_exports, add_symbols}
use irid.Tools.Builder.{SectionBuilder, index_of, string_id, add_link, add_export, add_symbol}

-- A name with an address.
abbrev pub Place : Type 0
Place = Bytes × ℕ

-- The item stands for the name, by its number among the strings.
pub record Named (ss : List Bytes) (item : IofItem) (place : Place) : Type 0 where
  pub k : ℕ
  pub id_is : item.id ≡ u16 k
  pub string_is : get_elem? ss k ≡ some place.0
  pub addr_is : item.addr ≡ u16 place.1

-- The items stand for the names, one by one.
abbrev pub Matches : List Bytes → List IofItem → List Place → Type 0
Matches ss [] [] = Unit {0}
Matches ss [] (p ∷ ps) = true ≡ false
Matches ss (item ∷ items) [] = true ≡ false
Matches ss (item ∷ items) (p ∷ ps) = Named ss item p × Matches ss items ps

-- Strings keep their numbers.
abbrev pub Kept : List Bytes → List Bytes → Type 0
Kept ss ss' = (k : ℕ) (text : Bytes) → get_elem? ss k ≡ some text → get_elem? ss' k ≡ some text

pub Matches-Kept :
    (ss ss' : List Bytes) (items : List IofItem) (ps : List Place)
    → Kept ss ss'
    → Matches ss items ps
    → Matches ss' items ps
Matches-Kept ss ss' [] [] kept m = tt
Matches-Kept ss ss' [] (p ∷ ps) kept m = m
Matches-Kept ss ss' (item ∷ items) [] kept m = m
Matches-Kept ss ss' (item ∷ items) (p ∷ ps) kept (n, m) = (
  record { k = n.k; id_is = n.id_is; string_is = kept n.k p.0 n.string_is; addr_is = n.addr_is },
  Matches-Kept ss ss' items ps kept m,
)

Matches-append :
    (ss : List Bytes) (items : List IofItem) (ps : List Place) (item : IofItem) (p : Place)
    → Matches ss items ps
    → Named ss item p
    → Matches ss (items ++ (item ∷ [])) (ps ++ (p ∷ []))
Matches-append ss [] [] item p m n = (n, tt)
Matches-append ss [] (q ∷ ps) item p m n = cc
Matches-append ss (x ∷ items) [] item p m n = cc
Matches-append ss (x ∷ items) (q ∷ ps) item p (n', m) n =
    (n', Matches-append ss items ps item p m n)

pub Matches-item :
    (ss : List Bytes) (items : List IofItem) (ps : List Place) (i : ℕ) {p : Place}
    → Matches ss items ps
    → get_elem? ps i ≡ some p
    → (item : IofItem) × (get_elem? items i ≡ some item) × Named ss item p
Matches-item ss [] [] i m h = cc
Matches-item ss [] (q ∷ ps) i m h = cc
Matches-item ss (x ∷ items) [] i m h = cc
Matches-item ss (x ∷ items) (q ∷ ps) zero {p} (n, m) h = let e : q ≡ p = cc in (x, refl, rw (← e) n)
Matches-item ss (x ∷ items) (q ∷ ps) (suc i) (n, m) h = Matches-item ss items ps i m h

pub Matches-length :
    (ss : List Bytes) (items : List IofItem) (ps : List Place)
    → Matches ss items ps
    → length items ≡ length ps
Matches-length ss [] [] m = refl
Matches-length ss [] (p ∷ ps) m = cc
Matches-length ss (item ∷ items) [] m = cc
Matches-length ss (item ∷ items) (p ∷ ps) (n, m) = ap suc (Matches-length ss items ps m)

-- What giving a string its number does.
record Numbered (text : Bytes) (b : SectionBuilder) (id : ℕ) (b' : SectionBuilder) : Type 0 where
  k : ℕ
  id_is : id ≡ u16 k
  string_is : get_elem? b'.strings k ≡ some text
  kept : Kept b.strings b'.strings
  links : b'.links ≡ b.links
  symbols : b'.symbols ≡ b.symbols

index_of-found :
    (ss : List Bytes) (text : Bytes) (i : ℕ) {n : ℕ}
    → index_of ss text i ≡ some n
    → (j : ℕ) × (n ≡ i + j) × (get_elem? ss j ≡ some text)
unfolding index_of
index_of-found [] text i h = cc
index_of-found (s ∷ ss) text i {n} h = elim (Bool-cases (equal s text)) [
  | inl same ↦
      let e = rw same at h in
      let here : i ≡ n = cc in (0, omega arith, ap some ((equal_iff s text).0 same))
  | inr other ↦
      let (j, e, found) = index_of-found ss text (suc i) (rw other at h) in
      (suc j, omega arith, found)
]

Kept-append : (ss : List Bytes) (text : Bytes) → Kept ss (ss ++ (text ∷ []))
Kept-append ss text k t h =
    let inside = get_elem?-bound ss k h in
    ground (arith, h, inside, get_elem?-append ss (text ∷ []) k)

get_elem?-last :
    (ss : List Bytes) (text : Bytes) → get_elem? (ss ++ (text ∷ [])) (length ss) ≡ some text
get_elem?-last [] text = refl
get_elem?-last (s ∷ ss) text = get_elem?-last ss text

string_id-Numbered :
    (text : Bytes) (b : SectionBuilder)
    → (id : ℕ) × (b' : SectionBuilder) × (string_id text b ≡ (id, b')) × Numbered text b id b'
unfolding string_id
string_id-Numbered text b = elim (Option-cases (index_of b.strings text 0)) [
  | inl missing ↦ (
    u16 (length b.strings),
    record b { strings = b.strings ++ (text ∷ []) },
    rw (string_id, missing) refl,
    record {
      k = length b.strings;
      id_is = refl;
      string_is = get_elem?-last b.strings text;
      kept = Kept-append b.strings text;
      links = refl;
      symbols = refl;
    },
  )
  | inr (n, found) ↦
      let (j, e, at) = index_of-found b.strings text 0 found in
      let same : n ≡ j = omega (arith, e) in
      (
        u16 n,
        b,
        rw (string_id, found) refl,
        record {
          k = j;
          id_is = rw same refl;
          string_is = at;
          kept = λ k t h. h;
          links = refl;
          symbols = refl;
        },
      )
]

abbrev pub link_places : List LinkPoint → List Place
link_places [] = []
link_places (p ∷ ps) = (p.symbol, p.offset) ∷ link_places ps

abbrev pub label_places : List Label → List Place
label_places [] = []
label_places (l ∷ ls) = (l.name, l.offset) ∷ label_places ls

pub length-link_places : (ps : List LinkPoint) → length (link_places ps) ≡ length ps
length-link_places [] = refl
length-link_places (p ∷ ps) = ap suc (length-link_places ps)

pub length-label_places : (ls : List Label) → length (label_places ls) ≡ length ls
length-label_places [] = refl
length-label_places (l ∷ ls) = ap suc (length-label_places ls)

pub add_links-Matches :
    (ps : List LinkPoint) (places : List Place) (b : SectionBuilder)
    → Matches b.strings b.links places
    → Matches (add_links ps b).strings (add_links ps b).links (places ++ link_places ps)
      × ((add_links ps b).symbols ≡ b.symbols)
unfolding add_links add_link
add_links-Matches [] places b m = (rw (append-nil places) m, refl)
add_links-Matches (p ∷ ps) places b m =
    let (id, b', e, n) = string_id-Numbered p.symbol b in
    let item : IofItem = record { id = id; addr = u16 p.offset } in
    let b'' : SectionBuilder = record b' { links = b'.links ++ (item ∷ []) } in
    let next : add_link p.symbol p.offset b ≡ b'' = rw (add_link, e) refl in
    let old : Matches b'.strings b'.links places =
      rw (n.links) (Matches-Kept b.strings b'.strings b.links places n.kept m) in
    let new : Named b'.strings item (p.symbol, p.offset) = record {
      k = n.k;
      id_is = n.id_is;
      string_is = n.string_is;
      addr_is = refl;
    } in
    let (rest, symbols) =
      add_links-Matches ps (places ++ ((p.symbol, p.offset) ∷ [])) b''
        (Matches-append b'.strings b'.links places item (p.symbol, p.offset) old new) in
    let assoc = append_assoc places ((p.symbol, p.offset) ∷ []) (link_places ps) in
    subst
      (λ d.
        Matches d.strings d.links (places ++ ((p.symbol, p.offset) ∷ link_places ps))
        × (d.symbols ≡ b.symbols))
      (sym (ap (add_links ps) next)) (rw assoc at rest, symbols ∙ n.symbols)

pub add_symbols-Matches :
    (ls : List Label) (places : List Place) (b : SectionBuilder)
    → Matches b.strings b.symbols places
    → Matches (add_symbols ls b).strings (add_symbols ls b).symbols (places ++ label_places ls)
      × ((add_symbols ls b).links ≡ b.links)
      × Kept b.strings (add_symbols ls b).strings
unfolding add_symbols add_symbol
add_symbols-Matches [] places b m = (rw (append-nil places) m, refl, λ k t h. h)
add_symbols-Matches (l ∷ ls) places b m =
    let (id, b', e, n) = string_id-Numbered l.name b in
    let item : IofItem = record { id = id; addr = u16 l.offset } in
    let b'' : SectionBuilder = record b' { symbols = b'.symbols ++ (item ∷ []) } in
    let next : add_symbol l.name l.offset b ≡ b'' = rw (add_symbol, e) refl in
    let old : Matches b'.strings b'.symbols places =
      rw (n.symbols) (Matches-Kept b.strings b'.strings b.symbols places n.kept m) in
    let new : Named b'.strings item (l.name, l.offset) = record {
      k = n.k;
      id_is = n.id_is;
      string_is = n.string_is;
      addr_is = refl;
    } in
    let (rest, links, kept) =
      add_symbols-Matches ls (places ++ ((l.name, l.offset) ∷ [])) b''
        (Matches-append b'.strings b'.symbols places item (l.name, l.offset) old new) in
    let assoc = append_assoc places ((l.name, l.offset) ∷ []) (label_places ls) in
    subst
      (λ d.
        Matches d.strings d.symbols (places ++ ((l.name, l.offset) ∷ label_places ls))
        × (d.links ≡ b.links)
        × Kept b.strings d.strings)
      (sym (ap (add_symbols ls) next))
      (rw assoc at rest, links ∙ n.links, λ k t h. kept k t (n.kept k t h))

pub add_exports-Kept :
    (labels : List Label) (names : List Bytes) (b : SectionBuilder) {b' : SectionBuilder}
    → add_exports labels names b ≡ ok b'
    → Kept b.strings b'.strings × (b'.links ≡ b.links) × (b'.symbols ≡ b.symbols)
unfolding add_exports add_export
add_exports-Kept labels [] b {b'} h = let e : b ≡ b' = cc in rw (← e) (λ k t h. h, refl, refl)
add_exports-Kept labels (name ∷ names) b h =
    let (offset, found, next) = >>=-eq-ok (or_stop error (find_label labels name)) _ h in
    let (id, b', e, n) = string_id-Numbered name b in
    let b'' : SectionBuilder = record b' {
      exports = b'.exports ++ (record { id = id; addr = u16 offset } ∷ []);
    } in
    let is : add_export name offset b ≡ b'' = rw (add_export, e) refl in
    let (kept, links, symbols) = add_exports-Kept labels names b'' (rw is at next) in
    (λ k t h. kept k t (n.kept k t h), links ∙ n.links, symbols ∙ n.symbols)
