-- ===== src/Tools/Builder/Strings.antt =====
-- The strings of a section: their records, and the bytes where they stand.
use mathlib.Core.List.{append_assoc}
use irid.Base.{
  ℕ, zero, suc, ◌+◌, ◌*◌, ◌≡◌, ◌≢◌, refl, sym, ap, false, List, [], ◌∷◌, ◌++◌, some, ok, arith,
  ◌==◌, length, drop, get_elem?, length-append, All,
}
use irid.Base.Bytes.{Bytes}
use irid.Ld.Section.{IofItem, c_string}
use irid.Tools.Builder.{items_bytes, string_items, string_bytes}

-- A string that ends where its NUL is.
abbrev pub NoNul : Bytes → Type 0
NoNul text = All (λ c. c ≢ 0) text

pub c_string-text : (text rest : Bytes) → NoNul text → c_string (text ++ (0 ∷ rest)) ≡ ok text
unfolding c_string
c_string-text [] rest clean = refl
c_string-text (c ∷ text) rest (ne, clean) =
    let e : (c == 0) ≡ false = ground arith in rw (e, c_string-text text rest clean) refl

pub drop-behind : (pre xs : Bytes) (k : ℕ) → drop (length pre + k) (pre ++ xs) ≡ drop k xs
drop-behind [] xs k = ap (λ n. drop n xs) (omega arith)
drop-behind (p ∷ pre) xs k =
    let e : suc (length pre) + k ≡ suc (length pre + k) = omega arith in rw e (drop-behind pre xs k)

pub length-items_bytes : (items : List IofItem) → length (items_bytes items) ≡ 4 * length items
unfolding items_bytes
length-items_bytes [] = refl
length-items_bytes (item ∷ items) = omega (arith, length-items_bytes items)

pub length-string_items :
    (ss : List Bytes) (id addr : ℕ) → length (string_items id addr ss) ≡ length ss
unfolding string_items
length-string_items [] id addr = refl
length-string_items (s ∷ ss) id addr =
    ap suc (length-string_items ss (suc id) (addr + length s + 1))

-- Where a string stands among the strings, and its record.
pub record Stored (ss : List Bytes) (id addr i : ℕ) (s : Bytes) : Type 0 where
  pub item : IofItem
  pub record_is : get_elem? (string_items id addr ss) i ≡ some item
  pub id_is : item.id ≡ id + i
  pub before : Bytes
  pub after : Bytes
  pub bytes : string_bytes ss ≡ before ++ (s ++ (0 ∷ after))
  pub addr_is : item.addr ≡ addr + length before

pub stored :
    (ss : List Bytes) (id addr i : ℕ) {s : Bytes} → get_elem? ss i ≡ some s → Stored ss id addr i s
unfolding string_items string_bytes
stored [] id addr i h = cc
stored (x ∷ ss) id addr zero {s} h =
    let e : x ≡ s = cc in
    record {
      item = record { id = id; addr = addr };
      record_is = refl;
      id_is = omega arith;
      before = [];
      after = string_bytes ss;
      bytes = rw e refl;
      addr_is = omega arith;
    }
stored (x ∷ ss) id addr (suc i) {s} h =
    let rest = stored ss (suc id) (addr + length x + 1) i h in
    record {
      item = rest.item;
      record_is = rest.record_is;
      id_is = omega (arith, rest.id_is);
      before = x ++ (0 ∷ rest.before);
      after = rest.after;
      bytes = rw rest.bytes (sym (append_assoc x (0 ∷ rest.before) _));
      addr_is = omega (arith, rest.addr_is, length-append x (0 ∷ rest.before));
    }
