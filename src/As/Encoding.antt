-- ===== src/As/Encoding.antt =====
-- as/src/assembler.cc: the bytes that an instruction is inserted as, read back as the processor reads them.
mod Operands
mod Sources
pub mod Fetched
use irid.Base.{
  Option-cases, ◌∙◌, ℕ, ◌+◌, ◌*◌, ◌-◌, ◌^◌, ◌%◌, ◌<◌, ◌≤◌, ◌≡◌, refl, ap, Bool, true, false, List,
  [], ◌∷◌, Option, none, some, ◌==◌, ltb, if◌then◌else◌, ok, stop, arith, get_elem?, length,
  Bool-cases, inl, inr,
}
use irid.Base.Bytes.{Bytes}
use irid.Base.Results.{◌>>=◌, >>=-eq-ok}
use irid.Tools.Contents.{put}
use irid.Tools.Writes.{get_elem?-put}
use irid.Emul.Cpu.{CpuState, u16}
use irid.Emul.Registers.{ip}
use irid.Emul.Decode.{Instruction, forms, find_form, fetch}
use irid.Emul.Fetch.{Holds, decoded, fetch-decoded}
use irid.As.Numbers.{Stop, parse_int}
use irid.As.Symbols.{is_valid_symbol, try_parse_register}
use irid.As.State.{
  Assembler, Label, aligned, padded, size, insert_code, insert_instruction, move_label, qualified,
  add_link_point, find_value, resolve_address_or_link,
}
use irid.As.Instructions.{address, register}
use irid.As.Meaning.{number_of}

-- The bytes are in the memory, from its start.
abbrev pub Loaded : Bytes → CpuState → Type 0
Loaded code c = (i b : ℕ) → get_elem? code i ≡ some b → (i < c.total_size) × (c.mem i ≡ b)

-- The labels behind an instruction: the first one at the position has gone to the instruction with it.
abbrev pub labels_behind : Assembler → List Label
labels_behind s = if s.pos % 4 == 0 then s.labels else move_label s.pos (aligned s.pos) s.labels

-- Four bytes that say `i` were written at the next address for an instruction.
pub record Encodes (s t : Assembler) (i : Instruction) : Type 0 where
  pub op : ℕ
  pub a : ℕ
  pub b : ℕ
  pub d : ℕ
  pub code : t.code ≡ put (op ∷ a ∷ b ∷ d ∷ []) (aligned s.pos) s.code
  pub labels : t.labels ≡ labels_behind s
  pub pos : t.pos ≡ size (aligned s.pos + 4)
  pub opcode : op < 256
  pub means : decoded (find_form forms op) a b d ≡ i

-- Nothing was inserted.
pub record Same (s s' : Assembler) : Type 0 where
  pub pos : s'.pos ≡ s.pos
  pub code : s'.code ≡ s.code
  pub labels : s'.labels ≡ s.labels

pub Same-refl : (s : Assembler) → Same s s
Same-refl s = record { pos = refl; code = refl; labels = refl }

-- What an insertion of an instruction changes.
pub record Inserted (bytes : Bytes) (s t : Assembler) : Type 0 where
  pub code : t.code ≡ put (padded bytes) (aligned s.pos) s.code
  pub labels : t.labels ≡ labels_behind s
  pub pos : t.pos ≡ size (aligned s.pos + 4)
  pub link_points : t.link_points ≡ s.link_points

pub insert_instruction-Inserted :
    (bytes : Bytes) (s : Assembler) {t : Assembler}
    → insert_instruction bytes s ≡ ok t
    → Inserted bytes s t
unfolding insert_instruction insert_code
insert_instruction-Inserted bytes s h =
    elim (Bool-cases (ltb (aligned s.pos + length (padded bytes)) (2 ^ 63))) [
      | inl fits ↦
          let e = rw (fits, insert_instruction, insert_code) at h in
          record { code = cc; labels = cc; pos = cc; link_points = cc }
      | inr large ↦ cc (rw (large, insert_instruction, insert_code) at h)
    ]

-- The processor reads what was encoded.
pub Encodes-fetch :
    (s t : Assembler) (i : Instruction) (c : CpuState)
    → Encodes s t i
    → Loaded t.code c
    → c.reg ip ≡ aligned s.pos
    → aligned s.pos + 4 ≤ 65536
    → fetch c ≡ ok i
Encodes-fetch s t i c e loaded at fits =
    let pos = aligned s.pos in
    let bytes = e.op ∷ e.a ∷ e.b ∷ e.d ∷ [] in
    let there : (n b : ℕ)
        → n < 4
        → get_elem? bytes n ≡ some b
        → (pos + n < c.total_size) × (c.mem (pos + n) ≡ b) =
      λ n b small is.
        loaded (pos + n) b (rw e.code (get_elem?-put bytes pos s.code n small ∙ is)) in
    let zero : pos + 0 ≡ pos = omega arith in
    let held : Holds c pos e.op e.a e.b e.d = record {
      room = (there 3 e.d (omega arith) refl).0;
      at_0 = rw zero at (there 0 e.op (omega arith) refl).1;
      at_1 = (there 1 e.a (omega arith) refl).1;
      at_2 = (there 2 e.b (omega arith) refl).1;
      at_3 = (there 3 e.d (omega arith) refl).1;
    } in
    fetch-decoded c pos e.op e.a e.b e.d held fits at e.opcode ∙ ap ok e.means

-- An address that is taken leaves the position and the code as they are.
pub record Resolved (text : Bytes) (addr : ℕ) (s s' : Assembler) : Type 0 where
  pub number : number_of text s ≡ ok addr
  pub same : Same s s'

add_link_point-Same :
    (symbol : Bytes) (offset : ℕ) (s : Assembler) {s' : Assembler}
    → add_link_point symbol offset s ≡ ok s'
    → Same s s'
unfolding add_link_point
add_link_point-Same symbol offset s h =
    let (name, e, last) = >>=-eq-ok (qualified symbol s) _ h in
    record { pos = cc; code = cc; labels = cc }

pub resolve-Resolved :
    (symbol : Bytes) (offset : ℕ) (s : Assembler) {addr : ℕ} {s' : Assembler}
    → is_valid_symbol symbol ≡ true
    → resolve_address_or_link symbol offset s ≡ ok (addr, s')
    → Resolved symbol addr s s'
unfolding resolve_address_or_link number_of
resolve-Resolved symbol offset s {addr} {s'} valid h =
    elim (Option-cases (find_value s.values symbol)) [
      | inl missing ↦
          let linked = rw (missing, resolve_address_or_link) at h in
          let (k, e, last) = >>=-eq-ok (add_link_point symbol offset s) _ linked in
          let same = add_link_point-Same symbol offset s e in
          let is : k ≡ s' = cc in record { number = rw (valid, missing) cc; same = rw (← is) same }
      | inr (value, found) ↦
          let taken = rw (found, resolve_address_or_link) at h in
          record {
            number = rw (valid, found) cc;
            same = record { pos = cc; code = cc; labels = cc };
          }
    ]

pub address-Resolved :
    (text : Bytes) (behind : ℕ) (s : Assembler) {addr : ℕ} {s' : Assembler}
    → address text behind s ≡ ok (addr, s')
    → Resolved text addr s s'
unfolding address number_of
address-Resolved text behind s {addr} {s'} h = elim (Bool-cases (is_valid_symbol text)) [
  | inl holds ↦ resolve-Resolved text (size (s.pos + behind)) s holds (rw (holds, address) at h)
  | inr fails ↦
      let parsed = rw (fails, address) at h in
      let (value, e, last) = >>=-eq-ok (parse_int text) _ parsed in
      record { number = rw fails cc; same = record { pos = cc; code = cc; labels = cc } }
]
