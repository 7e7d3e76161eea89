-- ===== src/As/Encoding/Sources.antt =====
-- as/src/assembler.cc: operands that are a register or a value.
use irid.Base.{
  ℕ, ◌+◌, ◌<◌, ◌≡◌, refl, Bool, true, false, [], ◌∷◌, none, ◌==◌, ltb, if◌then◌else◌, ok, arith,
  Bool-cases, Option-cases, inl, inr, ◌||◌, not, ◌&&◌,
}
use irid.Base.Bytes.{Bytes}
use irid.Base.Results.{>>=-eq-ok}
use irid.Emul.Cpu.{u16, u8}
use irid.Emul.Decode.{Instruction, Form, forms, find_form}
use irid.As.Numbers.{Assembling, is_negative, parse_int}
use irid.As.Symbols.{is_valid_symbol, try_parse_register, instruction_id_from_mnemonic}
use irid.As.State.{Assembler, low, high, size, resolve_address_or_link}
use irid.As.Instructions.{
  register, known_instruction, insert_immediate, insert_value, insert_count, ins_dest_and_any,
  ins_dest_and_r8,
}
use irid.As.Meaning.{any, count, number_of, immediate, meant}
use irid.As.Encoding.{Encodes, Same-refl, resolve-Resolved}
use irid.As.Encoding.Operands.{Encoder, inserted, word-low-high, register-small, parsed-small}

if-ok :
    (b : Bool) (i j : Instruction)
    → ◌≡◌ {A = Assembling Instruction} (if b then ok i else ok j) (ok (if b then i else j))
if-ok true i j = refl
if-ok false i j = refl

module _ (id : ℕ) (small : id < 254) (byte word : ℕ → ℕ → Instruction)
    (byte_form : find_form forms (id + 1) ≡ Form.bytes byte)
    (word_form : find_form forms (id + 2) ≡ Form.byte_word word) (r : ℕ) (r_small : u8 r ≡ r)
    (s t : Assembler) where
  -- A number is encoded as a byte if it is below 256, and else as a word.
  insert_immediate-Encodes :
      (value : ℕ)
      → insert_immediate id r value s ≡ ok t
      → Encodes s t
          (if is_negative value || ltb value 256 then byte r (u8 value) else word r (u16 value))
  unfolding insert_immediate
  insert_immediate-Encodes value h = elim (Bool-cases (is_negative value || ltb value 256)) [
    | inl short ↦
        let e : u8 (low value) ≡ u8 value = omega arith in
        rw short (
          inserted ((id + 1) ∷ r ∷ low value ∷ []) (id + 1) r (low value) 0 s s t refl
            (rw short at h) (Same-refl s) (omega arith) (rw (byte_form, r_small, e) refl))
    | inr long ↦ rw long (
        inserted ((id + 2) ∷ r ∷ low value ∷ high value ∷ []) (id + 2) r (low value) (high value) s
          s t refl (rw long at h) (Same-refl s) (omega arith)
          (rw (word_form, r_small, word-low-high value) refl))
  ]

  -- A source that is not a register.
  insert_value-Encodes :
      (source : Bytes)
      → insert_value id r source s ≡ ok t
      → (i : Instruction) × (immediate (byte r) (word r) source s ≡ ok i) × Encodes s t i
  unfolding insert_value immediate number_of
  insert_value-Encodes source h = elim (Bool-cases (is_valid_symbol source)) [
    | inl symbol ↦
        let ((addr, s'), e, last) =
          >>=-eq-ok (resolve_address_or_link source (size (s.pos + 2)) s) _ (rw symbol at h) in
        let taken = resolve-Resolved source (size (s.pos + 2)) s symbol e in
        (
          word r (u16 addr),
          rw (taken.number, symbol) refl,
          inserted ((id + 2) ∷ r ∷ low addr ∷ high addr ∷ []) (id + 2) r (low addr) (high addr) s s'
              t refl last taken.same (omega arith)
              (rw (word_form, r_small, word-low-high addr) refl),
        )
    | inr other ↦
        let (value, e, last) = >>=-eq-ok (parse_int source) _ (rw other at h) in
        (_, rw (other, e) (if-ok _ _ _), insert_immediate-Encodes value last)
  ]

insert_count-Encodes :
    (id : ℕ) (small : id < 254) (byte : ℕ → ℕ → Instruction)
    → find_form forms (id + 1) ≡ Form.bytes byte
    → (r : ℕ) (same : u8 r ≡ r) (s t : Assembler) (value : ℕ) → insert_count id r value s ≡ ok t
    → Encodes s t (byte r (u8 value))
unfolding insert_count
insert_count-Encodes id small byte form r same s t value h =
    let e : u8 (low value) ≡ u8 value = omega arith in
    elim (Bool-cases (not (is_negative value) && ltb 255 value)) [
      | inl large ↦ cc (rw large at h)
      | inr fits ↦
          inserted ((id + 1) ∷ r ∷ low value ∷ []) (id + 1) r (low value) 0 s s t refl
            (rw fits at h) (Same-refl s) (omega arith) (rw (form, same, e) refl)
    ]

meant-any_value :
    (f byte word : ℕ → ℕ → Instruction) (reg text : Bytes) (s : Assembler) {r : ℕ} {i : Instruction}
    → register reg ≡ ok r
    → try_parse_register text ≡ none
    → immediate (byte r) (word r) text s ≡ ok i
    → meant (any f byte word) (reg ∷ text ∷ []) s ≡ ok i
unfolding meant register
meant-any_value f byte word reg text s e missing is = rw (e, missing, is) refl

module _ (mnemonic : Bytes) (id : ℕ) (named : instruction_id_from_mnemonic mnemonic ≡ id)
    (positive : (id == 0) ≡ false) (small : id < 254) where
  pub any-Encoder :
      (f byte word : ℕ → ℕ → Instruction)
      → find_form forms id ≡ Form.bytes f
      → find_form forms (id + 1) ≡ Form.bytes byte
      → find_form forms (id + 2) ≡ Form.byte_word word
      → Encoder ins_dest_and_any mnemonic (any f byte word)
  unfolding ins_dest_and_any meant register known_instruction
  any-Encoder f byte word form byte_form word_form [] s t h = cc
  any-Encoder f byte word form byte_form word_form (reg ∷ []) s t h = cc
  any-Encoder f byte word form byte_form word_form (reg ∷ text ∷ part ∷ parts) s t h = cc
  any-Encoder f byte word form byte_form word_form (reg ∷ text ∷ []) s t h =
      let (r, e, next) = >>=-eq-ok (register reg) _ (rw (named, positive) at h) in
      let same : u8 r ≡ r = omega (arith, register-small reg e) in
      elim (Option-cases (try_parse_register text)) [
        | inr (p, found) ↦
            let same' : u8 p ≡ p = omega (arith, parsed-small text found) in
            (
              f r p,
              rw (e, found) refl,
              inserted (id ∷ r ∷ p ∷ []) id r p 0 s s t refl (rw found at next) (Same-refl s)
                  (omega arith) (rw (form, same, same') refl),
            )
        | inl missing ↦
            let (i, is, encodes) =
              insert_value-Encodes id small byte word byte_form word_form r same s t text
                (rw missing at next) in
            (i, meant-any_value f byte word reg text s e missing is, encodes)
      ]

  pub count-Encoder :
      (f byte : ℕ → ℕ → Instruction)
      → find_form forms id ≡ Form.bytes f
      → find_form forms (id + 1) ≡ Form.bytes byte
      → Encoder ins_dest_and_r8 mnemonic (count f byte)
  unfolding ins_dest_and_r8 meant register known_instruction
  count-Encoder f byte form byte_form [] s t h = cc
  count-Encoder f byte form byte_form (reg ∷ []) s t h = cc
  count-Encoder f byte form byte_form (reg ∷ text ∷ parts) s t h =
      let (r, e, next) = >>=-eq-ok (register reg) _ (rw (named, positive) at h) in
      let same : u8 r ≡ r = omega (arith, register-small reg e) in
      elim (Option-cases (try_parse_register text)) [
        | inr (p, found) ↦
            let same' : u8 p ≡ p = omega (arith, parsed-small text found) in
            (
              f r p,
              rw (e, found) refl,
              inserted (id ∷ r ∷ p ∷ []) id r p 0 s s t refl (rw found at next) (Same-refl s)
                  (omega arith) (rw (form, same, same') refl),
            )
        | inl missing ↦
            let (value, e', last) = >>=-eq-ok (parse_int text) _ (rw missing at next) in
            (
              byte r (u8 value),
              rw (e, missing, e') refl,
              insert_count-Encodes id small byte byte_form r same s t value last,
            )
      ]
