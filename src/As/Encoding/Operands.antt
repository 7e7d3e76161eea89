-- ===== src/As/Encoding/Operands.antt =====
-- as/src/assembler.cc: each form of operands is encoded as the instruction that it names.
use irid.Base.{
  ℕ, ◌+◌, ◌*◌, ◌<◌, ◌≡◌, refl, ◌∙◌, List, [], ◌∷◌, some, ok, arith, Option-cases, inl, inr,
}
use irid.Base.Bytes.{Bytes}
use irid.Base.Results.{>>=-eq-ok}
use irid.Emul.Cpu.{u16, u8}
use irid.Emul.Decode.{Instruction, Form, forms, find_form}
use irid.Emul.Fetch.{decoded}
use irid.As.Symbols.{try_parse_register, instruction_id_from_mnemonic}
use irid.As.State.{Assembler, low, high, padded, insert_instruction}
use irid.As.Instructions.{
  Handler, address, register, ins_no_arguments, ins_register, ins_addr, ins_dest_and_addr,
  ins_load_and_store,
}
use irid.As.Meaning.{Operands, nothing, one, target, branch, place, meant}
use irid.As.Encoding.{Encodes, Same, Same-refl, insert_instruction-Inserted, address-Resolved}

-- The operands name an instruction, and it is encoded.
abbrev pub Encoded : Operands → List Bytes → Assembler → Assembler → Type 0
Encoded operands parts s t = (i : Instruction) × (meant operands parts s ≡ ok i) × Encodes s t i

-- A method encodes the operands that it takes.
abbrev pub Encoder : Handler → Bytes → Operands → Type 0
Encoder method mnemonic operands =
    (parts : List Bytes) (s t : Assembler)
    → method (mnemonic ∷ parts) s ≡ ok t
    → Encoded operands parts s t

pub register-small : (text : Bytes) {r : ℕ} → register text ≡ ok r → r < 256
unfolding register try_parse_register
register-small [] h = cc
register-small (c ∷ []) h = cc
register-small (c ∷ d ∷ []) h = ground arith
register-small (c ∷ d ∷ x ∷ text) h = cc

-- Bytes that are inserted say the instruction that the processor decodes from them.
pub inserted :
    (bytes : Bytes) (op a b d : ℕ) (s s' t : Assembler) {i : Instruction}
    → padded bytes ≡ op ∷ a ∷ b ∷ d ∷ []
    → insert_instruction bytes s' ≡ ok t
    → Same s s'
    → op < 256
    → decoded (find_form forms op) a b d ≡ i
    → Encodes s t i
inserted bytes op a b d s s' t four h same small means =
    let e = insert_instruction-Inserted bytes s' h in
    record {
      op = op;
      a = a;
      b = b;
      d = d;
      code = e.code ∙ rw (four, same.pos, same.code) refl;
      labels = e.labels ∙ rw (same.pos, same.labels) refl;
      pos = e.pos ∙ rw (same.pos) refl;
      opcode = small;
      means = means;
    }

-- A word in two bytes.
pub word-low-high : (value : ℕ) → u8 (low value) + 256 * u8 (high value) ≡ u16 value
word-low-high value = omega arith

module _ (mnemonic : Bytes) (id : ℕ) (named : instruction_id_from_mnemonic mnemonic ≡ id)
    (small : id < 254) where
  pub no_arguments-Encoder :
      (i : Instruction)
      → find_form forms id ≡ Form.plain i
      → Encoder ins_no_arguments mnemonic (nothing i)
  unfolding ins_no_arguments meant
  no_arguments-Encoder i form [] s t h = (
    i,
    refl,
    inserted (id ∷ []) id 0 0 0 s s t refl (rw named at h) (Same-refl s) (omega arith)
        (rw form refl),
  )
  no_arguments-Encoder i form (part ∷ parts) s t h = cc

  pub register-Encoder :
      (f : ℕ → Instruction)
      → find_form forms id ≡ Form.byte f
      → Encoder ins_register mnemonic (one f)
  unfolding ins_register meant
  register-Encoder f form [] s t h = cc
  register-Encoder f form (reg ∷ parts) s t h =
      let (r, e, last) = >>=-eq-ok (register reg) _ h in
      let byte : u8 r ≡ r = omega (arith, register-small reg e) in
      (
        f r,
        rw e refl,
        inserted (id ∷ r ∷ []) id r 0 0 s s t refl (rw named at last) (Same-refl s) (omega arith)
            (rw (form, byte) refl),
      )

  pub addr-Encoder :
      (f : ℕ → Instruction)
      → find_form forms id ≡ Form.word f
      → Encoder ins_addr mnemonic (target f)
  unfolding ins_addr meant
  addr-Encoder f form [] s t h = cc
  addr-Encoder f form (text ∷ parts) s t h =
      let ((addr, s'), e, last) = >>=-eq-ok (address text 1 s) _ h in
      let taken = address-Resolved text 1 s e in
      (
        f (u16 addr),
        rw (taken.number) refl,
        inserted (id ∷ low addr ∷ high addr ∷ []) id (low addr) (high addr) 0 s s' t refl
            (rw named at last) taken.same (omega arith) (rw (form, word-low-high addr) refl),
      )

  pub branch-Encoder :
      (f : ℕ → ℕ → Instruction)
      → find_form forms id ≡ Form.byte_word f
      → Encoder ins_dest_and_addr mnemonic (branch f)
  unfolding ins_dest_and_addr meant
  branch-Encoder f form [] s t h = cc
  branch-Encoder f form (reg ∷ []) s t h = cc
  branch-Encoder f form (reg ∷ text ∷ part ∷ parts) s t h = cc
  branch-Encoder f form (reg ∷ text ∷ []) s t h =
      let (r, e, next) = >>=-eq-ok (register reg) _ h in
      let ((addr, s'), e', last) = >>=-eq-ok (address text 2 s) _ next in
      let taken = address-Resolved text 2 s e' in
      let byte : u8 r ≡ r = omega (arith, register-small reg e) in
      (
        f r (u16 addr),
        rw (e, taken.number) refl,
        inserted (id ∷ r ∷ low addr ∷ high addr ∷ []) id r (low addr) (high addr) s s' t refl
            (rw named at last) taken.same (omega arith) (rw (form, byte, word-low-high addr) refl),
      )

-- A register that is read is below 256, as an optional value.
pub parsed-small : (text : Bytes) {r : ℕ} → try_parse_register text ≡ some r → r < 256
unfolding register
parsed-small text h = register-small text (rw h refl)

pub place-Encoder :
    (mnemonic : Bytes) (id id' : ℕ) (f g : ℕ → ℕ → Instruction)
    → id < 254
    → id' < 254
    → find_form forms id ≡ Form.bytes f
    → find_form forms id' ≡ Form.byte_word g
    → Encoder (ins_load_and_store id id') mnemonic (place f g)
unfolding ins_load_and_store meant register
place-Encoder mnemonic id id' f g small small' form form' [] s t h = cc
place-Encoder mnemonic id id' f g small small' form form' (reg ∷ []) s t h = cc
place-Encoder mnemonic id id' f g small small' form form' (reg ∷ text ∷ parts) s t h =
    let (r, e, next) = >>=-eq-ok (register reg) _ h in
    let byte : u8 r ≡ r = omega (arith, register-small reg e) in
    elim (Option-cases (try_parse_register text)) [
      | inr (p, found) ↦
          let byte' : u8 p ≡ p = omega (arith, parsed-small text found) in
          (
            f r p,
            rw (e, register, found) refl,
            inserted (id ∷ r ∷ p ∷ []) id r p 0 s s t refl (rw found at next) (Same-refl s)
                (omega arith) (rw (form, byte, byte') refl),
          )
      | inl missing ↦
          let ((addr, s'), e', last) = >>=-eq-ok (address text 2 s) _ (rw missing at next) in
          let taken = address-Resolved text 2 s e' in
          (
            g r (u16 addr),
            rw (e, register, missing, taken.number) refl,
            inserted (id' ∷ r ∷ low addr ∷ high addr ∷ []) id' r (low addr) (high addr) s s' t refl
                last taken.same (omega arith) (rw (form', byte, word-low-high addr) refl),
          )
    ]
