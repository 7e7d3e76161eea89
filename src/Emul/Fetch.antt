-- ===== src/Emul/Fetch.antt =====
-- What the processor reads at four bytes.
use irid.Base.{ℕ, ◌+◌, ◌*◌, ◌≤◌, ◌<◌, ◌≡◌, refl, false, leb, ok, arith}
use irid.Emul.Cpu.{CpuState, u16, u8, read16}
use irid.Emul.Registers.{ip, read8}
use irid.Emul.Decode.{Instruction, Form, forms, find_form, read_form, fetch}

-- The four bytes from an address on.
pub record Holds (c : CpuState) (at op a b d : ℕ) : Type 0 where
  pub room : at + 3 < c.total_size
  pub at_0 : c.mem at ≡ op
  pub at_1 : c.mem (at + 1) ≡ a
  pub at_2 : c.mem (at + 2) ≡ b
  pub at_3 : c.mem (at + 3) ≡ d

-- The instruction of a form, with its operands taken from the three bytes behind the opcode.
abbrev pub decoded : Form → ℕ → ℕ → ℕ → Instruction
decoded (Form.plain i) a b d = i
decoded (Form.byte f) a b d = f (u8 a)
decoded (Form.word f) a b d = f (u8 a + 256 * u8 b)
decoded (Form.bytes f) a b d = f (u8 a) (u8 b)
decoded (Form.byte_word f) a b d = f (u8 a) (u8 b + 256 * u8 d)

read8-ok :
    (c : CpuState) (at value : ℕ)
    → at < c.total_size
    → c.mem at ≡ value
    → read8 at c ≡ ok (u8 value)
unfolding read8
read8-ok c at value room e =
    let inside : leb c.total_size at ≡ false = ground arith in rw (inside, e) refl

read16-ok :
    (c : CpuState) (at x y : ℕ)
    → at + 1 < c.total_size
    → c.mem at ≡ x
    → c.mem (at + 1) ≡ y
    → read16 at c ≡ ok (u8 x + 256 * u8 y)
unfolding read16
read16-ok c at x y room e e' =
    let inside : leb c.total_size (at + 1) ≡ false = ground arith in rw (inside, e, e') refl

module _ (c : CpuState) (at op a b d : ℕ) (h : Holds c at op a b d) (fits : at + 4 ≤ 65536) where
  next : u16 (at + 1) ≡ at + 1
  next = omega arith

  third : u16 (at + 2) ≡ at + 2
  third = omega arith

  word_1 : read16 (at + 1) c ≡ ok (u8 a + 256 * u8 b)
  word_1 =
      let e : at + 1 + 1 ≡ at + 2 = omega arith in
      read16-ok c (at + 1) a b (omega (arith, h.room)) h.at_1 (rw e h.at_2)

  word_2 : read16 (at + 2) c ≡ ok (u8 b + 256 * u8 d)
  word_2 =
      let e : at + 2 + 1 ≡ at + 3 = omega arith in
      read16-ok c (at + 2) b d (omega (arith, h.room)) h.at_2 (rw e h.at_3)

  read_form-decoded : (form : Form) → read_form form at c ≡ ok (decoded form a b d)
  unfolding read_form
  read_form-decoded (Form.plain i) = refl
  read_form-decoded (Form.byte f) =
      rw (next, read8-ok c (at + 1) a (omega (arith, h.room)) h.at_1) refl
  read_form-decoded (Form.word f) = rw (next, word_1) refl
  read_form-decoded (Form.bytes f) =
      rw
        (
          next,
          third,
          read8-ok c (at + 1) a (omega (arith, h.room)) h.at_1,
          read8-ok c (at + 2) b (omega (arith, h.room)) h.at_2,
        )
        refl
  read_form-decoded (Form.byte_word f) =
      rw (next, third, read8-ok c (at + 1) a (omega (arith, h.room)) h.at_1, word_2) refl

  pub fetch-decoded : c.reg ip ≡ at → op < 256 → fetch c ≡ ok (decoded (find_form forms op) a b d)
  unfolding fetch
  fetch-decoded e small =
      let opcode : u8 op ≡ op = omega arith in
      rw (e, read8-ok c at op (omega (arith, h.room)) h.at_0, opcode)
        (read_form-decoded (find_form forms op))
