-- ===== src/Lc/Emit/Computes.antt =====
-- That the lines for a value calculate it.
use irid.Base.{
  ltb, ℕ, ◌+◌, ◌*◌, ◌-◌, ◌≤◌, ◌<◌, ◌≡◌, ◌≢◌, refl, Bool, true, false, [], ◌∷◌, ok, arith,
}
use irid.Emul.Cpu
use irid.Emul.Cpu.{Register, CpuState, sp, bp, u16, r_store, read16, write16}
use irid.Emul.Stack.{word_at}
use irid.Lc.Stop.{Compiling}
use irid.Lc.Emit.{
  Operand, Line, Lines, Local, OpType, Value, Emitter, int_sub, op_line, emit_offset, value_addr,
  store_value,
}
use irid.Lc.Emit.Run.{operand, step, run}
use irid.Lc.Emit.Meaning.{address, calculate, value_of, IsArith, Plain}

-- `d` is `c` after the value was calculated into register `r`.
pub record Computed (c d : CpuState) (r : Register) (value : ℕ) : Type 0 where
  pub result : d.reg r ≡ value
  pub kept : (i : Register) → i ≢ r → i ≢ 4 → d.reg i ≡ c.reg i
  pub memory : (a : ℕ) → c.reg sp ≤ a → d.mem a ≡ c.mem a
  pub size : d.total_size ≡ c.total_size

-- Lines that calculate a value: they are emitted without a stop and run without a fault.
pub record Computes (labels : Operand → ℕ) (c : CpuState) (r : Register) (value : ℕ)
    (m : Compiling Lines) : Type 0 where
  pub lines : Lines
  pub after : CpuState
  pub emitted : m ≡ ok lines
  pub runs : run labels lines c ≡ ok after
  pub computed : Computed c after r value

-- A register takes a value.
pub stored-Computed :
    (c : CpuState) (r : Register) (value : ℕ) {v : ℕ}
    → u16 value ≡ v
    → Computed c (r_store r value c) r v
unfolding r_store
stored-Computed c r value e = record {
  result = ground (arith, e);
  kept = λ i ne1 ne2. ground arith;
  memory = λ a le. refl;
  size = refl;
}

load-ok :
    (c : CpuState) (r p : Register) (a : ℕ)
    → c.reg p ≡ a
    → a + 1 < c.total_size
    → Cpu.load r p c ≡ ok (r_store r (word_at c a) c)
unfolding Cpu.load read16
load-ok c r p a e inside = rw e (ground arith)

-- r4 with the address of a part of a local variable.
abbrev addressed : Emitter → CpuState → Local → ℕ → CpuState
addressed e c l offset = Cpu.sub 4 (int_sub (e.offset l.block) offset) (Cpu.mov 4 (c.reg bp) c)

addressed-reg :
    (e : Emitter) (c : CpuState) (l : Local) (offset : ℕ)
    → (addressed e c l offset).reg 4 ≡ address e c l offset
unfolding Cpu.sub Cpu.mov r_store
addressed-reg e c l offset = omega arith

addressed-kept :
    (e : Emitter) (c : CpuState) (l : Local) (offset : ℕ) (i : Register)
    → i ≢ 4
    → (addressed e c l offset).reg i ≡ c.reg i
unfolding Cpu.sub Cpu.mov r_store
addressed-kept e c l offset i ne = ground arith

addressed-Computed :
    (e : Emitter) (c : CpuState) (l : Local) (offset : ℕ) (r : Register) (value : ℕ) {v : ℕ}
    → u16 value ≡ v
    → Computed c (r_store r value (addressed e c l offset)) r v
unfolding Cpu.sub Cpu.mov r_store
addressed-Computed e c l offset r value h = record {
  result = ground (arith, h);
  kept = λ i ne1 ne2. ground arith;
  memory = λ a le. refl;
  size = refl;
}

-- A number of 16 bits is itself as an operand.
pub below : {n : ℕ} → n < 65536 → ltb n 65536 ≡ true
below lt = ground arith

pub local-Computes :
    (labels : Operand → ℕ) (e : Emitter) (c : CpuState) (r : Register) (l : Local) (offset : ℕ)
    (deref decay : Bool)
    → Plain e c (Value.local l offset deref decay)
    → Computes labels c r
        (value_of labels e c (Value.local l offset deref decay))
        (store_value e r (Value.local l offset deref decay))
unfolding run step operand store_value value_addr emit_offset Plain value_of Cpu.mov Cpu.sub r_store
local-Computes labels e c r l offset deref true (here, direct, near, low, high) = record {
  lines =
      Line.mov 4 (Operand.reg bp)
      ∷ Line.sub 4 (Operand.int (int_sub (e.offset l.block) offset))
      ∷ Line.mov r (Operand.reg 4)
      ∷ [];
  after = Cpu.mov r ((addressed e c l offset).reg 4) (addressed e c l offset);
  emitted = rw (here, direct) refl;
  runs = rw (below near) refl;
  computed =
      addressed-Computed e c l offset r ((addressed e c l offset).reg 4)
        (omega (arith, addressed-reg e c l offset));
}
local-Computes labels e c r l offset deref false (here, direct, near, low, high) = record {
  lines =
      Line.mov 4 (Operand.reg bp)
      ∷ Line.sub 4 (Operand.int (int_sub (e.offset l.block) offset))
      ∷ Line.load r 4
      ∷ [];
  after = r_store r (word_at c (address e c l offset)) (addressed e c l offset);
  emitted = rw (here, direct) refl;
  runs =
      rw
        (
          below near,
          load-ok (addressed e c l offset) r 4 (address e c l offset) (addressed-reg e c l offset)
              high,
        )
        refl;
  computed = addressed-Computed e c l offset r (word_at c (address e c l offset)) (omega arith);
}

-- The operation on the register and r4.
pub op_line-Computes :
    (labels : Operand → ℕ) (c : CpuState) (r : Register) (type : OpType)
    → IsArith type
    → c.reg 4 < 65536
    → Computes labels c r (calculate type (c.reg r) (c.reg 4)) (op_line r type)
unfolding run step operand op_line calculate IsArith Cpu.add Cpu.sub Cpu.mul r_store
op_line-Computes labels c r OpType.add h lt = record {
  lines = Line.add r (Operand.reg 4) ∷ [];
  after = Cpu.add r (c.reg 4) c;
  emitted = refl;
  runs = refl;
  computed = stored-Computed c r (c.reg r + c.reg 4) refl;
}
op_line-Computes labels c r OpType.sub h lt = record {
  lines = Line.sub r (Operand.reg 4) ∷ [];
  after = Cpu.sub r (c.reg 4) c;
  emitted = refl;
  runs = refl;
  computed = stored-Computed c r (c.reg r + (65536 - u16 (c.reg 4))) (omega arith);
}
op_line-Computes labels c r OpType.mul h lt = record {
  lines = Line.mul r (Operand.reg 4) ∷ [];
  after = Cpu.mul r (c.reg 4) c;
  emitted = refl;
  runs = refl;
  computed = stored-Computed c r (c.reg r * c.reg 4) refl;
}
op_line-Computes labels c r OpType.div h lt = elim h [ ]
op_line-Computes labels c r OpType.cmpeq h lt = elim h [ ]
op_line-Computes labels c r OpType.cmpneq h lt = elim h [ ]
