-- ===== src/Emul/Stack.antt =====
-- Pushes and pops, seen from the stack pointer.
use irid.Base.{◌/◌, if◌then◌else◌, ◌==◌, ℕ, ◌+◌, ◌*◌, ◌≤◌, ◌<◌, ◌≡◌, ◌≢◌, refl, ok, arith}
use irid.Emul.Cpu.{u16, Register, CpuState, sp, u8, r_store, read16, write16, push, pop}

-- Two bytes of the memory, the low one first.
abbrev pub word_at : CpuState → ℕ → ℕ
word_at c a = u8 (c.mem a) + 256 * u8 (c.mem (a + 1))

-- `d` is `c` after the value of a register was pushed.
pub record Pushed (c d : CpuState) (r : Register) : Type 0 where
  pub pushes : push r c ≡ ok d
  pub pointer : d.reg sp + 2 ≡ c.reg sp
  pub kept : (i : Register) → i ≢ sp → d.reg i ≡ c.reg i
  pub memory : (a : ℕ) → c.reg sp ≤ a → d.mem a ≡ c.mem a
  pub top : word_at d (d.reg sp) ≡ c.reg r
  pub size : d.total_size ≡ c.total_size

-- The state after a push that does not fault.
abbrev pushed : CpuState → Register → CpuState
pushed c r =
    let addr = u16 (c.reg sp + 65534) in
    record {
      reg = λ i. if i == sp then addr else c.reg i;
      mem = λ a.
          if a == addr + 1 then u8 (c.reg r / 256) else if a == addr then u8 (c.reg r) else c.mem a;
      total_size = c.total_size;
    }

-- The state after a pop that does not fault.
abbrev popped : CpuState → Register → CpuState
popped c r = record c {
  reg = λ i.
      if i == r
      then u16 (word_at c (c.reg sp))
      else if i == sp
      then u16 (c.reg sp + 2)
      else c.reg i;
}

pub push-Pushed :
    (c : CpuState) (r : Register)
    → 2 ≤ c.reg sp
    → c.reg sp < 65536
    → c.reg sp ≤ c.total_size
    → c.reg r < 65536
    → (d : CpuState) × Pushed c d r
unfolding push write16 r_store
push-Pushed c r two below inside word = (
  pushed c r,
  record {
    pushes = ground arith;
    pointer = omega arith;
    kept = λ i ne. ground arith;
    memory = λ a le. ground arith;
    top = ground arith;
    size = refl;
  },
)

-- `d` is `c` after the top of the stack was popped into a register.
pub record Popped (c d : CpuState) (r : Register) : Type 0 where
  pub pops : pop r c ≡ ok d
  pub pointer : d.reg sp ≡ c.reg sp + 2
  pub value : d.reg r ≡ word_at c (c.reg sp)
  pub kept : (i : Register) → i ≢ sp → i ≢ r → d.reg i ≡ c.reg i
  pub memory : (a : ℕ) → d.mem a ≡ c.mem a
  pub size : d.total_size ≡ c.total_size

pub pop-Popped :
    (c : CpuState) (r : Register)
    → r ≢ sp
    → c.reg sp + 2 < 65536
    → c.reg sp + 1 < c.total_size
    → (d : CpuState) × Popped c d r
unfolding pop read16 r_store
pop-Popped c r ne below inside = (
  popped c r,
  record {
    pops = ground arith;
    pointer = ground arith;
    value = ground arith;
    kept = λ i ne1 ne2. ground arith;
    memory = λ a. refl;
    size = refl;
  },
)
