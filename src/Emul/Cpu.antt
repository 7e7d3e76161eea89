-- ===== src/Emul/Cpu.antt =====
-- emul/src/cpu.cc and emul/src/memory.cc: the instructions on registers of 16 bits that move, load, store and
-- calculate. A fault ends the run.
use irid.Base.{zero, suc, ℕ, ◌+◌, ◌*◌, ◌-◌, ◌/◌, ◌%◌, ◌==◌, leb, if◌then◌else◌, Result, ok, stop}
use irid.Base.Results.{◌>>=◌}

-- R_R0 to R_R7 are the numbers 0 to 7.
abbrev pub Register : Type 0
Register = ℕ

abbrev pub sp : Register
sp = 0x71

abbrev pub bp : Register
bp = 0x72

-- `m_reg` and `m_mem`, whose size is `total_size`; a cell is a byte.
pub record CpuState : Type 0 where
  pub reg : Register → ℕ
  pub mem : ℕ → ℕ
  pub total_size : ℕ

-- CPUFAULT_SEG, _REG, _USER and _CPUCALL, undefined behaviour, a request to power off, and what is not
-- modelled.
pub data CpuFault : Type 0 where
  segment register user cpucall undefined poweroff not_modelled : CpuFault

abbrev pub Running : Type 0 → Type 0
Running A = Result CpuFault A

-- A value as u16, and as u8.
abbrev pub u16 : ℕ → ℕ
u16 n = n % 65536

abbrev pub u8 : ℕ → ℕ
u8 n = n % 256

-- `r_store`.
unfoldable pub r_store : Register → ℕ → CpuState → CpuState
r_store id value c = record c { reg = λ i. if i == id then u16 value else c.reg i }

-- `memory::read16`; the second byte is a byte of the memory as well.
unfoldable pub read16 : ℕ → CpuState → Running ℕ
read16 addr c =
    if leb c.total_size (addr + 1)
    then stop segment
    else ok (u8 (c.mem addr) + 256 * u8 (c.mem (addr + 1)))

-- `memory::write16`.
unfoldable pub write16 : ℕ → ℕ → CpuState → Running CpuState
write16 addr value c =
    if leb c.total_size (addr + 1)
    then stop segment
    else ok (record c {
      mem =
          λ a. if a == addr + 1 then u8 (value / 256) else if a == addr then u8 value else c.mem a;
    })

-- `push`, of a register of 16 bits.
unfoldable pub push : Register → CpuState → Running CpuState
push src c =
    if c.reg sp == 0
    then stop segment
    else write16 (u16 (c.reg sp + 65534)) (c.reg src) (r_store sp (c.reg sp + 65534) c)

-- `pop`.
unfoldable pub pop : Register → CpuState → Running CpuState
pop dest c = read16 (c.reg sp) c >>= λ value. ok (r_store dest value (r_store sp (c.reg sp + 2) c))

-- `mov`, `mov8` and `mov16`.
unfoldable pub mov : Register → ℕ → CpuState → CpuState
mov dest value c = r_store dest value c

-- `load`.
unfoldable pub load : Register → Register → CpuState → Running CpuState
load dest srcptr c = read16 (c.reg srcptr) c >>= λ value. ok (r_store dest value c)

-- `store`.
unfoldable pub store : Register → Register → CpuState → Running CpuState
store src destptr c = write16 (c.reg destptr) (c.reg src) c

-- `add`, `add8` and `add16`.
unfoldable pub add : Register → ℕ → CpuState → CpuState
add dest value c = r_store dest (c.reg dest + value) c

-- `sub`, `sub8` and `sub16`.
unfoldable pub sub : Register → ℕ → CpuState → CpuState
sub dest value c = r_store dest (c.reg dest + (65536 - u16 value)) c

-- `mul`, `mul8` and `mul16`.
unfoldable pub mul : Register → ℕ → CpuState → CpuState
mul dest value c = r_store dest (c.reg dest * value) c

-- `&` on `w` bits.
abbrev pub bitand : ℕ → ℕ → ℕ → ℕ
bitand zero a b = 0
bitand (suc w) a b = (a % 2) * (b % 2) + 2 * bitand w (a / 2) (b / 2)

-- `and_`, `and8` and `and16`.
unfoldable pub and : Register → ℕ → CpuState → CpuState
and dest value c = r_store dest (bitand 16 (c.reg dest) value) c
