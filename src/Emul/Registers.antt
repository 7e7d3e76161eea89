-- ===== src/Emul/Registers.antt =====
-- emul/src/emul.h and emul/src/cpu.cc: registers by the numbers that instructions name them with. `h` is the
-- byte of a register that stands first in memory, its low byte.
use irid.Base.{
  ℕ, ◌+◌, ◌*◌, ◌-◌, ◌/◌, Bool, ◌&&◌, Option, none, some, ◌==◌, leb, ltb, if◌then◌else◌, ok, stop,
}
use irid.Base.Results.{◌>>=◌, or_stop}
use irid.Emul.Cpu.{CpuFault, Register, CpuState, Running, undefined, sp, bp, u8, r_store}

abbrev pub ip : Register
ip = 0x70

-- What a pointer of `regptr` points to.
pub data Cell : Type 0 where
  whole low high : Register → Cell

-- The register at a place of `struct irid_reg`; the flags and what is behind them are left out.
unfoldable pub register_at : ℕ → Option Register
register_at n =
    if ltb n 8
    then some n
    else if n == 8
    then some ip
    else if n == 9
    then some sp
    else if n == 10
    then some bp
    else none

abbrev cell_of : (Register → Cell) → Option Register → Option Cell
cell_of part none = none
cell_of part (some r) = some (part r)

-- `regptr`; `none` is a pointer outside of the registers, or to a word that is not one register.
unfoldable pub regptr : ℕ → Option Cell
regptr id =
    if id == ip
    then some (Cell.whole ip)
    else if id == sp
    then some (Cell.whole sp)
    else if id == bp
    then some (Cell.whole bp)
    else if ltb id 0x10
    then cell_of Cell.whole (register_at id)
    else if ltb id 0x20
    then cell_of Cell.low (register_at (id - 0x10))
    else if leb id 0x23
    then cell_of Cell.high (register_at (id - 0x20))
    else none

-- `is_half_register`.
abbrev pub is_half_register : ℕ → Bool
is_half_register id = leb 0x10 id && leb id 0x23

-- What the cell holds.
unfoldable pub read_cell : Cell → CpuState → ℕ
read_cell (Cell.whole r) c = c.reg r
read_cell (Cell.low r) c = u8 (c.reg r)
read_cell (Cell.high r) c = u8 (c.reg r / 256)

-- The cell takes as much of the value as it has room for.
unfoldable pub write_cell : Cell → ℕ → CpuState → CpuState
write_cell (Cell.whole r) value c = r_store r value c
write_cell (Cell.low r) value c = r_store r (u8 value + 256 * (c.reg r / 256)) c
write_cell (Cell.high r) value c = r_store r (u8 (c.reg r) + 256 * u8 value) c

-- The pointer to a register.
unfoldable pub cell : ℕ → Running Cell
cell id = or_stop undefined (regptr id)

-- `r_load`.
unfoldable pub r_load : ℕ → CpuState → Running ℕ
r_load id c = cell id >>= λ p. ok (read_cell p c)

-- `r_store`, of registers of either width.
unfoldable pub r_put : ℕ → ℕ → CpuState → Running CpuState
r_put id value c = cell id >>= λ p. ok (write_cell p value c)

-- `memory::read8` and `memory::write8`.
unfoldable pub read8 : ℕ → CpuState → Running ℕ
read8 addr c = if leb c.total_size addr then stop CpuFault.segment else ok (u8 (c.mem addr))

unfoldable pub write8 : ℕ → ℕ → CpuState → Running CpuState
write8 addr value c =
    if leb c.total_size addr
    then stop CpuFault.segment
    else ok (record c { mem = λ a. if a == addr then u8 value else c.mem a })
