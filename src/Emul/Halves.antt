-- ===== src/Emul/Halves.antt =====
-- Registers and their halves.
use irid.Base.{ℕ, ◌≡◌, ◌≢◌, refl, some, ok, arith}
use irid.Emul.Cpu.{Register, CpuState, u16, u8, r_store}
use irid.Emul.Registers.{Cell, regptr, cell, read_cell, write_cell, r_load, r_put}

-- What a cell keeps of a value.
abbrev pub kept_by : Cell → ℕ → ℕ
kept_by (Cell.whole r) value = u16 value
kept_by (Cell.low r) value = u8 value
kept_by (Cell.high r) value = u8 value

abbrev pub register_of : Cell → Register
register_of (Cell.whole r) = r
register_of (Cell.low r) = r
register_of (Cell.high r) = r

-- The cells have no byte in common.
abbrev pub Disjoint : Cell → Cell → Type 0
Disjoint (Cell.low r) (Cell.high s) = Unit {0}
Disjoint (Cell.high r) (Cell.low s) = Unit {0}
Disjoint p q = register_of p ≢ register_of q

read-write_self :
    (p : Cell) (value : ℕ) (c : CpuState) → read_cell p (write_cell p value c) ≡ kept_by p value
unfolding read_cell write_cell r_store
read-write_self (Cell.whole r) value c = ground arith
read-write_self (Cell.low r) value c = ground arith
read-write_self (Cell.high r) value c = ground arith

read-write_other :
    (p q : Cell) (value : ℕ) (c : CpuState)
    → Disjoint p q
    → read_cell q (write_cell p value c) ≡ read_cell q c
unfolding read_cell write_cell r_store
read-write_other (Cell.whole r) (Cell.whole s) value c h = ground arith
read-write_other (Cell.whole r) (Cell.low s) value c h = ground arith
read-write_other (Cell.whole r) (Cell.high s) value c h = ground arith
read-write_other (Cell.low r) (Cell.whole s) value c h = ground arith
read-write_other (Cell.low r) (Cell.low s) value c h = ground arith
read-write_other (Cell.low r) (Cell.high s) value c h = ground arith
read-write_other (Cell.high r) (Cell.whole s) value c h = ground arith
read-write_other (Cell.high r) (Cell.low s) value c h = ground arith
read-write_other (Cell.high r) (Cell.high s) value c h = ground arith

-- A register that is written holds as much of the value as it has room for, and a register with no byte in
-- common with it, such as the other half, is as before.
pub r_load-r_put :
    (id other : ℕ) (p q : Cell) (value : ℕ) (c : CpuState)
    → regptr id ≡ some p
    → regptr other ≡ some q
    → Disjoint p q
    → (d : CpuState) × (r_put id value c ≡ ok d)
      × (r_load id d ≡ ok (kept_by p value))
      × (r_load other d ≡ r_load other c)
unfolding r_load r_put cell
r_load-r_put id other p q value c e e' apart = (
  write_cell p value c,
  rw e refl,
  rw (e, read-write_self p value c) refl,
  rw (e', read-write_other p q value c apart) refl,
)
