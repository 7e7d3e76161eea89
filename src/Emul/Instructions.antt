-- ===== src/Emul/Instructions.antt =====
-- emul/src/cpu.cc: the instructions on registers of either width and on the memory.
use irid.Base.{◌%◌, zero, suc, ℕ, ◌+◌, ◌*◌, ◌-◌, ◌/◌, ◌^◌, Bool, ◌==◌, ltb, if◌then◌else◌, stop}
use irid.Base.Results.{◌>>=◌}
use irid.Emul.Cpu.{CpuState, CpuFault, Running, sp, u16, u8, bitand, r_store, read16, write16}
use irid.Emul.Registers.{is_half_register, r_load, r_put, read8, write8}

-- `push8` and `push16`, with the guard that `push` has as well.
unfoldable pub push_byte : ℕ → CpuState → Running CpuState
push_byte value c =
    if c.reg sp == 0
    then stop CpuFault.segment
    else write8 (u16 (c.reg sp + 65535)) value (r_store sp (c.reg sp + 65535) c)

unfoldable pub push_word : ℕ → CpuState → Running CpuState
push_word value c =
    if c.reg sp == 0
    then stop CpuFault.segment
    else write16 (u16 (c.reg sp + 65534)) value (r_store sp (c.reg sp + 65534) c)

-- `push`.
unfoldable pub i_push : ℕ → CpuState → Running CpuState
i_push src c =
    r_load src c >>= λ value. if is_half_register src then push_byte value c else push_word value c

-- `pop`.
unfoldable pub i_pop : ℕ → CpuState → Running CpuState
i_pop dest c =
    if is_half_register dest
    then (read8 (c.reg sp) c >>= λ value. r_put dest value (r_store sp (c.reg sp + 1) c))
    else read16 (c.reg sp) c >>= λ value. r_put dest value (r_store sp (c.reg sp + 2) c)

-- `load16`, and the part of `load` behind its guard.
unfoldable pub i_load16 : ℕ → ℕ → CpuState → Running CpuState
i_load16 dest addr c =
    (if is_half_register dest then read8 addr c else read16 addr c) >>= λ value. r_put dest value c

-- `load`.
unfoldable pub i_load : ℕ → ℕ → CpuState → Running CpuState
i_load dest srcptr c =
    if is_half_register srcptr
    then stop CpuFault.register
    else r_load srcptr c >>= λ addr. i_load16 dest addr c

-- `store16`, and the part of `store` behind its guard.
unfoldable pub i_store16 : ℕ → ℕ → CpuState → Running CpuState
i_store16 src addr c = r_load src c >>= λ value.
    if is_half_register src then write8 addr value c else write16 addr value c

-- `store`.
unfoldable pub i_store : ℕ → ℕ → CpuState → Running CpuState
i_store src destptr c =
    if is_half_register destptr
    then stop CpuFault.register
    else r_load destptr c >>= λ addr. i_store16 src addr c

-- `null`.
unfoldable pub i_null : ℕ → CpuState → Running CpuState
i_null dest c = r_put dest 0 c

-- `not_`.
unfoldable pub i_not : ℕ → CpuState → Running CpuState
i_not dest c = r_load dest c >>= λ value. r_put dest (65535 - value) c

-- `|` on `w` bits.
abbrev pub bitor : ℕ → ℕ → ℕ → ℕ
bitor zero a b = 0
bitor (suc w) a b = (if a % 2 == 0 then b % 2 else 1) + 2 * bitor w (a / 2) (b / 2)

-- The instructions with a register and a register or immediate that write the register: `mov`, `add`, `sub`,
-- `and_`, `or_` and `mul`.
pub data Operation : Type 0 where
  mov add sub and or mul : Operation

-- What the register takes; `r_store` keeps as much of it as the register has room for.
unfoldable pub operate : Operation → ℕ → ℕ → ℕ
operate Operation.mov left right = right
operate Operation.add left right = left + right
operate Operation.sub left right = left + (65536 - u16 right)
operate Operation.and left right = bitand 16 left right
operate Operation.or left right = bitor 16 left right
operate Operation.mul left right = left * right

unfoldable pub i_operation : Operation → ℕ → ℕ → CpuState → Running CpuState
i_operation op dest right c = r_load dest c >>= λ left. r_put dest (operate op left right) c

-- `cmp`, `cmg` and `cml`: what the compare flag becomes.
pub data Comparison : Type 0 where
  cmp cmg cml : Comparison

unfoldable pub compares : Comparison → ℕ → ℕ → Bool
compares Comparison.cmp left right = left == right
compares Comparison.cmg left right = ltb right left
compares Comparison.cml left right = ltb left right

-- `cmg8` and `cml8` take the left side as u8, and `cmp8` does not.
unfoldable pub compares8 : Comparison → ℕ → ℕ → Bool
unfolding compares
compares8 Comparison.cmp left right = left == right
compares8 how left right = compares how (u8 left) right

-- `shr` and `shr8`; a shift by 32 and more is undefined.
unfoldable pub i_shr : ℕ → ℕ → CpuState → Running CpuState
i_shr dest count c =
    if ltb count 32
    then (r_load dest c >>= λ value. r_put dest (value / 2 ^ count) c)
    else stop CpuFault.undefined

-- `shl` and `shl8`.
unfoldable pub i_shl : ℕ → ℕ → CpuState → Running CpuState
i_shl dest count c =
    if ltb count 32
    then (r_load dest c >>= λ value. r_put dest (value * 2 ^ count) c)
    else stop CpuFault.undefined
