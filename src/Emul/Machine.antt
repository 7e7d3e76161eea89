-- ===== src/Emul/Machine.antt =====
-- emul/src/cpu.cc: the instructions on the whole processor, and its main loop.
use irid.Base.{zero, suc, ℕ, ◌+◌, Bool, true, false, not, ◌&&◌, ◌==◌, if◌then◌else◌, ok, stop}
use irid.Base.Results.{◌>>=◌}
use irid.Emul.Cpu.{CpuState, CpuFault, Running, sp, u16, u8, r_store, read16}
use irid.Emul.Registers.{Cell, ip, cell, r_load}
use irid.Emul.Instructions.{
  push_word, i_push, i_pop, push_byte, i_load16, i_load, i_store16, i_store, i_null, i_not,
  i_operation, compares, compares8, i_shr, i_shl,
}
use irid.Emul.Decode.{Instruction, fetch}
use irid.Emul.Devices.{Machine, reg, stepped, cpucall, rti, poll_devices}

-- What `callr` reads behind its push: the word at the register's pointer; the word at a high byte is not one
-- register.
unfoldable pub callr_address : ℕ → CpuState → Running ℕ
callr_address id c = cell id >>= λ p. elim p [
  | Cell.whole r ↦ ok (c.reg r)
  | Cell.low r ↦ ok (c.reg r)
  | Cell.high r ↦ stop CpuFault.not_modelled
]

module _ {D : Type 0} where
  -- An instruction that works on the processor alone, and the step behind it.
  abbrev pub on_state : Machine D → Running CpuState → Running (Machine D)
  on_state m run = run >>= λ c. ok (stepped (record m { state = c }))

  -- A comparison with the value of a register, and the step behind it.
  abbrev pub on_flag : Machine D → ℕ → (ℕ → Bool) → Running (Machine D)
  on_flag m left test = r_load left m.state >>= λ value. ok (stepped (record m { cf = test value }))

  -- `jmp` and the jumps that are taken.
  abbrev pub jumped : Machine D → ℕ → Machine D
  jumped m addr = record m { state = r_store ip addr m.state }

  -- `call`.
  unfoldable pub i_call : Machine D → ℕ → Running (Machine D)
  i_call m addr =
      push_word (u16 (reg m ip + 4)) m.state >>= λ c. ok (jumped (record m { state = c }) addr)

  -- `ret`.
  unfoldable pub i_ret : Machine D → Running (Machine D)
  i_ret m = read16 (reg m sp) m.state >>= λ addr.
      ok (record m { state = r_store sp (reg m sp + 2) (r_store ip addr m.state) })

  -- The `switch` of the main loop, with the step to the next instruction.
  unfoldable pub execute : Instruction → Machine D → Running (Machine D)
  execute Instruction.nop m = ok (stepped m)
  execute Instruction.cpucall m = cpucall m
  execute Instruction.rti m = ok (rti m)
  execute Instruction.sti m = ok (stepped (record m { interrupts = true }))
  execute Instruction.dsi m = ok (stepped (record m { interrupts = false }))
  execute Instruction.cfs m = ok (stepped (record m { cf = not m.cf }))
  execute Instruction.ret m = i_ret m
  execute (Instruction.push r) m = on_state m (i_push r m.state)
  execute (Instruction.push8 value) m = on_state m (push_byte value m.state)
  execute (Instruction.push16 value) m = on_state m (push_word value m.state)
  execute (Instruction.pop r) m = on_state m (i_pop r m.state)
  execute (Instruction.null r) m = on_state m (i_null r m.state)
  execute (Instruction.not r) m = on_state m (i_not r m.state)
  execute (Instruction.callr r) m = push_word (u16 (reg m ip + 4)) m.state >>= λ c.
      callr_address r c >>= λ addr. ok (jumped (record m { state = c }) addr)
  execute (Instruction.jmp addr) m = ok (jumped m addr)
  execute (Instruction.jeq addr) m = ok (if m.cf then jumped m addr else stepped m)
  execute (Instruction.call addr) m = i_call m addr
  execute (Instruction.load r p) m = on_state m (i_load r p m.state)
  execute (Instruction.store r p) m = on_state m (i_store r p m.state)
  execute (Instruction.load16 r addr) m = on_state m (i_load16 r addr m.state)
  execute (Instruction.store16 r addr) m = on_state m (i_store16 r addr m.state)
  execute (Instruction.jnz r addr) m =
      r_load r m.state >>= λ value. ok (if value == 0 then stepped m else jumped m addr)
  execute (Instruction.shr r s) m =
      on_state m (r_load s m.state >>= λ count. i_shr r (u8 count) m.state)
  execute (Instruction.shr8 r count) m = on_state m (i_shr r count m.state)
  execute (Instruction.shl r s) m =
      on_state m (r_load s m.state >>= λ count. i_shl r (u8 count) m.state)
  execute (Instruction.shl8 r count) m = on_state m (i_shl r count m.state)
  execute (Instruction.operation o r s) m =
      on_state m (r_load s m.state >>= λ right. i_operation o r right m.state)
  execute (Instruction.operation_imm o r value) m = on_state m (i_operation o r value m.state)
  execute (Instruction.comparison o r s) m =
      r_load s m.state >>= λ right. on_flag m r (λ left. compares o left right)
  execute (Instruction.comparison8 o r value) m = on_flag m r (λ left. compares8 o left value)
  execute (Instruction.comparison16 o r value) m = on_flag m r (λ left. compares o left value)

  -- What happens before an instruction.
  unfoldable pub polled : Machine D → Machine D
  polled m = if m.interrupts && not m.in_interrupt then poll_devices m else m

  -- One round of `mainloop`.
  unfoldable pub cycle : Machine D → Running (Machine D)
  cycle m = fetch (polled m).state >>= λ i. execute i (polled m)

  -- `mainloop`, for a number of rounds.
  unfoldable pub mainloop : ℕ → Machine D → Running (Machine D)
  mainloop zero m = ok m
  mainloop (suc n) m = cycle m >>= mainloop n
