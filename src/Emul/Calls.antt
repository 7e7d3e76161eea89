-- ===== src/Emul/Calls.antt =====
-- Calls and returns.
use irid.Base.{
  ap, ◌∙◌, if◌then◌else◌, ◌==◌, false, leb, Bool-cases, inl, inr, ℕ, ◌+◌, ◌*◌, ◌/◌, ◌≤◌, ◌<◌, ◌≡◌,
  refl, ok, arith,
}
use irid.Base.Results.{>>=-eq-ok}
use irid.Emul.Cpu.{CpuState, sp, u16, u8, r_store, read16, write16}
use irid.Emul.Registers.{ip}
use irid.Emul.Instructions.{push_word}
use irid.Emul.Devices.{Machine, reg}
use irid.Emul.Machine.{jumped, i_call, i_ret}

-- What is on the stack after a word was pushed.
record OnStack (s c : CpuState) (value : ℕ) : Type 0 where
  pointer : c.reg sp + 2 ≡ s.reg sp
  room : c.reg sp + 1 < c.total_size
  low : c.mem (c.reg sp) ≡ u8 value
  high : c.mem (c.reg sp + 1) ≡ u8 (value / 256)

-- The state after a push that does not fault.
abbrev pushed : ℕ → CpuState → CpuState
pushed value s =
    let addr = u16 (s.reg sp + 65534) in
    record (r_store sp (s.reg sp + 65534) s) {
      mem =
          λ a. if a == addr + 1 then u8 (value / 256) else if a == addr then u8 value else s.mem a;
    }

pushed-OnStack :
    (value : ℕ) (s : CpuState)
    → 2 ≤ s.reg sp
    → s.reg sp < 65536
    → leb s.total_size (u16 (s.reg sp + 65534) + 1) ≡ false
    → OnStack s (pushed value s) value
unfolding r_store
pushed-OnStack value s two below room = record {
  pointer = omega arith;
  room = ground arith;
  low = ground arith;
  high = ground arith;
}

push_word-OnStack :
    (value : ℕ) (s : CpuState) {c : CpuState}
    → 2 ≤ s.reg sp
    → s.reg sp < 65536
    → push_word value s ≡ ok c
    → OnStack s c value
unfolding push_word write16 r_store
push_word-OnStack value s {c} two below h =
    let positive : (s.reg sp == 0) ≡ false = ground arith in
    elim (Bool-cases (leb s.total_size (u16 (s.reg sp + 65534) + 1))) [
      | inl full ↦ cc (rw (positive, full) at h)
      | inr room ↦
          let e : pushed value s ≡ c = cc (rw (positive, room) at h) in
          rw (← e) (pushed-OnStack value s two below room)
    ]

module _ {D : Type 0} where
  i_ret-ok :
      (k : Machine D) (value : ℕ)
      → value < 65536
      → reg k sp + 1 < k.state.total_size
      → k.state.mem (reg k sp) ≡ u8 value
      → k.state.mem (reg k sp + 1) ≡ u8 (value / 256)
      → (l : Machine D) × (i_ret k ≡ ok l) × (reg l ip ≡ value) × (reg l sp ≡ u16 (reg k sp + 2))
  unfolding i_ret read16 r_store
  i_ret-ok k value small room low high =
      let bytes : u8 (k.state.mem (reg k sp)) + 256 * u8 (k.state.mem (reg k sp + 1)) ≡ value =
        omega arith in
      let inside : leb k.state.total_size (reg k sp + 1) ≡ false = ground arith in
      (
        record k { state = r_store sp (reg k sp + 2) (r_store ip value k.state) },
        rw (inside, bytes) refl,
        ground arith,
        ground arith,
      )

  -- A call that does not fault reaches the address that it names. If later the stack pointer is where the call
  -- left it, and so are the two bytes there and the size of the memory, then `ret` goes to the instruction
  -- behind the call and gives the stack pointer back.
  pub call_returns :
      (m n k : Machine D) (addr : ℕ)
      → 2 ≤ reg m sp
      → reg m sp < 65536
      → i_call m addr ≡ ok n
      → reg k sp ≡ reg n sp
      → k.state.mem (reg n sp) ≡ n.state.mem (reg n sp)
      → k.state.mem (reg n sp + 1) ≡ n.state.mem (reg n sp + 1)
      → k.state.total_size ≡ n.state.total_size
      → (reg n ip ≡ u16 addr)
        × ((l : Machine D) × (i_ret k ≡ ok l)
            × (reg l ip ≡ u16 (reg m ip + 4))
            × (reg l sp ≡ reg m sp))
  unfolding i_call i_ret read16 r_store
  call_returns m n k addr two below calls pointer low high size =
      let (c, e, later) = >>=-eq-ok (push_word (u16 (reg m ip + 4)) m.state) _ calls in
      let there = push_word-OnStack (u16 (reg m ip + 4)) m.state two below e in
      let done : jumped (record m { state = c }) addr ≡ n = cc in
      let at : n.state.reg sp ≡ c.reg sp = rw (← done) refl in
      let low' : n.state.mem (c.reg sp) ≡ c.mem (c.reg sp) = rw (← done) refl in
      let high' : n.state.mem (c.reg sp + 1) ≡ c.mem (c.reg sp + 1) = rw (← done) refl in
      let size' : n.state.total_size ≡ c.total_size = rw (← done) refl in
      let found =
        i_ret-ok k (u16 (reg m ip + 4)) (omega arith)
          (omega (arith, pointer, at, size, size', there.room))
          (ap k.state.mem pointer ∙ low ∙ ap n.state.mem at ∙ low' ∙ there.low)
          (ap (λ a. k.state.mem (a + 1)) pointer
            ∙ high
            ∙ ap (λ a. n.state.mem (a + 1)) at
            ∙ high'
            ∙ there.high) in
      let (l, ends, at_ip, at_sp) = found in
      (rw (← done) refl, (l, ends, at_ip, omega (arith, at_sp, pointer, at, there.pointer)))
