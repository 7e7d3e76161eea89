-- ===== src/Tests/Emulator.antt =====
-- The processor on small memories.
use irid.Base.{
  ◌==◌, if◌then◌else◌, ℕ, ◌+◌, ◌≡◌, ◌≢◌, refl, true, false, List, [], ◌∷◌, none, some, ok, arith,
  get_elem?,
}
use irid.Base.Bytes.{Bytes}
use irid.Emul.Cpu.{sp, Register, CpuState, r_store, write16}
use irid.Emul.Registers.{Cell, ip, register_at, regptr, r_load, r_put, read8}
use irid.Emul.Instructions.{push_word}
use irid.Emul.Decode.{Instruction, read_form, fetch}
use irid.Emul.Devices.{Device, Machine, issue_interrupt, poll_device, poll_devices, reg, rti}
use irid.Emul.Machine.{i_call, i_ret, execute, polled, cycle}
use irid.Emul.Halves.{r_load-r_put}
use irid.Emul.Calls.{call_returns}
use irid.Emul.Interrupts.{Handler, entered, round, interrupt_returns, two_interrupts}

-- A processor whose memory begins with the bytes.
abbrev pub cpu_with : Bytes → ℕ → CpuState
cpu_with bytes size = record {
  reg = λ r. r + 1;
  mem = λ a. elim (get_elem? bytes a) [ none ↦ 0 | some b ↦ b ];
  total_size = size;
}

-- Writing `h1` and then looking at `l1`.
r_load-r_put_example :
    (d : CpuState) × (r_put 0x11 0x1234 (cpu_with [] 64) ≡ ok d)
    × (r_load 0x11 d ≡ ok 0x34)
    × (r_load 0x21 d ≡ r_load 0x21 (cpu_with [] 64))
unfolding regptr register_at
r_load-r_put_example =
    r_load-r_put 0x11 0x21 (Cell.low 1) (Cell.high 1) 0x1234 (cpu_with [] 64) refl refl tt

abbrev device : ℕ → Device (Unit {0})
device addr = record {
  id = 1;
  interrupt_ptr = addr;
  name = [];
  state = tt;
  write = none;
  read = none;
  poll = some (λ s. (true, s));
}

abbrev machine : Bytes → List (Device (Unit {0})) → Machine (Unit {0})
machine bytes devices = record {
  state = cpu_with bytes 256;
  cf = true;
  cached = (λ r. 0, false);
  interrupts = true;
  in_interrupt = false;
  devices = devices;
}

-- A handler at 0, which is a `sti` and an `rti`.
abbrev handler_bytes : Bytes
handler_bytes = 0x03 ∷ 0 ∷ 0 ∷ 0 ∷ 0x02 ∷ 0 ∷ 0 ∷ 0 ∷ []

abbrev running : Machine (Unit {0})
running = machine handler_bytes []

abbrev inside : Machine (Unit {0})
inside = record running {
  in_interrupt = true;
  cached = (running.state.reg, true);
  state = record running.state { reg = λ r. if r == ip then 0 else r + 1 };
}

abbrev at_rti : Machine (Unit {0})
at_rti = record inside {
  state = record running.state { reg = λ r. if r == ip then 4 else inside.state.reg r };
}

abbrev resumed : Machine (Unit {0})
resumed = record at_rti { state = running.state; cf = true; in_interrupt = false }

handler_runs : Handler (issue_interrupt 0 running) at_rti
unfolding issue_interrupt cycle execute polled fetch read_form read8 r_store
handler_runs = round inside Instruction.sti (entered inside) refl (λ e. cc) refl

fetched_rti : fetch (polled at_rti).state ≡ ok Instruction.rti
unfolding polled fetch read_form read8
fetched_rti = refl

ran_rti : cycle at_rti ≡ ok resumed
unfolding cycle execute polled fetch read_form read8 rti
ran_rti = refl

interrupt_returns_example :
    (resumed.state.reg ≡ running.state.reg)
    × (resumed.cf ≡ running.cf)
    × (resumed.in_interrupt ≡ false)
interrupt_returns_example =
    interrupt_returns running 0 at_rti resumed handler_runs fetched_rti ran_rti

two_interrupts_example :
    ((poll_devices (machine [] (device 100 ∷ device 200 ∷ []))).state.reg ip ≡ 200)
    × ((poll_devices (machine [] (device 100 ∷ device 200 ∷ []))).cached.0 ip ≡ 100)
    × ((i : Register)
        → i ≢ ip
        → (poll_devices (machine [] (device 100 ∷ device 200 ∷ []))).cached.0 i ≡ i + 1)
unfolding poll_device
two_interrupts_example =
    two_interrupts (machine [] (device 100 ∷ device 200 ∷ [])) (device 100) (device 200)
      (device 100) (device 200) 100 200 refl refl refl

-- A call to 100 from the address 113, with the stack pointer at 114.
abbrev caller : Machine (Unit {0})
caller = machine [] []

abbrev callee : Machine (Unit {0})
callee = record caller {
  state = record caller.state {
    reg = λ r. if r == ip then 100 else if r == sp then 112 else r + 1;
    mem = λ a. if a == 113 then 0 else if a == 112 then 117 else 0;
  };
}

called_100 : i_call caller 100 ≡ ok callee
unfolding i_call push_word write16 r_store
called_100 = refl

call_returns_example :
    (reg callee ip ≡ 100)
    × ((l : Machine (Unit {0})) × (i_ret callee ≡ ok l) × (reg l ip ≡ 117) × (reg l sp ≡ 114))
call_returns_example =
    call_returns caller callee callee 100 (omega arith) (omega arith) called_100 refl refl refl refl
