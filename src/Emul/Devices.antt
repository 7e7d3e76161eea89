-- ===== src/Emul/Devices.antt =====
-- emul/src/cpu.cc: the processor with its devices, interrupts and the calls of the processor.
use irid.Base.{
  ◌/◌, ℕ, ◌+◌, ◌*◌, ◌-◌, Bool, true, false, List, [], ◌∷◌, ◌++◌, Option, none, some, ◌==◌, leb, ltb,
  if◌then◌else◌, ok, stop, length, get_elem?, take, replicate,
}
use Prim.Native.Nat.{min}
use irid.Base.Bytes.{Bytes}
use irid.Base.Results.{◌>>=◌}
use irid.Emul.Cpu.{Register, CpuState, CpuFault, Running, u16, u8, r_store}
use irid.Emul.Registers.{Cell, ip, write_cell}

-- `struct device`. What `write`, `read` and `poll` do to the state of the device is a parameter; `none` is a
-- function that is not set.
pub record Device (D : Type 0) : Type 0 where
  pub id : ℕ
  pub interrupt_ptr : ℕ
  pub name : Bytes
  pub state : D
  pub write : Option (D → ℕ → D)
  pub read : Option (D → ℕ × D)
  pub poll : Option (D → Bool × D)

-- `struct cpu`: the registers but the compare flag and the memory are in `state`. `cached` is `m_reg_cache`.
pub record Machine (D : Type 0) : Type 0 where
  pub state : CpuState
  pub cf : Bool
  pub cached : (Register → ℕ) × Bool
  pub interrupts : Bool
  pub in_interrupt : Bool
  pub devices : List (Device D)

-- `memory::write_range`; a range that leaves the memory is undefined behaviour.
unfoldable pub write_range : ℕ → Bytes → CpuState → Running CpuState
write_range dest bs c =
    if ltb c.total_size (dest + length bs)
    then stop CpuFault.undefined
    else ok (record c {
      mem = λ a.
          if leb dest a
          then elim (get_elem? bs (a - dest)) [ none ↦ c.mem a | some b ↦ u8 b ]
          else c.mem a;
    })

-- A call of a function that is not set throws.
abbrev called : {A : Type 0} → Option A → Running A
called none = stop CpuFault.undefined
called (some f) = ok f

module _ {D : Type 0} where
  -- `issue_interrupt`.
  unfoldable pub issue_interrupt : ℕ → Machine D → Machine D
  issue_interrupt addr m = record m {
    in_interrupt = true;
    cached = (m.state.reg, m.cf);
    state = r_store ip addr m.state;
  }

  -- One device in `poll_devices`: the device afterwards, and the interrupt that it asks for.
  unfoldable pub poll_device : Device D → Device D × Option ℕ
  poll_device d = elim d.poll [
    | none ↦ (d, none)
    | some poll ↦
        if d.interrupt_ptr == 0
        then (d, none)
        else let (due, state) = poll d.state in
          (record d { state = state }, if due then some d.interrupt_ptr else none)
  ]

  -- The interrupt that a device has asked for, if any.
  abbrev pub interrupted : Option ℕ → Machine D → Machine D
  interrupted none m = m
  interrupted (some addr) m = issue_interrupt addr m

  -- The loop of `poll_devices`; `before` are the devices that have been polled.
  unfoldable pub poll_from : List (Device D) → List (Device D) → Machine D → Machine D
  poll_from before [] m = record m { devices = before }
  poll_from before (d ∷ ds) m =
      let (d', due) = poll_device d in poll_from (before ++ (d' ∷ [])) ds (interrupted due m)

  -- `poll_devices`.
  unfoldable pub poll_devices : Machine D → Machine D
  poll_devices m = poll_from [] m.devices m

  -- `rti`.
  unfoldable pub rti : Machine D → Machine D
  rti m = record m {
    in_interrupt = false;
    state = record m.state { reg = m.cached.0 };
    cf = m.cached.1;
  }

  -- `initialize`.
  unfoldable pub initialize : Machine D → Machine D
  initialize m = record m { state = record m.state { reg = λ r. 0 }; cf = false }

  -- `m_reg.r1` and its like.
  abbrev pub reg : Machine D → Register → ℕ
  reg m r = m.state.reg r

  -- The loops of `cpucall_deviceintr`, `_devicewrite`, `_deviceread` and `_devicepoll`: the first device with
  -- the id goes through `f`, and what that gives beside the device comes out.
  unfoldable pub with_device :
      {A : Type 0}
      → (Device D → Running (Device D × A))
      → ℕ
      → List (Device D)
      → Running (List (Device D) × Option A)
  with_device f id [] = ok ([], none)
  with_device f id (d ∷ ds) =
      let rest = with_device f id ds in
      if d.id == id
      then (f d >>= λ out. ok (out.0 ∷ ds, some out.1))
      else (rest >>= λ out. ok (d ∷ out.0, out.1))

  -- The ids as words, low byte first.
  unfoldable pub id_bytes : List (Device D) → Bytes
  id_bytes [] = []
  id_bytes (d ∷ ds) = u8 d.id ∷ u8 (d.id / 256) ∷ id_bytes ds

  -- `cpucall_devicelist`.
  unfoldable pub devicelist : Machine D → Running (Machine D)
  devicelist m =
      let to_write = u16 (min (length m.devices) (reg m 2)) in
      write_range (reg m 1) (take (u16 (2 * to_write)) (id_bytes (take to_write m.devices))) m.state
      >>= λ c. ok (record m { state = r_store 2 to_write c })

  -- `struct irid_deviceinfo` of a device.
  unfoldable pub deviceinfo_bytes : Device D → Bytes
  deviceinfo_bytes d =
      take 2 (id_bytes (d ∷ [])) ++ (take 13 d.name ++ replicate (14 - length (take 13 d.name)) 0)

  -- `cpucall_deviceinfo`.
  unfoldable pub deviceinfo : Machine D → List (Device D) → Running (Machine D)
  deviceinfo m [] = ok m
  deviceinfo m (d ∷ ds) =
      let rest = deviceinfo m ds in
      if d.id == reg m 1
      then (write_range (reg m 2) (deviceinfo_bytes d) m.state >>= λ c. ok (record m { state = c }))
      else rest

  -- `cpucall_deviceintr`.
  unfoldable pub deviceintr : Machine D → Running (Machine D)
  deviceintr m =
      with_device {A = ℕ} (λ d. ok (record d { interrupt_ptr = reg m 2 }, 0)) (reg m 1) m.devices
      >>= λ out. ok (record m { devices = out.0 })

  -- `cpucall_devicewrite`.
  unfoldable pub devicewrite : Machine D → Running (Machine D)
  devicewrite m =
      with_device {A = ℕ}
        (λ d. called d.write >>= λ write. ok (record d { state = write d.state (u8 (reg m 2)) }, 0))
        (reg m 1) m.devices
      >>= λ out. ok (record m { devices = out.0 })

  -- `h2` takes what the device gave, if there is one with the id.
  abbrev pub with_h2 : Machine D → List (Device D) × Option ℕ → Machine D
  with_h2 m (ds, none) = record m { devices = ds }
  with_h2 m (ds, some value) = record m {
    devices = ds;
    state = write_cell (Cell.low 2) value m.state;
  }

  -- `cpucall_deviceread`.
  unfoldable pub deviceread : Machine D → Running (Machine D)
  deviceread m =
      with_device
        (λ d. called d.read >>= λ read.
          let (value, state) = read d.state in ok (record d { state = state }, value))
        (reg m 1) m.devices
      >>= λ out. ok (with_h2 m out)

  -- `cpucall_devicepoll`.
  unfoldable pub devicepoll : Machine D → Running (Machine D)
  devicepoll m =
      with_device
        (λ d. called d.poll >>= λ poll.
          let (due, state) = poll d.state in ok (record d { state = state }, if due then 1 else 0))
        (reg m 1) m.devices
      >>= λ out. ok (with_h2 m out)

  -- `m_reg.ip += 4`.
  abbrev pub stepped : Machine D → Machine D
  stepped m = record m { state = r_store ip (reg m ip + 4) m.state }

  -- `cpucall`, and the step behind it; a restart starts the main loop again without it.
  unfoldable pub cpucall : Machine D → Running (Machine D)
  cpucall m =
      let r0 = reg m 0 in
      if r0 == 0x10
      then stop CpuFault.poweroff
      else if r0 == 0x11
      then ok (initialize m)
      else if r0 == 0x12
      then stop CpuFault.user
      else if r0 == 0x13
      then (devicelist m >>= λ n. ok (stepped n))
      else if r0 == 0x14
      then (deviceinfo m m.devices >>= λ n. ok (stepped n))
      else if r0 == 0x15
      then (deviceintr m >>= λ n. ok (stepped n))
      else if r0 == 0x20
      then (devicewrite m >>= λ n. ok (stepped n))
      else if r0 == 0x21
      then (deviceread m >>= λ n. ok (stepped n))
      else if r0 == 0x22
      then (devicepoll m >>= λ n. ok (stepped n))
      else stop CpuFault.cpucall
